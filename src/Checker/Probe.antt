-- ===== src/Checker/Probe.antt =====
-- `queryWithRetries` of src/nawala/checker.go: up to `maxRetries + 1` probes of one server.
pub mod Backoff
pub mod Sequence
pub mod Summaries
pub mod Replies
pub mod Results
pub mod Frame
mod Examples
use nawala_checker.Common.{
  ℕ, zero, suc, ◌+◌, ◌-◌, ◌*◌, ◌%◌, ◌^◌, ◌≡◌, Bool, true, false, Option, none, some, List, [], ◌∷◌,
  ◌++◌, if◌then◌else◌, ltb, ◌==◌, Bytes, Outcome, ok, err,
}
use nawala_checker.Common.Int.{ℤ, pos, negsuc, min_ℤ}
use nawala_checker.Strings.{Unicode}
use nawala_checker.Types.{CtxError, Error, of_context, is_definitive, DnsServer, Result}
use nawala_checker.Network.{Network, Response}
use nawala_checker.ConnPool.{ConnPool}
use nawala_checker.Dns.{DnsQuery, query_dns, contains_keyword}
use nawala_checker.Checker.{Checker, second, find_pool, write_pool}

-- A 64-bit pattern read as an `int64`.
abbrev pub to_int64 : ℕ → ℤ
to_int64 x = if ltb x (2 ^ 63) then pos x else negsuc (2 ^ 64 - 1 - x)

-- `1<<uint(attempt-1)`, in 64 bits; at attempt 0 the shift is by 2^64 - 1.
abbrev pub shifted : ℕ → ℕ
shifted zero = 0
shifted (suc n) = 2 ^ n % 2 ^ 64

-- `min(time.Duration(1<<uint(attempt-1))*time.Second, 30*time.Second)`.
unfoldable pub backoff : ℕ → ℤ
backoff attempt = min_ℤ (to_int64 (shifted attempt * second % 2 ^ 64)) (pos (30 * second))

-- What one probe says.
pub data Verdict : Type 0 where
  -- the function returns
  final : Outcome Error Result → Verdict
  -- another probe may follow
  failed : Error → Verdict
  clean : Verdict

unfoldable pub no_result : Result
no_result = record { domain = []; blocked = false; server = []; error = none }

abbrev pub verdict_of : Bytes → DnsServer → Bool → Result
verdict_of domain srv blocked = record {
  domain = domain;
  blocked = blocked;
  server = srv.address;
  error = none;
}

unfoldable pub judge : Unicode → Bytes → DnsServer → Outcome Error (Option Response) → Verdict
judge u domain srv (err e) = if is_definitive e then final (err e) else failed e
judge u domain srv (ok resp) =
    if contains_keyword u resp srv.keyword then final (ok (verdict_of domain srv true)) else clean

-- Behind the loop: `lastErr` is nil if there was no round, and then so is the error returned.
unfoldable pub finish : Option Error → Option Result → Outcome Error Result
finish last (some best) = ok best
finish none none = ok no_result
finish (some e) none = err e

-- The first result without blocking stays.
abbrev pub keep_best : Option Result → Result → Option Result
keep_best (some r) new = some r
keep_best none new = some new

-- The rounds of a loop that runs for `attempt <= n`, for `n` below the largest integer.
abbrev pub rounds : ℤ → ℕ
rounds (pos n) = suc n
rounds (negsuc n) = zero

module _ {W : Type 0} (net : Network W) where
  -- The wait before a probe, after an error; `some e` if the context ended it.
  unfoldable pub pause : ℕ → Option Error → W → Option CtxError × W
  pause attempt none w = (none, w)
  pause attempt (some e) w = if attempt == 0 then (none, w) else net.wait (backoff attempt) w

module _ {W X : Type 0} (net : Network W) where
  unfoldable pub probe :
      Checker X → Bytes → DnsServer → ℕ → W → Outcome Error (Option Response) × Checker X × W
  probe c domain srv qtype w =
      let (r, p, w') =
        query_dns net
          (record {
            client = c.dns_client;
            pool = find_pool srv.address c.conn_pools;
            domain = domain;
            server = srv.address;
            qtype = qtype;
            edns0_size = c.edns0_size;
          })
          w in
      (r, record c { conn_pools = write_pool srv.address p c.conn_pools }, w')

  module _ (u : Unicode) (domain : Bytes) (srv : DnsServer) (qtype : ℕ) where
    -- The loop: rounds left, number of the attempt, `lastErr`, and `bestResult` if `responded`.
    unfoldable pub probes :
        ℕ → ℕ → Option Error → Option Result → Checker X → W → Outcome Error Result × Checker X × W
    probes zero attempt last best c w = (finish last best, c, w)
    probes (suc left) attempt last best c w =
        let (stopped, w1) = pause net attempt last w in
        elim stopped [
          | some e ↦ (err (of_context e), c, w1)
          | none ↦
              let (r, c', w2) = probe c domain srv qtype w1 in
              elim (judge u domain srv r) [
                | final out ↦ (out, c', w2)
                | failed e ↦ probes left (suc attempt) (some e) best c' w2
                | clean ↦
                    probes left (suc attempt) last (keep_best best (verdict_of domain srv false)) c'
                      w2
              ]
        ]

    unfoldable pub query_with_retries : Checker X → W → Outcome Error Result × Checker X × W
    unfolding probes
    query_with_retries c w = probes (rounds c.max_retries) 0 none none c w
