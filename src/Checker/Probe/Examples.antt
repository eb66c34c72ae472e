-- ===== src/Checker/Probe/Examples.antt =====
-- Probes at work, and the theorems at them.
use nawala_checker.Common.{
  ◌≡◌, ◌≤◌, ◌+◌, ◌↔◌, refl, none, Bytes, codes, text_eq, true, false, ok, Any, All, length, arith,
}
use nawala_checker.Common.Int.{pos, pos_part}
use nawala_checker.Strings.{Unicode, to_lower, contains, has_prefix, lower_byte}
use nawala_checker.Types.{DnsServer}
use nawala_checker.Network.Samples.{blocking, clear}
use nawala_checker.Dns.{
  query_dns, contains_keyword, conclude, transport, question, classify, by_rcode, server_address,
  default_port,
}
use nawala_checker.Checker.{Checker, defaults, find_pool, write_pool}
use nawala_checker.Checker.Probe.{
  verdict_of, query_with_retries, backoff, probes, probe, pause, judge,
}
use nawala_checker.Checker.Probe.Backoff.{exponential, backoff-exponential, backoff-vanishes}
use nawala_checker.Checker.Probe.Summaries.{Detects}
use nawala_checker.Checker.Probe.Replies.{Clears, IsUndecided}
use nawala_checker.Checker.Probe.Results.{run_of, query_with_retries_verdict}

abbrev identity : Unicode
identity = record { lower = λ s. s; upper = λ s. s; trim = λ s. s }

abbrev server : DnsServer
server = record {
  address = codes "192.0.2.1";
  keyword = codes "internetpositif";
  query_type = codes "A";
}

abbrev checker : Checker Bytes
checker = defaults

blocked :
    (query_with_retries blocking identity (codes "a.com") server 1 checker 0).0
    ≡ ok (verdict_of (codes "a.com") server true)
unfolding query_with_retries probes probe pause judge query_dns conclude transport question classify
    by_rcode server_address default_port contains_keyword to_lower contains has_prefix lower_byte
    find_pool write_pool text_eq
blocked = refl

query_with_retries_verdict_example :
    let s = run_of clear identity (codes "a.com") server 1 checker 0 in
    let result = (query_with_retries clear identity (codes "a.com") server 1 checker 0).0 in
    (length s.replies ≤ pos_part checker.max_retries + 1)
    × ((result ≡ ok (verdict_of (codes "a.com") server true))
        ↔ Any (Detects identity server) s.replies)
    × ((result ≡ ok (verdict_of (codes "a.com") server false)) ↔ (
        (s.stopped ≡ none)
        × All (IsUndecided identity server) s.replies
        × Any (Clears identity server) s.replies))
query_with_retries_verdict_example =
    query_with_retries_verdict clear identity (codes "a.com") server 1 checker 0 (omega arith)

backoff-exponential_example : backoff 3 ≡ exponential 3
backoff-exponential_example = backoff-exponential 3 (omega arith)

backoff-vanishes_example : backoff 70 ≡ pos 0
backoff-vanishes_example = backoff-vanishes 70 (omega arith)
