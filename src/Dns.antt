-- ===== src/Dns.antt =====
-- src/nawala/dns.go: query types, one DNS query, the keyword search and the health check. The
-- numbers of query types and response codes are those of the DNS library (IANA's).
pub mod QueryType
pub mod Keyword
pub mod Address
pub mod Query
mod Examples
use nawala_checker.Common.{
  ℕ, suc, ◌≡◌, Bool, true, false, ◌||◌, Option, none, some, List, [], ◌∷◌, ◌++◌, ◌==◌,
  if◌then◌else◌, Bytes, codes, text_eq, any, Outcome, ok, err,
}
use nawala_checker.Common.Int.{ℤ, pos, ◌-ℤ◌, quot}
use nawala_checker.Strings.{
  Unicode, to_lower, to_upper, trim_space, trim_prefix_byte, trim_suffix_byte, contains,
}
use nawala_checker.Strings.HostPort.{split_host_port, join_host_port}
use nawala_checker.Network.{Network, Client, Question, Response}
use nawala_checker.Types.{
  CtxError, deadline_exceeded, canceled, NetError, Error, timeout_of_context, timeout_of_network,
  of_network, nxdomain, query_rejected, nil_response, unexpected_rcode, ServerStatus,
}
use nawala_checker.ConnPool.{ConnPool}
use nawala_checker.ConnPool

-- The switch of `parseQueryType`, on the trimmed text in upper case.
unfoldable pub type_code : Bytes → ℕ
type_code t =
    if text_eq t (codes "A")
    then 1
    else if text_eq t (codes "AAAA")
    then 28
    else if text_eq t (codes "CNAME")
    then 5
    else if text_eq t (codes "MX")
    then 15
    else if text_eq t (codes "NS")
    then 2
    else if text_eq t (codes "TXT")
    then 16
    else if text_eq t (codes "SOA")
    then 6
    else if text_eq t (codes "SRV")
    then 33
    else if text_eq t (codes "ANY")
    then 255
    else 1

unfoldable pub parse_query_type : Unicode → Bytes → ℕ
parse_query_type u qtype = type_code (to_upper u (trim_space u qtype))

-- The pool is a pointer in the program: it is given by its contents, and returned with the result.
pub record DnsQuery : Type 0 where
  pub client : Option Client
  pub pool : Option ConnPool
  pub domain : Bytes
  pub server : Bytes
  pub qtype : ℕ
  pub edns0_size : ℕ

unfoldable pub default_port : Option Client → Bytes
default_port none = codes "53"
default_port (some c) = if text_eq c.net (codes "tcp-tls") then codes "853" else codes "53"

-- The server with a port: what `queryDNS` does where `SplitHostPort` fails.
unfoldable pub server_address : Option Client → Bytes → Bytes
unfolding default_port
server_address c server = elim (split_host_port server) [
  | some parts ↦ server
  | none ↦ join_host_port (trim_suffix_byte b']' (trim_prefix_byte b'[' server)) (default_port c)
]

-- The error that `queryDNS` returns for an error of the exchange, by `ctx.Err()`.
unfoldable pub classify : Option CtxError → NetError → Error
classify (some deadline_exceeded) e = timeout_of_context deadline_exceeded
classify (some canceled) e = if e.is_timeout then timeout_of_network e else of_network e
classify none e = if e.is_timeout then timeout_of_network e else of_network e

-- The switch on the response code.
unfoldable pub by_rcode : Option Response → Outcome Error (Option Response)
by_rcode none = ok none
by_rcode (some r) =
    if r.rcode == 3
    then err nxdomain
    else if r.rcode == 1 || (r.rcode == 4 || r.rcode == 5)
    then err (query_rejected r.rcode)
    else ok (some r)

module _ {W : Type 0} (net : Network W) where
  unfoldable pub question : DnsQuery → Question
  question q = record {
    name = net.fqdn q.domain;
    qtype = q.qtype;
    recursion_desired = true;
    edns0_size = q.edns0_size;
  }

  -- The exchange over the pool if there is one, and over a socket of its own if not.
  unfoldable pub transport : DnsQuery → Option ConnPool → W → ConnPool.Reply × Option ConnPool × W
  transport q none w =
      let (r, w') = net.exchange q.client (question q) (server_address q.client q.server) w in
      (r, none, w')
  transport q (some p) w =
      let (r, p', w') = ConnPool.exchange net (question q) p w in (r, some p', w')

  unfoldable pub conclude : ConnPool.Reply → W → Outcome Error (Option Response)
  unfolding classify by_rcode
  conclude (err e) w = err (classify (net.ctx_err w) e)
  conclude (ok r) w = by_rcode r

  unfoldable pub query_dns : DnsQuery → W → Outcome Error (Option Response) × Option ConnPool × W
  unfolding transport conclude
  query_dns q w = let (r, p', w') = transport q q.pool w in (conclude r w', p', w')

unfoldable pub contains_keyword : Unicode → Option Response → Bytes → Bool
contains_keyword u none keyword = false
contains_keyword u (some msg) keyword =
    any (any (λ rr. contains (to_lower u rr) (to_lower u keyword)))
      (msg.answer ∷ msg.ns ∷ msg.extra ∷ [])

-- `time.Since(start).Milliseconds()`, over nanoseconds.
unfoldable pub millis_since : ℤ → ℤ → ℤ
millis_since start now = quot (now -ℤ start) 1000000

offline : Bytes → Error → ServerStatus
offline server e = record { server = server; online = false; latency_ms = pos 0; error = some e }

-- The branches of `checkDNSHealth` behind the query.
unfoldable pub health : Bytes → Outcome Error (Option Response) → ℤ → ServerStatus
unfolding offline
health server (err e) latency = offline server e
health server (ok none) latency = offline server nil_response
health server (ok (some r)) latency =
    if r.rcode == 0
    then record { server = server; online = true; latency_ms = latency; error = none }
    else offline server (unexpected_rcode r.rcode)

module _ {W : Type 0} (net : Network W) where
  unfoldable pub check_dns_health : DnsQuery → W → ServerStatus × Option ConnPool × W
  unfolding health
  check_dns_health q w =
      let start = net.now w in
      let (r, p', w') = query_dns net (record q { domain = codes "google.com"; qtype = 1 }) w in
      (health q.server r (millis_since start (net.now w')), p', w')
