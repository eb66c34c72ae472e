-- ===== src/Dns/Examples.antt =====
-- Queries at work, and the theorems at them.
use nawala_checker.Common.{
  ◌≡◌, ◌↔◌, ◌++◌, ℕ, refl, [], ◌∷◌, none, some, codes, text_eq, map, true, false, ok, err, arith,
}
use nawala_checker.Network.{Response}
use nawala_checker.Network.Samples.{blocking, missing, response, timed_out}
use nawala_checker.ConnPool
use nawala_checker.ConnPool.{ConnPool}
use nawala_checker.Strings.{
  Unicode, lower_byte, upper_byte, to_lower, to_upper, trim_space, trim_left, trim_right, is_space,
  contains, has_prefix, trim_prefix_byte, trim_suffix_byte,
}
use nawala_checker.Strings.Case.{trim_ascii}
use nawala_checker.Strings.HostPort.{split_host_port, join_host_port}
use nawala_checker.Types.{Error, is_definitive}
use nawala_checker.Dns.{
  DnsQuery, parse_query_type, type_code, server_address, default_port, transport, query_dns,
  contains_keyword, check_dns_health, question, conclude,
}
use nawala_checker.Dns.Address.{v6_brackets}
use nawala_checker.Dns.Keyword.{Mentions, contains_keyword_iff}
use nawala_checker.Dns.Query.{
  IsDefinitiveErr, Refused, query_dns_definitive, query_dns-Documented, pooled_needs_port,
  check_dns_health_online,
}
use nawala_checker.Dns.QueryType.{parse_query_type_insensitive}

abbrev identity : Unicode
identity = record { lower = λ s. s; upper = λ s. s; trim = λ s. s }

abbrev query : DnsQuery
query = record {
  client = none;
  pool = none;
  domain = codes "a.com";
  server = codes "192.0.2.1";
  qtype = 1;
  edns0_size = 1232;
}

abbrev bare_pool : ConnPool
bare_pool = record { client = none; addr = codes "192.0.2.1"; idle = []; capacity = 3 }

abbrev blocked_reply : Response
blocked_reply = response 0 (codes "x. 60 IN CNAME InternetPositif.id." ∷ [])

program : Unit {0}
unfolding parse_query_type type_code server_address transport query_dns contains_keyword
    check_dns_health to_lower to_upper trim_space trim_left trim_right is_space contains has_prefix
    trim_prefix_byte trim_suffix_byte lower_byte upper_byte split_host_port join_host_port text_eq
    ConnPool.exchange
program = tt

parses : parse_query_type identity (codes " aaaa ") ≡ 28
unfolding program
parses = refl

unknown_type : parse_query_type identity (codes "PTR") ≡ 1
unfolding program
unknown_type = refl

adds_port : server_address none (codes "[2001:db8::1]") ≡ codes "[2001:db8::1]:53"
unfolding program
adds_port = refl

detects : contains_keyword identity (some blocked_reply) (codes "internetPOSITIF") ≡ true
unfolding program
detects = refl

parse_query_type_insensitive_example :
    (parse_query_type identity (map lower_byte (codes " TXT"))
      ≡ parse_query_type identity (codes " TXT"))
    × (parse_query_type identity (trim_ascii (codes " TXT"))
        ≡ parse_query_type identity (codes " TXT"))
parse_query_type_insensitive_example = parse_query_type_insensitive identity (codes " TXT") refl

-- A server in brackets, without a port.
abbrev bracketed : DnsQuery
bracketed = record query { server = b'[' ∷ ((codes "2001:db8:" ++ b':' ∷ codes "1") ++ b']' ∷ []) }

query_dns-Documented_example :
    let (reply, w') =
      missing.exchange none
        (question missing bracketed)
        (b'[' ∷ ((codes "2001:db8:" ++ b':' ∷ codes "1") ++ b']' ∷ b':' ∷ codes "53"))
        0 in
    query_dns missing bracketed 0 ≡ (conclude missing reply w', none, w')
unfolding default_port
query_dns-Documented_example = query_dns-Documented missing bracketed 0 refl (
    v6_brackets {a = codes "2001:db8:"} {b = codes "1"}
      (record { colon = refl; last_colon = refl; no_open = refl; no_close = refl }))

contains_keyword_iff_example :
    (contains_keyword identity (some blocked_reply) (codes "internetpositif") ≡ true)
    ↔ Mentions identity blocked_reply (codes "internetpositif")
contains_keyword_iff_example = contains_keyword_iff identity blocked_reply (codes "internetpositif")

query_dns_definitive_example :
    IsDefinitiveErr (query_dns missing query 0).0 ↔ Refused (transport missing query none 0).0
query_dns_definitive_example = query_dns_definitive missing query 0

pooled_needs_port_example :
    (e : Error) × (w' : ℕ) × (query_dns blocking (record query { pool = some bare_pool }) 0
      ≡ (err e, some bare_pool, w'))
    × (is_definitive e ≡ false)
unfolding program
pooled_needs_port_example =
    pooled_needs_port blocking (λ c a w h. (timed_out, w, ground (arith, h)))
      (record query { pool = some bare_pool }) bare_pool 0 refl refl refl

check_dns_health_online_example :
    let s = (check_dns_health blocking query 0).0 in
    let answer =
      (query_dns blocking (record query { domain = codes "google.com"; qtype = 1 }) 0).0 in
    ((s.online ≡ true) ↔ ((r : Response) × (answer ≡ ok (some r)) × (r.rcode ≡ 0)))
    × ((s.online ≡ true) ↔ (s.error ≡ none))
    × (s.server ≡ codes "192.0.2.1")
check_dns_health_online_example = check_dns_health_online blocking query 0
