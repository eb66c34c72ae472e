-- ===== src/Checker/Single.antt =====
-- `checkSingle` of src/nawala/checker.go: normalisation, validation, the cache and the failover.
pub mod Key
pub mod Soundness
mod Examples
use nawala_checker.Common.{
  ℕ, ◌≡◌, Bool, true, false, not, Option, none, some, List, [], ◌∷◌, ◌++◌, if◌then◌else◌, Bytes,
  codes, Outcome, ok, err,
}
use nawala_checker.Strings.{Unicode}
use nawala_checker.Strings.Decimal.{decimal}
use nawala_checker.Domain.{normalize_domain, is_valid_domain}
use nawala_checker.Types.{
  Error, invalid_domain, all_dns_failed, no_dns_servers, is_definitive, DnsServer, Result,
}
use nawala_checker.Network.{Network}
use nawala_checker.Dns.{parse_query_type}
use nawala_checker.Cache.{Cache, CacheOps, cache_get, cache_set}
use nawala_checker.Checker.{Checker, cache_key_prefix}
use nawala_checker.Checker.Probe.{query_with_retries}

-- `fmt.Sprintf("%s:%s:%s:%d", …)`
unfoldable pub raw_key : Bytes → DnsServer → ℕ → Bytes
raw_key domain srv qtype =
    domain ++ b':' ∷ (srv.address ++ b':' ∷ (srv.keyword ++ b':' ∷ decimal qtype))

unfoldable pub cache_key : Option (Bytes → Bytes) → Bytes → DnsServer → ℕ → Bytes
cache_key none domain srv qtype = cache_key_prefix ++ raw_key domain srv qtype
cache_key (some hash) domain srv qtype = cache_key_prefix ++ hash (raw_key domain srv qtype)

unfoldable pub failure : Bytes → Bytes → Error → Result
failure domain server e = record {
  domain = domain;
  blocked = false;
  server = server;
  error = some e;
}

module _ {W X : Type 0} (net : Network W) (ops : CacheOps X) where
  -- The cache, if there is one, is asked for the key.
  look_up_in : Option (Cache X) → Bytes → Checker X → W → Option Result × Checker X
  look_up_in none key c w = (none, c)
  look_up_in (some k) key c w =
      let (r, k') = cache_get ops key (net.now w) k in (r, record c { cache = some k' })

  unfoldable pub look_up : Bytes → Checker X → W → Option Result × Checker X
  unfolding look_up_in
  look_up key c w = look_up_in c.cache key c w

  store_in : Option (Cache X) → Bytes → Result → Checker X → W → Checker X
  store_in none key r c w = c
  store_in (some k) key r c w = record c { cache = some (cache_set ops key r (net.now w) k) }

  unfoldable pub store : Bytes → Result → Checker X → W → Checker X
  unfolding store_in
  store key r c w = store_in c.cache key r c w

module _ {W X : Type 0} (net : Network W) (u : Unicode) (ops : CacheOps X) where
  module _ (domain : Bytes) where
    -- The loop over the snapshot of the servers.
    unfoldable pub try_servers : List DnsServer → Checker X → W → Result × Checker X × W
    try_servers [] c w = (failure domain [] all_dns_failed, c, w)
    try_servers (srv ∷ rest) c w =
        let qtype = parse_query_type u srv.query_type in
        let key = cache_key c.digest_hash domain srv qtype in
        let (cached, c1) = look_up net ops key c w in
        elim cached [
          | some r ↦ (r, c1, w)
          | none ↦
              let (out, c2, w2) = query_with_retries net u domain srv qtype c1 w in
              elim out [
                | ok r ↦ (r, store net ops key r c2 w2, w2)
                | err e ↦ elim (is_definitive e) [
                  | true ↦ (failure domain srv.address e, c2, w2)
                  | false ↦ try_servers rest c2 w2
                ]
              ]
        ]

  unfoldable pub check_single : Bytes → Checker X → W → Result × Checker X × W
  unfolding try_servers
  check_single raw c w =
      let domain = normalize_domain u raw in
      if is_valid_domain domain
      then try_servers domain c.servers c w
      else (failure domain [] (invalid_domain domain), c, w)

  check_one_of : List DnsServer → Bytes → Checker X → W → Outcome Error Result × Checker X × W
  check_one_of [] raw c w = (err no_dns_servers, c, w)
  check_one_of (s ∷ ss) raw c w = let (r, c', w') = check_single raw c w in (ok r, c', w')

  -- `CheckOne`: the error of the second component is the function's own.
  unfoldable pub check_one : Bytes → Checker X → W → Outcome Error Result × Checker X × W
  unfolding check_one_of
  check_one raw c w = check_one_of c.servers raw c w
