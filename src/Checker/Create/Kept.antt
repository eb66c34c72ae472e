-- ===== src/Checker/Create/Kept.antt =====
-- What `New` leaves as the options made it, and the cache that it makes.
use nawala_checker.Common.{◌≡◌, ◌∙◌, some, List, if◌then◌else◌, arith}
use nawala_checker.Cache.{memory, new_memory_cache}
use nawala_checker.Checker.{Checker, defaults}
use nawala_checker.Checker.Settings.{Setting, apply_all}
use nawala_checker.Checker.Create.{new, with_default_cache, with_default_client, with_pools}

module _ {X : Type 0} where
  -- What `New` leaves as the options made it.
  pub record Kept (c d : Checker X) : Type 0 where
    pub timeout : d.timeout ≡ c.timeout
    pub max_retries : d.max_retries ≡ c.max_retries
    pub cache_ttl : d.cache_ttl ≡ c.cache_ttl
    pub cache_set : d.cache_set ≡ c.cache_set
    pub concurrency : d.concurrency ≡ c.concurrency
    pub edns0_size : d.edns0_size ≡ c.edns0_size
    pub protocol : d.dns_protocol ≡ c.dns_protocol
    pub tls_server_name : d.tls_server_name ≡ c.tls_server_name
    pub tls_skip_verify : d.tls_skip_verify ≡ c.tls_skip_verify
    pub keep_alive : d.keep_alive ≡ c.keep_alive
    pub servers : d.servers ≡ c.servers

  kept : (c d : Checker X) → c ≡ d → Kept c d
  kept c d e = record {
    timeout = cc;
    max_retries = cc;
    cache_ttl = cc;
    cache_set = cc;
    concurrency = cc;
    edns0_size = cc;
    protocol = cc;
    tls_server_name = cc;
    tls_skip_verify = cc;
    keep_alive = cc;
    servers = cc;
  }

  with_default_cache-Kept : (c : Checker X) → Kept c (with_default_cache c)
  unfolding with_default_cache
  with_default_cache-Kept c = ground arith

  with_default_client-Kept : (c : Checker X) → Kept c (with_default_client c)
  unfolding with_default_client
  with_default_client-Kept c = ground arith

  with_pools-Kept : (c : Checker X) → Kept c (with_pools c)
  unfolding with_pools
  with_pools-Kept c = ground arith

  Kept-trans : (a b c : Checker X) → Kept a b → Kept b c → Kept a c
  Kept-trans a b c h k = record {
    timeout = k.timeout ∙ h.timeout;
    max_retries = k.max_retries ∙ h.max_retries;
    cache_ttl = k.cache_ttl ∙ h.cache_ttl;
    cache_set = k.cache_set ∙ h.cache_set;
    concurrency = k.concurrency ∙ h.concurrency;
    edns0_size = k.edns0_size ∙ h.edns0_size;
    protocol = k.protocol ∙ h.protocol;
    tls_server_name = k.tls_server_name ∙ h.tls_server_name;
    tls_skip_verify = k.tls_skip_verify ∙ h.tls_skip_verify;
    keep_alive = k.keep_alive ∙ h.keep_alive;
    servers = k.servers ∙ h.servers;
  }

  pub new-Kept : (settings : List (Setting X)) → Kept (apply_all settings defaults) (new settings)
  unfolding new
  new-Kept settings =
      let a : Checker X = apply_all settings defaults in
      let b = with_default_cache a in
      let c = with_default_client b in
      Kept-trans a b (with_pools c) (with_default_cache-Kept a)
        (Kept-trans b c (with_pools c) (with_default_client-Kept b) (with_pools-Kept c))

  -- The cache of a checker that `New` makes, by what the options left.
  pub new-cache :
      (settings : List (Setting X))
      → let c : Checker X = apply_all settings defaults in
        (new settings).cache
        ≡ (if c.cache_set then c.cache else some (memory (new_memory_cache c.cache_ttl)))
  unfolding new
  new-cache settings =
      let a : Checker X = apply_all settings defaults in
      let b = with_default_cache a in
      let c = with_default_client b in pools_cache c ∙ client_cache b ∙ default_cache a
    where
      pools_cache : (c : Checker X) → (with_pools c).cache ≡ c.cache
      pools_cache c = unfold with_pools in ground arith

      client_cache : (c : Checker X) → (with_default_client c).cache ≡ c.cache
      client_cache c = unfold with_default_client in ground arith

      default_cache :
          (c : Checker X)
          → (with_default_cache c).cache
            ≡ (if c.cache_set then c.cache else some (memory (new_memory_cache c.cache_ttl)))
      default_cache c = unfold with_default_cache in ground arith
