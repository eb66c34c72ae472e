-- ===== src/Checker/Create/Ready.antt =====
-- Whatever options `New` is given, the checker that it returns is fit to run.
use nawala_checker.Common.{
  ◌≤◌, ◌≡◌, inl, inr, refl, ap, ◌∙◌, sym, subst, Bool, ◌&&◌, ◌||◌, Option, none, some, List, [],
  if◌then◌else◌, Bytes, codes, text_eq, any, All, arith, Bool-cases, Option-cases,
}
use nawala_checker.Common.Int.{ℤ, pos, negsuc, pos_part, min_ℤ, ◌≤ℤ◌}
use nawala_checker.Network.{Client}
use nawala_checker.Cache.{Cache, memory, new_memory_cache}
use nawala_checker.Checker.{Checker, find_pool, defaults, has_server}
use nawala_checker.Checker.Settings.{Setting, apply_all, is_positive}
use nawala_checker.Checker.Create.{
  with_default_cache, default_client, with_default_client, is_pooled, pool_capacity, with_pools,
  new,
}
use nawala_checker.Checker.Create.Asked.{
  IsConfigured, defaults-IsConfigured, apply_all-IsConfigured, apply_all-pools, chosen_from,
  asks_keep_alive, Chosen, apply_all-Chosen, apply_all-keep_alive,
}
use nawala_checker.Checker.Create.PoolTable.{IsFresh, is_some, add_pools-IsFresh, add_pools-find}

-- The cache is what was chosen, or the default one, empty and with the configured TTL.
abbrev pub HasCache : {X : Type 0} → Option (Option (Cache X)) → Checker X → Type 0
HasCache none c = c.cache ≡ some (memory (new_memory_cache c.cache_ttl))
HasCache (some k) c = c.cache ≡ k

-- The transport has connections.
abbrev pub is_stream : {X : Type 0} → Checker X → Bool
is_stream c = text_eq c.dns_protocol (codes "tcp") || text_eq c.dns_protocol (codes "tcp-tls")

-- A checker that is fit to run, and has what the options ask for.
pub record IsReady {X : Type 0} (settings : List (Setting X)) (c : Checker X) : Type 0 where
  pub configured : IsConfigured c
  pub client : ¬ (c.dns_client ≡ none)
  pub cache : HasCache (chosen_from none settings) c
  pub fresh : All IsFresh c.conn_pools
  pub pooled :
      (a : Bytes)
      → is_some (find_pool a c.conn_pools)
        ≡ (any asks_keep_alive settings && (is_stream c && has_server a c))

module _ {X : Type 0} where
  capacity_pos : (c : Checker X) → IsConfigured c → 1 ≤ pos_part (pool_capacity c)
  unfolding pool_capacity is_positive
  capacity_pos c v = go c.pool_size c.concurrency v.some_concurrency
    where
      go : (n m : ℤ) → pos 1 ≤ℤ m → 1 ≤ pos_part (if is_positive n then n else min_ℤ m (pos 10))
      go (pos n) (pos m) h = ground arith
      go (pos n) (negsuc m) h = ground arith
      go (negsuc n) (pos m) h = ground arith
      go (negsuc n) (negsuc m) h = ground arith

  Cached-pools :
      (o : Option (Option (Cache X))) (c d : Checker X)
      → d.cache ≡ c.cache
      → d.cache_ttl ≡ c.cache_ttl
      → HasCache o c
      → HasCache o d
  Cached-pools none c d h k v = h ∙ v ∙ ap (λ n. some (memory (new_memory_cache n))) (sym k)
  Cached-pools (some x) c d h k v = h ∙ v

  with_pools-IsReady :
      (settings : List (Setting X)) (c : Checker X)
      → IsConfigured c
      → ¬ (c.dns_client ≡ none)
      → HasCache (chosen_from none settings) c
      → c.keep_alive ≡ any asks_keep_alive settings
      → c.conn_pools ≡ []
      → IsReady settings (with_pools c)
  unfolding with_pools has_server is_pooled find_pool
  with_pools-IsReady settings c v client cache alive e = elim (Bool-cases (is_pooled c)) [
    | inl q ↦
        rw (q, with_pools)
          (record {
            configured = record {
              some_concurrency = v.some_concurrency;
              some_retries = v.some_retries;
              some_buffer = v.some_buffer;
              known_protocol = v.known_protocol;
            };
            client = client;
            cache = Cached-pools (chosen_from none settings) c _ refl refl cache;
            fresh = add_pools-IsFresh c.dns_client _ c.servers [] (capacity_pos c v) tt;
            pooled = λ a. ground (
              arith,
              q,
              alive,
              add_pools-find c.dns_client (pos_part (pool_capacity c)) c.servers [] a,
            );
          })
    | inr q ↦
        rw (q, with_pools)
          (record {
            configured = v;
            client = client;
            cache = cache;
            fresh = subst (All IsFresh) (sym e) tt;
            pooled = λ a. ground (arith, q, alive, ap (find_pool a) e);
          })
  ]

  -- What the default cache and the default client leave as it was.
  abbrev Leaves : Checker X → Checker X → Type 0
  Leaves c d = IsConfigured d × (d.keep_alive ≡ c.keep_alive) × (d.conn_pools ≡ c.conn_pools)

  cache_lem :
      (o : Option (Option (Cache X))) (c : Checker X)
      → IsConfigured c
      → Chosen o c
      → HasCache o (with_default_cache c) × Leaves c (with_default_cache c)
  unfolding with_default_cache
  cache_lem none c v k = rw k (refl, (ground (arith, v), refl, refl))
  cache_lem (some x) c v (set, k) = rw set (k, (ground (arith, v), refl, refl))

  client_lem :
      (o : Option (Option (Cache X))) (c : Checker X)
      → IsConfigured c
      → HasCache o c
      → HasCache o (with_default_client c)
        × (¬ ((with_default_client c).dns_client ≡ none))
        × Leaves c (with_default_client c)
  unfolding with_default_client
  client_lem o c v k =
      let d : Checker X = record c { dns_client = some (default_client c) } in
      let pick : Option Client → Checker X = λ o. elim o [ none ↦ d | some x ↦ c ] in
      let goal : Checker X → Type 0 = λ e. HasCache o e × (¬ (e.dns_client ≡ none)) × Leaves c e in
      elim (Option-cases c.dns_client) [
        | inl e ↦
            subst goal (ap pick (sym e))
              (Cached-pools o c d refl refl k, λ q. cc, (ground (arith, v), refl, refl))
        | inr (x, e) ↦ subst goal (ap pick (sym e)) (k, λ q. cc, (v, refl, refl))
      ]

  -- Whatever options `New` is given and in whatever order, the checker that it returns runs at least
  -- one check at a time, never has a negative number of retries nor an empty buffer, has one of the
  -- three protocols and a DNS client. Its cache is that of the last `WithCache` among the options, and
  -- if there is none an empty in-memory cache with the configured TTL. It has a pool for an address
  -- exactly when a `WithKeepAlive` is among the options, the protocol is "tcp" or "tcp-tls", and a
  -- server has the address; each pool is for its address, empty, and has room for a connection.
  pub new-IsReady : (settings : List (Setting X)) → IsReady settings (new settings)
  unfolding new
  new-IsReady settings =
      let c : Checker X = apply_all settings defaults in
      let v = apply_all-IsConfigured settings defaults defaults-IsConfigured in
      let asked = chosen_from none settings in
      let (cached, left) = cache_lem asked c v (apply_all-Chosen settings none defaults refl) in
      let (held, client, rest) = client_lem asked (with_default_cache c) left.0 cached in
      with_pools-IsReady settings _ rest.0 client held
        (ground (arith, left.1, rest.1, apply_all-keep_alive settings defaults))
        (rest.2 ∙ left.2 ∙ apply_all-pools settings defaults)
