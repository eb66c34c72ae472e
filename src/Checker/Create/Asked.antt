-- ===== src/Checker/Create/Asked.antt =====
-- What the options of `New` make of a checker.
use nawala_checker.Common.{
  ◌≤◌, ◌≡◌, refl, ◌∙◌, Bool, true, false, ◌||◌, Option, none, some, List, [], ◌∷◌, text_eq, any,
  arith,
}
use nawala_checker.Common.Int.{pos, negsuc, ◌≤ℤ◌}
use nawala_checker.Cache.{Cache}
use nawala_checker.Checker.{Checker, defaults}
use nawala_checker.Checker.Settings.{
  Setting, apply, apply_all, is_positive, retries_of, is_protocol, with_max_retries, with_servers,
  with_server, with_timeout, with_cache_ttl, with_cache, with_keep_alive, with_tls_server_name,
  with_tls_skip_verify, with_concurrency, with_dns_client, with_edns0_size, with_protocol,
  with_digests,
}

-- What every option keeps: at least one check at a time, no negative number of retries, a buffer
-- size, a known protocol, and no pool yet.
pub record IsConfigured {X : Type 0} (c : Checker X) : Type 0 where
  pub some_concurrency : pos 1 ≤ℤ c.concurrency
  pub some_retries : pos 0 ≤ℤ c.max_retries
  pub some_buffer : 1 ≤ c.edns0_size
  pub known_protocol : is_protocol c.dns_protocol ≡ true

pub defaults-IsConfigured : {X : Type 0} → IsConfigured (defaults {X = X})
unfolding is_protocol text_eq
defaults-IsConfigured = record {
  some_concurrency = omega arith;
  some_retries = omega arith;
  some_buffer = omega arith;
  known_protocol = refl;
}

module _ {X : Type 0} where
  apply-IsConfigured : (s : Setting X) (c : Checker X) → IsConfigured c → IsConfigured (apply s c)
  unfolding apply retries_of is_positive
  apply-IsConfigured (with_max_retries (pos n)) c v = ground arith
  apply-IsConfigured (with_max_retries (negsuc n)) c v = ground arith
  apply-IsConfigured (with_concurrency (pos n)) c v = ground arith
  apply-IsConfigured (with_concurrency (negsuc n)) c v = ground arith
  apply-IsConfigured (with_dns_client none) c v = ground arith
  apply-IsConfigured (with_dns_client (some x)) c v = ground arith
  apply-IsConfigured (with_digests none) c v = ground arith
  apply-IsConfigured (with_digests (some x)) c v = ground arith
  apply-IsConfigured _ c v = ground arith

  pub apply_all-IsConfigured :
      (ss : List (Setting X)) (c : Checker X) → IsConfigured c → IsConfigured (apply_all ss c)
  unfolding apply_all
  apply_all-IsConfigured [] c v = v
  apply_all-IsConfigured (s ∷ ss) c v =
      apply_all-IsConfigured ss (apply s c) (apply-IsConfigured s c v)

  apply-pools : (s : Setting X) (c : Checker X) → (apply s c).conn_pools ≡ c.conn_pools
  unfolding apply
  apply-pools (with_concurrency n) c = ground arith
  apply-pools (with_dns_client none) c = refl
  apply-pools (with_dns_client (some x)) c = refl
  apply-pools (with_edns0_size n) c = ground arith
  apply-pools (with_protocol n) c = ground arith
  apply-pools (with_digests none) c = refl
  apply-pools (with_digests (some x)) c = refl
  apply-pools _ c = refl

  pub apply_all-pools :
      (ss : List (Setting X)) (c : Checker X) → (apply_all ss c).conn_pools ≡ c.conn_pools
  unfolding apply_all
  apply_all-pools [] c = refl
  apply_all-pools (s ∷ ss) c = apply_all-pools ss (apply s c) ∙ apply-pools s c

-- What the options ask for, read off the list of them: the cache of the last `WithCache`, if there is
-- one, and whether there is a `WithKeepAlive`.
abbrev pub choice : {X : Type 0} → Setting X → Option (Option (Cache X)) → Option (Option (Cache X))
choice (with_cache k) old = some k
choice _ old = old

abbrev pub chosen_from :
    {X : Type 0} → Option (Option (Cache X)) → List (Setting X) → Option (Option (Cache X))
chosen_from old [] = old
chosen_from old (s ∷ ss) = chosen_from (choice s old) ss

abbrev pub asks_keep_alive : {X : Type 0} → Setting X → Bool
asks_keep_alive (with_keep_alive n) = true
asks_keep_alive _ = false

-- The cache of a checker, by what was chosen.
abbrev pub Chosen : {X : Type 0} → Option (Option (Cache X)) → Checker X → Type 0
Chosen none c = c.cache_set ≡ false
Chosen (some k) c = (c.cache_set ≡ true) × (c.cache ≡ k)

module _ {X : Type 0} where
  Chosen-same :
      (o : Option (Option (Cache X))) (c d : Checker X)
      → d.cache_set ≡ c.cache_set
      → d.cache ≡ c.cache
      → Chosen o c
      → Chosen o d
  Chosen-same none c d h k v = h ∙ v
  Chosen-same (some x) c d h k (v, e) = (h ∙ v, k ∙ e)

  apply-Chosen :
      (s : Setting X) (o : Option (Option (Cache X))) (c : Checker X)
      → Chosen o c
      → Chosen (choice s o) (apply s c)
  unfolding apply
  apply-Chosen (with_servers x) o c v = Chosen-same o c _ refl refl v
  apply-Chosen (with_server x) o c v = Chosen-same o c _ refl refl v
  apply-Chosen (with_timeout x) o c v = Chosen-same o c _ refl refl v
  apply-Chosen (with_cache_ttl x) o c v = Chosen-same o c _ refl refl v
  apply-Chosen (with_max_retries x) o c v = Chosen-same o c _ refl refl v
  apply-Chosen (with_concurrency x) o c v = Chosen-same o c _ (ground arith) (ground arith) v
  apply-Chosen (with_keep_alive x) o c v = Chosen-same o c _ refl refl v
  apply-Chosen (with_cache k) o c v = (refl, refl)
  apply-Chosen (with_dns_client none) o c v = v
  apply-Chosen (with_dns_client (some x)) o c v = Chosen-same o c _ refl refl v
  apply-Chosen (with_edns0_size x) o c v = Chosen-same o c _ (ground arith) (ground arith) v
  apply-Chosen (with_protocol x) o c v = Chosen-same o c _ (ground arith) (ground arith) v
  apply-Chosen (with_tls_server_name x) o c v = Chosen-same o c _ refl refl v
  apply-Chosen with_tls_skip_verify o c v = Chosen-same o c _ refl refl v
  apply-Chosen (with_digests none) o c v = v
  apply-Chosen (with_digests (some x)) o c v = Chosen-same o c _ refl refl v

  pub apply_all-Chosen :
      (ss : List (Setting X)) (o : Option (Option (Cache X))) (c : Checker X)
      → Chosen o c
      → Chosen (chosen_from o ss) (apply_all ss c)
  unfolding apply_all
  apply_all-Chosen [] o c v = v
  apply_all-Chosen (s ∷ ss) o c v =
      apply_all-Chosen ss (choice s o) (apply s c) (apply-Chosen s o c v)

  apply-keep_alive :
      (s : Setting X) (c : Checker X) → (apply s c).keep_alive ≡ (asks_keep_alive s || c.keep_alive)
  unfolding apply
  apply-keep_alive (with_concurrency n) c = ground arith
  apply-keep_alive (with_dns_client none) c = refl
  apply-keep_alive (with_dns_client (some x)) c = refl
  apply-keep_alive (with_edns0_size n) c = ground arith
  apply-keep_alive (with_protocol n) c = ground arith
  apply-keep_alive (with_digests none) c = refl
  apply-keep_alive (with_digests (some x)) c = refl
  apply-keep_alive _ c = refl

  pub apply_all-keep_alive :
      (ss : List (Setting X)) (c : Checker X)
      → (apply_all ss c).keep_alive ≡ (any asks_keep_alive ss || c.keep_alive)
  unfolding apply_all
  apply_all-keep_alive [] c = refl
  apply_all-keep_alive (s ∷ ss) c =
      ground (arith, apply_all-keep_alive ss (apply s c), apply-keep_alive s c)
