-- ===== src/Config/Effective.antt =====
-- internal/cli/config_cmd.go: the configuration that `nawala config` prints.
use nawala_checker.Common.{
  ℕ, ◌*◌, ◌==◌, ◌≡◌, refl, sym, ap, ◌∙◌, subst, inl, inr, Bool, true, false, Option, none, some,
  List, [], ◌∷◌, if◌then◌else◌, Bytes, codes, ok, is_empty, arith, Option-cases, Bool-cases,
  text_eq,
}
use nawala_checker.Common.Int.{ℤ, pos}
use nawala_checker.Types.{DnsServer}
use nawala_checker.Cache.{Cache, memory, new_memory_cache}
use nawala_checker.Checker.{Checker, defaults, default_servers, second}
use nawala_checker.Checker.Settings.{
  Setting, retries_of, is_positive, is_protocol, dedupe, dedupe_from, same_server,
}
use nawala_checker.Checker.Create.{new}
use nawala_checker.Config.{Config, to_options, invalid_timeout, invalid_cache_ttl}
use nawala_checker.Config.Options.{
  configured, to_options_configures, duration_or, given_or, wanted_or,
}
use nawala_checker.Config.Errors.{IsUnreadable, to_options_errors}
use nawala_checker.Checker.Create.Kept.{Kept, new-Kept, new-cache}

pub record EffectiveConfig : Type 0 where
  pub timeout : Bytes
  pub command_timeout : Bytes
  pub max_retries : ℤ
  pub cache_ttl : Bytes
  pub disable_cache : Bool
  pub concurrency : ℤ
  pub edns0_size : ℕ
  pub protocol : Bytes
  pub tls_server_name : Bytes
  pub tls_skip_verify : Bool
  pub keep_alive_pool_size : ℤ
  pub servers : List DnsServer

abbrev pub coalesce {ℓ} : {A : Type ℓ} → Option A → A → A
coalesce (some a) def = a
coalesce none def = def

-- `if cfg.Timeout != "" { eff.Timeout = cfg.Timeout }`
abbrev pub unless_empty : Bytes → Bytes → Bytes
unless_empty s def = if is_empty s then def else s

-- The printed durations are `(5 * time.Second).String()` and the like.
abbrev default_config : EffectiveConfig
default_config = record {
  timeout = codes "5s";
  command_timeout = codes "30s";
  max_retries = pos 2;
  cache_ttl = codes "5m0s";
  disable_cache = false;
  concurrency = pos 100;
  edns0_size = 1232;
  protocol = codes "udp";
  tls_server_name = [];
  tls_skip_verify = false;
  keep_alive_pool_size = pos 0;
  servers = default_servers;
}

unfoldable pub resolve_effective_config : Option Config → EffectiveConfig
resolve_effective_config none = default_config
resolve_effective_config (some cfg) = record {
  max_retries = coalesce cfg.max_retries (pos 2);
  disable_cache = coalesce cfg.disable_cache false;
  concurrency = coalesce cfg.concurrency (pos 100);
  edns0_size = coalesce cfg.edns0_size 1232;
  tls_skip_verify = coalesce cfg.tls_skip_verify false;
  keep_alive_pool_size = coalesce cfg.keep_alive_pool_size (pos 0);
  timeout = unless_empty cfg.timeout (codes "5s");
  command_timeout = unless_empty cfg.command_timeout (codes "30s");
  cache_ttl = unless_empty cfg.cache_ttl (codes "5m0s");
  protocol = unless_empty cfg.protocol (codes "udp");
  tls_server_name = unless_empty cfg.tls_server_name [];
  servers = coalesce cfg.servers default_servers;
}

module _ {X : Type 0} where
  -- The checker works as the printed configuration says. A value that the options refuse is printed as
  -- it is: the checker has its default in place of it, and one server for equal ones.
  pub record Agrees (d : Bytes → Option ℤ) (e : EffectiveConfig) (c : Checker X) : Type 0 where
    pub timeout : d e.timeout ≡ some c.timeout
    pub max_retries : c.max_retries ≡ retries_of e.max_retries
    pub cache_ttl : d e.cache_ttl ≡ some c.cache_ttl
    pub cache_set : c.cache_set ≡ e.disable_cache
    pub concurrency : c.concurrency ≡ (if is_positive e.concurrency then e.concurrency else pos 100)
    pub edns0_size : c.edns0_size ≡ (if e.edns0_size == 0 then 1232 else e.edns0_size)
    pub protocol : c.dns_protocol ≡ (if is_protocol e.protocol then e.protocol else codes "udp")
    pub tls_server_name : c.tls_server_name ≡ e.tls_server_name
    pub tls_skip_verify : c.tls_skip_verify ≡ e.tls_skip_verify
    pub servers : c.servers ≡ dedupe e.servers

-- A text that `toOptions` has not refused is the duration that it was read as.
duration_read :
    (d : Bytes → Option ℤ) (s def : Bytes) (n : ℤ)
    → d def ≡ some n
    → ¬ IsUnreadable d s
    → d (unless_empty s def) ≡ some (duration_or d s n)
duration_read d [] def n h k = h
duration_read d (b ∷ s) def n h k = elim (Option-cases (d (b ∷ s))) [
  | inl q ↦ absurd (k (refl, q))
  | inr (x, q) ↦ rw q
]

refused_neither :
    {X : Type 0} (d : Bytes → Option ℤ) (file : Config) (opts : List (Setting X))
    → to_options d file ≡ ok opts
    → (¬ IsUnreadable d file.timeout) × (¬ IsUnreadable d file.cache_ttl)
refused_neither {X} d file opts h =
    let no_timeout : ¬ IsUnreadable d file.timeout = λ u.
      let q = (to_options_errors {X = X} d file (invalid_timeout file.timeout)).1 (inl (u, refl)) in
      cc in
    (
      no_timeout,
      λ u.
          let q =
            (to_options_errors {X = X} d file (invalid_cache_ttl file.cache_ttl)).1
              (inr (no_timeout, u, refl)) in
          cc,
    )

coalesce_or :
    {A B : Type 0} (f : A → B → B) (g : A → B) (o : Option A) (x : A) (old : B)
    → ((a : A) → f a old ≡ g a)
    → old ≡ g x
    → given_or f o old ≡ g (coalesce o x)
coalesce_or f g none x old h e = e
coalesce_or f g (some a) x old h e = h a

wanted_coalesce : (o : Option Bool) → wanted_or true o false ≡ coalesce o false
wanted_coalesce none = refl
wanted_coalesce (some true) = refl
wanted_coalesce (some false) = refl

default_servers_distinct : dedupe default_servers ≡ default_servers
unfolding dedupe dedupe_from same_server text_eq
default_servers_distinct = refl

module _ {X : Type 0} (d : Bytes → Option ℤ) (file : Config) where
  configured-Agrees :
      (opts : List (Setting X))
      → d (codes "5s") ≡ some (pos (5 * second))
      → d (codes "5m0s") ≡ some (pos (300 * second))
      → to_options d file ≡ ok opts
      → Agrees {X = X} d (resolve_effective_config (some file)) (configured d file defaults)
  unfolding resolve_effective_config retries_of is_positive is_protocol text_eq
  configured-Agrees opts five minutes h =
      let (a, b) = refused_neither d file opts h in
      record {
        timeout = duration_read d file.timeout (codes "5s") _ five a;
        max_retries = coalesce_or _ retries_of file.max_retries (pos 2) _ (λ n. refl) refl;
        cache_ttl = duration_read d file.cache_ttl (codes "5m0s") _ minutes b;
        concurrency =
            coalesce_or _ (λ n. if is_positive n then n else pos 100) file.concurrency (pos 100) _
              (λ n. refl) refl;
        edns0_size =
            coalesce_or _ (λ n. if n == 0 then 1232 else n) file.edns0_size 1232 _ (λ n. refl) refl;
        protocol = protocol_or file.protocol;
        tls_server_name = name_or file.tls_server_name;
        cache_set = wanted_coalesce file.disable_cache;
        tls_skip_verify = wanted_coalesce file.tls_skip_verify;
        servers =
            coalesce_or _ dedupe file.servers default_servers _ (λ s. refl)
              (sym default_servers_distinct);
      }
    where
      protocol_or :
          (s : Bytes)
          → (if is_empty s then codes "udp" else if is_protocol s then s else codes "udp") ≡ (
              if is_protocol (unless_empty s (codes "udp"))
              then unless_empty s (codes "udp")
              else codes "udp")
      protocol_or [] = refl
      protocol_or (c ∷ s) = refl

      name_or : (s : Bytes) → (if is_empty s then [] else s) ≡ unless_empty s []
      name_or [] = refl
      name_or (c ∷ s) = refl

  -- The cache that the printed configuration stands for: none, or a new in-memory cache with the TTL.
  abbrev pub printed_cache : EffectiveConfig → Checker X → Option (Cache X)
  printed_cache e c = if e.disable_cache then none else some (memory (new_memory_cache c.cache_ttl))

  no_cache : (o : Option Bool) → wanted_or {B = Option (Cache X)} none o none ≡ none
  no_cache none = refl
  no_cache (some true) = refl
  no_cache (some false) = refl

  cached :
      (opts : List (Setting X))
      → to_options d file ≡ ok opts
      → Kept (configured d file defaults) (new opts)
      → (configured {X = X} d file defaults).cache_set
        ≡ (resolve_effective_config (some file)).disable_cache
      → (new opts).cache ≡ printed_cache (resolve_effective_config (some file)) (new opts)
  cached opts h k set =
      let made = to_options_configures d file opts defaults h in
      let from_options =
        subst
          (λ (c : Checker X).
            (new opts).cache
            ≡ (if c.cache_set then c.cache else some (memory (new_memory_cache c.cache_ttl))))
          made (new-cache opts) in
      elim (Bool-cases (configured {X = X} d file defaults).cache_set) [
        | inl e ↦ ground (arith, from_options, e, set, no_cache file.disable_cache)
        | inr e ↦ ground (arith, from_options, e, set, k.cache_ttl)
      ]

  -- Where `time.ParseDuration` reads the two default texts, "5s" and "5m0s", as five seconds and five
  -- minutes, and `toOptions` has no error: the checker that `New` makes of the options has every field
  -- as the configuration that `nawala config` prints for the same file says. A refused number of
  -- retries or goroutines, buffer size or protocol is the default in the checker, and equal servers are
  -- one. If the cache is disabled the checker has none, and else it has a new in-memory cache with the
  -- TTL. The size of the pools and the time limit of the command are left aside.
  pub effective_config-Agrees :
      (opts : List (Setting X))
      → d (codes "5s") ≡ some (pos (5 * second))
      → d (codes "5m0s") ≡ some (pos (300 * second))
      → to_options d file ≡ ok opts
      → Agrees d (resolve_effective_config (some file)) (new opts)
        × ((new opts).cache ≡ printed_cache (resolve_effective_config (some file)) (new opts))
  effective_config-Agrees opts five minutes h =
      let v = configured-Agrees opts five minutes h in
      let k =
        subst (λ c. Kept c (new opts)) (to_options_configures d file opts defaults h)
          (new-Kept opts) in
      (
        record {
          timeout = v.timeout ∙ ap some (sym k.timeout);
          max_retries = k.max_retries ∙ v.max_retries;
          cache_ttl = v.cache_ttl ∙ ap some (sym k.cache_ttl);
          cache_set = k.cache_set ∙ v.cache_set;
          concurrency = k.concurrency ∙ v.concurrency;
          edns0_size = k.edns0_size ∙ v.edns0_size;
          protocol = k.protocol ∙ v.protocol;
          tls_server_name = k.tls_server_name ∙ v.tls_server_name;
          tls_skip_verify = k.tls_skip_verify ∙ v.tls_skip_verify;
          servers = k.servers ∙ v.servers;
        },
        cached opts h k v.cache_set,
      )
