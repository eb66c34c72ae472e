-- ===== src/Config/Options.antt =====
-- The errors of `toOptions`, and what the options do to a checker.
use nawala_checker.Common.{
  ℕ, ◌≡◌, refl, sym, ap, ◌∙◌, ◌==◌, inl, inr, Bool, true, false, Option, none, some, List, [], ◌∷◌,
  if◌then◌else◌, Bytes, ok, err, is_empty, Bool-cases, Outcome-cases,
}
use nawala_checker.Common.Int.{ℤ}
use nawala_checker.Types.{DnsServer}
use nawala_checker.Checker.{Checker}
use nawala_checker.Checker.Settings.{
  Setting, with_timeout, with_max_retries, with_cache_ttl, with_cache, with_concurrency,
  with_edns0_size, with_protocol, with_tls_server_name, with_tls_skip_verify, with_keep_alive,
  with_servers, apply, apply_all, retries_of, is_positive, is_protocol, dedupe,
}
use nawala_checker.Config.{
  Config, invalid_timeout, invalid_cache_ttl, Parsed, parse_timeout, parse_max_retries,
  parse_cache_ttl, parse_disable_cache, parse_concurrency, parse_edns0_size, parse_protocol,
  parse_tls_server_name, parse_tls_skip_verify, parse_keep_alive, parse_servers, parsers, collect,
  to_options, duration_of, given, wanted, written,
}

-- What a field of the file makes of the value `old` of the checker.
abbrev pub duration_or : (Bytes → Option ℤ) → Bytes → ℤ → ℤ
duration_or parse_duration s old =
    if is_empty s then old else elim (parse_duration s) [ none ↦ old | some d ↦ d ]

abbrev pub given_or : {A B : Type 0} → (A → B → B) → Option A → B → B
given_or f none old = old
given_or f (some a) old = f a old

abbrev pub wanted_or : {B : Type 0} → B → Option Bool → B → B
wanted_or new none old = old
wanted_or new (some b) old = if b then new else old

module _ {X : Type 0} (parse_duration : Bytes → Option ℤ) (file : Config) where
  -- The checker with every field of the file in place of its own; a number of goroutines, a buffer
  -- size or a protocol that the options refuse leaves the checker's, and a negative number of retries
  -- becomes the default of two.
  abbrev pub configured : Checker X → Checker X
  configured c = record c {
    timeout = duration_or parse_duration file.timeout c.timeout;
    max_retries = given_or (λ n old. retries_of n) file.max_retries c.max_retries;
    cache_ttl = duration_or parse_duration file.cache_ttl c.cache_ttl;
    cache = wanted_or none file.disable_cache c.cache;
    cache_set = wanted_or true file.disable_cache c.cache_set;
    concurrency =
        given_or (λ n old. if is_positive n then n else old) file.concurrency c.concurrency;
    edns0_size = given_or (λ n old. if n == 0 then old else n) file.edns0_size c.edns0_size;
    dns_protocol =
        if is_empty file.protocol
        then c.dns_protocol
        else if is_protocol file.protocol
        then file.protocol
        else c.dns_protocol;
    tls_server_name =
        if is_empty file.tls_server_name then c.tls_server_name else file.tls_server_name;
    tls_skip_verify = wanted_or true file.tls_skip_verify c.tls_skip_verify;
    keep_alive = given_or (λ n old. true) file.keep_alive_pool_size c.keep_alive;
    pool_size = given_or (λ n old. n) file.keep_alive_pool_size c.pool_size;
    servers = given_or (λ s old. dedupe s) file.servers c.servers;
  }

module _ {X : Type 0} where
  apply_parsed : Parsed X → Checker X → Checker X
  apply_parsed (err e) c = c
  apply_parsed (ok none) c = c
  apply_parsed (ok (some o)) c = apply o c

  apply_each : List (Parsed X) → Checker X → Checker X
  unfolding apply_parsed
  apply_each [] c = c
  apply_each (p ∷ ps) c = apply_each ps (apply_parsed p c)

  collect_lem :
      (ps : List (Parsed X)) (os : List (Setting X)) (c : Checker X)
      → collect ps ≡ ok os
      → apply_all os c ≡ apply_each ps c
  unfolding collect apply_each apply_all
  collect_lem [] os c h = let e : [] ≡ os = cc in ap (λ x. apply_all x c) (sym e)
  collect_lem (err e ∷ ps) os c h = absurd cc
  collect_lem (ok none ∷ ps) os c h = elim (Outcome-cases (collect ps)) [
    | inr (e, q) ↦ absurd cc
    | inl (r, q) ↦ let e : r ≡ os = cc in ap (λ x. apply_all x c) (sym e) ∙ collect_lem ps r c q
  ]
  collect_lem (ok (some o) ∷ ps) os c h = elim (Outcome-cases (collect ps)) [
    | inr (e, q) ↦ absurd cc
    | inl (r, q) ↦
        let e : o ∷ r ≡ os = cc in ap (λ x. apply_all x c) (sym e) ∙ collect_lem ps r (apply o c) q
  ]

  after_timeout :
      (d : Bytes → Option ℤ) (f : Config) (c : Checker X)
      → apply_parsed (parse_timeout d f) c
        ≡ record c { timeout = duration_or d f.timeout c.timeout }
  unfolding apply_parsed parse_timeout duration_of apply
  after_timeout d f c = cases (is_empty f.timeout) (d f.timeout)
    where
      cases :
          (b : Bool) (o : Option ℤ)
          → apply_parsed
              (if b then ok none else duration_of with_timeout (invalid_timeout f.timeout) o)
              c
            ≡ record c {
              timeout = if b then c.timeout else elim o [ none ↦ c.timeout | some d ↦ d ];
            }
      cases true o = refl
      cases false none = refl
      cases false (some d) = refl

  after_cache_ttl :
      (d : Bytes → Option ℤ) (f : Config) (c : Checker X)
      → apply_parsed (parse_cache_ttl d f) c
        ≡ record c { cache_ttl = duration_or d f.cache_ttl c.cache_ttl }
  unfolding apply_parsed parse_cache_ttl duration_of apply
  after_cache_ttl d f c = cases (is_empty f.cache_ttl) (d f.cache_ttl)
    where
      cases :
          (b : Bool) (o : Option ℤ)
          → apply_parsed
              (if b then ok none else duration_of with_cache_ttl (invalid_cache_ttl f.cache_ttl) o)
              c
            ≡ record c {
              cache_ttl = if b then c.cache_ttl else elim o [ none ↦ c.cache_ttl | some d ↦ d ];
            }
      cases true o = refl
      cases false none = refl
      cases false (some d) = refl

  after_max_retries :
      (o : Option ℤ) (c : Checker X)
      → apply_parsed (given with_max_retries o) c
        ≡ record c { max_retries = given_or (λ n old. retries_of n) o c.max_retries }
  unfolding apply_parsed apply
  after_max_retries none c = refl
  after_max_retries (some n) c = refl

  after_disable_cache :
      (o : Option Bool) (c : Checker X)
      → apply_parsed (wanted (with_cache none) o) c
        ≡ record c { cache = wanted_or none o c.cache; cache_set = wanted_or true o c.cache_set }
  unfolding apply_parsed apply
  after_disable_cache none c = refl
  after_disable_cache (some true) c = refl
  after_disable_cache (some false) c = refl

  after_concurrency :
      (o : Option ℤ) (c : Checker X)
      → apply_parsed (given with_concurrency o) c ≡ record c {
        concurrency = given_or (λ n old. if is_positive n then n else old) o c.concurrency;
      }
  unfolding apply_parsed apply
  after_concurrency none c = refl
  after_concurrency (some n) c = elim (Bool-cases (is_positive n)) [
    | inl e ↦ rw (e, apply) refl
    | inr e ↦ rw (e, apply) refl
  ]

  after_edns0_size :
      (o : Option ℕ) (c : Checker X)
      → apply_parsed (given with_edns0_size o) c
        ≡ record c { edns0_size = given_or (λ n old. if n == 0 then old else n) o c.edns0_size }
  unfolding apply_parsed apply
  after_edns0_size none c = refl
  after_edns0_size (some n) c = elim (Bool-cases (n == 0)) [
    | inl e ↦ rw (e, apply) refl
    | inr e ↦ rw (e, apply) refl
  ]

  after_protocol :
      (s : Bytes) (c : Checker X)
      → apply_parsed (written with_protocol s) c ≡ record c {
        dns_protocol =
            if is_empty s then c.dns_protocol else if is_protocol s then s else c.dns_protocol;
      }
  unfolding apply_parsed apply
  after_protocol [] c = refl
  after_protocol (b ∷ s) c = elim (Bool-cases (is_protocol (b ∷ s))) [
    | inl e ↦ rw (e, apply) refl
    | inr e ↦ rw (e, apply) refl
  ]

  after_tls_server_name :
      (s : Bytes) (c : Checker X)
      → apply_parsed (written with_tls_server_name s) c
        ≡ record c { tls_server_name = if is_empty s then c.tls_server_name else s }
  unfolding apply_parsed apply
  after_tls_server_name [] c = refl
  after_tls_server_name (b ∷ s) c = refl

  after_tls_skip_verify :
      (o : Option Bool) (c : Checker X)
      → apply_parsed (wanted with_tls_skip_verify o) c
        ≡ record c { tls_skip_verify = wanted_or true o c.tls_skip_verify }
  unfolding apply_parsed apply
  after_tls_skip_verify none c = refl
  after_tls_skip_verify (some true) c = refl
  after_tls_skip_verify (some false) c = refl

  after_keep_alive :
      (o : Option ℤ) (c : Checker X)
      → apply_parsed (given with_keep_alive o) c ≡ record c {
        keep_alive = given_or (λ n old. true) o c.keep_alive;
        pool_size = given_or (λ n old. n) o c.pool_size;
      }
  unfolding apply_parsed apply
  after_keep_alive none c = refl
  after_keep_alive (some n) c = refl

  after_servers :
      (o : Option (List DnsServer)) (c : Checker X)
      → apply_parsed (given with_servers o) c
        ≡ record c { servers = given_or (λ s old. dedupe s) o c.servers }
  unfolding apply_parsed apply
  after_servers none c = refl
  after_servers (some s) c = refl

  apply_each-parsers :
      (d : Bytes → Option ℤ) (f : Config) (c : Checker X)
      → apply_each (parsers d f) c ≡ configured d f c
  unfolding apply_each parsers parse_max_retries parse_disable_cache parse_concurrency
      parse_edns0_size parse_protocol parse_tls_server_name parse_tls_skip_verify parse_keep_alive
      parse_servers
  apply_each-parsers d f c =
      rw
        (
          after_timeout d f,
          after_max_retries f.max_retries,
          after_cache_ttl d f,
          after_disable_cache f.disable_cache,
          after_concurrency f.concurrency,
          after_edns0_size f.edns0_size,
          after_protocol f.protocol,
          after_tls_server_name f.tls_server_name,
          after_tls_skip_verify f.tls_skip_verify,
          after_keep_alive f.keep_alive_pool_size,
          after_servers f.servers,
        )
        refl

  -- Where `toOptions` has no error, its options, given to any checker in their order, put every field
  -- of the file in place of the checker's own and touch nothing else: a field that the file leaves
  -- out, and a number of goroutines, a buffer size or a protocol that an option refuses, keeps what the
  -- checker had; a negative number of retries becomes the default of two, whatever the checker had. A
  -- pool size turns keep-alive on whatever its value, 0 included.
  pub to_options_configures :
      (d : Bytes → Option ℤ) (file : Config) (opts : List (Setting X)) (c : Checker X)
      → to_options d file ≡ ok opts
      → apply_all opts c ≡ configured d file c
  unfolding to_options
  to_options_configures d file opts c h =
      collect_lem (parsers d file) opts c h ∙ apply_each-parsers d file c
