-- ===== src/Config/Errors.antt =====
-- When `toOptions` has an error.
use nawala_checker.Common.{
  ◌≡◌, refl, ap, ◌∙◌, ◌⊎◌, ◌↔◌, inl, inr, Bool, true, false, Option, none, some, List, [], ◌∷◌,
  if◌then◌else◌, Bytes, Outcome, ok, err, is_empty, All, Option-cases,
}
use nawala_checker.Common.Int.{ℤ}
use nawala_checker.Checker.Settings.{
  Setting, with_timeout, with_cache_ttl, with_protocol, with_tls_server_name,
}
use nawala_checker.Config.{
  Config, ConfigError, invalid_timeout, invalid_cache_ttl, Parsed, parse_timeout, parse_max_retries,
  parse_cache_ttl, parse_disable_cache, parse_concurrency, parse_edns0_size, parse_protocol,
  parse_tls_server_name, parse_tls_skip_verify, parse_keep_alive, parse_servers, parsers, collect,
  to_options, duration_of, given, wanted, written, after,
}

-- The field is set, and not to a duration.
abbrev pub IsUnreadable : (Bytes → Option ℤ) → Bytes → Type 0
IsUnreadable d s = (is_empty s ≡ false) × (d s ≡ none)

-- The error for a file, if there is one: the timeout is read before the TTL.
abbrev pub Fails : (Bytes → Option ℤ) → Config → ConfigError → Type 0
Fails d file e =
    (IsUnreadable d file.timeout × (e ≡ invalid_timeout file.timeout))
    ⊎ ((¬ IsUnreadable d file.timeout)
        × IsUnreadable d file.cache_ttl
        × (e ≡ invalid_cache_ttl file.cache_ttl))

abbrev IsOk : {A : Type 0} → Outcome ConfigError A → Type 0
IsOk {A} p = (a : A) × (p ≡ ok a)

module _ {X : Type 0} where
  given-IsOk : {A : Type 0} (f : A → Setting X) (o : Option A) → IsOk (given f o)
  given-IsOk f none = (none, refl)
  given-IsOk f (some a) = (some (f a), refl)

  wanted-IsOk : (s : Setting X) (o : Option Bool) → IsOk (wanted s o)
  wanted-IsOk s none = (none, refl)
  wanted-IsOk s (some true) = (some s, refl)
  wanted-IsOk s (some false) = (none, refl)

  written-IsOk : (f : Bytes → Setting X) (s : Bytes) → IsOk (written f s)
  written-IsOk f [] = (none, refl)
  written-IsOk f (b ∷ s) = (some (f (b ∷ s)), refl)

  after-IsOk :
      (o : Option (Setting X)) (r : Outcome ConfigError (List (Setting X)))
      → IsOk r
      → IsOk (after o r)
  after-IsOk o (err e) (a, q) = absurd cc
  after-IsOk none (ok os) h = (os, refl)
  after-IsOk (some x) (ok os) h = (x ∷ os, refl)

  after-err : (o : Option (Setting X)) (e : ConfigError) → after o (err e) ≡ err e
  after-err none e = refl
  after-err (some x) e = refl

  collect-IsOk : (ps : List (Parsed X)) → All IsOk ps → IsOk (collect ps)
  unfolding collect
  collect-IsOk [] h = ([], refl)
  collect-IsOk (ok o ∷ ps) h = after-IsOk o (collect ps) (collect-IsOk ps h.1)
  collect-IsOk (err e ∷ ps) h = absurd (let (a, q) = h.0 in cc)

  duration-cases :
      (d : Bytes → Option ℤ) (s : Bytes) (f : ℤ → Setting X) (e : ConfigError)
      → let p : Parsed X = if is_empty s then ok none else duration_of f e (d s) in
        (IsUnreadable d s × (p ≡ err e)) ⊎ ((¬ IsUnreadable d s) × IsOk p)
  unfolding duration_of
  duration-cases d [] f e = inr (λ h. absurd cc, (none, refl))
  duration-cases d (b ∷ s) f e = elim (Option-cases (d (b ∷ s))) [
    | inl q ↦ inl ((refl, q), ap (duration_of f e) q)
    | inr (x, q) ↦ inr (λ h. absurd cc, (some (f x), ap (duration_of f e) q))
  ]

-- The parsers that cannot fail, behind the TTL's.
rest : (X : Type 0) → Config → List (Parsed X)
rest X c =
    parse_disable_cache c
    ∷ parse_concurrency c
    ∷ parse_edns0_size c
    ∷ parse_protocol c
    ∷ parse_tls_server_name c
    ∷ parse_tls_skip_verify c
    ∷ parse_keep_alive c
    ∷ parse_servers c
    ∷ []

rest-IsOk : (X : Type 0) (c : Config) → All IsOk (rest X c)
unfolding rest parse_disable_cache parse_concurrency parse_edns0_size parse_protocol
    parse_tls_server_name parse_tls_skip_verify parse_keep_alive parse_servers
rest-IsOk X c = (
  wanted-IsOk _ c.disable_cache,
  (
    given-IsOk _ c.concurrency,
    (
      given-IsOk _ c.edns0_size,
      (
        written-IsOk with_protocol c.protocol,
        (
          written-IsOk with_tls_server_name c.tls_server_name,
          (
            wanted-IsOk _ c.tls_skip_verify,
            (given-IsOk _ c.keep_alive_pool_size, (given-IsOk _ c.servers, tt)),
          ),
        ),
      ),
    ),
  ),
)

either : {A : Type 0} (p : Outcome ConfigError A) (e : ConfigError) → IsOk p → ¬ (p ≡ err e)
either p e (a, q) h = cc

module _ {X : Type 0} where
  retries-IsOk : (c : Config) → IsOk (parse_max_retries {X = X} c)
  unfolding parse_max_retries
  retries-IsOk c = given-IsOk _ c.max_retries

  -- The three that matter, and the others.
  late_error :
      (o1 o2 : Option (Setting X)) (e : ConfigError) (p1 p2 p3 : Parsed X) (ps : List (Parsed X))
      → p1 ≡ ok o1
      → p2 ≡ ok o2
      → p3 ≡ err e
      → collect (p1 ∷ p2 ∷ p3 ∷ ps) ≡ err e
  unfolding collect
  late_error o1 o2 e p1 p2 p3 ps q1 q2 q3 =
      ap (λ p. collect (p ∷ p2 ∷ p3 ∷ ps)) q1
      ∙ ap (λ p. after o1 (collect (p ∷ p3 ∷ ps))) q2
      ∙ ap (λ p. after o1 (after o2 (collect (p ∷ ps)))) q3
      ∙ ap (after o1) (after-err o2 e)
      ∙ after-err o1 e

  first_error :
      (e : ConfigError) (p : Parsed X) (ps : List (Parsed X)) → p ≡ err e → collect (p ∷ ps) ≡ err e
  unfolding collect
  first_error e p ps q = ap (λ p. collect (p ∷ ps)) q

  -- For every file: `toOptions` has an error exactly when the timeout is set and is not a duration, or
  -- the timeout is not at fault and the TTL is; and the error quotes the text at fault. No other field
  -- is refused here, and the command timeout is not looked at.
  pub to_options_errors :
      (d : Bytes → Option ℤ) (file : Config) (e : ConfigError)
      → (to_options {X = X} d file ≡ err e) ↔ Fails d file e
  unfolding to_options parsers parse_timeout parse_cache_ttl rest
  to_options_errors d file e =
      elim (duration-cases {X = X} d file.timeout with_timeout (invalid_timeout file.timeout)) [
        | inl (u, q) ↦
            let all : to_options {X = X} d file ≡ err (invalid_timeout file.timeout) =
              first_error _ _ _ q in
            (λ h. inl (u, cc), λ h. elim h [ inl (v, s) ↦ cc | inr (n, v, s) ↦ absurd (n u) ])
        | inr (n, (o1, q1)) ↦
            elim (duration-cases {X = X} d file.cache_ttl with_cache_ttl
              (invalid_cache_ttl file.cache_ttl)) [
                | inl (u, q3) ↦
                    let (o2, q2) = retries-IsOk file in
                    let all : to_options {X = X} d file ≡ err (invalid_cache_ttl file.cache_ttl) =
                      late_error o1 o2 _ _ _ _ (rest X file) q1 q2 q3 in
                    (
                      λ h. inr (n, u, cc),
                      λ h. elim h [ inl (v, s) ↦ absurd (n v) | inr (m, v, s) ↦ cc ],
                    )
                | inr (m, o3) ↦
                    let whole : IsOk (to_options {X = X} d file) =
                      collect-IsOk (parsers d file)
                        ((o1, q1), (retries-IsOk file, (o3, rest-IsOk X file))) in
                    (
                      λ h. absurd (either _ e whole h),
                      λ h. elim h [ inl (v, s) ↦ absurd (n v) | inr (k, v, s) ↦ absurd (m v) ],
                    )
              ]
      ]
