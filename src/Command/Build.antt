-- ===== src/Command/Build.antt =====
-- internal/cli/root.go: the checker and the time limit of a command.
use nawala_checker.Common.{
  ◌*◌, ◌≡◌, ◌≢◌, ◌⊎◌, refl, sym, ◌∙◌, subst, inl, inr, false, Option, List, [], ◌∷◌, if◌then◌else◌,
  Bytes, Outcome, ok, err, is_empty, arith, Outcome-cases,
}
use nawala_checker.Common.Int.{ℤ, pos, eqb_ℤ}
use nawala_checker.Checker.{Checker, second}
use nawala_checker.Checker.Settings.{Setting}
use nawala_checker.Checker.Create.{new}
use nawala_checker.Checker.Create.Ready.{IsReady, new-IsReady}
use nawala_checker.Strings.{Unicode}
use nawala_checker.Config.Load.{Files, LoadError, load_config}
use nawala_checker.Config.{ConfigError, to_options, parse_command_timeout}

pub data BuildError : Type 0 where
  not_loaded : LoadError → BuildError
  not_configured : ConfigError → BuildError

abbrev pub default_command_timeout : ℤ
default_command_timeout = pos (30 * second)

-- `if cmdTimeout == 0 { … }`
unfoldable pub timeout_or_default : ℤ → ℤ
timeout_or_default t = if eqb_ℤ t (pos 0) then default_command_timeout else t

infixl 5 ◌>>=◌
abbrev ◌>>=◌ : {E A B : Type 0} → Outcome E A → (A → Outcome E B) → Outcome E B
ok a >>= f = f a
err e >>= f = err e

abbrev or_not_loaded : {A : Type 0} → Outcome LoadError A → Outcome BuildError A
or_not_loaded (ok a) = ok a
or_not_loaded (err e) = err (not_loaded e)

abbrev or_not_configured : {A : Type 0} → Outcome ConfigError A → Outcome BuildError A
or_not_configured (ok a) = ok a
or_not_configured (err e) = err (not_configured e)

not_zero : (n : ℤ) → timeout_or_default n ≢ pos 0
unfolding timeout_or_default
not_zero n z = ground arith

module _ {X : Type 0} (files : Files) (u : Unicode) (d : Bytes → Option ℤ) where
  -- Behind the check for an empty path.
  pub build_from : Bytes → Outcome BuildError (Checker X × ℤ)
  unfolding timeout_or_default
  build_from path = do
    cfg ← or_not_loaded (load_config files u path)
    opts ← or_not_configured (to_options d cfg)
    t ← or_not_configured (parse_command_timeout d cfg)
    ok (new opts, timeout_or_default t)

  unfoldable pub build_checker : Bytes → Outcome BuildError (Checker X × ℤ)
  unfolding build_from
  build_checker path =
      if is_empty path then ok (new [], default_command_timeout) else build_from path

  -- The checker of a command is ready for use, as one that `New` makes is, whatever file it comes from;
  -- and the command has a time limit: never zero, and the default where no file is given.
  pub build_checker-IsReady :
      (path : Bytes) (c : Checker X) (t : ℤ)
      → build_checker path ≡ ok (c, t)
      → ((settings : List (Setting X)) × IsReady settings c)
        × (t ≢ pos 0)
        × ((is_empty path ≡ false) ⊎ (t ≡ default_command_timeout))
  unfolding build_checker build_from timeout_or_default
  build_checker-IsReady [] c t h =
      let e : new [] ≡ c = cc in
      let q : default_command_timeout ≡ t = cc in
      (([], subst (IsReady []) e (new-IsReady [])), λ z. absurd (ground (arith, z, q)), inr (sym q))
  build_checker-IsReady (b ∷ path) c t h = elim (Outcome-cases (load_config files u (b ∷ path))) [
    | inr (e, q) ↦ absurd cc
    | inl (cfg, q) ↦ elim (Outcome-cases (to_options {X = X} d cfg)) [
      | inr (e, q2) ↦ absurd cc
      | inl (opts, q2) ↦ elim (Outcome-cases (parse_command_timeout d cfg)) [
        | inr (e, q3) ↦ absurd cc
        | inl (n, q3) ↦
            let c_eq : new opts ≡ c = cc in
            let t_eq : timeout_or_default n ≡ t = cc in
            (
              (opts, subst (IsReady opts) c_eq (new-IsReady opts)),
              λ z. not_zero n (t_eq ∙ z),
              inl refl,
            )
      ]
    ]
  ]
