-- ===== src/Checker/Probe/Summaries.antt =====
-- The result of a run of probes, by the verdicts of the run.
use nawala_checker.Common.{
  map, ℕ, ◌≤◌, ◌≡◌, ◌⊎◌, inl, inr, refl, ap, ◌∙◌, sym, subst, ◌↔◌, true, false, Option, none, some,
  List, [], ◌∷◌, Bytes, Outcome, ok, err, length, arith, Option-cases, Bool-cases, any, All, Any,
}
use nawala_checker.Strings.{Unicode}
use nawala_checker.Types.{CtxError, Error, DnsServer, Result}
use nawala_checker.Network.{Response}
use nawala_checker.Dns.{contains_keyword}
use nawala_checker.Checker.Probe.{
  Verdict, final, failed, clean, judge, finish, no_result, verdict_of,
}
use nawala_checker.Checker.Probe.Sequence.{Seen, summary, first_final, last_failure, is_clean}

-- The reply showed the keyword.
abbrev pub Detects : Unicode → DnsServer → Outcome Error (Option Response) → Type 0
Detects u srv (ok resp) = contains_keyword u resp srv.keyword ≡ true
Detects u srv (err e) = ⊥

-- A verdict is that of some reply.
abbrev pub IsJudged : Unicode → Bytes → DnsServer → Verdict → Type 0
IsJudged u domain srv v = (reply : Outcome Error (Option Response)) × (v ≡ judge u domain srv reply)

-- A final verdict ends the run.
abbrev pub EndsFinal : List Verdict → Type 0
EndsFinal [] = Unit
EndsFinal (final o ∷ vs) = vs ≡ []
EndsFinal (failed e ∷ vs) = EndsFinal vs
EndsFinal (clean ∷ vs) = EndsFinal vs

module _ (u : Unicode) (domain : Bytes) (srv : DnsServer) where
  -- What holds of every run with a number of rounds.
  pub record IsRun (left : ℕ) (s : Seen) : Type 0 where
    pub replied : s.verdicts ≡ map (judge u domain srv) s.replies
    pub judged : All (IsJudged u domain srv) s.verdicts
    pub ends : EndsFinal s.verdicts
    pub bounded : length s.verdicts ≤ left
    pub started : s.stopped ≡ none → 1 ≤ left → 1 ≤ length s.verdicts

  pub stopped-IsRun :
      (left : ℕ) (e : CtxError)
      → IsRun left (record { replies = []; verdicts = []; stopped = some e })
  stopped-IsRun left e = record {
    replied = refl;
    judged = tt;
    ends = tt;
    bounded = omega arith;
    started = λ q. cc;
  }

  -- The reply to a probe showed the keyword.
  abbrev pub IsDetection : Verdict → Type 0
  IsDetection v =
      (reply : Outcome Error (Option Response)) × Detects u srv reply
      × (v ≡ judge u domain srv reply)

  -- A probe that decided nothing.
  abbrev pub IsOpen : Verdict → Type 0
  IsOpen v = (v ≡ clean) ⊎ ((e : Error) × (v ≡ failed e))

  pub detect_final :
      (reply : Outcome Error (Option Response))
      → Detects u srv reply
      → judge u domain srv reply ≡ final (ok (verdict_of domain srv true))
  unfolding judge
  detect_final (ok resp) h = rw h
  detect_final (err e) h = elim h [ ]

  pub final_detect :
      (reply : Outcome Error (Option Response)) (r : Result)
      → judge u domain srv reply ≡ final (ok r)
      → Detects u srv reply × (r ≡ verdict_of domain srv true)
  unfolding judge
  final_detect (ok resp) r h = ground arith
  final_detect (err e) r h = absurd (ground arith)

  detection_first :
      (vs : List Verdict)
      → EndsFinal vs
      → Any IsDetection vs
      → first_final vs ≡ some (ok (verdict_of domain srv true))
  unfolding first_final
  detection_first [] v a = elim a [ ]
  detection_first (final o ∷ vs) v (inl (reply, d, e)) = cc (e, detect_final reply d)
  detection_first (final o ∷ vs) v (inr a) = absurd (subst (Any IsDetection) v a)
  detection_first (failed x ∷ vs) v (inl (reply, d, e)) = cc (e, detect_final reply d)
  detection_first (failed x ∷ vs) v (inr a) = detection_first vs v a
  detection_first (clean ∷ vs) v (inl (reply, d, e)) = cc (e, detect_final reply d)
  detection_first (clean ∷ vs) v (inr a) = detection_first vs v a

  pub first-IsDetection :
      (vs : List Verdict) (r : Result)
      → All (IsJudged u domain srv) vs
      → first_final vs ≡ some (ok r)
      → Any IsDetection vs × (r ≡ verdict_of domain srv true)
  unfolding first_final
  first-IsDetection [] r j h = cc
  first-IsDetection (final o ∷ vs) r ((reply, e), j) h =
      let (d, q) = final_detect reply r (sym e ∙ cc) in (inl (reply, d, e), q)
  first-IsDetection (failed x ∷ vs) r (_, j) h =
      let (a, q) = first-IsDetection vs r j h in (inr a, q)
  first-IsDetection (clean ∷ vs) r (_, j) h = let (a, q) = first-IsDetection vs r j h in (inr a, q)

  pub IsOpen-first : (vs : List Verdict) → (first_final vs ≡ none) ↔ All IsOpen vs
  unfolding first_final
  IsOpen-first [] = (λ h. tt, λ h. refl)
  IsOpen-first (final o ∷ vs) = (λ h. cc, λ (a, r). elim a [ inl q ↦ cc | inr (e, q) ↦ cc ])
  IsOpen-first (failed e ∷ vs) =
      (λ h. (inr (e, refl), (IsOpen-first vs).0 h), λ (a, r). (IsOpen-first vs).1 r)
  IsOpen-first (clean ∷ vs) =
      (λ h. (inl refl, (IsOpen-first vs).0 h), λ (a, r). (IsOpen-first vs).1 r)

  any_clean : (vs : List Verdict) → (any is_clean vs ≡ true) ↔ Any (λ v. v ≡ clean) vs
  unfolding is_clean
  any_clean [] = (λ h. cc, λ h. elim h [ ])
  any_clean (final o ∷ vs) =
      (λ h. inr ((any_clean vs).0 h), λ a. elim a [ inl q ↦ cc | inr r ↦ (any_clean vs).1 r ])
  any_clean (failed e ∷ vs) =
      (λ h. inr ((any_clean vs).0 h), λ a. elim a [ inl q ↦ cc | inr r ↦ (any_clean vs).1 r ])
  any_clean (clean ∷ vs) = (λ h. inl refl, λ a. refl)

  -- The ways to a result without an error.
  pub summary_ok :
      (s : Seen) (r : Result)
      → summary (verdict_of domain srv false) none none s ≡ ok r
      → (first_final s.verdicts ≡ some (ok r))
        ⊎ ((first_final s.verdicts ≡ none)
            × (s.stopped ≡ none)
            × (((any is_clean s.verdicts ≡ true) × (r ≡ verdict_of domain srv false))
                ⊎ ((any is_clean s.verdicts ≡ false)
                    × (last_failure none s.verdicts ≡ none)
                    × (r ≡ no_result))))
  unfolding summary finish
  summary_ok s r h = elim (Option-cases (first_final s.verdicts)) [
    | inr (o, q) ↦ inl (ground (arith, q))
    | inl q ↦ elim (Option-cases s.stopped) [
      | inr (e, x) ↦ absurd (ground (arith, q, x))
      | inl x ↦ elim (Bool-cases (any is_clean s.verdicts)) [
        | inl y ↦ inr (q, x, inl (y, ground (arith, q, x, y)))
        | inr y ↦ elim (Option-cases (last_failure none s.verdicts)) [
          | inr (e, z) ↦ absurd (ground (arith, q, x, y, z))
          | inl z ↦ inr (q, x, inr (y, z, ground (arith, q, x, y, z)))
        ]
      ]
    ]
  ]

  -- Where no probe was clean and none decided, there is an error unless there was no probe.
  failures_end :
      (vs : List Verdict) (e : Error) → All IsOpen vs → ¬ (last_failure (some e) vs ≡ none)
  unfolding last_failure
  failures_end [] e a = λ q. cc
  failures_end (final o ∷ vs) e a = elim a.0 [ inl q ↦ cc | inr (x, q) ↦ cc ]
  failures_end (failed x ∷ vs) e a = failures_end vs x a.1
  failures_end (clean ∷ vs) e a = failures_end vs e a.1

  pub no_probe :
      (vs : List Verdict)
      → All IsOpen vs
      → any is_clean vs ≡ false
      → last_failure none vs ≡ none
      → vs ≡ []
  unfolding last_failure is_clean
  no_probe [] a h q = refl
  no_probe (final o ∷ vs) a h q = absurd (elim a.0 [ inl q ↦ cc | inr (x, q) ↦ cc ])
  no_probe (failed x ∷ vs) a h q = absurd (failures_end vs x a.1 q)
  no_probe (clean ∷ vs) a h q = cc

  pub summary_blocked :
      (left : ℕ) (s : Seen)
      → IsRun left s
      → (summary (verdict_of domain srv false) none none s ≡ ok (verdict_of domain srv true))
        ↔ Any IsDetection s.verdicts
  unfolding no_result
  summary_blocked left s v = (
    λ h. elim (summary_ok s (verdict_of domain srv true) h) [
      | inl q ↦ (first-IsDetection s.verdicts (verdict_of domain srv true) v.judged q).0
      | inr (_, _, inl (_, e)) ↦ absurd (ground (arith, ap (λ (x : Result). x.blocked) e))
      | inr (_, _, inr (_, _, e)) ↦ absurd (ground (arith, ap (λ (x : Result). x.blocked) e))
    ],
    λ a. unfold summary in ground (arith, detection_first s.verdicts v.ends a),
  )

  pub summary_clean :
      (left : ℕ) (s : Seen)
      → IsRun left s
      → 1 ≤ left
      → (summary (verdict_of domain srv false) none none s ≡ ok (verdict_of domain srv false))
        ↔ ((s.stopped ≡ none) × All IsOpen s.verdicts × Any (λ v. v ≡ clean) s.verdicts)
  summary_clean left s v n = (
    λ h. elim (summary_ok s (verdict_of domain srv false) h) [
      | inl q ↦ absurd (
          ground (
            arith,
            ap (λ (x : Result). x.blocked)
                (first-IsDetection s.verdicts (verdict_of domain srv false) v.judged q).1,
          ))
      | inr (f, x, inl (y, _)) ↦ (x, (IsOpen-first s.verdicts).0 f, (any_clean s.verdicts).0 y)
      | inr (f, x, inr (y, z, _)) ↦ absurd (
          omega (
            arith,
            v.started x n,
            ap length (no_probe s.verdicts ((IsOpen-first s.verdicts).0 f) y z),
          ))
    ],
    λ (x, o, a).
        unfold summary finish in
        ground (arith, x, (IsOpen-first s.verdicts).1 o, (any_clean s.verdicts).1 a),
  )
