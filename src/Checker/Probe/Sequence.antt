-- ===== src/Checker/Probe/Sequence.antt =====
-- The result of `queryWithRetries` as a function of what its probes said, in order.
use nawala_checker.Common.{
  ℕ, zero, suc, ◌≡◌, ◌⊎◌, inl, inr, refl, ◌∙◌, sym, Bool, true, false, Option, none, some, List, [],
  ◌∷◌, if◌then◌else◌, Bytes, Outcome, err, arith, Option-cases, any,
}
use nawala_checker.Strings.{Unicode}
use nawala_checker.Types.{CtxError, Error, of_context, DnsServer, Result}
use nawala_checker.Network.{Network, Response}
use nawala_checker.Checker.{Checker}
use nawala_checker.Checker.Probe.{
  Verdict, final, failed, clean, judge, finish, keep_best, verdict_of, pause, probe, probes,
}

-- The replies to the probes of a run of the loop, in order, with the verdict on each, and the context's
-- error if that ended it in a wait.
pub record Seen : Type 0 where
  pub replies : List (Outcome Error (Option Response))
  pub verdicts : List Verdict
  pub stopped : Option CtxError

abbrev pub then_see : Outcome Error (Option Response) → Verdict → Seen → Seen
then_see r v s = record { replies = r ∷ s.replies; verdicts = v ∷ s.verdicts; stopped = s.stopped }

module _ {W X : Type 0} (net : Network W) (u : Unicode) (domain : Bytes) (srv : DnsServer)
    (qtype : ℕ) where
  -- The probes that the loop makes, with no account of its results.
  unfoldable pub seen : ℕ → ℕ → Option Error → Checker X → W → Seen
  seen zero attempt last c w = record { replies = []; verdicts = []; stopped = none }
  seen (suc left) attempt last c w =
      let (stopped, w1) = pause net attempt last w in
      elim stopped [
        | some e ↦ record { replies = []; verdicts = []; stopped = some e }
        | none ↦
            let (r, c', w2) = probe net c domain srv qtype w1 in
            let v = judge u domain srv r in
            elim v [
              | final out ↦ record { replies = r ∷ []; verdicts = final out ∷ []; stopped = none }
              | failed e ↦ then_see r (failed e) (seen left (suc attempt) (some e) c' w2)
              | clean ↦ then_see r clean (seen left (suc attempt) last c' w2)
            ]
      ]

unfoldable pub first_final : List Verdict → Option (Outcome Error Result)
first_final [] = none
first_final (final out ∷ vs) = some out
first_final (failed e ∷ vs) = first_final vs
first_final (clean ∷ vs) = first_final vs

unfoldable pub last_failure : Option Error → List Verdict → Option Error
last_failure last [] = last
last_failure last (final out ∷ vs) = last_failure last vs
last_failure last (failed e ∷ vs) = last_failure (some e) vs
last_failure last (clean ∷ vs) = last_failure last vs

unfoldable pub is_clean : Verdict → Bool
is_clean clean = true
is_clean (final out) = false
is_clean (failed e) = false

-- A probe that decides gives the result. If none does, a context that is over gives its error; or
-- else one clean probe is enough for "not blocked"; or else the error is that of the last probe.
unfoldable pub summary : Result → Option Error → Option Result → Seen → Outcome Error Result
unfolding first_final last_failure is_clean
summary unblocked last best s = elim (first_final s.verdicts) [
  | some out ↦ out
  | none ↦ elim s.stopped [
    | some e ↦ err (of_context e)
    | none ↦
        finish (last_failure last s.verdicts)
          (if any is_clean s.verdicts then keep_best best unblocked else best)
  ]
]

summary-failed :
    (r : Result) (last : Option Error) (best : Option Result) (e : Error)
    (reply : Outcome Error (Option Response)) (s : Seen)
    → summary r last best (then_see reply (failed e) s) ≡ summary r (some e) best s
unfolding summary
summary-failed r last best e reply s = refl

summary-clean :
    (r : Result) (last : Option Error) (best : Option Result)
    (reply : Outcome Error (Option Response)) (s : Seen)
    → summary r last best (then_see reply clean s) ≡ summary r last (keep_best best r) s
unfolding summary
summary-clean r last none reply s = ground arith
summary-clean r last (some b) reply s = ground arith

pub Verdict-cases :
    (v : Verdict)
    → ((o : Outcome Error Result) × (v ≡ final o)) ⊎ ((e : Error) × (v ≡ failed e)) ⊎ (v ≡ clean)
Verdict-cases (final o) = inl (o, refl)
Verdict-cases (failed e) = inr (inl (e, refl))
Verdict-cases clean = inr (inr refl)

module _ {W X : Type 0} (net : Network W) (u : Unicode) (domain : Bytes) (srv : DnsServer)
    (qtype : ℕ) where
  pub probes-summary :
      (left attempt : ℕ) (last : Option Error) (best : Option Result) (c : Checker X) (w : W)
      → (probes net u domain srv qtype left attempt last best c w).0
        ≡ summary
            (verdict_of domain srv false)
            last
            best
            (seen net u domain srv qtype left attempt last c w)
  unfolding probes seen
  probes-summary zero attempt last best c w = unfold summary in refl
  probes-summary (suc left) attempt last best c w =
      elim (Option-cases (pause net attempt last w).0) [
        | inr (e, q) ↦ rw (q, probes, seen) (unfold summary in refl)
        | inl q ↦
            let p = probe net c domain srv qtype (pause net attempt last w).1 in
            elim (Verdict-cases (judge u domain srv p.0)) [
              | inl (o, j) ↦ rw (q, probes, seen) (rw (j, probes, seen) (unfold summary in refl))
              | inr (inl (e, j)) ↦
                  rw (q, probes, seen)
                    (rw (j, probes, seen)
                      (probes-summary left (suc attempt) (some e) best p.1 p.2
                        ∙ sym (summary-failed _ last best e p.0 _)))
              | inr (inr j) ↦
                  rw (q, probes, seen)
                    (rw (j, probes, seen)
                      (probes-summary left (suc attempt) last
                          (keep_best best (verdict_of domain srv false)) p.1 p.2
                        ∙ sym (summary-clean (verdict_of domain srv false) last best p.0 _)))
            ]
      ]
