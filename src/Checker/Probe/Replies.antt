-- ===== src/Checker/Probe/Replies.antt =====
-- What a reply says: that it shows the keyword, that it does not, or that it is an error that decides
-- nothing; and the verdict on it.
use nawala_checker.Common.{
  ◌≡◌, inl, inr, refl, ◌∙◌, ◌↔◌, true, false, Option, List, [], ◌∷◌, Bytes, Outcome, ok, err, arith,
  map, All, Any, Bool-cases,
}
use nawala_checker.Strings.{Unicode}
use nawala_checker.Types.{Error, is_definitive, DnsServer}
use nawala_checker.Network.{Response}
use nawala_checker.Dns.{contains_keyword}
use nawala_checker.Checker.Probe.{Verdict, clean, judge, verdict_of}
use nawala_checker.Checker.Probe.Summaries.{
  Detects, IsDetection, IsOpen, detect_final, final_detect,
}

abbrev pub Reply : Type 0
Reply = Outcome Error (Option Response)

-- A response without the keyword.
abbrev pub Clears : Unicode → DnsServer → Reply → Type 0
Clears u srv (ok resp) = contains_keyword u resp srv.keyword ≡ false
Clears u srv (err e) = ⊥

-- A response without the keyword, or an error that is not the server's own answer.
abbrev pub IsUndecided : Unicode → DnsServer → Reply → Type 0
IsUndecided u srv (ok resp) = contains_keyword u resp srv.keyword ≡ false
IsUndecided u srv (err e) = is_definitive e ≡ false

module _ (u : Unicode) (domain : Bytes) (srv : DnsServer) where
  judge-Clears : (r : Reply) → (judge u domain srv r ≡ clean) ↔ Clears u srv r
  unfolding judge
  judge-Clears (ok resp) = (λ h. ground arith, λ h. ground (arith, h))
  judge-Clears (err e) = (λ h. absurd (ground arith), λ h. elim h [ ])

  judge-IsDetection :
      (r : Reply) → IsDetection u domain srv (judge u domain srv r) ↔ Detects u srv r
  judge-IsDetection r = (
    λ (reply, d, e).
        (final_detect u domain srv r (verdict_of domain srv true)
          (e ∙ detect_final u domain srv reply d)).0,
    λ d. (r, d, refl),
  )

  judge-IsUndecided : (r : Reply) → IsOpen u domain srv (judge u domain srv r) ↔ IsUndecided u srv r
  unfolding judge
  judge-IsUndecided (ok resp) = elim (Bool-cases (contains_keyword u resp srv.keyword)) [
    | inl e ↦ (
      λ h. absurd (elim h [ inl q ↦ ground (arith, e, q) | inr (x, q) ↦ ground (arith, e, q) ]),
      λ h. absurd (ground (arith, e, h)),
    )
    | inr e ↦ (λ h. e, λ h. inl (ground (arith, e)))
  ]
  judge-IsUndecided (err e) = elim (Bool-cases (is_definitive e)) [
    | inl b ↦ (
      λ h. absurd (elim h [ inl q ↦ ground (arith, b, q) | inr (x, q) ↦ ground (arith, b, q) ]),
      λ h. absurd (ground (arith, b, h)),
    )
    | inr b ↦ (λ h. b, λ h. inr (e, ground (arith, b)))
  ]

  abbrev judged : List Reply → List Verdict
  judged = map (judge u domain srv)

  pub Any-IsDetection :
      (rs : List Reply) → Any (IsDetection u domain srv) (judged rs) ↔ Any (Detects u srv) rs
  Any-IsDetection [] = (λ h. h, λ h. h)
  Any-IsDetection (r ∷ rs) = (
    λ a. elim a [
      | inl d ↦ inl ((judge-IsDetection r).0 d)
      | inr b ↦ inr ((Any-IsDetection rs).0 b)
    ],
    λ a. elim a [
      | inl d ↦ inl ((judge-IsDetection r).1 d)
      | inr b ↦ inr ((Any-IsDetection rs).1 b)
    ],
  )

  pub Any-Clears : (rs : List Reply) → Any (λ v. v ≡ clean) (judged rs) ↔ Any (Clears u srv) rs
  Any-Clears [] = (λ h. h, λ h. h)
  Any-Clears (r ∷ rs) = (
    λ a. elim a [ inl d ↦ inl ((judge-Clears r).0 d) | inr b ↦ inr ((Any-Clears rs).0 b) ],
    λ a. elim a [ inl d ↦ inl ((judge-Clears r).1 d) | inr b ↦ inr ((Any-Clears rs).1 b) ],
  )

  pub All-IsUndecided :
      (rs : List Reply) → All (IsOpen u domain srv) (judged rs) ↔ All (IsUndecided u srv) rs
  All-IsUndecided [] = (λ h. h, λ h. h)
  All-IsUndecided (r ∷ rs) = (
    λ (d, a). ((judge-IsUndecided r).0 d, (All-IsUndecided rs).0 a),
    λ (d, a). ((judge-IsUndecided r).1 d, (All-IsUndecided rs).1 a),
  )
