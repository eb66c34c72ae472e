-- ===== src/Strings/Search.antt =====
-- `strings.Contains` finds exactly the texts that stand inside.
use nawala_checker.Common.{
  ◌≡◌, refl, ap, true, [], ◌∷◌, ◌++◌, arith, Bytes, ◌↔◌, inl, inr, Bool-cases,
}
use nawala_checker.Strings.{has_prefix, contains}

-- `p` stands somewhere in `s`.
abbrev pub Infix : Bytes → Bytes → Type 0
Infix p s = (before : Bytes) × (after : Bytes) × (s ≡ before ++ (p ++ after))

pub has_prefix_sound : (s p : Bytes) → has_prefix s p ≡ true → (rest : Bytes) × (s ≡ p ++ rest)
unfolding has_prefix
has_prefix_sound s [] h = (s, refl)
has_prefix_sound [] (d ∷ p) h = cc
has_prefix_sound (c ∷ s) (d ∷ p) h =
    let (rest, e) = has_prefix_sound s p (ground arith) in (rest, ground arith)

pub has_prefix-append : (p rest : Bytes) → has_prefix (p ++ rest) p ≡ true
unfolding has_prefix
has_prefix-append [] [] = refl
has_prefix-append [] (c ∷ r) = refl
has_prefix-append (d ∷ p) rest = ground (arith, has_prefix-append p rest)

contains_sound : (s p : Bytes) → contains s p ≡ true → Infix p s
unfolding contains
contains_sound [] p h = let (rest, e) = has_prefix_sound [] p h in ([], rest, e)
contains_sound (c ∷ s) p h = elim (Bool-cases (has_prefix (c ∷ s) p)) [
  | inl e ↦ let (rest, q) = has_prefix_sound (c ∷ s) p e in ([], rest, q)
  | inr e ↦
      let (before, after, q) = contains_sound s p (ground arith) in
      (c ∷ before, after, ap (◌∷◌ c) q)
]

contains_of_prefix : (s p : Bytes) → has_prefix s p ≡ true → contains s p ≡ true
unfolding contains
contains_of_prefix [] p h = h
contains_of_prefix (c ∷ s) p h = ground arith

contains-append : (before p after : Bytes) → contains (before ++ (p ++ after)) p ≡ true
unfolding contains
contains-append [] p after = contains_of_prefix (p ++ after) p (has_prefix-append p after)
contains-append (c ∷ before) p after = ground (arith, contains-append before p after)

pub contains_iff : (s p : Bytes) → (contains s p ≡ true) ↔ Infix p s
contains_iff s p = (contains_sound s p, λ (before, after, e). rw e (contains-append before p after))
