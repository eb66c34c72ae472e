-- ===== src/Strings/Split.antt =====
-- `strings.Split` at one byte undoes joining parts that lack the byte, and the other way round.
use nawala_checker.Common.{
  ℕ, ◌≡◌, ◌≢◌, refl, sym, ◌∙◌, ap, List, [], ◌∷◌, ◌++◌, arith, append-nil, append_assoc, ◌==◌,
  Bytes, All, inl, inr, Bool-cases,
}
use nawala_checker.Strings.{split, split_from, trim_suffix_byte}

-- The parts with `sep` between each two.
unfoldable pub join : ℕ → List Bytes → Bytes
join sep [] = []
join sep (p ∷ []) = p
join sep (p ∷ q ∷ ps) = p ++ sep ∷ join sep (q ∷ ps)

abbrev pub Lacks : ℕ → Bytes → Type 0
Lacks b = All (λ c. c ≢ b)

pub join-cons :
    (sep : ℕ) (p : Bytes) (ps : List Bytes) → ps ≢ [] → join sep (p ∷ ps) ≡ p ++ sep ∷ join sep ps
unfolding join
join-cons sep p [] h = absurd (h refl)
join-cons sep p (q ∷ ps) h = refl

pub split_from-ne-nil : (sep : ℕ) (s cur : Bytes) → split_from sep s cur ≢ []
unfolding split_from
split_from-ne-nil sep [] cur = λ e. cc
split_from-ne-nil sep (c ∷ s) cur = ground (arith, split_from-ne-nil sep s (cur ++ c ∷ []))

join-split_from : (sep : ℕ) (s cur : Bytes) → join sep (split_from sep s cur) ≡ cur ++ s
unfolding split_from join
join-split_from sep [] cur = sym (append-nil cur)
join-split_from sep (c ∷ s) cur = elim (Bool-cases (c == sep)) [
  | inl e ↦
      rw (e, split_from)
        (join-cons sep cur (split_from sep s []) (split_from-ne-nil sep s [])
          ∙ rw (join-split_from sep s []) (ground arith))
  | inr e ↦ rw (e, split_from) (join-split_from sep s (cur ++ c ∷ []) ∙ append_assoc cur (c ∷ []) s)
]

pub join-split : (sep : ℕ) (s : Bytes) → join sep (split s sep) ≡ s
unfolding split
join-split sep s = join-split_from sep s []

split_from-append :
    (sep : ℕ) (p rest cur : Bytes)
    → Lacks sep p
    → split_from sep (p ++ rest) cur ≡ split_from sep rest (cur ++ p)
unfolding split_from
split_from-append sep [] rest cur h = rw append-nil
split_from-append sep (c ∷ p) rest cur h =
    ground (arith, split_from-append sep p rest (cur ++ c ∷ []) h.1, append_assoc cur (c ∷ []) p)

split_from_sep :
    (sep : ℕ) (s cur : Bytes) → split_from sep (sep ∷ s) cur ≡ cur ∷ split_from sep s []
unfolding split_from
split_from_sep sep s cur = ground arith

pub split-join :
    (sep : ℕ) (ps : List Bytes) → ps ≢ [] → All (Lacks sep) ps → split (join sep ps) sep ≡ ps
unfolding split join
split-join sep [] h a = absurd (h refl)
split-join sep (p ∷ []) h a =
    ap (λ x. split_from sep x []) (sym (append-nil p))
    ∙ split_from-append sep p [] [] a.0
    ∙ unfold split_from in refl
split-join sep (p ∷ q ∷ ps) h a =
    split_from-append sep p (sep ∷ join sep (q ∷ ps)) [] a.0
    ∙ split_from_sep sep (join sep (q ∷ ps)) p
    ∙ ap (◌∷◌ p) (split-join sep (q ∷ ps) (λ e. cc) a.1)

-- Trimming the suffix drops one trailing byte `b`, and nothing else.
pub trim_suffix_byte-append : (b : ℕ) (s : Bytes) → trim_suffix_byte b (s ++ b ∷ []) ≡ s
unfolding trim_suffix_byte
trim_suffix_byte-append b [] = ground arith
trim_suffix_byte-append b (c ∷ []) = ground arith
trim_suffix_byte-append b (c ∷ d ∷ s) = ground (arith, trim_suffix_byte-append b (d ∷ s))

pub trim_suffix_byte-eq :
    (b : ℕ) (s : Bytes) → ((r : Bytes) → s ≢ r ++ b ∷ []) → trim_suffix_byte b s ≡ s
unfolding trim_suffix_byte
trim_suffix_byte-eq b [] h = refl
trim_suffix_byte-eq b (c ∷ []) h = ground (arith, h [])
trim_suffix_byte-eq b (c ∷ d ∷ s) h =
    ground (arith, trim_suffix_byte-eq b (d ∷ s) (λ r e. h (c ∷ r) (ap (◌∷◌ c) e)))
