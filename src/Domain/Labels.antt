-- ===== src/Domain/Labels.antt =====
-- What a label and a top-level label are, apart from the code, and that the tests decide it.
use nawala_checker.Common.{
  ℕ, ◌≤◌, ◌≡◌, ◌≢◌, ◌⊎◌, inl, inr, refl, ap, ◌↔◌, true, false, ◌&&◌, [], ◌∷◌, ◌++◌, map, arith, ltb,
  ◌==◌, Bytes, codes, text_eq_iff, length, any, All, all-All, All-all, take, Bool-cases,
}
use nawala_checker.Domain.{
  is_letter, is_label_byte, first_is, last_is, is_valid_label, is_punycode, is_valid_tld,
}
use nawala_checker.Strings.{lower_byte}

abbrev pub IsLetter : ℕ → Type 0
IsLetter c = ((b'a' ≤ c) × (c ≤ b'z')) ⊎ ((b'A' ≤ c) × (c ≤ b'Z'))

abbrev pub IsLabelByte : ℕ → Type 0
IsLabelByte c = IsLetter c ⊎ ((b'0' ≤ c) × (c ≤ b'9')) ⊎ (c ≡ b'-') ⊎ (c ≡ b'_')

-- 1 to 63 letters, digits, hyphens and underscores, with no hyphen at either end.
pub record IsLabel (l : Bytes) : Type 0 where
  pub nonempty : 1 ≤ length l
  pub short : length l ≤ 63
  pub bytes : All IsLabelByte l
  pub no_leading : (r : Bytes) → l ≢ b'-' ∷ r
  pub no_trailing : (r : Bytes) → l ≢ r ++ b'-' ∷ []

-- The label starts with "xn--" in either case and goes on behind it.
abbrev pub IsAce : Bytes → Type 0
IsAce l = (5 ≤ length l) × (map lower_byte (take 4 l) ≡ codes "xn--")

pub data IsTld (l : Bytes) : Type 0 where
  letters : 2 ≤ length l → All IsLetter l → IsTld l
  punycode : IsAce l → All (λ c. c ≢ b'_') l → IsTld l

is_label_byte_sound : (c : ℕ) → is_label_byte c ≡ true → IsLabelByte c
is_label_byte_sound c h = ground arith

is_label_byte_complete : (c : ℕ) → IsLabelByte c → is_label_byte c ≡ true
is_label_byte_complete c h = ground arith

is_letter_sound : (c : ℕ) → is_letter c ≡ true → IsLetter c
is_letter_sound c h = ground arith

is_letter_complete : (c : ℕ) → IsLetter c → is_letter c ≡ true
is_letter_complete c h = ground arith

first_is-cons : (b : ℕ) (l r : Bytes) → first_is b l ≡ false → l ≢ b ∷ r
first_is-cons b [] r h = λ e. cc
first_is-cons b (c ∷ s) r h = λ e. ground arith

first_is-false : (b : ℕ) (l : Bytes) → ((r : Bytes) → l ≢ b ∷ r) → first_is b l ≡ false
first_is-false b [] h = refl
first_is-false b (c ∷ s) h = ground (arith, h s)

pub last_is-append : (b : ℕ) (r : Bytes) → last_is b (r ++ b ∷ []) ≡ true
last_is-append b [] = ground arith
last_is-append b (c ∷ []) = ground arith
last_is-append b (c ∷ d ∷ r) = last_is-append b (d ∷ r)

pub last_is-true : (b : ℕ) (l : Bytes) → last_is b l ≡ true → (r : Bytes) × (l ≡ r ++ b ∷ [])
last_is-true b [] h = cc
last_is-true b (c ∷ []) h = ([], ground arith)
last_is-true b (c ∷ d ∷ s) h = let (r, e) = last_is-true b (d ∷ s) h in (c ∷ r, ap (◌∷◌ c) e)

pub last_is-lacks : (b : ℕ) (l : Bytes) → All (λ c. c ≢ b) l → last_is b l ≡ false
last_is-lacks b [] h = refl
last_is-lacks b (c ∷ []) h = ground (arith, h.0)
last_is-lacks b (c ∷ d ∷ s) h = last_is-lacks b (d ∷ s) h.1

pub last_is-tail : (b c : ℕ) (p s : Bytes) → 1 ≤ length s → last_is b (p ++ c ∷ s) ≡ last_is b s
last_is-tail b c [] [] h = absurd (omega arith)
last_is-tail b c [] (d ∷ s) h = refl
last_is-tail b c (a ∷ []) s h = last_is-tail b c [] s h
last_is-tail b c (a ∷ e ∷ p) s h = last_is-tail b c (e ∷ p) s h

last_is-false : (b : ℕ) (l : Bytes) → ((r : Bytes) → l ≢ r ++ b ∷ []) → last_is b l ≡ false
last_is-false b [] h = refl
last_is-false b (c ∷ []) h = ground (arith, h [])
last_is-false b (c ∷ d ∷ s) h = last_is-false b (d ∷ s) (λ r e. h (c ∷ r) (ap (◌∷◌ c) e))

is_valid_label_sound : (l : Bytes) → is_valid_label l ≡ true → IsLabel l
unfolding is_valid_label
is_valid_label_sound l h = record {
  nonempty = ground arith;
  short = ground arith;
  bytes = all-All is_label_byte l is_label_byte_sound (ground arith);
  no_leading = λ r. first_is-cons b'-' l r (ground arith);
  no_trailing = λ r e. ground (arith, last_is-append b'-' r);
}

is_valid_label_complete : (l : Bytes) → IsLabel l → is_valid_label l ≡ true
unfolding is_valid_label
is_valid_label_complete l v = ground (
  arith,
  v.nonempty,
  v.short,
  All-all is_label_byte l is_label_byte_complete v.bytes,
  first_is-false b'-' l v.no_leading,
  last_is-false b'-' l v.no_trailing,
)

pub is_valid_label_iff : (l : Bytes) → (is_valid_label l ≡ true) ↔ IsLabel l
is_valid_label_iff l = (is_valid_label_sound l, is_valid_label_complete l)

lacks_sound : (b : ℕ) (l : Bytes) → any (λ c. c == b) l ≡ false → All (λ c. c ≢ b) l
lacks_sound b [] h = tt
lacks_sound b (c ∷ l) h = (ground arith, lacks_sound b l (ground arith))

lacks_complete : (b : ℕ) (l : Bytes) → All (λ c. c ≢ b) l → any (λ c. c == b) l ≡ false
lacks_complete b [] h = refl
lacks_complete b (c ∷ l) h = ground (arith, h.0, lacks_complete b l h.1)

is_valid_tld_sound : (l : Bytes) → is_valid_tld l ≡ true → IsTld l
unfolding is_valid_tld is_punycode
is_valid_tld_sound l h = elim (Bool-cases (ltb 4 (length l) && is_punycode l)) [
  | inl e ↦
      punycode
        (ground arith, (text_eq_iff (map lower_byte (take 4 l)) (codes "xn--")).0 (ground arith))
        (lacks_sound b'_' l (ground arith))
  | inr e ↦ letters (ground arith) (all-All is_letter l is_letter_sound (ground arith))
]

-- A label of letters alone has no "xn--" in front.
letters_not_ace : (l : Bytes) → All IsLetter l → map lower_byte (take 4 l) ≢ codes "xn--"
unfolding lower_byte
letters_not_ace [] h = λ e. cc
letters_not_ace (a ∷ []) h = λ e. cc
letters_not_ace (a ∷ b ∷ []) h = λ e. cc
letters_not_ace (a ∷ b ∷ c ∷ r) h = λ e. ground (arith, h.1.1.0)

is_valid_tld_complete : (l : Bytes) → IsTld l → is_valid_tld l ≡ true
unfolding is_valid_tld is_punycode
is_valid_tld_complete l (letters n a) = ground (
  arith,
  letters_not_ace l a,
  text_eq_iff (map lower_byte (take 4 l)) (codes "xn--"),
  All-all is_letter l is_letter_complete a,
)
is_valid_tld_complete l (punycode ace a) =
    ground (
      arith,
      ace.0,
      text_eq_iff (map lower_byte (take 4 l)) (codes "xn--"),
      lacks_complete b'_' l a,
    )

pub is_valid_tld_iff : (l : Bytes) → (is_valid_tld l ≡ true) ↔ IsTld l
is_valid_tld_iff l = (is_valid_tld_sound l, is_valid_tld_complete l)
