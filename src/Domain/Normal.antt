-- ===== src/Domain/Normal.antt =====
-- Normalisation, and what validation says of the bytes of a name.
use nawala_checker.Common.{
  ℕ, ◌≤◌, ◌≡◌, ◌⊎◌, inl, inr, refl, ap, ◌∙◌, sym, subst, true, List, [], ◌∷◌, arith, Bytes, length,
  length-append, All, All-append, map,
}
use nawala_checker.Domain.{is_valid_domain, normalize_domain}
use nawala_checker.Domain.Labels.{IsLabelByte}
use nawala_checker.Domain.Valid.{IsDomainName, IsName, AreLabels, is_valid_domain_iff}
use nawala_checker.Strings.{Unicode, is_ascii, lower_byte}
use nawala_checker.Strings.Split.{join}
use nawala_checker.Strings.Case.{
  to_lower_ascii, trim_space_ascii, trim_ascii, is_ascii-trim_ascii, is_ascii-map_lower,
  map-lower_byte_idem, trim_ascii_idem, trim_ascii-map_lower,
}

-- A byte of a domain name: a label's, or the dot between two labels.
abbrev pub IsNameByte : ℕ → Type 0
IsNameByte c = IsLabelByte c ⊎ (c ≡ b'.')

label_bytes : (l : Bytes) → All IsLabelByte l → All IsNameByte l
label_bytes [] h = tt
label_bytes (c ∷ l) h = (inl h.0, label_bytes l h.1)

join_bytes : (ls : List Bytes) → AreLabels ls → All IsNameByte (join b'.' ls)
unfolding join
join_bytes [] a = tt
join_bytes (l ∷ []) a = label_bytes l a.0.bytes
join_bytes (l ∷ m ∷ ls) a =
    All-append IsNameByte l (b'.' ∷ join b'.' (m ∷ ls)) (label_bytes l a.0.bytes)
      (inr refl, join_bytes (m ∷ ls) a.1)

name_bytes : (s : Bytes) → IsName s → All IsNameByte s
name_bytes s v = subst (All IsNameByte) v.spelled (join_bytes v.labels v.are_labels)

domain_bytes : (s : Bytes) → IsDomainName s → All IsNameByte s
domain_bytes s (inl v) = name_bytes s v
domain_bytes s (inr (r, e, v)) =
    rw e (All-append IsNameByte r (b'.' ∷ []) (name_bytes r v) (inr refl, tt))

length_bounds : (s : Bytes) → IsDomainName s → length s ≤ 256
length_bounds s (inl v) = omega (arith, v.short)
length_bounds s (inr (r, e, v)) =
    omega (arith, v.short, ap length e, length-append {0} r (b'.' ∷ []))

-- A text that `IsValidDomain` accepts has only letters, digits, hyphens, underscores and dots, 256
-- bytes of them at most (the last for a trailing dot). So it holds no colon, space or byte above 127.
pub valid_bytes : (s : Bytes) → is_valid_domain s ≡ true → All IsNameByte s × (length s ≤ 256)
valid_bytes s h = let v = (is_valid_domain_iff s).0 h in (domain_bytes s v, length_bounds s v)

pub normalize_domain_ascii :
    (u : Unicode) (s : Bytes)
    → is_ascii s ≡ true
    → normalize_domain u s ≡ map lower_byte (trim_ascii s)
unfolding normalize_domain
normalize_domain_ascii u s h =
    rw (trim_space_ascii u s h) (to_lower_ascii u (trim_ascii s) (is_ascii-trim_ascii s h))

-- Of an ASCII text, normalising twice is normalising once, and the text before normalising may
-- be lower-cased with no effect: two spellings that differ in case are one domain.
pub normalize_domain_stable :
    (u : Unicode) (s : Bytes)
    → is_ascii s ≡ true
    → (normalize_domain u (normalize_domain u s) ≡ normalize_domain u s)
      × (normalize_domain u (map lower_byte s) ≡ normalize_domain u s)
normalize_domain_stable u s h = (
  ap (normalize_domain u) (normalize_domain_ascii u s h)
      ∙ normalize_domain_ascii u (map lower_byte (trim_ascii s))
          (is_ascii-map_lower (trim_ascii s) ∙ is_ascii-trim_ascii s h)
      ∙ ap (map lower_byte)
          (trim_ascii-map_lower (trim_ascii s) ∙ ap (map lower_byte) (trim_ascii_idem s))
      ∙ map-lower_byte_idem (trim_ascii s)
      ∙ sym (normalize_domain_ascii u s h),
  normalize_domain_ascii u (map lower_byte s) (is_ascii-map_lower s ∙ h)
      ∙ ap (map lower_byte) (trim_ascii-map_lower s)
      ∙ map-lower_byte_idem (trim_ascii s)
      ∙ sym (normalize_domain_ascii u s h),
)
