-- ===== src/Domain/Valid.antt =====
-- `IsValidDomain` decides what a domain name is.
use nawala_checker.Common.{
  ◌≤◌, ◌≡◌, ◌≢◌, ◌⊎◌, inl, inr, ap, ◌∙◌, sym, subst, ◌↔◌, true, false, List, [], ◌∷◌, ◌++◌, arith,
  Bytes, length, All, Bool-cases,
}
use nawala_checker.Domain.{labels_valid, is_valid_name, is_valid_domain, last_is}
use nawala_checker.Domain.Labels.{
  last_is-append, last_is-true, last_is-lacks, last_is-tail, IsLabel, IsTld, IsLabelByte,
  is_valid_label_iff, is_valid_tld_iff,
}
use nawala_checker.Strings.{split, trim_suffix_byte}
use nawala_checker.Strings.Split.{
  join, join-split, split-join, Lacks, trim_suffix_byte-append, trim_suffix_byte-eq,
}

-- Labels, of which the last is a top-level one.
abbrev pub AreLabels : List Bytes → Type 0
AreLabels [] = ⊥
AreLabels (l ∷ []) = IsLabel l × IsTld l
AreLabels (l ∷ m ∷ ls) = IsLabel l × AreLabels (m ∷ ls)

-- Two labels or more with dots between them, 255 bytes at most.
pub record IsName (s : Bytes) : Type 0 where
  pub labels : List Bytes
  pub spelled : join b'.' labels ≡ s
  pub several : 2 ≤ length labels
  pub are_labels : AreLabels labels
  pub short : length s ≤ 255

-- The same with a trailing dot allowed.
abbrev pub IsDomainName : Bytes → Type 0
IsDomainName s = IsName s ⊎ ((r : Bytes) × (s ≡ r ++ b'.' ∷ []) × IsName r)

labels_valid_sound : (ls : List Bytes) → 1 ≤ length ls → labels_valid ls ≡ true → AreLabels ls
unfolding labels_valid
labels_valid_sound [] n h = absurd (omega arith)
labels_valid_sound (l ∷ []) n h =
    ((is_valid_label_iff l).0 (ground arith), (is_valid_tld_iff l).0 (ground arith))
labels_valid_sound (l ∷ m ∷ ls) n h = (
  (is_valid_label_iff l).0 (ground arith),
  labels_valid_sound (m ∷ ls) (omega arith) (ground arith),
)

labels_valid_complete : (ls : List Bytes) → AreLabels ls → labels_valid ls ≡ true
unfolding labels_valid
labels_valid_complete [] a = elim a [ ]
labels_valid_complete (l ∷ []) a = rw ((is_valid_label_iff l).1 a.0, (is_valid_tld_iff l).1 a.1)
labels_valid_complete (l ∷ m ∷ ls) a =
    rw ((is_valid_label_iff l).1 a.0) (labels_valid_complete (m ∷ ls) a.1)

label_byte_not_dot : (l : Bytes) → All IsLabelByte l → Lacks b'.' l
label_byte_not_dot [] h = tt
label_byte_not_dot (c ∷ l) h = (ground (arith, h.0), label_byte_not_dot l h.1)

labels_lack_dots : (ls : List Bytes) → AreLabels ls → All (Lacks b'.') ls
labels_lack_dots [] a = elim a [ ]
labels_lack_dots (l ∷ []) a = (label_byte_not_dot l a.0.bytes, tt)
labels_lack_dots (l ∷ m ∷ ls) a = (label_byte_not_dot l a.0.bytes, labels_lack_dots (m ∷ ls) a.1)

pub split-name : (s : Bytes) (v : IsName s) → split s b'.' ≡ v.labels
split-name s v =
    ap (λ t. split t b'.') (sym v.spelled)
    ∙ split-join b'.' v.labels (λ e. absurd (omega (arith, v.several, ap length e)))
        (labels_lack_dots v.labels v.are_labels)

is_valid_name_sound : (s : Bytes) → is_valid_name s ≡ true → IsName s
unfolding is_valid_name
is_valid_name_sound s h = record {
  labels = split s b'.';
  spelled = join-split b'.' s;
  several = ground arith;
  are_labels = labels_valid_sound (split s b'.') (ground arith) (ground arith);
  short = ground arith;
}

length-join : (ls : List Bytes) → AreLabels ls → 1 ≤ length (join b'.' ls)
unfolding join
length-join [] a = elim a [ ]
length-join (l ∷ []) a = a.0.nonempty
length-join ((c ∷ l) ∷ m ∷ ls) a = omega arith
length-join ([] ∷ m ∷ ls) a = omega (arith, a.0.nonempty)

is_valid_name_complete : (s : Bytes) → IsName s → is_valid_name s ≡ true
unfolding is_valid_name
is_valid_name_complete s v =
    let nonempty : 1 ≤ length s =
      subst (λ t. 1 ≤ length t) v.spelled (length-join v.labels v.are_labels) in
    rw (split-name s v)
      (ground (arith, labels_valid_complete v.labels v.are_labels, v.several, v.short, nonempty))

last_is-join : (ls : List Bytes) → AreLabels ls → last_is b'.' (join b'.' ls) ≡ false
unfolding join
last_is-join [] a = elim a [ ]
last_is-join (l ∷ []) a = last_is-lacks b'.' l (label_byte_not_dot l a.0.bytes)
last_is-join (l ∷ m ∷ ls) a =
    last_is-tail b'.' b'.' l (join b'.' (m ∷ ls)) (length-join (m ∷ ls) a.1)
    ∙ last_is-join (m ∷ ls) a.1

-- A name does not end with a dot.
pub name_ends : (s r : Bytes) → IsName s → s ≢ r ++ b'.' ∷ []
name_ends s r v e = ground (
  arith,
  ap (last_is b'.') e,
  last_is-append b'.' r,
  ap (last_is b'.') v.spelled,
  last_is-join v.labels v.are_labels,
)

pub is_valid_name_iff : (s : Bytes) → (is_valid_name s ≡ true) ↔ IsName s
is_valid_name_iff s = (is_valid_name_sound s, is_valid_name_complete s)

is_valid_domain_sound : (s : Bytes) → is_valid_domain s ≡ true → IsDomainName s
unfolding is_valid_domain
is_valid_domain_sound s h = elim (Bool-cases (last_is b'.' s)) [
  | inl e ↦
      let (r, q) = last_is-true b'.' s e in
      inr (
        r,
        q,
        is_valid_name_sound r (
            subst (λ t. is_valid_name t ≡ true)
              (ap (trim_suffix_byte b'.') q ∙ trim_suffix_byte-append b'.' r) h),
      )
  | inr e ↦ inl (
      is_valid_name_sound s (
        subst (λ t. is_valid_name t ≡ true)
          (trim_suffix_byte-eq b'.' s
            (λ r q. ground (arith, ap (last_is b'.') q, last_is-append b'.' r)))
          h))
]

is_valid_domain_complete : (s : Bytes) → IsDomainName s → is_valid_domain s ≡ true
unfolding is_valid_domain
is_valid_domain_complete s (inl v) =
    rw (trim_suffix_byte-eq b'.' s (λ r. name_ends s r v)) (is_valid_name_complete s v)
is_valid_domain_complete s (inr (r, e, v)) =
    rw (e, trim_suffix_byte-append b'.' r) (is_valid_name_complete r v)

-- For every text, `IsValidDomain` accepts it exactly when it is two or more labels joined by dots,
-- 255 bytes at most, each label 1 to 63 letters, digits, hyphens and underscores with no hyphen at
-- either end, the last one letters only (two or more) or a longer "xn--" label with no underscore;
-- or when it is such a text with one dot behind it.
pub is_valid_domain_iff : (s : Bytes) → (is_valid_domain s ≡ true) ↔ IsDomainName s
is_valid_domain_iff s = (is_valid_domain_sound s, is_valid_domain_complete s)
