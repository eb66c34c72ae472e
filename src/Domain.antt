-- ===== src/Domain.antt =====
-- src/nawala/domain.go: validation and normalisation of domain names. Go ranges over the runes of
-- a label; a byte above 127 belongs to a rune above 127 there, which every test refuses, so the
-- tests are written over bytes.
pub mod Labels
pub mod Valid
pub mod Normal
mod Examples
use nawala_checker.Common.{
  ℕ, ◌-◌, Bool, true, false, not, ◌&&◌, ◌||◌, List, [], ◌∷◌, map, ltb, leb, ◌==◌, if◌then◌else◌,
  Bytes, codes, text_eq, length, all, any, take, is_empty,
}
use nawala_checker.Strings.{Unicode, to_lower, trim_space, trim_suffix_byte, split, lower_byte}

abbrev pub is_letter : ℕ → Bool
is_letter c = (leb b'a' c && leb c b'z') || (leb b'A' c && leb c b'Z')

abbrev pub is_digit : ℕ → Bool
is_digit c = leb b'0' c && leb c b'9'

-- The cases of the switch of `isValidLabel`.
abbrev pub is_label_byte : ℕ → Bool
is_label_byte c =
    (leb b'a' c && leb c b'z')
    || ((leb b'A' c && leb c b'Z') || ((leb b'0' c && leb c b'9') || (c == b'-' || c == b'_')))

abbrev pub first_is : ℕ → Bytes → Bool
first_is b [] = false
first_is b (c ∷ s) = c == b

abbrev pub last_is : ℕ → Bytes → Bool
last_is b [] = false
last_is b (c ∷ s) = if is_empty s then c == b else last_is b s

unfoldable pub is_valid_label : Bytes → Bool
is_valid_label label =
    if length label == 0 || ltb 63 (length label)
    then false
    else if first_is b'-' label || last_is b'-' label
    then false
    else all is_label_byte label

-- `strings.EqualFold(label[:4], "xn--")`: no other rune folds to one of these four.
unfoldable pub is_punycode : Bytes → Bool
is_punycode label = text_eq (map lower_byte (take 4 label)) (codes "xn--")

unfoldable pub is_valid_tld : Bytes → Bool
is_valid_tld label =
    if ltb (length label) 2
    then false
    else if ltb 4 (length label) && is_punycode label
    then not (any (λ c. c == b'_') label)
    else all is_letter label

-- The loop over the labels; the last one is also held to the rules of a top-level domain.
unfoldable pub labels_valid : List Bytes → Bool
labels_valid [] = true
labels_valid (l ∷ ls) =
    if not (is_valid_label l)
    then false
    else if is_empty ls && not (is_valid_tld l)
    then false
    else labels_valid ls

-- `IsValidDomain` behind the removal of the trailing dot.
unfoldable pub is_valid_name : Bytes → Bool
is_valid_name domain =
    if length domain == 0 || ltb 255 (length domain)
    then false
    else if ltb (length (split domain b'.')) 2
    then false
    else labels_valid (split domain b'.')

unfoldable pub is_valid_domain : Bytes → Bool
is_valid_domain domain = is_valid_name (trim_suffix_byte b'.' domain)

unfoldable pub normalize_domain : Unicode → Bytes → Bytes
normalize_domain u domain = to_lower u (trim_space u domain)
