-- ===== src/Strings/Case.antt =====
-- Laws of the ASCII case mapping and of trimming.
use nawala_checker.Common.{ℕ, ◌≡◌, refl, true, [], ◌∷◌, map, arith, ltb, Bytes, is_empty}
use nawala_checker.Strings.{
  lower_byte, upper_byte, is_space, trim_left, trim_right, is_ascii, Unicode, to_lower, to_upper,
  trim_space,
}

pub lower_byte_idem : (c : ℕ) → lower_byte (lower_byte c) ≡ lower_byte c
unfolding lower_byte
lower_byte_idem c = ground arith

pub upper_byte-lower_byte : (c : ℕ) → upper_byte (lower_byte c) ≡ upper_byte c
unfolding lower_byte upper_byte
upper_byte-lower_byte c = ground arith

is_space-lower_byte : (c : ℕ) → is_space (lower_byte c) ≡ is_space c
unfolding lower_byte is_space
is_space-lower_byte c = ground arith

ltb-lower_byte : (c : ℕ) → ltb (lower_byte c) 128 ≡ ltb c 128
unfolding lower_byte
ltb-lower_byte c = ground arith

pub map-lower_byte_idem : (s : Bytes) → map lower_byte (map lower_byte s) ≡ map lower_byte s
map-lower_byte_idem [] = refl
map-lower_byte_idem (c ∷ s) = cc (lower_byte_idem c, map-lower_byte_idem s)

pub map-upper_byte-lower_byte : (s : Bytes) → map upper_byte (map lower_byte s) ≡ map upper_byte s
map-upper_byte-lower_byte [] = refl
map-upper_byte-lower_byte (c ∷ s) = cc (upper_byte-lower_byte c, map-upper_byte-lower_byte s)

pub is_ascii-map_lower : (s : Bytes) → is_ascii (map lower_byte s) ≡ is_ascii s
is_ascii-map_lower [] = refl
is_ascii-map_lower (c ∷ s) = rw (ltb-lower_byte c, is_ascii-map_lower s)

trim_left-map_lower : (s : Bytes) → trim_left (map lower_byte s) ≡ map lower_byte (trim_left s)
unfolding trim_left
trim_left-map_lower [] = refl
trim_left-map_lower (c ∷ s) = ground (arith, is_space-lower_byte c, trim_left-map_lower s)

is_empty-map : (s : Bytes) → is_empty (map lower_byte s) ≡ is_empty s
is_empty-map [] = refl
is_empty-map (c ∷ s) = refl

trim_right-map_lower : (s : Bytes) → trim_right (map lower_byte s) ≡ map lower_byte (trim_right s)
unfolding trim_right
trim_right-map_lower [] = refl
trim_right-map_lower (c ∷ s) =
    ground (arith, is_space-lower_byte c, trim_right-map_lower s, is_empty-map (trim_right s))

trim_left_idem : (s : Bytes) → trim_left (trim_left s) ≡ trim_left s
unfolding trim_left
trim_left_idem [] = refl
trim_left_idem (c ∷ s) = ground (arith, trim_left_idem s)

trim_right_idem : (s : Bytes) → trim_right (trim_right s) ≡ trim_right s
unfolding trim_right
trim_right_idem [] = refl
trim_right_idem (c ∷ s) = ground (arith, trim_right_idem s)

-- Trimming the right end leaves a text with no leading space without one.
trim_left-trim_right : (s : Bytes) → trim_left (trim_right (trim_left s)) ≡ trim_right (trim_left s)
unfolding trim_left trim_right
trim_left-trim_right [] = refl
trim_left-trim_right (c ∷ s) = ground (arith, trim_left-trim_right s)

abbrev pub trim_ascii : Bytes → Bytes
trim_ascii s = trim_right (trim_left s)

pub trim_ascii_idem : (s : Bytes) → trim_ascii (trim_ascii s) ≡ trim_ascii s
trim_ascii_idem s = rw (trim_left-trim_right s, trim_right_idem (trim_left s))

pub trim_ascii-map_lower :
    (s : Bytes) → trim_ascii (map lower_byte s) ≡ map lower_byte (trim_ascii s)
trim_ascii-map_lower s = rw (trim_left-map_lower s, trim_right-map_lower (trim_left s))

is_ascii-trim_left : (s : Bytes) → is_ascii s ≡ true → is_ascii (trim_left s) ≡ true
unfolding trim_left
is_ascii-trim_left [] h = refl
is_ascii-trim_left (c ∷ s) h = ground (arith, is_ascii-trim_left s)

is_ascii-trim_right : (s : Bytes) → is_ascii s ≡ true → is_ascii (trim_right s) ≡ true
unfolding trim_right
is_ascii-trim_right [] h = refl
is_ascii-trim_right (c ∷ s) h = ground (arith, is_ascii-trim_right s)

pub is_ascii-trim_ascii : (s : Bytes) → is_ascii s ≡ true → is_ascii (trim_ascii s) ≡ true
is_ascii-trim_ascii s h = is_ascii-trim_right (trim_left s) (is_ascii-trim_left s h)

module _ (u : Unicode) (s : Bytes) (h : is_ascii s ≡ true) where
  pub to_lower_ascii : to_lower u s ≡ map lower_byte s
  unfolding to_lower
  to_lower_ascii = rw h

  pub to_upper_ascii : to_upper u s ≡ map upper_byte s
  unfolding to_upper
  to_upper_ascii = rw h

  pub trim_space_ascii : trim_space u s ≡ trim_ascii s
  unfolding trim_space
  trim_space_ascii = rw h
