-- ===== src/Strings.antt =====
-- The functions of Go's `strings` and `net` packages that the program calls, over bytes. Case and
-- space of text that holds a byte above 127 follow the Unicode tables, which are a parameter.
pub mod Case
pub mod Split
pub mod Search
pub mod HostPort
pub mod Decimal
use nawala_checker.Common.{
  ℕ, zero, suc, ◌+◌, ◌-◌, ◌≡◌, refl, Bool, true, false, not, ◌&&◌, ◌||◌, Option, none, some, List,
  [], ◌∷◌, ◌++◌, map, arith, ltb, leb, ◌==◌, if◌then◌else◌, Bytes, codes, text_eq, length, all, any,
  take, drop, is_empty,
}

-- What `strings` does with text that is not ASCII.
pub record Unicode : Type 0 where
  pub lower : Bytes → Bytes
  pub upper : Bytes → Bytes
  pub trim : Bytes → Bytes

abbrev pub is_ascii : Bytes → Bool
is_ascii = all (λ c. ltb c 128)

unfoldable pub lower_byte : ℕ → ℕ
lower_byte c = if leb b'A' c && leb c b'Z' then c + 32 else c

unfoldable pub upper_byte : ℕ → ℕ
upper_byte c = if leb b'a' c && leb c b'z' then c - 32 else c

-- '\t', '\n', '\v', '\f', '\r' and ' '.
unfoldable pub is_space : ℕ → Bool
is_space c = (leb 9 c && leb c 13) || c == 32

unfoldable pub trim_left : Bytes → Bytes
trim_left [] = []
trim_left (c ∷ s) = if is_space c then trim_left s else c ∷ s

-- The text before its trailing spaces.
unfoldable pub trim_right : Bytes → Bytes
trim_right [] = []
trim_right (c ∷ s) = let rest = trim_right s in if is_empty rest && is_space c then [] else c ∷ rest

-- `strings.HasPrefix`.
unfoldable pub has_prefix : Bytes → Bytes → Bool
has_prefix s [] = true
has_prefix [] (d ∷ p) = false
has_prefix (c ∷ s) (d ∷ p) = c == d && has_prefix s p

-- `strings.TrimPrefix` and `strings.TrimSuffix` at a text of one byte, as every call here has.
unfoldable pub trim_prefix_byte : ℕ → Bytes → Bytes
trim_prefix_byte b [] = []
trim_prefix_byte b (c ∷ s) = if c == b then s else c ∷ s

unfoldable pub trim_suffix_byte : ℕ → Bytes → Bytes
trim_suffix_byte b [] = []
trim_suffix_byte b (c ∷ s) =
    let rest = trim_suffix_byte b s in if is_empty s && c == b then [] else c ∷ rest

-- `strings.Contains`.
unfoldable pub contains : Bytes → Bytes → Bool
contains [] p = has_prefix [] p
contains (c ∷ s) p = has_prefix (c ∷ s) p || contains s p

-- The rest of a `strings.Split` at one byte, behind the part `cur` that is being read.
unfoldable pub split_from : ℕ → Bytes → Bytes → List Bytes
split_from sep [] cur = cur ∷ []
split_from sep (c ∷ s) cur = elim (c == sep) [
  | true ↦ cur ∷ split_from sep s []
  | false ↦ split_from sep s (cur ++ c ∷ [])
]

-- `strings.Split` at a separator of one byte.
unfoldable pub split : Bytes → ℕ → List Bytes
unfolding split_from
split s sep = split_from sep s []

module _ (u : Unicode) where
  -- `strings.ToLower`.
  unfoldable pub to_lower : Bytes → Bytes
  to_lower s = if is_ascii s then map lower_byte s else u.lower s

  -- `strings.ToUpper`.
  unfoldable pub to_upper : Bytes → Bytes
  to_upper s = if is_ascii s then map upper_byte s else u.upper s

  -- `strings.TrimSpace`.
  unfoldable pub trim_space : Bytes → Bytes
  trim_space s = if is_ascii s then trim_right (trim_left s) else u.trim s
