-- ===== src/Strings/Decimal.antt =====
-- `%d` of `fmt`, for a number that is not negative.
use nawala_checker.Common.{
  ℕ, zero, suc, ◌+◌, ◌-◌, ◌*◌, ◌/◌, ◌%◌, ◌≡◌, ◌≤◌, ◌<◌, refl, true, false, [], ◌∷◌, ◌++◌, arith,
  ltb, Bytes, All, All-append,
}

-- The digits of `n`; the fuel is above `n`, which each round divides by ten.
unfoldable pub digits : ℕ → ℕ → Bytes
digits zero n = []
digits (suc fuel) n = elim (ltb n 10) [
  | true ↦ (b'0' + n) ∷ []
  | false ↦ digits fuel (n / 10) ++ (b'0' + n % 10) ∷ []
]

unfoldable pub decimal : ℕ → Bytes
unfolding digits
decimal n = digits (suc n) n

-- The number that a text of digits spells.
abbrev pub spelled_from : ℕ → Bytes → ℕ
spelled_from n [] = n
spelled_from n (c ∷ s) = spelled_from (n * 10 + (c - b'0')) s

spelled_from-append :
    (n c : ℕ) (s : Bytes) → spelled_from n (s ++ c ∷ []) ≡ spelled_from n s * 10 + (c - b'0')
spelled_from-append n c [] = refl
spelled_from-append n c (d ∷ s) = spelled_from-append (n * 10 + (d - b'0')) c s

digits-spelled : (fuel n : ℕ) → n < fuel → spelled_from 0 (digits fuel n) ≡ n
unfolding digits
digits-spelled zero n h = absurd (omega arith)
digits-spelled (suc fuel) n h = ground (
  arith,
  digits-spelled fuel (n / 10),
  spelled_from-append 0 (b'0' + n % 10) (digits fuel (n / 10)),
)

-- The printed number is spelled by its digits: two numbers with one print are one number.
pub decimal-spelled : (n : ℕ) → spelled_from 0 (decimal n) ≡ n
unfolding decimal
decimal-spelled n = digits-spelled (suc n) n (omega arith)

abbrev pub IsDigit : ℕ → Type 0
IsDigit c = (b'0' ≤ c) × (c ≤ b'9')

digits-IsDigit : (fuel n : ℕ) → All IsDigit (digits fuel n)
unfolding digits
digits-IsDigit zero n = tt
digits-IsDigit (suc fuel) n = ground (
  arith,
  All-append IsDigit (digits fuel (n / 10)) ((b'0' + n % 10) ∷ []) (digits-IsDigit fuel (n / 10))
      (omega arith),
)

pub decimal-IsDigit : (n : ℕ) → All IsDigit (decimal n)
unfolding decimal
decimal-IsDigit n = digits-IsDigit (suc n) n
