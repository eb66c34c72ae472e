-- ===== src/Checker/Probe/Backoff.antt =====
-- The length of the waits.
use Prim.Native.Nat.{min}
use native.Mathlib.Nat.{pow-suc}
use nawala_checker.Common.{
  false, if◌then◌else◌, ℕ, zero, suc, ◌+◌, ◌-◌, ◌*◌, ◌%◌, ◌^◌, ◌≤◌, ◌<◌, ◌≡◌, refl, ap, ◌∙◌, sym,
  Bool, true, arith,
}
use nawala_checker.Common.Int.{ℤ, pos, eqb_ℤ, eqb_ℤ_sound}
use nawala_checker.Checker.{second}
use nawala_checker.Checker.Probe.{backoff}

-- No wait at attempt 0, and then 1s, 2s, 4s, … and 30s at most.
abbrev pub exponential : ℕ → ℤ
exponential zero = pos 0
exponential (suc n) = pos (min (2 ^ n) 30 * second)

-- Whether the wait is as documented at every attempt before this one.
agrees_before : ℕ → Bool
agrees_before zero = true
agrees_before (suc attempt) =
    if eqb_ℤ (backoff attempt) (exponential attempt) then agrees_before attempt else false

agrees_at :
    (bound attempt : ℕ)
    → attempt < bound
    → agrees_before bound ≡ true
    → backoff attempt ≡ exponential attempt
unfolding agrees_before
agrees_at zero attempt lt h = absurd (omega arith)
agrees_at (suc bound) attempt lt h =
    ground (arith, eqb_ℤ_sound (backoff attempt) (exponential attempt), agrees_at bound attempt)

agrees_35 : agrees_before 35 ≡ true
unfolding agrees_before backoff
agrees_35 = refl

pow_vanishes : (k : ℕ) → 2 ^ (64 + k) % 2 ^ 64 ≡ 0
pow_vanishes zero = refl
pow_vanishes (suc k) =
    let e : 64 + suc k ≡ suc (64 + k) = omega arith in
    rw (e, pow-suc 2 (64 + k)) (omega (arith, pow_vanishes k))

vanishing_backoff : (k : ℕ) → backoff (65 + k) ≡ pos 0
unfolding backoff
vanishing_backoff k = let e : 65 + k ≡ suc (64 + k) = omega arith in rw e (rw (pow_vanishes k))

-- Up to attempt 34 the wait is 1, 2, 4, … seconds from attempt 1 on, and 30 seconds at most; at attempt 0
-- it would be none.
pub backoff-exponential : (attempt : ℕ) → attempt ≤ 34 → backoff attempt ≡ exponential attempt
backoff-exponential attempt h = agrees_at 35 attempt (omega arith) agrees_35

-- From attempt 65 on the shift has pushed out the bit, and there is no wait: the limit of 30 seconds
-- is taken after the product, which has overflowed.
pub backoff-vanishes : (attempt : ℕ) → 65 ≤ attempt → backoff attempt ≡ pos 0
backoff-vanishes attempt h =
    let e : 65 + (attempt - 65) ≡ attempt = omega arith in
    ap backoff (sym e) ∙ vanishing_backoff (attempt - 65)
