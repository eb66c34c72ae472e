-- ===== src/Checker/Batch/Slots.antt =====
-- Reads of a list of results behind a write and behind a fill.
use nawala_checker.Common.{
  ℕ, zero, suc, ◌+◌, ◌≤◌, ◌<◌, ◌≡◌, ◌≢◌, refl, ap, subst, ◌⊎◌, inl, inr, none, some, List, [], ◌∷◌,
  ◌++◌, length, get_elem?, set, replicate, All, Any, arith,
}
use nawala_checker.Checker.Batch.{fill, remove_at}

pub length-set {ℓ} : {A : Type ℓ} (xs : List A) (i : ℕ) (v : A) → length (set xs i v) ≡ length xs
length-set [] i v = refl
length-set (x ∷ xs) zero v = refl
length-set (x ∷ xs) (suc i) v = ap suc (length-set xs i v)

pub length-replicate {ℓ} : {A : Type ℓ} (n : ℕ) (v : A) → length (replicate n v) ≡ n
length-replicate zero v = refl
length-replicate (suc n) v = ap suc (length-replicate n v)

pub length-remove_at {ℓ} :
    {A : Type ℓ} (xs : List A) (j : ℕ) (x : A)
    → get_elem? xs j ≡ some x
    → length xs ≡ length (remove_at xs j) + 1
unfolding remove_at
length-remove_at [] j x h = absurd cc
length-remove_at (y ∷ xs) zero x h = omega arith
length-remove_at (y ∷ xs) (suc j) x h = omega (arith, length-remove_at xs j x h)

pub get_elem?-set {ℓ} :
    {A : Type ℓ} (xs : List A) (i : ℕ) (v : A) → i < length xs → get_elem? (set xs i v) i ≡ some v
get_elem?-set [] i v h = absurd (omega arith)
get_elem?-set (x ∷ xs) zero v h = refl
get_elem?-set (x ∷ xs) (suc i) v h = get_elem?-set xs i v (omega arith)

pub get_elem?-set_other {ℓ} :
    {A : Type ℓ} (xs : List A) (i k : ℕ) (v : A) → i ≢ k → get_elem? (set xs i v) k ≡ get_elem? xs k
get_elem?-set_other [] i k v h = refl
get_elem?-set_other (x ∷ xs) zero zero v h = absurd (h refl)
get_elem?-set_other (x ∷ xs) zero (suc k) v h = refl
get_elem?-set_other (x ∷ xs) (suc i) zero v h = refl
get_elem?-set_other (x ∷ xs) (suc i) (suc k) v h = get_elem?-set_other xs i k v (λ e. h (ap suc e))

pub get_elem?-bound {ℓ} :
    {A : Type ℓ} (xs : List A) (k : ℕ) (x : A) → get_elem? xs k ≡ some x → k < length xs
get_elem?-bound [] k x h = absurd cc
get_elem?-bound (y ∷ xs) zero x h = omega arith
get_elem?-bound (y ∷ xs) (suc k) x h = omega (arith, get_elem?-bound xs k x h)

pub get_elem?-end {ℓ} : {A : Type ℓ} (xs : List A) (k : ℕ) → get_elem? xs k ≡ none → length xs ≤ k
get_elem?-end [] k h = omega arith
get_elem?-end (y ∷ xs) zero h = absurd cc
get_elem?-end (y ∷ xs) (suc k) h = omega (arith, get_elem?-end xs k h)

module _ {A B : Type 0} (f : A → B) where
  pub length-fill :
      (i : ℕ) (as_ : List A) (rs : List B)
      → length rs ≡ length as_
      → length (fill f i as_ rs) ≡ length as_
  unfolding fill
  length-fill i [] rs h = h
  length-fill i (a ∷ as_) [] h = h
  length-fill zero (a ∷ as_) (r ∷ rs) h = ap suc (length-fill zero as_ rs (omega arith))
  length-fill (suc i) (a ∷ as_) (r ∷ rs) h = ap suc (length-fill i as_ rs (omega arith))

  pub get_elem?-fill_before :
      (i : ℕ) (as_ : List A) (rs : List B) (k : ℕ)
      → length rs ≡ length as_
      → k < i
      → get_elem? (fill f i as_ rs) k ≡ get_elem? rs k
  unfolding fill
  get_elem?-fill_before i [] rs k n h = refl
  get_elem?-fill_before i (a ∷ as_) [] k n h = refl
  get_elem?-fill_before zero (a ∷ as_) (r ∷ rs) k n h = absurd (omega arith)
  get_elem?-fill_before (suc i) (a ∷ as_) (r ∷ rs) zero n h = refl
  get_elem?-fill_before (suc i) (a ∷ as_) (r ∷ rs) (suc k) n h =
      get_elem?-fill_before i as_ rs k (omega arith) (omega arith)

  pub get_elem?-fill :
      (i : ℕ) (as_ : List A) (rs : List B) (k : ℕ) (a : A)
      → length rs ≡ length as_
      → i ≤ k
      → get_elem? as_ k ≡ some a
      → get_elem? (fill f i as_ rs) k ≡ some (f a)
  unfolding fill
  get_elem?-fill i [] rs k a n h q = absurd cc
  get_elem?-fill i (b ∷ as_) [] k a n h q = absurd (omega arith)
  get_elem?-fill zero (b ∷ as_) (r ∷ rs) zero a n h q = cc
  get_elem?-fill zero (b ∷ as_) (r ∷ rs) (suc k) a n h q =
      get_elem?-fill zero as_ rs k a (omega arith) (omega arith) q
  get_elem?-fill (suc i) (b ∷ as_) (r ∷ rs) zero a n h q = absurd (omega arith)
  get_elem?-fill (suc i) (b ∷ as_) (r ∷ rs) (suc k) a n h q =
      get_elem?-fill i as_ rs k a (omega arith) (omega arith) q

module _ {A : Type 0} where
  pub All-get_elem? {κ} :
      (P : A → Type κ) (xs : List A) (j : ℕ) (x : A) → All P xs → get_elem? xs j ≡ some x → P x
  All-get_elem? P [] j x h q = absurd cc
  All-get_elem? P (y ∷ xs) zero x h q = let e : y ≡ x = cc in subst P e h.0
  All-get_elem? P (y ∷ xs) (suc j) x h q = All-get_elem? P xs j x h.1 q

  pub All-remove_at {κ} : (P : A → Type κ) (xs : List A) (j : ℕ) → All P xs → All P (remove_at xs j)
  unfolding remove_at
  All-remove_at P [] j h = h
  All-remove_at P (y ∷ xs) zero h = h.1
  All-remove_at P (y ∷ xs) (suc j) h = (h.0, All-remove_at P xs j h.1)

  pub Any-remove_at :
      (P : A → Type 0) (xs : List A) (j : ℕ) (x : A)
      → Any P xs
      → get_elem? xs j ≡ some x
      → P x ⊎ Any P (remove_at xs j)
  unfolding remove_at
  Any-remove_at P [] j x h q = absurd cc
  Any-remove_at P (y ∷ xs) zero x (inl p) q = let e : y ≡ x = cc in inl (subst P e p)
  Any-remove_at P (y ∷ xs) zero x (inr p) q = inr p
  Any-remove_at P (y ∷ xs) (suc j) x (inl p) q = inr (inl p)
  Any-remove_at P (y ∷ xs) (suc j) x (inr p) q = elim (Any-remove_at P xs j x p q) [
    | inl l ↦ inl l
    | inr r ↦ inr (inr r)
  ]

  pub Any-append_left : (P : A → Type 0) (xs ys : List A) → Any P xs → Any P (xs ++ ys)
  Any-append_left P [] ys h = elim h [ ]
  Any-append_left P (x ∷ xs) ys (inl p) = inl p
  Any-append_left P (x ∷ xs) ys (inr p) = inr (Any-append_left P xs ys p)

  pub Any-append_last : (P : A → Type 0) (xs : List A) (x : A) → P x → Any P (xs ++ x ∷ [])
  Any-append_last P [] x h = inl h
  Any-append_last P (y ∷ xs) x h = inr (Any-append_last P xs x h)
