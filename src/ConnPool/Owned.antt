-- ===== src/ConnPool/Owned.antt =====
-- The connections that the pool and a running call own.
use nawala_checker.Common.{
  ℕ, ◌≤◌, ◌≡◌, refl, List, [], ◌∷◌, ◌++◌, length, Outcome, ok, err, arith, inl, inr, Bool, true,
  false, not, ◌&&◌, ◌||◌, ◌==◌, Bool-cases, ap, ◌∙◌,
}
use nawala_checker.Types.{NetError}
use nawala_checker.ConnPool.{ConnPool}

-- Whether a connection is among some.
abbrev pub has : ℕ → List ℕ → Bool
has n [] = false
has n (c ∷ cs) = n == c || has n cs

pub has-append : (n : ℕ) (xs ys : List ℕ) → has n (xs ++ ys) ≡ (has n xs || has n ys)
has-append n [] ys = refl
has-append n (x ∷ xs) ys = ground (arith, has-append n xs ys)

-- The connection that a call holds behind a dial or behind `get`.
abbrev pub holding : Outcome NetError ℕ → List ℕ → List ℕ
holding (ok c) cs = c ∷ cs
holding (err e) cs = cs

module _ {W : Type 0} (is_open : W → ℕ → Bool) where
  -- Each of the connections is open, and none stands twice.
  abbrev pub AllOpen : W → List ℕ → Type 0
  AllOpen w [] = Unit
  AllOpen w (c ∷ cs) = (is_open w c ≡ true) × (has c cs ≡ false) × AllOpen w cs

  pub AllOpen-same :
      (w w' : W) (cs : List ℕ)
      → ((n : ℕ) → has n cs ≡ true → is_open w' n ≡ is_open w n)
      → AllOpen w cs
      → AllOpen w' cs
  AllOpen-same w w' [] same v = tt
  AllOpen-same w w' (c ∷ cs) same (o, once, v) =
      (same c (ground arith) ∙ o, once, AllOpen-same w w' cs (λ n h. same n (ground (arith, h))) v)

  -- The connection at the front goes to the back.
  pub AllOpen-last :
      (w : W) (c : ℕ) (cs : List ℕ)
      → is_open w c ≡ true
      → has c cs ≡ false
      → AllOpen w cs
      → AllOpen w (cs ++ c ∷ [])
  AllOpen-last w c [] o h v = (o, refl, tt)
  AllOpen-last w c (x ∷ cs) o h (ox, once, v) = (
    ox,
    ground (arith, has-append x cs (c ∷ []), once, h),
    AllOpen-last w c cs o (ground (arith, h)) v,
  )

  -- One that is not open is not among them.
  pub closed-AllOpen :
      (w : W) (c : ℕ) (cs : List ℕ) → is_open w c ≡ false → AllOpen w cs → has c cs ≡ false
  closed-AllOpen w c [] h v = refl
  closed-AllOpen w c (x ∷ cs) h (o, once, v) = elim (Bool-cases (c == x)) [
    | inl e ↦
        let same : c ≡ x = ground (arith, e) in absurd (ground (arith, o, h, ap (is_open w) same))
    | inr e ↦ ground (arith, e, closed-AllOpen w c cs h v)
  ]

  -- The connections `cs` of the pool and the running call become `cs'`: every other connection is open
  -- behind it exactly if it was, and those of the pool and the call stay open.
  pub record Owns (cs cs' : List ℕ) (w w' : W) : Type 0 where
    pub others : (n : ℕ) → (is_open w' n && not (has n cs')) ≡ (is_open w n && not (has n cs))
    pub owned : AllOpen w cs → AllOpen w' cs'

  pub Owns-refl : (cs : List ℕ) (w : W) → Owns cs cs w w
  Owns-refl cs w = record { others = λ n. refl; owned = λ v. v }

  pub Owns-trans : {a b c : List ℕ} {w x y : W} → Owns a b w x → Owns b c x y → Owns a c w y
  Owns-trans h k = record {
    others = λ n. k.others n ∙ h.others n;
    owned = λ v. k.owned (h.owned v);
  }

-- The limit, the server and the client of a pool stay.
pub record Stays (p p' : ConnPool) : Type 0 where
  pub within : length p.idle ≤ p.capacity → length p'.idle ≤ p'.capacity
  pub same_capacity : p'.capacity ≡ p.capacity
  pub same_addr : p'.addr ≡ p.addr
  pub same_client : p'.client ≡ p.client

pub Stays-trans : {p q r : ConnPool} → Stays p q → Stays q r → Stays p r
Stays-trans a b = record {
  within = λ h. b.within (a.within h);
  same_capacity = b.same_capacity ∙ a.same_capacity;
  same_addr = b.same_addr ∙ a.same_addr;
  same_client = b.same_client ∙ a.same_client;
}

pub Stays-refl : (p : ConnPool) → Stays p p
Stays-refl p = record {
  within = λ h. h;
  same_capacity = refl;
  same_addr = refl;
  same_client = refl;
}
