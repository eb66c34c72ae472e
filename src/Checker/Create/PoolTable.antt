-- ===== src/Checker/Create/PoolTable.antt =====
-- The pools that `New` makes.
use nawala_checker.Common.{
  ℕ, ◌≤◌, ◌≡◌, inl, inr, refl, Bool, true, false, ◌||◌, Option, none, some, List, [], ◌∷◌, ◌++◌,
  if◌then◌else◌, Bytes, text_eq, text_eq_iff, any, All, All-append, arith, Option-cases,
}
use nawala_checker.Types.{DnsServer}
use nawala_checker.Network.{Client}
use nawala_checker.ConnPool.{ConnPool, new_conn_pool}
use nawala_checker.Checker.{Pools, find_pool}
use nawala_checker.Checker.Create.{add_pools}

-- A pool stands under its own server's address, with room for a connection, and with none yet.
abbrev pub IsFresh : Bytes × ConnPool → Type 0
IsFresh (a, p) = (p.addr ≡ a) × (1 ≤ p.capacity) × (p.idle ≡ [])

find_pool-append :
    (a b : Bytes) (p : ConnPool) (ps : Pools)
    → find_pool a ps ≡ none
    → find_pool b (ps ++ (a, p) ∷ []) ≡ (if text_eq a b then some p else find_pool b ps)
unfolding find_pool
find_pool-append a b p [] h = refl
find_pool-append a b p ((x, q) ∷ ps) h =
    ground (arith, text_eq_iff a b, text_eq_iff x b, text_eq_iff x a, find_pool-append a b p ps)

abbrev pub is_some : Option ConnPool → Bool
is_some none = false
is_some (some p) = true

abbrev add_pool : Option Client → ℕ → Bytes → Pools → Pools
add_pool client size a pools = elim (find_pool a pools) [
  | none ↦ pools ++ (a, new_conn_pool client a size) ∷ []
  | some p ↦ pools
]

add_pool-find :
    (client : Option Client) (size : ℕ) (a b : Bytes) (pools : Pools)
    → is_some (find_pool b (add_pool client size a pools))
      ≡ (is_some (find_pool b pools) || text_eq a b)
add_pool-find client size a b pools = elim (Option-cases (find_pool a pools)) [
  | inl e ↦ ground (arith, e, find_pool-append a b (new_conn_pool client a size) pools e)
  | inr (p, e) ↦ ground (arith, e, text_eq_iff a b)
]

add_pool-IsFresh :
    (client : Option Client) (size : ℕ) (a : Bytes) (pools : Pools)
    → 1 ≤ size
    → All IsFresh pools
    → All IsFresh (add_pool client size a pools)
unfolding new_conn_pool
add_pool-IsFresh client size a pools h v = elim (Option-cases (find_pool a pools)) [
  | inl e ↦ rw (e, add_pool) (All-append IsFresh pools _ v ((refl, h, refl), tt))
  | inr (p, e) ↦ rw (e, add_pool) v
]

pub add_pools-IsFresh :
    (client : Option Client) (size : ℕ) (ss : List DnsServer) (pools : Pools)
    → 1 ≤ size
    → All IsFresh pools
    → All IsFresh (add_pools client size ss pools)
unfolding add_pools
add_pools-IsFresh client size [] pools h v = v
add_pools-IsFresh client size (s ∷ ss) pools h v =
    add_pools-IsFresh client size ss _ h (add_pool-IsFresh client size s.address pools h v)

pub add_pools-find :
    (client : Option Client) (size : ℕ) (ss : List DnsServer) (pools : Pools) (a : Bytes)
    → is_some (find_pool a (add_pools client size ss pools))
      ≡ (is_some (find_pool a pools) || any (λ s. text_eq s.address a) ss)
unfolding add_pools
add_pools-find client size [] pools a = ground arith
add_pools-find client size (s ∷ ss) pools a = ground (
  arith,
  add_pools-find client size ss (add_pool client size s.address pools) a,
  add_pool-find client size s.address a pools,
)
