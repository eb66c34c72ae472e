-- ===== src/Cache/Laws.antt =====
-- The in-memory cache as a map whose entries end with their time.
use nawala_checker.Common.{
  ◌≡◌, inl, inr, refl, true, Option, none, some, [], ◌∷◌, if◌then◌else◌, Bytes, text_eq,
  text_eq_iff, arith, Bool-cases, Option-cases,
}
use nawala_checker.Common.Int.{ℤ, ◌+ℤ◌, ltb_ℤ, eqb_ℤ, ◌≤ℤ◌}
use nawala_checker.Types.{Result}
use nawala_checker.Cache.{
  CacheEntry, Entries, MemoryCache, find, assign, remove, is_expired, reap, get_entry, get, set,
  flush, new_memory_cache,
}

pub find-assign :
    (k j : Bytes) (e : CacheEntry) (m : Entries)
    → find j (assign k e m) ≡ (if text_eq k j then some e else find j m)
unfolding find assign
find-assign k j e [] = refl
find-assign k j e ((i, d) ∷ m) =
    ground (arith, text_eq_iff k j, text_eq_iff i k, text_eq_iff i j, find-assign k j e m)

pub find-remove :
    (k j : Bytes) (m : Entries) → find j (remove k m) ≡ (if text_eq k j then none else find j m)
unfolding find remove
find-remove k j [] = ground arith
find-remove k j ((i, d) ∷ m) =
    ground (arith, text_eq_iff k j, text_eq_iff i k, text_eq_iff i j, find-remove k j m)

-- What a caller can see of a key at a time.
abbrev unexpired : Option CacheEntry → ℤ → Option Result
unexpired none now = none
unexpired (some e) now = if is_expired e now then none else some e.result

abbrev pub view : MemoryCache → ℤ → Bytes → Option Result
view c now k = unexpired (find k c.entries) now

expired_later :
    (e d : CacheEntry) (now later : ℤ)
    → is_expired e now ≡ true
    → now ≤ℤ later
    → eqb_ℤ d.expires_at e.expires_at ≡ true
    → is_expired d later ≡ true
expired_later e d now later h le q = ground arith

-- The lock is given up between the two halves of `Get`, so the second half finds any contents `c`.
-- Where the first half saw an entry that has expired, and whatever other calls have done in between,
-- the second changes nothing that a caller can see from then on. So a value that another call has
-- just stored is not lost.
pub reap_invisible :
    (k : Bytes) (e : CacheEntry) (now later : ℤ) (c : MemoryCache) (j : Bytes)
    → is_expired e now ≡ true
    → now ≤ℤ later
    → view (reap k e c) later j ≡ view c later j
unfolding reap
reap_invisible k e now later c j h le = elim (Option-cases (find k c.entries)) [
  | inl q ↦ rw (q, reap)
  | inr (d, q) ↦ elim (Bool-cases (eqb_ℤ d.expires_at e.expires_at)) [
    | inl same ↦ ground (
      arith,
      q,
      same,
      expired_later e d now later h le same,
      find-remove k j c.entries,
      text_eq_iff k j,
    )
    | inr other ↦ ground (arith, q, other)
  ]
]

pub get-view : (k : Bytes) (now : ℤ) (c : MemoryCache) → (get k now c).0 ≡ view c now k
unfolding get get_entry
get-view k now c = ground arith

pub get_invisible :
    (k : Bytes) (now later : ℤ) (c : MemoryCache) (j : Bytes)
    → now ≤ℤ later
    → view (get k now c).1 later j ≡ view c later j
unfolding get get_entry
get_invisible k now later c j le = elim (Option-cases (find k c.entries)) [
  | inl q ↦ rw (q, get, get_entry)
  | inr (e, q) ↦ elim (Bool-cases (is_expired e now)) [
    | inl old ↦ ground (arith, q, old, reap_invisible k e now later c j old le)
    | inr fresh ↦ ground (arith, q, fresh)
  ]
]

-- The in-memory cache is a map from keys to values that end with their time, seen at any time `t`
-- from the call on: `Get` returns what is visible under the key and leaves all that is visible as it
-- is; `Set` makes the value visible under its key until the TTL is over, and touches no other key;
-- `Flush` leaves nothing, and a new cache has nothing.
pub memory_cache_refines :
    (c : MemoryCache) (k j : Bytes) (v : Result) (now t : ℤ)
    → now ≤ℤ t
    → ((get k now c).0 ≡ view c now k)
      × (view (get k now c).1 t j ≡ view c t j)
      × (view (set k v now c) t j
          ≡ (if text_eq k j then (if ltb_ℤ (now +ℤ c.ttl) t then none else some v) else view c t j))
      × (view (flush c) t j ≡ none)
      × (view (new_memory_cache c.ttl) t j ≡ none)
unfolding set flush new_memory_cache find
memory_cache_refines c k j v now t le = (
  get-view k now c,
  get_invisible k now t c j le,
  ground (arith, find-assign k j (record { result = v; expires_at = now +ℤ c.ttl }) c.entries),
  refl,
  refl,
)
