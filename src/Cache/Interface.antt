-- ===== src/Cache/Interface.antt =====
-- What a caller may rely on of any implementation of `Cache`, and that the in-memory one meets it.
use nawala_checker.Common.{
  ◌≡◌, ◌⊎◌, inl, inr, sym, some, Bytes, text_eq, text_eq_iff, arith, Bool-cases, Option-cases,
}
use nawala_checker.Common.Int.{ℤ, ◌+ℤ◌}
use nawala_checker.Types.{Result}
use nawala_checker.Cache.{
  CacheEntry, Entries, MemoryCache, CacheOps, memory_ops, Cache, memory, custom, cache_get,
  cache_set, find, remove, reap, get_entry, get, set, flush,
}
use nawala_checker.Cache.Laws.{find-assign, find-remove}

-- `Holds c k v`: the state `c` may answer `v` for the key `k`. Only `Set` makes it hold.
pub record CacheLaws {C : Type 0} (ops : CacheOps C) : Type 1 where
  pub Holds : C → Bytes → Result → Type 0
  pub get_sound :
      (k : Bytes) (now : ℤ) (c : C) (v : Result) → (ops.get_op k now c).0 ≡ some v → Holds c k v
  pub get_keeps :
      (k : Bytes) (now : ℤ) (c : C) (j : Bytes) (v : Result)
      → Holds (ops.get_op k now c).1 j v
      → Holds c j v
  pub set_adds :
      (k : Bytes) (v : Result) (now : ℤ) (c : C) (j : Bytes) (u : Result)
      → Holds (ops.set_op k v now c) j u
      → ((j ≡ k) × (u ≡ v)) ⊎ Holds c j u
  pub flush_empties : (c : C) (j : Bytes) (v : Result) → ¬ Holds (ops.flush_op c) j v

-- An entry for the key, expired or not.
abbrev pub Stored : MemoryCache → Bytes → Result → Type 0
Stored c k v = (e : CacheEntry) × (find k c.entries ≡ some e) × (e.result ≡ v)

pub memory_get_sound :
    (k : Bytes) (now : ℤ) (c : MemoryCache) (v : Result) → (get k now c).0 ≡ some v → Stored c k v
unfolding get get_entry
memory_get_sound k now c v h = elim (Option-cases (find k c.entries)) [
  | inl q ↦ absurd (ground (arith, q))
  | inr (e, q) ↦ (e, q, ground (arith, q))
]

remove_keeps :
    (k j : Bytes) (m : Entries) (e : CacheEntry) → find j (remove k m) ≡ some e → find j m ≡ some e
remove_keeps k j m e h = ground (arith, find-remove k j m)

reap_keeps :
    (k : Bytes) (d : CacheEntry) (c : MemoryCache) (j : Bytes) (e : CacheEntry)
    → find j (reap k d c).entries ≡ some e
    → find j c.entries ≡ some e
unfolding reap
reap_keeps k d c j e h = ground (arith, remove_keeps k j c.entries e)

get_keeps_entry :
    (k : Bytes) (now : ℤ) (c : MemoryCache) (j : Bytes) (e : CacheEntry)
    → find j (get k now c).1.entries ≡ some e
    → find j c.entries ≡ some e
unfolding get get_entry
get_keeps_entry k now c j e h = elim (Option-cases (find k c.entries)) [
  | inl q ↦ ground (arith, q)
  | inr (d, q) ↦ ground (arith, q, reap_keeps k d c j e)
]

pub memory_set_adds :
    (k : Bytes) (v : Result) (now : ℤ) (c : MemoryCache) (j : Bytes) (u : Result)
    → Stored (set k v now c) j u
    → ((j ≡ k) × (u ≡ v)) ⊎ Stored c j u
unfolding set
memory_set_adds k v now c j u (e, q, r) =
    let entry : CacheEntry = record { result = v; expires_at = now +ℤ c.ttl } in
    elim (Bool-cases (text_eq k j)) [
      | inl same ↦
          inl (sym ((text_eq_iff k j).0 same), ground (arith, find-assign k j entry c.entries))
      | inr other ↦ inr (e, ground (arith, find-assign k j entry c.entries), r)
    ]

pub memory_flush_empties : (c : MemoryCache) (j : Bytes) (v : Result) → ¬ Stored (flush c) j v
unfolding flush find
memory_flush_empties c j v (e, q, r) = cc

pub memory_get_keeps :
    (k : Bytes) (now : ℤ) (c : MemoryCache) (j : Bytes) (v : Result)
    → Stored (get k now c).1 j v
    → Stored c j v
memory_get_keeps k now c j v (e, q, r) = (e, get_keeps_entry k now c j e q, r)

abbrev pub memory_laws : CacheLaws memory_ops
memory_laws = record {
  Holds = Stored;
  get_sound = memory_get_sound;
  get_keeps = memory_get_keeps;
  set_adds = memory_set_adds;
  flush_empties = memory_flush_empties;
}

-- A checker's cache meets the interface where a custom one does.
module _ {X : Type 0} (ops : CacheOps X) (laws : CacheLaws ops) where
  abbrev pub HoldsIn : Cache X → Bytes → Result → Type 0
  HoldsIn (memory c) = Stored c
  HoldsIn (custom x) = laws.Holds x

  pub cache_get_sound :
      (k : Bytes) (now : ℤ) (c : Cache X) (v : Result)
      → (cache_get ops k now c).0 ≡ some v
      → HoldsIn c k v
  unfolding cache_get
  cache_get_sound k now (memory c) v h = memory_get_sound k now c v h
  cache_get_sound k now (custom x) v h = laws.get_sound k now x v h

  pub cache_get_keeps :
      (k : Bytes) (now : ℤ) (c : Cache X) (j : Bytes) (v : Result)
      → HoldsIn (cache_get ops k now c).1 j v
      → HoldsIn c j v
  unfolding cache_get
  cache_get_keeps k now (memory c) j v h = memory_get_keeps k now c j v h
  cache_get_keeps k now (custom x) j v h = laws.get_keeps k now x j v h

  pub cache_set_adds :
      (k : Bytes) (v : Result) (now : ℤ) (c : Cache X) (j : Bytes) (u : Result)
      → HoldsIn (cache_set ops k v now c) j u
      → ((j ≡ k) × (u ≡ v)) ⊎ HoldsIn c j u
  unfolding cache_set
  cache_set_adds k v now (memory c) j u h = memory_set_adds k v now c j u h
  cache_set_adds k v now (custom x) j u h = laws.set_adds k v now x j u h
