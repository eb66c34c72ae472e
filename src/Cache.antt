-- ===== src/Cache.antt =====
-- src/nawala/cache.go: the cache interface and the in-memory cache. The map is an association list
-- in which a key stands once; times are integers of nanoseconds, read from the clock by the caller.
pub mod Laws
pub mod Interface
mod Examples
use nawala_checker.Common.{
  ◌≡◌, Bool, true, false, Option, none, some, List, [], ◌∷◌, if◌then◌else◌, Bytes, text_eq,
}
use nawala_checker.Common.Int.{ℤ, ◌+ℤ◌, ltb_ℤ, eqb_ℤ}
use nawala_checker.Types.{Result}

pub record CacheEntry : Type 0 where
  pub result : Result
  pub expires_at : ℤ

abbrev pub Entries : Type 0
Entries = List (Bytes × CacheEntry)

pub record MemoryCache : Type 0 where
  pub entries : Entries
  pub ttl : ℤ

unfoldable pub new_memory_cache : ℤ → MemoryCache
new_memory_cache ttl = record { entries = []; ttl = ttl }

-- `m[key]`, `m[key] = e` and `delete(m, key)` of a Go map.
unfoldable pub find : Bytes → Entries → Option CacheEntry
find k [] = none
find k ((j, e) ∷ m) = if text_eq j k then some e else find k m

unfoldable pub assign : Bytes → CacheEntry → Entries → Entries
assign k e [] = (k, e) ∷ []
assign k e ((j, d) ∷ m) = if text_eq j k then (k, e) ∷ m else (j, d) ∷ assign k e m

unfoldable pub remove : Bytes → Entries → Entries
remove k [] = []
remove k ((j, d) ∷ m) = if text_eq j k then remove k m else (j, d) ∷ remove k m

-- `time.Now().After(entry.expiresAt)`
abbrev pub is_expired : CacheEntry → ℤ → Bool
is_expired e now = ltb_ℤ e.expires_at now

-- The second critical section of `Get`, behind an expired `entry` that the first one read.
unfoldable pub reap : Bytes → CacheEntry → MemoryCache → MemoryCache
reap k entry c = elim (find k c.entries) [
  | none ↦ c
  | some current ↦
      if eqb_ℤ current.expires_at entry.expires_at
      then record c { entries = remove k c.entries }
      else c
]

get_entry : Option CacheEntry → Bytes → ℤ → MemoryCache → Option Result × MemoryCache
get_entry none k now c = (none, c)
get_entry (some e) k now c = if is_expired e now then (none, reap k e c) else (some e.result, c)

-- `Get` with nothing between its two critical sections.
unfoldable pub get : Bytes → ℤ → MemoryCache → Option Result × MemoryCache
unfolding get_entry
get k now c = get_entry (find k c.entries) k now c

unfoldable pub set : Bytes → Result → ℤ → MemoryCache → MemoryCache
set k val now c = record c {
  entries = assign k (record { result = val; expires_at = now +ℤ c.ttl }) c.entries;
}

unfoldable pub flush : MemoryCache → MemoryCache
flush c = record c { entries = [] }

-- The interface `Cache`, over the state `C` of an implementation; the time is the clock's.
pub record CacheOps (C : Type 0) : Type 0 where
  pub get_op : Bytes → ℤ → C → Option Result × C
  pub set_op : Bytes → Result → ℤ → C → C
  pub flush_op : C → C

abbrev pub memory_ops : CacheOps MemoryCache
memory_ops = record { get_op = get; set_op = set; flush_op = flush }

-- The cache of a checker: the default one, or one of the caller's, whose state is an `X`.
pub data Cache (X : Type 0) : Type 0 where
  memory : MemoryCache → Cache X
  custom : X → Cache X

module _ {X : Type 0} (ops : CacheOps X) where
  unfoldable pub cache_get : Bytes → ℤ → Cache X → Option Result × Cache X
  cache_get k now (memory c) = let (r, c') = get k now c in (r, memory c')
  cache_get k now (custom x) = let (r, x') = ops.get_op k now x in (r, custom x')

  unfoldable pub cache_set : Bytes → Result → ℤ → Cache X → Cache X
  cache_set k v now (memory c) = memory (set k v now c)
  cache_set k v now (custom x) = custom (ops.set_op k v now x)

  unfoldable pub cache_flush : Cache X → Cache X
  cache_flush (memory c) = memory (flush c)
  cache_flush (custom x) = custom (ops.flush_op x)
