-- ===== src/Cache/Examples.antt =====
-- The cache at work, and the theorems at it.
use nawala_checker.Common.{
  ◌≡◌, refl, [], ◌∷◌, none, some, codes, text_eq, true, if◌then◌else◌, arith,
}
use nawala_checker.Common.Int.{pos, ◌+ℤ◌, ltb_ℤ}
use nawala_checker.Types.{Result}
use nawala_checker.Cache.{
  MemoryCache, CacheEntry, new_memory_cache, get, set, flush, find, assign, remove, reap,
}
use nawala_checker.Cache.Laws.{view, memory_cache_refines, reap_invisible}

abbrev blocked : Result
blocked = record { domain = codes "a.com"; blocked = true; server = codes "s"; error = none }

abbrev cache : MemoryCache
cache = record {
  entries = (codes "k", record { result = blocked; expires_at = pos 10 }) ∷ [];
  ttl = pos 5;
}

program : Unit {0}
unfolding get set flush find assign remove reap new_memory_cache ◌+ℤ◌ text_eq
program = tt

hit : (get (codes "k") (pos 10) cache).0 ≡ some blocked
unfolding program
hit = refl

expires : get (codes "k") (pos 11) cache ≡ (none, record { entries = []; ttl = pos 5 })
unfolding program
expires = refl

memory_cache_refines_example :
    ((get (codes "k") (pos 3) cache).0 ≡ view cache (pos 3) (codes "k"))
    × (view (get (codes "k") (pos 3) cache).1 (pos 9) (codes "j") ≡ view cache (pos 9) (codes "j"))
    × (view (set (codes "k") blocked (pos 3) cache) (pos 9) (codes "j") ≡ (
        if text_eq (codes "k") (codes "j")
        then (if ltb_ℤ (pos 3 +ℤ pos 5) (pos 9) then none else some blocked)
        else view cache (pos 9) (codes "j")))
    × (view (flush cache) (pos 9) (codes "j") ≡ none)
    × (view (new_memory_cache (pos 5)) (pos 9) (codes "j") ≡ none)
memory_cache_refines_example =
    memory_cache_refines cache (codes "k") (codes "j") blocked (pos 3) (pos 9) (omega arith)

abbrev old_entry : CacheEntry
old_entry = record { result = blocked; expires_at = pos 2 }

-- Another call has stored a value since the old one was read.
reap_invisible_example :
    view (reap (codes "k") old_entry cache) (pos 4) (codes "k") ≡ view cache (pos 4) (codes "k")
reap_invisible_example =
    reap_invisible (codes "k") old_entry (pos 3) (pos 4) cache (codes "k") refl (omega arith)
