-- ===== src/Checker/Single/Examples.antt =====
-- Checks of one domain at work, and the theorems at them.
use nawala_checker.Common.{◌≡◌, ◌⊎◌, ◌++◌, refl, [], ◌∷◌, none, some, codes, true, false, arith}
use nawala_checker.Common.Int.{pos}
use nawala_checker.Strings.{Unicode}
use nawala_checker.Domain.{normalize_domain, is_valid_domain}
use nawala_checker.Types.{invalid_domain}
use nawala_checker.Network.Samples.{blocking, clear}
use nawala_checker.Cache.{MemoryCache, memory_ops, memory, find}
use nawala_checker.Cache.Interface.{memory_laws}
use nawala_checker.Checker.{Checker, defaults}
use nawala_checker.Checker.Single.{check_single, cache_key}
use nawala_checker.Checker.Single.Key.{cache_key_collision}
use nawala_checker.Checker.Single.Soundness.{
  IsSound, ServerError, check_single_domain, check_single_errors,
}

abbrev identity : Unicode
identity = record { lower = λ s. s; upper = λ s. s; trim = λ s. s }

abbrev checker : Checker MemoryCache
checker = record defaults { cache = some (memory (record { entries = []; ttl = pos 5 })) }

checker-IsSound : IsSound memory_ops memory_laws checker
unfolding find
checker-IsSound = record {
  plain = refl;
  retries = omega arith;
  entries = λ k v (e, q, r). absurd (ground arith);
}

check_single_domain_example :
    let (r, c', w') = check_single blocking identity memory_ops (codes " A.com") checker 0 in
    (r.domain ≡ normalize_domain identity (codes " A.com")) × IsSound memory_ops memory_laws c'
check_single_domain_example =
    check_single_domain blocking identity memory_ops memory_laws (codes " A.com") checker 0
      checker-IsSound

check_single_errors_example :
    let (r, c', w') = check_single clear identity memory_ops (codes "a.com") checker 0 in
    ((is_valid_domain (normalize_domain identity (codes "a.com")) ≡ true) × ServerError r.error)
    ⊎ ((is_valid_domain (normalize_domain identity (codes "a.com")) ≡ false)
        × (r.error ≡ some (invalid_domain (normalize_domain identity (codes "a.com"))))
        × (c' ≡ checker)
        × (w' ≡ 0))
check_single_errors_example =
    check_single_errors clear identity memory_ops memory_laws (codes "a.com") checker 0
      checker-IsSound

cache_key_collision_example :
    cache_key none
      (codes "a.com")
      (record {
        address = codes "192.0.2.1" ++ b':' ∷ codes "53";
        keyword = codes "x";
        query_type = codes "A";
      })
      1
    ≡ cache_key none
        (codes "a.com")
        (record {
          address = codes "192.0.2.1";
          keyword = codes "53" ++ b':' ∷ codes "x";
          query_type = codes "A";
        })
        1
cache_key_collision_example =
    cache_key_collision none (codes "a.com") (codes "192.0.2.1") (codes "53") (codes "x")
      (codes "A") (codes "A") 1
