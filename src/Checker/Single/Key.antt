-- ===== src/Checker/Single/Key.antt =====
-- What a cache key tells apart.
use nawala_checker.Common.{
  ℕ, ◌≡◌, refl, ap, Option, none, some, [], ◌∷◌, ◌++◌, append_assoc, Bytes, arith,
}
use nawala_checker.Strings.Decimal.{decimal}
use nawala_checker.Strings.Split.{Lacks}
use nawala_checker.Types.{DnsServer}
use nawala_checker.Checker.{cache_key_prefix}
use nawala_checker.Checker.Single.{raw_key, cache_key}

-- What stands before the first `b` is determined by the text.
pub before_first :
    (b : ℕ) (p q s t : Bytes) → Lacks b p → Lacks b q → p ++ b ∷ s ≡ q ++ b ∷ t → (p ≡ q) × (s ≡ t)
before_first b [] [] s t h k e = (refl, cc)
before_first b [] (d ∷ q) s t h k e = absurd (ground (arith, k.0))
before_first b (c ∷ p) [] s t h k e = absurd (ground (arith, h.0))
before_first b (c ∷ p) (d ∷ q) s t h k e =
    let (x, y) = before_first b p q s t h.1 k.1 (cc) in (cc, y)

prefix_cancel : (p s t : Bytes) → p ++ s ≡ p ++ t → s ≡ t
prefix_cancel [] s t e = e
prefix_cancel (c ∷ p) s t e = prefix_cancel p s t (cc)

-- Two keys that are not digested and are equal are for one domain, as no valid domain has a colon.
pub cache_key_domain :
    (d e : Bytes) (srv tgt : DnsServer) (p q : ℕ)
    → Lacks b':' d
    → Lacks b':' e
    → cache_key none d srv p ≡ cache_key none e tgt q
    → d ≡ e
unfolding cache_key raw_key
cache_key_domain d e srv tgt p q h k same =
    (before_first b':' d e _ _ h k (prefix_cancel cache_key_prefix _ _ same)).0

-- The address and the keyword are not told apart: a port moved from the address to the keyword gives
-- the same key for another server.
pub cache_key_collision :
    (hash : Option (Bytes → Bytes)) (d addr part keyword qt qt' : Bytes) (q : ℕ)
    → cache_key hash d
        (record { address = addr ++ b':' ∷ part; keyword = keyword; query_type = qt })
        q
      ≡ cache_key hash d
          (record { address = addr; keyword = part ++ b':' ∷ keyword; query_type = qt' })
          q
unfolding cache_key raw_key
cache_key_collision none d addr part keyword qt qt' q =
    ap (λ x. cache_key_prefix ++ (d ++ b':' ∷ x)) (regroup addr part keyword q)
  where
    regroup :
        (addr part keyword : Bytes) (q : ℕ)
        → (addr ++ b':' ∷ part) ++ b':' ∷ (keyword ++ b':' ∷ decimal q)
          ≡ addr ++ b':' ∷ ((part ++ b':' ∷ keyword) ++ b':' ∷ decimal q)
    regroup addr part keyword q = simp append_assoc
cache_key_collision (some hash) d addr part keyword qt qt' q =
    ap (λ x. cache_key_prefix ++ hash (d ++ b':' ∷ x)) (simp append_assoc)
