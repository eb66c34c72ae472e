-- ===== src/Checker/Single/Soundness.antt =====
-- A check speaks of the domain that it was asked for, also where a cache answers.
use nawala_checker.Common.{
  ℕ, ◌≡◌, ◌⊎◌, inl, inr, refl, ap, ◌∙◌, sym, subst, true, false, Option, none, some, List, [], ◌∷◌,
  Bytes, Option-cases, Bool-cases, Outcome-cases, All, arith,
}
use nawala_checker.Common.Int.{pos, ◌≤ℤ◌}
use nawala_checker.Strings.{Unicode}
use nawala_checker.Strings.Split.{Lacks}
use nawala_checker.Domain.{normalize_domain, is_valid_domain}
use nawala_checker.Domain.Normal.{IsNameByte, valid_bytes}
use nawala_checker.Types.{Error, DnsServer, Result, is_definitive, invalid_domain, all_dns_failed}
use nawala_checker.Network.{Network}
use nawala_checker.Dns.{parse_query_type}
use nawala_checker.Cache.{Cache, CacheOps}
use nawala_checker.Cache.Interface.{
  CacheLaws, HoldsIn, cache_get_sound, cache_get_keeps, cache_set_adds,
}
use nawala_checker.Checker.{Checker}
use nawala_checker.Checker.Probe.{query_with_retries, verdict_of}
use nawala_checker.Checker.Probe.Frame.{SameBut, query_with_retries-SameBut}
use nawala_checker.Checker.Probe.Results.{query_with_retries_result}
use nawala_checker.Checker.Single.{
  cache_key, failure, look_up, look_up_in, store, store_in, try_servers, check_single,
}
use nawala_checker.Checker.Single.Key.{cache_key_domain}

-- A value under a key is a verdict on a domain that the key is for.
abbrev pub IsEntry : Bytes → Result → Type 0
IsEntry key v =
    (srv : DnsServer) × (q : ℕ) × Lacks b':' v.domain
    × (key ≡ cache_key none v.domain srv q)
    × (v.error ≡ none)

module _ {X : Type 0} (ops : CacheOps X) (laws : CacheLaws ops) where
  abbrev pub HoldsEntries : Option (Cache X) → Type 0
  HoldsEntries none = Unit
  HoldsEntries (some k) = (key : Bytes) (v : Result) → HoldsIn ops laws k key v → IsEntry key v

  -- Keys are not digested, there is no negative number of retries, and what the cache may answer was
  -- stored by a check.
  pub record IsSound (c : Checker X) : Type 0 where
    pub plain : c.digest_hash ≡ none
    pub retries : pos 0 ≤ℤ c.max_retries
    pub entries : HoldsEntries c.cache

  module _ {W : Type 0} (net : Network W) where
    look_up_in-IsSound :
        (k : Option (Cache X)) (key : Bytes) (c : Checker X) (w : W)
        → HoldsEntries k
        → IsSound c
        → let (r, c') = look_up_in net ops k key c w in
          IsSound c' × ((v : Result) → r ≡ some v → IsEntry key v)
    unfolding look_up_in
    look_up_in-IsSound none key c w h s = (s, λ v e. cc)
    look_up_in-IsSound (some k) key c w h s = (
      record {
        plain = s.plain;
        retries = s.retries;
        entries = λ j v q. h j v (cache_get_keeps ops laws key (net.now w) k j v q);
      },
      λ v e. h key v (cache_get_sound ops laws key (net.now w) k v e),
    )

    store_in-IsSound :
        (k : Option (Cache X)) (key : Bytes) (r : Result) (c : Checker X) (w : W)
        → HoldsEntries k
        → IsEntry key r
        → IsSound c
        → IsSound (store_in net ops k key r c w)
    unfolding store_in
    store_in-IsSound none key r c w h n s = s
    store_in-IsSound (some k) key r c w h n s = record {
      plain = s.plain;
      retries = s.retries;
      entries = λ j v q. elim (cache_set_adds ops laws key r (net.now w) k j v q) [
        | inl (same, is) ↦ subst (λ x. IsEntry j x) (sym is) (subst (λ x. IsEntry x r) (sym same) n)
        | inr old ↦ h j v old
      ];
    }

  IsSound-SameBut : (c d : Checker X) → SameBut c d → IsSound c → IsSound d
  IsSound-SameBut c d e s =
      let f : IsSound (record d { conn_pools = c.conn_pools }) = subst IsSound (sym e) s in
      record { plain = f.plain; retries = f.retries; entries = f.entries }

-- The error of a check of a valid domain: none, the server's own answer, or that no server answered.
abbrev pub ServerError : Option Error → Type 0
ServerError none = Unit
ServerError (some e) = (is_definitive e ≡ true) ⊎ (e ≡ all_dns_failed)

name-Lacks_colon : (s : Bytes) → All IsNameByte s → Lacks b':' s
name-Lacks_colon [] h = tt
name-Lacks_colon (c ∷ s) h = (ground (arith, h.0), name-Lacks_colon s h.1)

module _ {W X : Type 0} (net : Network W) (u : Unicode) (ops : CacheOps X) (laws : CacheLaws ops)
    (domain : Bytes) (no_colon : Lacks b':' domain) where
  abbrev Answers : Result × Checker X × W → Type 0
  Answers (r, c, w) = (r.domain ≡ domain) × ServerError r.error × IsSound ops laws c

  fresh-IsEntry :
      (srv : DnsServer) (q : ℕ) (r : Result) (hash : Option (Bytes → Bytes))
      → (r ≡ verdict_of domain srv true) ⊎ (r ≡ verdict_of domain srv false)
      → hash ≡ none
      → IsEntry (cache_key hash domain srv q) r × (r.domain ≡ domain) × ServerError r.error
  fresh-IsEntry srv q r hash v h =
      let e : r.domain ≡ domain = ground arith in
      let n : r.error ≡ none = ground arith in
      (
        (
          srv,
          q,
          subst (Lacks b':') (sym e) no_colon,
          ap (λ x. cache_key x domain srv q) h ∙ ap (λ d. cache_key none d srv q) (sym e),
          n,
        ),
        e,
        subst ServerError (sym n) tt,
      )

  -- A cached value under the key is for the domain.
  cached_domain :
      (srv : DnsServer) (q : ℕ) (r : Result) (hash : Option (Bytes → Bytes))
      → hash ≡ none
      → IsEntry (cache_key hash domain srv q) r
      → (r.domain ≡ domain) × ServerError r.error
  cached_domain srv q r hash h (tgt, p, lacks, e, n) = (
    cache_key_domain r.domain domain tgt srv p q lacks no_colon
        (sym e ∙ ap (λ x. cache_key x domain srv q) h),
    subst ServerError (sym n) tt,
  )

  try_servers-Answers :
      (servers : List DnsServer) (c : Checker X) (w : W)
      → IsSound ops laws c
      → Answers (try_servers net u ops domain servers c w)
  unfolding try_servers look_up store failure
  try_servers-Answers [] c w s = (refl, inr refl, s)
  try_servers-Answers (srv ∷ rest) c w s =
      let q = parse_query_type u srv.query_type in
      let key = cache_key c.digest_hash domain srv q in
      let l = look_up_in net ops c.cache key c w in
      let (s1, hit) = look_up_in-IsSound ops laws net c.cache key c w s.entries s in
      elim (Option-cases l.0) [
        | inr (r, e) ↦
            rw (e, try_servers, look_up)
              (let (d, n) = cached_domain srv q r c.digest_hash s.plain (hit r e) in (d, n, s1))
        | inl e ↦
            let p = query_with_retries net u domain srv q l.1 w in
            let s2 =
              IsSound-SameBut ops laws l.1 p.1 (query_with_retries-SameBut net u domain srv q l.1 w)
                s1 in
            elim (Outcome-cases p.0) [
              | inl (r, o) ↦
                  let (n, d, fine) =
                    fresh-IsEntry srv q r c.digest_hash
                      (query_with_retries_result net u domain srv q l.1 w r s1.retries o) s.plain in
                  rw (e, try_servers, look_up)
                    (rw (o, try_servers)
                      (
                        d,
                        fine,
                        store_in-IsSound ops laws net p.1.cache key r p.1 p.2 s2.entries n s2,
                      ))
              | inr (x, o) ↦ elim (Bool-cases (is_definitive x)) [
                | inl f ↦
                    rw (e, try_servers, look_up)
                      (rw (o, try_servers) (rw (f, try_servers) (refl, inl f, s2)))
                | inr f ↦
                    rw (e, try_servers, look_up)
                      (rw (o, try_servers)
                        (rw (f, try_servers) (try_servers-Answers rest p.1 p.2 s2)))
              ]
            ]
      ]

module _ {W X : Type 0} (net : Network W) (u : Unicode) (ops : CacheOps X) (laws : CacheLaws ops)
    (raw : Bytes) (c : Checker X) (w : W) (sound : IsSound ops laws c) where
  abbrev domain_of : Bytes
  domain_of = normalize_domain u raw

  check_valid :
      is_valid_domain domain_of ≡ true
      → let (r, c', w') = check_single net u ops raw c w in
        (r.domain ≡ domain_of) × ServerError r.error × IsSound ops laws c'
  unfolding check_single
  check_valid v =
      rw (v, check_single)
        (try_servers-Answers net u ops laws domain_of
          (name-Lacks_colon domain_of (valid_bytes domain_of v).0) c.servers c w sound)

  check_invalid :
      is_valid_domain domain_of ≡ false
      → check_single net u ops raw c w ≡ (failure domain_of [] (invalid_domain domain_of), c, w)
  unfolding check_single
  check_invalid v = rw (v, check_single)

  -- A check answers for the domain it was asked for, normalised, whatever the network does and
  -- whatever cache is used that meets the interface: also a result that comes from the cache names
  -- this domain. This needs keys that are not digested, no negative number of retries, and a cache
  -- that holds only what checks have stored; the check leaves all three so.
  pub check_single_domain :
      let (r, c', w') = check_single net u ops raw c w in
      (r.domain ≡ domain_of) × IsSound ops laws c'
  unfolding failure
  check_single_domain = elim (Bool-cases (is_valid_domain domain_of)) [
    | inl v ↦ let (d, n, s) = check_valid v in (d, s)
    | inr v ↦ rw (check_invalid v) (refl, sound)
  ]

  -- Where keys are not digested, the number of retries is not negative and the cache holds only what
  -- checks have stored: of an invalid domain a check says that it is invalid, and asks neither the
  -- cache nor the network. Of a valid one it has no error, or the server's own answer (NXDOMAIN, or
  -- the query rejected), or says that no server answered: timeouts, failures of the network and a
  -- cancelled context never come out as such.
  pub check_single_errors :
      let (r, c', w') = check_single net u ops raw c w in
      ((is_valid_domain domain_of ≡ true) × ServerError r.error)
      ⊎ ((is_valid_domain domain_of ≡ false)
          × (r.error ≡ some (invalid_domain domain_of))
          × (c' ≡ c)
          × (w' ≡ w))
  unfolding failure
  check_single_errors = elim (Bool-cases (is_valid_domain domain_of)) [
    | inl v ↦ inl (v, (check_valid v).1)
    | inr v ↦
        inr (v, rw (check_invalid v) refl, rw (check_invalid v) refl, rw (check_invalid v) refl)
  ]
