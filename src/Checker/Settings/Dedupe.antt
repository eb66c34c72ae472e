-- ===== src/Checker/Settings/Dedupe.antt =====
-- `WithServers` keeps the first of equal servers, in the order given.
use nawala_checker.Common.{
  ◌≡◌, inl, inr, refl, ap, sym, ◌↔◌, true, false, not, ◌&&◌, List, [], ◌∷◌, ◌++◌, append_assoc,
  append-nil, text_eq_iff, any, arith, Bool-cases,
}
use nawala_checker.Types.{DnsServer}
use nawala_checker.Checker.Settings.{same_server, dedupe_from, dedupe}

same_server_iff : (s t : DnsServer) → (same_server s t ≡ true) ↔ (s ≡ t)
unfolding same_server
same_server_iff s t = (
  λ h. ground (
    arith,
    text_eq_iff s.address t.address,
    text_eq_iff s.keyword t.keyword,
    text_eq_iff s.query_type t.query_type,
  ),
  λ e. ground (
    arith,
    text_eq_iff s.address t.address,
    text_eq_iff s.keyword t.keyword,
    text_eq_iff s.query_type t.query_type,
  ),
)

-- The servers that are not among those seen, each at its first place.
first_ones : List DnsServer → List DnsServer → List DnsServer
first_ones seen [] = []
first_ones seen (s ∷ ss) = elim (any (same_server s) seen) [
  | true ↦ first_ones seen ss
  | false ↦ s ∷ first_ones (s ∷ seen) ss
]

dedupe_from_lem :
    (seen out ss : List DnsServer) → dedupe_from seen out ss ≡ out ++ first_ones seen ss
unfolding dedupe_from first_ones
dedupe_from_lem seen out [] = sym (append-nil out)
dedupe_from_lem seen out (s ∷ ss) = ground (
  arith,
  dedupe_from_lem seen out ss,
  dedupe_from_lem (s ∷ seen) (out ++ s ∷ []) ss,
  append_assoc out (s ∷ []) (first_ones (s ∷ seen) ss),
)

dedupe_lem : (ss : List DnsServer) → dedupe ss ≡ first_ones [] ss
unfolding dedupe first_ones
dedupe_lem [] = refl
dedupe_lem (s ∷ ss) = dedupe_from_lem [] [] (s ∷ ss)

-- `xs` is `ys` with some entries left out, in the same order.
pub data Picks : List DnsServer → List DnsServer → Type 0 where
  end : Picks [] []
  keep : {s : DnsServer} {xs ys : List DnsServer} → Picks xs ys → Picks (s ∷ xs) (s ∷ ys)
  skip : {s : DnsServer} {xs ys : List DnsServer} → Picks xs ys → Picks xs (s ∷ ys)

-- No server stands twice.
abbrev pub NoRepeat : List DnsServer → Type 0
NoRepeat [] = Unit
NoRepeat (s ∷ ss) = (any (same_server s) ss ≡ false) × NoRepeat ss

first_ones-Picks : (seen ss : List DnsServer) → Picks (first_ones seen ss) ss
unfolding first_ones
first_ones-Picks seen [] = end
first_ones-Picks seen (s ∷ ss) = elim (Bool-cases (any (same_server s) seen)) [
  | inl e ↦ rw (e, first_ones) (skip (first_ones-Picks seen ss))
  | inr e ↦ rw (e, first_ones) (keep (first_ones-Picks (s ∷ seen) ss))
]

-- What is found among the results: what was given and not seen.
first_ones-any :
    (x : DnsServer) (seen ss : List DnsServer)
    → any (same_server x) (first_ones seen ss)
      ≡ (any (same_server x) ss && not (any (same_server x) seen))
unfolding first_ones
first_ones-any x seen [] = refl
first_ones-any x seen (s ∷ ss) = elim (Bool-cases (same_server x s)) [
  | inl e ↦
      let same : any (same_server x) seen ≡ any (same_server s) seen =
        ap (λ y. any (same_server y) seen) ((same_server_iff x s).0 e) in
      ground (arith, e, same, first_ones-any x seen ss, first_ones-any x (s ∷ seen) ss)
  | inr e ↦ ground (arith, e, first_ones-any x seen ss, first_ones-any x (s ∷ seen) ss)
]

first_ones-NoRepeat : (seen ss : List DnsServer) → NoRepeat (first_ones seen ss)
unfolding first_ones
first_ones-NoRepeat seen [] = tt
first_ones-NoRepeat seen (s ∷ ss) = elim (Bool-cases (any (same_server s) seen)) [
  | inl e ↦ rw (e, first_ones) (first_ones-NoRepeat seen ss)
  | inr e ↦
      rw (e, first_ones)
        (
          ground (arith, first_ones-any s (s ∷ seen) ss, same_server_iff s s),
          first_ones-NoRepeat (s ∷ seen) ss,
        )
]

-- `WithServers` leaves out servers only, and keeps the order; no two servers that it keeps agree in
-- address, keyword and query type; and every server given is kept.
pub dedupe_first_ones :
    (ss : List DnsServer)
    → Picks (dedupe ss) ss
      × NoRepeat (dedupe ss)
      × ((x : DnsServer) → any (same_server x) (dedupe ss) ≡ any (same_server x) ss)
dedupe_first_ones ss =
    rw (dedupe_lem ss) (
      first_ones-Picks [] ss,
      first_ones-NoRepeat [] ss,
      λ x. ground (arith, first_ones-any x [] ss),
    )
