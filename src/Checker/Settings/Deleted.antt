-- ===== src/Checker/Settings/Deleted.antt =====
-- What `DeleteServers` leaves.
use nawala_checker.Common.{
  ◌≡◌, inl, inr, refl, false, List, [], ◌∷◌, Bytes, text_eq, any, All, Bool-cases,
}
use nawala_checker.Types.{DnsServer}
use nawala_checker.Checker.{Checker}
use nawala_checker.Checker.Settings.{without, delete_servers}
use nawala_checker.Checker.Settings.Dedupe.{Picks, end, keep, skip}

-- The server's address is not listed.
abbrev pub IsUnlisted : List Bytes → DnsServer → Type 0
IsUnlisted gone s = any (text_eq s.address) gone ≡ false

without-Picks : (gone : List Bytes) (ss : List DnsServer) → Picks (without gone ss) ss
unfolding without
without-Picks gone [] = end
without-Picks gone (s ∷ ss) = elim (Bool-cases (any (text_eq s.address) gone)) [
  | inl e ↦ rw (e, without) (skip (without-Picks gone ss))
  | inr e ↦ rw (e, without) (keep (without-Picks gone ss))
]

IsUnlisted-without :
    (gone : List Bytes) (ss : List DnsServer) → All (IsUnlisted gone) (without gone ss)
unfolding without
IsUnlisted-without gone [] = tt
IsUnlisted-without gone (s ∷ ss) = elim (Bool-cases (any (text_eq s.address) gone)) [
  | inl e ↦ rw (e, without) (IsUnlisted-without gone ss)
  | inr e ↦ rw (e, without) (e, IsUnlisted-without gone ss)
]

-- Any unlisted servers of the list, in its order, are among those that are left, in theirs.
without_most :
    (gone : List Bytes) {ts ss : List DnsServer}
    → Picks ts ss
    → All (IsUnlisted gone) ts
    → Picks ts (without gone ss)
unfolding without
without_most gone end h = end
without_most gone (keep {s} {xs} {ys} p) (u, h) = rw (u, without) (keep (without_most gone p h))
without_most gone (skip {s} {xs} {ys} p) h = elim (Bool-cases (any (text_eq s.address) gone)) [
  | inl e ↦ rw (e, without) (without_most gone p h)
  | inr e ↦ rw (e, without) (skip (without_most gone p h))
]

-- Nothing is listed.
All-IsUnlisted : (ss : List DnsServer) → All (IsUnlisted []) ss
All-IsUnlisted [] = tt
All-IsUnlisted (s ∷ ss) = (refl, All-IsUnlisted ss)

Picks-refl : (ss : List DnsServer) → Picks ss ss
Picks-refl [] = end
Picks-refl (s ∷ ss) = keep (Picks-refl ss)

module _ {X : Type 0} where
  -- After `DeleteServers` the checker has exactly the servers that it had, less those with a listed
  -- address: its servers are some of those from before, each as it was and in the same order; none has
  -- a listed address; and there are no more such servers, since any that were there, in order, are
  -- among those that are left. Nothing else of the checker changes.
  pub delete_servers_lem :
      (gone : List Bytes) (c : Checker X)
      → let left = (delete_servers gone c).servers in
        Picks left c.servers
        × All (IsUnlisted gone) left
        × ((ts : List DnsServer) → Picks ts c.servers → All (IsUnlisted gone) ts → Picks ts left)
        × (delete_servers gone c ≡ record c { servers = left })
  unfolding delete_servers
  delete_servers_lem [] c = (Picks-refl c.servers, All-IsUnlisted c.servers, λ ts p h. p, refl)
  delete_servers_lem (b ∷ gone) c = (
    without-Picks (b ∷ gone) c.servers,
    IsUnlisted-without (b ∷ gone) c.servers,
    λ ts p h. without_most (b ∷ gone) p h,
    refl,
  )
