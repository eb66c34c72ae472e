-- ===== src/Checker/Settings/Servers.antt =====
-- The server list as a map from addresses, and the order of its entries.
use nawala_checker.Common.{
  ◌≡◌, ◌≢◌, inl, inr, refl, ap, ◌∙◌, subst, Option, none, some, List, [], ◌∷◌, if◌then◌else◌, Bytes,
  text_eq, text_eq_iff, map, All, arith, Bool-cases,
}
use nawala_checker.Types.{DnsServer}
use nawala_checker.Checker.{Checker}
use nawala_checker.Checker.Settings.{upsert, upsert_all, set_servers}

-- The first server at an address: the one that an update replaces.
pub find_server : Bytes → List DnsServer → Option DnsServer
find_server a [] = none
find_server a (s ∷ ss) = if text_eq s.address a then some s else find_server a ss

-- The last of the updates that is for the address.
pub last_update : Bytes → List DnsServer → Option DnsServer → Option DnsServer
last_update a [] old = old
last_update a (n ∷ ns) old = last_update a ns (if text_eq n.address a then some n else old)

find_server-upsert :
    (a : Bytes) (n : DnsServer) (ss : List DnsServer)
    → find_server a (upsert n ss) ≡ (if text_eq n.address a then some n else find_server a ss)
unfolding find_server upsert
find_server-upsert a n [] = refl
find_server-upsert a n (s ∷ ss) = ground (
  arith,
  text_eq_iff n.address a,
  text_eq_iff s.address n.address,
  text_eq_iff s.address a,
  find_server-upsert a n ss,
)

find_server-upsert_all :
    (a : Bytes) (ns ss : List DnsServer)
    → find_server a (upsert_all ns ss) ≡ last_update a ns (find_server a ss)
unfolding upsert_all last_update
find_server-upsert_all a [] ss = refl
find_server-upsert_all a (n ∷ ns) ss =
    find_server-upsert_all a ns (upsert n ss) ∙ ap (last_update a ns) (find_server-upsert a n ss)

abbrev pub addresses : List DnsServer → List Bytes
addresses = map (λ s. s.address)

-- No address stands twice.
abbrev pub Distinct : List Bytes → Type 0
Distinct [] = Unit
Distinct (a ∷ rest) = All (λ b. a ≢ b) rest × Distinct rest

upsert-avoids :
    (a : Bytes) (n : DnsServer) (ss : List DnsServer)
    → a ≢ n.address
    → All (λ b. a ≢ b) (addresses ss)
    → All (λ b. a ≢ b) (addresses (upsert n ss))
unfolding upsert
upsert-avoids a n [] h v = (h, tt)
upsert-avoids a n (s ∷ ss) h v = ground (arith, upsert-avoids a n ss h v.1, h, v)

upsert-Distinct :
    (n : DnsServer) (ss : List DnsServer)
    → Distinct (addresses ss)
    → Distinct (addresses (upsert n ss))
unfolding upsert
upsert-Distinct n [] v = (tt, tt)
upsert-Distinct n (s ∷ ss) v = elim (Bool-cases (text_eq s.address n.address)) [
  | inl e ↦
      let same = (text_eq_iff s.address n.address).0 e in
      rw (e, upsert) (subst (λ a. Distinct (a ∷ addresses ss)) same v)
  | inr e ↦
      rw (e, upsert)
        (
          upsert-avoids s.address n ss (λ q. ground (arith, text_eq_iff s.address n.address)) v.0,
          upsert-Distinct n ss v.1,
        )
]

upsert_all-Distinct :
    (ns ss : List DnsServer) → Distinct (addresses ss) → Distinct (addresses (upsert_all ns ss))
unfolding upsert_all
upsert_all-Distinct [] ss v = v
upsert_all-Distinct (n ∷ ns) ss v = upsert_all-Distinct ns (upsert n ss) (upsert-Distinct n ss v)

module _ {X : Type 0} where
  -- Of a checker whose addresses are distinct `SetServers` is a map update: under each address stands
  -- the last server of the call for it, or the one from before if there is none; and the addresses
  -- stay distinct.
  pub set_servers_lem :
      (new : List DnsServer) (c : Checker X) (a : Bytes)
      → Distinct (addresses c.servers)
      → (find_server a (set_servers new c).servers ≡ last_update a new (find_server a c.servers))
        × Distinct (addresses (set_servers new c).servers)
  unfolding set_servers last_update
  set_servers_lem [] c a v = (refl, v)
  set_servers_lem (n ∷ ns) c a v =
      (find_server-upsert_all a (n ∷ ns) c.servers, upsert_all-Distinct (n ∷ ns) c.servers v)
