-- ===== src/Checker/Settings/Examples.antt =====
-- Server lists at work, and the theorems at them.
use nawala_checker.Common.{◌≡◌, any, All, refl, List, [], ◌∷◌, Bytes, codes, text_eq, arith}
use nawala_checker.Types.{DnsServer}
use nawala_checker.Checker.{Checker, defaults, has_server}
use nawala_checker.Checker.Settings.{
  dedupe, same_server, upsert, upsert_all, set_servers, delete_servers, without,
}
use nawala_checker.Checker.Settings.Servers.{
  find_server, last_update, addresses, Distinct, set_servers_lem,
}
use nawala_checker.Checker.Settings.Deleted.{IsUnlisted, delete_servers_lem}
use nawala_checker.Checker.Settings.Dedupe.{Picks, NoRepeat, dedupe_first_ones}

abbrev pub server : Bytes → Bytes → DnsServer
server address keyword = record { address = address; keyword = keyword; query_type = codes "A" }

abbrev two_servers : List DnsServer
two_servers = server (codes "1") (codes "a") ∷ server (codes "2") (codes "a") ∷ []

abbrev checker : Checker Bytes
checker = record defaults { servers = two_servers }

program : Unit {0}
unfolding dedupe same_server upsert upsert_all set_servers delete_servers without has_server text_eq
program = tt

drops_repeat :
    dedupe (
      server (codes "1") (codes "a")
      ∷ server (codes "1") (codes "b")
      ∷ server (codes "1") (codes "a")
      ∷ [])
    ≡ server (codes "1") (codes "a") ∷ server (codes "1") (codes "b") ∷ []
unfolding program
drops_repeat = refl

replaces_in_place :
    (set_servers
      (server (codes "1") (codes "z") ∷ server (codes "3") (codes "y") ∷ [])
      checker).servers
    ≡ server (codes "1") (codes "z")
      ∷ server (codes "2") (codes "a")
      ∷ server (codes "3") (codes "y")
      ∷ []
unfolding program
replaces_in_place = refl

set_servers_lem_example :
    (find_server (codes "1") (set_servers (server (codes "1") (codes "z") ∷ []) checker).servers
      ≡ last_update
          (codes "1")
          (server (codes "1") (codes "z") ∷ [])
          (find_server (codes "1") two_servers))
    × Distinct (addresses (set_servers (server (codes "1") (codes "z") ∷ []) checker).servers)
set_servers_lem_example =
    set_servers_lem (server (codes "1") (codes "z") ∷ []) checker (codes "1")
      (((λ e. ground arith), tt), (tt, tt))

delete_servers_lem_example :
    let left = (delete_servers (codes "2" ∷ []) checker).servers in
    Picks left two_servers
    × All (IsUnlisted (codes "2" ∷ [])) left
    × ((ts : List DnsServer)
        → Picks ts two_servers
        → All (IsUnlisted (codes "2" ∷ [])) ts
        → Picks ts left)
    × (delete_servers (codes "2" ∷ []) checker ≡ record checker { servers = left })
delete_servers_lem_example = delete_servers_lem (codes "2" ∷ []) checker

dedupe_first_ones_example :
    Picks (dedupe two_servers) two_servers
    × NoRepeat (dedupe two_servers)
    × ((x : DnsServer) → any (same_server x) (dedupe two_servers) ≡ any (same_server x) two_servers)
dedupe_first_ones_example = dedupe_first_ones two_servers
