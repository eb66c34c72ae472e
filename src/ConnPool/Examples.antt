-- ===== src/ConnPool/Examples.antt =====
-- The pool at work: a stale connection, and the theorems at it.
use nawala_checker.Common.{
  ℕ, ◌≡◌, ◌≤◌, ◌&&◌, not, ltb, refl, [], ◌∷◌, none, some, codes, length, true, ok, arith,
}
use nawala_checker.Network.{Question}
use nawala_checker.Network.Samples.{blocking, response, Sockets, is_open, sockets, sockets-Tracks}
use nawala_checker.ConnPool.Owned.{has, AllOpen}
use nawala_checker.Strings.HostPort.{split_host_port}
use nawala_checker.Types.{is_conn_error}
use nawala_checker.ConnPool.{ConnPool, exchange, get, put, settle, close}
use nawala_checker.ConnPool.Ownership.{exchange_keeps_connections, close_lem}
use nawala_checker.ConnPool.Retry.{Source, exchange-Source}

abbrev pub stale_pool : ConnPool
stale_pool = record { client = none; addr = codes "192.0.2.1:53"; idle = 1 ∷ 4 ∷ []; capacity = 3 }

abbrev any_question : Question
any_question = record {
  name = codes "a.com";
  qtype = 1;
  recursion_desired = true;
  edns0_size = 1232;
}

program : Unit {0}
unfolding exchange get put close is_conn_error split_host_port settle
program = tt

-- Connection 1 is closed, the query succeeds over a new one, and the pool keeps that.
stale_recovers : exchange blocking any_question stale_pool 2 ≡ (
  ok (some (response 0 (codes "x. 60 IN CNAME InternetPositif.id." ∷ []))),
  record stale_pool { idle = 4 ∷ 3 ∷ [] },
  2,
)
unfolding program
stale_recovers = refl

-- Connections 0 to 4 are open, and the next one is 5.
abbrev five_open : Sockets
five_open = record { open_ones = λ n. ltb n 5; next = 5 }

exchange_keeps_connections_example :
    let (r', p', w') = exchange sockets any_question stale_pool five_open in
    ((n : ℕ)
      → (is_open w' n && not (has n p'.idle)) ≡ (is_open five_open n && not (has n (1 ∷ 4 ∷ []))))
    × AllOpen is_open w' p'.idle
    × (length p'.idle ≤ p'.capacity)
    × (p'.capacity ≡ 3)
    × (p'.addr ≡ codes "192.0.2.1:53")
    × (p'.client ≡ none)
exchange_keeps_connections_example =
    exchange_keeps_connections sockets is_open sockets-Tracks any_question stale_pool five_open
      (refl, refl, (refl, refl, tt)) (omega arith)

close_lem_example :
    let (p', w') = close sockets stale_pool five_open in
    (p'.idle ≡ [])
    × ((n : ℕ) → is_open w' n ≡ (is_open five_open n && not (has n (1 ∷ 4 ∷ []))))
    × (close sockets p' w' ≡ (p', w'))
close_lem_example = close_lem sockets is_open sockets-Tracks stale_pool five_open

exchange-Source_example :
    let (r, p', w') = exchange blocking any_question stale_pool 2 in
    Source blocking any_question stale_pool 2 r p'
exchange-Source_example = exchange-Source blocking any_question stale_pool 2
