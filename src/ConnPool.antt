-- ===== src/ConnPool.antt =====
-- src/nawala/connpool.go: the pool of idle connections to one server. The buffered channel is the
-- list of its contents, oldest first, with its capacity.
pub mod Owned
pub mod Ownership
pub mod Retry
mod Examples
use nawala_checker.Common.{
  ℕ, ◌≡◌, Bool, true, false, Option, none, some, List, [], ◌∷◌, ◌++◌, ltb, if◌then◌else◌, Bytes,
  length, Outcome, ok, err,
}
use nawala_checker.Network.{Network, Client, Question, Response}
use nawala_checker.Types.{NetError, is_conn_error}

pub record ConnPool : Type 0 where
  pub client : Option Client
  pub addr : Bytes
  pub idle : List ℕ
  pub capacity : ℕ

unfoldable pub new_conn_pool : Option Client → Bytes → ℕ → ConnPool
new_conn_pool client addr size = record { client = client; addr = addr; idle = []; capacity = size }

abbrev pub Reply : Type 0
Reply = Outcome NetError (Option Response)

module _ {W : Type 0} (net : Network W) where
  -- `get`, by the contents of the channel.
  get_from : ConnPool → List ℕ → W → Outcome NetError ℕ × ConnPool × W
  get_from p [] w = let (r, w') = net.dial p.client p.addr w in (r, p, w')
  get_from p (c ∷ cs) w = (ok c, record p { idle = cs }, w)

  unfoldable pub get : ConnPool → W → Outcome NetError ℕ × ConnPool × W
  unfolding get_from
  get p w = get_from p p.idle w

  unfoldable pub put : Option ℕ → ConnPool → W → ConnPool × W
  put none p w = (p, w)
  put (some c) p w =
      if ltb (length p.idle) p.capacity
      then (record p { idle = p.idle ++ c ∷ [] }, w)
      else (p, net.close_conn c w)

  -- Behind the exchange over the second connection.
  unfoldable pub settle : ℕ → ConnPool → Reply → W → Reply × ConnPool × W
  settle conn p (err e) w = (err e, p, net.close_conn conn w)
  settle conn p (ok r) w = let (p', w') = put (some conn) p w in (ok r, p', w')

  -- Behind the second dial; `e` is the error of the first exchange.
  redialled : NetError → Question → ConnPool → Outcome NetError ℕ → W → Reply × ConnPool × W
  unfolding settle
  redialled e msg p (err d) w = (err e, p, w)
  redialled e msg p (ok conn) w =
      let (reply, w') = net.exchange_conn p.client msg conn w in settle conn p reply w'

  redial : NetError → Question → ConnPool → W → Reply × ConnPool × W
  unfolding redialled
  redial e msg p w = let (d, w') = net.dial p.client p.addr w in redialled e msg p d w'

  -- Behind the first exchange.
  answered : Question → ℕ → ConnPool → Reply → W → Reply × ConnPool × W
  unfolding redial
  answered msg conn p (ok r) w = let (p', w') = put (some conn) p w in (ok r, p', w')
  answered msg conn p (err e) w =
      let w' = net.close_conn conn w in
      if is_conn_error (some e) then redial e msg p w' else (err e, p, w')

  -- Behind `get`.
  exchange_over : Question → ConnPool → Outcome NetError ℕ → W → Reply × ConnPool × W
  unfolding answered
  exchange_over msg p (err e) w = (err e, p, w)
  exchange_over msg p (ok conn) w =
      let (reply, w') = net.exchange_conn p.client msg conn w in answered msg conn p reply w'

  unfoldable pub exchange : Question → ConnPool → W → Reply × ConnPool × W
  unfolding get exchange_over
  exchange msg p w = let (got, p', w') = get p w in exchange_over msg p' got w'

  drain : List ℕ → W → W
  drain [] w = w
  drain (c ∷ cs) w = drain cs (net.close_conn c w)

  unfoldable pub close : ConnPool → W → ConnPool × W
  unfolding drain
  close p w = (record p { idle = [] }, drain p.idle w)
