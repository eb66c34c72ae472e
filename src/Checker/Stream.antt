-- ===== src/Checker/Stream.antt =====
-- `CheckStream` of src/nawala/checker.go: the loop that receives domains from `In`, the semaphore, the
-- goroutines, and their sends on `Out`. A run is a list of events in any order, as in Checker/Batch;
-- the work of a goroutine is one event, and its send on `Out` another.
pub mod Cases
pub mod LoopSteps
pub mod Analysis
pub mod Bounds
pub mod Progress
pub mod Accounts
pub mod Answers
pub mod Calls
mod Examples
use nawala_checker.Common.{
  ℕ, zero, suc, ◌+◌, ◌-◌, Bool, true, false, ◌&&◌, Option, none, some, List, [], ◌∷◌, ◌++◌, ltb,
  ◌==◌, if◌then◌else◌, Bytes, Outcome, ok, err, get_elem?, is_empty,
}
use nawala_checker.Strings.{Unicode}
use nawala_checker.Types.{CtxError, Error, no_dns_servers, Result}
use nawala_checker.Network.{Network}
use nawala_checker.Cache.{CacheOps}
use nawala_checker.Checker.{Checker}
use nawala_checker.Checker.Batch.{Task, remove_at, places, check_task}

-- Where the function stands: before the outer `select`, with a domain before the look at the context,
-- with a domain before the semaphore, at `wg.Wait`, or behind it.
pub data StreamPhase (A : Type 0) : Type 0 where
  receiving : StreamPhase A
  looking entering : A → StreamPhase A
  joining ended : StreamPhase A

-- A goroutine with its argument `d` and its variable `res`.
pub record Outgoing (A B : Type 0) : Type 0 where
  pub by : A
  pub result : B

pub record Flow (A B W : Type 0) : Type 0 where
  -- what `In` has still to deliver before it is closed
  pub incoming : List A
  pub capacity : ℕ
  pub phase : StreamPhase A
  -- the length of the channel `sem`
  pub held : ℕ
  pub running : List A
  -- goroutines that stand at their send
  pub sending : List (Outgoing A B)
  -- goroutines whose deferred calls are left
  pub ending : ℕ
  -- what `Out` took, in order, each with the goroutine that sent it
  pub out : List (Outgoing A B)
  -- domains that were received, and for which nothing is sent
  pub lost : List A
  pub world : W

pub data StreamEvent (W : Type 0) : Type 0 where
  -- anything outside the function: time, the context, other calls
  elsewhere : W → StreamEvent W
  -- `<-stream.In` and `<-ctx.Done()` of the outer `select`
  receive done : StreamEvent W
  -- the look at the context
  look : StreamEvent W
  -- the `select` at the semaphore
  enter give_up : StreamEvent W
  -- the goroutine at this position of those that run
  finish panic : ℕ → StreamEvent W
  -- the goroutine at this position of those that send
  send drop : ℕ → StreamEvent W
  release : StreamEvent W
  return : StreamEvent W

module _ {A B W : Type 0} (task : Task A B W) where
  unfoldable pub open_stream : List A → ℕ → W → Flow A B W
  open_stream incoming capacity w = record {
    incoming = incoming;
    capacity = capacity;
    phase = receiving;
    held = 0;
    running = [];
    sending = [];
    ending = 0;
    out = [];
    lost = [];
    world = w;
  }

  pub receive_at : StreamPhase A → List A → Flow A B W → Option (Flow A B W)
  receive_at receiving [] s = some (record s { phase = joining })
  receive_at receiving (a ∷ as_) s = some (record s { phase = looking a; incoming = as_ })
  receive_at _ _ s = none

  pub done_at : StreamPhase A → Option CtxError → Flow A B W → Option (Flow A B W)
  done_at receiving (some e) s = some (record s { phase = joining })
  done_at _ _ s = none

  pub break_with : A → Flow A B W → Flow A B W
  break_with a s = record s { phase = joining; lost = s.lost ++ a ∷ [] }

  pub look_at : StreamPhase A → Option CtxError → Flow A B W → Option (Flow A B W)
  look_at (looking a) none s = some (record s { phase = entering a })
  look_at (looking a) (some e) s = some (break_with a s)
  look_at _ _ s = none

  pub enter_at : StreamPhase A → Flow A B W → Option (Flow A B W)
  enter_at (entering a) s =
      if ltb s.held s.capacity
      then some (record s { held = s.held + 1; running = s.running ++ a ∷ []; phase = receiving })
      else none
  enter_at _ s = none

  pub stop_at : StreamPhase A → Option CtxError → Flow A B W → Option (Flow A B W)
  stop_at (entering a) (some e) s = some (break_with a s)
  stop_at _ _ s = none

  -- The goroutine of `a` has its result, and goes to its send.
  pub answer_with : ℕ → A → B → W → Flow A B W → Flow A B W
  answer_with j a r w s = record s {
    running = remove_at s.running j;
    sending = s.sending ++ record { by = a; result = r } ∷ [];
    world = w;
  }

  pub finish_one : ℕ → Option A → Flow A B W → Option (Flow A B W)
  finish_one j none s = none
  finish_one j (some a) s = let (r, w) = task.body a s.world in some (answer_with j a r w s)

  pub panic_one : ℕ → Option A → Flow A B W → Option (Flow A B W)
  panic_one j none s = none
  panic_one j (some a) s = some (answer_with j a (task.panicked a) s.world s)

  pub send_one : ℕ → Option (Outgoing A B) → Flow A B W → Option (Flow A B W)
  send_one j none s = none
  send_one j (some r) s =
      some
        (record s { sending = remove_at s.sending j; ending = s.ending + 1; out = s.out ++ r ∷ [] })

  pub drop_one : ℕ → Option (Outgoing A B) → Option CtxError → Flow A B W → Option (Flow A B W)
  drop_one j (some r) (some e) s = some (record s {
    sending = remove_at s.sending j;
    ending = s.ending + 1;
    lost = s.lost ++ r.by ∷ [];
  })
  drop_one j _ _ s = none

  pub release_place : ℕ → Flow A B W → Option (Flow A B W)
  release_place zero s = none
  release_place (suc n) s = some (record s { ending = n; held = s.held - 1 })

  pub return_from : StreamPhase A → Flow A B W → Option (Flow A B W)
  return_from joining s =
      if is_empty s.running && (is_empty s.sending && s.ending == 0)
      then some (record s { phase = ended })
      else none
  return_from _ s = none

  -- One event; `none` where it cannot happen.
  unfoldable pub stream_step : StreamEvent W → Flow A B W → Option (Flow A B W)
  unfolding receive_at done_at look_at enter_at stop_at finish_one panic_one send_one drop_one
      release_place return_from break_with answer_with remove_at
  stream_step (elsewhere w) s = some (record s { world = w })
  stream_step receive s = receive_at s.phase s.incoming s
  stream_step done s = done_at s.phase (task.ctx_err s.world) s
  stream_step look s = look_at s.phase (task.ctx_err s.world) s
  stream_step enter s = enter_at s.phase s
  stream_step give_up s = stop_at s.phase (task.ctx_err s.world) s
  stream_step (finish j) s = finish_one j (get_elem? s.running j) s
  stream_step (panic j) s = panic_one j (get_elem? s.running j) s
  stream_step (send j) s = send_one j (get_elem? s.sending j) s
  stream_step (drop j) s = drop_one j (get_elem? s.sending j) (task.ctx_err s.world) s
  stream_step release s = release_place s.ending s
  stream_step return s = return_from s.phase s

  unfoldable pub run_stream : List (StreamEvent W) → Flow A B W → Option (Flow A B W)
  run_stream [] s = some s
  run_stream (e ∷ es) s = elim (stream_step e s) [ none ↦ none | some t ↦ run_stream es t ]

  -- What the function returns, where it has: `ctx.Err()`.
  unfoldable pub returned_error : Flow A B W → Option CtxError
  returned_error s = task.ctx_err s.world

module _ {W X : Type 0} (net : Network W) (u : Unicode) (ops : CacheOps X) (cause : Bytes) where
  -- `CheckStream`, up to its loop. Its goroutines do what those of `Check` do.
  unfoldable pub check_stream :
      List Bytes → Checker X → W → Outcome Error (Flow Bytes Result (Checker X × W))
  check_stream domains c w =
      if is_empty c.servers
      then err no_dns_servers
      else ok (open_stream (check_task net u ops cause) domains (places c) (c, w))
