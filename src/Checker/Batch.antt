-- ===== src/Checker/Batch.antt =====
-- The goroutines of `Check` and `DNSStatus` of src/nawala/checker.go: the loop that starts them, the
-- semaphore, the cancelled context and the recovery from panics. The two functions have one text but
-- for the types and the work of a goroutine, which is `Task` here. A run is a list of events in any
-- order; the work of a goroutine is one event.
pub mod Slots
pub mod Filling
pub mod Tokens
pub mod Bounds
pub mod Answers
pub mod Progress
pub mod Calls
mod Examples
use nawala_checker.Common.{
  ℕ, zero, suc, ◌+◌, ◌-◌, ◌*◌, ◌≡◌, Bool, true, false, ◌&&◌, Option, none, some, List, [], ◌∷◌,
  ◌++◌, if◌then◌else◌, ltb, ◌==◌, Bytes, Outcome, ok, err, length, get_elem?, set, replicate,
  is_empty, codes,
}
use nawala_checker.Common.Int.{pos, pos_part}
use nawala_checker.Strings.{Unicode}
use nawala_checker.Types.{
  CtxError, Error, of_context, no_dns_servers, internal_panic, DnsServer, Result, ServerStatus,
}
use nawala_checker.Network.{Network}
use nawala_checker.Cache.{CacheOps}
use nawala_checker.Dns.{check_dns_health}
use nawala_checker.Checker.{Checker, find_pool, write_pool}
use nawala_checker.Checker.Probe.{no_result}
use nawala_checker.Checker.Single.{check_single, failure}

-- What a goroutine does for its input, in the state `W` that all of them share.
pub record Task (A B W : Type 0) : Type 0 where
  pub blank : B
  pub body : A → W → B × W
  pub panicked : A → B
  pub aborted : CtxError → A → B
  pub ctx_err : W → Option CtxError

-- A goroutine: the arguments `idx` and `d`.
pub record Job (A : Type 0) : Type 0 where
  pub idx : ℕ
  pub input : A

-- Where the function itself stands: before the first `select` of a round, at the second, at
-- `wg.Wait`, or behind it.
pub data Phase : Type 0 where
  looping acquiring waiting returned : Phase

pub record Batch (A B W : Type 0) : Type 0 where
  pub inputs : List A
  pub capacity : ℕ
  -- the loop variable `i`
  pub next : ℕ
  pub phase : Phase
  -- the length of the channel `sem`
  pub held : ℕ
  pub running : List (Job A)
  -- goroutines whose result is written, and whose deferred calls are left
  pub ending : ℕ
  pub results : List B
  pub world : W

pub data Event (W : Type 0) : Type 0 where
  -- anything outside the function: time, the context, other calls
  elsewhere : W → Event W
  -- the first `select` of a round, or the end of the loop
  turn : Event W
  -- the second `select`: a free place in `sem`, or the context
  acquire : Event W
  give_up : Event W
  -- the goroutine at this position
  finish : ℕ → Event W
  panic : ℕ → Event W
  release : Event W
  return : Event W

module _ {A B : Type 0} (aborted : A → B) where
  -- `for j := i; j < len(domains); j++ { results[j] = … }`
  unfoldable pub fill : ℕ → List A → List B → List B
  fill i [] rs = rs
  fill i (a ∷ as_) [] = []
  fill zero (a ∷ as_) (r ∷ rs) = aborted a ∷ fill zero as_ rs
  fill (suc i) (a ∷ as_) (r ∷ rs) = r ∷ fill i as_ rs

unfoldable pub remove_at {ℓ} : {A : Type ℓ} → List A → ℕ → List A
remove_at [] j = []
remove_at (x ∷ xs) zero = xs
remove_at (x ∷ xs) (suc j) = x ∷ remove_at xs j

module _ {A B W : Type 0} (task : Task A B W) where
  unfoldable pub start : List A → ℕ → W → Batch A B W
  start inputs capacity w = record {
    inputs = inputs;
    capacity = capacity;
    next = 0;
    phase = looping;
    held = 0;
    running = [];
    ending = 0;
    results = replicate (length inputs) task.blank;
    world = w;
  }

  abort : CtxError → Batch A B W → Batch A B W
  abort e s = record s {
    results = fill (task.aborted e) s.next s.inputs s.results;
    phase = waiting;
  }

  spawn : A → Batch A B W → Batch A B W
  spawn a s = record s {
    held = s.held + 1;
    running = s.running ++ record { idx = s.next; input = a } ∷ [];
    next = s.next + 1;
    phase = looping;
  }

  place_result : ℕ → Job A → B → W → Batch A B W → Batch A B W
  place_result j job r w s = record s {
    results = set s.results job.idx r;
    running = remove_at s.running j;
    ending = s.ending + 1;
    world = w;
  }

  pub turn_at : Phase → Option A → Option CtxError → Batch A B W → Option (Batch A B W)
  turn_at looping none c s = some (record s { phase = waiting })
  turn_at looping (some a) none s = some (record s { phase = acquiring })
  turn_at looping (some a) (some e) s = some (abort e s)
  turn_at _ _ _ s = none

  pub acquire_at : Phase → Option A → Batch A B W → Option (Batch A B W)
  acquire_at acquiring (some a) s = if ltb s.held s.capacity then some (spawn a s) else none
  acquire_at _ _ s = none

  pub give_up_at : Phase → Option CtxError → Batch A B W → Option (Batch A B W)
  give_up_at acquiring (some e) s = some (abort e s)
  give_up_at _ _ s = none

  pub finish_job : ℕ → Option (Job A) → Batch A B W → Option (Batch A B W)
  finish_job j none s = none
  finish_job j (some job) s =
      let (r, w') = task.body job.input s.world in some (place_result j job r w' s)

  pub panic_job : ℕ → Option (Job A) → Batch A B W → Option (Batch A B W)
  panic_job j none s = none
  panic_job j (some job) s = some (place_result j job (task.panicked job.input) s.world s)

  pub release_one : ℕ → Batch A B W → Option (Batch A B W)
  release_one zero s = none
  release_one (suc n) s = some (record s { ending = n; held = s.held - 1 })

  pub return_at : Phase → Batch A B W → Option (Batch A B W)
  return_at waiting s =
      if is_empty s.running && s.ending == 0 then some (record s { phase = returned }) else none
  return_at _ s = none

  -- One event; `none` where it cannot happen.
  unfoldable pub step : Event W → Batch A B W → Option (Batch A B W)
  unfolding abort spawn place_result turn_at acquire_at give_up_at finish_job panic_job release_one
      return_at remove_at
  step (elsewhere w) s = some (record s { world = w })
  step turn s = turn_at s.phase (get_elem? s.inputs s.next) (task.ctx_err s.world) s
  step acquire s = acquire_at s.phase (get_elem? s.inputs s.next) s
  step give_up s = give_up_at s.phase (task.ctx_err s.world) s
  step (finish j) s = finish_job j (get_elem? s.running j) s
  step (panic j) s = panic_job j (get_elem? s.running j) s
  step release s = release_one s.ending s
  step return s = return_at s.phase s

  unfoldable pub run : List (Event W) → Batch A B W → Option (Batch A B W)
  run [] s = some s
  run (e ∷ es) s = elim (step e s) [ none ↦ none | some s' ↦ run es s' ]

  -- The two results of the function, where it has returned.
  unfoldable pub outcome : Batch A B W → List B × Option CtxError
  outcome s = (s.results, task.ctx_err s.world)

-- The places of `sem`.
abbrev pub places : {X : Type 0} → Checker X → ℕ
places c = pos_part c.concurrency

module _ {W X : Type 0} (net : Network W) (u : Unicode) (ops : CacheOps X) (cause : Bytes) where
  -- The goroutines of `Check`. They share the checker and the network; `cause` is the text of a panic.
  unfoldable pub check_task : Task Bytes Result (Checker X × W)
  check_task = record {
    blank = no_result;
    body = λ d s. let (r, c', w') = check_single net u ops d s.0 s.1 in (r, (c', w'));
    panicked = λ d. failure d [] (internal_panic cause);
    aborted = λ e d. failure d [] (of_context e);
    ctx_err = λ s. net.ctx_err s.1;
  }

  -- `Check`, up to its loop.
  unfoldable pub check :
      List Bytes → Checker X → W → Outcome Error (Batch Bytes Result (Checker X × W))
  check domains c w =
      if is_empty c.servers
      then err no_dns_servers
      else ok (start check_task domains (places c) (c, w))

abbrev pub unreached : Bytes → Option Error → ServerStatus
unreached address e = record { server = address; online = false; latency_ms = pos 0; error = e }

module _ {W X : Type 0} (net : Network W) (cause : Bytes) where
  -- The goroutines of `DNSStatus`.
  unfoldable pub status_task : Task DnsServer ServerStatus (Checker X × W)
  status_task = record {
    blank = unreached [] none;
    body = λ srv s.
        let (st, p, w') =
          check_dns_health net
            (record {
              client = s.0.dns_client;
              pool = find_pool srv.address s.0.conn_pools;
              domain = [];
              server = srv.address;
              qtype = 0;
              edns0_size = s.0.edns0_size;
            })
            s.1 in
        (st, (record s.0 { conn_pools = write_pool srv.address p s.0.conn_pools }, w'));
    panicked = λ srv. unreached srv.address (some (internal_panic cause));
    aborted = λ e srv. unreached srv.address (some (of_context e));
    ctx_err = λ s. net.ctx_err s.1;
  }

  unfoldable pub dns_status :
      Checker X → W → Outcome Error (Batch DnsServer ServerStatus (Checker X × W))
  dns_status c w =
      if is_empty c.servers
      then err no_dns_servers
      else ok (start status_task c.servers (places c) (c, w))
