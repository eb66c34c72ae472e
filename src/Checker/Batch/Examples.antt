-- ===== src/Checker/Batch/Examples.antt =====
-- Batches at work, and the theorems at them.
use nawala_checker.Common.{
  ℕ, ◌+◌, ◌*◌, ◌≤◌, ◌≡◌, refl, ◌⊎◌, none, some, List, [], ◌∷◌, ok, Bytes, codes, length,
  if◌then◌else◌, ltb,
}
use nawala_checker.Strings.{Unicode}
use nawala_checker.Types.{canceled, Result}
use nawala_checker.Network.Samples.{clear}
use nawala_checker.Cache.{MemoryCache, memory_ops}
use nawala_checker.Checker.{Checker}
use nawala_checker.Checker.Settings.{apply_all}
use nawala_checker.Checker.Create.{new, with_default_cache, with_default_client, with_pools}
use nawala_checker.Checker.Batch.{
  Task, Batch, Event, acquiring, returned, elsewhere, turn, acquire, finish, panic, release, return,
  start, run, step, remove_at, fill, check, check_task, places,
}
use nawala_checker.Checker.Batch.Answers.{batch_answers}
use nawala_checker.Checker.Batch.Filling.{Answered}
use nawala_checker.Checker.Batch.Tokens.{active}
use nawala_checker.Checker.Batch.Progress.{CanStep}
use nawala_checker.Checker.Batch.Calls.{check_ends}

-- Doubles its input, counts the calls, and is cancelled when the count is 10 or more.
abbrev doubling : Task ℕ ℕ ℕ
doubling = record {
  blank = 0;
  body = λ a w. (a + a, w + 1);
  panicked = λ a. 500;
  aborted = λ e a. 400 + a;
  ctx_err = λ w. if ltb w 10 then none else some canceled;
}

abbrev inputs : List ℕ
inputs = 3 ∷ 4 ∷ 5 ∷ []

abbrev events : List (Event ℕ)
events =
    turn
    ∷ acquire
    ∷ turn
    ∷ acquire
    ∷ finish 1
    ∷ panic 0
    ∷ elsewhere 10
    ∷ release
    ∷ turn
    ∷ release
    ∷ return
    ∷ []

abbrev ended : Batch ℕ ℕ ℕ
ended = record {
  inputs = inputs;
  capacity = 2;
  next = 2;
  phase = returned;
  held = 0;
  running = [];
  ending = 0;
  results = 500 ∷ 8 ∷ 405 ∷ [];
  world = 10;
}

ending_of_events : run doubling events (start doubling inputs 2 0) ≡ some ended
unfolding run step start remove_at fill
ending_of_events = refl

batch_answers_example : (length ended.results ≡ length inputs) × Answered doubling ended.results 2 5
batch_answers_example =
    batch_answers doubling inputs 2 0 events ended 2 5 ending_of_events refl refl

abbrev identity : Unicode
identity = record { lower = λ s. s; upper = λ s. s; trim = λ s. s }

abbrev fresh : Checker MemoryCache
fresh = new []

abbrev begun : Batch Bytes Result (Checker MemoryCache × ℕ)
begun =
    start (check_task clear identity memory_ops []) (codes "a.com" ∷ []) (places fresh) (fresh, 0)

abbrev waiting_for_place : Batch Bytes Result (Checker MemoryCache × ℕ)
waiting_for_place = record begun { phase = acquiring }

starts : check clear identity memory_ops [] (codes "a.com" ∷ []) fresh 0 ≡ ok begun
unfolding check new with_default_cache with_default_client with_pools apply_all
starts = refl

first_turn :
    run (check_task clear identity memory_ops []) (turn ∷ []) begun ≡ some waiting_for_place
unfolding run step start check_task
first_turn = refl

check_ends_example :
    (active (check_task clear identity memory_ops []) waiting_for_place ≤ places fresh)
    × (1 ≤ 4 * 1 + 2)
    × ((waiting_for_place.phase ≡ returned)
        ⊎ CanStep (check_task clear identity memory_ops []) waiting_for_place)
unfolding start
check_ends_example =
    check_ends clear identity memory_ops [] [] (codes "a.com" ∷ []) 0 begun waiting_for_place
      (turn ∷ []) starts first_turn
