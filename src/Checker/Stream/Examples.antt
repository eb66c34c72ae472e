-- ===== src/Checker/Stream/Examples.antt =====
-- Streams at work, and the theorems at them.
use nawala_checker.Common.{
  ℕ, ◌+◌, ◌*◌, ◌≤◌, ◌≡◌, refl, ◌⊎◌, none, some, List, [], ◌∷◌, ok, Bytes, codes, All, if◌then◌else◌,
  ltb,
}
use nawala_checker.Strings.{Unicode}
use nawala_checker.Types.{canceled, Result}
use nawala_checker.Network.Samples.{clear}
use nawala_checker.Cache.{MemoryCache, memory_ops}
use nawala_checker.Checker.{Checker}
use nawala_checker.Checker.Settings.{apply_all}
use nawala_checker.Checker.Create.{new, with_default_cache, with_default_client, with_pools}
use nawala_checker.Checker.Batch.{Task, remove_at, places, check_task}
use nawala_checker.Checker.Stream.{
  Flow, StreamEvent, looking, ended, elsewhere, receive, done, look, enter, finish, panic, send,
  drop, release, return, open_stream, stream_step, run_stream, returned_error, check_stream,
}
use nawala_checker.Checker.Stream.Cases.{IsReply}
use nawala_checker.Checker.Stream.Bounds.{active}
use nawala_checker.Checker.Stream.Progress.{CanStep}
use nawala_checker.Checker.Stream.Answers.{MeetsDone, stream_answers}
use nawala_checker.Checker.Stream.Calls.{check_stream_ends}

-- Doubles its input, counts the calls, and is cancelled when the count is 10 or more.
abbrev doubling : Task ℕ ℕ ℕ
doubling = record {
  blank = 0;
  body = λ a w. (a + a, w + 1);
  panicked = λ a. 500;
  aborted = λ e a. 400 + a;
  ctx_err = λ w. if ltb w 10 then none else some canceled;
}

abbrev inputs : List ℕ
inputs = 3 ∷ 4 ∷ 5 ∷ 6 ∷ []

-- The domains 3 and 4 get a goroutine each, and 4 is the first to send; the goroutine of 3 panics,
-- and then the context ends: 3 is dropped, and 5 and 6 are never received.
abbrev events : List (StreamEvent ℕ)
events =
    receive
    ∷ look
    ∷ enter
    ∷ receive
    ∷ look
    ∷ enter
    ∷ finish 1
    ∷ panic 0
    ∷ send 0
    ∷ elsewhere 10
    ∷ done
    ∷ drop 0
    ∷ release
    ∷ release
    ∷ return
    ∷ []

abbrev last : Flow ℕ ℕ ℕ
last = record {
  incoming = 5 ∷ 6 ∷ [];
  capacity = 2;
  phase = ended;
  held = 0;
  running = [];
  sending = [];
  ending = 0;
  out = record { by = 4; result = 8 } ∷ [];
  lost = 3 ∷ [];
  world = 10;
}

ending_of_events : run_stream doubling events (open_stream doubling inputs 2 0) ≡ some last
unfolding run_stream stream_step open_stream remove_at
ending_of_events = refl

stream_answers_example :
    (18 ≡ 4 + 3 + 11)
    × All (IsReply doubling) last.out
    × (((last.incoming ≡ []) × (last.lost ≡ []) × (returned_error doubling last ≡ none))
        ⊎ MeetsDone doubling events (open_stream doubling inputs 2 0))
stream_answers_example =
    stream_answers doubling inputs 2 0 events last (λ a. a) ending_of_events refl

abbrev identity : Unicode
identity = record { lower = λ s. s; upper = λ s. s; trim = λ s. s }

abbrev fresh : Checker MemoryCache
fresh = new []

abbrev begun : Flow Bytes Result (Checker MemoryCache × ℕ)
begun =
    open_stream (check_task clear identity memory_ops []) (codes "a.com" ∷ []) (places fresh)
      (fresh, 0)

abbrev with_domain : Flow Bytes Result (Checker MemoryCache × ℕ)
with_domain = record begun { phase = looking (codes "a.com"); incoming = [] }

starts : check_stream clear identity memory_ops [] (codes "a.com" ∷ []) fresh 0 ≡ ok begun
unfolding check_stream new with_default_cache with_default_client with_pools apply_all
starts = refl

first_domain :
    run_stream (check_task clear identity memory_ops []) (receive ∷ []) begun ≡ some with_domain
unfolding run_stream stream_step open_stream check_task
first_domain = refl

check_stream_ends_example :
    (active with_domain ≤ places fresh)
    × (1 ≤ 6 * 1 + 2)
    × ((with_domain.phase ≡ ended) ⊎ CanStep (check_task clear identity memory_ops []) with_domain)
unfolding open_stream
check_stream_ends_example =
    check_stream_ends clear identity memory_ops [] [] (codes "a.com" ∷ []) 0 begun with_domain
      (receive ∷ []) starts first_domain
