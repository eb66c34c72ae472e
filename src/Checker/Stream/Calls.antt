-- ===== src/Checker/Stream/Calls.antt =====
-- `CheckStream` of a checker that `New` has made.
use nawala_checker.Common.{
  ◌+◌, ◌*◌, ◌≤◌, ◌≡◌, sym, subst, ◌⊎◌, some, List, Bytes, ok, length, is_empty, Bool-cases, inl,
  inr,
}
use nawala_checker.Strings.{Unicode}
use nawala_checker.Types.{Result}
use nawala_checker.Network.{Network}
use nawala_checker.Cache.{CacheOps}
use nawala_checker.Checker.{Checker}
use nawala_checker.Checker.Settings.{Setting}
use nawala_checker.Checker.Create.{new}
use nawala_checker.Checker.Create.Ready.{new-IsReady}
use nawala_checker.Checker.Batch.{places, check_task}
use nawala_checker.Checker.Batch.Calls.{some_place}
use nawala_checker.Checker.Stream.{Flow, StreamEvent, ended, open_stream, run_stream, check_stream}
use nawala_checker.Checker.Stream.Cases.{own_events}
use nawala_checker.Checker.Stream.Bounds.{active}
use nawala_checker.Checker.Stream.Progress.{CanStep, stream_ends}

module _ {W X : Type 0} (net : Network W) (u : Unicode) (ops : CacheOps X) (cause : Bytes) where
  opened :
      (domains : List Bytes) (c : Checker X) (w : W) (b : Flow Bytes Result (Checker X × W))
      → check_stream net u ops cause domains c w ≡ ok b
      → open_stream (check_task net u ops cause) domains (places c) (c, w) ≡ b
  unfolding check_stream
  opened domains c w b h = elim (Bool-cases (is_empty c.servers)) [ inl e ↦ absurd cc | inr e ↦ cc ]

  -- Where `CheckStream` of a checker that `New` returned, with whatever options, has started, on a
  -- channel that delivers a finite list of domains and is closed: it never has more goroutines than the
  -- checker's limit, those at their send included; it has at most six events for each domain and two
  -- more of its own, however its goroutines are scheduled; and until it has returned one can always
  -- happen, if `In` delivers and `Out` takes.
  pub check_stream_ends :
      (settings : List (Setting X)) (domains : List Bytes) (w : W)
      (b s : Flow Bytes Result (Checker X × W)) (es : List (StreamEvent (Checker X × W)))
      → check_stream net u ops cause domains (new settings) w ≡ ok b
      → run_stream (check_task net u ops cause) es b ≡ some s
      → (active s ≤ places {X = X} (new settings))
        × (own_events es ≤ 6 * length domains + 2)
        × ((s.phase ≡ ended) ⊎ CanStep (check_task net u ops cause) s)
  check_stream_ends settings domains w b s es h q =
      let c : Checker X = new settings in
      let task = check_task net u ops cause in
      let ready = new-IsReady settings in
      let from_start =
        subst (λ x. run_stream task es x ≡ some s) (sym (opened domains c w b h)) q in
      let room = some_place c.concurrency ready.configured.some_concurrency in
      stream_ends task domains (places c) (c, w) es s room from_start
