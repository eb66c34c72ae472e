-- ===== src/Checker/Batch/Calls.antt =====
-- `Check` of a checker that `New` has made.
use nawala_checker.Common.{
  ◌+◌, ◌*◌, ◌≤◌, ◌≡◌, sym, subst, ◌⊎◌, some, List, Bytes, ok, length, is_empty, arith, Bool-cases,
  inl, inr,
}
use nawala_checker.Common.Int.{ℤ, pos, negsuc, pos_part, ◌≤ℤ◌}
use nawala_checker.Strings.{Unicode}
use nawala_checker.Types.{Result}
use nawala_checker.Network.{Network}
use nawala_checker.Cache.{CacheOps}
use nawala_checker.Checker.{Checker}
use nawala_checker.Checker.Settings.{Setting}
use nawala_checker.Checker.Create.{new}
use nawala_checker.Checker.Create.Ready.{new-IsReady}
use nawala_checker.Checker.Batch.{Batch, Event, returned, start, run, places, check, check_task}
use nawala_checker.Checker.Batch.Tokens.{active}
use nawala_checker.Checker.Batch.Bounds.{own_events}
use nawala_checker.Checker.Batch.Progress.{CanStep, batch_ends, batch_limit}

pub some_place : (n : ℤ) → pos 1 ≤ℤ n → 1 ≤ pos_part n
some_place (pos n) h = ground arith
some_place (negsuc n) h = ground arith

module _ {W X : Type 0} (net : Network W) (u : Unicode) (ops : CacheOps X) (cause : Bytes) where
  begun :
      (domains : List Bytes) (c : Checker X) (w : W) (b : Batch Bytes Result (Checker X × W))
      → check net u ops cause domains c w ≡ ok b
      → start (check_task net u ops cause) domains (places c) (c, w) ≡ b
  unfolding check
  begun domains c w b h = elim (Bool-cases (is_empty c.servers)) [ inl e ↦ absurd cc | inr e ↦ cc ]

  -- Where `Check` of a checker that `New` returned, with whatever options, has started: it never has
  -- more goroutines than the checker's limit; it has at most four events for each domain and two more
  -- of its own, however its goroutines are scheduled; and until it has returned one can always happen.
  pub check_ends :
      (settings : List (Setting X)) (domains : List Bytes) (w : W)
      (b s : Batch Bytes Result (Checker X × W)) (es : List (Event (Checker X × W)))
      → check net u ops cause domains (new settings) w ≡ ok b
      → run (check_task net u ops cause) es b ≡ some s
      → (active (check_task net u ops cause) s ≤ places {X = X} (new settings))
        × (own_events es ≤ 4 * length domains + 2)
        × ((s.phase ≡ returned) ⊎ CanStep (check_task net u ops cause) s)
  check_ends settings domains w b s es h q =
      let c : Checker X = new settings in
      let task = check_task net u ops cause in
      let ready = new-IsReady settings in
      let from_start = subst (λ x. run task es x ≡ some s) (sym (begun domains c w b h)) q in
      let room = some_place c.concurrency ready.configured.some_concurrency in
      let (few, goes_on) = batch_ends task domains (places c) (c, w) es s room from_start in
      ((batch_limit task domains (places c) (c, w) es s from_start).0, few, goes_on)
