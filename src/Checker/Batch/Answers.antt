-- ===== src/Checker/Batch/Answers.antt =====
-- What the results of a batch are, whatever the order of the events.
use nawala_checker.Common.{
  ℕ, zero, suc, ◌-◌, ◌≡◌, refl, ap, ◌∙◌, subst, ◌⊎◌, inl, inr, Option, none, some, List, [], ◌∷◌,
  length, is_empty, ◌&&◌, ◌==◌, get_elem?, arith, ltb, true, false, Bool, Option-cases,
}
use nawala_checker.Types.{CtxError}
use nawala_checker.Checker.Batch.{
  Task, Job, Phase, looping, acquiring, waiting, returned, Batch, Event, elsewhere, turn, acquire,
  give_up, finish, panic, release, return, start, abort, spawn, place_result, turn_at, acquire_at,
  give_up_at, finish_job, panic_job, release_one, return_at, step, run,
}
use nawala_checker.Checker.Batch.Filling.{
  IsOpen, computed, recovered, Answered, IsFilling, Runs, Filling, start-Filling, leave-IsFilling,
  abort-IsFilling, spawn-IsFilling, write-IsFilling,
}
use nawala_checker.Checker.Batch.Bounds.{run-IsBounded, returned_idle}
use nawala_checker.Checker.Batch.Tokens.{start-IsBounded}

module _ {A B W : Type 0} (task : Task A B W) where
  module _ (inputs : List A) where
    turn-Filling :
        (p : Phase) (o : Option A) (c : Option CtxError) (s s' : Batch A B W)
        → s.phase ≡ p
        → get_elem? s.inputs s.next ≡ o
        → turn_at task p o c s ≡ some s'
        → Filling task inputs s
        → Filling task inputs s'
    unfolding turn_at abort
    turn-Filling looping none c s s' h g q (i, v) =
        let e : record s { phase = waiting } ≡ s' = cc in
        subst (Filling task inputs) e (
          i,
          leave-IsFilling task _ _ _ _ g
              (subst (λ p. IsFilling task s.inputs s.next p s.running s.results) h v),
        )
    turn-Filling looping (some a) none s s' h g q (i, v) =
        let e : record s { phase = acquiring } ≡ s' = cc in
        subst (Filling task inputs) e (
          i,
          record {
            sized = v.sized;
            placed = v.placed;
            slots = λ k b r. elim (v.slots k b r) [ inl (le, o) ↦ inl (le, tt) | inr x ↦ inr x ];
          },
        )
    turn-Filling looping (some a) (some x) s s' h g q (i, v) =
        let e : abort task x s ≡ s' = cc in
        subst (Filling task inputs) e (i, abort-IsFilling task x _ _ _ _ _ v)
    turn-Filling acquiring o c s s' h g q v = absurd cc
    turn-Filling waiting o c s s' h g q v = absurd cc
    turn-Filling returned o c s s' h g q v = absurd cc

    acquire-Filling :
        (p : Phase) (o : Option A) (s s' : Batch A B W)
        → s.phase ≡ p
        → get_elem? s.inputs s.next ≡ o
        → acquire_at task p o s ≡ some s'
        → Filling task inputs s
        → Filling task inputs s'
    unfolding acquire_at spawn
    acquire-Filling acquiring (some a) s s' h g q (i, v) =
        elim (free_or_not (ltb s.held s.capacity)) [
          | inl b ↦
              let e : spawn task a s ≡ s' = cc in
              subst (Filling task inputs) e (
                i,
                spawn-IsFilling task a _ _ _ _ g
                    (subst (λ p. IsFilling task s.inputs s.next p s.running s.results) h v),
              )
          | inr b ↦ absurd cc
        ]
      where
        free_or_not : (b : Bool) → (b ≡ true) ⊎ (b ≡ false)
        free_or_not b = ground arith
    acquire-Filling acquiring none s s' h g q v = absurd cc
    acquire-Filling looping o s s' h g q v = absurd cc
    acquire-Filling waiting o s s' h g q v = absurd cc
    acquire-Filling returned o s s' h g q v = absurd cc

    give_up-Filling :
        (p : Phase) (c : Option CtxError) (s s' : Batch A B W)
        → give_up_at task p c s ≡ some s'
        → Filling task inputs s
        → Filling task inputs s'
    unfolding give_up_at abort
    give_up-Filling acquiring (some x) s s' q (i, v) =
        let e : abort task x s ≡ s' = cc in
        subst (Filling task inputs) e (i, abort-IsFilling task x _ _ _ _ _ v)
    give_up-Filling acquiring none s s' q v = absurd cc
    give_up-Filling looping c s s' q v = absurd cc
    give_up-Filling waiting c s s' q v = absurd cc
    give_up-Filling returned c s s' q v = absurd cc

    finish-Filling :
        (j : ℕ) (o : Option (Job A)) (s s' : Batch A B W)
        → get_elem? s.running j ≡ o
        → finish_job task j o s ≡ some s'
        → Filling task inputs s
        → Filling task inputs s'
    unfolding finish_job place_result
    finish-Filling j none s s' h q v = absurd cc
    finish-Filling j (some job) s s' h q (i, v) =
        let r = task.body job.input s.world in
        let e : place_result task j job r.0 r.1 s ≡ s' = cc in
        subst (Filling task inputs) e
          (i, write-IsFilling task j job r.0 _ _ _ _ _ h (computed s.world) v)

    panic-Filling :
        (j : ℕ) (o : Option (Job A)) (s s' : Batch A B W)
        → get_elem? s.running j ≡ o
        → panic_job task j o s ≡ some s'
        → Filling task inputs s
        → Filling task inputs s'
    unfolding panic_job place_result
    panic-Filling j none s s' h q v = absurd cc
    panic-Filling j (some job) s s' h q (i, v) =
        let e : place_result task j job (task.panicked job.input) s.world s ≡ s' = cc in
        subst (Filling task inputs) e (i, write-IsFilling task j job _ _ _ _ _ _ h recovered v)

    release-Filling :
        (n : ℕ) (s s' : Batch A B W)
        → release_one task n s ≡ some s'
        → Filling task inputs s
        → Filling task inputs s'
    unfolding release_one
    release-Filling zero s s' q v = absurd cc
    release-Filling (suc n) s s' q v =
        let e : record s { ending = n; held = s.held - 1 } ≡ s' = cc in
        subst (Filling task inputs) e v

    return-Filling :
        (p : Phase) (s s' : Batch A B W)
        → s.phase ≡ p
        → return_at task p s ≡ some s'
        → Filling task inputs s
        → Filling task inputs s'
    unfolding return_at
    return-Filling waiting s s' h q (i, v) =
        elim (over_or_not (is_empty s.running && s.ending == 0)) [
          | inl b ↦
              let e : record s { phase = returned } ≡ s' = cc in
              subst (Filling task inputs) e (
                i,
                record {
                  sized = v.sized;
                  placed = v.placed;
                  slots = λ k a r. elim (v.slots k a r) [
                    | inl (le, o) ↦ absurd (subst IsOpen h o)
                    | inr x ↦ inr x
                  ];
                },
              )
          | inr b ↦ absurd cc
        ]
      where
        over_or_not : (b : Bool) → (b ≡ true) ⊎ (b ≡ false)
        over_or_not b = ground arith
    return-Filling looping s s' h q v = absurd cc
    return-Filling acquiring s s' h q v = absurd cc
    return-Filling returned s s' h q v = absurd cc

    step-Filling :
        (e : Event W) (s s' : Batch A B W)
        → step task e s ≡ some s'
        → Filling task inputs s
        → Filling task inputs s'
    unfolding step
    step-Filling (elsewhere w) s s' q v =
        let e : record s { world = w } ≡ s' = cc in subst (Filling task inputs) e v
    step-Filling turn s s' q v = turn-Filling s.phase _ _ s s' refl refl q v
    step-Filling acquire s s' q v = acquire-Filling s.phase _ s s' refl refl q v
    step-Filling give_up s s' q v = give_up-Filling s.phase _ s s' q v
    step-Filling (finish j) s s' q v = finish-Filling j _ s s' refl q v
    step-Filling (panic j) s s' q v = panic-Filling j _ s s' refl q v
    step-Filling release s s' q v = release-Filling s.ending s s' q v
    step-Filling return s s' q v = return-Filling s.phase s s' refl q v

    run-Filling :
        (es : List (Event W)) (s s' : Batch A B W)
        → run task es s ≡ some s'
        → Filling task inputs s
        → Filling task inputs s'
    unfolding run
    run-Filling [] s s' q v = let e : s ≡ s' = cc in subst (Filling task inputs) e v
    run-Filling (e ∷ es) s s' q v = elim (Option-cases (step task e s)) [
      | inl n ↦ absurd cc
      | inr (t, n) ↦
          run-Filling es t s'
            (subst (λ o. elim o [ none ↦ none | some x ↦ run task es x ] ≡ some s') n q)
            (step-Filling e s t n v)
    ]

  nobody : (running : List (Job A)) (k : ℕ) → length running ≡ 0 → ¬ Runs task running k
  nobody [] k h r = r
  nobody (job ∷ jobs) k h r = absurd (omega arith)

  -- A batch that has returned, whatever the order of the events, the schedule of the goroutines and
  -- the panics in between: there is one slot for each input, and the slot of the input `a` at
  -- position `k` is position `k`; it holds what the goroutine for this input computed, or the report
  -- of its panic, or the error of the context for this input.
  pub batch_answers :
      (inputs : List A) (n : ℕ) (w : W) (es : List (Event W)) (s : Batch A B W) (k : ℕ) (a : A)
      → run task es (start task inputs n w) ≡ some s
      → s.phase ≡ returned
      → get_elem? inputs k ≡ some a
      → (length s.results ≡ length inputs) × Answered task s.results k a
  batch_answers inputs n w es s k a q h g =
      let (i, v) = run-Filling inputs es _ s q (start-Filling task inputs n w) in
      let b = run-IsBounded task (length inputs) n es _ s q (start-IsBounded task inputs n w) in
      let idle : length s.running ≡ 0 =
        omega (arith, b.tokens, returned_idle s.phase _ _ _ h b.sound) in
      (
        v.sized ∙ ap length i,
        elim (v.slots k a (ap (λ xs. get_elem? xs k) i ∙ g)) [
          | inl (le, o) ↦ absurd (subst IsOpen h o)
          | inr (inl r) ↦ absurd (nobody s.running k idle r)
          | inr (inr x) ↦ x
        ],
      )
