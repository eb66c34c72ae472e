-- ===== src/Checker/Batch/Progress.antt =====
-- The limit on goroutines, and that a batch comes to its end.
use nawala_checker.Common.{
  ℕ, zero, suc, ◌+◌, ◌*◌, ◌≤◌, ◌<◌, ◌≡◌, ◌≢◌, refl, ap, ◌∙◌, sym, subst, ◌⊎◌, inl, inr, Option,
  none, some, List, [], ◌∷◌, length, is_empty, ◌&&◌, ◌==◌, get_elem?, arith, ltb, true, Bool,
  Bool-cases, if◌then◌else◌,
}
use nawala_checker.Types.{CtxError}
use nawala_checker.Checker.Batch.{
  Task, Job, Phase, looping, acquiring, waiting, returned, Batch, Event, turn, acquire, finish,
  release, return, start, turn_at, acquire_at, finish_job, release_one, return_at, step, run,
}
use nawala_checker.Checker.Batch.Slots.{get_elem?-end}
use nawala_checker.Checker.Batch.Tokens.{Sound, active, IsBounded, start-IsBounded}
use nawala_checker.Checker.Batch.Bounds.{own, own_events, run-Advances, run-IsBounded}

module _ {A B W : Type 0} (task : Task A B W) where
  -- Whatever the order of the events, the goroutines that run at one time are never more than the
  -- semaphore has places, and each of them holds one place.
  pub batch_limit :
      (inputs : List A) (n : ℕ) (w : W) (es : List (Event W)) (s : Batch A B W)
      → run task es (start task inputs n w) ≡ some s
      → (active task s ≤ n) × (s.held ≡ active task s)
  batch_limit inputs n w es s q =
      let v = run-IsBounded task (length inputs) n es _ s q (start-IsBounded task inputs n w) in
      (omega (arith, v.tokens, v.within, v.capacity_of), v.tokens)

  -- An event of the function's own that can happen.
  abbrev pub CanStep : Batch A B W → Type 0
  CanStep s = (e : Event W) × (t : Batch A B W) × (own e ≡ 1) × (step task e s ≡ some t)

  some_turn :
      (s : Batch A B W) (o : Option A) (c : Option CtxError)
      → (t : Batch A B W) × (turn_at task looping o c s ≡ some t)
  unfolding turn_at
  some_turn s none c = (_, refl)
  some_turn s (some a) none = (_, refl)
  some_turn s (some a) (some e) = (_, refl)

  -- A goroutine that runs can finish, and one that has written its result can release its place.
  some_goroutine : (s : Batch A B W) → 1 ≤ active task s → CanStep s
  unfolding step finish_job release_one
  some_goroutine s h = by_parts s.running s.ending refl refl
    where
      by_parts : (js : List (Job A)) (k : ℕ) → s.running ≡ js → s.ending ≡ k → CanStep s
      by_parts [] zero p q = absurd (omega (arith, ap length p))
      by_parts [] (suc k) p q = (release, _, refl, ap (λ n. release_one task n s) q)
      by_parts (j ∷ js) k p q =
          (finish 0, _, refl, ap (λ xs. finish_job task 0 (get_elem? xs 0) s) p)

  some_acquire :
      (s : Batch A B W) (a : A)
      → s.phase ≡ acquiring
      → get_elem? s.inputs s.next ≡ some a
      → s.held < s.capacity
      → CanStep s
  unfolding step acquire_at
  some_acquire s a p g lt = (
    acquire,
    _,
    refl,
    ap (λ x. acquire_at task x (get_elem? s.inputs s.next) s) p
        ∙ ap (λ o. acquire_at task acquiring o s) g
        ∙ free (ltb s.held s.capacity) (ground (arith, lt)),
  )
    where
      free : {C : Type 0} {x : C} (b : Bool) → b ≡ true → (if b then some x else none) ≡ some x
      free b h = ground (arith, h)

  some_return : (s : Batch A B W) → s.phase ≡ waiting → active task s ≡ 0 → CanStep s
  unfolding step return_at
  some_return s p h = (return, _, refl, ap (λ x. return_at task x s) p ∙ over s.running s.ending h)
    where
      over :
          {C : Type 0} {x : C} (js : List (Job A)) (k : ℕ)
          → length js + k ≡ 0
          → (if is_empty js && k == 0 then some x else none) ≡ some x
      over [] k h = ground (arith, h)
      over (j ∷ js) k h = absurd (omega (arith, h))

  step_in :
      (n : ℕ) (s : Batch A B W) (p : Phase) (o : Option A)
      → s.phase ≡ p
      → get_elem? s.inputs s.next ≡ o
      → 1 ≤ n
      → p ≢ returned
      → IsBounded task (length s.inputs) n s
      → CanStep s
  unfolding step
  step_in n s looping o p g h r v =
      let (t, e) = some_turn s o (task.ctx_err s.world) in
      (
        turn,
        t,
        refl,
        ap (λ x. turn_at task x (get_elem? s.inputs s.next) (task.ctx_err s.world) s) p
            ∙ ap (λ x. turn_at task looping x (task.ctx_err s.world) s) g
            ∙ e,
      )
  step_in n s acquiring none p g h r v =
      let lt : s.next < length s.inputs =
        subst (λ x. Sound x s.next (length s.inputs) s.held) p v.sound in
      absurd (omega (arith, get_elem?-end s.inputs s.next g, lt))
  step_in n s acquiring (some a) p g h r v = elim (Bool-cases (ltb s.held s.capacity)) [
    | inl free ↦ some_acquire s a p g (ground (arith, free))
    | inr full ↦ some_goroutine s (ground (arith, full, v.tokens, v.capacity_of, h))
  ]
  step_in n s waiting o p g h r v = elim (idle_or_not (active task s)) [
    | inl z ↦ some_return s p z
    | inr m ↦ some_goroutine s m
  ]
    where
      idle_or_not : (k : ℕ) → (k ≡ 0) ⊎ (1 ≤ k)
      idle_or_not k = ground arith
  step_in n s returned o p g h r v = absurd (r refl)

  -- Where the semaphore has a place, a batch that has not returned can always go on: the loop, or a
  -- goroutine, has an event that can happen. And however the goroutines are scheduled, it has at most
  -- four events for each input and two more before it has returned; what goes on elsewhere does not
  -- count. So it neither waits for ever nor runs for ever.
  pub batch_ends :
      (inputs : List A) (n : ℕ) (w : W) (es : List (Event W)) (s : Batch A B W)
      → 1 ≤ n
      → run task es (start task inputs n w) ≡ some s
      → (own_events es ≤ 4 * length inputs + 2) × ((s.phase ≡ returned) ⊎ CanStep s)
  unfolding start
  batch_ends inputs n w es s h q =
      let b = run-Advances task (length inputs) n es _ s q (start-IsBounded task inputs n w) in
      let v = subst (λ m. IsBounded task m n s) (sym b.0.inputs_of) b.0 in
      (
        omega (arith, b.1),
        elim (returned_or_not s.phase) [
          | inl e ↦ inl e
          | inr ne ↦ inr (step_in n s s.phase _ refl refl h ne v)
        ],
      )
    where
      returned_or_not : (p : Phase) → (p ≡ returned) ⊎ (p ≢ returned)
      returned_or_not looping = inr (λ e. cc)
      returned_or_not acquiring = inr (λ e. cc)
      returned_or_not waiting = inr (λ e. cc)
      returned_or_not returned = inl refl
