-- ===== src/Checker/Batch/Tokens.antt =====
-- The tokens of the semaphore, the places that are free, and what each event leaves to do.
use nawala_checker.Common.{
  ℕ, zero, suc, ◌+◌, ◌-◌, ◌*◌, ◌≤◌, ◌<◌, ◌≡◌, refl, ◌∙◌, subst, ◌⊎◌, inl, inr, Option, none, some,
  List, [], ◌∷◌, length, length-append, is_empty, ◌&&◌, ◌==◌, get_elem?, arith, ltb, true, false,
  Bool,
}
use nawala_checker.Types.{CtxError}
use nawala_checker.Checker.Batch.{
  Task, Job, Phase, looping, acquiring, waiting, returned, Batch, start, abort, spawn, place_result,
  turn_at, acquire_at, give_up_at, finish_job, panic_job, release_one, return_at,
}
use nawala_checker.Checker.Batch.Slots.{length-remove_at, get_elem?-bound}

-- What is left to do of the loop over `n` inputs.
abbrev pub left : Phase → ℕ → ℕ → ℕ
left looping next n = 4 * (n - next) + 2
left acquiring next n = 4 * (n - next) + 1
left waiting next n = 1
left returned next n = 0

abbrev pub Sound : Phase → ℕ → ℕ → ℕ → Type 0
Sound looping next n held = Unit
Sound acquiring next n held = next < n
Sound waiting next n held = Unit
Sound returned next n held = held ≡ 0

module _ {A B W : Type 0} (task : Task A B W) where
  abbrev pub active : Batch A B W → ℕ
  active s = length s.running + s.ending

  abbrev pub measure : Batch A B W → ℕ
  measure s = left s.phase s.next (length s.inputs) + 2 * length s.running + s.ending

  pub record IsBounded (n cap : ℕ) (s : Batch A B W) : Type 0 where
    pub inputs_of : length s.inputs ≡ n
    pub capacity_of : s.capacity ≡ cap
    pub tokens : s.held ≡ active s
    pub within : s.held ≤ s.capacity
    pub sound : Sound s.phase s.next (length s.inputs) s.held

  pub start-IsBounded :
      (inputs : List A) (cap : ℕ) (w : W) → IsBounded (length inputs) cap (start task inputs cap w)
  unfolding start
  start-IsBounded inputs cap w = record {
    inputs_of = refl;
    capacity_of = refl;
    tokens = refl;
    within = omega arith;
    sound = tt;
  }

  -- An event of the function's own, from `s` to `t`.
  abbrev pub Advances : ℕ → ℕ → Batch A B W → Batch A B W → Type 0
  Advances n cap s t = IsBounded n cap t × (1 + measure t ≤ measure s)

  module _ (n cap : ℕ) where
    pub turn-Advances :
        (p : Phase) (o : Option A) (c : Option CtxError) (s s' : Batch A B W)
        → s.phase ≡ p
        → get_elem? s.inputs s.next ≡ o
        → turn_at task p o c s ≡ some s'
        → IsBounded n cap s
        → Advances n cap s s'
    unfolding turn_at abort
    turn-Advances looping none c s s' h g q v =
        let e : record s { phase = waiting } ≡ s' = cc in
        subst (Advances n cap s) e (
          record {
            inputs_of = v.inputs_of;
            capacity_of = v.capacity_of;
            tokens = v.tokens;
            within = v.within;
            sound = tt;
          },
          rw h (omega arith),
        )
    turn-Advances looping (some a) none s s' h g q v =
        let e : record s { phase = acquiring } ≡ s' = cc in
        let lt = get_elem?-bound s.inputs s.next a g in
        subst (Advances n cap s) e (
          record {
            inputs_of = v.inputs_of;
            capacity_of = v.capacity_of;
            tokens = v.tokens;
            within = v.within;
            sound = lt;
          },
          rw h (omega arith),
        )
    turn-Advances looping (some a) (some x) s s' h g q v =
        let e : abort task x s ≡ s' = cc in
        subst (Advances n cap s) e (
          record {
            inputs_of = v.inputs_of;
            capacity_of = v.capacity_of;
            tokens = v.tokens;
            within = v.within;
            sound = tt;
          },
          rw h (omega arith),
        )
    turn-Advances acquiring o c s s' h g q v = absurd cc
    turn-Advances waiting o c s s' h g q v = absurd cc
    turn-Advances returned o c s s' h g q v = absurd cc

    pub acquire-Advances :
        (p : Phase) (o : Option A) (s s' : Batch A B W)
        → s.phase ≡ p
        → get_elem? s.inputs s.next ≡ o
        → acquire_at task p o s ≡ some s'
        → IsBounded n cap s
        → Advances n cap s s'
    unfolding acquire_at spawn
    acquire-Advances acquiring (some a) s s' h g q v = elim (free_or_not (ltb s.held s.capacity)) [
      | inl b ↦
          let e : spawn task a s ≡ s' = cc in
          let lt = get_elem?-bound s.inputs s.next a g in
          let grown = length-append s.running (record { idx = s.next; input = a } ∷ []) in
          subst (Advances n cap s) e (
            record {
              inputs_of = v.inputs_of;
              capacity_of = v.capacity_of;
              tokens = omega (arith, v.tokens, grown);
              within = ground (arith, b, v.within);
              sound = tt;
            },
            rw h (omega (arith, grown, lt)),
          )
      | inr b ↦ absurd cc
    ]
      where
        free_or_not : (b : Bool) → (b ≡ true) ⊎ (b ≡ false)
        free_or_not b = ground arith
    acquire-Advances acquiring none s s' h g q v = absurd cc
    acquire-Advances looping o s s' h g q v = absurd cc
    acquire-Advances waiting o s s' h g q v = absurd cc
    acquire-Advances returned o s s' h g q v = absurd cc

    pub give_up-Advances :
        (p : Phase) (c : Option CtxError) (s s' : Batch A B W)
        → s.phase ≡ p
        → give_up_at task p c s ≡ some s'
        → IsBounded n cap s
        → Advances n cap s s'
    unfolding give_up_at abort
    give_up-Advances acquiring (some x) s s' h q v =
        let e : abort task x s ≡ s' = cc in
        let lt : s.next < length s.inputs =
          subst (λ p. Sound p s.next (length s.inputs) s.held) h v.sound in
        subst (Advances n cap s) e (
          record {
            inputs_of = v.inputs_of;
            capacity_of = v.capacity_of;
            tokens = v.tokens;
            within = v.within;
            sound = tt;
          },
          rw h (omega (arith, lt)),
        )
    give_up-Advances acquiring none s s' h q v = absurd cc
    give_up-Advances looping c s s' h q v = absurd cc
    give_up-Advances waiting c s s' h q v = absurd cc
    give_up-Advances returned c s s' h q v = absurd cc

    write-Advances :
        (j : ℕ) (job : Job A) (r : B) (w : W) (s : Batch A B W)
        → get_elem? s.running j ≡ some job
        → IsBounded n cap s
        → Advances n cap s (place_result task j job r w s)
    unfolding place_result
    write-Advances j job r w s h v =
        let shorter = length-remove_at s.running j job h in
        (
          record {
            inputs_of = v.inputs_of;
            capacity_of = v.capacity_of;
            tokens = omega (arith, v.tokens, shorter);
            within = v.within;
            sound = v.sound;
          },
          omega (arith, shorter),
        )

    pub finish-Advances :
        (j : ℕ) (o : Option (Job A)) (s s' : Batch A B W)
        → get_elem? s.running j ≡ o
        → finish_job task j o s ≡ some s'
        → IsBounded n cap s
        → Advances n cap s s'
    unfolding finish_job
    finish-Advances j none s s' h q v = absurd cc
    finish-Advances j (some job) s s' h q v =
        let r = task.body job.input s.world in
        let e : place_result task j job r.0 r.1 s ≡ s' = cc in
        subst (Advances n cap s) e (write-Advances j job r.0 r.1 s h v)

    pub panic-Advances :
        (j : ℕ) (o : Option (Job A)) (s s' : Batch A B W)
        → get_elem? s.running j ≡ o
        → panic_job task j o s ≡ some s'
        → IsBounded n cap s
        → Advances n cap s s'
    unfolding panic_job
    panic-Advances j none s s' h q v = absurd cc
    panic-Advances j (some job) s s' h q v =
        let e : place_result task j job (task.panicked job.input) s.world s ≡ s' = cc in
        subst (Advances n cap s) e (write-Advances j job _ _ s h v)

    fewer_tokens : (p : Phase) (k m i j : ℕ) → j ≤ i → Sound p k m i → Sound p k m j
    fewer_tokens looping k m i j le h = tt
    fewer_tokens acquiring k m i j le h = h
    fewer_tokens waiting k m i j le h = tt
    fewer_tokens returned k m i j le h = omega arith

    pub release-Advances :
        (k : ℕ) (s s' : Batch A B W)
        → s.ending ≡ k
        → release_one task k s ≡ some s'
        → IsBounded n cap s
        → Advances n cap s s'
    unfolding release_one
    release-Advances zero s s' h q v = absurd cc
    release-Advances (suc k) s s' h q v =
        let e : record s { ending = k; held = s.held - 1 } ≡ s' = cc in
        subst (Advances n cap s) e (
          record {
            inputs_of = v.inputs_of;
            capacity_of = v.capacity_of;
            tokens = omega (arith, v.tokens, h);
            within = omega (arith, v.within);
            sound = fewer_tokens s.phase _ _ s.held _ (omega arith) v.sound;
          },
          omega (arith, h),
        )

    pub return-Advances :
        (p : Phase) (s s' : Batch A B W)
        → s.phase ≡ p
        → return_at task p s ≡ some s'
        → IsBounded n cap s
        → Advances n cap s s'
    unfolding return_at
    return-Advances waiting s s' h q v = elim (over_or_not s.running s.ending) [
      | inl (b, z) ↦
          let e : record s { phase = returned } ≡ s' = cc in
          subst (Advances n cap s) e (
            record {
              inputs_of = v.inputs_of;
              capacity_of = v.capacity_of;
              tokens = v.tokens;
              within = v.within;
              sound = v.tokens ∙ z;
            },
            rw h (omega arith),
          )
      | inr b ↦ absurd cc
    ]
      where
        over_or_not :
            (js : List (Job A)) (k : ℕ)
            → (((is_empty js && k == 0) ≡ true) × (length js + k ≡ 0))
              ⊎ ((is_empty js && k == 0) ≡ false)
        over_or_not [] k = ground arith
        over_or_not (j ∷ js) k = inr refl
    return-Advances looping s s' h q v = absurd cc
    return-Advances acquiring s s' h q v = absurd cc
    return-Advances returned s s' h q v = absurd cc
