-- ===== src/Checker/Batch/Filling.antt =====
-- What the slots of the results hold while goroutines run, and that a write, a fill and a new round
-- keep it so.
use nawala_checker.Common.{
  ℕ, ◌+◌, ◌≤◌, ◌<◌, ◌≡◌, ◌≢◌, refl, ◌∙◌, subst, ◌⊎◌, inl, inr, none, some, List, [], ◌∷◌, ◌++◌,
  length, get_elem?, set, All, All-append, Any, arith,
}
use nawala_checker.Types.{CtxError}
use nawala_checker.Checker.Batch.{
  Task, Job, Phase, looping, acquiring, waiting, Batch, fill, remove_at, start,
}
use nawala_checker.Checker.Batch.Slots.{
  length-set, length-replicate, get_elem?-set, get_elem?-set_other, get_elem?-bound, get_elem?-end,
  length-fill, get_elem?-fill_before, get_elem?-fill, All-get_elem?, All-remove_at, Any-remove_at,
  Any-append_left, Any-append_last,
}

-- The loop may start more goroutines.
abbrev pub IsOpen : Phase → Type 0
IsOpen looping = Unit
IsOpen acquiring = Unit
IsOpen _ = ⊥

module _ {A B W : Type 0} (task : Task A B W) where
  -- A value that the slot of the input `a` may hold in the end: what its goroutine computed in some
  -- state, the report of a panic, or the error of the context.
  pub data Answer (a : A) : B → Type 0 where
    computed : (w : W) → Answer a (task.body a w).0
    recovered : Answer a (task.panicked a)
    cancelled : (e : CtxError) → Answer a (task.aborted e a)

  abbrev pub Answered : List B → ℕ → A → Type 0
  Answered results k a = (r : B) × (get_elem? results k ≡ some r) × Answer a r

  abbrev pub Runs : List (Job A) → ℕ → Type 0
  Runs running k = Any (λ (job : Job A). job.idx ≡ k) running

  -- Each slot is for a later round, or a running goroutine, or holds an answer.
  pub record IsFilling (inputs : List A) (next : ℕ) (phase : Phase) (running : List (Job A))
      (results : List B) : Type 0 where
    pub sized : length results ≡ length inputs
    pub placed : All (λ (job : Job A). get_elem? inputs job.idx ≡ some job.input) running
    pub slots :
        (k : ℕ) (a : A)
        → get_elem? inputs k ≡ some a
        → ((next ≤ k) × IsOpen phase) ⊎ (Runs running k ⊎ Answered results k a)

  abbrev pub Filling : List A → Batch A B W → Type 0
  Filling inputs s = (s.inputs ≡ inputs) × IsFilling s.inputs s.next s.phase s.running s.results

  pub start-Filling : (inputs : List A) (n : ℕ) (w : W) → Filling inputs (start task inputs n w)
  unfolding start
  start-Filling inputs n w = (
    refl,
    record {
      sized = length-replicate (length inputs) task.blank;
      placed = tt;
      slots = λ k a h. inl (omega arith, tt);
    },
  )

  -- the end of the loop
  pub leave-IsFilling :
      (inputs : List A) (next : ℕ) (running : List (Job A)) (results : List B)
      → get_elem? inputs next ≡ none
      → IsFilling inputs next looping running results
      → IsFilling inputs next waiting running results
  leave-IsFilling inputs next running results h v = record {
    sized = v.sized;
    placed = v.placed;
    slots = λ k a q. elim (v.slots k a q) [
      | inl (le, o) ↦
          absurd (omega (arith, get_elem?-end inputs next h, get_elem?-bound inputs k a q))
      | inr other ↦ inr other
    ];
  }

  pub abort-IsFilling :
      (e : CtxError) (inputs : List A) (next : ℕ) (phase : Phase) (running : List (Job A))
      (results : List B)
      → IsFilling inputs next phase running results
      → IsFilling inputs next waiting running (fill (task.aborted e) next inputs results)
  abort-IsFilling e inputs next phase running results v = record {
    sized = length-fill (task.aborted e) next inputs results v.sized;
    placed = v.placed;
    slots = λ k a q.
        let f = task.aborted e in
        elim (before_or_from next k) [
          | inl le ↦
              inr (inr (f a, get_elem?-fill f next inputs results k a v.sized le q, cancelled e))
          | inr lt ↦ elim (v.slots k a q) [
            | inl (le, o) ↦ absurd (omega arith)
            | inr (inl r) ↦ inr (inl r)
            | inr (inr (r, g, x)) ↦
                inr (inr (r, get_elem?-fill_before f next inputs results k v.sized lt ∙ g, x))
          ]
        ];
  }
    where
      before_or_from : (n k : ℕ) → (n ≤ k) ⊎ (k < n)
      before_or_from n k = ground arith

  pub spawn-IsFilling :
      (a : A) (inputs : List A) (next : ℕ) (running : List (Job A)) (results : List B)
      → get_elem? inputs next ≡ some a
      → IsFilling inputs next acquiring running results
      → IsFilling inputs
          (next + 1)
          looping
          (running ++ record { idx = next; input = a } ∷ [])
          results
  spawn-IsFilling a inputs next running results h v = record {
    sized = v.sized;
    placed = All-append _ running _ v.placed (h, tt);
    slots = λ k b q. elim (v.slots k b q) [
      | inl (le, o) ↦ elim (here_or_later next k le) [
        | inl e ↦ inr (inl (Any-append_last _ running _ e))
        | inr lt ↦ inl (lt, tt)
      ]
      | inr (inl r) ↦ inr (inl (Any-append_left _ running _ r))
      | inr (inr x) ↦ inr (inr x)
    ];
  }
    where
      here_or_later : (n k : ℕ) → n ≤ k → (n ≡ k) ⊎ (n + 1 ≤ k)
      here_or_later n k le = ground arith

  pub write-IsFilling :
      (j : ℕ) (job : Job A) (r : B) (inputs : List A) (next : ℕ) (phase : Phase)
      (running : List (Job A)) (results : List B)
      → get_elem? running j ≡ some job
      → Answer job.input r
      → IsFilling inputs next phase running results
      → IsFilling inputs next phase (remove_at running j) (set results job.idx r)
  write-IsFilling j job r inputs next phase running results h x v =
      let here = All-get_elem? _ running j job v.placed h in
      record {
        sized = length-set results job.idx r ∙ v.sized;
        placed = All-remove_at _ running j v.placed;
        slots = λ k a q. elim (same_or_not job.idx k) [
          | inl e ↦
              let eq : job.input ≡ a = cc in
              inr (
                inr (
                  r,
                  subst (λ i. get_elem? (set results job.idx r) i ≡ some r) e
                      (get_elem?-set results job.idx r
                        (omega (arith, v.sized, get_elem?-bound inputs job.idx job.input here))),
                  subst (λ b. Answer b r) eq x,
                ))
          | inr ne ↦ elim (v.slots k a q) [
            | inl o ↦ inl o
            | inr (inl m) ↦ elim (Any-remove_at _ running j job m h) [
              | inl e ↦ absurd (ne e)
              | inr m' ↦ inr (inl m')
            ]
            | inr (inr (r', g, y)) ↦
                inr (inr (r', get_elem?-set_other results job.idx k r ne ∙ g, y))
          ]
        ];
      }
    where
      same_or_not : (i k : ℕ) → (i ≡ k) ⊎ (i ≢ k)
      same_or_not i k = ground arith
