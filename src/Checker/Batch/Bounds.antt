-- ===== src/Checker/Batch/Bounds.antt =====
-- Each event keeps the tokens of the semaphore right, and leaves less to do.
use nawala_checker.Common.{
  ℕ, ◌+◌, ◌≤◌, ◌≡◌, refl, subst, inl, inr, none, some, List, [], ◌∷◌, arith, Option-cases,
}
use nawala_checker.Checker.Batch.{
  Task, Phase, returned, Batch, Event, elsewhere, turn, acquire, give_up, finish, panic, release,
  return, step, run,
}
use nawala_checker.Checker.Batch.Tokens.{
  Sound, measure, IsBounded, turn-Advances, acquire-Advances, give_up-Advances, finish-Advances,
  panic-Advances, release-Advances, return-Advances,
}

pub returned_idle : (p : Phase) (k n held : ℕ) → p ≡ returned → Sound p k n held → held ≡ 0
returned_idle p k n held h v = subst (λ p. Sound p k n held) h v

-- Whether an event is the function's own, or its goroutines'.
abbrev pub own : {W : Type 0} → Event W → ℕ
own (elsewhere w) = 0
own _ = 1

abbrev pub own_events : {W : Type 0} → List (Event W) → ℕ
own_events [] = 0
own_events (e ∷ es) = own e + own_events es

module _ {A B W : Type 0} (task : Task A B W) (n cap : ℕ) where
  -- An event of the function's own brings it nearer to its end; any other changes the world alone.
  pub step-Advances :
      (e : Event W) (s s' : Batch A B W)
      → step task e s ≡ some s'
      → IsBounded task n cap s
      → IsBounded task n cap s' × (own e + measure task s' ≤ measure task s)
  unfolding step
  step-Advances (elsewhere w) s s' q v =
      let e : record s { world = w } ≡ s' = cc in
      subst (λ t. IsBounded task n cap t × (0 + measure task t ≤ measure task s)) e
        (
          record {
            inputs_of = v.inputs_of;
            capacity_of = v.capacity_of;
            tokens = v.tokens;
            within = v.within;
            sound = v.sound;
          },
          omega arith,
        )
  step-Advances turn s s' q v = turn-Advances task n cap s.phase _ _ s s' refl refl q v
  step-Advances acquire s s' q v = acquire-Advances task n cap s.phase _ s s' refl refl q v
  step-Advances give_up s s' q v = give_up-Advances task n cap s.phase _ s s' refl q v
  step-Advances (finish j) s s' q v = finish-Advances task n cap j _ s s' refl q v
  step-Advances (panic j) s s' q v = panic-Advances task n cap j _ s s' refl q v
  step-Advances release s s' q v = release-Advances task n cap s.ending s s' refl q v
  step-Advances return s s' q v = return-Advances task n cap s.phase s s' refl q v

  pub run-Advances :
      (es : List (Event W)) (s s' : Batch A B W)
      → run task es s ≡ some s'
      → IsBounded task n cap s
      → IsBounded task n cap s' × (own_events es + measure task s' ≤ measure task s)
  unfolding run
  run-Advances [] s s' q v =
      let e : s ≡ s' = cc in
      subst (λ t. IsBounded task n cap t × (0 + measure task t ≤ measure task s)) e (v, omega arith)
  run-Advances (e ∷ es) s s' q v = elim (Option-cases (step task e s)) [
    | inl m ↦ absurd cc
    | inr (t, m) ↦
        let (b, lt) = step-Advances e s t m v in
        let rest =
          run-Advances es t s'
            (subst (λ o. elim o [ none ↦ none | some x ↦ run task es x ] ≡ some s') m q) b in
        (rest.0, omega (arith, lt, rest.1))
  ]

  pub run-IsBounded :
      (es : List (Event W)) (s s' : Batch A B W)
      → run task es s ≡ some s'
      → IsBounded task n cap s
      → IsBounded task n cap s'
  run-IsBounded es s s' q v = (run-Advances es s s' q v).0
