-- ===== src/Checker/Stream/Answers.antt =====
-- What a stream sends, whatever the order of the events.
use nawala_checker.Common.{
  ℕ, ◌+◌, ◌≡◌, refl, ap, ◌∙◌, subst, ◌⊎◌, inl, inr, none, some, List, [], ◌∷◌, length, All, arith,
  Option-cases,
}
use nawala_checker.Checker.Batch.{Task}
use nawala_checker.Checker.Stream.{
  ended, Flow, StreamEvent, open_stream, returned_error, stream_step, run_stream,
}
use nawala_checker.Checker.Stream.Cases.{IsReply, IsDone}
use nawala_checker.Checker.Stream.Analysis.{step_by}
use nawala_checker.Checker.Stream.Bounds.{active, Quiet, run-Advances, open-IsLimited}
use nawala_checker.Checker.Stream.Accounts.{
  sum, author, accounted, in_hand, Complete, Keeps, keep_cases,
}

idle_sum : {A : Type 0} (f : A → ℕ) (as_ : List A) → length as_ ≡ 0 → sum f as_ ≡ 0
idle_sum f [] h = refl
idle_sum f (a ∷ as_) h = absurd (omega (arith, h))

module _ {A B W : Type 0} (task : Task A B W) where
  -- The context is done at the start of a run, or behind one of its events.
  abbrev pub MeetsDone : List (StreamEvent W) → Flow A B W → Type 0
  MeetsDone [] s = IsDone task s.world
  MeetsDone (e ∷ es) s =
      IsDone task s.world ⊎ ((t : Flow A B W) × (stream_step task e s ≡ some t) × MeetsDone es t)

  met_at_end :
      (es : List (StreamEvent W)) (s t : Flow A B W)
      → run_stream task es s ≡ some t
      → IsDone task t.world
      → MeetsDone es s
  unfolding run_stream
  met_at_end [] s t q d = let e : t ≡ s = cc in subst (λ x. IsDone task x.world) e d
  met_at_end (e ∷ es) s t q d = elim (Option-cases (stream_step task e s)) [
    | inl m ↦ absurd cc
    | inr (s1, m) ↦ inr (
      s1,
      m,
      met_at_end es s1 t
          (subst (λ o. elim o [ none ↦ none | some x ↦ run_stream task es x ] ≡ some t) m q) d,
    )
  ]

  -- What a run keeps.
  abbrev Kept : (A → ℕ) → List (StreamEvent W) → Flow A B W → Flow A B W → Type 0
  Kept f es s t =
      (accounted task f t ≡ accounted task f s)
      × All (IsReply task) t.out
      × (Complete task s.phase s.incoming s.lost
          → Complete task t.phase t.incoming t.lost ⊎ MeetsDone es s)

  run-Kept :
      (f : A → ℕ) (es : List (StreamEvent W)) (s t : Flow A B W)
      → run_stream task es s ≡ some t
      → All (IsReply task) s.sending
      → All (IsReply task) s.out
      → Kept f es s t
  unfolding run_stream
  run-Kept f [] s t q hs ho = let e : s ≡ t = cc in subst (Kept f [] s) e (refl, ho, λ c. inl c)
  run-Kept f (e ∷ es) s t q hs ho = elim (Option-cases (stream_step task e s)) [
    | inl m ↦ absurd cc
    | inr (s1, m) ↦
        let k : Keeps task f s _ s1 =
          step_by task (Keeps task f s) e s s1 m (keep_cases task f s hs ho) in
        let (same, out, rest) =
          run-Kept f es s1 t
            (subst (λ o. elim o [ none ↦ none | some x ↦ run_stream task es x ] ≡ some t) m q)
            k.replies.0 k.replies.1 in
        (
          same ∙ k.same,
          out,
          λ c. elim (k.complete c) [
            | inr d ↦ inr (inl d)
            | inl c1 ↦ elim (rest c1) [ inl c2 ↦ inl c2 | inr d ↦ inr (inr (s1, m, d)) ]
          ],
        )
  ]

  -- Of a stream that has returned, whatever the order of the events, the schedule of the goroutines and
  -- the panics in between. Each domain that `In` had is in one place, and as often as it was there: it
  -- was sent, by its own goroutine, or it was received and dropped, or it is still to be received; so
  -- the weights of the domains, for any weight, have one sum before and after. What was sent is what
  -- the goroutine computed for its domain, or the report of its panic. And where the context was not
  -- done at any time of the run, nothing was dropped, nothing is left and no error is returned: each domain
  -- has exactly one result on `Out`.
  pub stream_answers :
      (incoming : List A) (n : ℕ) (w : W) (es : List (StreamEvent W)) (s : Flow A B W) (f : A → ℕ)
      → run_stream task es (open_stream task incoming n w) ≡ some s
      → s.phase ≡ ended
      → (sum f incoming ≡ sum (author f) s.out + sum f s.lost + sum f s.incoming)
        × All (IsReply task) s.out
        × (((s.incoming ≡ []) × (s.lost ≡ []) × (returned_error task s ≡ none))
            ⊎ MeetsDone es (open_stream task incoming n w))
  unfolding open_stream returned_error
  stream_answers incoming n w es s f q h =
      let (v, few) = run-Advances task n es _ s q (open-IsLimited task n incoming w) in
      let idle : active s ≡ 0 = subst (λ p. Quiet p (active s)) h v.quiet in
      let (same, out, complete) = run-Kept f es _ s q tt tt in
      let hand : in_hand f s.phase ≡ 0 = ap (in_hand f) h in
      (
        omega (
          arith,
          same,
          hand,
          idle_sum f s.running (omega (arith, idle)),
          idle_sum (author f) s.sending (omega (arith, idle)),
        ),
        out,
        elim (complete refl) [
          | inl c ↦ elim (Option-cases (task.ctx_err s.world)) [
            | inl o ↦
                let (none_left, none_lost) = subst (λ p. Complete task p s.incoming s.lost) h c in
                inl (none_left, none_lost, o)
            | inr d ↦ inr (met_at_end es _ s q d)
          ]
          | inr d ↦ inr d
        ],
      )
