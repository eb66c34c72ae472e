-- ===== src/Checker/Stream/Progress.antt =====
-- That a stream comes to its end, and the limit on its goroutines.
use nawala_checker.Common.{
  ℕ, zero, suc, ◌+◌, ◌*◌, ◌≤◌, ◌<◌, ◌≡◌, ◌≢◌, refl, ap, ◌∙◌, ◌⊎◌, inl, inr, Option, none, some,
  List, [], ◌∷◌, length, arith, Bool, Bool-cases, true, ltb, get_elem?, if◌then◌else◌, ◌&&◌, ◌==◌,
  is_empty,
}
use nawala_checker.Types.{CtxError}
use nawala_checker.Checker.Batch.{Task}
use nawala_checker.Checker.Stream.{
  StreamPhase, receiving, looking, entering, joining, ended, Outgoing, Flow, StreamEvent, receive,
  look, enter, finish, send, release, return, open_stream, receive_at, look_at, enter_at,
  finish_one, send_one, release_place, return_from, stream_step, run_stream,
}
use nawala_checker.Checker.Stream.Cases.{own, own_events}
use nawala_checker.Checker.Stream.Bounds.{active, IsLimited, run-Advances, open-IsLimited}

module _ {A B W : Type 0} (task : Task A B W) where
  -- An event of the function's own that can happen.
  abbrev pub CanStep : Flow A B W → Type 0
  CanStep s = (e : StreamEvent W) × (t : Flow A B W) × (own e ≡ 1) × (stream_step task e s ≡ some t)

  some_receive :
      (s : Flow A B W) (as_ : List A)
      → (t : Flow A B W) × (receive_at task receiving as_ s ≡ some t)
  unfolding receive_at
  some_receive s [] = (_, refl)
  some_receive s (a ∷ as_) = (_, refl)

  some_look :
      (s : Flow A B W) (a : A) (o : Option CtxError)
      → (t : Flow A B W) × (look_at task (looking a) o s ≡ some t)
  unfolding look_at
  some_look s a none = (_, refl)
  some_look s a (some e) = (_, refl)

  -- A goroutine that runs can finish, one at its send can send, and one behind it can release its
  -- place.
  some_goroutine : (s : Flow A B W) → 1 ≤ active s → CanStep s
  unfolding stream_step finish_one send_one release_place
  some_goroutine s h = by_parts s.running s.sending s.ending refl refl refl
    where
      by_parts :
          (as_ : List A) (rs : List (Outgoing A B)) (k : ℕ)
          → s.running ≡ as_
          → s.sending ≡ rs
          → s.ending ≡ k
          → CanStep s
      by_parts (a ∷ as_) rs k r p g =
          (finish 0, _, refl, ap (λ xs. finish_one task 0 (get_elem? xs 0) s) r)
      by_parts [] (x ∷ rs) k r p g =
          (send 0, _, refl, ap (λ xs. send_one task 0 (get_elem? xs 0) s) p)
      by_parts [] [] (suc k) r p g = (release, _, refl, ap (λ n. release_place task n s) g)
      by_parts [] [] zero r p g = absurd (omega (arith, h, ap length r, ap length p, g))

  some_enter : (s : Flow A B W) (a : A) → s.phase ≡ entering a → s.held < s.capacity → CanStep s
  unfolding stream_step enter_at
  some_enter s a p lt = (
    enter,
    _,
    refl,
    ap (λ x. enter_at task x s) p ∙ free (ltb s.held s.capacity) (ground (arith, lt)),
  )
    where
      free : {C : Type 0} {x : C} (b : Bool) → b ≡ true → (if b then some x else none) ≡ some x
      free b h = ground (arith, h)

  some_return : (s : Flow A B W) → s.phase ≡ joining → active s ≡ 0 → CanStep s
  unfolding stream_step return_from
  some_return s p h =
      (return, _, refl, ap (λ x. return_from task x s) p ∙ over s.running s.sending s.ending h)
    where
      over :
          {C : Type 0} {x : C} (as_ : List A) (rs : List (Outgoing A B)) (k : ℕ)
          → length as_ + length rs + k ≡ 0
          → (if is_empty as_ && (is_empty rs && k == 0) then some x else none) ≡ some x
      over [] [] k h = ground (arith, h)
      over [] (r ∷ rs) k h = absurd (omega (arith, h))
      over (a ∷ as_) rs k h = absurd (omega (arith, h))

  step_in :
      (n : ℕ) (s : Flow A B W) (p : StreamPhase A)
      → s.phase ≡ p
      → 1 ≤ n
      → p ≢ ended
      → IsLimited n s
      → CanStep s
  unfolding stream_step
  step_in n s receiving p h r v =
      let (t, e) = some_receive s s.incoming in
      (receive, t, refl, ap (λ x. receive_at task x s.incoming s) p ∙ e)
  step_in n s (looking a) p h r v =
      let (t, e) = some_look s a (task.ctx_err s.world) in
      (look, t, refl, ap (λ x. look_at task x (task.ctx_err s.world) s) p ∙ e)
  step_in n s (entering a) p h r v = elim (Bool-cases (ltb s.held s.capacity)) [
    | inl free ↦ some_enter s a p (ground (arith, free))
    | inr full ↦ some_goroutine s (ground (arith, full, v.tokens, v.capacity_of, h))
  ]
  step_in n s joining p h r v = elim (idle_or_not (active s)) [
    | inl z ↦ some_return s p z
    | inr m ↦ some_goroutine s m
  ]
    where
      idle_or_not : (k : ℕ) → (k ≡ 0) ⊎ (1 ≤ k)
      idle_or_not k = ground arith
  step_in n s ended p h r v = absurd (r refl)

  ended_or_not : (p : StreamPhase A) → (p ≡ ended) ⊎ (p ≢ ended)
  ended_or_not receiving = inr (λ e. cc)
  ended_or_not (looking a) = inr (λ e. cc)
  ended_or_not (entering a) = inr (λ e. cc)
  ended_or_not joining = inr (λ e. cc)
  ended_or_not ended = inl refl

  -- Of a stream over a channel that delivers a finite list of domains and is closed, where the
  -- semaphore has a place, and whatever the order of the events: the goroutines at one time, those at
  -- their send included, are never more than the places; there are at most six events for each domain
  -- and two more before it has returned, what goes on elsewhere not counted; and until it has
  -- returned, one of them can happen, if `In` delivers and `Out` takes.
  pub stream_ends :
      (incoming : List A) (n : ℕ) (w : W) (es : List (StreamEvent W)) (s : Flow A B W)
      → 1 ≤ n
      → run_stream task es (open_stream task incoming n w) ≡ some s
      → (active s ≤ n) × (own_events es ≤ 6 * length incoming + 2) × ((s.phase ≡ ended) ⊎ CanStep s)
  unfolding open_stream
  stream_ends incoming n w es s h q =
      let (v, few) = run-Advances task n es _ s q (open-IsLimited task n incoming w) in
      (
        omega (arith, v.tokens, v.within, v.capacity_of),
        omega (arith, few),
        elim (ended_or_not s.phase) [
          | inl e ↦ inl e
          | inr ne ↦ inr (step_in n s s.phase refl h ne v)
        ],
      )
