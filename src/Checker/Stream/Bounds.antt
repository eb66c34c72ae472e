-- ===== src/Checker/Stream/Bounds.antt =====
-- The places of the semaphore of a stream, and what each event leaves to do.
use nawala_checker.Common.{
  ℕ, ◌+◌, ◌*◌, ◌≤◌, ◌≡◌, refl, subst, inl, inr, none, some, List, [], ◌∷◌, length, length-append,
  arith, Option-cases,
}
use nawala_checker.Checker.Batch.{Task}
use nawala_checker.Checker.Batch.Slots.{length-remove_at}
use nawala_checker.Checker.Stream.{
  StreamPhase, receiving, looking, entering, joining, ended, Flow, StreamEvent, open_stream,
  stream_step, run_stream,
}
use nawala_checker.Checker.Stream.Cases.{own_events, HasDomain, Cases}
use nawala_checker.Checker.Stream.Analysis.{step_by}

-- What is left of the loop where `n` domains are still to come.
abbrev pub left : {A : Type 0} → StreamPhase A → ℕ → ℕ
left receiving n = 6 * n + 2
left (looking a) n = 6 * n + 7
left (entering a) n = 6 * n + 6
left joining n = 1
left ended n = 0

abbrev pub active : {A B W : Type 0} → Flow A B W → ℕ
active s = length s.running + length s.sending + s.ending

abbrev pub work : {A B W : Type 0} → Flow A B W → ℕ
work s = left s.phase (length s.incoming) + 3 * length s.running + 2 * length s.sending + s.ending

-- One who has returned has no goroutines.
abbrev pub Quiet : {A : Type 0} → StreamPhase A → ℕ → Type 0
Quiet ended n = n ≡ 0
Quiet _ n = Unit

pub record IsLimited {A B W : Type 0} (cap : ℕ) (s : Flow A B W) : Type 0 where
  pub capacity_of : s.capacity ≡ cap
  pub tokens : s.held ≡ active s
  pub within : s.held ≤ s.capacity
  pub quiet : Quiet s.phase (active s)

abbrev pub Advances : {A B W : Type 0} → ℕ → Flow A B W → ℕ → Flow A B W → Type 0
Advances cap s k t = IsLimited cap t × (k + work t ≤ work s)

still_running : {A : Type 0} (p : StreamPhase A) (m n : ℕ) → Quiet p m → 1 ≤ m → Quiet p n
still_running receiving m n q h = tt
still_running (looking a) m n q h = tt
still_running (entering a) m n q h = tt
still_running joining m n q h = tt
still_running ended m n q h = absurd (omega (arith, q, h))

domain_left : {A : Type 0} (p : StreamPhase A) (a : A) (n : ℕ) → HasDomain p a → 6 ≤ left p n
domain_left p a n (inl h) = rw h (omega arith)
domain_left p a n (inr h) = rw h (omega arith)

module _ {A B W : Type 0} (task : Task A B W) (cap : ℕ) where
  advance_cases : (s : Flow A B W) → IsLimited cap s → Cases task s (Advances cap s)
  advance_cases s v = record {
    on_elsewhere = λ w. (
      record { capacity_of = v.capacity_of; tokens = v.tokens; within = v.within; quiet = v.quiet },
      omega arith,
    );
    on_receive = λ a as_ p i. (
      record { capacity_of = v.capacity_of; tokens = v.tokens; within = v.within; quiet = tt },
      rw (p, i) (omega arith),
    );
    on_close = λ p i. (
      record { capacity_of = v.capacity_of; tokens = v.tokens; within = v.within; quiet = tt },
      rw p (omega arith),
    );
    on_done = λ p i. (
      record { capacity_of = v.capacity_of; tokens = v.tokens; within = v.within; quiet = tt },
      rw p (omega arith),
    );
    on_look = λ a p. (
      record { capacity_of = v.capacity_of; tokens = v.tokens; within = v.within; quiet = tt },
      rw p (omega arith),
    );
    on_break = λ a p i. (
      record { capacity_of = v.capacity_of; tokens = v.tokens; within = v.within; quiet = tt },
      omega (arith, domain_left s.phase a (length s.incoming) p),
    );
    on_enter = λ a p lt. (
      record {
        capacity_of = v.capacity_of;
        tokens = omega (arith, v.tokens, length-append s.running (a ∷ []));
        within = omega (arith, lt);
        quiet = tt;
      },
      rw p (omega (arith, length-append s.running (a ∷ []))),
    );
    on_answer = λ j r w g i.
        let less = length-remove_at s.running j r.by g in
        let more = length-append s.sending (r ∷ []) in
        (
          record {
            capacity_of = v.capacity_of;
            tokens = omega (arith, v.tokens, less, more);
            within = v.within;
            quiet = still_running s.phase (active s) _ v.quiet (omega (arith, less));
          },
          omega (arith, less, more),
        );
    on_send = λ j r g.
        let less = length-remove_at s.sending j r g in
        (
          record {
            capacity_of = v.capacity_of;
            tokens = omega (arith, v.tokens, less);
            within = v.within;
            quiet = still_running s.phase (active s) _ v.quiet (omega (arith, less));
          },
          omega (arith, less),
        );
    on_drop = λ j r g i.
        let less = length-remove_at s.sending j r g in
        (
          record {
            capacity_of = v.capacity_of;
            tokens = omega (arith, v.tokens, less);
            within = v.within;
            quiet = still_running s.phase (active s) _ v.quiet (omega (arith, less));
          },
          omega (arith, less),
        );
    on_release = λ n e. (
      record {
        capacity_of = v.capacity_of;
        tokens = omega (arith, v.tokens, e);
        within = omega (arith, v.within);
        quiet = still_running s.phase (active s) _ v.quiet (omega (arith, e));
      },
      omega (arith, e),
    );
    on_return = λ p ha hr hn. (
      record {
        capacity_of = v.capacity_of;
        tokens = v.tokens;
        within = v.within;
        quiet = rw (ha, hr, hn) refl;
      },
      rw p (omega arith),
    );
  }

  pub run-Advances :
      (es : List (StreamEvent W)) (s t : Flow A B W)
      → run_stream task es s ≡ some t
      → IsLimited cap s
      → Advances cap s (own_events es) t
  unfolding run_stream
  run-Advances [] s t q v = let e : s ≡ t = cc in subst (Advances cap s 0) e (v, omega arith)
  run-Advances (e ∷ es) s t q v = elim (Option-cases (stream_step task e s)) [
    | inl m ↦ absurd cc
    | inr (s1, m) ↦
        let (v1, lt) = step_by task (Advances cap s) e s s1 m (advance_cases s v) in
        let (v2, rest) =
          run-Advances es s1 t
            (subst (λ o. elim o [ none ↦ none | some x ↦ run_stream task es x ] ≡ some t) m q) v1 in
        (v2, omega (arith, lt, rest))
  ]

  pub open-IsLimited : (incoming : List A) (w : W) → IsLimited cap (open_stream task incoming cap w)
  unfolding open_stream
  open-IsLimited incoming w = record {
    capacity_of = refl;
    tokens = refl;
    within = omega arith;
    quiet = tt;
  }
