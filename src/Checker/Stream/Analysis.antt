-- ===== src/Checker/Stream/Analysis.antt =====
-- Each event by its case: what `stream_step` does is one of the ways of `Cases`.
use nawala_checker.Common.{
  ℕ, zero, suc, ◌+◌, ◌-◌, ◌≡◌, refl, subst, false, Option, none, some, List, [], ◌∷◌, ◌++◌, ◌==◌,
  ◌&&◌, get_elem?, is_empty, arith, if◌then◌else◌,
}
use nawala_checker.Types.{CtxError}
use nawala_checker.Checker.Batch.{Task, remove_at}
use nawala_checker.Checker.Stream.{
  StreamPhase, receiving, looking, entering, joining, ended, Outgoing, Flow, StreamEvent, elsewhere,
  receive, done, look, enter, give_up, finish, panic, send, drop, release, return, answer_with,
  finish_one, panic_one, send_one, drop_one, release_place, return_from, stream_step,
}
use nawala_checker.Checker.Stream.Cases.{own, computed, recovered, Cases}
use nawala_checker.Checker.Stream.LoopSteps.{receive_by, done_by, look_by, stop_by, enter_by}

module _ {A B W : Type 0} (task : Task A B W) (P : ℕ → Flow A B W → Type 0) where
  finish_by :
      (j : ℕ) (o : Option A) (s t : Flow A B W)
      → get_elem? s.running j ≡ o
      → finish_one task j o s ≡ some t
      → Cases task s P
      → P 1 t
  unfolding finish_one answer_with
  finish_by j none s t h q c = absurd cc
  finish_by j (some a) s t h q c =
      let r = task.body a s.world in
      let e : answer_with task j a r.0 r.1 s ≡ t = cc in
      subst (P 1) e (c.on_answer j (record { by = a; result = r.0 }) r.1 h (computed a s.world))

  panic_by :
      (j : ℕ) (o : Option A) (s t : Flow A B W)
      → get_elem? s.running j ≡ o
      → panic_one task j o s ≡ some t
      → Cases task s P
      → P 1 t
  unfolding panic_one answer_with
  panic_by j none s t h q c = absurd cc
  panic_by j (some a) s t h q c =
      let e : answer_with task j a (task.panicked a) s.world s ≡ t = cc in
      subst (P 1) e
        (c.on_answer j (record { by = a; result = task.panicked a }) s.world h (recovered a))

  send_by :
      (j : ℕ) (o : Option (Outgoing A B)) (s t : Flow A B W)
      → get_elem? s.sending j ≡ o
      → send_one task j o s ≡ some t
      → Cases task s P
      → P 1 t
  unfolding send_one
  send_by j none s t h q c = absurd cc
  send_by j (some r) s t h q c =
      let e : record s {
        sending = remove_at s.sending j;
        ending = s.ending + 1;
        out = s.out ++ r ∷ [];
      }
          ≡ t =
        cc in
      subst (P 1) e (c.on_send j r h)

  drop_by :
      (j : ℕ) (o : Option (Outgoing A B)) (x : Option CtxError) (s t : Flow A B W)
      → get_elem? s.sending j ≡ o
      → task.ctx_err s.world ≡ x
      → drop_one task j o x s ≡ some t
      → Cases task s P
      → P 1 t
  unfolding drop_one
  drop_by j none x s t h g q c = absurd cc
  drop_by j (some r) none s t h g q c = absurd cc
  drop_by j (some r) (some x) s t h g q c =
      let e : record s {
        sending = remove_at s.sending j;
        ending = s.ending + 1;
        lost = s.lost ++ r.by ∷ [];
      }
          ≡ t =
        cc in
      subst (P 1) e (c.on_drop j r h (x, g))

  release_by :
      (n : ℕ) (s t : Flow A B W)
      → s.ending ≡ n
      → release_place task n s ≡ some t
      → Cases task s P
      → P 1 t
  unfolding release_place
  release_by zero s t h q c = absurd cc
  release_by (suc n) s t h q c =
      let e : record s { ending = n; held = s.held - 1 } ≡ t = cc in
      subst (P 1) e (c.on_release n h)

  joined_by :
      (as_ : List A) (rs : List (Outgoing A B)) (n : ℕ) (s t : Flow A B W)
      → s.phase ≡ joining
      → s.running ≡ as_
      → s.sending ≡ rs
      → s.ending ≡ n
      → (if is_empty as_ && (is_empty rs && n == 0)
          then some (record s { phase = ended })
          else none)
        ≡ some t
      → Cases task s P
      → P 1 t
  joined_by [] [] zero s t h ha hr hn q c =
      let e : record s { phase = ended } ≡ t = cc in subst (P 1) e (c.on_return h ha hr hn)
  joined_by [] [] (suc n) s t h ha hr hn q c =
      let e : (suc n == 0) ≡ false = ground arith in absurd cc
  joined_by [] (r ∷ rs) n s t h ha hr hn q c = absurd cc
  joined_by (a ∷ as_) rs n s t h ha hr hn q c = absurd cc

  return_by :
      (p : StreamPhase A) (s t : Flow A B W)
      → s.phase ≡ p
      → return_from task p s ≡ some t
      → Cases task s P
      → P 1 t
  unfolding return_from
  return_by joining s t h q c = joined_by s.running s.sending s.ending s t h refl refl refl q c
  return_by receiving s t h q c = absurd cc
  return_by (looking a) s t h q c = absurd cc
  return_by (entering a) s t h q c = absurd cc
  return_by ended s t h q c = absurd cc

  pub step_by :
      (e : StreamEvent W) (s t : Flow A B W)
      → stream_step task e s ≡ some t
      → Cases task s P
      → P (own e) t
  unfolding stream_step
  step_by (elsewhere w) s t q c =
      let e : record s { world = w } ≡ t = cc in subst (P 0) e (c.on_elsewhere w)
  step_by receive s t q c = receive_by task P s.phase s.incoming s t refl refl q c
  step_by done s t q c = done_by task P s.phase _ s t refl refl q c
  step_by look s t q c = look_by task P s.phase _ s t refl refl q c
  step_by enter s t q c = enter_by task P s.phase s t refl q c
  step_by give_up s t q c = stop_by task P s.phase _ s t refl refl q c
  step_by (finish j) s t q c = finish_by j _ s t refl q c
  step_by (panic j) s t q c = panic_by j _ s t refl q c
  step_by (send j) s t q c = send_by j _ s t refl q c
  step_by (drop j) s t q c = drop_by j _ _ s t refl refl q c
  step_by release s t q c = release_by s.ending s t refl q c
  step_by return s t q c = return_by s.phase s t refl q c
