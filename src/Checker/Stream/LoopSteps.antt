-- ===== src/Checker/Stream/LoopSteps.antt =====
-- The events of the loop of a stream, each by its case.
use nawala_checker.Common.{
  ℕ, ◌+◌, ◌≡◌, subst, inl, inr, Option, none, some, List, [], ◌∷◌, ◌++◌, ltb, arith, Bool-cases,
}
use nawala_checker.Types.{CtxError}
use nawala_checker.Checker.Batch.{Task}
use nawala_checker.Checker.Stream.{
  StreamPhase, receiving, looking, entering, joining, ended, Flow, receive_at, done_at, break_with,
  look_at, enter_at, stop_at,
}
use nawala_checker.Checker.Stream.Cases.{Cases}

module _ {A B W : Type 0} (task : Task A B W) (P : ℕ → Flow A B W → Type 0) where
  pub receive_by :
      (p : StreamPhase A) (as_ : List A) (s t : Flow A B W)
      → s.phase ≡ p
      → s.incoming ≡ as_
      → receive_at task p as_ s ≡ some t
      → Cases task s P
      → P 1 t
  unfolding receive_at
  receive_by receiving [] s t h g q c =
      let e : record s { phase = joining } ≡ t = cc in subst (P 1) e (c.on_close h g)
  receive_by receiving (a ∷ as_) s t h g q c =
      let e : record s { phase = looking a; incoming = as_ } ≡ t = cc in
      subst (P 1) e (c.on_receive a as_ h g)
  receive_by (looking a) as_ s t h g q c = absurd cc
  receive_by (entering a) as_ s t h g q c = absurd cc
  receive_by joining as_ s t h g q c = absurd cc
  receive_by ended as_ s t h g q c = absurd cc

  pub done_by :
      (p : StreamPhase A) (o : Option CtxError) (s t : Flow A B W)
      → s.phase ≡ p
      → task.ctx_err s.world ≡ o
      → done_at task p o s ≡ some t
      → Cases task s P
      → P 1 t
  unfolding done_at
  done_by receiving (some x) s t h g q c =
      let e : record s { phase = joining } ≡ t = cc in subst (P 1) e (c.on_done h (x, g))
  done_by receiving none s t h g q c = absurd cc
  done_by (looking a) o s t h g q c = absurd cc
  done_by (entering a) o s t h g q c = absurd cc
  done_by joining o s t h g q c = absurd cc
  done_by ended o s t h g q c = absurd cc

  pub look_by :
      (p : StreamPhase A) (o : Option CtxError) (s t : Flow A B W)
      → s.phase ≡ p
      → task.ctx_err s.world ≡ o
      → look_at task p o s ≡ some t
      → Cases task s P
      → P 1 t
  unfolding look_at break_with
  look_by (looking a) none s t h g q c =
      let e : record s { phase = entering a } ≡ t = cc in subst (P 1) e (c.on_look a h)
  look_by (looking a) (some x) s t h g q c =
      let e : break_with task a s ≡ t = cc in subst (P 1) e (c.on_break a (inl h) (x, g))
  look_by receiving o s t h g q c = absurd cc
  look_by (entering a) o s t h g q c = absurd cc
  look_by joining o s t h g q c = absurd cc
  look_by ended o s t h g q c = absurd cc

  pub stop_by :
      (p : StreamPhase A) (o : Option CtxError) (s t : Flow A B W)
      → s.phase ≡ p
      → task.ctx_err s.world ≡ o
      → stop_at task p o s ≡ some t
      → Cases task s P
      → P 1 t
  unfolding stop_at break_with
  stop_by (entering a) (some x) s t h g q c =
      let e : break_with task a s ≡ t = cc in subst (P 1) e (c.on_break a (inr h) (x, g))
  stop_by (entering a) none s t h g q c = absurd cc
  stop_by receiving o s t h g q c = absurd cc
  stop_by (looking a) o s t h g q c = absurd cc
  stop_by joining o s t h g q c = absurd cc
  stop_by ended o s t h g q c = absurd cc

  pub enter_by :
      (p : StreamPhase A) (s t : Flow A B W)
      → s.phase ≡ p
      → enter_at task p s ≡ some t
      → Cases task s P
      → P 1 t
  unfolding enter_at
  enter_by (entering a) s t h q c = elim (Bool-cases (ltb s.held s.capacity)) [
    | inl b ↦
        let e : record s { held = s.held + 1; running = s.running ++ a ∷ []; phase = receiving }
            ≡ t =
          cc in
        subst (P 1) e (c.on_enter a h (ground (arith, b)))
    | inr b ↦ absurd cc
  ]
  enter_by receiving s t h q c = absurd cc
  enter_by (looking a) s t h q c = absurd cc
  enter_by joining s t h q c = absurd cc
  enter_by ended s t h q c = absurd cc
