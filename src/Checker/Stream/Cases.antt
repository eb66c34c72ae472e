-- ===== src/Checker/Stream/Cases.antt =====
-- One event of a stream by cases: what it needs, and what it leaves.
use nawala_checker.Common.{ℕ, suc, ◌+◌, ◌-◌, ◌<◌, ◌≡◌, ◌⊎◌, some, List, [], ◌∷◌, ◌++◌, get_elem?}
use nawala_checker.Types.{CtxError}
use nawala_checker.Checker.Batch.{Task, remove_at}
use nawala_checker.Checker.Stream.{
  StreamPhase, receiving, looking, entering, joining, ended, Outgoing, Flow, StreamEvent, elsewhere,
}

-- Whether an event is the function's own, or its goroutines'.
abbrev pub own : {W : Type 0} → StreamEvent W → ℕ
own (elsewhere w) = 0
own _ = 1

abbrev pub own_events : {W : Type 0} → List (StreamEvent W) → ℕ
own_events [] = 0
own_events (e ∷ es) = own e + own_events es

-- The phase in which the function has a domain that no goroutine has.
abbrev pub HasDomain : {A : Type 0} → StreamPhase A → A → Type 0
HasDomain p a = (p ≡ looking a) ⊎ (p ≡ entering a)

module _ {A B W : Type 0} (task : Task A B W) where
  -- A result that the goroutine of a domain may send: what it computed in some state, or the report of
  -- its panic.
  pub data IsReply : Outgoing A B → Type 0 where
    computed : (a : A) (w : W) → IsReply (record { by = a; result = (task.body a w).0 })
    recovered : (a : A) → IsReply (record { by = a; result = task.panicked a })

  -- The context is done.
  abbrev pub IsDone : W → Type 0
  IsDone w = (e : CtxError) × (task.ctx_err w ≡ some e)

  -- A proof of `P` for each way to take one event in `s`.
  pub record Cases (s : Flow A B W) (P : ℕ → Flow A B W → Type 0) : Type 0 where
    pub on_elsewhere : (w : W) → P 0 (record s { world = w })
    pub on_receive :
        (a : A) (as_ : List A)
        → s.phase ≡ receiving
        → s.incoming ≡ a ∷ as_
        → P 1 (record s { phase = looking a; incoming = as_ })
    pub on_close : s.phase ≡ receiving → s.incoming ≡ [] → P 1 (record s { phase = joining })
    pub on_done : s.phase ≡ receiving → IsDone s.world → P 1 (record s { phase = joining })
    pub on_look : (a : A) → s.phase ≡ looking a → P 1 (record s { phase = entering a })
    pub on_break :
        (a : A)
        → HasDomain s.phase a
        → IsDone s.world
        → P 1 (record s { phase = joining; lost = s.lost ++ a ∷ [] })
    pub on_enter :
        (a : A)
        → s.phase ≡ entering a
        → s.held < s.capacity
        → P 1 (record s { held = s.held + 1; running = s.running ++ a ∷ []; phase = receiving })
    pub on_answer :
        (j : ℕ) (r : Outgoing A B) (w : W)
        → get_elem? s.running j ≡ some r.by
        → IsReply r
        → P 1
            (record s { running = remove_at s.running j; sending = s.sending ++ r ∷ []; world = w })
    pub on_send :
        (j : ℕ) (r : Outgoing A B)
        → get_elem? s.sending j ≡ some r
        → P 1 (record s {
          sending = remove_at s.sending j;
          ending = s.ending + 1;
          out = s.out ++ r ∷ [];
        })
    pub on_drop :
        (j : ℕ) (r : Outgoing A B)
        → get_elem? s.sending j ≡ some r
        → IsDone s.world
        → P 1 (record s {
          sending = remove_at s.sending j;
          ending = s.ending + 1;
          lost = s.lost ++ r.by ∷ [];
        })
    pub on_release : (n : ℕ) → s.ending ≡ suc n → P 1 (record s { ending = n; held = s.held - 1 })
    pub on_return :
        s.phase ≡ joining
        → s.running ≡ []
        → s.sending ≡ []
        → s.ending ≡ 0
        → P 1 (record s { phase = ended })
