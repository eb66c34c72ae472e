-- ===== src/Checker/Stream/Accounts.antt =====
-- Where each domain of a stream is, and that each event keeps the account.
use nawala_checker.Common.{
  ℕ, zero, suc, ◌+◌, ◌≡◌, refl, ap, subst, ◌⊎◌, inl, inr, some, List, [], ◌∷◌, ◌++◌, get_elem?, All,
  All-append, arith,
}
use nawala_checker.Checker.Batch.{Task, remove_at}
use nawala_checker.Checker.Batch.Slots.{All-get_elem?, All-remove_at}
use nawala_checker.Checker.Stream.{
  StreamPhase, receiving, looking, entering, joining, ended, Outgoing, Flow,
}
use nawala_checker.Checker.Stream.Cases.{HasDomain, IsReply, IsDone, Cases}

-- The weights of a list's elements, added.
abbrev pub sum : {A : Type 0} → (A → ℕ) → List A → ℕ
sum f [] = 0
sum f (a ∷ as_) = f a + sum f as_

sum-append : {A : Type 0} (f : A → ℕ) (xs ys : List A) → sum f (xs ++ ys) ≡ sum f xs + sum f ys
sum-append f [] ys = omega arith
sum-append f (x ∷ xs) ys = omega (arith, sum-append f xs ys)

sum-remove_at :
    {A : Type 0} (f : A → ℕ) (xs : List A) (j : ℕ) (x : A)
    → get_elem? xs j ≡ some x
    → sum f xs ≡ f x + sum f (remove_at xs j)
unfolding remove_at
sum-remove_at f [] j x h = absurd cc
sum-remove_at f (y ∷ xs) zero x h = let e : y ≡ x = cc in omega (arith, ap f e)
sum-remove_at f (y ∷ xs) (suc j) x h = omega (arith, sum-remove_at f xs j x h)

-- A domain that the function has, and no goroutine yet.
abbrev pub in_hand : {A : Type 0} → (A → ℕ) → StreamPhase A → ℕ
in_hand f (looking a) = f a
in_hand f (entering a) = f a
in_hand f _ = 0

in_hand-HasDomain :
    {A : Type 0} (f : A → ℕ) (p : StreamPhase A) (a : A) → HasDomain p a → in_hand f p ≡ f a
in_hand-HasDomain f p a (inl h) = ap (in_hand f) h
in_hand-HasDomain f p a (inr h) = ap (in_hand f) h

abbrev pub author : {A B : Type 0} → (A → ℕ) → Outgoing A B → ℕ
author f r = f r.by

module _ {A B W : Type 0} (task : Task A B W) where
  -- Nothing is given up: neither a domain that was received, nor those still to come.
  abbrev pub Complete : StreamPhase A → List A → List A → Type 0
  Complete joining incoming lost = (incoming ≡ []) × (lost ≡ [])
  Complete ended incoming lost = (incoming ≡ []) × (lost ≡ [])
  Complete _ incoming lost = lost ≡ []

  pub loses_nothing : (p : StreamPhase A) (i l : List A) → Complete p i l → l ≡ []
  loses_nothing receiving i l c = c
  loses_nothing (looking a) i l c = c
  loses_nothing (entering a) i l c = c
  loses_nothing joining i l c = c.1
  loses_nothing ended i l c = c.1

  module _ (f : A → ℕ) where
    abbrev pub accounted : Flow A B W → ℕ
    accounted s =
        in_hand f s.phase
        + sum f s.running
        + sum (author f) s.sending
        + sum (author f) s.out
        + sum f s.lost
        + sum f s.incoming

    -- From one state to the next each domain keeps its one place.
    pub record Keeps (s : Flow A B W) (k : ℕ) (t : Flow A B W) : Type 0 where
      pub same : accounted t ≡ accounted s
      pub replies : All (IsReply task) t.sending × All (IsReply task) t.out
      pub complete :
          Complete s.phase s.incoming s.lost
          → Complete t.phase t.incoming t.lost ⊎ IsDone task s.world

    pub keep_cases :
        (s : Flow A B W)
        → All (IsReply task) s.sending
        → All (IsReply task) s.out
        → Cases task s (Keeps s)
    keep_cases s hs ho = record {
      on_elsewhere = λ w. record { same = refl; replies = (hs, ho); complete = λ c. inl c };
      on_receive = λ a as_ p i. record {
        same = rw (p, i) (omega arith);
        replies = (hs, ho);
        complete = λ c. inl (loses_nothing s.phase _ _ c);
      };
      on_close = λ p i. record {
        same = rw p (omega arith);
        replies = (hs, ho);
        complete = λ c. inl (i, loses_nothing s.phase _ _ c);
      };
      on_done =
          λ p d. record { same = rw p (omega arith); replies = (hs, ho); complete = λ c. inr d };
      on_look = λ a p. record {
        same = rw p (omega arith);
        replies = (hs, ho);
        complete = λ c. inl (loses_nothing s.phase _ _ c);
      };
      on_break = λ a p d. record {
        same = omega (arith, in_hand-HasDomain f s.phase a p, sum-append f s.lost (a ∷ []));
        replies = (hs, ho);
        complete = λ c. inr d;
      };
      on_enter = λ a p lt. record {
        same = rw p (omega (arith, sum-append f s.running (a ∷ [])));
        replies = (hs, ho);
        complete = λ c. inl (loses_nothing s.phase _ _ c);
      };
      on_answer = λ j r w g i. record {
        same =
            omega
              (arith, sum-remove_at f s.running j r.by g, sum-append (author f) s.sending (r ∷ []));
        replies = (All-append (IsReply task) s.sending (r ∷ []) hs (i, tt), ho);
        complete = λ c. inl c;
      };
      on_send = λ j r g. record {
        same =
            omega (
              arith,
              sum-remove_at (author f) s.sending j r g,
              sum-append (author f) s.out (r ∷ []),
            );
        replies = (
          All-remove_at (IsReply task) s.sending j hs,
          All-append (IsReply task) s.out (r ∷ []) ho
              (All-get_elem? (IsReply task) s.sending j r hs g, tt),
        );
        complete = λ c. inl c;
      };
      on_drop = λ j r g d. record {
        same =
            omega
              (arith, sum-remove_at (author f) s.sending j r g, sum-append f s.lost (r.by ∷ []));
        replies = (All-remove_at (IsReply task) s.sending j hs, ho);
        complete = λ c. inr d;
      };
      on_release = λ n e. record { same = refl; replies = (hs, ho); complete = λ c. inl c };
      on_return = λ p ha hr hn. record {
        same = rw p (omega arith);
        replies = (hs, ho);
        complete = λ c. inl (subst (λ x. Complete x s.incoming s.lost) p c);
      };
    }
