-- ===== src/ConnPool/Retry.antt =====
-- Where the result of an exchange over the pool comes from, and what the pool has behind it.
use nawala_checker.Common.{
  ℕ, ◌≡◌, refl, ap, ◌∙◌, sym, subst, ◌⊎◌, inl, inr, true, false, some, List, [], ◌∷◌, ◌++◌, Outcome,
  ok, err, ltb, length, drop, if◌then◌else◌, Bool-cases,
}
use nawala_checker.Network.{Network, Question}
use nawala_checker.Types.{NetError, is_conn_error}
use nawala_checker.ConnPool.{
  ConnPool, Reply, get_from, get, put, settle, redialled, answered, redial, exchange_over, exchange,
}

module _ {W : Type 0} (net : Network W) (msg : Question) where
  -- The exchange over a connection in a state gives the reply and leaves the state.
  abbrev pub Replies : ConnPool → ℕ → W → Reply → W → Type 0
  Replies p c v r v' = net.exchange_conn p.client msg c v ≡ (r, v')

  -- The connection of the first try, with the state in which it is used: the oldest idle one, or a new
  -- one if there is none.
  abbrev pub IsFirst : ConnPool → W → ℕ → W → Type 0
  IsFirst p w c v =
      ((cs : List ℕ) × (p.idle ≡ c ∷ cs) × (w ≡ v))
      ⊎ ((p.idle ≡ []) × (net.dial p.client p.addr w ≡ (ok c, v)))

  -- The connection of the second try: the first ended in an error of the connection, it was closed, and
  -- a new one was dialled.
  abbrev pub IsSecond : ConnPool → W → ℕ → W → Type 0
  IsSecond p w c v =
      (c1 : ℕ) × (e1 : NetError) × (u : W) × (u' : W) × IsFirst p w c1 u
      × Replies p c1 u (err e1) u'
      × (is_conn_error (some e1) ≡ true)
      × (net.dial p.client p.addr (net.close_conn c1 u') ≡ (ok c, v))

  -- There is no second try after this error of the first: it is none of the connection, or the new dial
  -- failed.
  abbrev pub IsLast : ConnPool → ℕ → NetError → W → Type 0
  IsLast p c e v' =
      (is_conn_error (some e) ≡ false)
      ⊎ ((d : NetError) × (v'' : W) × (net.dial p.client p.addr (net.close_conn c v')
            ≡ (err d, v'')))

  -- The connections left to the pool once its oldest is taken, and the same with one put back.
  abbrev pub rest : ConnPool → List ℕ
  rest p = drop 1 p.idle

  abbrev pub with_back : ConnPool → ℕ → List ℕ
  with_back p c = if ltb (length (rest p)) p.capacity then rest p ++ c ∷ [] else rest p

  abbrev pub Source : ConnPool → W → Reply → ConnPool → Type 0
  Source p w (ok r) p' =
      (c : ℕ) × (v : W) × (v' : W) × (IsFirst p w c v ⊎ IsSecond p w c v)
      × Replies p c v (ok r) v'
      × (p'.idle ≡ with_back p c)
  Source p w (err e) p' =
      (p'.idle ≡ rest p)
      × (((p.idle ≡ []) × ((v : W) × (net.dial p.client p.addr w ≡ (err e, v))))
          ⊎ ((c : ℕ) × (v : W) × (v' : W) × Replies p c v (err e) v'
              × ((IsFirst p w c v × IsLast p c e v') ⊎ IsSecond p w c v)))

  module _ (p : ConnPool) (w : W) where
    -- The pool behind `get`.
    abbrev behind : ConnPool
    behind = record p { idle = rest p }

    put_back : (c : ℕ) (v : W) → (put net (some c) behind v).0.idle ≡ with_back p c
    unfolding put
    put_back c v = elim (Bool-cases (ltb (length (rest p)) p.capacity)) [
      | inl e ↦ rw (e, put)
      | inr e ↦ rw (e, put)
    ]

    settle-Source :
        (c : ℕ) (v : W) (r : Reply) (v' : W)
        → IsSecond p w c v
        → Replies p c v r v'
        → let (r', p', w') = settle net c behind r v' in Source p w r' p'
    unfolding settle
    settle-Source c v (ok r) v' s h = (c, v, v', inr s, h, put_back c v')
    settle-Source c v (err e) v' s h = (refl, inr (c, v, v', h, inr s))

    redial-Source :
        (c : ℕ) (v : W) (e : NetError) (v' : W)
        → IsFirst p w c v
        → Replies p c v (err e) v'
        → is_conn_error (some e) ≡ true
        → let (r', p', w') = redial net e msg behind (net.close_conn c v') in Source p w r' p'
    unfolding redial redialled
    redial-Source c v e v' f h stale =
        by_dial (net.dial p.client p.addr (net.close_conn c v')).0 _ refl
      where
        by_dial :
            (d : Outcome NetError ℕ) (u : W)
            → net.dial p.client p.addr (net.close_conn c v') ≡ (d, u)
            → let (r', p', w') = redialled net e msg behind d u in Source p w r' p'
        by_dial (err d) u q = (refl, inr (c, v, v', h, inl (f, inr (d, u, q))))
        by_dial (ok c2) u q = settle-Source c2 u _ _ (c, e, v, v', f, h, stale, q) refl

    answered-Source :
        (c : ℕ) (v : W) (r : Reply) (v' : W)
        → IsFirst p w c v
        → Replies p c v r v'
        → let (r', p', w') = answered net msg c behind r v' in Source p w r' p'
    unfolding answered
    answered-Source c v (ok r) v' f h = (c, v, v', inl f, h, put_back c v')
    answered-Source c v (err e) v' f h = elim (Bool-cases (is_conn_error (some e))) [
      | inl q ↦ rw (q, answered) (redial-Source c v e v' f h q)
      | inr q ↦ rw (q, answered) (refl, inr (c, v, v', h, inl (f, inl q)))
    ]

    over-Source :
        (c : ℕ) (v : W)
        → IsFirst p w c v
        → let (r', p', w') = exchange_over net msg behind (ok c) v in Source p w r' p'
    unfolding exchange_over
    over-Source c v f = answered-Source c v _ _ f refl

    unpooled :
        p.idle ≡ []
        → let (r', p', w') =
            exchange_over net msg behind
              (net.dial p.client p.addr w).0
              (net.dial p.client p.addr w).1 in
          Source p w r' p'
    unfolding exchange_over
    unpooled e = by_dial (net.dial p.client p.addr w).0 _ refl
      where
        by_dial :
            (d : Outcome NetError ℕ) (u : W)
            → net.dial p.client p.addr w ≡ (d, u)
            → let (r', p', w') = exchange_over net msg behind d u in Source p w r' p'
        by_dial (err d) u q = (refl, inl (e, (u, q)))
        by_dial (ok c) u q = over-Source c u (inr (e, q))

  -- An exchange over the pool, whatever the network answers at each step. A response came over the
  -- oldest idle connection, or over a new one if there was none; or the exchange over that ended in an
  -- error of the connection, it was closed, and the response came over a second connection, dialled
  -- then. The connection that brought it is put back behind the others if the pool has room, and no
  -- other is. An error is that of the only dial if no connection was idle, or of the second try, or of
  -- the first if it was none of the connection or the new dial failed; then no connection is put back.
  -- There is no third try.
  pub exchange-Source :
      (p : ConnPool) (w : W) → let (r, p', w') = exchange net msg p w in Source p w r p'
  unfolding exchange get get_from
  exchange-Source p w = by_idle p.idle refl
    where
      by_idle :
          (cs : List ℕ)
          → p.idle ≡ cs
          → let (got, q, v) = get_from net p cs w in
            let (r, p', w') = exchange_over net msg q got v in Source p w r p'
      by_idle [] e =
          let same : behind p w ≡ p =
            ap (λ xs. record p { idle = drop 1 xs }) e
            ∙ ap (λ xs. record p { idle = xs }) (sym e) in
          subst
            (λ (q : ConnPool).
              let (r, p', w') =
                exchange_over net msg q (net.dial p.client p.addr w).0
                  (net.dial p.client p.addr w).1 in
              Source p w r p')
            same (unpooled p w e)
      by_idle (c ∷ cs) e =
          let same : behind p w ≡ record p { idle = cs } =
            ap (λ xs. record p { idle = drop 1 xs }) e in
          subst
            (λ (q : ConnPool).
              let (r, p', w') = exchange_over net msg q (ok c) w in Source p w r p')
            same (over-Source p w c w (inl (cs, e, refl)))

-- With no idle connection, a failing dial is the result and the pool stays as it is.
pub exchange_empty :
    {W : Type 0} (net : Network W) (msg : Question) (p : ConnPool) (w w' : W) (e : NetError)
    → p.idle ≡ []
    → net.dial p.client p.addr w ≡ (err e, w')
    → exchange net msg p w ≡ (err e, p, w')
unfolding exchange get get_from exchange_over
exchange_empty {W} net msg p w w' e i d =
    ap (λ cs. let (g, p', v) = get_from net p cs w in exchange_over net msg p' g v) i
    ∙ ap (λ (x : Outcome NetError ℕ × W). exchange_over net msg p x.0 x.1) d
