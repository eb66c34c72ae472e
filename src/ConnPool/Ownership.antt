-- ===== src/ConnPool/Ownership.antt =====
-- Which connections are open and where they stand, behind each operation of the pool.
use nawala_checker.Common.{
  ℕ, ◌≤◌, ◌≡◌, refl, some, List, [], ◌∷◌, ltb, length, length-append, Outcome, ok, err, arith, inl,
  inr, Bool, not, ◌&&◌, ◌==◌, Bool-cases, ap, sym, subst,
}
use nawala_checker.Network.{Network, Question, Tracks}
use nawala_checker.Types.{NetError, is_conn_error}
use nawala_checker.ConnPool.{
  ConnPool, Reply, get_from, get, put, settle, redialled, answered, redial, exchange_over, exchange,
  drain, close,
}
use nawala_checker.ConnPool.Owned.{
  has, has-append, holding, AllOpen, AllOpen-same, AllOpen-last, closed-AllOpen, Owns, Owns-refl,
  Owns-trans, Stays, Stays-trans, Stays-refl,
}

module _ {W : Type 0} (net : Network W) (is_open : W → ℕ → Bool) (tracks : Tracks net is_open) where
  -- From the pool `p` and the connections `cs` that stand for it and the call, to the pool `p'`.
  abbrev Safe : List ℕ → ConnPool → ConnPool → W → W → Type 0
  Safe cs p p' w w' = Owns is_open cs p'.idle w w' × Stays p p'

  dial-Owns :
      (cs : List ℕ) (p : ConnPool) (w : W) (d : Outcome NetError ℕ) (w' : W)
      → net.dial p.client p.addr w ≡ (d, w')
      → Owns is_open cs (holding d cs) w w'
  dial-Owns cs p w (err e) w' h =
      let same = tracks.dial_err p.client p.addr w w' e h in
      record {
        others = λ n. ground (arith, same n);
        owned = AllOpen-same is_open w w' cs (λ n q. same n);
      }
  dial-Owns cs p w (ok c) w' h =
      let (fresh, opens) = tracks.dial_ok p.client p.addr w w' c h in
      record {
        others = λ n. elim (Bool-cases (n == c)) [
          | inl e ↦
              let same : n ≡ c = ground (arith, e) in ground (arith, e, fresh, ap (is_open w) same)
          | inr e ↦ ground (arith, e, opens n)
        ];
        owned = λ v. (
          ground (arith, opens c),
          closed-AllOpen is_open w c cs fresh v,
          AllOpen-same is_open w w' cs
              (λ n q. elim (Bool-cases (n == c)) [
                | inl e ↦
                    let same : n ≡ c = ground (arith, e) in
                    absurd (
                      ground
                        (arith, q, closed-AllOpen is_open w c cs fresh v, ap (λ x. has x cs) same))
                | inr e ↦ ground (arith, e, opens n)
              ])
              v,
        );
      }

  exchange_conn-Owns :
      (cs : List ℕ) (p : ConnPool) (msg : Question) (c : ℕ) (w : W)
      → Owns is_open cs cs w (net.exchange_conn p.client msg c w).1
  exchange_conn-Owns cs p msg c w =
      let same = tracks.exchange_same p.client msg c w in
      record {
        others = λ n. ground (arith, same n);
        owned = AllOpen-same is_open w _ cs (λ n q. same n);
      }

  close-Owns : (c : ℕ) (cs : List ℕ) (w : W) → Owns is_open (c ∷ cs) cs w (net.close_conn c w)
  close-Owns c cs w = record {
    others = λ n. ground (arith, tracks.close_ends c w n);
    owned = λ (o, once, v).
        AllOpen-same is_open w _ cs
          (λ n q. elim (Bool-cases (n == c)) [
            | inl e ↦
                let same : n ≡ c = ground (arith, e) in
                absurd (ground (arith, q, once, ap (λ x. has x cs) same))
            | inr e ↦ ground (arith, e, tracks.close_ends c w n)
          ])
          v;
  }

  put-Safe :
      (c : ℕ) (p : ConnPool) (w : W)
      → let (p', w') = put net (some c) p w in Safe (c ∷ p.idle) p p' w w'
  unfolding put
  put-Safe c p w = elim (Bool-cases (ltb (length p.idle) p.capacity)) [
    | inl e ↦
        rw (e, put)
          (
            record {
              others = λ n. ground (arith, has-append n p.idle (c ∷ []));
              owned = λ (o, once, v). AllOpen-last is_open w c p.idle o once v;
            },
            record {
              within = λ h. ground (arith, e, length-append p.idle (c ∷ []));
              same_capacity = refl;
              same_addr = refl;
              same_client = refl;
            },
          )
    | inr e ↦ rw (e, put) (close-Owns c p.idle w, Stays-refl p)
  ]

  settle-Safe :
      (c : ℕ) (p : ConnPool) (r : Reply) (w : W)
      → let (r', p', w') = settle net c p r w in Safe (c ∷ p.idle) p p' w w'
  unfolding settle
  settle-Safe c p (err e) w = (close-Owns c p.idle w, Stays-refl p)
  settle-Safe c p (ok r) w = put-Safe c p w

  redialled-Safe :
      (e : NetError) (msg : Question) (p : ConnPool) (d : Outcome NetError ℕ) (w : W)
      → let (r', p', w') = redialled net e msg p d w in Safe (holding d p.idle) p p' w w'
  unfolding redialled
  redialled-Safe e msg p (err d) w = (Owns-refl is_open p.idle w, Stays-refl p)
  redialled-Safe e msg p (ok c) w =
      let (owns, stays) = settle-Safe c p _ _ in
      (Owns-trans is_open (exchange_conn-Owns (c ∷ p.idle) p msg c w) owns, stays)

  redial-Safe :
      (e : NetError) (msg : Question) (p : ConnPool) (w : W)
      → let (r', p', w') = redial net e msg p w in Safe p.idle p p' w w'
  unfolding redial
  redial-Safe e msg p w =
      let (owns, stays) = redialled-Safe e msg p _ _ in
      (Owns-trans is_open (dial-Owns p.idle p w _ _ refl) owns, stays)

  answered-Safe :
      (msg : Question) (c : ℕ) (p : ConnPool) (r : Reply) (w : W)
      → let (r', p', w') = answered net msg c p r w in Safe (c ∷ p.idle) p p' w w'
  unfolding answered
  answered-Safe msg c p (ok r) w = put-Safe c p w
  answered-Safe msg c p (err e) w =
      let closed = close-Owns c p.idle w in
      elim (Bool-cases (is_conn_error (some e))) [
        | inl q ↦
            let (owns, stays) = redial-Safe e msg p (net.close_conn c w) in
            rw (q, answered) (Owns-trans is_open closed owns, stays)
        | inr q ↦ rw (q, answered) (closed, Stays-refl p)
      ]

  exchange_over-Safe :
      (msg : Question) (p : ConnPool) (d : Outcome NetError ℕ) (w : W)
      → let (r', p', w') = exchange_over net msg p d w in Safe (holding d p.idle) p p' w w'
  unfolding exchange_over
  exchange_over-Safe msg p (err e) w = (Owns-refl is_open p.idle w, Stays-refl p)
  exchange_over-Safe msg p (ok c) w =
      let (owns, stays) = answered-Safe msg c p _ _ in
      (Owns-trans is_open (exchange_conn-Owns (c ∷ p.idle) p msg c w) owns, stays)

  get_from-Safe :
      (p : ConnPool) (cs : List ℕ) (w : W)
      → p.idle ≡ cs
      → let (r, p', w') = get_from net p cs w in
        Owns is_open p.idle (holding r p'.idle) w w' × Stays p p'
  unfolding get_from
  get_from-Safe p [] w e = (dial-Owns p.idle p w _ _ refl, Stays-refl p)
  get_from-Safe p (c ∷ cs) w e = (
    subst (λ xs. Owns is_open xs (c ∷ cs) w w) (sym e) (Owns-refl is_open (c ∷ cs) w),
    record {
      within = λ h. omega (arith, ap length e);
      same_capacity = refl;
      same_addr = refl;
      same_client = refl;
    },
  )

  exchange-Safe :
      (msg : Question) (p : ConnPool) (w : W)
      → let (r', p', w') = exchange net msg p w in Safe p.idle p p' w w'
  unfolding exchange get
  exchange-Safe msg p w =
      let (got, before) = get_from-Safe p p.idle w refl in
      let (owns, after) = exchange_over-Safe msg _ _ _ in
      (Owns-trans is_open got owns, Stays-trans before after)

  -- One exchange over the pool, whatever the network answers at each step, where each idle connection
  -- is open and stands once, and the pool is within its capacity. Of the connections that are not in
  -- the pool, just those are open behind it that were open and not in the pool before: none is lost
  -- and none of another owner ends. Each idle connection is open and stands once again, the pool is
  -- within its capacity, and it keeps its server, client and capacity.
  pub exchange_keeps_connections :
      (msg : Question) (p : ConnPool) (w : W)
      → AllOpen is_open w p.idle
      → length p.idle ≤ p.capacity
      → let (r, p', w') = exchange net msg p w in
        ((n : ℕ) → (is_open w' n && not (has n p'.idle)) ≡ (is_open w n && not (has n p.idle)))
        × AllOpen is_open w' p'.idle
        × (length p'.idle ≤ p'.capacity)
        × (p'.capacity ≡ p.capacity)
        × (p'.addr ≡ p.addr)
        × (p'.client ≡ p.client)
  exchange_keeps_connections msg p w h k =
      let (owns, stays) = exchange-Safe msg p w in
      (
        owns.others,
        owns.owned h,
        stays.within k,
        stays.same_capacity,
        stays.same_addr,
        stays.same_client,
      )

  drain_open :
      (cs : List ℕ) (w : W) (n : ℕ) → is_open (drain net cs w) n ≡ (is_open w n && not (has n cs))
  unfolding drain
  drain_open [] w n = ground arith
  drain_open (c ∷ cs) w n =
      ground (arith, tracks.close_ends c w n, drain_open cs (net.close_conn c w) n)

  -- `close` empties the pool, and behind it a connection is open exactly if it was open and not idle in
  -- the pool; a second `close` does nothing.
  pub close_lem :
      (p : ConnPool) (w : W)
      → let (p', w') = close net p w in
        (p'.idle ≡ [])
        × ((n : ℕ) → is_open w' n ≡ (is_open w n && not (has n p.idle)))
        × (close net p' w' ≡ (p', w'))
  unfolding close drain
  close_lem p w = (refl, drain_open p.idle w, refl)
