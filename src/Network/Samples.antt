-- ===== src/Network/Samples.antt =====
-- Networks for the tests. The state is the number of connections that are open.
use nawala_checker.Common.{
  ℕ, zero, suc, ◌+◌, ◌-◌, ◌≡◌, refl, ap, sym, subst, arith, Bool, true, false, not, ◌&&◌, ◌||◌,
  ◌==◌, ltb, Option, none, some, List, [], ◌∷◌, Bytes, codes, Outcome, ok, err,
}
use nawala_checker.Common.Int.{pos}
use nawala_checker.Strings.HostPort.{split_host_port}
use nawala_checker.Types.{NetError}
use nawala_checker.Network.{Network, Client, Question, Response, Tracks}

abbrev pub response : ℕ → List Bytes → Response
response rcode answer = record { rcode = rcode; answer = answer; ns = []; extra = [] }

abbrev pub broken : NetError
broken = record {
  is_timeout = false;
  conn_empty = false;
  eof = true;
  unexpected_eof = false;
  op_text = none;
  text = codes "EOF";
}

abbrev pub timed_out : NetError
timed_out = record broken { is_timeout = true; eof = false; text = codes "i/o timeout" }

-- Connection 1 is broken; every other exchange brings the reply. Only an address with a port can be
-- dialled.
abbrev pub network : Outcome NetError (Option Response) → Network ℕ
network reply = record {
  fqdn = λ d. d;
  ctx_err = λ w. none;
  now = λ w. pos w;
  wait = λ d w. (none, w);
  dial = λ c a w. elim (split_host_port a) [
    | none ↦ (err timed_out, w)
    | some x ↦ (ok (w + 2), w + 1)
  ];
  exchange_conn = λ c q n w. elim n [ suc zero ↦ (err broken, w) | _ ↦ (reply, w) ];
  exchange = λ c q a w. (reply, w);
  close_conn = λ n w. w - 1;
}

abbrev pub blocking : Network ℕ
blocking = network (ok (some (response 0 (codes "x. 60 IN CNAME InternetPositif.id." ∷ []))))

abbrev pub clear : Network ℕ
clear = network (ok (some (response 0 (codes "x. 60 IN A 192.0.2.1" ∷ []))))

abbrev pub missing : Network ℕ
missing = network (ok (some (response 3 [])))

-- Which connections are open, and the number of the next one.
pub record Sockets : Type 0 where
  pub open_ones : ℕ → Bool
  pub next : ℕ

-- Below the next number there is a connection, open or closed.
abbrev pub is_open : Sockets → ℕ → Bool
is_open w n = ltb n w.next && w.open_ones n

-- The network `blocking` with connections of its own.
abbrev pub sockets : Network Sockets
sockets = record {
  fqdn = λ d. d;
  ctx_err = λ w. none;
  now = λ w. pos 0;
  wait = λ d w. (none, w);
  dial = λ c a w. elim (split_host_port a) [
    | none ↦ (err timed_out, w)
    | some x ↦
        (ok w.next, record { open_ones = λ m. m == w.next || w.open_ones m; next = suc w.next })
  ];
  exchange_conn = λ c q n w. elim n [
    | suc zero ↦ (err broken, w)
    | _ ↦ (ok (some (response 0 (codes "x. 60 IN CNAME InternetPositif.id." ∷ []))), w)
  ];
  exchange = λ c q a w. (err timed_out, w);
  close_conn = λ n w. record w { open_ones = λ m. w.open_ones m && not (m == n) };
}

abbrev dialled : Option (Bytes × Bytes) → Sockets → Outcome NetError ℕ × Sockets
dialled o w = elim o [
  | none ↦ (err timed_out, w)
  | some x ↦
      (ok w.next, record { open_ones = λ m. m == w.next || w.open_ones m; next = suc w.next })
]

dialled_ok :
    (o : Option (Bytes × Bytes)) (w w' : Sockets) (n : ℕ)
    → dialled o w ≡ (ok n, w')
    → (is_open w n ≡ false) × ((m : ℕ) → is_open w' m ≡ (m == n || is_open w m))
dialled_ok none w w' n h = absurd cc
dialled_ok (some x) w w' n h =
    let same : w.next ≡ n = cc in
    let after : record { open_ones = λ m. m == w.next || w.open_ones m; next = suc w.next } ≡ w' =
      cc in
    (
      ground (arith, same),
      λ m.
          subst (λ (v : Sockets). is_open v m ≡ (m == n || is_open w m)) after
            (ground (arith, same)),
    )

dialled_err :
    (o : Option (Bytes × Bytes)) (w w' : Sockets) (e : NetError)
    → dialled o w ≡ (err e, w')
    → w ≡ w'
dialled_err none w w' e h = cc
dialled_err (some x) w w' e h = absurd cc

exchange_sockets :
    (c : Option Client) (q : Question) (n : ℕ) (w : Sockets) → (sockets.exchange_conn c q n w).1 ≡ w
exchange_sockets c q zero w = refl
exchange_sockets c q (suc zero) w = refl
exchange_sockets c q (suc (suc n)) w = refl

pub sockets-Tracks : Tracks sockets is_open
sockets-Tracks = record {
  dial_ok = λ c a w w' n. dialled_ok (split_host_port a) w w' n;
  dial_err = λ c a w w' e h m.
      ap (λ (v : Sockets). is_open v m) (sym (dialled_err (split_host_port a) w w' e h));
  exchange_same = λ c q n w m. ap (λ (v : Sockets). is_open v m) (exchange_sockets c q n w);
  close_ends = λ n w m. ground arith;
}
