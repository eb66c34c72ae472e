-- ===== src/Checker/Probe/Results.antt =====
-- When `queryWithRetries` reports a domain blocked, and when not blocked.
use nawala_checker.Common.{
  length-map, List, [], ◌∷◌, subst, ℕ, zero, suc, ◌+◌, ◌≤◌, ◌≡◌, ◌⊎◌, inl, inr, refl, ap, ◌∙◌, sym,
  ◌↔◌, true, false, Option, none, some, Bytes, ok, length, arith, Option-cases, All, Any,
}
use nawala_checker.Common.Int.{ℤ, pos, negsuc, ◌≤ℤ◌, pos_part}
use nawala_checker.Strings.{Unicode}
use nawala_checker.Types.{Error, DnsServer, Result}
use nawala_checker.Network.{Network}
use nawala_checker.Checker.{Checker}
use nawala_checker.Checker.Probe.{
  Verdict, clean, judge, verdict_of, pause, probe, query_with_retries, rounds,
}
use nawala_checker.Checker.Probe.Sequence.{Seen, seen, summary, Verdict-cases, probes-summary}
use nawala_checker.Checker.Probe.Replies.{
  Clears, IsUndecided, Any-IsDetection, Any-Clears, All-IsUndecided,
}
use nawala_checker.Checker.Probe.Summaries.{
  Detects, IsRun, stopped-IsRun, IsDetection, IsOpen, first-IsDetection, IsOpen-first, summary_ok,
  no_probe, summary_blocked, summary_clean,
}

-- A result without an error is one of two.
summary_result :
    (u : Unicode) (domain : Bytes) (srv : DnsServer) (left : ℕ) (s : Seen) (r : Result)
    → IsRun u domain srv left s
    → 1 ≤ left
    → summary (verdict_of domain srv false) none none s ≡ ok r
    → (r ≡ verdict_of domain srv true) ⊎ (r ≡ verdict_of domain srv false)
summary_result u domain srv left s r v n h = elim (summary_ok u domain srv s r h) [
  | inl q ↦ inl (first-IsDetection u domain srv s.verdicts r v.judged q).1
  | inr (f, x, inl (_, e)) ↦ inr e
  | inr (f, x, inr (y, z, _)) ↦ absurd (
      omega (
        arith,
        v.started x n,
        ap length
            (no_probe u domain srv s.verdicts ((IsOpen-first u domain srv s.verdicts).0 f) y z),
      ))
]

cons_same :
    {A : Type 0} {x y : A} {xs ys : List A} → x ≡ y → xs ≡ ys → Path (List A) (x ∷ xs) (y ∷ ys)
cons_same h k = cc

rounds_lem : (n : ℤ) → pos 0 ≤ℤ n → rounds n ≡ pos_part n + 1
rounds_lem (pos n) h = omega arith
rounds_lem (negsuc n) h = absurd (omega arith)

module _ {W X : Type 0} (net : Network W) (u : Unicode) (domain : Bytes) (srv : DnsServer)
    (qtype : ℕ) where
  seen-IsRun :
      (left attempt : ℕ) (last : Option Error) (c : Checker X) (w : W)
      → IsRun u domain srv left (seen net u domain srv qtype left attempt last c w)
  unfolding seen
  seen-IsRun zero attempt last c w = record {
    replied = refl;
    judged = tt;
    ends = tt;
    bounded = omega arith;
    started = λ q h. absurd (omega arith);
  }
  seen-IsRun (suc left) attempt last c w = elim (Option-cases (pause net attempt last w).0) [
    | inr (e, q) ↦ rw (q, seen) (stopped-IsRun u domain srv (suc left) e)
    | inl q ↦
        let p = probe net c domain srv qtype (pause net attempt last w).1 in
        elim (Verdict-cases (judge u domain srv p.0)) [
          | inl (o, j) ↦
              rw (q, seen)
                (rw (j, seen)
                  (record {
                    replied = ap (λ v. v ∷ []) (sym j);
                    judged = ((p.0, sym j), tt);
                    ends = refl;
                    bounded = omega arith;
                    started = λ _ _. omega arith;
                  }))
          | inr (inl (e, j)) ↦
              let v = seen-IsRun left (suc attempt) (some e) p.1 p.2 in
              rw (q, seen)
                (rw (j, seen)
                  (record {
                    replied = cons_same (sym j) v.replied;
                    judged = ((p.0, sym j), v.judged);
                    ends = v.ends;
                    bounded = omega (arith, v.bounded);
                    started = λ _ _. omega arith;
                  }))
          | inr (inr j) ↦
              let v = seen-IsRun left (suc attempt) last p.1 p.2 in
              rw (q, seen)
                (rw (j, seen)
                  (record {
                    replied = cons_same (sym j) v.replied;
                    judged = ((p.0, sym j), v.judged);
                    ends = v.ends;
                    bounded = omega (arith, v.bounded);
                    started = λ _ _. omega arith;
                  }))
        ]
  ]

  abbrev pub run_of : Checker X → W → Seen
  run_of c w = seen net u domain srv qtype (rounds c.max_retries) 0 none c w

  query_with_retries-summary :
      (c : Checker X) (w : W)
      → (query_with_retries net u domain srv qtype c w).0
        ≡ summary (verdict_of domain srv false) none none (run_of c w)
  unfolding query_with_retries
  query_with_retries-summary c w =
      probes-summary net u domain srv qtype (rounds c.max_retries) 0 none none c w

  -- Where the number of retries is not negative: one call probes the server `maxRetries + 1` times at
  -- most. It reports the domain blocked exactly when the response to some probe of the run showed the
  -- keyword. It reports it not blocked exactly when the context did not end the run, the reply to each
  -- probe was a response without the keyword or an error that is not the server's own answer, and one
  -- at least was such a response.
  pub query_with_retries_verdict :
      (c : Checker X) (w : W)
      → pos 0 ≤ℤ c.max_retries
      → let s = run_of c w in
        let result = (query_with_retries net u domain srv qtype c w).0 in
        (length s.replies ≤ pos_part c.max_retries + 1)
        × ((result ≡ ok (verdict_of domain srv true)) ↔ Any (Detects u srv) s.replies)
        × ((result ≡ ok (verdict_of domain srv false)) ↔ (
            (s.stopped ≡ none) × All (IsUndecided u srv) s.replies × Any (Clears u srv) s.replies))
  query_with_retries_verdict c w h =
      let v = seen-IsRun (rounds c.max_retries) 0 none c w in
      let many = rounds_lem c.max_retries h in
      let rs = (run_of c w).replies in
      let blocked = summary_blocked u domain srv _ _ v in
      let unblocked = summary_clean u domain srv _ _ v (omega (arith, many)) in
      let shown = Any-IsDetection u domain srv rs in
      let open_ones = All-IsUndecided u domain srv rs in
      let cleared = Any-Clears u domain srv rs in
      rw (query_with_retries-summary c w) (
        omega (arith, v.bounded, many, ap length v.replied, length-map (judge u domain srv) rs),
        (
          λ q. shown.0 (subst (Any (IsDetection u domain srv)) v.replied (blocked.0 q)),
          λ a. blocked.1 (subst (Any (IsDetection u domain srv)) (sym v.replied) (shown.1 a)),
        ),
        (
          λ q.
              let (x, o, a) = unblocked.0 q in
              (
                x,
                open_ones.0 (subst (All (IsOpen u domain srv)) v.replied o),
                cleared.0 (subst (Any (λ (z : Verdict). z ≡ clean)) v.replied a),
              ),
          λ (x, o, a). unblocked.1 (
            x,
            subst (All (IsOpen u domain srv)) (sym v.replied) (open_ones.1 o),
            subst (Any (λ (z : Verdict). z ≡ clean)) (sym v.replied) (cleared.1 a),
          ),
        ),
      )

  pub query_with_retries_result :
      (c : Checker X) (w : W) (r : Result)
      → pos 0 ≤ℤ c.max_retries
      → (query_with_retries net u domain srv qtype c w).0 ≡ ok r
      → (r ≡ verdict_of domain srv true) ⊎ (r ≡ verdict_of domain srv false)
  query_with_retries_result c w r h e =
      summary_result u domain srv (rounds c.max_retries) (run_of c w) r
        (seen-IsRun (rounds c.max_retries) 0 none c w) (omega (arith, rounds_lem c.max_retries h))
        (sym (query_with_retries-summary c w) ∙ e)
