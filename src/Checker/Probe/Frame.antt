-- ===== src/Checker/Probe/Frame.antt =====
-- `queryWithRetries` changes the connection pools of the checker and nothing else.
use nawala_checker.Common.{
  ℕ, zero, suc, ◌≡◌, inl, inr, refl, ap, ◌∙◌, false, Option, none, some, Bytes, Option-cases,
}
use nawala_checker.Strings.{Unicode}
use nawala_checker.Types.{Error, DnsServer, Result}
use nawala_checker.Network.{Network}
use nawala_checker.Checker.{Checker}
use nawala_checker.Checker.Probe.{
  judge, keep_best, verdict_of, pause, probe, probes, query_with_retries, rounds,
}
use nawala_checker.Checker.Probe.Sequence.{Verdict-cases}

-- The same checker but for its pools.
abbrev pub SameBut : {X : Type 0} → Checker X → Checker X → Type 0
SameBut c d = record d { conn_pools = c.conn_pools } ≡ c

module _ {W X : Type 0} (net : Network W) (u : Unicode) (domain : Bytes) (srv : DnsServer)
    (qtype : ℕ) where
  probe-SameBut : (c : Checker X) (w : W) → SameBut c (probe net c domain srv qtype w).1
  unfolding probe
  probe-SameBut c w = refl

  trans : (c d e : Checker X) → SameBut c d → SameBut d e → SameBut c e
  trans c d e p q = ap (λ (x : Checker X). record x { conn_pools = c.conn_pools }) q ∙ p

  probes-SameBut :
      (left attempt : ℕ) (last : Option Error) (best : Option Result) (c : Checker X) (w : W)
      → SameBut c (probes net u domain srv qtype left attempt last best c w).1
  unfolding probes
  probes-SameBut zero attempt last best c w = refl
  probes-SameBut (suc left) attempt last best c w =
      elim (Option-cases (pause net attempt last w).0) [
        | inr (e, q) ↦ rw (q, probes)
        | inl q ↦
            let w1 = (pause net attempt last w).1 in
            let p = probe net c domain srv qtype w1 in
            let same = probe-SameBut c w1 in
            elim (Verdict-cases (judge u domain srv p.0)) [
              | inl (o, j) ↦ rw (q, probes) (rw (j, probes) same)
              | inr (inl (e, j)) ↦
                  rw (q, probes)
                    (rw (j, probes)
                      (trans c p.1
                        (probes net u domain srv qtype left (suc attempt) (some e) best p.1 p.2).1
                        same (probes-SameBut left (suc attempt) (some e) best p.1 p.2)))
              | inr (inr j) ↦
                  rw (q, probes)
                    (rw (j, probes)
                      (let b = keep_best best (verdict_of domain srv false) in
                        trans c p.1
                          (probes net u domain srv qtype left (suc attempt) last b p.1 p.2).1 same
                          (probes-SameBut left (suc attempt) last b p.1 p.2)))
            ]
      ]

  pub query_with_retries-SameBut :
      (c : Checker X) (w : W) → SameBut c (query_with_retries net u domain srv qtype c w).1
  unfolding query_with_retries
  query_with_retries-SameBut c w = probes-SameBut (rounds c.max_retries) 0 none none c w
