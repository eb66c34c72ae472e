-- ===== src/Dns/Query.antt =====
-- What the errors of a query say of the server's answer, and the health check.
use nawala_checker.Common.{
  ◌≡◌, ◌⊎◌, refl, ap, ◌∙◌, ◌↔◌, true, false, [], arith, Bytes, codes, Option, none, some, Outcome,
  ok, err,
}
use nawala_checker.Common.Int.{ℤ}
use nawala_checker.Strings.HostPort.{split_host_port}
use nawala_checker.Network.{Network, Client, Response}
use nawala_checker.Types.{CtxError, NetError, Error, is_definitive, deadline_exceeded, canceled}
use nawala_checker.ConnPool.{ConnPool}
use nawala_checker.ConnPool
use nawala_checker.ConnPool.Retry.{exchange_empty}
use nawala_checker.Dns.Address.{Documented, server_address-Documented}
use nawala_checker.Dns.{
  default_port, DnsQuery, classify, transport, conclude, query_dns, question, health,
  check_dns_health,
}

-- The answer of the server, by the code: FORMERR, NXDOMAIN, NOTIMP or REFUSED.
abbrev pub IsDefinite : Response → Type 0
IsDefinite r = (r.rcode ≡ 1) ⊎ (r.rcode ≡ 3) ⊎ (r.rcode ≡ 4) ⊎ (r.rcode ≡ 5)

-- What came back says that the server itself refused the question.
abbrev pub Refused : ConnPool.Reply → Type 0
Refused (err e) = ⊥
Refused (ok none) = ⊥
Refused (ok (some r)) = IsDefinite r

abbrev pub IsDefinitiveErr : Outcome Error (Option Response) → Type 0
IsDefinitiveErr (err e) = is_definitive e ≡ true
IsDefinitiveErr (ok r) = ⊥

module _ {W : Type 0} (net : Network W) where
  classify_not_definitive :
      (c : Option CtxError) (e : NetError) → is_definitive (classify c e) ≡ false
  unfolding classify
  classify_not_definitive none e = ground arith
  classify_not_definitive (some deadline_exceeded) e = refl
  classify_not_definitive (some canceled) e = ground arith

  conclude_definitive :
      (r : ConnPool.Reply) (w : W) → IsDefinitiveErr (conclude net r w) ↔ Refused r
  unfolding conclude
  conclude_definitive (err e) w =
      (λ h. ground (arith, classify_not_definitive (net.ctx_err w) e), λ h. elim h [ ])
  conclude_definitive (ok none) w = (λ h. h, λ h. h)
  conclude_definitive (ok (some r)) w = (λ h. ground arith, λ h. ground arith)

  -- A query ends in NXDOMAIN or "rejected" exactly when the transport brought a response with one of
  -- the codes FORMERR, NXDOMAIN, NOTIMP and REFUSED. A timeout, a cancelled context or a failure of
  -- the network is never taken for such an answer.
  pub query_dns_definitive :
      (q : DnsQuery) (w : W)
      → IsDefinitiveErr (query_dns net q w).0 ↔ Refused (transport net q q.pool w).0
  unfolding query_dns
  query_dns_definitive q w =
      conclude_definitive (transport net q q.pool w).0 (transport net q q.pool w).2

  -- A query that has no pool, for a server that is written in one of the documented forms (a host name
  -- or IPv4 address and an IPv6 address, each with a port or without, and an IPv6 address in brackets
  -- without one), is one exchange with that server: at its own port if it has one, and at the default
  -- port of the transport if not, with an IPv6 address in brackets. What it returns is what `queryDNS`
  -- makes of the reply of this exchange, and nothing else is asked.
  pub query_dns-Documented :
      (q : DnsQuery) (w : W) {t : Bytes}
      → q.pool ≡ none
      → Documented (default_port q.client) q.server t
      → let (reply, w') = net.exchange q.client (question net q) t w in
        query_dns net q w ≡ (conclude net reply w', none, w')
  unfolding query_dns transport
  query_dns-Documented q w unpooled form =
      ap (λ o. let (r, p', v) = transport net q o w in (conclude net r v, p', v)) unpooled
      ∙ ap
          (λ a.
            let (r, v) = net.exchange q.client (question net q) a w in (conclude net r v, none, v))
          (server_address-Documented q.client form)

  -- What is documented of `net.Dial`: an address without a port cannot be dialled.
  abbrev pub NeedsPort : Type 0
  NeedsPort =
      (c : Option Client) (a : Bytes) (w : W)
      → split_host_port a ≡ none
      → (e : NetError) × (w' : W) × (net.dial c a w ≡ (err e, w'))

  -- The pool dials the server address as it was configured: `queryDNS` adds a default port, but not
  -- to the pool. So where an address without a port cannot be dialled, each query over an empty pool
  -- for such an address fails, the pool is as empty behind it, and so is every later one.
  pub pooled_needs_port :
      NeedsPort
      → (q : DnsQuery) (p : ConnPool) (w : W) → q.pool ≡ some p
      → p.idle ≡ []
      → split_host_port p.addr ≡ none
      → (e : Error) × (w' : W) × (query_dns net q w ≡ (err e, some p, w'))
        × (is_definitive e ≡ false)
  unfolding query_dns transport conclude
  pooled_needs_port needs q p w i j h =
      let (e, w', d) = needs p.client p.addr w h in
      let over_pool =
        ap (λ o. let (r, p', v) = transport net q o w in (conclude net r v, p', v)) i in
      let fails = exchange_empty net (question net q) p w w' e j d in
      (
        classify (net.ctx_err w') e,
        w',
        over_pool
            ∙ ap
                (λ (x : ConnPool.Reply × ConnPool × W).
                  let c : Outcome Error (Option Response) = conclude net x.0 x.2 in
                  (c, some x.1, x.2))
                fails,
        classify_not_definitive (net.ctx_err w') e,
      )

health_online :
    (server : Bytes) (answer : Outcome Error (Option Response)) (l : ℤ)
    → (health server answer l).online ≡ true
    → (r : Response) × (answer ≡ ok (some r)) × (r.rcode ≡ 0)
unfolding health
health_online server (err e) l h = cc
health_online server (ok none) l h = cc
health_online server (ok (some r)) l h = (r, refl, ground arith)

health_success :
    (server : Bytes) (answer : Outcome Error (Option Response)) (l : ℤ) (r : Response)
    → answer ≡ ok (some r)
    → r.rcode ≡ 0
    → (health server answer l).online ≡ true
unfolding health
health_success server (err e) l r h z = cc
health_success server (ok none) l r h z = cc
health_success server (ok (some x)) l r h z = ground arith

health_error :
    (server : Bytes) (answer : Outcome Error (Option Response)) (l : ℤ)
    → (((health server answer l).online ≡ true) ↔ ((health server answer l).error ≡ none))
      × ((health server answer l).server ≡ server)
unfolding health
health_error server (err e) l = ((λ h. cc, λ h. cc), refl)
health_error server (ok none) l = ((λ h. cc, λ h. cc), refl)
health_error server (ok (some r)) l = ((λ h. ground arith, λ h. ground arith), ground arith)

health_lem :
    (server : Bytes) (answer : Outcome Error (Option Response)) (l : ℤ)
    → (((health server answer l).online ≡ true)
        ↔ ((r : Response) × (answer ≡ ok (some r)) × (r.rcode ≡ 0)))
      × (((health server answer l).online ≡ true) ↔ ((health server answer l).error ≡ none))
      × ((health server answer l).server ≡ server)
health_lem server answer l =
    let (e, s) = health_error server answer l in
    ((health_online server answer l, λ (r, h, z). health_success server answer l r h z), e, s)

-- A server is reported online exactly when its answer to the probe for google.com came with the code
-- for success; the report names the server asked, and carries an error exactly when it is offline.
pub check_dns_health_online :
    {W : Type 0} (net : Network W) (q : DnsQuery) (w : W)
    → let s = (check_dns_health net q w).0 in
      let answer = (query_dns net (record q { domain = codes "google.com"; qtype = 1 }) w).0 in
      ((s.online ≡ true) ↔ ((r : Response) × (answer ≡ ok (some r)) × (r.rcode ≡ 0)))
      × ((s.online ≡ true) ↔ (s.error ≡ none))
      × (s.server ≡ q.server)
unfolding check_dns_health
check_dns_health_online net q w = health_lem q.server (query_dns net _ w).0 _
