-- ===== src/Server/Proxy/Apart.antt =====
-- server.go: the answers of a server go to a connection that their uplink came in on.
use fatun.Base.{
  ℕ, ◌≡◌, sym, ap, subst, ◌∙◌, ◌⊎◌, inl, inr, none, some, Fallible, ok, err, returns, arith,
  Option-cases, Bool-cases, ◌==◌,
}
use fatun.Base.Maps.{lookup}
use fatun.Base.Runs.{Runs, here, later}
use fatun.Net.{Addr}
use fatun.Links.{Uplink, uplink_has_eq, uplink_eq_iff}
use fatun.Links.Maps.{LinkManager, Env, new_link_manager, down_of, downlink, uplink, add}
use fatun.Links.Maps.Registered.{reg}
use fatun.Links.Maps.Invariant.{IsLinked, IsValid, link_at}
use fatun.Links.Maps.Fresh.{new_link_manager-IsValid, new_link_manager-none}
use fatun.Links.Maps.Sequences.{cleans, finds, adds, adds_none}
use fatun.Links.Maps.Table.{Binds, Keeps, Step-Does, table, table-none, table-some}
use fatun.Checksum.{Wire, TransportLib, transport_of}
use fatun.Server.Proxy.{local_port_of, uplink_of, serve_round}
use fatun.Server.Proxy.Serving.{
  IsReady, Step, serves, serves_none, receives, sweeps, serve_links, served-IsValid,
}

downlink-IsLinked :
    (t : LinkManager) (u : Uplink) (p : ℕ) (k : IsLinked t u p)
    → downlink t (down_of t.addr (link_at t.addr u p)) ≡ some (k.conn, u.process.port)
unfolding downlink
downlink-IsLinked t u p k = ground (arith, k.back)

-- What looking a port up on behalf of a connection does to the links: each is as before, or it is the one that was
-- asked for, on that connection.
abbrev Asked : LinkManager → LinkManager → Uplink → ℕ → Type 0
Asked t t' u conn =
    (w : Uplink) (p c : ℕ)
    → table t' w ≡ some (p, c)
    → (table t w ≡ some (p, c)) ⊎ ((w ≡ u) × (c ≡ conn))

Keeps-Asked :
    (t t' : LinkManager) (u : Uplink) (conn : ℕ) → Keeps (table t) (table t') → Asked t t' u conn
Keeps-Asked t t' u conn keeps w p c at = elim (keeps w) [
  | inl gone ↦ absurd (ground (arith, gone, at))
  | inr same ↦ inl (sym same ∙ at)
]

Binds-Asked :
    (t t' : LinkManager) (u : Uplink) (conn p : ℕ)
    → Binds u p conn (table t) (table t')
    → Asked t t' u conn
Binds-Asked t t' u conn p binds w q c at = elim (Bool-cases (w == u)) [
  | inl same ↦
      let is : w ≡ u = (uplink_eq_iff w u).0 same in
      inr (is, ground (arith, binds.own, ap (table t') is, at))
  | inr differ ↦ elim (binds.others w (λ is. ground (arith, differ, (uplink_eq_iff w u).1 is))) [
    | inl gone ↦ absurd (ground (arith, gone, at))
    | inr same ↦ inl (sym same ∙ at)
  ]
]

added-Asked :
    (env : Env) (t t' : LinkManager) (u : Uplink) (conn : ℕ) (r : Fallible ℕ)
    → IsValid t
    → IsReady env t u conn
    → lookup u t.uplink_map ≡ none
    → add env t u conn ≡ returns (r, t')
    → Asked t t' u conn
added-Asked env t t' u conn (err e) v ready new ran =
    Keeps-Asked t t' u conn (Step-Does (adds_none env u conn e ran) v)
added-Asked env t t' u conn (ok p) v ready new ran = Binds-Asked t t' u conn p (
    Step-Does
      (adds env u conn p ready.small (ready.word p t' ran) (ground (arith, new)) ready.visits
        ready.fresh ran)
      v)

local_port-Asked :
    (env : Env) (t t' : LinkManager) (u : Uplink) (conn : ℕ) (r : Fallible ℕ)
    → IsValid t
    → IsReady env t u conn
    → local_port_of env t u conn ≡ returns (r, t')
    → Asked t t' u conn
unfolding local_port_of uplink
local_port-Asked env t t' u conn r v ready ran = elim (Option-cases (lookup u t.uplink_map)) [
  | inl new ↦ added-Asked env t t' u conn r v ready new (ground (arith, new, ran))
  | inr (d, found) ↦
      let same = Step-Does (finds u ready.room (ground (arith, found, ran))) v in
      λ w p c at. inl (sym (same w) ∙ at)
]

module _ (w : Wire) where
  -- A step in which `serveConn` of a connection receives a segment of an uplink.
  abbrev pub Brings : {t t' : LinkManager} → Uplink → ℕ → Step w t t' → Type 0
  Brings u c (serves pcap send env id remote conn peer pkt n out ready ran) =
      (conn ≡ c)
      × ((view : TransportLib) × (transport_of w peer.proto ≡ returns view)
          × (uplink_of w view remote peer pkt ≡ u))
  Brings u c (serves_none pcap send env id remote conn temporary n out ran) = ⊥
  Brings u c (receives pcap peer ip n out ran same) = ⊥
  Brings u c (sweeps close clock ls ran) = ⊥

  -- Some step of a run is such a step.
  abbrev pub Brought : {s t : LinkManager} → Uplink → ℕ → Runs (Step w) s t → Type 0
  Brought u c here = ⊥
  Brought u c (later r st) = Brings u c st ⊎ Brought u c r

  Step-Brings :
      {t t' : LinkManager} (st : Step w t t')
      → IsValid t
      → (u : Uplink) (p c : ℕ) → table t' u ≡ some (p, c)
      → (table t u ≡ some (p, c)) ⊎ Brings u c st
  unfolding serve_round
  Step-Brings {t} {t'} (serves pcap send env id remote conn peer pkt n out ready ran) v u p c at =
      elim (serve_links w pcap send env id remote conn t t' peer pkt n out ran) [
        | inl same ↦ inl (subst (λ x. table x u ≡ some (p, c)) same at)
        | inr (view, proto, r, found) ↦
            elim (local_port-Asked env t t' (uplink_of w view remote peer pkt) conn r v
              (ready view proto) found u p c at) [
                | inl old ↦ inl old
                | inr (is, by) ↦ inr (sym by, (view, proto, sym is))
              ]
      ]
  Step-Brings {t} {t'} (serves_none pcap send env id remote conn temporary n out ran) v u p c at =
      let same : t' ≡ t = ground (arith, ran) in inl (subst (λ x. table x u ≡ some (p, c)) same at)
  Step-Brings {t} {t'} (receives pcap peer ip n out ran same) v u p c at =
      inl (subst (λ x. table x u ≡ some (p, c)) same at)
  Step-Brings {t} {t'} (sweeps close clock ls ran) v u p c at =
      elim (Step-Does (cleans close clock ls ran) v u) [
        | inl gone ↦ absurd (ground (arith, gone, at))
        | inr kept ↦ inl (sym kept ∙ at)
      ]

  Runs-Brought :
      (s t : LinkManager) (r : Runs (Step w) s t)
      → IsValid s
      → ((u : Uplink) → table s u ≡ none)
      → (u : Uplink) (p c : ℕ) → table t u ≡ some (p, c)
      → Brought u c r
  Runs-Brought s _ here v none_yet u p c at = absurd (ground (arith, none_yet u, at))
  Runs-Brought s t (later r st) v none_yet u p c at =
      elim (Step-Brings st (served-IsValid w s _ r v) u p c at) [
        | inl old ↦ inr (Runs-Brought s _ r v none_yet u p c old)
        | inr now ↦ inl now
      ]

  -- After any rounds of the server's loops from new links, one at a time, in whatever order the
  -- segments of the clients and of the servers come and the links are cleaned up: the way back of a registered uplink, from
  -- its server through its local port, leads to the port of its process and to a connection on which one of
  -- those rounds received a segment of this very uplink; and a registered uplink with the same way
  -- back is the same. Each round of `serveConn` with a segment needs room, port numbers and
  -- a system as in `IsReady`.
  pub served_apart :
      (ttl : ℕ) (addr : Addr) (s t : LinkManager) (u : Uplink) (p : ℕ)
      → new_link_manager ttl addr ≡ returns s
      → (r : Runs (Step w) s t) → reg t.uplink_map u ≡ some p
      → ((conn : ℕ) × (downlink t (down_of t.addr (link_at t.addr u p))
            ≡ some (conn, u.process.port))
          × Brought u conn r)
        × ((v : Uplink) (q : ℕ)
            → reg t.uplink_map v ≡ some q
            → down_of t.addr (link_at t.addr u p) ≡ down_of t.addr (link_at t.addr v q)
            → u ≡ v)
  served_apart ttl addr s t u p made run there =
      let start = new_link_manager-IsValid ttl addr s made in
      let valid = served-IsValid w s t run start in
      let linked = valid.links u p there in
      (
        (
          linked.conn,
          downlink-IsLinked t u p linked,
          Runs-Brought s t run start (λ x. table-none s x (new_link_manager-none ttl addr s made x))
              u p linked.conn
              (table-some t u p (record { conn = linked.conn; client_port = u.process.port }) there
                linked.back),
        ),
        λ v q other same.
            valid.alone u v p there (other ∙ ap (λ d. some d.local.port) (sym same))
              (ap (λ d. d.proto) same) (ap (λ d. d.server) same),
      )
