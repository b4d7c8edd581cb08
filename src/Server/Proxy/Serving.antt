-- ===== src/Server/Proxy/Serving.antt =====
-- server.go: the loops of all connections and of the raw socket, which share the links, round by round
-- in any order. One round runs at a time: the rounds of goroutines that run side by side can come between the lock
-- sections of each other, see Ports/Adapter/Racing.
use fatun.Base.{
  ℕ, ◌<◌, ◌^◌, ◌≡◌, sym, subst, ◌⊎◌, inl, inr, Bool, List, Option, none, Error, Fallible, ok, err,
  returns, arith, Option-cases, Run-cases, Bool-cases, ◌||◌, ◌=ᵇ◌,
}
use fatun.Base.Maps.{lookup}
use fatun.Base.Runs.{Runs, here, later}
use fatun.Net.{AddrPort, tcp_number, udp_number}
use fatun.Conn.Peer.{Peer}
use fatun.Ports.Adapter.Invariant.{Visits}
use fatun.Ports.Adapter.Uses.{IsFresh}
use fatun.Links.{Uplink, Link, uplink_has_eq}
use fatun.Links.Maps.{LinkManager, Env, uplink, add, cleanup}
use fatun.Links.Maps.Invariant.{IsValid}
use fatun.Links.Maps.Sequences
use fatun.Links.Maps.Sequences.{HasRoom, finds, adds, adds_none}
use fatun.Checksum.{Wire, TransportLib, transport_of, transport_of-protocol}
use fatun.Server.Proxy.{
  Received, failed, received, Next, local_port_of, uplink_of, forward, serve_round, recv_round,
}

-- What a round that looks an uplink up needs of the links and of the system: its count has room, its
-- protocol is below 2^8, the ports that `Add` gives are below 2^16, the loop of GetPort visits
-- entries of its map, and the system opens ports that no open socket holds.
pub record IsReady (env : Env) (t : LinkManager) (up : Uplink) (conn : ℕ) : Type 0 where
  pub room : HasRoom t up
  pub small : up.proto < 256
  pub word : (p : ℕ) (t' : LinkManager) → add env t up conn ≡ returns (ok p, t') → p < 2 ^ 16
  pub visits :
      (ls : List Link) (c : LinkManager)
      → cleanup env.close env.clock t ≡ returns (ls, c)
      → Visits c.ap.ports (env.order c.ap.ports)
  pub fresh :
      (ls : List Link) (c : LinkManager)
      → cleanup env.close env.clock t ≡ returns (ls, c)
      → IsFresh env.os c.ap up.proto

added :
    (env : Env) (t t' : LinkManager) (up : Uplink) (conn : ℕ) (r : Fallible ℕ)
    → IsValid t
    → IsReady env t up conn
    → lookup up t.uplink_map ≡ none
    → add env t up conn ≡ returns (r, t')
    → IsValid t'
added env t t' up conn (err e) v ready new ran =
    Sequences.Step-IsValid (adds_none env up conn e ran) v
added env t t' up conn (ok p) v ready new ran =
    Sequences.Step-IsValid
      (adds env up conn p ready.small (ready.word p t' ran) (ground (arith, new)) ready.visits
        ready.fresh ran)
      v

local_port-IsValid :
    (env : Env) (t t' : LinkManager) (up : Uplink) (conn : ℕ) (r : Fallible ℕ)
    → IsValid t
    → IsReady env t up conn
    → local_port_of env t up conn ≡ returns (r, t')
    → IsValid t'
unfolding local_port_of uplink
local_port-IsValid env t t' up conn r v ready ran = elim (Option-cases (lookup up t.uplink_map)) [
  | inl new ↦ added env t t' up conn r v ready new (ground (arith, new, ran))
  | inr (d, found) ↦ Sequences.Step-IsValid (finds up ready.room (ground (arith, found, ran))) v
]

module _ (w : Wire) where
  -- A round of `forward` does to the links what looking its uplink's port up does.
  forward_links :
      (env : Env) (id : ℕ) (remote : AddrPort) (conn : ℕ) (t t' : LinkManager) (view : TransportLib)
      (peer : Peer) (pkt : List ℕ) (out : Option (List ℕ))
      → forward w env id t.addr remote conn t view peer pkt ≡ returns (out, t')
      → (r : Fallible ℕ) × (local_port_of env t (uplink_of w view remote peer pkt) conn
          ≡ returns (r, t'))
  unfolding forward
  forward_links env id remote conn t t' view peer pkt out ran =
      elim (Bool-cases (w.headers.reads_ports pkt)) [
        | inr short ↦ absurd (ground (arith, short, ran))
        | inl ports ↦
            elim (Run-cases (local_port_of env t (uplink_of w view remote peer pkt) conn)) [
              | inl bad ↦ absurd (ground (arith, ports, bad, ran))
              | inr ((r, t''), found) ↦ (r, ground (arith, ports, found, ran))
            ]
      ]

  -- A round of `serveConn` leaves the links as they are, or looks the port of its segment's uplink up.
  pub serve_links :
      (pcap : Option (List ℕ → Option Error)) (send : List ℕ → Option Error) (env : Env) (id : ℕ)
      (remote : AddrPort) (conn : ℕ) (t t' : LinkManager) (peer : Peer) (pkt : List ℕ) (n : Next)
      (out : Option (List ℕ))
      → serve_round w pcap send env id t.addr remote conn t (received (peer, pkt))
        ≡ returns (n, out, t')
      → (t' ≡ t)
        ⊎ ((view : TransportLib) × (transport_of w peer.proto ≡ returns view)
            × (r : Fallible ℕ) × (local_port_of env t (uplink_of w view remote peer pkt) conn
                ≡ returns (r, t')))
  unfolding serve_round
  serve_links pcap send env id remote conn t t' peer pkt n out ran =
      elim (Run-cases (transport_of w peer.proto)) [
        | inl bad ↦ elim (Bool-cases ((peer.proto =ᵇ tcp_number) || (peer.proto =ᵇ udp_number))) [
          | inl carried ↦ absurd (ground (arith, bad, carried, ran))
          | inr other ↦ inl (ground (arith, other, ran))
        ]
        | inr (view, proto) ↦
            let carried = transport_of-protocol w peer.proto view proto in
            elim (Run-cases (forward w env id t.addr remote conn t view peer pkt)) [
              | inl worse ↦ absurd (ground (arith, carried, proto, worse, ran))
              | inr ((ip, t''), sent) ↦
                  let same : t'' ≡ t' = ground (arith, carried, proto, sent, ran) in
                  let forwarded =
                    subst
                      (λ x. forward w env id t.addr remote conn t view peer pkt ≡ returns (ip, x))
                      same sent in
                  let (r, found) =
                    forward_links env id remote conn t t' view peer pkt ip forwarded in
                  inr (view, proto, r, found)
            ]
      ]

  -- One step of a server: a round of a connection's `serveConn`, a round of `recvService`, or a
  -- `Cleanup` of the links.
  pub data Step (t t' : LinkManager) : Type 0 where
    serves :
        (pcap : Option (List ℕ → Option Error)) (send : List ℕ → Option Error) (env : Env) (id : ℕ)
        (remote : AddrPort) (conn : ℕ) (peer : Peer) (pkt : List ℕ) (n : Next)
        (out : Option (List ℕ))
        → ((view : TransportLib)
            → transport_of w peer.proto ≡ returns view
            → IsReady env t (uplink_of w view remote peer pkt) conn)
        → serve_round w pcap send env id t.addr remote conn t (received (peer, pkt))
          ≡ returns (n, out, t')
        → Step t t'
    serves_none :
        (pcap : Option (List ℕ → Option Error)) (send : List ℕ → Option Error) (env : Env) (id : ℕ)
        (remote : AddrPort) (conn : ℕ) (temporary : Bool) (n : Next) (out : Option (List ℕ))
        → serve_round w pcap send env id t.addr remote conn t (failed temporary)
          ≡ returns (n, out, t')
        → Step t t'
    receives :
        (pcap : Option (List ℕ → Option Error)) (peer : Peer) (ip : Received (List ℕ)) (n : Next)
        (out : Option (ℕ × Peer × List ℕ))
        → recv_round w pcap t peer ip ≡ returns (n, out)
        → t' ≡ t
        → Step t t'
    sweeps :
        (close : ℕ → Option Error) (clock : ℕ → ℕ) (ls : List Link)
        → cleanup close clock t ≡ returns (ls, t')
        → Step t t'

  pub Step-IsValid : {t t' : LinkManager} → Step t t' → IsValid t → IsValid t'
  unfolding serve_round
  Step-IsValid {t} {t'} (serves pcap send env id remote conn peer pkt n out ready ran) v =
      elim (serve_links pcap send env id remote conn t t' peer pkt n out ran) [
        | inl same ↦ subst IsValid (sym same) v
        | inr (view, proto, r, found) ↦
            local_port-IsValid env t t' (uplink_of w view remote peer pkt) conn r v
              (ready view proto) found
      ]
  Step-IsValid {t} {t'} (serves_none pcap send env id remote conn temporary n out ran) v =
      subst IsValid (ground (arith, ran)) v
  Step-IsValid {t} {t'} (receives pcap peer ip n out ran same) v = subst IsValid (sym same) v
  Step-IsValid {t} {t'} (sweeps close clock ls ran) v =
      Sequences.Step-IsValid (Sequences.cleans close clock ls ran) v

  -- Rounds of the server's loops, one at a time, keep valid links valid, in whatever order the segments of the clients
  -- and of the servers come and the links are cleaned up: every registered link has its way back to
  -- a connection and its own port, and no two share a local port for one server. Each round of
  -- `serveConn` with a segment needs room, port numbers and a system as in `IsReady`.
  pub served-IsValid : (t t' : LinkManager) → Runs Step t t' → IsValid t → IsValid t'
  served-IsValid t _ here v = v
  served-IsValid t t' (later r st) v = Step-IsValid st (served-IsValid t _ r v)
