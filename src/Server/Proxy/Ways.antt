-- ===== src/Server/Proxy/Ways.antt =====
-- server.go: the way of a client's segment to its server, and of the answer back.
use fatun.Base.{
  ℕ, ◌<◌, ◌^◌, ◌≡◌, refl, true, List, Option, none, some, Error, ok, returns, drop, arith,
}
use fatun.Net.{AddrPort}
use fatun.Ports.Adapter.Invariant.{Visits}
use fatun.Ports.Adapter.Uses.{IsFresh}
use fatun.Conn.Peer.{Peer, reset}
use fatun.Links.{Uplink, Downlink, Link}
use fatun.Links.Maps.{LinkManager, Env, uplink, downlink, add, cleanup, down_of}
use fatun.Links.Maps.Registered.{reg}
use fatun.Links.Maps.Invariant.{IsValid, link_at}
use fatun.Links.Maps.Routes.{add-Downlink, uplink-unregistered}
use fatun.Session.{downlink_of}
use fatun.Checksum.{Wire, TransportLib, transport_of, transport_of-protocol, server}
use fatun.Server.Proxy.{
  received, again, local_port_of, uplink_of, write_pcap, forward, serve_round, recv_round,
}

local_port_lem :
    (env : Env) (t t' : LinkManager) (up : Uplink) (conn p : ℕ)
    → uplink t up ≡ (none, t)
    → add env t up conn ≡ returns (ok p, t')
    → local_port_of env t up conn ≡ returns (ok p, t')
unfolding local_port_of
local_port_lem env t t' up conn p new added = ground (arith, new, added)

module _ (w : Wire) where
  pub forward_lem :
      (env : Env) (ip4_id : ℕ) (remote : AddrPort) (conn : ℕ)
      → (t t' : LinkManager) (view : TransportLib) (peer : Peer) (pkt ip : List ℕ) (p : ℕ)
      → w.headers.reads_ports pkt ≡ true
      → local_port_of env t (uplink_of w view remote peer pkt) conn ≡ returns (ok p, t')
      → server w ip4_id pkt (down_of t.addr (link_at t.addr (uplink_of w view remote peer pkt) p))
        ≡ returns ip
      → forward w env ip4_id t.addr remote conn t view peer pkt ≡ returns (some ip, t')
  unfolding forward
  forward_lem env ip4_id remote conn t t' view peer pkt ip p ports found wrote =
      rw ports (rw found (rw wrote refl))

  pub serve_lem :
      (pcap : Option (List ℕ → Option Error)) (send : List ℕ → Option Error) (env : Env)
      (ip4_id : ℕ) (remote : AddrPort) (conn : ℕ)
      → (t t' : LinkManager) (view : TransportLib) (peer : Peer) (pkt ip : List ℕ) (p : ℕ)
      → transport_of w peer.proto ≡ returns view
      → forward w env ip4_id t.addr remote conn t view peer pkt ≡ returns (some ip, t')
      → write_pcap pcap ip ≡ none
      → send ip ≡ none
      → serve_round w pcap send env ip4_id t.addr remote conn t (received (peer, pkt))
        ≡ returns (again, some ip, t')
  unfolding serve_round
  serve_lem pcap send env ip4_id remote conn t t' view peer pkt ip p proto sends kept sent =
      let carried = transport_of-protocol w peer.proto view proto in
      ground (arith, carried, proto, sends, kept, sent)

  pub recv_lem :
      (pcap : Option (List ℕ → Option Error)) (t : LinkManager) (peer : Peer) (view : TransportLib)
      → (ip : List ℕ) (d : Downlink) (conn port : ℕ) → downlink_of w.headers ip ≡ returns (ok d)
      → downlink t d ≡ some (conn, port)
      → write_pcap pcap ip ≡ none
      → transport_of w d.proto ≡ returns view
      → recv_round w pcap t peer (received ip)
        ≡ returns (
          again,
          some (
            conn,
            reset d.proto d.server.addr peer,
            view.set_destination_port port (drop (w.headers.ip4_header_length ip) ip),
          ),
        )
  unfolding recv_round
  recv_lem pcap t peer view ip d conn port stripped found kept proto =
      let carried = transport_of-protocol w d.proto view proto in
      ground (arith, stripped, found, kept, carried, proto)

  -- A segment of a client, with its ports, arrives whose uplink is not registered at a valid manager; `Add` answers
  -- the port `p`, `Server` writes the packet `ip`, and the capture file, if it is set, and the raw
  -- socket take it. Then the round of
  -- `serveConn` sends `ip` and goes on with a valid manager. And when a packet comes in whose
  -- downlink is the server, the protocol and `p`, and the capture file takes it, the round of `recvService` behind it sends the
  -- packet without its IP header, with the client's port as destination port, on the connection of
  -- that client, and goes on. Conditions: the protocol is below 2^8 and `p` below 2^16, the loop of
  -- GetPort visits entries of its map, and the system opens ports that no open socket holds.
  pub there_and_back :
      (pcap : Option (List ℕ → Option Error)) (send : List ℕ → Option Error) (env : Env)
      (ip4_id : ℕ) (remote : AddrPort) (conn : ℕ)
      → (t t' : LinkManager) (view : TransportLib) (peer other : Peer) (pkt ip reply : List ℕ)
        (p : ℕ)
      → IsValid t
      → w.headers.reads_ports pkt ≡ true
      → peer.proto < 256
      → p < 2 ^ 16
      → reg t.uplink_map (uplink_of w view remote peer pkt) ≡ none
      → ((ls : List Link) (c : LinkManager)
          → cleanup env.close env.clock t ≡ returns (ls, c)
          → Visits c.ap.ports (env.order c.ap.ports))
      → ((ls : List Link) (c : LinkManager)
          → cleanup env.close env.clock t ≡ returns (ls, c)
          → IsFresh env.os c.ap peer.proto)
      → add env t (uplink_of w view remote peer pkt) conn ≡ returns (ok p, t')
      → transport_of w peer.proto ≡ returns view
      → server w ip4_id pkt (down_of t.addr (link_at t.addr (uplink_of w view remote peer pkt) p))
        ≡ returns ip
      → write_pcap pcap ip ≡ none
      → send ip ≡ none
      → write_pcap pcap reply ≡ none
      → downlink_of w.headers reply
        ≡ returns (ok (down_of t.addr (link_at t.addr (uplink_of w view remote peer pkt) p)))
      → (serve_round w pcap send env ip4_id t.addr remote conn t (received (peer, pkt))
          ≡ returns (again, some ip, t'))
        × IsValid t'
        × (recv_round w pcap t' other (received reply)
            ≡ returns (
              again,
              some (
                conn,
                reset peer.proto peer.dst other,
                view.set_destination_port
                    (view.source_port pkt)
                    (drop (w.headers.ip4_header_length reply) reply),
              ),
            ))
  unfolding uplink_of
  there_and_back pcap send env ip4_id remote conn t t' view peer other pkt ip reply p v ports small
        word unreg visits fresh added proto wrote kept sent kept_reply stripped =
      let up = uplink_of w view remote peer pkt in
      let (valid, registered, back) =
        add-Downlink env t up conn p t' v small word unreg visits fresh added in
      let found = local_port_lem env t t' up conn p (uplink-unregistered t up unreg) added in
      let sends = forward_lem env ip4_id remote conn t t' view peer pkt ip p ports found wrote in
      (
        serve_lem pcap send env ip4_id remote conn t t' view peer pkt ip p proto sends kept sent,
        valid,
        recv_lem pcap t' other view reply (down_of t.addr (link_at t.addr up p)) conn
            (view.source_port pkt) stripped back kept_reply proto,
      )
