-- ===== src/Tunnel/Uplink.antt =====
-- client.go: `uplinkService`; conn/conn.go: `Send` and `Recv`; server.go: `serveConn`. A packet that the
-- client captured, on its way to the packet that the server sends.
use fatun.Base.{
  ℕ, ◌+◌, ◌^◌, ◌<◌, ◌≤◌, ◌≡◌, refl, ap, ◌∙◌, true, false, Option, none, some, List, [], ◌∷◌, Error,
  ok, returns, arith, length, drop,
}
use fatun.Net.{AddrPort, v4}
use fatun.Packet.{BufferLib, reads_ip4}
use fatun.Conn.Peer.{Peer, is_valid, is_builtin, reset}
use fatun.Conn.Channel.{PortLib, Channel, Reading, got, delivers, ended, recv_loop, send}
use fatun.Conn.Channel.RoundTrip.{recv_loop-send}
use fatun.Checksum.{Wire, TransportLib, transport_of, transport_of-protocol, client_sum, server}
use fatun.Checksum.Agreement.{SumLaws, client_sum-length}
use fatun.Links.Maps.{LinkManager, Env, down_of}
use fatun.Links.Maps.Invariant.{link_at}
use fatun.Client.Service.{uplink_round}
use fatun.Server.Proxy.{received, again, local_port_of, uplink_of, write_pcap, serve_round}
use fatun.Server.Proxy.Ways.{forward_lem, serve_lem}
use fatun.Tunnel.{HeaderLaws, Carries}
use fatun.Tunnel.Sending.{client_run, uplink_run, server_run}

module _ (w : Wire) where
  -- The peer that an IP packet goes to, and what `Client` makes of the packet.
  abbrev pub peer_of : List ℕ → Peer
  peer_of ip = record { proto = w.headers.ip4_protocol ip; dst = v4 (w.headers.ip4_destination ip) }

  abbrev pub segment_of : TransportLib → List ℕ → List ℕ
  segment_of view ip =
      client_sum w view (w.headers.ip4_protocol ip) (w.headers.ip4_destination ip)
        (w.headers.ip4_payload ip)

  peer_of-is_valid :
      (view : TransportLib) (ip : List ℕ)
      → transport_of w (w.headers.ip4_protocol ip) ≡ returns view
      → is_valid (some (peer_of ip)) ≡ true
  unfolding is_valid
  peer_of-is_valid view ip carried =
      ground (arith, transport_of-protocol w (w.headers.ip4_protocol ip) view carried)

  peer_of-is_builtin :
      (ip : List ℕ) → 0 < w.headers.ip4_destination ip → is_builtin (some (peer_of ip)) ≡ false
  unfolding is_builtin is_valid
  peer_of-is_builtin ip h = ground arith

  module _ (buf : BufferLib) (ports : PortLib) (laws : HeaderLaws w) where
    open buf use {lib, with_bytes, bytes-with_bytes}

    -- An IPv4 packet of TCP or UDP, with nothing behind it, that the client captures comes out at the server: the round of
    -- `uplinkService` sends what `Client` makes of it to its destination and goes on; `Send` writes a
    -- datagram; `Recv` at the other end delivers that peer with a packet; and the round of
    -- `serveConn` with the bytes of that packet sends an IPv4 packet and goes on. That packet goes from the server's address
    -- to the destination, its segment passes a receiver's check, and but for the checksum its segment is the one that was
    -- captured, with the link's port as source port. Conditions: the packet is below 2^16 bytes with the IP header of the server, its
    -- destination is not 0 and its IP header and its transport header are whole; the writes succeed and `uplinkService`
    -- gets what `Send` returns; both ends have the same cipher or none; the server has an IPv4
    -- address, and a port below 2^16 for the uplink.
    pub uplink_reaches :
        (kept_client kept_server : Option (List ℕ → Option Error))
        (write raw : List ℕ → Option Error) (answers : Peer → List ℕ → Option Error)
        (sender receiver : Channel) (env : Env) (id : ℕ) (remote : AddrPort) (conn p src size : ℕ)
        → (t t' : LinkManager) (view : TransportLib) (sums : SumLaws w view) (s q : Peer)
          (ip : List ℕ) (room space : lib.Packet) (readings : List Reading)
        → w.headers.ip_version ip ≡ 4
        → reads_ip4 w.headers ip ≡ true
        → transport_of w (w.headers.ip4_protocol ip) ≡ returns view
        → drop (w.headers.ip4_header_length ip + length (w.headers.ip4_payload ip)) ip ≡ []
        → sums.size ≤ length (w.headers.ip4_payload ip)
        → 20 + length (w.headers.ip4_payload ip) < 2 ^ 16
        → 0 < w.headers.ip4_destination ip
        → w.headers.ip4_destination ip < 2 ^ 32
        → ((x : List ℕ) → write_pcap kept_client x ≡ none)
        → ((x : List ℕ) → write_pcap kept_server x ≡ none)
        → ((x : List ℕ) → write x ≡ none)
        → ((x : List ℕ) → raw x ≡ none)
        → ((to : Peer) (x d : List ℕ) (e : Option Error)
            → send buf ports none write sender (some to) (with_bytes x room) ≡ returns (e, some d)
            → answers to x ≡ e)
        → receiver.crypto ≡ sender.crypto
        → t.addr ≡ v4 src
        → src < 2 ^ 32
        → p < 2 ^ 16
        → local_port_of env t (uplink_of w view remote (peer_of ip) (segment_of view ip)) conn
          ≡ returns (ok p, t')
        → (d : List ℕ) × (r : lib.Packet) × (out : List ℕ) × (uplink_round w kept_client answers s
              (received ip)
            ≡ returns (again, some (peer_of ip, segment_of view ip)))
          × (send buf ports none write sender
                (some (peer_of ip))
                (with_bytes (segment_of view ip) room)
              ≡ returns (none, some d))
          × (recv_loop buf ports size receiver (some q) space [] (got d ∷ readings)
              ≡ ended buf ports (delivers (some (peer_of ip)) r) [] readings)
          × (serve_round w kept_server raw env id t.addr remote conn t
                (received (peer_of ip, lib.bytes r))
              ≡ returns (again, some out, t'))
          × Carries w view
              (w.headers.ip4_protocol ip)
              src
              (w.headers.ip4_destination ip)
              (view.set_source_port p
                (view.set_transport_checksum 0 (view.set_source_port 0 (w.headers.ip4_payload ip))))
              out
    unfolding uplink_of reset
    uplink_reaches kept_client kept_server write raw answers sender receiver env id remote conn p
          src size t t' view sums s q ip room space readings four readable carried end whole short
          far da kc ks writes raws answer same here sa word found =
        let peer = peer_of ip in
        let pkt = segment_of view ip in
        let dst = w.headers.ip4_destination ip in
        let up = uplink_of w view remote peer pkt in
        let (d, sent, arrives) =
          recv_loop-send buf ports write sender receiver peer dst (with_bytes pkt room) writes refl
            da (peer_of-is_valid view ip carried) (peer_of-is_builtin ip far) same in
        let (r, delivered, content) = arrives size q space readings in
        let read : lib.bytes r ≡ pkt = content ∙ bytes-with_bytes pkt room in
        let (out, made, carries) =
          server_run w laws view sums up.server id peer.proto dst src p (w.headers.ip4_payload ip)
            refl carried whole short word sa da in
        let wrote : server w id pkt (down_of t.addr (link_at t.addr up p)) ≡ returns out =
          ap (λ a. server w id pkt (down_of a (link_at a up p))) here ∙ made in
        (
          d,
          r,
          out,
          uplink_run w kept_client answers s ip pkt (kc ip)
              (client_run w view ip four carried readable
                (sums.reads_header_whole (w.headers.ip4_payload ip) whole) end)
              (answer peer pkt d none sent),
          sent,
          delivered,
          rw read (
              serve_lem w kept_server raw env id remote conn t t' view peer pkt out p carried
                (forward_lem w env id remote conn t t' view peer pkt out p
                  (sums.reads_ports_whole pkt (
                    omega (
                      arith,
                      client_sum-length w view sums peer.proto dst (w.headers.ip4_payload ip),
                    )))
                  found wrote)
                (ks out) (raws out)),
          carries,
        )
