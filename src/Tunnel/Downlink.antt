-- ===== src/Tunnel/Downlink.antt =====
-- server.go: `recvService`; conn/conn.go: `Send` and `Recv`; client.go: `downlinkServic` and `rechecksum`.
-- A packet that the server captured, on its way to the packet that the client injects.
use fatun.Base.{
  ℕ, ◌+◌, ◌^◌, ◌<◌, ◌≤◌, ◌≡◌, refl, ap, ap₂, ◌∙◌, false, true, Option, none, some, List, [], ◌∷◌,
  Error, ok, returns, arith, length, drop,
}
use fatun.Net.{v4}
use fatun.Packet.{BufferLib}
use fatun.Conn.Peer.{Peer, is_valid, is_builtin, reset}
use fatun.Conn.Channel.{PortLib, Channel, Reading, got, delivers, ended, recv_loop, send}
use fatun.Conn.Channel.RoundTrip.{recv_loop-send}
use fatun.Checksum.{Wire, TransportLib, transport_of, transport_of-protocol}
use fatun.Checksum.Agreement.{SumLaws}
use fatun.Links.{Downlink}
use fatun.Links.Maps.{LinkManager, downlink}
use fatun.Session.{downlink_of}
use fatun.Client.Service.{downlink_round}
use fatun.Server.Proxy.{received, again, write_pcap, recv_round}
use fatun.Server.Proxy.Ways.{recv_lem}
use fatun.Tunnel.{HeaderLaws, Carries}
use fatun.Tunnel.Injecting.{downlink_run}

module _ (w : Wire) where
  -- The peer that a packet comes from, and what `recvService` makes of its data.
  abbrev pub sender_of : List ℕ → Peer
  sender_of ip = record { proto = w.headers.ip4_protocol ip; dst = v4 (w.headers.ip4_source ip) }

  abbrev pub answer_to : TransportLib → ℕ → List ℕ → List ℕ
  answer_to t port ip = t.set_destination_port port (drop (w.headers.ip4_header_length ip) ip)

module _ (w : Wire) (laws : HeaderLaws w) (view : TransportLib) (sums : SumLaws w view) where
  downlink_of-sender_of :
      (ip : List ℕ) (d : Downlink)
      → downlink_of w.headers ip ≡ returns (ok d)
      → (d.proto ≡ w.headers.ip4_protocol ip) × (d.server.addr ≡ v4 (w.headers.ip4_source ip))
  unfolding downlink_of
  downlink_of-sender_of ip d e = ground (arith, e)

  sender_of-is_valid :
      (ip : List ℕ)
      → transport_of w (w.headers.ip4_protocol ip) ≡ returns view
      → is_valid (some (sender_of w ip)) ≡ true
  unfolding is_valid
  sender_of-is_valid ip carried =
      ground (arith, transport_of-protocol w (w.headers.ip4_protocol ip) view carried)

  sender_of-is_builtin :
      (ip : List ℕ) → 0 < w.headers.ip4_source ip → is_builtin (some (sender_of w ip)) ≡ false
  unfolding is_builtin is_valid
  sender_of-is_builtin ip h = ground arith

  recv_run :
      (pcap : Option (List ℕ → Option Error)) (t : LinkManager) (s : Peer) (ip : List ℕ)
      (d : Downlink) (conn port : ℕ)
      → downlink_of w.headers ip ≡ returns (ok d)
      → downlink t d ≡ some (conn, port)
      → write_pcap pcap ip ≡ none
      → transport_of w (w.headers.ip4_protocol ip) ≡ returns view
      → recv_round w pcap t s (received ip)
        ≡ returns (again, some (conn, sender_of w ip, answer_to w view port ip))
  unfolding reset
  recv_run pcap t s ip d conn port stripped found kept carried =
      let (proto, addr) = downlink_of-sender_of ip d stripped in
      recv_lem w pcap t s view ip d conn port stripped found kept
        (ap (transport_of w) proto ∙ carried)
      ∙ ap₂
          (λ n a.
            returns (again, some (conn, record { proto = n; dst = a }, answer_to w view port ip)))
          proto addr

  module _ (buf : BufferLib) (ports : PortLib) where
    open buf use {lib, with_bytes, bytes-with_bytes}

    -- A packet that the server captures for a downlink it knows comes out at the client: the round of
    -- `recvService` sends its data on the connection of the link, with the client's port as destination
    -- port, and goes on; `Send` writes a datagram; `Recv` at the other end delivers the sender of
    -- the packet with a packet; and the round of `downlinkServic` with the bytes of that packet injects an IPv4
    -- packet and goes on. That packet goes from the sender to the client's address, its segment passes a
    -- receiver's check, and but for the checksum its segment is the one that was sent. Conditions: the segment
    -- has a whole transport header and is below 2^16 bytes with the IP header of the client; the
    -- sender's address is not 0; the writes succeed; both ends have the same cipher or none; the
    -- client has an IPv4 address.
    pub reply_reaches :
        (kept_client kept_server : Option (List ℕ → Option Error))
        (write inject : List ℕ → Option Error) (sender receiver : Channel) (conn port dst size : ℕ)
        → (t : LinkManager) (s q : Peer) (ip : List ℕ) (d : Downlink) (room space : lib.Packet)
          (readings : List Reading)
        → downlink_of w.headers ip ≡ returns (ok d)
        → downlink t d ≡ some (conn, port)
        → transport_of w (w.headers.ip4_protocol ip) ≡ returns view
        → sums.size ≤ length (answer_to w view port ip)
        → 20 + length (answer_to w view port ip) < 2 ^ 16
        → 0 < w.headers.ip4_source ip
        → w.headers.ip4_source ip < 2 ^ 32
        → dst < 2 ^ 32
        → ((x : List ℕ) → write_pcap kept_client x ≡ none)
        → ((x : List ℕ) → write_pcap kept_server x ≡ none)
        → ((x : List ℕ) → write x ≡ none)
        → ((x : List ℕ) → inject x ≡ none)
        → receiver.crypto ≡ sender.crypto
        → (b : List ℕ) × (r : lib.Packet) × (out : List ℕ) × (recv_round w kept_server t s
              (received ip)
            ≡ returns (again, some (conn, sender_of w ip, answer_to w view port ip)))
          × (send buf ports none write sender
                (some (sender_of w ip))
                (with_bytes (answer_to w view port ip) room)
              ≡ returns (none, some b))
          × (recv_loop buf ports size receiver (some q) space [] (got b ∷ readings)
              ≡ ended buf ports (delivers (some (sender_of w ip)) r) [] readings)
          × (downlink_round w kept_client inject (v4 dst) (received (sender_of w ip, lib.bytes r))
              ≡ returns (again, some out))
          × Carries w view
              (w.headers.ip4_protocol ip)
              (w.headers.ip4_source ip)
              dst
              (view.set_transport_checksum 0 (answer_to w view port ip))
              out
    reply_reaches kept_client kept_server write inject sender receiver conn port dst size t s q ip d
          room space readings stripped found carried whole short far sa da kc ks writes takes same =
        let peer = sender_of w ip in
        let seg = answer_to w view port ip in
        let (b, sent, arrives) =
          recv_loop-send buf ports write sender receiver peer (w.headers.ip4_source ip)
            (with_bytes seg room) writes refl sa (sender_of-is_valid ip carried)
            (sender_of-is_builtin ip far) same in
        let (r, delivered, content) = arrives size q space readings in
        let (out, injected, carries) =
          downlink_run w laws view sums kept_client inject peer (w.headers.ip4_source ip) dst seg kc
            takes refl carried whole short sa da in
        (
          b,
          r,
          out,
          recv_run kept_server t s ip d conn port stripped found (ks ip) carried,
          sent,
          delivered,
          rw (content ∙ bytes-with_bytes seg room) injected,
          carries,
        )
