-- ===== src/Client/Service.antt =====
-- client.go: the loops `uplinkService` and `downlinkServic`. What the capturer and the connection
-- answer are inputs; what is sent or injected are outputs. `PcapCapturer`, if it is
-- set, is what it answers to a packet.
pub mod Sums
pub mod Loops
use fatun.Base.{
  ℕ, ◌+◌, ◌%◌, Option, none, some, List, ◌++◌, Error, Run, returns, panics, ◌>>=◌, if◌then◌else◌,
  length, drop, take, replicate,
}
use fatun.Net.{Addr, v4}
use fatun.Conn.Peer.{Peer, reset}
use fatun.Checksum.{Wire, TransportLib, Ip4Fields, complement, as4, transport_of, client}
use fatun.Server.Proxy.{Received, failed, received, Next, again, stop, write_pcap}

module _ (w : Wire) where
  -- The transport part of `rechecksum`.
  unfoldable pub resum : TransportLib → ℕ → List ℕ → List ℕ
  resum t psum payload =
      let cleared = t.set_transport_checksum 0 payload in
      t.set_transport_checksum (complement (w.checksum cleared psum)) cleared

  -- `rechecksum`. The IP header's checksum is written first; a protocol that is neither TCP nor UDP
  -- panics, and so does a transport header that is cut off.
  unfoldable pub rechecksum : List ℕ → Run (List ℕ)
  rechecksum ip =
      let h = w.headers in
      let cleared = w.set_ip4_checksum 0 ip in
      let summed = w.set_ip4_checksum (complement (w.calculate_checksum cleared)) cleared in
      let proto = h.ip4_protocol summed in
      let payload = h.ip4_payload summed in
      let psum =
        w.pseudo_header_checksum proto (h.ip4_source summed) (h.ip4_destination summed)
          (length payload % 65536) in
      let front = take (h.ip4_header_length summed) summed in
      let rest = drop (h.ip4_header_length summed + length payload) summed in
      transport_of w proto >>= λ t.
      if t.reads_header payload then returns (front ++ (resum t psum payload ++ rest)) else panics

  -- One round of `uplinkService`; `pcap` is the capture file, and `send` what the connection answers.
  unfoldable pub uplink_round :
      Option (List ℕ → Option Error)
      → (Peer → List ℕ → Option Error)
      → Peer
      → Received (List ℕ)
      → Run (Next × Option (Peer × List ℕ))
  uplink_round pcap send s (failed temporary) = returns (if temporary then again else stop, none)
  uplink_round pcap send s (received ip) = elim (write_pcap pcap ip) [
    | some e ↦ returns (stop, none)
    | none ↦
        let peer = reset (w.headers.ip4_protocol ip) (v4 (w.headers.ip4_destination ip)) s in
        client w ip >>= λ pkt. elim (send peer pkt) [
          | none ↦ returns (again, some (peer, pkt))
          | some e ↦ returns (stop, some (peer, pkt))
        ]
  ]

  -- One round of `downlinkServic`, on a connection with the local address `local`, with the packet
  -- that it made; `inject` is what the capturer answers.
  unfoldable pub downlink_round :
      Option (List ℕ → Option Error)
      → (List ℕ → Option Error)
      → Addr
      → Received (Peer × List ℕ)
      → Run (Next × Option (List ℕ))
  downlink_round pcap inject local (failed temporary) =
      returns (if temporary then again else stop, none)
  downlink_round pcap inject local (received (peer, pkt)) = as4 peer.dst >>= λ src.
      as4 local >>= λ dst.
      let room = replicate 20 0 ++ pkt in
      let fields : Ip4Fields = record {
        tos = 0;
        total_length = length room % 65536;
        id = 0;
        ttl = 64;
        protocol = peer.proto % 256;
        src_addr = src;
        dst_addr = dst;
      } in
      rechecksum (w.encode_ip4 fields room) >>= λ ip. elim (write_pcap pcap ip) [
        | some e ↦ returns (stop, some ip)
        | none ↦ elim (inject ip) [
          | none ↦ returns (again, some ip)
          | some e ↦ returns (stop, some ip)
        ]
      ]
