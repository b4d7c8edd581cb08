-- ===== src/Server/Proxy.antt =====
-- server.go: the loops `serveConn` and `recvService`. What the connection, the raw socket and the
-- system answer are inputs; the packets that are sent are outputs. `PcapSender`, if it
-- is set, is what it answers to a packet.
pub mod Ways
pub mod Serving
pub mod Loops
pub mod Apart
use fatun.Base.{
  ℕ, ◌+◌, Bool, true, false, ◌||◌, List, [], ◌∷◌, Option, none, some, Error, Fallible, ok, err, Run,
  returns, panics, ◌>>=◌, if◌then◌else◌, ◌=ᵇ◌, drop, length,
}
use fatun.Net.{Addr, AddrPort, v4, tcp_number, udp_number}
use fatun.Packet.{HeaderLib}
use fatun.Conn.Peer.{Peer, reset}
use fatun.Links.{Uplink, Downlink}
use fatun.Links.Maps.{LinkManager, Env, uplink, downlink, add}
use fatun.Session.{downlink_of}
use fatun.Checksum.{Wire, TransportLib, transport_of, server}

-- What `Recv` gives: an error, which is temporary or not, or what was received.
pub data Received (A : Type 0) : Type 0 where
  failed : Bool → Received A
  received : A → Received A

-- Whether a loop goes on.
pub data Next : Type 0 where
  again stop : Next

-- `acceptService`: the connections that are served, and whether the loop ended.
pub accept_service : List (Received ℕ) → List ℕ × Next
accept_service [] = ([], again)
accept_service (failed temporary ∷ rs) =
    let rest = accept_service rs in if temporary then rest else ([], stop)
accept_service (received conn ∷ rs) = let (conns, next) = accept_service rs in (conn ∷ conns, next)

-- `s.PcapSender.WriteIP`, if it is set.
unfoldable pub write_pcap : Option (List ℕ → Option Error) → List ℕ → Option Error
write_pcap none ip = none
write_pcap (some write) ip = write ip

-- `s.Links.Uplink(up)`, and `s.Links.Add(up, conn)` if there is no link.
unfoldable pub local_port_of : Env → LinkManager → Uplink → ℕ → Run (Fallible ℕ × LinkManager)
local_port_of env t up conn =
    let (found, t') = uplink t up in
    elim found [ some p ↦ returns (ok p, t') | none ↦ add env t' up conn ]

module _ (w : Wire) where
  -- The uplink of a segment from a client.
  unfoldable pub uplink_of : TransportLib → AddrPort → Peer → List ℕ → Uplink
  uplink_of t remote peer pkt = record {
    process = record { addr = remote.addr; port = t.source_port pkt };
    proto = peer.proto;
    server = record { addr = peer.dst; port = t.destination_port pkt };
  }

  -- A round of `serveConn` with a segment: the packet to send, if there is one; a
  -- segment without its ports panics.
  pub forward :
      Env
      → ℕ
      → Addr
      → AddrPort
      → ℕ
      → LinkManager
      → TransportLib
      → Peer
      → List ℕ
      → Run (Option (List ℕ) × LinkManager)
  forward env ip4_id listener remote conn t tr peer pkt =
      let up = uplink_of tr remote peer pkt in
      if w.headers.reads_ports pkt
      then (local_port_of env t up conn >>= λ r. elim r.0 [
        | err e ↦ returns (none, r.1)
        | ok p ↦
            server w ip4_id pkt (record {
              server = up.server;
              proto = up.proto;
              local = record { addr = listener; port = p };
            })
            >>= λ ip. returns (some ip, r.1)
      ])
      else panics

  -- One round of `serveConn`, with the packet that it made; `pcap` is the capture file, and `send`
  -- what the raw socket answers to a packet.
  unfoldable pub serve_round :
      Option (List ℕ → Option Error)
      → (List ℕ → Option Error)
      → Env
      → ℕ
      → Addr
      → AddrPort
      → ℕ
      → LinkManager
      → Received (Peer × List ℕ)
      → Run (Next × Option (List ℕ) × LinkManager)
  serve_round pcap send env ip4_id listener remote conn t (failed temporary) =
      returns (if temporary then again else stop, none, t)
  serve_round pcap send env ip4_id listener remote conn t (received (peer, pkt)) =
      if (peer.proto =ᵇ tcp_number) || (peer.proto =ᵇ udp_number)
      then (transport_of w peer.proto >>= λ tr.
          forward env ip4_id listener remote conn t tr peer pkt >>= λ r. elim r.0 [
            | none ↦ returns (again, none, r.1)
            | some ip ↦ elim (write_pcap pcap ip) [
              | some e ↦ returns (stop, some ip, r.1)
              | none ↦ elim (send ip) [
                | none ↦ returns (again, some ip, r.1)
                | some e ↦ returns (stop, some ip, r.1)
              ]
            ]
          ])
      else returns (again, none, t)

  -- One round of `recvService`: the connection, the peer and the segment to send on it.
  unfoldable pub recv_round :
      Option (List ℕ → Option Error)
      → LinkManager
      → Peer
      → Received (List ℕ)
      → Run (Next × Option (ℕ × Peer × List ℕ))
  recv_round pcap t peer (failed temporary) = returns (if temporary then again else stop, none)
  recv_round pcap t peer (received ip) = downlink_of w.headers ip >>= λ stripped. elim stripped [
    | err e ↦ returns (again, none)
    | ok link ↦ elim (downlink t link) [
      | none ↦ returns (again, none)
      | some (conn, port) ↦ elim (write_pcap pcap ip) [
        | some e ↦ returns (stop, none)
        | none ↦
            let pkt = drop (w.headers.ip4_header_length ip) ip in
            if (link.proto =ᵇ tcp_number) || (link.proto =ᵇ udp_number)
            then (transport_of w link.proto >>= λ tr. returns (
              again,
              some (conn, reset link.proto link.server.addr peer, tr.set_destination_port port pkt),
            ))
            else returns (stop, none)
      ]
    ]
  ]
