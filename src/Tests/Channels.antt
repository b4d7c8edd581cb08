-- ===== src/Tests/Channels.antt =====
-- A datagram connection with a cipher at both ends.
use fatun.Base.{
  ℕ, ◌≡◌, refl, false, true, Option, none, some, List, [], ◌∷◌, arith, Error, returns, replicate,
}
use fatun.Net.{AddrPort, v4}
use fatun.Conn.Peer.{Peer, is_valid, is_builtin, builtin}
use fatun.Conn.Channel.{Channel, client, server, Reading, got, send, outbound, recv_loop, give}
use fatun.Conn.Channel.RoundTrip.{Arrives, recv_loop-send}
use fatun.Conn.Channel.Builtin.{end_of, recv_loop-outbound}
use fatun.Tests.Wire.{tagging}
use fatun.Tests.Buffers.{buffers, front_packets, tcp_ports, port_laws}

abbrev pub near : Channel
near = record { role = client; nat_port = 4000; crypto = some tagging }

abbrev pub far : Channel
far = record { role = server; nat_port = 4000; crypto = some tagging }

abbrev takes : List ℕ → Option Error
takes w = none

abbrev pub web_peer : Peer
web_peer = record { proto = 6; dst = v4 16843009 }

-- A TCP segment behind 64 bytes of room.
abbrev segment : front_packets.Packet
segment = (replicate 64 0, 15 ∷ 160 ∷ 0 ∷ 80 ∷ 1 ∷ 2 ∷ 3 ∷ [])

web_peer-is_valid : is_valid (some web_peer) ≡ true
unfolding is_valid
web_peer-is_valid = refl

web_peer-is_builtin : is_builtin (some web_peer) ≡ false
unfolding is_builtin is_valid builtin
web_peer-is_builtin = refl

recv_loop-send_example :
    (w : List ℕ) × (send buffers tcp_ports none takes near (some web_peer) segment
      ≡ returns (none, some w))
    × Arrives buffers tcp_ports far web_peer (front_packets.bytes segment) w
recv_loop-send_example =
    recv_loop-send buffers tcp_ports takes near far web_peer 16843009 segment (λ w. refl) refl
      (omega arith) web_peer-is_valid web_peer-is_builtin refl

abbrev client_side : AddrPort
client_side = record { addr = v4 7; port = 4000 }

abbrev server_side : AddrPort
server_side = record { addr = v4 9; port = 80 }

-- The server gets the segment, in which the client's port is still 4000.
recv_loop-outbound_example :
    (w : List ℕ) × (out : List ℕ) × (outbound buffers tcp_ports takes segment ≡ (none, some w))
    × ((size : ℕ) (q : Peer) (pkt : front_packets.Packet) (readings : List Reading)
        → recv_loop buffers tcp_ports size
            (end_of buffers tcp_ports server_side client_side server (some tagging))
            (some q)
            pkt
            []
            (got w ∷ readings)
          ≡ give buffers tcp_ports out (
              recv_loop buffers tcp_ports size
                (end_of buffers tcp_ports server_side client_side server (some tagging))
                (some builtin)
                pkt
                []
                readings))
    × (port_laws.source_port out ≡ 4000)
    × (port_laws.destination_port out ≡ 80)
recv_loop-outbound_example =
    recv_loop-outbound buffers tcp_ports port_laws takes server_side client_side server
      (some tagging) segment (λ w. refl) refl (omega arith) (omega arith) refl

-- A packet of the builtin connection and one for the web server, both sealed or plain as they come.
abbrev kept_packets : List (List ℕ)
kept_packets = (6 ∷ 0 ∷ 0 ∷ 0 ∷ 0 ∷ 1 ∷ 2 ∷ []) ∷ (6 ∷ 1 ∷ 1 ∷ 1 ∷ 1 ∷ 7 ∷ []) ∷ []
