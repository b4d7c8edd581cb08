-- ===== src/Tests/Tunnels.antt =====
-- A datagram of a process to its server and the answer to it, from end to end.
use fatun.Base.{
  ℕ, ◌≡◌, refl, ap, Option, none, some, List, [], ◌∷◌, arith, Error, closed, true, Fallible, ok,
  Run, returns, panics,
}
use fatun.Base.Maps.{lookup, insert, delete}
use fatun.Net.{AddrPort, v4}
use fatun.Ports.AddrSet.{AddrSet, search_loop, sort_search, find, has, sort_insert, sort}
use fatun.Ports.AddrSet
use fatun.Ports.Manager.{get_udp_port}
use fatun.Ports.Adapter.{reuse, alloc, record_use, take_port, get_port}
use fatun.Conn.Peer.{Peer}
use fatun.Conn.Channel.{got, send, recv_loop, delivers, ended}
use fatun.Checksum.{transport_of, client_sum}
use fatun.Links.Heap.{put, put_at, grow, pop, new_heap}
use fatun.Links.{Uplink}
use fatun.Links.Maps.{
  LinkManager, down_of, downlink, uplink, sweep, drop_downlinks, drop_ports, cleanup, add_link, add,
}
use fatun.Links.Maps.Invariant.{link_at}
use fatun.Session.{downlink_of}
use fatun.Client.Service.{uplink_round, downlink_round}
use fatun.Client.Service.Loops.{uplink_service, all_outgoing, uplink_service-all_outgoing}
use fatun.Server.Proxy.{
  Received, failed, received, again, uplink_of, local_port_of, write_pcap, serve_round, recv_round,
}
use fatun.Tunnel.{Carries}
use fatun.Tunnel.Uplink.{peer_of, segment_of, uplink_reaches}
use fatun.Tunnel.Downlink.{sender_of, answer_to, reply_reaches}
use fatun.Tests.Links.{empty, env}
use fatun.Tests.Buffers.{buffers, front_packets, tcp_ports}
use fatun.Tests.Channels.{near, far, web_peer}
use fatun.Tests.Wire.{wire, udp_views}
use fatun.Tests.Sums.{udp_laws}
use fatun.Tests.Headers.{header_laws}

abbrev takes : List ℕ → Option Error
takes x = none

abbrev client : AddrPort
client = record { addr = v4 167772162; port = 30000 }

-- A datagram from 10.0.0.2:4000 to 8.8.8.8:53.
abbrev question : List ℕ
question =
    69 ∷ 0 ∷ 0 ∷ 28 ∷ 0 ∷ 0 ∷ 0 ∷ 0 ∷ 64 ∷ 17 ∷ 0 ∷ 0 ∷ 10 ∷ 0 ∷ 0 ∷ 2 ∷ 8 ∷ 8 ∷ 8 ∷ 8 ∷ 15 ∷ 160
    ∷ 0 ∷ 53 ∷ 0 ∷ 8 ∷ 0 ∷ 0 ∷ []

-- A datagram from 8.8.8.8:53 to 0.0.0.1:5000.
abbrev answer : List ℕ
answer =
    69 ∷ 0 ∷ 0 ∷ 28 ∷ 0 ∷ 0 ∷ 0 ∷ 0 ∷ 64 ∷ 17 ∷ 0 ∷ 0 ∷ 8 ∷ 8 ∷ 8 ∷ 8 ∷ 0 ∷ 0 ∷ 0 ∷ 1 ∷ 0 ∷ 53 ∷ 19
    ∷ 136 ∷ 0 ∷ 8 ∷ 0 ∷ 0 ∷ []

abbrev room : front_packets.Packet
room = ([], [])

by_udp : transport_of wire 17 ≡ returns udp_views
unfolding transport_of
by_udp = refl

abbrev manager_of : Run (Fallible ℕ × LinkManager) → LinkManager
manager_of (returns (out, t)) = t
manager_of panics = empty

abbrev linked : LinkManager
linked = manager_of (
    local_port_of env empty
      (uplink_of wire udp_views client (peer_of wire question) (segment_of wire udp_views question))
      1)

found :
    local_port_of env empty
      (uplink_of wire udp_views client (peer_of wire question) (segment_of wire udp_views question))
      1
    ≡ returns (ok 5000, linked)
unfolding local_port_of uplink_of uplink add cleanup sweep pop put put_at grow drop_downlinks
    drop_ports add_link new_heap get_port reuse alloc get_udp_port take_port record_use lookup
    insert delete AddrSet.add has find sort_search search_loop sort sort_insert
found = refl

abbrev answer_of : Run (Option Error × Option (List ℕ)) → Option Error
answer_of (returns (e, d)) = e
answer_of panics = none

abbrev answers : Peer → List ℕ → Option Error
answers to x =
    answer_of (send buffers tcp_ports none takes near (some to) (buffers.with_bytes x room))

kept_file : (x : List ℕ) → write_pcap (some takes) x ≡ none
unfolding write_pcap
kept_file x = refl

kept_none : (x : List ℕ) → write_pcap none x ≡ none
unfolding write_pcap
kept_none x = refl

uplink_reaches_example :
    (d : List ℕ) × (r : front_packets.Packet) × (out : List ℕ) × (uplink_round wire
        (some takes)
        answers
        web_peer
        (received question)
      ≡ returns (again, some (peer_of wire question, segment_of wire udp_views question)))
    × (send buffers tcp_ports none takes near
          (some (peer_of wire question))
          (buffers.with_bytes (segment_of wire udp_views question) room)
        ≡ returns (none, some d))
    × (recv_loop buffers tcp_ports 1500 far (some web_peer) room [] (got d ∷ [])
        ≡ ended buffers tcp_ports (delivers (some (peer_of wire question)) r) [] [])
    × (serve_round wire none takes env 0
          (v4 1)
          client
          1
          empty
          (received (peer_of wire question, front_packets.bytes r))
        ≡ returns (again, some out, linked))
    × Carries wire udp_views 17 1 134744072
        (udp_views.set_source_port 5000 (
          udp_views.set_transport_checksum 0
            (udp_views.set_source_port 0 (wire.headers.ip4_payload question))))
        out
uplink_reaches_example =
    uplink_reaches wire buffers tcp_ports header_laws (some takes) none takes takes answers near far
      env 0 client 1 5000 1 1500 empty linked udp_views udp_laws web_peer web_peer question room
      room [] refl refl by_udp refl (omega arith) (omega arith) (omega arith) (omega arith)
      kept_file kept_none (λ x. refl) (λ x. refl) (λ to x d e h. ap answer_of h) refl refl
      (omega arith) (omega arith) found

abbrev dns : Uplink
dns = record {
  process = record { addr = v4 167772162; port = 4000 };
  proto = 17;
  server = record { addr = v4 134744072; port = 53 };
}

stripped : downlink_of wire.headers answer ≡ returns (ok (down_of (v4 1) (link_at (v4 1) dns 5000)))
unfolding downlink_of
stripped = refl

routed : downlink linked (down_of (v4 1) (link_at (v4 1) dns 5000)) ≡ some (1, 4000)
unfolding downlink client_sum local_port_of uplink_of uplink add cleanup sweep pop put put_at grow
    drop_downlinks drop_ports add_link new_heap get_port reuse alloc get_udp_port take_port
    record_use lookup insert delete AddrSet.add has find sort_search search_loop sort sort_insert
routed = refl

reply_reaches_example :
    (b : List ℕ) × (r : front_packets.Packet) × (out : List ℕ) × (recv_round wire none linked
        web_peer
        (received answer)
      ≡ returns (again, some (1, sender_of wire answer, answer_to wire udp_views 4000 answer)))
    × (send buffers tcp_ports none takes far
          (some (sender_of wire answer))
          (buffers.with_bytes (answer_to wire udp_views 4000 answer) room)
        ≡ returns (none, some b))
    × (recv_loop buffers tcp_ports 1500 near (some web_peer) room [] (got b ∷ [])
        ≡ ended buffers tcp_ports (delivers (some (sender_of wire answer)) r) [] [])
    × (downlink_round wire
          (some takes)
          takes
          (v4 167772162)
          (received (sender_of wire answer, front_packets.bytes r))
        ≡ returns (again, some out))
    × Carries wire udp_views 17 134744072 167772162
        (udp_views.set_transport_checksum 0 (answer_to wire udp_views 4000 answer))
        out
reply_reaches_example =
    reply_reaches wire header_laws udp_views udp_laws buffers tcp_ports (some takes) none takes
      takes far near 1 4000 167772162 1500 linked web_peer web_peer answer
      (down_of (v4 1) (link_at (v4 1) dns 5000)) room room [] stripped routed by_udp (omega arith)
      (omega arith) (omega arith) (omega arith) (omega arith) kept_file kept_none (λ x. refl)
      (λ x. refl) refl

-- A capture, an error that does not last, a packet that the connection refuses, and one more.
abbrev captures : List ((Peer → List ℕ → Option Error) × Received (List ℕ))
captures =
    (answers, received question)
    ∷ (answers, failed true)
    ∷ ((λ to x. some closed), received answer)
    ∷ (answers, received question)
    ∷ []

uplink_service-all_outgoing_example :
    uplink_service wire none web_peer captures ≡ returns (all_outgoing wire captures)
uplink_service-all_outgoing_example = uplink_service-all_outgoing wire web_peer captures (
  (refl, refl, (refl, refl)),
  (tt, ((refl, refl, (refl, refl)), ((refl, refl, (refl, refl)), tt))),
)
