-- ===== src/Tests/Proxy.antt =====
-- A segment of a client and the answer to it.
use fatun.Base.{
  ℕ, ◌≡◌, refl, sym, subst, true, false, Option, none, some, List, [], ◌∷◌, arith, drop, replicate,
  Error, ok, Run, returns, panics,
}
use fatun.Net.{AddrPort, v4}
use fatun.Conn.Peer.{Peer, reset}
use fatun.Links.{Uplink}
use fatun.Links.Maps.{down_of}
use fatun.Links.Maps.Invariant.{IsValid, link_at}
use fatun.Session.{downlink_of}
use fatun.Checksum.{TransportLib, transport_of, server, server_packet, server_sum, as4}
use fatun.Server.Proxy.{
  write_pcap, uplink_of, Received, received, failed, again, serve_round, recv_round,
}
use fatun.Server.Proxy.Ways.{there_and_back}
use fatun.Server.Proxy.Serving.{IsReady, Step, serves, serves_none}
use fatun.Base.Maps.{lookup, insert, delete}
use fatun.Ports.AddrSet.{has, find, sort_search, search_loop, sort, sort_insert}
use fatun.Ports.AddrSet
use fatun.Ports.Manager.{new_mgr, get_tcp_port}
use fatun.Ports.Adapter.{new_adapter, get_port, reuse, alloc, take_port, record_use}
use fatun.Links.Heap.{new_heap, put, put_at, grow, pop}
use fatun.Links.Maps.{
  LinkManager, new_link_manager, new_link_manager_on, downlink, new_port, add, add_link, cleanup,
  sweep, drop_downlinks, drop_ports,
}
use fatun.Links.Maps.Registered.{reg}
use fatun.Server.Proxy.Apart.{Brought, served_apart}
use fatun.Server.Proxy.Loops.{recv_service, all_routed, recv_service-all_routed}
use fatun.Base.Runs.{Runs, here, later}
use fatun.Tests.Links.{
  up, empty, env, linked, empty-IsValid, Visits-up, IsFresh-up, unregistered_up, added_up,
}
use fatun.Tests.Wire.{wire, tcp_views}

abbrev client : AddrPort
client = record { addr = v4 167772162; port = 30000 }

abbrev peer : Peer
peer = record { proto = 6; dst = v4 16843009 }

-- A TCP header from port 4000 to port 80.
abbrev segment : List ℕ
segment = 15 ∷ 160 ∷ 0 ∷ 80 ∷ replicate 16 0

carried : uplink_of wire tcp_views client peer segment ≡ up
unfolding uplink_of write_pcap
carried = refl

abbrev packet_of : Run (List ℕ) → List ℕ
packet_of (returns ip) = ip
packet_of _ = []

abbrev sent : List ℕ
sent = packet_of (server wire 0 segment (down_of (v4 1) (link_at (v4 1) up 5000)))

-- An IPv4 packet from port 80 of the server to port 5000.
abbrev reply : List ℕ
reply =
    69
    ∷ 0
    ∷ 0
    ∷ 40
    ∷ 0
    ∷ 0
    ∷ 0
    ∷ 0
    ∷ 64
    ∷ 6
    ∷ 0
    ∷ 0
    ∷ 1
    ∷ 1
    ∷ 1
    ∷ 1
    ∷ 0
    ∷ 0
    ∷ 0
    ∷ 1
    ∷ 0
    ∷ 80
    ∷ 19
    ∷ 136
    ∷ replicate 16 0

by_tcp : transport_of wire 6 ≡ returns tcp_views
unfolding transport_of
by_tcp = refl

wrote : server wire 0 segment (down_of (v4 1) (link_at (v4 1) up 5000)) ≡ returns sent
unfolding server server_packet server_sum transport_of as4
wrote = refl

stripped : downlink_of wire.headers reply ≡ returns (ok (down_of (v4 1) (link_at (v4 1) up 5000)))
unfolding downlink_of
stripped = refl

abbrev takes : List ℕ → Option Error
takes ip = none

there_and_back_example :
    (serve_round wire (some takes) takes env 0 (v4 1) client 1 empty (received (peer, segment))
      ≡ returns (again, some sent, linked))
    × IsValid linked
    × (recv_round wire (some takes) linked peer (received reply)
        ≡ returns (
          again,
          some (
            1,
            reset 6 (v4 16843009) peer,
            tcp_views.set_destination_port 4000 (drop (wire.headers.ip4_header_length reply) reply),
          ),
        ))
unfolding uplink_of write_pcap
there_and_back_example =
    there_and_back wire (some takes) takes env 0 client 1 empty linked tcp_views peer peer segment
      sent reply 5000 empty-IsValid refl (omega arith) (omega arith) unregistered_up Visits-up
      IsFresh-up added_up by_tcp wrote refl refl refl stripped

-- The manager has room for the uplink, and the system opens the port 5000.
IsReady-up : IsReady env empty up 1
unfolding lookup
IsReady-up = record {
  room = λ d e. absurd (ground arith);
  small = omega arith;
  word = λ p t' e. ground (arith, e, added_up);
  visits = Visits-up;
  fresh = IsFresh-up;
}

the_view : (view : TransportLib) → transport_of wire 6 ≡ returns view → tcp_views ≡ view
the_view view e = ground (arith, e, by_tcp)

ready :
    (view : TransportLib)
    → transport_of wire 6 ≡ returns view
    → IsReady env empty (uplink_of wire view client peer segment) 1
ready view e =
    subst (λ v. IsReady env empty (uplink_of wire v client peer segment) 1) (the_view view e)
      (subst (λ u. IsReady env empty u 1) (sym carried) IsReady-up)

first_round :
    serve_round wire (some takes) takes env 0 (v4 1) client 1 empty (received (peer, segment))
    ≡ returns (again, some sent, linked)
unfolding uplink_of write_pcap
first_round =
    (there_and_back wire (some takes) takes env 0 client 1 empty linked tcp_views peer peer segment
      sent reply 5000 empty-IsValid refl (omega arith) (omega arith) unregistered_up Visits-up
      IsFresh-up added_up by_tcp wrote refl refl refl stripped).0

-- A round of the client's connection, and one of its connection without a packet.
serving : Runs (Step wire) empty linked
unfolding serve_round
serving =
    later
      (later here
        (serves (some takes) takes env 0 client 1 peer segment again (some sent) ready first_round))
      (serves_none none takes env 0 client 1 true again none refl)

fresh_links : new_link_manager 1000 (v4 1) ≡ returns empty
unfolding new_link_manager new_link_manager_on new_adapter new_mgr
fresh_links = refl

registered : reg linked.uplink_map up ≡ some 5000
unfolding add cleanup sweep pop put put_at grow drop_downlinks drop_ports add_link new_heap get_port
    reuse alloc get_tcp_port take_port record_use lookup insert delete AddrSet.add has find
    sort_search search_loop sort sort_insert new_port
registered = refl

served_apart_example :
    ((conn : ℕ) × (downlink linked (down_of linked.addr (link_at linked.addr up 5000))
        ≡ some (conn, 4000))
      × Brought wire up conn serving)
    × ((v : Uplink) (q : ℕ)
        → reg linked.uplink_map v ≡ some q
        → down_of linked.addr (link_at linked.addr up 5000)
          ≡ down_of linked.addr (link_at linked.addr v q)
        → up ≡ v)
served_apart_example =
    served_apart wire 1000 (v4 1) empty linked up 5000 fresh_links serving registered

-- A packet of another version, an error that lasts not, the answer, and an error that lasts before a packet
-- that is cut off.
abbrev turns : List (LinkManager × Received (List ℕ))
turns =
    (linked, received (96 ∷ []))
    ∷ (linked, failed true)
    ∷ (linked, received reply)
    ∷ (linked, failed false)
    ∷ (linked, received (69 ∷ []))
    ∷ []

recv_service-all_routed_example : recv_service wire none peer turns ≡ all_routed wire turns
recv_service-all_routed_example = recv_service-all_routed wire peer turns

-- A packet that is cut off panics.
cut_off : all_routed wire ((linked, received (69 ∷ [])) ∷ []) ≡ panics
unfolding all_routed
cut_off = refl
