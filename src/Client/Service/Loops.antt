-- ===== src/Client/Service/Loops.antt =====
-- client.go: the whole loop `uplinkService`, and what it sends.
use fatun.Base.{
  Option-cases, inl, inr, ℕ, ◌+◌, ◌≡◌, refl, true, false, ◌||◌, List, [], ◌∷◌, ◌++◌, Option, none,
  some, Error, Run, returns, ◌>>=◌, if◌then◌else◌, ◌=ᵇ◌, length, drop, arith, All,
}
use fatun.Net.{tcp_number, udp_number, v4}
use fatun.Packet.{reads_ip4}
use fatun.Conn.Peer.{Peer, reset}
use fatun.Checksum.{Wire, transport_of, client, client_sum}
use fatun.Client.Service.{uplink_round}
use fatun.Server.Proxy.{Received, failed, received, Next, again, stop, write_pcap}
use fatun.Server.Proxy.Loops.{rounds}

module _ (w : Wire) where
  -- `uplinkService`; each capture comes with what the connection answers to `Send` then.
  pub uplink_service :
      Option (List ℕ → Option Error)
      → Peer
      → List ((Peer → List ℕ → Option Error) × Received (List ℕ))
      → Run (List (Peer × List ℕ) × Next)
  uplink_service pcap s turns =
      rounds
        (λ (p : Peer) (x : (Peer → List ℕ → Option Error) × Received (List ℕ)).
          uplink_round w pcap x.0 p x.1 >>= λ r. returns (r.0, r.1, p))
        s turns
      >>= λ l. returns (l.0, l.1)

  -- What a packet goes out as: its destination, and its data with the sum that `Client` leaves.
  pub outgoing : List ℕ → Peer × List ℕ
  outgoing ip =
      let h = w.headers in
      let view = if h.ip4_protocol ip =ᵇ tcp_number then w.tcp else w.udp in
      let payload = h.ip4_payload ip in
      (
        record { proto = h.ip4_protocol ip; dst = v4 (h.ip4_destination ip) },
        client_sum w view (h.ip4_protocol ip) (h.ip4_destination ip) payload
            ++ drop (h.ip4_header_length ip + length payload) ip,
      )

  -- The IP header and the transport header of a packet of TCP or UDP are whole.
  abbrev pub IsWhole : List ℕ → Type 0
  IsWhole ip =
      let view = if w.headers.ip4_protocol ip =ᵇ tcp_number then w.tcp else w.udp in
      (reads_ip4 w.headers ip ≡ true) × (view.reads_header (w.headers.ip4_payload ip) ≡ true)

  -- The capturer gives whole IPv4 packets of TCP and UDP, and errors.
  abbrev pub IsCaptured : (Peer → List ℕ → Option Error) × Received (List ℕ) → Type 0
  IsCaptured (send, failed temporary) = Unit {0}
  IsCaptured (send, received ip) =
      (w.headers.ip_version ip ≡ 4)
      × (((w.headers.ip4_protocol ip =ᵇ tcp_number) || (w.headers.ip4_protocol ip =ᵇ udp_number))
          ≡ true)
      × IsWhole ip

  -- What is sent before the first error that lasts, or with it if it is of `Send`, and whether the loop
  -- goes on.
  pub all_outgoing :
      List ((Peer → List ℕ → Option Error) × Received (List ℕ)) → List (Peer × List ℕ) × Next
  all_outgoing [] = ([], again)
  all_outgoing ((send, failed true) ∷ rest) = all_outgoing rest
  all_outgoing ((send, failed false) ∷ rest) = ([], stop)
  all_outgoing ((send, received ip) ∷ rest) =
      let (out, next) = all_outgoing rest in
      elim (send (outgoing ip).0 (outgoing ip).1) [
        | none ↦ (outgoing ip ∷ out, next)
        | some e ↦ (outgoing ip ∷ [], stop)
      ]

  uplink_round-outgoing :
      (send : Peer → List ℕ → Option Error) (s : Peer) (ip : List ℕ)
      → IsCaptured (send, received ip)
      → uplink_round w none send s (received ip) ≡ (elim (send (outgoing ip).0 (outgoing ip).1) [
        | none ↦ returns (again, some (outgoing ip))
        | some e ↦ returns (stop, some (outgoing ip))
      ])
  unfolding uplink_round outgoing write_pcap reset transport_of client
  uplink_round-outgoing send s ip (four, proto, whole) = ground (arith, four, proto, whole)

  uplink_rounds :
      (s : Peer) (turns : List ((Peer → List ℕ → Option Error) × Received (List ℕ)))
      → All IsCaptured turns
      → rounds
          (λ (p : Peer) (x : (Peer → List ℕ → Option Error) × Received (List ℕ)).
            uplink_round w none x.0 p x.1 >>= λ r. returns (r.0, r.1, p))
          s
          turns
        ≡ returns ((all_outgoing turns).0, (all_outgoing turns).1, s)
  unfolding rounds all_outgoing uplink_round
  uplink_rounds s [] h = refl
  uplink_rounds s ((send, failed true) ∷ rest) h = rw (uplink_rounds s rest h.1) refl
  uplink_rounds s ((send, failed false) ∷ rest) h = refl
  uplink_rounds s ((send, received ip) ∷ rest) h =
      let round = uplink_round-outgoing send s ip h.0 in
      elim (Option-cases (send (outgoing ip).0 (outgoing ip).1)) [
        | inl sent ↦ ground (arith, round, sent, uplink_rounds s rest h.1)
        | inr (e, bad) ↦ ground (arith, round, bad)
      ]

  -- Without a capture file, and as long as the capturer gives IPv4 packets of TCP and UDP whose
  -- IP and transport headers are whole, `uplinkService` does not panic: it hands each packet, in their order, to `Send` with its destination and
  -- its data with the sum that `Client` leaves, and it ends exactly at the first error of the
  -- capturer that lasts or at the first of `Send`, with nothing sent behind it.
  pub uplink_service-all_outgoing :
      (s : Peer) (turns : List ((Peer → List ℕ → Option Error) × Received (List ℕ)))
      → All IsCaptured turns
      → uplink_service none s turns ≡ returns (all_outgoing turns)
  unfolding uplink_service
  uplink_service-all_outgoing s turns h = rw (uplink_rounds s turns h) refl
