-- ===== src/Server/Proxy/Loops.antt =====
-- server.go: the whole loop `recvService`, and what it sends.
use fatun.Base.{
  Run-cases, Bool-cases, Fallible, Option-cases, inl, inr, ℕ, ◌≡◌, refl, Bool, true, false, not,
  ◌&&◌, ◌||◌, List, [], ◌∷◌, ◌++◌, Option, none, some, Error, ok, err, Run, returns, panics, ◌>>=◌,
  if◌then◌else◌, ◌=ᵇ◌, drop, arith,
}
use fatun.Net.{tcp_number, udp_number}
use fatun.Packet.{reads_ip4}
use fatun.Conn.Peer.{Peer, reset}
use fatun.Links.{Downlink}
use fatun.Links.Maps.{LinkManager, downlink}
use fatun.Session.{downlink_of}
use fatun.Checksum.{Wire, transport_of}
use fatun.Server.Proxy.{Received, failed, received, Next, again, stop, write_pcap, recv_round}

-- What a round sent, as a list.
abbrev pub listed {ℓ} : {A : Type ℓ} → Option A → List A
listed none = []
listed (some a) = a ∷ []

-- A loop with its rounds: what they sent, whether it goes on, and the state that they leave.
unfoldable pub rounds {ℓ κ μ} :
    {S : Type ℓ} {A : Type κ} {B : Type μ}
    → (S → A → Run (Next × Option B × S))
    → S
    → List A
    → Run (List B × Next × S)
rounds round s [] = returns ([], again, s)
rounds round s (a ∷ rest) = round s a >>= λ r. elim r.0 [
  | stop ↦ returns (listed r.1, stop, r.2)
  | again ↦ rounds round r.2 rest >>= λ l. returns (listed r.1 ++ l.0, l.1, l.2)
]

module _ (w : Wire) where
  -- `recvService`: each packet meets the manager as it is then.
  pub recv_service :
      Option (List ℕ → Option Error)
      → Peer
      → List (LinkManager × Received (List ℕ))
      → Run (List (ℕ × Peer × List ℕ) × Next)
  recv_service pcap peer turns =
      rounds
        (λ (s : Peer) (x : LinkManager × Received (List ℕ)).
          recv_round w pcap x.0 s x.1 >>= λ r. returns (r.0, r.1, s))
        peer turns
      >>= λ l. returns (l.0, l.1)

  -- A packet that `StripIP` can read: one of another version, one of another protocol with its protocol field, or one
  -- with its addresses and the ports in its payload.
  abbrev pub readable : List ℕ → Bool
  readable ip =
      let h = w.headers in
      not (h.ip_version ip =ᵇ 4)
      || (h.reads_ip4_protocol ip
          && (not ((h.ip4_protocol ip =ᵇ tcp_number) || (h.ip4_protocol ip =ᵇ udp_number))
              || (reads_ip4 h ip && h.reads_ports (h.ip4_payload ip))))

  -- Where a packet goes: to the connection of its downlink, with the port of the client.
  pub route : LinkManager → List ℕ → Option (ℕ × Peer × List ℕ)
  route t ip = elim (downlink_of w.headers ip) [
    | panics ↦ none
    | returns (err e) ↦ none
    | returns (ok d) ↦ elim (downlink t d) [
      | none ↦ none
      | some (conn, port) ↦
          let view = if d.proto =ᵇ tcp_number then w.tcp else w.udp in
          some (
            conn,
            record { proto = d.proto; dst = d.server.addr },
            view.set_destination_port port (drop (w.headers.ip4_header_length ip) ip),
          )
    ]
  ]

  -- All packets up to the first error that lasts, and whether the loop goes on; a packet that cannot be
  -- read is a panic.
  unfoldable pub all_routed :
      List (LinkManager × Received (List ℕ)) → Run (List (ℕ × Peer × List ℕ) × Next)
  all_routed [] = returns ([], again)
  all_routed ((t, failed true) ∷ rest) = all_routed rest
  all_routed ((t, failed false) ∷ rest) = returns ([], stop)
  all_routed ((t, received ip) ∷ rest) =
      let others = all_routed rest in
      if readable ip then (others >>= λ l. returns (listed (route t ip) ++ l.0, l.1)) else panics

  downlink_of-proto :
      (ip : List ℕ) (d : Downlink)
      → downlink_of w.headers ip ≡ returns (ok d)
      → ((d.proto =ᵇ tcp_number) || (d.proto =ᵇ udp_number)) ≡ true
  unfolding downlink_of
  downlink_of-proto ip d e = ground (arith, e)

  readable-panics : (ip : List ℕ) → downlink_of w.headers ip ≡ panics → readable ip ≡ false
  unfolding downlink_of
  readable-panics ip e = ground (arith, e)

  readable-returns :
      (ip : List ℕ) (r : Fallible Downlink)
      → downlink_of w.headers ip ≡ returns r
      → readable ip ≡ true
  unfolding downlink_of
  readable-returns ip r e = ground (arith, e)

  recv_round-route :
      (t : LinkManager) (peer : Peer) (ip : List ℕ)
      → recv_round w none t peer (received ip)
        ≡ (if readable ip then returns (again, route t ip) else panics)
  unfolding recv_round route write_pcap reset transport_of
  recv_round-route t peer ip = elim (Run-cases (downlink_of w.headers ip)) [
    | inl bad ↦ ground (arith, bad, readable-panics ip bad)
    | inr (err e, bad) ↦ ground (arith, bad, readable-returns ip (err e) bad)
    | inr (ok d, good) ↦ elim (Option-cases (downlink t d)) [
      | inl unknown ↦ ground (arith, good, unknown, readable-returns ip (ok d) good)
      | inr (x, known) ↦
          ground (arith, good, known, downlink_of-proto ip d good, readable-returns ip (ok d) good)
    ]
  ]

  recv_rounds :
      (peer : Peer) (turns : List (LinkManager × Received (List ℕ)))
      → rounds
          (λ (s : Peer) (x : LinkManager × Received (List ℕ)).
            recv_round w none x.0 s x.1 >>= λ r. returns (r.0, r.1, s))
          peer
          turns
        ≡ (all_routed turns >>= λ l. returns (l.0, l.1, peer))
  unfolding rounds all_routed recv_round
  recv_rounds peer [] = refl
  recv_rounds peer ((t, failed true) ∷ rest) = elim (Run-cases (all_routed rest)) [
    | inl bad ↦ ground (arith, bad, recv_rounds peer rest)
    | inr (l, ran) ↦ ground (arith, ran, recv_rounds peer rest)
  ]
  recv_rounds peer ((t, failed false) ∷ rest) = refl
  recv_rounds peer ((t, received ip) ∷ rest) = elim (Bool-cases (readable ip)) [
    | inl whole ↦ elim (Run-cases (all_routed rest)) [
      | inl bad ↦ ground (arith, recv_round-route t peer ip, whole, bad, recv_rounds peer rest)
      | inr (l, ran) ↦ ground (arith, recv_round-route t peer ip, whole, ran, recv_rounds peer rest)
    ]
    | inr short ↦ ground (arith, recv_round-route t peer ip, short)
  ]

  -- Without a capture file, whatever the raw socket gives and however the links change meanwhile:
  -- `recvService` panics exactly if it meets a packet that `StripIP` cannot read before an error
  -- that lasts, that is an IPv4 packet without its protocol field, or one of TCP or UDP without its addresses or the
  -- ports in its payload. Else it sends exactly the packets whose downlink it reads and the manager then
  -- knows, in their order, each to the connection of its link with the client's port, up to the
  -- first error that lasts, and it ends at that error only.
  pub recv_service-all_routed :
      (peer : Peer) (turns : List (LinkManager × Received (List ℕ)))
      → recv_service none peer turns ≡ all_routed turns
  unfolding recv_service
  recv_service-all_routed peer turns = elim (Run-cases (all_routed turns)) [
    | inl bad ↦ rw (recv_rounds peer turns) (ground (arith, bad))
    | inr (l, ran) ↦ rw (recv_rounds peer turns) (ground (arith, ran))
  ]
