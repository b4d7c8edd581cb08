-- ===== src/Conn/Channel/Order.antt =====
-- conn/conn.go: packets kept from the handshake and datagrams that come later.
use fatun.Base.{ℕ, ◌≤◌, ◌≡◌, refl, ◌⊎◌, inl, inr, Option, List, [], ◌∷◌, ◌++◌, arith, All, length}
use mathlib.Core.List.{map}
use fatun.Packet.{BufferLib}
use fatun.Conn.Peer.{Peer}
use fatun.Conn.Channel.{
  PortLib, Channel, Reading, got, Round, inbound, ends, End, ended, give, round, recv_loop,
}

module _ (buf : BufferLib) (ports : PortLib) where
  Round-cases :
      (r : Round buf ports)
      → ((p : Option Peer) × (b : List ℕ) × (r ≡ inbound p b))
        ⊎ ((e : End buf ports) × (r ≡ ends e))
  Round-cases (inbound p b) = inl (p, b, refl)
  Round-cases (ends e) = inr (e, refl)

  -- A call of `Recv` makes of the packets kept from the handshake, if none is longer than its
  -- buffer, what it would make of them as datagrams that are read before the others: it ends in the
  -- same way and gives the stack the same packets in the same order.
  pub recv_loop-queue :
      (size : ℕ) (c : Channel) (peer : Option Peer) (pkt : buf.lib.Packet) (queue : List (List ℕ))
      (readings : List Reading)
      → All (λ b. length b ≤ size) queue
      → ((recv_loop buf ports size c peer pkt queue readings).end
          ≡ (recv_loop buf ports size c peer pkt [] (map got queue ++ readings)).end)
        × ((recv_loop buf ports size c peer pkt queue readings).inbox
            ≡ (recv_loop buf ports size c peer pkt [] (map got queue ++ readings)).inbox)
  unfolding recv_loop give ended
  recv_loop-queue size c peer pkt [] readings fit = (refl, refl)
  recv_loop-queue size c peer pkt (b ∷ queue) readings fit =
      elim (Round-cases (round buf ports c peer pkt b)) [
        | inl (p, tcp, e) ↦
            let (end, inbox) = recv_loop-queue size c p pkt queue readings fit.1 in
            (ground (arith, e, end), ground (arith, e, inbox))
        | inr (out, e) ↦ (ground (arith, e), ground (arith, e))
      ]
