-- ===== src/Ustack/Link/Outbound.antt =====
-- ustack/link/list.go: what goes through a List, and what it loses.
use fatun.Base.{
  ℕ, ◌+◌, ◌≤◌, ◌≡◌, sym, ap, subst, ◌∙◌, inl, inr, true, false, Option, none, some, List, [], ◌∷◌,
  ◌++◌, Error, returns, length, drop, take, arith, Run-cases, Bool-cases, ◌=ᵇ◌,
}
use mathlib.Core.List.{append_assoc, append-nil}
use fatun.Net.{AddrPort, addr_port_is_valid}
use fatun.Packet.{BufferLib}
use fatun.Ustack.Slice.{PacketBuffer, Slice, get_by}
use fatun.Ustack.Slice.Laws.{IsValid, kept, put-kept, Took, get_by-Took}
use fatun.Ustack.Link.{Link, write_from, write_packets, joined, fill, outbound_by}

kept_lost : (q : Slice) → (lost : List PacketBuffer) × (q.s ≡ lost ++ kept q)
kept_lost q = elim (Bool-cases (length q.s =ᵇ q.cap)) [
  | inl full ↦ (take 1 q.s, ground (arith, full))
  | inr room ↦ ([], ground (arith, room))
]

write_from_lem :
    (i : ℕ) (ps : List PacketBuffer) (q : Slice)
    → IsValid q
    → (q' : Slice) × (lost : List PacketBuffer) × (write_from i ps q
        ≡ returns (i + length ps, none, q'))
      × IsValid q'
      × (q.s ++ ps ≡ lost ++ q'.s)
unfolding write_from
write_from_lem i [] q v = (q, [], ground arith, v, append-nil q.s)
write_from_lem i (p ∷ ps) q v =
    let (m, ran, valid, _, held) = put-kept p q v in
    let (q', lost, later, fine, kept_rest) = write_from_lem (i + 1) ps m valid in
    let (first, split) = kept_lost q in
    (
      q',
      first ++ lost,
      ground (arith, ran, later),
      fine,
      ap (λ xs. xs ++ p ∷ ps) split
          ∙ (append_assoc first (kept q) (p ∷ ps)
              ∙ (ap (λ xs. first ++ xs)
                    (sym (append_assoc (kept q) (p ∷ []) ps)
                      ∙ (ap (λ xs. xs ++ ps) (sym held) ∙ kept_rest))
                  ∙ sym (append_assoc first lost q'.s))),
    )

-- Writing packets to an open link with a valid queue writes all of them without an error and leaves
-- the queue valid; what the queue holds then is the end of what it held before with the packets
-- behind, so only the oldest packets are lost.
pub write_packets-joined :
    (ps : List PacketBuffer) (l : Link)
    → IsValid l.queue
    → l.is_closed ≡ false
    → (l' : Link) × (lost : List PacketBuffer) × (write_packets ps l
        ≡ returns (length ps, none, l'))
      × IsValid l'.queue
      × (l.queue.s ++ ps ≡ lost ++ l'.queue.s)
unfolding write_packets
write_packets-joined ps l v opened =
    let (q, lost, ran, valid, held) = write_from_lem 0 ps l.queue v in
    (record l { queue = q }, lost, ground (arith, ran, opened), valid, held)

module _ (buf : BufferLib) where
  open buf use {lib, with_bytes, set_head_twice, set_head-head, head-with_bytes, bytes-with_bytes}

  pub bytes-fill :
      (p : PacketBuffer) (tcp : lib.Packet)
      → length p.network_header ≤ length (joined p.slices)
      → lib.bytes (fill buf p tcp) ≡ drop (length p.network_header) (joined p.slices)
  unfolding fill
  bytes-fill p tcp fits =
      let whole = with_bytes (joined p.slices) tcp in
      let read = bytes-with_bytes (joined p.slices) tcp in
      lib.bytes-set_head (length p.network_header) whole (omega (arith, ap length read))
      ∙ ap (drop (length p.network_header)) read

  pub rewound :
      (p : PacketBuffer) (tcp : lib.Packet)
      → lib.bytes (lib.set_head (lib.head tcp) (fill buf p tcp)) ≡ joined p.slices
  unfolding fill
  rewound p tcp =
      let whole = with_bytes (joined p.slices) tcp in
      let back =
        subst (λ h. lib.set_head h whole ≡ whole) (head-with_bytes (joined p.slices) tcp)
          (set_head-head whole) in
      ap lib.bytes
        (set_head_twice (lib.head tcp) (lib.head whole + length p.network_header) whole ∙ back)
      ∙ bytes-with_bytes (joined p.slices) tcp

  -- When `outboundBy` for a valid destination returns without an error, it has taken the oldest
  -- packet of the queue for that destination and left the others in their order, and its caller has
  -- the bytes of that packet behind its network header.
  pub outbound_by-Took :
      (ended : Option Error) (dst : AddrPort) (l l' : Link) (tcp tcp' : lib.Packet)
      → addr_port_is_valid dst ≡ true
      → outbound_by buf ended dst l tcp ≡ returns (some (none, l', tcp'))
      → (p : PacketBuffer) × Took dst l.queue.s (some p) l'.queue.s × (tcp' ≡ fill buf p tcp)
  unfolding outbound_by
  outbound_by-Took ended dst l l' tcp tcp' valid ran = elim (Run-cases (get_by dst l.queue)) [
    | inl bad ↦ absurd (ground (arith, bad, valid, ran))
    | inr ((none, q), got) ↦ absurd (ground (arith, got, valid, ran))
    | inr ((some p, q), got) ↦
        let same : q ≡ l'.queue = ground (arith, got, valid, ran) in
        (
          p,
          subst (λ x. Took dst l.queue.s (some p) x.s) same
              (get_by-Took dst l.queue q (some p) got),
          ground (arith, got, valid, ran),
        )
  ]
