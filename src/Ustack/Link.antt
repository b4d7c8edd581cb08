-- ===== src/Ustack/Link.antt =====
-- ustack/link/list.go, type List: the link endpoint of the user-space TCP stack.
pub mod Outbound
use fatun.Base.{
  ℕ, ◌+◌, Bool, true, false, Option, none, some, List, [], ◌∷◌, ◌++◌, Error, closed, no_buffer, Run,
  returns, panics, ◌>>=◌, if◌then◌else◌, length,
}
use fatun.Net.{AddrPort, addr_port_is_valid}
use fatun.Packet.{BufferLib}
use fatun.Ustack.Slice.{PacketBuffer, Slice, new_list, get, get_by, put}

-- `type List struct`; `attached` is whether it has a dispatcher.
pub record Link : Type 0 where
  pub queue : Slice
  pub is_closed : Bool
  pub attached : Bool
  pub mtu : ℕ

-- `NewList`
unfoldable pub new_link : ℕ → ℕ → Link
new_link buff mtu = record { queue = new_list buff; is_closed = false; attached = false; mtu = mtu }

-- `Attach`
pub attach_dispatcher : Bool → Link → Link
attach_dispatcher dispatcher l = record l { attached = dispatcher }

-- `Inbound`: the packet that the dispatcher is given, if there is one.
pub inbound : List ℕ → Link → Option (List ℕ)
inbound ip l = if l.attached then some ip else none

-- The loop of `WritePackets`, with the number of packets written before.
pub write_from : ℕ → List PacketBuffer → Slice → Run (ℕ × Option Error × Slice)
write_from i [] q = returns (i, none, q)
write_from i (p ∷ ps) q = put (some p) q >>= λ r. elim r.0 [
  | true ↦ write_from (i + 1) ps r.1
  | false ↦ returns (i, some no_buffer, r.1)
]

-- `WritePackets`
pub write_packets : List PacketBuffer → Link → Run (ℕ × Option Error × Link)
write_packets ps l =
    if l.is_closed
    then returns (0, some closed, l)
    else (write_from 0 ps l.queue >>= λ (i, e, q). returns (i, e, record l { queue = q }))

-- `pkb.AsSlices()`, one behind the other.
pub joined : List (List ℕ) → List ℕ
joined [] = []
joined (s ∷ ss) = s ++ joined ss

module _ (buf : BufferLib) where
  open buf use {lib, with_bytes}

  -- The part of `outboundBy` behind the wait: the packet's bytes replace the data, and the head is
  -- moved over the network header.
  pub fill : PacketBuffer → lib.Packet → lib.Packet
  fill pkb tcp =
      let whole = with_bytes (joined pkb.slices) tcp in
      lib.set_head (lib.head whole + length pkb.network_header) whole

  -- `outboundBy`: `none` while it waits for a packet; with an error, if the context has ended.
  unfoldable pub outbound_by :
      Option Error → AddrPort → Link → lib.Packet → Run (Option (Option Error × Link × lib.Packet))
  outbound_by ended dst l tcp =
      let found = if addr_port_is_valid dst then get_by dst l.queue else returns (get l.queue) in
      found >>= λ (pkb, q). elim pkb [
        | some p ↦ returns (some (none, record l { queue = q }, fill p tcp))
        | none ↦ elim ended [
          | some e ↦ returns (some (some e, record l { queue = q }, tcp))
          | none ↦ returns none
        ]
      ]
