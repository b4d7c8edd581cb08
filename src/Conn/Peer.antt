-- ===== src/Conn/Peer.antt =====
-- conn/peer.go, type defaultSession: the protocol and the IPv4 address that a packet goes to or
-- comes from, as five bytes before it. A nil receiver is `none`.
pub mod RoundTrip
use fatun.Base.{
  ℕ, zero, suc, ◌+◌, ◌*◌, ◌%◌, ◌^◌, Bool, true, false, ◌&&◌, ◌||◌, Option, none, some, List, [],
  ◌∷◌, Error, invalid_peer, nil_peer, short_packet, if◌then◌else◌, ltb, ◌=ᵇ◌, length, take, drop,
  get_or,
}
use fatun.Net.{
  Addr, v4, addr_is_valid, is4, is_unspecified, ipv4_unspecified, as_slice, tcp_number, udp_number,
}
use fatun.Packet.{PacketLib}

-- `type defaultSession struct`
pub record Peer : Type 0 where
  pub proto : ℕ
  pub dst : Addr

-- `Reset`
unfoldable pub reset : ℕ → Addr → Peer → Peer
reset proto remote p = record { proto = proto; dst = remote }

-- `Builtin`
unfoldable pub builtin : Peer
builtin = record { proto = tcp_number; dst = ipv4_unspecified }

-- `Valid`
unfoldable pub is_valid : Option Peer → Bool
is_valid none = false
is_valid (some p) =
    addr_is_valid p.dst && (is4 p.dst && ((p.proto =ᵇ tcp_number) || (p.proto =ᵇ udp_number)))

-- `IsBuiltin`
unfoldable pub is_builtin : Option Peer → Bool
is_builtin none = false
is_builtin (some p) =
    is_valid (some p) && (is4 p.dst && (is_unspecified p.dst && (p.proto =ᵇ tcp_number)))

-- `Overhead`
abbrev pub overhead : ℕ
overhead = 5

-- netip.AddrFrom4: the number that big-endian bytes stand for.
pub be_number : ℕ → List ℕ → ℕ
be_number acc [] = acc
be_number acc (b ∷ bs) = be_number (acc * 256 + b) bs

module _ (lib : PacketLib) where
  open lib use {Packet, bytes, head, set_head, attach}

  -- `Encode`: the error and the packet.
  pub encode : Option Peer → Packet → Option Error × Packet
  encode none pkt = (some invalid_peer, pkt)
  encode (some p) pkt =
      if is_valid (some p)
      then (none, attach ((p.proto % 256) ∷ []) (attach (as_slice p.dst) pkt))
      else (some invalid_peer, pkt)

  -- `Decode`: the error, the receiver and the packet.
  pub decode : Option Peer → Packet → Option Error × Option Peer × Packet
  decode none seg = (some nil_peer, none, seg)
  decode (some p) seg =
      let b = bytes seg in
      if ltb (length b) 5 then (some short_packet, some p, seg) else (
        none,
        some (record { proto = get_or b 0 0; dst = v4 (be_number 0 (take 4 (drop 1 b))) }),
        set_head (head seg + 5) seg,
      )
