-- ===== src/Ustack/Slice.antt =====
-- ustack/link/list.go, type slice, and ustack/link/link.go, match: a bounded queue of packets that
-- drops the oldest. A packet buffer of gVisor is seen through what the code reads of it; its
-- reference counts are not modelled.
pub mod Laws
pub mod Waiting
use fatun.Base.{
  ℕ, ◌+◌, ◌*◌, ◌^◌, ◌≡◌, Bool, true, false, Option, none, some, List, [], ◌∷◌, ◌++◌, Run, returns,
  panics, ◌>>=◌, if◌then◌else◌, ◌=ᵇ◌, length, max,
}
use fatun.Net.{Addr, v4, v6, invalid, AddrPort, addr_is_valid, tcp_number, udp_number}

-- What the code reads of a *stack.PacketBuffer: the protocol numbers, the destinations in the
-- transport header and in the network header of its protocol, that header, and all its bytes.
pub record PacketBuffer : Type 0 where
  pub transport : ℕ
  pub dst_port : ℕ
  pub network : ℕ
  pub dst_addr : ℕ
  pub network_header : List ℕ
  pub slices : List (List ℕ)

abbrev pub icmp4_number : ℕ
icmp4_number = 1

abbrev pub icmp6_number : ℕ
icmp6_number = 58

abbrev pub ipv4_number : ℕ
ipv4_number = 0x0800

abbrev pub ipv6_number : ℕ
ipv6_number = 0x86dd

-- Addr.As4 and Addr.As16, which panic on an address of the other kind; As16 maps an IPv4 address.
abbrev pub as4 : Addr → Run ℕ
as4 (v4 a) = returns a
as4 (v6 a) = panics
as4 invalid = panics

abbrev pub as16 : Addr → Run ℕ
as16 (v4 a) = returns (0xffff * 2 ^ 32 + a)
as16 (v6 a) = returns a
as16 invalid = panics

-- The first `switch` of `match`.
unfoldable pub port_matches : PacketBuffer → AddrPort → Run Bool
port_matches pkb dst =
    if pkb.transport =ᵇ tcp_number
    then returns (dst.port =ᵇ pkb.dst_port)
    else if pkb.transport =ᵇ udp_number
    then returns (dst.port =ᵇ pkb.dst_port)
    else if pkb.transport =ᵇ icmp4_number
    then returns (dst.port =ᵇ 0)
    else if pkb.transport =ᵇ icmp6_number
    then returns (dst.port =ᵇ 0)
    else panics

-- The second `switch`.
unfoldable pub addr_matches : PacketBuffer → AddrPort → Run Bool
addr_matches pkb dst =
    if pkb.network =ᵇ ipv4_number
    then (as4 dst.addr >>= λ a. returns (a =ᵇ pkb.dst_addr))
    else if pkb.network =ᵇ ipv6_number
    then (as16 dst.addr >>= λ a. returns (a =ᵇ pkb.dst_addr))
    else panics

-- `match`, for a packet that is not nil.
unfoldable pub matches : PacketBuffer → AddrPort → Run Bool
matches pkb dst =
    if addr_is_valid dst.addr
    then (port_matches pkb dst >>= λ m. if m then addr_matches pkb dst else returns false)
    else returns true

-- `type slice struct`: the slice and its capacity.
pub record Slice : Type 0 where
  pub s : List PacketBuffer
  pub cap : ℕ

-- `newSlice`, and the capacity that `NewList` gives it.
unfoldable pub new_slice : ℕ → Slice
new_slice size = record { s = []; cap = size }

unfoldable pub new_list : ℕ → Slice
new_list buff = new_slice (max buff 4)

-- `get`
pub get : Slice → Option PacketBuffer × Slice
get l = elim l.s [ [] ↦ (none, l) | p ∷ rest ↦ (some p, record l { s = rest }) ]

-- `Put`; nil is `none`. On a full slice of capacity 0 the packet to drop is nil.
pub put : Option PacketBuffer → Slice → Run (Bool × Slice)
put none l = returns (false, l)
put (some pkb) l =
    if length l.s =ᵇ l.cap
    then elim (get l).0 [
      | none ↦ panics
      | some d ↦ returns (true, record l { s = (get l).1.s ++ pkb ∷ [] })
    ]
    else returns (true, record l { s = l.s ++ pkb ∷ [] })

-- The loop of `getBy`.
unfoldable pub take_match :
    AddrPort → List PacketBuffer → Run (Option PacketBuffer × List PacketBuffer)
take_match dst [] = returns (none, [])
take_match dst (p ∷ ps) =
    let later = take_match dst ps >>= λ r. returns (r.0, p ∷ r.1) in
    matches p dst >>= λ m. if m then returns (some p, ps) else later

-- `getBy`
unfoldable pub get_by : AddrPort → Slice → Run (Option PacketBuffer × Slice)
get_by dst l = take_match dst l.s >>= λ r. returns (r.0, record l { s = r.1 })
