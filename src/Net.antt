-- ===== src/Net.antt =====
-- The part of Go's net/netip that the program uses: addresses, address and port, their order, and
-- the transport protocol numbers. An IPv4 address is a number below 2^32, an IPv6 address one
-- below 2^128; zones are not modelled, since the program makes no address with a zone.
pub mod Order
use fatun.Base.{
  ℕ, zero, suc, ◌/◌, ◌%◌, ◌^◌, ◌≡◌, ◌↔◌, Bool, true, false, ◌&&◌, List, [], ◌∷◌, arith, Comparable,
  ◌=ᵇ◌, ltb, if◌then◌else◌, ◌==◌,
}

-- netip.Addr; the zero value is `invalid`.
pub data Addr : Type 0 where
  invalid : Addr
  v4 : ℕ → Addr
  v6 : ℕ → Addr

abbrev pub addr_eq : Addr → Addr → Bool
addr_eq invalid invalid = true
addr_eq (v4 a) (v4 b) = a =ᵇ b
addr_eq (v6 a) (v6 b) = a =ᵇ b
addr_eq _ _ = false

pub addr_eq_iff : (a b : Addr) → (addr_eq a b ≡ true) ↔ (a ≡ b)
addr_eq_iff invalid invalid = ground arith
addr_eq_iff invalid (v4 b) = ground arith
addr_eq_iff invalid (v6 b) = ground arith
addr_eq_iff (v4 a) invalid = ground arith
addr_eq_iff (v4 a) (v4 b) = ground arith
addr_eq_iff (v4 a) (v6 b) = ground arith
addr_eq_iff (v6 a) invalid = ground arith
addr_eq_iff (v6 a) (v4 b) = ground arith
addr_eq_iff (v6 a) (v6 b) = ground arith

instance abbrev pub addr_has_eq : Comparable Addr
addr_has_eq = record { same = addr_eq; same_iff = addr_eq_iff }

-- Addr.IsValid, Addr.Is4, Addr.IsUnspecified
abbrev pub addr_is_valid : Addr → Bool
addr_is_valid invalid = false
addr_is_valid (v4 a) = true
addr_is_valid (v6 a) = true

abbrev pub is4 : Addr → Bool
is4 (v4 a) = true
is4 _ = false

abbrev pub is_unspecified : Addr → Bool
is_unspecified invalid = false
is_unspecified (v4 a) = a =ᵇ 0
is_unspecified (v6 a) = a =ᵇ 0

-- netip.IPv4Unspecified()
abbrev pub ipv4_unspecified : Addr
ipv4_unspecified = v4 0

-- Addr.Less: by the number of bits, then by the value.
abbrev pub addr_less : Addr → Addr → Bool
addr_less invalid invalid = false
addr_less invalid (v4 b) = true
addr_less invalid (v6 b) = true
addr_less (v4 a) invalid = false
addr_less (v4 a) (v4 b) = ltb a b
addr_less (v4 a) (v6 b) = true
addr_less (v6 a) invalid = false
addr_less (v6 a) (v4 b) = false
addr_less (v6 a) (v6 b) = ltb a b

-- The `k` lowest bytes of a number, the highest first.
unfoldable pub be_bytes : ℕ → ℕ → List ℕ
be_bytes zero n = []
be_bytes (suc k) n = (n / 256 ^ k % 256) ∷ be_bytes k n

-- Addr.AsSlice
unfoldable pub as_slice : Addr → List ℕ
unfolding be_bytes
as_slice invalid = []
as_slice (v4 a) = be_bytes 4 a
as_slice (v6 a) = be_bytes 16 a

-- netip.AddrPort
pub record AddrPort : Type 0 where
  pub addr : Addr
  pub port : ℕ

abbrev pub addr_port_eq : AddrPort → AddrPort → Bool
addr_port_eq a b = addr_eq a.addr b.addr && (a.port =ᵇ b.port)

pub addr_port_eq_iff : (a b : AddrPort) → (addr_port_eq a b ≡ true) ↔ (a ≡ b)
addr_port_eq_iff a b = ground (arith, addr_eq_iff a.addr b.addr)

instance abbrev pub addr_port_has_eq : Comparable AddrPort
addr_port_has_eq = record { same = addr_port_eq; same_iff = addr_port_eq_iff }

-- AddrPort.IsValid
abbrev pub addr_port_is_valid : AddrPort → Bool
addr_port_is_valid a = addr_is_valid a.addr

-- header.TCPProtocolNumber, header.UDPProtocolNumber: the numbers of the IP protocol field.
abbrev pub tcp_number : ℕ
tcp_number = 6

abbrev pub udp_number : ℕ
udp_number = 17
