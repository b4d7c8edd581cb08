-- ===== src/Links.antt =====
-- links/links.go: the links of a proxy server, as its client and as its peers see them, and the
-- queue that their expiry goes through.
pub mod Heap
pub mod Maps
pub mod Mutex
use fatun.Base.{ℕ, ◌≡◌, ◌↔◌, Bool, true, ◌&&◌, arith, Comparable, ◌=ᵇ◌}
use fatun.Net.{AddrPort, addr_port_eq, addr_port_eq_iff}

-- `type Uplink struct`
pub record Uplink : Type 0 where
  pub process : AddrPort
  pub proto : ℕ
  pub server : AddrPort

abbrev pub uplink_eq : Uplink → Uplink → Bool
uplink_eq a b =
    addr_port_eq a.process b.process && ((a.proto =ᵇ b.proto) && addr_port_eq a.server b.server)

pub uplink_eq_iff : (a b : Uplink) → (uplink_eq a b ≡ true) ↔ (a ≡ b)
uplink_eq_iff a b =
    ground (arith, addr_port_eq_iff a.process b.process, addr_port_eq_iff a.server b.server)

instance abbrev pub uplink_has_eq : Comparable Uplink
uplink_has_eq = record { same = uplink_eq; same_iff = uplink_eq_iff }

-- `type Downlink struct`
pub record Downlink : Type 0 where
  pub server : AddrPort
  pub proto : ℕ
  pub local : AddrPort

abbrev pub downlink_eq : Downlink → Downlink → Bool
downlink_eq a b =
    addr_port_eq a.server b.server && ((a.proto =ᵇ b.proto) && addr_port_eq a.local b.local)

pub downlink_eq_iff : (a b : Downlink) → (downlink_eq a b ≡ true) ↔ (a ≡ b)
downlink_eq_iff a b =
    ground (arith, addr_port_eq_iff a.server b.server, addr_port_eq_iff a.local b.local)

instance abbrev pub downlink_has_eq : Comparable Downlink
downlink_has_eq = record { same = downlink_eq; same_iff = downlink_eq_iff }

-- `type Link struct`
pub record Link : Type 0 where
  pub uplink : Uplink
  pub local : AddrPort
