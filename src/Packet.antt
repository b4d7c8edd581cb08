-- ===== src/Packet.antt =====
-- Third-party code that the program's packet handling stands on: the packet buffer of netkit and
-- the header views of gVisor, as parameters.
use fatun.Base.{
  Bool, ◌&&◌, ℕ, ◌+◌, ◌≤◌, ◌≡◌, ◌≢◌, Option, none, Error, List, [], ◌∷◌, ◌++◌, length, drop,
}

-- *packet.Packet of github.com/lysShub/netkit: a buffer whose data starts at `head`. `attach` puts
-- bytes in front of the data, and moving the head by `n` takes `n` bytes off the front.
pub record PacketLib : Type 1 where
  pub Packet : Type 0
  pub bytes : Packet → List ℕ
  pub head : Packet → ℕ
  pub set_head : ℕ → Packet → Packet
  pub attach : List ℕ → Packet → Packet
  pub bytes-attach : (bs : List ℕ) (p : Packet) → bytes (attach bs p) ≡ bs ++ bytes p
  pub bytes-set_head :
      (n : ℕ) (p : Packet)
      → n ≤ length (bytes p)
      → bytes (set_head (head p + n) p) ≡ drop n (bytes p)

-- More of the same buffer. `attach_n` moves the head back, `detach_n` forth, and `with_bytes` is the
-- data changed in place and cut to what was written.
pub record BufferLib : Type 1 where
  pub lib : PacketLib
  pub attach_n : ℕ → lib.Packet → lib.Packet
  pub detach_n : ℕ → lib.Packet → lib.Packet
  pub with_bytes : List ℕ → lib.Packet → lib.Packet
  pub bytes-attach_n :
      (n : ℕ) (p : lib.Packet)
      → n ≤ length (lib.bytes p)
      → lib.bytes (attach_n n (lib.set_head (lib.head p + n) p)) ≡ lib.bytes p
  pub bytes-detach_n :
      (n : ℕ) (p : lib.Packet)
      → n ≤ length (lib.bytes p)
      → lib.bytes (detach_n n p) ≡ drop n (lib.bytes p)
  pub set_head_twice :
      (n m : ℕ) (p : lib.Packet) → lib.set_head n (lib.set_head m p) ≡ lib.set_head n p
  pub set_head-head : (p : lib.Packet) → lib.set_head (lib.head p) p ≡ p
  pub head-with_bytes : (b : List ℕ) (p : lib.Packet) → lib.head (with_bytes b p) ≡ lib.head p
  pub bytes-with_bytes : (b : List ℕ) (p : lib.Packet) → lib.bytes (with_bytes b p) ≡ b

-- The files of github.com/lysShub/netkit/pcap, by number: what `WriteIP` does to them, and what a file
-- has recorded.
pub record PcapLib : Type 1 where
  pub Files : Type 0
  pub write_ip : ℕ → List ℕ → Files → Option Error × Files
  pub recorded : ℕ → Files → List (List ℕ)
  pub recorded-write_ip :
      (f : ℕ) (ip : List ℕ) (files : Files)
      → (write_ip f ip files).0 ≡ none
      → recorded f (write_ip f ip files).1 ≡ recorded f files ++ ip ∷ []
  pub recorded-write_ip_other :
      (f g : ℕ) (ip : List ℕ) (files : Files)
      → g ≢ f
      → recorded g (write_ip f ip files).1 ≡ recorded g files

-- The views of gvisor.dev/gvisor/pkg/tcpip/header that the program reads packets through. Addresses
-- are numbers, ports and protocols too. A view of a slice that is too short
-- for it panics; the fields `reads_…` say of which slices it does not, and then the other fields are what it
-- reads.
pub record HeaderLib : Type 0 where
  pub ip_version : List ℕ → ℕ
  pub ip4_total_length : List ℕ → ℕ
  pub ip4_header_length : List ℕ → ℕ
  pub ip4_protocol : List ℕ → ℕ
  pub ip4_source : List ℕ → ℕ
  pub ip4_destination : List ℕ → ℕ
  pub ip4_payload : List ℕ → List ℕ
  pub ip6_payload_length : List ℕ → ℕ
  pub ip6_next_protocol : List ℕ → ℕ
  pub ip6_source : List ℕ → ℕ
  pub ip6_destination : List ℕ → ℕ
  pub ip6_payload : List ℕ → List ℕ
  pub tcp_source_port : List ℕ → ℕ
  pub tcp_destination_port : List ℕ → ℕ
  pub udp_source_port : List ℕ → ℕ
  pub udp_destination_port : List ℕ → ℕ
  pub reads_ip4_total_length : List ℕ → Bool
  pub reads_ip4_protocol : List ℕ → Bool
  pub reads_ip4_addresses : List ℕ → Bool
  pub reads_ip4_payload : List ℕ → Bool
  pub reads_ip6_payload_length : List ℕ → Bool
  pub reads_ip6_fields : List ℕ → Bool
  pub reads_ip6_payload : List ℕ → Bool
  pub reads_ports : List ℕ → Bool

-- The protocol, the addresses and the payload of a header can be read.
abbrev pub reads_ip4 : HeaderLib → List ℕ → Bool
reads_ip4 h ip = h.reads_ip4_protocol ip && (h.reads_ip4_addresses ip && h.reads_ip4_payload ip)

abbrev pub reads_ip6 : HeaderLib → List ℕ → Bool
reads_ip6 h ip = h.reads_ip6_fields ip && h.reads_ip6_payload ip
