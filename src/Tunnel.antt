-- ===== src/Tunnel.antt =====
-- checksum/checkusm.go, client.go and server.go: IP packets from one end of the program to the other.
-- What the code relies on of gVisor's IPv4 header, and what a packet carries.
pub mod Sending
pub mod Uplink
pub mod Injecting
pub mod Downlink
use fatun.Base.{
  ℕ, ◌+◌, ◌%◌, ◌^◌, ◌<◌, ◌≡◌, ◌∙◌, List, ◌++◌, length, take, drop, Option, Error, Run, returns,
}
use fatun.Checksum.{Wire, TransportLib, Ip4Fields, complement}

-- An IPv4 packet with a header of 20 bytes, whose fields are read back, before a payload.
pub record Holds (w : Wire) (f : Ip4Fields) (payload ip : List ℕ) : Type 0 where
  pub header_length : w.headers.ip4_header_length ip ≡ 20
  pub protocol : w.headers.ip4_protocol ip ≡ f.protocol
  pub source : w.headers.ip4_source ip ≡ f.src_addr
  pub destination : w.headers.ip4_destination ip ≡ f.dst_addr
  pub payload_of : w.headers.ip4_payload ip ≡ payload
  pub whole : length ip ≡ 20 + length payload

-- gVisor's IPv4 header reads what `Encode` wrote; its checksum is no part of the other fields, and
-- neither is a payload of the same length.
pub record HeaderLaws (w : Wire) : Type 0 where
  pub Holds-encode_ip4 :
      (f : Ip4Fields) (room payload : List ℕ)
      → length room ≡ 20
      → f.total_length ≡ 20 + length payload
      → f.total_length < 2 ^ 16
      → f.protocol < 2 ^ 8
      → f.src_addr < 2 ^ 32
      → f.dst_addr < 2 ^ 32
      → Holds w f payload (w.encode_ip4 f (room ++ payload))
  pub Holds-set_ip4_checksum :
      (f : Ip4Fields) (payload ip : List ℕ) (c : ℕ)
      → Holds w f payload ip
      → Holds w f payload (w.set_ip4_checksum c ip)
  pub Holds-append :
      (f : Ip4Fields) (old new ip : List ℕ)
      → Holds w f old ip
      → length new ≡ length old
      → Holds w f new (take 20 ip ++ new)

-- An IPv4 packet from `src` to `dst` with a segment that passes a receiver's check, and that is `seg`
-- but for its checksum.
abbrev pub Carries : Wire → TransportLib → ℕ → ℕ → ℕ → List ℕ → List ℕ → Type 0
Carries w t proto src dst seg ip =
    let payload = w.headers.ip4_payload ip in
    (w.headers.ip4_protocol ip ≡ proto)
    × (w.headers.ip4_source ip ≡ src)
    × (w.headers.ip4_destination ip ≡ dst)
    × (t.set_transport_checksum 0 payload ≡ seg)
    × (complement (t.transport_checksum payload) % 65535
        ≡ w.checksum (t.set_transport_checksum 0 payload)
            (w.pseudo_header_checksum proto src dst (length payload % 65536))
          % 65535)

module _ (w : Wire) (t : TransportLib) where
  pub Carries-Holds :
      (f : Ip4Fields) (proto src dst : ℕ) (seg want ip : List ℕ)
      → Holds w f seg ip
      → f.protocol ≡ proto
      → f.src_addr ≡ src
      → f.dst_addr ≡ dst
      → t.set_transport_checksum 0 seg ≡ want
      → complement (t.transport_checksum seg) % 65535
        ≡ w.checksum
            (t.set_transport_checksum 0 seg)
            (w.pseudo_header_checksum proto src dst (length seg % 65536))
          % 65535
      → Carries w t proto src dst want ip
  Carries-Holds f proto src dst seg want ip held p s d same valid =
      rw held.payload_of (held.protocol ∙ p, held.source ∙ s, held.destination ∙ d, same, valid)
