-- ===== src/Checksum.antt =====
-- checksum/checkusm.go: the checksums that the client and the server share the work on. A packet is
-- its bytes, which the code changes in place; gVisor's views and sums are parameters.
pub mod Agreement
use fatun.Base.{
  ℕ, zero, suc, ◌+◌, ◌-◌, ◌*◌, ◌%◌, ◌≡◌, Bool, true, false, ◌&&◌, ◌||◌, arith, List, [], ◌∷◌, ◌++◌,
  Option, none, some, Run, returns, panics, ◌>>=◌, if◌then◌else◌, ◌=ᵇ◌, length, drop, take,
  replicate,
}
use fatun.Net.{Addr, invalid, v4, v6, AddrPort, as_slice, tcp_number, udp_number}
use fatun.Packet.{HeaderLib, reads_ip4}
use fatun.Links.{Downlink}

-- header.Transport: the accessors of a TCP or UDP header, which panic on a slice that is shorter than
-- the fields they access; `reads_header` says of which slices they do not.
pub record TransportLib : Type 0 where
  pub reads_header : List ℕ → Bool
  pub source_port : List ℕ → ℕ
  pub destination_port : List ℕ → ℕ
  pub transport_checksum : List ℕ → ℕ
  pub set_source_port : ℕ → List ℕ → List ℕ
  pub set_destination_port : ℕ → List ℕ → List ℕ
  pub set_transport_checksum : ℕ → List ℕ → List ℕ

-- header.IPv4Fields, as far as the program sets it.
pub record Ip4Fields : Type 0 where
  pub tos : ℕ
  pub total_length : ℕ
  pub id : ℕ
  pub ttl : ℕ
  pub protocol : ℕ
  pub src_addr : ℕ
  pub dst_addr : ℕ

-- gVisor's header and checksum packages.
pub record Wire : Type 0 where
  pub headers : HeaderLib
  pub tcp : TransportLib
  pub udp : TransportLib
  pub checksum : List ℕ → ℕ → ℕ
  pub combine : ℕ → ℕ → ℕ
  pub pseudo_header_checksum : ℕ → ℕ → ℕ → ℕ → ℕ
  -- `Encode` writes the fields into the first 20 bytes.
  pub encode_ip4 : Ip4Fields → List ℕ → List ℕ
  pub set_ip4_checksum : ℕ → List ℕ → List ℕ
  pub calculate_checksum : List ℕ → ℕ

-- `^x` of a uint16
abbrev pub complement : ℕ → ℕ
complement x = 65535 - x

-- Addr.As4, which panics on an address that is not IPv4.
unfoldable pub as4 : Addr → Run ℕ
as4 (v4 a) = returns a
as4 _ = panics

module _ (w : Wire) where
  open w use {
    headers, tcp, udp, checksum, combine, pseudo_header_checksum, encode_ip4, set_ip4_checksum,
    calculate_checksum,
  }

  -- The `switch` over the protocol.
  unfoldable pub transport_of : ℕ → Run TransportLib
  transport_of proto =
      if proto =ᵇ tcp_number
      then returns tcp
      else if proto =ᵇ udp_number
      then returns udp
      else panics

  pub transport_of-protocol :
      (proto : ℕ) (t : TransportLib)
      → transport_of proto ≡ returns t
      → ((proto =ᵇ tcp_number) || (proto =ᵇ udp_number)) ≡ true
  unfolding transport_of
  transport_of-protocol proto t e = ground (arith, e)

  -- What `Client` writes into the transport header and the data behind it.
  unfoldable pub client_sum : TransportLib → ℕ → ℕ → List ℕ → List ℕ
  client_sum t proto dst payload =
      let cleared = t.set_transport_checksum 0 (t.set_source_port 0 payload) in
      let sum = pseudo_header_checksum proto 0 dst (length payload % 65536) in
      t.set_source_port (t.source_port payload)
        (t.set_transport_checksum (complement (checksum cleared sum)) cleared)

  -- `Client`: the data of the packet behind its IP header. The views panic on a packet that is too
  -- short for them.
  unfoldable pub client : List ℕ → Run (List ℕ)
  client ip =
      if (headers.ip_version ip =ᵇ 4) && reads_ip4 headers ip
      then (transport_of (headers.ip4_protocol ip) >>= λ t.
          let payload = headers.ip4_payload ip in
          if t.reads_header payload
          then returns (
              client_sum t (headers.ip4_protocol ip) (headers.ip4_destination ip) payload
              ++ drop (headers.ip4_header_length ip + length payload) ip)
          else panics)
      else panics

  -- What `Server` writes into the transport header.
  unfoldable pub server_sum : TransportLib → Downlink → List ℕ → List ℕ
  server_sum t down pkt =
      let sum = checksum (as_slice down.local.addr) down.local.port in
      t.set_source_port down.local.port (
        t.set_transport_checksum (complement (combine sum (complement (t.transport_checksum pkt))))
          pkt)

  -- `Server` behind its `switch`, with the value that the counter of identifications had.
  unfoldable pub server_packet : TransportLib → ℕ → List ℕ → Downlink → Run (List ℕ)
  server_packet t ip4_id pkt down = as4 down.local.addr >>= λ src. as4 down.server.addr >>= λ dst.
      let room = replicate 20 0 ++ server_sum t down pkt in
      let fields : Ip4Fields = record {
        tos = 14;
        total_length = length room % 65536;
        id = (ip4_id + 1) % 65536;
        ttl = 64;
        protocol = down.proto % 256;
        src_addr = src;
        dst_addr = dst;
      } in
      let hdr = encode_ip4 fields room in
      returns (set_ip4_checksum (complement (calculate_checksum hdr)) hdr)

  -- `Server`, which panics on a segment that is too short for its transport header.
  unfoldable pub server : ℕ → List ℕ → Downlink → Run (List ℕ)
  server ip4_id pkt down = transport_of down.proto >>= λ t.
      if t.reads_header pkt then server_packet t ip4_id pkt down else panics
