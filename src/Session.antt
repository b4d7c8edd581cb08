-- ===== src/Session.antt =====
-- session.go, the session of a captured packet, and links.StripIP, the downlink of a received one.
pub mod Accepts
use fatun.Base.{
  ℕ, ◌+◌, ◌≡◌, Bool, true, false, not, ◌&&◌, ◌||◌, Run, returns, panics, ◌>>=◌, Option, none, some,
  List, Error, Fallible, ok, err, bad_version, short_buff, not_supported, not_ipv4, if◌then◌else◌,
  ltb, ◌=ᵇ◌, length,
}
use fatun.Net.{Addr, v4, v6, invalid, AddrPort, addr_port_is_valid, tcp_number, udp_number}
use fatun.Packet.{PacketLib, HeaderLib, reads_ip4, reads_ip6}
use fatun.Links.{Downlink}

-- `type Session struct`
pub record Session : Type 0 where
  pub src : AddrPort
  pub proto : ℕ
  pub dst : AddrPort

abbrev pub zero_addr_port : AddrPort
zero_addr_port = record { addr = invalid; port = 0 }

abbrev pub zero_session : Session
zero_session = record { src = zero_addr_port; proto = 0; dst = zero_addr_port }

-- `IsValid`
pub session_is_valid : Session → Bool
session_is_valid s = addr_port_is_valid s.src && (not (s.proto =ᵇ 0) && addr_port_is_valid s.dst)

-- header.IPv6FixedHeaderSize
abbrev pub ip6_fixed_header_size : ℕ
ip6_fixed_header_size = 40

module _ (h : HeaderLib) where
  open h use {
    ip_version, ip4_total_length, ip4_header_length, ip4_protocol, ip4_source, ip4_destination,
    ip4_payload, ip6_payload_length, ip6_next_protocol, ip6_source, ip6_destination, ip6_payload,
    tcp_source_port, tcp_destination_port, udp_source_port, udp_destination_port,
    reads_ip4_total_length, reads_ip4_protocol, reads_ip6_payload_length, reads_ports,
  }

  -- The second `switch` of `fromIP`.
  unfoldable pub session_of : Addr → Addr → ℕ → List ℕ → ℕ → Run (Session × ℕ × Option Error)
  session_of src dst proto hdr ip_hdr_len =
      if proto =ᵇ tcp_number
      then (if reads_ports hdr
          then returns (
            record {
              src = record { addr = src; port = tcp_source_port hdr };
              proto = proto;
              dst = record { addr = dst; port = tcp_destination_port hdr };
            },
            ip_hdr_len,
            none,
          )
          else panics)
      else if proto =ᵇ udp_number
      then (if reads_ports hdr
          then returns (
            record {
              src = record { addr = src; port = udp_source_port hdr };
              proto = proto;
              dst = record { addr = dst; port = udp_destination_port hdr };
            },
            ip_hdr_len,
            none,
          )
          else panics)
      else returns (zero_session, 0, some not_supported)

  -- The case of IPv4 of the first `switch`, with the second.
  unfoldable pub from_ip4 : List ℕ → Run (Session × ℕ × Option Error)
  from_ip4 ip =
      if not (reads_ip4_total_length ip)
      then panics
      else if ltb (length ip) (ip4_total_length ip)
      then returns (zero_session, 0, some short_buff)
      else if not (reads_ip4 h ip)
      then panics
      else session_of (v4 (ip4_source ip)) (v4 (ip4_destination ip)) (ip4_protocol ip)
          (ip4_payload ip) (ip4_header_length ip)

  -- The case of IPv6.
  unfoldable pub from_ip6 : List ℕ → Run (Session × ℕ × Option Error)
  from_ip6 ip =
      if not (reads_ip6_payload_length ip)
      then panics
      else if ltb (length ip) (ip6_payload_length ip + ip6_fixed_header_size)
      then returns (zero_session, 0, some short_buff)
      else if not (reads_ip6 h ip)
      then panics
      else session_of (v6 (ip6_source ip)) (v6 (ip6_destination ip)) (ip6_next_protocol ip)
          (ip6_payload ip) ip6_fixed_header_size

  -- `fromIP`, which panics where a view does.
  unfoldable pub from_ip : List ℕ → Run (Session × ℕ × Option Error)
  from_ip ip =
      if ip_version ip =ᵇ 4
      then from_ip4 ip
      else if ip_version ip =ᵇ 6
      then from_ip6 ip
      else returns (zero_session, 0, some bad_version)

  -- The downlink that `StripIP` of links/links.go reads; the ports of TCP stand where those of
  -- UDP do.
  unfoldable pub downlink_of : List ℕ → Run (Fallible Downlink)
  downlink_of hdr =
      let t = ip4_payload hdr in
      let found : Downlink = record {
        server = record { addr = v4 (ip4_source hdr); port = udp_source_port t };
        proto = ip4_protocol hdr;
        local = record { addr = v4 (ip4_destination hdr); port = udp_destination_port t };
      } in
      if not (ip_version hdr =ᵇ 4)
      then returns (err not_ipv4)
      else if not (reads_ip4_protocol hdr)
      then panics
      else if not ((ip4_protocol hdr =ᵇ tcp_number) || (ip4_protocol hdr =ᵇ udp_number))
      then returns (err not_supported)
      else if reads_ip4 h hdr && reads_ports t
      then returns (ok found)
      else panics

  module _ (lib : PacketLib) where
    open lib use {Packet, bytes, head, set_head}

    -- `StripIP` of session.go
    pub session_strip_ip : Packet → Run (Session × Option Error × Packet)
    session_strip_ip ip =
        from_ip (bytes ip) >>= λ (s, n, e). returns (s, e, set_head (head ip + n) ip)

    -- `StripIP` of links/links.go
    pub downlink_strip_ip : Packet → Run (Fallible Downlink × Packet)
    downlink_strip_ip ip = downlink_of (bytes ip) >>= λ r. elim r [
      | err e ↦ returns (err e, ip)
      | ok d ↦ returns (ok d, set_head (head ip + ip4_header_length (bytes ip)) ip)
    ]
