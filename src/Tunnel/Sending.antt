-- ===== src/Tunnel/Sending.antt =====
-- client.go, checksum/checkusm.go: what `uplinkService` sends for a packet, and what `Server` makes of it.
use fatun.Base.{
  append_nil, ℕ, ◌+◌, ◌%◌, ◌^◌, ◌<◌, ◌≤◌, ◌≡◌, refl, sym, ap, ◌∙◌, true, Option, none, some, List,
  [], ◌++◌, Error, returns, arith, length, drop, replicate,
}
use fatun.Net.{AddrPort, v4, as_slice}
use fatun.Packet.{reads_ip4}
use fatun.Conn.Peer.{Peer, reset}
use fatun.Checksum.{
  Wire, TransportLib, Ip4Fields, transport_of, transport_of-protocol, client, client_sum, server,
  server_packet, server_sum, as4, complement,
}
use fatun.Checksum.Agreement.{
  SumLaws, down_to, server_sum-client_sum, client_cleared, client_sum-length,
}
use fatun.Client.Service.{uplink_round}
use fatun.Server.Proxy.{received, again, write_pcap}
use fatun.Tunnel.{HeaderLaws, Holds, Carries, Carries-Holds}

module _ (w : Wire) where
  pub client_run :
      (view : TransportLib) (ip : List ℕ)
      → w.headers.ip_version ip ≡ 4
      → transport_of w (w.headers.ip4_protocol ip) ≡ returns view
      → reads_ip4 w.headers ip ≡ true
      → view.reads_header (w.headers.ip4_payload ip) ≡ true
      → drop (w.headers.ip4_header_length ip + length (w.headers.ip4_payload ip)) ip ≡ []
      → client w ip
        ≡ returns (
            client_sum w view
              (w.headers.ip4_protocol ip)
              (w.headers.ip4_destination ip)
              (w.headers.ip4_payload ip))
  unfolding client
  client_run view ip four proto readable fields end =
      let h = w.headers in
      let pkt = client_sum w view (h.ip4_protocol ip) (h.ip4_destination ip) (h.ip4_payload ip) in
      ground (arith, four, proto, readable, fields, ap (λ r. pkt ++ r) end ∙ append_nil pkt)

  pub uplink_run :
      (pcap : Option (List ℕ → Option Error)) (answers : Peer → List ℕ → Option Error) (s : Peer)
      (ip pkt : List ℕ)
      → write_pcap pcap ip ≡ none
      → client w ip ≡ returns pkt
      → answers (reset (w.headers.ip4_protocol ip) (v4 (w.headers.ip4_destination ip)) s) pkt ≡ none
      → uplink_round w pcap answers s (received ip)
        ≡ returns (
          again,
          some (reset (w.headers.ip4_protocol ip) (v4 (w.headers.ip4_destination ip)) s, pkt),
        )
  unfolding uplink_round
  uplink_run pcap answers s ip pkt kept made sent = ground (arith, kept, made, sent)

  length-server_sum :
      (view : TransportLib) (sums : SumLaws w view) (to : AddrPort) (proto dst src port : ℕ)
      (b : List ℕ)
      → length (
          server_sum w view (down_to w view sums to proto src port) (client_sum w view proto dst b))
        ≡ length b
  unfolding server_sum
  length-server_sum view sums to proto dst src port b = omega (
    arith,
    client_sum-length w view sums proto dst b,
    sums.length-set_source_port port,
    sums.length-set_transport_checksum,
  )

  -- What `Server` writes for a segment that `Client` prepared.
  pub server_run :
      (laws : HeaderLaws w) (view : TransportLib) (sums : SumLaws w view) (to : AddrPort)
      (id proto dst src port : ℕ) (b : List ℕ)
      → to.addr ≡ v4 dst
      → transport_of w proto ≡ returns view
      → sums.size ≤ length b
      → 20 + length b < 2 ^ 16
      → port < 2 ^ 16
      → src < 2 ^ 32
      → dst < 2 ^ 32
      → (out : List ℕ) × (server w id
            (client_sum w view proto dst b)
            (down_to w view sums to proto src port)
          ≡ returns out)
        × Carries w view proto src dst
            (view.set_source_port port (view.set_transport_checksum 0 (view.set_source_port 0 b)))
            out
  unfolding server server_packet as4 server_sum
  server_run laws view sums to id proto dst src port b at carried whole short word sa da =
      let seg =
        server_sum w view (down_to w view sums to proto src port) (client_sum w view proto dst b) in
      let same : length seg ≡ length b = length-server_sum view sums to proto dst src port b in
      let room = replicate 20 0 ++ seg in
      let fields : Ip4Fields = record {
        tos = 14;
        total_length = length room % 65536;
        id = (id + 1) % 65536;
        ttl = 64;
        protocol = proto % 256;
        src_addr = src;
        dst_addr = dst;
      } in
      let low : proto < 256 = ground (arith, transport_of-protocol w proto view carried) in
      let hdr = w.encode_ip4 fields room in
      let out = w.set_ip4_checksum (complement (w.calculate_checksum hdr)) hdr in
      let held : Holds w fields seg out =
        laws.Holds-set_ip4_checksum fields seg hdr (complement (w.calculate_checksum hdr)) (
          laws.Holds-encode_ip4 fields (replicate 20 0) seg refl (omega arith) (omega arith)
            (omega arith) sa da) in
      (
        out,
        ground (
          arith,
          carried,
          at,
          sums.reads_header_whole (client_sum w view proto dst b)
              (omega (arith, client_sum-length w view sums proto dst b)),
        ),
        Carries-Holds w view fields proto src dst seg
            (view.set_source_port port (view.set_transport_checksum 0 (view.set_source_port 0 b)))
            out held (omega arith) refl refl
            (client_cleared w view sums proto dst port
              (complement (
                w.combine (w.checksum (as_slice (v4 src)) port)
                  (complement (view.transport_checksum (client_sum w view proto dst b)))))
              b)
            (server_sum-client_sum w view sums to proto dst src port b whole word
              ∙ ap
                  (λ n.
                    w.checksum (view.set_transport_checksum 0 seg)
                      (w.pseudo_header_checksum proto src dst (n % 65536))
                    % 65535)
                  (sym same)),
      )
