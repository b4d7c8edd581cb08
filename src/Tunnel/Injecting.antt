-- ===== src/Tunnel/Injecting.antt =====
-- client.go: what `downlinkServic` injects for a segment, and `rechecksum` in it.
use fatun.Base.{
  append_nil, drop_all, ℕ, ◌+◌, ◌%◌, ◌^◌, ◌<◌, ◌≤◌, ◌≡◌, refl, sym, ap, subst, ◌∙◌, Option, none,
  some, List, [], ◌++◌, Error, returns, arith, length, drop, take, replicate,
}
use fatun.Net.{v4}
use fatun.Conn.Peer.{Peer}
use fatun.Checksum.{
  Wire, TransportLib, Ip4Fields, transport_of, transport_of-protocol, as4, complement,
}
use fatun.Checksum.Agreement.{SumLaws}
use fatun.Client.Service.{resum, rechecksum, downlink_round}
use fatun.Client.Service.Sums.{resum-valid}
use fatun.Server.Proxy.{received, again, write_pcap}
use fatun.Tunnel.{HeaderLaws, Holds, Carries, Carries-Holds}

module _ (w : Wire) (laws : HeaderLaws w) (view : TransportLib) (sums : SumLaws w view) where
  length-resum : (psum : ℕ) (b : List ℕ) → length (resum w view psum b) ≡ length b
  unfolding resum
  length-resum psum b = omega (arith, sums.length-set_transport_checksum)

  resum_cleared :
      (psum : ℕ) (b : List ℕ)
      → view.set_transport_checksum 0 (resum w view psum b) ≡ view.set_transport_checksum 0 b
  unfolding resum
  resum_cleared psum b =
      let cleared = view.set_transport_checksum 0 b in
      sums.set_transport_checksum_twice 0 (complement (w.checksum cleared psum)) cleared
      ∙ sums.set_transport_checksum_twice 0 0 b

  -- What `rechecksum` makes of a packet whose header it can read.
  rechecksum_run :
      (f : Ip4Fields) (pkt ip : List ℕ)
      → Holds w f pkt ip
      → transport_of w f.protocol ≡ returns view
      → sums.size ≤ length pkt
      → (out : List ℕ) × (rechecksum w ip ≡ returns out)
        × Carries w view f.protocol f.src_addr f.dst_addr (view.set_transport_checksum 0 pkt) out
  unfolding rechecksum
  rechecksum_run f pkt ip held carried whole =
      let cleared = w.set_ip4_checksum 0 ip in
      let c = complement (w.calculate_checksum cleared) in
      let summed = w.set_ip4_checksum c cleared in
      let ready : Holds w f pkt summed =
        laws.Holds-set_ip4_checksum f pkt cleared c (laws.Holds-set_ip4_checksum f pkt ip 0 held) in
      let psum = w.pseudo_header_checksum f.protocol f.src_addr f.dst_addr (length pkt % 65536) in
      let seg = resum w view psum pkt in
      let same : length seg ≡ length pkt = length-resum psum pkt in
      let rest : drop (20 + length pkt) summed ≡ [] =
        drop_all (20 + length pkt) summed (omega (arith, ready.whole)) in
      (
        take 20 summed ++ seg,
        rw ready.protocol (
            rw ready.payload_of (
              rw ready.header_length (
                rw (carried, sums.reads_header_whole pkt whole)
                  (rw ready.source (
                    rw ready.destination (
                      ap (λ x. returns (take 20 summed ++ x))
                        (ap (λ z. seg ++ z) rest ∙ append_nil seg))))))),
        Carries-Holds w view f f.protocol f.src_addr f.dst_addr seg
            (view.set_transport_checksum 0 pkt) (take 20 summed ++ seg)
            (laws.Holds-append f pkt seg summed ready same) refl refl refl (resum_cleared psum pkt)
            (ap (λ x. x % 65535) (resum-valid w view sums psum pkt whole)
              ∙ ap
                  (λ n.
                    w.checksum (view.set_transport_checksum 0 seg)
                      (w.pseudo_header_checksum f.protocol f.src_addr f.dst_addr (n % 65536))
                    % 65535)
                  (sym same)),
      )

  pub downlink_run :
      (pcap : Option (List ℕ → Option Error)) (inject : List ℕ → Option Error) (peer : Peer)
      (src dst : ℕ) (pkt : List ℕ)
      → ((x : List ℕ) → write_pcap pcap x ≡ none)
      → ((x : List ℕ) → inject x ≡ none)
      → peer.dst ≡ v4 src
      → transport_of w peer.proto ≡ returns view
      → sums.size ≤ length pkt
      → 20 + length pkt < 2 ^ 16
      → src < 2 ^ 32
      → dst < 2 ^ 32
      → (out : List ℕ) × (downlink_round w pcap inject (v4 dst) (received (peer, pkt))
          ≡ returns (again, some out))
        × Carries w view peer.proto src dst (view.set_transport_checksum 0 pkt) out
  unfolding downlink_round as4
  downlink_run pcap inject peer src dst pkt kept takes at carried whole short sa da =
      let room = replicate 20 0 ++ pkt in
      let fields : Ip4Fields = record {
        tos = 0;
        total_length = length room % 65536;
        id = 0;
        ttl = 64;
        protocol = peer.proto % 256;
        src_addr = src;
        dst_addr = dst;
      } in
      let low : peer.proto % 256 ≡ peer.proto =
        ground (arith, transport_of-protocol w peer.proto view carried) in
      let (out, ran, carries) =
        rechecksum_run fields pkt (w.encode_ip4 fields room)
          (laws.Holds-encode_ip4 fields (replicate 20 0) pkt refl (omega arith) (omega arith)
            (omega arith) sa da)
          (ap (transport_of w) low ∙ carried) whole in
      (
        out,
        ground (arith, at, ran, kept out, takes out),
        subst (λ n. Carries w view n src dst (view.set_transport_checksum 0 pkt) out) low carries,
      )
