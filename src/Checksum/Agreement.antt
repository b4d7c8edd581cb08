-- ===== src/Checksum/Agreement.antt =====
-- checksum/checkusm.go: the checksum that `Client` starts and `Server` completes.
use fatun.Base.{ℕ, ◌+◌, ◌%◌, ◌^◌, ◌<◌, ◌≤◌, ◌≡◌, true, sym, ap, ◌∙◌, List, length, arith}
use fatun.Net.{v4, as_slice, AddrPort}
use fatun.Links.{Downlink}
use fatun.Checksum.{TransportLib, Wire, complement, client_sum, server_sum}

-- What the code relies on of gVisor's checksums: they are sums of one's complement, so they add up
-- modulo 65535, and the accessors of a header that is whole read and write their fields.
pub record SumLaws (w : Wire) (t : TransportLib) : Type 0 where
  pub size : ℕ
  pub reads_header_whole : (b : List ℕ) → size ≤ length b → t.reads_header b ≡ true
  pub reads_ports_whole : (b : List ℕ) → size ≤ length b → w.headers.reads_ports b ≡ true
  pub checksum_add : (b : List ℕ) (i : ℕ) → w.checksum b i % 65535 ≡ (w.checksum b 0 + i) % 65535
  pub checksum_bound : (b : List ℕ) (i : ℕ) → w.checksum b i ≤ 65535
  pub combine_add : (a b : ℕ) → w.combine a b % 65535 ≡ (a + b) % 65535
  pub combine_bound : (a b : ℕ) → w.combine a b ≤ 65535
  pub pseudo_source :
      (proto src dst n : ℕ)
      → w.pseudo_header_checksum proto src dst n % 65535
        ≡ (w.checksum (as_slice (v4 src)) 0 + w.pseudo_header_checksum proto 0 dst n) % 65535
  pub checksum-set_source_port :
      (p : ℕ) (b : List ℕ)
      → size ≤ length b
      → p < 2 ^ 16
      → w.checksum (t.set_source_port p b) 0 % 65535
        ≡ (w.checksum (t.set_source_port 0 b) 0 + p) % 65535
  pub transport_checksum-set_transport_checksum :
      (c : ℕ) (b : List ℕ)
      → size ≤ length b
      → c < 2 ^ 16
      → t.transport_checksum (t.set_transport_checksum c b) ≡ c
  pub transport_checksum-set_source_port :
      (p : ℕ) (b : List ℕ) → t.transport_checksum (t.set_source_port p b) ≡ t.transport_checksum b
  pub length-set_transport_checksum :
      (c : ℕ) (b : List ℕ) → length (t.set_transport_checksum c b) ≡ length b
  pub length-set_source_port : (p : ℕ) (b : List ℕ) → length (t.set_source_port p b) ≡ length b
  pub set_source_port_twice :
      (p q : ℕ) (b : List ℕ) → t.set_source_port p (t.set_source_port q b) ≡ t.set_source_port p b
  pub set_transport_checksum_twice :
      (c d : ℕ) (b : List ℕ)
      → t.set_transport_checksum c (t.set_transport_checksum d b) ≡ t.set_transport_checksum c b
  pub set_comm :
      (c p : ℕ) (b : List ℕ)
      → t.set_transport_checksum c (t.set_source_port p b)
        ≡ t.set_source_port p (t.set_transport_checksum c b)

module _ (w : Wire) (t : TransportLib) (laws : SumLaws w t) where
  -- The header with its source port and its checksum taken as 0.
  abbrev cleared : List ℕ → List ℕ
  cleared b = t.set_transport_checksum 0 (t.set_source_port 0 b)

  cleared_again :
      (p sp x c : ℕ) (b : List ℕ)
      → t.set_transport_checksum 0 (
          t.set_source_port p (
            t.set_transport_checksum x
              (t.set_source_port sp (t.set_transport_checksum c (cleared b)))))
        ≡ t.set_source_port p (cleared b)
  cleared_again p sp x c b =
      let z = cleared b in
      let one = t.set_source_port sp (t.set_transport_checksum c z) in
      laws.set_comm 0 p (t.set_transport_checksum x one)
      ∙ (ap (t.set_source_port p) (
            laws.set_transport_checksum_twice 0 x one
            ∙ laws.set_comm 0 sp (t.set_transport_checksum c z))
          ∙ (laws.set_source_port_twice p sp
                (t.set_transport_checksum 0 (t.set_transport_checksum c z))
              ∙ ap (t.set_source_port p) (
                  laws.set_transport_checksum_twice 0 c z
                  ∙ laws.set_transport_checksum_twice 0 0 (t.set_source_port 0 b))))

  port_cleared : (b : List ℕ) → t.set_source_port 0 (cleared b) ≡ cleared b
  port_cleared b =
      sym (laws.set_comm 0 0 (t.set_source_port 0 b))
      ∙ ap (t.set_transport_checksum 0) (laws.set_source_port_twice 0 0 b)

  -- The sum that the client leaves, complemented.
  abbrev client_total : ℕ → ℕ → List ℕ → ℕ
  client_total proto dst b =
      w.checksum (cleared b) (w.pseudo_header_checksum proto 0 dst (length b % 65536))

  client_sum-transport_checksum :
      (proto dst : ℕ) (b : List ℕ)
      → laws.size ≤ length b
      → t.transport_checksum (client_sum w t proto dst b) ≡ complement (client_total proto dst b)
  unfolding client_sum
  client_sum-transport_checksum proto dst b whole =
      let total = client_total proto dst b in
      laws.transport_checksum-set_source_port (t.source_port b)
        (t.set_transport_checksum (complement total) (cleared b))
      ∙ laws.transport_checksum-set_transport_checksum (complement total) (cleared b)
          (omega (
            arith,
            laws.length-set_transport_checksum 0 (t.set_source_port 0 b),
            laws.length-set_source_port 0 b,
          ))
          (omega arith)

  pub client_cleared :
      (proto dst port x : ℕ) (b : List ℕ)
      → t.set_transport_checksum 0
          (t.set_source_port port (t.set_transport_checksum x (client_sum w t proto dst b)))
        ≡ t.set_source_port port (cleared b)
  unfolding client_sum
  client_cleared proto dst port x b =
      cleared_again port (t.source_port b) x (complement (client_total proto dst b)) b

  cleared_whole : (b : List ℕ) → laws.size ≤ length b → laws.size ≤ length (cleared b)
  cleared_whole b whole = omega (
    arith,
    laws.length-set_transport_checksum 0 (t.set_source_port 0 b),
    laws.length-set_source_port 0 b,
  )

  pub client_sum-length :
      (proto dst : ℕ) (b : List ℕ) → length (client_sum w t proto dst b) ≡ length b
  unfolding client_sum
  client_sum-length proto dst b =
      let total = client_total proto dst b in
      laws.length-set_source_port (t.source_port b)
        (t.set_transport_checksum (complement total) (cleared b))
      ∙ (laws.length-set_transport_checksum (complement total) (cleared b)
          ∙ (laws.length-set_transport_checksum 0 (t.set_source_port 0 b)
              ∙ laws.length-set_source_port 0 b))

  -- The downlink of a server whose local end is an IPv4 address and a port.
  abbrev pub down_to : AddrPort → ℕ → ℕ → ℕ → Downlink
  down_to server proto src port = record {
    server = server;
    proto = proto;
    local = record { addr = v4 src; port = port };
  }

  totals_agree :
      (proto dst src port : ℕ) (b : List ℕ)
      → laws.size ≤ length b
      → port < 2 ^ 16
      → w.combine (w.checksum (as_slice (v4 src)) port) (client_total proto dst b) % 65535
        ≡ w.checksum
            (t.set_source_port port (cleared b))
            (w.pseudo_header_checksum proto src dst (length b % 65536))
          % 65535
  totals_agree proto dst src port b whole word =
      let n = length b % 65536 in
      let z = cleared b in
      let psd = w.pseudo_header_checksum proto src dst n in
      omega (
        arith,
        laws.combine_add (w.checksum (as_slice (v4 src)) port) (client_total proto dst b),
        laws.checksum_add (as_slice (v4 src)) port,
        laws.checksum_add z (w.pseudo_header_checksum proto 0 dst n),
        laws.checksum_add (t.set_source_port port z) psd,
        laws.checksum-set_source_port port z (cleared_whole b whole) word,
        laws.pseudo_source proto src dst n,
        ap (λ y. w.checksum y 0) (port_cleared b),
      )

  -- Of a whole transport header and its data, after `Client` and then `Server` with an IPv4 address
  -- and a port below 2^16: the complement of the checksum in the header is, modulo 65535, the sum of
  -- the pseudo header with that address and of the packet with its checksum taken as 0, which is
  -- how a receiver checks it.
  pub server_sum-client_sum :
      (server : AddrPort) (proto dst src port : ℕ) (b : List ℕ)
      → laws.size ≤ length b
      → port < 2 ^ 16
      → complement (
            t.transport_checksum
              (server_sum w t (down_to server proto src port) (client_sum w t proto dst b)))
          % 65535
        ≡ w.checksum
            (t.set_transport_checksum 0
              (server_sum w t (down_to server proto src port) (client_sum w t proto dst b)))
            (w.pseudo_header_checksum proto src dst (length b % 65536))
          % 65535
  unfolding server_sum
  server_sum-client_sum server proto dst src port b whole word =
      let c = client_sum w t proto dst b in
      let local = w.checksum (as_slice (v4 src)) port in
      let total = client_total proto dst b in
      let written = complement (w.combine local (complement (t.transport_checksum c))) in
      let twice : complement (t.transport_checksum c) ≡ total = omega (
        arith,
        client_sum-transport_checksum proto dst b whole,
        laws.checksum_bound (cleared b) (w.pseudo_header_checksum proto 0 dst (length b % 65536)),
      ) in
      let sum : complement written ≡ w.combine local total =
        omega (arith, ap (w.combine local) twice, laws.combine_bound local total) in
      let read =
        laws.transport_checksum-set_source_port port (t.set_transport_checksum written c)
        ∙ laws.transport_checksum-set_transport_checksum written c
            (omega (arith, client_sum-length proto dst b)) (omega arith) in
      ap (λ x. complement x % 65535) read
      ∙ (ap (λ x. x % 65535) sum
          ∙ (totals_agree proto dst src port b whole word
              ∙ ap
                  (λ y.
                    w.checksum y (w.pseudo_header_checksum proto src dst (length b % 65536))
                    % 65535)
                  (sym (client_cleared proto dst port written b))))
