-- ===== src/Tests/Wire.antt =====
-- Concrete stand-ins for the libraries: packets, headers, sums, the filter's machine and a cipher.
use fatun.Base.{
  ℕ, zero, suc, ◌+◌, ◌-◌, ◌*◌, ◌/◌, ◌%◌, ◌≡◌, refl, ap, ◌∙◌, some, List, [], ◌∷◌, ◌++◌, arith,
  length, take, drop, set, replicate, get_or, leb, if◌then◌else◌, ◌=ᵇ◌,
}
use fatun.Net.{v4, as_slice, be_bytes}
use fatun.Packet.{PacketLib, HeaderLib}
use fatun.Checksum.{TransportLib, Wire, Ip4Fields}
use fatun.Client.Mss.{TcpLib}
use fatun.Client.Mss.Scan.{get_elem?-set_ne}
use fatun.Server.Filter.{
  Instruction, load_absolute, load_mem_shift, load_indirect, jump_not_equal, ret_constant,
}
use fatun.Server.Filter.Machine.{Machine}
use fatun.Conn.Crypto.{AeadLib}

-- A packet is its head and its data.
abbrev pub packets : PacketLib
packets = record {
  Packet = ℕ × List ℕ;
  bytes = λ p. p.1;
  head = λ p. p.0;
  set_head = λ n p. (n, drop (n - p.0) p.1);
  attach = λ bs p. (p.0 - length bs, bs ++ p.1);
  bytes-attach = λ bs p. refl;
  bytes-set_head = λ n p h. ap (λ k. drop k p.1) (omega arith);
}

-- The big-endian number in a part of a packet.
abbrev pub number : ℕ → List ℕ → ℕ
number acc [] = acc
number acc (b ∷ bs) = number (acc * 256 + b) bs

abbrev pub part_of : List ℕ → ℕ → ℕ → ℕ
part_of p off n = number 0 (take n (drop off p))

abbrev pub header_views : HeaderLib
header_views = record {
  ip_version = λ b. get_or b 0 0 / 16;
  ip4_total_length = λ b. part_of b 2 2;
  ip4_header_length = λ b. 4 * (get_or b 0 0 % 16);
  ip4_protocol = λ b. get_or b 9 0;
  ip4_source = λ b. part_of b 12 4;
  ip4_destination = λ b. part_of b 16 4;
  ip4_payload = λ b. drop (4 * (get_or b 0 0 % 16)) b;
  ip6_payload_length = λ b. part_of b 4 2;
  ip6_next_protocol = λ b. get_or b 6 0;
  ip6_source = λ b. part_of b 8 16;
  ip6_destination = λ b. part_of b 24 16;
  ip6_payload = λ b. drop 40 b;
  tcp_source_port = λ b. part_of b 0 2;
  tcp_destination_port = λ b. part_of b 2 2;
  udp_source_port = λ b. part_of b 0 2;
  udp_destination_port = λ b. part_of b 2 2;
  reads_ip4_total_length = λ b. leb 4 (length b);
  reads_ip4_protocol = λ b. leb 10 (length b);
  reads_ip4_addresses = λ b. leb 20 (length b);
  reads_ip4_payload = λ b. leb (4 * (get_or b 0 0 % 16)) (length b);
  reads_ip6_payload_length = λ b. leb 6 (length b);
  reads_ip6_fields = λ b. leb 40 (length b);
  reads_ip6_payload = λ b. leb 40 (length b);
  reads_ports = λ b. leb 4 (length b);
}

-- Two bytes written at an offset.
abbrev pub write16 : ℕ → ℕ → List ℕ → List ℕ
write16 off v b = set (set b off (v / 256 % 256)) (off + 1) (v % 256)

abbrev pub udp_views : TransportLib
udp_views = record {
  reads_header = λ b. leb 8 (length b);
  source_port = λ b. get_or b 0 0 * 256 + get_or b 1 0;
  destination_port = λ b. get_or b 2 0 * 256 + get_or b 3 0;
  transport_checksum = λ b. get_or b 6 0 * 256 + get_or b 7 0;
  set_source_port = write16 0;
  set_destination_port = write16 2;
  set_transport_checksum = write16 6;
}

abbrev pub tcp_views : TransportLib
tcp_views = record {
  reads_header = λ b. leb 20 (length b);
  source_port = λ b. get_or b 0 0 * 256 + get_or b 1 0;
  destination_port = λ b. get_or b 2 0 * 256 + get_or b 3 0;
  transport_checksum = λ b. get_or b 16 0 * 256 + get_or b 17 0;
  set_source_port = write16 0;
  set_destination_port = write16 2;
  set_transport_checksum = write16 16;
}

-- The sum of the 16-bit words.
abbrev pub sum16 : List ℕ → ℕ
sum16 [] = 0
sum16 (a ∷ []) = a * 256
sum16 (a ∷ b ∷ r) = a * 256 + b + sum16 r

abbrev pub ones_sum : List ℕ → ℕ → ℕ
ones_sum b i = (sum16 b + i) % 65535

abbrev pub ip4_header : Ip4Fields → List ℕ
ip4_header f =
    69
    ∷ f.tos
    ∷ (be_bytes 2 f.total_length
        ++ (be_bytes 2 f.id
            ++ (0
                ∷ 0
                ∷ f.ttl
                ∷ f.protocol
                ∷ 0
                ∷ 0
                ∷ (be_bytes 4 f.src_addr ++ be_bytes 4 f.dst_addr))))

abbrev pub wire : Wire
wire = record {
  headers = header_views;
  tcp = tcp_views;
  udp = udp_views;
  checksum = ones_sum;
  combine = λ a b. (a + b) % 65535;
  pseudo_header_checksum = λ proto src dst n.
      (ones_sum (as_slice (v4 src)) 0 + ones_sum (as_slice (v4 dst)) 0 + proto + n) % 65535;
  encode_ip4 = λ f b. ip4_header f ++ drop 20 b;
  set_ip4_checksum = write16 10;
  calculate_checksum = λ b. ones_sum (take 20 b) 0;
}

abbrev pub tcp_options : TcpLib
tcp_options = record {
  data_offset = λ b. get_or b 12 0 / 16 * 4;
  tcp_checksum = λ b. get_or b 16 0 * 256 + get_or b 17 0;
  set_checksum = write16 16;
  checksum = ones_sum;
  combine = λ a b. (a + b) % 65535;
  get_elem?-set_checksum = λ c h j a b.
      get_elem?-set_ne (set h 16 (c / 256 % 256)) 17 j (c % 256) (omega arith)
      ∙ get_elem?-set_ne h 16 j (c / 256 % 256) (omega arith);
}

-- Running a program, with a number of instructions still to skip.
abbrev pub run : List Instruction → ℕ → ℕ → ℕ → List ℕ → ℕ
run [] skip a x p = 0
run (i ∷ is) (suc skip) a x p = run is skip a x p
run (load_absolute o s ∷ is) zero a x p = run is 0 (part_of p o s) x p
run (load_mem_shift o ∷ is) zero a x p = run is 0 a (4 * (part_of p o 1 % 16)) p
run (load_indirect o s ∷ is) zero a x p = run is 0 (part_of p (x + o) s) x p
run (jump_not_equal v t ∷ is) zero a x p = run is (if a =ᵇ v then 0 else t) a x p
run (ret_constant v ∷ is) zero a x p = v

run-drop :
    (is : List Instruction) (t a x : ℕ) (p : List ℕ) → run is t a x p ≡ run (drop t is) 0 a x p
run-drop [] zero a x p = refl
run-drop [] (suc t) a x p = refl
run-drop (i ∷ is) zero a x p = refl
run-drop (i ∷ is) (suc t) a x p = run-drop is t a x p

pub run-jump :
    (v t : ℕ) (is : List Instruction) (a x : ℕ) (p : List ℕ)
    → run (jump_not_equal v t ∷ is) 0 a x p
      ≡ (if a =ᵇ v then run is 0 a x p else run (drop t is) 0 a x p)
run-jump v t is a x p = ground (arith, run-drop is t a x p)

abbrev pub vm : Machine
vm = record {
  exec = λ is a x p. run is 0 a x p;
  load = part_of;
  exec-load_absolute = λ o s is a x p h. refl;
  exec-load_mem_shift = λ o is a x p h. refl;
  exec-load_indirect = λ o s is a x p h. refl;
  exec-jump_not_equal = run-jump;
  exec-ret_constant = λ v is a x p. refl;
}

-- A cipher that only adds a tag.
abbrev pub tagging : AeadLib
tagging = record {
  seal = λ nonce text. replicate 16 7 ++ text;
  open_sealed = λ nonce text. some (drop 16 text);
  overwritten = λ nonce text. [];
  length-seal = λ nonce text. omega arith;
  open_sealed-seal = λ nonce text. refl;
}
