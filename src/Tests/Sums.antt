-- ===== src/Tests/Sums.antt =====
-- The checksum laws at the concrete UDP header.
use fatun.Tests.Wire.{write16, sum16, wire, udp_views}
use fatun.Base.{
  ℕ, ◌+◌, ◌*◌, ◌/◌, ◌%◌, ◌^◌, ◌<◌, ◌≤◌, ◌≡◌, refl, true, ◌∙◌, List, [], ◌∷◌, arith, length,
  length-set, set, get_or, get_or-set_self, get_or-set_ne,
}
use fatun.Net.{v4, as_slice, be_bytes}
use fatun.Checksum.Agreement.{SumLaws}

pub set_port_twice : (x y : ℕ) (b : List ℕ) → write16 0 x (write16 0 y b) ≡ write16 0 x b
set_port_twice x y [] = refl
set_port_twice x y (a ∷ []) = refl
set_port_twice x y (a ∷ b ∷ r) = refl

pub set_sum_twice : (x y : ℕ) (b : List ℕ) → write16 6 x (write16 6 y b) ≡ write16 6 x b
set_sum_twice x y [] = refl
set_sum_twice x y (a ∷ []) = refl
set_sum_twice x y (a ∷ b ∷ []) = refl
set_sum_twice x y (a ∷ b ∷ c ∷ []) = refl
set_sum_twice x y (a ∷ b ∷ c ∷ d ∷ []) = refl
set_sum_twice x y (a ∷ b ∷ c ∷ d ∷ e ∷ []) = refl
set_sum_twice x y (a ∷ b ∷ c ∷ d ∷ e ∷ f ∷ []) = refl
set_sum_twice x y (a ∷ b ∷ c ∷ d ∷ e ∷ f ∷ g ∷ []) = refl
set_sum_twice x y (a ∷ b ∷ c ∷ d ∷ e ∷ f ∷ g ∷ h ∷ r) = refl

pub set_both : (c p : ℕ) (b : List ℕ) → write16 6 c (write16 0 p b) ≡ write16 0 p (write16 6 c b)
set_both c p [] = refl
set_both c p (a ∷ []) = refl
set_both c p (a ∷ b ∷ r) = refl

pub length-write16 : (off v : ℕ) (b : List ℕ) → length (write16 off v b) ≡ length b
length-write16 off v b =
    length-set (set b off (v / 256 % 256)) (off + 1) (v % 256) ∙ length-set b off (v / 256 % 256)

pub sum16-port :
    (p : ℕ) (b : List ℕ)
    → 8 ≤ length b
    → p < 2 ^ 16
    → sum16 (write16 0 p b) ≡ sum16 (write16 0 0 b) + p
sum16-port p [] h small = absurd (omega arith)
sum16-port p (a ∷ []) h small = absurd (omega arith)
sum16-port p (a ∷ b ∷ r) h small = omega arith

pub read_sum :
    (c : ℕ) (b : List ℕ)
    → 8 ≤ length b
    → c < 2 ^ 16
    → get_or (write16 6 c b) 6 0 * 256 + get_or (write16 6 c b) 7 0 ≡ c
read_sum c b h small =
    let first = set b 6 (c / 256 % 256) in
    omega (
      arith,
      get_or-set_ne first 7 6 (c % 256) 0 (omega arith),
      get_or-set_self b 6 (c / 256 % 256) 0 (omega arith),
      get_or-set_self first 7 (c % 256) 0 (omega (arith, length-set b 6 (c / 256 % 256))),
    )

pub port_keeps_sum :
    (p : ℕ) (b : List ℕ)
    → get_or (write16 0 p b) 6 0 * 256 + get_or (write16 0 p b) 7 0
      ≡ get_or b 6 0 * 256 + get_or b 7 0
port_keeps_sum p [] = refl
port_keeps_sum p (a ∷ []) = refl
port_keeps_sum p (a ∷ b ∷ r) = refl

pub no_source : sum16 (as_slice (v4 0)) ≡ 0
unfolding as_slice be_bytes
no_source = refl

pub reads_udp_header : (b : List ℕ) → 8 ≤ length b → udp_views.reads_header b ≡ true
reads_udp_header b h = ground (arith, h)

pub reads_udp_ports : (b : List ℕ) → 8 ≤ length b → wire.headers.reads_ports b ≡ true
reads_udp_ports b h = ground (arith, h)

abbrev pub udp_laws : SumLaws wire udp_views
udp_laws = record {
  size = 8;
  reads_header_whole = reads_udp_header;
  reads_ports_whole = reads_udp_ports;
  checksum_add = λ b i. omega arith;
  checksum_bound = λ b i. omega arith;
  combine_add = λ a b. omega arith;
  combine_bound = λ a b. omega arith;
  pseudo_source = λ proto src dst n. omega (arith, no_source);
  checksum-set_source_port = λ p b h small. omega (arith, sum16-port p b h small);
  transport_checksum-set_transport_checksum = read_sum;
  transport_checksum-set_source_port = port_keeps_sum;
  length-set_transport_checksum = length-write16 6;
  length-set_source_port = length-write16 0;
  set_source_port_twice = set_port_twice;
  set_transport_checksum_twice = set_sum_twice;
  set_comm = set_both;
}
