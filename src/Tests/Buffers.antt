-- ===== src/Tests/Buffers.antt =====
-- Concrete stand-ins for the packet buffer, the ports of a TCP header and the capture files.
use fatun.Base.{
  ℕ, ◌+◌, ◌-◌, ◌*◌, ◌^◌, ◌<◌, true, leb, get_or, ◌≤◌, ◌≡◌, ◌≢◌, refl, ap, ap₂, ◌∙◌, none, List, [],
  ◌∷◌, ◌++◌, zero, suc, arith, length, length-append, take, drop, if◌then◌else◌, ◌=ᵇ◌,
}
use fatun.Packet.{PacketLib, BufferLib, PcapLib}
use fatun.Conn.Channel.{PortLib, PortLaws}
use fatun.Conn.Crypto.RoundTrip.{take-drop}
use fatun.Tests.Wire.{write16}

-- A packet is the room in front of its head, and its data.
abbrev Buffer : Type 0
Buffer = List ℕ × List ℕ

abbrev move_head : ℕ → Buffer → Buffer
move_head n p = (take n (p.0 ++ p.1), drop n (p.0 ++ p.1))

the_next : (m n : ℕ) → suc m + n ≡ suc (m + n)
the_next m n = omega arith

pub drop_front : (n : ℕ) (xs ys : List ℕ) → drop (length xs + n) (xs ++ ys) ≡ drop n ys
drop_front n [] ys = ap (λ k. drop k ys) (omega arith)
drop_front n (x ∷ xs) ys =
    ap (λ k. drop k (x ∷ (xs ++ ys))) (the_next (length xs) n) ∙ drop_front n xs ys

take_front : (xs ys : List ℕ) → take (length xs) (xs ++ ys) ≡ xs
take_front [] ys = refl
take_front (x ∷ xs) ys = ap (λ zs. x ∷ zs) (take_front xs ys)

length-take : (n : ℕ) (xs : List ℕ) → n ≤ length xs → length (take n xs) ≡ n
length-take zero xs h = refl
length-take (suc n) [] h = absurd (omega arith)
length-take (suc n) (x ∷ xs) h = ap suc (length-take n xs (omega arith))

pub move_head_twice : (n m : ℕ) (p : Buffer) → move_head n (move_head m p) ≡ move_head n p
move_head_twice n m p = ap (λ w. (take n w, drop n w)) (take-drop m (p.0 ++ p.1))

pub move_head-length : (p : Buffer) → move_head (length p.0) p ≡ p
move_head-length p =
    ap₂ (λ (f d : List ℕ). (f, d)) (take_front p.0 p.1)
      (ap (λ k. drop k (p.0 ++ p.1)) (omega arith) ∙ drop_front 0 p.0 p.1)

abbrev pub front_packets : PacketLib
front_packets = record {
  Packet = Buffer;
  bytes = λ p. p.1;
  head = λ p. length p.0;
  set_head = move_head;
  attach = λ bs p. (take (length p.0 - length bs) p.0, bs ++ p.1);
  bytes-attach = λ bs p. refl;
  bytes-set_head = λ n p h. drop_front n p.0 p.1;
}

pub back_and_forth :
    (n : ℕ) (p : Buffer)
    → n ≤ length p.1
    → (move_head (length (move_head (length p.0 + n) p).0 - n) (move_head (length p.0 + n) p)).1
      ≡ p.1
back_and_forth n p h =
    let whole = p.0 ++ p.1 in
    let far : length (take (length p.0 + n) whole) ≡ length p.0 + n =
      length-take (length p.0 + n) whole (omega (arith, length-append p.0 p.1)) in
    let back : length (take (length p.0 + n) whole) - n ≡ length p.0 = omega (arith, far) in
    ap (λ k. drop k (take (length p.0 + n) whole ++ drop (length p.0 + n) whole)) back
    ∙ (ap (drop (length p.0)) (take-drop (length p.0 + n) whole)
        ∙ ap (λ q. q.1) (move_head-length p))

abbrev pub buffers : BufferLib
buffers = record {
  lib = front_packets;
  attach_n = λ n p. move_head (length p.0 - n) p;
  detach_n = λ n p. move_head (length p.0 + n) p;
  with_bytes = λ b p. (p.0, b);
  bytes-attach_n = back_and_forth;
  bytes-detach_n = λ n p h. drop_front n p.0 p.1;
  set_head_twice = move_head_twice;
  set_head-head = move_head-length;
  head-with_bytes = λ b p. refl;
  bytes-with_bytes = λ b p. refl;
}

abbrev pub tcp_ports : PortLib
tcp_ports = record { set_source_port = write16 0; set_destination_port = write16 2 }

abbrev pub word_at : ℕ → List ℕ → ℕ
word_at i b = get_or b i 0 * 256 + get_or b (i + 1) 0

pub first_word :
    (p : ℕ) (b : List ℕ) → leb 4 (length b) ≡ true → p < 2 ^ 16 → word_at 0 (write16 0 p b) ≡ p
first_word p [] whole small = absurd (ground arith)
first_word p (x ∷ []) whole small = absurd (ground arith)
first_word p (x ∷ y ∷ r) whole small = omega arith

pub second_word :
    (p : ℕ) (b : List ℕ) → leb 4 (length b) ≡ true → p < 2 ^ 16 → word_at 2 (write16 2 p b) ≡ p
second_word p [] whole small = absurd (ground arith)
second_word p (x ∷ []) whole small = absurd (ground arith)
second_word p (x ∷ y ∷ []) whole small = absurd (ground arith)
second_word p (x ∷ y ∷ z ∷ []) whole small = absurd (ground arith)
second_word p (x ∷ y ∷ z ∷ u ∷ r) whole small = omega arith

pub first_kept : (p : ℕ) (b : List ℕ) → word_at 0 (write16 2 p b) ≡ word_at 0 b
first_kept p [] = refl
first_kept p (x ∷ []) = refl
first_kept p (x ∷ y ∷ r) = refl

pub second_kept : (p : ℕ) (b : List ℕ) → word_at 2 (write16 0 p b) ≡ word_at 2 b
second_kept p [] = refl
second_kept p (x ∷ []) = refl
second_kept p (x ∷ y ∷ r) = refl

abbrev pub port_laws : PortLaws tcp_ports
port_laws = record {
  source_port = word_at 0;
  destination_port = word_at 2;
  is_whole = λ b. leb 4 (length b);
  source_port-set_source_port = first_word;
  destination_port-set_destination_port = second_word;
  source_port-set_destination_port = first_kept;
  destination_port-set_source_port = second_kept;
}

-- A file is the list of what was written; files are listed by number.
abbrev append_to : ℕ → List ℕ → (ℕ → List (List ℕ)) → ℕ → List (List ℕ)
append_to f ip files g = if g =ᵇ f then files g ++ ip ∷ [] else files g

pub append_same :
    (f : ℕ) (ip : List ℕ) (files : ℕ → List (List ℕ)) → append_to f ip files f ≡ files f ++ ip ∷ []
append_same f ip files = ground arith

pub append_other :
    (f g : ℕ) (ip : List ℕ) (files : ℕ → List (List ℕ)) → g ≢ f → append_to f ip files g ≡ files g
append_other f g ip files h = ground (arith, h)

abbrev pub capture_files : PcapLib
capture_files = record {
  Files = ℕ → List (List ℕ);
  write_ip = λ f ip files. (none, append_to f ip files);
  recorded = λ f files. files f;
  recorded-write_ip = λ f ip files h. append_same f ip files;
  recorded-write_ip_other = append_other;
}
