-- ===== src/Conn/Peer/RoundTrip.antt =====
-- conn/peer.go: encoding at one end and decoding at the other.
use fatun.Base.{
  ℕ, ◌+◌, ◌%◌, ◌^◌, ◌<◌, ◌≡◌, refl, ap, ◌∙◌, true, false, none, some, List, [], ◌∷◌, ◌++◌, arith,
  ltb, length, take, drop,
}
use fatun.Net.{v4, as_slice}
use fatun.Packet.{PacketLib}
use fatun.Conn.Peer.{Peer, is_valid, be_number, encode, decode}

be_number-as_slice : (a : ℕ) → a < 2 ^ 32 → be_number 0 (as_slice (v4 a)) ≡ a
unfolding be_number as_slice
be_number-as_slice a h = omega arith

pub length_of_five :
    (c a : ℕ) (rest : List ℕ) → length (c ∷ (as_slice (v4 a) ++ rest)) ≡ length rest + 5
unfolding as_slice
length_of_five c a rest = omega arith

not_short : (c a : ℕ) (rest : List ℕ) → ltb (length (c ∷ (as_slice (v4 a) ++ rest))) 5 ≡ false
unfolding as_slice
not_short c a rest = ground arith

pub take_four :
    (c a : ℕ) (rest : List ℕ) → take 4 (drop 1 (c ∷ (as_slice (v4 a) ++ rest))) ≡ as_slice (v4 a)
unfolding as_slice
take_four c a rest = refl

pub drop_five : (c a : ℕ) (rest : List ℕ) → drop 5 (c ∷ (as_slice (v4 a) ++ rest)) ≡ rest
unfolding as_slice
drop_five c a rest = refl

pub same_peer :
    (p : Peer) (a : ℕ)
    → p.dst ≡ v4 a
    → is_valid (some p) ≡ true
    → record { proto = p.proto % 256; dst = v4 a } ≡ p
unfolding is_valid
same_peer p a at valid = ground arith

module _ (lib : PacketLib) where
  open lib use {Packet, bytes, head, set_head, attach, bytes-attach, bytes-set_head}

  pub encoded : (proto a : ℕ) (pkt : Packet) → Packet
  encoded proto a pkt = attach ((proto % 256) ∷ []) (attach (as_slice (v4 a)) pkt)

  pub bytes-encoded :
      (proto a : ℕ) (pkt : Packet)
      → bytes (encoded proto a pkt) ≡ (proto % 256) ∷ (as_slice (v4 a) ++ bytes pkt)
  unfolding encoded
  bytes-encoded proto a pkt =
      bytes-attach ((proto % 256) ∷ []) (attach (as_slice (v4 a)) pkt)
      ∙ ap (◌∷◌ (proto % 256)) (bytes-attach (as_slice (v4 a)) pkt)

  pub encode_run :
      (p : Peer) (a : ℕ) (pkt : Packet)
      → p.dst ≡ v4 a
      → is_valid (some p) ≡ true
      → encode lib (some p) pkt ≡ (none, encoded p.proto a pkt)
  unfolding encode encoded
  encode_run p a pkt at valid =
      rw valid (ap (λ d. (none, attach ((p.proto % 256) ∷ []) (attach (as_slice d) pkt))) at)

  pub decode_run :
      (q : Peer) (a c : ℕ) (rest : List ℕ) (seg : Packet)
      → a < 2 ^ 32
      → bytes seg ≡ c ∷ (as_slice (v4 a) ++ rest)
      → decode lib (some q) seg
        ≡ (none, some (record { proto = c; dst = v4 a }), set_head (head seg + 5) seg)
  unfolding decode
  decode_run q a c rest seg small e = rw e (
      rw (not_short c a rest) (
        ap (λ n. (none, some (record { proto = c; dst = v4 n }), set_head (head seg + 5) seg))
          (ap (be_number 0) (take_four c a rest) ∙ be_number-as_slice a small)))

  -- A valid peer with an IPv4 address is encoded without error, in five bytes before the packet, and
  -- decoding gives the peer and the packet's bytes back, whatever peer receives it.
  pub decode-encode :
      (p q : Peer) (a : ℕ) (pkt : Packet)
      → p.dst ≡ v4 a
      → a < 2 ^ 32
      → is_valid (some p) ≡ true
      → ((encode lib (some p) pkt).0 ≡ none)
        × (length (bytes (encode lib (some p) pkt).1) ≡ length (bytes pkt) + 5)
        × ((decode lib (some q) (encode lib (some p) pkt).1).0 ≡ none)
        × ((decode lib (some q) (encode lib (some p) pkt).1).1 ≡ some p)
        × (bytes (decode lib (some q) (encode lib (some p) pkt).1).2 ≡ bytes pkt)
  decode-encode p q a pkt at small valid =
      let seg = encoded p.proto a pkt in
      let ran = encode_run p a pkt at valid in
      let got =
        decode_run q a (p.proto % 256) (bytes pkt) seg small (bytes-encoded p.proto a pkt) in
      let long : length (bytes seg) ≡ length (bytes pkt) + 5 =
        ap length (bytes-encoded p.proto a pkt) ∙ length_of_five (p.proto % 256) a (bytes pkt) in
      rw (ran, got)
        (
          refl,
          long,
          refl,
          ap some (same_peer p a at valid),
          bytes-set_head 5 seg (omega (arith, long))
              ∙ (ap (drop 5) (bytes-encoded p.proto a pkt)
                  ∙ drop_five (p.proto % 256) a (bytes pkt)),
        )
