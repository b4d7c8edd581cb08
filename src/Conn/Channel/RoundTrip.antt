-- ===== src/Conn/Channel/RoundTrip.antt =====
-- conn/conn.go: what one end sends, the other end receives.
use fatun.Base.{
  ℕ, ◌+◌, ◌%◌, ◌^◌, ◌<◌, ◌≤◌, ◌≡◌, refl, sym, ap, ◌∙◌, true, false, Option, none, some, List, [],
  ◌∷◌, ◌++◌, Error, returns, arith, length, take, drop, Option-cases, inl, inr,
}
use fatun.Net.{v4, as_slice}
use fatun.Packet.{BufferLib}
use fatun.Conn.Peer.{Peer, is_valid, is_builtin, decode}
use fatun.Conn.Peer.RoundTrip.{
  encoded, bytes-encoded, encode_run, decode_run, same_peer, length_of_five, drop_five,
}
use fatun.Conn.Crypto.{AeadLib, decrypt}
use fatun.Conn.Crypto.RoundTrip.{take-drop, decrypt-encrypt}
use fatun.Conn.Channel.{
  PortLib, Channel, Reading, got, ends, delivers, ended, round, open_packet, recv_loop, seal_packet,
  send,
}

module _ (buf : BufferLib) (ports : PortLib) where
  open buf use {
    lib, attach_n, detach_n, with_bytes, bytes-attach_n, bytes-detach_n, bytes-with_bytes,
  }

  -- The bytes of a peer, and data behind them.
  abbrev pub framed : ℕ → ℕ → List ℕ → List ℕ
  framed proto a rest = (proto % 256) ∷ (as_slice (v4 a) ++ rest)

  pub decode-framed :
      (p q : Peer) (a : ℕ) (rest w : List ℕ) (pkt : lib.Packet)
      → p.dst ≡ v4 a
      → a < 2 ^ 32
      → is_valid (some p) ≡ true
      → w ≡ framed p.proto a rest
      → let seg = with_bytes w pkt in
        decode lib (some q) seg ≡ (none, some p, lib.set_head (lib.head seg + 5) seg)
  decode-framed p q a rest w pkt at small valid e =
      let seg = with_bytes w pkt in
      decode_run lib q a (p.proto % 256) rest seg small (bytes-with_bytes w pkt ∙ e)
      ∙ ap (λ (x : Peer). (none, some x, lib.set_head (lib.head seg + 5) seg))
          (same_peer p a at valid)

  sealed_framed :
      (proto a : ℕ) (b w : List ℕ)
      → take 5 w ≡ take 5 (framed proto a b)
      → w ≡ framed proto a (drop 5 w)
  unfolding as_slice
  sealed_framed proto a b w same = sym (take-drop 5 w) ∙ ap (λ xs. xs ++ drop 5 w) same

  -- A round on a datagram that holds a peer that is not the builtin one.
  round_plain :
      (c : Channel) (p q : Peer) (a : ℕ) (rest : List ℕ) (pkt : lib.Packet)
      → p.dst ≡ v4 a
      → a < 2 ^ 32
      → is_valid (some p) ≡ true
      → is_builtin (some p) ≡ false
      → c.crypto ≡ none
      → let seg = with_bytes (framed p.proto a rest) pkt in
        round buf ports c (some q) pkt (framed p.proto a rest)
        ≡ ends (delivers (some p) (lib.set_head (lib.head seg + 5) seg))
  unfolding round
  round_plain c p q a rest pkt at small valid other plain = ground (
    arith,
    decode-framed p q a rest (framed p.proto a rest) pkt at small valid refl,
    other,
    plain,
  )

  -- A round on a datagram that was sealed.
  round_sealed :
      (c : Channel) (aead : AeadLib) (p q : Peer) (a : ℕ) (b w : List ℕ) (pkt : lib.Packet)
      → p.dst ≡ v4 a
      → a < 2 ^ 32
      → is_valid (some p) ≡ true
      → is_builtin (some p) ≡ false
      → c.crypto ≡ some aead
      → 5 ≤ length w
      → take 5 w ≡ take 5 (framed p.proto a b)
      → decrypt aead 5 w ≡ (none, framed p.proto a b)
      → let seg = with_bytes w pkt in
        let whole = attach_n 5 (lib.set_head (lib.head seg + 5) seg) in
        round buf ports c (some q) pkt w
        ≡ ends (delivers (some p) (detach_n 5 (with_bytes (framed p.proto a b) whole)))
  unfolding round open_packet
  round_sealed c aead p q a b w pkt at small valid other sealed long front opened =
      let seg = with_bytes w pkt in
      let whole = attach_n 5 (lib.set_head (lib.head seg + 5) seg) in
      let size : 5 ≤ length (lib.bytes seg) = omega (arith, ap length (bytes-with_bytes w pkt)) in
      let read : lib.bytes whole ≡ w = bytes-attach_n 5 seg size ∙ bytes-with_bytes w pkt in
      let got_back : decrypt aead 5 (lib.bytes whole) ≡ (none, framed p.proto a b) =
        ap (decrypt aead 5) read ∙ opened in
      ground (
        arith,
        decode-framed p q a (drop 5 w) w pkt at small valid (sealed_framed p.proto a b w front),
        other,
        sealed,
        got_back,
      )

  -- What a receiver makes of what a sender wrote.
  abbrev pub Arrives : Channel → Peer → List ℕ → List ℕ → Type 0
  Arrives c p payload w =
      (size : ℕ) (q : Peer) (pkt : lib.Packet) (readings : List Reading)
      → (r : lib.Packet) × (recv_loop buf ports size c (some q) pkt [] (got w ∷ readings)
          ≡ ended buf ports (delivers (some p) r) [] readings)
        × (lib.bytes r ≡ payload)

  Arrives-plain :
      (c : Channel) (p : Peer) (a : ℕ) (payload : List ℕ)
      → p.dst ≡ v4 a
      → a < 2 ^ 32
      → is_valid (some p) ≡ true
      → is_builtin (some p) ≡ false
      → c.crypto ≡ none
      → Arrives c p payload (framed p.proto a payload)
  unfolding recv_loop
  Arrives-plain c p a payload at small valid other plain size q pkt readings =
      let seg = with_bytes (framed p.proto a payload) pkt in
      let read = bytes-with_bytes (framed p.proto a payload) pkt in
      let long = length_of_five (p.proto % 256) a payload in
      (
        lib.set_head (lib.head seg + 5) seg,
        ground (arith, round_plain c p q a payload pkt at small valid other plain),
        lib.bytes-set_head 5 seg (omega (arith, ap length read, long))
            ∙ (ap (drop 5) read ∙ drop_five (p.proto % 256) a payload),
      )

  Arrives-sealed :
      (c : Channel) (aead : AeadLib) (p : Peer) (a : ℕ) (payload w : List ℕ)
      → p.dst ≡ v4 a
      → a < 2 ^ 32
      → is_valid (some p) ≡ true
      → is_builtin (some p) ≡ false
      → c.crypto ≡ some aead
      → 5 ≤ length w
      → take 5 w ≡ take 5 (framed p.proto a payload)
      → decrypt aead 5 w ≡ (none, framed p.proto a payload)
      → Arrives c p payload w
  unfolding recv_loop
  Arrives-sealed c aead p a payload w at small valid other sealed wide front opened size q pkt
        readings =
      let seg = with_bytes w pkt in
      let whole = attach_n 5 (lib.set_head (lib.head seg + 5) seg) in
      let clear = with_bytes (framed p.proto a payload) whole in
      let read = bytes-with_bytes (framed p.proto a payload) whole in
      let long = length_of_five (p.proto % 256) a payload in
      (
        detach_n 5 clear,
        ground (
          arith,
          round_sealed c aead p q a payload w pkt at small valid other sealed wide front opened,
        ),
        bytes-detach_n 5 clear (omega (arith, ap length read, long))
            ∙ (ap (drop 5) read ∙ drop_five (p.proto % 256) a payload),
      )

  -- A packet for a valid peer with an IPv4 address that is not the builtin one is sent without an
  -- error, encrypted if the sender has a cipher, when the write succeeds; and a receiver with the
  -- same cipher, or with none too, that reads the datagram in a call of `Recv` with no packets kept
  -- returns that peer and a packet with the same bytes, whatever follows the datagram.
  pub recv_loop-send :
      (write : List ℕ → Option Error) (sender receiver : Channel) (p : Peer) (a : ℕ)
      (pkt : lib.Packet)
      → ((w : List ℕ) → write w ≡ none)
      → p.dst ≡ v4 a
      → a < 2 ^ 32
      → is_valid (some p) ≡ true
      → is_builtin (some p) ≡ false
      → receiver.crypto ≡ sender.crypto
      → (w : List ℕ) × (send buf ports none write sender (some p) pkt ≡ returns (none, some w))
        × Arrives receiver p (lib.bytes pkt) w
  unfolding send seal_packet
  recv_loop-send write sender receiver p a pkt writes at small valid other same =
      let payload = lib.bytes pkt in
      let frame = framed p.proto a payload in
      let coded = encode_run lib p a pkt at valid in
      let wire : lib.bytes (encoded lib p.proto a pkt) ≡ frame = bytes-encoded lib p.proto a pkt in
      elim (Option-cases sender.crypto) [
        | inl plain ↦ (
          frame,
          ground (arith, coded, wire, plain, writes frame),
          Arrives-plain receiver p a payload at small valid other (same ∙ plain),
        )
        | inr (aead, cipher) ↦
            let long = length_of_five (p.proto % 256) a payload in
            let (w, ran, grown, front, opened) =
              decrypt-encrypt aead 5 frame (omega (arith, long)) in
            (
              w,
              ground (arith, coded, wire, cipher, other, ran, writes w),
              Arrives-sealed receiver aead p a payload w at small valid other (same ∙ cipher)
                  (omega (arith, grown, long)) front opened,
            )
      ]
