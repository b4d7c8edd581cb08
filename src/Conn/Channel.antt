-- ===== src/Conn/Channel.antt =====
-- conn/conn.go, type conn, after its handshake: `Recv`, `Send`, `outboundService` and
-- `inboundBuitinPacket`. Datagrams that come in and the answers to writes are inputs; what goes to
-- the user-space TCP stack and what is written are outputs.
pub mod RoundTrip
pub mod Builtin
pub mod Order
use fatun.Base.{
  ℕ, ◌^◌, ◌<◌, ◌≡◌, Bool, true, false, Option, none, some, List, [], ◌∷◌, Error, short_buff, Run,
  returns, ◌>>=◌, if◌then◌else◌, ltb, length, take,
}
use fatun.Packet.{BufferLib}
use fatun.Conn.Peer.{Peer, builtin, is_builtin, overhead, encode, decode}
use fatun.Conn.Crypto.{AeadLib, encrypt, decrypt}

-- `type role uint8`
pub data Role : Type 0 where
  client server : Role

-- gVisor's setters of the ports of a TCP header, which keep its checksum right.
pub record PortLib : Type 0 where
  pub set_source_port : ℕ → List ℕ → List ℕ
  pub set_destination_port : ℕ → List ℕ → List ℕ

-- The getters of those ports; the setters change the one port and leave the other, in a whole header.
pub record PortLaws (ports : PortLib) : Type 0 where
  pub source_port : List ℕ → ℕ
  pub destination_port : List ℕ → ℕ
  pub is_whole : List ℕ → Bool
  pub source_port-set_source_port :
      (p : ℕ) (b : List ℕ)
      → is_whole b ≡ true
      → p < 2 ^ 16
      → source_port (ports.set_source_port p b) ≡ p
  pub destination_port-set_destination_port :
      (p : ℕ) (b : List ℕ)
      → is_whole b ≡ true
      → p < 2 ^ 16
      → destination_port (ports.set_destination_port p b) ≡ p
  pub source_port-set_destination_port :
      (p : ℕ) (b : List ℕ) → source_port (ports.set_destination_port p b) ≡ source_port b
  pub destination_port-set_source_port :
      (p : ℕ) (b : List ℕ) → destination_port (ports.set_source_port p b) ≡ destination_port b

-- The fields of `type conn struct` that these operations read; `crypto` is the cipher, if any.
pub record Channel : Type 0 where
  pub role : Role
  pub nat_port : ℕ
  pub crypto : Option AeadLib

-- What reading from the datagram connection gives.
pub data Reading : Type 0 where
  got : List ℕ → Reading
  failed : Error → Reading

-- `inboundBuitinPacket`: the TCP packet that the stack is given.
pub inbound_builtin : PortLib → Channel → List ℕ → List ℕ
inbound_builtin ports c tcp = elim c.role [
  | client ↦ ports.set_destination_port c.nat_port tcp
  | server ↦ ports.set_source_port c.nat_port tcp
]

module _ (buf : BufferLib) (ports : PortLib) where
  open buf use {lib, attach_n, detach_n, with_bytes}

  -- How a call of `Recv` ends: it waits for a datagram, it returns an error and closes the
  -- connection, it returns an error and does not, or it returns a peer and a packet.
  pub data End : Type 0 where
    waits : End
    breaks refuses : Error → End
    delivers : Option Peer → lib.Packet → End

  -- A round of the loop goes on with the peer that was decoded, or ends the call.
  pub data Round : Type 0 where
    inbound : Option Peer → List ℕ → Round
    ends : End → Round

  -- The encrypted part of a round: the head is moved back over the peer header and forth again.
  pub open_packet : AeadLib → Option Peer → lib.Packet → Round
  open_packet aead peer seg =
      let whole = attach_n overhead seg in
      let (e, b) = decrypt aead overhead (lib.bytes whole) in
      elim e [
        | some bad ↦ ends (refuses bad)
        | none ↦ ends (delivers peer (detach_n overhead (with_bytes b whole)))
      ]

  -- A round behind its `recv`, with the bytes that were received.
  pub round : Channel → Option Peer → lib.Packet → List ℕ → Round
  round c peer pkt b =
      let (e, peer', seg) = decode lib peer (with_bytes b pkt) in
      elim e [
        | some bad ↦ ends (refuses bad)
        | none ↦ elim (is_builtin peer') [
          | true ↦ inbound peer' (inbound_builtin ports c (lib.bytes seg))
          | false ↦ elim c.crypto [
            | none ↦ ends (delivers peer' seg)
            | some aead ↦ open_packet aead peer' seg
          ]
        ]
      ]

  -- What a call leaves: how it ends, what the stack was given, and the packets and readings left.
  pub record Left : Type 0 where
    pub end : End
    pub inbox : List (List ℕ)
    pub queue : List (List ℕ)
    pub readings : List Reading

  pub ended : End → List (List ℕ) → List Reading → Left
  ended e queue readings = record { end = e; inbox = []; queue = queue; readings = readings }

  -- The stack gets one more packet, before the others.
  pub give : List ℕ → Left → Left
  give tcp l = record l { inbox = tcp ∷ l.inbox }

  -- The loop of `Recv` into a packet of `size` bytes: `recv` takes the packets kept from the
  -- handshake first, and copies them; a packet that is too long for the copy closes the connection.
  pub recv_loop : ℕ → Channel → Option Peer → lib.Packet → List (List ℕ) → List Reading → Left
  recv_loop size c peer pkt (b ∷ queue) readings =
      let short = ltb size (length b) in
      let next = λ (p : Option Peer). recv_loop size c p pkt queue readings in
      elim short [
        | true ↦ ended (breaks short_buff) queue readings
        | false ↦ elim (round c peer pkt b) [
          | inbound p tcp ↦ give tcp (next p)
          | ends e ↦ ended e queue readings
        ]
      ]
  recv_loop size c peer pkt [] [] = ended waits [] []
  recv_loop size c peer pkt [] (failed e ∷ readings) = ended (breaks e) [] readings
  recv_loop size c peer pkt [] (got b ∷ readings) =
      let next = λ (p : Option Peer). recv_loop size c p pkt [] readings in
      elim (round c peer pkt b) [ inbound p tcp ↦ give tcp (next p) | ends e ↦ ended e [] readings ]

  -- `Recv`, with what `handshake` returns.
  pub recv :
      Option Error → ℕ → Channel → Option Peer → lib.Packet → List (List ℕ) → List Reading → Left
  recv handshake size c peer pkt queue readings = elim handshake [
    | some e ↦ ended (breaks e) queue readings
    | none ↦ recv_loop size c peer pkt queue readings
  ]

  -- The encryption of `Send`.
  pub seal_packet : Channel → Option Peer → List ℕ → Run (List ℕ)
  seal_packet c peer b = elim c.crypto [
    | none ↦ returns b
    | some aead ↦ elim (is_builtin peer) [ true ↦ returns b | false ↦ encrypt aead overhead b ]
  ]

  -- `Send`, with what `handshake` returns and what writing answers: the error, with which the
  -- connection is closed, and the datagram, if it came to writing.
  pub send :
      Option Error
      → (List ℕ → Option Error)
      → Channel
      → Option Peer
      → lib.Packet
      → Run (Option Error × Option (List ℕ))
  send handshake write c peer pkt = elim handshake [
    | some e ↦ returns (some e, none)
    | none ↦
        let (bad, seg) = encode lib peer pkt in
        elim bad [
          | some e ↦ returns (some e, none)
          | none ↦ seal_packet c peer (lib.bytes seg) >>= λ b. returns (write b, some b)
        ]
  ]

  -- One round of `outboundService` with a TCP packet of the stack.
  pub outbound : (List ℕ → Option Error) → lib.Packet → Option Error × Option (List ℕ)
  outbound write tcp =
      let (bad, seg) = encode lib (some builtin) tcp in
      elim bad [ some e ↦ (some e, none) | none ↦ (write (lib.bytes seg), some (lib.bytes seg)) ]
