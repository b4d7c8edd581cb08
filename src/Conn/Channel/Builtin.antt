-- ===== src/Conn/Channel/Builtin.antt =====
-- conn/conn.go: the packets of the user-space TCP stack on their way to the other end.
use fatun.Base.{
  ℕ, ◌+◌, ◌%◌, ◌^◌, ◌<◌, ◌≡◌, refl, ap, ◌∙◌, true, Option, none, some, List, [], ◌∷◌, Error, arith,
  length, drop,
}
use fatun.Net.{AddrPort, v4}
use fatun.Packet.{BufferLib}
use fatun.Conn.Peer.{Peer, is_valid, is_builtin, builtin}
use fatun.Conn.Peer.RoundTrip.{bytes-encoded, encoded, encode_run, length_of_five, drop_five}
use fatun.Conn.Channel.{
  PortLib, PortLaws, Role, client, server, Channel, Reading, got, inbound, give, round, recv_loop,
  outbound, inbound_builtin,
}
use fatun.Conn.Crypto.{AeadLib}
use fatun.Opening.Conns.{new_conn}
use fatun.Conn.Channel.RoundTrip.{framed, decode-framed}

builtin-is_valid : is_valid (some builtin) ≡ true
unfolding is_valid builtin
builtin-is_valid = refl

builtin-is_builtin : is_builtin (some builtin) ≡ true
unfolding is_builtin is_valid builtin
builtin-is_builtin = refl

builtin_dst : builtin.dst ≡ v4 0
unfolding builtin
builtin_dst = refl

module _ (buf : BufferLib) (ports : PortLib) where
  open buf use {lib, with_bytes, bytes-with_bytes}

  round_builtin :
      (c : Channel) (q : Peer) (tcp : List ℕ) (pkt : lib.Packet)
      → round buf ports c (some q) pkt (framed buf ports builtin.proto 0 tcp)
        ≡ inbound (some builtin) (inbound_builtin ports c tcp)
  unfolding round
  round_builtin c q tcp pkt =
      let w = framed buf ports builtin.proto 0 tcp in
      let seg = with_bytes w pkt in
      let read = bytes-with_bytes w pkt in
      let long = length_of_five (builtin.proto % 256) 0 tcp in
      let decoded =
        decode-framed buf ports builtin q 0 tcp w pkt builtin_dst (omega arith) builtin-is_valid
          refl in
      let inner : lib.bytes (lib.set_head (lib.head seg + 5) seg) ≡ tcp =
        lib.bytes-set_head 5 seg (omega (arith, ap length read, long))
        ∙ (ap (drop 5) read ∙ drop_five (builtin.proto % 256) 0 tcp) in
      ground (arith, decoded, builtin-is_builtin, ap (inbound_builtin ports c) inner)

  -- The end of a connection: its channel, with the port that `newConn` keeps.
  abbrev pub end_of : AddrPort → AddrPort → Role → Option AeadLib → Channel
  end_of local remote role crypto = record {
    role = role;
    nat_port = (new_conn local remote role [] none).nat_port;
    crypto = crypto;
  }

  -- The port of the server in a packet that comes to an end, which no NAT of the client changes.
  abbrev pub ServerPort : PortLaws ports → AddrPort → AddrPort → Role → List ℕ → Type 0
  ServerPort laws local remote client tcp = laws.source_port tcp ≡ remote.port
  ServerPort laws local remote server tcp = laws.destination_port tcp ≡ local.port

  inbound_builtin-ports :
      (laws : PortLaws ports) (local remote : AddrPort) (role : Role) (crypto : Option AeadLib)
      (tcp : List ℕ)
      → laws.is_whole tcp ≡ true
      → local.port < 2 ^ 16
      → remote.port < 2 ^ 16
      → ServerPort laws local remote role tcp
      → (laws.source_port (inbound_builtin ports (end_of local remote role crypto) tcp)
          ≡ remote.port)
        × (laws.destination_port (inbound_builtin ports (end_of local remote role crypto) tcp)
            ≡ local.port)
  unfolding inbound_builtin new_conn
  inbound_builtin-ports laws local remote client crypto tcp whole sl sr other = (
    laws.source_port-set_destination_port local.port tcp ∙ other,
    laws.destination_port-set_destination_port local.port tcp whole sl,
  )
  inbound_builtin-ports laws local remote server crypto tcp whole sl sr other = (
    laws.source_port-set_source_port remote.port tcp whole sr,
    laws.destination_port-set_source_port remote.port tcp ∙ other,
  )

  -- A TCP packet that `outboundService` takes from the stack is written when the write succeeds,
  -- and never encrypted; a `Recv` of the other end that reads the datagram gives its own stack one
  -- packet for it and goes on with the datagrams that follow. That packet is sent from the port
  -- that the end was made with as its remote one to the port that it was made with as its local one, whatever
  -- port a NAT of the client has left in it, if the packet has the port of the server there. Its
  -- header is whole, and ports are below 2^16.
  pub recv_loop-outbound :
      (laws : PortLaws ports) (write : List ℕ → Option Error) (local remote : AddrPort)
      → (role : Role) (crypto : Option AeadLib) (tcp : lib.Packet) → ((w : List ℕ) → write w ≡ none)
      → laws.is_whole (lib.bytes tcp) ≡ true
      → local.port < 2 ^ 16
      → remote.port < 2 ^ 16
      → ServerPort laws local remote role (lib.bytes tcp)
      → (w : List ℕ) × (out : List ℕ) × (outbound buf ports write tcp ≡ (none, some w))
        × ((size : ℕ) (q : Peer) (pkt : lib.Packet) (readings : List Reading)
            → recv_loop buf ports size
                (end_of local remote role crypto)
                (some q)
                pkt
                []
                (got w ∷ readings)
              ≡ give buf ports out (
                  recv_loop buf ports size
                    (end_of local remote role crypto)
                    (some builtin)
                    pkt
                    []
                    readings))
        × (laws.source_port out ≡ remote.port)
        × (laws.destination_port out ≡ local.port)
  unfolding outbound recv_loop
  recv_loop-outbound laws write local remote role crypto tcp writes whole sl sr other =
      let w = framed buf ports builtin.proto 0 (lib.bytes tcp) in
      let receiver = end_of local remote role crypto in
      let coded = encode_run lib builtin 0 tcp builtin_dst builtin-is_valid in
      let wire : lib.bytes (encoded lib builtin.proto 0 tcp) ≡ w =
        bytes-encoded lib builtin.proto 0 tcp in
      let (from, to) =
        inbound_builtin-ports laws local remote role crypto (lib.bytes tcp) whole sl sr other in
      (
        w,
        inbound_builtin ports receiver (lib.bytes tcp),
        ground (arith, coded, wire, writes w),
        λ size q pkt readings. ground (arith, round_builtin receiver q (lib.bytes tcp) pkt),
        from,
        to,
      )
