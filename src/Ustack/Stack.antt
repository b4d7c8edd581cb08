-- ===== src/Ustack/Stack.antt =====
-- ustack/ustack.go and ustack/wrap.go: the user-space TCP stack, its endpoints and the wrappers around
-- it. What gVisor and rawsock answer are parameters; the stack itself is seen through its link.
pub mod Wrapped
use fatun.Base.{
  ℕ, zero, suc, ◌+◌, Bool, true, false, Option, none, some, List, [], ◌∷◌, ◌++◌, Error,
  close_timeout, not_ipv4, Fallible, ok, err, Run, returns, panics, ◌>>=◌, if◌then◌else◌, ◌=ᵇ◌,
}
use fatun.Net.{Addr, v4, v6, invalid, AddrPort}
use fatun.Packet.{BufferLib, PcapLib}
use fatun.Ustack.Slice.{Slice}
use fatun.Ustack.Link.{Link, inbound, outbound_by}
use fatun.Ustack.Closing.{Polls, syn_close}

-- The value behind a `Ustack`: the stack, or a wrapper around one that shares it.
pub data Shape : Type 0 where
  plain : Shape
  -- `ustackNotCloseWrap`
  not_close : Shape → Shape
  -- `UstackPcapWrap`, with its file
  pcap : ℕ → Shape → Shape

-- What gVisor answers to the calls of `NewUstack`; an option that is refused may be ignored.
pub record Answers : Type 0 where
  pub create_nic : Option Error
  pub add_address : Option Error
  pub min_rto : Option (Error × Bool)
  pub max_rto : Option (Error × Bool)

-- `if e != nil && !e.IgnoreStats()`
abbrev pub refused : Option (Error × Bool) → Option Error
refused none = none
refused (some (e, true)) = none
refused (some (e, false)) = some e

-- What other threads and the clock do while `SynClose` waits: the sizes and times it sees, its
-- deadline, and the queue they leave.
pub record Wait : Type 0 where
  pub fuel : ℕ
  pub polls : Polls
  pub dead : ℕ
  pub rest : Slice

-- `SynClose` of the link; `none` if the fuel runs out.
pub syn_close_link : Wait → Link → Option (Option Error × Link)
syn_close_link wait l =
    if l.is_closed then some (none, l) else elim (syn_close wait.fuel wait.polls wait.dead) [
      | none ↦ none
      | some late ↦ some (
        if late then some close_timeout else none,
        record l { is_closed = true; queue = wait.rest },
      )
    ]

module _ (buf : BufferLib) (pc : PcapLib) where
  open buf use {lib}

  -- The stack that all wrappers around it share, and the files they write.
  pub record World : Type 0 where
    pub addr : Addr
    pub link : Link
    pub is_open : Bool
    pub files : pc.Files

  -- `NewUstack`
  pub new_ustack : Answers → Link → Addr → pc.Files → Fallible World
  new_ustack answers link (v4 a) recorded =
      let made : World = record { addr = v4 a; link = link; is_open = true; files = recorded } in
      elim answers.create_nic [
        | some e ↦ err e
        | none ↦ elim answers.add_address [
          | some e ↦ err e
          | none ↦ elim (refused answers.min_rto) [
            | some e ↦ err e
            | none ↦ elim (refused answers.max_rto) [ some e ↦ err e | none ↦ ok made ]
          ]
        ]
      ]
  new_ustack answers link (v6 a) recorded = err not_ipv4
  new_ustack answers link invalid recorded = err not_ipv4

  -- `Close`
  pub close : Wait → Shape → World → Option (Option Error × World)
  close wait plain w = elim (syn_close_link wait w.link) [
    | none ↦ none
    | some (e, l) ↦ some (e, record w { is_open = false; link = l })
  ]
  close wait (not_close s) w = some (none, w)
  close wait (pcap f s) w = close wait s w

  -- `Inbound`: the packet that the dispatcher is given, if there is one, or a panic if the file cannot
  -- be written.
  pub stack_inbound : List ℕ → Shape → World → Run (Option (List ℕ) × World)
  stack_inbound ip plain w = returns (inbound ip w.link, w)
  stack_inbound ip (not_close s) w = stack_inbound ip s w
  stack_inbound ip (pcap f s) w =
      let (failed, recorded) = pc.write_ip f ip w.files in
      let later = stack_inbound ip s (record w { files = recorded }) in
      elim failed [ some e ↦ panics | none ↦ later ]

  -- `OutboundBy`: `none` while it waits for a packet.
  pub stack_outbound_by :
      Option Error
      → AddrPort
      → Shape
      → World
      → lib.Packet
      → Run (Option (Option Error × World × lib.Packet))
  stack_outbound_by ended dst plain w tcp = outbound_by buf ended dst w.link tcp >>= λ r.
      returns (elim r [ none ↦ none | some (e, l, t) ↦ some (e, record w { link = l }, t) ])
  stack_outbound_by ended dst (not_close s) w tcp = stack_outbound_by ended dst s w tcp
  stack_outbound_by ended dst (pcap f s) w tcp = stack_outbound_by ended dst s w tcp >>= λ r.
      elim r [
        | none ↦ returns none
        | some (some e, w', t) ↦ returns (some (some e, w', t))
        | some (none, w', t) ↦
            let back = lib.set_head (lib.head tcp) t in
            let (failed, recorded) = pc.write_ip f (lib.bytes back) w'.files in
            returns (some (failed, record w' { files = recorded }, lib.set_head (lib.head t) back))
      ]

  -- `Outbound`
  pub stack_outbound :
      Option Error → Shape → World → lib.Packet → Run (Option (Option Error × World × lib.Packet))
  stack_outbound ended s w tcp =
      stack_outbound_by ended (record { addr = invalid; port = 0 }) s w tcp

  -- `type LinkEndpoint struct`, without the IP layer of rawsock that it keeps.
  pub record LinkEndpoint : Type 0 where
    pub stack : Shape
    pub local_port : ℕ
    pub remote_addr : AddrPort

  -- `NewLinkEndpoint`; the argument is the error of `ipstack.New`.
  pub new_link_endpoint : Option Error → Shape → ℕ → AddrPort → Fallible LinkEndpoint
  new_link_endpoint failed s port remote = elim failed [
    | some e ↦ err e
    | none ↦ ok (record { stack = s; local_port = port; remote_addr = remote })
  ]

  -- `LinkEndpoint` of a Ustack.
  pub link_endpoint : Option Error → Shape → ℕ → AddrPort → Fallible LinkEndpoint
  link_endpoint failed plain port remote = new_link_endpoint failed (not_close plain) port remote
  link_endpoint failed (not_close s) port remote = link_endpoint failed s port remote
  link_endpoint failed (pcap f s) port remote =
      new_link_endpoint failed (not_close (pcap f s)) port remote

  -- `Inbound`, `Outbound` and `Close` of a LinkEndpoint; `attach_inbound` is what its IP layer puts in
  -- front of the packet.
  pub endpoint_inbound :
      (lib.Packet → lib.Packet) → LinkEndpoint → World → lib.Packet → Run (Option (List ℕ) × World)
  endpoint_inbound attach_inbound e w tcp = stack_inbound (lib.bytes (attach_inbound tcp)) e.stack w

  pub endpoint_outbound :
      Option Error
      → LinkEndpoint
      → World
      → lib.Packet
      → Run (Option (Option Error × World × lib.Packet))
  endpoint_outbound ended e w tcp = stack_outbound_by ended e.remote_addr e.stack w tcp

  pub endpoint_close : Wait → LinkEndpoint → World → Option (Option Error × World)
  endpoint_close wait e w = close wait e.stack w
