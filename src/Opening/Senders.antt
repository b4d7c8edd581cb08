-- ===== src/Opening/Senders.antt =====
-- server_linux.go and server.go, ifaceByAddr: the raw socket that a server sends through.
pub mod Balance
use fatun.Base.{
  ℕ, Bool, true, false, ◌&&◌, Option, none, some, List, [], ◌∷◌, ◌++◌, Error, os_error, Fallible,
  ok, err, if◌then◌else◌, ◌=ᵇ◌,
}
use fatun.Net.{Addr, v4, v6, invalid, addr_is_valid}
use fatun.Opening.{Effect, opens, closes, arp_client, eth_conn}

-- What ifaceByAddr reads of a *net.Interface: its addresses are IPv4 addresses, or others.
pub record Interface : Type 0 where
  pub index : ℕ
  pub is_running : Bool
  pub addrs : Fallible (List (Option ℕ))

-- The inner loop: whether one of the addresses is the one that is looked for.
unfoldable pub has_addr : Addr → List (Option ℕ) → Bool
has_addr (v4 a) [] = false
has_addr (v4 a) (none ∷ bs) = has_addr (v4 a) bs
has_addr (v4 a) (some b ∷ bs) = let rest = has_addr (v4 a) bs in if b =ᵇ a then true else rest
has_addr (v6 a) bs = false
has_addr invalid bs = false

-- The outer loop, with the error of `not found adapter`.
unfoldable pub find_iface : Error → List Interface → Addr → Fallible Interface
find_iface missing [] laddr = err missing
find_iface missing (i ∷ rows) laddr =
    let rest = find_iface missing rows laddr in
    if i.is_running
    then elim i.addrs [ err e ↦ err e | ok bs ↦ if has_addr laddr bs then ok i else rest ]
    else rest

-- `ifaceByAddr`; the first argument is what `net.Interfaces` answers.
unfoldable pub iface_by_addr : Fallible (List Interface) → Error → Addr → Fallible Interface
iface_by_addr (ok rows) missing laddr = find_iface missing rows laddr
iface_by_addr (err e) missing laddr = err e

-- A row of the system's route table.
pub record Route : Type 0 where
  pub interface : ℕ
  pub next : Addr

-- The gateway of an interface: of its first row, or the zero address.
unfoldable pub gateway_of : ℕ → List Route → Addr
gateway_of index [] = invalid
gateway_of index (r ∷ rs) =
    let rest = gateway_of index rs in if r.interface =ᵇ index then r.next else rest

-- What the calls of `NewETHSender` and `SkipPorts` answer.
pub record SenderAnswers : Type 0 where
  pub interfaces : Fallible (List Interface)
  pub not_found : Error
  pub arp_dial : Option Error
  pub routes : Fallible (List Route)
  pub not_connected : Error
  pub resolve : Fallible ℕ
  pub eth_listen : Option Error
  pub assemble : Option Error
  pub control : Option Error
  pub setsockopt : Option Error

-- `type EthSender struct`, with an open connection.
pub record EthSender : Type 0 where
  pub conn : List Effect
  pub to : ℕ

-- The part of `NewETHSender` behind the ARP client.
unfoldable pub resolve_gateway : SenderAnswers → Interface → Fallible ℕ
resolve_gateway answers i = elim answers.routes [
  | err e ↦ err e
  | ok rows ↦
      if addr_is_valid (gateway_of i.index rows) then answers.resolve else err answers.not_connected
]

-- `NewETHSender`
unfoldable pub new_eth_sender : SenderAnswers → Addr → Fallible EthSender × List Effect
new_eth_sender answers laddr = elim (iface_by_addr answers.interfaces answers.not_found laddr) [
  | err e ↦ (err e, [])
  | ok i ↦ elim answers.arp_dial [
    | some e ↦ (err e, [])
    | none ↦ elim (resolve_gateway answers i) [
      | err e ↦ (err e, opens arp_client ∷ [])
      | ok to ↦ elim answers.eth_listen [
        | some e ↦ (err e, opens arp_client ∷ [])
        | none ↦ (
          ok (record { conn = closes eth_conn ∷ []; to = to }),
          opens arp_client ∷ opens eth_conn ∷ [],
        )
      ]
    ]
  ]
]

-- `SkipPorts`, which closes the sender if it fails.
unfoldable pub skip_ports : SenderAnswers → EthSender → Option Error × List Effect
skip_ports answers s = elim answers.assemble [
  | some e ↦ (some e, s.conn)
  | none ↦ elim answers.control [
    | some e ↦ (some e, s.conn)
    | none ↦ elim answers.setsockopt [ some e ↦ (some e, s.conn) | none ↦ (none, []) ]
  ]
]

-- `NewDefaultSender`
unfoldable pub new_default_sender : SenderAnswers → Addr → Fallible EthSender × List Effect
new_default_sender answers laddr =
    let (made, opening) = new_eth_sender answers laddr in
    elim made [
      | err e ↦ (err e, opening)
      | ok s ↦
          let (failed, skipping) = skip_ports answers s in
          elim failed [
            | some e ↦ (err e, opening ++ skipping ++ s.conn)
            | none ↦ (ok s, opening ++ skipping)
          ]
    ]
