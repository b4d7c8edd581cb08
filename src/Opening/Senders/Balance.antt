-- ===== src/Opening/Senders/Balance.antt =====
-- server_linux.go: what the constructor of a sender leaves open.
use fatun.Base.{◌≡◌, none, some, List, [], ◌∷◌, Fallible, ok, err, arith}
use fatun.Net.{Addr}
use fatun.Opening.{Effect, Resource, left_open, without, arp_client, Leaves, number}
use fatun.Opening.Senders.{
  SenderAnswers, EthSender, iface_by_addr, new_eth_sender, skip_ports, new_default_sender,
}

-- The ARP client, if NewETHSender got one.
pub arp_left : SenderAnswers → Addr → List Resource
arp_left answers laddr = elim (iface_by_addr answers.interfaces answers.not_found laddr) [
  | err e ↦ []
  | ok i ↦ elim answers.arp_dial [ some e ↦ [] | none ↦ arp_client ∷ [] ]
]

-- When NewDefaultSender fails, it has closed the socket that it opened, and closing the sender that it
-- gives closes the socket; the ARP client is left open in both cases.
pub new_default_sender-Leaves :
    (answers : SenderAnswers) (laddr : Addr) (made : Fallible EthSender) (t : List Effect)
    → new_default_sender answers laddr ≡ (made, t)
    → Leaves (λ s. s.conn) t made (arp_left answers laddr)
unfolding new_default_sender new_eth_sender skip_ports left_open without Leaves number arp_left
new_default_sender-Leaves answers laddr made t ran = ground (arith, ran)
