-- ===== src/Ports/Manager.antt =====
-- ports/manager.go: the sockets that hold local ports open. What the operating system answers is
-- an argument of each call, and a socket is known by a number (its descriptor).
pub mod Laws
use fatun.Base.{
  ℕ, ◌≡◌, Bool, true, false, Option, none, some, List, [], ◌∷◌, nat_comparable, Error, Fallible, ok,
  err, Run, returns, panics, if◌then◌else◌, ◌=ᵇ◌,
}
use fatun.Base.Maps.{GoMap, lookup, insert, delete}
use fatun.Net.{Addr, addr_is_valid, tcp_number, udp_number}

-- `type Manager struct`; the maps go from a port to its open socket.
pub record Manager : Type 0 where
  pub ip : Addr
  pub tcp : GoMap ℕ ℕ
  pub udp : GoMap ℕ ℕ

-- The answers to one `GetTCPPort` or `GetUDPPort`: of net.ListenTCP or net.ListenUDP (the socket),
-- of setFilterAll, and of netip.ParseAddrPort on the socket's local address (its port).
pub record OsReply : Type 0 where
  pub listen : Fallible ℕ
  pub filter_all : Option Error
  pub local_port : Fallible ℕ

-- `NewMgr`
unfoldable pub new_mgr : Addr → Run Manager
new_mgr ip = if addr_is_valid ip then returns (record { ip = ip; tcp = []; udp = [] }) else panics

-- `GetTCPPort`
unfoldable pub get_tcp_port : OsReply → Manager → Fallible ℕ × Manager
get_tcp_port os p = elim os.listen [
  | err e ↦ (err e, p)
  | ok l ↦ elim os.filter_all [
    | some e ↦ (err e, p)
    | none ↦ elim os.local_port [
      | err e ↦ (err e, p)
      | ok port ↦ (ok port, record p { tcp = insert port l p.tcp })
    ]
  ]
]

-- `GetUDPPort`
unfoldable pub get_udp_port : OsReply → Manager → Fallible ℕ × Manager
get_udp_port os p = elim os.listen [
  | err e ↦ (err e, p)
  | ok c ↦ elim os.filter_all [
    | some e ↦ (err e, p)
    | none ↦ elim os.local_port [
      | err e ↦ (err e, p)
      | ok port ↦ (ok port, record p { udp = insert port c p.udp })
    ]
  ]
]

-- `l.Close()` where the port has a socket. The answer is the error with the sockets closed.
abbrev pub close_found : (ℕ → Option Error) → Option ℕ → Option Error × List ℕ
close_found close none = (none, [])
close_found close (some l) = (close l, l ∷ [])

-- `DelTCPPort`. `close` says what closing a socket returns.
unfoldable pub del_tcp_port : (ℕ → Option Error) → ℕ → Manager → Option Error × Manager × List ℕ
del_tcp_port close port p =
    let (e, ls) = close_found close (lookup port p.tcp) in
    (e, record p { tcp = delete port p.tcp }, ls)

-- `DelUDPPort`
unfoldable pub del_udp_port : (ℕ → Option Error) → ℕ → Manager → Option Error × Manager × List ℕ
del_udp_port close port p =
    let (e, ls) = close_found close (lookup port p.udp) in
    (e, record p { udp = delete port p.udp }, ls)

-- The socket that holds a port of a protocol open.
unfoldable pub socket : Manager → ℕ → ℕ → Option ℕ
socket p proto port =
    if proto =ᵇ tcp_number
    then lookup port p.tcp
    else if proto =ᵇ udp_number
    then lookup port p.udp
    else none
