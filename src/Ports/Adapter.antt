-- ===== src/Ports/Adapter.antt =====
-- ports/adapter.go, type Adapter: local ports shared by links to different remote addresses.
pub mod Invariant
pub mod Uses
pub mod Releases
pub mod Racing
use fatun.Base.{
  ℕ, ◌%◌, ◌≡◌, ◌↔◌, Bool, true, false, not, ◌&&◌, Option, none, some, List, [], ◌∷◌, ◌++◌, arith,
  Comparable, Error, Fallible, ok, err, Run, returns, panics, ◌>>=◌, if◌then◌else◌, ◌=ᵇ◌,
  invalid_remote, unknown_proto, last_error,
}
use fatun.Base.Maps.{GoMap, lookup, insert, delete}
use fatun.Net.{Addr, AddrPort, addr_port_is_valid, tcp_number, udp_number}
use fatun.Ports.AddrSet.{AddrSet, has, add, del, size}
use fatun.Ports.Manager.{
  Manager, OsReply, new_mgr, get_tcp_port, get_udp_port, del_tcp_port, del_udp_port,
}

-- `type portKey struct`
pub record PortKey : Type 0 where
  pub proto : ℕ
  pub local_port : ℕ

abbrev pub port_key_eq : PortKey → PortKey → Bool
port_key_eq a b = (a.proto =ᵇ b.proto) && (a.local_port =ᵇ b.local_port)

pub port_key_eq_iff : (a b : PortKey) → (port_key_eq a b ≡ true) ↔ (a ≡ b)
port_key_eq_iff a b = ground arith

instance abbrev pub port_key_has_eq : Comparable PortKey
port_key_has_eq = record { same = port_key_eq; same_iff = port_key_eq_iff }

-- `type Adapter struct`
pub record Adapter : Type 0 where
  pub mgr : Manager
  pub ports : GoMap PortKey AddrSet

-- `uint8(proto)` and the port
abbrev pub port_key : ℕ → ℕ → PortKey
port_key proto port = record { proto = proto % 256; local_port = port }

-- `NewAdapter`
unfoldable pub new_adapter : Addr → Run Adapter
new_adapter addr = do mgr ← new_mgr addr; returns (record { mgr = mgr; ports = [] })

-- The loop of `GetPort` over the map: the first port visited that the remote does not use, else 0.
unfoldable pub reuse : GoMap PortKey AddrSet → ℕ → AddrPort → ℕ
reuse [] proto remote = 0
reuse ((k, v) ∷ rest) proto remote =
    let later = reuse rest proto remote in
    if not (k.proto =ᵇ proto % 256)
    then later
    else if not (has v remote)
    then k.local_port
    else later

-- The `switch proto` of `GetPort`.
unfoldable pub alloc : OsReply → Manager → ℕ → Fallible ℕ × Manager
alloc os mgr proto =
    if proto =ᵇ tcp_number
    then get_tcp_port os mgr
    else if proto =ᵇ udp_number
    then get_udp_port os mgr
    else (err unknown_proto, mgr)

abbrev pub empty_set : AddrSet
empty_set = record { addrs = [] }

-- "update map"
unfoldable pub record_use : GoMap PortKey AddrSet → PortKey → AddrPort → GoMap PortKey AddrSet
record_use ports pk remote = elim (lookup pk ports) [
  | some set ↦ insert pk (add set remote) ports
  | none ↦ insert pk (add empty_set remote) ports
]

-- The end of `GetPort`: the map is updated, and TCP port 443 panics.
unfoldable pub take_port : Adapter → ℕ → ℕ → AddrPort → Run (Fallible ℕ × Adapter)
take_port a proto port remote =
    let a' = record a { ports = record_use a.ports (port_key proto port) remote } in
    if (proto =ᵇ tcp_number) && (port =ᵇ 443) then panics else returns (ok port, a')

-- `GetPort` of a caller that no other call of the adapter comes between; Racing has two callers, each of
-- which gives the lock up between `reuse` and `take_port`. `order` is the map as the range loop visits it, `os` what the system answers if a new
-- port is opened.
unfoldable pub get_port :
    OsReply → GoMap PortKey AddrSet → Adapter → ℕ → AddrPort → Run (Fallible ℕ × Adapter)
get_port os order a proto remote =
    if not (addr_port_is_valid remote)
    then returns (err invalid_remote, a)
    else let port = reuse order proto remote in
      if port =ᵇ 0
      then (let (got, mgr) = alloc os a.mgr proto in
          elim got [
            | err e ↦ returns (err e, record a { mgr = mgr })
            | ok new ↦ take_port (record a { mgr = mgr }) proto new remote
          ])
      else take_port a proto port remote

-- The second `switch proto` of `DelPort`.
unfoldable pub free_port : (ℕ → Option Error) → Manager → ℕ → ℕ → Option Error × Manager × List ℕ
free_port close mgr proto port =
    if proto =ᵇ tcp_number
    then del_tcp_port close port mgr
    else if proto =ᵇ udp_number
    then del_udp_port close port mgr
    else (some unknown_proto, mgr, [])

-- `DelPort`: the error, the adapter and the sockets closed. A key that is not in the map is a call
-- through a nil *AddrSet.
unfoldable pub del_port :
    (ℕ → Option Error) → Adapter → ℕ → ℕ → AddrPort → Run (Option Error × Adapter × List ℕ)
del_port close a proto port remote = elim (lookup (port_key proto port) a.ports) [
  | none ↦ panics
  | some set ↦
      let set' = del set remote in
      if size set' =ᵇ 0
      then (let (e, mgr, ls) = free_port close a.mgr proto port in
          returns (e, record { mgr = mgr; ports = delete (port_key proto port) a.ports }, ls))
      else returns (none, record a { ports = insert (port_key proto port) set' a.ports }, [])
]

-- The loop of `Close`; the other protocols have no case in its switch.
pub close_ports :
    (ℕ → Option Error)
    → GoMap PortKey AddrSet
    → Option Error
    → Manager
    → Option Error × Manager × List ℕ
close_ports close [] last mgr = (last, mgr, [])
close_ports close ((pk, s) ∷ rest) last mgr =
    let (e, mgr', ls) =
      if pk.proto =ᵇ tcp_number
      then del_tcp_port close pk.local_port mgr
      else if pk.proto =ᵇ udp_number
      then del_udp_port close pk.local_port mgr
      else (none, mgr, []) in
    let (out, mgr'', ls') = close_ports close rest (last_error last e) mgr' in
    (out, mgr'', ls ++ ls')

-- `Close`
pub close_adapter :
    (ℕ → Option Error) → GoMap PortKey AddrSet → Adapter → Option Error × Adapter × List ℕ
close_adapter close order a =
    let (e, mgr, ls) = close_ports close order none a.mgr in
    (e, record { mgr = mgr; ports = [] }, ls)
