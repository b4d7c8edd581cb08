-- ===== src/Ports/Manager/Laws.antt =====
-- ports/manager.go: which ports a Manager holds open.
use fatun.Base.{
  ℕ, ◌≡◌, Bool, true, false, not, ◌&&◌, ◌||◌, Option, none, some, arith, Error, ok, err, ◌=ᵇ◌,
  nat_comparable,
}
use fatun.Base.Maps.{lookup-insert, lookup-delete}
use fatun.Net.{tcp_number, udp_number}
use fatun.Ports.Manager.{
  Manager, OsReply, get_tcp_port, get_udp_port, del_tcp_port, del_udp_port, socket,
}

-- A socket holds the port open.
unfoldable pub is_open : Manager → ℕ → ℕ → Bool
is_open m proto port = elim (socket m proto port) [ none ↦ false | some l ↦ true ]

pub is_open-get_tcp_port :
    (os : OsReply) (m : Manager) (p q r : ℕ)
    → (get_tcp_port os m).0 ≡ ok p
    → is_open (get_tcp_port os m).1 q r ≡ (((q =ᵇ tcp_number) && (p =ᵇ r)) || is_open m q r)
unfolding get_tcp_port is_open socket
is_open-get_tcp_port os m p q r h = grind (arith, lookup-insert)

pub is_open-get_udp_port :
    (os : OsReply) (m : Manager) (p q r : ℕ)
    → (get_udp_port os m).0 ≡ ok p
    → is_open (get_udp_port os m).1 q r ≡ (((q =ᵇ udp_number) && (p =ᵇ r)) || is_open m q r)
unfolding get_udp_port is_open socket
is_open-get_udp_port os m p q r h = grind (arith, lookup-insert)

pub get_tcp_port_failed :
    (os : OsReply) (m : Manager) (e : Error)
    → (get_tcp_port os m).0 ≡ err e
    → (get_tcp_port os m).1 ≡ m
unfolding get_tcp_port
get_tcp_port_failed os m e h = ground arith

pub get_udp_port_failed :
    (os : OsReply) (m : Manager) (e : Error)
    → (get_udp_port os m).0 ≡ err e
    → (get_udp_port os m).1 ≡ m
unfolding get_udp_port
get_udp_port_failed os m e h = ground arith

pub is_open-del_tcp_port :
    (close : ℕ → Option Error) (m : Manager) (p q r : ℕ)
    → is_open (del_tcp_port close p m).1 q r
      ≡ (not ((q =ᵇ tcp_number) && (p =ᵇ r)) && is_open m q r)
unfolding del_tcp_port is_open socket
is_open-del_tcp_port close m p q r = ground (arith, lookup-delete p r m.tcp)

pub is_open-del_udp_port :
    (close : ℕ → Option Error) (m : Manager) (p q r : ℕ)
    → is_open (del_udp_port close p m).1 q r
      ≡ (not ((q =ᵇ udp_number) && (p =ᵇ r)) && is_open m q r)
unfolding del_udp_port is_open socket
is_open-del_udp_port close m p q r = ground (arith, lookup-delete p r m.udp)

pub get_tcp_port-local_port :
    (os : OsReply) (m : Manager) (p : ℕ) → (get_tcp_port os m).0 ≡ ok p → os.local_port ≡ ok p
unfolding get_tcp_port
get_tcp_port-local_port os m p h = ground arith

pub get_udp_port-local_port :
    (os : OsReply) (m : Manager) (p : ℕ) → (get_udp_port os m).0 ≡ ok p → os.local_port ≡ ok p
unfolding get_udp_port
get_udp_port-local_port os m p h = ground arith
