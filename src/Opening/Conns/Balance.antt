-- ===== src/Opening/Conns/Balance.antt =====
-- conn/listen.go and conn/conn.go: what is left open.
use fatun.Base.{◌≡◌, none, List, [], ◌∷◌, ◌++◌, Fallible, ok, returns, arith}
use fatun.Net.{AddrPort}
use fatun.Opening.{
  Effect, Resource, opens, left_open, without, udp_listener, builtin_conn, Leaves, number,
}
use fatun.Opening.Conns.{
  Listener, ListenAnswers, close_listener, new_listen, DatagramConn, new_conn, close_conn,
  with_builtin, accept,
}

-- When NewListen fails, it has closed what it opened and the datagram listener that it was given; when
-- it succeeds, closing the listener closes all of that.
pub new_listen-Leaves :
    (answers : ListenAnswers) (made : Fallible Listener) (t : List Effect)
    → new_listen answers ≡ returns (made, t)
    → Leaves close_listener (opens udp_listener ∷ t) made []
unfolding new_listen left_open close_listener without Leaves number
new_listen-Leaves answers made t ran = ground (arith, ran)

-- Closing a connection of Accept closes the datagram connection, and the builtin connection if the
-- handshake has made one, and nothing that was open before.
pub accept-left_open :
    (local remote : AddrPort) (c : DatagramConn) (t : List Effect) (held : List Resource)
    → accept none none local remote ≡ (ok c, t)
    → (left_open (t ++ close_conn c) held ≡ held)
      × (left_open (t ++ opens builtin_conn ∷ close_conn (with_builtin c)) held ≡ held)
unfolding accept left_open close_conn without with_builtin new_conn number
accept-left_open local remote c t held ran = ground (arith, ran)
