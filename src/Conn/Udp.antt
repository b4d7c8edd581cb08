-- ===== src/Conn/Udp.antt =====
-- conn/udp: a listener that makes connections of UDP segments, by their sender. Segments that go back to the
-- pool are outputs. A round of `accpetService` stands for what it does when no other goroutine uses the
-- listener meanwhile: between the look-up and the insertion of a connection the code gives its lock
-- up, and a connection that is closed between the test of its flag and the send makes the send panic.
pub mod Queue
pub mod Listening
use fatun.Base.{
  ℕ, zero, suc, ◌+◌, min, Bool, true, false, not, ◌&&◌, Option, none, some, List, [], ◌∷◌, ◌++◌,
  Error, closed, short_buff, Run, returns, panics, if◌then◌else◌, ltb, ◌=ᵇ◌, length, take,
}
use fatun.Base.Maps.{GoMap, lookup, insert, delete}
use fatun.Net.{AddrPort, addr_port_has_eq}

-- The capacities of `buff` and `connCh`.
abbrev pub buff_size : ℕ
buff_size = 128

abbrev pub accept_size : ℕ
accept_size = 32

-- `type acceptConn struct`, whose channel is closed when the flag is set.
pub record AcceptConn : Type 0 where
  pub closing : Bool
  pub buff : List (List ℕ)

-- `newAcceptConn`
pub new_accept_conn : AcceptConn
new_accept_conn = record { closing = false; buff = [] }

-- `put`: the connection and the segments that go back to the pool; `none` when the loop has not
-- ended within the fuel.
pub put_loop : ℕ → List ℕ → List (List ℕ) → List (List ℕ) → Option (List (List ℕ) × List (List ℕ))
put_loop zero s buff back = none
put_loop (suc fuel) s buff back =
    let room = ltb (length buff) buff_size in
    elim buff [
      | [] ↦ some (s ∷ [], back)
      | oldest ∷ newer ↦
          let later = put_loop fuel s newer (back ++ oldest ∷ []) in
          if room then some ((oldest ∷ newer) ++ s ∷ [], back) else later
    ]

pub put : ℕ → List ℕ → AcceptConn → Option (AcceptConn × List (List ℕ))
put fuel s c = elim c.closing [
  | true ↦ some (c, [])
  | false ↦ elim (put_loop fuel s c.buff []) [
    | none ↦ none
    | some (buff, back) ↦ some (record c { buff = buff }, back)
  ]
]

-- `Read` into `size` bytes: the bytes and the error, with the connection; `none` while it waits.
pub read : ℕ → AcceptConn → Option (List ℕ × Option Error × AcceptConn)
read n c = elim c.buff [
  | [] ↦ if c.closing then some ([], some closed, c) else none
  | seg ∷ later ↦
      let e = if (min n (length seg)) =ᵇ (length seg) then none else some short_buff in
      some (take n seg, e, record c { buff = later })
]

-- `type Listener struct`: `late` holds the addresses that a timer of `del` waits for, and `socket_open` is
-- whether the socket is open.
pub record Listener : Type 0 where
  pub conns : GoMap AddrPort AcceptConn
  pub conn_ch : List AddrPort
  pub is_closed : Bool
  pub socket_open : Bool
  pub late : List AddrPort

-- `Listen`
unfoldable pub listen : Listener
listen = record { conns = []; conn_ch = []; is_closed = false; socket_open = true; late = [] }

-- The listener's own `close`, by its first call.
pub close_listener : Listener → Listener
close_listener l = record l { is_closed = true }

-- `select { case l.connCh <- a: default: }`, when the connection is new and the listener open.
pub offer : Bool → AddrPort → Listener → Listener
offer has addr l =
    if not has && (not l.is_closed && ltb (length l.conn_ch) accept_size)
    then record l { conn_ch = l.conn_ch ++ addr ∷ [] }
    else l

-- One round of `accpetService` with a segment, while no other goroutine uses the listener or closes the
-- connection.
pub receive : ℕ → AddrPort → List ℕ → Listener → Option (Listener × List (List ℕ))
receive fuel addr seg l =
    let (has, a) : Bool × AcceptConn = elim (lookup addr l.conns) [
      | none ↦ (false, new_accept_conn)
      | some a ↦ (true, a)
    ] in
    elim (put fuel seg a) [
      | none ↦ none
      | some (a', back) ↦ some (offer has addr (record l { conns = insert addr a' l.conns }), back)
    ]

-- `Accept`: `none` while it waits.
pub accept : Listener → Option (Option AddrPort × Listener)
accept l = elim l.conn_ch [
  | [] ↦ if l.is_closed then some (none, l) else none
  | addr ∷ later ↦ some (some addr, record l { conn_ch = later })
]

-- `_del`
pub del_now : AddrPort → Listener → Listener
del_now addr l =
    let conns = delete addr l.conns in
    if ((length conns) =ᵇ 0) && l.is_closed
    then record l { conns = conns; socket_open = false }
    else record l { conns = conns }

-- `del`
pub del : AddrPort → Listener → Listener
del addr l = if (length l.conns) =ᵇ 1 then del_now addr l else record l { late = addr ∷ l.late }

-- `Close` of a connection, with the segments that go back; a second call panics, since the channel
-- is closed already.
pub close_conn : AddrPort → AcceptConn → Listener → Run (AcceptConn × Listener × List (List ℕ))
close_conn addr c l =
    if c.closing then panics else returns (record { closing = true; buff = [] }, del addr l, c.buff)
