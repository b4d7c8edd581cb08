-- ===== src/Opening/Parties.antt =====
-- NewServer and `close` of server.go, NewClient and `close` of client.go.
pub mod Balance
use fatun.Base.{
  ℕ, Option, none, some, List, [], ◌∷◌, ◌++◌, Error, Fallible, ok, err, Run, returns, panics, ◌>>=◌,
}
use fatun.Net.{Addr, AddrPort}
use fatun.Opening.{
  Effect, opens, closes, closing, cancel, links, udp_socket, udp_listener, datagram_conn, capturer,
}
use fatun.Opening.Conns.{
  ListenAnswers, DialAnswers, close_listener, close_conn, new_listen, new_client_conn,
}
use fatun.Opening.Senders.{SenderAnswers, new_default_sender}

-- The fields of a Server that it closes, each by what closing it does. The options of `NewServer` set
-- some of them.
pub record Server : Type 0 where
  pub listener : Option (List Effect)
  pub links : Option (List Effect)
  pub sender : Option (List Effect)

-- `func (s *Server) close`
unfoldable pub close_server : Server → List Effect
close_server s = closes cancel ∷ closing s.sender ++ closing s.links ++ closing s.listener

-- What the calls of `NewServer` answer, and the address of the listener.
pub record ServerAnswers : Type 0 where
  pub udp_listen : Option Error
  pub new_listen : ListenAnswers
  pub laddr : Addr
  pub sender : SenderAnswers

-- The listener: the one that was set, or a new one.
unfoldable pub open_listener :
    ServerAnswers → Option (List Effect) → Run (Fallible (List Effect) × List Effect)
open_listener answers (some l) = returns (ok l, [])
open_listener answers none = elim answers.udp_listen [
  | some e ↦ returns (err e, [])
  | none ↦ new_listen answers.new_listen >>= λ (made, opening). returns (
    elim made [ err e ↦ err e | ok l ↦ ok (close_listener l) ],
    opens udp_socket ∷ opens udp_listener ∷ opening,
  )
]

-- The links: the manager that was set, or a new one.
unfoldable pub open_links : Option (List Effect) → List Effect × List Effect
open_links (some ls) = (ls, [])
open_links none = (closes links ∷ [], opens links ∷ [])

-- The sender: the one that was set, or a new one.
unfoldable pub open_sender :
    ServerAnswers → Option (List Effect) → Fallible (List Effect) × List Effect
open_sender answers (some s) = (ok s, [])
open_sender answers none =
    let (made, opening) = new_default_sender answers.sender answers.laddr in
    (elim made [ err e ↦ err e | ok s ↦ ok s.conn ], opening)

-- `NewServer`, behind its options.
unfoldable pub new_server : ServerAnswers → Server → Run (Fallible Server × List Effect)
new_server answers s = open_listener answers s.listener >>= λ (listener, listening). elim listener [
  | err e ↦ returns (err e, opens cancel ∷ listening ++ close_server s)
  | ok l ↦
      let (ls, linking) = open_links s.links in
      let (sender, sending) = open_sender answers s.sender in
      let opening = opens cancel ∷ listening ++ linking ++ sending in
      let opened : Server = record { listener = some l; links = some ls; sender = s.sender } in
      elim sender [
        | err e ↦ returns (err e, opening ++ close_server opened)
        | ok x ↦ returns (ok (record opened { sender = some x }), opening)
      ]
]

-- The fields of a Client that it closes.
pub record Client : Type 0 where
  pub conn : Option (List Effect)
  pub capturer : Option (List Effect)

-- `func (c *Client) close`
unfoldable pub close_client : Client → List Effect
close_client c = closes cancel ∷ closing c.capturer ++ closing c.conn

-- What the calls of `NewClient` answer, and the addresses of the connection.
pub record ClientAnswers : Type 0 where
  pub udp_dial : Option Error
  pub new_conn : DialAnswers
  pub local : AddrPort
  pub remote : AddrPort
  pub new_capture : Option Error

-- The connection: the one that was set, or a new one.
unfoldable pub open_conn :
    ClientAnswers → Option (List Effect) → Run (Fallible (List Effect) × List Effect)
open_conn answers (some c) = returns (ok c, [])
open_conn answers none = elim answers.udp_dial [
  | some e ↦ returns (err e, [])
  | none ↦ new_client_conn answers.new_conn answers.local answers.remote >>= λ (made, opening).
      returns
        (elim made [ err e ↦ err e | ok c ↦ ok (close_conn c) ], opens datagram_conn ∷ opening)
]

-- The capturer: the one that was set, or a new one.
unfoldable pub open_capturer :
    ClientAnswers → Option (List Effect) → Fallible (List Effect) × List Effect
open_capturer answers (some x) = (ok x, [])
open_capturer answers none = elim answers.new_capture [
  | some e ↦ (err e, [])
  | none ↦ (ok (closes capturer ∷ []), opens capturer ∷ [])
]

-- `NewClient`, behind its options.
unfoldable pub new_client : ClientAnswers → Client → Run (Fallible Client × List Effect)
new_client answers c = open_conn answers c.conn >>= λ (made, dialing). elim made [
  | err e ↦ returns (err e, opens cancel ∷ dialing ++ close_client c)
  | ok x ↦
      let (captures, capturing) = open_capturer answers c.capturer in
      elim captures [
        | err e ↦ returns (err e, opens cancel ∷ dialing ++ capturing)
        | ok k ↦
            returns (
              ok (record { conn = some x; capturer = some k }),
              opens cancel ∷ dialing ++ capturing,
            )
      ]
]
