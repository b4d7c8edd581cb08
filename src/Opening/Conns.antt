-- ===== src/Opening/Conns.antt =====
-- conn/listen.go and the constructors of conn/conn.go.
pub mod Balance
use fatun.Base.{
  ℕ, Bool, true, false, Option, none, some, List, [], ◌∷◌, ◌++◌, Error, Fallible, ok, err, Run,
  returns, panics, if◌then◌else◌,
}
use fatun.Net.{AddrPort}
use fatun.Conn.Channel.{Role, client, server}
use fatun.Opening.{
  Effect, opens, closes, udp_listener, builtin_listener, user_stack, datagram_conn, builtin_conn,
  closing,
}

-- `type listener struct`: what it holds, each by what closing it does.
pub record Listener : Type 0 where
  pub builtin_listener : Option (List Effect)
  pub stack : Option (List Effect)
  pub l : Option (List Effect)

-- `func (l *listener) close`
unfoldable pub close_listener : Listener → List Effect
close_listener l = closing l.builtin_listener ++ closing l.stack ++ closing l.l

-- What the calls of `NewListen` answer; `wrap_pcap` is of `WrapPcap`, if a path is configured.
pub record ListenAnswers : Type 0 where
  pub new_ustack : Option Error
  pub wrap_pcap : Option (Option Error)
  pub listen_tcp : Option Error

-- `MustWrapPcap`, where a path is configured: whether it panics.
abbrev pub wrap_panics : Option (Option Error) → Bool
wrap_panics (some (some e)) = true
wrap_panics (some none) = false
wrap_panics none = false

-- `NewListen`, given a datagram listener.
unfoldable pub new_listen : ListenAnswers → Run (Fallible Listener × List Effect)
new_listen answers =
    let own : Option (List Effect) = some (closes udp_listener ∷ []) in
    let stack : Option (List Effect) = some (closes user_stack ∷ []) in
    let bare : Listener = record { builtin_listener = none; stack = none; l = own } in
    let stacked : Listener = record { builtin_listener = none; stack = stack; l = own } in
    let whole : Listener = record {
      builtin_listener = some (closes builtin_listener ∷ []);
      stack = stack;
      l = own;
    } in
    elim answers.new_ustack [
      | some e ↦ returns (err e, close_listener bare)
      | none ↦ if wrap_panics answers.wrap_pcap then panics else elim answers.listen_tcp [
        | some e ↦ returns (err e, opens user_stack ∷ close_listener stacked)
        | none ↦ returns (ok whole, opens user_stack ∷ opens builtin_listener ∷ [])
      ]
    ]

-- The tcpFactory of a conn.
pub data Factory : Type 0 where
  client_factory server_factory : Factory

-- `type conn struct`: what the constructors set.
pub record DatagramConn : Type 0 where
  pub role : Role
  pub nat_port : ℕ
  pub tcp_factory : Factory
  pub builtin : Option (List Effect)
  pub ep : Option (List Effect)
  pub conn : Option (List Effect)

-- `newConn`; the effects are what closing its endpoint does.
unfoldable pub new_conn : AddrPort → AddrPort → Role → List Effect → Option Factory → DatagramConn
new_conn local remote role ep fact = record {
  role = role;
  nat_port = elim role [ client ↦ local.port | server ↦ remote.port ];
  tcp_factory = elim fact [ none ↦ client_factory | some f ↦ f ];
  builtin = none;
  ep = some ep;
  conn = some (closes datagram_conn ∷ []);
}

-- `func (c *conn) close`
unfoldable pub close_conn : DatagramConn → List Effect
close_conn c = closing c.builtin ++ closing c.ep ++ closing c.conn

-- `c.builtin` after a handshake that succeeded.
pub with_builtin : DatagramConn → DatagramConn
with_builtin c = record c { builtin = some (closes builtin_conn ∷ []) }

-- `Accept`: the errors of the datagram listener and of `LinkEndpoint`, and the addresses of the
-- connection. Closing an endpoint of a shared stack does nothing.
unfoldable pub accept :
    Option Error → Option Error → AddrPort → AddrPort → Fallible DatagramConn × List Effect
accept accepted endpoint local remote = elim accepted [
  | some e ↦ (err e, [])
  | none ↦ elim endpoint [
    | some e ↦ (err e, opens datagram_conn ∷ [])
    | none ↦ (ok (new_conn local remote server [] (some server_factory)), opens datagram_conn ∷ [])
  ]
]

-- What the calls of `NewConn` answer.
pub record DialAnswers : Type 0 where
  pub new_ustack : Option Error
  pub wrap_pcap : Option (Option Error)
  pub new_link_endpoint : Option Error

-- `NewConn`, given a datagram connection.
unfoldable pub new_client_conn :
    DialAnswers → AddrPort → AddrPort → Run (Fallible DatagramConn × List Effect)
new_client_conn answers local remote = elim answers.new_ustack [
  | some e ↦ returns (err e, [])
  | none ↦ if wrap_panics answers.wrap_pcap then panics else elim answers.new_link_endpoint [
    | some e ↦ returns (err e, opens user_stack ∷ [])
    | none ↦
        returns
          (ok (new_conn local remote client (closes user_stack ∷ []) none), opens user_stack ∷ [])
  ]
]
