-- ===== src/Conn/Handshake.antt =====
-- conn/conn.go: `handshake` and `handshakeInboundService`. The first caller leads the handshake and
-- starts the service; later callers wait until the leader closes the channel `handshakedNotify`. A
-- step is what one goroutine does between two points at which it may wait.
pub mod Passing
pub mod Failing
pub mod Releasing
pub mod Silent
use fatun.Base.{
  ℕ, ◌+◌, ◌-◌, ◌<◌, ◌≡◌, Bool, true, false, not, Option, none, some, List, [], ◌∷◌, ◌++◌, Error,
  os_error, short_buff, Fallible, ok, err, if◌then◌else◌, ltb, ◌=ᵇ◌, length,
}
use fatun.Conn.Channel.{Role, client, server}

-- What the handshake reads of `type Config struct` and of the connection.
pub record Config : Type 0 where
  pub role : Role
  pub tls : Bool

-- The answers to one handshake: of the TCP factory, the TLS handshake, crypto/rand (how many bytes,
-- an error, the bytes), the write and the read of the key, and `newCrypto`.
pub record Answers : Type 0 where
  pub dial : Option Error
  pub tls_handshake : Option Error
  pub rand_count : ℕ
  pub rand_error : Option Error
  pub rand_key : List ℕ
  pub write : Option Error
  pub read_full : Fallible (List ℕ)
  pub new_crypto : Option Error

-- What a handshake sets: `c.builtin`, a TLS connection or the TCP one, and the key of `c.crypto`.
pub record Secured : Type 0 where
  pub over_tls : Bool
  pub key : Option (List ℕ)

-- `len(key)`
abbrev pub key_bytes : ℕ
key_bytes = 16

-- An answer that ends the handshake if it is an error.
unfoldable pub check {ℓ} : {A : Type ℓ} → Option Error → Fallible A → Fallible A
check none rest = rest
check (some e) rest = err e

-- The key, by role.
unfoldable pub exchange_key : Role → Answers → Fallible (List ℕ)
exchange_key server a =
    check a.rand_error
      (if not (a.rand_count =ᵇ key_bytes) then err short_buff else check a.write (ok a.rand_key))
exchange_key client a = a.read_full

-- The part of `handshake` between starting the service and closing `handshakedNotify`.
unfoldable pub secure : Config → Answers → Fallible Secured
secure c a = check a.dial (elim c.tls [
  | false ↦ ok (record { over_tls = false; key = none })
  | true ↦ check a.tls_handshake (elim (exchange_key c.role a) [
    | err e ↦ err e
    | ok key ↦ check a.new_crypto (ok (record { over_tls = true; key = some key }))
  ])
])

-- Where the leader is: nowhere yet, at work, about to close the channel, waiting for the service
-- with its result, or back.
pub data Leader : Type 0 where
  idle working announcing : Leader
  joining returned : Option Error → Leader

-- The shared state, where the service is (it runs, it is in its read, it has ended) and how many
-- datagrams it has read, the callers that wait for the leader and those that passed, the packets
-- kept for `Recv`, and what the stack was given.
pub record State : Type 0 where
  pub handshaked : Bool
  pub notified : Bool
  pub service_ended : Bool
  pub closed : Bool
  pub leader : Leader
  pub serving : Bool
  pub reading : Bool
  pub datagrams : ℕ
  pub waiting : ℕ
  pub passed : ℕ
  pub secured : Option Secured
  pub queue : List (List ℕ)
  pub inbox : List (List ℕ)

-- As `newConn` makes it.
unfoldable pub start : State
start = record {
  handshaked = false;
  notified = false;
  service_ended = false;
  closed = false;
  leader = idle;
  serving = false;
  reading = false;
  datagrams = 0;
  waiting = 0;
  passed = 0;
  secured = none;
  queue = [];
  inbox = [];
}

-- `select { case c.handshakeRecvedPackets <- p: default: }`
pub keep : List (List ℕ) → List ℕ → List (List ℕ)
keep queue p = if ltb (length queue) 8 then queue ++ p ∷ [] else queue

-- The callers that pass with the leader.
unfoldable pub leads : Option Error → ℕ
leads none = 1
leads (some e) = 0

unfoldable pub has_error : Option Error → Bool
has_error none = false
has_error (some e) = true

-- The steps in which the connection does not fail: `CompareAndSwap` by the first caller and by
-- another, a caller that wakes, the leader's work with either result, its closing of the channel
-- and its return behind the deferred `<-retch` (its callers close the connection on an error); the
-- service that finds the channel open and goes into its read, a datagram that ends the read and is for
-- `Recv` or for the stack, and the service that finds the channel closed and ends.
pub data Progress (c : Config) (s t : State) : Type 0 where
  lead :
      s.handshaked ≡ false
      → t ≡ record s { handshaked = true; leader = working; serving = true }
      → Progress c s t
  follow : s.handshaked ≡ true → t ≡ record s { waiting = s.waiting + 1 } → Progress c s t
  wake :
      s.notified ≡ true
      → 0 < s.waiting
      → t ≡ record s { waiting = s.waiting - 1; passed = s.passed + 1 }
      → Progress c s t
  succeed :
      (a : Answers) (x : Secured)
      → s.leader ≡ working
      → secure c a ≡ ok x
      → t ≡ record s { secured = some x; leader = announcing }
      → Progress c s t
  announce :
      s.leader ≡ announcing
      → t ≡ record s { notified = true; leader = joining none }
      → Progress c s t
  fail :
      (a : Answers) (e : Error)
      → s.leader ≡ working
      → secure c a ≡ err e
      → t ≡ record s { leader = joining (some e) }
      → Progress c s t
  read :
      s.serving ≡ true
      → s.reading ≡ false
      → s.notified ≡ false
      → t ≡ record s { reading = true }
      → Progress c s t
  keep_packet :
      (p : List ℕ)
      → s.serving ≡ true
      → s.reading ≡ true
      → t ≡ record s { reading = false; datagrams = s.datagrams + 1; queue = keep s.queue p }
      → Progress c s t
  give_packet :
      (p : List ℕ)
      → s.serving ≡ true
      → s.reading ≡ true
      → t ≡ record s { reading = false; datagrams = s.datagrams + 1; inbox = s.inbox ++ p ∷ [] }
      → Progress c s t
  stop :
      s.serving ≡ true
      → s.reading ≡ false
      → s.notified ≡ true
      → t ≡ record s { serving = false; service_ended = true }
      → Progress c s t
  join :
      (out : Option Error)
      → s.leader ≡ joining out
      → s.service_ended ≡ true
      → t ≡ record s {
        leader = returned out;
        passed = s.passed + leads out;
        closed = if has_error out then true else s.closed;
      }
      → Progress c s t

-- Any step: one of those, or the read of the service ends with an error, or with a datagram that cannot
-- be decoded, and the service closes the connection and ends.
pub data Step (c : Config) (s t : State) : Type 0 where
  progress : Progress c s t → Step c s t
  break :
      s.serving ≡ true
      → s.reading ≡ true
      → t ≡ record s { serving = false; reading = false; service_ended = true; closed = true }
      → Step c s t
