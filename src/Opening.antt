-- ===== src/Opening.antt =====
-- What the constructors and `close` methods open and close: conn/listen.go, conn/conn.go,
-- server_linux.go, server.go, client.go and client_windows.go. A call that can fail is an answer, `none` where it
-- succeeds; the error that `close(cause)` returns is seen as its cause, and errorx.CloseErr runs its
-- function, since each `close` here is the first.
pub mod Conns
pub mod Senders
pub mod Parties
pub mod Captures
use fatun.Base.{
  ℕ, ◌≡◌, Bool, true, false, Option, none, some, List, [], ◌∷◌, ◌++◌, Fallible, ok, err,
  if◌then◌else◌, ◌=ᵇ◌,
}

-- What can be open. The datagram listener of conn/udp is its socket and the channel of its connections; its
-- `Close` closes the channel, and the socket stays open until a last connection of it is closed, which is
-- none of these effects.
pub data Resource : Type 0 where
  cancel udp_socket udp_listener builtin_listener user_stack datagram_conn builtin_conn links
        arp_client eth_conn capturer pcap_file divert_handle mapping :
      Resource

pub data Effect : Type 0 where
  opens closes : Resource → Effect

pub number : Resource → ℕ
number cancel = 0
number udp_listener = 1
number builtin_listener = 2
number user_stack = 3
number datagram_conn = 4
number builtin_conn = 5
number links = 6
number arp_client = 7
number eth_conn = 8
number capturer = 9
number pcap_file = 10
number divert_handle = 11
number mapping = 12
number udp_socket = 13

-- Closing what is not open does nothing.
pub without : Resource → List Resource → List Resource
without r [] = []
without r (o ∷ os) = let rest = without r os in if number r =ᵇ number o then os else o ∷ rest

-- What is open after the effects, in their order.
unfoldable pub left_open : List Effect → List Resource → List Resource
left_open [] held = held
left_open (opens r ∷ es) held = left_open es (r ∷ held)
left_open (closes r ∷ es) held = left_open es (without r held)

-- `if x != nil { errs = append(errs, x.Close()) }`, for a value that is seen through what its `Close`
-- does.
abbrev pub closing : Option (List Effect) → List Effect
closing none = []
closing (some es) = es

-- What is open after the effects of a constructor, and, if it gave a value, of closing it.
pub Leaves : {A : Type 0} → (A → List Effect) → List Effect → Fallible A → List Resource → Type 0
Leaves close t (ok a) rest = left_open (t ++ close a) [] ≡ rest
Leaves close t (err e) rest = left_open t [] ≡ rest

pub is_open : Resource → List Resource → Bool
is_open r [] = false
is_open r (o ∷ os) = let rest = is_open r os in if number r =ᵇ number o then true else rest
