-- ===== src/Tests/Ports.antt =====
-- ports/adapter.go at concrete inputs: two remotes that share the local ports of an adapter.
use fatun.Base.{
  ℕ, ◌≡◌, ◌↔◌, refl, true, false, not, ◌&&◌, ◌||◌, Option, none, some, List, [], ◌∷◌, arith, Error,
  ok, returns, inl, ◌==◌, ◌≢◌,
}
use fatun.Base.Maps.{lookup, insert, delete}
use fatun.Net.{AddrPort, v4, addr_port_has_eq}
use fatun.Ports.AddrSet.{
  AddrSet, less, search_loop, sort_search, find, has, sort_insert, sort, add, del, size,
}
use fatun.Ports.AddrSet.Search.{IsSorted}
use fatun.Ports.AddrSet.Calls.{
  Call, adding, deleting, after, members, class, slice, after-members, slice_same,
}
use fatun.Ports.Manager.{OsReply, get_tcp_port, del_tcp_port, socket}
use fatun.Ports.Manager.Laws.{is_open}
use fatun.Ports.Adapter.{
  Adapter, PortKey, port_key, port_key_has_eq, reuse, alloc, record_use, take_port, get_port,
  free_port, del_port,
}
use fatun.Ports.Adapter.Invariant.{IsValid, get_port-IsValid}
use fatun.Ports.Adapter.Uses.{uses, IsFresh, get_port-uses}
use fatun.Ports.Adapter.Racing.{get_port-race}
use fatun.Ports.Adapter.Releases.{Released, del_port-uses, del_port-closes}

abbrev pub dns : AddrPort
dns = record { addr = v4 134744072; port = 53 }

abbrev pub web : AddrPort
web = record { addr = v4 16843009; port = 80 }

-- The web server alone.
abbrev one_remote : AddrSet
one_remote = record { addrs = web ∷ [] }

-- The system opens the given port.
abbrev pub opens : ℕ → OsReply
opens p = record { listen = ok p; filter_all = none; local_port = ok p }

abbrev pub no_close : ℕ → Option Error
no_close l = none

abbrev pub start : Adapter
start = record { mgr = record { ip = v4 1; tcp = []; udp = [] }; ports = [] }

-- The adapter after one use of TCP port 5000.
abbrev after_one : Adapter
after_one = record {
  mgr = record { ip = v4 1; tcp = (5000, 5000) ∷ []; udp = [] };
  ports = (port_key 6 5000, one_remote) ∷ [];
}

-- The adapter after a second use for the same remote.
abbrev after_two : Adapter
after_two = record {
  mgr = record { ip = v4 1; tcp = (5001, 5001) ∷ (5000, 5000) ∷ []; udp = [] };
  ports = (port_key 6 5001, one_remote) ∷ (port_key 6 5000, one_remote) ∷ [];
}

pub start-IsValid : IsValid start
unfolding lookup
start-IsValid = record { entries = λ k s e. absurd (ground arith) }

-- The remotes of two calls, in one order and in the other.
abbrev both : List Call
both = adding dns ∷ deleting web ∷ []

abbrev other_way : List Call
other_way = deleting web ∷ adding dns ∷ []

after-members_example :
    IsSorted (after both one_remote).addrs
    × ((b : AddrPort) → has (after both one_remote) b ≡ members both (has one_remote) b)
after-members_example = after-members both one_remote (tt, tt)

slice_same_example :
    (slice one_remote (tt, tt) (class one_remote both)
      ≡ slice one_remote (tt, tt) (class one_remote other_way))
    ↔ (class one_remote both ≡ class one_remote other_way)
slice_same_example =
    slice_same one_remote (tt, tt) (class one_remote both) (class one_remote other_way)

first_get : get_port (opens 5000) [] start 6 web ≡ returns (ok 5000, after_one)
unfolding get_port reuse alloc get_tcp_port take_port record_use lookup insert delete add has find
    sort_search search_loop sort sort_insert
first_get = refl

after_one-IsValid : IsValid after_one
after_one-IsValid =
    get_port-IsValid (opens 5000) [] start 6 web (ok 5000) after_one start-IsValid tt first_get

second_get : get_port (opens 5001) after_one.ports after_one 6 web ≡ returns (ok 5001, after_two)
unfolding get_port reuse alloc get_tcp_port take_port record_use lookup insert delete add has find
    sort_search search_loop sort sort_insert less
second_get = refl

visits_one : lookup (port_key 6 5000) after_one.ports ≡ some one_remote
unfolding lookup
visits_one = refl

IsFresh-one : IsFresh (opens 5001) after_one 6
unfolding is_open socket lookup
IsFresh-one p e = ground (arith, e)

get_port-IsValid_example : IsValid after_two
get_port-IsValid_example =
    get_port-IsValid (opens 5001) after_one.ports after_one 6 web (ok 5001) after_two
      after_one-IsValid (visits_one, tt) second_get

get_port-uses_example :
    (uses after_one (port_key 6 5001) web ≡ false)
    × ((k : PortKey) (r : AddrPort)
        → uses after_two k r ≡ (((port_key 6 5001 == k) && (web == r)) || uses after_one k r))
get_port-uses_example =
    get_port-uses (opens 5001) after_one.ports after_one 6 web 5001 after_two after_one-IsValid
      (visits_one, tt) IsFresh-one second_get

used_one : uses after_one (port_key 6 5000) web ≡ true
unfolding uses lookup has find sort_search search_loop less
used_one = refl

del_port-uses_example :
    (e : Option Error) × (a' : Adapter) × (ls : List ℕ) × (del_port no_close after_one 6 5000 web
      ≡ returns (e, a', ls))
    × IsValid a'
    × ((k : PortKey) (r : AddrPort)
        → uses a' k r ≡ (not ((port_key 6 5000 == k) && (web == r)) && uses after_one k r))
del_port-uses_example = del_port-uses no_close after_one 6 5000 web after_one-IsValid used_one

last_del : del_port no_close after_one 6 5000 web ≡ returns (none, start, 5000 ∷ [])
unfolding del_port free_port del_tcp_port lookup delete del size find sort_search search_loop less
last_del = refl

del_port-closes_example : Released no_close after_one 6 5000 none start (5000 ∷ [])
del_port-closes_example =
    del_port-closes no_close after_one 6 5000 web none start (5000 ∷ []) after_one-IsValid used_one
      (inl refl) last_del

-- The adapter when the DNS server shares the port.
abbrev shared : Adapter
shared = record after_one { ports = (port_key 6 5000, record { addrs = web ∷ dns ∷ [] }) ∷ [] }

sharing : get_port (opens 5001) after_one.ports after_one 6 dns ≡ returns (ok 5000, shared)
unfolding get_port reuse alloc get_tcp_port take_port record_use lookup insert delete add has find
    sort_search search_loop sort sort_insert less
sharing = refl

reuses : reuse after_one.ports 6 dns ≢ 0
unfolding reuse has find sort_search search_loop less
reuses = omega arith

get_port-race_example :
    (a2 : Adapter) × (take_port shared 6 (reuse after_one.ports 6 dns) dns ≡ returns (ok 5000, a2))
    × ((k : PortKey) (r : AddrPort) → uses a2 k r ≡ uses shared k r)
    × (uses shared (port_key 6 5000) dns ≡ true)
    × ((e : Option Error) × (a3 : Adapter) × (ls : List ℕ) × (del_port no_close a2 6 5000 dns
          ≡ returns (e, a3, ls))
        × (uses a3 (port_key 6 5000) dns ≡ false))
get_port-race_example =
    get_port-race (opens 5001) after_one.ports after_one.ports no_close after_one shared 6 5000 dns
      after_one-IsValid (visits_one, tt) reuses refl sharing
