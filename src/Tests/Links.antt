-- ===== src/Tests/Links.antt =====
-- links at concrete inputs: the queue, and the life of one link.
use fatun.Base.{
  ℕ, ◌+◌, ◌-◌, ltb, ◌^◌, ◌<◌, ◌≡◌, ◌⊎◌, refl, sym, subst, false, ◌&&◌, none, some, List, [], ◌∷◌,
  ◌++◌, arith, Fallible, ok, Run, returns, panics, ◌+◌,
}
use fatun.Base.Maps.{lookup, insert, delete}
use fatun.Net.{v4, addr_port_has_eq}
use fatun.Ports.AddrSet.{AddrSet, less, search_loop, sort_search, find, has, sort_insert, sort}
use fatun.Ports.AddrSet
use fatun.Ports.Manager.{get_tcp_port, socket}
use fatun.Ports.Manager.Laws.{is_open}
use fatun.Ports.Adapter.{port_key_has_eq, reuse, alloc, record_use, take_port, get_port}
use fatun.Ports.Adapter.Invariant.{Visits}
use fatun.Ports.Adapter.Uses.{IsFresh}
use fatun.Links.{Uplink, Link, uplink_has_eq, downlink_has_eq}
use fatun.Links.Heap.{Heap, new_heap, put, put_at, grow, pop}
use fatun.Links.Heap.Refine
use fatun.Links.Heap.Refine.{contents, contents-put, queue_head, queue_tail}
use fatun.Links.Heap.Popping.{contents-pop}
use fatun.Links.Heap.Fresh.{new_heap_lem}
use fatun.Links.Maps.{
  LinkManager, ttl_valid, TtlKey, Env, no_key, new_port, port, down_of, sweep, drop_downlinks,
  drop_ports, cleanup, add_link, add, uplink, downlink,
}
use fatun.Links.Maps.Counter.{after_calls, port-overflow}
use fatun.Links.Maps.Registered.{reg, Keys}
use fatun.Links.Maps.Invariant.{IsValid, link_at}
use fatun.Links.Maps.Expiry.{Cleaned, cleanup_lem}
use fatun.Links.Maps.Routes.{add-Downlink}
use fatun.Base.Runs.{Runs, here, later}
use fatun.Links.Maps.Sequences.{Step, adds, finds, HasRoom}
use fatun.Links.Maps.Table.{AllDo, table, Runs-AllDo}
use fatun.Links.Maps.Table.Answers.{answers-table}
use fatun.Links.Maps.Renewal.{cleanup_renews}
use fatun.Tests.Ports.{web, opens, no_close, start, start-IsValid}

abbrev small : Heap ℕ
small = new_heap 0 2

contents-put_example :
    (h' : Heap ℕ) × (put 0 small 7 ≡ returns h')
    × Refine.IsValid h'
    × (contents 0 h' ≡ contents 0 small ++ 7 ∷ [])
contents-put_example = contents-put 0 small 7 (new_heap_lem 0 2 (omega arith)).0

contents-pop_example :
    Refine.IsValid (pop 0 small).1
    × ((pop 0 small).0 ≡ queue_head 0 (contents 0 small))
    × (contents 0 (pop 0 small).1 ≡ queue_tail (contents 0 small))
contents-pop_example = contents-pop 0 small (new_heap_lem 0 2 (omega arith)).0

-- A process behind 10.0.0.2 talks to the web server.
abbrev pub up : Uplink
up = record { process = record { addr = v4 167772162; port = 4000 }; proto = 6; server = web }

abbrev pub empty : LinkManager
empty = record {
  addr = v4 1;
  ap = start;
  duration = 1000;
  uplink_map = [];
  ttl = new_heap no_key 64;
  downlink_map = [];
}

abbrev pub env : Env
env = record {
  close = no_close;
  clock = λ i. 100 + i;
  now = 200;
  os = opens 5000;
  order = λ ports. ports;
}

abbrev manager_of : Run (Fallible ℕ × LinkManager) → LinkManager
manager_of (returns (out, t)) = t
manager_of panics = empty

-- The manager after the connection 1 added the link.
abbrev pub linked : LinkManager
linked = manager_of (add env empty up 1)

pub empty-IsValid : IsValid empty
unfolding lookup new_heap
empty-IsValid =
    let (ring, none_yet) = new_heap_lem no_key 64 (omega arith) in
    record {
      adapter = start-IsValid;
      ring = ring;
      keys = subst (λ ks. Keys [] ks) (sym none_yet) tt;
      words = λ s d e. absurd (ground arith);
      links = λ u p e. absurd (ground arith);
      alone = λ u w p e. absurd (ground arith);
    }

pub cleaned_empty : cleanup no_close env.clock empty ≡ returns ([], empty)
unfolding cleanup sweep pop drop_downlinks drop_ports new_heap
cleaned_empty = refl

pub added_up : add env empty up 1 ≡ returns (ok 5000, linked)
unfolding add cleanup sweep pop put put_at grow drop_downlinks drop_ports add_link new_heap get_port
    reuse alloc get_tcp_port take_port record_use lookup insert delete AddrSet.add has find
    sort_search search_loop sort sort_insert
added_up = refl

-- What a `Cleanup` of the empty manager leaves.
empty_again :
    (ls : List Link) (c : LinkManager)
    → cleanup no_close env.clock empty ≡ returns (ls, c)
    → c ≡ empty
empty_again ls c e = ground (arith, e, cleaned_empty)

pub Visits-up :
    (ls : List Link) (c : LinkManager)
    → cleanup no_close env.clock empty ≡ returns (ls, c)
    → Visits c.ap.ports c.ap.ports
Visits-up ls c e = subst (λ m. Visits m.ap.ports m.ap.ports) (sym (empty_again ls c e)) tt

pub IsFresh-up :
    (ls : List Link) (c : LinkManager)
    → cleanup no_close env.clock empty ≡ returns (ls, c)
    → IsFresh (opens 5000) c.ap 6
unfolding is_open socket lookup
IsFresh-up ls c e =
    subst (λ m. IsFresh (opens 5000) m.ap 6) (sym (empty_again ls c e)) (λ p _. ground arith)

pub unregistered_up : reg empty.uplink_map up ≡ none
unfolding lookup
unregistered_up = refl

linked-IsValid : IsValid linked
linked-IsValid =
    (add-Downlink env empty up 1 5000 linked empty-IsValid (omega arith) (omega arith)
      unregistered_up Visits-up IsFresh-up added_up).0

add-Downlink_example :
    IsValid linked
    × ((uplink linked up).0 ≡ some 5000)
    × (downlink linked (down_of (v4 1) (link_at (v4 1) up 5000)) ≡ some (1, 4000))
add-Downlink_example =
    add-Downlink env empty up 1 5000 linked empty-IsValid (omega arith) (omega arith)
      unregistered_up Visits-up IsFresh-up added_up

cleanup_example :
    (ls : List Link) × (t' : LinkManager) × (cleanup no_close (λ i. 5000 + i) linked
      ≡ returns (ls, t'))
    × Cleaned linked ls t'
cleanup_example = cleanup_lem no_close (λ i. 5000 + i) linked linked-IsValid

port-overflow_example : (port (after_calls (2 ^ 48 - 1) (new_port 5000))).0 ≡ 5000 + 1
port-overflow_example = port-overflow 5000 (omega arith)

abbrev key_up : TtlKey
key_up = record { up = up; start = 200 }

queued_up : contents no_key linked.ttl ≡ key_up ∷ []
unfolding add cleanup sweep new_heap drop_ports add_link get_port reuse alloc get_tcp_port take_port
    put put_at
queued_up = refl

one_waits : 0 < linked.ttl.count
unfolding add cleanup sweep new_heap drop_ports add_link get_port reuse alloc get_tcp_port take_port
    put put_at
one_waits = omega arith

young_up : (ttl_valid key_up && ltb 1000 (1100 - 200)) ≡ false
unfolding ttl_valid
young_up = refl

adding_up : Runs Step empty linked
adding_up =
    later here
      (adds env up 1 5000 (omega arith) (omega arith) unregistered_up Visits-up IsFresh-up added_up)

linked_word : lookup up linked.uplink_map ≡ some 1407374883553280000
unfolding add cleanup sweep pop put put_at grow drop_downlinks drop_ports add_link new_heap get_port
    reuse alloc get_tcp_port take_port record_use lookup insert delete AddrSet.add has find
    sort_search search_loop sort sort_insert new_port
linked_word = refl

HasRoom-linked : HasRoom linked up
HasRoom-linked d e = ground (arith, e, linked_word)

-- The link is added, and used.
used_up : Runs Step empty (uplink linked up).1
used_up = later adding_up (finds up HasRoom-linked refl)

Runs-AllDo_example : AllDo used_up
Runs-AllDo_example = Runs-AllDo empty (uplink linked up).1 used_up empty-IsValid

answers-table_example :
    ((table linked up ≡ none) × ((uplink linked up).0 ≡ none))
    ⊎ ((p : ℕ) × (conn : ℕ) × (table linked up ≡ some (p, conn))
        × ((uplink linked up).0 ≡ some p)
        × (downlink linked (down_of linked.addr (link_at linked.addr up p)) ≡ some (conn, 4000)))
answers-table_example = answers-table linked up linked-IsValid HasRoom-linked

cleanup_renews_example :
    (q : Heap TtlKey) × (cleanup no_close (λ i. 1100 + i) linked
      ≡ returns ([], record linked { ttl = q }))
    × (contents no_key q ≡ [] ++ record { up = up; start = 1100 } ∷ [])
unfolding add cleanup sweep new_heap drop_ports add_link get_port reuse alloc get_tcp_port take_port
    put put_at
cleanup_renews_example =
    cleanup_renews no_close (λ i. 1100 + i) linked key_up [] linked-IsValid.ring one_waits queued_up
      young_up
