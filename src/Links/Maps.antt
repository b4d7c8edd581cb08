-- ===== src/Links/Maps.antt =====
-- links/maps/maps.go: the links of a proxy server in two maps, with expiry.
-- A connection is known by a number. A `*port` is the word that its atomic counter holds: the port
-- in the 16 high bits, a count of uses in the others. A time is a number of nanoseconds, the zero
-- time is 0, and `clock i` is the time in round `i` of the loop of `Cleanup`.
pub mod Counter
pub mod Sweeping
pub mod Removed
pub mod Registered
pub mod Invariant
pub mod Expiry
pub mod Dropping
pub mod Routes
pub mod Adding
pub mod Renewal
pub mod Sequences
pub mod Fresh
pub mod Table
use fatun.Base.{
  ℕ, zero, suc, ◌+◌, ◌-◌, ◌*◌, ◌/◌, ◌%◌, ◌^◌, Bool, true, false, not, ◌&&◌, Option, none, some,
  List, [], ◌∷◌, ◌++◌, Error, Fallible, ok, err, Run, returns, panics, ◌>>=◌, if◌then◌else◌, ltb,
  ◌=ᵇ◌,
}
use fatun.Base.Maps.{GoMap, lookup, insert, delete}
use fatun.Net.{Addr, AddrPort, addr_port_is_valid, invalid}
use fatun.Ports.Manager.{OsReply}
use fatun.Ports.AddrSet.{AddrSet}
use fatun.Ports.Adapter.{Adapter, PortKey, new_adapter, get_port, del_port, close_adapter}
use fatun.Links.Heap.{Heap, new_heap, put, pop, size}
use fatun.Links.{Uplink, Downlink, Link, uplink_has_eq, downlink_has_eq}

-- `NewPort`
unfoldable pub new_port : ℕ → ℕ
new_port p = p * 2 ^ 48

-- `Idle`: whether the port was not used since the last call; the count is cleared.
pub idle : ℕ → Bool × ℕ
idle d = ((d % 2 ^ 48) =ᵇ 0, d / 2 ^ 48 * 2 ^ 48)

-- `Port`: the count goes up, and the high bits of the new word are the port.
unfoldable pub port : ℕ → ℕ × ℕ
port d = let d' = (d + 1) % 2 ^ 64 in (d' / 2 ^ 48, d')

-- `type ttlkey struct`
pub record TtlKey : Type 0 where
  pub up : Uplink
  pub start : ℕ

abbrev pub no_addr_port : AddrPort
no_addr_port = record { addr = invalid; port = 0 }

abbrev pub no_key : TtlKey
no_key = record {
  up = record { process = no_addr_port; proto = 0; server = no_addr_port };
  start = 0;
}

-- `valid`
unfoldable pub ttl_valid : TtlKey → Bool
ttl_valid t =
    addr_port_is_valid t.up.process && (addr_port_is_valid t.up.server && not (t.start =ᵇ 0))

-- `type downkey struct`
pub record DownKey : Type 0 where
  pub conn : ℕ
  pub client_port : ℕ

-- `type linkManager struct`
pub record LinkManager : Type 0 where
  pub addr : Addr
  pub ap : Adapter
  pub duration : ℕ
  pub uplink_map : GoMap Uplink ℕ
  pub ttl : Heap TtlKey
  pub downlink_map : GoMap Downlink DownKey

-- `newLinkManager`
unfoldable pub new_link_manager_on : Adapter → ℕ → LinkManager
new_link_manager_on ap ttl = record {
  addr = ap.mgr.ip;
  ap = ap;
  duration = ttl;
  uplink_map = [];
  ttl = new_heap no_key 64;
  downlink_map = [];
}

-- `NewLinkManager`
unfoldable pub new_link_manager : ℕ → Addr → Run LinkManager
new_link_manager ttl addr = do ap ← new_adapter addr; returns (new_link_manager_on ap ttl)

-- The variables of the first loop of `Cleanup`. A removed link holds its uplink, so `ups` is not
-- kept beside `ls`.
pub record Sweep : Type 0 where
  pub ups : GoMap Uplink ℕ
  pub queue : Heap TtlKey
  pub ls : List Link

-- One round behind the `Pop`: the state, and whether the loop goes on.
unfoldable pub sweep_key : Addr → ℕ → ℕ → TtlKey → Sweep → Run (Sweep × Bool)
sweep_key addr duration now k s =
    if ttl_valid k && ltb duration (now - k.start)
    then elim (lookup k.up s.ups) [
      | none ↦ panics
      | some d ↦
          let (unused, d') = idle d in
          let link : Link = record {
            uplink = k.up;
            local = record { addr = addr; port = (port d').0 };
          } in
          if unused
          then returns (record s { ups = delete k.up s.ups; ls = s.ls ++ link ∷ [] }, true)
          else (put no_key s.queue (record { up = k.up; start = now }) >>= λ q.
              returns (record s { ups = insert k.up d' s.ups; queue = q }, true))
    ]
    else (put no_key s.queue (record { up = k.up; start = now }) >>= λ q.
        returns (record s { queue = q }, false))

-- The loop `for i := 0; i < t.ttl.Size(); i++`. Its size never grows, so as many rounds as it has
-- at first are enough.
unfoldable pub sweep : ℕ → ℕ → Addr → ℕ → (ℕ → ℕ) → Sweep → Run Sweep
sweep zero i addr duration clock s = returns s
sweep (suc fuel) i addr duration clock s =
    let more = λ (r : Sweep × Bool).
      if r.1 then sweep fuel (i + 1) addr duration clock r.0 else returns r.0 in
    let (k, q) = pop no_key s.queue in
    if ltb i (size s.queue)
    then (sweep_key addr duration (clock i) k (record s { queue = q }) >>= more)
    else returns s

-- The key under which a link's packets come back.
abbrev pub down_of : Addr → Link → Downlink
down_of addr l = record {
  server = l.uplink.server;
  proto = l.uplink.proto;
  local = record { addr = addr; port = l.local.port };
}

-- The second loop.
unfoldable pub drop_downlinks : Addr → List Link → GoMap Downlink DownKey → GoMap Downlink DownKey
drop_downlinks addr [] m = m
drop_downlinks addr (l ∷ ls) m = drop_downlinks addr ls (delete (down_of addr l) m)

-- The third loop. Its errors are dropped.
unfoldable pub drop_ports : (ℕ → Option Error) → List Link → Adapter → Run Adapter
drop_ports close [] ap = returns ap
drop_ports close (l ∷ ls) ap =
    del_port close ap l.uplink.proto l.local.port l.uplink.server >>= λ r. drop_ports close ls r.1

-- `Cleanup`
unfoldable pub cleanup : (ℕ → Option Error) → (ℕ → ℕ) → LinkManager → Run (List Link × LinkManager)
cleanup close clock t =
    let swept =
      sweep (size t.ttl) 0 t.addr t.duration clock
        (record { ups = t.uplink_map; queue = t.ttl; ls = [] }) in
    swept >>= λ s. drop_ports close s.ls t.ap >>= λ ap. returns (
      s.ls,
      record t {
        ap = ap;
        uplink_map = s.ups;
        ttl = s.queue;
        downlink_map = drop_downlinks t.addr s.ls t.downlink_map;
      },
    )

-- What the surroundings of one `Add` do: closing sockets, the clock of its `Cleanup`, the time
-- after it, the answers of the system, and the order in which the map of ports is visited.
pub record Env : Type 0 where
  pub close : ℕ → Option Error
  pub clock : ℕ → ℕ
  pub now : ℕ
  pub os : OsReply
  pub order : GoMap PortKey AddrSet → GoMap PortKey AddrSet

-- `Add` behind its `Cleanup`.
unfoldable pub add_link : Env → LinkManager → Uplink → ℕ → Run (Fallible ℕ × LinkManager)
add_link env t s conn = get_port env.os (env.order t.ap.ports) t.ap s.proto s.server >>= λ r.
    elim r.0 [
      | err e ↦ returns (err e, record t { ap = r.1 })
      | ok local_port ↦ put no_key t.ttl (record { up = s; start = env.now }) >>= λ q. returns (
        ok local_port,
        record t {
          ap = r.1;
          uplink_map = insert s (new_port local_port) t.uplink_map;
          ttl = q;
          downlink_map =
              insert
                (record {
                  server = s.server;
                  proto = s.proto;
                  local = record { addr = t.addr; port = local_port };
                })
                (record { conn = conn; client_port = s.process.port }) t.downlink_map;
        },
      )
    ]

-- `Add`, when no other call comes between the sections of its locks
unfoldable pub add : Env → LinkManager → Uplink → ℕ → Run (Fallible ℕ × LinkManager)
add env t s conn = cleanup env.close env.clock t >>= λ r. add_link env r.1 s conn

-- `Uplink`: the local port, and the manager with the count of that port raised.
unfoldable pub uplink : LinkManager → Uplink → Option ℕ × LinkManager
uplink t s = elim (lookup s t.uplink_map) [
  | none ↦ (none, t)
  | some d ↦ let (p, d') = port d in (some p, record t { uplink_map = insert s d' t.uplink_map })
]

-- `Downlink`
unfoldable pub downlink : LinkManager → Downlink → Option (ℕ × ℕ)
downlink t s = elim (lookup s t.downlink_map) [
  | none ↦ none
  | some key ↦ some (key.conn, key.client_port)
]

-- `Close`
pub close_links :
    (ℕ → Option Error) → GoMap PortKey AddrSet → LinkManager → Option Error × LinkManager × List ℕ
close_links close order t =
    let (e, ap, ls) = close_adapter close order t.ap in (e, record t { ap = ap }, ls)
