-- ===== src/Links/Mutex.antt =====
-- links/maps/mutx.go: several link managers over one pool of ports, chosen by the last byte of the
-- server's address.
-- The managers share one *ports.Adapter. It is kept here once, `ap`; a call lends it to the manager
-- chosen and takes it back.
pub mod Sharing
use fatun.Base.{
  ℕ, zero, suc, ◌%◌, Bool, true, false, Option, none, some, List, [], ◌∷◌, ◌++◌, Error, Fallible,
  ok, err, Run, returns, panics, ◌>>=◌, if◌then◌else◌, ◌=ᵇ◌, length, get_elem?, set, replicate, max,
}
use fatun.Base.Maps.{GoMap}
use fatun.Net.{Addr, as_slice}
use fatun.Ports.AddrSet.{AddrSet}
use fatun.Ports.Adapter.{Adapter, PortKey, new_adapter, close_adapter}
use fatun.Links.{Uplink, Downlink, Link}
use fatun.Links.Maps
use fatun.Links.Maps.{LinkManager, Env, new_link_manager_on}

-- `type mutxLinkManager struct`
pub record MutexManager : Type 0 where
  pub ap : Adapter
  pub mutex : ℕ
  pub mgrs : List LinkManager

-- `NewMutxLinkManager`
pub new_mutex_manager : ℕ → ℕ → Addr → Run MutexManager
new_mutex_manager mutex ttl addr = do
  ap ← new_adapter addr
  returns (record {
    ap = ap;
    mutex = mutex;
    mgrs = replicate (max mutex 4) (new_link_manager_on ap ttl);
  })

pub last : List ℕ → Option ℕ
last [] = none
last (x ∷ []) = some x
last (x ∷ y ∷ ys) = last (y ∷ ys)

-- The index of `get`: an address with no byte, and a division by zero, panic.
pub get_index : MutexManager → Addr → Run ℕ
get_index m server = elim (last (as_slice server)) [
  | none ↦ panics
  | some b ↦ if m.mutex =ᵇ 0 then panics else returns (b % m.mutex)
]

-- `get`: the manager, with the shared pool of ports.
pub get : MutexManager → Addr → Run (ℕ × LinkManager)
get m server = get_index m server >>= λ i. elim (get_elem? m.mgrs i) [
  | none ↦ panics
  | some t ↦ returns (i, record t { ap = m.ap })
]

abbrev pub give_back : MutexManager → ℕ → LinkManager → MutexManager
give_back m i t = record m { ap = t.ap; mgrs = set m.mgrs i t }

-- `Downlink`
pub downlink : MutexManager → Downlink → Run (Option (ℕ × ℕ))
downlink m link = get m link.server.addr >>= λ r. returns (Maps.downlink r.1 link)

-- `Uplink`
pub uplink : MutexManager → Uplink → Run (Option ℕ × MutexManager)
uplink m link = get m link.server.addr >>= λ r.
    let (p, t) = Maps.uplink r.1 link in returns (p, give_back m r.0 t)

-- `Add`
pub add : Env → MutexManager → Uplink → ℕ → Run (Fallible ℕ × MutexManager)
add env m link conn = get m link.server.addr >>= λ r.
    Maps.add env r.1 link conn >>= λ out. returns (out.0, give_back m r.0 out.1)

-- `Cleanup`: the managers in order, each with the pool that the one before it leaves.
pub cleanup_all :
    (ℕ → Option Error)
    → (ℕ → ℕ)
    → Adapter
    → List LinkManager
    → Run (List Link × Adapter × List LinkManager)
cleanup_all close clock ap [] = returns ([], ap, [])
cleanup_all close clock ap (t ∷ ts) = Maps.cleanup close clock (record t { ap = ap }) >>= λ r.
    cleanup_all close clock r.1.ap ts >>= λ rest. returns (r.0 ++ rest.0, rest.1, r.1 ∷ rest.2)

pub cleanup : (ℕ → Option Error) → (ℕ → ℕ) → MutexManager → Run (List Link × MutexManager)
cleanup close clock m =
    cleanup_all close clock m.ap m.mgrs >>= λ r. returns (r.0, record m { ap = r.1; mgrs = r.2 })

-- `Close`
pub close_all :
    (ℕ → Option Error) → GoMap PortKey AddrSet → MutexManager → Option Error × MutexManager × List ℕ
close_all close order m =
    let (e, ap, ls) = close_adapter close order m.ap in (e, record m { ap = ap }, ls)
