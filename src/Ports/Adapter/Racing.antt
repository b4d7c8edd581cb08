-- ===== src/Ports/Adapter/Racing.antt =====
-- ports/adapter.go, GetPort: two callers, each of which looks for a port under the read lock and records
-- its use under the lock that it takes later.
use fatun.Base.{
  ℕ, ◌≡◌, ◌≢◌, sym, ◌∙◌, subst, inl, inr, true, false, ◌&&◌, Option, some, List, arith, Error, ok,
  returns, Option-cases, ◌=ᵇ◌,
}
use fatun.Base.Maps.{GoMap, lookup}
use fatun.Net.{AddrPort, addr_port_has_eq, addr_port_eq_iff, tcp_number}
use fatun.Ports.AddrSet.{AddrSet}
use fatun.Ports.AddrSet.Sizes.{has-empty}
use fatun.Ports.Manager.{OsReply}
use fatun.Ports.Adapter.{
  PortKey, port_key, port_key_eq_iff, port_key_has_eq, Adapter, reuse, record_use, take_port,
  get_port, del_port,
}
use fatun.Ports.Adapter.Invariant.{IsValid, Visits, record_use-AreGood, reuse_found}
use fatun.Ports.Adapter.Uses.{uses, uses-record_use}
use fatun.Ports.Adapter.Releases.{del_port-uses}

abbrev recorded : Adapter → ℕ → ℕ → AddrPort → Adapter
recorded a proto p remote = record {
  mgr = a.mgr;
  ports = record_use a.ports (port_key proto p) remote;
}

recorded-IsValid :
    (a : Adapter) (proto p : ℕ) (remote : AddrPort) (s : AddrSet)
    → IsValid a
    → lookup (port_key proto p) a.ports ≡ some s
    → IsValid (recorded a proto p remote)
recorded-IsValid a proto p remote s v found = record {
  entries =
      record_use-AreGood a.mgr a.ports (port_key proto p) remote
        (v.entries (port_key proto p) s found).opened v.entries;
}

entry_of_use :
    (a : Adapter) (k : PortKey) (r : AddrPort)
    → uses a k r ≡ true
    → (s : AddrSet) × (lookup k a.ports ≡ some s)
unfolding uses
entry_of_use a k r used = elim (Option-cases (lookup k a.ports)) [
  | inl gone ↦ absurd (ground (arith, gone, has-empty r))
  | inr (s, found) ↦ (s, found)
]

recorded-used :
    (a : Adapter) (proto p : ℕ) (remote : AddrPort)
    → IsValid a
    → uses (recorded a proto p remote) (port_key proto p) remote ≡ true
recorded-used a proto p remote v = ground (
  arith,
  uses-record_use a.mgr a (port_key proto p) (port_key proto p) remote remote v,
  port_key_eq_iff (port_key proto p) (port_key proto p),
  addr_port_eq_iff remote remote,
)

get_port-recorded :
    (os : OsReply) (order : GoMap PortKey AddrSet) (a a1 : Adapter) (proto p : ℕ)
    (remote : AddrPort)
    → reuse order proto remote ≢ 0
    → get_port os order a proto remote ≡ returns (ok p, a1)
    → (p ≡ reuse order proto remote)
      × (a1 ≡ recorded a proto p remote)
      × (((proto =ᵇ tcp_number) && (p =ᵇ 443)) ≡ false)
unfolding get_port take_port
get_port-recorded os order a a1 proto p remote found ran =
    (ground (arith, ran), ground (arith, ran), ground (arith, ran))

-- Two callers of `GetPort` for one remote, of which the second looks for a port before the first has
-- recorded its use: when the first gets a port of the map, and the visiting order of the second leads to the same
-- port, then the second gets that port too, and the uses are then what they were behind the first.
-- So when one of the two gives the port back by `DelPort`, the use of the other has ended as well. The
-- loops visit entries of the map of a valid adapter.
pub get_port-race :
    (os : OsReply) (order other : GoMap PortKey AddrSet) (close : ℕ → Option Error) (a a1 : Adapter)
    (proto p : ℕ) (remote : AddrPort)
    → IsValid a
    → Visits a.ports order
    → reuse order proto remote ≢ 0
    → reuse other proto remote ≡ reuse order proto remote
    → get_port os order a proto remote ≡ returns (ok p, a1)
    → (a2 : Adapter) × (take_port a1 proto (reuse other proto remote) remote ≡ returns (ok p, a2))
      × ((k : PortKey) (r : AddrPort) → uses a2 k r ≡ uses a1 k r)
      × (uses a1 (port_key proto p) remote ≡ true)
      × ((e : Option Error) × (a3 : Adapter) × (ls : List ℕ) × (del_port close a2 proto p remote
            ≡ returns (e, a3, ls))
          × (uses a3 (port_key proto p) remote ≡ false))
unfolding take_port
get_port-race os order other close a a1 proto p remote v visits found same ran =
    let (at, is, allowed) = get_port-recorded os order a a1 proto p remote found ran in
    let (s, entry, lacks) = reuse_found a.ports order proto remote visits found in
    let entry' = subst (λ n. lookup (port_key proto n) a.ports ≡ some s) (sym at) entry in
    let b = recorded a proto p remote in
    let valid = recorded-IsValid a proto p remote s v entry' in
    let used = recorded-used a proto p remote v in
    let (s', there) = entry_of_use b (port_key proto p) remote used in
    let c = recorded b proto p remote in
    let valid' = recorded-IsValid b proto p remote s' valid there in
    let used' = recorded-used b proto p remote valid in
    let (e, a3, ls, gave, _, left) = del_port-uses close c proto p remote valid' used' in
    rw is (
      c,
      rw (same ∙ sym at) (rw allowed),
      λ k r. ground (
        arith,
        uses-record_use b.mgr b (port_key proto p) k remote r valid,
        uses-record_use a.mgr a (port_key proto p) k remote r v,
      ),
      used,
      (
        e,
        a3,
        ls,
        gave,
        ground (
          arith,
          left (port_key proto p) remote,
          port_key_eq_iff (port_key proto p) (port_key proto p),
          addr_port_eq_iff remote remote,
        ),
      ),
    )
