-- ===== src/Ports/Adapter/Uses.antt =====
-- ports/adapter.go: an Adapter as a set of uses, which remote addresses share which local port.
use fatun.Base.{
  ℕ, ◌%◌, ◌≡◌, sym, subst, inl, inr, Bool, false, ◌&&◌, ◌||◌, arith, ok, returns, Option-cases,
  ◌==◌,
}
use fatun.Base.Maps.{GoMap, lookup}
use fatun.Net.{AddrPort, addr_port_has_eq}
use fatun.Ports.AddrSet.{AddrSet, has}
use fatun.Ports.AddrSet.Laws.{has-add}
use fatun.Ports.AddrSet.Sizes.{has-empty}
use fatun.Ports.Manager.{Manager, OsReply}
use fatun.Ports.Manager.Laws.{is_open}
use fatun.Ports.Adapter.{
  PortKey, port_key, port_key_eq_iff, port_key_has_eq, Adapter, record_use, get_port,
}
use fatun.Ports.Adapter.Invariant.{
  IsValid, set_of, set_of-IsSorted, lookup-record_use, Visits, reuse_found, Source, get_port_cases,
  alloc-local_port,
}

-- The remote shares the local port of the key.
unfoldable pub uses : Adapter → PortKey → AddrPort → Bool
uses a k remote = has (set_of (lookup k a.ports)) remote

-- A new port is one that no open socket of the protocol holds.
abbrev pub IsFresh : OsReply → Adapter → ℕ → Type 0
IsFresh os a proto = (p : ℕ) → os.local_port ≡ ok p → is_open a.mgr (proto % 256) p ≡ false

closed_unused :
    (a : Adapter) (k : PortKey) (remote : AddrPort)
    → IsValid a
    → is_open a.mgr k.proto k.local_port ≡ false
    → uses a k remote ≡ false
unfolding uses
closed_unused a k remote v shut = elim (Option-cases (lookup k a.ports)) [
  | inl e ↦ rw e (has-empty remote)
  | inr (s, e) ↦ absurd (ground (arith, (v.entries k s e).opened))
]

Source-unused :
    (os : OsReply) (order : GoMap PortKey AddrSet) (a : Adapter) (proto : ℕ) (remote : AddrPort)
    (p : ℕ) (m : Manager)
    → IsValid a
    → Visits a.ports order
    → IsFresh os a proto
    → Source os order a proto remote p m
    → uses a (port_key proto p) remote ≡ false
Source-unused os order a proto remote p m v visits fresh (inl (at, ne, same)) =
    let (s, found, lacks) = reuse_found a.ports order proto remote visits ne in
    rw at (unfold uses in rw found lacks)
Source-unused os order a proto remote p m v visits fresh (inr (none_old, got, opened)) =
    closed_unused a (port_key proto p) remote v (fresh p (alloc-local_port os a.mgr proto p got))

pub uses-record_use :
    (m : Manager) (a : Adapter) (pk k : PortKey) (remote r : AddrPort)
    → IsValid a
    → uses (record { mgr = m; ports = record_use a.ports pk remote }) k r
      ≡ (((pk == k) && (remote == r)) || uses a k r)
unfolding uses
uses-record_use m a pk k remote r v = ground (
  arith,
  lookup-record_use a.ports pk k remote,
  has-add (set_of (lookup pk a.ports)) remote r (set_of-IsSorted a.mgr a.ports pk v.entries),
  port_key_eq_iff pk k,
)

-- A port that `GetPort` returns was not in use for the remote, is in use for it afterwards, and no
-- other use changes: for a valid adapter, a loop that visits entries of the map, and a system that
-- opens new ports.
pub get_port-uses :
    (os : OsReply) (order : GoMap PortKey AddrSet) (a : Adapter) (proto : ℕ) (remote : AddrPort)
    (p : ℕ) (a' : Adapter)
    → IsValid a
    → Visits a.ports order
    → IsFresh os a proto
    → get_port os order a proto remote ≡ returns (ok p, a')
    → (uses a (port_key proto p) remote ≡ false)
      × ((k : PortKey) (r : AddrPort)
          → uses a' k r ≡ (((port_key proto p == k) && (remote == r)) || uses a k r))
get_port-uses os order a proto remote p a' v visits fresh e =
    elim (get_port_cases os order a proto remote (ok p) a' e) [
      | inl (x, failed, same) ↦ absurd (ground arith)
      | inr (q, m, got, eq, source) ↦
          let at : p ≡ q = ground arith in
          (
            subst (λ n. uses a (port_key proto n) remote ≡ false) (sym at)
                (Source-unused os order a proto remote q m v visits fresh source),
            λ k r. rw (eq, at) (uses-record_use m a (port_key proto q) k remote r v),
          )
    ]
