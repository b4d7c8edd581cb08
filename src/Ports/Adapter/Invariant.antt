-- ===== src/Ports/Adapter/Invariant.antt =====
-- ports/adapter.go: the invariant of an Adapter.
use fatun.Base.{
  ℕ, ◌%◌, ◌<◌, ◌≡◌, refl, ◌⊎◌, ◌≢◌, subst, inl, inr, Fallible, All, [], ◌∷◌, true, false, not, ◌&&◌,
  Option, none, some, arith, Error, ok, err, returns, Bool-cases, Option-cases, Fallible-cases,
  invalid_remote, if◌then◌else◌, ◌=ᵇ◌, ◌==◌, ◌∙◌,
}
use fatun.Base.Maps.{GoMap, lookup, lookup-insert}
use fatun.Net.{AddrPort, addr_port_is_valid}
use fatun.Ports.AddrSet.{AddrSet, has, add, size}
use fatun.Ports.AddrSet.Search.{IsSorted}
use fatun.Ports.AddrSet.Laws.{add-IsSorted}
use fatun.Ports.AddrSet.Sizes.{size-add_pos}
use fatun.Ports.Manager.{Manager, OsReply}
use fatun.Ports.Manager.Laws.{
  is_open, is_open-get_tcp_port, is_open-get_udp_port, get_tcp_port_failed, get_udp_port_failed,
  get_tcp_port-local_port, get_udp_port-local_port,
}
use fatun.Ports.Adapter.{
  PortKey, port_key, port_key_eq_iff, port_key_has_eq, Adapter, reuse, alloc, record_use, take_port,
  get_port, empty_set,
}

pub record IsGood (m : Manager) (k : PortKey) (s : AddrSet) : Type 0 where
  pub sorted : IsSorted s.addrs
  pub used : 0 < size s
  pub opened : is_open m k.proto k.local_port ≡ true

abbrev pub AreGood : Manager → GoMap PortKey AddrSet → Type 0
AreGood m ports = (k : PortKey) (s : AddrSet) → lookup k ports ≡ some s → IsGood m k s

pub record IsValid (a : Adapter) : Type 0 where
  pub entries : AreGood a.mgr a.ports

pub alloc-is_open :
    (os : OsReply) (m : Manager) (proto p q r : ℕ)
    → (alloc os m proto).0 ≡ ok p
    → is_open (alloc os m proto).1 q r
      ≡ (if (q =ᵇ proto % 256) && (p =ᵇ r) then true else is_open m q r)
unfolding alloc
alloc-is_open os m proto p q r h =
    ground (arith, is_open-get_tcp_port os m p q r, is_open-get_udp_port os m p q r)

pub alloc_failed :
    (os : OsReply) (m : Manager) (proto : ℕ) (e : Error)
    → (alloc os m proto).0 ≡ err e
    → (alloc os m proto).1 ≡ m
unfolding alloc
alloc_failed os m proto e h = ground (arith, get_tcp_port_failed os m e, get_udp_port_failed os m e)

pub alloc-local_port :
    (os : OsReply) (m : Manager) (proto p : ℕ) → (alloc os m proto).0 ≡ ok p → os.local_port ≡ ok p
unfolding alloc
alloc-local_port os m proto p h =
    ground (arith, get_tcp_port-local_port os m p, get_udp_port-local_port os m p)

-- The set of a key, empty if the map has none.
abbrev pub set_of : Option AddrSet → AddrSet
set_of none = empty_set
set_of (some s) = s

pub lookup-record_use :
    (ports : GoMap PortKey AddrSet) (pk k : PortKey) (remote : AddrPort)
    → lookup k (record_use ports pk remote)
      ≡ (if pk == k then some (add (set_of (lookup pk ports)) remote) else lookup k ports)
unfolding record_use
lookup-record_use ports pk k remote = elim (Option-cases (lookup pk ports)) [
  | inl e ↦ rw (e, record_use) (lookup-insert pk k _ ports)
  | inr (old, e) ↦ rw (e, record_use) (lookup-insert pk k _ ports)
]

pub set_of-IsSorted :
    (m : Manager) (ports : GoMap PortKey AddrSet) (pk : PortKey)
    → AreGood m ports
    → IsSorted (set_of (lookup pk ports)).addrs
set_of-IsSorted m ports pk good = elim (Option-cases (lookup pk ports)) [
  | inl e ↦ rw e tt
  | inr (old, e) ↦ rw e ((good pk old e).sorted)
]

-- Recording a use of an open port keeps the entries good.
pub record_use-AreGood :
    (m : Manager) (ports : GoMap PortKey AddrSet) (pk : PortKey) (remote : AddrPort)
    → is_open m pk.proto pk.local_port ≡ true
    → AreGood m ports
    → AreGood m (record_use ports pk remote)
record_use-AreGood m ports pk remote held good k s found =
    let sorted = set_of-IsSorted m ports pk good in
    elim (Bool-cases (pk == k)) [
      | inl same ↦ record {
        sorted = ground (
          arith,
          lookup-record_use ports pk k remote,
          add-IsSorted (set_of (lookup pk ports)) remote sorted,
        );
        used = ground (
          arith,
          lookup-record_use ports pk k remote,
          size-add_pos (set_of (lookup pk ports)) remote sorted,
        );
        opened = ground (arith, port_key_eq_iff pk k);
      }
      | inr other ↦ good k s (ground (arith, lookup-record_use ports pk k remote))
    ]

AreGood-alloc :
    (os : OsReply) (m : Manager) (ports : GoMap PortKey AddrSet) (proto p : ℕ)
    → (alloc os m proto).0 ≡ ok p
    → AreGood m ports
    → AreGood (alloc os m proto).1 ports
AreGood-alloc os m ports proto p got good k s found =
    let v = good k s found in
    record {
      sorted = v.sorted;
      used = v.used;
      opened = ground (arith, alloc-is_open os m proto p k.proto k.local_port got, v.opened);
    }

-- The visiting order of a range loop: every pair visited is an entry of the map.
abbrev pub Visits : GoMap PortKey AddrSet → GoMap PortKey AddrSet → Type 0
Visits ports = All (λ (e : PortKey × AddrSet). lookup e.0 ports ≡ some e.1)

reuse_skips :
    (k : PortKey) (s : AddrSet) (rest : GoMap PortKey AddrSet) (proto : ℕ) (remote : AddrPort)
    → ((k.proto =ᵇ proto % 256) && not (has s remote)) ≡ false
    → reuse ((k, s) ∷ rest) proto remote ≡ reuse rest proto remote
unfolding reuse
reuse_skips k s rest proto remote miss = ground arith

-- A port to reuse stands in the map under the protocol, and its set lacks the remote.
pub reuse_found :
    (ports order : GoMap PortKey AddrSet) (proto : ℕ) (remote : AddrPort)
    → Visits ports order
    → reuse order proto remote ≢ 0
    → (s : AddrSet) × (lookup (port_key proto (reuse order proto remote)) ports ≡ some s)
      × (has s remote ≡ false)
unfolding reuse
reuse_found ports [] proto remote v ne = absurd (ne refl)
reuse_found ports ((k, s) ∷ rest) proto remote v ne =
    elim (Bool-cases ((k.proto =ᵇ proto % 256) && not (has s remote))) [
      | inl hit ↦ (s, hit_key hit, ground arith)
      | inr miss ↦
          let same = reuse_skips k s rest proto remote miss in
          let (t, at, lacks) = reuse_found ports rest proto remote v.1 (λ e. ne (same ∙ e)) in
          (t, rw same at, lacks)
    ]
  where
    hit_key :
        ((k.proto =ᵇ proto % 256) && not (has s remote)) ≡ true
        → lookup (port_key proto (reuse ((k, s) ∷ rest) proto remote)) ports ≡ some s
    hit_key hit = subst (λ j. lookup j ports ≡ some s) (ground arith) v.0

-- How `GetPort` came by a port: it is one of the map, or a new one that the manager opened.
abbrev pub Source : OsReply → GoMap PortKey AddrSet → Adapter → ℕ → AddrPort → ℕ → Manager → Type 0
Source os order a proto remote p m =
    ((p ≡ reuse order proto remote) × (reuse order proto remote ≢ 0) × (m ≡ a.mgr))
    ⊎ ((reuse order proto remote ≡ 0)
        × ((alloc os a.mgr proto).0 ≡ ok p)
        × (m ≡ (alloc os a.mgr proto).1))

-- What a returning `GetPort` has done: nothing, with an error, or the port is recorded.
abbrev pub Outcome :
    OsReply → GoMap PortKey AddrSet → Adapter → ℕ → AddrPort → Fallible ℕ → Adapter → Type 0
Outcome os order a proto remote out a' =
    ((e : Error) × (out ≡ err e) × (a' ≡ a))
    ⊎ ((p : ℕ) × (m : Manager) × (out ≡ ok p)
        × (a' ≡ record { mgr = m; ports = record_use a.ports (port_key proto p) remote })
        × Source os order a proto remote p m)

pub get_port_cases :
    (os : OsReply) (order : GoMap PortKey AddrSet) (a : Adapter) (proto : ℕ) (remote : AddrPort)
    (out : Fallible ℕ) (a' : Adapter)
    → get_port os order a proto remote ≡ returns (out, a')
    → Outcome os order a proto remote out a'
unfolding get_port take_port
get_port_cases os order a proto remote out a' e = elim (Bool-cases (addr_port_is_valid remote)) [
  | inl ok_remote ↦ elim (Bool-cases (reuse order proto remote =ᵇ 0)) [
    | inl fresh ↦ elim (Fallible-cases (alloc os a.mgr proto).0) [
      | inl (p, got) ↦
          inr
            (p, (alloc os a.mgr proto).1, ground arith, ground arith, inr (ground arith, got, refl))
      | inr (x, failed) ↦
          inl (x, ground arith, ground (arith, alloc_failed os a.mgr proto x failed))
    ]
    | inr old ↦ inr (
      reuse order proto remote,
      a.mgr,
      ground arith,
      ground arith,
      inl (refl, ground arith, refl),
    )
  ]
  | inr bad ↦ inl (invalid_remote, ground arith, ground arith)
]

Source-is_open :
    (os : OsReply) (order : GoMap PortKey AddrSet) (a : Adapter) (proto : ℕ) (remote : AddrPort)
    (p : ℕ) (m : Manager)
    → IsValid a
    → Visits a.ports order
    → Source os order a proto remote p m
    → (is_open m (proto % 256) p ≡ true) × AreGood m a.ports
Source-is_open os order a proto remote p m v visits (inl (at, ne, same)) =
    let (s, found, lacks) = reuse_found a.ports order proto remote visits ne in
    rw (at, same) ((v.entries _ s found).opened, v.entries)
Source-is_open os order a proto remote p m v visits (inr (none_old, got, opened)) = rw opened (
  ground (arith, alloc-is_open os a.mgr proto p (proto % 256) p got),
  AreGood-alloc os a.mgr a.ports proto p got v.entries,
)

-- A `GetPort` that returns keeps the invariant, whether it reuses a port, opens one or fails, when
-- its loop visits entries of the map.
pub get_port-IsValid :
    (os : OsReply) (order : GoMap PortKey AddrSet) (a : Adapter) (proto : ℕ) (remote : AddrPort)
    (out : Fallible ℕ) (a' : Adapter)
    → IsValid a
    → Visits a.ports order
    → get_port os order a proto remote ≡ returns (out, a')
    → IsValid a'
get_port-IsValid os order a proto remote out a' v visits e =
    elim (get_port_cases os order a proto remote out a' e) [
      | inl (x, failed, same) ↦ rw same v
      | inr (p, m, got, eq, source) ↦
          let (held, good) = Source-is_open os order a proto remote p m v visits source in
          rw eq
            (record { entries = record_use-AreGood m a.ports (port_key proto p) remote held good })
    ]
