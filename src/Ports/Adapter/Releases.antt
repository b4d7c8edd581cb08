-- ===== src/Ports/Adapter/Releases.antt =====
-- ports/adapter.go, DelPort: which ports are used and open afterwards.
use fatun.Ports.Adapter.Uses.{uses}
use fatun.Base.{
  ℕ, ◌<◌, ◌≡◌, ◌≢◌, refl, sym, ap, ◌∙◌, ◌⊎◌, inl, inr, true, false, not, ◌&&◌, ◌||◌, Option, none,
  some, List, ◌∷◌, [], arith, Error, returns, Bool-cases, Option-cases, if◌then◌else◌, ◌=ᵇ◌, ◌==◌,
}
use fatun.Base.Maps.{lookup, insert, delete, lookup-insert, lookup-delete}
use fatun.Net.{AddrPort, addr_port_has_eq, tcp_number, udp_number}
use fatun.Ports.AddrSet.{AddrSet, del, size}
use fatun.Ports.AddrSet.Laws.{has-del, del-IsSorted}
use fatun.Ports.AddrSet.Sizes.{has-empty, size-pos_of_has}
use fatun.Ports.Manager.{Manager, socket, del_tcp_port, del_udp_port}
use fatun.Ports.Manager.Laws.{is_open, is_open-del_tcp_port, is_open-del_udp_port}
use fatun.Ports.Adapter.{
  PortKey, port_key, port_key_eq_iff, port_key_has_eq, Adapter, free_port, del_port,
}
use fatun.Ports.Adapter.Invariant.{AreGood, IsValid}

-- What `DelPort` does to an entry that is there.
abbrev pub Freed : (ℕ → Option Error) → Adapter → ℕ → ℕ → AddrPort → AddrSet → Adapter → Type 0
Freed close a proto port remote s a' =
    ((size (del s remote) ≡ 0)
      × (a' ≡ record {
        mgr = (free_port close a.mgr proto port).1;
        ports = delete (port_key proto port) a.ports;
      }))
    ⊎ ((0 < size (del s remote))
        × (a' ≡ record a { ports = insert (port_key proto port) (del s remote) a.ports }))

pub del_port_cases :
    (close : ℕ → Option Error) (a : Adapter) (proto port : ℕ) (remote : AddrPort) (s : AddrSet)
    → lookup (port_key proto port) a.ports ≡ some s
    → (e : Option Error) × (a' : Adapter) × (ls : List ℕ) × (del_port close a proto port remote
        ≡ returns (e, a', ls))
      × Freed close a proto port remote s a'
unfolding del_port
del_port_cases close a proto port remote s found = elim (Bool-cases (size (del s remote) =ᵇ 0)) [
  | inl last ↦ (
    (free_port close a.mgr proto port).0,
    record {
      mgr = (free_port close a.mgr proto port).1;
      ports = delete (port_key proto port) a.ports;
    },
    (free_port close a.mgr proto port).2,
    rw (found, del_port) (rw last),
    inl (ground arith, refl),
  )
  | inr more ↦ (
    none,
    record a { ports = insert (port_key proto port) (del s remote) a.ports },
    [],
    rw (found, del_port) (rw more),
    inr (ground arith, refl),
  )
]

-- Which sockets `free_port` closes.
pub is_open-free_port :
    (close : ℕ → Option Error) (m : Manager) (proto port q r : ℕ)
    → is_open (free_port close m proto port).1 q r ≡ (
        if ((q =ᵇ tcp_number) || (q =ᵇ udp_number)) && ((proto =ᵇ q) && (port =ᵇ r))
        then false
        else is_open m q r)
unfolding free_port
is_open-free_port close m proto port q r =
    ground (arith, is_open-del_tcp_port close m port q r, is_open-del_udp_port close m port q r)

module _ (close : ℕ → Option Error) (a : Adapter) (proto port : ℕ) (remote : AddrPort) (s : AddrSet)
    (v : IsValid a) (found : lookup (port_key proto port) a.ports ≡ some s) where
  Freed-entries : (a' : Adapter) → Freed close a proto port remote s a' → AreGood a'.mgr a'.ports
  Freed-entries a' (inl (last, eq)) k t at =
      let old : lookup k a.ports ≡ some t =
        ground (arith, eq, lookup-delete (port_key proto port) k a.ports) in
      let good = v.entries k t old in
      record {
        sorted = good.sorted;
        used = good.used;
        opened = ground (
          arith,
          eq,
          lookup-delete (port_key proto port) k a.ports,
          port_key_eq_iff (port_key proto port) k,
          is_open-free_port close a.mgr proto port k.proto k.local_port,
          good.opened,
        );
      }
  Freed-entries a' (inr (more, eq)) k t at = elim (Bool-cases (port_key proto port == k)) [
    | inl same ↦
        let good = v.entries (port_key proto port) s found in
        let put = lookup-insert (port_key proto port) k (del s remote) a.ports in
        record {
          sorted = ground (arith, eq, put, del-IsSorted s remote good.sorted);
          used = ground (arith, eq, put);
          opened = ground (arith, eq, good.opened, port_key_eq_iff (port_key proto port) k);
        }
    | inr other ↦
        let put = lookup-insert (port_key proto port) k (del s remote) a.ports in
        rw eq (v.entries k t (ground (arith, eq, put)))
  ]

  Freed-uses :
      (a' : Adapter)
      → Freed close a proto port remote s a'
      → (k : PortKey) (r : AddrPort)
      → uses a' k r ≡ (not ((port_key proto port == k) && (remote == r)) && uses a k r)
  unfolding uses
  Freed-uses a' (inl (last, eq)) k r = ground (
    arith,
    eq,
    lookup-delete (port_key proto port) k a.ports,
    port_key_eq_iff (port_key proto port) k,
    has-del s remote r (v.entries (port_key proto port) s found).sorted,
    size-pos_of_has (del s remote) r
        (del-IsSorted s remote (v.entries (port_key proto port) s found).sorted),
    has-empty r,
  )
  Freed-uses a' (inr (more, eq)) k r = ground (
    arith,
    eq,
    lookup-insert (port_key proto port) k (del s remote) a.ports,
    port_key_eq_iff (port_key proto port) k,
    has-del s remote r (v.entries (port_key proto port) s found).sorted,
  )

-- `DelPort` of a use that is there returns, keeps the invariant, ends that use and no other.
pub del_port-uses :
    (close : ℕ → Option Error) (a : Adapter) (proto port : ℕ) (remote : AddrPort)
    → IsValid a
    → uses a (port_key proto port) remote ≡ true
    → (e : Option Error) × (a' : Adapter) × (ls : List ℕ) × (del_port close a proto port remote
        ≡ returns (e, a', ls))
      × IsValid a'
      × ((k : PortKey) (r : AddrPort)
          → uses a' k r ≡ (not ((port_key proto port == k) && (remote == r)) && uses a k r))
unfolding uses
del_port-uses close a proto port remote v held =
    elim (Option-cases (lookup (port_key proto port) a.ports)) [
      | inl e ↦ absurd (ground (arith, has-empty remote))
      | inr (s, found) ↦
          let (e, a', ls, ran, freed) = del_port_cases close a proto port remote s found in
          (
            e,
            a',
            ls,
            ran,
            record { entries = Freed-entries close a proto port remote s v found a' freed },
            Freed-uses close a proto port remote s v found a' freed,
          )
    ]

-- A port of TCP or UDP that is open has a socket, and `free_port` closes it.
free_port-closes :
    (close : ℕ → Option Error) (m : Manager) (proto port : ℕ)
    → (proto ≡ tcp_number) ⊎ (proto ≡ udp_number)
    → is_open m proto port ≡ true
    → (l : ℕ) × (socket m proto port ≡ some l)
      × ((free_port close m proto port).0 ≡ close l)
      × ((free_port close m proto port).2 ≡ l ∷ [])
unfolding is_open socket free_port del_tcp_port del_udp_port
free_port-closes close m proto port known opened = elim (Option-cases (socket m proto port)) [
  | inl shut ↦ absurd (ground (arith, shut))
  | inr (l, held) ↦ (l, held, ground (arith, held), ground (arith, held))
]

key_of_known :
    (proto port : ℕ)
    → (proto ≡ tcp_number) ⊎ (proto ≡ udp_number)
    → (port_key proto port).proto ≡ proto
key_of_known proto port known = ground arith

-- What a call closes that ends the last use of a key, and one that does not.
abbrev pub Released :
    (ℕ → Option Error) → Adapter → ℕ → ℕ → Option Error → Adapter → List ℕ → Type 0
Released close a proto port e a' ls =
    ((lookup (port_key proto port) a'.ports ≡ none)
      × ((l : ℕ) × (socket a.mgr proto port ≡ some l) × (ls ≡ l ∷ []) × (e ≡ close l))
      × (is_open a'.mgr proto port ≡ false))
    ⊎ ((lookup (port_key proto port) a'.ports ≢ none) × (ls ≡ []) × (e ≡ none) × (a'.mgr ≡ a.mgr))

-- `DelPort` of a use of a TCP or UDP port that is there either ends the last use of its key: then the
-- call closes the one socket that held the port and no other, answers what closing it answers, and
-- the port is open no more; or the key has other uses: then it closes no socket, and has no error.
pub del_port-closes :
    (close : ℕ → Option Error) (a : Adapter) (proto port : ℕ) (remote : AddrPort) (e : Option Error)
    (a' : Adapter) (ls : List ℕ)
    → IsValid a
    → uses a (port_key proto port) remote ≡ true
    → (proto ≡ tcp_number) ⊎ (proto ≡ udp_number)
    → del_port close a proto port remote ≡ returns (e, a', ls)
    → Released close a proto port e a' ls
unfolding del_port uses
del_port-closes close a proto port remote e a' ls v held known ran =
    elim (Option-cases (lookup (port_key proto port) a.ports)) [
      | inl missing ↦ absurd (ground (arith, has-empty remote))
      | inr (s, found) ↦
          let opened : is_open a.mgr proto port ≡ true =
            ap (λ n. is_open a.mgr n port) (sym (key_of_known proto port known))
            ∙ (v.entries (port_key proto port) s found).opened in
          let (l, at, closed, one) = free_port-closes close a.mgr proto port known opened in
          elim (Bool-cases (size (del s remote) =ᵇ 0)) [
            | inl last ↦ inl (
              ground (
                arith,
                found,
                last,
                ran,
                lookup-delete (port_key proto port) (port_key proto port) a.ports,
              ),
              (
                l,
                at,
                ground (arith, found, last, ran, one),
                ground (arith, found, last, ran, closed),
              ),
              ground (arith, found, last, ran, is_open-free_port close a.mgr proto port proto port),
            )
            | inr more ↦ inr (
              ground (
                arith,
                found,
                more,
                ran,
                lookup-insert (port_key proto port) (port_key proto port) (del s remote) a.ports,
              ),
              ground (arith, found, more, ran),
              ground (arith, found, more, ran),
              ground (arith, found, more, ran),
            )
          ]
    ]
