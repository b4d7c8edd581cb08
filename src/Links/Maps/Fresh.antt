-- ===== src/Links/Maps/Fresh.antt =====
-- links/maps/maps.go, NewLinkManager: what a new manager is.
use fatun.Base.{ℕ, ◌≡◌, sym, subst, inl, inr, [], none, returns, Run-cases, arith}
use fatun.Base.Maps.{lookup}
use fatun.Net.{Addr}
use fatun.Ports.Adapter.{Adapter, new_adapter, port_key_has_eq}
use fatun.Links.{Uplink, uplink_has_eq}
use fatun.Ports.Adapter.Invariant
use fatun.Links.Heap.Fresh.{new_heap_lem}
use fatun.Links.Maps.{LinkManager, no_key, new_link_manager_on, new_link_manager}
use fatun.Links.Maps.Registered.{Keys, reg}
use fatun.Links.Maps.Invariant.{IsValid}

new_adapter-IsValid :
    (addr : Addr) (ap : Adapter) → new_adapter addr ≡ returns ap → Invariant.IsValid ap
unfolding new_adapter lookup
new_adapter-IsValid addr ap made = record { entries = λ k s e. absurd (ground (arith, made, e)) }

new_link_manager_on-IsValid :
    (ap : Adapter) (ttl : ℕ) → Invariant.IsValid ap → IsValid (new_link_manager_on ap ttl)
unfolding new_link_manager_on lookup
new_link_manager_on-IsValid ap ttl v =
    let (ring, none_yet) = new_heap_lem no_key 64 (omega arith) in
    record {
      adapter = v;
      ring = ring;
      keys = subst (λ ks. Keys [] ks) (sym none_yet) tt;
      words = λ s d e. absurd (ground arith);
      links = λ u p e. absurd (ground arith);
      alone = λ u w p e. absurd (ground arith);
    }

-- `NewLinkManager` makes valid links.
pub new_link_manager-IsValid :
    (ttl : ℕ) (addr : Addr) (t : LinkManager) → new_link_manager ttl addr ≡ returns t → IsValid t
unfolding new_link_manager
new_link_manager-IsValid ttl addr t made = elim (Run-cases (new_adapter addr)) [
  | inl bad ↦ absurd (ground (arith, bad, made))
  | inr (ap, good) ↦
      subst IsValid (ground (arith, good, made))
        (new_link_manager_on-IsValid ap ttl (new_adapter-IsValid addr ap good))
]

-- It has no uplinks.
pub new_link_manager-none :
    (ttl : ℕ) (addr : Addr) (t : LinkManager)
    → new_link_manager ttl addr ≡ returns t
    → (u : Uplink) → reg t.uplink_map u ≡ none
unfolding new_link_manager new_link_manager_on lookup
new_link_manager-none ttl addr t made u = elim (Run-cases (new_adapter addr)) [
  | inl bad ↦ absurd (ground (arith, bad, made))
  | inr (ap, good) ↦ ground (arith, good, made)
]
