-- ===== src/Links/Maps/Expiry.antt =====
-- links/maps/maps.go: `Cleanup` as a whole.
use fatun.Base.{
  ℕ, ◌≡◌, ◌≢◌, refl, sym, ap, ◌∙◌, ◌⊎◌, inl, inr, false, Option, none, some, List, [], ◌∷◌, arith,
  All, ◌==◌, Error, returns, Bool-cases,
}
use fatun.Base.Maps.{GoMap}
use fatun.Base.Maps.{lookup}
use fatun.Net.{AddrPort, addr_port_has_eq}
use fatun.Ports.Adapter.{PortKey, port_key, port_key_has_eq}
use fatun.Ports.Adapter.Uses.{uses}
use fatun.Links.Heap.{size}
use fatun.Links.{Uplink, Link, downlink_has_eq}
use fatun.Links.Maps.{LinkManager, down_of, drop_downlinks, cleanup, Sweep}
use fatun.Links.Maps.Sweeping.{sweep_lem}
use fatun.Links.Maps.Removed.{Swept, Gone, DistinctLinks, Others}
use fatun.Links.Maps.Registered.{reg}
use fatun.Links.Maps.Invariant.{IsLinked, IsValid, link_at}
use fatun.Links.Maps.Dropping.{
  holds, Untouched, DistinctUses, AllUsed, Freed, Unreachable, drop_ports_lem,
  lookup-drop_downlinks, drop_downlinks-Unreachable, holds_same, down_same,
}

module _ (t : LinkManager) (v : IsValid t) where
  clash :
      (u : Uplink) (p : ℕ) (l : Link)
      → reg t.uplink_map u ≡ some p
      → reg t.uplink_map l.uplink ≡ some l.local.port
      → l.uplink ≢ u
      → ¬ ((l.uplink.proto ≡ u.proto) × (l.local.port ≡ p) × (l.uplink.server ≡ u.server))
  clash u p l ru rl ne (a, b, c) = ne (v.alone l.uplink u p (rl ∙ ap some b) ru a c)

  -- Two registered links share a port for one server, or a way back, only if they are one.
  holds_apart :
      (u : Uplink) (p : ℕ) (l : Link)
      → reg t.uplink_map u ≡ some p
      → reg t.uplink_map l.uplink ≡ some l.local.port
      → l.uplink ≢ u
      → holds (port_key u.proto p) u.server l ≡ false
  holds_apart u p l ru rl ne = elim (Bool-cases (holds (port_key u.proto p) u.server l)) [
    | inl y ↦ absurd (
        clash u p l ru rl ne (
          holds_same u.proto p u.server l ((v.links u p ru).proto_in)
            ((v.links l.uplink l.local.port rl).proto_in) y))
    | inr n ↦ n
  ]

  down_apart :
      (u : Uplink) (p : ℕ) (l : Link)
      → reg t.uplink_map u ≡ some p
      → reg t.uplink_map l.uplink ≡ some l.local.port
      → l.uplink ≢ u
      → (down_of t.addr l == down_of t.addr (link_at t.addr u p)) ≡ false
  down_apart u p l ru rl ne =
      elim (Bool-cases (down_of t.addr l == down_of t.addr (link_at t.addr u p))) [
        | inl y ↦ absurd (clash u p l ru rl ne (down_same t.addr u p l y))
        | inr n ↦ n
      ]

  AllUsed-of_Gone : (m : GoMap Uplink ℕ) (ls : List Link) → Gone t.uplink_map m ls → AllUsed t.ap ls
  AllUsed-of_Gone m [] g = tt
  AllUsed-of_Gone m (l ∷ ls) g =
      ((v.links l.uplink l.local.port g.0.0).used, AllUsed-of_Gone m ls g.1)

  Untouched-of_Others :
      (m : GoMap Uplink ℕ) (ls : List Link) (u : Uplink) (p : ℕ)
      → reg t.uplink_map u ≡ some p
      → Others u ls
      → Gone t.uplink_map m ls
      → Untouched (port_key u.proto p) u.server ls
        × All (λ l. (down_of t.addr l == down_of t.addr (link_at t.addr u p)) ≡ false) ls
  Untouched-of_Others m [] u p r o g = (tt, tt)
  Untouched-of_Others m (l ∷ ls) u p r o g =
      let (a, b) = Untouched-of_Others m ls u p r o.1 g.1 in
      ((holds_apart u p l r g.0.0 o.0, a), (down_apart u p l r g.0.0 o.0, b))

  DistinctUses-of_Gone :
      (m : GoMap Uplink ℕ) (ls : List Link)
      → Gone t.uplink_map m ls
      → DistinctLinks ls
      → DistinctUses ls
  DistinctUses-of_Gone m [] g d = tt
  DistinctUses-of_Gone m (l ∷ ls) g d = (
    (Untouched-of_Others m ls l.uplink l.local.port g.0.0 d.0 g.1).0,
    DistinctUses-of_Gone m ls g.1 d.1,
  )

  Others-of_reg :
      (m : GoMap Uplink ℕ) (ls : List Link) (u : Uplink)
      → reg m u ≢ none
      → Gone t.uplink_map m ls
      → Others u ls
  Others-of_reg m [] u r g = tt
  Others-of_reg m (l ∷ ls) u r g = (λ e. r (ap (reg m) (sym e) ∙ g.0.1), Others-of_reg m ls u r g.1)

  -- What `Cleanup` leaves of a link that is still registered.
  still_linked :
      (s : Sweep) (t' : LinkManager) (u : Uplink) (p : ℕ)
      → Swept t.uplink_map s
      → t'.addr ≡ t.addr
      → t'.downlink_map ≡ drop_downlinks t.addr s.ls t.downlink_map
      → ((k : PortKey) (r : AddrPort) → Untouched k r s.ls → uses t'.ap k r ≡ uses t.ap k r)
      → reg s.ups u ≡ some p
      → (reg t.uplink_map u ≡ some p)
        × IsLinked t' u p
        × (lookup (down_of t.addr (link_at t.addr u p)) t'.downlink_map
            ≡ lookup (down_of t.addr (link_at t.addr u p)) t.downlink_map)
  still_linked s t' u p swept same_addr downs kept r =
      let there : reg t.uplink_map u ≡ some p = was_reg in
      let old = v.links u p there in
      let others = Others-of_reg s.ups s.ls u (λ e. ground arith) swept.gone in
      let (apart, backs) = Untouched-of_Others s.ups s.ls u p there others swept.gone in
      let way =
        lookup-drop_downlinks t.addr s.ls (down_of t.addr (link_at t.addr u p)) t.downlink_map
          backs in
      (
        there,
        record {
          proto_in = old.proto_in;
          conn = old.conn;
          back = rw (same_addr, downs) (way ∙ old.back);
          used = kept (port_key u.proto p) u.server apart ∙ old.used;
        },
        rw downs way,
      )
    where
      was_reg : reg t.uplink_map u ≡ some p
      was_reg = elim (swept.kept u) [ inl lost ↦ ground (arith, lost, r) | inr same ↦ sym same ∙ r ]

-- What a `Cleanup` that returns has done.
pub record Cleaned (t : LinkManager) (ls : List Link) (t' : LinkManager) : Type 0 where
  pub valid : IsValid t'
  pub fixed : (t'.addr ≡ t.addr) × (t'.duration ≡ t.duration)
  pub kept :
      (u : Uplink) → (reg t'.uplink_map u ≡ none) ⊎ (reg t'.uplink_map u ≡ reg t.uplink_map u)
  pub ways :
      (u : Uplink) (p : ℕ)
      → reg t'.uplink_map u ≡ some p
      → lookup (down_of t.addr (link_at t.addr u p)) t'.downlink_map
        ≡ lookup (down_of t.addr (link_at t.addr u p)) t.downlink_map
  pub gone : Gone t.uplink_map t'.uplink_map ls
  pub unreachable : Unreachable t.addr t'.downlink_map ls
  pub freed : Freed t'.ap ls

-- `Cleanup` of a valid manager returns and does not panic; what it leaves is valid, each link it
-- returns was registered, and is no longer: it has no way back and uses no port. Every other
-- registration is as before or ended.
pub cleanup_lem :
    (close : ℕ → Option Error) (clock : ℕ → ℕ) (t : LinkManager)
    → IsValid t
    → (ls : List Link) × (t' : LinkManager) × (cleanup close clock t ≡ returns (ls, t'))
      × Cleaned t ls t'
unfolding cleanup
cleanup_lem close clock t v =
    let start : Sweep = record { ups = t.uplink_map; queue = t.ttl; ls = [] } in
    let (s, ran, swept) =
      sweep_lem (size t.ttl) 0 t.uplink_map t.addr t.duration clock start (record {
        ring = v.ring;
        keys = v.keys;
        words = v.words;
        kept = λ u. inr refl;
        gone = tt;
        distinct = tt;
      }) in
    let (ap', ran', valid, uses_kept, freed) =
      drop_ports_lem close s.ls t.ap v.adapter (AllUsed-of_Gone t v s.ups s.ls swept.gone)
        (DistinctUses-of_Gone t v s.ups s.ls swept.gone swept.distinct) in
    let t' : LinkManager = record t {
      ap = ap';
      uplink_map = s.ups;
      ttl = s.queue;
      downlink_map = drop_downlinks t.addr s.ls t.downlink_map;
    } in
    let links = λ (u : Uplink) (p : ℕ) (r : reg s.ups u ≡ some p).
      still_linked t v s t' u p swept refl refl uses_kept r in
    (
      s.ls,
      t',
      rw (ran, ran'),
      record {
        valid = record {
          adapter = valid;
          ring = swept.ring;
          keys = swept.keys;
          words = swept.words;
          links = λ u p r. (links u p r).1;
          alone = λ u w p r q. v.alone u w p ((links u p r).0) ((links w p q).0);
        };
        fixed = (refl, refl);
        kept = swept.kept;
        ways = λ u p r. (links u p r).2;
        gone = swept.gone;
        unreachable = drop_downlinks-Unreachable t.addr s.ls t.downlink_map;
        freed = freed;
      },
    )
