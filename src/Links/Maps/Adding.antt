-- ===== src/Links/Maps/Adding.antt =====
-- links/maps/maps.go, Add: the manager with one more link.
use fatun.Base.{
  ℕ, ◌*◌, ◌^◌, ◌<◌, ◌≡◌, ◌≢◌, refl, sym, ap, ◌∙◌, subst, ◌⊎◌, inl, inr, true, false, ◌&&◌, ◌||◌,
  none, some, List, [], ◌∷◌, ◌++◌, arith, ◌==◌, ok, returns, Bool-cases, Run-cases, Fallible-cases,
  if◌then◌else◌,
}
use fatun.Base.Maps.{GoMap, lookup, insert, lookup-insert}
use fatun.Net.{AddrPort, addr_port_has_eq, addr_port_eq_iff}
use fatun.Ports.Adapter.{Adapter, PortKey, port_key, port_key_eq_iff, port_key_has_eq, get_port}
use fatun.Ports.Adapter.Invariant
use fatun.Ports.Adapter.Invariant.{Visits, get_port-IsValid}
use fatun.Ports.Adapter.Uses.{uses}
use fatun.Links.Heap.{Heap, put}
use fatun.Links.Heap.Refine
use fatun.Links.Heap.Refine.{contents, contents-put}
use fatun.Links.{Uplink, uplink_has_eq, uplink_eq_iff, downlink_has_eq, downlink_eq_iff}
use fatun.Links.Maps.{LinkManager, TtlKey, Env, no_key, down_of, add_link, new_port}
use fatun.Links.Maps.Registered.{reg, Words, Keys, Keys-insert, Keys-append, Apart}
use fatun.Links.Maps.Invariant.{IsLinked, IsValid, link_at}

-- The manager behind a successful `Add`.
abbrev pub with_link : LinkManager → Adapter → Heap TtlKey → Uplink → ℕ → ℕ → LinkManager
with_link t a q u conn p = record t {
  ap = a;
  uplink_map = insert u (new_port p) t.uplink_map;
  ttl = q;
  downlink_map =
      insert (down_of t.addr (link_at t.addr u p))
        (record { conn = conn; client_port = u.process.port }) t.downlink_map;
}

pub Apart-of_reg :
    (m : GoMap Uplink ℕ) (u : Uplink) (ks : List TtlKey) → reg m u ≡ none → Keys m ks → Apart u ks
Apart-of_reg m u [] r v = tt
Apart-of_reg m u (k ∷ ks) r v = (λ e. v.0 (ap (reg m) (sym e) ∙ r), Apart-of_reg m u ks r v.2)

-- What a successful `Add` leaves.
pub record Added (t : LinkManager) (u : Uplink) (conn p : ℕ) (t' : LinkManager) : Type 0 where
  pub valid : IsValid t'
  pub fixed : t'.addr ≡ t.addr
  pub registered : lookup u t'.uplink_map ≡ some (new_port p)
  pub back :
      lookup (down_of t.addr (link_at t.addr u p)) t'.downlink_map
      ≡ some (record { conn = conn; client_port = u.process.port })
  pub others : (w : Uplink) → w ≢ u → reg t'.uplink_map w ≡ reg t.uplink_map w
  pub ways :
      (w : Uplink) (n : ℕ)
      → reg t.uplink_map w ≡ some n
      → lookup (down_of t.addr (link_at t.addr w n)) t'.downlink_map
        ≡ lookup (down_of t.addr (link_at t.addr w n)) t.downlink_map

pub add_link_cases :
    (env : Env) (t : LinkManager) (u : Uplink) (conn p : ℕ) (t' : LinkManager) (q : Heap TtlKey)
    → put no_key t.ttl (record { up = u; start = env.now }) ≡ returns q
    → add_link env t u conn ≡ returns (ok p, t')
    → (a : Adapter) × (get_port env.os (env.order t.ap.ports) t.ap u.proto u.server
        ≡ returns (ok p, a))
      × (t' ≡ with_link t a q u conn p)
unfolding add_link
add_link_cases env t u conn p t' q queued ran =
    elim (Run-cases (get_port env.os (env.order t.ap.ports) t.ap u.proto u.server)) [
      | inl bad ↦ absurd (ground (arith, bad, ran))
      | inr ((out, a), got) ↦ elim (Fallible-cases out) [
        | inl (x, good) ↦
            let same : x ≡ p = ground (arith, got, good, queued, ran) in
            (
              a,
              got ∙ ap (λ o. returns (o, a)) (good ∙ ap ok same),
              ground (arith, got, good, queued, ran),
            )
        | inr (e, failed) ↦ absurd (ground (arith, got, failed, ran))
      ]
    ]

pub reg-new_port :
    (m : GoMap Uplink ℕ) (u w : Uplink) (p : ℕ)
    → reg (insert u (new_port p) m) w ≡ (if u == w then some p else reg m w)
unfolding new_port
reg-new_port m u w p = ground (arith, lookup-insert u w (p * 2 ^ 48) m)

pub Words-new_port :
    (m : GoMap Uplink ℕ) (u : Uplink) (p : ℕ)
    → p < 2 ^ 16
    → Words m
    → Words (insert u (new_port p) m)
unfolding new_port
Words-new_port m u p small v w d e = ground (arith, lookup-insert u w (p * 2 ^ 48) m, v w d, e)

module _ (t : LinkManager) (a : Adapter) (q : Heap TtlKey) (u : Uplink) (conn p : ℕ) (v : IsValid t)
    (small : u.proto < 256) (unused : uses t.ap (port_key u.proto p) u.server ≡ false)
    (changed : (k : PortKey) (r : AddrPort)
      → uses a k r ≡ (((port_key u.proto p == k) && (u.server == r)) || uses t.ap k r)) where
  -- No registered link shares the new port for the same server.
  not_taken :
      (w : Uplink) (n : ℕ)
      → reg t.uplink_map w ≡ some n
      → ¬ ((w.proto ≡ u.proto) × (n ≡ p) × (w.server ≡ u.server))
  not_taken w n r (e, f, g) =
      let held : uses t.ap (port_key w.proto n) w.server ≡ true = (v.links w n r).used in
      absurd (ground (arith, held, unused, e, f, g))

  other_way :
      (w : Uplink) (n : ℕ)
      → reg t.uplink_map w ≡ some n
      → (down_of t.addr (link_at t.addr u p) == down_of t.addr (link_at t.addr w n)) ≡ false
  other_way w n r =
      elim (Bool-cases
        (down_of t.addr (link_at t.addr u p) == down_of t.addr (link_at t.addr w n))) [
          | inl y ↦ absurd (not_taken w n r (ground (arith, addr_port_eq_iff u.server w.server)))
          | inr no_way ↦ no_way
        ]

  new_linked : IsLinked (with_link t a q u conn p) u p
  new_linked = record {
    proto_in = small;
    conn = conn;
    back = ground (
      arith,
      lookup-insert (down_of t.addr (link_at t.addr u p)) (down_of t.addr (link_at t.addr u p))
          (record { conn = conn; client_port = u.process.port }) t.downlink_map,
      downlink_eq_iff (down_of t.addr (link_at t.addr u p)) (down_of t.addr (link_at t.addr u p)),
    );
    used = ground (
      arith,
      changed (port_key u.proto p) u.server,
      port_key_eq_iff (port_key u.proto p) (port_key u.proto p),
      addr_port_eq_iff u.server u.server,
    );
  }

  old_linked :
      (w : Uplink) (n : ℕ) → reg t.uplink_map w ≡ some n → IsLinked (with_link t a q u conn p) w n
  old_linked w n r =
      let old = v.links w n r in
      record {
        proto_in = old.proto_in;
        conn = old.conn;
        back =
            lookup-insert (down_of t.addr (link_at t.addr u p))
              (down_of t.addr (link_at t.addr w n))
              (record { conn = conn; client_port = u.process.port }) t.downlink_map
            ∙ rw (other_way w n r) old.back;
        used = ground (arith, changed (port_key w.proto n) w.server, old.used);
      }

  -- A registration of the new map is the new link or an old one.
  reg_cases :
      (w : Uplink) (n : ℕ)
      → reg (with_link t a q u conn p).uplink_map w ≡ some n
      → ((w ≡ u) × (n ≡ p)) ⊎ (reg t.uplink_map w ≡ some n)
  reg_cases w n r = elim (Bool-cases (u == w)) [
    | inl same ↦
        inl (ground (arith, uplink_eq_iff u w), ground (arith, reg-new_port t.uplink_map u w p, r))
    | inr other ↦ inr (ground (arith, reg-new_port t.uplink_map u w p, r))
  ]

  all_linked :
      (w : Uplink) (n : ℕ)
      → reg (with_link t a q u conn p).uplink_map w ≡ some n
      → IsLinked (with_link t a q u conn p) w n
  all_linked w n r = elim (reg_cases w n r) [
    | inl (same, at) ↦ rw (same, at) new_linked
    | inr old ↦ old_linked w n old
  ]

  all_alone :
      (w x : Uplink) (n : ℕ)
      → reg (with_link t a q u conn p).uplink_map w ≡ some n
      → reg (with_link t a q u conn p).uplink_map x ≡ some n
      → w.proto ≡ x.proto
      → w.server ≡ x.server
      → w ≡ x
  all_alone w x n r s e f = elim (reg_cases w n r) [
    | inl (w_new, at) ↦ elim (reg_cases x n s) [
      | inl (x_new, _) ↦ w_new ∙ sym x_new
      | inr old ↦ absurd (not_taken x n old (ground arith, at, ground arith))
    ]
    | inr w_old ↦ elim (reg_cases x n s) [
      | inl (x_new, at) ↦ absurd (not_taken w n w_old (ground arith, at, ground arith))
      | inr x_old ↦ v.alone w x n w_old x_old e f
    ]
  ]

  pub with_link-Added :
      (now : ℕ)
      → p < 2 ^ 16
      → reg t.uplink_map u ≡ none
      → Invariant.IsValid a
      → Refine.IsValid q
      → contents no_key q ≡ contents no_key t.ttl ++ record { up = u; start = now } ∷ []
      → Added t u conn p (with_link t a q u conn p)
  unfolding new_linked
  with_link-Added now word unreg adapter ring more = record {
    valid = record {
      adapter = adapter;
      ring = ring;
      keys = subst (Keys (insert u (new_port p) t.uplink_map)) (sym more) (
          Keys-append (insert u (new_port p) t.uplink_map) (contents no_key t.ttl)
            (record { up = u; start = now })
            (Keys-insert t.uplink_map u (new_port p) (contents no_key t.ttl) v.keys)
            (λ e. ground (arith, registered_now, e))
            (Apart-of_reg t.uplink_map u (contents no_key t.ttl) unreg v.keys));
      words = Words-new_port t.uplink_map u p word v.words;
      links = all_linked;
      alone = all_alone;
    };
    fixed = refl;
    registered = ground (arith, lookup-insert u u (new_port p) t.uplink_map, uplink_eq_iff u u);
    back = new_linked.back;
    others = λ w ne.
        ground
          (arith, reg-new_port t.uplink_map u w p, uplink_eq_iff u w, λ (e : u ≡ w). ne (sym e));
    ways = λ w n r. ground (
      arith,
      other_way w n r,
      lookup-insert (down_of t.addr (link_at t.addr u p)) (down_of t.addr (link_at t.addr w n))
          (record { conn = conn; client_port = u.process.port }) t.downlink_map,
    );
  }
    where
      registered_now : reg (insert u (new_port p) t.uplink_map) u ≡ some p
      registered_now = ground (arith, reg-new_port t.uplink_map u u p, uplink_eq_iff u u)
