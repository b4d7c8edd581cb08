-- ===== src/Links/Maps/Sweeping.antt =====
-- links/maps/maps.go: the first loop of `Cleanup`.
use fatun.Base.{
  ℕ, zero, suc, ◌+◌, ◌-◌, ◌*◌, ◌/◌, ◌%◌, ◌^◌, ◌<◌, ◌≡◌, refl, sym, ap, ap₂, ◌∙◌, subst, ◌⊎◌, inl,
  inr, Bool, true, false, ◌&&◌, none, some, [], ◌∷◌, ◌++◌, arith, returns, Bool-cases, Option-cases,
  ltb, ◌==◌, ◌=ᵇ◌,
}
use fatun.Base.Maps.{GoMap, lookup, insert, delete, lookup-delete}
use fatun.Net.{Addr}
use fatun.Links.Heap.{pop, size}
use fatun.Links.Heap.Refine.{contents}
use fatun.Links.Heap.Popping.{contents-pop, contents-cons}
use fatun.Links.{Uplink, Link, uplink_eq_iff, uplink_has_eq}
use fatun.Links.Maps.{TtlKey, no_key, ttl_valid, idle, port, Sweep, sweep_key, sweep}
use fatun.Links.Maps.Registered.{reg, Keys, Keys-delete}
use fatun.Links.Maps.Removed.{
  Swept, Popped, requeue, Gone-weaken, touch, Gone-append, Others-of_Gone, DistinctLinks-append,
}

port-idle : (d : ℕ) → d < 2 ^ 64 → (port (d / 2 ^ 48 * 2 ^ 48)).0 ≡ d / 2 ^ 48
unfolding port
port-idle d h = omega arith

abbrev link_of : Addr → TtlKey → ℕ → Link
link_of addr k d = record {
  uplink = k.up;
  local = record { addr = addr; port = (port (d / 2 ^ 48 * 2 ^ 48)).0 };
}

reg-delete_self : (m : GoMap Uplink ℕ) (u : Uplink) → reg (delete u m) u ≡ none
reg-delete_self m u = ground (arith, lookup-delete u u m, uplink_eq_iff u u)

reg-delete-none : (m : GoMap Uplink ℕ) (k u : Uplink) → reg m u ≡ none → reg (delete k m) u ≡ none
reg-delete-none m k u e = ground (arith, lookup-delete k u m, e)

reg-delete_kept :
    (old m : GoMap Uplink ℕ) (k u : Uplink)
    → (reg m u ≡ none) ⊎ (reg m u ≡ reg old u)
    → (reg (delete k m) u ≡ none) ⊎ (reg (delete k m) u ≡ reg old u)
reg-delete_kept old m k u h = elim (Bool-cases (k == u)) [
  | inl same ↦ inl (ground (arith, lookup-delete k u m))
  | inr other ↦ let e : reg (delete k m) u ≡ reg m u = ground (arith, lookup-delete k u m) in rw e h
]

-- Removing an idle link.
remove :
    (old : GoMap Uplink ℕ) (addr : Addr) (k : TtlKey) (s : Sweep) (d : ℕ)
    → lookup k.up s.ups ≡ some d
    → Popped old k s
    → Swept old (record s { ups = delete k.up s.ups; ls = s.ls ++ link_of addr k d ∷ [] })
remove old addr k s d found v = record {
  ring = v.ring;
  keys = Keys-delete s.ups k.up (contents no_key s.queue) v.keys.1 v.keys.2;
  words = λ u w e. v.words u w (ground (arith, lookup-delete k.up u s.ups, e));
  kept = λ u. reg-delete_kept old s.ups k.up u (v.kept u);
  gone =
      Gone-append old (delete k.up s.ups) s.ls (link_of addr k d)
        (Gone-weaken old s.ups (delete k.up s.ups) s.ls (reg-delete-none s.ups k.up) v.gone)
        was_there (reg-delete_self s.ups k.up);
  distinct =
      DistinctLinks-append s.ls (link_of addr k d) v.distinct
        (Others-of_Gone old s.ups s.ls k.up v.gone v.keys.0);
}
  where
    here : reg s.ups k.up ≡ some (d / 2 ^ 48)
    here = ground (arith, found)

    was_there : reg old k.up ≡ some ((port (d / 2 ^ 48 * 2 ^ 48)).0)
    was_there = elim (v.kept k.up) [
      | inl lost ↦ absurd (v.keys.0 lost)
      | inr same ↦ sym same ∙ (here ∙ ap some (sym (port-idle d (v.words k.up d found))))
    ]

-- One round keeps the invariant and cannot panic.
sweep_key_lem :
    (old : GoMap Uplink ℕ) (addr : Addr) (duration now : ℕ) (k : TtlKey) (s : Sweep)
    → Popped old k s
    → (s' : Sweep) × (more : Bool) × (sweep_key addr duration now k s ≡ returns (s', more))
      × Swept old s'
unfolding sweep_key idle
sweep_key_lem old addr duration now k s v =
    elim (Bool-cases (ttl_valid k && ltb duration (now - k.start))) [
      | inl expired ↦ elim (Option-cases (lookup k.up s.ups)) [
        | inl lost ↦ absurd (v.keys.0 (ground (arith, lost)))
        | inr (d, found) ↦ elim (Bool-cases ((d % 2 ^ 48) =ᵇ 0)) [
          | inl unused ↦ (
            record s { ups = delete k.up s.ups; ls = s.ls ++ link_of addr k d ∷ [] },
            true,
            rw (expired, found, sweep_key) (rw unused),
            remove old addr k s d found v,
          )
          | inr busy ↦
              let t = record s { ups = insert k.up (d / 2 ^ 48 * 2 ^ 48) s.ups } in
              let (q, ran, swept) = requeue old k t now (touch old k s d found v) in
              (record t { queue = q }, true, rw (expired, found, sweep_key) (rw (busy, ran)), swept)
        ]
      ]
      | inr fresh ↦
          let (q, ran, swept) = requeue old k s now v in
          (record s { queue = q }, false, rw (fresh, ran), swept)
    ]

-- A `Pop` from a queue that is not empty.
popped :
    (old : GoMap Uplink ℕ) (s : Sweep)
    → 0 < size s.queue
    → Swept old s
    → Popped old (pop no_key s.queue).0 (record s { queue = (pop no_key s.queue).1 })
popped old s pos v =
    let (ring, first, rest) = contents-pop no_key s.queue v.ring in
    record {
      ring = ring;
      keys =
          subst (Keys s.ups) (contents-cons no_key s.queue pos ∙ ap₂ ◌∷◌ (sym first) (sym rest))
            v.keys;
      words = v.words;
      kept = v.kept;
      gone = v.gone;
      distinct = v.distinct;
    }

-- The loop cannot panic, and keeps the invariant.
pub sweep_lem :
    (fuel i : ℕ) (old : GoMap Uplink ℕ) (addr : Addr) (duration : ℕ) (clock : ℕ → ℕ) (s : Sweep)
    → Swept old s
    → (s' : Sweep) × (sweep fuel i addr duration clock s ≡ returns s') × Swept old s'
unfolding sweep
sweep_lem zero i old addr duration clock s v = (s, refl, v)
sweep_lem (suc fuel) i old addr duration clock s v = elim (Bool-cases (ltb i (size s.queue))) [
  | inl inside ↦
      let (s', more, ran, swept) =
        sweep_key_lem old addr duration (clock i) (pop no_key s.queue).0
          (record s { queue = (pop no_key s.queue).1 }) (popped old s (ground arith) v) in
      next s' more inside ran swept (sweep_lem fuel (i + 1) old addr duration clock s' swept)
  | inr over ↦ (s, rw over, v)
]
  where
    next :
        (s' : Sweep) (more : Bool)
        → ltb i (size s.queue) ≡ true
        → sweep_key addr duration
            (clock i)
            (pop no_key s.queue).0
            (record s { queue = (pop no_key s.queue).1 })
          ≡ returns (s', more)
        → Swept old s'
        → ((r : Sweep) × (sweep fuel (i + 1) addr duration clock s' ≡ returns r) × Swept old r)
        → (r : Sweep) × (sweep (suc fuel) i addr duration clock s ≡ returns r) × Swept old r
    next s' true inside ran swept (r, ran', v') = (r, rw (inside, ran) ran', v')
    next s' false inside ran swept later = (s', rw (inside, ran), swept)
