-- ===== src/Links/Maps/Renewal.antt =====
-- links/maps/maps.go: `Cleanup` on a link that is not yet due.
use fatun.Base.{
  ℕ, suc, ◌-◌, ◌<◌, ◌≡◌, ap, ◌∙◌, false, ◌&&◌, Option, List, [], ◌∷◌, ◌++◌, arith, Error, returns,
  ltb, lt→ltb, ◌>>=◌,
}
use fatun.Links.Heap.{Heap, put, pop, size}
use fatun.Links.Heap.Refine
use fatun.Links.Heap.Refine.{contents, queue_head, queue_tail, contents-put}
use fatun.Links.Heap.Popping.{contents-pop}
use fatun.Links.Maps.{
  LinkManager, TtlKey, no_key, ttl_valid, sweep_key, sweep, drop_ports, drop_downlinks, cleanup,
}

sweep_stops :
    (t : LinkManager) (fuel : ℕ) (clock : ℕ → ℕ) (k : TtlKey) (q : Heap TtlKey)
    → 0 < size t.ttl
    → (pop no_key t.ttl).0 ≡ k
    → (ttl_valid k && ltb t.duration (clock 0 - k.start)) ≡ false
    → put no_key (pop no_key t.ttl).1 (record { up = k.up; start = clock 0 }) ≡ returns q
    → sweep
        (suc fuel)
        0
        t.addr
        t.duration
        clock
        (record { ups = t.uplink_map; queue = t.ttl; ls = [] })
      ≡ returns (record { ups = t.uplink_map; queue = q; ls = [] })
unfolding sweep sweep_key
sweep_stops t fuel clock k q pos head fresh ran = rw (lt→ltb 0 (size t.ttl) pos, head, fresh, ran)

cleanup_run :
    (close : ℕ → Option Error) (clock : ℕ → ℕ) (t : LinkManager) (k : TtlKey) (q : Heap TtlKey)
    → 0 < size t.ttl
    → (pop no_key t.ttl).0 ≡ k
    → (ttl_valid k && ltb t.duration (clock 0 - k.start)) ≡ false
    → put no_key (pop no_key t.ttl).1 (record { up = k.up; start = clock 0 }) ≡ returns q
    → cleanup close clock t ≡ returns ([], record t { ttl = q })
unfolding cleanup drop_ports drop_downlinks
cleanup_run close clock t k q pos head fresh ran =
    let n : size t.ttl ≡ suc (size t.ttl - 1) = omega arith in
    let stops = sweep_stops t (size t.ttl - 1) clock k q pos head fresh ran in
    ap
      (λ f.
        sweep f 0 t.addr t.duration clock (record { ups = t.uplink_map; queue = t.ttl; ls = [] })
        >>= λ s. drop_ports close s.ls t.ap >>= λ a. returns (
          s.ls,
          record t {
            ap = a;
            uplink_map = s.ups;
            ttl = s.queue;
            downlink_map = drop_downlinks t.addr s.ls t.downlink_map;
          },
        ))
      n
    ∙ rw stops

-- A `Cleanup` that meets a link at the head of a valid ring which is not due removes nothing, and
-- moves that link to the end with its time set anew: however old it was, its whole duration starts
-- again.
pub cleanup_renews :
    (close : ℕ → Option Error) (clock : ℕ → ℕ) (t : LinkManager) (k : TtlKey) (ks : List TtlKey)
    → Refine.IsValid t.ttl
    → 0 < size t.ttl
    → contents no_key t.ttl ≡ k ∷ ks
    → (ttl_valid k && ltb t.duration (clock 0 - k.start)) ≡ false
    → (q : Heap TtlKey) × (cleanup close clock t ≡ returns ([], record t { ttl = q }))
      × (contents no_key q ≡ ks ++ record { up = k.up; start = clock 0 } ∷ [])
cleanup_renews close clock t k ks v pos queue fresh =
    let (ring, first, rest) = contents-pop no_key t.ttl v in
    let key : TtlKey = record { up = k.up; start = clock 0 } in
    let (q, ran, ring', more) = contents-put no_key (pop no_key t.ttl).1 key ring in
    let head : (pop no_key t.ttl).0 ≡ k = first ∙ ap (queue_head no_key) queue in
    (
      q,
      cleanup_run close clock t k q pos head fresh ran,
      more ∙ ap (λ xs. xs ++ key ∷ []) (rest ∙ ap queue_tail queue),
    )
