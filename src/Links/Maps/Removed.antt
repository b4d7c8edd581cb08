-- ===== src/Links/Maps/Removed.antt =====
-- links/maps/maps.go, Cleanup: what holds of the links that were removed so far.
use fatun.Base.{
  ℕ, ◌*◌, ◌/◌, ◌^◌, ◌≡◌, ◌≢◌, sym, ap, ◌∙◌, subst, ◌⊎◌, none, some, List, [], ◌∷◌, ◌++◌, arith, All,
  returns,
}
use fatun.Base.Maps.{GoMap, lookup, insert, lookup-insert}
use fatun.Links.Heap.{Heap, put}
use fatun.Links.Heap.Refine
use fatun.Links.Heap.Refine.{contents, contents-put, queue_head, queue_tail}
use fatun.Links.{Uplink, Link, uplink_eq_iff, uplink_has_eq}
use fatun.Links.Maps.{TtlKey, no_key, Sweep}
use fatun.Links.Maps.Registered.{reg, Words, Keys, Keys-insert, Keys-append}

-- The links removed so far: each was registered under its port and is no longer.
abbrev pub Gone : GoMap Uplink ℕ → GoMap Uplink ℕ → List Link → Type 0
Gone old m = All (λ l. (reg old l.uplink ≡ some l.local.port) × (reg m l.uplink ≡ none))

abbrev pub Others : Uplink → List Link → Type 0
Others u = All (λ l. l.uplink ≢ u)

abbrev pub DistinctLinks : List Link → Type 0
DistinctLinks [] = Unit {0}
DistinctLinks (l ∷ ls) = Others l.uplink ls × DistinctLinks ls

pub record Swept (old : GoMap Uplink ℕ) (s : Sweep) : Type 0 where
  pub ring : Refine.IsValid s.queue
  pub keys : Keys s.ups (contents no_key s.queue)
  pub words : Words s.ups
  pub kept : (u : Uplink) → (reg s.ups u ≡ none) ⊎ (reg s.ups u ≡ reg old u)
  pub gone : Gone old s.ups s.ls
  pub distinct : DistinctLinks s.ls

-- The same behind a `Pop`, with the key that it gave.
pub record Popped (old : GoMap Uplink ℕ) (k : TtlKey) (s : Sweep) : Type 0 where
  pub ring : Refine.IsValid s.queue
  pub keys : Keys s.ups (k ∷ contents no_key s.queue)
  pub words : Words s.ups
  pub kept : (u : Uplink) → (reg s.ups u ≡ none) ⊎ (reg s.ups u ≡ reg old u)
  pub gone : Gone old s.ups s.ls
  pub distinct : DistinctLinks s.ls

-- Putting the key back.
pub requeue :
    (old : GoMap Uplink ℕ) (k : TtlKey) (s : Sweep) (now : ℕ)
    → Popped old k s
    → (q : Heap TtlKey) × (put no_key s.queue (record { up = k.up; start = now }) ≡ returns q)
      × Swept old (record s { queue = q })
requeue old k s now v =
    let key : TtlKey = record { up = k.up; start = now } in
    let (q, ran, ring, more) = contents-put no_key s.queue key v.ring in
    (
      q,
      ran,
      record {
        ring = ring;
        keys =
            subst (Keys s.ups) (sym more)
              (Keys-append s.ups (contents no_key s.queue) key v.keys.2 v.keys.0 v.keys.1);
        words = v.words;
        kept = v.kept;
        gone = v.gone;
        distinct = v.distinct;
      },
    )

pub Gone-weaken :
    (old m m' : GoMap Uplink ℕ) (ls : List Link)
    → ((u : Uplink) → reg m u ≡ none → reg m' u ≡ none)
    → Gone old m ls
    → Gone old m' ls
Gone-weaken old m m' [] h g = tt
Gone-weaken old m m' (l ∷ ls) h g = ((g.0.0, h l.uplink g.0.1), Gone-weaken old m m' ls h g.1)

-- `Idle` of a registered port clears its count.
pub touch :
    (old : GoMap Uplink ℕ) (k : TtlKey) (s : Sweep) (d : ℕ)
    → lookup k.up s.ups ≡ some d
    → Popped old k s
    → Popped old k (record s { ups = insert k.up (d / 2 ^ 48 * 2 ^ 48) s.ups })
touch old k s d found v =
    let m' = insert k.up (d / 2 ^ 48 * 2 ^ 48) s.ups in
    let same : (u : Uplink) → reg m' u ≡ reg s.ups u = same_reg in
    record {
      ring = v.ring;
      keys = Keys-insert s.ups k.up (d / 2 ^ 48 * 2 ^ 48) (k ∷ contents no_key s.queue) v.keys;
      words = λ u w e. ground (
        arith,
        lookup-insert k.up u (d / 2 ^ 48 * 2 ^ 48) s.ups,
        v.words u w,
        v.words k.up d found,
        e,
      );
      kept = λ u. rw (same u) (v.kept u);
      gone = Gone-weaken old s.ups m' s.ls (λ u e. same u ∙ e) v.gone;
      distinct = v.distinct;
    }
  where
    same_reg : (u : Uplink) → reg (insert k.up (d / 2 ^ 48 * 2 ^ 48) s.ups) u ≡ reg s.ups u
    same_reg u =
        ground (arith, lookup-insert k.up u (d / 2 ^ 48 * 2 ^ 48) s.ups, uplink_eq_iff k.up u)

pub Gone-append :
    (old m : GoMap Uplink ℕ) (ls : List Link) (l : Link)
    → Gone old m ls
    → reg old l.uplink ≡ some l.local.port
    → reg m l.uplink ≡ none
    → Gone old m (ls ++ l ∷ [])
Gone-append old m [] l g a b = ((a, b), tt)
Gone-append old m (x ∷ ls) l g a b = (g.0, Gone-append old m ls l g.1 a b)

pub Others-of_Gone :
    (old m : GoMap Uplink ℕ) (ls : List Link) (u : Uplink)
    → Gone old m ls
    → reg m u ≢ none
    → Others u ls
Others-of_Gone old m [] u g r = tt
Others-of_Gone old m (l ∷ ls) u g r =
    (λ e. r (ap (reg m) (sym e) ∙ g.0.1), Others-of_Gone old m ls u g.1 r)

pub DistinctLinks-append :
    (ls : List Link) (l : Link)
    → DistinctLinks ls
    → Others l.uplink ls
    → DistinctLinks (ls ++ l ∷ [])
DistinctLinks-append [] l d o = (tt, tt)
DistinctLinks-append (x ∷ ls) l d o =
    (Others-append x.uplink ls l d.0 (λ e. o.0 (sym e)), DistinctLinks-append ls l d.1 o.1)
  where
    Others-append :
        (u : Uplink) (xs : List Link) (y : Link)
        → Others u xs
        → y.uplink ≢ u
        → Others u (xs ++ y ∷ [])
    Others-append u [] y o n = (n, tt)
    Others-append u (z ∷ zs) y o n = (o.0, Others-append u zs y o.1 n)
