-- ===== src/Links/Heap/Refine.antt =====
-- links/links.go, type Heap: the ring as the queue of the values that it holds, oldest first.
use fatun.Base.{
  ℕ, suc, ◌+◌, ◌-◌, ◌*◌, ◌≤◌, ◌<◌, ◌≡◌, ◌≢◌, ap, ap₂, ◌∙◌, false, List, [], ◌∷◌, ◌++◌, arith, ◌=ᵇ◌,
  length, get_or, set, drop, replicate, min, length-set, get_or-set_self, get_or-set_ne,
  length-replicate, length-drop, =ᵇ_iff, returns, Bool-cases, inl, inr,
}
use native.Mathlib.Decide.{dec_lt}
use fatun.Links.Heap.{Heap, grow, put_index, put_at, put, copy, copy_range}
use fatun.Links.Heap.Ring.{
  items, items_ext, items-suc, leb-true, leb-false, length-copy, length-copy_range,
  get_or-copy_range_below, get_or-copy_range_in, get_or-copy, get_or-drop,
}
use fatun.Links.Heap.Wrapping.{wrap, wrap_lt, wrap_ne, room_of_ne, ltb-true, ltb-false}

pub record IsValid {ℓ} {A : Type ℓ} (h : Heap A) : Type 0 where
  pub start_in : h.start < length h.vals
  pub count_in : h.count ≤ length h.vals

-- What a queue gives, and what stays.
abbrev pub queue_head {ℓ} : {A : Type ℓ} → A → List A → A
queue_head initial [] = initial
queue_head initial (x ∷ xs) = x

abbrev pub queue_tail {ℓ} : {A : Type ℓ} → List A → List A
queue_tail [] = []
queue_tail (x ∷ xs) = xs

module _ {ℓ} {A : Type ℓ} (initial : A) where
  room_of : (h : Heap A) → IsValid h → (length h.vals =ᵇ h.count) ≡ false → h.count < length h.vals
  room_of h v part = room_of_ne (length h.vals) h.count v.count_in part

  count_suc : (h : Heap A) → h.count + 1 ≡ suc h.count
  count_suc h = omega arith

  put_index-lt :
      (h : Heap A) → IsValid h → h.count < length h.vals → put_index initial h < length h.vals
  put_index-lt h v room = wrap_lt (length h.vals) h.start h.count v.start_in room

  put_index-ne :
      (h : Heap A) (k : ℕ)
      → IsValid h
      → h.count < length h.vals
      → k < h.count
      → put_index initial h ≢ wrap (length h.vals) (h.start + k)
  put_index-ne h k v room lt = wrap_ne (length h.vals) h.start h.count k v.start_in room lt

  -- The value `k` places behind the oldest.
  abbrev pub value_at : Heap A → ℕ → A
  value_at h k = get_or h.vals (wrap (length h.vals) (h.start + k)) initial

  -- Oldest first.
  abbrev pub contents : Heap A → List A
  contents h = items (value_at h) h.count

  -- `Put` into a ring with room.
  put_at_lem :
      (h : Heap A) (t : A)
      → IsValid h
      → h.count < length h.vals
      → (h' : Heap A) × (put_at initial h t ≡ returns h')
        × IsValid h'
        × (contents h' ≡ contents h ++ t ∷ [])
  unfolding put_at
  put_at_lem h t v room =
      let i = put_index initial h in
      let inside : i < length h.vals = put_index-lt h v room in
      let h' : Heap A = record h { vals = set h.vals i t; count = h.count + 1 } in
      (
        h',
        rw (ltb-true i (length h.vals) inside),
        record {
          start_in = rw (length-set h.vals i t) (v.start_in);
          count_in = rw (length-set h.vals i t) (omega arith);
        },
        ap (items (value_at h')) (count_suc h)
            ∙ (items-suc h.count (value_at h')
                ∙ ap₂ (λ front last. front ++ last ∷ [])
                    (items_ext h.count (value_at h') (value_at h) (λ k lt.
                      rw (length-set h.vals i t) (
                        get_or-set_ne h.vals i (wrap (length h.vals) (h.start + k)) t initial
                          (put_index-ne h k v room lt))))
                    (rw (length-set h.vals i t) (get_or-set_self h.vals i t initial inside))),
      )

  abbrev grown : Heap A → List A
  grown h =
      let n = length h.vals in
      copy_range (copy (replicate (n * 2) initial) (drop h.start h.vals))
        (min (n * 2) (n - h.start)) h.count h.vals

  length-tmp :
      (h : Heap A)
      → length (copy (replicate (length h.vals * 2) initial) (drop h.start h.vals))
        ≡ length h.vals * 2
  length-tmp h =
      length-copy (replicate (length h.vals * 2) initial) (drop h.start h.vals)
      ∙ length-replicate (length h.vals * 2) initial

  length-grown :
      (h : Heap A) → IsValid h → length h.vals ≡ h.count → length (grown h) ≡ length h.vals * 2
  length-grown h v full =
      length-copy_range (copy (replicate (length h.vals * 2) initial) (drop h.start h.vals))
        (min (length h.vals * 2) (length h.vals - h.start)) h.count h.vals
        (omega (arith, v.start_in)) (omega (arith, length-tmp h))
      ∙ length-tmp h

  -- The grown slice holds the values in order from index 0.
  get_or-grown :
      (h : Heap A) (k : ℕ)
      → IsValid h
      → length h.vals ≡ h.count
      → k < h.count
      → get_or (grown h) k initial ≡ value_at h k
  get_or-grown h k v full lt =
      let n = length h.vals in
      let room = replicate (n * 2) initial in
      let tmp = copy room (drop h.start h.vals) in
      let n1 = min (n * 2) (n - h.start) in
      elim (dec_lt k (n - h.start)) [
        | yes first ↦
            get_or-copy_range_below tmp n1 h.count h.vals k initial (omega (arith, length-tmp h))
              (omega (arith, v.start_in))
            ∙ (get_or-copy room (drop h.start h.vals) k initial
                  (omega (arith, length-replicate (n * 2) initial))
                  (omega (arith, length-drop h.start h.vals))
                ∙ (get_or-drop h.start h.vals k initial
                    ∙ rw (leb-false n (h.start + k) (omega arith))))
        | no round ↦
            get_or-copy_range_in tmp n1 h.count h.vals k initial (omega (arith, length-tmp h))
              (omega arith) (omega (arith, v.start_in)) lt
            ∙ rw (leb-true n (h.start + k) (omega arith))
                (ap (λ i. get_or h.vals i initial) (omega (arith, v.start_in)))
      ]

  -- `grow` of a full ring keeps its values, and makes room.
  grow_lem :
      (h : Heap A)
      → IsValid h
      → length h.vals ≡ h.count
      → (g : Heap A) × (grow initial h ≡ returns g)
        × IsValid g
        × (g.count < length g.vals)
        × (contents g ≡ contents h)
  unfolding grow
  grow_lem h v full =
      let g : Heap A = record h { vals = grown h; start = 0 } in
      let n = length h.vals in
      let long : length (grown h) ≡ n * 2 = length-grown h v full in
      (
        g,
        rw (
          ltb-false n h.start (omega (arith, v.start_in)),
          ltb-false h.count (min (n * 2) (n - h.start)) (omega arith),
          ltb-false (n * 2) h.count (omega arith),
        ),
        record { start_in = omega (arith, v.start_in, long); count_in = omega (arith, long) },
        omega (arith, v.start_in, long),
        items_ext h.count (value_at g) (value_at h) (λ k lt.
            rw (leb-false (length (grown h)) (0 + k) (omega (arith, long)))
              (ap (λ i. get_or (grown h) i initial) (omega arith) ∙ get_or-grown h k v full lt)),
      )

  -- `Put` on a valid ring returns, and adds the value behind the others.
  pub contents-put :
      (h : Heap A) (t : A)
      → IsValid h
      → (h' : Heap A) × (put initial h t ≡ returns h')
        × IsValid h'
        × (contents h' ≡ contents h ++ t ∷ [])
  unfolding put
  contents-put h t v = elim (Bool-cases (length h.vals =ᵇ h.count)) [
    | inl full ↦
        let (g, ran, valid, room, same) = grow_lem h v ((=ᵇ_iff (length h.vals) h.count).0 full) in
        let (h', ran', valid', more) = put_at_lem g t valid room in
        (h', rw (full, ran) ran', valid', rw (← same) more)
    | inr part ↦
        let (h', ran', valid', more) = put_at_lem h t v (room_of h v part) in
        (h', rw part ran', valid', more)
  ]
