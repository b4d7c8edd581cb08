-- ===== src/Links/Heap/Fresh.antt =====
-- links/links.go, NewHeap: what a new ring is.
use fatun.Links.Heap.Refine.{IsValid, contents}
use fatun.Base.{ℕ, ◌<◌, ◌≡◌, refl, [], arith, length-replicate, panics}
use fatun.Links.Heap.{new_heap, grow, put_at, put, copy, copy_range}

module _ {ℓ} {A : Type ℓ} (initial : A) where
  -- A new ring with capacity is valid and empty.
  pub new_heap_lem :
      (c : ℕ) → 0 < c → IsValid (new_heap initial c) × (contents initial (new_heap initial c) ≡ [])
  unfolding new_heap
  new_heap_lem c h = (
    record {
      start_in = omega (arith, length-replicate c initial);
      count_in = omega (arith, length-replicate c initial);
    },
    refl,
  )

  -- `NewHeap(0)` makes a ring that takes no value: growing doubles a capacity of zero.
  pub put-new_heap_zero : (t : A) → put initial (new_heap initial 0) t ≡ panics
  unfolding put new_heap grow put_at copy copy_range
  put-new_heap_zero t = refl
