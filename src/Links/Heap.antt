-- ===== src/Links/Heap.antt =====
-- links/links.go, type Heap: a growing ring of values, first in, first out.
pub mod Ring
pub mod Refine
pub mod Popping
pub mod Fresh
pub mod Wrapping
use fatun.Base.{
  ℕ, zero, suc, ◌+◌, ◌-◌, ◌*◌, Bool, List, [], ◌∷◌, ◌++◌, Run, returns, panics, ◌>>=◌, arith,
  if◌then◌else◌, leb, ltb, ◌=ᵇ◌, length, get_or, set, take, drop, replicate, min,
}

-- `type Heap[T any] struct`
pub record Heap {ℓ} (A : Type ℓ) : Type ℓ where
  pub vals : List A
  pub start : ℕ
  pub count : ℕ

-- The `copy` of Go: as many values as both slices have, to the front of the first.
unfoldable pub copy {ℓ} : {A : Type ℓ} → List A → List A → List A
copy [] src = []
copy (d ∷ ds) [] = d ∷ ds
copy (d ∷ ds) (s ∷ ss) = s ∷ copy ds ss

-- `copy(dst[lo:hi], src)`
unfoldable pub copy_range {ℓ} : {A : Type ℓ} → List A → ℕ → ℕ → List A → List A
copy_range dst lo hi src = take lo dst ++ (copy (take (hi - lo) (drop lo dst)) src ++ drop hi dst)

-- `initial` is the zero value of T, `*new(T)`.
module _ {ℓ} {A : Type ℓ} (initial : A) where
  -- `NewHeap`
  unfoldable pub new_heap : ℕ → Heap A
  new_heap init_cap = record { vals = replicate init_cap initial; start = 0; count = 0 }

  -- `grow`; a slice expression out of range panics.
  unfoldable pub grow : Heap A → Run (Heap A)
  grow h =
      let n = length h.vals in
      let tmp = replicate (n * 2) initial in
      let n1 = min (n * 2) (n - h.start) in
      let tmp1 = copy tmp (drop h.start h.vals) in
      if ltb n h.start
      then panics
      else if ltb h.count n1
      then panics
      else if ltb (n * 2) h.count
      then panics
      else returns (record h { vals = copy_range tmp1 n1 h.count h.vals; start = 0 })

  -- The index that `Put` writes.
  abbrev pub put_index : Heap A → ℕ
  put_index h = let i = h.start + h.count in if leb (length h.vals) i then i - length h.vals else i

  -- `h.vals[i] = t; h.size += 1`
  unfoldable pub put_at : Heap A → A → Run (Heap A)
  put_at h t =
      if ltb (put_index h) (length h.vals)
      then returns (record h { vals = set h.vals (put_index h) t; count = h.count + 1 })
      else panics

  -- `Put`
  unfoldable pub put : Heap A → A → Run (Heap A)
  put h t = if length h.vals =ᵇ h.count then (grow h >>= λ g. put_at g t) else put_at h t

  -- `Pop`. The read is in range whenever `start` is.
  unfoldable pub pop : Heap A → A × Heap A
  pop h =
      let next = h.start + 1 in
      if h.count =ᵇ 0 then (initial, h) else (
        get_or h.vals h.start initial,
        record h {
          start = if leb (length h.vals) next then next - length h.vals else next;
          count = h.count - 1;
        },
      )

  -- `Peek`
  pub peek : Heap A → A
  peek h = if h.count =ᵇ 0 then initial else get_or h.vals h.start initial

-- `Size`
abbrev pub size {ℓ} : {A : Type ℓ} → Heap A → ℕ
size h = h.count
