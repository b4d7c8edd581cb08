-- ===== src/Links/Heap/Ring.antt =====
-- links/links.go, type Heap: the ring as the list of its values, and copying round the end.
use fatun.Base.{
  ℕ, zero, suc, ◌+◌, ◌-◌, ◌≤◌, ◌<◌, ◌≡◌, refl, ap, ap₂, ◌∙◌, true, false, List, [], ◌∷◌, ◌++◌,
  arith, if◌then◌else◌, leb, length, get_or, take, drop, length-append, length-take, length-drop,
}
use fatun.Links.Heap.{copy, copy_range}

pub leb-true : (a b : ℕ) → a ≤ b → leb a b ≡ true
leb-true a b h = ground arith

pub leb-false : (a b : ℕ) → b < a → leb a b ≡ false
leb-false a b h = ground arith

module _ {ℓ} {A : Type ℓ} where
  -- The first `n` values of a sequence.
  abbrev pub items : (ℕ → A) → ℕ → List A
  items f zero = []
  items f (suc n) = f 0 ∷ items (λ k. f (suc k)) n

  pub items_ext : (n : ℕ) (f g : ℕ → A) → ((k : ℕ) → k < n → f k ≡ g k) → items f n ≡ items g n
  items_ext zero f g h = refl
  items_ext (suc n) f g h =
      ap₂ ◌∷◌ (h 0 (omega arith))
        (items_ext n (λ k. f (suc k)) (λ k. g (suc k)) (λ k lt. h (suc k) (omega arith)))

  pub items-suc : (n : ℕ) (f : ℕ → A) → items f (suc n) ≡ items f n ++ f n ∷ []
  items-suc zero f = refl
  items-suc (suc n) f = ap (◌∷◌ (f 0)) (items-suc n (λ k. f (suc k)))

  get_or-append :
      (xs ys : List A) (k : ℕ) (d : A)
      → get_or (xs ++ ys) k d
        ≡ (if leb (length xs) k then get_or ys (k - length xs) d else get_or xs k d)
  get_or-append [] ys k d = ground (arith, ap (λ i. get_or ys i d) (sub-zero k))
    where
      sub-zero : (i : ℕ) → i - 0 ≡ i
      sub-zero i = omega arith
  get_or-append (x ∷ xs) ys zero d = ground arith
  get_or-append (x ∷ xs) ys (suc k) d = ground (arith, get_or-append xs ys k d)

  get_or-take :
      (n : ℕ) (xs : List A) (k : ℕ) (d : A) → k < n → get_or (take n xs) k d ≡ get_or xs k d
  get_or-take zero xs k d h = absurd (omega arith)
  get_or-take (suc n) [] k d h = refl
  get_or-take (suc n) (x ∷ xs) zero d h = refl
  get_or-take (suc n) (x ∷ xs) (suc k) d h = get_or-take n xs k d (omega arith)

  pub get_or-drop :
      (n : ℕ) (xs : List A) (k : ℕ) (d : A) → get_or (drop n xs) k d ≡ get_or xs (n + k) d
  get_or-drop zero xs k d = ap (λ i. get_or xs i d) (omega arith)
  get_or-drop (suc n) [] k d = refl
  get_or-drop (suc n) (x ∷ xs) k d = ground (arith, get_or-drop n xs k d)

  pub get_or-copy :
      (dst src : List A) (k : ℕ) (d : A)
      → k < length dst
      → k < length src
      → get_or (copy dst src) k d ≡ get_or src k d
  unfolding copy
  get_or-copy [] src k d p q = absurd (omega arith)
  get_or-copy (x ∷ dst) [] k d p q = absurd (omega arith)
  get_or-copy (x ∷ dst) (s ∷ src) zero d p q = refl
  get_or-copy (x ∷ dst) (s ∷ src) (suc k) d p q =
      get_or-copy dst src k d (omega arith) (omega arith)

  pub length-copy : (dst src : List A) → length (copy dst src) ≡ length dst
  unfolding copy
  length-copy [] src = refl
  length-copy (x ∷ dst) [] = refl
  length-copy (x ∷ dst) (s ∷ src) = ap suc (length-copy dst src)

  pub length-copy_range :
      (dst : List A) (lo hi : ℕ) (src : List A)
      → lo ≤ hi
      → hi ≤ length dst
      → length (copy_range dst lo hi src) ≡ length dst
  unfolding copy_range
  length-copy_range dst lo hi src p q = omega (
    arith,
    length-append (take lo dst) (copy (take (hi - lo) (drop lo dst)) src ++ drop hi dst),
    length-append (copy (take (hi - lo) (drop lo dst)) src) (drop hi dst),
    length-copy (take (hi - lo) (drop lo dst)) src,
    length-take lo dst,
    length-take (hi - lo) (drop lo dst),
    length-drop lo dst,
    length-drop hi dst,
  )

  -- Below the range written the slice keeps its values.
  pub get_or-copy_range_below :
      (dst : List A) (lo hi : ℕ) (src : List A) (k : ℕ) (d : A)
      → lo ≤ length dst
      → k < lo
      → get_or (copy_range dst lo hi src) k d ≡ get_or dst k d
  unfolding copy_range
  get_or-copy_range_below dst lo hi src k d p lt =
      let from = copy (take (hi - lo) (drop lo dst)) src ++ drop hi dst in
      let front : length (take lo dst) ≡ lo = omega (arith, length-take lo dst) in
      get_or-append (take lo dst) from k d
      ∙ rw (front, leb-false lo k lt) (get_or-take lo dst k d lt)

  -- In the range it has those of the source.
  pub get_or-copy_range_in :
      (dst : List A) (lo hi : ℕ) (src : List A) (k : ℕ) (d : A)
      → hi ≤ length dst
      → hi - lo ≤ length src
      → lo ≤ k
      → k < hi
      → get_or (copy_range dst lo hi src) k d ≡ get_or src (k - lo) d
  unfolding copy_range
  get_or-copy_range_in dst lo hi src k d p r le lt =
      let part = take (hi - lo) (drop lo dst) in
      let front : length (take lo dst) ≡ lo = omega (arith, length-take lo dst) in
      let wide : length (copy part src) ≡ hi - lo =
        omega
          (arith, length-copy part src, length-take (hi - lo) (drop lo dst), length-drop lo dst) in
      get_or-append (take lo dst) (copy part src ++ drop hi dst) k d
      ∙ rw (front, leb-true lo k le)
          (get_or-append (copy part src) (drop hi dst) (k - lo) d
            ∙ rw (wide, leb-false (hi - lo) (k - lo) (omega arith))
                (get_or-copy part src (k - lo) d (omega (arith, length-copy part src))
                  (omega arith)))
