-- ===== src/Links/Heap/Popping.antt =====
-- links/links.go, Pop and Peek of type Heap.
use fatun.Links.Heap.Refine.{IsValid, contents, value_at, queue_head, queue_tail}
use fatun.Base.{
  ℕ, zero, suc, ◌+◌, ◌<◌, ◌≡◌, refl, sym, ap, ap₂, ◌∙◌, ◌∷◌, arith, if◌then◌else◌, ◌=ᵇ◌, length,
  get_or,
}
use fatun.Links.Heap.{Heap, pop, peek}
use fatun.Links.Heap.Ring.{items, items_ext}
use fatun.Links.Heap.Wrapping.{wrap, eq_test, ne_test, wrap_next_lt, wrap_next, wrap_zero}

module _ {ℓ} {A : Type ℓ} (initial : A) where
  pub pop_of_empty : (h : Heap A) → h.count ≡ 0 → pop initial h ≡ (initial, h)
  unfolding pop
  pop_of_empty h e = rw (eq_test h.count 0 e)

  -- The ring that `Pop` leaves, with `m` values.
  abbrev pub popped : Heap A → ℕ → Heap A
  popped h m = record h { start = wrap (length h.vals) (h.start + 1); count = m }

  pub pop_of_suc :
      (h : Heap A) (m : ℕ)
      → h.count ≡ suc m
      → pop initial h ≡ (get_or h.vals h.start initial, popped h m)
  unfolding pop
  pop_of_suc h m e =
      rw (ne_test h.count 0 (omega arith))
        (ap (λ c. (get_or h.vals h.start initial, popped h c)) (omega arith))

  -- `Pop` gives the oldest value, or the zero value of an empty ring, and leaves the rest.
  pub contents-pop :
      (h : Heap A)
      → IsValid h
      → IsValid (pop initial h).1
        × ((pop initial h).0 ≡ queue_head initial (contents initial h))
        × (contents initial (pop initial h).1 ≡ queue_tail (contents initial h))
  contents-pop h v = go h.count refl
    where
      first :
          (c : ℕ)
          → h.count ≡ c
          → queue_head initial (contents initial h)
            ≡ queue_head initial (items (value_at initial h) c)
      first c e = ap (λ n. queue_head initial (items (value_at initial h) n)) e

      rest :
          (c : ℕ)
          → h.count ≡ c
          → queue_tail (contents initial h) ≡ queue_tail (items (value_at initial h) c)
      rest c e = ap (λ n. queue_tail (items (value_at initial h) n)) e

      go :
          (c : ℕ)
          → h.count ≡ c
          → IsValid (pop initial h).1
            × ((pop initial h).0 ≡ queue_head initial (contents initial h))
            × (contents initial (pop initial h).1 ≡ queue_tail (contents initial h))
      go zero e =
          rw (pop_of_empty h e)
            (v, sym (first zero e), ap (items (value_at initial h)) e ∙ sym (rest zero e))
      go (suc m) e = rw (pop_of_suc h m e) (
        record {
          start_in = wrap_next_lt (length h.vals) h.start v.start_in;
          count_in = omega (arith, v.count_in);
        },
        ap (λ i. get_or h.vals i initial) (wrap_zero (length h.vals) h.start v.start_in)
            ∙ sym (first (suc m) e),
        items_ext m (value_at initial (popped h m)) (λ k. value_at initial h (suc k))
              (λ k lt.
                ap (λ i. get_or h.vals i initial)
                  (wrap_next (length h.vals) h.start k v.start_in (omega (arith, v.count_in))))
            ∙ sym (rest (suc m) e),
      )

  pub peek_lem : (h : Heap A) → IsValid h → peek initial h ≡ queue_head initial (contents initial h)
  unfolding peek
  peek_lem h v = go h.count refl
    where
      go :
          (c : ℕ)
          → h.count ≡ c
          → (if h.count =ᵇ 0 then initial else get_or h.vals h.start initial)
            ≡ queue_head initial (contents initial h)
      go zero e =
          rw (eq_test h.count 0 e)
            (sym (ap (λ n. queue_head initial (items (value_at initial h) n)) e))
      go (suc m) e = rw (ne_test h.count 0 (omega arith)) (
          ap (λ i. get_or h.vals i initial) (wrap_zero (length h.vals) h.start v.start_in)
          ∙ sym (ap (λ n. queue_head initial (items (value_at initial h) n)) e))

  pub contents-cons :
      (h : Heap A)
      → 0 < h.count
      → contents initial h
        ≡ queue_head initial (contents initial h) ∷ queue_tail (contents initial h)
  contents-cons h pos = go h.count refl
    where
      go :
          (c : ℕ)
          → h.count ≡ c
          → contents initial h
            ≡ queue_head initial (contents initial h) ∷ queue_tail (contents initial h)
      go zero e = absurd (omega arith)
      go (suc m) e =
          ap (items (value_at initial h)) e
          ∙ sym (
              ap₂ ◌∷◌ (ap (λ n. queue_head initial (items (value_at initial h) n)) e)
                (ap (λ n. queue_tail (items (value_at initial h) n)) e))
