-- ===== src/Links/Heap/Wrapping.antt =====
-- links/links.go, type Heap: indices that go round the end of the ring.
use fatun.Base.{
  ℕ, suc, ◌+◌, ◌-◌, ◌≤◌, ◌<◌, ◌≡◌, ◌≢◌, true, false, arith, if◌then◌else◌, leb, ltb, ◌=ᵇ◌,
}

-- The index `i` of the ring, taken round the end once.
abbrev pub wrap : ℕ → ℕ → ℕ
wrap n i = if leb n i then i - n else i

pub wrap_lt : (n s c : ℕ) → s < n → c < n → wrap n (s + c) < n
wrap_lt n s c p q = ground arith

pub wrap_ne : (n s c k : ℕ) → s < n → c < n → k < c → wrap n (s + c) ≢ wrap n (s + k)
wrap_ne n s c k p q r = ground arith

pub eq_test : (a b : ℕ) → a ≡ b → (a =ᵇ b) ≡ true
eq_test a b h = ground arith

pub ne_test : (a b : ℕ) → a ≢ b → (a =ᵇ b) ≡ false
ne_test a b h = ground arith

pub wrap_next_lt : (n s : ℕ) → s < n → wrap n (s + 1) < n
wrap_next_lt n s h = ground arith

pub wrap_next : (n s k : ℕ) → s < n → k < n → wrap n (wrap n (s + 1) + k) ≡ wrap n (s + suc k)
wrap_next n s k h lt = ground arith

pub wrap_zero : (n s : ℕ) → s < n → s ≡ wrap n (s + 0)
wrap_zero n s h = ground arith

pub room_of_ne : (n c : ℕ) → c ≤ n → (n =ᵇ c) ≡ false → c < n
room_of_ne n c h e = ground arith

pub ltb-true : (a b : ℕ) → a < b → ltb a b ≡ true
ltb-true a b h = ground arith

pub ltb-false : (a b : ℕ) → b ≤ a → ltb a b ≡ false
ltb-false a b h = ground arith
