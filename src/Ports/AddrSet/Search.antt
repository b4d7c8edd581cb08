-- ===== src/Ports/AddrSet/Search.antt =====
-- ports/adapter.go: the order of addresses and the binary search in a sorted slice.
use fatun.Base.{
  ℕ, zero, suc, ◌+◌, ◌-◌, ◌/◌, ◌≤◌, ◌<◌, ◌≡◌, ap, ◌⊎◌, Bool, true, false, not, List, [], ◌∷◌, arith,
  if◌then◌else◌, length, get_or, All,
}
use fatun.Net.{AddrPort, addr_eq_iff}
use fatun.Net.Order.{addr_less_irrefl, addr_less_trans, addr_less_total}
use fatun.Ports.AddrSet.{less, search_loop, sort_search, no_addr}

pub less_irrefl : (a : AddrPort) → less a a ≡ false
unfolding less
less_irrefl a = ground (arith, addr_less_irrefl a.addr)

pub less_trans : (a b c : AddrPort) → less a b ≡ true → less b c ≡ true → less a c ≡ true
unfolding less
less_trans a b c h k = ground (
  arith,
  addr_less_trans a.addr b.addr c.addr,
  addr_less_irrefl a.addr,
  addr_eq_iff a.addr b.addr,
  addr_eq_iff b.addr c.addr,
  addr_eq_iff a.addr c.addr,
)

pub less_total : (a b : AddrPort) → (less a b ≡ true) ⊎ ((a ≡ b) ⊎ (less b a ≡ true))
unfolding less
less_total a b =
    ground
      (arith, addr_less_total a.addr b.addr, addr_eq_iff a.addr b.addr, addr_eq_iff b.addr a.addr)

-- With a test that turns true once, at `p`, the loop ends at `p`.
pub search_loop_lem :
    (f : ℕ → Bool) (p n : ℕ)
    → ((h : ℕ) → h < p → f h ≡ false)
    → ((h : ℕ) → p ≤ h → h < n → f h ≡ true)
    → (k i j : ℕ) → i ≤ p
    → p ≤ j
    → j ≤ n
    → j - i ≤ k
    → search_loop k f i j ≡ p
unfolding search_loop
search_loop_lem f p n lo hi zero i j a b c d = omega arith
search_loop_lem f p n lo hi (suc k) i j a b c d = ground (
  arith,
  lo ((i + j) / 2),
  hi ((i + j) / 2),
  search_loop_lem f p n lo hi k i ((i + j) / 2),
  search_loop_lem f p n lo hi k ((i + j) / 2 + 1) j,
)

-- The number of leading addresses below `a`.
abbrev pub below : AddrPort → List AddrPort → ℕ
below a [] = 0
below a (x ∷ xs) = if less x a then suc (below a xs) else 0

below-le-length : (a : AddrPort) (xs : List AddrPort) → below a xs ≤ length xs
below-le-length a [] = omega arith
below-le-length a (x ∷ xs) = ground (arith, below-le-length a xs)

-- `x` stands below every address of the list.
abbrev pub Above : AddrPort → List AddrPort → Type 0
Above x = All (λ y. less x y ≡ true)

-- Strictly ascending, so that no address stands twice.
abbrev pub IsSorted : List AddrPort → Type 0
IsSorted [] = Unit {0}
IsSorted (x ∷ xs) = Above x xs × IsSorted xs

get_or-Above :
    (x : AddrPort) (xs : List AddrPort) (h : ℕ)
    → Above x xs
    → h < length xs
    → less x (get_or xs h no_addr) ≡ true
get_or-Above x [] h v lt = absurd (omega arith)
get_or-Above x (y ∷ ys) zero v lt = v.0
get_or-Above x (y ∷ ys) (suc h) v lt = get_or-Above x ys h v.1 (omega arith)

get_or-below :
    (a : AddrPort) (xs : List AddrPort) (h : ℕ)
    → h < below a xs
    → less (get_or xs h no_addr) a ≡ true
get_or-below a [] h lt = absurd (omega arith)
get_or-below a (x ∷ xs) zero lt = ground arith
get_or-below a (x ∷ xs) (suc h) lt = ground (arith, get_or-below a xs h)

get_or-from_below :
    (a : AddrPort) (xs : List AddrPort) (h : ℕ)
    → IsSorted xs
    → below a xs ≤ h
    → h < length xs
    → less (get_or xs h no_addr) a ≡ false
get_or-from_below a [] h v le lt = absurd (omega arith)
get_or-from_below a (x ∷ xs) zero v le lt = ground arith
get_or-from_below a (x ∷ xs) (suc h) v le lt = ground (
  arith,
  get_or-from_below a xs h v.1,
  get_or-Above x xs h v.0,
  less_trans x (get_or xs h no_addr) a,
)

-- On a sorted slice the binary search ends behind the addresses that are below.
pub sort_search-below :
    (a : AddrPort) (xs : List AddrPort)
    → IsSorted xs
    → sort_search (length xs) (λ i. not (less (get_or xs i no_addr) a)) ≡ below a xs
unfolding sort_search
sort_search-below a xs v =
    search_loop_lem (λ i. not (less (get_or xs i no_addr) a)) (below a xs) (length xs)
      (λ h lt. ap not (get_or-below a xs h lt))
      (λ h le lt. ap not (get_or-from_below a xs h v le lt)) (length xs) 0 (length xs) (omega arith)
      (below-le-length a xs) (omega arith) (omega arith)
