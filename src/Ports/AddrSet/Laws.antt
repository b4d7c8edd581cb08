-- ===== src/Ports/AddrSet/Laws.antt =====
-- ports/adapter.go: an AddrSet as a set of addresses.
use fatun.Base.{
  ℕ, suc, ◌+◌, ◌<◌, ◌≡◌, refl, ◌∙◌, Bool, true, false, not, ◌&&◌, ◌||◌, List, [], ◌∷◌, ◌++◌, none,
  some, arith, if◌then◌else◌, length, get_elem?, take, drop, ◌==◌,
}
use fatun.Net.{AddrPort, addr_port_has_eq, addr_port_eq_iff}
use fatun.Ports.AddrSet.{AddrSet, less, find, has, sort_insert, sort, add, del}
use fatun.Ports.AddrSet.Search.{
  less_irrefl, less_trans, less_total, below, Above, IsSorted, sort_search-below,
}

-- Membership by a walk over the slice.
unfoldable pub elem : AddrPort → List AddrPort → Bool
elem a [] = false
elem a (x ∷ xs) = (x == a) || elem a xs

pub Above-elem :
    (a x : AddrPort) (xs : List AddrPort) → Above x xs → elem a xs ≡ true → less x a ≡ true
unfolding elem
Above-elem a x [] v h = absurd (ground arith)
Above-elem a x (y ∷ ys) v h = ground (arith, Above-elem a x ys v.1, addr_port_eq_iff y a)

-- What `Find` sees at the index of the search.
abbrev at_index : AddrPort → List AddrPort → ℕ → Bool
at_index a xs i = elim (get_elem? xs i) [ none ↦ false | some x ↦ x == a ]

at_index-below :
    (a : AddrPort) (xs : List AddrPort) → IsSorted xs → at_index a xs (below a xs) ≡ elem a xs
unfolding elem
at_index-below a [] v = refl
at_index-below a (x ∷ xs) v = ground (
  arith,
  at_index-below a xs v.1,
  Above-elem a x xs v.0,
  less_irrefl a,
  less_total x a,
  addr_port_eq_iff x a,
)

pub find_index :
    (s : AddrSet) (a : AddrPort)
    → IsSorted s.addrs
    → find s a ≡ (if elem a s.addrs then some (below a s.addrs) else none)
unfolding find
find_index s a v = ground (arith, sort_search-below a s.addrs v, at_index-below a s.addrs v)

pub has-elem : (s : AddrSet) (a : AddrPort) → IsSorted s.addrs → has s a ≡ elem a s.addrs
unfolding has
has-elem s a v = ground (arith, find_index s a v)

pub elem-append :
    (a : AddrPort) (xs ys : List AddrPort) → elem a (xs ++ ys) ≡ (elem a xs || elem a ys)
unfolding elem
elem-append a [] ys = ground arith
elem-append a (x ∷ xs) ys = ground (arith, elem-append a xs ys)

elem-sort_insert :
    (a x : AddrPort) (ys : List AddrPort) → elem a (sort_insert x ys) ≡ ((x == a) || elem a ys)
unfolding elem sort_insert
elem-sort_insert a x [] = ground arith
elem-sort_insert a x (y ∷ ys) = ground (arith, elem-sort_insert a x ys)

pub elem-sort : (a : AddrPort) (xs : List AddrPort) → elem a (sort xs) ≡ elem a xs
unfolding elem sort
elem-sort a [] = refl
elem-sort a (x ∷ xs) = ground (arith, elem-sort_insert a x (sort xs), elem-sort a xs)

Above-trans : (x y : AddrPort) (ys : List AddrPort) → less x y ≡ true → Above y ys → Above x ys
Above-trans x y [] h v = tt
Above-trans x y (z ∷ zs) h v = (less_trans x y z h v.0, Above-trans x y zs h v.1)

Above-sort_insert :
    (z x : AddrPort) (ys : List AddrPort)
    → less z x ≡ true
    → Above z ys
    → Above z (sort_insert x ys)
unfolding sort_insert
Above-sort_insert z x [] h v = (h, tt)
Above-sort_insert z x (y ∷ ys) h v = ground (arith, Above-sort_insert z x ys h v.1)

sort_insert-IsSorted :
    (x : AddrPort) (ys : List AddrPort)
    → elem x ys ≡ false
    → IsSorted ys
    → IsSorted (sort_insert x ys)
unfolding sort_insert elem
sort_insert-IsSorted x [] h v = (tt, tt)
sort_insert-IsSorted x (y ∷ ys) h v = ground (
  arith,
  less_total x y,
  addr_port_eq_iff y x,
  Above-trans x y ys,
  Above-sort_insert y x ys,
  sort_insert-IsSorted x ys,
)

-- No address stands twice.
abbrev pub Distinct : List AddrPort → Type 0
Distinct [] = Unit {0}
Distinct (x ∷ xs) = (elem x xs ≡ false) × Distinct xs

sort-IsSorted : (xs : List AddrPort) → Distinct xs → IsSorted (sort xs)
unfolding sort
sort-IsSorted [] d = tt
sort-IsSorted (x ∷ xs) d =
    sort_insert-IsSorted x (sort xs) (elem-sort x xs ∙ d.0) (sort-IsSorted xs d.1)

Distinct-of_IsSorted : (xs : List AddrPort) → IsSorted xs → Distinct xs
Distinct-of_IsSorted [] v = tt
Distinct-of_IsSorted (x ∷ xs) v =
    (ground (arith, Above-elem x x xs v.0, less_irrefl x), Distinct-of_IsSorted xs v.1)

Distinct-append :
    (a : AddrPort) (xs : List AddrPort) → Distinct xs → elem a xs ≡ false → Distinct (xs ++ a ∷ [])
unfolding elem
Distinct-append a [] d h = (refl, tt)
Distinct-append a (x ∷ xs) d h = (
  ground (arith, elem-append x xs (a ∷ []), addr_port_eq_iff x a, addr_port_eq_iff a x),
  Distinct-append a xs d.1 (ground arith),
)

-- `Add` keeps the slice sorted.
pub add-IsSorted : (s : AddrSet) (a : AddrPort) → IsSorted s.addrs → IsSorted (add s a).addrs
unfolding add
add-IsSorted s a v = ground (
  arith,
  has-elem s a v,
  sort-IsSorted (s.addrs ++ a ∷ []),
  Distinct-append a s.addrs (Distinct-of_IsSorted s.addrs v),
)

-- After `Add` to a sorted set an address is in the set exactly if it is the new one or was there.
pub has-add :
    (s : AddrSet) (a b : AddrPort) → IsSorted s.addrs → has (add s a) b ≡ ((a == b) || has s b)
unfolding elem
has-add s a b v =
    has-elem (add s a) b (add-IsSorted s a v)
    ∙ unfold add in
      ground (
        arith,
        has-elem s a v,
        has-elem s b v,
        elem-sort b (s.addrs ++ a ∷ []),
        elem-append b s.addrs (a ∷ []),
        addr_port_eq_iff a b,
      )

abbrev pub without : AddrPort → List AddrPort → List AddrPort
without a xs = take (below a xs) xs ++ drop (suc (below a xs)) xs

Above-without : (x a : AddrPort) (xs : List AddrPort) → Above x xs → Above x (without a xs)
Above-without x a [] v = tt
Above-without x a (y ∷ ys) v = ground (arith, Above-without x a ys v.1)

without-IsSorted : (a : AddrPort) (xs : List AddrPort) → IsSorted xs → IsSorted (without a xs)
without-IsSorted a [] v = tt
without-IsSorted a (x ∷ xs) v = ground (arith, without-IsSorted a xs v.1, Above-without x a xs v.0)

elem-without :
    (a b : AddrPort) (xs : List AddrPort)
    → IsSorted xs
    → elem a xs ≡ true
    → elem b (without a xs) ≡ (not (a == b) && elem b xs)
unfolding elem
elem-without a b [] v h = absurd (ground arith)
elem-without a b (x ∷ xs) v h = ground (
  arith,
  elem-without a b xs v.1,
  Above-elem a x xs v.0,
  Above-elem b x xs v.0,
  less_irrefl a,
  less_irrefl x,
  less_total x a,
  addr_port_eq_iff x a,
  addr_port_eq_iff x b,
  addr_port_eq_iff a b,
)

pub length-without :
    (a : AddrPort) (xs : List AddrPort)
    → IsSorted xs
    → elem a xs ≡ true
    → length (without a xs) + 1 ≡ length xs
unfolding elem
length-without a [] v h = absurd (ground arith)
length-without a (x ∷ xs) v h =
    ground (arith, length-without a xs v.1, less_irrefl a, addr_port_eq_iff x a)

pub length-of_elem : (a : AddrPort) (xs : List AddrPort) → elem a xs ≡ true → 0 < length xs
unfolding elem
length-of_elem a [] h = absurd (ground arith)
length-of_elem a (x ∷ xs) h = omega arith

-- `Del` keeps the slice sorted.
pub del-IsSorted : (s : AddrSet) (a : AddrPort) → IsSorted s.addrs → IsSorted (del s a).addrs
unfolding del
del-IsSorted s a v = ground (arith, find_index s a v, without-IsSorted a s.addrs v)

-- After `Del` from a sorted set an address is in the set exactly if it was there and is not the one
-- deleted.
pub has-del :
    (s : AddrSet) (a b : AddrPort) → IsSorted s.addrs → has (del s a) b ≡ (not (a == b) && has s b)
has-del s a b v =
    has-elem (del s a) b (del-IsSorted s a v)
    ∙ unfold del in
      ground
        (arith, find_index s a v, has-elem s b v, elem-without a b s.addrs v, addr_port_eq_iff a b)
