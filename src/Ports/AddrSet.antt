-- ===== src/Ports/AddrSet.antt =====
-- ports/adapter.go, type AddrSet: a sorted slice of addresses as a set.
pub mod Search
pub mod Laws
pub mod Sizes
pub mod Calls
use fatun.Base.{
  ℕ, zero, suc, ◌+◌, ◌/◌, Bool, true, false, not, Option, none, some, List, [], ◌∷◌, ◌++◌, arith,
  ◌==◌, ltb, if◌then◌else◌, length, get_elem?, get_or, drop, take,
}
use fatun.Net.{AddrPort, addr_less, invalid, addr_has_eq, addr_port_has_eq}

-- `type AddrSet struct { addrs addrs }`
pub record AddrSet : Type 0 where
  pub addrs : List AddrPort

-- `less`: by the address, then by the port.
unfoldable pub less : AddrPort → AddrPort → Bool
less a b = if not (a.addr == b.addr) then addr_less a.addr b.addr else ltb a.port b.port

-- `sort.Search` of the Go library, with fuel for its loop.
unfoldable pub search_loop : ℕ → (ℕ → Bool) → ℕ → ℕ → ℕ
search_loop zero f i j = i
search_loop (suc fuel) f i j =
    let h = (i + j) / 2 in
    let right = search_loop fuel f (h + 1) j in
    let left = search_loop fuel f i h in if ltb i j then (if f h then left else right) else i

unfoldable pub sort_search : ℕ → (ℕ → Bool) → ℕ
sort_search n f = search_loop n f 0 n

abbrev pub no_addr : AddrPort
no_addr = record { addr = invalid; port = 0 }

-- `Find`: the index, or `none` where the code returns -1.
unfoldable pub find : AddrSet → AddrPort → Option ℕ
find a addr =
    let i = sort_search (length a.addrs) (λ i. not (less (get_or a.addrs i no_addr) addr)) in
    elim (get_elem? a.addrs i) [ none ↦ none | some x ↦ if x == addr then some i else none ]

-- `Has`
unfoldable pub has : AddrSet → AddrPort → Bool
has a addr = elim (find a addr) [ none ↦ false | some i ↦ true ]

-- `sort.Sort` of the Go library: the sorted permutation.
unfoldable pub sort_insert : AddrPort → List AddrPort → List AddrPort
sort_insert x [] = x ∷ []
sort_insert x (y ∷ ys) = let rest = sort_insert x ys in if less x y then x ∷ y ∷ ys else y ∷ rest

unfoldable pub sort : List AddrPort → List AddrPort
sort [] = []
sort (x ∷ xs) = sort_insert x (sort xs)

-- `Add`
unfoldable pub add : AddrSet → AddrPort → AddrSet
add a addr = if not (has a addr) then record { addrs = sort (a.addrs ++ addr ∷ []) } else a

-- `Del`: `copy(a.addrs[i:], a.addrs[i+1:])` and the slice one shorter.
unfoldable pub del : AddrSet → AddrPort → AddrSet
del a addr = elim (find a addr) [
  | none ↦ a
  | some i ↦ record { addrs = take i a.addrs ++ drop (suc i) a.addrs }
]

-- `Len`
unfoldable pub size : AddrSet → ℕ
size a = length a.addrs
