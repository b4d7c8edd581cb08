-- ===== src/Ports/AddrSet/Sizes.antt =====
-- ports/adapter.go, AddrSet: how many remotes a set holds.
use fatun.Ports.AddrSet.Laws.{elem, has-elem, find_index, length-without, length-of_elem}
use fatun.Base.{
  ◌+◌, ◌<◌, ◌≡◌, refl, true, false, List, [], ◌∷◌, ◌++◌, arith, if◌then◌else◌, length,
  length-append,
}
use fatun.Net.{AddrPort, addr_port_has_eq}
use fatun.Ports.AddrSet.{AddrSet, has, sort_insert, sort, add, del, size}
use fatun.Ports.AddrSet.Search.{IsSorted}

pub length-sort_insert :
    (x : AddrPort) (ys : List AddrPort) → length (sort_insert x ys) ≡ length ys + 1
unfolding sort_insert
length-sort_insert x [] = omega arith
length-sort_insert x (y ∷ ys) = ground (arith, length-sort_insert x ys)

pub length-sort : (xs : List AddrPort) → length (sort xs) ≡ length xs
unfolding sort
length-sort [] = refl
length-sort (x ∷ xs) = omega (arith, length-sort_insert x (sort xs), length-sort xs)

-- `Add` adds at most one address.
pub size-add :
    (s : AddrSet) (a : AddrPort) → size (add s a) ≡ (if has s a then size s else size s + 1)
unfolding size add
size-add s a = ground (arith, length-sort (s.addrs ++ a ∷ []), length-append s.addrs (a ∷ []))

-- `Del` removes exactly the address that it is given.
pub size-del :
    (s : AddrSet) (a : AddrPort)
    → IsSorted s.addrs
    → size (del s a) + (if has s a then 1 else 0) ≡ size s
unfolding size del
size-del s a v = ground (arith, find_index s a v, has-elem s a v, length-without a s.addrs v)

pub size-pos_of_has : (s : AddrSet) (a : AddrPort) → IsSorted s.addrs → has s a ≡ true → 0 < size s
size-pos_of_has s a v h = unfold size in ground (arith, has-elem s a v, length-of_elem a s.addrs)

pub size-add_pos : (s : AddrSet) (a : AddrPort) → IsSorted s.addrs → 0 < size (add s a)
unfolding elem
size-add_pos s a v = ground (arith, size-add s a, size-pos_of_has s a v)

pub has-empty : (a : AddrPort) → has (record { addrs = [] }) a ≡ false
unfolding elem
has-empty a = has-elem (record { addrs = [] }) a tt
