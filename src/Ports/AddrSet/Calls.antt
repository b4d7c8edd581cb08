-- ===== src/Ports/AddrSet/Calls.antt =====
-- ports/adapter.go: sequences of calls on an AddrSet, and the sets of addresses that they stand for.
use fatun.Base.{
  ◌↔◌, inl, inr, Bool-cases, ◌≡◌, refl, sym, ap, ap₂, subst, ◌∙◌, Bool, not, ◌&&◌, ◌||◌, List, [],
  ◌∷◌, arith, ◌==◌,
}
use mathlib.Core.HLevel.{hedberg}
use mathlib.Core.List.{List-discrete}
use mathlib.Core.Quot
use mathlib.Core.Quot.{Quot, Quot-set}
use fatun.Net.{AddrPort, addr_port_has_eq, addr_port_eq_iff}
use fatun.Ports.AddrSet.{AddrSet, has, add, del}
use fatun.Ports.AddrSet.Search.{less_irrefl, less_trans, Above, IsSorted}
use fatun.Ports.AddrSet.Laws.{
  elem, Above-elem, has-elem, add-IsSorted, has-add, del-IsSorted, has-del,
}

-- A call that changes a set.
pub data Call : Type 0 where
  adding deleting : AddrPort → Call

pub after : List Call → AddrSet → AddrSet
after [] s = s
after (adding a ∷ cs) s = after cs (add s a)
after (deleting a ∷ cs) s = after cs (del s a)

-- What the calls do to a set of addresses, given by its members.
pub members : List Call → (AddrPort → Bool) → AddrPort → Bool
members [] p b = p b
members (adding a ∷ cs) p b = members cs (λ c. (a == c) || p c) b
members (deleting a ∷ cs) p b = members cs (λ c. not (a == c) && p c) b

members_same :
    (cs : List Call) (p q : AddrPort → Bool)
    → ((b : AddrPort) → p b ≡ q b)
    → (b : AddrPort) → members cs p b ≡ members cs q b
unfolding members
members_same [] p q h b = h b
members_same (adding a ∷ cs) p q h b =
    members_same cs (λ c. (a == c) || p c) (λ c. (a == c) || q c)
      (λ c. ap (λ x. (a == c) || x) (h c)) b
members_same (deleting a ∷ cs) p q h b =
    members_same cs (λ c. not (a == c) && p c) (λ c. not (a == c) && q c)
      (λ c. ap (λ x. not (a == c) && x) (h c)) b

after-IsSorted : (cs : List Call) (s : AddrSet) → IsSorted s.addrs → IsSorted (after cs s).addrs
unfolding after
after-IsSorted [] s v = v
after-IsSorted (adding a ∷ cs) s v = after-IsSorted cs (add s a) (add-IsSorted s a v)
after-IsSorted (deleting a ∷ cs) s v = after-IsSorted cs (del s a) (del-IsSorted s a v)

has-after :
    (cs : List Call) (s : AddrSet) (b : AddrPort)
    → IsSorted s.addrs
    → has (after cs s) b ≡ members cs (has s) b
unfolding after members
has-after [] s b v = refl
has-after (adding a ∷ cs) s b v =
    has-after cs (add s a) b (add-IsSorted s a v)
    ∙ members_same cs (has (add s a)) (λ c. (a == c) || has s c) (λ c. has-add s a c v) b
has-after (deleting a ∷ cs) s b v =
    has-after cs (del s a) b (del-IsSorted s a v)
    ∙ members_same cs (has (del s a)) (λ c. not (a == c) && has s c) (λ c. has-del s a c v) b

same_head :
    (x y : AddrPort) (xs ys : List AddrPort)
    → Above x xs
    → Above y ys
    → ((b : AddrPort) → elem b (x ∷ xs) ≡ elem b (y ∷ ys))
    → x ≡ y
unfolding elem
same_head x y xs ys v w h = ground (
  arith,
  h x,
  h y,
  addr_port_eq_iff x x,
  addr_port_eq_iff y y,
  addr_port_eq_iff x y,
  addr_port_eq_iff y x,
  Above-elem x y ys w,
  Above-elem y x xs v,
  less_trans x y x,
  less_irrefl x,
)

same_tail :
    (x : AddrPort) (xs ys : List AddrPort)
    → Above x xs
    → Above x ys
    → ((b : AddrPort) → elem b (x ∷ xs) ≡ elem b (x ∷ ys))
    → (b : AddrPort) → elem b xs ≡ elem b ys
unfolding elem
same_tail x xs ys v w h b =
    ground
      (arith, h b, addr_port_eq_iff x b, Above-elem b x xs v, Above-elem b x ys w, less_irrefl x)

-- Two sorted slices with the same elements are the same.
sorted_same :
    (xs ys : List AddrPort)
    → IsSorted xs
    → IsSorted ys
    → ((b : AddrPort) → elem b xs ≡ elem b ys)
    → xs ≡ ys
unfolding elem
sorted_same [] [] v w h = refl
sorted_same [] (y ∷ ys) v w h = absurd (ground (arith, h y, addr_port_eq_iff y y))
sorted_same (x ∷ xs) [] v w h = absurd (ground (arith, h x, addr_port_eq_iff x x))
sorted_same (x ∷ xs) (y ∷ ys) v w h =
    let heads = same_head x y xs ys v.0 w.0 h in
    let v' = subst (λ z. Above z xs) heads v.0 in
    let h' = λ (b : AddrPort). ap (λ z. elem b (z ∷ xs)) (sym heads) ∙ h b in
    ap₂ (λ (z : AddrPort) (zs : List AddrPort). z ∷ zs) heads
      (sorted_same xs ys v.1 w.1 (same_tail y xs ys v' w.0 h'))

-- After any calls on a sorted set the slice is sorted, and its addresses are those that the calls leave
-- of the addresses that were there.
pub after-members :
    (cs : List Call) (s : AddrSet)
    → IsSorted s.addrs
    → IsSorted (after cs s).addrs × ((b : AddrPort) → has (after cs s) b ≡ members cs (has s) b)
after-members cs s v = (after-IsSorted cs s v, λ b. has-after cs s b v)

-- Calls that leave the same addresses.
abbrev pub Agree : AddrSet → List Call → List Call → Type 0
Agree s cs ds = (b : AddrPort) → members cs (has s) b ≡ members ds (has s) b

after-Agree :
    (s : AddrSet) (cs ds : List Call) → IsSorted s.addrs → Agree s cs ds → after cs s ≡ after ds s
after-Agree s cs ds v same =
    ap (λ xs. record { addrs = xs })
      (sorted_same (after cs s).addrs (after ds s).addrs (after-IsSorted cs s v)
        (after-IsSorted ds s v)
        (λ b.
          sym (has-elem (after cs s) b (after-IsSorted cs s v))
          ∙ (has-after cs s b v
              ∙ (same b
                  ∙ (sym (has-after ds s b v) ∙ has-elem (after ds s) b (after-IsSorted ds s v))))))

addr_port_discrete : Discrete AddrPort
addr_port_discrete a b = elim (Bool-cases (a == b)) [
  | inl e ↦ yes ((addr_port_eq_iff a b).0 e)
  | inr e ↦ no (λ p. ground (arith, addr_port_eq_iff a b))
]

AddrSet-set : IsSet AddrSet
AddrSet-set = hedberg (λ s t. elim (List-discrete addr_port_discrete s.addrs t.addrs) [
  | yes e ↦ yes (ap (λ xs. record { addrs = xs }) e)
  | no n ↦ no (λ p. n (ap (λ r. r.addrs) p))
])

-- Calls on a set, as far as they leave other addresses, and the set that they leave.
abbrev pub Calls : AddrSet → Type 0
Calls s = Quot (Agree s)

abbrev pub class : (s : AddrSet) → List Call → Calls s
class s cs = Quot.mk cs

pub slice : (s : AddrSet) → IsSorted s.addrs → Calls s → AddrSet
slice s v = Quot.lift AddrSet-set (λ cs. after cs s) (λ cs ds same. after-Agree s cs ds v same)

slice-mk :
    (s : AddrSet) (v : IsSorted s.addrs) (cs ds : List Call)
    → after cs s ≡ after ds s
    → class s cs ≡ class s ds
slice-mk s v cs ds e =
    Quot.sound (λ b. sym (has-after cs s b v) ∙ (ap (λ t. has t b) e ∙ has-after ds s b v))

slice_mk : (s : AddrSet) (v : IsSorted s.addrs) (p q : Calls s) → slice s v p ≡ slice s v q → p ≡ q
unfolding slice
slice_mk s v =
    Quot.ind (λ p. hlevel Quot-set)
      (λ cs. Quot.ind (λ q. hlevel Quot-set) (λ ds. slice-mk s v cs ds))

-- On a sorted set, the slice that calls leave is determined by the addresses that they leave, whatever
-- the calls and their order, and determines these: two classes of calls that leave the same addresses
-- are equal exactly if their slices are.
pub slice_same :
    (s : AddrSet) (v : IsSorted s.addrs) (p q : Calls s) → (slice s v p ≡ slice s v q) ↔ (p ≡ q)
slice_same s v p q = (slice_mk s v p q, λ e. ap (slice s v) e)
