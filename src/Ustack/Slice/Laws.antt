-- ===== src/Ustack/Slice/Laws.antt =====
-- ustack/link/list.go, type slice: what it keeps, drops and gives.
use fatun.Base.{
  ℕ, ◌<◌, ◌≤◌, ◌≡◌, refl, sym, ap, subst, ◌∙◌, ◌⊎◌, inl, inr, true, false, Option, none, some, List,
  [], ◌∷◌, ◌++◌, arith, All, returns, Run-cases, if◌then◌else◌, ◌=ᵇ◌, length, length-append, drop,
}
use fatun.Net.{AddrPort}
use fatun.Ustack.Slice.{
  PacketBuffer, matches, Slice, new_slice, new_list, get, get_by, put, take_match,
}

pub record IsValid (l : Slice) : Type 0 where
  pub room : 0 < l.cap
  pub bounded : length l.s ≤ l.cap

-- What is left of the packets when one more comes.
abbrev pub kept : Slice → List PacketBuffer
kept l = if length l.s =ᵇ l.cap then drop 1 l.s else l.s

put_run :
    (p : PacketBuffer) (xs : List PacketBuffer) (cap : ℕ)
    → 0 < cap
    → let l : Slice = record { s = xs; cap = cap } in
      put (some p) l ≡ returns (true, record l { s = kept l ++ p ∷ [] })
unfolding put get
put_run p [] cap room = ground arith
put_run p (x ∷ xs) cap room = ground arith

length-kept :
    (xs : List PacketBuffer) (cap : ℕ)
    → 0 < cap
    → length xs ≤ cap
    → length (kept (record { s = xs; cap = cap })) < cap
length-kept [] cap room h = ground arith
length-kept (x ∷ xs) cap room h = ground arith

-- `Put` of a packet on a valid queue succeeds, keeps the capacity, and appends the packet, with the
-- oldest one dropped exactly if the queue was full.
pub put-kept :
    (p : PacketBuffer) (l : Slice)
    → IsValid l
    → (l' : Slice) × (put (some p) l ≡ returns (true, l'))
      × IsValid l'
      × (l'.cap ≡ l.cap)
      × (l'.s ≡ kept l ++ p ∷ [])
put-kept p l v = (
  record l { s = kept l ++ p ∷ [] },
  put_run p l.s l.cap v.room,
  record {
    room = v.room;
    bounded =
        omega (arith, length-append (kept l) (p ∷ []), length-kept l.s l.cap v.room v.bounded);
  },
  refl,
  refl,
)

-- A list of the endpoint starts valid, whatever size it is asked for.
pub new_list-IsValid : (buff : ℕ) → IsValid (new_list buff)
unfolding new_list new_slice
new_list-IsValid buff = record { room = omega arith; bounded = omega arith }

-- The packets do not match.
abbrev pub NoMatch : AddrPort → List PacketBuffer → Type 0
NoMatch dst = All (λ p. matches p dst ≡ returns false)

-- What `getBy` answers: no packet matches and all stay, or the first match is taken out.
abbrev pub Took : AddrPort → List PacketBuffer → Option PacketBuffer → List PacketBuffer → Type 0
Took dst xs out left =
    ((out ≡ none) × (left ≡ xs) × NoMatch dst xs)
    ⊎ ((before after : List PacketBuffer) × (p : PacketBuffer) × (out ≡ some p)
        × (xs ≡ before ++ p ∷ after)
        × (left ≡ before ++ after)
        × NoMatch dst before
        × (matches p dst ≡ returns true))

-- `getBy` that does not panic takes the oldest packet for the destination and leaves the others in
-- their order, or leaves all if none is for it.
pub take_match-Took :
    (dst : AddrPort) (xs : List PacketBuffer) (out : Option PacketBuffer) (left : List PacketBuffer)
    → take_match dst xs ≡ returns (out, left)
    → Took dst xs out left
unfolding take_match
take_match-Took dst [] out left h = inl (ground arith, ground arith, tt)
take_match-Took dst (p ∷ ps) out left h = elim (Run-cases (matches p dst)) [
  | inl bad ↦ absurd (ground (arith, bad, h))
  | inr (true, m) ↦ inr ([], ps, p, ground (arith, m, h), refl, ground (arith, m, h), tt, m)
  | inr (false, m) ↦ elim (Run-cases (take_match dst ps)) [
    | inl bad ↦ absurd (ground (arith, m, bad, h))
    | inr ((o, rest), r) ↦
        let same : o ≡ out = ground (arith, m, r, h) in
        let more : left ≡ p ∷ rest = ground (arith, m, r, h) in
        later m same more (take_match-Took dst ps o rest r)
  ]
]
  where
    later :
        {o : Option PacketBuffer} {rest : List PacketBuffer}
        → matches p dst ≡ returns false
        → o ≡ out
        → left ≡ p ∷ rest
        → Took dst ps o rest
        → Took dst (p ∷ ps) out left
    later m same more (inl (nothing, all, n)) =
        inl (sym same ∙ nothing, more ∙ ap (◌∷◌ p) all, (m, n))
    later m same more (inr (before, after, q, found, split, rest, n, hit)) = inr (
      p ∷ before,
      after,
      q,
      sym same ∙ found,
      ap (◌∷◌ p) split,
      more ∙ ap (◌∷◌ p) rest,
      (m, n),
      hit,
    )

pub get_by-Took :
    (dst : AddrPort) (l l' : Slice) (out : Option PacketBuffer)
    → get_by dst l ≡ returns (out, l')
    → Took dst l.s out l'.s
unfolding get_by
get_by-Took dst l l' out e = elim (Run-cases (take_match dst l.s)) [
  | inl bad ↦ absurd (ground (arith, bad, e))
  | inr ((o, left), ran) ↦
      let same : o ≡ out = ground (arith, ran, e) in
      let rest : left ≡ l'.s = ground (arith, ran, e) in
      subst (λ x. Took dst l.s x l'.s) same
        (subst (Took dst l.s o) rest (take_match-Took dst l.s o left ran))
]
