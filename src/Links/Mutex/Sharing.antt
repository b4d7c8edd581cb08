-- ===== src/Links/Mutex/Sharing.antt =====
-- links/maps/mutx.go: which manager a call reaches.
use fatun.Base.{
  ℕ, zero, suc, ◌%◌, ◌<◌, ◌≡◌, ◌≢◌, refl, ap, ◌∙◌, true, none, some, List, [], ◌∷◌, arith, ok,
  returns, panics, Run-cases, Option-cases, inl, inr, length, get_elem?, set, max,
}
use fatun.Net.{Addr, v4, v6, invalid, as_slice, addr_is_valid}
use fatun.Links.{Uplink, Downlink}
use fatun.Links.Maps
use fatun.Links.Maps.{LinkManager, Env}
use fatun.Links.Mutex.{MutexManager, last, get_index, get, downlink, add, give_back}

pos_of_ne : (n : ℕ) → n ≢ 0 → 0 < n
pos_of_ne n h = omega arith

mod-lt-max : (b n : ℕ) → 0 < n → b % n < max n 4
mod-lt-max b n h = omega arith

-- What `NewMutxLinkManager` sets up.
pub record IsSized (m : MutexManager) : Type 0 where
  pub sized : length m.mgrs ≡ max m.mutex 4

get_elem?-lt {ℓ} : {A : Type ℓ} (xs : List A) (i : ℕ) → i < length xs → get_elem? xs i ≢ none
get_elem?-lt [] i h = absurd (omega arith)
get_elem?-lt (x ∷ xs) zero h = λ e. cc
get_elem?-lt (x ∷ xs) (suc i) h = get_elem?-lt xs i (omega arith)

last-as_slice : (a : Addr) → addr_is_valid a ≡ true → last (as_slice a) ≢ none
unfolding last as_slice
last-as_slice invalid v = absurd (ground arith)
last-as_slice (v4 a) v = λ e. cc
last-as_slice (v6 a) v = λ e. cc

get_of_last :
    (m : MutexManager) (server : Addr) (b : ℕ) (t : LinkManager)
    → last (as_slice server) ≡ some b
    → m.mutex ≢ 0
    → get_elem? m.mgrs (b % m.mutex) ≡ some t
    → get m server ≡ returns (b % m.mutex, record t { ap = m.ap })
unfolding get get_index
get_of_last m server b t at pos found = ground (arith, at, pos, found)

-- For a valid server address and a positive number of managers, `get` returns a manager of the
-- slice, with the shared pool of ports.
pub get_lem :
    (m : MutexManager) (server : Addr)
    → IsSized m
    → addr_is_valid server ≡ true
    → m.mutex ≢ 0
    → (i : ℕ) × (t : LinkManager) × (get m server ≡ returns (i, record t { ap = m.ap }))
      × (get_elem? m.mgrs i ≡ some t)
      × (i < length m.mgrs)
get_lem m server v valid pos = elim (Option-cases (last (as_slice server))) [
  | inl missing ↦ absurd (last-as_slice server valid missing)
  | inr (b, at) ↦
      let small : b % m.mutex < length m.mgrs =
        omega (arith, v.sized, mod-lt-max b m.mutex (pos_of_ne m.mutex pos)) in
      elim (Option-cases (get_elem? m.mgrs (b % m.mutex))) [
        | inl lost ↦ absurd (get_elem?-lt m.mgrs (b % m.mutex) small lost)
        | inr (t, found) ↦ (b % m.mutex, t, get_of_last m server b t at pos found, found, small)
      ]
]

-- With the number 0, which `max(mutx, 4)` provides managers for, `get` panics for every address.
pub get_zero : (m : MutexManager) (server : Addr) → m.mutex ≡ 0 → get m server ≡ panics
unfolding get get_index
get_zero m server none_left = elim (Option-cases (last (as_slice server))) [
  | inl missing ↦ ground (arith, missing)
  | inr (b, at) ↦ ground (arith, at, none_left)
]

get_index-give_back :
    (m : MutexManager) (server : Addr) (i : ℕ) (t : LinkManager)
    → get_index (give_back m i t) server ≡ get_index m server
unfolding get_index
get_index-give_back m server i t = refl

get_elem?-set_found {ℓ} :
    {A : Type ℓ} (xs : List A) (i : ℕ) (x y : A)
    → get_elem? xs i ≡ some x
    → get_elem? (set xs i y) i ≡ some y
get_elem?-set_found [] i x y h = cc
get_elem?-set_found (z ∷ xs) zero x y h = refl
get_elem?-set_found (z ∷ xs) (suc i) x y h = get_elem?-set_found xs i x y h

get-give_back :
    (m : MutexManager) (server : Addr) (i : ℕ) (t t' : LinkManager)
    → get m server ≡ returns (i, t)
    → get (give_back m i t') server ≡ returns (i, t')
unfolding get
get-give_back m server i t t' e = elim (Run-cases (get_index m server)) [
  | inl bad ↦ absurd (ground (arith, bad, e))
  | inr (j, at) ↦ elim (Option-cases (get_elem? m.mgrs j)) [
    | inl lost ↦ absurd (ground (arith, at, lost, e))
    | inr (old, found) ↦
        let same : j ≡ i = ground (arith, at, found, e) in
        ground (
          arith,
          at,
          same,
          get_elem?-set_found m.mgrs j old t' found,
          get_index-give_back m server j t',
        )
  ]
]

-- A call that reaches the managers through the address of a server finds what the last call through
-- that address left, so an added link is led back: `Downlink` through a `mutxLinkManager` after its
-- `Add` answers what `Downlink` of the chosen manager answers after that manager's `Add`.
pub downlink-add :
    (env : Env) (m m' : MutexManager) (u : Uplink) (conn p : ℕ) (d : Downlink)
    → d.server.addr ≡ u.server.addr
    → add env m u conn ≡ returns (ok p, m')
    → (i : ℕ) × (t t' : LinkManager) × (get m u.server.addr ≡ returns (i, t))
      × (Maps.add env t u conn ≡ returns (ok p, t'))
      × (downlink m' d ≡ returns (Maps.downlink t' d))
unfolding add downlink
downlink-add env m m' u conn p d same ran = elim (Run-cases (get m u.server.addr)) [
  | inl bad ↦ absurd (ground (arith, bad, ran))
  | inr ((i, t), got) ↦ elim (Run-cases (Maps.add env t u conn)) [
    | inl bad ↦ absurd (ground (arith, got, bad, ran))
    | inr ((out, t'), added) ↦
        let good : out ≡ ok p = ground (arith, got, added, ran) in
        let left : m' ≡ give_back m i t' = ground (arith, got, added, ran) in
        (
          i,
          t,
          t',
          got,
          added ∙ ap (λ o. returns (o, t')) good,
          rw (same, left, get-give_back m u.server.addr i t t' got),
        )
  ]
]
