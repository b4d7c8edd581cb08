-- ===== src/Links/Maps/Registered.antt =====
-- links/maps/maps.go: the ports that the uplinks are registered under, and the keys of the queue.
use fatun.Base.{
  ℕ, ◌/◌, ◌^◌, ◌<◌, ◌≡◌, ◌≢◌, sym, Option, none, some, List, [], ◌∷◌, ◌++◌, arith, All,
  if◌then◌else◌, ◌==◌,
}
use fatun.Base.Maps.{GoMap, lookup, insert, delete, lookup-insert, lookup-delete}
use fatun.Links.{Uplink, uplink_eq_iff, uplink_has_eq}
use fatun.Links.Maps.{TtlKey}

-- The port registered for an uplink.
abbrev pub reg : GoMap Uplink ℕ → Uplink → Option ℕ
reg m s = elim (lookup s m) [ none ↦ none | some d ↦ some (d / 2 ^ 48) ]

pub reg-delete :
    (m : GoMap Uplink ℕ) (k s : Uplink) → reg (delete k m) s ≡ (if k == s then none else reg m s)
reg-delete m k s = ground (arith, lookup-delete k s m)

pub reg-insert :
    (m : GoMap Uplink ℕ) (k s : Uplink) (d : ℕ)
    → reg (insert k d m) s ≡ (if k == s then some (d / 2 ^ 48) else reg m s)
reg-insert m k s d = ground (arith, lookup-insert k s d m)

-- The words of the map are 64 bits wide.
abbrev pub Words : GoMap Uplink ℕ → Type 0
Words m = (s : Uplink) (d : ℕ) → lookup s m ≡ some d → d < 2 ^ 64

-- Each key waiting for expiry is registered, and stands in the queue once.
abbrev pub Apart : Uplink → List TtlKey → Type 0
Apart u = All (λ k. u ≢ k.up)

abbrev pub Keys : GoMap Uplink ℕ → List TtlKey → Type 0
Keys m [] = Unit {0}
Keys m (k ∷ ks) = (reg m k.up ≢ none) × Apart k.up ks × Keys m ks

pub Keys-delete :
    (m : GoMap Uplink ℕ) (u : Uplink) (ks : List TtlKey)
    → Apart u ks
    → Keys m ks
    → Keys (delete u m) ks
Keys-delete m u [] a v = tt
Keys-delete m u (k ∷ ks) a v = (
  λ e. v.0 (ground (arith, reg-delete m u k.up, uplink_eq_iff u k.up, e, a.0)),
  v.1,
  Keys-delete m u ks a.1 v.2,
)

pub Keys-insert :
    (m : GoMap Uplink ℕ) (u : Uplink) (d : ℕ) (ks : List TtlKey)
    → Keys m ks
    → Keys (insert u d m) ks
Keys-insert m u d [] v = tt
Keys-insert m u d (k ∷ ks) v =
    (λ e. v.0 (ground (arith, reg-insert m u k.up d, e)), v.1, Keys-insert m u d ks v.2)

pub Apart-append :
    (u : Uplink) (ks : List TtlKey) (k : TtlKey) → Apart u ks → u ≢ k.up → Apart u (ks ++ k ∷ [])
Apart-append u [] k a ne = (ne, tt)
Apart-append u (j ∷ ks) k a ne = (a.0, Apart-append u ks k a.1 ne)

pub Keys-append :
    (m : GoMap Uplink ℕ) (ks : List TtlKey) (k : TtlKey)
    → Keys m ks
    → reg m k.up ≢ none
    → Apart k.up ks
    → Keys m (ks ++ k ∷ [])
Keys-append m [] k v r a = (r, tt, tt)
Keys-append m (j ∷ ks) k v r a =
    (v.0, Apart-append j.up ks k v.1 (λ e. a.0 (sym e)), Keys-append m ks k v.2 r a.1)
