-- ===== src/Base/Maps.antt =====
-- Go maps as association lists. A key stands in a list at most once (`insert` deletes it first);
-- the order of the entries is of no meaning.
use mathlib.Core.Path.{◌≡◌}
use mathlib.Core.List.{List, [], ◌∷◌}
use mathlib.Core.Option.{Option, none, some}
use native.Mathlib.Omega.{arith}
use fatun.Base.Tests.{Comparable, ◌==◌, ==_iff, if◌then◌else◌}

abbrev pub GoMap {ℓ κ} : Type ℓ → Type κ → Type (ℓ ⊔ κ)
GoMap K V = List (K × V)

module _ {ℓ κ} {K : Type ℓ} {V : Type κ} ⦃e : Comparable K⦄ where
  unfoldable pub lookup : K → GoMap K V → Option V
  lookup k [] = none
  lookup k ((j, v) ∷ m) = if j == k then some v else lookup k m

  -- `delete(m, k)`
  unfoldable pub delete : K → GoMap K V → GoMap K V
  delete k [] = []
  delete k ((j, v) ∷ m) = let rest = delete k m in if j == k then rest else (j, v) ∷ rest

  -- `m[k] = v`
  unfoldable pub insert : K → V → GoMap K V → GoMap K V
  unfolding delete
  insert k v m = (k, v) ∷ delete k m

  pub lookup-delete :
      (k j : K) (m : GoMap K V) → lookup j (delete k m) ≡ (if k == j then none else lookup j m)
  unfolding lookup delete
  lookup-delete k j [] = ground arith
  lookup-delete k j ((i, v) ∷ m) =
      ground (arith, lookup-delete k j m, ==_iff i k, ==_iff i j, ==_iff k j)

  pub lookup-insert :
      (k j : K) (v : V) (m : GoMap K V)
      → lookup j (insert k v m) ≡ (if k == j then some v else lookup j m)
  unfolding lookup insert
  lookup-insert k j v m = ground (arith, lookup-delete k j m)
