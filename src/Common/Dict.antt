-- ===== src/Common/Dict.antt =====
-- Go's maps, as association lists over keys with decidable equality. The source ranges over a map
-- only where the order does not matter or is a parameter of the model.
use mathlib.Core.Path.{◌≡◌, refl}
use mathlib.Core.List.{List, [], ◌∷◌}
use mathlib.Core.Option.{Option, none, some}
use native.Mathlib.Omega.{arith}
use ddbr.Common.Tests.{if◌then◌else◌}
use ddbr.Common.Eq.{Eq, ◌==◌}

abbrev pub Dict {ℓ κ} : Type ℓ → Type κ → Type (ℓ ⊔ κ)
Dict K V = List (K × V)

module _ {ℓ κ} {K : Type ℓ} {V : Type κ} ⦃keys : Eq K⦄ where
  -- m[k], with its second result
  unfoldable pub lookup : K → Dict K V → Option V
  lookup key [] = none
  lookup key ((k, x) ∷ rest) = if k == key then some x else lookup key rest

  -- m[k] = v
  unfoldable pub insert : K → V → Dict K V → Dict K V
  insert key x [] = (key, x) ∷ []
  insert key x ((k, y) ∷ rest) = if k == key then (key, x) ∷ rest else (k, y) ∷ insert key x rest

  -- delete(m, k)
  unfoldable pub delete : K → Dict K V → Dict K V
  delete key [] = []
  delete key ((k, x) ∷ rest) =
      let kept = delete key rest in if k == key then kept else (k, x) ∷ kept

  pub lookup-insert :
      (key k : K) (x : V) (d : Dict K V)
      → lookup k (insert key x d) ≡ (if key == k then some x else lookup k d)
  unfolding lookup insert
  lookup-insert key k x [] = refl
  lookup-insert key k x ((i, y) ∷ rest) = ground (
    arith,
    lookup-insert key k x rest,
    keys.same_iff i key,
    keys.same_iff i k,
    keys.same_iff key k,
  )

  pub lookup-delete :
      (key k : K) (d : Dict K V) → lookup k (delete key d) ≡ (if key == k then none else lookup k d)
  unfolding lookup delete
  lookup-delete key k [] = ground arith
  lookup-delete key k ((i, x) ∷ rest) =
      ground (
        arith,
        lookup-delete key k rest,
        keys.same_iff i key,
        keys.same_iff i k,
        keys.same_iff key k,
      )
