-- ===== src/GoMap.antt =====
-- Go maps as association lists: `lookup` is `v, ok := m[k]`, `insert` is `m[k] = v`, and `erase`
-- is `delete(m, k)`.
use k8s_athenz_syncer.Common.{
  ◌≡◌, refl, Option, none, some, List, [], ◌∷◌, arith, Eq, ◌==◌, if◌then◌else◌,
}

abbrev pub GoMap {ℓ κ} : Type ℓ → Type κ → Type (ℓ ⊔ κ)
GoMap K V = List (K × V)

module _ {ℓ κ} {K : Type ℓ} {V : Type κ} ⦃e : Eq K⦄ where
  unfoldable pub lookup : GoMap K V → K → Option V
  lookup [] k = none
  lookup ((j, v) ∷ m) k = if k == j then some v else lookup m k

  unfoldable pub insert : GoMap K V → K → V → GoMap K V
  insert [] k v = (k, v) ∷ []
  insert ((j, w) ∷ m) k v = if k == j then (k, v) ∷ m else (j, w) ∷ insert m k v

  unfoldable pub erase : GoMap K V → K → GoMap K V
  erase [] k = []
  erase ((j, w) ∷ m) k = let rest = erase m k in if k == j then rest else (j, w) ∷ rest

  pub lookup_nil : (k : K) → lookup [] k ≡ none
  unfolding lookup
  lookup_nil k = refl

  pub lookup-insert :
      (m : GoMap K V) (k : K) (v : V) (j : K)
      → lookup (insert m k v) j ≡ (if j == k then some v else lookup m j)
  unfolding lookup insert
  lookup-insert [] k v j = refl
  lookup-insert ((i, w) ∷ m) k v j = ground (arith, lookup-insert m k v j)

  pub lookup-erase :
      (m : GoMap K V) (k j : K) → lookup (erase m k) j ≡ (if j == k then none else lookup m j)
  unfolding lookup erase
  lookup-erase [] k j = ground arith
  lookup-erase ((i, w) ∷ m) k j = ground (arith, lookup-erase m k j)
