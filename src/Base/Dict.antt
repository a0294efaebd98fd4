-- ===== src/Base/Dict.antt =====
-- `HashMap<K, V>` as an association list, and `HashSet<K>` as a list. The order in which a hash map is
-- walked is not specified; here it is the list's, and no theorem depends on which order that is.
use mathlib.Core.Path.{◌≡◌, refl}
use mathlib.Core.Bool.{Bool, true, false}
use mathlib.Core.Option.{Option, none, some}
use mathlib.Core.List.{List, [], ◌∷◌}
use native.Mathlib.Omega.{arith}
use aether_link.Base.Tests.{if◌then◌else◌}
use aether_link.Base.Equality.{Eq, ◌==◌}

abbrev pub Dict {ℓ κ} : Type ℓ → Type κ → Type (ℓ ⊔ κ)
Dict K V = List (K × V)

module _ {κ} {V : Type κ} where
  abbrev pub keep_if : (V → Bool) → Option V → Option V
  keep_if p none = none
  keep_if p (some v) = if p v then some v else none

module _ {ℓ κ} {K : Type ℓ} {V : Type κ} where
  -- `values()`
  unfoldable pub values : Dict K V → List V
  values [] = []
  values ((k, v) ∷ d) = v ∷ values d

module _ {ℓ κ} {K : Type ℓ} {V : Type κ} ⦃e : Eq K⦄ where
  -- `get`
  unfoldable pub lookup : K → Dict K V → Option V
  lookup k [] = none
  lookup k ((j, v) ∷ d) = if k == j then some v else lookup k d

  -- `contains_key`
  unfoldable pub contains_key : K → Dict K V → Bool
  contains_key k [] = false
  contains_key k ((j, v) ∷ d) = if k == j then true else contains_key k d

  -- `insert`
  unfoldable pub insert : K → V → Dict K V → Dict K V
  insert k v [] = (k, v) ∷ []
  insert k v ((j, w) ∷ d) = if k == j then (k, v) ∷ d else (j, w) ∷ insert k v d

  -- `remove`
  unfoldable pub erase : K → Dict K V → Dict K V
  erase k [] = []
  erase k ((j, w) ∷ d) = let rest = erase k d in if k == j then rest else (j, w) ∷ rest

  abbrev pub NodupKeys : Dict K V → Type κ
  NodupKeys [] = Unit
  NodupKeys ((k, _) ∷ d) = (lookup k d ≡ none) × NodupKeys d

  pub lookup-nil : (k : K) → lookup k [] ≡ none
  unfolding lookup
  lookup-nil k = refl

  pub lookup-cons :
      (j k : K) (v : V) (d : Dict K V)
      → lookup j ((k, v) ∷ d) ≡ (if j == k then some v else lookup j d)
  unfolding lookup
  lookup-cons j k v d = refl

  pub lookup-insert :
      (j k : K) (v : V) (d : Dict K V)
      → lookup j (insert k v d) ≡ (if j == k then some v else lookup j d)
  unfolding insert lookup
  lookup-insert j k v [] = refl
  lookup-insert j k v (_ ∷ d) = ground (arith, lookup-insert j k v d)

  pub lookup-erase :
      (j k : K) (d : Dict K V) → lookup j (erase k d) ≡ (if j == k then none else lookup j d)
  unfolding erase lookup
  lookup-erase j k [] = ground arith
  lookup-erase j k (_ ∷ d) = ground (arith, lookup-erase j k d)

  pub contains_key-lookup :
      (k : K) (d : Dict K V) → contains_key k d ≡ elim (lookup k d) [ none ↦ false | some _ ↦ true ]
  unfolding contains_key lookup
  contains_key-lookup k [] = refl
  contains_key-lookup k ((j, v) ∷ d) = ground (arith, contains_key-lookup k d)

  pub insert-NodupKeys : (k : K) (v : V) (d : Dict K V) → NodupKeys d → NodupKeys (insert k v d)
  unfolding insert
  insert-NodupKeys k v [] _ = (lookup-nil k, tt)
  insert-NodupKeys k v ((j, _) ∷ d) (fresh, u) =
      ground (arith, insert-NodupKeys k v d u, lookup-insert j k v d)

  pub erase-NodupKeys : (k : K) (d : Dict K V) → NodupKeys d → NodupKeys (erase k d)
  unfolding erase
  erase-NodupKeys k [] _ = tt
  erase-NodupKeys k ((j, _) ∷ d) (fresh, u) =
      ground (arith, erase-NodupKeys k d u, lookup-erase j k d)

module _ {ℓ κ} {K : Type ℓ} {V : Type κ} ⦃e : Eq K⦄ where
  -- `retain(|_, v| p(v))`
  unfoldable pub retain_values : (V → Bool) → Dict K V → Dict K V
  retain_values p [] = []
  retain_values p ((k, v) ∷ d) = let rest = retain_values p d in if p v then (k, v) ∷ rest else rest

  retain-none :
      (p : V → Bool) (k : K) (d : Dict K V)
      → lookup k d ≡ none
      → lookup k (retain_values p d) ≡ none
  unfolding lookup retain_values
  retain-none p k [] h = refl
  retain-none p k ((j, v) ∷ d) h = ground (arith, retain-none p k d)

  pub lookup-retain_values :
      (p : V → Bool) (k : K) (d : Dict K V)
      → NodupKeys d
      → lookup k (retain_values p d) ≡ keep_if p (lookup k d)
  unfolding lookup retain_values
  lookup-retain_values p k [] u = refl
  lookup-retain_values p k ((j, v) ∷ d) (fresh, u) =
      ground (arith, lookup-retain_values p k d u, retain-none p k d, retain-none p j d)

  pub retain_values-NodupKeys :
      (p : V → Bool) (d : Dict K V) → NodupKeys d → NodupKeys (retain_values p d)
  unfolding retain_values
  retain_values-NodupKeys p [] u = tt
  retain_values-NodupKeys p ((j, v) ∷ d) (fresh, u) =
      ground (arith, retain_values-NodupKeys p d u, retain-none p j d)
