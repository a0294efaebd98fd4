-- ===== src/Base/Sets.antt =====
-- `HashSet` and `BTreeSet` as lists, and changing the value of a key in place.
use mathlib.Core.Path.{◌≡◌, refl}
use mathlib.Core.Bool.{Bool, true, false, not, ◌||◌, ◌&&◌}
use mathlib.Core.Option.{Option, none, some}
use mathlib.Core.List.{List, [], ◌∷◌}
use native.Mathlib.Omega.{arith}
use aether_link.Base.Tests.{if◌then◌else◌}
use aether_link.Base.Lists.{All}
use aether_link.Base.Equality.{Eq, ◌==◌, contains}
use aether_link.Base.Dict
use aether_link.Base.Dict.{Dict, NodupKeys, lookup-insert, insert-NodupKeys}

-- `unwrap_or(x)`
abbrev pub unwrap_or {ℓ} : {A : Type ℓ} → Option A → A → A
unwrap_or none x = x
unwrap_or (some a) x = a

abbrev pub is_some {ℓ} : {A : Type ℓ} → Option A → Bool
is_some none = false
is_some (some a) = true

abbrev pub map_option {ℓ κ} : {A : Type ℓ} {B : Type κ} → (A → B) → Option A → Option B
map_option f none = none
map_option f (some a) = some (f a)

module _ {ℓ} {A : Type ℓ} ⦃e : Eq A⦄ where
  -- `insert` and `remove` of a set
  unfoldable pub set_insert : A → List A → List A
  set_insert a xs = if contains xs a then xs else a ∷ xs

  unfoldable pub set_remove : A → List A → List A
  set_remove a [] = []
  set_remove a (x ∷ xs) = let rest = set_remove a xs in if x == a then rest else x ∷ rest

  pub contains-set_insert :
      (a b : A) (xs : List A) → contains (set_insert a xs) b ≡ (a == b || contains xs b)
  unfolding set_insert
  contains-set_insert a b xs = ground arith

  pub contains-set_remove :
      (a b : A) (xs : List A) → contains (set_remove a xs) b ≡ (not (a == b) && contains xs b)
  unfolding set_remove
  contains-set_remove a b [] = ground arith
  contains-set_remove a b (x ∷ xs) = ground (arith, contains-set_remove a b xs)

module _ {ℓ κ} {K : Type ℓ} {V : Type κ} ⦃e : Eq K⦄ where
  put_back : K → (V → V) → Option V → Dict K V → Dict K V
  put_back k f none d = d
  put_back k f (some v) d = Dict.insert k (f v) d

  -- `if let Some(v) = d.get_mut(k) { *v = f(v) }`
  unfoldable pub update : K → (V → V) → Dict K V → Dict K V
  unfolding put_back
  update k f d = put_back k f (Dict.lookup k d) d

  lookup-put_back :
      (j k : K) (f : V → V) (o : Option V) (d : Dict K V)
      → Dict.lookup k d ≡ o
      → Dict.lookup j (put_back k f o d) ≡ (if j == k then map_option f o else Dict.lookup j d)
  unfolding put_back
  lookup-put_back j k f none d h = ground arith
  lookup-put_back j k f (some v) d h = ground (arith, lookup-insert j k (f v) d)

  pub lookup-update :
      (j k : K) (f : V → V) (d : Dict K V)
      → Dict.lookup j (update k f d)
        ≡ (if j == k then map_option f (Dict.lookup k d) else Dict.lookup j d)
  unfolding update
  lookup-update j k f d = lookup-put_back j k f (Dict.lookup k d) d refl

  -- Every key of a dictionary has a value.
  abbrev pub HasKey : Dict K V → K × V → Type 0
  HasKey d (k, v) = is_some (Dict.lookup k d) ≡ true

  HasKey-cons : (entry : K × V) (d xs : Dict K V) → All (HasKey d) xs → All (HasKey (entry ∷ d)) xs
  unfolding Dict.lookup
  HasKey-cons entry d [] h = tt
  HasKey-cons (k, v) d ((j, w) ∷ xs) (h, hs) = (ground arith, HasKey-cons (k, v) d xs hs)

  pub HasKey-All : (d : Dict K V) → All (HasKey d) d
  unfolding Dict.lookup
  HasKey-All [] = tt
  HasKey-All ((k, v) ∷ d) = (ground arith, HasKey-cons (k, v) d d (HasKey-All d))
