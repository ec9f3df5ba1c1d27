-- ===== src/Prelude/Maps.antt =====
-- Rust's maps. A `HashMap` is an association list in its (unspecified) iteration order, a
-- `BTreeMap` one that is kept in the order of its keys.
use mathlib.Core.Path.{◌≡◌, refl}
use mathlib.Core.Logic.{◌≢◌}
use mathlib.Core.Bool.{Bool}
use mathlib.Core.Option.{Option, none, some}
use mathlib.Core.List.{List, [], ◌∷◌, map}
use native.Mathlib.Omega.{arith}
use loss_function.Prelude.Tests.{if◌then◌else◌, is_some}
use loss_function.Prelude.Keys.{Eq, Less, beq_refl, beq_ne}

abbrev pub Map {ℓ κ} : Type ℓ → Type κ → Type (ℓ ⊔ κ)
Map K V = List (K × V)

-- `values()`
abbrev pub values {ℓ κ} : {K : Type ℓ} {V : Type κ} → Map K V → List V
values m = map (λ p. p.1) m

module _ {ℓ κ} {K : Type ℓ} {V : Type κ} ⦃e : Eq K⦄ where
  -- `get`
  unfoldable pub lookup : K → Map K V → Option V
  lookup k [] = none
  lookup k ((j, v) ∷ m) = if e.beq k j then some v else lookup k m

  -- `contains_key`
  abbrev pub contains : K → Map K V → Bool
  contains k m = is_some (lookup k m)

  -- `HashMap::insert`
  unfoldable pub insert : K → V → Map K V → Map K V
  insert k v [] = (k, v) ∷ []
  insert k v ((j, w) ∷ m) = if e.beq k j then (k, v) ∷ m else (j, w) ∷ insert k v m

  -- `remove`
  unfoldable pub remove : K → Map K V → Map K V
  remove k [] = []
  remove k ((j, w) ∷ m) = let rest = remove k m in if e.beq k j then rest else (j, w) ∷ rest

  pub lookup-insert :
      (j k : K) (v : V) (m : Map K V)
      → lookup j (insert k v m) ≡ (if e.beq j k then some v else lookup j m)
  unfolding lookup insert
  lookup-insert j k v [] = refl
  lookup-insert j k v ((i, w) ∷ m) =
      ground (arith, lookup-insert j k v m, e.beq_iff j k, e.beq_iff k i, e.beq_iff j i)

  pub lookup-insert_self : (k : K) (v : V) (m : Map K V) → lookup k (insert k v m) ≡ some v
  lookup-insert_self k v m = simp (lookup-insert, beq_refl)

  pub lookup-insert_ne :
      (j k : K) (v : V) (m : Map K V) → j ≢ k → lookup j (insert k v m) ≡ lookup j m
  lookup-insert_ne j k v m h = rw (lookup-insert j k v m) (rw (beq_ne j k h))

  pub lookup-remove :
      (j k : K) (m : Map K V) → lookup j (remove k m) ≡ (if e.beq j k then none else lookup j m)
  unfolding lookup remove
  lookup-remove j k [] = ground arith
  lookup-remove j k ((i, w) ∷ m) =
      ground (arith, lookup-remove j k m, e.beq_iff j k, e.beq_iff k i, e.beq_iff j i)

module _ {ℓ κ} {K : Type ℓ} {V : Type κ} ⦃e : Eq K⦄ ⦃o : Less K⦄ where
  -- `BTreeMap::insert`
  unfoldable pub insert_sorted : K → V → Map K V → Map K V
  insert_sorted k v [] = (k, v) ∷ []
  insert_sorted k v ((j, w) ∷ m) =
      if e.beq k j
      then (k, v) ∷ m
      else if o.less k j
      then (k, v) ∷ (j, w) ∷ m
      else (j, w) ∷ insert_sorted k v m

  pub lookup-insert_sorted :
      (j k : K) (v : V) (m : Map K V)
      → lookup j (insert_sorted k v m) ≡ (if e.beq j k then some v else lookup j m)
  unfolding lookup insert_sorted
  lookup-insert_sorted j k v [] = refl
  lookup-insert_sorted j k v ((i, w) ∷ m) =
      ground (arith, lookup-insert_sorted j k v m, e.beq_iff j k, e.beq_iff k i, e.beq_iff j i)
