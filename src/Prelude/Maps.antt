-- ===== src/Prelude/Maps.antt =====
-- Go maps with string keys, as association lists. The order of a Go map is not defined; nothing
-- here depends on the order of the list.
use Prim.Native.Nat.{◌+◌, ◌≤◌, ◌<◌}
use mathlib.Core.Bool.{true}
use mathlib.Core.List.{List, [], ◌∷◌}
use mathlib.Core.Option.{Option, none, some}
use mathlib.Core.Option
use mathlib.Core.Path.{◌≡◌, refl}
use native.Mathlib.Omega.{arith}
use interactsh_lite.Prelude.Lists.{Bytes, equal, equal_iff, equal_refl, length}
use interactsh_lite.Prelude.Tests.{if◌then◌else◌, is_some}

abbrev pub Map {ℓ} : Type ℓ → Type ℓ
Map V = List (Bytes × V)

module _ {ℓ} {V : Type ℓ} where
  -- `m[k]`.
  unfoldable pub lookup : Bytes → Map V → Option V
  lookup k [] = none
  lookup k ((j, v) ∷ m) = if equal j k then some v else lookup k m

  -- `m[k] = v`.
  unfoldable pub insert : Bytes → V → Map V → Map V
  insert k v [] = (k, v) ∷ []
  insert k v (e ∷ m) = let rest = insert k v m in if equal e.0 k then (k, v) ∷ m else e ∷ rest

  -- `delete(m, k)`.
  unfoldable pub remove : Bytes → Map V → Map V
  remove k [] = []
  remove k ((j, w) ∷ m) = let rest = remove k m in if equal j k then rest else (j, w) ∷ rest

  pub lookup-insert :
      (k j : Bytes) (v : V) (m : Map V)
      → lookup j (insert k v m) ≡ (if equal k j then some v else lookup j m)
  unfolding lookup insert
  lookup-insert k j v ((i, w) ∷ m) =
      ground (arith, lookup-insert k j v m, equal_iff i k, equal_iff i j, equal_iff k j)
  lookup-insert k j v [] = refl

  pub lookup-remove :
      (k j : Bytes) (m : Map V) → lookup j (remove k m) ≡ (if equal k j then none else lookup j m)
  unfolding lookup remove
  lookup-remove k j [] = ground arith
  lookup-remove k j ((i, w) ∷ m) =
      ground (arith, equal_iff k j, equal_iff i k, equal_iff i j, lookup-remove k j m)

  pub length-insert-le : (k : Bytes) (v : V) (m : Map V) → length (insert k v m) ≤ length m + 1
  unfolding insert
  length-insert-le k v [] = omega arith
  length-insert-le k v ((j, w) ∷ m) = ground (arith, length-insert-le k v m)

  pub length-remove-le : (k : Bytes) (m : Map V) → length (remove k m) ≤ length m
  unfolding remove
  length-remove-le k [] = omega arith
  length-remove-le k ((j, w) ∷ m) = ground (arith, length-remove-le k m)

  pub length-remove-lt :
      (k : Bytes) (m : Map V) → is_some (lookup k m) ≡ true → length (remove k m) < length m
  unfolding lookup remove
  length-remove-lt k [] h = ground arith
  length-remove-lt k ((j, w) ∷ m) h = ground (arith, length-remove-le k m, length-remove-lt k m)

module _ {ℓ} {V : Type ℓ} where
  pub lookup-insert_self : (k : Bytes) (v : V) (m : Map V) → lookup k (insert k v m) ≡ some v
  lookup-insert_self k v m = rw (lookup-insert, equal_refl)

  -- `for k, v := range m { m[k] = f(v) }`.
  unfoldable pub map_values : (V → V) → Map V → Map V
  map_values f [] = []
  map_values f ((k, v) ∷ m) = (k, f v) ∷ map_values f m

  pub lookup-map_values :
      (f : V → V) (k : Bytes) (m : Map V) → lookup k (map_values f m) ≡ Option.map f (lookup k m)
  unfolding lookup map_values
  lookup-map_values f k [] = refl
  lookup-map_values f k ((j, v) ∷ m) = ground (arith, lookup-map_values f k m)
