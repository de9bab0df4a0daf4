-- ===== src/Base/Map.antt =====
-- `BTreeMap<String, V>`: an association list by its operations; `insert` keeps the keys in order.
use Prim.Native.Nat.{Ordering}
use mathlib.Core.Path.{◌≡◌, refl}
use mathlib.Core.List.{List, [], ◌∷◌}
use mathlib.Core.Option.{Option, none, some}
use native.Mathlib.Omega.{arith}
use opto_sync_clients.Base.Tests.{if◌then◌else◌, is_some}
use opto_sync_clients.Base.Strings.{
  Text, text_eq, text_eq_sound, text_eq_refl, text_compare, text_compare-eq, text_compare_refl,
}

abbrev pub Map : Type 0 → Type 0
Map V = List (Text × V)

module _ {V : Type 0} where
  unfoldable pub lookup : Text → Map V → Option V
  lookup k [] = none
  lookup k ((j, v) ∷ m) = if text_eq j k then some v else lookup k m

  unfoldable pub insert : Text → V → Map V → Map V
  insert k v [] = (k, v) ∷ []
  insert k v ((j, w) ∷ m) =
      let rest = insert k v m in
      elim (text_compare k j) [
        | Ordering.lt ↦ (k, v) ∷ (j, w) ∷ m
        | Ordering.eq ↦ (k, v) ∷ m
        | Ordering.gt ↦ (j, w) ∷ rest
      ]

  unfoldable pub remove : Text → Map V → Map V
  remove k [] = []
  remove k ((j, v) ∷ m) = if text_eq j k then remove k m else (j, v) ∷ remove k m

  -- `entry(k).or_insert(v)`.
  unfoldable pub or_insert : Text → V → Map V → Map V
  unfolding lookup insert
  or_insert k v m = if is_some (lookup k m) then m else insert k v m

  pub lookup-insert :
      (k j : Text) (v : V) (m : Map V)
      → lookup j (insert k v m) ≡ (if text_eq k j then some v else lookup j m)
  unfolding lookup insert
  lookup-insert k j v [] = refl
  lookup-insert k j v ((i, w) ∷ m) = ground (
    arith,
    lookup-insert k j v m,
    text_compare-eq k i,
    text_compare_refl k,
    text_eq_sound k j,
    text_eq_sound i j,
    text_eq_refl j,
    text_compare_refl i,
  )

  pub lookup-remove :
      (k j : Text) (m : Map V) → lookup j (remove k m) ≡ (if text_eq k j then none else lookup j m)
  unfolding lookup remove
  lookup-remove k j [] = ground arith
  lookup-remove k j ((i, w) ∷ m) = ground (
    arith,
    lookup-remove k j m,
    text_eq_sound k j,
    text_eq_sound i j,
    text_eq_sound i k,
    text_eq_refl j,
  )
