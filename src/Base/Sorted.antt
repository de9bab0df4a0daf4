-- ===== src/Base/Sorted.antt =====
-- Maps whose keys rise: what `insert` keeps, and that a key is bound once.
use Prim.Native.Nat.{Ordering}
use mathlib.Core.Path.{◌≡◌, refl}
use mathlib.Core.List.{[], ◌∷◌}
use mathlib.Core.Option.{none}
use native.Mathlib.Omega.{arith}
use opto_sync_clients.Base.Strings.{
  Text, text_eq_sound, text_compare, text_compare-eq, text_compare_refl,
}
use opto_sync_clients.Base.Map.{Map, lookup, insert}
use opto_sync_clients.Base.Order.{text_compare_flip, text_compare_trans}

module _ {V : Type 0} where
  -- Every key of the map is after `k`.
  abbrev pub IsBefore : Text → Map V → Type 0
  IsBefore k [] = Unit {0}
  IsBefore k ((j, v) ∷ m) = (text_compare k j ≡ Ordering.lt) × IsBefore k m

  abbrev pub IsSorted : Map V → Type 0
  IsSorted [] = Unit {0}
  IsSorted ((k, v) ∷ m) = IsBefore k m × IsSorted m

  IsBefore-trans :
      (i k : Text) (m : Map V) → text_compare i k ≡ Ordering.lt → IsBefore k m → IsBefore i m
  IsBefore-trans i k [] h b = tt
  IsBefore-trans i k ((j, v) ∷ m) h (l, b) =
      (text_compare_trans i k j h l, IsBefore-trans i k m h b)

  insert-IsBefore :
      (i k : Text) (v : V) (m : Map V)
      → text_compare i k ≡ Ordering.lt
      → IsBefore i m
      → IsBefore i (insert k v m)
  unfolding insert
  insert-IsBefore i k v [] h b = (h, tt)
  insert-IsBefore i k v ((j, w) ∷ m) h b = ground (arith, insert-IsBefore i k v m)

  pub insert-IsSorted : (k : Text) (v : V) (m : Map V) → IsSorted m → IsSorted (insert k v m)
  unfolding insert
  insert-IsSorted k v [] s = (tt, tt)
  insert-IsSorted k v ((j, w) ∷ m) s = ground (
    arith,
    insert-IsSorted k v m,
    insert-IsBefore j k v m,
    IsBefore-trans k j m,
    text_compare_flip k j,
    text_compare-eq k j,
  )

  pub lookup-IsBefore : (k : Text) (m : Map V) → IsBefore k m → lookup k m ≡ none
  unfolding lookup
  lookup-IsBefore k [] b = refl
  lookup-IsBefore k ((j, v) ∷ m) (l, b) =
      ground (arith, lookup-IsBefore k m b, text_eq_sound j k, text_compare_refl k)
