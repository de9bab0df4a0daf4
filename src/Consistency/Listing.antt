-- ===== src/Consistency/Listing.antt =====
-- The listing of a read of clients/rust/src/consistency.rs: the values of a map, in order.
use opto_sync_clients.Base.{
  refl, ◌≡◌, Bool, true, false, List, [], ◌∷◌, map, text_compare, arith, Bool-cases, inl, inr,
}
use Prim.Native.Nat.{Ordering}
use mathlib.Core.List.{Permᴰ}
use mathlib.Core.List.Permᴰ as Permᴰ
use opto_sync_clients.Base.Map.{Map}
use opto_sync_clients.Base.Order.{text_compare_flip}
use opto_sync_clients.Consistency.Reads.{
  ProjectedRow, is_greater, row_compare, insert_projected, sorted_values,
}

module _ {V : Type 0} where
  -- By table, then by record id.
  abbrev pub in_order : ProjectedRow V → ProjectedRow V → Bool
  in_order x y = elim (text_compare x.table y.table) [
    | Ordering.lt ↦ true
    | Ordering.gt ↦ false
    | Ordering.eq ↦ elim (text_compare x.record_id y.record_id) [ Ordering.gt ↦ false | _ ↦ true ]
  ]

  abbrev pub IsFirst : ProjectedRow V → List (ProjectedRow V) → Type 0
  IsFirst x [] = Unit {0}
  IsFirst x (y ∷ ys) = in_order x y ≡ true

  abbrev pub IsOrdered : List (ProjectedRow V) → Type 0
  IsOrdered [] = Unit {0}
  IsOrdered (x ∷ xs) = IsFirst x xs × IsOrdered xs

  abbrev pub values : Map (ProjectedRow V) → List (ProjectedRow V)
  values m = map (λ e. e.1) m

  kept : (row x : ProjectedRow V) → is_greater (row_compare row x) ≡ false → in_order row x ≡ true
  unfolding row_compare
  kept row x h = ground arith

  moved : (row x : ProjectedRow V) → is_greater (row_compare row x) ≡ true → in_order x row ≡ true
  unfolding row_compare
  moved row x h =
      ground
        (arith, text_compare_flip row.table x.table, text_compare_flip row.record_id x.record_id)

  insert-IsFirst :
      (x row : ProjectedRow V) (ys : List (ProjectedRow V))
      → in_order x row ≡ true
      → IsFirst x ys
      → IsFirst x (insert_projected row ys)
  unfolding insert_projected
  insert-IsFirst x row [] h f = h
  insert-IsFirst x row (y ∷ ys) h f = elim (Bool-cases (is_greater (row_compare row y))) [
    | inl g ↦ rw g f
    | inr l ↦ rw l h
  ]

  insert-IsOrdered :
      (row : ProjectedRow V) (xs : List (ProjectedRow V))
      → IsOrdered xs
      → IsOrdered (insert_projected row xs)
  unfolding insert_projected
  insert-IsOrdered row [] o = (tt, tt)
  insert-IsOrdered row (x ∷ xs) (f, o) = elim (Bool-cases (is_greater (row_compare row x))) [
    | inl g ↦ rw g (insert-IsFirst x row xs (moved row x g) f, insert-IsOrdered row xs o)
    | inr l ↦ rw l (kept row x l, (f, o))
  ]

  pub sorted_values-IsOrdered : (m : Map (ProjectedRow V)) → IsOrdered (sorted_values m)
  unfolding sorted_values
  sorted_values-IsOrdered [] = tt
  sorted_values-IsOrdered ((key, row) ∷ m) =
      insert-IsOrdered row (sorted_values m) (sorted_values-IsOrdered m)

  insert-Permᴰ :
      (row : ProjectedRow V) (xs : List (ProjectedRow V))
      → Permᴰ (insert_projected row xs) (row ∷ xs)
  unfolding insert_projected
  insert-Permᴰ row [] = Permᴰ.refl (row ∷ [])
  insert-Permᴰ row (x ∷ xs) = elim (Bool-cases (is_greater (row_compare row x))) [
    | inl g ↦ rw g (Permᴰ.trans (Permᴰ.cons refl (insert-Permᴰ row xs)) (Permᴰ.swap refl refl))
    | inr l ↦ rw l (Permᴰ.refl (row ∷ x ∷ xs))
  ]

  pub sorted_values-Permᴰ : (m : Map (ProjectedRow V)) → Permᴰ (sorted_values m) (values m)
  unfolding sorted_values
  sorted_values-Permᴰ [] = Permᴰ.nil
  sorted_values-Permᴰ ((key, row) ∷ m) =
      Permᴰ.trans (insert-Permᴰ row (sorted_values m)) (Permᴰ.cons refl (sorted_values-Permᴰ m))
