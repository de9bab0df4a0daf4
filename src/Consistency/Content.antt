-- ===== src/Consistency/Content.antt =====
-- When two JSON values of clients/rust/src/consistency.rs have the same content, stated without
-- `sort_value`, which decides it: the fields of an object may stand in another order.
use opto_sync_clients.Base.{
  ◌≡◌, ◌≢◌, ◌↔◌, ◌⊎◌, inl, inr, refl, subst, ap, sym, ◌∙◌, Text, text_compare, text_compare-eq,
  text_compare_refl, arith,
}
use Prim.Native.Nat.{Ordering}
use opto_sync_clients.Base.Order.{text_compare_flip, text_compare_trans}
use opto_sync_clients.Consistency.Values.{
  Value, null, boolean, number, string, array, object, Items, nil, cons, Fields, end, field,
  insert_field, sort_value, sort_items, sort_fields,
}

mutual
  pub data SameValue : Value → Value → Type 0 where
    same_value : (v : Value) → SameValue v v
    same_array : {xs ys : Items} → SameItems xs ys → SameValue (array xs) (array ys)
    same_object : {fs gs : Fields} → SameFields fs gs → SameValue (object fs) (object gs)
    join_value : {u v w : Value} → SameValue u v → SameValue v w → SameValue u w

  pub data SameItems : Items → Items → Type 0 where
    same_nil : SameItems nil nil
    same_cons :
        {v w : Value} {xs ys : Items}
        → SameValue v w
        → SameItems xs ys
        → SameItems (cons v xs) (cons w ys)

  pub data SameFields : Fields → Fields → Type 0 where
    same_end : SameFields end end
    same_field :
        {k : Text} {v w : Value} {fs gs : Fields}
        → SameValue v w
        → SameFields fs gs
        → SameFields (field k v fs) (field k w gs)
    swapped :
        {k j : Text} (v w : Value) (fs : Fields)
        → k ≢ j
        → SameFields (field k v (field j w fs)) (field j w (field k v fs))
    join_fields : {fs gs hs : Fields} → SameFields fs gs → SameFields gs hs → SameFields fs hs

mutual
  flip_value : {u v : Value} → SameValue u v → SameValue v u
  flip_value (same_value v) = same_value v
  flip_value (same_array s) = same_array (flip_items s)
  flip_value (same_object s) = same_object (flip_fields s)
  flip_value (join_value s t) = join_value (flip_value t) (flip_value s)

  flip_items : {u v : Items} → SameItems u v → SameItems v u
  flip_items same_nil = same_nil
  flip_items (same_cons s t) = same_cons (flip_value s) (flip_items t)

  flip_fields : {u v : Fields} → SameFields u v → SameFields v u
  flip_fields same_end = same_end
  flip_fields (same_field s t) = same_field (flip_value s) (flip_fields t)
  flip_fields (swapped v w fs apart) = swapped w v fs (λ e. apart (sym e))
  flip_fields (join_fields s t) = join_fields (flip_fields t) (flip_fields s)

same_fields : (fs : Fields) → SameFields fs fs
same_fields end = same_end
same_fields (field k v fs) = same_field (same_value v) (same_fields fs)

compare-cases :
    (k j : Text)
    → (text_compare k j ≡ Ordering.lt)
      ⊎ (text_compare k j ≡ Ordering.eq)
      ⊎ (text_compare k j ≡ Ordering.gt)
compare-cases k j = cases (text_compare k j)
  where
    cases : (o : Ordering) → (o ≡ Ordering.lt) ⊎ (o ≡ Ordering.eq) ⊎ (o ≡ Ordering.gt)
    cases Ordering.lt = inl refl
    cases Ordering.eq = inr (inl refl)
    cases Ordering.gt = inr (inr refl)

inserted : (k : Text) (v : Value) (fs : Fields) → SameFields (field k v fs) (insert_field k v fs)
unfolding insert_field
inserted k v end = same_fields (field k v end)
inserted k v (field j w fs) = elim (compare-cases k j) [
  | inl l ↦ rw (l, insert_field) (same_fields (field k v (field j w fs)))
  | inr (inl e) ↦ rw (e, insert_field) (same_fields (field k v (field j w fs)))
  | inr (inr g) ↦
      rw (g, insert_field)
        (join_fields (swapped v w fs (λ e. ground (arith, text_compare_refl j, rw e at g)))
          (same_field (same_value w) (inserted k v fs)))
]

mutual
  unfolding sort_value

  value_sorted : (v : Value) → SameValue v (sort_value v)
  value_sorted null = same_value null
  value_sorted (boolean b) = same_value (boolean b)
  value_sorted (number n) = same_value (number n)
  value_sorted (string s) = same_value (string s)
  value_sorted (array xs) = same_array (items_sorted xs)
  value_sorted (object fs) = same_object (fields_sorted fs)

  items_sorted : (xs : Items) → SameItems xs (sort_items xs)
  items_sorted nil = same_nil
  items_sorted (cons v xs) = same_cons (value_sorted v) (items_sorted xs)

  fields_sorted : (fs : Fields) → SameFields fs (sort_fields fs)
  fields_sorted end = same_end
  fields_sorted (field k v fs) =
      join_fields (same_field (value_sorted v) (fields_sorted fs))
        (inserted k (sort_value v) (sort_fields fs))

insert_below :
    (k j : Text) (v w : Value) (fs : Fields)
    → text_compare k j ≡ Ordering.lt
    → insert_field k v (insert_field j w fs) ≡ insert_field j w (insert_field k v fs)
unfolding insert_field
insert_below k j v w end h = ground (arith, text_compare_flip k j)
insert_below k j v w (field i x fs) h = ground (
  arith,
  insert_below k j v w fs h,
  text_compare_flip k j,
  text_compare_flip k i,
  text_compare_flip j i,
  text_compare_trans k j i,
  text_compare_trans i k j,
  text_compare-eq j i,
  text_compare-eq k i,
)

insert_apart :
    (k j : Text) (v w : Value) (fs : Fields)
    → k ≢ j
    → insert_field k v (insert_field j w fs) ≡ insert_field j w (insert_field k v fs)
insert_apart k j v w fs apart = elim (compare-cases k j) [
  | inl l ↦ insert_below k j v w fs l
  | inr (inl e) ↦ absurd (apart (text_compare-eq k j e))
  | inr (inr g) ↦ sym (insert_below j k w v fs (ground (arith, text_compare_flip k j)))
]

mutual
  unfolding sort_value

  value_equal : {u v : Value} → SameValue u v → sort_value u ≡ sort_value v
  value_equal (same_value v) = refl
  value_equal (same_array s) = ap array (items_equal s)
  value_equal (same_object s) = ap object (fields_equal s)
  value_equal (join_value s t) = value_equal s ∙ value_equal t

  items_equal : {xs ys : Items} → SameItems xs ys → sort_items xs ≡ sort_items ys
  items_equal same_nil = refl
  items_equal (same_cons {w = w} {xs = xs} s t) =
      ap (λ (v : Value). cons v (sort_items xs)) (value_equal s)
      ∙ ap (cons (sort_value w)) (items_equal t)

  fields_equal : {fs gs : Fields} → SameFields fs gs → sort_fields fs ≡ sort_fields gs
  fields_equal same_end = refl
  fields_equal (same_field {k} {w = w} {fs = fs} s t) =
      ap (λ (v : Value). insert_field k v (sort_fields fs)) (value_equal s)
      ∙ ap (insert_field k (sort_value w)) (fields_equal t)
  fields_equal (swapped {k} {j} v w fs apart) =
      insert_apart k j (sort_value v) (sort_value w) (sort_fields fs) apart
  fields_equal (join_fields s t) = fields_equal s ∙ fields_equal t

pub sort_value-SameValue : (u v : Value) → (sort_value u ≡ sort_value v) ↔ SameValue u v
sort_value-SameValue u v = (
  λ e.
      join_value (value_sorted u)
        (subst (λ x. SameValue x v) (sym e) (flip_value (value_sorted v))),
  λ s. value_equal s,
)
