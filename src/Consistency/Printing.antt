-- ===== src/Consistency/Printing.antt =====
-- A printing of values that keeps them apart, for the theorems on clients/rust/src/consistency.rs:
-- each part begins with a number of its own, and a text ends with a zero.
use opto_sync_clients.Base.{◌≡◌, refl, ap, Bool, true, false, [], ◌∷◌, ◌++◌, suc, Text, text, arith}
use opto_sync_clients.Consistency.Values.{
  Value, null, boolean, number, string, array, object, Items, nil, cons, Fields, end, field,
}

-- Each writes its part in front of a text.
abbrev write_text : Text → Text → Text
write_text [] r = 0 ∷ r
write_text (b ∷ bs) r = suc b ∷ write_text bs r

abbrev write_bool : Bool → Text → Text
write_bool true r = 1 ∷ r
write_bool false r = 2 ∷ r

unfoldable mutual
  pub write_value : Value → Text → Text
  write_value null r = text "null" ++ r
  write_value (boolean b) r = 3 ∷ write_bool b r
  write_value (number n) r = 4 ∷ write_text n r
  write_value (string s) r = 5 ∷ write_text s r
  write_value (array items) r = 6 ∷ write_items items r
  write_value (object fields) r = 7 ∷ write_fields fields r

  pub write_items : Items → Text → Text
  write_items nil r = 0 ∷ r
  write_items (cons v vs) r = 1 ∷ write_value v (write_items vs r)

  pub write_fields : Fields → Text → Text
  write_fields end r = 0 ∷ r
  write_fields (field k v fs) r = 1 ∷ write_text k (write_value v (write_fields fs r))

written_text : (x y r s : Text) → write_text x r ≡ write_text y s → (x ≡ y) × (r ≡ s)
written_text [] [] r s h = (refl, ground arith)
written_text [] (y ∷ ys) r s h = absurd (ground arith)
written_text (x ∷ xs) [] r s h = absurd (ground arith)
written_text (x ∷ xs) (y ∷ ys) r s h = ground (arith, written_text xs ys r s)

written_bool :
    (x y : Bool) (r s : Text) → write_bool x r ≡ write_bool y s → (boolean x ≡ boolean y) × (r ≡ s)
written_bool true true r s h = (refl, ground arith)
written_bool false false r s h = (refl, ground arith)
written_bool true false r s h = cc
written_bool false true r s h = cc

mutual
  unfolding write_value

  written_value : (x y : Value) (r s : Text) → write_value x r ≡ write_value y s → (x ≡ y) × (r ≡ s)
  written_value null null r s h = (refl, ground arith)
  written_value null (boolean y) r s h = cc
  written_value null (number y) r s h = cc
  written_value null (string y) r s h = cc
  written_value null (array y) r s h = cc
  written_value null (object y) r s h = cc
  written_value (boolean x) null r s h = cc
  written_value (boolean x) (boolean y) r s h = written_bool x y r s (ground arith)
  written_value (boolean x) (number y) r s h = cc
  written_value (boolean x) (string y) r s h = cc
  written_value (boolean x) (array y) r s h = cc
  written_value (boolean x) (object y) r s h = cc
  written_value (number x) null r s h = cc
  written_value (number x) (boolean y) r s h = cc
  written_value (number x) (number y) r s h =
      let (same, rest) = written_text x y r s (ground arith) in (ap number same, rest)
  written_value (number x) (string y) r s h = cc
  written_value (number x) (array y) r s h = cc
  written_value (number x) (object y) r s h = cc
  written_value (string x) null r s h = cc
  written_value (string x) (boolean y) r s h = cc
  written_value (string x) (number y) r s h = cc
  written_value (string x) (string y) r s h =
      let (same, rest) = written_text x y r s (ground arith) in (ap string same, rest)
  written_value (string x) (array y) r s h = cc
  written_value (string x) (object y) r s h = cc
  written_value (array x) null r s h = cc
  written_value (array x) (boolean y) r s h = cc
  written_value (array x) (number y) r s h = cc
  written_value (array x) (string y) r s h = cc
  written_value (array x) (array y) r s h =
      let (same, rest) = written_items x y r s (ground arith) in (ap array same, rest)
  written_value (array x) (object y) r s h = cc
  written_value (object x) null r s h = cc
  written_value (object x) (boolean y) r s h = cc
  written_value (object x) (number y) r s h = cc
  written_value (object x) (string y) r s h = cc
  written_value (object x) (array y) r s h = cc
  written_value (object x) (object y) r s h =
      let (same, rest) = written_fields x y r s (ground arith) in (ap object same, rest)

  written_items : (x y : Items) (r s : Text) → write_items x r ≡ write_items y s → (x ≡ y) × (r ≡ s)
  written_items nil nil r s h = (refl, ground arith)
  written_items nil (cons y ys) r s h = cc
  written_items (cons x xs) nil r s h = cc
  written_items (cons x xs) (cons y ys) r s h =
      let (same, rest) = written_value x y (write_items xs r) (write_items ys s) (ground arith) in
      let (same', rest') = written_items xs ys r s rest in (cc, rest')

  written_fields :
      (x y : Fields) (r s : Text) → write_fields x r ≡ write_fields y s → (x ≡ y) × (r ≡ s)
  written_fields end end r s h = (refl, ground arith)
  written_fields end (field k v fs) r s h = cc
  written_fields (field k v fs) end r s h = cc
  written_fields (field k v fs) (field j w gs) r s h =
      let (key, more) = written_text k j _ _ (ground arith) in
      let (same, rest) = written_value v w (write_fields fs r) (write_fields gs s) more in
      let (same', rest') = written_fields fs gs r s rest in (cc, rest')

unfoldable pub printed : Value → Text
unfolding write_value
printed v = write_value v []

pub printed_apart : (u v : Value) → printed u ≡ printed v → u ≡ v
unfolding printed
printed_apart u v h = (written_value u v [] [] h).0

pub printed_null : printed null ≡ text "null"
unfolding printed write_value
printed_null = refl
