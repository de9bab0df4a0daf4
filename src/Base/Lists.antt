-- ===== src/Base/Lists.antt =====
-- Lists measured by native numbers, under the library's names, and predicates over them.
use Prim.Native.Nat.{◌-◌, ℕ, zero, suc, ◌+◌, ◌≤◌, min}
use mathlib.Core.Path.{◌∙◌, ap, ◌≡◌, refl}
use mathlib.Core.Bool.{Bool, true, false, ◌&&◌, ◌||◌}
use mathlib.Core.Option.{Option, none, some}
use mathlib.Core.List.{List, [], ◌∷◌, ◌++◌}
use native.Mathlib.Omega.{arith}

module _ {ℓ} {A : Type ℓ} where
  abbrev pub length : List A → ℕ
  length [] = 0
  length (x ∷ xs) = suc (length xs)

  abbrev pub take : ℕ → List A → List A
  take zero xs = []
  take (suc n) [] = []
  take (suc n) (x ∷ xs) = x ∷ take n xs

  abbrev pub drop : ℕ → List A → List A
  drop zero xs = xs
  drop (suc n) [] = []
  drop (suc n) (x ∷ xs) = drop n xs

  -- `iter().all` and `iter().any`.
  abbrev pub all : (A → Bool) → List A → Bool
  all p [] = true
  all p (x ∷ xs) = p x && all p xs

  abbrev pub any : (A → Bool) → List A → Bool
  any p [] = false
  any p (x ∷ xs) = p x || any p xs

  -- `iter().filter`, and `retain`.
  abbrev pub filter : (A → Bool) → List A → List A
  filter p [] = []
  filter p (x ∷ xs) = let rest = filter p xs in elim (p x) [ true ↦ x ∷ rest | false ↦ rest ]

  -- `last`, and `Iterator::find`.
  abbrev pub last? : List A → Option A
  last? [] = none
  last? (x ∷ []) = some x
  last? (x ∷ y ∷ xs) = last? (y ∷ xs)

  abbrev pub find? : (A → Bool) → List A → Option A
  find? p [] = none
  find? p (x ∷ xs) = let rest = find? p xs in elim (p x) [ true ↦ some x | false ↦ rest ]

  -- `Iterator::eq`: the same length, and equal items.
  abbrev pub list_eq : (A → A → Bool) → List A → List A → Bool
  list_eq eq [] [] = true
  list_eq eq (x ∷ xs) (y ∷ ys) = eq x y && list_eq eq xs ys
  list_eq eq _ _ = false

  pub list_eq_sound :
      (eq : A → A → Bool)
      → ((x y : A) → eq x y ≡ true → x ≡ y)
      → (xs ys : List A) → list_eq eq xs ys ≡ true
      → xs ≡ ys
  list_eq_sound eq h [] [] e = refl
  list_eq_sound eq h [] (y ∷ ys) e = cc
  list_eq_sound eq h (x ∷ xs) [] e = cc
  list_eq_sound eq h (x ∷ xs) (y ∷ ys) e = ground (arith, h x y, list_eq_sound eq h xs ys)

  pub list_eq_refl :
      (eq : A → A → Bool) → ((x : A) → eq x x ≡ true) → (xs : List A) → list_eq eq xs xs ≡ true
  list_eq_refl eq h [] = refl
  list_eq_refl eq h (x ∷ xs) = ground (arith, h x, list_eq_refl eq h xs)

  pub length-filter-le : (p : A → Bool) (xs : List A) → length (filter p xs) ≤ length xs
  length-filter-le p [] = omega arith
  length-filter-le p (x ∷ xs) = ground (arith, length-filter-le p xs)

  pub filter-append :
      (p : A → Bool) (xs ys : List A) → filter p (xs ++ ys) ≡ filter p xs ++ filter p ys
  filter-append p [] ys = refl
  filter-append p (x ∷ xs) ys = ground (arith, filter-append p xs ys)

  abbrev pub All {κ} : (A → Type κ) → List A → Type κ
  All P [] = Unit
  All P (x ∷ xs) = P x × All P xs

  pub length-append : (xs ys : List A) → length (xs ++ ys) ≡ length xs + length ys
  length-append [] ys = omega arith
  length-append (x ∷ xs) ys = omega (arith, length-append xs ys)

  pub length-take : (n : ℕ) (xs : List A) → length (take n xs) ≡ min n (length xs)
  length-take zero xs = omega arith
  length-take (suc n) [] = omega arith
  length-take (suc n) (x ∷ xs) = omega (arith, length-take n xs)

pub drop-add {ℓ} : {A : Type ℓ} (j k : ℕ) (xs : List A) → drop k (drop j xs) ≡ drop (j + k) xs
drop-add j zero xs = let e : j ≡ j + 0 = omega arith in ap (λ (n : ℕ). drop n xs) e
drop-add zero (suc k) xs = let e : suc k ≡ 0 + suc k = omega arith in ap (λ (n : ℕ). drop n xs) e
drop-add {A = A} (suc j) (suc k) [] =
    let e : suc (j + suc k) ≡ suc j + suc k = omega arith in ap (λ (n : ℕ). drop {A = A} n []) e
drop-add (suc j) (suc k) (x ∷ xs) =
    let e : suc (j + suc k) ≡ suc j + suc k = omega arith in
    drop-add j (suc k) xs ∙ ap (λ (n : ℕ). drop n (x ∷ xs)) e

pub length-drop {ℓ} : {A : Type ℓ} (k : ℕ) (xs : List A) → length (drop k xs) ≡ length xs - k
length-drop zero xs = omega arith
length-drop (suc k) [] = omega arith
length-drop (suc k) (x ∷ xs) = omega (arith, length-drop k xs)
