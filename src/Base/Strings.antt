-- ===== src/Base/Strings.antt =====
-- Rust's `str`: the list of its UTF-8 bytes. Equality, and the order of `Ord for str`.
use Prim.Native.Nat.{ℕ, compare, Ordering}
use Prim.Native.Char.{code}
use Prim.Native.String.{String}
use mathlib.Core.Path.{◌≡◌, refl}
use mathlib.Core.Bool.{Bool, true, false, ◌&&◌, ◌||◌}
use mathlib.Core.List.{List, [], ◌∷◌}
use native.Mathlib.Omega.{arith}
use opto_sync_clients.Base.Tests.{ltb, leb, ◌==◌}
use opto_sync_clients.Base.Lists.{length, filter}

abbrev pub Text : Type 0
Text = List ℕ

-- The bytes of an ASCII literal.
abbrev pub text : String → Text
text String.[] = []
text (String.◌∷◌ c s) = code c ∷ text s

unfoldable pub text_eq : Text → Text → Bool
text_eq [] [] = true
text_eq (x ∷ xs) (y ∷ ys) = x == y && text_eq xs ys
text_eq _ _ = false

pub text_eq_sound : (xs ys : Text) → text_eq xs ys ≡ true → xs ≡ ys
unfolding text_eq
text_eq_sound [] [] e = refl
text_eq_sound [] (y ∷ ys) e = cc
text_eq_sound (x ∷ xs) [] e = cc
text_eq_sound (x ∷ xs) (y ∷ ys) e = ground (arith, text_eq_sound xs ys)

pub text_eq_refl : (xs : Text) → text_eq xs xs ≡ true
unfolding text_eq
text_eq_refl [] = refl
text_eq_refl (x ∷ xs) = ground (arith, text_eq_refl xs)

-- `Ord for str`: bytewise lexicographic.
unfoldable pub text_compare : Text → Text → Ordering
text_compare [] [] = Ordering.eq
text_compare [] (y ∷ ys) = Ordering.lt
text_compare (x ∷ xs) [] = Ordering.gt
text_compare (x ∷ xs) (y ∷ ys) =
    let rest = text_compare xs ys in
    elim (compare x y) [
      | Ordering.lt ↦ Ordering.lt
      | Ordering.eq ↦ rest
      | Ordering.gt ↦ Ordering.gt
    ]

pub text_compare-eq : (xs ys : Text) → text_compare xs ys ≡ Ordering.eq → xs ≡ ys
unfolding text_compare
text_compare-eq [] [] e = refl
text_compare-eq [] (y ∷ ys) e = cc
text_compare-eq (x ∷ xs) [] e = cc
text_compare-eq (x ∷ xs) (y ∷ ys) e = ground (arith, text_compare-eq xs ys)

pub text_compare_refl : (xs : Text) → text_compare xs xs ≡ Ordering.eq
unfolding text_compare
text_compare_refl [] = refl
text_compare_refl (x ∷ xs) = ground (arith, text_compare_refl xs)

-- `chars().count()`: the bytes that begin a character of UTF-8.
abbrev pub chars_count : Text → ℕ
chars_count s = length (filter (λ b. ltb b 128 || leb 192 b) s)

abbrev pub is_empty : Text → Bool
is_empty [] = true
is_empty _ = false

abbrev pub is_ascii_digit : ℕ → Bool
is_ascii_digit b = leb b'0' b && leb b b'9'

abbrev pub is_ascii_alphanumeric : ℕ → Bool
is_ascii_alphanumeric b =
    is_ascii_digit b || (leb b'A' b && leb b b'Z') || (leb b'a' b && leb b b'z')
