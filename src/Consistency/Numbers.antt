-- ===== src/Consistency/Numbers.antt =====
-- The numbers that the revisions of clients/rust/src/consistency.rs name, without a bound, and the
-- order of `compare_decimal` on them.
use opto_sync_clients.Base.{
  text_eq_sound, text_eq, refl, ◌==◌, subst, sym, ltb, ◌==◌, text, ℕ, ◌+◌, ◌-◌, ◌*◌, ◌≤◌, ◌<◌, ◌≡◌,
  ◌⊎◌, inl, inr, ◌∙◌, true, false, ◌&&◌, not, [], ◌∷◌, Text, text_compare, length, is_empty, all,
  is_ascii_digit, if◌then◌else◌, leb, Bool-cases, arith,
}
use Prim.Native.Nat.{compare}
use opto_sync_clients.Base.Order.{and_then}
use opto_sync_clients.Protocol.Checks.{starts_with_zero}
use opto_sync_clients.Consistency.Reads.{compare_decimal, length_first, normalize}

-- The number that digits name after the number before them.
unfoldable pub number_of : ℕ → Text → ℕ
number_of n [] = n
number_of n (d ∷ ds) = number_of (n * 10 + (d - 48)) ds

-- A decimal without a leading zero names its number, every other text zero.
unfoldable pub revision_number : Text → ℕ
unfolding number_of
revision_number s =
    if not (is_empty s) && not (starts_with_zero s) && all is_ascii_digit s
    then number_of 0 s
    else 0

number_longer :
    (xs ys : Text) (m n : ℕ)
    → all is_ascii_digit xs ≡ true
    → m < n
    → length xs ≤ length ys
    → number_of m xs < number_of n ys
unfolding number_of
number_longer [] [] m n d h l = h
number_longer (x ∷ xs) [] m n d h l = absurd (omega arith)
number_longer [] (y ∷ ys) m n d h l =
    number_longer [] ys m (n * 10 + (y - 48)) d (omega arith) (omega arith)
number_longer (x ∷ xs) (y ∷ ys) m n d h l = elim (Bool-cases (leb (length (x ∷ xs)) (length ys))) [
  | inl short ↦ number_longer (x ∷ xs) ys m (n * 10 + (y - 48)) d (omega arith) (ground arith)
  | inr same ↦
      number_longer xs ys (m * 10 + (x - 48)) (n * 10 + (y - 48)) (ground arith)
        (let small : x - 48 ≤ 9 = ground arith in omega arith) (omega arith)
]

number_same :
    (xs ys : Text) (m n : ℕ)
    → all is_ascii_digit xs ≡ true
    → all is_ascii_digit ys ≡ true
    → length xs ≡ length ys
    → compare (number_of m xs) (number_of n ys) ≡ and_then (compare m n) (text_compare xs ys)
unfolding number_of text_compare
number_same [] [] m n d e l = ground arith
number_same (x ∷ xs) [] m n d e l = absurd (omega arith)
number_same [] (y ∷ ys) m n d e l = absurd (omega arith)
number_same (x ∷ xs) (y ∷ ys) m n d e l =
    let low : 48 ≤ x = ground arith in
    let high : x ≤ 57 = ground arith in
    let low' : 48 ≤ y = ground arith in
    let high' : y ≤ 57 = ground arith in
    number_same xs ys (m * 10 + (x - 48)) (n * 10 + (y - 48)) (ground arith) (ground arith)
      (omega arith)
    ∙ ground arith

-- Digits, without a leading zero but for `0` itself.
abbrev IsCanonical : Text → Type 0
IsCanonical s = (all is_ascii_digit s ≡ true) × ((starts_with_zero s ≡ false) ⊎ (s ≡ text "0"))

number_shorter :
    (a b : Text)
    → all is_ascii_digit a ≡ true
    → all is_ascii_digit b ≡ true
    → (starts_with_zero b ≡ false) ⊎ (b ≡ text "0")
    → 0 < length a
    → length a < length b
    → number_of 0 a < number_of 0 b
unfolding number_of
number_shorter a [] d e z f l = absurd (omega arith)
number_shorter a (y ∷ ys) d e (inr zero_) f l = absurd (ground arith)
number_shorter a (y ∷ ys) d e (inl z) f l =
    number_longer a ys 0 (0 * 10 + (y - 48)) d (ground arith) (omega arith)

length_first-number :
    (s t : Text)
    → IsCanonical s
    → IsCanonical t
    → 0 < length s
    → 0 < length t
    → length_first s t ≡ compare (number_of 0 s) (number_of 0 t)
unfolding length_first number_of
length_first-number s t (d, z) (e, y) f g = elim (Bool-cases (ltb (length s) (length t))) [
  | inl short ↦ let less = number_shorter s t d e y f (ground arith) in ground arith
  | inr above ↦ elim (Bool-cases (ltb (length t) (length s))) [
    | inl long ↦ let less = number_shorter t s e d z g (ground arith) in ground arith
    | inr under ↦
        let same : length s ≡ length t = ground arith in
        let digits = number_same s t 0 0 d e same in ground arith
  ]
]

abbrev IsNormal : Text → Type 0
IsNormal s =
    IsCanonical (normalize s)
    × (0 < length (normalize s))
    × (number_of 0 (normalize s) ≡ revision_number s)

zero-IsNormal : IsNormal (text "0")
unfolding normalize revision_number number_of text_eq
zero-IsNormal = ((refl, inr refl), omega arith, refl)

normalize-IsCanonical : (s : Text) → IsNormal s
unfolding normalize revision_number number_of text_eq
normalize-IsCanonical [] = ((refl, inr refl), omega arith, refl)
normalize-IsCanonical (x ∷ xs) = elim (Bool-cases (text_eq (x ∷ xs) (text "0"))) [
  | inl same ↦ subst IsNormal (sym (text_eq_sound (x ∷ xs) (text "0") same)) zero-IsNormal
  | inr other ↦ elim (Bool-cases (not (x == 48) && all is_ascii_digit (x ∷ xs))) [
    | inl ds ↦ ((ground arith, inl (ground arith)), ground arith, ground arith)
    | inr bad ↦ ((ground arith, inr (ground arith)), ground arith, ground arith)
  ]
]

-- Revisions are compared as the numbers that they name.
pub compare_decimal-number :
    (s t : Text) → compare_decimal s t ≡ compare (revision_number s) (revision_number t)
unfolding compare_decimal
compare_decimal-number s t =
    let (c, f, e) = normalize-IsCanonical s in
    let (c', f', e') = normalize-IsCanonical t in
    length_first-number (normalize s) (normalize t) c c' f f' ∙ rw (e, e') refl
