-- ===== src/Protocol/Decimal.antt =====
-- The decimal texts of clients/rust/src/protocol.rs: `parse_decimal` against `u64::to_string`.
use opto_sync_clients.Base.{
  ℕ, zero, suc, ◌+◌, ◌-◌, ◌*◌, ◌/◌, ◌%◌, ◌<◌, ◌≤◌, ◌≡◌, refl, sym, ap, ◌∙◌, Bool, true, false, ◌&&◌,
  [], ◌∷◌, ◌++◌, ltb, ok, Text, all, is_empty, is_ascii_digit, arith, Bool-cases, inl, inr, u64_mod,
}
use mathlib.Core.List.{append-nil, append_assoc}
use opto_sync_clients.Protocol.Checks.{
  digits_value, digits_of, to_string, parse_decimal, starts_with_zero,
}

value-snoc :
    (acc : ℕ) (xs : Text) (d : ℕ)
    → digits_value acc (xs ++ d ∷ []) ≡ digits_value acc xs * 10 + (d - b'0')
value-snoc acc [] d = refl
value-snoc acc (x ∷ xs) d = value-snoc (acc * 10 + (x - b'0')) xs d

all-snoc : (p : ℕ → Bool) (xs : Text) (d : ℕ) → all p (xs ++ d ∷ []) ≡ (all p xs && p d)
all-snoc p [] d = ground arith
all-snoc p (x ∷ xs) d = ground (arith, all-snoc p xs d)

-- The digits do not depend on the fuel, once there is enough.
digits_fuel : (f g n : ℕ) → n < f → n < g → digits_of f n ≡ digits_of g n
unfolding digits_of
digits_fuel zero g n h k = absurd (omega arith)
digits_fuel (suc f) zero n h k = absurd (omega arith)
digits_fuel (suc f) (suc g) n h k = elim (Bool-cases (ltb n 10)) [
  | inl small ↦ rw small refl
  | inr big ↦ rw (big, digits_fuel f g (n / 10) (ground arith) (ground arith)) refl
]

digits_value-of : (f n : ℕ) → n < f → digits_value 0 (digits_of f n) ≡ n
unfolding digits_of
digits_value-of zero n h = absurd (omega arith)
digits_value-of (suc f) n h = elim (Bool-cases (ltb n 10)) [
  | inl small ↦ rw small (omega arith)
  | inr big ↦
      rw
        (
          big,
          value-snoc 0 (digits_of f (n / 10)) (b'0' + n % 10),
          digits_value-of f (n / 10) (ground arith),
        )
        (omega arith)
]

all_digits-of : (f n : ℕ) → all is_ascii_digit (digits_of f n) ≡ true
unfolding digits_of
all_digits-of zero n = refl
all_digits-of (suc f) n = elim (Bool-cases (ltb n 10)) [
  | inl small ↦ ground arith
  | inr big ↦
      rw
        (
          big,
          all-snoc is_ascii_digit (digits_of f (n / 10)) (b'0' + n % 10),
          all_digits-of f (n / 10),
        )
        (ground arith)
]

is_empty-snoc : (xs : Text) (d : ℕ) → is_empty (xs ++ d ∷ []) ≡ false
is_empty-snoc [] d = refl
is_empty-snoc (x ∷ xs) d = refl

zero-snoc :
    (xs : Text) (d : ℕ)
    → is_empty xs ≡ false
    → starts_with_zero (xs ++ d ∷ []) ≡ starts_with_zero xs
zero-snoc [] d h = cc
zero-snoc (x ∷ xs) d h = refl

is_empty-digits : (f n : ℕ) → is_empty (digits_of (suc f) n) ≡ false
unfolding digits_of
is_empty-digits f n = elim (Bool-cases (ltb n 10)) [
  | inl small ↦ rw small refl
  | inr big ↦ rw (big, is_empty-snoc (digits_of f (n / 10)) (b'0' + n % 10)) refl
]

-- Only zero is printed with a leading zero.
zero-digits : (f n : ℕ) → n < f → 0 < n → starts_with_zero (digits_of f n) ≡ false
unfolding digits_of
zero-digits zero n h k = absurd (omega arith)
zero-digits (suc zero) n h k = absurd (omega arith)
zero-digits (suc (suc f)) n h k = elim (Bool-cases (ltb n 10)) [
  | inl small ↦ rw small (ground arith)
  | inr big ↦ rw big (
      zero-snoc (digits_of (suc f) (n / 10)) (b'0' + n % 10) (is_empty-digits f (n / 10))
      ∙ zero-digits (suc f) (n / 10) (ground arith) (ground arith))
]

-- What `u64::to_string` prints of a `u64` is read back.
pub parse_decimal-to_string : (n : ℕ) → n < u64_mod → parse_decimal (to_string n) ≡ ok n
unfolding parse_decimal to_string
parse_decimal-to_string zero h = refl
parse_decimal-to_string (suc n) h = ground (
  arith,
  is_empty-digits (suc n) (suc n),
  zero-digits (suc (suc n)) (suc n),
  all_digits-of (suc (suc n)) (suc n),
  digits_value-of (suc (suc n)) (suc n),
)

to_string-snoc :
    (a d : ℕ) → 0 < a → d < 10 → to_string (a * 10 + d) ≡ to_string a ++ (b'0' + d) ∷ []
unfolding to_string digits_of
to_string-snoc a d h k =
    let big : ltb (a * 10 + d) 10 ≡ false = ground arith in
    let front : (a * 10 + d) / 10 ≡ a = omega arith in
    let back : (a * 10 + d) % 10 ≡ d = omega arith in
    rw (big, front, back)
      (ap (λ (t : Text). t ++ (b'0' + d) ∷ [])
        (digits_fuel (a * 10 + d) (suc a) a (omega arith) (omega arith)))

to_string-value :
    (acc : ℕ) (xs : Text)
    → 0 < acc
    → all is_ascii_digit xs ≡ true
    → to_string (digits_value acc xs) ≡ to_string acc ++ xs
to_string-value acc [] h k = sym (append-nil _)
to_string-value acc (x ∷ xs) h k =
    let digit : (x - b'0' < 10) × (b'0' + (x - b'0') ≡ x) = ground arith in
    to_string-value (acc * 10 + (x - b'0')) xs (omega arith) (ground arith)
    ∙ ap (λ (t : Text). t ++ xs) (to_string-snoc acc (x - b'0') h digit.0)
    ∙ append_assoc (to_string acc) ((b'0' + (x - b'0')) ∷ []) xs
    ∙ ap (λ (b : ℕ). to_string acc ++ b ∷ xs) digit.1

to_string-digit : (x : ℕ) → b'0' ≤ x → x < b'0' + 10 → to_string (x - b'0') ≡ x ∷ []
unfolding to_string digits_of
to_string-digit x h k =
    let small : ltb (x - b'0') 10 ≡ true = ground arith in
    rw small (ap (λ (b : ℕ). b ∷ []) (omega arith))

parse_one : (x n : ℕ) → parse_decimal (x ∷ []) ≡ ok n → (to_string n ≡ x ∷ []) × (n < u64_mod)
unfolding parse_decimal to_string digits_of
parse_one x n h =
    let value : (n ≡ x - b'0') × (x - b'0' < 10) × (b'0' + (x - b'0') ≡ x) = ground arith in
    let small : ltb n 10 ≡ true = ground arith in
    (rw small (ap (λ (b : ℕ). b ∷ []) (omega arith)), omega arith)

parse_more :
    (x y n : ℕ) (xs : Text)
    → parse_decimal (x ∷ y ∷ xs) ≡ ok n
    → (b'0' < x)
      × (x < b'0' + 10)
      × (all is_ascii_digit (y ∷ xs) ≡ true)
      × (digits_value (x - b'0') (y ∷ xs) ≡ n)
      × (n < u64_mod)
unfolding parse_decimal
parse_more x y n xs h = ground arith

-- The texts that `parse_decimal` accepts are those that `u64::to_string` prints, of the number
-- that it returns, which is a `u64`.
pub to_string-parse_decimal :
    (s : Text) (n : ℕ) → parse_decimal s ≡ ok n → (to_string n ≡ s) × (n < u64_mod)
to_string-parse_decimal [] n h = absurd (unfold parse_decimal in cc)
to_string-parse_decimal (x ∷ []) n h = parse_one x n h
to_string-parse_decimal (x ∷ y ∷ xs) n h =
    let (low, high, digits, value, fits) = parse_more x y n xs h in
    let first : to_string (x - b'0') ≡ x ∷ [] = to_string-digit x (omega arith) (omega arith) in
    (
      ap to_string (sym value)
          ∙ to_string-value (x - b'0') (y ∷ xs) (omega arith) digits
          ∙ ap (λ (t : Text). t ++ y ∷ xs) first,
      fits,
    )

pub to_string-injective : (m n : ℕ) → to_string m ≡ to_string n → m ≡ n
unfolding to_string
to_string-injective m n h =
    sym (digits_value-of (suc m) m (omega arith))
    ∙ ap (digits_value 0) h
    ∙ digits_value-of (suc n) n (omega arith)
