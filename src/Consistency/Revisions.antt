-- ===== src/Consistency/Revisions.antt =====
-- `compare_decimal` of clients/rust/src/consistency.rs against the order of the numbers.
use opto_sync_clients.Base.{
  sym, ok, text_eq, ℕ, zero, suc, ◌+◌, ◌/◌, ◌%◌, ◌<◌, ◌≡◌, ap, ◌∙◌, [], ◌∷◌, ◌++◌, Text,
  text_compare, length, length-append, ltb, arith, Bool-cases, inl, inr,
}
use opto_sync_clients.Base.Order.{and_then, compare-append}
use Prim.Native.Nat.{Ordering, compare}
use opto_sync_clients.Protocol.Checks.{to_string, digits_of}
use opto_sync_clients.Protocol.Decimal.{to_string-parse_decimal}
use opto_sync_clients.Protocol.Checks.{parse_decimal}
use opto_sync_clients.Consistency.Reads.{compare_decimal, normalize, length_first}

-- A further digit counts after the digits before it.
length_first-snoc :
    (xs ys : Text) (d e : ℕ)
    → length_first (xs ++ d ∷ []) (ys ++ e ∷ []) ≡ and_then (length_first xs ys) (compare d e)
unfolding length_first text_compare
length_first-snoc xs ys d e = ground (
  arith,
  length-append xs (d ∷ []),
  length-append ys (e ∷ []),
  compare-append xs ys (d ∷ []) (e ∷ []),
)

compare-divided :
    (m n : ℕ)
    → and_then (compare (m / 10) (n / 10)) (compare (b'0' + m % 10) (b'0' + n % 10)) ≡ compare m n
compare-divided m n = ground arith

length-digits : (f n : ℕ) → n < f → 0 < length (digits_of f n)
unfolding digits_of
length-digits zero n h = absurd (omega arith)
length-digits (suc f) n h = elim (Bool-cases (ltb n 10)) [
  | inl small ↦ rw small (omega arith)
  | inr big ↦ rw big (omega (arith, length-append (digits_of f (n / 10)) ((b'0' + n % 10) ∷ [])))
]

digits-order :
    (f g m n : ℕ) → m < f → n < g → length_first (digits_of f m) (digits_of g n) ≡ compare m n
unfolding digits_of length_first text_compare
digits-order zero g m n h k = absurd (omega arith)
digits-order (suc f) zero m n h k = absurd (omega arith)
digits-order (suc f) (suc g) m n h k = elim (Bool-cases (ltb m 10)) [
  | inl small ↦ elim (Bool-cases (ltb n 10)) [
    | inl small' ↦ rw (small, small') (ground arith)
    | inr big' ↦
        rw (small, big')
          (ground (
            arith,
            length-digits g (n / 10),
            length-append (digits_of g (n / 10)) ((b'0' + n % 10) ∷ []),
          ))
  ]
  | inr big ↦ elim (Bool-cases (ltb n 10)) [
    | inl small' ↦
        rw (big, small')
          (ground (
            arith,
            length-digits f (m / 10),
            length-append (digits_of f (m / 10)) ((b'0' + m % 10) ∷ []),
          ))
    | inr big' ↦
        rw (big, big')
          (length_first-snoc (digits_of f (m / 10)) (digits_of g (n / 10)) _ _
            ∙ ap (λ (o : Ordering). and_then o (compare (b'0' + m % 10) (b'0' + n % 10)))
                (digits-order f g (m / 10) (n / 10) (ground arith) (ground arith))
            ∙ compare-divided m n)
  ]
]

normalize-decimal : (s : Text) (n : ℕ) → parse_decimal s ≡ ok n → normalize s ≡ s
unfolding parse_decimal normalize text_eq
normalize-decimal [] n h = cc
normalize-decimal (x ∷ []) n h = ground arith
normalize-decimal (x ∷ y ∷ s) n h = ground arith

-- Two revisions that the queue reads as decimals are compared as the numbers that they name.
pub compare_decimal-parse_decimal :
    (s t : Text) (m n : ℕ)
    → parse_decimal s ≡ ok m
    → parse_decimal t ≡ ok n
    → compare_decimal s t ≡ compare m n
unfolding compare_decimal to_string
compare_decimal-parse_decimal s t m n h k =
    let (same, _) = to_string-parse_decimal s m h in
    let (same', _) = to_string-parse_decimal t n k in
    rw (normalize-decimal s m h, normalize-decimal t n k, sym same, sym same')
      (digits-order (suc m) (suc n) m n (omega arith) (omega arith))
