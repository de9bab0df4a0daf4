-- ===== src/Clock/Digits.antt =====
-- The fixed-width numbers of clients/rust/src/clock.rs: value and order.
use Prim.Native.Nat.{compare}
use opto_sync_clients.Base.{
  is_ascii_digit, ℕ, zero, suc, ◌+◌, ◌*◌, ◌/◌, ◌%◌, ◌≤◌, ◌<◌, ◌≡◌, refl, sym, ap, ◌∙◌, Bool, true,
  [], ◌∷◌, ◌++◌, Text, length, length-append, all, text_compare, arith,
}
use opto_sync_clients.Base.Order.{and_then, compare-append}
use opto_sync_clients.Clock.{fixed, value, digit, digit_value, is_hex_digit}
use mathlib.Core.List.{append_assoc, append-nil}

-- The number has at most `width` digits.
abbrev pub Fits : ℕ → ℕ → ℕ → Type 0
Fits base zero n = n ≡ 0
Fits base (suc width) n = Fits base width (n / base)

pub length-fixed : (base width n : ℕ) → length (fixed base width n) ≡ width
unfolding fixed
length-fixed base zero n = refl
length-fixed base (suc width) n = omega (
  arith,
  length-fixed base width (n / base),
  length-append (fixed base width (n / base)) (digit (n % base) ∷ []),
)

value_snoc :
    (base acc : ℕ) (xs : Text) (d : ℕ)
    → value base acc (xs ++ d ∷ []) ≡ value base acc xs * base + digit_value d
unfolding value
value_snoc base acc [] d = refl
value_snoc base acc (x ∷ xs) d = value_snoc base (acc * base + digit_value x) xs d

-- A base with what the lemmas need of its division.
module _ (base : ℕ) (joined : (n : ℕ) → (n / base) * base + digit_value (digit (n % base)) ≡ n)
    (ordered : (m n : ℕ)
      → and_then
          (compare (m / base) (n / base))
          (text_compare (digit (m % base) ∷ []) (digit (n % base) ∷ []))
        ≡ compare m n)
    (is_digit : ℕ → Bool)
    (divided : (acc d : ℕ)
      → is_digit d ≡ true
      → ((acc * base + digit_value d) / base ≡ acc)
        × (digit ((acc * base + digit_value d) % base) ≡ d)) where
  value-fixed : (width n : ℕ) → Fits base width n → value base 0 (fixed base width n) ≡ n
  unfolding fixed value
  value-fixed zero n h = sym h
  value-fixed (suc width) n h =
      value_snoc base 0 (fixed base width (n / base)) (digit (n % base))
      ∙ ap (λ m. m * base + digit_value (digit (n % base))) (value-fixed width (n / base) h)
      ∙ joined n

  compare-fixed :
      (width m n : ℕ)
      → Fits base width m
      → Fits base width n
      → text_compare (fixed base width m) (fixed base width n) ≡ compare m n
  unfolding fixed text_compare
  compare-fixed zero m n h k = rw h (rw k refl)
  compare-fixed (suc width) m n h k =
      compare-append (fixed base width (m / base)) (fixed base width (n / base)) _ _
        (length-fixed base width (m / base) ∙ sym (length-fixed base width (n / base)))
      ∙ ap (λ o. and_then o (text_compare (digit (m % base) ∷ []) (digit (n % base) ∷ [])))
          (compare-fixed width (m / base) (n / base) h k)
      ∙ ordered m n

  widen :
      (width acc x : ℕ)
      → (acc * base + digit_value x) / base ≡ acc
      → digit ((acc * base + digit_value x) % base) ≡ x
      → fixed base (suc width) (acc * base + digit_value x) ≡ fixed base width acc ++ x ∷ []
  unfolding fixed
  widen width acc x below last =
      ap (λ n. fixed base width n ++ digit ((acc * base + digit_value x) % base) ∷ []) below
      ∙ ap (λ d. fixed base width acc ++ d ∷ []) last

  fixed-value :
      (width acc : ℕ) (xs : Text)
      → all is_digit xs ≡ true
      → fixed base (length xs + width) (value base acc xs) ≡ fixed base width acc ++ xs
  unfolding value
  fixed-value width acc [] h =
      let plain : 0 + width ≡ width = omega arith in
      ap (λ w. fixed base w acc) plain ∙ sym (append-nil (fixed base width acc))
  fixed-value width acc (x ∷ xs) h =
      let (below, last) = divided acc x (ground arith) in
      let shift : suc (length xs) + width ≡ length xs + suc width = omega arith in
      ap (λ w. fixed base w (value base (acc * base + digit_value x) xs)) shift
      ∙ fixed-value (suc width) (acc * base + digit_value x) xs (ground arith)
      ∙ ap (λ t. t ++ xs) (widen width acc x below last)
      ∙ append_assoc (fixed base width acc) (x ∷ []) xs

-- The two bases in use.
dec_joined : (n : ℕ) → (n / 10) * 10 + digit_value (digit (n % 10)) ≡ n
dec_joined n = ground arith

dec_ordered :
    (m n : ℕ)
    → and_then
        (compare (m / 10) (n / 10))
        (text_compare (digit (m % 10) ∷ []) (digit (n % 10) ∷ []))
      ≡ compare m n
unfolding text_compare
dec_ordered m n = ground arith

dec_divided :
    (acc d : ℕ)
    → is_ascii_digit d ≡ true
    → ((acc * 10 + digit_value d) / 10 ≡ acc) × (digit ((acc * 10 + digit_value d) % 10) ≡ d)
dec_divided acc d h = (ground arith, ground arith)

hex_joined : (n : ℕ) → (n / 16) * 16 + digit_value (digit (n % 16)) ≡ n
hex_joined n = ground arith

hex_ordered :
    (m n : ℕ)
    → and_then
        (compare (m / 16) (n / 16))
        (text_compare (digit (m % 16) ∷ []) (digit (n % 16) ∷ []))
      ≡ compare m n
unfolding text_compare
hex_ordered m n = ground arith

hex_divided :
    (acc d : ℕ)
    → is_hex_digit d ≡ true
    → ((acc * 16 + digit_value d) / 16 ≡ acc) × (digit ((acc * 16 + digit_value d) % 16) ≡ d)
hex_divided acc d h = (ground arith, ground arith)

Fits-millis : (n : ℕ) → n ≤ 9999999999999 → Fits 10 13 n
Fits-millis n h = omega arith

Fits-counter : (n : ℕ) → n ≤ 65535 → Fits 16 4 n
Fits-counter n h = omega arith

the_width : {n w : ℕ} → n ≡ w → w ≡ n + 0
the_width h = omega arith

pub value-millis : (n : ℕ) → n ≤ 9999999999999 → value 10 0 (fixed 10 13 n) ≡ n
value-millis n h =
    value-fixed 10 dec_joined dec_ordered is_ascii_digit dec_divided 13 n (Fits-millis n h)

pub value-counter : (n : ℕ) → n ≤ 65535 → value 16 0 (fixed 16 4 n) ≡ n
value-counter n h =
    value-fixed 16 hex_joined hex_ordered is_hex_digit hex_divided 4 n (Fits-counter n h)

pub compare-millis :
    (m n : ℕ)
    → m ≤ 9999999999999
    → n ≤ 9999999999999
    → text_compare (fixed 10 13 m) (fixed 10 13 n) ≡ compare m n
compare-millis m n h k =
    compare-fixed 10 dec_joined dec_ordered is_ascii_digit dec_divided 13 m n (Fits-millis m h)
      (Fits-millis n k)

pub compare-counter :
    (m n : ℕ) → m ≤ 65535 → n ≤ 65535 → text_compare (fixed 16 4 m) (fixed 16 4 n) ≡ compare m n
compare-counter m n h k =
    compare-fixed 16 hex_joined hex_ordered is_hex_digit hex_divided 4 m n (Fits-counter m h)
      (Fits-counter n k)

-- A text of digits is the fixed-width form of its value.
pub fixed-millis :
    (xs : Text) → length xs ≡ 13 → all is_ascii_digit xs ≡ true → fixed 10 13 (value 10 0 xs) ≡ xs
unfolding fixed
fixed-millis xs len h =
    ap (λ w. fixed 10 w (value 10 0 xs)) (the_width len)
    ∙ fixed-value 10 dec_joined dec_ordered is_ascii_digit dec_divided 0 0 xs h

pub fixed-counter :
    (xs : Text) → length xs ≡ 4 → all is_hex_digit xs ≡ true → fixed 16 4 (value 16 0 xs) ≡ xs
unfolding fixed
fixed-counter xs len h =
    ap (λ w. fixed 16 w (value 16 0 xs)) (the_width len)
    ∙ fixed-value 16 hex_joined hex_ordered is_hex_digit hex_divided 0 0 xs h

all_snoc :
    (p : ℕ → Bool) (xs : Text) (d : ℕ) → all p xs ≡ true → p d ≡ true → all p (xs ++ d ∷ []) ≡ true
all_snoc p [] d h k = ground arith
all_snoc p (x ∷ xs) d h k = ground (arith, all_snoc p xs d)

pub all-fixed :
    (p : ℕ → Bool) (base : ℕ)
    → ((n : ℕ) → p (digit (n % base)) ≡ true)
    → (width n : ℕ) → all p (fixed base width n) ≡ true
unfolding fixed
all-fixed p base h zero n = refl
all-fixed p base h (suc width) n =
    all_snoc p (fixed base width (n / base)) (digit (n % base))
      (all-fixed p base h width (n / base)) (h n)

pub dec_digits : (width n : ℕ) → all is_ascii_digit (fixed 10 width n) ≡ true
dec_digits width n = all-fixed is_ascii_digit 10 (λ m. ground arith) width n

pub hex_digits : (width n : ℕ) → all is_hex_digit (fixed 16 width n) ≡ true
hex_digits width n = all-fixed is_hex_digit 16 (λ m. ground arith) width n

abbrev grow : ℕ → ℕ → ℕ → ℕ
grow base zero bound = bound
grow base (suc n) bound = grow base n (bound * base)

value_bound :
    (base : ℕ) (p : ℕ → Bool)
    → ((acc bound d : ℕ) → p d ≡ true → acc < bound → acc * base + digit_value d < bound * base)
    → (acc bound : ℕ) (xs : Text) → all p xs ≡ true
    → acc < bound
    → value base acc xs < grow base (length xs) bound
unfolding value
value_bound base p step acc bound [] h k = k
value_bound base p step acc bound (x ∷ xs) h k =
    value_bound base p step (acc * base + digit_value x) (bound * base) xs (ground arith)
      (step acc bound x (ground arith) k)

pub millis_bound :
    (xs : Text) → length xs ≡ 13 → all is_ascii_digit xs ≡ true → value 10 0 xs ≤ 9999999999999
millis_bound xs len h =
    let below =
      value_bound 10 is_ascii_digit (λ acc bound d digit k. ground arith) 0 1 xs h (omega arith) in
    let cap : value 10 0 xs < 10000000000000 = rw len at below in omega arith

pub counter_bound : (xs : Text) → length xs ≡ 4 → all is_hex_digit xs ≡ true → value 16 0 xs ≤ 65535
counter_bound xs len h =
    let below =
      value_bound 16 is_hex_digit (λ acc bound d digit k. ground arith) 0 1 xs h (omega arith) in
    let cap : value 16 0 xs < 65536 = rw len at below in omega arith
