-- ===== src/Clock/Stamps.antt =====
-- The texts of clients/rust/src/clock.rs: what `format_hlc` writes `parse_hlc` reads, and the order
-- of the texts is the order of the stamps.
use Prim.Native.Nat.{compare, Ordering}
use opto_sync_clients.Base.{
  inr, inl, Option-cases, Bool-cases, ℕ, ◌≤◌, ◌≡◌, refl, sym, ap, ◌∙◌, Bool, true, false, ◌==◌,
  none, some, [], ◌∷◌, ◌++◌, Text, length, all, any, is_ascii_digit, text_compare, arith,
}
use opto_sync_clients.Clock.{
  parse_fields, HlcParts, format_hlc, parse_hlc, fixed, value, split_dash, bad_node_id,
  is_hex_digit, max_millis, max_counter, compare_hlc,
}
use opto_sync_clients.Clock.Digits.{
  counter_bound, millis_bound, hex_digits, dec_digits, length-fixed, value-millis, value-counter,
  compare-millis, compare-counter, fixed-millis, fixed-counter,
}
use opto_sync_clients.Base.Order.{and_then, compare-append}

-- The stamps in their chronological order: by milliseconds, then counter, then node.
unfoldable pub compare_parts : HlcParts → HlcParts → Ordering
compare_parts p q =
    and_then (compare p.millis q.millis)
      (and_then (compare p.counter q.counter) (text_compare p.node_id q.node_id))

pub record IsStamp (p : HlcParts) : Type 0 where
  pub millis_le : p.millis ≤ max_millis
  pub counter_le : p.counter ≤ max_counter
  pub node_ok : bad_node_id p.node_id ≡ false

abbrev pub stamp_text : HlcParts → Text
stamp_text p = fixed 10 13 p.millis ++ b'-' ∷ (fixed 16 4 p.counter ++ b'-' ∷ p.node_id)

pub format_inv : (p : HlcParts) {t : Text} → format_hlc p ≡ some t → IsStamp p × (t ≡ stamp_text p)
unfolding format_hlc
format_inv p h = (
  record { millis_le = ground arith; counter_le = ground arith; node_ok = ground arith },
  ground arith,
)

pub format-IsStamp : (p : HlcParts) → IsStamp p → format_hlc p ≡ some (stamp_text p)
unfolding format_hlc
format-IsStamp p s = ground (arith, s.millis_le, s.counter_le, s.node_ok)

stamp_text_order :
    (p q : HlcParts)
    → IsStamp p
    → IsStamp q
    → text_compare (stamp_text p) (stamp_text q)
      ≡ and_then
          (compare p.millis q.millis)
          (and_then (compare p.counter q.counter) (text_compare p.node_id q.node_id))
unfolding text_compare fixed
stamp_text_order p q a b =
    compare-append (fixed 10 13 p.millis) (fixed 10 13 q.millis)
      (b'-' ∷ (fixed 16 4 p.counter ++ b'-' ∷ p.node_id))
      (b'-' ∷ (fixed 16 4 q.counter ++ b'-' ∷ q.node_id))
      (length-fixed 10 13 p.millis ∙ sym (length-fixed 10 13 q.millis))
    ∙ ap
        (λ o. and_then o (
          text_compare (fixed 16 4 p.counter ++ b'-' ∷ p.node_id)
            (fixed 16 4 q.counter ++ b'-' ∷ q.node_id)))
        (compare-millis p.millis q.millis a.millis_le b.millis_le)
    ∙ ap (λ o. and_then (compare p.millis q.millis) o)
        (compare-append (fixed 16 4 p.counter) (fixed 16 4 q.counter) (b'-' ∷ p.node_id)
            (b'-' ∷ q.node_id) (length-fixed 16 4 p.counter ∙ sym (length-fixed 16 4 q.counter))
          ∙ ap (λ o. and_then o (text_compare p.node_id q.node_id))
              (compare-counter p.counter q.counter a.counter_le b.counter_le))

-- Of two stamps that can be written, the lexicographic order of the texts is the chronological
-- order: by milliseconds, then counter, then node.
pub format_order :
    (p q : HlcParts) {s t : Text}
    → format_hlc p ≡ some s
    → format_hlc q ≡ some t
    → compare_hlc s t ≡ compare_parts p q
unfolding compare_parts
format_order p q h k =
    let (a, e) = format_inv p h in
    let (b, f) = format_inv q k in rw e (rw f (stamp_text_order p q a b))

split-append :
    (xs ys : Text) → any (λ b. b == b'-') xs ≡ false → split_dash (xs ++ b'-' ∷ ys) ≡ some (xs, ys)
unfolding split_dash
split-append [] ys h = refl
split-append (x ∷ xs) ys h = ground (arith, split-append xs ys)

split_inv : (t xs ys : Text) → split_dash t ≡ some (xs, ys) → t ≡ xs ++ b'-' ∷ ys
unfolding split_dash
split_inv [] xs ys h = cc
split_inv (b ∷ bs) xs ys h = elim (Bool-cases (b == b'-')) [
  | inl dash ↦ ground arith
  | inr other ↦ elim (Option-cases (split_dash bs)) [
    | inl none_left ↦ absurd (ground arith)
    | inr ((r, rest), e) ↦ ground (arith, split_inv bs r rest e)
  ]
]

no_dash :
    (p : ℕ → Bool)
    → ((b : ℕ) → p b ≡ true → (b == b'-') ≡ false)
    → (xs : Text) → all p xs ≡ true
    → any (λ b. b == b'-') xs ≡ false
no_dash p h [] k = refl
no_dash p h (x ∷ xs) k = ground (arith, no_dash p h xs, h x)

parse_lem :
    (t m rest c node : Text)
    → split_dash t ≡ some (m, rest)
    → split_dash rest ≡ some (c, node)
    → parse_hlc t ≡ parse_fields m c node
unfolding parse_hlc
parse_lem t m rest c node e f = rw e (rw f refl)

fields_of :
    (m c node : Text) (p : HlcParts)
    → (length m ≡ 13) × (all is_ascii_digit m ≡ true)
    → (length c ≡ 4) × (all is_hex_digit c ≡ true)
    → bad_node_id node ≡ false
    → (value 10 0 m ≡ p.millis) × (value 16 0 c ≡ p.counter) × (node ≡ p.node_id)
    → parse_fields m c node ≡ some p
unfolding parse_fields
fields_of m c node p h k n v = ground arith

fields_inv :
    (m c node : Text) (p : HlcParts)
    → parse_fields m c node ≡ some p
    → ((length m ≡ 13) × (all is_ascii_digit m ≡ true))
      × ((length c ≡ 4) × (all is_hex_digit c ≡ true))
      × (bad_node_id node ≡ false)
      × (p ≡ record { millis = value 10 0 m; counter = value 16 0 c; node_id = node })
unfolding parse_fields
fields_inv m c node p h = ground arith

-- Every stamp that is written is read back as it was.
pub parse-format : (p : HlcParts) {t : Text} → format_hlc p ≡ some t → parse_hlc t ≡ some p
unfolding fixed
parse-format p {t} h =
    let (s, e) = format_inv p h in
    let decs = dec_digits 13 p.millis in
    let hexes = hex_digits 4 p.counter in
    let rest = fixed 16 4 p.counter ++ b'-' ∷ p.node_id in
    let first =
      split-append (fixed 10 13 p.millis) rest
        (no_dash is_ascii_digit (λ b k. ground arith) (fixed 10 13 p.millis) decs) in
    let second =
      split-append (fixed 16 4 p.counter) p.node_id
        (no_dash is_hex_digit (λ b k. ground arith) (fixed 16 4 p.counter) hexes) in
    rw e (
      parse_lem (stamp_text p) (fixed 10 13 p.millis) rest (fixed 16 4 p.counter) p.node_id first
        second
      ∙ fields_of (fixed 10 13 p.millis) (fixed 16 4 p.counter) p.node_id p
          (length-fixed 10 13 p.millis, decs) (length-fixed 16 4 p.counter, hexes) s.node_ok
          (value-millis p.millis s.millis_le, value-counter p.counter s.counter_le, refl))

format_fields :
    (m c node : Text)
    → (length m ≡ 13) × (all is_ascii_digit m ≡ true)
    → (length c ≡ 4) × (all is_hex_digit c ≡ true)
    → bad_node_id node ≡ false
    → format_hlc (record { millis = value 10 0 m; counter = value 16 0 c; node_id = node })
      ≡ some (m ++ b'-' ∷ (c ++ b'-' ∷ node))
format_fields m c node (lm, dm) (lc, dc) n =
    format-IsStamp (record { millis = value 10 0 m; counter = value 16 0 c; node_id = node })
      (record { millis_le = millis_bound m lm dm; counter_le = counter_bound c lc dc; node_ok = n })
    ∙ ap (λ x. some (x ++ b'-' ∷ (fixed 16 4 (value 16 0 c) ++ b'-' ∷ node))) (fixed-millis m lm dm)
    ∙ ap (λ x. some (m ++ b'-' ∷ (x ++ b'-' ∷ node))) (fixed-counter c lc dc)

parse_none : (t : Text) → split_dash t ≡ none → parse_hlc t ≡ none
unfolding parse_hlc
parse_none t e = rw e refl

parse_one :
    (t m rest : Text) → split_dash t ≡ some (m, rest) → split_dash rest ≡ none → parse_hlc t ≡ none
unfolding parse_hlc
parse_one t m rest e f = rw e (rw f refl)

-- Every text that is read as a stamp is the one that the stamp is written as.
pub format-parse : (t : Text) {p : HlcParts} → parse_hlc t ≡ some p → format_hlc p ≡ some t
format-parse t {p} h = elim (Option-cases (split_dash t)) [
  | inl e ↦ absurd (ground (arith, parse_none t e))
  | inr ((m, rest), e) ↦ elim (Option-cases (split_dash rest)) [
    | inl f ↦ absurd (ground (arith, parse_one t m rest e f))
    | inr ((c, node), f) ↦
        let (dm, dc, n, same) = fields_inv m c node p (sym (parse_lem t m rest c node e f) ∙ h) in
        let whole : t ≡ m ++ b'-' ∷ (c ++ b'-' ∷ node) =
          split_inv t m rest e ∙ ap (λ r. m ++ b'-' ∷ r) (split_inv rest c node f) in
        rw same (rw whole (format_fields m c node dm dc n))
  ]
]
