-- ===== src/Consistency/Winner.antt =====
-- The row that `select_remote_winner` of clients/rust/src/consistency.rs chooses from a group.
use opto_sync_clients.Base.{
  ℕ, Option, none, some, refl, [], All, ◌∷◌, List, inl, inr, if◌then◌else◌, text_compare_refl,
  Bool-cases, ◌≡◌, Bool, true, false, Text, text_compare, arith,
}
use mathlib.Core.List.{Mem, Mem-prop, mem-cons_of_mem, mem-cons_self, eq-or-mem_of_mem-cons}
use mathlib.Core.Logic.Or
use opto_sync_clients.Base.Order.{text_compare_trans}
use Prim.Native.Nat.{Ordering, compare}
use opto_sync_clients.Consistency.Numbers.{revision_number, compare_decimal-number}
use opto_sync_clients.Consistency.Reads.{
  select_remote_winner, identity_of, better, BaseRow, ProtocolIdentity,
}

-- A row beats another by a greater revision, or by a smaller id at the same revision.
beats_at : ℕ → Text → ℕ → Text → Bool
beats_at m i n j = elim (compare m n) [
  | Ordering.gt ↦ true
  | Ordering.lt ↦ false
  | Ordering.eq ↦ elim (text_compare i j) [ Ordering.lt ↦ true | _ ↦ false ]
]

beats_trans :
    (l : ℕ) (i : Text) (m : ℕ) (j : Text) (n : ℕ) (k : Text)
    → beats_at l i m j ≡ true
    → beats_at m j n k ≡ true
    → beats_at l i n k ≡ true
unfolding beats_at
beats_trans l i m j n k h h' = ground (arith, text_compare_trans i j k)

-- The mutation that wrote a row, where it is known.
abbrev pub written_by : Option ProtocolIdentity → Text
written_by none = []
written_by (some identity) = identity.mutation_id

written_by-eq : (i : Option ProtocolIdentity) → identity_of i ≡ written_by i
written_by-eq none = refl
written_by-eq (some i) = refl

module _ {V : Type 0} where
  -- `row` is to be preferred to `winner`.
  abbrev pub beats : BaseRow V → BaseRow V → Bool
  unfolding beats_at
  beats row winner =
      beats_at (revision_number row.revision) (written_by row.identity)
        (revision_number winner.revision) (written_by winner.identity)

  pub better-beats :
      (winner row : BaseRow V) → better winner row ≡ (if beats row winner then row else winner)
  unfolding better beats_at
  better-beats winner row =
      let order = compare_decimal-number row.revision winner.revision in
      let left = written_by-eq row.identity in
      let right = written_by-eq winner.identity in ground arith

  beats_self : (row : BaseRow V) → beats row row ≡ false
  unfolding beats_at
  beats_self row = ground (arith, text_compare_refl (written_by row.identity))

  -- What did not beat the winner does not beat a better one.
  better-keeps :
      (winner row x : BaseRow V) → beats x winner ≡ false → beats x (better winner row) ≡ false
  unfolding beats_at beats
  better-keeps winner row x h = elim (Bool-cases (beats row winner)) [
    | inr stays ↦ rw (better-beats winner row, stays) h
    | inl moves ↦ elim (Bool-cases (beats x row)) [
      | inr fine ↦ rw (better-beats winner row, moves) fine
      | inl over ↦ let both = beats_trans _ _ _ _ _ _ over moves in absurd (cc)
    ]
  ]

  better-first : (winner row : BaseRow V) → beats winner (better winner row) ≡ false
  better-first winner row = better-keeps winner row winner (beats_self winner)

  better-second : (winner row : BaseRow V) → beats row (better winner row) ≡ false
  better-second winner row = elim (Bool-cases (beats row winner)) [
    | inr stays ↦ rw (better-beats winner row, stays) stays
    | inl moves ↦ rw (better-beats winner row, moves) (beats_self row)
  ]

  select-keeps :
      (winner x : BaseRow V) (rows : List (BaseRow V))
      → beats x winner ≡ false
      → beats x (select_remote_winner winner rows) ≡ false
  unfolding select_remote_winner
  select-keeps winner x [] h = h
  select-keeps winner x (row ∷ rows) h =
      select-keeps (better winner row) x rows (better-keeps winner row x h)

  select-All :
      (first : BaseRow V) (rows : List (BaseRow V))
      → All (λ x. beats x (select_remote_winner first rows) ≡ false) (first ∷ rows)
  unfolding select_remote_winner
  select-All first [] = (beats_self first, tt)
  select-All first (row ∷ rows) =
      let (_, rest) = select-All (better first row) rows in
      (
        select-keeps (better first row) first rows (better-first first row),
        (select-keeps (better first row) row rows (better-second first row), rest),
      )

  select-Mem :
      (first : BaseRow V) (rows : List (BaseRow V))
      → Mem (select_remote_winner first rows) (first ∷ rows)
  unfolding select_remote_winner
  select-Mem first [] = mem-cons_self
  select-Mem first (row ∷ rows) = elim (Bool-cases (beats row first)) [
    | inl moves ↦ rw (better-beats first row, moves) (mem-cons_of_mem first (select-Mem row rows))
    | inr stays ↦
        rw (better-beats first row, stays)
          (Or.elim Mem-prop (eq-or-mem_of_mem-cons (select-Mem first rows))
            (λ e. rw e mem-cons_self) (λ m. mem-cons_of_mem first (mem-cons_of_mem row m)))
  ]

  -- The row that is chosen from a group is one of its rows, and no row of the group is to be
  -- preferred to it: none has a greater revision, and none has the same revision with a mutation id
  -- that comes before in the order of texts, where no identity counts as the empty id. A revision
  -- is the number that it names, and zero when it is no decimal.
  pub select_remote_winner_best :
      (first : BaseRow V) (rows : List (BaseRow V))
      → Mem (select_remote_winner first rows) (first ∷ rows)
        × All (λ x. beats x (select_remote_winner first rows) ≡ false) (first ∷ rows)
  select_remote_winner_best first rows = (select-Mem first rows, select-All first rows)
