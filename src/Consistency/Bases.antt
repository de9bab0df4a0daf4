-- ===== src/Consistency/Bases.antt =====
-- The base of the read model of clients/rust/src/consistency.rs: local rows and the winners of the
-- remote groups.
use opto_sync_clients.Base.{
  true, ltb, ◌&&◌, ◌≡◌, refl, sym, ap, ◌∙◌, Bool, Option, none, some, List, [], ◌∷◌, ◌++◌, Text,
  text, text_eq, text_eq_sound, if◌then◌else◌, filter, arith, Bool-cases, inl, inr,
}
use mathlib.Core.List.{append-nil, append_assoc}
use opto_sync_clients.Base.Map.{Map, lookup, insert, lookup-insert}
use opto_sync_clients.Base.Sorted.{IsSorted, insert-IsSorted, lookup-IsBefore}
use opto_sync_clients.Consistency.Winner.{beats, better-beats}
use opto_sync_clients.Consistency.Numbers.{revision_number, compare_decimal-number}
use opto_sync_clients.Consistency.Reads.{
  better, BaseRow, ProjectedRow, ReadReconciliationInput, record_key, to_projected, insert_base,
  Group, pushed, group_rows, merge_groups, takes_remote, select_remote_winner, base_view,
}

module _ {V : Type 0} where
  abbrev pub has_key : Text → BaseRow V → Bool
  has_key key row = text_eq (row.table ++ 0 ∷ row.record_id) key

  -- The best row of a group: one that is beaten gives way.
  abbrev pub best_of : BaseRow V → List (BaseRow V) → BaseRow V
  best_of best [] = best
  best_of best (row ∷ rows) = best_of (if beats row best then row else best) rows

  select-best_of :
      (first : BaseRow V) (rows : List (BaseRow V))
      → select_remote_winner first rows ≡ best_of first rows
  unfolding select_remote_winner
  select-best_of first [] = refl
  select-best_of first (row ∷ rows) =
      select-best_of (better first row) rows
      ∙ ap (λ (b : BaseRow V). best_of b rows) (better-beats first row)

  -- A row of the base as it is shown.
  abbrev pub shown_row : BaseRow V → ProjectedRow V
  shown_row row = record {
    table = row.table;
    record_id = row.record_id;
    revision = row.revision;
    operation = row.operation;
    payload = row.payload;
    provenance = text "authoritative";
  }

  -- The last local row of the key.
  abbrev pub local_at : Text → List (BaseRow V) → Option (ProjectedRow V) → Option (ProjectedRow V)
  local_at key [] below = below
  local_at key (row ∷ rows) below =
      local_at key rows (if has_key key row then some (shown_row row) else below)

  -- A remote row is newer than a local one by a greater revision, as numbers.
  abbrev pub is_newer : BaseRow V → Option (ProjectedRow V) → Bool
  is_newer winner none = true
  is_newer winner (some local) =
      ltb (revision_number local.revision) (revision_number winner.revision)

  takes-is_newer :
      (winner : BaseRow V) (local : Option (ProjectedRow V))
      → takes_remote winner local ≡ is_newer winner local
  takes-is_newer winner none = refl
  takes-is_newer winner (some local) =
      let order = compare_decimal-number winner.revision local.revision in ground arith

  -- The winner of the remote rows of the key, where there are any and it is newer than `local`.
  abbrev pub remote_over : List (BaseRow V) → Option (ProjectedRow V) → Option (ProjectedRow V)
  remote_over [] local = local
  remote_over (row ∷ rows) local =
      let best = best_of row rows in if is_newer best local then some (shown_row best) else local

  local_lem :
      (key : Text) (rows : List (BaseRow V)) (working : Map (ProjectedRow V))
      → lookup key (insert_base rows working) ≡ local_at key rows (lookup key working)
  unfolding insert_base to_projected record_key
  local_lem key [] working = refl
  local_lem key (row ∷ rows) working =
      local_lem key rows _
      ∙ ap (local_at key rows) (lookup-insert (record_key row.table row.record_id) key _ working)

  -- The rows of a group, the first one apart.
  abbrev group_list : Option (Group V) → List (BaseRow V)
  group_list none = []
  group_list (some (first, rows)) = first ∷ rows

  pushed-list :
      (g : Option (Group V)) (row : BaseRow V)
      → group_list (some (pushed g row)) ≡ group_list g ++ row ∷ []
  pushed-list none row = refl
  pushed-list (some (first, rows)) row = refl

  pushed_lem :
      (key : Text) (row : BaseRow V) (grouped : Map (Group V))
      → let k = record_key row.table row.record_id in
        group_list (lookup key (insert k (pushed (lookup k grouped) row) grouped)) ≡ (
          if has_key key row
          then group_list (lookup key grouped) ++ row ∷ []
          else group_list (lookup key grouped))
  unfolding record_key
  pushed_lem key row grouped =
      let k = record_key row.table row.record_id in
      let at = lookup-insert k key (pushed (lookup k grouped) row) grouped in
      elim (Bool-cases (text_eq k key)) [
        | inr other ↦ ap group_list at ∙ rw other refl
        | inl same ↦
            let found : lookup key (insert k (pushed (lookup k grouped) row) grouped)
                ≡ some (pushed (lookup k grouped) row) =
              at ∙ rw same refl in
            ap group_list found
            ∙ pushed-list (lookup k grouped) row
            ∙ ap (λ (j : Text). group_list (lookup j grouped) ++ row ∷ [])
                (text_eq_sound k key same)
            ∙ rw same refl
      ]

  group_lem :
      (key : Text) (rows : List (BaseRow V)) (grouped : Map (Group V))
      → group_list (lookup key (group_rows rows grouped))
        ≡ group_list (lookup key grouped) ++ filter (has_key key) rows
  unfolding group_rows record_key
  group_lem key [] grouped = sym (append-nil _)
  group_lem key (row ∷ rows) grouped =
      let k = record_key row.table row.record_id in
      let here = lookup key (insert k (pushed (lookup k grouped) row) grouped) in
      let old = group_list (lookup key grouped) in
      let added = λ (xs : List (BaseRow V)). xs ++ filter (has_key key) rows in
      elim (Bool-cases (has_key key row)) [
        | inl same ↦
            let put : group_list here ≡ old ++ row ∷ [] =
              pushed_lem key row grouped ∙ rw same refl in
            group_lem key rows _
            ∙ ap added put
            ∙ append_assoc old (row ∷ []) (filter (has_key key) rows)
            ∙ rw (same, filter) refl
        | inr other ↦
            let put : group_list here ≡ old = pushed_lem key row grouped ∙ rw other refl in
            group_lem key rows _ ∙ ap added put ∙ rw (other, filter) refl
      ]

  group-IsSorted :
      (rows : List (BaseRow V)) (grouped : Map (Group V))
      → IsSorted grouped
      → IsSorted (group_rows rows grouped)
  unfolding group_rows
  group-IsSorted [] grouped s = s
  group-IsSorted (row ∷ rows) grouped s =
      group-IsSorted rows _ (insert-IsSorted (record_key row.table row.record_id) _ grouped s)

  put_lem :
      (k key : Text) (row : ProjectedRow V) (takes : Bool) (working : Map (ProjectedRow V))
      → lookup key (if takes then insert k row working else working)
        ≡ (if text_eq k key && takes then some row else lookup key working)
  put_lem k key row takes working = ground (arith, lookup-insert k key row working)

  merge_lem :
      (key : Text) (groups : Map (Group V)) (working : Map (ProjectedRow V))
      → IsSorted groups
      → lookup key (merge_groups groups working)
        ≡ remote_over (group_list (lookup key groups)) (lookup key working)
  unfolding merge_groups lookup to_projected
  merge_lem key [] working s = refl
  merge_lem key ((k, (first, rows)) ∷ groups) working (before, s) =
      let winner = select_remote_winner first rows in
      let takes = takes_remote winner (lookup k working) in
      let put = put_lem k key (to_projected winner (text "authoritative")) takes working in
      elim (Bool-cases (text_eq k key)) [
        | inl same ↦
            let e : k ≡ key = text_eq_sound k key same in
            let newer = takes-is_newer winner (lookup key working) in
            let best = select-best_of first rows in
            let alone : lookup key groups ≡ none = rw e at (lookup-IsBefore k groups before) in
            merge_lem key groups _ s
            ∙ (let below : takes ≡ takes_remote winner (lookup key working) =
                  ap (λ (j : Text). takes_remote winner (lookup j working)) e in
                rw (alone, same, lookup) (put ∙ rw (same, below, newer, best) refl))
        | inr other ↦
            merge_lem key groups _ s
            ∙ rw (other, lookup)
                (ap (remote_over (group_list (lookup key groups))) (put ∙ rw other refl))
      ]

  -- Before the overlay a key, the table and the record id with a zero byte between, holds the last
  -- local row of the key, unless the best remote row of the key has a greater revision or there is no
  -- local one: then it holds that remote row. Of two remote rows one beats the other by a greater
  -- revision, or at the same by a mutation id that comes before; the first of the best counts. The other keys do not
  -- count.
  pub base_view_at :
      (input : ReadReconciliationInput V) (key : Text)
      → lookup key (base_view input)
        ≡ remote_over (filter (has_key key) input.remote) (local_at key input.local_base none)
  unfolding base_view lookup
  base_view_at input key =
      merge_lem key (group_rows input.remote []) (insert_base input.local_base [])
        (group-IsSorted input.remote [] tt)
      ∙ ap
          (λ (rows : List (BaseRow V)).
            remote_over rows (lookup key (insert_base input.local_base [])))
          (group_lem key input.remote [])
      ∙ ap (remote_over (filter (has_key key) input.remote)) (local_lem key input.local_base [])

  base-IsSorted :
      (rows : List (BaseRow V)) (working : Map (ProjectedRow V))
      → IsSorted working
      → IsSorted (insert_base rows working)
  unfolding insert_base
  base-IsSorted [] working s = s
  base-IsSorted (row ∷ rows) working s =
      base-IsSorted rows _ (insert-IsSorted (record_key row.table row.record_id) _ working s)

  merge-IsSorted :
      (groups : Map (Group V)) (working : Map (ProjectedRow V))
      → IsSorted working
      → IsSorted (merge_groups groups working)
  unfolding merge_groups
  merge-IsSorted [] working s = s
  merge-IsSorted ((k, (first, rows)) ∷ groups) working s =
      let winner = select_remote_winner first rows in
      elim (Bool-cases (takes_remote winner (lookup k working))) [
        | inl takes ↦ rw takes (merge-IsSorted groups _ (insert-IsSorted k _ working s))
        | inr stays ↦ rw stays (merge-IsSorted groups working s)
      ]

  pub base_view-IsSorted : (input : ReadReconciliationInput V) → IsSorted (base_view input)
  unfolding base_view
  base_view-IsSorted input =
      merge-IsSorted (group_rows input.remote []) (insert_base input.local_base [])
        (base-IsSorted input.local_base [] tt)
