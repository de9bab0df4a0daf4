-- ===== src/Consistency/Reads.antt =====
-- The read model of clients/rust/src/consistency.rs: local rows, remote rows and the overlay of
-- queued mutations. Payloads are the parameter `V`.
use opto_sync_clients.Base.{
  ℕ, Bool, true, false, ◌&&◌, ◌||◌, not, Option, none, some, List, [], ◌∷◌, ◌++◌, if◌then◌else◌,
  Result, ok, err, Text, text, text_eq, text_compare, length, is_empty, all, any, is_ascii_digit,
}
use Prim.Native.Nat.{Ordering, compare}
use opto_sync_clients.Base.Map.{Map, lookup, insert}
use opto_sync_clients.Protocol.Checks.{starts_with_zero}
use opto_sync_clients.Consistency.Policy.{
  ConsistencyError, ConsistencyPolicy, policy_eq, remote_acknowledged,
  canonicalize_consistency_policy,
}

pub record ProtocolIdentity : Type 0 where
  pub client_id : Text
  pub mutation_id : Text

pub record BaseRow (V : Type 0) : Type 0 where
  pub table : Text
  pub record_id : Text
  pub revision : Text
  pub operation : Text
  pub payload : Option V
  pub identity : Option ProtocolIdentity
  pub arrival_seq : Option ℕ

pub record OverlayEntry (V : Type 0) : Type 0 where
  pub mutation_id : Text
  pub client_id : Text
  pub table : Text
  pub record_id : Text
  pub operation : Text
  pub payload : Option V
  pub revision : Option Text
  pub consistency_policy : Text
  pub status : Text
  pub transformed_payload : Option V

pub record ProjectedRow (V : Type 0) : Type 0 where
  pub table : Text
  pub record_id : Text
  pub revision : Text
  pub operation : Text
  pub payload : Option V
  pub provenance : Text

pub record ReadReconciliationInput (V : Type 0) : Type 0 where
  pub local_base : List (BaseRow V)
  pub overlay : List (OverlayEntry V)
  pub remote : List (BaseRow V)
  pub acknowledged_mutation_ids : List Text

-- The inner `normalize`: what is not a canonical decimal counts as zero.
unfoldable pub normalize : Text → Text
normalize value =
    if text_eq value (text "0")
      || (not (is_empty value) && not (starts_with_zero value) && all is_ascii_digit value)
    then value
    else text "0"

-- `a.len().cmp(&b.len()).then_with(|| a.cmp(b))`.
unfoldable pub length_first : Text → Text → Ordering
length_first a b = elim (compare (length a) (length b)) [
  | Ordering.lt ↦ Ordering.lt
  | Ordering.eq ↦ text_compare a b
  | Ordering.gt ↦ Ordering.gt
]

unfoldable pub compare_decimal : Text → Text → Ordering
unfolding normalize length_first
compare_decimal left right = length_first (normalize left) (normalize right)

abbrev pub is_greater : Ordering → Bool
is_greater Ordering.gt = true
is_greater _ = false

abbrev pub is_less : Ordering → Bool
is_less Ordering.lt = true
is_less _ = false

-- `format!("{table}\0{record_id}")`.
unfoldable pub record_key : Text → Text → Text
record_key table record_id = table ++ 0 ∷ record_id

abbrev pub identity_of : Option ProtocolIdentity → Text
identity_of none = []
identity_of (some identity) = identity.mutation_id

-- A group of remote rows: its first row and the rows after it.
abbrev pub Group : Type 0 → Type 0
Group V = BaseRow V × List (BaseRow V)

module _ {V : Type 0} where
  unfoldable pub to_projected : BaseRow V → Text → ProjectedRow V
  to_projected row provenance = record {
    table = row.table;
    record_id = row.record_id;
    revision = row.revision;
    operation = row.operation;
    payload = row.payload;
    provenance = provenance;
  }

  -- The closure of `reduce`.
  unfoldable pub better : BaseRow V → BaseRow V → BaseRow V
  better winner candidate = elim (compare_decimal candidate.revision winner.revision) [
    | Ordering.gt ↦ candidate
    | Ordering.lt ↦ winner
    | Ordering.eq ↦
        if is_less (text_compare (identity_of candidate.identity) (identity_of winner.identity))
        then candidate
        else winner
  ]

  -- `reduce` from the first row of a group, which is not empty.
  unfoldable pub select_remote_winner : BaseRow V → List (BaseRow V) → BaseRow V
  unfolding better
  select_remote_winner winner [] = winner
  select_remote_winner winner (row ∷ rows) = select_remote_winner (better winner row) rows

  unfoldable pub insert_base : List (BaseRow V) → Map (ProjectedRow V) → Map (ProjectedRow V)
  unfolding insert to_projected record_key
  insert_base [] working = working
  insert_base (row ∷ rows) working = insert_base rows (
      insert (record_key row.table row.record_id) (to_projected row (text "authoritative")) working)

  abbrev pub pushed : Option (Group V) → BaseRow V → Group V
  pushed none row = (row, [])
  pushed (some (first, rows)) row = (first, rows ++ row ∷ [])

  -- `grouped.entry(key).or_default().push(row)`.
  unfoldable pub group_rows : List (BaseRow V) → Map (Group V) → Map (Group V)
  unfolding lookup insert record_key
  group_rows [] grouped = grouped
  group_rows (row ∷ rows) grouped =
      let key = record_key row.table row.record_id in
      group_rows rows (insert key (pushed (lookup key grouped) row) grouped)

  -- The `match` on `working.get(&key)`.
  abbrev pub takes_remote : BaseRow V → Option (ProjectedRow V) → Bool
  takes_remote remote none = true
  takes_remote remote (some local) = is_greater (compare_decimal remote.revision local.revision)

  unfoldable pub merge_groups : Map (Group V) → Map (ProjectedRow V) → Map (ProjectedRow V)
  unfolding lookup insert to_projected select_remote_winner compare_decimal
  merge_groups [] working = working
  merge_groups ((key, (first, rows)) ∷ groups) working =
      let remote = select_remote_winner first rows in
      merge_groups groups (
        if takes_remote remote (lookup key working)
        then insert key (to_projected remote (text "authoritative")) working
        else working)

  abbrev pub or_payload : Option V → Option V → Option V
  or_payload none payload = payload
  or_payload (some v) payload = some v

  abbrev pub revision_of : Option Text → Option (ProjectedRow V) → Text
  revision_of (some r) row = r
  revision_of none (some row) = row.revision
  revision_of none none = text "0"

  -- The row that an overlay entry puts over what is there.
  unfoldable pub overlaid : OverlayEntry V → Option (ProjectedRow V) → ProjectedRow V
  overlaid entry below = record {
    table = entry.table;
    record_id = entry.record_id;
    revision = revision_of entry.revision below;
    operation = entry.operation;
    payload =
        if text_eq entry.status (text "transformed")
        then or_payload entry.transformed_payload entry.payload
        else entry.payload;
    provenance = entry.status;
  }

  abbrev pub waits_for_server : OverlayEntry V → ConsistencyPolicy → Bool
  waits_for_server entry policy =
      text_eq entry.status (text "pending") && policy_eq policy remote_acknowledged

  unfoldable pub overlay_rows :
      List Text
      → List (OverlayEntry V)
      → Map (ProjectedRow V)
      → Result (Map (ProjectedRow V)) ConsistencyError
  unfolding lookup insert record_key overlaid canonicalize_consistency_policy
  overlay_rows acknowledged [] working = ok working
  overlay_rows acknowledged (entry ∷ entries) working =
      let key = record_key entry.table entry.record_id in
      let skipped = overlay_rows acknowledged entries working in
      let shown =
        overlay_rows acknowledged entries
          (insert key (overlaid entry (lookup key working)) working) in
      if any (λ id. text_eq id entry.mutation_id) acknowledged
      then skipped
      else elim (canonicalize_consistency_policy entry.consistency_policy) [
        | err e ↦ err e
        | ok policy ↦ if waits_for_server entry policy then skipped else shown
      ]

  -- The order of the result: by table, then by record id.
  unfoldable pub row_compare : ProjectedRow V → ProjectedRow V → Ordering
  row_compare left right = elim (text_compare left.table right.table) [
    | Ordering.lt ↦ Ordering.lt
    | Ordering.eq ↦ text_compare left.record_id right.record_id
    | Ordering.gt ↦ Ordering.gt
  ]

  unfoldable pub insert_projected : ProjectedRow V → List (ProjectedRow V) → List (ProjectedRow V)
  unfolding row_compare
  insert_projected row [] = row ∷ []
  insert_projected row (x ∷ xs) =
      let rest = insert_projected row xs in
      if is_greater (row_compare row x) then x ∷ rest else row ∷ x ∷ xs

  -- `into_values().collect()`, then the stable sort.
  unfoldable pub sorted_values : Map (ProjectedRow V) → List (ProjectedRow V)
  unfolding insert_projected
  sorted_values [] = []
  sorted_values ((key, row) ∷ working) = insert_projected row (sorted_values working)

  -- What is there before the overlay.
  unfoldable pub base_view : ReadReconciliationInput V → Map (ProjectedRow V)
  unfolding insert_base group_rows merge_groups
  base_view input = merge_groups (group_rows input.remote []) (insert_base input.local_base [])

  -- `?` on the loop over the overlay, and the sorted rows.
  unfoldable pub finish_read :
      Result (Map (ProjectedRow V)) ConsistencyError
      → Result (List (ProjectedRow V)) ConsistencyError
  unfolding sorted_values
  finish_read (err e) = err e
  finish_read (ok working) = ok (sorted_values working)

  unfoldable pub reconcile_read_model :
      ReadReconciliationInput V → Result (List (ProjectedRow V)) ConsistencyError
  unfolding base_view overlay_rows finish_read
  reconcile_read_model input =
      finish_read (overlay_rows input.acknowledged_mutation_ids input.overlay (base_view input))

abbrev pub meta_intent_policy_prefix : Text
meta_intent_policy_prefix = text "intent.policy."

unfoldable pub intent_policy_meta_key : Text → Text
intent_policy_meta_key mutation_id = meta_intent_policy_prefix ++ mutation_id
