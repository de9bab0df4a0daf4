-- ===== src/Protocol/Merge.antt =====
-- `ProtocolQueue::merge_concurrent_durable` of clients/rust/src/protocol.rs. Both queues have passed
-- `validate` when the rows are sorted, so each id parses and the `expect` of the key cannot fail.
use opto_sync_clients.Base.{
  ℕ, Bool, ◌&&◌, ◌||◌, not, Option, none, some, List, [], ◌∷◌, ◌++◌, ltb, leb, ◌==◌, if◌then◌else◌,
  Result, ok, err, Text, text_eq, any, find?,
}
use opto_sync_clients.Protocol.Types.{
  Json, ProtocolError, invalid_queue_state, ProtocolMutation, ProtocolQueue, operation_eq,
  is_pending, confirmed,
}
use opto_sync_clients.Protocol.Checks.{parse_decimal}
use opto_sync_clients.Protocol.Queue.{still_pending}
use opto_sync_clients.Protocol.Validate.{validate}
use opto_sync_clients.Protocol.Acknowledge.{option_eq}

abbrev id_of : Result ℕ ProtocolError → ℕ
id_of (ok n) = n
id_of (err e) = 0

-- The later of the two checkpoints.
later_checkpoint :
    Text → Text → Result ℕ ProtocolError → Result ℕ ProtocolError → Result Text ProtocolError
later_checkpoint mine theirs (err e) _ = err e
later_checkpoint mine theirs (ok n) (err e) = err e
later_checkpoint mine theirs (ok n) (ok m) = ok (if ltb m n then theirs else mine)

module _ {V : Type 0} where
  abbrev pub sort_key : ProtocolMutation V → ℕ
  sort_key m = id_of (parse_decimal m.mutation_id)

  unfoldable pub insert_row :
      ProtocolMutation V → List (ProtocolMutation V) → List (ProtocolMutation V)
  insert_row m [] = m ∷ []
  insert_row m (n ∷ ns) =
      let rest = insert_row m ns in if leb (sort_key m) (sort_key n) then m ∷ n ∷ ns else n ∷ rest

  -- `sort_by_key`, which is stable.
  unfoldable pub sort_rows : List (ProtocolMutation V) → List (ProtocolMutation V)
  unfolding insert_row
  sort_rows [] = []
  sort_rows (m ∷ ms) = insert_row m (sort_rows ms)

module _ {V : Type 0} (json : Json V) where
  unfoldable pub same_immutable_mutation : ProtocolMutation V → ProtocolMutation V → Bool
  same_immutable_mutation a b =
      text_eq a.mutation_id b.mutation_id
      && operation_eq a.operation b.operation
      && text_eq a.table b.table
      && text_eq a.record_id b.record_id
      && option_eq json.value_eq a.payload b.payload
      && option_eq text_eq a.base_revision b.base_revision
      && (a.resurrect && b.resurrect || not a.resurrect && not b.resurrect)

  -- One row of the first loop, given what `find` returns.
  unfoldable pub match_row :
      ProtocolMutation V → Option (ProtocolMutation V) → Result (ProtocolMutation V) ProtocolError
  match_row m none = err invalid_queue_state
  match_row m (some d) =
      if not (same_immutable_mutation m d)
      then err invalid_queue_state
      else ok (if is_pending d.status then m else record m { status = confirmed })

  -- The first loop; the rows before an error stay confirmed.
  unfoldable pub match_rows :
      List (ProtocolMutation V)
      → List (ProtocolMutation V)
      → List (ProtocolMutation V) × Result (Unit {0}) ProtocolError
  unfolding match_row
  match_rows durable [] = ([], ok tt)
  match_rows durable (m ∷ ms) =
      let rest = match_rows durable ms in
      elim (match_row m (find? (λ c. text_eq c.mutation_id m.mutation_id) durable)) [
        | err e ↦ (m ∷ ms, err e)
        | ok merged ↦ (merged ∷ rest.0, rest.1)
      ]

  -- The second loop, over the rows of the durable queue.
  unfoldable pub import_rows :
      ℕ
      → List (ProtocolMutation V)
      → List (ProtocolMutation V)
      → List (ProtocolMutation V) × Result (Unit {0}) ProtocolError
  import_rows original_next rows [] = (rows, ok tt)
  import_rows original_next rows (d ∷ ds) =
      let skipped = import_rows original_next rows ds in
      let pushed = import_rows original_next (rows ++ d ∷ []) ds in
      if any (λ m. text_eq m.mutation_id d.mutation_id) rows
      then skipped
      else elim (parse_decimal d.mutation_id) [
        | err e ↦ (rows, err e)
        | ok id ↦
            if leb original_next id
            then pushed
            else if still_pending d
            then (rows, err invalid_queue_state)
            else skipped
      ]

  -- `self.validate()` at the end keeps the merged state also when it fails.
  finish_merge :
      ProtocolQueue V
      → Result Text ProtocolError
      → ProtocolQueue V × Result (Unit {0}) ProtocolError
  finish_merge q (err e) = (q, err e)
  finish_merge q (ok checkpoint) =
      (record q { checkpoint = checkpoint }, validate json (record q { checkpoint = checkpoint }))

  after_import :
      ProtocolQueue V
      → ProtocolQueue V
      → List (ProtocolMutation V) × Result (Unit {0}) ProtocolError
      → ProtocolQueue V × Result (Unit {0}) ProtocolError
  unfolding finish_merge later_checkpoint
  after_import q durable (rows, err e) = (record q { mutations = rows }, err e)
  after_import q durable (rows, ok u) =
      finish_merge
        (record q { mutations = sort_rows rows; next_mutation_id = durable.next_mutation_id })
        (later_checkpoint q.checkpoint durable.checkpoint (parse_decimal durable.checkpoint)
          (parse_decimal q.checkpoint))

  after_match :
      ProtocolQueue V
      → ProtocolQueue V
      → List (ProtocolMutation V) × Result (Unit {0}) ProtocolError
      → ProtocolQueue V × Result (Unit {0}) ProtocolError
  unfolding after_import
  after_match q durable (rows, err e) = (record q { mutations = rows }, err e)
  after_match q durable (rows, ok u) =
      after_import q durable (import_rows q.next_mutation_id rows durable.mutations)

  merge_validated :
      ProtocolQueue V
      → ProtocolQueue V
      → Result (Unit {0}) ProtocolError
      → Result (Unit {0}) ProtocolError
      → ProtocolQueue V × Result (Unit {0}) ProtocolError
  unfolding after_match
  merge_validated q durable (err e) _ = (q, err e)
  merge_validated q durable (ok u) (err e) = (q, err e)
  merge_validated q durable (ok u) (ok v) =
      if not (text_eq q.client_id durable.client_id)
        || not (q.max_pending_mutations == durable.max_pending_mutations)
        || not (q.max_queued_payload_bytes == durable.max_queued_payload_bytes)
        || ltb durable.next_mutation_id q.next_mutation_id
      then (q, err invalid_queue_state)
      else after_match q durable (match_rows durable.mutations q.mutations)

  unfoldable pub merge_concurrent_durable :
      ProtocolQueue V → ProtocolQueue V → ProtocolQueue V × Result (Unit {0}) ProtocolError
  unfolding merge_validated
  merge_concurrent_durable q durable =
      merge_validated q durable (validate json q) (validate json durable)
