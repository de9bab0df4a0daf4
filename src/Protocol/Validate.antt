-- ===== src/Protocol/Validate.antt =====
-- `ProtocolQueue::validate` of clients/rust/src/protocol.rs, which deserialization runs too.
use opto_sync_clients.Base.{
  ℕ, ◌+◌, Bool, false, ◌&&◌, ◌||◌, not, Option, none, some, List, [], ◌∷◌, ltb, leb, ◌==◌,
  if◌then◌else◌, Result, ok, err, is_ok, is_some, Text,
}
use opto_sync_clients.Protocol.Types.{
  Json, ProtocolError, invalid_queue_state, Operation, upsert, delete, ProtocolMutation,
  ProtocolQueue, LocalProtocolStatus, pending, confirmed,
}
use opto_sync_clients.Protocol.Checks.{max_i64, valid_scope_id, valid_record_id, parse_decimal}

abbrev pub bad_decimal : Option Text → Bool
bad_decimal none = false
bad_decimal (some value) = not (is_ok (parse_decimal value))

-- `usize::from(status == Pending)`.
abbrev pub pending_count : LocalProtocolStatus → ℕ
pending_count pending = 1
pending_count confirmed = 0

module _ {V : Type 0} (json : Json V) where
  unfoldable pub encoded_fits : ℕ → Option ℕ → Bool
  encoded_fits limit none = false
  encoded_fits limit (some bytes) = not (ltb limit bytes)

  -- The `match mutation.operation`; false is an early return of `InvalidQueueState`.
  unfoldable pub content_ok : ℕ → Operation → Option V → Bool → Bool
  unfolding encoded_fits
  content_ok limit upsert none resurrect = false
  content_ok limit upsert (some payload) resurrect =
      json.is_object payload && encoded_fits limit (json.encoded_len payload)
  content_ok limit delete payload resurrect = not (is_some payload || resurrect)

  -- The closure of the `try_fold`, once the id is parsed.
  check_parsed :
      ProtocolQueue V → ℕ → ProtocolMutation V → Result ℕ ProtocolError → Result ℕ ProtocolError
  check_parsed q prior_id m (err e) = err invalid_queue_state
  check_parsed q prior_id m (ok id) =
      if id == 0
        || leb id prior_id
        || leb q.next_mutation_id id
        || not (valid_scope_id m.table)
        || not (valid_record_id m.record_id)
        || bad_decimal m.base_revision
      then err invalid_queue_state
      else if not (content_ok q.max_queued_payload_bytes m.operation m.payload m.resurrect)
      then err invalid_queue_state
      else ok id

  unfoldable pub check_row : ProtocolQueue V → ℕ → ProtocolMutation V → Result ℕ ProtocolError
  unfolding check_parsed content_ok
  check_row q prior_id m = check_parsed q prior_id m (parse_decimal m.mutation_id)

  -- The fold: the pending mutations, counted.
  unfoldable pub check_rows :
      ProtocolQueue V → ℕ → ℕ → List (ProtocolMutation V) → Result ℕ ProtocolError
  check_rows q prior_id count [] = ok count
  check_rows q prior_id count (m ∷ ms) = elim (check_row q prior_id m) [
    | err e ↦ err e
    | ok id ↦ check_rows q id (count + pending_count m.status) ms
  ]

  check_count : ProtocolQueue V → Result ℕ ProtocolError → Result (Unit {0}) ProtocolError
  check_count q (err e) = err e
  check_count q (ok count) =
      if ltb q.max_pending_mutations count then err invalid_queue_state else ok tt

  unfoldable pub validate : ProtocolQueue V → Result (Unit {0}) ProtocolError
  unfolding check_count
  validate q =
      if not (valid_scope_id q.client_id)
        || q.max_pending_mutations == 0
        || ltb q.max_queued_payload_bytes 2
        || not (is_ok (parse_decimal q.checkpoint))
        || q.next_mutation_id == 0
        || ltb (max_i64 + 1) q.next_mutation_id
      then err invalid_queue_state
      else check_count q (check_rows q 0 0 q.mutations)
