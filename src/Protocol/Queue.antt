-- ===== src/Protocol/Queue.antt =====
-- `ProtocolQueue` of clients/rust/src/protocol.rs: construction, local writes, batches, pruning.
-- A method on `&mut self` returns the new queue with its result.
use opto_sync_clients.Base.{
  ℕ, ◌-◌, Bool, false, ◌||◌, not, Option, none, some, List, [], ◌∷◌, ◌++◌, map, ltb, leb, ◌==◌,
  if◌then◌else◌, Result, ok, err, Text, text, text_eq, length, take, filter, any, is_empty,
  checked_add,
}
use opto_sync_clients.Base.Map.{lookup, insert, or_insert}
use opto_sync_clients.Protocol.Types.{
  Json, ProtocolError, empty_client_id, invalid_limit, invalid_queue_limit, invalid_payload,
  invalid_target, queue_full, payload_too_large, mutation_id_exhausted, upsert, delete, pending,
  ProtocolMutation, PushRequest, ProtocolQueue, is_pending,
}
use opto_sync_clients.Protocol.Checks.{
  default_max_pending_mutations, default_max_queued_payload_bytes, valid_push_limit,
  can_allocate_mutation_id, valid_scope_id, valid_record_id, parse_decimal, to_string,
}

-- The default of consistency.rs.
abbrev pub write_through_local_first : Text
write_through_local_first = text "opto.consistency.write-through-local-first.v1"

module _ {V : Type 0} where
  unfoldable pub with_limits : Text → ℕ → ℕ → Result (ProtocolQueue V) ProtocolError
  with_limits client_id max_pending_mutations max_queued_payload_bytes =
      if is_empty client_id
      then err empty_client_id
      else if not (valid_scope_id client_id)
      then err invalid_target
      else if max_pending_mutations == 0 || ltb max_queued_payload_bytes 2
      then err invalid_queue_limit
      else ok (record {
        client_id = client_id;
        next_mutation_id = 1;
        checkpoint = text "0";
        mutations = [];
        max_pending_mutations = max_pending_mutations;
        max_queued_payload_bytes = max_queued_payload_bytes;
        consistency_policies = [];
      })

  unfoldable pub new : Text → Result (ProtocolQueue V) ProtocolError
  unfolding with_limits
  new client_id =
      with_limits client_id default_max_pending_mutations default_max_queued_payload_bytes

  abbrev pub still_pending : ProtocolMutation V → Bool
  still_pending m = is_pending m.status

  -- `pending()`.
  abbrev pub pending_of : List (ProtocolMutation V) → List (ProtocolMutation V)
  pending_of ms = filter still_pending ms

  enqueue :
      ProtocolQueue V → ProtocolMutation V → Option ℕ → ProtocolQueue V × Result Text ProtocolError
  enqueue q mutation none = (q, err mutation_id_exhausted)
  enqueue q mutation (some next) =
      let id = to_string q.next_mutation_id in
      (
        record q {
          next_mutation_id = next;
          mutations = q.mutations ++ record mutation { mutation_id = id } ∷ [];
          consistency_policies = or_insert id write_through_local_first q.consistency_policies;
        },
        ok id,
      )

  -- The private method `queue`.
  unfoldable pub queue :
      ProtocolQueue V → ProtocolMutation V → ℕ → ProtocolQueue V × Result Text ProtocolError
  unfolding enqueue can_allocate_mutation_id
  queue q mutation payload_bytes =
      if ltb q.max_queued_payload_bytes payload_bytes
      then (q, err payload_too_large)
      else if leb q.max_pending_mutations (length (pending_of q.mutations))
      then (q, err queue_full)
      else if not (can_allocate_mutation_id q.next_mutation_id)
      then (q, err mutation_id_exhausted)
      else enqueue q mutation (checked_add q.next_mutation_id 1)

  -- `queue_upsert` once the payload is encoded; `to_vec` may fail.
  upsert_encoded :
      ProtocolQueue V → ProtocolMutation V → Option ℕ → ProtocolQueue V × Result Text ProtocolError
  upsert_encoded q mutation none = (q, err invalid_payload)
  upsert_encoded q mutation (some payload_bytes) = queue q mutation payload_bytes

  unfoldable pub queue_upsert :
      Json V
      → ProtocolQueue V
      → Text
      → Text
      → V
      → Option Text
      → Bool
      → ProtocolQueue V × Result Text ProtocolError
  unfolding upsert_encoded
  queue_upsert json q table record_id payload base_revision resurrect =
      if not (valid_scope_id table) || not (valid_record_id record_id)
      then (q, err invalid_target)
      else if not (json.is_object payload)
      then (q, err invalid_payload)
      else upsert_encoded q
          (record {
            mutation_id = [];
            operation = upsert;
            table = table;
            record_id = record_id;
            payload = some payload;
            base_revision = base_revision;
            resurrect = resurrect;
            status = pending;
          })
          (json.encoded_len payload)

  unfoldable pub queue_delete :
      ProtocolQueue V → Text → Text → Option Text → ProtocolQueue V × Result Text ProtocolError
  queue_delete q table record_id base_revision =
      if not (valid_scope_id table) || not (valid_record_id record_id)
      then (q, err invalid_target)
      else queue q
          (record {
            mutation_id = [];
            operation = delete;
            table = table;
            record_id = record_id;
            payload = none;
            base_revision = base_revision;
            resurrect = false;
            status = pending;
          })
          2

  -- `consistency_policies.insert(id, policy)` after a write that succeeded; `policy` is the text of
  -- `ConsistencyPolicy::as_str`.
  with_policy :
      Text
      → ProtocolQueue V × Result Text ProtocolError
      → ProtocolQueue V × Result Text ProtocolError
  with_policy policy (q, ok id) =
      (record q { consistency_policies = insert id policy q.consistency_policies }, ok id)
  with_policy policy (q, err e) = (q, err e)

  unfoldable pub queue_upsert_with_consistency :
      Json V
      → ProtocolQueue V
      → Text
      → Text
      → V
      → Option Text
      → Bool
      → Text
      → ProtocolQueue V × Result Text ProtocolError
  unfolding with_policy
  queue_upsert_with_consistency json q table record_id payload base_revision resurrect policy =
      with_policy policy (queue_upsert json q table record_id payload base_revision resurrect)

  unfoldable pub queue_delete_with_consistency :
      ProtocolQueue V
      → Text
      → Text
      → Option Text
      → Text
      → ProtocolQueue V × Result Text ProtocolError
  unfolding with_policy
  queue_delete_with_consistency q table record_id base_revision policy =
      with_policy policy (queue_delete q table record_id base_revision)

  unfoldable pub consistency_policy : ProtocolQueue V → Text → Option Text
  unfolding lookup
  consistency_policy q mutation_id = lookup mutation_id q.consistency_policies

  -- The oldest confirmed ids beyond the `retain` newest are dropped.
  unfoldable pub prune_confirmed : ProtocolQueue V → ℕ → ProtocolQueue V × ℕ
  prune_confirmed q retain =
      let confirmed_rows = filter (λ m. not (still_pending m)) q.mutations in
      let drop_count = length confirmed_rows - retain in
      let drop_ids =
        take drop_count (map (λ (m : ProtocolMutation V). m.mutation_id) confirmed_rows) in
      let kept = filter (λ m. not (any (λ id. text_eq id m.mutation_id) drop_ids)) q.mutations in
      (record q { mutations = kept }, length q.mutations - length kept)

  unfoldable pub push_request : ProtocolQueue V → ℕ → Result (PushRequest V) ProtocolError
  push_request q limit =
      if not (valid_push_limit limit)
      then err invalid_limit
      else ok (record {
        protocol_version = 1;
        client_id = q.client_id;
        mutations = take limit (pending_of q.mutations);
      })

  set_checkpoint_parsed :
      ProtocolQueue V
      → Text
      → Result ℕ ProtocolError
      → ProtocolQueue V × Result (Unit {0}) ProtocolError
  set_checkpoint_parsed q checkpoint (err e) = (q, err e)
  set_checkpoint_parsed q checkpoint (ok n) = (record q { checkpoint = checkpoint }, ok tt)

  unfoldable pub set_checkpoint :
      ProtocolQueue V → Text → ProtocolQueue V × Result (Unit {0}) ProtocolError
  unfolding set_checkpoint_parsed
  set_checkpoint q checkpoint = set_checkpoint_parsed q checkpoint (parse_decimal checkpoint)
