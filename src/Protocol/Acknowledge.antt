-- ===== src/Protocol/Acknowledge.antt =====
-- `ProtocolQueue::acknowledge` and `install_snapshot` of clients/rust/src/protocol.rs.
use opto_sync_clients.Base.{
  ℕ, ◌+◌, Bool, true, false, ◌&&◌, ◌||◌, not, Option, none, some, List, [], ◌∷◌, ltb, leb, ◌==◌,
  if◌then◌else◌, Result, ok, err, is_ok, is_some, Text, text_eq, length, take, all, list_eq, last?,
}
use opto_sync_clients.Protocol.Types.{
  Json, ProtocolError, wrong_client, invalid_acknowledgement, invalid_snapshot, watermark_ahead,
  operation_eq, status_eq, is_duplicate, is_pending, confirmed, ProtocolMutation, PushRequest,
  MutationResult, ResultStatus, PushResponse, SnapshotRecord, SnapshotResponse,
  SnapshotInstallError, protocol, replace, ProtocolQueue,
}
use opto_sync_clients.Protocol.Checks.{
  watermark_is_valid, valid_scope_id, valid_record_id, parse_decimal,
}
use opto_sync_clients.Protocol.Queue.{pending_of}
use opto_sync_clients.Protocol.Validate.{bad_decimal}

abbrev pub option_eq : {A : Type 0} → (A → A → Bool) → Option A → Option A → Bool
option_eq eq none none = true
option_eq eq (some x) (some y) = eq x y
option_eq eq _ _ = false

-- `revision.is_some_and(..)`: not a decimal, or zero.
unfoldable pub bad_revision : Option Text → Bool
bad_revision none = false
bad_revision (some value) = elim (parse_decimal value) [
  | err e ↦ true
  | ok revision ↦ revision == 0
]

abbrev pub is_original_duplicate : Option ResultStatus → Bool
is_original_duplicate none = false
is_original_duplicate (some status) = is_duplicate status

module _ {V : Type 0} where
  -- The closure of `any` over the pairs of sent mutation and result.
  unfoldable pub mismatched : ProtocolMutation V → MutationResult → Bool
  unfolding bad_revision
  mismatched sent result =
      not (text_eq sent.mutation_id result.mutation_id)
      || bad_decimal result.checkpoint
      || bad_revision result.revision
      || is_original_duplicate result.original_status
      || (is_duplicate result.status && not (is_some result.original_status))
      || (not (is_duplicate result.status) && is_some result.original_status)

  -- `zip` ends with the shorter list.
  unfoldable pub any_mismatched : List (ProtocolMutation V) → List MutationResult → Bool
  unfolding mismatched
  any_mismatched (m ∷ ms) (r ∷ rs) = mismatched m r || any_mismatched ms rs
  any_mismatched _ _ = false

  -- `last_mutation_id != request.mutations.last().mutation_id`; the list is not empty there.
  ends_elsewhere : Text → Option (ProtocolMutation V) → Bool
  ends_elsewhere last_mutation_id none = true
  ends_elsewhere last_mutation_id (some m) = not (text_eq last_mutation_id m.mutation_id)

  -- The `try_fold` over `iter_mut`: what it has confirmed before an error stays confirmed.
  unfoldable pub confirm_through :
      ℕ → ℕ → List (ProtocolMutation V) → List (ProtocolMutation V) × Result ℕ ProtocolError
  confirm_through watermark changed [] = ([], ok changed)
  confirm_through watermark changed (m ∷ ms) = elim (parse_decimal m.mutation_id) [
    | err e ↦ (m ∷ ms, err e)
    | ok id ↦
        let hit = leb id watermark && is_pending m.status in
        let rest = confirm_through watermark (if hit then changed + 1 else changed) ms in
        ((if hit then record m { status = confirmed } else m) ∷ rest.0, rest.1)
  ]

  confirm_valid :
      ProtocolQueue V → Result ℕ ProtocolError → ProtocolQueue V × Result ℕ ProtocolError
  unfolding confirm_through watermark_is_valid
  confirm_valid q (err e) = (q, err e)
  confirm_valid q (ok watermark) =
      if not (watermark_is_valid watermark q.next_mutation_id)
      then (q, err watermark_ahead)
      else let (mutations, changed) = confirm_through watermark 0 q.mutations in
        (record q { mutations = mutations }, changed)

module _ {V : Type 0} (json : Json V) where
  -- Derived `PartialEq` of a mutation.
  unfoldable pub mutation_eq : ProtocolMutation V → ProtocolMutation V → Bool
  mutation_eq a b =
      text_eq a.mutation_id b.mutation_id
      && operation_eq a.operation b.operation
      && text_eq a.table b.table
      && text_eq a.record_id b.record_id
      && option_eq json.value_eq a.payload b.payload
      && option_eq text_eq a.base_revision b.base_revision
      && (a.resurrect && b.resurrect || not a.resurrect && not b.resurrect)
      && status_eq a.status b.status

  unfoldable pub acknowledge :
      ProtocolQueue V → PushResponse → PushRequest V → ProtocolQueue V × Result ℕ ProtocolError
  unfolding ends_elsewhere confirm_valid
  acknowledge q response request =
      if not (text_eq request.client_id q.client_id) || not (text_eq response.client_id q.client_id)
      then (q, err wrong_client)
      else if not (request.protocol_version == 1)
          || length request.mutations == 0
          || ltb 100 (length request.mutations)
          || not (
              list_eq mutation_eq request.mutations
                (take (length request.mutations) (pending_of q.mutations)))
          || not (response.protocol_version == 1)
          || not (length response.results == length request.mutations)
          || ends_elsewhere response.last_mutation_id (last? request.mutations)
          || not (is_ok (parse_decimal response.checkpoint))
          || any_mismatched request.mutations response.results
      then (q, err invalid_acknowledgement)
      else confirm_valid q (parse_decimal response.last_mutation_id)

  -- `parse_decimal(revision).is_ok_and(|revision| revision > 0)`.
  positive : Text → Bool
  positive revision = elim (parse_decimal revision) [ err e ↦ false | ok n ↦ ltb 0 n ]

  unfoldable pub valid_record : SnapshotRecord V → Bool
  unfolding positive
  valid_record r =
      valid_scope_id r.table
      && valid_record_id r.record_id
      && json.is_object r.content
      && positive r.revision

  -- The application's store `W` is threaded through the callback `replace_authoritative`.
  finish_install :
      {W E : Type 0}
      → ProtocolQueue V
      → Text
      → W × Result (Unit {0}) E
      → ProtocolQueue V × W × Result (Unit {0}) (SnapshotInstallError E)
  finish_install q checkpoint (w, err e) = (q, w, err (replace e))
  finish_install q checkpoint (w, ok u) = (record q { checkpoint = checkpoint }, w, ok tt)

  unfoldable pub install_snapshot :
      {W E : Type 0}
      → ProtocolQueue V
      → SnapshotResponse V
      → (W → List (SnapshotRecord V) → W × Result (Unit {0}) E)
      → W
      → ProtocolQueue V × W × Result (Unit {0}) (SnapshotInstallError E)
  unfolding valid_record finish_install
  install_snapshot q snapshot replace_authoritative w =
      if not (snapshot.protocol_version == 1)
        || not (is_ok (parse_decimal snapshot.checkpoint))
        || not (all valid_record snapshot.records)
      then (q, w, err (protocol invalid_snapshot))
      else finish_install q snapshot.checkpoint (replace_authoritative w snapshot.records)
