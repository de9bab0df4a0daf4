-- ===== src/Consistency/Policy.antt =====
-- The policies of clients/rust/src/consistency.rs, and what a network attempt means under each.
use opto_sync_clients.Base.{
  Bool, true, false, ◌||◌, Option, none, some, List, [], ◌∷◌, if◌then◌else◌, Result, ok, err, Text,
  text, text_eq,
}

abbrev pub remote_acknowledged_id : Text
remote_acknowledged_id = text "opto.consistency.remote-acknowledged.v1"

abbrev pub write_through_local_first_id : Text
write_through_local_first_id = text "opto.consistency.write-through-local-first.v1"

abbrev pub queued_local_first_id : Text
queued_local_first_id = text "opto.consistency.queued-local-first.v1"

abbrev pub policy_ids : List Text
policy_ids = remote_acknowledged_id ∷ write_through_local_first_id ∷ queued_local_first_id ∷ []

pub data ConsistencyError : Type 0 where
  unknown_policy : Text → ConsistencyError
  frozen_intent : Text → ConsistencyError

pub data ConsistencyPolicy : Type 0 where
  remote_acknowledged write_through_local_first queued_local_first : ConsistencyPolicy

unfoldable pub as_str : ConsistencyPolicy → Text
as_str remote_acknowledged = remote_acknowledged_id
as_str write_through_local_first = write_through_local_first_id
as_str queued_local_first = queued_local_first_id

-- Derived `PartialEq`.
abbrev pub policy_eq : ConsistencyPolicy → ConsistencyPolicy → Bool
policy_eq remote_acknowledged remote_acknowledged = true
policy_eq write_through_local_first write_through_local_first = true
policy_eq queued_local_first queued_local_first = true
policy_eq _ _ = false

-- The arms of the `match` on the identifier.
unfoldable pub names_remote : Text → Bool
names_remote s =
    text_eq s remote_acknowledged_id
    || text_eq s (text "remote-acknowledged")
    || text_eq s (text "strict")
    || text_eq s (text "remote-confirmed")
    || text_eq s (text "await-server")

unfoldable pub names_through : Text → Bool
names_through s =
    text_eq s write_through_local_first_id
    || text_eq s (text "write-through-local-first")
    || text_eq s (text "local-then-remote")
    || text_eq s (text "local-first")

unfoldable pub names_queued : Text → Bool
names_queued s =
    text_eq s queued_local_first_id
    || text_eq s (text "queued-local-first")
    || text_eq s (text "local-durable")
    || text_eq s (text "background")

unfoldable pub canonicalize_consistency_policy : Text → Result ConsistencyPolicy ConsistencyError
unfolding names_remote names_through names_queued
canonicalize_consistency_policy identifier =
    if names_remote identifier
    then ok remote_acknowledged
    else if names_through identifier
    then ok write_through_local_first
    else if names_queued identifier
    then ok queued_local_first
    else err (unknown_policy identifier)

-- `status` of an outcome; the texts that the code uses are these.
pub data OutcomeStatus : Type 0 where
  cancelled pending ambiguous rejected transformed confirmed : OutcomeStatus

pub record ConsistencyOutcome : Type 0 where
  pub status : OutcomeStatus
  pub consistency_policy : ConsistencyPolicy
  pub covered_mutation_ids : List Text
  pub message : Option Text

-- An outcome that covers nothing, and one that covers the mutations of the attempt.
abbrev pub uncovered : OutcomeStatus → ConsistencyPolicy → ConsistencyOutcome
uncovered status policy = record {
  status = status;
  consistency_policy = policy;
  covered_mutation_ids = [];
  message = none;
}

abbrev pub covering : OutcomeStatus → ConsistencyPolicy → List Text → ConsistencyOutcome
covering status policy ids = record {
  status = status;
  consistency_policy = policy;
  covered_mutation_ids = ids;
  message = none;
}

unfoldable pub outcome_for_policy : ConsistencyPolicy → Text → List Text → ConsistencyOutcome
outcome_for_policy policy network ids =
    if text_eq network (text "cancelled")
    then uncovered cancelled policy
    else if policy_eq policy queued_local_first
    then uncovered pending policy
    else if text_eq network (text "not-attempted")
    then uncovered pending policy
    else if text_eq network (text "response-lost")
    then record (uncovered ambiguous policy) { message = some (text "committed-but-response-lost") }
    else if text_eq network (text "rejected")
    then covering rejected policy ids
    else if text_eq network (text "transformed")
    then covering transformed policy ids
    else covering confirmed policy ids

unfoldable pub outcome_for_network :
    Text → Text → List Text → Result ConsistencyOutcome ConsistencyError
unfolding outcome_for_policy
outcome_for_network policy network ids = elim (canonicalize_consistency_policy policy) [
  | err e ↦ err e
  | ok consistency_policy ↦ ok (outcome_for_policy consistency_policy network ids)
]
