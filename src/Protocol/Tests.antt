-- ===== src/Protocol/Tests.antt =====
-- A queue of clients/rust/src/protocol.rs with payloads that are numbers, and its theorems there.
use opto_sync_clients.Base.{
  inr, text_compare, text_eq, Result, ℕ, ◌≡◌, ◌↔◌, ◌<◌, ◌≢◌, refl, true, false, some, none, List,
  [], ◌∷◌, ok, err, text, ltb, ◌==◌, ==_iff, length, take, drop, arith,
}
use opto_sync_clients.Protocol.Types.{
  MutationResult, duplicate, applied, SnapshotInstallError, pending, confirmed, delete, upsert,
  invalid_acknowledgement, replace, Json, ProtocolMutation, ProtocolQueue, PushRequest,
  PushResponse, SnapshotResponse, SnapshotRecord,
}
use opto_sync_clients.Protocol.Queue.{
  consistency_policy, write_through_local_first, queue, with_limits, queue_upsert, queue_delete,
  push_request, pending_of, prune_confirmed,
}
use opto_sync_clients.Protocol.Validate.{check_row, check_rows, validate}
use opto_sync_clients.Protocol.Acknowledge.{any_mismatched, mutation_eq, acknowledge}
use opto_sync_clients.Protocol.Wellformed.{IsValid, validate_iff}
use opto_sync_clients.Protocol.Accepted.{
  queue_delete-IsValid, queue_upsert_bad_revision, queue_upsert-IsValid,
}
use opto_sync_clients.Protocol.Writes.{with_limits-IsValid}
use opto_sync_clients.Protocol.AckSafety.{
  acknowledge_once, acknowledge-IsValid, acknowledge_refused,
}
use opto_sync_clients.Protocol.Checks.{
  valid_push_limit, valid_record_id, valid_scope_id, to_string, parse_decimal,
}
use opto_sync_clients.Protocol.Prune.{prune_confirmed_lem, prune_first}
use opto_sync_clients.Protocol.Confirm.{confirm_first}
use opto_sync_clients.Protocol.Progress.{acknowledge_iff, IsReply}
use opto_sync_clients.Protocol.Acked.{acknowledge_confirms}
use opto_sync_clients.Base.Map.{or_insert}
use opto_sync_clients.Protocol.Merge.{
  sort_rows, import_rows, same_immutable_mutation, match_rows, merge_concurrent_durable,
}
use opto_sync_clients.Protocol.Merged.{merge_policies}
use opto_sync_clients.Protocol.Imported.{merge_loses_none, has_id}

-- Objects are the numbers from 1; a number is as long as its value.
abbrev pub numbers : Json ℕ
numbers = record {
  is_object = λ n. ltb 0 n;
  encoded_len = λ n. some n;
  value_eq = λ m n. m == n;
  value_eq_iff = ==_iff;
}

abbrev pub empty : ProtocolQueue ℕ
empty = record {
  client_id = text "c";
  next_mutation_id = 1;
  checkpoint = text "0";
  mutations = [];
  max_pending_mutations = 3;
  max_queued_payload_bytes = 100;
  consistency_policies = [];
}

abbrev row_a : ProtocolMutation ℕ
row_a = record {
  mutation_id = text "1";
  operation = upsert;
  table = text "t";
  record_id = text "a";
  payload = some 7;
  base_revision = none;
  resurrect = false;
  status = pending;
}

abbrev row_b : ProtocolMutation ℕ
row_b = record {
  mutation_id = text "2";
  operation = delete;
  table = text "t";
  record_id = text "b";
  payload = none;
  base_revision = some (text "4");
  resurrect = false;
  status = pending;
}

abbrev one : ProtocolQueue ℕ
one = record empty {
  next_mutation_id = 2;
  mutations = row_a ∷ [];
  consistency_policies = (text "1", write_through_local_first) ∷ [];
}

abbrev pub two : ProtocolQueue ℕ
two = record one {
  next_mutation_id = 3;
  mutations = row_a ∷ row_b ∷ [];
  consistency_policies =
      (text "1", write_through_local_first) ∷ (text "2", write_through_local_first) ∷ [];
}

upserted : queue_upsert numbers empty (text "t") (text "a") 7 none false ≡ (one, ok (text "1"))
unfolding queue_upsert valid_scope_id valid_record_id queue to_string or_insert
upserted = refl

deleted : queue_delete one (text "t") (text "b") (some (text "4")) ≡ (two, ok (text "2"))
unfolding queue_delete valid_scope_id valid_record_id queue to_string or_insert text_eq text_compare
deleted = refl

with_limits_ok : with_limits {V = ℕ} (text "c") 3 100 ≡ ok empty
unfolding with_limits valid_scope_id
with_limits_ok = refl

empty-IsValid : IsValid numbers empty
empty-IsValid = with_limits-IsValid numbers (text "c") 3 100 with_limits_ok

validate_iff_example : (validate numbers two ≡ ok tt) ↔ IsValid numbers two
validate_iff_example = validate_iff numbers two

queue_upsert-IsValid_example :
    IsValid numbers (queue_upsert numbers empty (text "t") (text "a") 7 none false).0
queue_upsert-IsValid_example =
    queue_upsert-IsValid numbers empty (text "t") (text "a") none 7 false empty-IsValid refl

abbrev misdated : ProtocolQueue ℕ
misdated = (queue_upsert numbers empty (text "t") (text "a") 7 (some (text "x")) false).0

queue_upsert_bad_revision_example : validate numbers misdated ≢ ok tt
unfolding parse_decimal queue_upsert valid_scope_id valid_record_id queue to_string
queue_upsert_bad_revision_example =
    queue_upsert_bad_revision numbers empty (text "t") (text "a") (some (text "x")) 7 false
      {q' = misdated} {id = text "1"} refl refl

one-IsValid : IsValid numbers one
one-IsValid =
    rw upserted at
      (queue_upsert-IsValid numbers empty (text "t") (text "a") none 7 false empty-IsValid refl)

pub two-IsValid : IsValid numbers two
unfolding parse_decimal
two-IsValid =
    rw deleted at
      (queue_delete-IsValid numbers one (text "t") (text "b") (some (text "4")) one-IsValid refl)

abbrev batch : PushRequest ℕ
batch = record { protocol_version = 1; client_id = text "c"; mutations = row_a ∷ [] }

-- As the server answers a retry: the first attempt was applied at checkpoint 8.
abbrev result : MutationResult
result = record {
  mutation_id = text "1";
  status = duplicate;
  original_status = some applied;
  checkpoint = some (text "8");
  revision = some (text "3");
  code = none;
  message = none;
}

abbrev reply : PushResponse
reply = record {
  protocol_version = 1;
  client_id = text "c";
  last_mutation_id = text "1";
  checkpoint = text "9";
  results = result ∷ [];
}

abbrev replied : ProtocolQueue ℕ
replied = record two { mutations = record row_a { status = confirmed } ∷ row_b ∷ [] }

acknowledged : acknowledge numbers two reply batch ≡ (replied, ok 1)
unfolding acknowledge text_eq mutation_eq parse_decimal any_mismatched
acknowledged = refl

batch_first : push_request two 1 ≡ ok batch
unfolding push_request valid_push_limit queue_delete valid_scope_id valid_record_id queue
    queue_upsert
batch_first = refl

acknowledge_iff_example :
    (acknowledge numbers two reply batch
      ≡ (record two { mutations = confirm_first 1 two.mutations }, ok 1))
    ↔ IsReply batch reply
acknowledge_iff_example =
    acknowledge_iff numbers two 1 reply {request = batch} two-IsValid batch_first (omega arith)

acknowledge_confirms_example :
    (0 < 1)
    × (1 ≡ length batch.mutations)
    × (batch.mutations ≡ take 1 (pending_of two.mutations))
    × (replied ≡ record two { mutations = confirm_first 1 two.mutations })
    × (pending_of replied.mutations ≡ drop 1 (pending_of two.mutations))
acknowledge_confirms_example =
    acknowledge_confirms numbers two reply batch {q' = replied} {n = 1} two-IsValid acknowledged

acknowledge_refused_example : two ≡ two
unfolding acknowledge text_eq mutation_eq
acknowledge_refused_example =
    acknowledge_refused numbers two (record reply { last_mutation_id = text "2" }) batch {q' = two}
      {e = invalid_acknowledgement} two-IsValid refl

acknowledge-IsValid_example : IsValid numbers (acknowledge numbers two reply batch).0
acknowledge-IsValid_example = acknowledge-IsValid numbers two reply batch two-IsValid

acknowledge_once_example : acknowledge numbers replied reply batch ≢ (replied, ok 1)
acknowledge_once_example =
    acknowledge_once numbers two reply reply batch {q' = replied} {q'' = replied} {n = 1} {m = 1}
      two-IsValid acknowledged

replied-IsValid : IsValid numbers replied
replied-IsValid = rw acknowledged at (acknowledge-IsValid numbers two reply batch two-IsValid)

prune_confirmed_lem_example :
    (prune_confirmed replied 0
      ≡ (record replied { mutations = prune_first 1 replied.mutations }, 1))
    × (pending_of (prune_first 1 replied.mutations) ≡ pending_of replied.mutations)
prune_confirmed_lem_example = prune_confirmed_lem numbers replied 0 replied-IsValid

abbrev page : SnapshotResponse ℕ
page = record {
  protocol_version = 1;
  checkpoint = text "12";
  records =
      (record { table = text "t"; record_id = text "a"; content = 5; revision = text "11" }) ∷ [];
}

-- A store that keeps what it was last given, and refuses a second installation.
abbrev rows_store :
    List (SnapshotRecord ℕ)
    → List (SnapshotRecord ℕ)
    → List (SnapshotRecord ℕ) × Result (Unit {0}) ℕ
rows_store [] records = (records, ok tt)
rows_store (r ∷ rs) records = (r ∷ rs, err 3)

abbrev refused : SnapshotInstallError ℕ
refused = replace 3

-- Another connection has queued the delete, to be acknowledged by the server before it counts.
abbrev elsewhere : ProtocolQueue ℕ
elsewhere = record two {
  consistency_policies =
      (text "1", write_through_local_first) ∷ (text "2", text "remote-acknowledged") ∷ [];
}

abbrev merged : ProtocolQueue ℕ
merged = record two { consistency_policies = (text "1", write_through_local_first) ∷ [] }

merge_done : merge_concurrent_durable numbers one elsewhere ≡ (merged, ok tt)
unfolding merge_concurrent_durable validate valid_scope_id parse_decimal check_rows check_row
    valid_record_id text_eq match_rows same_immutable_mutation import_rows sort_rows
merge_done = refl

merge_policies_example : consistency_policy merged (text "2") ≡ consistency_policy one (text "2")
merge_policies_example = merge_policies numbers one elsewhere (text "2") {q' = merged} merge_done

merge_loses_none_example : has_id (text "2") merged.mutations ≡ true
unfolding text_eq
merge_loses_none_example =
    merge_loses_none numbers one elsewhere (text "2") {q' = merged} merge_done (inr refl)
