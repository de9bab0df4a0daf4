-- ===== src/Protocol/Types.antt =====
-- The data of clients/rust/src/protocol.rs. Texts are lists of UTF-8 bytes; `u64`, `usize` and `u8`
-- are numbers. `serde_json::Value` is the parameter `V`, and what the code asks of it is `Json`.
use opto_sync_clients.Base.{ℕ, ◌≡◌, ◌↔◌, Bool, true, false, Option, List, Text}
use opto_sync_clients.Base.Map.{Map}

-- `is_object`, `serde_json::to_vec(..)` by the length of what it returns, and `==` of values.
pub record Json (V : Type 0) : Type 0 where
  pub is_object : V → Bool
  pub encoded_len : V → Option ℕ
  pub value_eq : V → V → Bool
  pub value_eq_iff : (a b : V) → (value_eq a b ≡ true) ↔ (a ≡ b)

pub data ProtocolError : Type 0 where
  empty_client_id invalid_limit invalid_queue_limit invalid_payload : ProtocolError
  invalid_target invalid_queue_state queue_full payload_too_large : ProtocolError
  mutation_id_exhausted wrong_client invalid_acknowledgement : ProtocolError
  invalid_decimal invalid_snapshot watermark_ahead : ProtocolError

pub data Operation : Type 0 where
  upsert delete : Operation

pub data LocalProtocolStatus : Type 0 where
  pending confirmed : LocalProtocolStatus

pub record ProtocolMutation (V : Type 0) : Type 0 where
  pub mutation_id : Text
  pub operation : Operation
  pub table : Text
  pub record_id : Text
  pub payload : Option V
  pub base_revision : Option Text
  pub resurrect : Bool
  pub status : LocalProtocolStatus

pub record PushRequest (V : Type 0) : Type 0 where
  pub protocol_version : ℕ
  pub client_id : Text
  pub mutations : List (ProtocolMutation V)

pub data ResultStatus : Type 0 where
  applied duplicate rejected : ResultStatus

pub record MutationResult : Type 0 where
  pub mutation_id : Text
  pub status : ResultStatus
  pub original_status : Option ResultStatus
  pub checkpoint : Option Text
  pub revision : Option Text
  pub code : Option Text
  pub message : Option Text

pub record PushResponse : Type 0 where
  pub protocol_version : ℕ
  pub client_id : Text
  pub last_mutation_id : Text
  pub checkpoint : Text
  pub results : List MutationResult

pub record SnapshotRecord (V : Type 0) : Type 0 where
  pub table : Text
  pub record_id : Text
  pub content : V
  pub revision : Text

pub record SnapshotResponse (V : Type 0) : Type 0 where
  pub protocol_version : ℕ
  pub checkpoint : Text
  pub records : List (SnapshotRecord V)

pub data SnapshotInstallError (E : Type 0) : Type 0 where
  protocol : ProtocolError → SnapshotInstallError E
  replace : E → SnapshotInstallError E

pub record ProtocolQueue (V : Type 0) : Type 0 where
  pub client_id : Text
  pub next_mutation_id : ℕ
  pub checkpoint : Text
  pub mutations : List (ProtocolMutation V)
  pub max_pending_mutations : ℕ
  pub max_queued_payload_bytes : ℕ
  pub consistency_policies : Map Text

-- Derived `PartialEq` of enums, and of a mutation.
abbrev pub operation_eq : Operation → Operation → Bool
operation_eq upsert upsert = true
operation_eq delete delete = true
operation_eq _ _ = false

abbrev pub is_pending : LocalProtocolStatus → Bool
is_pending pending = true
is_pending confirmed = false

abbrev pub status_eq : LocalProtocolStatus → LocalProtocolStatus → Bool
status_eq pending pending = true
status_eq confirmed confirmed = true
status_eq _ _ = false

abbrev pub is_duplicate : ResultStatus → Bool
is_duplicate duplicate = true
is_duplicate _ = false
