-- ===== src/Consistency/Values.antt =====
-- JSON values, and the frozen intent of clients/rust/src/consistency.rs. An object is the list of
-- its fields in the order of the map; a number is its text.
use opto_sync_clients.Base.{
  Bool, true, false, ◌&&◌, not, Option, none, some, List, [], ◌∷◌, ◌++◌, if◌then◌else◌, Result, ok,
  err, Text, text, text_eq, text_compare,
}
use opto_sync_clients.Base.Map.{lookup}
use opto_sync_clients.Protocol.Types.{Operation, upsert, delete, ProtocolQueue, ProtocolMutation}
use opto_sync_clients.Consistency.Policy.{
  ConsistencyError, frozen_intent, policy_eq, canonicalize_consistency_policy,
  write_through_local_first_id, ConsistencyPolicy,
}
use Prim.Native.Nat.{Ordering}

mutual
  pub data Value : Type 0 where
    null : Value
    boolean : Bool → Value
    number : Text → Value
    string : Text → Value
    array : Items → Value
    object : Fields → Value

  pub data Items : Type 0 where
    nil : Items
    cons : Value → Items → Items

  pub data Fields : Type 0 where
    end : Fields
    field : Text → Value → Fields → Fields

-- `sort_by` on the keys: insertion from the right, which keeps the order of equal keys.
unfoldable pub insert_field : Text → Value → Fields → Fields
insert_field k v end = field k v end
insert_field k v (field j w fs) =
    let rest = insert_field k v fs in
    elim (text_compare k j) [
      | Ordering.lt ↦ field k v (field j w fs)
      | Ordering.eq ↦ field k v (field j w fs)
      | Ordering.gt ↦ field j w rest
    ]

unfoldable mutual
  unfolding insert_field

  pub sort_value : Value → Value
  sort_value null = null
  sort_value (boolean b) = boolean b
  sort_value (number n) = number n
  sort_value (string s) = string s
  sort_value (array items) = array (sort_items items)
  sort_value (object fields) = object (sort_fields fields)

  pub sort_items : Items → Items
  sort_items nil = nil
  sort_items (cons v vs) = cons (sort_value v) (sort_items vs)

  pub sort_fields : Fields → Fields
  sort_fields end = end
  sort_fields (field k v fs) = insert_field k (sort_value v) (sort_fields fs)

-- `serde_json::to_string` is the parameter `print`.
unfoldable pub stable_json : (Value → Text) → Option Value → Text
unfolding sort_value
stable_json print none = text "null"
stable_json print (some null) = text "null"
stable_json print (some (boolean b)) = print (sort_value (boolean b))
stable_json print (some (number n)) = print (sort_value (number n))
stable_json print (some (string s)) = print (sort_value (string s))
stable_json print (some (array items)) = print (sort_value (array items))
stable_json print (some (object fields)) = print (sort_value (object fields))

pub record MutationIntent : Type 0 where
  pub client_id : Text
  pub mutation_id : Text
  pub table : Text
  pub record_id : Text
  pub operation : Text
  pub payload : Option Value
  pub base_revision : Option Text
  pub resurrect : Bool
  pub consistency_policy : Text

-- `as_deref().unwrap_or("")`.
abbrev pub or_empty : Option Text → Text
or_empty none = []
or_empty (some s) = s

abbrev pub bool_eq : Bool → Bool → Bool
bool_eq true b = b
bool_eq false b = not b

unfoldable pub same_intent :
    (Value → Text) → MutationIntent → MutationIntent → ConsistencyPolicy → ConsistencyPolicy → Bool
unfolding stable_json
same_intent print existing proposed existing_policy proposed_policy =
    text_eq existing.client_id proposed.client_id
    && text_eq existing.mutation_id proposed.mutation_id
    && text_eq existing.table proposed.table
    && text_eq existing.record_id proposed.record_id
    && text_eq existing.operation proposed.operation
    && text_eq (or_empty existing.base_revision) (or_empty proposed.base_revision)
    && bool_eq existing.resurrect proposed.resurrect
    && policy_eq existing_policy proposed_policy
    && text_eq (stable_json print existing.payload) (stable_json print proposed.payload)

abbrev pub frozen_message : MutationIntent → Text
frozen_message existing =
    text "queued mutation "
    ++ existing.client_id
    ++ text "/"
    ++ existing.mutation_id
    ++ text " cannot change identity or content"

unfoldable pub assert_queued_intent_frozen :
    (Value → Text) → MutationIntent → MutationIntent → Result (Unit {0}) ConsistencyError
unfolding same_intent
assert_queued_intent_frozen print existing proposed =
    elim (canonicalize_consistency_policy existing.consistency_policy) [
      | err e ↦ err e
      | ok existing_policy ↦ elim (canonicalize_consistency_policy proposed.consistency_policy) [
        | err e ↦ err e
        | ok proposed_policy ↦
            if same_intent print existing proposed existing_policy proposed_policy
            then ok tt
            else err (frozen_intent (frozen_message existing))
      ]
    ]

-- `rebind_consistency` of clients/rust/src/protocol.rs, on a queue of such values.
unfoldable pub find_row : Text → List (ProtocolMutation Value) → Option (ProtocolMutation Value)
find_row mutation_id [] = none
find_row mutation_id (m ∷ ms) =
    let rest = find_row mutation_id ms in if text_eq m.mutation_id mutation_id then some m else rest

abbrev pub operation_name : Operation → Text
operation_name upsert = text "upsert"
operation_name delete = text "delete"

abbrev pub policy_or_default : Option Text → Text
policy_or_default none = write_through_local_first_id
policy_or_default (some s) = s

abbrev pub intent_of : ProtocolQueue Value → Text → ProtocolMutation Value → MutationIntent
intent_of q mutation_id m = record {
  client_id = q.client_id;
  mutation_id = m.mutation_id;
  table = m.table;
  record_id = m.record_id;
  operation = operation_name m.operation;
  payload = m.payload;
  base_revision = m.base_revision;
  resurrect = m.resurrect;
  consistency_policy = policy_or_default (lookup mutation_id q.consistency_policies);
}

rebind_row :
    (Value → Text)
    → ProtocolQueue Value
    → Text
    → MutationIntent
    → Option (ProtocolMutation Value)
    → Result (Unit {0}) ConsistencyError
unfolding assert_queued_intent_frozen
rebind_row print q mutation_id proposed none =
    err (frozen_intent (text "queued mutation " ++ mutation_id ++ text " is missing"))
rebind_row print q mutation_id proposed (some m) =
    elim (canonicalize_consistency_policy (intent_of q mutation_id m).consistency_policy) [
      | err e ↦ err e
      | ok policy ↦ assert_queued_intent_frozen print (intent_of q mutation_id m) proposed
    ]

unfoldable pub rebind_consistency :
    (Value → Text)
    → ProtocolQueue Value
    → Text
    → MutationIntent
    → Result (Unit {0}) ConsistencyError
unfolding rebind_row find_row
rebind_consistency print q mutation_id proposed =
    rebind_row print q mutation_id proposed (find_row mutation_id q.mutations)
