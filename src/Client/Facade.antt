-- ===== src/Client/Facade.antt =====
-- `OptoSyncClient` of clients/rust/src/lib.rs, over any store. A payload is a JSON value; the
-- parser and the printer of serde_json, whose objects are sorted by key, are parameters.
use opto_sync_clients.Base.{
  ℕ, Bool, false, ◌||◌, Option, none, some, map, Result, Text, text, text_eq, if◌then◌else◌,
}
use opto_sync_clients.Clock.{HybridLogicalClock, next}
use opto_sync_clients.Consistency.Values.{
  Value, null, boolean, number, string, array, object, Fields, end, field, insert_field,
}
use opto_sync_clients.Client.Options.{
  ReconcileOptions, ReconcileError, Engine, reconcile, rebase_pending,
}
use opto_sync_clients.Client.Store.{MutationStore}

pub record OptoSyncClient (S A : Type 0) : Type 0 where
  pub store : S
  pub options : ReconcileOptions A
  pub clock : Option HybridLogicalClock

-- How a call of `queue_mutation` ends; the clock panics when it cannot format its stamp.
pub data QueueOutcome : Type 0 where
  queued : ℕ → QueueOutcome
  not_json not_an_object stamp_panic : QueueOutcome

unfoldable pub contains_key : Text → Fields → Bool
contains_key k end = false
contains_key k (field j v fs) = text_eq k j || contains_key k fs

module _ {S A : Type 0} (ops : MutationStore S) (print : Value → Text) where
  abbrev pub stored : OptoSyncClient S A → Fields → OptoSyncClient S A × QueueOutcome
  stored c fields =
      let (s, id) = ops.queue_mutation c.store (print (object fields)) in
      (record c { store = s }, queued id)

  unfoldable pub stamped :
      OptoSyncClient S A
      → Fields
      → HybridLogicalClock × Option Text
      → OptoSyncClient S A × QueueOutcome
  stamped c fields (moved, none) = (record c { clock = some moved }, stamp_panic)
  stamped c fields (moved, some timestamp) =
      stored (record c { clock = some moved })
        (insert_field (text "updatedAt") (string timestamp) fields)

  unfoldable pub queue_object :
      OptoSyncClient S A
      → Fields
      → ℕ
      → Option HybridLogicalClock
      → OptoSyncClient S A × QueueOutcome
  unfolding contains_key next stamped
  queue_object c fields now none = stored c fields
  queue_object c fields now (some clock) =
      if contains_key (text "updatedAt") fields
      then stored c fields
      else stamped c fields (next clock now)

  unfoldable pub queue_mutation_value :
      OptoSyncClient S A → Value → ℕ → OptoSyncClient S A × QueueOutcome
  unfolding queue_object
  queue_mutation_value c null now = (c, not_an_object)
  queue_mutation_value c (boolean b) now = (c, not_an_object)
  queue_mutation_value c (number n) now = (c, not_an_object)
  queue_mutation_value c (string s) now = (c, not_an_object)
  queue_mutation_value c (array items) now = (c, not_an_object)
  queue_mutation_value c (object fields) now = queue_object c fields now c.clock

  unfoldable pub queue_mutation :
      (Text → Option Value) → OptoSyncClient S A → Text → ℕ → OptoSyncClient S A × QueueOutcome
  unfolding queue_mutation_value
  queue_mutation parse c payload now = elim (parse payload) [
    | none ↦ (c, not_json)
    | some value ↦ queue_mutation_value c value now
  ]

module _ {S A : Type 0} (ops : MutationStore S) (merge : Engine A) where
  unfoldable pub local_view : OptoSyncClient S A → Text → Result Text ReconcileError
  unfolding rebase_pending
  local_view c server =
      rebase_pending merge server (map (λ m. m.payload) (ops.pending c.store)) c.options false

  unfoldable pub reconcile_incoming : OptoSyncClient S A → Text → Text → Result Text ReconcileError
  unfolding reconcile
  reconcile_incoming c base incoming = reconcile merge base incoming c.options
