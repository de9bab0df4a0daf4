-- ===== src/Client/Tests.antt =====
-- The theorems on clients/rust/src/lib.rs at short runs, with an engine that keeps the incoming text.
use opto_sync_clients.Base.{text_eq, ℕ, ◌≡◌, refl, some, List, [], ◌∷◌, map, Text, text, arith}
use opto_sync_clients.Clock.{advanced, HybridLogicalClock, next, format_hlc, fixed}
use opto_sync_clients.Consistency.Values.{Value, string, object, Fields, end, field}
use opto_sync_clients.Client.Options.{Engine, default_options}
use opto_sync_clients.Client.Store.{InMemoryStore, empty_store, in_memory, pending_mutations}
use opto_sync_clients.Client.Facade.{
  contains_key, stamped, queue_object, OptoSyncClient, queue_mutation_value, local_view,
}
use opto_sync_clients.Client.Pending.{
  StoreCall, write, succeed, fail, after_calls, unsettled, pending-unsettled,
}
use opto_sync_clients.Client.Overlay.{
  overlay, written, in_memory-IsFifo, local_view-queue_mutation_value,
}

abbrev calls : List StoreCall
calls = write (text "a") ∷ write (text "b") ∷ succeed 0 ∷ write (text "c") ∷ fail 7 ∷ []

pending-unsettled_example :
    map (λ m. (m.id, m.payload)) (pending_mutations (after_calls calls empty_store))
    ≡ unsettled calls 0 []
pending-unsettled_example = pending-unsettled calls (omega arith)

unsettled-calls : unsettled calls 0 [] ≡ (1, text "b") ∷ (2, text "c") ∷ []
unfolding unsettled
unsettled-calls = refl

abbrev printed : Value → Text
printed v = text "new"

abbrev incoming_wins : Engine ℕ
incoming_wins base incoming o = some incoming

abbrev clock : HybridLogicalClock
clock = record { node_id = text "bb"; millis = 1721822400000; counter = 255; max_drift_ms = 60000 }

abbrev client : OptoSyncClient InMemoryStore ℕ
client = record { store = empty_store; options = default_options 0; clock = some clock }

abbrev title : Fields
title = field (text "title") (string (text "draft")) end

local_view-queue_mutation_value_example :
    local_view in_memory incoming_wins
      (queue_mutation_value in_memory printed client (object title) 5).0
      (text "old")
    ≡ overlay incoming_wins client.options
        (printed (object (written client.clock title 5)))
        (local_view in_memory incoming_wins client (text "old"))
unfolding queue_mutation_value in_memory queue_object stamped next contains_key format_hlc fixed
    text_eq advanced
local_view-queue_mutation_value_example =
    local_view-queue_mutation_value in_memory in_memory-IsFifo printed incoming_wins client title 5
      (text "old") refl
