-- ===== src/Client/Overlay.antt =====
-- The local view of clients/rust/src/lib.rs after a write.
use opto_sync_clients.Base.{
  arith, ap, ◌∙◌, ℕ, ◌≡◌, refl, Bool, true, false, Option, none, some, List, [], ◌∷◌, ◌++◌, map,
  Result, ok, err, Text, text, text_eq, ◌||◌, is_empty, if◌then◌else◌, Bool-cases, inl, inr,
  filter-append,
}
use opto_sync_clients.Clock.{HybridLogicalClock, next}
use opto_sync_clients.Consistency.Values.{Value, string, object, Fields, end, field, insert_field}
use opto_sync_clients.Client.Options.{
  ReconcileOptions, MergeOptions, to_merge_options, non_empty, ok_or, invalid_json, ReconcileError,
  Engine, overlay_options, reconcile, replay, rebase_pending,
}
use opto_sync_clients.Client.Store.{
  Mutation, MutationStore, is_pending, in_memory, store_mutation, pending_mutations,
}
use opto_sync_clients.Client.Facade.{
  OptoSyncClient, QueueOutcome, queued, contains_key, stored, stamped, queue_object,
  queue_mutation_value, local_view,
}

-- The law of a store that the view rests on: a write comes after those that are pending.
pub record IsFifo {S : Type 0} (ops : MutationStore S) : Type 0 where
  pub queue_appends :
      (s : S) (payload : Text)
      → map (λ m. m.payload) (ops.pending (ops.queue_mutation s payload).0)
        ≡ map (λ m. m.payload) (ops.pending s) ++ payload ∷ []

map-append :
    (ms ns : List Mutation)
    → map (λ m. m.payload) (ms ++ ns) ≡ map (λ m. m.payload) ms ++ map (λ m. m.payload) ns
map-append [] ns = refl
map-append (m ∷ ms) ns = ap (λ ps. m.payload ∷ ps) (map-append ms ns)

pub in_memory-IsFifo : IsFifo in_memory
unfolding in_memory store_mutation pending_mutations
in_memory-IsFifo = record {
  queue_appends = λ s payload.
      ap (map (λ m. m.payload)) (filter-append is_pending s.mutations _)
      ∙ map-append (pending_mutations s) _;
}

abbrev pub is_queued : QueueOutcome → Bool
is_queued (queued id) = true
is_queued _ = false

abbrev pub with_stamp : Fields → Option Text → Fields
with_stamp fields none = fields
with_stamp fields (some timestamp) = insert_field (text "updatedAt") (string timestamp) fields

-- Whether the writer has stamped its object.
abbrev pub has_stamp : Fields → Bool
has_stamp end = false
has_stamp (field k v fields) = text_eq (text "updatedAt") k || has_stamp fields

-- The object that a client with this clock writes.
unfoldable pub written : Option HybridLogicalClock → Fields → ℕ → Fields
unfolding next
written none fields now = fields
written (some clock) fields now =
    if has_stamp fields then fields else with_stamp fields (next clock now).1

-- The engine's options for an overlay: the client's, without the resolution by timestamps.
abbrev pub ungated : {A : Type 0} → ReconcileOptions A → MergeOptions A
ungated o = record {
  array_strategy = some o.array_strategy;
  max_depth = some o.max_depth;
  detect_circular_refs = o.detect_circular_refs;
  resolve_by_timestamp = false;
  lww_keys = some o.lww_keys;
  fww_keys = if is_empty o.fww_keys then none else some o.fww_keys;
  array_match_keys = some o.array_match_keys;
}

-- What the engine makes of a view and a payload that is merged into it.
abbrev pub merged : Option Text → Result Text ReconcileError
merged none = err invalid_json
merged (some text) = ok text

abbrev pub overlay :
    {A : Type 0}
    → Engine A
    → ReconcileOptions A
    → Text
    → Result Text ReconcileError
    → Result Text ReconcileError
overlay merge o payload (err e) = err e
overlay merge o payload (ok view) = merged (merge view payload (ungated o))

ungated-overlay :
    {A : Type 0} (o : ReconcileOptions A) → to_merge_options (overlay_options o false) ≡ ungated o
unfolding to_merge_options
ungated-overlay o = ap (λ (k : Option Text). record (ungated o) { fww_keys = k }) (keys o.fww_keys)
  where
    keys : (k : Text) → non_empty k ≡ (if is_empty k then none else some k)
    keys [] = refl
    keys (c ∷ cs) = refl

merged-ok_or : (t : Option Text) → ok_or t invalid_json ≡ merged t
merged-ok_or none = refl
merged-ok_or (some t) = refl

reconcile-overlay :
    {A : Type 0} (merge : Engine A) (o : ReconcileOptions A) (view payload : Text)
    → reconcile merge view payload (overlay_options o false) ≡ overlay merge o payload (ok view)
unfolding reconcile
reconcile-overlay merge o view payload =
    merged-ok_or _ ∙ ap (λ (m : MergeOptions _). merged (merge view payload m)) (ungated-overlay o)

replay-append :
    {A : Type 0} (merge : Engine A) (o : ReconcileOptions A) (payloads : List Text) (payload : Text)
    (view : Result Text ReconcileError)
    → replay merge (overlay_options o false) (payloads ++ payload ∷ []) view
      ≡ overlay merge o payload (replay merge (overlay_options o false) payloads view)
unfolding replay
replay-append merge o [] payload (err e) = refl
replay-append merge o [] payload (ok view) = reconcile-overlay merge o view payload
replay-append merge o (p ∷ ps) payload (err e) = refl
replay-append merge o (p ∷ ps) payload (ok view) =
    replay-append merge o ps payload (reconcile merge view p (overlay_options o false))

module _ {S A : Type 0} (ops : MutationStore S) (fifo : IsFifo ops) (print : Value → Text)
    (merge : Engine A) where
  stored-view :
      (c : OptoSyncClient S A) (fields : Fields) (server : Text)
      → local_view ops merge (stored ops print c fields).0 server
        ≡ overlay merge c.options (print (object fields)) (local_view ops merge c server)
  unfolding local_view rebase_pending
  stored-view c fields server =
      ap (λ ps. replay merge (overlay_options c.options false) ps (ok server))
        (fifo.queue_appends c.store (print (object fields)))
      ∙ replay-append merge c.options (map (λ m. m.payload) (ops.pending c.store))
          (print (object fields)) (ok server)

  stamped-view :
      (c : OptoSyncClient S A) (fields : Fields) (server : Text)
      (r : HybridLogicalClock × Option Text)
      → is_queued (stamped ops print c fields r).1 ≡ true
      → local_view ops merge (stamped ops print c fields r).0 server
        ≡ overlay merge c.options
            (print (object (with_stamp fields r.1)))
            (local_view ops merge c server)
  unfolding stamped local_view
  stamped-view c fields server (moved, none) q = ground arith
  stamped-view c fields server (moved, some timestamp) q =
      stored-view (record c { clock = some moved })
        (insert_field (text "updatedAt") (string timestamp) fields) server

  queue_object-view :
      (c : OptoSyncClient S A) (fields : Fields) (now : ℕ) (clock : Option HybridLogicalClock)
      (server : Text)
      → is_queued (queue_object ops print c fields now clock).1 ≡ true
      → local_view ops merge (queue_object ops print c fields now clock).0 server
        ≡ overlay merge c.options
            (print (object (written clock fields now)))
            (local_view ops merge c server)
  unfolding queue_object written
  queue_object-view c fields now none server q = stored-view c fields server
  queue_object-view c fields now (some clock) server q =
      elim (Bool-cases (contains_key (text "updatedAt") fields)) [
        | inl has ↦ rw has (stored-view c fields server)
        | inr lacks ↦ rw lacks (stamped-view c fields server (next clock now) (rw lacks at q))
      ]

  -- Over a store that hands out its pending writes oldest first, a write that is queued shows on
  -- top of the view at once: the local view after it is the local view before it, merged with the
  -- object that was written, its stamp included, without regard to timestamps; a view that could
  -- not be made stays so.
  pub local_view-queue_mutation_value :
      (c : OptoSyncClient S A) (fields : Fields) (now : ℕ) (server : Text)
      → is_queued (queue_mutation_value ops print c (object fields) now).1 ≡ true
      → local_view ops merge (queue_mutation_value ops print c (object fields) now).0 server
        ≡ overlay merge c.options
            (print (object (written c.clock fields now)))
            (local_view ops merge c server)
  unfolding queue_mutation_value
  local_view-queue_mutation_value c fields now server q =
      queue_object-view c fields now c.clock server q
