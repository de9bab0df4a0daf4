-- ===== src/Sync/Types.antt =====
-- The data of clients/rust/src/protocol_sync.rs, and the pull types of clients/rust/src/protocol.rs.
-- The application's network, store and persistence are records of functions over one type `W`, the
-- state of everything outside the driver.
use opto_sync_clients.Base.{ℕ, Bool, Option, List, Text, Result}
use opto_sync_clients.Protocol.Types.{
  Operation, ProtocolError, ProtocolQueue, PushRequest, PushResponse, SnapshotRecord,
  SnapshotResponse,
}

pub record ChangeSource : Type 0 where
  pub client_id : Text
  pub mutation_id : Text

pub record Change (V : Type 0) : Type 0 where
  pub checkpoint : Text
  pub table : Text
  pub record_id : Text
  pub operation : Operation
  pub content : Option V
  pub revision : Text
  pub source : Option ChangeSource

pub record PullResponse (V : Type 0) : Type 0 where
  pub protocol_version : ℕ
  pub checkpoint : Text
  pub has_more : Bool
  pub changes : List (Change V)

pub record ResetRequired : Type 0 where
  pub protocol_version : ℕ
  pub error : Text
  pub snapshot_url : Option Text

pub data PullResult (V : Type 0) : Type 0 where
  changes : PullResponse V → PullResult V
  reset_required : ResetRequired → PullResult V

-- `retry_after` in nanoseconds.
pub record TransportFailure (E : Type 0) : Type 0 where
  pub source : E
  pub retryable : Bool
  pub retry_after : Option ℕ

pub record ProtocolTransport (V W T : Type 0) : Type 0 where
  pub push : W → PushRequest V → W × Result PushResponse (TransportFailure T)
  pub pull : W → Text → ℕ → W × Result (PullResult V) (TransportFailure T)
  pub snapshot : W → ResetRequired → W × Result (SnapshotResponse V) (TransportFailure T)

pub record ProtocolSyncCallbacks (V W A : Type 0) : Type 0 where
  pub apply_changes : W → List (Change V) → W × Result (Unit {0}) A
  pub replace_authoritative : W → List (SnapshotRecord V) → W × Result (Unit {0}) A

pub record ProtocolQueuePersistence (V W P : Type 0) : Type 0 where
  pub persist : W → ProtocolQueue V → W × Result (Unit {0}) P

-- The store is given the queue as `&mut`: each method returns the queue that it leaves.
pub record AtomicProtocolSyncStore (V W S : Type 0) : Type 0 where
  pub persist_acknowledgement :
      W → ProtocolQueue V → PushRequest V → PushResponse → W × ProtocolQueue V × Result (Unit {0}) S
  pub apply_changes_and_persist :
      W → List (Change V) → ProtocolQueue V → W × ProtocolQueue V × Result (Unit {0}) S
  pub replace_authoritative_and_persist :
      W → List (SnapshotRecord V) → ProtocolQueue V → W × ProtocolQueue V × Result (Unit {0}) S

-- The messages of `InvalidResponse`: "invalid protocol reset response", "invalid protocol snapshot
-- response", "invalid local protocol checkpoint", "invalid protocol pull response", "invalid
-- protocol pull change", "pull response hasMore without checkpoint progress", "pull page safety
-- limit exceeded".
pub data ResponseFault : Type 0 where
  bad_reset bad_snapshot bad_local_checkpoint bad_page bad_change : ResponseFault
  no_progress page_limit : ResponseFault

pub data ProtocolSyncError (T A P : Type 0) : Type 0 where
  transport : TransportFailure T → ProtocolSyncError T A P
  application : A → ProtocolSyncError T A P
  persistence : P → ProtocolSyncError T A P
  protocol : ProtocolError → ProtocolSyncError T A P
  invalid_response : ResponseFault → ProtocolSyncError T A P

pub record ProtocolSyncOptions : Type 0 where
  pub push_limit : ℕ
  pub pull_limit : ℕ
  pub max_push_batches_per_cycle : ℕ
  pub max_pull_pages_per_phase : ℕ

pub record ProtocolSyncCycleResult : Type 0 where
  pub pushed_mutations : ℕ
  pub acknowledged_mutations : ℕ
  pub pulled_changes : ℕ
  pub installed_snapshots : ℕ
  pub checkpoint : Text
  pub has_more_pending : Bool

-- What a call of `sync_cycle` works with: the driver's options and the caller's three objects.
pub record Host (V W T A P : Type 0) : Type 0 where
  pub options : ProtocolSyncOptions
  pub network : ProtocolTransport V W T
  pub callbacks : ProtocolSyncCallbacks V W A
  pub storage : ProtocolQueuePersistence V W P
