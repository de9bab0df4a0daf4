-- ===== src/Sync/Steps.antt =====
-- What the driver of clients/rust/src/protocol_sync.rs may do, one step at a time: calls of the
-- application that leave the queue, and changes of the queue that the storage has kept.
use opto_sync_clients.Base.{ℕ, ◌≤◌, ◌≡◌, Text, ok, err, arith, some}
use opto_sync_clients.Protocol.Types.{
  Json, ProtocolQueue, PushRequest, PushResponse, SnapshotResponse,
}
use opto_sync_clients.Protocol.Checks as QueueChecks
use opto_sync_clients.Protocol.Queue.{push_request}
use opto_sync_clients.Protocol.Acknowledge.{acknowledge}
use opto_sync_clients.Sync.Types.{Host, PullResponse, ResetRequired}
use opto_sync_clients.Sync.Checks as SyncChecks
use opto_sync_clients.Sync.Checks.{validate_snapshot, validate_pull_page}

module _ {V : Type 0} (json : Json V) where
  -- A change of the queue: its checkpoint moves forward, or a batch is acknowledged.
  pub data Move : ProtocolQueue V → ProtocolQueue V → Type 0 where
    forward :
        (q : ProtocolQueue V) (c : Text) (n m : ℕ)
        → QueueChecks.parse_decimal q.checkpoint ≡ ok n
        → QueueChecks.parse_decimal c ≡ ok m
        → n ≤ m
        → Move q (record q { checkpoint = c })
    confirmed :
        (q q' : ProtocolQueue V) (response : PushResponse) (request : PushRequest V) (n : ℕ)
        → acknowledge json q response request ≡ (q', ok n)
        → Move q q'

-- The two readings of a decimal agree.
pub parse_decimal-some :
    (s : Text) (n : ℕ) → SyncChecks.parse_decimal s ≡ some n → QueueChecks.parse_decimal s ≡ ok n
unfolding SyncChecks.parse_decimal QueueChecks.parse_decimal
parse_decimal-some s n h = ground arith

module _ {V W T A P : Type 0} (json : Json V) (host : Host V W T A P) where
  pub data Step : ProtocolQueue V → W → ProtocolQueue V → W → Type 0 where
    pulled :
        (q : ProtocolQueue V) (w : W)
        → Step q w q (host.network.pull w q.checkpoint host.options.pull_limit).0
    reset :
        (q : ProtocolQueue V) (w : W) (r : ResetRequired) → Step q w q (host.network.snapshot w r).0
    pushed :
        (q : ProtocolQueue V) (w : W) (request : PushRequest V)
        → push_request q host.options.push_limit ≡ ok request
        → Step q w q (host.network.push w request).0
    applied :
        (q : ProtocolQueue V) (w : W) (page : PullResponse V)
        → validate_pull_page json page q.checkpoint ≡ ok tt
        → Step q w q (host.callbacks.apply_changes w page.changes).0
    replaced :
        (q : ProtocolQueue V) (w : W) (snapshot : SnapshotResponse V)
        → validate_snapshot json snapshot q.checkpoint ≡ ok tt
        → Step q w q (host.callbacks.replace_authoritative w snapshot.records).0
    stored :
        (q q' : ProtocolQueue V) (w w' : W)
        → Move json q q'
        → host.storage.persist w q' ≡ (w', ok tt)
        → Step q w q' w'
    unsaved :
        (q q' : ProtocolQueue V) (w w' : W) (e : P)
        → Move json q q'
        → host.storage.persist w q' ≡ (w', err e)
        → Step q w q w'

  pub data Steps (q : ProtocolQueue V) (w : W) : ProtocolQueue V → W → Type 0 where
    here : Steps q w q w
    next :
        {q' q'' : ProtocolQueue V} {w' w'' : W}
        → Steps q w q' w'
        → Step q' w' q'' w''
        → Steps q w q'' w''

module _ {V W T A P : Type 0} {json : Json V} {host : Host V W T A P} where
  pub Steps-trans :
      {q q' : ProtocolQueue V} {w w' : W} {q'' : ProtocolQueue V} {w'' : W}
      → Steps json host q w q' w'
      → Steps json host q' w' q'' w''
      → Steps json host q w q'' w''
  Steps-trans h here = h
  Steps-trans h (next k s) = next (Steps-trans h k) s
