-- ===== src/Sync/Atomic.antt =====
-- `sync_cycle_atomic` and `pull_to_current_atomic` of clients/rust/src/protocol_sync.rs: one call of
-- the store commits the rows and the queue.
use opto_sync_clients.Base.{ℕ, zero, suc, not, ◌==◌, if◌then◌else◌, ok, err, text_eq, length}
use opto_sync_clients.Protocol.Types.{Json, ProtocolQueue, PushRequest}
use opto_sync_clients.Protocol.Queue.{push_request, set_checkpoint}
use opto_sync_clients.Protocol.Acknowledge.{acknowledge}
use opto_sync_clients.Sync.Types.{
  PullResponse, ResetRequired, PullResult, changes, reset_required, ProtocolTransport,
  AtomicProtocolSyncStore, ProtocolSyncError, transport, application, persistence, protocol,
  invalid_response, bad_reset, page_limit, ProtocolSyncOptions, ProtocolSyncCycleResult,
}
use opto_sync_clients.Sync.Checks.{validate_snapshot, validate_pull_page}
use opto_sync_clients.Sync.Outcome.{Outcome, and_then, called, queued, or_restore}
use opto_sync_clients.Sync.Driver.{
  no_result, count_snapshot, count_changes, count_push, Flow, again, is_reset, next_round,
  page_flow, has_pending,
}

module _ {V W T S : Type 0} (json : Json V) (options : ProtocolSyncOptions)
    (network : ProtocolTransport V W T) (store : AtomicProtocolSyncStore V W S) where
  abbrev Cycle : Type 0 → Type 0
  Cycle = Outcome V W (ProtocolSyncError T S S)

  -- The arm of `PullResult::ResetRequired`.
  unfoldable pub reset_round_atomic :
      ProtocolQueue V → W → ResetRequired → ProtocolSyncCycleResult → Cycle Flow
  reset_round_atomic q w reset result =
      if not (is_reset reset)
      then (q, w, err (invalid_response bad_reset))
      else and_then (called transport q (network.snapshot w reset)) (λ q w snapshot.
        and_then (called invalid_response q (w, validate_snapshot json snapshot q.checkpoint))
          (λ q w _. and_then (queued protocol w (set_checkpoint q snapshot.checkpoint)) (λ q' w _.
            and_then
              (or_restore application q
                (store.replace_authoritative_and_persist w snapshot.records q'))
              (λ q w _. (q, w, ok (again (count_snapshot result)))))))

  -- The arm of `PullResult::Changes`.
  unfoldable pub page_round_atomic :
      ProtocolQueue V → W → PullResponse V → ProtocolSyncCycleResult → Cycle Flow
  page_round_atomic q w page result =
      and_then (called invalid_response q (w, validate_pull_page json page q.checkpoint)) (λ q w _.
        and_then (queued protocol w (set_checkpoint q page.checkpoint)) (λ q' w _.
          and_then (or_restore application q (store.apply_changes_and_persist w page.changes q'))
            (λ q'' w _. (
              q'',
              w,
              page_flow page.has_more (text_eq page.checkpoint q.checkpoint)
                  (count_changes (length page.changes) result),
            ))))

  unfoldable pub pull_arm_atomic :
      ProtocolQueue V → W → PullResult V → ProtocolSyncCycleResult → Cycle Flow
  unfolding reset_round_atomic page_round_atomic
  pull_arm_atomic q w (changes page) result = page_round_atomic q w page result
  pull_arm_atomic q w (reset_required reset) result = reset_round_atomic q w reset result

  unfoldable pub pull_round_atomic : ProtocolQueue V → W → ProtocolSyncCycleResult → Cycle Flow
  unfolding pull_arm_atomic
  pull_round_atomic q w result =
      and_then (called transport q (network.pull w q.checkpoint options.pull_limit))
        (λ q w pulled. pull_arm_atomic q w pulled result)

  -- The loop of `pull_to_current_atomic`, by the rounds that are left.
  unfoldable pub pull_rounds_atomic :
      ℕ → ProtocolQueue V → W → ProtocolSyncCycleResult → Cycle ProtocolSyncCycleResult
  unfolding pull_round_atomic
  pull_rounds_atomic zero q w result = (q, w, err (invalid_response page_limit))
  pull_rounds_atomic (suc n) q w result =
      and_then (pull_round_atomic q w result) (next_round (pull_rounds_atomic n))

  unfoldable pub pull_to_current_atomic :
      ProtocolQueue V → W → ProtocolSyncCycleResult → Cycle ProtocolSyncCycleResult
  unfolding pull_rounds_atomic
  pull_to_current_atomic q w result = pull_rounds_atomic options.max_pull_pages_per_phase q w result

  -- One batch, once the request is known not to be empty.
  unfoldable pub push_batch_atomic :
      ProtocolQueue V → W → PushRequest V → ProtocolSyncCycleResult → Cycle ProtocolSyncCycleResult
  push_batch_atomic q w request result =
      and_then (called transport q (network.push w request)) (λ q w response.
        and_then (queued protocol w (acknowledge json q response request)) (λ q' w acknowledged.
          and_then (or_restore persistence q (store.persist_acknowledgement w q' request response))
            (λ q w _. (q, w, ok (count_push (length request.mutations) acknowledged result)))))

  -- The push loop of `sync_cycle_atomic`, by the batches that are left.
  unfoldable pub push_batches_atomic :
      ℕ → ProtocolQueue V → W → ProtocolSyncCycleResult → Cycle ProtocolSyncCycleResult
  unfolding push_batch_atomic
  push_batches_atomic zero q w result = (q, w, ok result)
  push_batches_atomic (suc n) q w result =
      and_then (called protocol q (w, push_request q options.push_limit)) (λ q w request.
        if length request.mutations == 0
        then (q, w, ok result)
        else and_then (push_batch_atomic q w request result)
            (λ q w result. push_batches_atomic n q w result))

  unfoldable pub sync_cycle_atomic : ProtocolQueue V → W → Cycle ProtocolSyncCycleResult
  unfolding pull_to_current_atomic push_batches_atomic
  sync_cycle_atomic q w =
      and_then (pull_to_current_atomic q w (no_result q.checkpoint)) (λ q w result.
        and_then (push_batches_atomic options.max_push_batches_per_cycle q w result) (λ q w result.
          and_then (pull_to_current_atomic q w (record result { has_more_pending = has_pending q }))
            (λ q w result. (q, w, ok (record result { checkpoint = q.checkpoint })))))
