-- ===== src/Sync/Driver.antt =====
-- `sync_cycle` and `pull_to_current` of clients/rust/src/protocol_sync.rs.
use opto_sync_clients.Base.{
  ◌&&◌, ℕ, zero, suc, ◌+◌, Bool, false, not, ◌==◌, if◌then◌else◌, Result, ok, err, Text, text,
  text_eq, length,
}
use opto_sync_clients.Protocol.Types.{
  Json, ProtocolQueue, PushRequest, SnapshotResponse, SnapshotInstallError,
}
use opto_sync_clients.Protocol.Queue.{push_request, pending_of, set_checkpoint}
use opto_sync_clients.Protocol.Acknowledge.{acknowledge, install_snapshot}
use opto_sync_clients.Sync.Types.{
  Host, PullResponse, ResetRequired, PullResult, changes, reset_required, ProtocolSyncError,
  transport, application, persistence, protocol, invalid_response, bad_reset, no_progress,
  page_limit, ProtocolSyncCycleResult,
}
use opto_sync_clients.Sync.Checks.{validate_snapshot, validate_pull_page}
use opto_sync_clients.Sync.Outcome.{Outcome, and_then, called, queued, or_restore}

-- The result with which a cycle begins.
abbrev pub no_result : Text → ProtocolSyncCycleResult
no_result checkpoint = record {
  pushed_mutations = 0;
  acknowledged_mutations = 0;
  pulled_changes = 0;
  installed_snapshots = 0;
  checkpoint = checkpoint;
  has_more_pending = false;
}

abbrev pub count_snapshot : ProtocolSyncCycleResult → ProtocolSyncCycleResult
count_snapshot r = record r { installed_snapshots = r.installed_snapshots + 1 }

abbrev pub count_changes : ℕ → ProtocolSyncCycleResult → ProtocolSyncCycleResult
count_changes n r = record r { pulled_changes = r.pulled_changes + n }

abbrev pub count_push : ℕ → ℕ → ProtocolSyncCycleResult → ProtocolSyncCycleResult
count_push sent acknowledged r = record r {
  pushed_mutations = r.pushed_mutations + sent;
  acknowledged_mutations = r.acknowledged_mutations + acknowledged;
}

-- How one round of a pull phase ends: `return Ok(())`, or the next round.
pub data Flow : Type 0 where
  done : ProtocolSyncCycleResult → Flow
  again : ProtocolSyncCycleResult → Flow

abbrev pub is_reset : ResetRequired → Bool
is_reset reset = reset.protocol_version == 1 && text_eq reset.error (text "RESET_REQUIRED")

-- What follows a stored page.
abbrev pub page_flow :
    {T A P : Type 0} → Bool → Bool → ProtocolSyncCycleResult → Result Flow (ProtocolSyncError T A P)
page_flow has_more same_checkpoint result =
    if not has_more
    then ok (done result)
    else if same_checkpoint
    then err (invalid_response no_progress)
    else ok (again result)

-- `queue.pending().next().is_some()`.
abbrev pub has_pending : {V : Type 0} → ProtocolQueue V → Bool
has_pending q = not (length (pending_of q.mutations) == 0)

-- The errors of `install_snapshot`.
abbrev pub install_error : {T A P : Type 0} → SnapshotInstallError A → ProtocolSyncError T A P
install_error (SnapshotInstallError.protocol e) = protocol e
install_error (SnapshotInstallError.replace e) = application e

-- The application's answer to a page of `n` changes.
unfoldable pub applied_count :
    {W A : Type 0}
    → ℕ
    → ProtocolSyncCycleResult
    → W × Result (Unit {0}) A
    → W × Result ProtocolSyncCycleResult A
applied_count n result (w, ok u) = (w, ok (count_changes n result))
applied_count n result (w, err e) = (w, err e)

-- The rest of the loop after a round.
abbrev pub next_round :
    {V W E : Type 0}
    → (ProtocolQueue V → W → ProtocolSyncCycleResult → Outcome V W E ProtocolSyncCycleResult)
    → ProtocolQueue V
    → W
    → Flow
    → Outcome V W E ProtocolSyncCycleResult
next_round rest q w (done result) = (q, w, ok result)
next_round rest q w (again result) = rest q w result

module _ {V W T A P : Type 0} (json : Json V) (host : Host V W T A P) where
  abbrev Cycle : Type 0 → Type 0
  Cycle = Outcome V W (ProtocolSyncError T A P)

  -- `persistence.persist(queue)`, with the queue restored to `prior` when it fails.
  unfoldable pub persist_or_restore : ProtocolQueue V → ProtocolQueue V → W → Cycle (Unit {0})
  persist_or_restore prior q w =
      let (w', r) = host.storage.persist w q in or_restore persistence prior (w', q, r)

  unfoldable pub install : ProtocolQueue V → W → SnapshotResponse V → Cycle (Unit {0})
  install q w snapshot =
      let (q', w', r) = install_snapshot json q snapshot host.callbacks.replace_authoritative w in
      called install_error q' (w', r)

  -- The arm of `PullResult::ResetRequired`.
  unfoldable pub reset_round :
      ProtocolQueue V → W → ResetRequired → ProtocolSyncCycleResult → Cycle Flow
  unfolding persist_or_restore install
  reset_round q w reset result =
      if not (is_reset reset)
      then (q, w, err (invalid_response bad_reset))
      else and_then (called transport q (host.network.snapshot w reset)) (λ q w snapshot.
        and_then (called invalid_response q (w, validate_snapshot json snapshot q.checkpoint))
          (λ q w _. and_then (install q w snapshot) (λ q' w _.
            and_then (persist_or_restore q q' w)
              (λ q w _. (q, w, ok (again (count_snapshot result)))))))

  -- A page without changes is not given to the application.
  unfoldable pub apply_page :
      W → PullResponse V → ProtocolSyncCycleResult → W × Result ProtocolSyncCycleResult A
  unfolding applied_count
  apply_page w page result =
      if length page.changes == 0
      then (w, ok result)
      else applied_count (length page.changes) result (host.callbacks.apply_changes w page.changes)

  -- The arm of `PullResult::Changes`.
  unfoldable pub page_round :
      ProtocolQueue V → W → PullResponse V → ProtocolSyncCycleResult → Cycle Flow
  unfolding persist_or_restore apply_page
  page_round q w page result =
      and_then (called invalid_response q (w, validate_pull_page json page q.checkpoint)) (λ q w _.
        and_then (called application q (apply_page w page result)) (λ q w result.
          and_then (queued protocol w (set_checkpoint q page.checkpoint)) (λ q' w _.
            and_then (persist_or_restore q q' w) (λ q'' w _.
              (q'', w, page_flow page.has_more (text_eq page.checkpoint q.checkpoint) result)))))

  unfoldable pub pull_arm :
      ProtocolQueue V → W → PullResult V → ProtocolSyncCycleResult → Cycle Flow
  unfolding reset_round page_round
  pull_arm q w (changes page) result = page_round q w page result
  pull_arm q w (reset_required reset) result = reset_round q w reset result

  unfoldable pub pull_round : ProtocolQueue V → W → ProtocolSyncCycleResult → Cycle Flow
  unfolding pull_arm
  pull_round q w result =
      and_then (called transport q (host.network.pull w q.checkpoint host.options.pull_limit))
        (λ q w pulled. pull_arm q w pulled result)

  -- The loop of `pull_to_current`, by the rounds that are left.
  unfoldable pub pull_rounds :
      ℕ → ProtocolQueue V → W → ProtocolSyncCycleResult → Cycle ProtocolSyncCycleResult
  unfolding pull_round
  pull_rounds zero q w result = (q, w, err (invalid_response page_limit))
  pull_rounds (suc n) q w result = and_then (pull_round q w result) (next_round (pull_rounds n))

  unfoldable pub pull_to_current :
      ProtocolQueue V → W → ProtocolSyncCycleResult → Cycle ProtocolSyncCycleResult
  unfolding pull_rounds
  pull_to_current q w result = pull_rounds host.options.max_pull_pages_per_phase q w result

  -- One batch, once the request is known not to be empty.
  unfoldable pub push_batch :
      ProtocolQueue V → W → PushRequest V → ProtocolSyncCycleResult → Cycle ProtocolSyncCycleResult
  unfolding persist_or_restore
  push_batch q w request result =
      and_then (called transport q (host.network.push w request)) (λ q w response.
        and_then (queued protocol w (acknowledge json q response request)) (λ q' w acknowledged.
          and_then (persist_or_restore q q' w)
            (λ q w _. (q, w, ok (count_push (length request.mutations) acknowledged result)))))

  -- The push loop of `sync_cycle`, by the batches that are left.
  unfoldable pub push_batches :
      ℕ → ProtocolQueue V → W → ProtocolSyncCycleResult → Cycle ProtocolSyncCycleResult
  unfolding push_batch
  push_batches zero q w result = (q, w, ok result)
  push_batches (suc n) q w result =
      and_then (called protocol q (w, push_request q host.options.push_limit)) (λ q w request.
        if length request.mutations == 0
        then (q, w, ok result)
        else and_then (push_batch q w request result) (λ q w result. push_batches n q w result))

  unfoldable pub sync_cycle : ProtocolQueue V → W → Cycle ProtocolSyncCycleResult
  unfolding pull_to_current push_batches
  sync_cycle q w = and_then (pull_to_current q w (no_result q.checkpoint)) (λ q w result.
      and_then (push_batches host.options.max_push_batches_per_cycle q w result) (λ q w result.
        and_then (pull_to_current q w (record result { has_more_pending = has_pending q }))
          (λ q w result. (q, w, ok (record result { checkpoint = q.checkpoint })))))
