-- ===== src/Sync/AtomicSafety.antt =====
-- What `sync_cycle_atomic` of clients/rust/src/protocol_sync.rs leaves in a transactional store.
use opto_sync_clients.Base.{
  ℕ, zero, suc, ◌≡◌, refl, ◌∙◌, Result, ok, err, List, Text, inl, inr, Bool-cases, length, ◌==◌,
}
use opto_sync_clients.Protocol.Types.{
  Json, ProtocolQueue, PushRequest, PushResponse, SnapshotRecord,
}
use opto_sync_clients.Protocol.Queue.{push_request, set_checkpoint}
use opto_sync_clients.Protocol.Acknowledge.{acknowledge}
use opto_sync_clients.Protocol.Wellformed.{IsValid}
use opto_sync_clients.Protocol.AckSafety.{acknowledge-IsValid, acknowledge_refused}
use opto_sync_clients.Protocol.Snapshot.{set_checkpoint-IsValid}
use opto_sync_clients.Sync.Types.{
  persistence, application, invalid_response, transport, Change, AtomicProtocolSyncStore,
  ProtocolTransport, ProtocolSyncOptions, PullResponse, PullResult, changes, reset_required,
  ProtocolSyncCycleResult, ProtocolSyncError, ResetRequired,
}
use opto_sync_clients.Sync.Checks.{validate_pull_page, validate_snapshot}
use opto_sync_clients.Sync.Outcome.{Outcome, and_then, called, queued, or_restore}
use opto_sync_clients.Sync.Driver.{has_pending, no_result, is_reset, next_round, Flow, done, again}
use opto_sync_clients.Sync.Atomic.{
  pull_arm_atomic, page_round_atomic, pull_rounds_atomic, reset_round_atomic, pull_round_atomic,
  push_batch_atomic, push_batches_atomic, pull_to_current_atomic, sync_cycle_atomic,
}
use opto_sync_clients.Sync.Moves.{set_checkpoint-fail}

module _ {V W T S : Type 0} (json : Json V) (options : ProtocolSyncOptions)
    (network : ProtocolTransport V W T) (store : AtomicProtocolSyncStore V W S) where
  -- One call of the store, of queue `q` and outcome `r`, is a transaction: a success leaves a
  -- well-formed queue that the store holds, a failure leaves what the store held.
  abbrev pub IsTransaction :
      (W → ProtocolQueue V)
      → W
      → ProtocolQueue V
      → W × ProtocolQueue V × Result (Unit {0}) S
      → Type 0
  IsTransaction durable w q (w', q', ok u) = (durable w' ≡ q') × IsValid json q'
  IsTransaction durable w q (w', q', err e) = durable w' ≡ durable w

  -- What a transactional store promises of well-formed queues; the network is apart from it.
  pub record IsTransactional (durable : W → ProtocolQueue V) : Type 0 where
    pub acknowledges :
        (w : W) (q : ProtocolQueue V) (request : PushRequest V) (response : PushResponse)
        → IsValid json q
        → IsTransaction durable w q (store.persist_acknowledgement w q request response)
    pub applies :
        (w : W) (cs : List (Change V)) (q : ProtocolQueue V)
        → IsValid json q
        → IsTransaction durable w q (store.apply_changes_and_persist w cs q)
    pub replaces :
        (w : W) (rs : List (SnapshotRecord V)) (q : ProtocolQueue V)
        → IsValid json q
        → IsTransaction durable w q (store.replace_authoritative_and_persist w rs q)
    pub pull_apart : (w : W) (c : Text) (n : ℕ) → durable (network.pull w c n).0 ≡ durable w
    pub push_apart : (w : W) (r : PushRequest V) → durable (network.push w r).0 ≡ durable w
    pub snapshot_apart : (w : W) (r : ResetRequired) → durable (network.snapshot w r).0 ≡ durable w

  module _ (durable : W → ProtocolQueue V) (d : IsTransactional durable) where
    abbrev Err : Type 0
    Err = ProtocolSyncError T S S

    -- The queue is well formed and the store holds it.
    abbrev Held : ProtocolQueue V → W → Type 0
    Held q w = IsValid json q × (durable w ≡ q)

    unfoldable Holds : {B : Type 0} → Outcome V W Err B → Type 0
    Holds o = Held o.0 o.1

    stays-Holds :
        {B : Type 0} (q : ProtocolQueue V) (w : W) (r : Result B Err) → Held q w → Holds (q, w, r)
    unfolding Holds
    stays-Holds q w r h = h

    and_then-Holds :
        {B C : Type 0} (o : Outcome V W Err B) (rest : ProtocolQueue V → W → B → Outcome V W Err C)
        → Holds o
        → ((q : ProtocolQueue V) (w : W) (b : B) → Held q w → Holds (rest q w b))
        → Holds (and_then o rest)
    unfolding Holds
    and_then-Holds (q, w, ok b) rest h k = k q w b h
    and_then-Holds (q, w, err e) rest h k = h

    called-Holds :
        {B C F : Type 0} (wrap : F → Err) (q : ProtocolQueue V) (r : W × Result B F)
        (rest : ProtocolQueue V → W → B → Outcome V W Err C)
        → Held q r.0
        → ((w : W) (b : B) → Held q w → Holds (rest q w b))
        → Holds (and_then (called wrap q r) rest)
    unfolding Holds
    called-Holds wrap q (w, ok b) rest h k = k w b h
    called-Holds wrap q (w, err e) rest h k = h

    transaction-Holds :
        {C : Type 0} (wrap : S → Err) (q q' : ProtocolQueue V) (w : W)
        (r : W × ProtocolQueue V × Result (Unit {0}) S)
        (rest : ProtocolQueue V → W → Unit {0} → Outcome V W Err C)
        → Held q w
        → IsTransaction durable w q' r
        → ((q'' : ProtocolQueue V) (w' : W) → Held q'' w' → Holds (rest q'' w' tt))
        → Holds (and_then (or_restore wrap q r) rest)
    unfolding Holds
    transaction-Holds wrap q q' w (w', q'', ok u) rest h (kept, valid) k = k q'' w' (valid, kept)
    transaction-Holds wrap q q' w (w', q'', err e) rest h kept k = (h.0, kept ∙ h.1)

    -- A call of the queue that fails leaves it, and one that succeeds leaves it well formed.
    queued-Holds :
        {B C F : Type 0} (wrap : F → Err) (q : ProtocolQueue V) (w : W)
        (r : ProtocolQueue V × Result B F) (rest : ProtocolQueue V → W → B → Outcome V W Err C)
        → Held q w
        → ((q' : ProtocolQueue V) (e : F) → r ≡ (q', err e) → q' ≡ q)
        → ((q' : ProtocolQueue V) (b : B) → r ≡ (q', ok b) → Holds (rest q' w b))
        → Holds (and_then (queued wrap w r) rest)
    unfolding Holds
    queued-Holds wrap q w (q', ok b) rest h kept k = k q' b refl
    queued-Holds wrap q w (q', err e) rest h kept k = rw (kept q' e refl) h

    moved-IsValid :
        (q q' : ProtocolQueue V) (c : Text) (u : Unit {0})
        → IsValid json q
        → set_checkpoint q c ≡ (q', ok u)
        → IsValid json q'
    moved-IsValid q q' c u v e = rw e at (set_checkpoint-IsValid json q c v)

    page_round-Holds :
        (q : ProtocolQueue V) (w : W) (page : PullResponse V) (result : ProtocolSyncCycleResult)
        → Held q w
        → Holds (page_round_atomic json options network store q w page result)
    unfolding page_round_atomic
    page_round-Holds q w page result h =
        called-Holds invalid_response q (w, validate_pull_page json page q.checkpoint) _ h
          (λ w u h.
            queued-Holds ProtocolSyncError.protocol q w (set_checkpoint q page.checkpoint) _ h
              (λ q' e failed. set_checkpoint-fail q q' page.checkpoint e failed)
              (λ q' u moved.
                transaction-Holds application q q' w
                  (store.apply_changes_and_persist w page.changes q') _ h
                  (d.applies w page.changes q' (moved-IsValid q q' page.checkpoint u h.0 moved))
                  (λ q'' w' h. stays-Holds q'' w' _ h)))

    reset_round-Holds :
        (q : ProtocolQueue V) (w : W) (r : ResetRequired) (result : ProtocolSyncCycleResult)
        → Held q w
        → Holds (reset_round_atomic json options network store q w r result)
    unfolding reset_round_atomic
    reset_round-Holds q w r result h = elim (Bool-cases (is_reset r)) [
      | inr other ↦ rw other (stays-Holds q w _ h)
      | inl right ↦ rw right (
          called-Holds transport q (network.snapshot w r) _ (h.0, d.snapshot_apart w r ∙ h.1)
            (λ w answer h.
              called-Holds invalid_response q (w, validate_snapshot json answer q.checkpoint) _ h
                (λ w u h.
                  queued-Holds ProtocolSyncError.protocol q w (set_checkpoint q answer.checkpoint) _
                    h (λ q' e failed. set_checkpoint-fail q q' answer.checkpoint e failed)
                    (λ q' u moved.
                      transaction-Holds application q q' w
                        (store.replace_authoritative_and_persist w answer.records q') _ h
                        (d.replaces w answer.records q'
                          (moved-IsValid q q' answer.checkpoint u h.0 moved))
                        (λ q'' w' h. stays-Holds q'' w' _ h)))))
    ]

    pull_round-Holds :
        (q : ProtocolQueue V) (w : W) (result : ProtocolSyncCycleResult)
        → Held q w
        → Holds (pull_round_atomic json options network store q w result)
    unfolding pull_round_atomic pull_arm_atomic
    pull_round-Holds q w result h =
        called-Holds transport q (network.pull w q.checkpoint options.pull_limit) _
          (h.0, d.pull_apart w q.checkpoint options.pull_limit ∙ h.1) arm
      where
        arm :
            (w : W) (r : PullResult V)
            → Held q w
            → Holds (pull_arm_atomic json options network store q w r result)
        arm w (changes page) h = page_round-Holds q w page result h
        arm w (reset_required r) h = reset_round-Holds q w r result h

    next_round-Holds :
        (rest : ProtocolQueue V
          → W
          → ProtocolSyncCycleResult
          → Outcome V W Err ProtocolSyncCycleResult)
        (q : ProtocolQueue V) (w : W) (flow : Flow)
        → Held q w
        → ((q : ProtocolQueue V) (w : W) (r : ProtocolSyncCycleResult)
            → Held q w
            → Holds (rest q w r))
        → Holds (next_round rest q w flow)
    next_round-Holds rest q w (done r) h k = stays-Holds q w _ h
    next_round-Holds rest q w (again r) h k = k q w r h

    pull_rounds-Holds :
        (n : ℕ) (q : ProtocolQueue V) (w : W) (result : ProtocolSyncCycleResult)
        → Held q w
        → Holds (pull_rounds_atomic json options network store n q w result)
    unfolding pull_rounds_atomic
    pull_rounds-Holds zero q w result h = stays-Holds q w _ h
    pull_rounds-Holds (suc n) q w result h =
        and_then-Holds (pull_round_atomic json options network store q w result) _
          (pull_round-Holds q w result h)
          (λ q w flow h.
            next_round-Holds (pull_rounds_atomic json options network store n) q w flow h
              (λ q w r h. pull_rounds-Holds n q w r h))

    push_batch-Holds :
        (q : ProtocolQueue V) (w : W) (request : PushRequest V) (result : ProtocolSyncCycleResult)
        → Held q w
        → Holds (push_batch_atomic json options network store q w request result)
    unfolding push_batch_atomic
    push_batch-Holds q w request result h =
        called-Holds transport q (network.push w request) _ (h.0, d.push_apart w request ∙ h.1)
          (λ w response h.
            queued-Holds ProtocolSyncError.protocol q w (acknowledge json q response request) _ h
              (λ q' e failed. acknowledge_refused json q response request h.0 failed)
              (λ q' n acked.
                let valid : IsValid json q' =
                  rw acked at (acknowledge-IsValid json q response request h.0) in
                transaction-Holds persistence q q' w
                  (store.persist_acknowledgement w q' request response) _ h
                  (d.acknowledges w q' request response valid)
                  (λ q'' w' h. stays-Holds q'' w' _ h)))

    push_batches-Holds :
        (n : ℕ) (q : ProtocolQueue V) (w : W) (result : ProtocolSyncCycleResult)
        → Held q w
        → Holds (push_batches_atomic json options network store n q w result)
    unfolding push_batches_atomic
    push_batches-Holds zero q w result h = stays-Holds q w _ h
    push_batches-Holds (suc n) q w result h =
        called-Holds ProtocolSyncError.protocol q (w, push_request q options.push_limit) _ h
          (λ w request h. elim (Bool-cases (length request.mutations == 0)) [
            | inl none_left ↦ rw none_left (stays-Holds q w _ h)
            | inr some_left ↦ rw some_left (
                and_then-Holds (push_batch_atomic json options network store q w request result) _
                  (push_batch-Holds q w request result h) (λ q w r h. push_batches-Holds n q w r h))
          ])

    cycle-Holds :
        (q : ProtocolQueue V) (w : W)
        → Held q w
        → Holds (sync_cycle_atomic json options network store q w)
    unfolding sync_cycle_atomic pull_to_current_atomic
    cycle-Holds q w h =
        let n = options.max_pull_pages_per_phase in
        let b = options.max_push_batches_per_cycle in
        and_then-Holds
          (pull_rounds_atomic json options network store n q w (no_result q.checkpoint)) _
          (pull_rounds-Holds n q w _ h)
          (λ q w r h.
            and_then-Holds (push_batches_atomic json options network store b q w r) _
              (push_batches-Holds b q w r h)
              (λ q w r h.
                and_then-Holds
                  (pull_rounds_atomic json options network store n q w
                    (record r { has_more_pending = has_pending q }))
                  _ (pull_rounds-Holds n q w _ h) (λ q w r h. stays-Holds q w _ h)))

    -- When the transactional store holds a well-formed queue before an atomic cycle, then however
    -- the cycle ends, with a result or an error, the queue in memory is well formed and is the one
    -- that the store holds.
    pub sync_cycle_atomic-durable :
        (q : ProtocolQueue V) (w : W)
        → IsValid json q
        → durable w ≡ q
        → IsValid json (sync_cycle_atomic json options network store q w).0
          × (durable (sync_cycle_atomic json options network store q w).1
              ≡ (sync_cycle_atomic json options network store q w).0)
    unfolding Holds
    sync_cycle_atomic-durable q w v h = cycle-Holds q w (v, h)
