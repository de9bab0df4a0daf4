-- ===== src/Sync/Calls.antt =====
-- How many calls of the network a cycle of clients/rust/src/protocol_sync.rs makes.
use opto_sync_clients.Base.{
  ap, ℕ, zero, suc, ◌+◌, ◌*◌, ◌≤◌, ◌≡◌, refl, Result, ok, err, List, Text, arith, inl, inr,
  Bool-cases, length, ◌==◌,
}
use opto_sync_clients.Protocol.Types.{
  SnapshotInstallError, SnapshotResponse, Json, ProtocolQueue, PushRequest, SnapshotRecord,
}
use opto_sync_clients.Protocol.Queue.{push_request, set_checkpoint}
use opto_sync_clients.Protocol.Acknowledge.{acknowledge, install_snapshot}
use opto_sync_clients.Sync.Types.{
  application, transport, persistence, invalid_response, Change, Host, PullResponse, PullResult,
  changes, reset_required, ProtocolSyncCycleResult, ProtocolSyncError, ResetRequired,
}
use opto_sync_clients.Sync.Checks.{validate_pull_page, validate_snapshot}
use opto_sync_clients.Sync.Outcome.{or_restore, Outcome, and_then, called, queued}
use opto_sync_clients.Sync.Driver.{
  has_pending, no_result, pull_arm, install_error, pull_round, pull_rounds, next_round,
  push_batches, push_batch, pull_to_current, is_reset, page_round, reset_round, apply_page,
  persist_or_restore, install, sync_cycle, Flow, done, again,
}
use opto_sync_clients.Sync.Moves.{applied_count-world}
use opto_sync_clients.Protocol.Snapshot.{install_snapshot_failed, install_snapshot_installed}

-- A meter of what is outside the driver: a pull adds at most `pull` to it, a snapshot `snapshot`, a
-- push `push`, and the other calls nothing.
pub record IsMeter {V W T A P : Type 0} (host : Host V W T A P) (meter : W → ℕ)
    (pull snapshot push : ℕ) : Type 0 where
  pub pulls : (w : W) (c : Text) (n : ℕ) → meter (host.network.pull w c n).0 ≤ meter w + pull
  pub snapshots :
      (w : W) (r : ResetRequired) → meter (host.network.snapshot w r).0 ≤ meter w + snapshot
  pub pushes : (w : W) (r : PushRequest V) → meter (host.network.push w r).0 ≤ meter w + push
  pub applies :
      (w : W) (cs : List (Change V)) → meter (host.callbacks.apply_changes w cs).0 ≤ meter w
  pub replaces :
      (w : W) (rs : List (SnapshotRecord V))
      → meter (host.callbacks.replace_authoritative w rs).0 ≤ meter w
  pub persists : (w : W) (q : ProtocolQueue V) → meter (host.storage.persist w q).0 ≤ meter w

module _ {V W T A P : Type 0} (json : Json V) (host : Host V W T A P) (meter : W → ℕ)
    (pull snapshot push : ℕ) (m : IsMeter host meter pull snapshot push) where
  abbrev Err : Type 0
  Err = ProtocolSyncError T A P

  -- The outcome costs at most `n` beyond `w`.
  unfoldable Costs : ℕ → W → {B : Type 0} → Outcome V W Err B → Type 0
  Costs n w o = meter o.1 ≤ meter w + n

  stays-Costs :
      {B : Type 0} (n : ℕ) (q : ProtocolQueue V) (w : W) (r : Result B Err) → Costs n w (q, w, r)
  unfolding Costs
  stays-Costs n q w r = omega arith

  and_then-Costs :
      {B C : Type 0} (i j n : ℕ) (w : W) (o : Outcome V W Err B)
      (rest : ProtocolQueue V → W → B → Outcome V W Err C)
      → i + j ≤ n
      → Costs i w o
      → ((q' : ProtocolQueue V) (w' : W) (b : B) → Costs j w' (rest q' w' b))
      → Costs n w (and_then o rest)
  unfolding Costs
  and_then-Costs i j n w (q', w', ok b) rest l h k = omega (arith, k q' w' b)
  and_then-Costs i j n w (q', w', err e) rest l h k = omega arith

  called-Costs :
      {B F : Type 0} (n : ℕ) (wrap : F → Err) (q : ProtocolQueue V) (w : W) (r : W × Result B F)
      → meter r.0 ≤ meter w + n
      → Costs n w (called wrap q r)
  unfolding Costs
  called-Costs n wrap q w (w', ok b) h = h
  called-Costs n wrap q w (w', err e) h = h

  weaken : {B : Type 0} (n : ℕ) (w : W) (o : Outcome V W Err B) → Costs 0 w o → Costs n w o
  unfolding Costs
  weaken n w o h = omega arith

  queued-Costs :
      {B F : Type 0} (wrap : F → Err) (w : W) (r : ProtocolQueue V × Result B F)
      → Costs 0 w (queued wrap w r)
  unfolding Costs
  queued-Costs wrap w (q, ok b) = omega arith
  queued-Costs wrap w (q, err e) = omega arith

  restored-Costs :
      (wrap : P → Err) (prior q : ProtocolQueue V) (w : W) (r : W × Result (Unit {0}) P)
      → meter r.0 ≤ meter w
      → Costs 0 w (or_restore wrap prior (r.0, q, r.1))
  unfolding Costs
  restored-Costs wrap prior q w (w', ok u) h = omega arith
  restored-Costs wrap prior q w (w', err e) h = omega arith

  persisted-Costs :
      (prior q : ProtocolQueue V) (w : W) → Costs 0 w (persist_or_restore json host prior q w)
  unfolding persist_or_restore
  persisted-Costs prior q w =
      restored-Costs persistence prior q w (host.storage.persist w q) (m.persists w q)

  applied-Costs :
      (w : W) (page : PullResponse V) (result : ProtocolSyncCycleResult)
      → meter (apply_page json host w page result).0 ≤ meter w + 0
  unfolding apply_page
  applied-Costs w page result = elim (Bool-cases (length page.changes == 0)) [
    | inl none_in ↦ rw none_in (omega arith)
    | inr some_in ↦
        rw
          (
            some_in,
            applied_count-world (length page.changes) result
                (host.callbacks.apply_changes w page.changes),
          )
          (omega (arith, m.applies w page.changes))
  ]

  page_round-Costs :
      (q : ProtocolQueue V) (w : W) (page : PullResponse V) (result : ProtocolSyncCycleResult)
      → Costs 0 w (page_round json host q w page result)
  unfolding page_round
  page_round-Costs q w page result =
      and_then-Costs 0 0 0 w
        (called invalid_response q (w, validate_pull_page json page q.checkpoint)) _ (omega arith)
        (called-Costs 0 _ q w _ (omega arith))
        (λ q w _.
          and_then-Costs 0 0 0 w (called application q (apply_page json host w page result)) _
            (omega arith) (called-Costs 0 _ q w _ (applied-Costs w page result))
            (λ q w result.
              and_then-Costs 0 0 0 w
                (queued ProtocolSyncError.protocol w (set_checkpoint q page.checkpoint)) _
                (omega arith) (queued-Costs _ w (set_checkpoint q page.checkpoint))
                (λ q' w _.
                  and_then-Costs 0 0 0 w (persist_or_restore json host q q' w) _ (omega arith)
                    (persisted-Costs q q' w) (λ q'' w _. stays-Costs 0 q'' w _))))

  installed-Costs :
      (q : ProtocolQueue V) (w : W) (answer : SnapshotResponse V)
      (r : ProtocolQueue V × W × Result (Unit {0}) (SnapshotInstallError A))
      → install_snapshot json q answer host.callbacks.replace_authoritative w ≡ r
      → Costs 0 w (called install_error r.0 (r.1, r.2))
  unfolding Costs
  installed-Costs q w answer (q', w', ok u) e =
      let (run, _, _, _) =
        install_snapshot_installed json q answer host.callbacks.replace_authoritative w e in
      omega
        (arith, m.replaces w answer.records, ap (λ (r : W × Result (Unit {0}) A). meter r.0) run)
  installed-Costs q w answer (q', w', err x) e =
      let (_, how) =
        install_snapshot_failed json q answer host.callbacks.replace_authoritative w e in
      elim how [
        | inl (_, stays) ↦ omega (arith, ap meter stays)
        | inr (y, _, run) ↦ omega (
          arith,
          m.replaces w answer.records,
          ap (λ (r : W × Result (Unit {0}) A). meter r.0) run,
        )
      ]

  install-Costs :
      (q : ProtocolQueue V) (w : W) (answer : SnapshotResponse V)
      → Costs 0 w (install json host q w answer)
  unfolding install
  install-Costs q w answer =
      installed-Costs q w answer
        (install_snapshot json q answer host.callbacks.replace_authoritative w) refl

  reset_round-Costs :
      (q : ProtocolQueue V) (w : W) (r : ResetRequired) (result : ProtocolSyncCycleResult)
      → Costs snapshot w (reset_round json host q w r result)
  unfolding reset_round
  reset_round-Costs q w r result = elim (Bool-cases (is_reset r)) [
    | inr other ↦ rw other (stays-Costs snapshot q w _)
    | inl right ↦ rw right (
        and_then-Costs snapshot 0 snapshot w (called transport q (host.network.snapshot w r)) _
          (omega arith) (called-Costs snapshot _ q w _ (m.snapshots w r))
          (λ q w answer.
            and_then-Costs 0 0 0 w
              (called invalid_response q (w, validate_snapshot json answer q.checkpoint)) _
              (omega arith) (called-Costs 0 _ q w _ (omega arith))
              (λ q w _.
                and_then-Costs 0 0 0 w (install json host q w answer) _ (omega arith)
                  (install-Costs q w answer)
                  (λ q' w _.
                    and_then-Costs 0 0 0 w (persist_or_restore json host q q' w) _ (omega arith)
                      (persisted-Costs q q' w) (λ q w _. stays-Costs 0 q w _)))))
  ]

  pull_round-Costs :
      (q : ProtocolQueue V) (w : W) (result : ProtocolSyncCycleResult)
      → Costs (pull + snapshot) w (pull_round json host q w result)
  unfolding pull_round pull_arm
  pull_round-Costs q w result =
      and_then-Costs pull snapshot (pull + snapshot) w
        (called transport q (host.network.pull w q.checkpoint host.options.pull_limit)) _
        (omega arith) (called-Costs pull _ q w _ (m.pulls w q.checkpoint host.options.pull_limit))
        (λ q w r. arm q w r)
    where
      arm :
          (q : ProtocolQueue V) (w : W) (r : PullResult V)
          → Costs snapshot w (pull_arm json host q w r result)
      arm q w (changes page) = weaken snapshot w _ (page_round-Costs q w page result)
      arm q w (reset_required r) = reset_round-Costs q w r result

  next_round-Costs :
      (n : ℕ)
      (rest : ProtocolQueue V
        → W
        → ProtocolSyncCycleResult
        → Outcome V W Err ProtocolSyncCycleResult)
      (q : ProtocolQueue V) (w : W) (flow : Flow)
      → ((q : ProtocolQueue V) (w : W) (r : ProtocolSyncCycleResult) → Costs n w (rest q w r))
      → Costs n w (next_round rest q w flow)
  next_round-Costs n rest q w (done r) k = stays-Costs n q w _
  next_round-Costs n rest q w (again r) k = k q w r

  pull_rounds-Costs :
      (n : ℕ) (q : ProtocolQueue V) (w : W) (result : ProtocolSyncCycleResult)
      → Costs (n * (pull + snapshot)) w (pull_rounds json host n q w result)
  unfolding pull_rounds
  pull_rounds-Costs zero q w result = stays-Costs _ q w _
  pull_rounds-Costs (suc n) q w result =
      and_then-Costs (pull + snapshot) (n * (pull + snapshot)) (suc n * (pull + snapshot)) w
        (pull_round json host q w result) _ (omega arith) (pull_round-Costs q w result)
        (λ q w flow.
          next_round-Costs _ (pull_rounds json host n) q w flow
            (λ q w r. pull_rounds-Costs n q w r))

  push_batch-Costs :
      (q : ProtocolQueue V) (w : W) (request : PushRequest V) (result : ProtocolSyncCycleResult)
      → Costs push w (push_batch json host q w request result)
  unfolding push_batch
  push_batch-Costs q w request result =
      and_then-Costs push 0 push w (called transport q (host.network.push w request)) _
        (omega arith) (called-Costs push _ q w _ (m.pushes w request))
        (λ q w response.
          and_then-Costs 0 0 0 w
            (queued ProtocolSyncError.protocol w (acknowledge json q response request)) _
            (omega arith) (queued-Costs _ w (acknowledge json q response request))
            (λ q' w acknowledged.
              and_then-Costs 0 0 0 w (persist_or_restore json host q q' w) _ (omega arith)
                (persisted-Costs q q' w) (λ q w _. stays-Costs 0 q w _)))

  push_batches-Costs :
      (n : ℕ) (q : ProtocolQueue V) (w : W) (result : ProtocolSyncCycleResult)
      → Costs (n * push) w (push_batches json host n q w result)
  unfolding push_batches
  push_batches-Costs zero q w result = stays-Costs _ q w _
  push_batches-Costs (suc n) q w result =
      and_then-Costs 0 (suc n * push) (suc n * push) w
        (called ProtocolSyncError.protocol q (w, push_request q host.options.push_limit)) _
        (omega arith) (called-Costs 0 _ q w _ (omega arith))
        (λ q w request. elim (Bool-cases (length request.mutations == 0)) [
          | inl none_left ↦ rw none_left (stays-Costs _ q w _)
          | inr some_left ↦ rw some_left (
              and_then-Costs push (n * push) (suc n * push) w
                (push_batch json host q w request result) _ (omega arith)
                (push_batch-Costs q w request result) (λ q w r. push_batches-Costs n q w r))
        ])

  cycle-Costs :
      (n b : ℕ) (q : ProtocolQueue V) (w : W)
      → host.options.max_pull_pages_per_phase ≡ n
      → host.options.max_push_batches_per_cycle ≡ b
      → Costs (2 * n * (pull + snapshot) + b * push) w (sync_cycle json host q w)
  unfolding sync_cycle pull_to_current
  cycle-Costs n b q w e f =
      rw (e, f)
        (and_then-Costs (n * (pull + snapshot)) (b * push + n * (pull + snapshot)) _ w
          (pull_rounds json host n q w (no_result q.checkpoint)) _ (omega arith)
          (pull_rounds-Costs n q w _)
          (λ q w r.
            and_then-Costs (b * push) (n * (pull + snapshot)) _ w (push_batches json host b q w r) _
              (omega arith) (push_batches-Costs b q w r)
              (λ q w r.
                and_then-Costs (n * (pull + snapshot)) 0 _ w
                  (pull_rounds json host n q w (record r { has_more_pending = has_pending q })) _
                  (omega arith) (pull_rounds-Costs n q w _) (λ q w r. stays-Costs 0 q w _))))

  -- A cycle always ends, with a result or an error, and its calls are bounded by the driver's
  -- options: whatever a pull, a snapshot and a push cost at most, two pull phases of
  -- `max_pull_pages_per_phase` rounds and `max_push_batches_per_cycle` pushes cost at most.
  pub sync_cycle-IsMeter :
      (q : ProtocolQueue V) (w : W)
      → meter (sync_cycle json host q w).1
        ≤ meter w
          + (2 * host.options.max_pull_pages_per_phase * (pull + snapshot)
              + host.options.max_push_batches_per_cycle * push)
  unfolding Costs
  sync_cycle-IsMeter q w = cycle-Costs _ _ q w refl refl
