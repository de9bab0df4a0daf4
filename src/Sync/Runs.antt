-- ===== src/Sync/Runs.antt =====
-- Every way out of `sync_cycle` in clients/rust/src/protocol_sync.rs is reached by steps.
use opto_sync_clients.Base.{
  zero, suc, ap, sym, ℕ, ◌==◌, inr, length, Bool-cases, inl, ◌≡◌, refl, Result, ok, err,
}
use opto_sync_clients.Protocol.Types.{
  PushRequest, SnapshotInstallError, SnapshotResponse, Json, ProtocolQueue,
}
use opto_sync_clients.Protocol.Wellformed.{IsValid}
use opto_sync_clients.Protocol.AckSafety.{acknowledge_refused}
use opto_sync_clients.Sync.Types.{
  Host, reset_required, invalid_response, changes, PullResult, ResetRequired, transport,
  application, PullResponse, ProtocolSyncCycleResult, ProtocolSyncError,
}
use opto_sync_clients.Sync.Outcome.{Outcome, and_then, called}
use opto_sync_clients.Sync.Steps.{
  confirmed, pulled, reset, pushed, applied, replaced, Steps, here, next, Steps-trans,
}
use opto_sync_clients.Sync.Driver.{
  next_round, Flow, done, has_pending, is_reset, no_result, pull_to_current, push_batch,
  push_batches, sync_cycle, pull_rounds, pull_round, reset_round, pull_arm, install_error, again,
  apply_page, install, page_round, persist_or_restore,
}
use opto_sync_clients.Sync.Checks.{validate_snapshot, validate_pull_page}
use opto_sync_clients.Protocol.Queue.{push_request, set_checkpoint}
use opto_sync_clients.Protocol.Acknowledge.{acknowledge, install_snapshot}
use opto_sync_clients.Protocol.Snapshot.{install_snapshot_failed, install_snapshot_installed}
use opto_sync_clients.Sync.Moves.{
  set_checkpoint-eq, set_checkpoint-fail, applied_count-world, page-Move, snapshot-Move,
}
use opto_sync_clients.Sync.Reaches.{
  Steps-IsValid, moved-Steps, called-Steps, persisted-Steps, stays-Steps, Reaches, and_then-Steps,
}

module _ {V W T A P : Type 0} (json : Json V) (host : Host V W T A P) where
  abbrev Many : ProtocolQueue V → W → ProtocolQueue V → W → Type 0
  Many = Steps json host

  abbrev Err : Type 0
  Err = ProtocolSyncError T A P

  abbrev Arrives : ProtocolQueue V → W → {B : Type 0} → Outcome V W Err B → Type 0
  Arrives q w o = Reaches json host q w o

  applied-Steps :
      (q : ProtocolQueue V) (w : W) (page : PullResponse V) (result : ProtocolSyncCycleResult)
      → validate_pull_page json page q.checkpoint ≡ ok tt
      → Many q w q (apply_page json host w page result).0
  unfolding apply_page
  applied-Steps q w page result h = elim (Bool-cases (length page.changes == 0)) [
    | inl none_in ↦ rw none_in here
    | inr some_in ↦
        rw
          (
            some_in,
            applied_count-world (length page.changes) result
                (host.callbacks.apply_changes w page.changes),
          )
          (next here (applied q w page h))
  ]

  page_round-Steps :
      (q : ProtocolQueue V) (w : W) (page : PullResponse V) (result : ProtocolSyncCycleResult)
      → Arrives q w (page_round json host q w page result)
  unfolding page_round Reaches
  page_round-Steps q w page result =
      called-Steps json host _ q w (w, validate_pull_page json page q.checkpoint) _ here
        (λ w' u checked.
          let valid : validate_pull_page json page q.checkpoint ≡ ok tt = cc in
          called-Steps json host application q w' (apply_page json host w' page result) _
            (applied-Steps q w' page result valid)
            (λ w' result e.
              moved-Steps json host _ q w' (set_checkpoint q page.checkpoint) _
                (λ q' e h. set_checkpoint-fail q q' page.checkpoint e h)
                (λ q' u h.
                  rw (set_checkpoint-eq q q' page.checkpoint u h) (page-Move json q page valid))
                (λ q' w' u h. here)))

  -- The application has replaced its rows: one step, with its outcome `r`.
  replaced-Steps :
      {q : ProtocolQueue V} {w : W} (snapshot : SnapshotResponse V) {w' : W}
      {r : Result (Unit {0}) A}
      → validate_snapshot json snapshot q.checkpoint ≡ ok tt
      → host.callbacks.replace_authoritative w snapshot.records ≡ (w', r)
      → Many q w q w'
  replaced-Steps {q} {w} snapshot v e =
      rw (sym (ap (λ (x : W × Result (Unit {0}) A). x.0) e)) (next here (replaced q w snapshot v))

  installed-Steps :
      {C : Type 0} (q : ProtocolQueue V) (w : W) (snapshot : SnapshotResponse V)
      (r : ProtocolQueue V × W × Result (Unit {0}) (SnapshotInstallError A))
      (rest : ProtocolQueue V → W → Unit {0} → Outcome V W Err C)
      → validate_snapshot json snapshot q.checkpoint ≡ ok tt
      → install_snapshot json q snapshot host.callbacks.replace_authoritative w ≡ r
      → ((q' : ProtocolQueue V) (w' : W) → Arrives q' w' (rest q' w' tt))
      → Arrives q w (
          and_then
            (called install_error r.0 (r.1, r.2))
            (λ q' w _. and_then (persist_or_restore json host q q' w) rest))
  unfolding Reaches
  installed-Steps q w snapshot (q', w', ok u) rest v e k =
      let (run, same, _, _) =
        install_snapshot_installed json q snapshot host.callbacks.replace_authoritative w e in
      Steps-trans (replaced-Steps snapshot v run) (
        persisted-Steps json host q q' w' rest (rw same (snapshot-Move json q snapshot v))
          (λ w'. k q' w'))
  installed-Steps q w snapshot (q', w', err x) rest v e k =
      let (same, how) =
        install_snapshot_failed json q snapshot host.callbacks.replace_authoritative w e in
      elim how [
        | inl (_, stays) ↦ rw (same, stays) here
        | inr (y, _, run) ↦ rw same (replaced-Steps snapshot v run)
      ]

  reset_round-Steps :
      (q : ProtocolQueue V) (w : W) (r : ResetRequired) (result : ProtocolSyncCycleResult)
      → Arrives q w (reset_round json host q w r result)
  unfolding reset_round install Reaches
  reset_round-Steps q w r result = elim (Bool-cases (is_reset r)) [
    | inr other ↦ rw other here
    | inl right ↦ rw right (
        called-Steps json host transport q w (host.network.snapshot w r) _ (next here (reset q w r))
          (λ w' snapshot e.
            called-Steps json host invalid_response q w'
              (w', validate_snapshot json snapshot q.checkpoint) _ here
              (λ w' u checked.
                let valid : validate_snapshot json snapshot q.checkpoint ≡ ok tt = cc in
                installed-Steps q w' snapshot
                  (install_snapshot json q snapshot host.callbacks.replace_authoritative w') _ valid
                  refl (λ q' w'. here))))
  ]

  pull_arm-Steps :
      (q : ProtocolQueue V) (w : W) (r : PullResult V) (result : ProtocolSyncCycleResult)
      → Arrives q w (pull_arm json host q w r result)
  unfolding pull_arm
  pull_arm-Steps q w (changes page) result = page_round-Steps q w page result
  pull_arm-Steps q w (reset_required r) result = reset_round-Steps q w r result

  pull_round-Steps :
      (q : ProtocolQueue V) (w : W) (result : ProtocolSyncCycleResult)
      → Arrives q w (pull_round json host q w result)
  unfolding pull_round
  pull_round-Steps q w result =
      called-Steps json host transport q w
        (host.network.pull w q.checkpoint host.options.pull_limit) _ (next here (pulled q w))
        (λ w' r e. pull_arm-Steps q w' r result)

  next_round-Steps :
      (rest : ProtocolQueue V
        → W
        → ProtocolSyncCycleResult
        → Outcome V W Err ProtocolSyncCycleResult)
      (q : ProtocolQueue V) (w : W) (flow : Flow)
      → IsValid json q
      → ((q : ProtocolQueue V) (w : W) (result : ProtocolSyncCycleResult)
          → IsValid json q
          → Arrives q w (rest q w result))
      → Arrives q w (next_round rest q w flow)
  next_round-Steps rest q w (done result) v k = stays-Steps json host q w _
  next_round-Steps rest q w (again result) v k = k q w result v

  pull_rounds-Steps :
      (n : ℕ) (q : ProtocolQueue V) (w : W) (result : ProtocolSyncCycleResult)
      → IsValid json q
      → Arrives q w (pull_rounds json host n q w result)
  unfolding pull_rounds
  pull_rounds-Steps zero q w result v = stays-Steps json host q w _
  pull_rounds-Steps (suc n) q w result v =
      and_then-Steps json host q w (pull_round json host q w result) _ v
        (pull_round-Steps q w result)
        (λ q' w' flow e v'.
          next_round-Steps (pull_rounds json host n) q' w' flow v'
            (λ q w result v. pull_rounds-Steps n q w result v))

  pub pull_rounds-IsValid :
      (n : ℕ) (q : ProtocolQueue V) (w : W) (result : ProtocolSyncCycleResult)
      → IsValid json q
      → IsValid json (pull_rounds json host n q w result).0
  unfolding Reaches
  pull_rounds-IsValid n q w result v = Steps-IsValid json host (pull_rounds-Steps n q w result v) v

  push_batch-Steps :
      (q : ProtocolQueue V) (w : W) (request : PushRequest V) (result : ProtocolSyncCycleResult)
      → IsValid json q
      → push_request q host.options.push_limit ≡ ok request
      → Arrives q w (push_batch json host q w request result)
  unfolding push_batch Reaches
  push_batch-Steps q w request result v sent =
      called-Steps json host transport q w (host.network.push w request) _
        (next here (pushed q w request sent))
        (λ w' response e.
          moved-Steps json host ProtocolSyncError.protocol q w'
            (acknowledge json q response request) _
            (λ q' e h. acknowledge_refused json q response request v h)
            (λ q' n h. confirmed q q' response request n h) (λ q' w' n h. here))

  pub push_batch-IsValid :
      (q : ProtocolQueue V) (w : W) (request : PushRequest V) (result : ProtocolSyncCycleResult)
      → IsValid json q
      → push_request q host.options.push_limit ≡ ok request
      → IsValid json (push_batch json host q w request result).0
  unfolding Reaches
  push_batch-IsValid q w request result v sent =
      Steps-IsValid json host (push_batch-Steps q w request result v sent) v

  push_batches-Steps :
      (n : ℕ) (q : ProtocolQueue V) (w : W) (result : ProtocolSyncCycleResult)
      → IsValid json q
      → Arrives q w (push_batches json host n q w result)
  unfolding push_batches Reaches
  push_batches-Steps zero q w result v = here
  push_batches-Steps (suc n) q w result v =
      called-Steps json host ProtocolSyncError.protocol q w
        (w, push_request q host.options.push_limit) _ here
        (λ w' request e.
          let sent : push_request q host.options.push_limit ≡ ok request = cc in
          elim (Bool-cases (length request.mutations == 0)) [
            | inl none_left ↦ rw none_left here
            | inr some_left ↦ rw some_left (
                and_then-Steps json host q w' (push_batch json host q w' request result) _ v
                  (push_batch-Steps q w' request result v sent)
                  (λ q' w' result e v'. push_batches-Steps n q' w' result v'))
          ])

  pub push_batches-IsValid :
      (n : ℕ) (q : ProtocolQueue V) (w : W) (result : ProtocolSyncCycleResult)
      → IsValid json q
      → IsValid json (push_batches json host n q w result).0
  unfolding Reaches
  push_batches-IsValid n q w result v =
      Steps-IsValid json host (push_batches-Steps n q w result v) v

  cycle-Reaches :
      (q : ProtocolQueue V) (w : W) → IsValid json q → Arrives q w (sync_cycle json host q w)
  unfolding sync_cycle pull_to_current
  cycle-Reaches q w v =
      let n = host.options.max_pull_pages_per_phase in
      and_then-Steps json host q w _ _ v (pull_rounds-Steps n q w (no_result q.checkpoint) v)
        (λ q w result e v.
          and_then-Steps json host q w _ _ v
            (push_batches-Steps host.options.max_push_batches_per_cycle q w result v)
            (λ q w result e v.
              and_then-Steps json host q w _ _ v
                (pull_rounds-Steps n q w (record result { has_more_pending = has_pending q }) v)
                (λ q w result e v. stays-Steps json host q w _)))

  -- From a well-formed queue every way out of a cycle, an error or a result, is reached by the
  -- steps of the driver alone: calls of the application that leave the queue, with checked pages
  -- and snapshots, and changes of the queue that its storage has kept.
  pub sync_cycle-Steps :
      (q : ProtocolQueue V) (w : W)
      → IsValid json q
      → Steps json host q w (sync_cycle json host q w).0 (sync_cycle json host q w).1
  unfolding Reaches
  sync_cycle-Steps q w v = cycle-Reaches q w v
