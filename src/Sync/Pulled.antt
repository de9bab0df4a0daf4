-- ===== src/Sync/Pulled.antt =====
-- What a pull phase of clients/rust/src/protocol_sync.rs leaves of the pushes.
use opto_sync_clients.Base.{
  Result, false, true, Bool-cases, text_eq, Bool, ℕ, zero, suc, ◌≡◌, refl, ok, err, arith, inl, inr,
}
use opto_sync_clients.Protocol.Types.{SnapshotInstallError, SnapshotResponse, Json, ProtocolQueue}
use opto_sync_clients.Protocol.Queue.{set_checkpoint}
use opto_sync_clients.Sync.Types.{
  ProtocolSyncError, Host, PullResponse, PullResult, changes, reset_required,
  ProtocolSyncCycleResult, ResetRequired,
}
use opto_sync_clients.Sync.Driver.{
  install_error, pull_arm, next_round, pull_rounds, pull_round, install, is_reset, reset_round,
  applied_count, page_flow, apply_page, page_round, Flow, done, again,
}
use opto_sync_clients.Sync.Success.{
  OnOk, ok-OnOk, err-OnOk, OnOk-mono, and_then-OnOk, called-OnOk, queued-OnOk, persisted-OnOk,
}
use opto_sync_clients.Sync.Moves.{set_checkpoint-eq}
use opto_sync_clients.Sync.Checks.{validate_snapshot, validate_pull_page}
use opto_sync_clients.Protocol.Acknowledge.{install_snapshot}
use opto_sync_clients.Protocol.Snapshot.{install_snapshot_installed}
use opto_sync_clients.Sync.Outcome.{called}

-- A pull phase leaves these as they were.
abbrev pub SameRows : {V : Type 0} → ProtocolQueue V → ProtocolQueue V → Type 0
SameRows q q' = q'.mutations ≡ q.mutations

abbrev pub SamePushes : ProtocolSyncCycleResult → ProtocolSyncCycleResult → Type 0
SamePushes r r' =
    (r'.pushed_mutations ≡ r.pushed_mutations)
    × (r'.acknowledged_mutations ≡ r.acknowledged_mutations)
    × (r'.has_more_pending ≡ r.has_more_pending)

abbrev result_of : Flow → ProtocolSyncCycleResult
result_of (done r) = r
result_of (again r) = r

module _ {V W T A P : Type 0} (json : Json V) (host : Host V W T A P) where
  -- A round of a pull phase.
  abbrev Pulled : ProtocolQueue V → ProtocolSyncCycleResult → ProtocolQueue V → W → Flow → Type 0
  Pulled q result q' w flow = SameRows q q' × SamePushes result (result_of flow)

  page_flow-OnOk :
      (q q' : ProtocolQueue V) (w : W) (has_more same : Bool) (result r : ProtocolSyncCycleResult)
      → SameRows q q'
      → SamePushes result r
      → OnOk (Pulled q result) (q', w, page_flow {T = T} {A = A} {P = P} has_more same r)
  unfolding OnOk
  page_flow-OnOk q q' w true true result r rows pushes = tt
  page_flow-OnOk q q' w true false result r rows pushes = (rows, pushes)
  page_flow-OnOk q q' w false same result r rows pushes = (rows, pushes)

  apply_page-pushes :
      (w : W) (page : PullResponse V) (result : ProtocolSyncCycleResult) {w' : W}
      {r : ProtocolSyncCycleResult}
      → apply_page json host w page result ≡ (w', ok r)
      → SamePushes result r
  unfolding apply_page applied_count
  apply_page-pushes w page result h = ground arith

  page_round-rows :
      (q : ProtocolQueue V) (w : W) (page : PullResponse V) (result : ProtocolSyncCycleResult)
      → OnOk (Pulled q result) (page_round json host q w page result)
  unfolding page_round
  page_round-rows q w page result =
      called-OnOk _ _ q (w, validate_pull_page json page q.checkpoint) _
        (λ w1 u e. called-OnOk _ _ q (apply_page json host w1 page result) _ (λ w r applied.
          queued-OnOk _ _ w (set_checkpoint q page.checkpoint) _ (λ q' u moved.
            persisted-OnOk json host _ q q' w _ (λ w'.
              let rows : SameRows q q' = rw (set_checkpoint-eq q q' page.checkpoint u moved) refl in
              page_flow-OnOk q q' w' page.has_more (text_eq page.checkpoint q.checkpoint) result r
                rows (apply_page-pushes w1 page result applied)))))

  install_snapshot-rows :
      (q : ProtocolQueue V) (w : W) (snapshot : SnapshotResponse V) {q' : ProtocolQueue V} {w' : W}
      → install_snapshot json q snapshot host.callbacks.replace_authoritative w ≡ (q', w', ok tt)
      → SameRows q q'
  install_snapshot-rows q w snapshot h =
      let (_, same, _, _) =
        install_snapshot_installed json q snapshot host.callbacks.replace_authoritative w h in
      rw same refl

  install-rows :
      (q : ProtocolQueue V) (w : W) (snapshot : SnapshotResponse V)
      (r : ProtocolQueue V × W × Result (Unit {0}) (SnapshotInstallError A))
      → install_snapshot json q snapshot host.callbacks.replace_authoritative w ≡ r
      → OnOk {E = ProtocolSyncError T A P}
          (λ q' w' (u : Unit {0}). SameRows q q')
          (called install_error r.0 (r.1, r.2))
  unfolding OnOk
  install-rows q w snapshot (q', w', ok u) e = install_snapshot-rows q w snapshot e
  install-rows q w snapshot (q', w', err x) e = tt

  reset_round-rows :
      (q : ProtocolQueue V) (w : W) (r : ResetRequired) (result : ProtocolSyncCycleResult)
      → OnOk (Pulled q result) (reset_round json host q w r result)
  unfolding reset_round install
  reset_round-rows q w r result = elim (Bool-cases (is_reset r)) [
    | inr other ↦ rw other (err-OnOk _ q w _)
    | inl right ↦ rw right (
        called-OnOk _ _ q (host.network.snapshot w r) _ (λ w snapshot e.
          called-OnOk _ _ q (w, validate_snapshot json snapshot q.checkpoint) _
            (λ w u checked.
              and_then-OnOk _ (λ q' w' u. SameRows q q') (install json host q w snapshot) _
                (install-rows q w snapshot
                  (install_snapshot json q snapshot host.callbacks.replace_authoritative w) refl)
                (λ q' w' u e rows.
                  persisted-OnOk json host _ q q' w' _
                    (λ w'. ok-OnOk _ _ q' w' _ (rows, (refl, refl, refl)))))))
  ]

  pull_round-rows :
      (q : ProtocolQueue V) (w : W) (result : ProtocolSyncCycleResult)
      → OnOk (Pulled q result) (pull_round json host q w result)
  unfolding pull_round pull_arm
  pull_round-rows q w result =
      called-OnOk _ _ q (host.network.pull w q.checkpoint host.options.pull_limit) _
        (λ w r e. arm w r)
    where
      arm : (w : W) (r : PullResult V) → OnOk (Pulled q result) (pull_arm json host q w r result)
      arm w (changes page) = page_round-rows q w page result
      arm w (reset_required r) = reset_round-rows q w r result

  -- A whole pull phase.
  abbrev pub Phase :
      ProtocolQueue V
      → ProtocolSyncCycleResult
      → ProtocolQueue V
      → W
      → ProtocolSyncCycleResult
      → Type 0
  Phase q result q' w r = SameRows q q' × SamePushes result r

  Phase-trans :
      (q q' q'' : ProtocolQueue V) (w' w'' : W) (r r' r'' : ProtocolSyncCycleResult)
      → Phase q r q' w' r'
      → Phase q' r' q'' w'' r''
      → Phase q r q'' w'' r''
  Phase-trans q q' q'' w' w'' r r' r'' h k = ground arith

  pub pull_rounds-rows :
      (n : ℕ) (q : ProtocolQueue V) (w : W) (result : ProtocolSyncCycleResult)
      → OnOk (Phase q result) (pull_rounds json host n q w result)
  unfolding pull_rounds
  pull_rounds-rows zero q w result = err-OnOk _ q w _
  pull_rounds-rows (suc n) q w result =
      and_then-OnOk _ (Pulled q result) (pull_round json host q w result) _
        (pull_round-rows q w result)
        (λ q' w' flow e h. rest q' w' (λ r. pull_rounds-rows n q' w' r) flow h)
    where
      rest :
          (q' : ProtocolQueue V) (w' : W)
          → ((r : ProtocolSyncCycleResult) → OnOk (Phase q' r) (pull_rounds json host n q' w' r))
          → (flow : Flow) → Pulled q result q' w' flow
          → OnOk (Phase q result) (next_round (pull_rounds json host n) q' w' flow)
      rest q' w' k (done r) h = ok-OnOk _ _ q' w' _ h
      rest q' w' k (again r) h =
          OnOk-mono _ _ _ (λ q'' w'' r'' h'. Phase-trans q q' q'' w' w'' result r r'' h h') (k r)
