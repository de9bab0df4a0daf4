-- ===== src/Sync/Counts.antt =====
-- What the result of a cycle of clients/rust/src/protocol_sync.rs counts.
use opto_sync_clients.Base.{
  ltb, length-drop, drop-add, length-take, take, ◌<◌, ◌-◌, ◌==◌, length, drop, Result, Bool-cases,
  ℕ, zero, suc, ◌+◌, ◌*◌, ◌≡◌, refl, sym, ap, ◌∙◌, min, ok, arith, inl, inr,
}
use opto_sync_clients.Protocol.Types.{ProtocolError, Json, ProtocolQueue, PushRequest}
use opto_sync_clients.Protocol.Queue.{push_request, pending_of}
use opto_sync_clients.Sync.Types.{Host, ProtocolSyncCycleResult}
use opto_sync_clients.Sync.Driver.{
  no_result, has_pending, pull_to_current, sync_cycle, push_batches, push_batch, pull_rounds,
}
use opto_sync_clients.Sync.Runs.{pull_rounds-IsValid}
use opto_sync_clients.Sync.Success.{
  OnOk-ok, OnOk, ok-OnOk, OnOk-mono, and_then-OnOk, called-OnOk, queued-OnOk, persisted-OnOk,
}
use opto_sync_clients.Protocol.Acknowledge.{acknowledge}
use opto_sync_clients.Protocol.Wellformed.{IsValid}
use opto_sync_clients.Protocol.Acked.{acknowledge_confirms}
use opto_sync_clients.Protocol.AckSafety.{acknowledge-IsValid}
use opto_sync_clients.Protocol.Checks.{valid_push_limit}
use opto_sync_clients.Sync.Pulled.{pull_rounds-rows}

-- A batch and then `n` more, at `p` rows a batch.
batches_add : (l p n j m : ℕ) → j ≡ min p l → m ≡ l - j → j + min m (n * p) ≡ min l (suc n * p)
batches_add l p n j m e f = omega arith

module _ {V W T A P : Type 0} (json : Json V) (host : Host V W T A P) where
  -- A batch of `k` rows, and what is left of the pending rows.
  abbrev Pushed :
      ProtocolQueue V
      → ProtocolSyncCycleResult
      → ℕ
      → ProtocolQueue V
      → ProtocolSyncCycleResult
      → Type 0
  Pushed q result k q' r =
      (pending_of q'.mutations ≡ drop k (pending_of q.mutations))
      × (r.pushed_mutations ≡ result.pushed_mutations + k)
      × (r.acknowledged_mutations ≡ result.acknowledged_mutations + k)

  Pushed-trans :
      (q q' q'' : ProtocolQueue V) (r r' r'' : ProtocolSyncCycleResult) (j k n : ℕ)
      → Pushed q r j q' r'
      → Pushed q' r' k q'' r''
      → j + k ≡ n
      → Pushed q r n q'' r''
  Pushed-trans q q' q'' r r' r'' j k n (rows, pushed, acked) (rows', pushed', acked') e = (
    rows'
        ∙ ap (drop k) rows
        ∙ drop-add j k (pending_of q.mutations)
        ∙ ap (λ (i : ℕ). drop i (pending_of q.mutations)) e,
    omega arith,
    omega arith,
  )

  Pushed-none :
      (q : ProtocolQueue V) (r : ProtocolSyncCycleResult) (k : ℕ) → k ≡ 0 → Pushed q r k q r
  Pushed-none q r k e = rw e (refl, omega arith, omega arith)

  batch_lem :
      (q : ProtocolQueue V) (limit : ℕ) (request : PushRequest V)
      → push_request q limit ≡ ok request
      → (0 < limit) × (length request.mutations ≡ min limit (length (pending_of q.mutations)))
  unfolding push_request valid_push_limit
  batch_lem q limit request h =
      let batch : request.mutations ≡ take limit (pending_of q.mutations) = ground arith in
      (ground arith, ap length batch ∙ length-take limit (pending_of q.mutations))

  push_batch-rows :
      (q : ProtocolQueue V) (w : W) (request : PushRequest V) (result : ProtocolSyncCycleResult)
      → IsValid json q
      → OnOk
          (λ q' w' r. Pushed q result (length request.mutations) q' r × IsValid json q')
          (push_batch json host q w request result)
  unfolding push_batch
  push_batch-rows q w request result v =
      called-OnOk _ _ q (host.network.push w request) _ (λ w response e.
        queued-OnOk _ _ w (acknowledge json q response request) _ (λ q' n h.
          persisted-OnOk json host _ q q' w _ (λ w'.
            let (_, count, _, _, left) = acknowledge_confirms json q response request v h in
            let valid : IsValid json q' = rw h at (acknowledge-IsValid json q response request v) in
            ok-OnOk _ _ q' w' _ ((rw (sym count) left, refl, ground arith), valid))))

  -- The push loop sends the pending rows in order, a limit at a time, as long as batches are left.
  push_batches-rows :
      (n : ℕ) (q : ProtocolQueue V) (w : W) (result : ProtocolSyncCycleResult)
      → IsValid json q
      → OnOk
          (λ q' w' r.
            Pushed q result
              (min (length (pending_of q.mutations)) (n * host.options.push_limit))
              q'
              r)
          (push_batches json host n q w result)
  unfolding push_batches push_request
  push_batches-rows zero q w result v = ok-OnOk _ _ q w _ (Pushed-none q result _ (omega arith))
  push_batches-rows (suc n) q w result v =
      called-OnOk _ _ q (w, push_request q host.options.push_limit) _
        (λ w1 request e.
          let (some_limit, size) =
            batch_lem q host.options.push_limit request
              (ap (λ (r : W × Result (PushRequest V) ProtocolError). r.1) e) in
          let l = length (pending_of q.mutations) in
          elim (Bool-cases (length request.mutations == 0)) [
            | inl none_left ↦
                let gone : min l (suc n * host.options.push_limit) ≡ 0 = ground arith in
                rw none_left (ok-OnOk _ _ q w1 _ (Pushed-none q result _ gone))
            | inr some_left ↦ rw some_left (
                and_then-OnOk _ _ (push_batch json host q w1 request result) _
                  (push_batch-rows q w1 request result v)
                  (λ q' w' r e (pushed, valid).
                    OnOk-mono _ _ _
                      (λ q'' w'' r'' pushed'.
                        Pushed-trans q q' q'' result r r'' _ _ _ pushed pushed' (
                          batches_add l host.options.push_limit n (length request.mutations)
                            (length (pending_of q'.mutations)) size
                            (ap length pushed.0
                              ∙ length-drop (length request.mutations) (pending_of q.mutations))))
                      (push_batches-rows n q' w' r valid)))
          ])

  batches : ProtocolQueue V → ℕ
  batches q =
      min (length (pending_of q.mutations))
        (host.options.max_push_batches_per_cycle * host.options.push_limit)

  cycle-OnOk :
      (q : ProtocolQueue V) (w : W)
      → IsValid json q
      → OnOk
          (λ q' w' r.
            (pending_of q'.mutations ≡ drop (batches q) (pending_of q.mutations))
            × (r.pushed_mutations ≡ batches q)
            × (r.acknowledged_mutations ≡ batches q)
            × (r.has_more_pending ≡ has_pending q')
            × (r.checkpoint ≡ q'.checkpoint))
          (sync_cycle json host q w)
  unfolding sync_cycle pull_to_current batches
  cycle-OnOk q w v =
      let n = host.options.max_pull_pages_per_phase in
      let start = no_result q.checkpoint in
      and_then-OnOk _ _ (pull_rounds json host n q w start) _
        (pull_rounds-rows json host n q w start)
        (λ q1 w1 r1 e1 (rows1, pushes1).
          let valid : IsValid json q1 = rw e1 at (pull_rounds-IsValid json host n q w start v) in
          and_then-OnOk _ _
            (push_batches json host host.options.max_push_batches_per_cycle q1 w1 r1) _
            (push_batches-rows host.options.max_push_batches_per_cycle q1 w1 r1 valid)
            (λ q2 w2 r2 e2 pushed.
              let r3 : ProtocolSyncCycleResult = record r2 { has_more_pending = has_pending q2 } in
              and_then-OnOk _ _ (pull_rounds json host n q2 w2 r3) _
                (pull_rounds-rows json host n q2 w2 r3)
                (λ q3 w3 r4 e3 (rows3, pushes3).
                  let same : pending_of q1.mutations ≡ pending_of q.mutations =
                    ap pending_of rows1 in
                  let after : pending_of q3.mutations ≡ pending_of q2.mutations =
                    ap pending_of rows3 in
                  let sent : min (length (pending_of q1.mutations))
                        (host.options.max_push_batches_per_cycle * host.options.push_limit)
                      ≡ batches q =
                    rw same refl in
                  ok-OnOk _ _ q3 w3 _ (
                    after ∙ pushed.0 ∙ rw same refl,
                    omega arith,
                    omega arith,
                    rw rows3 pushes3.2,
                    refl,
                  ))))

  -- A cycle that succeeds on a well-formed queue reports as pushed, and as acknowledged, the number
  -- of the pending mutations or, where that is less, the number that its batches hold; that many of
  -- the first pending mutations, and no others, have left the pending ones. It reports whether more
  -- are pending, and the checkpoint of the queue.
  pub sync_cycle_counts :
      (q : ProtocolQueue V) (w : W) {q' : ProtocolQueue V} {w' : W} {r : ProtocolSyncCycleResult}
      → IsValid json q
      → sync_cycle json host q w ≡ (q', w', ok r)
      → (pending_of q'.mutations ≡ drop r.pushed_mutations (pending_of q.mutations))
        × (r.pushed_mutations
            ≡ min
                (length (pending_of q.mutations))
                (host.options.max_push_batches_per_cycle * host.options.push_limit))
        × (r.acknowledged_mutations ≡ r.pushed_mutations)
        × (r.has_more_pending ≡ ltb 0 (length (pending_of q'.mutations)))
        × (r.checkpoint ≡ q'.checkpoint)
  unfolding batches
  sync_cycle_counts q w v h =
      let (rows, pushed, acked, more, final) = OnOk-ok _ _ (cycle-OnOk q w v) h in
      (rw pushed rows, pushed, acked ∙ sym pushed, more ∙ ground arith, final)
