-- ===== src/Sync/Converges.antt =====
-- A cycle of clients/rust/src/protocol_sync.rs against a server that answers.
use opto_sync_clients.Base.{
  ◌∙◌, ◌∷◌, ◌*◌, [], ◌≤◌, drop, take, ℕ, zero, suc, ◌<◌, ◌≡◌, refl, ap, true, false, List, Text,
  Result, ok, length, arith, inl, inr, Bool-cases, ◌==◌,
}
use opto_sync_clients.Protocol.Types.{Json, ProtocolQueue, PushRequest, PushResponse, ProtocolError}
use opto_sync_clients.Protocol.Queue.{push_request, pending_of, set_checkpoint}
use opto_sync_clients.Protocol.Wellformed.{IsValid}
use opto_sync_clients.Protocol.Progress.{IsReply, acknowledge_iff}
use opto_sync_clients.Protocol.Snapshot.{set_checkpoint_lem}
use opto_sync_clients.Sync.Types.{
  persistence, Change, PullResponse, changes, Host, ProtocolSyncCycleResult, ProtocolSyncError,
}
use opto_sync_clients.Sync.Checks.{validate, validate_pull_page}
use opto_sync_clients.Sync.Outcome.{or_restore, Outcome, and_then}
use opto_sync_clients.Sync.Driver.{
  has_pending, no_result, pull_to_current, sync_cycle, push_batch, push_batches, pull_rounds,
  count_changes, page_round, applied_count, pull_arm, apply_page, persist_or_restore, pull_round,
  done,
}
use opto_sync_clients.Sync.Steps.{parse_decimal-some}
use opto_sync_clients.Sync.Pages.{validate_pull_page_iff}
use opto_sync_clients.Protocol.Acknowledge.{acknowledge}
use opto_sync_clients.Protocol.Checks.{valid_push_limit}
use opto_sync_clients.Sync.Runs.{pull_rounds-IsValid, push_batch-IsValid}
use opto_sync_clients.Sync.Counts.{sync_cycle_counts}
use opto_sync_clients.Sync.Succeeds.{
  Succeeds, result-Succeeds, Succeeds-ok, and_then-Succeeds, called-Succeeds, queued-Succeeds,
}

-- `ready` says at which checkpoints the server can serve a client. It then has one more page and
-- answers each batch, the application and the storage do not fail, and it stays so.
pub record IsServed {V W T A P : Type 0} (json : Json V) (host : Host V W T A P)
    (ready : Text → W → Type 0) : Type 0 where
  pub pulls :
      (w : W) (c : Text)
      → ready c w
      → (w' : W) × (page : PullResponse V) × (host.network.pull w c host.options.pull_limit
          ≡ (w', ok (changes page)))
        × (page.has_more ≡ false)
        × (validate_pull_page json page c ≡ ok tt)
        × ready page.checkpoint w'
  pub pushes :
      (w : W) (c : Text) (request : PushRequest V)
      → ready c w
      → 0 < length request.mutations
      → (w' : W) × (response : PushResponse) × (host.network.push w request ≡ (w', ok response))
        × IsReply request response
        × ready c w'
  pub applies :
      (w : W) (c : Text) (cs : List (Change V))
      → ready c w
      → (w' : W) × (host.callbacks.apply_changes w cs ≡ (w', ok tt)) × ready c w'
  pub persists :
      (w : W) (c : Text) (q : ProtocolQueue V)
      → ready c w
      → (w' : W) × (host.storage.persist w q ≡ (w', ok tt)) × ready c w'

drop_all {ℓ} : {A : Type ℓ} (xs : List A) → drop (length xs) xs ≡ []
drop_all [] = refl
drop_all (x ∷ xs) = drop_all xs

module _ {V W T A P : Type 0} (json : Json V) (host : Host V W T A P) (ready : Text → W → Type 0)
    (s : IsServed json host ready) where
  abbrev IsReady : ProtocolQueue V → W → Type 0
  IsReady q w = ready q.checkpoint w

  saved :
      (prior q : ProtocolQueue V) (w w' : W)
      → host.storage.persist w q ≡ (w', ok tt)
      → persist_or_restore json host prior q w ≡ (q, w', ok tt)
  unfolding persist_or_restore
  saved prior q w w' e =
      ap (λ (r : W × Result (Unit {0}) P). or_restore persistence prior (r.0, q, r.1)) e

  saved-Succeeds :
      {C : Type 0} (prior q : ProtocolQueue V) (w w' : W)
      (rest : ProtocolQueue V → W → Unit {0} → Outcome V W (ProtocolSyncError T A P) C)
      → host.storage.persist w q ≡ (w', ok tt)
      → Succeeds IsReady (rest q w' tt)
      → Succeeds IsReady (and_then (persist_or_restore json host prior q w) rest)
  saved-Succeeds prior q w w' rest e k = rw (saved prior q w w' e) k

  persisted-Succeeds :
      {C : Type 0} (prior q : ProtocolQueue V) (w : W)
      (rest : ProtocolQueue V → W → Unit {0} → Outcome V W (ProtocolSyncError T A P) C)
      → IsReady q w
      → ((w' : W) → IsReady q w' → Succeeds IsReady (rest q w' tt))
      → Succeeds IsReady (and_then (persist_or_restore json host prior q w) rest)
  persisted-Succeeds prior q w rest h k =
      let (w', e, h') = s.persists w q.checkpoint q h in
      saved-Succeeds prior q w w' rest e (k w' h')

  applied_page :
      (w : W) (c : Text) (page : PullResponse V) (result : ProtocolSyncCycleResult)
      → ready c w
      → (w' : W) × (r : ProtocolSyncCycleResult) × (apply_page json host w page result ≡ (w', ok r))
        × ready c w'
  unfolding apply_page applied_count
  applied_page w c page result h = elim (Bool-cases (length page.changes == 0)) [
    | inl none_in ↦ (w, result, rw none_in refl, h)
    | inr some_in ↦
        let (w', e, h') = s.applies w c page.changes h in
        (w', count_changes (length page.changes) result, rw (some_in, e) refl, h')
  ]

  page_moves :
      (q : ProtocolQueue V) (page : PullResponse V)
      → validate_pull_page json page q.checkpoint ≡ ok tt
      → set_checkpoint q page.checkpoint ≡ (record q { checkpoint = page.checkpoint }, ok tt)
  page_moves q page valid =
      let (_, lo, _, hi, named, _, _) = (validate_pull_page_iff json page q.checkpoint).0 valid in
      let known = parse_decimal-some page.checkpoint hi named in
      elim (set_checkpoint_lem json q page.checkpoint) [ inl (_, e) ↦ e | inr (x, bad, _) ↦ cc ]

  round_of :
      (q : ProtocolQueue V) (result r : ProtocolSyncCycleResult) (page : PullResponse V)
      (w w1 w2 w3 : W)
      → host.network.pull w q.checkpoint host.options.pull_limit ≡ (w1, ok (changes page))
      → validate_pull_page json page q.checkpoint ≡ ok tt
      → apply_page json host w1 page result ≡ (w2, ok r)
      → host.storage.persist w2 (record q { checkpoint = page.checkpoint }) ≡ (w3, ok tt)
      → page.has_more ≡ false
      → pull_round json host q w result
        ≡ (record q { checkpoint = page.checkpoint }, w3, ok (done r))
  unfolding pull_round pull_arm page_round
  round_of q result r page w w1 w2 w3 pulled valid applied kept last =
      let moved : ProtocolQueue V = record q { checkpoint = page.checkpoint } in
      rw
        (
          pulled,
          pull_arm,
          page_round,
          valid,
          applied,
          page_moves q page valid,
          saved q moved w2 w3 kept,
          last,
        )
        refl

  -- A pull phase takes one round.
  round_done :
      (q : ProtocolQueue V) (w : W) (result : ProtocolSyncCycleResult)
      → IsReady q w
      → (q' : ProtocolQueue V) × (w' : W) × (r : ProtocolSyncCycleResult) × (pull_round json host q
            w result
          ≡ (q', w', ok (done r)))
        × IsReady q' w'
  round_done q w result h =
      let (w1, page, pulled, last, valid, h1) = s.pulls w q.checkpoint h in
      let (w2, r, applied, h2) = applied_page w1 page.checkpoint page result h1 in
      let moved : ProtocolQueue V = record q { checkpoint = page.checkpoint } in
      let (w3, saved, h3) = s.persists w2 page.checkpoint moved h2 in
      (moved, w3, r, round_of q result r page w w1 w2 w3 pulled valid applied saved last, h3)

  phase_done :
      (n : ℕ) (q : ProtocolQueue V) (w : W) (result : ProtocolSyncCycleResult)
      → IsReady q w
      → 0 < n
      → Succeeds IsReady (pull_rounds json host n q w result)
  unfolding pull_rounds
  phase_done zero q w result h l = absurd (omega arith)
  phase_done (suc n) q w result h l =
      let (q', w', r, e, h') = round_done q w result h in
      rw e (result-Succeeds IsReady q' w' (ok r) refl h')

  batch_done :
      (q : ProtocolQueue V) (w : W) (request : PushRequest V) (result : ProtocolSyncCycleResult)
      → IsValid json q
      → push_request q host.options.push_limit ≡ ok request
      → 0 < length request.mutations
      → IsReady q w
      → Succeeds IsReady (push_batch json host q w request result)
  unfolding push_batch
  batch_done q w request result v sent some_left h =
      let (w1, reply, pushed, answers, h1) = s.pushes w q.checkpoint request h some_left in
      let taken =
        (acknowledge_iff json q host.options.push_limit reply v sent some_left).1 answers in
      called-Succeeds IsReady _ q (host.network.push w request) _ w1 reply pushed (
        queued-Succeeds IsReady _ w1 (acknowledge json q reply request) _ _ _ taken
          (persisted-Succeeds q _ w1 _ h1 (λ w' h2. result-Succeeds IsReady _ w' _ refl h2)))

  batches_done :
      (n : ℕ) (q : ProtocolQueue V) (w : W) (result : ProtocolSyncCycleResult)
      → IsValid json q
      → valid_push_limit host.options.push_limit ≡ true
      → IsReady q w
      → Succeeds IsReady (push_batches json host n q w result)
  unfolding push_batches
  batches_done zero q w result v h i = result-Succeeds IsReady q w _ refl i
  batches_done (suc n) q w result v h i =
      let request : PushRequest V = record {
        protocol_version = 1;
        client_id = q.client_id;
        mutations = take host.options.push_limit (pending_of q.mutations);
      } in
      let sent : push_request q host.options.push_limit ≡ ok request =
        unfold push_request in rw h refl in
      called-Succeeds IsReady _ q (w, push_request q host.options.push_limit) _ w request
        (ap (λ (r : Result (PushRequest V) ProtocolError). (w, r)) sent)
        (elim (Bool-cases (length request.mutations == 0)) [
          | inl none_left ↦ rw none_left (result-Succeeds IsReady q w _ refl i)
          | inr some_left ↦ rw some_left (
              and_then-Succeeds IsReady (push_batch json host q w request result) _
                (batch_done q w request result v sent (ground arith) i)
                (λ q' w' r e i'.
                  batches_done n q' w' r
                    (rw e at (push_batch-IsValid json host q w request result v sent)) h i'))
        ])

  cycle_done :
      (q : ProtocolQueue V) (w : W)
      → IsValid json q
      → validate host.options ≡ ok host.options
      → IsReady q w
      → Succeeds IsReady (sync_cycle json host q w)
  unfolding sync_cycle pull_to_current validate valid_push_limit
  cycle_done q w v h i =
      let n = host.options.max_pull_pages_per_phase in
      let some_page : 0 < n = ground arith in
      let limit : valid_push_limit host.options.push_limit ≡ true = ground arith in
      and_then-Succeeds IsReady (pull_rounds json host n q w (no_result q.checkpoint)) _
        (phase_done n q w _ i some_page)
        (λ q1 w1 r1 e1 i1.
          let v1 : IsValid json q1 =
            rw e1 at (pull_rounds-IsValid json host n q w (no_result q.checkpoint) v) in
          let b = host.options.max_push_batches_per_cycle in
          and_then-Succeeds IsReady (push_batches json host b q1 w1 r1) _
            (batches_done b q1 w1 r1 v1 limit i1)
            (λ q2 w2 r2 e2 i2.
              let r3 : ProtocolSyncCycleResult = record r2 { has_more_pending = has_pending q2 } in
              and_then-Succeeds IsReady (pull_rounds json host n q2 w2 r3) _
                (phase_done n q2 w2 r3 i2 some_page)
                (λ q3 w3 r4 e4 i3. result-Succeeds IsReady q3 w3 _ refl i3)))

  -- A cycle of a driver whose options are valid succeeds on every well-formed queue at a checkpoint
  -- that the server can serve, when its batches can hold all the pending mutations: it confirms
  -- them all and reports that no more are pending. The server has one last valid page for such a
  -- client and answers each batch, with results of any status, checkpoint and revision that the
  -- protocol allows; the application and the storage do not fail.
  pub sync_cycle_converges :
      (q : ProtocolQueue V) (w : W)
      → IsValid json q
      → validate host.options ≡ ok host.options
      → ready q.checkpoint w
      → length (pending_of q.mutations)
        ≤ host.options.max_push_batches_per_cycle * host.options.push_limit
      → (q' : ProtocolQueue V) × (w' : W) × (r : ProtocolSyncCycleResult) × (sync_cycle json host q
            w
          ≡ (q', w', ok r))
        × (r.pushed_mutations ≡ length (pending_of q.mutations))
        × (pending_of q'.mutations ≡ [])
        × (r.has_more_pending ≡ false)
  sync_cycle_converges q w v h i fits =
      let (q', w', r, e, _) =
        Succeeds-ok IsReady (sync_cycle json host q w) (cycle_done q w v h i) in
      let (left, pushed, _, more, _) = sync_cycle_counts json host q w v e in
      let all_of : r.pushed_mutations ≡ length (pending_of q.mutations) = omega arith in
      let gone : pending_of q'.mutations ≡ [] =
        left
        ∙ ap (λ (n : ℕ). drop n (pending_of q.mutations)) all_of
        ∙ drop_all (pending_of q.mutations) in
      (q', w', r, e, all_of, gone, more ∙ rw gone refl)
