-- ===== src/Desktop/Rounds.antt =====
-- What `run_once` of clients/desktop-rust/src/lib.rs does, on every exit.
use opto_sync_clients.Base.{
  ◌≤◌, u64_mod, ◌<◌, ◌+◌, ok, subst, ℕ, ◌≡◌, inl, inr, refl, ap, ◌∙◌, is_empty, ltb, length, ◌||◌,
  saturating_add, true, false, Option, none, some, List, Text, arith, Bool-cases, if◌then◌else◌,
}
use opto_sync_clients.Desktop.Lifecycle.{
  releasing, acquiring, SyncLifecycleSnapshot, initial, is_valid, proposed, settle, transition,
  apply,
}
use opto_sync_clients.Desktop.Leases.{DesktopLeaseGrant}
use opto_sync_clients.Desktop.Runner.{
  new_runner, release_result, release_failed, release_poisoned, dropped, Exit, released, locked,
  context, normalized, with_grant, store_failed, lease_request, apply_lifecycle, durable_lease,
  store_poisoned, bad_token, busy, attempt, drop_guard, guarded, after_release, returned,
  invalid_configuration, after_acquire, outcome, completed, failed, raised, panicked, out_of_range,
  DesktopRunnerError, DesktopSyncOutcome, DesktopReleaseError, DesktopWakeReason, Ended,
  DesktopSyncContext, Shared, LeaseStore, DesktopSyncRunner, run_once,
}

-- The machine as it is between two runs.
pub record IsRested (r : DesktopSyncRunner) : Type 0 where
  pub machine : r.machine ≡ initial
  pub free : r.in_process ≡ false
  pub sound : r.machine_poisoned ≡ false

-- `r` at rest, and the machine while it acquires and while it releases.
abbrev rest : DesktopSyncRunner → DesktopSyncRunner
rest r = record r { machine = initial; in_process = false; machine_poisoned = false }

abbrev during : DesktopSyncRunner → SyncLifecycleSnapshot → DesktopSyncRunner
during r machine = record r { machine = machine; in_process = true; machine_poisoned = false }

abbrev resting :
    {S A C E : Type 0}
    → DesktopSyncRunner
    → Shared S × Ended (DesktopSyncOutcome A C E) (DesktopRunnerError E)
    → Exit S A C E
resting r (shared, result) = (rest r, shared, result)

abbrev acquiring_machine : SyncLifecycleSnapshot
acquiring_machine = record initial { phase = acquiring }

abbrev releasing_machine : SyncLifecycleSnapshot
releasing_machine = record initial { phase = releasing; permit_held = true }

module _ {S E A C : Type 0} (calls : LeaseStore S E)
    (cycle : Shared S → DesktopSyncContext → Shared S × Ended A C) where
  ended :
      List DesktopWakeReason
      → Text
      → Ended A C
      → Shared S × Option (Option (DesktopReleaseError E))
      → Shared S × Ended (DesktopSyncOutcome A C E) (DesktopRunnerError E)
  ended reasons fence cycle_result (shared, none) = (shared, panicked)
  ended reasons fence panicked (shared, some release_error) = (shared, panicked)
  ended reasons fence (returned a) (shared, some release_error) =
      (shared, returned (completed a reasons fence release_error))
  ended reasons fence (raised c) (shared, some release_error) =
      (shared, returned (failed c reasons fence release_error))

  -- The grant is handed to the store's `release`, unless its mutex is poisoned; a panic of
  -- `release` poisons it.
  handed_back : S × Ended (Unit {0}) E → Shared S × Option (Option (DesktopReleaseError E))
  handed_back (store, returned u) = (record { store = store; poisoned = false }, some none)
  handed_back (store, raised e) =
      (record { store = store; poisoned = false }, some (some (release_failed e)))
  handed_back (store, panicked) = (record { store = store; poisoned = true }, none)

  given_back : Shared S → DesktopLeaseGrant → Shared S × Option (Option (DesktopReleaseError E))
  unfolding handed_back
  given_back shared grant = elim shared.poisoned [
    | true ↦ (shared, some (some release_poisoned))
    | false ↦ handed_back (calls.release_in shared.store grant)
  ]

  handed_lem : (done : S × Ended (Unit {0}) E) → release_result (locked done) ≡ handed_back done
  unfolding handed_back
  handed_lem (store, returned u) = refl
  handed_lem (store, raised e) = refl
  handed_lem (store, panicked) = refl

  given_lem :
      (shared : Shared S) (grant : DesktopLeaseGrant)
      → released calls cycle shared grant ≡ given_back shared grant
  unfolding released given_back
  given_lem shared grant = elim (Bool-cases shared.poisoned) [
    | inl gone ↦ rw gone refl
    | inr there ↦ rw there (handed_lem (calls.release_in shared.store grant))
  ]

  drained :
      DesktopSyncRunner
      → List DesktopWakeReason
      → ℕ
      → S × Ended (Option DesktopLeaseGrant) E
      → Shared S × Ended (DesktopSyncOutcome A C E) (DesktopRunnerError E)
  unfolding ended given_back
  drained r reasons now_ms (store, returned none) =
      (record { store = store; poisoned = false }, returned (busy durable_lease reasons))
  drained r reasons now_ms (store, raised e) =
      (record { store = store; poisoned = false }, raised (store_failed e))
  drained r reasons now_ms (store, panicked) = (record { store = store; poisoned = true }, panicked)
  drained r reasons now_ms (store, returned (some grant)) =
      let (after, result) =
        cycle (record { store = store; poisoned = false })
          (record {
            reasons = reasons;
            owner_id = r.owner_id;
            lease_key = r.lease_key;
            fence = grant.fence;
            deadline_ms = saturating_add now_ms r.cycle_budget_ms;
          }) in
      ended reasons grant.fence result (given_back after grant)

  -- A run as the host sees it, without the lifecycle: ask for the lease; when it is granted run the
  -- cycle once, with the wake reasons sorted and each once, and give that very grant back, however
  -- the cycle ended.
  unfoldable pub bare_run :
      DesktopSyncRunner
      → List DesktopWakeReason
      → ℕ
      → Text
      → Shared S
      → Shared S × Ended (DesktopSyncOutcome A C E) (DesktopRunnerError E)
  unfolding drained
  bare_run r reasons now_ms token shared =
      if is_empty token || ltb 512 (length token)
      then (shared, raised (invalid_configuration bad_token))
      else if shared.poisoned
      then (shared, raised store_poisoned)
      else drained r (normalized reasons) now_ms (
          calls.acquire_in shared.store (record {
            key = r.lease_key;
            owner_id = r.owner_id;
            token = token;
            now_ms = now_ms;
            expires_at_ms = saturating_add now_ms r.lease_ttl_ms;
          }))

  ended_run :
      (r : DesktopSyncRunner) (reasons : List DesktopWakeReason) (fence : Text) (result : Ended A C)
      (after : Shared S × Option (Option (DesktopReleaseError E)))
      → dropped (after_release (during r releasing_machine) reasons fence result after)
        ≡ resting r (ended reasons fence result after)
  unfolding after_release ended outcome drop_guard apply transition is_valid proposed settle
      apply_lifecycle
  ended_run r reasons fence result (shared, none) = refl
  ended_run r reasons fence (returned a) (shared, some release_error) = refl
  ended_run r reasons fence (raised c) (shared, some release_error) = refl
  ended_run r reasons fence panicked (shared, some release_error) = refl

  drained_run :
      (r : DesktopSyncRunner) (reasons : List DesktopWakeReason) (now_ms : ℕ)
      (asked : S × Ended (Option DesktopLeaseGrant) E)
      → dropped
          (after_acquire calls cycle (during r acquiring_machine) reasons now_ms (locked asked))
        ≡ resting r (drained r reasons now_ms asked)
  unfolding after_acquire drained drop_guard apply transition is_valid proposed settle
      apply_lifecycle with_grant context
  drained_run r reasons now_ms (store, returned none) = refl
  drained_run r reasons now_ms (store, raised e) = refl
  drained_run r reasons now_ms (store, panicked) = refl
  drained_run r reasons now_ms (store, returned (some grant)) =
      let (after, result) =
        cycle (record { store = store; poisoned = false }) (context r reasons now_ms grant.fence) in
      ended_run r reasons grant.fence result (released calls cycle after grant)
      ∙ ap
          (λ (done : Shared S × Option (Option (DesktopReleaseError E))).
            resting r (ended reasons grant.fence result done))
          (given_lem after grant)

  bare_lem :
      (r : DesktopSyncRunner) (reasons : List DesktopWakeReason) (now_ms : ℕ) (token : Text)
      (shared : Shared S)
      → run_once calls cycle (rest r) reasons now_ms token shared
        ≡ resting r (bare_run r reasons now_ms token shared)
  unfolding run_once guarded attempt drop_guard apply transition is_valid proposed settle
      apply_lifecycle bare_run lease_request
  bare_lem r reasons now_ms token shared = elim (Bool-cases (out_of_range token)) [
    | inl bad ↦ rw (bad) refl
    | inr good ↦ elim (Bool-cases shared.poisoned) [
      | inl gone ↦ rw (good, gone) refl
      | inr there ↦
          rw (good, there)
            (drained_run r (normalized reasons) now_ms
              (calls.acquire_in shared.store (lease_request r now_ms token)))
    ]
  ]

  -- A rested runner does what `bare_run` says, which asks for the lease, runs the cycle once, with
  -- the normalised wake reasons, when it is granted, and gives that grant back, unless the store's
  -- mutex is poisoned; and it is as before when it ends, whether the lease
  -- was granted or not, the cycle or the store failed or panicked: no lifecycle error ever
  -- surfaces.
  pub run_once_lem :
      (r : DesktopSyncRunner) (reasons : List DesktopWakeReason) (now_ms : ℕ) (token : Text)
      (shared : Shared S)
      → IsRested r
      → run_once calls cycle r reasons now_ms token shared ≡ (
        r,
        (bare_run r reasons now_ms token shared).0,
        (bare_run r reasons now_ms token shared).1,
      )
  run_once_lem r reasons now_ms token shared rested =
      let same : rest r ≡ r = ground (arith, rested.machine, rested.free, rested.sound) in
      subst
        (λ q. run_once calls cycle q reasons now_ms token shared ≡ (
          q,
          (bare_run r reasons now_ms token shared).0,
          (bare_run r reasons now_ms token shared).1,
        ))
        same (bare_lem r reasons now_ms token shared)

-- A runner that was made has a lease that outlives its cycle: short of the end of the clock, the
-- lease it asks for expires at least a second after the deadline that it sets the cycle.
pub lease_covers_cycle :
    (lease_key owner_id : Text) (budget ttl now_ms : ℕ) (reasons : List DesktopWakeReason)
    (token fence : Text) {r : DesktopSyncRunner}
    → new_runner lease_key owner_id budget ttl ≡ ok r
    → now_ms + ttl < u64_mod
    → (context r reasons now_ms fence).deadline_ms + 1000
      ≤ (lease_request r now_ms token).expires_at_ms
unfolding new_runner context lease_request
lease_covers_cycle lease_key owner_id budget ttl now_ms reasons token fence made fits = ground arith

pub new_runner-IsRested :
    (lease_key owner_id : Text) (budget ttl : ℕ) {r : DesktopSyncRunner}
    → new_runner lease_key owner_id budget ttl ≡ ok r
    → IsRested r
unfolding new_runner
new_runner-IsRested lease_key owner_id budget ttl made = ground arith
