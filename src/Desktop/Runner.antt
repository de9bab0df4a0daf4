-- ===== src/Desktop/Runner.antt =====
-- `DesktopSyncRunner` of clients/desktop-rust/src/lib.rs. The lease store is the parameter `S` with
-- its two calls, shared behind a mutex that a panic in a call poisons; the cycle is a parameter as
-- well, and may change the shared store. A panic is a result, and `Drop` runs on every exit.
use opto_sync_clients.Base.{
  ℕ, Bool, true, false, ◌||◌, Option, none, some, List, [], ◌∷◌, ltb, leb, ◌==◌, if◌then◌else◌,
  Text, is_empty, length, saturating_add, Result, ok, err,
}
use opto_sync_clients.Desktop.Lifecycle.{
  SyncLifecycleSnapshot, SyncLifecycleEvent, Applied, moved, undefined_transition, assertion_failed,
  apply, initial, is_active, wake, begin_acquire, acquire_granted, acquire_deferred, cycle_settled,
  release_settled, process_abort,
}
use opto_sync_clients.Desktop.Leases.{DesktopLeaseRequest, DesktopLeaseGrant}

pub data DesktopWakeReason : Type 0 where
  process_start local_mutation remote_change connectivity resume app_update manual :
      DesktopWakeReason

-- The derived order.
abbrev pub rank : DesktopWakeReason → ℕ
rank process_start = 0
rank local_mutation = 1
rank remote_change = 2
rank connectivity = 3
rank resume = 4
rank app_update = 5
rank manual = 6

unfoldable pub insert_reason : DesktopWakeReason → List DesktopWakeReason → List DesktopWakeReason
insert_reason r [] = r ∷ []
insert_reason r (s ∷ rs) =
    let rest = insert_reason r rs in if leb (rank r) (rank s) then r ∷ s ∷ rs else s ∷ rest

-- `sort_unstable`; equal reasons are the same value.
unfoldable pub sort_reasons : List DesktopWakeReason → List DesktopWakeReason
sort_reasons [] = []
sort_reasons (r ∷ rs) = insert_reason r (sort_reasons rs)

-- `dedup` removes neighbours that are equal.
unfoldable pub dedup : List DesktopWakeReason → List DesktopWakeReason
dedup [] = []
dedup (r ∷ []) = r ∷ []
dedup (r ∷ s ∷ rs) = let rest = dedup (s ∷ rs) in if rank r == rank s then rest else r ∷ rest

unfoldable pub or_manual : List DesktopWakeReason → List DesktopWakeReason
or_manual [] = manual ∷ []
or_manual (r ∷ rs) = r ∷ rs

unfoldable pub normalized : List DesktopWakeReason → List DesktopWakeReason
unfolding or_manual
normalized reasons = or_manual (dedup (sort_reasons reasons))

pub record DesktopSyncContext : Type 0 where
  pub reasons : List DesktopWakeReason
  pub owner_id : Text
  pub lease_key : Text
  pub fence : Text
  pub deadline_ms : ℕ

pub data DesktopBusyReason : Type 0 where
  in_process_run durable_lease : DesktopBusyReason

pub data DesktopReleaseError (E : Type 0) : Type 0 where
  release_failed : E → DesktopReleaseError E
  release_poisoned : DesktopReleaseError E

pub data DesktopSyncOutcome (A C E : Type 0) : Type 0 where
  busy : DesktopBusyReason → List DesktopWakeReason → DesktopSyncOutcome A C E
  completed :
      A → List DesktopWakeReason → Text → Option (DesktopReleaseError E) → DesktopSyncOutcome A C E
  failed :
      C → List DesktopWakeReason → Text → Option (DesktopReleaseError E) → DesktopSyncOutcome A C E

pub data InvalidConfiguration : Type 0 where
  bad_lease_key bad_owner_id bad_cycle_budget bad_lease_ttl bad_token : InvalidConfiguration

pub data DesktopRunnerError (E : Type 0) : Type 0 where
  invalid_configuration : InvalidConfiguration → DesktopRunnerError E
  lifecycle : SyncLifecycleSnapshot → SyncLifecycleEvent → DesktopRunnerError E
  lifecycle_poisoned : DesktopRunnerError E
  store_failed : E → DesktopRunnerError E
  store_poisoned : DesktopRunnerError E

-- How a call ends: with a value, an error or a panic.
pub data Ended (A E : Type 0) : Type 0 where
  returned : A → Ended A E
  raised : E → Ended A E
  panicked : Ended A E

-- The store behind its mutex.
pub record Shared (S : Type 0) : Type 0 where
  pub store : S
  pub poisoned : Bool

pub record LeaseStore (S E : Type 0) : Type 0 where
  pub acquire_in : S → DesktopLeaseRequest → S × Ended (Option DesktopLeaseGrant) E
  pub release_in : S → DesktopLeaseGrant → S × Ended (Unit {0}) E

pub record DesktopSyncRunner : Type 0 where
  pub lease_key : Text
  pub owner_id : Text
  pub cycle_budget_ms : ℕ
  pub lease_ttl_ms : ℕ
  pub in_process : Bool
  pub machine : SyncLifecycleSnapshot
  pub machine_poisoned : Bool

abbrev pub out_of_range : Text → Bool
out_of_range t = is_empty t || ltb 512 (length t)

unfoldable pub new_runner : Text → Text → ℕ → ℕ → Result DesktopSyncRunner InvalidConfiguration
new_runner lease_key owner_id cycle_budget_ms lease_ttl_ms =
    if out_of_range lease_key
    then err bad_lease_key
    else if out_of_range owner_id
    then err bad_owner_id
    else if ltb cycle_budget_ms 1000 || ltb 600000 cycle_budget_ms
    then err bad_cycle_budget
    else if ltb lease_ttl_ms (saturating_add cycle_budget_ms 1000) || ltb 900000 lease_ttl_ms
    then err bad_lease_ttl
    else ok (record {
      lease_key = lease_key;
      owner_id = owner_id;
      cycle_budget_ms = cycle_budget_ms;
      lease_ttl_ms = lease_ttl_ms;
      in_process = false;
      machine = initial;
      machine_poisoned = false;
    })

-- `Drop for InProcessGuard`, which goes through a poisoned mutex.
unfoldable pub drop_guard : DesktopSyncRunner → DesktopSyncRunner
drop_guard r = record r {
  machine = if is_active r.machine.phase then (apply r.machine process_abort).0 else r.machine;
  in_process = false;
}

-- The guard of a call that panics poisons the mutex.
abbrev panics : {A E : Type 0} → Ended A E → Bool
panics panicked = true
panics _ = false

abbrev pub locked : {S A E : Type 0} → S × Ended A E → Shared S × Ended A E
locked (s, ended) = (record { store = s; poisoned = panics ended }, ended)

-- The runner, the shared store and how the call ended.
abbrev pub Exit : Type 0 → Type 0 → Type 0 → Type 0 → Type 0
Exit S A C E =
    DesktopSyncRunner × Shared S × Ended (DesktopSyncOutcome A C E) (DesktopRunnerError E)

-- `resume_unwind` or the outcome.
unfoldable pub outcome :
    {A C E : Type 0}
    → List DesktopWakeReason
    → Text
    → Option (DesktopReleaseError E)
    → Ended A C
    → Ended (DesktopSyncOutcome A C E) (DesktopRunnerError E)
outcome reasons fence release_error (returned a) =
    returned (completed a reasons fence release_error)
outcome reasons fence release_error (raised c) = returned (failed c reasons fence release_error)
outcome reasons fence release_error panicked = panicked

abbrev pub dropped : {S A C E : Type 0} → Exit S A C E → Exit S A C E
dropped (r, shared, ended) = (drop_guard r, shared, ended)

module _ {S A C E : Type 0} where
  lifecycle_next :
      DesktopSyncRunner → Applied → Shared S → (DesktopSyncRunner → Exit S A C E) → Exit S A C E
  lifecycle_next r (moved next) shared continue = continue (record r { machine = next })
  lifecycle_next r (undefined_transition s event) shared continue =
      (r, shared, raised (lifecycle s event))
  lifecycle_next r assertion_failed shared continue =
      (record r { machine_poisoned = true }, shared, panicked)

  -- `self.apply_lifecycle(event)?`, with what follows it as a continuation.
  unfoldable pub apply_lifecycle :
      DesktopSyncRunner
      → SyncLifecycleEvent
      → Shared S
      → (DesktopSyncRunner → Exit S A C E)
      → Exit S A C E
  unfolding lifecycle_next
  apply_lifecycle r event shared continue =
      if r.machine_poisoned
      then (r, shared, raised lifecycle_poisoned)
      else lifecycle_next r (apply r.machine event).1 shared continue

  -- After `release`; `none` is its panic.
  unfoldable pub after_release :
      DesktopSyncRunner
      → List DesktopWakeReason
      → Text
      → Ended A C
      → Shared S × Option (Option (DesktopReleaseError E))
      → Exit S A C E
  after_release r reasons fence cycle_result (shared, none) = (r, shared, panicked)
  after_release r reasons fence cycle_result (shared, some release_error) =
      apply_lifecycle r release_settled shared
        (λ settled. (settled, shared, outcome reasons fence release_error cycle_result))

abbrev pub release_result :
    {S E : Type 0}
    → Shared S × Ended (Unit {0}) E
    → Shared S × Option (Option (DesktopReleaseError E))
release_result (shared, returned u) = (shared, some none)
release_result (shared, raised e) = (shared, some (some (release_failed e)))
release_result (shared, panicked) = (shared, none)

unfoldable pub context : DesktopSyncRunner → List DesktopWakeReason → ℕ → Text → DesktopSyncContext
context r reasons now_ms fence = record {
  reasons = reasons;
  owner_id = r.owner_id;
  lease_key = r.lease_key;
  fence = fence;
  deadline_ms = saturating_add now_ms r.cycle_budget_ms;
}

unfoldable pub lease_request : DesktopSyncRunner → ℕ → Text → DesktopLeaseRequest
lease_request r now_ms token = record {
  key = r.lease_key;
  owner_id = r.owner_id;
  token = token;
  now_ms = now_ms;
  expires_at_ms = saturating_add now_ms r.lease_ttl_ms;
}

module _ {S E A C : Type 0} (calls : LeaseStore S E)
    (cycle : Shared S → DesktopSyncContext → Shared S × Ended A C) where
  -- `store.lock()` and `release`.
  unfoldable pub released :
      Shared S → DesktopLeaseGrant → Shared S × Option (Option (DesktopReleaseError E))
  released shared grant =
      if shared.poisoned
      then (shared, some (some release_poisoned))
      else release_result (locked (calls.release_in shared.store grant))

  -- The cycle, which `catch_unwind` contains, and the release of the grant.
  unfoldable pub with_grant :
      DesktopSyncRunner → List DesktopWakeReason → ℕ → Shared S → DesktopLeaseGrant → Exit S A C E
  with_grant r reasons now_ms shared grant =
      let (after, cycle_result) = cycle shared (context r reasons now_ms grant.fence) in
      apply_lifecycle r cycle_settled after
        (λ settled. after_release settled reasons grant.fence cycle_result (released after grant))

  unfoldable pub after_acquire :
      DesktopSyncRunner
      → List DesktopWakeReason
      → ℕ
      → Shared S × Ended (Option DesktopLeaseGrant) E
      → Exit S A C E
  after_acquire r reasons now_ms (shared, returned (some grant)) =
      apply_lifecycle r acquire_granted shared
        (λ running. with_grant running reasons now_ms shared grant)
  after_acquire r reasons now_ms (shared, returned none) =
      apply_lifecycle r acquire_deferred shared
        (λ deferred. (deferred, shared, returned (busy durable_lease reasons)))
  after_acquire r reasons now_ms (shared, raised e) =
      apply_lifecycle r acquire_deferred shared
        (λ deferred. (deferred, shared, raised (store_failed e)))
  after_acquire r reasons now_ms (shared, panicked) = (r, shared, panicked)

  unfoldable pub attempt :
      DesktopSyncRunner → List DesktopWakeReason → ℕ → Text → Shared S → Exit S A C E
  attempt r reasons now_ms token shared =
      if shared.poisoned
      then apply_lifecycle r acquire_deferred shared
          (λ deferred. (deferred, shared, raised store_poisoned))
      else after_acquire r reasons now_ms
          (locked (calls.acquire_in shared.store (lease_request r now_ms token)))

  -- The body under the guard.
  unfoldable pub guarded :
      DesktopSyncRunner → List DesktopWakeReason → ℕ → Text → Shared S → Exit S A C E
  guarded r reasons now_ms token shared =
      if out_of_range token
      then (r, shared, raised (invalid_configuration bad_token))
      else apply_lifecycle r wake shared (λ awake.
        apply_lifecycle awake begin_acquire shared
          (λ acquiring. attempt acquiring reasons now_ms token shared))

  unfoldable pub run_once :
      DesktopSyncRunner → List DesktopWakeReason → ℕ → Text → Shared S → Exit S A C E
  run_once r reasons now_ms token shared =
      if r.in_process
      then (r, shared, returned (busy in_process_run (normalized reasons)))
      else dropped
          (guarded (record r { in_process = true }) (normalized reasons) now_ms token shared)
