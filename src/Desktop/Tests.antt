-- ===== src/Desktop/Tests.antt =====
-- Runs of the lifecycle, the leases and the runner of clients/desktop-rust, and their theorems there.
use opto_sync_clients.Base.{
  text_compare, text_eq, ℕ, ◌+◌, ◌<◌, ◌≡◌, ◌≢◌, ◌⊎◌, refl, true, false, some, none, [], ◌∷◌, ok,
  Text, text, arith,
}
use opto_sync_clients.Desktop.Lifecycle.{SyncLifecycleSnapshot, initial, acquiring, running}
use opto_sync_clients.Desktop.Fenced.{FencedSnapshot}
use opto_sync_clients.Desktop.Leases.{
  holds_at, DesktopLeaseRequest, DesktopLeaseGrant, InMemoryDesktopLeaseStore, try_acquire, release,
  granted, acquire, lease_steps,
}
use opto_sync_clients.Desktop.Runner.{
  raised, DesktopSyncContext, returned, LeaseStore, Shared, Ended, DesktopSyncRunner, new_runner,
  run_once,
}
use opto_sync_clients.Desktop.Rounds.{run_once_lem, new_runner-IsRested, bare_run}
use opto_sync_clients.Base.Map.{insert, lookup}
use opto_sync_clients.Desktop.Exclusion.{lease_excludes, late_release}
use opto_sync_clients.Protocol.Checks.{to_string}

abbrev woken : SyncLifecycleSnapshot
woken = record initial { wake_pending = true }

abbrev busy_machine : SyncLifecycleSnapshot
busy_machine = record initial { phase = running; permit_held = true }

abbrev closing : SyncLifecycleSnapshot
closing = record busy_machine { close_requested = true; cancel_requested = true }

abbrev second : FencedSnapshot
second = record { lifecycle = woken; generation = 1 }

abbrev third : FencedSnapshot
third = record { lifecycle = record initial { phase = acquiring }; generation = 2 }

abbrev asks : Text → ℕ → DesktopLeaseRequest
asks token now_ms = record {
  key = text "k";
  owner_id = text "o";
  token = token;
  now_ms = now_ms;
  expires_at_ms = now_ms + 10;
}

abbrev first_lease : DesktopLeaseGrant
first_lease = granted (asks (text "a") 0) 1

abbrev leased : InMemoryDesktopLeaseStore
leased = record { leases = (text "k", first_lease) ∷ []; fences = (text "k", 1) ∷ [] }

abbrev leased_again : InMemoryDesktopLeaseStore
leased_again = record {
  leases = (text "k", granted (asks (text "b") 20) 2) ∷ [];
  fences = (text "k", 2) ∷ [];
}

lease_excludes_example :
    (lookup (text "k") (lease_steps leased (acquire (asks (text "b") 5) ∷ [])).leases
      ≡ some first_lease)
    × (try_acquire (lease_steps leased (acquire (asks (text "b") 5) ∷ [])) (asks (text "c") 9)
        ≡ (lease_steps leased (acquire (asks (text "b") 5) ∷ []), none))
unfolding lookup text_eq granted
lease_excludes_example =
    lease_excludes first_lease leased (acquire (asks (text "b") 5) ∷ []) (asks (text "c") 9) refl
      refl refl (omega arith)

late_release_example :
    (release (lease_steps leased_again []) first_lease ≡ lease_steps leased_again [])
    × (((try_acquire (lease_steps leased_again []) (asks (text "c") 40)).1 ≡ none)
        ⊎ (text "k" ≢ text "k")
        ⊎ ((n : ℕ) × ((try_acquire (lease_steps leased_again []) (asks (text "c") 40)).1
              ≡ some (granted (asks (text "c") 40) n))
            × (1 < n)))
unfolding to_string granted lookup text_eq try_acquire holds_at insert text_compare
late_release_example =
    late_release leased (asks (text "b") 20) (asks (text "c") 40) [] first_lease
      {store' = leased_again} {h = granted (asks (text "b") 20) 2} refl refl (omega arith) refl

-- A store that lends its one lease and counts what it is given back, and a cycle that fails.
abbrev lender : LeaseStore ℕ ℕ
lender = record {
  acquire_in = λ n request. (n, returned (some first_lease));
  release_in = λ n grant. (n + 1, returned tt);
}

abbrev failing : Shared ℕ → DesktopSyncContext → Shared ℕ × Ended ℕ ℕ
failing shared seen = (shared, raised 4)

abbrev runner : DesktopSyncRunner
runner = record {
  lease_key = text "k";
  owner_id = text "o";
  cycle_budget_ms = 1000;
  lease_ttl_ms = 2000;
  in_process = false;
  machine = initial;
  machine_poisoned = false;
}

runner_made : new_runner (text "k") (text "o") 1000 2000 ≡ ok runner
unfolding new_runner
runner_made = refl

run_once_lem_example :
    run_once lender failing runner [] 5 (text "t") (record { store = 0; poisoned = false }) ≡ (
      runner,
      (bare_run lender failing runner [] 5 (text "t") (record { store = 0; poisoned = false })).0,
      (bare_run lender failing runner [] 5 (text "t") (record { store = 0; poisoned = false })).1,
    )
run_once_lem_example =
    run_once_lem lender failing runner [] 5 (text "t") (record { store = 0; poisoned = false })
      (new_runner-IsRested (text "k") (text "o") 1000 2000 {r = runner} runner_made)

-- The lease is given back once, although the cycle fails.
given_once :
    (bare_run lender failing runner [] 5 (text "t") (record { store = 0; poisoned = false })).0
    ≡ record { store = 1; poisoned = false }
unfolding bare_run
given_once = refl
