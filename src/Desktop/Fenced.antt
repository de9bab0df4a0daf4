-- ===== src/Desktop/Fenced.antt =====
-- clients/desktop-rust/fenced-lifecycle/src/lib.rs: the lifecycle with a generation that rejects
-- late settlements.
use opto_sync_clients.Base.{
  ℕ, Bool, true, false, ◌&&◌, not, Option, none, some, Result, ok, err, ◌==◌, if◌then◌else◌,
  checked_add, List, [], ◌∷◌,
}
use opto_sync_clients.Desktop.Lifecycle.{
  SyncLifecycleSnapshot, SyncLifecycleEvent, initial, is_valid, transition, is_running, is_closed,
  acquire_granted, acquire_deferred, cycle_settled, release_settled, process_abort, begin_acquire,
}

pub data TransitionDisposition : Type 0 where
  applied rejected stale : TransitionDisposition

pub record SyncLifecycleCommand : Type 0 where
  pub event : SyncLifecycleEvent
  pub generation : Option ℕ

-- `SyncLifecycleCommand::new` and `generated`.
abbrev pub plain : SyncLifecycleEvent → SyncLifecycleCommand
plain event = record { event = event; generation = none }

abbrev pub generated : SyncLifecycleEvent → ℕ → SyncLifecycleCommand
generated event generation = record { event = event; generation = some generation }

-- The crate's `SyncLifecycleSnapshot`.
pub record FencedSnapshot : Type 0 where
  pub lifecycle : SyncLifecycleSnapshot
  pub generation : ℕ

abbrev pub fenced_initial : FencedSnapshot
fenced_initial = record { lifecycle = initial; generation = 0 }

unfoldable pub may_run_sync_work : FencedSnapshot → Bool
may_run_sync_work s =
    is_running s.lifecycle.phase
    && s.lifecycle.permit_held
    && not s.lifecycle.cancel_requested
    && not s.lifecycle.close_requested

unfoldable pub accepts_wake : FencedSnapshot → Bool
accepts_wake s = not (is_closed s.lifecycle.phase) && not s.lifecycle.close_requested

pub record SyncLifecycleTransition : Type 0 where
  pub disposition : TransitionDisposition
  pub before : FencedSnapshot
  pub after : FencedSnapshot
  pub command : SyncLifecycleCommand

unfoldable pub requires_generation : SyncLifecycleEvent → Bool
requires_generation acquire_granted = true
requires_generation acquire_deferred = true
requires_generation cycle_settled = true
requires_generation release_settled = true
requires_generation process_abort = true
requires_generation _ = false

-- The `let .. else` and the comparison of `validate_generation`.
same_generation : ℕ → Option ℕ → Result (Unit {0}) TransitionDisposition
same_generation current none = err rejected
same_generation current (some generation) = if not (generation == current) then err stale else ok tt

unfoldable pub validate_generation :
    FencedSnapshot → SyncLifecycleCommand → Result (Unit {0}) TransitionDisposition
unfolding same_generation requires_generation
validate_generation s command =
    if not (requires_generation command.event)
    then ok tt
    else same_generation s.generation command.generation

unfoldable pub advance_generation : FencedSnapshot → SyncLifecycleEvent → Option ℕ
advance_generation s begin_acquire = checked_add s.generation 1
advance_generation s _ = some s.generation

abbrev pub unchanged :
    FencedSnapshot → SyncLifecycleCommand → TransitionDisposition → SyncLifecycleTransition
unchanged s command disposition = record {
  disposition = disposition;
  before = s;
  after = s;
  command = command;
}

-- `reduce` from `transition` on.
settled :
    FencedSnapshot
    → SyncLifecycleCommand
    → Option SyncLifecycleSnapshot
    → Option ℕ
    → SyncLifecycleTransition
settled s command none generation = unchanged s command rejected
settled s command (some next_lifecycle) none = unchanged s command rejected
settled s command (some next_lifecycle) (some generation) =
    if not (is_valid next_lifecycle) then unchanged s command rejected else record {
      disposition = applied;
      before = s;
      after = record { lifecycle = next_lifecycle; generation = generation };
      command = command;
    }

fenced :
    FencedSnapshot
    → SyncLifecycleCommand
    → Result (Unit {0}) TransitionDisposition
    → SyncLifecycleTransition
unfolding settled
fenced s command (err disposition) = unchanged s command disposition
fenced s command (ok u) =
    settled s command (transition s.lifecycle command.event) (advance_generation s command.event)

unfoldable pub reduce : FencedSnapshot → SyncLifecycleCommand → SyncLifecycleTransition
unfolding fenced
reduce s command =
    if not (is_valid s.lifecycle)
    then unchanged s command rejected
    else fenced s command (validate_generation s command)

abbrev pub is_applied : TransitionDisposition → Bool
is_applied applied = true
is_applied _ = false

unfoldable pub dispatch :
    FencedSnapshot → SyncLifecycleCommand → FencedSnapshot × SyncLifecycleTransition
dispatch s command =
    let decision = reduce s command in
    (if is_applied decision.disposition then decision.after else s, decision)

unfoldable pub dispatch_all : FencedSnapshot → List SyncLifecycleCommand → FencedSnapshot
dispatch_all s [] = s
dispatch_all s (command ∷ commands) = dispatch_all (dispatch s command).0 commands
