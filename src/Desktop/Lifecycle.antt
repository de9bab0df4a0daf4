-- ===== src/Desktop/Lifecycle.antt =====
-- `SyncLifecycleMachine` of clients/desktop-rust/src/lib.rs. A method on `&mut self` returns the new
-- state with its result; the `assert!` of `apply` is a result of its own.
use opto_sync_clients.Base.{
  [], ◌∷◌, List, Bool, true, false, ◌&&◌, ◌||◌, not, Option, none, some, if◌then◌else◌,
}

pub data SyncLifecyclePhase : Type 0 where
  idle acquiring running releasing closed : SyncLifecyclePhase

pub data SyncLifecycleEvent : Type 0 where
  wake join begin_acquire acquire_granted acquire_deferred : SyncLifecycleEvent
  cancel cycle_settled release_settled close process_abort : SyncLifecycleEvent

pub record SyncLifecycleSnapshot : Type 0 where
  pub phase : SyncLifecyclePhase
  pub wake_pending : Bool
  pub close_requested : Bool
  pub cancel_requested : Bool
  pub permit_held : Bool

abbrev pub initial : SyncLifecycleSnapshot
initial = record {
  phase = idle;
  wake_pending = false;
  close_requested = false;
  cancel_requested = false;
  permit_held = false;
}

-- `==` and `matches!` on phases.
abbrev pub is_idle : SyncLifecyclePhase → Bool
is_idle idle = true
is_idle _ = false

abbrev pub is_acquiring : SyncLifecyclePhase → Bool
is_acquiring acquiring = true
is_acquiring _ = false

abbrev pub is_running : SyncLifecyclePhase → Bool
is_running running = true
is_running _ = false

abbrev pub is_releasing : SyncLifecyclePhase → Bool
is_releasing releasing = true
is_releasing _ = false

abbrev pub is_closed : SyncLifecyclePhase → Bool
is_closed closed = true
is_closed _ = false

-- `Acquiring | Running | Releasing`.
abbrev pub is_active : SyncLifecyclePhase → Bool
is_active p = is_acquiring p || is_running p || is_releasing p

abbrev bool_eq : Bool → Bool → Bool
bool_eq true b = b
bool_eq false b = not b

unfoldable pub is_valid : SyncLifecycleSnapshot → Bool
is_valid s =
    let active_permit = is_running s.phase || is_releasing s.phase in
    if not (bool_eq s.permit_held active_permit)
    then false
    else if is_closed s.phase
    then s.close_requested && not s.wake_pending && not s.cancel_requested && not s.permit_held
    else if s.close_requested && s.wake_pending
    then false
    else not s.cancel_requested || is_running s.phase

-- Where an attempt ends: `Closed` when a close was requested, else `Idle`.
unfoldable pub settle : SyncLifecycleSnapshot → SyncLifecycleSnapshot
settle s = record s {
  phase = if s.close_requested then closed else idle;
  wake_pending = if s.close_requested then false else s.wake_pending;
  cancel_requested = false;
  permit_held = false;
}

-- The arms of `match event`; `none` for `return None`.
unfoldable pub proposed : SyncLifecycleSnapshot → SyncLifecycleEvent → Option SyncLifecycleSnapshot
unfolding settle
proposed s wake =
    if is_closed s.phase || s.close_requested then none else some (record s { wake_pending = true })
proposed s join = if not (is_active s.phase) then none else some s
proposed s begin_acquire =
    if not (is_idle s.phase) || not s.wake_pending || s.close_requested
    then none
    else some (record s { phase = acquiring; wake_pending = false })
proposed s acquire_granted =
    if not (is_acquiring s.phase)
    then none
    else some (record s {
      phase = if s.close_requested then releasing else running;
      permit_held = true;
      cancel_requested = false;
    })
proposed s acquire_deferred = if not (is_acquiring s.phase) then none else some (settle s)
proposed s cancel =
    if not (is_running s.phase) then none else some (record s { cancel_requested = true })
proposed s cycle_settled =
    if not (is_running s.phase) || not s.permit_held
    then none
    else some (record s { phase = releasing; cancel_requested = false })
proposed s release_settled =
    if not (is_releasing s.phase) || not s.permit_held then none else some (settle s)
proposed s close =
    if is_closed s.phase
    then none
    else if is_idle s.phase
    then some (record s {
      phase = closed;
      wake_pending = false;
      close_requested = true;
      cancel_requested = false;
    })
    else some (record s {
      wake_pending = false;
      close_requested = true;
      cancel_requested = is_running s.phase;
    })
proposed s process_abort =
    if not (is_active s.phase)
    then none
    else some (record s {
      phase = if s.close_requested then closed else idle;
      wake_pending = false;
      cancel_requested = false;
      permit_held = false;
    })

-- `next.is_valid().then_some(next)`.
checked : Option SyncLifecycleSnapshot → Option SyncLifecycleSnapshot
checked none = none
checked (some next) = if is_valid next then some next else none

unfoldable pub transition :
    SyncLifecycleSnapshot → SyncLifecycleEvent → Option SyncLifecycleSnapshot
unfolding proposed checked is_valid
transition s event = if not (is_valid s) then none else checked (proposed s event)

-- What `apply` does: it returns the new state, refuses the event or fails its assertion.
pub data Applied : Type 0 where
  moved : SyncLifecycleSnapshot → Applied
  undefined_transition : SyncLifecycleSnapshot → SyncLifecycleEvent → Applied
  assertion_failed : Applied

asserted :
    SyncLifecycleSnapshot
    → SyncLifecycleEvent
    → Option SyncLifecycleSnapshot
    → SyncLifecycleSnapshot × Applied
asserted s event none = (s, undefined_transition s event)
asserted s event (some next) = if is_valid next then (next, moved next) else (s, assertion_failed)

unfoldable pub apply : SyncLifecycleSnapshot → SyncLifecycleEvent → SyncLifecycleSnapshot × Applied
unfolding asserted is_valid transition
apply s event = asserted s event (transition s event)

-- A sequence of events, each applied where the last one left the machine.
unfoldable pub run : SyncLifecycleSnapshot → List SyncLifecycleEvent → SyncLifecycleSnapshot
run s [] = s
run s (event ∷ events) = run (apply s event).0 events
