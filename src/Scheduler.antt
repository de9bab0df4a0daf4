-- ===== src/Scheduler.antt =====
-- The sync-loop scheduler: clients/rust/src/protocol_scheduler.rs.
-- `ProtocolSyncScheduler::apply` works on a clone of the state: `react` is its `match`, with `none`
-- for `enabled == false`, and `apply` the checks and the write back. Generations are `u64`.
pub mod Invariant
pub mod Fences
pub mod Traces
mod Tests
use opto_sync_clients.Base.{
  ℕ, ◌+◌, ◌≡◌, min, Bool, true, false, ◌&&◌, ◌||◌, not, Option, List, [], ◌∷◌, arith, ltb, leb,
  ◌==◌, if◌then◌else◌, Result, ok, err, checked_add, length,
}

pub data ProtocolSchedulerPhase : Type 0 where
  stopped idle syncing offline backoff error : ProtocolSchedulerPhase

pub data ProtocolSchedulerResetPhase : Type 0 where
  none snapshot_requested snapshot_installed : ProtocolSchedulerResetPhase

pub record ProtocolSchedulerState : Type 0 where
  pub phase : ProtocolSchedulerPhase
  pub online : Bool
  pub generation : ℕ
  pub timer_pending : Bool
  pub timer_generation : ℕ
  pub stale_timer_pending : Bool
  pub cycle_pending : Bool
  pub cycle_generation : ℕ
  pub network_active : Bool
  pub wake_pending : Bool
  pub consecutive_failures : ℕ
  pub reset_phase : ProtocolSchedulerResetPhase
  pub pages_seen : ℕ

pub data ProtocolSchedulerEvent : Type 0 where
  start stop hint go_offline go_online : ProtocolSchedulerEvent
  timer_fire timer_join stale_timer_fire : ProtocolSchedulerEvent
  page_more begin_reset finish_reset : ProtocolSchedulerEvent
  cycle_success cycle_success_more : ProtocolSchedulerEvent
  cycle_retryable_failure cycle_permanent_failure malformed_response : ProtocolSchedulerEvent
  stale_cycle_success stale_cycle_failure : ProtocolSchedulerEvent
  idle : ProtocolSchedulerEvent

pub record ProtocolSchedulerTransitionError : Type 0 where
  pub event : ProtocolSchedulerEvent
  pub phase : ProtocolSchedulerPhase

pub record ProtocolSyncScheduler : Type 0 where
  pub state : ProtocolSchedulerState

-- `ProtocolSchedulerState::default`, and the scheduler over it.
unfoldable pub new : ProtocolSyncScheduler
new = record {
  state = record {
    phase = stopped;
    online = true;
    generation = 0;
    timer_pending = false;
    timer_generation = 0;
    stale_timer_pending = false;
    cycle_pending = false;
    cycle_generation = 0;
    network_active = false;
    wake_pending = false;
    consecutive_failures = 0;
    reset_phase = none;
    pages_seen = 0;
  };
}

abbrev pub max_consecutive_failures : ℕ
max_consecutive_failures = 31

abbrev pub max_pages_per_refinement_trace : ℕ
max_pages_per_refinement_trace = 2

-- `phase == …` for the phases that the code tests.
abbrev pub is_stopped : ProtocolSchedulerPhase → Bool
is_stopped stopped = true
is_stopped _ = false

abbrev pub is_idle : ProtocolSchedulerPhase → Bool
is_idle ProtocolSchedulerPhase.idle = true
is_idle _ = false

abbrev pub is_syncing : ProtocolSchedulerPhase → Bool
is_syncing syncing = true
is_syncing _ = false

abbrev pub is_offline : ProtocolSchedulerPhase → Bool
is_offline offline = true
is_offline _ = false

abbrev pub is_none : ProtocolSchedulerResetPhase → Bool
is_none none = true
is_none _ = false

abbrev pub is_requested : ProtocolSchedulerResetPhase → Bool
is_requested snapshot_requested = true
is_requested _ = false

unfoldable pub current_timer_enabled : ProtocolSchedulerState → Bool
current_timer_enabled s =
    not (is_stopped s.phase) && s.online && s.timer_pending && s.timer_generation == s.generation

unfoldable pub current_cycle_enabled : ProtocolSchedulerState → Bool
current_cycle_enabled s =
    is_syncing s.phase && s.network_active && s.cycle_pending && s.cycle_generation == s.generation

unfoldable pub settle_enabled : ProtocolSchedulerState → Bool
unfolding current_cycle_enabled
settle_enabled s = current_cycle_enabled s && not (is_requested s.reset_phase)

unfoldable pub settle_success : ProtocolSchedulerState → Bool → ProtocolSchedulerState
settle_success s has_more = record s {
  phase = ProtocolSchedulerPhase.idle;
  timer_pending = has_more || s.wake_pending;
  timer_generation = s.generation;
  cycle_pending = false;
  network_active = false;
  wake_pending = false;
  consecutive_failures = 0;
  reset_phase = none;
  pages_seen = 0;
}

unfoldable pub state_is_safe : ProtocolSchedulerState → Bool
unfolding current_timer_enabled current_cycle_enabled
state_is_safe s =
    let network_owned =
      not s.network_active
      || (is_syncing s.phase
          && s.online
          && s.cycle_pending
          && s.cycle_generation == s.generation) in
    let inactive_boundaries =
      not s.network_active || (not (is_stopped s.phase) && not (is_offline s.phase)) in
    let reset_ordered = is_none s.reset_phase || current_cycle_enabled s in
    let timer_owned = not s.timer_pending || current_timer_enabled s in
    network_owned && inactive_boundaries && reset_ordered && timer_owned

-- The arms of the `match`; `Start`, `Stop` and `GoOffline` go on from `checked_add`.
start_at : ProtocolSchedulerState → Option ℕ → Option ProtocolSchedulerState
start_at s Option.none = Option.none
start_at s (Option.some generation) = Option.some (record s {
  phase = if s.online then ProtocolSchedulerPhase.idle else offline;
  generation = generation;
  timer_pending = s.online;
  timer_generation = generation;
  wake_pending = false;
  consecutive_failures = 0;
  reset_phase = none;
  pages_seen = 0;
})

stop_at : ProtocolSchedulerState → Option ℕ → Option ProtocolSchedulerState
stop_at s Option.none = Option.none
stop_at s (Option.some generation) = Option.some (record s {
  phase = stopped;
  generation = generation;
  stale_timer_pending = s.stale_timer_pending || s.timer_pending;
  timer_pending = false;
  network_active = false;
  wake_pending = false;
  reset_phase = none;
  pages_seen = 0;
})

offline_at : ProtocolSchedulerState → Option ℕ → Option ProtocolSchedulerState
offline_at s Option.none = Option.none
offline_at s (Option.some generation) = Option.some (record s {
  phase = offline;
  online = false;
  generation = generation;
  stale_timer_pending = s.stale_timer_pending || s.timer_pending;
  timer_pending = false;
  network_active = false;
  wake_pending = false;
  reset_phase = none;
  pages_seen = 0;
})

take_hint : ProtocolSchedulerState → ProtocolSchedulerState
take_hint s =
    let woken = record s {
      phase = if is_offline s.phase then ProtocolSchedulerPhase.idle else s.phase;
    } in
    if s.cycle_pending then record woken { wake_pending = true } else record woken {
      stale_timer_pending = s.stale_timer_pending || s.timer_pending;
      timer_pending = true;
      timer_generation = s.generation;
    }

-- A cycle that settles after its generation has passed.
settle_stale : ProtocolSchedulerState → Option ProtocolSchedulerState
settle_stale s =
    if not s.cycle_pending || s.cycle_generation == s.generation
    then Option.none
    else Option.some (record s {
      timer_pending = is_idle s.phase || s.timer_pending;
      timer_generation = if is_idle s.phase then s.generation else s.timer_generation;
      cycle_pending = false;
      wake_pending = false;
    })

fail_cycle : ProtocolSchedulerState → Option ProtocolSchedulerState
unfolding current_cycle_enabled
fail_cycle s =
    if not (current_cycle_enabled s)
    then Option.none
    else Option.some (record s {
      phase = error;
      timer_pending = false;
      cycle_pending = false;
      network_active = false;
      wake_pending = false;
      reset_phase = none;
      pages_seen = 0;
    })

unfoldable pub react :
    ProtocolSchedulerEvent → ProtocolSchedulerState → Option ProtocolSchedulerState
unfolding start_at stop_at offline_at take_hint settle_stale fail_cycle settle_success
    settle_enabled current_timer_enabled current_cycle_enabled
react ProtocolSchedulerEvent.idle s = Option.some s
react start s =
    if not (is_stopped s.phase) then Option.none else start_at s (checked_add s.generation 1)
react stop s = if is_stopped s.phase then Option.none else stop_at s (checked_add s.generation 1)
react hint s = if is_stopped s.phase || not s.online then Option.none else Option.some (take_hint s)
react go_offline s =
    if is_stopped s.phase || not s.online
    then Option.none
    else offline_at s (checked_add s.generation 1)
react go_online s =
    if not (is_offline s.phase) || s.online
    then Option.none
    else Option.some (record s {
      phase = ProtocolSchedulerPhase.idle;
      online = true;
      timer_pending = not s.cycle_pending;
      timer_generation = s.generation;
      wake_pending = s.cycle_pending;
    })
react timer_fire s =
    if not (current_timer_enabled s) || s.cycle_pending
    then Option.none
    else Option.some (record s {
      phase = syncing;
      timer_pending = false;
      cycle_pending = true;
      cycle_generation = s.generation;
      network_active = true;
      wake_pending = false;
      reset_phase = none;
      pages_seen = 0;
    })
react timer_join s =
    if not (current_timer_enabled s) || not s.cycle_pending
    then Option.none
    else Option.some (record s { timer_pending = false; wake_pending = true })
react stale_timer_fire s =
    if not s.stale_timer_pending
    then Option.none
    else Option.some (record s { stale_timer_pending = false })
react page_more s =
    if not (current_cycle_enabled s)
      || is_requested s.reset_phase
      || leb max_pages_per_refinement_trace s.pages_seen
    then Option.none
    else Option.some (record s { pages_seen = s.pages_seen + 1 })
react begin_reset s =
    if not (current_cycle_enabled s) || not (is_none s.reset_phase)
    then Option.none
    else Option.some (record s { reset_phase = snapshot_requested })
react finish_reset s =
    if not (current_cycle_enabled s) || not (is_requested s.reset_phase)
    then Option.none
    else Option.some (record s { reset_phase = snapshot_installed })
react cycle_success s =
    if not (settle_enabled s) then Option.none else Option.some (settle_success s false)
react cycle_success_more s =
    if not (settle_enabled s) then Option.none else Option.some (settle_success s true)
react cycle_retryable_failure s =
    if not (current_cycle_enabled s)
    then Option.none
    else Option.some (record s {
      phase = backoff;
      timer_pending = true;
      timer_generation = s.generation;
      cycle_pending = false;
      network_active = false;
      wake_pending = false;
      consecutive_failures = min (min (s.consecutive_failures + 1) 255) max_consecutive_failures;
      reset_phase = none;
      pages_seen = 0;
    })
react cycle_permanent_failure s = fail_cycle s
react malformed_response s = fail_cycle s
react stale_cycle_success s = settle_stale s
react stale_cycle_failure s = settle_stale s

-- A rejected event leaves the scheduler as it was.
settle_event :
    ProtocolSyncScheduler
    → ProtocolSchedulerEvent
    → Option ProtocolSchedulerState
    → ProtocolSyncScheduler × Result ProtocolSchedulerState ProtocolSchedulerTransitionError
settle_event m event Option.none = (m, err (record { event = event; phase = m.state.phase }))
settle_event m event (Option.some next) =
    if not (state_is_safe next)
    then (m, err (record { event = event; phase = m.state.phase }))
    else (record m { state = next }, ok next)

unfoldable pub apply :
    ProtocolSyncScheduler
    → ProtocolSchedulerEvent
    → ProtocolSyncScheduler × Result ProtocolSchedulerState ProtocolSchedulerTransitionError
unfolding settle_event
apply m event = settle_event m event (react event m.state)

-- A host that feeds events one after the other and ignores the rejected ones.
unfoldable pub run : ProtocolSyncScheduler → List ProtocolSchedulerEvent → ProtocolSyncScheduler
run m [] = m
run m (e ∷ es) = run (apply m e).0 es
