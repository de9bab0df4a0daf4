-- ===== src/Scheduler/Fences.antt =====
-- Rejection, generations and stale callbacks in clients/rust/src/protocol_scheduler.rs.
use opto_sync_clients.Base.{◌+◌, ◌≡◌, true, false, Bool, Option, arith, ok, err, if◌then◌else◌}
use opto_sync_clients.Scheduler.{
  ProtocolSchedulerState, ProtocolSchedulerEvent, ProtocolSyncScheduler,
  ProtocolSchedulerTransitionError, start, stop, go_offline, stale_timer_fire, stale_cycle_success,
  stale_cycle_failure, stopped, timer_fire, react, apply, state_is_safe,
}
use opto_sync_clients.Scheduler.Invariant.{IsCoherent}

-- A rejected event leaves the scheduler as it was, and the error names the event and the phase.
pub apply_rejected :
    (m : ProtocolSyncScheduler) (e : ProtocolSchedulerEvent) {x : ProtocolSchedulerTransitionError}
    → (apply m e).1 ≡ err x
    → ((apply m e).0 ≡ m) × (x ≡ record { event = e; phase = m.state.phase })
unfolding apply
apply_rejected m e h = ground arith

-- The result of an accepted event is the new state, which its arm has computed and which is safe.
pub apply_accepted :
    (m : ProtocolSyncScheduler) (e : ProtocolSchedulerEvent) {t : ProtocolSchedulerState}
    → (apply m e).1 ≡ ok t
    → ((apply m e).0.state ≡ t) × (react e m.state ≡ Option.some t) × (state_is_safe t ≡ true)
unfolding apply
apply_accepted m e h = ground arith

abbrev pub bumps : ProtocolSchedulerEvent → Bool
bumps start = true
bumps stop = true
bumps go_offline = true
bumps _ = false

react_generation :
    (e : ProtocolSchedulerEvent) (s : ProtocolSchedulerState) {t : ProtocolSchedulerState}
    → react e s ≡ Option.some t
    → t.generation ≡ (if bumps e then s.generation + 1 else s.generation)
unfolding react
react_generation ProtocolSchedulerEvent.idle s h = ground arith
react_generation _ s h = ground arith

-- An accepted start, stop or offline event raises the generation by one, any other keeps it.
pub apply_generation :
    (m : ProtocolSyncScheduler) (e : ProtocolSchedulerEvent) {t : ProtocolSchedulerState}
    → (apply m e).1 ≡ ok t
    → t.generation ≡ (if bumps e then m.state.generation + 1 else m.state.generation)
apply_generation m e h = react_generation e m.state (apply_accepted m e h).1

abbrev pub is_stale_callback : ProtocolSchedulerEvent → Bool
is_stale_callback stale_timer_fire = true
is_stale_callback stale_cycle_success = true
is_stale_callback stale_cycle_failure = true
is_stale_callback _ = false

-- The parts of a state that a newer intent has set.
abbrev pub SameIntent : ProtocolSchedulerState → ProtocolSchedulerState → Type 0
SameIntent s t =
    (t.phase ≡ s.phase)
    × (t.online ≡ s.online)
    × (t.generation ≡ s.generation)
    × (t.network_active ≡ s.network_active)
    × (t.consecutive_failures ≡ s.consecutive_failures)
    × (t.reset_phase ≡ s.reset_phase)
    × (t.pages_seen ≡ s.pages_seen)

react_stale :
    (e : ProtocolSchedulerEvent) (s : ProtocolSchedulerState) {t : ProtocolSchedulerState}
    → is_stale_callback e ≡ true
    → react e s ≡ Option.some t
    → SameIntent s t
unfolding react
react_stale ProtocolSchedulerEvent.idle s k h = ground arith
react_stale _ s k h = ground arith

-- A stale timer or a stale settlement that is accepted changes neither the phase nor the
-- connectivity, the generation, the network ownership, the failure count or the reset progress.
pub apply_stale :
    (m : ProtocolSyncScheduler) (e : ProtocolSchedulerEvent) {t : ProtocolSchedulerState}
    → is_stale_callback e ≡ true
    → (apply m e).1 ≡ ok t
    → SameIntent m.state t
apply_stale m e k h = react_stale e m.state k (apply_accepted m e h).1

abbrev pub is_inert : ProtocolSchedulerEvent → Bool
is_inert ProtocolSchedulerEvent.idle = true
is_inert start = true
is_inert e = is_stale_callback e

react_stopped :
    (e : ProtocolSchedulerEvent) (s : ProtocolSchedulerState) {t : ProtocolSchedulerState}
    → IsCoherent s
    → s.phase ≡ stopped
    → react e s ≡ Option.some t
    → is_inert e ≡ true
unfolding react
react_stopped ProtocolSchedulerEvent.idle s c k h = ground arith
react_stopped _ s c k h = ground arith

-- A coherent stopped scheduler accepts only `start`, `idle` and the stale callbacks: no timer fires,
-- no hint wakes it and no cycle settles.
pub stopped_refuses :
    (m : ProtocolSyncScheduler) (e : ProtocolSchedulerEvent) {t : ProtocolSchedulerState}
    → IsCoherent m.state
    → m.state.phase ≡ stopped
    → (apply m e).1 ≡ ok t
    → is_inert e ≡ true
stopped_refuses m e c k h = react_stopped e m.state c k (apply_accepted m e h).1

-- A coherent scheduler starts a cycle only when none is pending, the network is idle and the
-- client is online; the new cycle owns the current generation and the network.
pub single_flight :
    (m : ProtocolSyncScheduler) {t : ProtocolSchedulerState}
    → IsCoherent m.state
    → (apply m timer_fire).1 ≡ ok t
    → (m.state.cycle_pending ≡ false)
      × (m.state.network_active ≡ false)
      × (m.state.online ≡ true)
      × (t.cycle_pending ≡ true)
      × (t.network_active ≡ true)
      × (t.cycle_generation ≡ m.state.generation)
unfolding apply react state_is_safe
single_flight m c h = ground (arith, c.safe)
