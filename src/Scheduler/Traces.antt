-- ===== src/Scheduler/Traces.antt =====
-- Wakes are not lost over a run of clients/rust/src/protocol_scheduler.rs.
use opto_sync_clients.Base.{
  ◌≡◌, ◌⊎◌, true, false, Bool, Option, List, [], ◌∷◌, all, not, arith, Option-cases, inl, inr, ok,
}
use opto_sync_clients.Scheduler.{
  ProtocolSchedulerState, ProtocolSchedulerEvent, ProtocolSyncScheduler, stop, go_offline,
  timer_fire, cycle_permanent_failure, malformed_response, hint, react, apply, run, state_is_safe,
}
use opto_sync_clients.Scheduler.Invariant.{IsCoherent, apply_accepts, apply-IsCoherent}
use opto_sync_clients.Scheduler.Fences.{apply_accepted}

-- A cycle is owed: its timer is armed, or the running cycle is to be followed by another.
abbrev pub IsOwed : ProtocolSchedulerState → Type 0
IsOwed s = (s.timer_pending ≡ true) ⊎ ((s.wake_pending ≡ true) × (s.cycle_pending ≡ true))

-- The events that answer a wake or give it up on purpose.
abbrev pub answers : ProtocolSchedulerEvent → Bool
answers stop = true
answers go_offline = true
answers timer_fire = true
answers cycle_permanent_failure = true
answers malformed_response = true
answers _ = false

react-IsOwed :
    (e : ProtocolSchedulerEvent) (s : ProtocolSchedulerState) {t : ProtocolSchedulerState}
    → IsCoherent s
    → answers e ≡ false
    → IsOwed s
    → react e s ≡ Option.some t
    → IsOwed t
unfolding react state_is_safe
react-IsOwed ProtocolSchedulerEvent.idle s c k w h = ground arith
react-IsOwed _ s c k w h = ground (arith, c.safe)

apply-IsOwed :
    (m : ProtocolSyncScheduler) (e : ProtocolSchedulerEvent)
    → IsCoherent m.state
    → answers e ≡ false
    → IsOwed m.state
    → IsOwed (apply m e).0.state
unfolding apply
apply-IsOwed m e c k w = elim (Option-cases (react e m.state)) [
  | inl n ↦ rw (n, apply) w
  | inr (t, h) ↦ rw (apply_accepts m e t c h) (react-IsOwed e m.state c k w h)
]

-- A cycle that is owed stays owed over any events but those that answer it: a timer that fires, a
-- stop, going offline, or a failure that needs the application.
pub run-IsOwed :
    (m : ProtocolSyncScheduler) (es : List ProtocolSchedulerEvent)
    → IsCoherent m.state
    → IsOwed m.state
    → all (λ e. not (answers e)) es ≡ true
    → IsOwed (run m es).state
unfolding run
run-IsOwed m [] c w k = w
run-IsOwed m (e ∷ es) c w k =
    run-IsOwed (apply m e).0 es (apply-IsCoherent m e c) (apply-IsOwed m e c (ground arith) w)
      (ground arith)

react_hint :
    (s : ProtocolSchedulerState) {t : ProtocolSchedulerState}
    → react hint s ≡ Option.some t
    → IsOwed t
unfolding react
react_hint s h = ground arith

-- Once a coherent scheduler has accepted a hint, a timer is pending, or a wake is behind the cycle
-- under way, through any events until one answers it: the timer's firing, a stop, going offline or
-- a permanent failure.
pub hint_not_lost :
    (m : ProtocolSyncScheduler) (es : List ProtocolSchedulerEvent) {t : ProtocolSchedulerState}
    → IsCoherent m.state
    → (apply m hint).1 ≡ ok t
    → all (λ e. not (answers e)) es ≡ true
    → IsOwed (run (apply m hint).0 es).state
hint_not_lost m es c h k =
    run-IsOwed (apply m hint).0 es (apply-IsCoherent m hint c)
      (rw (apply_accepted m hint h).0 (react_hint m.state (apply_accepted m hint h).1)) k
