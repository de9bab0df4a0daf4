-- ===== src/Scheduler/Tests.antt =====
-- Runs of the scheduler of clients/rust/src/protocol_scheduler.rs, and its theorems at inputs.
use opto_sync_clients.Base.{◌≡◌, refl, true, List, [], ◌∷◌}
use opto_sync_clients.Scheduler.{
  ProtocolSchedulerPhase, ProtocolSchedulerEvent, ProtocolSyncScheduler, start, stop, hint,
  timer_fire, timer_join, stale_timer_fire, begin_reset, cycle_retryable_failure, page_more,
  stale_cycle_failure, new, apply, react, run, state_is_safe,
}
use opto_sync_clients.Scheduler.Invariant.{IsCoherent, run-new-IsCoherent}
use opto_sync_clients.Scheduler.Fences.{apply_stale, SameIntent}
use opto_sync_clients.Scheduler.Traces.{IsOwed, hint_not_lost}

abbrev started : ProtocolSyncScheduler
started = run new (start ∷ [])

abbrev cycling : ProtocolSyncScheduler
cycling = run new (start ∷ timer_fire ∷ [])

-- The unit test `stale_timer_and_cycle_settlements_cannot_overwrite_new_intent`.
abbrev restarted : List ProtocolSchedulerEvent
restarted =
    start ∷ hint ∷ timer_fire ∷ stop ∷ start ∷ timer_join ∷ stale_timer_fire ∷ stale_cycle_failure
    ∷ []

restarted_idle :
    let s = (run new restarted).state in
    (s.phase ≡ ProtocolSchedulerPhase.idle)
    × (s.consecutive_failures ≡ 0)
    × (s.timer_pending ≡ true)
unfolding run apply react new state_is_safe
restarted_idle = (refl, refl, refl)

run-new-IsCoherent_example : IsCoherent (run new restarted).state
run-new-IsCoherent_example = run-new-IsCoherent restarted

abbrev halted : ProtocolSyncScheduler
halted = run new (start ∷ timer_fire ∷ stop ∷ [])

apply_stale_example : SameIntent halted.state (apply halted stale_cycle_failure).0.state
unfolding run apply react new state_is_safe
apply_stale_example =
    apply_stale halted stale_cycle_failure {t = (apply halted stale_cycle_failure).0.state} refl
      refl

hint_not_lost_example :
    IsOwed
      (run (apply cycling hint).0 (page_more ∷ begin_reset ∷ cycle_retryable_failure ∷ [])).state
unfolding run apply react new state_is_safe
hint_not_lost_example =
    hint_not_lost cycling (page_more ∷ begin_reset ∷ cycle_retryable_failure ∷ [])
      {t = (apply cycling hint).0.state} (run-new-IsCoherent (start ∷ timer_fire ∷ [])) refl refl
