-- ===== src/Scheduler/Invariant.antt =====
-- What holds of the state of clients/rust/src/protocol_scheduler.rs between two events.
use opto_sync_clients.Base.{
  ◌≤◌, ◌≡◌, refl, true, false, List, [], ◌∷◌, Option, arith, Option-cases, inl, inr, ok,
}
use opto_sync_clients.Scheduler.{
  ProtocolSchedulerState, ProtocolSchedulerEvent, ProtocolSyncScheduler, syncing, error, backoff,
  new, react, apply, run, state_is_safe, is_stopped, is_offline,
}

pub record IsCoherent (s : ProtocolSchedulerState) : Type 0 where
  pub safe : state_is_safe s ≡ true
  pub offline_off : is_offline s.phase ≡ true → s.online ≡ false
  pub active_on : is_stopped s.phase ≡ false → is_offline s.phase ≡ false → s.online ≡ true
  pub cycle_past : s.cycle_generation ≤ s.generation
  pub cycle_owner : s.cycle_pending ≡ true → s.cycle_generation ≡ s.generation → s.phase ≡ syncing
  pub syncing_live : s.phase ≡ syncing → s.network_active ≡ true
  pub syncing_untimed : s.phase ≡ syncing → s.timer_pending ≡ false
  pub error_settled : s.phase ≡ error → s.cycle_pending ≡ false
  pub backoff_settled : s.phase ≡ backoff → s.cycle_pending ≡ false
  pub wake_waits : s.wake_pending ≡ true → s.cycle_pending ≡ true
  pub wake_running : s.wake_pending ≡ true → is_stopped s.phase ≡ false
  pub wake_online : s.wake_pending ≡ true → is_offline s.phase ≡ false
  pub failures_capped : s.consecutive_failures ≤ 31
  pub pages_capped : s.pages_seen ≤ 2

pub new-IsCoherent : IsCoherent new.state
unfolding new state_is_safe
new-IsCoherent = ground arith

pub react-IsCoherent :
    (e : ProtocolSchedulerEvent) (s : ProtocolSchedulerState) {t : ProtocolSchedulerState}
    → IsCoherent s
    → react e s ≡ Option.some t
    → IsCoherent t
unfolding react state_is_safe
react-IsCoherent ProtocolSchedulerEvent.idle s c h = ground arith
react-IsCoherent _ s c h = ground arith

-- In a coherent state the last check of `apply` refuses no event that its arm has enabled.
pub apply_accepts :
    (m : ProtocolSyncScheduler) (e : ProtocolSchedulerEvent) (t : ProtocolSchedulerState)
    → IsCoherent m.state
    → react e m.state ≡ Option.some t
    → apply m e ≡ (record { state = t }, ok t)
unfolding apply
apply_accepts m e t c h =
    let after = react-IsCoherent e m.state c h in rw (h, apply) (rw after.safe refl)

pub apply-IsCoherent :
    (m : ProtocolSyncScheduler) (e : ProtocolSchedulerEvent)
    → IsCoherent m.state
    → IsCoherent (apply m e).0.state
unfolding apply
apply-IsCoherent m e c = elim (Option-cases (react e m.state)) [
  | inl n ↦ rw (n, apply) c
  | inr (t, h) ↦ rw (apply_accepts m e t c h) (react-IsCoherent e m.state c h)
]

pub run-IsCoherent :
    (m : ProtocolSyncScheduler) (es : List ProtocolSchedulerEvent)
    → IsCoherent m.state
    → IsCoherent (run m es).state
unfolding run
run-IsCoherent m [] c = c
run-IsCoherent m (e ∷ es) c = run-IsCoherent (apply m e).0 es (apply-IsCoherent m e c)

-- Every state that a host can reach from a new scheduler, by any events at all, is coherent: the
-- network is active only in an online `syncing` phase that owns the current generation, a current
-- timer is owned, at most 31 failures and 2 pages are counted.
pub run-new-IsCoherent : (es : List ProtocolSchedulerEvent) → IsCoherent (run new es).state
run-new-IsCoherent es = run-IsCoherent new es new-IsCoherent
