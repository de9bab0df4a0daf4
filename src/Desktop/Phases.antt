-- ===== src/Desktop/Phases.antt =====
-- What the transitions of clients/desktop-rust/src/lib.rs keep and forbid.
use opto_sync_clients.Base.{
  ◌≢◌, ◌||◌, ◌≡◌, ◌⊎◌, inl, inr, refl, true, false, some, none, arith, Option-cases, List, [], ◌∷◌,
}
use opto_sync_clients.Desktop.Lifecycle.{
  SyncLifecycleEvent, SyncLifecycleSnapshot, is_valid, proposed, settle, transition, moved,
  undefined_transition, apply, run, is_running, is_releasing, closed, acquire_granted,
  release_settled, process_abort, close, begin_acquire,
}

proposed-valid :
    (s t : SyncLifecycleSnapshot) (event : SyncLifecycleEvent)
    → is_valid s ≡ true
    → proposed s event ≡ some t
    → is_valid t ≡ true
unfolding proposed is_valid settle
proposed-valid s t event v h = ground arith

-- From a valid state the table alone decides: the final check of `transition` rejects nothing.
pub transition_lem :
    (s : SyncLifecycleSnapshot) (event : SyncLifecycleEvent)
    → is_valid s ≡ true
    → transition s event ≡ proposed s event
unfolding transition
transition_lem s event v = elim (Option-cases (proposed s event)) [
  | inl e ↦ ground arith
  | inr (t, e) ↦ ground (arith, proposed-valid s t event v e)
]

-- In a valid state `apply` moves to a valid state by the table or refuses the event and stays; its
-- assertion never fails.
pub apply_lem :
    (s : SyncLifecycleSnapshot) (event : SyncLifecycleEvent)
    → is_valid s ≡ true
    → ((t : SyncLifecycleSnapshot) × (proposed s event ≡ some t)
        × (apply s event ≡ (t, moved t))
        × (is_valid t ≡ true))
      ⊎ ((proposed s event ≡ none) × (apply s event ≡ (s, undefined_transition s event)))
unfolding apply
apply_lem s event v = elim (Option-cases (proposed s event)) [
  | inl e ↦ inr (e, rw (transition_lem s event v) (rw e refl))
  | inr (t, e) ↦
      let valid = proposed-valid s t event v e in
      inl (t, e, rw (transition_lem s event v) (rw e (rw valid refl)), valid)
]

-- Every sequence of events leaves a valid machine valid.
pub run-is_valid :
    (s : SyncLifecycleSnapshot) (events : List SyncLifecycleEvent)
    → is_valid s ≡ true
    → is_valid (run s events) ≡ true
unfolding run
run-is_valid s [] v = v
run-is_valid s (event ∷ events) v = elim (apply_lem s event v) [
  | inl (t, p, e, valid) ↦ rw e (run-is_valid t events valid)
  | inr (p, e) ↦ rw e (run-is_valid s events v)
]

-- In a valid state the permit is held exactly while running or releasing. Of its transitions only
-- a grant gives it, and to a machine without one; only the settled release or an abort takes it.
pub permit_life :
    (s t : SyncLifecycleSnapshot) (event : SyncLifecycleEvent)
    → is_valid s ≡ true
    → transition s event ≡ some t
    → (s.permit_held ≡ is_running s.phase || is_releasing s.phase)
      × ((t.permit_held ≡ s.permit_held) × (event ≢ acquire_granted)
          ⊎ (event ≡ acquire_granted) × (s.permit_held ≡ false) × (t.permit_held ≡ true)
          ⊎ ((event ≡ release_settled) ⊎ (event ≡ process_abort)) × (t.permit_held ≡ false))
unfolding is_valid proposed settle
permit_life s t event v h =
    let p : proposed s event ≡ some t = rw (transition_lem s event v) at h in
    (ground arith, ground arith)

proposed-close :
    (s t : SyncLifecycleSnapshot) (event : SyncLifecycleEvent)
    → s.close_requested ≡ true
    → proposed s event ≡ some t
    → (t.close_requested ≡ true) × ((is_running t.phase ≡ false) ⊎ (is_running s.phase ≡ true))
unfolding proposed settle
proposed-close s t event c h = (ground arith, ground arith)

-- In a valid machine a close request stays through any events, and after it no cycle begins: a
-- machine that runs then was running before.
pub close_is_final :
    (s : SyncLifecycleSnapshot) (events : List SyncLifecycleEvent)
    → is_valid s ≡ true
    → s.close_requested ≡ true
    → ((run s events).close_requested ≡ true)
      × ((is_running (run s events).phase ≡ false) ⊎ (is_running s.phase ≡ true))
unfolding run
close_is_final s [] v c = (c, ground arith)
close_is_final s (event ∷ events) v c = elim (apply_lem s event v) [
  | inl (t, p, e, valid) ↦
      let (c', stays) = proposed-close s t event c p in
      rw (e, run) (ground (arith, close_is_final t events valid c'))
  | inr (p, e) ↦ rw (e, run) (close_is_final s events v c)
]

proposed-closed :
    (s : SyncLifecycleSnapshot) (event : SyncLifecycleEvent)
    → is_valid s ≡ true
    → s.phase ≡ closed
    → proposed s event ≡ none
unfolding proposed is_valid
proposed-closed s event v c = ground arith

-- Nothing leaves `Closed`.
pub closed_absorbs :
    (s : SyncLifecycleSnapshot) (events : List SyncLifecycleEvent)
    → is_valid s ≡ true
    → s.phase ≡ closed
    → run s events ≡ s
unfolding run
closed_absorbs s [] v c = refl
closed_absorbs s (event ∷ events) v c = elim (apply_lem s event v) [
  | inl (t, p, e, valid) ↦ absurd (ground (arith, proposed-closed s event v c))
  | inr (p, e) ↦ rw e (closed_absorbs s events v c)
]

-- From every valid state a close request and the end of the attempt under way close the machine.
pub close_closes :
    (s : SyncLifecycleSnapshot)
    → is_valid s ≡ true
    → (run s (close ∷ process_abort ∷ [])).phase ≡ closed
unfolding run apply transition is_valid proposed settle
close_closes s v = ground arith

-- A wake that is pending stays so until an attempt begins, the host closes or the process aborts.
pub wake_not_lost :
    (s t : SyncLifecycleSnapshot) (event : SyncLifecycleEvent)
    → is_valid s ≡ true
    → transition s event ≡ some t
    → s.wake_pending ≡ true
    → (t.wake_pending ≡ true) ⊎ (event ≡ begin_acquire) ⊎ (event ≡ close) ⊎ (event ≡ process_abort)
unfolding is_valid proposed settle
wake_not_lost s t event v h w =
    let p : proposed s event ≡ some t = rw (transition_lem s event v) at h in ground arith
