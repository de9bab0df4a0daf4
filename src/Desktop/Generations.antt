-- ===== src/Desktop/Generations.antt =====
-- What the generation of clients/desktop-rust/fenced-lifecycle/src/lib.rs protects.
use opto_sync_clients.Base.{
  ℕ, ◌+◌, ◌≤◌, ◌<◌, ◌≡◌, ◌≢◌, ◌⊎◌, true, false, some, arith, List, [], ◌∷◌,
}
use opto_sync_clients.Desktop.Lifecycle.{SyncLifecycleEvent, is_valid, transition, begin_acquire}
use opto_sync_clients.Desktop.Fenced.{
  generated, FencedSnapshot, SyncLifecycleCommand, SyncLifecycleTransition, dispatch, dispatch_all,
  reduce, requires_generation, validate_generation, advance_generation, applied, stale, unchanged,
}

-- A command that is not applied leaves the machine as it was.
pub dispatch_unapplied :
    (s : FencedSnapshot) (command : SyncLifecycleCommand)
    → ((dispatch s command).1.disposition ≡ applied)
      ⊎ ((dispatch s command).0 ≡ s) × ((dispatch s command).1.after ≡ s)
unfolding dispatch reduce
dispatch_unapplied s command = ground arith

-- A settlement of another generation than the current one is answered as stale, whatever the
-- phase, and changes nothing.
pub stale_rejected :
    (s : FencedSnapshot) (event : SyncLifecycleEvent) (generation : ℕ)
    → is_valid s.lifecycle ≡ true
    → requires_generation event ≡ true
    → generation ≢ s.generation
    → dispatch s (generated event generation) ≡ (s, unchanged s (generated event generation) stale)
unfolding dispatch reduce validate_generation
stale_rejected s event generation v r d = ground arith

-- An applied command is a transition of the base machine, made under the right generation; the
-- generation rises by one when an attempt begins and stays otherwise.
pub dispatch_applied :
    (s t : FencedSnapshot) (command : SyncLifecycleCommand) {d : SyncLifecycleTransition}
    → dispatch s command ≡ (t, d)
    → d.disposition ≡ applied
    → (transition s.lifecycle command.event ≡ some t.lifecycle)
      × ((requires_generation command.event ≡ false) ⊎ (command.generation ≡ some s.generation))
      × ((command.event ≡ begin_acquire) × (t.generation ≡ s.generation + 1)
          ⊎ (command.event ≢ begin_acquire) × (t.generation ≡ s.generation))
unfolding dispatch reduce validate_generation advance_generation
dispatch_applied s t command h a = ground arith

dispatch_step :
    (s : FencedSnapshot) (command : SyncLifecycleCommand)
    → is_valid s.lifecycle ≡ true
    → (is_valid (dispatch s command).0.lifecycle ≡ true)
      × (s.generation ≤ (dispatch s command).0.generation)
unfolding dispatch reduce advance_generation
dispatch_step s command v = ground arith

-- Over any sequence of commands the machine stays valid and its generation never falls.
pub dispatch_all_rises :
    (s : FencedSnapshot) (commands : List SyncLifecycleCommand)
    → is_valid s.lifecycle ≡ true
    → (is_valid (dispatch_all s commands).lifecycle ≡ true)
      × (s.generation ≤ (dispatch_all s commands).generation)
unfolding dispatch_all
dispatch_all_rises s [] v = (v, omega arith)
dispatch_all_rises s (command ∷ commands) v =
    let (valid, le) = dispatch_step s command v in
    let (valid', le') = dispatch_all_rises (dispatch s command).0 commands valid in
    (valid', omega arith)

-- Settlements of a superseded attempt are stale for ever: after any commands to a valid machine, a
-- settlement that bears an older generation than the machine had before them changes nothing.
pub superseded_stale :
    (s : FencedSnapshot) (commands : List SyncLifecycleCommand) (event : SyncLifecycleEvent)
    (generation : ℕ)
    → is_valid s.lifecycle ≡ true
    → requires_generation event ≡ true
    → generation < s.generation
    → let late = generated event generation in
      dispatch (dispatch_all s commands) late
      ≡ (dispatch_all s commands, unchanged (dispatch_all s commands) late stale)
superseded_stale s commands event generation v r h =
    let (valid, le) = dispatch_all_rises s commands v in
    stale_rejected (dispatch_all s commands) event generation valid r (omega arith)
