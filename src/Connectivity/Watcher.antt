-- ===== src/Connectivity/Watcher.antt =====
-- `ConnectivityWatcher` of clients/rust-connectivity/src/lib.rs. A call of the clock is an argument;
-- a listener acts on `W`, the state of the application, and its panic is caught. The two locked
-- sections of `publish_at` are two functions; every other call is one, as on one thread.
use opto_sync_clients.Base.{
  ℕ, ◌+◌, Bool, true, false, ◌&&◌, ◌||◌, not, Option, none, some, List, [], ◌∷◌, ◌++◌, ◌==◌,
  if◌then◌else◌, filter,
}

pub data ConnectivityState : Type 0 where
  unknown offline link internet : ConnectivityState

pub data ConnectivityMode : Type 0 where
  automatic forced : ConnectivityMode

pub data ConnectivitySource : Type 0 where
  initial manual platform probe forced_offline : ConnectivitySource

pub record ConnectivitySnapshot : Type 0 where
  pub state : ConnectivityState
  pub mode : ConnectivityMode
  pub source : ConnectivitySource
  pub changed_at_ms : ℕ
  pub verified_at_ms : Option ℕ

-- Derived `PartialEq`.
abbrev pub state_eq : ConnectivityState → ConnectivityState → Bool
state_eq unknown unknown = true
state_eq offline offline = true
state_eq link link = true
state_eq internet internet = true
state_eq _ _ = false

abbrev pub mode_eq : ConnectivityMode → ConnectivityMode → Bool
mode_eq automatic automatic = true
mode_eq forced forced = true
mode_eq _ _ = false

unfoldable pub has_verified_internet : ConnectivitySnapshot → Bool
has_verified_internet s = mode_eq s.mode automatic && state_eq s.state internet

-- `(state == Internet).then_some(at)`.
abbrev pub verified_at : ConnectivityState → ℕ → Option ℕ
verified_at state at = if state_eq state internet then some at else none

abbrev pub Listener : Type 0 → Type 0
Listener W = ConnectivitySnapshot → ConnectivitySnapshot → W → W

-- Ids rise, so that a new listener comes last in the `BTreeMap`.
pub record Watcher (W : Type 0) : Type 0 where
  pub current : ConnectivitySnapshot
  pub observed : ConnectivitySnapshot
  pub listeners : List (ℕ × Listener W)
  pub next_listener_id : ℕ

abbrev pub first_snapshot : ConnectivityState → ℕ → ConnectivitySnapshot
first_snapshot state now = record {
  state = state;
  mode = automatic;
  source = initial;
  changed_at_ms = now;
  verified_at_ms = verified_at state now;
}

abbrev pub changes_to : ConnectivitySnapshot → ConnectivitySnapshot → Bool
changes_to previous candidate =
    not (state_eq previous.state candidate.state) || not (mode_eq previous.mode candidate.mode)

abbrev pub replacing : ConnectivitySnapshot → ConnectivitySnapshot → ConnectivitySnapshot
replacing previous candidate = record candidate {
  changed_at_ms =
      if changes_to previous candidate then candidate.changed_at_ms else previous.changed_at_ms;
}

abbrev pub offline_at : ℕ → ConnectivitySnapshot
offline_at now = record {
  state = offline;
  mode = forced;
  source = forced_offline;
  changed_at_ms = now;
  verified_at_ms = none;
}

-- One round of the thread of `spawn_probe`: `none` is a probe that panicked.
abbrev pub probed_state : Option ConnectivityState → ConnectivityState
probed_state none = unknown
probed_state (some state) = state

module _ {W : Type 0} where
  unfoldable pub new : ConnectivityState → ℕ → Watcher W
  new state now = record {
    current = first_snapshot state now;
    observed = first_snapshot state now;
    listeners = [];
    next_listener_id = 1;
  }

  unfoldable pub subscribe : Watcher W → Bool → Listener W → W → Watcher W × W × ℕ
  subscribe a emit_current listener w = (
    record a {
      listeners = a.listeners ++ (a.next_listener_id, listener) ∷ [];
      next_listener_id = a.next_listener_id + 1;
    },
    (if emit_current then listener a.current a.current w else w),
    a.next_listener_id,
  )

  -- The drop of a subscription.
  unfoldable pub unsubscribe : Watcher W → ℕ → Watcher W
  unsubscribe a id = record a { listeners = filter (λ l. not (l.0 == id)) a.listeners }

  -- `invoke_connectivity` for each listener.
  unfoldable pub notify :
      List (ℕ × Listener W) → ConnectivitySnapshot → ConnectivitySnapshot → W → W
  notify [] next previous w = w
  notify ((id, listener) ∷ rest) next previous w =
      notify rest next previous (listener next previous w)

  unfoldable pub transition :
      Watcher W → ConnectivitySnapshot → W → Watcher W × W × ConnectivitySnapshot
  unfolding notify
  transition a candidate w =
      let next = replacing a.current candidate in
      (
        record a { current = next },
        (if changes_to a.current candidate then notify a.listeners next a.current w else w),
        next,
      )

  -- The locked section of `publish_at`: what it has observed, and whether to expose it.
  abbrev pub observation :
      Watcher W → ConnectivityState → ConnectivitySource → ℕ → ConnectivitySnapshot
  observation a state source at = record {
    state = state;
    mode = automatic;
    source = source;
    changed_at_ms = if state_eq a.observed.state state then a.observed.changed_at_ms else at;
    verified_at_ms = verified_at state at;
  }

  unfoldable pub observe :
      Watcher W
      → ConnectivityState
      → ConnectivitySource
      → ℕ
      → Watcher W × ConnectivitySnapshot × Bool
  observe a state source at =
      let seen = observation a state source at in
      (record a { observed = seen }, seen, mode_eq a.current.mode automatic)

  abbrev pub expose :
      Watcher W × ConnectivitySnapshot × Bool → W → Watcher W × W × ConnectivitySnapshot
  expose (a, seen, true) w = transition a seen w
  expose (a, seen, false) w = (a, w, a.current)

  unfoldable pub publish_at :
      Watcher W
      → ConnectivityState
      → ConnectivitySource
      → ℕ
      → W
      → Watcher W × W × ConnectivitySnapshot
  unfolding observe transition
  publish_at a state source at w = expose (observe a state source at) w

  unfoldable pub set_total_offline : Watcher W → Bool → ℕ → W → Watcher W × W × ConnectivitySnapshot
  unfolding transition
  set_total_offline a true now w =
      if mode_eq a.current.mode forced then (a, w, a.current) else transition a (offline_at now) w
  set_total_offline a false now w =
      if mode_eq a.current.mode forced
      then transition a (record a.observed { changed_at_ms = now }) w
      else (a, w, a.current)

  unfoldable pub probe_round :
      Watcher W → Option ConnectivityState → ℕ → W → Watcher W × W × ConnectivitySnapshot
  unfolding publish_at
  probe_round a outcome now w =
      let state = probed_state outcome in
      if mode_eq a.current.mode automatic
      then publish_at a state (if state_eq state internet then probe else platform) now w
      else (a, w, a.current)
