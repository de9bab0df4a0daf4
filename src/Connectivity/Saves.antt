-- ===== src/Connectivity/Saves.antt =====
-- `SaveSignals` of clients/rust-connectivity/src/lib.rs, on the watcher that it holds.
use opto_sync_clients.Base.{
  ℕ, ◌+◌, ◌&&◌, not, Option, none, some, List, [], ◌∷◌, ◌++◌, ◌==◌, filter, if◌then◌else◌, Result,
  ok, err, Text,
}
use opto_sync_clients.Connectivity.Watcher.{
  ConnectivitySnapshot, Watcher, has_verified_internet, mode_eq, state_eq, automatic, offline,
}

pub data SaveOperation : Type 0 where
  upsert delete : SaveOperation

pub record SaveMetadata : Type 0 where
  pub table_name : Text
  pub record_id : Text
  pub operation : SaveOperation

pub record LocalSaveEvent : Type 0 where
  pub queue_id : Text
  pub table_name : Text
  pub record_id : Text
  pub operation : SaveOperation
  pub saved_at_ms : ℕ
  pub connectivity : ConnectivitySnapshot

pub data SaveListenerKind : Type 0 where
  every online : SaveListenerKind

abbrev pub SaveCallback : Type 0 → Type 0
SaveCallback W = LocalSaveEvent → W → W

pub record SaveSignals (W : Type 0) : Type 0 where
  pub save_listeners : List (ℕ × SaveCallback W)
  pub online_listeners : List (ℕ × SaveCallback W)
  pub wake_hint : Option (W → W)
  pub next_listener_id : ℕ

abbrev pub save_event : Text → SaveMetadata → ℕ → ConnectivitySnapshot → LocalSaveEvent
save_event queue_id metadata now connectivity = record {
  queue_id = queue_id;
  table_name = metadata.table_name;
  record_id = metadata.record_id;
  operation = metadata.operation;
  saved_at_ms = now;
  connectivity = connectivity;
}

module _ {W : Type 0} where
  unfoldable pub invoke_wake : SaveSignals W → W → W
  invoke_wake s w = elim s.wake_hint [ none ↦ w | some wake ↦ wake w ]

  -- The listener that `SaveSignals::new` subscribes to the watcher.
  unfoldable pub wake_listener : SaveSignals W → ConnectivitySnapshot → ConnectivitySnapshot → W → W
  unfolding has_verified_internet invoke_wake
  wake_listener s next previous w =
      if has_verified_internet next && not (has_verified_internet previous)
      then invoke_wake s w
      else w

  unfoldable pub add_listener :
      SaveSignals W → SaveListenerKind → SaveCallback W → SaveSignals W × ℕ
  add_listener s every listener = (
    record s {
      save_listeners = s.save_listeners ++ (s.next_listener_id, listener) ∷ [];
      next_listener_id = s.next_listener_id + 1;
    },
    s.next_listener_id,
  )
  add_listener s online listener = (
    record s {
      online_listeners = s.online_listeners ++ (s.next_listener_id, listener) ∷ [];
      next_listener_id = s.next_listener_id + 1;
    },
    s.next_listener_id,
  )

  -- The drop of a save subscription.
  unfoldable pub remove_listener : SaveSignals W → SaveListenerKind → ℕ → SaveSignals W
  remove_listener s every id = record s {
    save_listeners = filter (λ l. not (l.0 == id)) s.save_listeners;
  }
  remove_listener s online id = record s {
    online_listeners = filter (λ l. not (l.0 == id)) s.online_listeners;
  }

  unfoldable pub invoke_save_callbacks : List (ℕ × SaveCallback W) → LocalSaveEvent → W → W
  invoke_save_callbacks [] event w = w
  invoke_save_callbacks ((id, callback) ∷ rest) event w =
      invoke_save_callbacks rest event (callback event w)

  unfoldable pub notify_after_durable_save :
      SaveSignals W → Watcher W → Text → SaveMetadata → ℕ → W → W × LocalSaveEvent
  unfolding invoke_save_callbacks has_verified_internet invoke_wake
  notify_after_durable_save s a queue_id metadata now w =
      let event = save_event queue_id metadata now a.current in
      let told = invoke_save_callbacks s.save_listeners event w in
      let told_online =
        if has_verified_internet a.current
        then invoke_save_callbacks s.online_listeners event told
        else told in
      (
        (if mode_eq a.current.mode automatic && not (state_eq a.current.state offline)
            then invoke_wake s told_online
            else told_online),
        event,
      )

  after_save :
      {R E : Type 0}
      → SaveSignals W
      → Watcher W
      → SaveMetadata
      → (R → Text)
      → ℕ
      → W × Result R E
      → W × Result R E
  unfolding notify_after_durable_save
  after_save s a metadata queue_id now (w, err e) = (w, err e)
  after_save s a metadata queue_id now (w, ok r) =
      ((notify_after_durable_save s a (queue_id r) metadata now w).0, ok r)

  unfoldable pub after_durable_save_sync :
      {R E : Type 0}
      → SaveSignals W
      → Watcher W
      → SaveMetadata
      → (W → W × Result R E)
      → (R → Text)
      → ℕ
      → W
      → W × Result R E
  unfolding after_save
  after_durable_save_sync s a metadata save queue_id now w =
      after_save s a metadata queue_id now (save w)
