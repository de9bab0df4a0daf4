-- ===== src/Connectivity/Signals.antt =====
-- Saves of clients/rust-connectivity/src/lib.rs while total offline is forced.
use opto_sync_clients.Base.{ℕ, ◌≡◌, true, List, Text, all, arith}
use opto_sync_clients.Connectivity.Watcher.{has_verified_internet, Watcher, forced}
use opto_sync_clients.Connectivity.Saves.{
  SaveSignals, SaveMetadata, save_event, invoke_save_callbacks, notify_after_durable_save,
}
use opto_sync_clients.Connectivity.Override.{Call, keeps_offline, perform_all, offline_stays}

module _ {W : Type 0} where
  quiet_save :
      (s : SaveSignals W) (a : Watcher W) (queue_id : Text) (metadata : SaveMetadata) (now : ℕ)
      (w : W)
      → a.current.mode ≡ forced
      → notify_after_durable_save s a queue_id metadata now w ≡ (
        invoke_save_callbacks s.save_listeners (save_event queue_id metadata now a.current) w,
        save_event queue_id metadata now a.current,
      )
  unfolding notify_after_durable_save has_verified_internet
  quiet_save s a queue_id metadata now w f = ground arith

  -- A save while total offline is forced, whatever has been observed since, tells the listeners to
  -- every save, with the offline snapshot, and neither the online listeners nor the wake hint.
  pub save_offline :
      (s : SaveSignals W) (a : Watcher W) (calls : List Call) (queue_id : Text)
      (metadata : SaveMetadata) (now : ℕ) (w : W)
      → a.current.mode ≡ forced
      → all keeps_offline calls ≡ true
      → notify_after_durable_save s (perform_all calls a w).0 queue_id metadata now w ≡ (
        invoke_save_callbacks s.save_listeners (save_event queue_id metadata now a.current) w,
        save_event queue_id metadata now a.current,
      )
  save_offline s a calls queue_id metadata now w f k =
      let (same, _) = offline_stays a calls w f k in
      let quiet = quiet_save s (perform_all calls a w).0 queue_id metadata now w (rw same f) in
      rw same at quiet
