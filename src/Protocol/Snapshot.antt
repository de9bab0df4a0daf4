-- ===== src/Protocol/Snapshot.antt =====
-- `install_snapshot` and `set_checkpoint` of clients/rust/src/protocol.rs.
use opto_sync_clients.Base.{
  ◌≡◌, ◌⊎◌, inl, inr, true, List, Text, ok, err, is_ok, arith, all, Result,
}
use opto_sync_clients.Protocol.Types.{
  Json, ProtocolQueue, ProtocolError, SnapshotRecord, SnapshotResponse, SnapshotInstallError,
  replace, protocol, invalid_snapshot,
}
use opto_sync_clients.Protocol.Checks.{parse_decimal}
use opto_sync_clients.Protocol.Queue.{set_checkpoint}
use opto_sync_clients.Protocol.Acknowledge.{install_snapshot, valid_record}
use opto_sync_clients.Protocol.Wellformed.{IsValid, Result-cases}

module _ {V W E : Type 0} (json : Json V) (q : ProtocolQueue V) (snapshot : SnapshotResponse V)
    (replace_authoritative : W → List (SnapshotRecord V) → W × Result (Unit {0}) E) (w : W) where
  -- An installed snapshot has replaced the application's rows by its records, once, and then the
  -- checkpoint; every mutation, the next id and the policies of the queue stay.
  pub install_snapshot_installed :
      {q' : ProtocolQueue V} {w' : W}
      → install_snapshot json q snapshot replace_authoritative w ≡ (q', w', ok tt)
      → (replace_authoritative w snapshot.records ≡ (w', ok tt))
        × (q' ≡ record q { checkpoint = snapshot.checkpoint })
        × (is_ok (parse_decimal snapshot.checkpoint) ≡ true)
        × (all (valid_record json) snapshot.records ≡ true)
  unfolding install_snapshot
  install_snapshot_installed h = ground arith

  -- When the installation fails the queue is as it was; when the snapshot itself is refused the
  -- application's store is not touched either.
  pub install_snapshot_failed :
      {q' : ProtocolQueue V} {w' : W} {e : SnapshotInstallError E}
      → install_snapshot json q snapshot replace_authoritative w ≡ (q', w', err e)
      → (q' ≡ q)
        × (((e ≡ protocol invalid_snapshot) × (w' ≡ w))
            ⊎ ((x : E) × (e ≡ replace x)
                × (replace_authoritative w snapshot.records ≡ (w', err x))))
  unfolding install_snapshot
  install_snapshot_failed h = elim (Result-cases (replace_authoritative w snapshot.records).1) [
    | inl (u, e) ↦ ground arith
    | inr (x, e) ↦ ground arith
  ]

  pub install_snapshot-IsValid :
      IsValid json q → IsValid json (install_snapshot json q snapshot replace_authoritative w).0
  unfolding install_snapshot
  install_snapshot-IsValid v = ground arith

module _ {V : Type 0} (json : Json V) where
  -- A checkpoint is stored exactly when it is a decimal; a refused one changes nothing.
  pub set_checkpoint_lem :
      (q : ProtocolQueue V) (checkpoint : Text)
      → ((is_ok (parse_decimal checkpoint) ≡ true)
          × (set_checkpoint q checkpoint ≡ (record q { checkpoint = checkpoint }, ok tt)))
        ⊎ ((e : ProtocolError) × (parse_decimal checkpoint ≡ err e)
            × (set_checkpoint q checkpoint ≡ (q, err e)))
  unfolding set_checkpoint
  set_checkpoint_lem q checkpoint = elim (Result-cases (parse_decimal checkpoint)) [
    | inl (n, e) ↦ inl (ground arith, ground arith)
    | inr (x, e) ↦ inr (x, e, ground arith)
  ]

  pub set_checkpoint-IsValid :
      (q : ProtocolQueue V) (checkpoint : Text)
      → IsValid json q
      → IsValid json (set_checkpoint q checkpoint).0
  set_checkpoint-IsValid q checkpoint v = ground (arith, set_checkpoint_lem q checkpoint)
