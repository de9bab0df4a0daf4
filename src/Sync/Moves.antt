-- ===== src/Sync/Moves.antt =====
-- The changes of the queue that the driver of clients/rust/src/protocol_sync.rs makes.
use opto_sync_clients.Base.{ℕ, Text, inr, inl, Option-cases, ◌≡◌, refl, Result, ok, err, arith}
use opto_sync_clients.Protocol.Types.{ProtocolError, SnapshotResponse, Json, ProtocolQueue}
use opto_sync_clients.Protocol.Wellformed.{Result-cases, IsValid}
use opto_sync_clients.Protocol.AckSafety.{acknowledge-IsValid}
use opto_sync_clients.Sync.Checks as SyncChecks
use opto_sync_clients.Protocol.Checks as QueueChecks
use opto_sync_clients.Sync.Types.{PullResponse, ProtocolSyncCycleResult}
use opto_sync_clients.Sync.Steps.{parse_decimal-some, Move, forward, confirmed}
use opto_sync_clients.Sync.Driver.{applied_count}
use opto_sync_clients.Sync.Checks.{
  page_after, snapshot_after, validate_snapshot, validate_pull_page,
}
use opto_sync_clients.Protocol.Queue.{set_checkpoint}

module _ {V : Type 0} (json : Json V) where
  pub Move-IsValid : {q q' : ProtocolQueue V} → Move json q q' → IsValid json q → IsValid json q'
  Move-IsValid (forward q c n m h k l) v = record {
    client_ok = v.client_ok;
    capacity = v.capacity;
    bytes = v.bytes;
    checkpoint_ok = ground arith;
    next_pos = v.next_pos;
    next_le = v.next_le;
    rows = v.rows;
    pending_le = v.pending_le;
  }
  Move-IsValid (confirmed q q' response request n h) v =
      rw h at (acknowledge-IsValid json q response request v)

  -- A checked page and a checked snapshot move the checkpoint forward.
  pub page-Move :
      (q : ProtocolQueue V) (page : PullResponse V)
      → validate_pull_page json page q.checkpoint ≡ ok tt
      → Move json q (record q { checkpoint = page.checkpoint })
  unfolding validate_pull_page page_after
  page-Move q page h = elim (Option-cases (SyncChecks.parse_decimal page.checkpoint)) [
    | inl a ↦ absurd (ground arith)
    | inr (m, a) ↦ elim (Option-cases (SyncChecks.parse_decimal q.checkpoint)) [
      | inl b ↦ absurd (ground arith)
      | inr (n, b) ↦
          forward q page.checkpoint n m (parse_decimal-some q.checkpoint n b)
            (parse_decimal-some page.checkpoint m a) (ground arith)
    ]
  ]

  pub snapshot-Move :
      (q : ProtocolQueue V) (snapshot : SnapshotResponse V)
      → validate_snapshot json snapshot q.checkpoint ≡ ok tt
      → Move json q (record q { checkpoint = snapshot.checkpoint })
  unfolding validate_snapshot snapshot_after
  snapshot-Move q snapshot h = elim (Option-cases (SyncChecks.parse_decimal snapshot.checkpoint)) [
    | inl a ↦ absurd (ground arith)
    | inr (m, a) ↦ elim (Option-cases (SyncChecks.parse_decimal q.checkpoint)) [
      | inl b ↦ absurd (ground arith)
      | inr (n, b) ↦
          forward q snapshot.checkpoint n m (parse_decimal-some q.checkpoint n b)
            (parse_decimal-some snapshot.checkpoint m a) (ground arith)
    ]
  ]

-- `set_checkpoint` fails without a change, and stores what it is given.
pub set_checkpoint-eq :
    {V : Type 0} (q q' : ProtocolQueue V) (c : Text) (u : Unit {0})
    → set_checkpoint q c ≡ (q', ok u)
    → q' ≡ record q { checkpoint = c }
unfolding set_checkpoint
set_checkpoint-eq q q' c u h = elim (Result-cases (QueueChecks.parse_decimal c)) [
  | inl (n, e) ↦ ground arith
  | inr (x, e) ↦ absurd (ground arith)
]

pub set_checkpoint-fail :
    {V : Type 0} (q q' : ProtocolQueue V) (c : Text) (e : ProtocolError)
    → set_checkpoint q c ≡ (q', err e)
    → q' ≡ q
unfolding set_checkpoint
set_checkpoint-fail q q' c u h = elim (Result-cases (QueueChecks.parse_decimal c)) [
  | inl (n, e) ↦ absurd (ground arith)
  | inr (x, e) ↦ ground arith
]

pub applied_count-world :
    {W A : Type 0} (n : ℕ) (result : ProtocolSyncCycleResult) (r : W × Result (Unit {0}) A)
    → (applied_count n result r).0 ≡ r.0
unfolding applied_count
applied_count-world n result (w, ok u) = refl
applied_count-world n result (w, err e) = refl
