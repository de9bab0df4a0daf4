-- ===== src/Desktop/SessionTests.antt =====
-- A session of clients/desktop-rust/src/session_lifecycle.rs whose host counts its calls.
use opto_sync_clients.Base.{Option, ℕ, ◌+◌, ◌*◌, ◌≡◌, ◌↔◌, refl, true, some, ok, err, text, Result}
use opto_sync_clients.Desktop.Session.{
  logout_sync, SessionIdentity, SessionSyncReason, DurableSyncReceipt, durably_drained, on_logout,
  complete, logout,
}
use opto_sync_clients.Desktop.Logout.{complete_iff}

abbrev alice : SessionIdentity
alice = record { subject = text "alice"; tenant = text "a"; auth_epoch = 7 }

abbrev bob : SessionIdentity
bob = record { subject = text "bob"; tenant = text "a"; auth_epoch = 7 }

abbrev drained : DurableSyncReceipt
drained = record {
  pending_before = 2;
  acknowledged = 2;
  admitted_during_drain = 0;
  pending_after = 0;
  checkpoint_committed = true;
  admission_fenced = true;
}

-- The digits of the world are the calls, in order: 1 syncs, 2 flushes, 3 clears.
abbrev syncs : ℕ → SessionSyncReason → ℕ × Result DurableSyncReceipt ℕ
syncs w reason = (w * 10 + 1, ok drained)

abbrev flushes : ℕ → ℕ × Result (Unit {0}) ℕ
flushes w = (w * 10 + 2, err 5)

abbrev clears : ℕ → Option SessionIdentity → ℕ × Result (Unit {0}) ℕ
clears w who = (w * 10 + 3, ok tt)

logout_calls : (on_logout syncs flushes clears (some alice) 0).1 ≡ 123
unfolding on_logout logout_sync
logout_calls = refl

complete_iff_example : (complete (on_logout syncs flushes clears (some alice) 0).2 ≡ true) ↔ (
    ((r : DurableSyncReceipt) × ((syncs 0 logout).1 ≡ ok r) × (durably_drained r ≡ true))
    × ((flushes 1).1 ≡ ok tt)
    × ((clears 12 (some alice)).1 ≡ ok tt))
complete_iff_example = complete_iff syncs flushes clears alice 0
