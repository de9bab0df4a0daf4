-- ===== src/Desktop/Logout.antt =====
-- What a receipt, a login and a logout of clients/desktop-rust/src/session_lifecycle.rs promise.
use opto_sync_clients.Base.{
  is_ok, ℕ, Bool, true, ◌+◌, ◌≡◌, ◌↔◌, ◌⊎◌, inl, inr, refl, Option, none, some, Result, ok,
  text_eq_sound, text_eq_refl, arith,
}
use opto_sync_clients.Desktop.Session.{
  telemetry_flushed, data_durably_drained, SessionIdentity, DurableSyncReceipt, SessionSyncReason,
  login, logout, new_receipt, durably_drained, Session, on_login, on_logout, complete, logout_sync,
}

-- A receipt that was made conserves the queue, and it is drained exactly when every mutation that
-- was pending is acknowledged, none was admitted meanwhile, and both the checkpoint and the
-- admission fence are in place.
pub receipt_conserves :
    (before acked admitted after : ℕ) (committed fenced : Bool) {r : DurableSyncReceipt}
    → new_receipt before acked admitted after committed fenced ≡ ok r
    → (after + acked ≡ before + admitted)
      × ((durably_drained r ≡ true)
          ↔ ((acked ≡ before) × (admitted ≡ 0) × (committed ≡ true) × (fenced ≡ true)))
unfolding new_receipt durably_drained
receipt_conserves before acked admitted after committed fenced made =
    (ground arith, (λ h. ground arith, λ h. ground arith))

-- The host's world after the sync of a logout.
abbrev synced :
    {W E : Type 0} → (W → SessionSyncReason → W × Result DurableSyncReceipt E) → Session → W → W
synced sync none w = w
synced sync (some active) w = (sync w logout).0

module _ {W E : Type 0} (sync : W → SessionSyncReason → W × Result DurableSyncReceipt E) where
  -- A login with a session active triggers no sync and keeps the session; it succeeds exactly for the
  -- identity that is logged in. Without one it opens the session and syncs once.
  pub on_login_cases :
      (current : Session) (next : SessionIdentity) (w : W)
      → let (session, w', result) = on_login sync current next w in
        ((active : SessionIdentity) × (current ≡ some active)
          × (session ≡ some active)
          × (w' ≡ w)
          × ((active ≡ next) ↔ (is_ok result ≡ true)))
        ⊎ ((current ≡ none)
            × (session ≡ some next)
            × (w' ≡ (sync w login).0)
            × (is_ok result ≡ true))
  unfolding on_login
  on_login_cases none next w = inr (refl, refl, refl, refl)
  on_login_cases (some active) next w = inl (
    active,
    refl,
    ground arith,
    ground arith,
    (
      λ h. ground (arith, text_eq_refl active.subject, text_eq_refl active.tenant),
      λ h. ground (
        arith,
        text_eq_sound active.subject next.subject,
        text_eq_sound active.tenant next.tenant,
      ),
    ),
  )

  module _ {T C : Type 0} (flush : W → W × Result (Unit {0}) T)
      (clear : W → Option SessionIdentity → W × Result (Unit {0}) C) where
    -- Every logout ends the session, and syncs, flushes and clears the credentials in this order,
    -- whatever failed before; without a session it does not sync.
    pub on_logout_order :
        (current : Session) (w : W)
        → ((on_logout sync flush clear current w).0 ≡ none)
          × ((on_logout sync flush clear current w).1
              ≡ (clear (flush (synced sync current w)).0 current).0)
    unfolding on_logout logout_sync
    on_logout_order none w = (refl, refl)
    on_logout_order (some active) w = (refl, refl)

    -- With a session, a logout is reported complete exactly when its sync returned a durably
    -- drained receipt, the telemetry was flushed and the credentials were cleared.
    pub complete_iff :
        (active : SessionIdentity) (w : W)
        → let w1 = (sync w logout).0 in
          let w2 = (flush w1).0 in
          (complete (on_logout sync flush clear (some active) w).2 ≡ true) ↔ (
            ((r : DurableSyncReceipt) × ((sync w logout).1 ≡ ok r) × (durably_drained r ≡ true))
            × ((flush w1).1 ≡ ok tt)
            × ((clear w2 (some active)).1 ≡ ok tt))
    unfolding on_logout complete data_durably_drained telemetry_flushed logout_sync
    complete_iff active w = (λ h. ground arith, λ h. ground arith)
