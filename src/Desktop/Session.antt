-- ===== src/Desktop/Session.antt =====
-- clients/desktop-rust/src/session_lifecycle.rs: the order of sync, flush and credential clearing at
-- login and logout. The callbacks are parameters that thread the host's world `W`; the async
-- adapters make the same calls in the same order.
use opto_sync_clients.Base.{
  ℕ, Bool, true, false, ◌-◌, ◌&&◌, ◌||◌, not, Option, none, some, [], ◌∷◌, ltb, leb, ◌==◌,
  if◌then◌else◌, Text, text_eq, length, any, is_some, is_ok, checked_add, Result, ok, err,
}

pub data SessionSyncReason : Type 0 where
  login logout : SessionSyncReason

abbrev pub max_portable_session_integer : ℕ
max_portable_session_integer = 9007199254740991

pub record SessionIdentity : Type 0 where
  pub subject : Text
  pub tenant : Text
  pub auth_epoch : ℕ

pub data SessionError : Type 0 where
  bad_subject bad_tenant bad_epoch counters_too_large not_conserved session_switch : SessionError

-- Of the three-byte characters, those that `str::trim` removes.
is_wide_space : ℕ → ℕ → ℕ → Bool
is_wide_space a b c =
    (a == 225 && b == 154 && c == 128)
    || (a == 226 && b == 128 && (leb 128 c && leb c 138 || c == 168 || c == 169 || c == 175))
    || (a == 226 && b == 129 && c == 159)
    || (a == 227 && b == 128 && c == 128)

abbrev is_space : ℕ → Bool
is_space b = leb 9 b && leb b 13 || b == 32

-- `trim().is_empty()` on UTF-8 bytes: nothing but White_Space.
unfoldable pub is_blank : Text → Bool
unfolding is_wide_space
is_blank [] = true
is_blank (a ∷ []) = is_space a
is_blank (a ∷ b ∷ []) = is_space a && is_space b || a == 194 && (b == 133 || b == 160)
is_blank (a ∷ b ∷ c ∷ t) =
    let one = is_blank (b ∷ c ∷ t) in
    let two = is_blank (c ∷ t) in
    let three = is_blank t in
    is_space a && one || a == 194 && (b == 133 || b == 160) && two || is_wide_space a b c && three

unfoldable pub new_identity : Text → Text → ℕ → Result SessionIdentity SessionError
new_identity subject tenant auth_epoch =
    if is_blank subject || ltb 512 (length subject)
    then err bad_subject
    else if is_blank tenant || ltb 512 (length tenant)
    then err bad_tenant
    else if ltb max_portable_session_integer auth_epoch
    then err bad_epoch
    else ok (record { subject = subject; tenant = tenant; auth_epoch = auth_epoch })

pub record DurableSyncReceipt : Type 0 where
  pub pending_before : ℕ
  pub acknowledged : ℕ
  pub admitted_during_drain : ℕ
  pub pending_after : ℕ
  pub checkpoint_committed : Bool
  pub admission_fenced : Bool

-- `checked_sub` and then `checked_add`, compared with `Some(pending_after)`.
expects : ℕ → ℕ → ℕ → Option ℕ
expects pending_before acknowledged admitted =
    if ltb pending_before acknowledged
    then none
    else checked_add (pending_before - acknowledged) admitted

is_exactly : ℕ → Option ℕ → Bool
is_exactly n none = false
is_exactly n (some m) = m == n

unfoldable pub new_receipt : ℕ → ℕ → ℕ → ℕ → Bool → Bool → Result DurableSyncReceipt SessionError
unfolding expects is_exactly
new_receipt pending_before acknowledged admitted pending_after checkpoint_committed
      admission_fenced =
    if any (λ value. ltb max_portable_session_integer value)
      (pending_before ∷ acknowledged ∷ admitted ∷ pending_after ∷ [])
    then err counters_too_large
    else if not (is_exactly pending_after (expects pending_before acknowledged admitted))
    then err not_conserved
    else ok (record {
      pending_before = pending_before;
      acknowledged = acknowledged;
      admitted_during_drain = admitted;
      pending_after = pending_after;
      checkpoint_committed = checkpoint_committed;
      admission_fenced = admission_fenced;
    })

unfoldable pub durably_drained : DurableSyncReceipt → Bool
durably_drained r =
    r.pending_after == 0
    && r.acknowledged == r.pending_before
    && r.admitted_during_drain == 0
    && r.checkpoint_committed
    && r.admission_fenced

pub record SessionLoginReport (E : Type 0) : Type 0 where
  pub session : SessionIdentity
  pub sync_triggered : Bool
  pub receipt : Option DurableSyncReceipt
  pub sync_error : Option E

unfoldable pub sync_succeeded : {E : Type 0} → SessionLoginReport E → Bool
sync_succeeded r = r.sync_triggered && not (is_some r.sync_error)

pub record SessionLogoutReport (E T C : Type 0) : Type 0 where
  pub had_session : Bool
  pub credentials_cleared : Bool
  pub receipt : Option DurableSyncReceipt
  pub sync_error : Option E
  pub telemetry_error : Option T
  pub credential_error : Option C

is_drained : Option DurableSyncReceipt → Bool
is_drained none = false
is_drained (some receipt) = durably_drained receipt

module _ {E T C : Type 0} where
  unfoldable pub data_durably_drained : SessionLogoutReport E T C → Bool
  unfolding is_drained
  data_durably_drained r = not r.had_session || not (is_some r.sync_error) && is_drained r.receipt

  unfoldable pub telemetry_flushed : SessionLogoutReport E T C → Bool
  telemetry_flushed r = not (is_some r.telemetry_error)

  unfoldable pub complete : SessionLogoutReport E T C → Bool
  complete r = data_durably_drained r && telemetry_flushed r && r.credentials_cleared

-- The lifecycle is its `session`.
abbrev pub Session : Type 0
Session = Option SessionIdentity

abbrev pub identity_eq : SessionIdentity → SessionIdentity → Bool
identity_eq a b =
    text_eq a.subject b.subject && text_eq a.tenant b.tenant && a.auth_epoch == b.auth_epoch

-- `Result::ok` and `Result::err`.
abbrev pub ok_of : {A E : Type 0} → Result A E → Option A
ok_of (ok a) = some a
ok_of (err e) = none

abbrev pub err_of : {A E : Type 0} → Result A E → Option E
err_of (ok a) = none
err_of (err e) = some e

module _ {W E : Type 0} (sync : W → SessionSyncReason → W × Result DurableSyncReceipt E) where
  unfoldable pub on_login :
      Session → SessionIdentity → W → Session × W × Result (SessionLoginReport E) SessionError
  on_login (some current) next w =
      if not (identity_eq current next) then (some current, w, err session_switch) else (
        some current,
        w,
        ok (record {
          session = current;
          sync_triggered = false;
          receipt = none;
          sync_error = none;
        }),
      )
  on_login none next w =
      let (w', result) = sync w login in
      (
        some next,
        w',
        ok (record {
          session = next;
          sync_triggered = true;
          receipt = ok_of result;
          sync_error = err_of result;
        }),
      )

  -- The sync of a logout, if there is a session.
  unfoldable pub logout_sync : Session → W → W × Option DurableSyncReceipt × Option E
  logout_sync none w = (w, none, none)
  logout_sync (some current) w =
      let (w', result) = sync w logout in (w', ok_of result, err_of result)

  unfoldable pub on_logout :
      {T C : Type 0}
      → (W → W × Result (Unit {0}) T)
      → (W → Option SessionIdentity → W × Result (Unit {0}) C)
      → Session
      → W
      → Session × W × SessionLogoutReport E T C
  on_logout force_flush_telemetry clear_credentials current w =
      let (w1, receipt, sync_error) = logout_sync current w in
      let (w2, flushed) = force_flush_telemetry w1 in
      let (w3, credential_result) = clear_credentials w2 current in
      (
        none,
        w3,
        record {
          had_session = is_some current;
          credentials_cleared = is_ok credential_result;
          receipt = receipt;
          sync_error = sync_error;
          telemetry_error = err_of flushed;
          credential_error = err_of credential_result;
        },
      )
