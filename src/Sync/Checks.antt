-- ===== src/Sync/Checks.antt =====
-- The checks of clients/rust/src/protocol_sync.rs on options, pages and snapshots, and the retry
-- delay. The file has a `parse_decimal` of its own, which returns an `Option`.
use opto_sync_clients.Base.{
  ℕ, ◌-◌, ◌*◌, ◌^◌, Bool, true, false, ◌&&◌, ◌||◌, not, Option, none, some, List, [], ◌∷◌, ltb, leb,
  ◌==◌, if◌then◌else◌, Result, ok, err, Text, length, all, any, is_empty, is_ascii_digit, is_some,
  u64_mod, min, max,
}
use opto_sync_clients.Protocol.Types.{
  Json, Operation, upsert, delete, ProtocolError, invalid_limit, SnapshotRecord, SnapshotResponse,
}
use opto_sync_clients.Protocol.Checks.{starts_with_zero, digits_value}
use opto_sync_clients.Sync.Types.{
  Change, ChangeSource, PullResponse, ResponseFault, bad_snapshot, bad_local_checkpoint, bad_page,
  bad_change, ProtocolSyncOptions,
}

-- `ProtocolSyncOptions::default`.
abbrev pub default_options : ProtocolSyncOptions
default_options = record {
  push_limit = 100;
  pull_limit = 100;
  max_push_batches_per_cycle = 10;
  max_pull_pages_per_phase = 100;
}

unfoldable pub validate : ProtocolSyncOptions → Result ProtocolSyncOptions ProtocolError
validate options =
    if not (leb 1 options.push_limit && leb options.push_limit 100)
      || not (leb 1 options.pull_limit && leb options.pull_limit 1000)
      || options.max_push_batches_per_cycle == 0
      || options.max_pull_pages_per_phase == 0
    then err invalid_limit
    else ok options

-- `ProtocolSyncDriver::new`; a driver is its options.
unfoldable pub new : ProtocolSyncOptions → Result ProtocolSyncOptions ProtocolError
unfolding validate
new options = validate options

-- `value.parse().ok()` for a text of digits.
parse_u64 : Text → Option ℕ
parse_u64 value = if ltb (digits_value 0 value) u64_mod then some (digits_value 0 value) else none

unfoldable pub parse_decimal : Text → Option ℕ
unfolding parse_u64
parse_decimal value =
    if is_empty value
      || (ltb 1 (length value) && starts_with_zero value)
      || not (all is_ascii_digit value)
    then none
    else parse_u64 value

-- `parse_decimal(..).is_none_or(|n| n == 0)`.
unfoldable pub not_positive : Text → Bool
unfolding parse_decimal
not_positive value = elim (parse_decimal value) [ none ↦ true | some n ↦ n == 0 ]

-- `change.source.is_some_and(..)`.
unfoldable pub bad_source : Option ChangeSource → Bool
unfolding not_positive
bad_source none = false
bad_source (some source) = is_empty source.client_id || not_positive source.mutation_id

module _ {V : Type 0} (json : Json V) where
  unfoldable pub bad_record : SnapshotRecord V → Bool
  unfolding not_positive
  bad_record r =
      is_empty r.table
      || is_empty r.record_id
      || not (json.is_object r.content)
      || not_positive r.revision

  unfoldable pub snapshot_after :
      SnapshotResponse V → Option ℕ → Option ℕ → Result (Unit {0}) ResponseFault
  unfolding bad_record
  snapshot_after snapshot none prior = err bad_snapshot
  snapshot_after snapshot (some checkpoint) none = err bad_local_checkpoint
  snapshot_after snapshot (some checkpoint) (some prior) =
      if not (snapshot.protocol_version == 1)
        || ltb checkpoint prior
        || any bad_record snapshot.records
      then err bad_snapshot
      else ok tt

  unfoldable pub validate_snapshot : SnapshotResponse V → Text → Result (Unit {0}) ResponseFault
  unfolding snapshot_after parse_decimal
  validate_snapshot snapshot prior_checkpoint =
      snapshot_after snapshot (parse_decimal snapshot.checkpoint) (parse_decimal prior_checkpoint)

  -- The `match` on the operation: an upsert carries an object, a deletion nothing.
  unfoldable pub bad_content : Operation → Option V → Bool
  bad_content upsert none = true
  bad_content upsert (some content) = not (json.is_object content)
  bad_content delete content = is_some content

  -- The loop over the changes: each checkpoint is above the one before.
  unfoldable pub check_changes : ℕ → ℕ → List (Change V) → Result (Unit {0}) ResponseFault
  unfolding parse_decimal not_positive bad_content bad_source
  check_changes page_checkpoint last [] = ok tt
  check_changes page_checkpoint last (change ∷ changes) = elim (parse_decimal change.checkpoint) [
    | none ↦ err bad_change
    | some checkpoint ↦
        let rest = check_changes page_checkpoint checkpoint changes in
        if leb checkpoint last
          || ltb page_checkpoint checkpoint
          || is_empty change.table
          || is_empty change.record_id
          || not_positive change.revision
          || bad_content change.operation change.content
          || bad_source change.source
        then err bad_change
        else rest
  ]

  unfoldable pub page_after : PullResponse V → Option ℕ → Option ℕ → Result (Unit {0}) ResponseFault
  unfolding check_changes
  page_after page none prior = err bad_page
  page_after page (some page_checkpoint) none = err bad_local_checkpoint
  page_after page (some page_checkpoint) (some last) =
      if not (page.protocol_version == 1) || ltb page_checkpoint last
      then err bad_page
      else check_changes page_checkpoint last page.changes

  unfoldable pub validate_pull_page : PullResponse V → Text → Result (Unit {0}) ResponseFault
  unfolding page_after parse_decimal
  validate_pull_page page prior_checkpoint =
      page_after page (parse_decimal page.checkpoint) (parse_decimal prior_checkpoint)

-- A `Duration` in nanoseconds: its seconds are a `u64`.
abbrev pub duration_mod : ℕ
duration_mod = u64_mod * 1000000000

-- `base.checked_mul(1 << exponent).unwrap_or(maximum).min(maximum)`.
unfoldable pub retry_ceiling : ℕ → ℕ → ℕ → ℕ
retry_ceiling consecutive_failure base maximum =
    let product = base * 2 ^ min (consecutive_failure - 1) 30 in
    if ltb product duration_mod then min product maximum else min maximum maximum

-- How `compute_protocol_retry_delay` ends; `Duration::from_secs_f64` panics on what is no
-- `Duration`.
pub data RetryDelay : Type 0 where
  delay : ℕ → RetryDelay
  refused : ProtocolError → RetryDelay
  overflowed : RetryDelay

-- `.max(retry_after)`.
abbrev pub at_least : ℕ → Option ℕ → RetryDelay
at_least retry_after none = overflowed
at_least retry_after (some scaled) = delay (max scaled retry_after)

-- The sample is a floating-point number `F`: whether it is finite and between 0 and 1, and
-- `Duration::from_secs_f64(ceiling.as_secs_f64() * sample)`, which is `none` where it panics, are
-- parameters.
unfoldable pub compute_protocol_retry_delay :
    {F : Type 0} → (F → Bool) → (ℕ → F → Option ℕ) → ℕ → ℕ → ℕ → F → ℕ → RetryDelay
unfolding retry_ceiling
compute_protocol_retry_delay in_unit scaled consecutive_failure base maximum sample retry_after =
    if consecutive_failure == 0 || base == 0 || ltb maximum base || not (in_unit sample)
    then refused invalid_limit
    else at_least retry_after (scaled (retry_ceiling consecutive_failure base maximum) sample)
