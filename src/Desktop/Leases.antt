-- ===== src/Desktop/Leases.antt =====
-- The leases of clients/desktop-rust/src/lib.rs: requests, grants and the store in memory. A
-- `BTreeMap` is an association list with one entry per key; `u128` is a number.
use opto_sync_clients.Base.{
  ◌∷◌, List, [], ℕ, Bool, false, ◌+◌, ◌&&◌, Option, none, some, ltb, if◌then◌else◌, Text, text_eq,
}
use opto_sync_clients.Base.Map.{Map, lookup, insert, remove}
use opto_sync_clients.Protocol.Checks.{to_string}

pub record DesktopLeaseRequest : Type 0 where
  pub key : Text
  pub owner_id : Text
  pub token : Text
  pub now_ms : ℕ
  pub expires_at_ms : ℕ

pub record DesktopLeaseGrant : Type 0 where
  pub key : Text
  pub owner_id : Text
  pub token : Text
  pub fence : Text
  pub expires_at_ms : ℕ

pub record InMemoryDesktopLeaseStore : Type 0 where
  pub leases : Map DesktopLeaseGrant
  pub fences : Map ℕ

abbrev pub empty_store : InMemoryDesktopLeaseStore
empty_store = record { leases = []; fences = [] }

-- `is_some_and(|current| current.expires_at_ms > now)`.
unfoldable pub holds_at : ℕ → Option DesktopLeaseGrant → Bool
holds_at now none = false
holds_at now (some current) = ltb now current.expires_at_ms

-- `or_default()`.
abbrev pub fence_of : Option ℕ → ℕ
fence_of none = 0
fence_of (some fence) = fence

abbrev pub max_u128 : ℕ
max_u128 = 340282366920938463463374607431768211455

-- `u128::saturating_add(1)`.
abbrev pub next_fence : ℕ → ℕ
next_fence fence = if ltb fence max_u128 then fence + 1 else max_u128

unfoldable pub granted : DesktopLeaseRequest → ℕ → DesktopLeaseGrant
granted request fence = record {
  key = request.key;
  owner_id = request.owner_id;
  token = request.token;
  fence = to_string fence;
  expires_at_ms = request.expires_at_ms;
}

-- `try_acquire`, whose error type is empty.
unfoldable pub try_acquire :
    InMemoryDesktopLeaseStore
    → DesktopLeaseRequest
    → InMemoryDesktopLeaseStore × Option DesktopLeaseGrant
try_acquire store request =
    if holds_at request.now_ms (lookup request.key store.leases)
    then (store, none)
    else let fence = next_fence (fence_of (lookup request.key store.fences)) in
      let grant = granted request fence in
      (
        record {
          leases = insert request.key grant store.leases;
          fences = insert request.key fence store.fences;
        },
        some grant,
      )

-- `is_some_and` in `release`.
unfoldable pub same_lease : DesktopLeaseGrant → Option DesktopLeaseGrant → Bool
same_lease grant none = false
same_lease grant (some current) =
    text_eq current.token grant.token && text_eq current.fence grant.fence

unfoldable pub release : InMemoryDesktopLeaseStore → DesktopLeaseGrant → InMemoryDesktopLeaseStore
release store grant =
    if same_lease grant (lookup grant.key store.leases)
    then record store { leases = remove grant.key store.leases }
    else store

-- What any of the owners that share a store asks of it.
pub data LeaseStep : Type 0 where
  acquire : DesktopLeaseRequest → LeaseStep
  give_back : DesktopLeaseGrant → LeaseStep

unfoldable pub lease_step : InMemoryDesktopLeaseStore → LeaseStep → InMemoryDesktopLeaseStore
lease_step store (acquire request) = (try_acquire store request).0
lease_step store (give_back grant) = release store grant

unfoldable pub lease_steps : InMemoryDesktopLeaseStore → List LeaseStep → InMemoryDesktopLeaseStore
lease_steps store [] = store
lease_steps store (step ∷ steps) = lease_steps (lease_step store step) steps
