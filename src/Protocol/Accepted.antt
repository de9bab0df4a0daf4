-- ===== src/Protocol/Accepted.antt =====
-- What an accepted or refused local write does to a queue of clients/rust/src/protocol.rs.
use opto_sync_clients.Base.{
  text_eq_refl, ℕ, ◌+◌, ◌≡◌, ◌≢◌, inl, inr, Bool, true, false, Option, some, List, [], ◌∷◌, ◌++◌,
  Text, ok, err, arith,
}
use opto_sync_clients.Protocol.Types.{Json, ProtocolMutation, ProtocolQueue, ProtocolError}
use opto_sync_clients.Protocol.Checks.{to_string, parse_decimal}
use opto_sync_clients.Protocol.Queue.{
  write_through_local_first, queue_upsert, queue_delete, queue_upsert_with_consistency,
  consistency_policy,
}
use opto_sync_clients.Protocol.Validate.{bad_decimal, validate}
use opto_sync_clients.Protocol.Decimal.{parse_decimal-to_string}
use opto_sync_clients.Protocol.Wellformed.{bad_decimal-IsRevision, Rows, IsValid, validate_iff}
use opto_sync_clients.Protocol.Writes.{
  upsert_row, delete_row, queue_upsert_cases, queue_delete_cases, appended-IsValid,
}
use opto_sync_clients.Base.Map.{or_insert, lookup-insert}

module _ {V : Type 0} (json : Json V) (q : ProtocolQueue V) (table record_id : Text)
    (base_revision : Option Text) where
  -- An upsert keeps a queue well formed if the base revision that it is given is a decimal, also
  -- when it is refused.
  pub queue_upsert-IsValid :
      (payload : V) (resurrect : Bool)
      → IsValid json q
      → bad_decimal base_revision ≡ false
      → IsValid json (queue_upsert json q table record_id payload base_revision resurrect).0
  queue_upsert-IsValid payload resurrect v b =
      elim (queue_upsert_cases json q table record_id base_revision payload resurrect) [
        | inl (e, refused) ↦ rw refused v
        | inr a ↦ rw a.done (
            appended-IsValid json q
              (upsert_row json table record_id payload base_revision resurrect) v (a.good b) a.room
              a.fresh)
      ]

  -- A delete keeps a queue well formed if the base revision that it is given is a decimal, also
  -- when it is refused.
  pub queue_delete-IsValid :
      IsValid json q
      → bad_decimal base_revision ≡ false
      → IsValid json (queue_delete q table record_id base_revision).0
  queue_delete-IsValid v b = elim (queue_delete_cases json q table record_id base_revision) [
    | inl (e, refused) ↦ rw refused v
    | inr a ↦ rw a.done (
        appended-IsValid json q (delete_row json table record_id base_revision) v (a.good b) a.room
          a.fresh)
  ]

  -- An accepted upsert gets the next id as its decimal, and appends one pending row with that id and
  -- what the caller gave; the rows before it, the checkpoint and the client id stay.
  pub queue_upsert_accepted :
      (payload : V) (resurrect : Bool) {q' : ProtocolQueue V} {id : Text}
      → queue_upsert json q table record_id payload base_revision resurrect ≡ (q', ok id)
      → (parse_decimal id ≡ ok q.next_mutation_id)
        × (q'.next_mutation_id ≡ q.next_mutation_id + 1)
        × (q'.mutations
            ≡ q.mutations
              ++ record (upsert_row json table record_id payload base_revision resurrect) {
                mutation_id = id;
              }
                ∷ [])
        × (q'.checkpoint ≡ q.checkpoint)
        × (q'.client_id ≡ q.client_id)
  queue_upsert_accepted payload resurrect h =
      elim (queue_upsert_cases json q table record_id base_revision payload resurrect) [
        | inl (e, refused) ↦ absurd (cc)
        | inr a ↦ ground (arith, a.done, a.fresh, parse_decimal-to_string q.next_mutation_id)
      ]

  -- A refused upsert changes nothing.
  pub queue_upsert_refused :
      (payload : V) (resurrect : Bool) {q' : ProtocolQueue V} {e : ProtocolError}
      → queue_upsert json q table record_id payload base_revision resurrect ≡ (q', err e)
      → q' ≡ q
  queue_upsert_refused payload resurrect h =
      elim (queue_upsert_cases json q table record_id base_revision payload resurrect) [
        | inl (x, refused) ↦ ground (arith, refused)
        | inr a ↦ ground (arith, a.done)
      ]

  -- The chosen policy is the one that is found under the new id.
  pub queue_upsert_policy :
      (payload : V) (resurrect : Bool) (policy : Text) {q' : ProtocolQueue V} {id : Text}
      → queue_upsert_with_consistency json q table record_id payload base_revision resurrect policy
        ≡ (q', ok id)
      → consistency_policy q' id ≡ some policy
  unfolding queue_upsert_with_consistency consistency_policy
  queue_upsert_policy payload resurrect policy {q'} {id} h =
      elim (queue_upsert_cases json q table record_id base_revision payload resurrect) [
        | inl (x, refused) ↦ absurd (ground (arith, refused))
        | inr a ↦ ground (
          arith,
          a.done,
          lookup-insert (to_string q.next_mutation_id) id policy (
              or_insert (to_string q.next_mutation_id) write_through_local_first
                q.consistency_policies),
          text_eq_refl id,
        )
      ]

-- A row with a base revision that is no decimal is in no well-formed queue.
last_row :
    {V : Type 0} (json : Json V) (next limit lo : ℕ) (ms : List (ProtocolMutation V))
    (m : ProtocolMutation V)
    → Rows json next limit lo (ms ++ m ∷ [])
    → bad_decimal m.base_revision ≡ false
last_row json next limit lo [] m (id, p, l, h, g, r) =
    (bad_decimal-IsRevision json m.base_revision).1 g.revision_ok
last_row json next limit lo (x ∷ ms) m (id, p, l, h, g, r) = last_row json next limit id ms m r

-- `queue_upsert` does not check the base revision: once it has accepted one that is no decimal,
-- `validate`, which deserialization runs, refuses the queue.
pub queue_upsert_bad_revision :
    {V : Type 0} (json : Json V) (q : ProtocolQueue V) (table record_id : Text)
    (base_revision : Option Text) (payload : V) (resurrect : Bool) {q' : ProtocolQueue V}
    {id : Text}
    → bad_decimal base_revision ≡ true
    → queue_upsert json q table record_id payload base_revision resurrect ≡ (q', ok id)
    → validate json q' ≢ ok tt
queue_upsert_bad_revision json q table record_id base_revision payload resurrect {q'} b h valid =
    let rows = ((validate_iff json q').0 valid).rows in
    let added =
      (queue_upsert_accepted json q table record_id base_revision payload resurrect h).2 in
    let good =
      last_row json q'.next_mutation_id q'.max_queued_payload_bytes 0 q.mutations _
        (rw added at rows) in
    cc
