-- ===== src/Protocol/Writes.antt =====
-- Local writes of clients/rust/src/protocol.rs: `queue_upsert`, `queue_delete` and their `queue`.
use opto_sync_clients.Base.{
  true, Option-cases, false, some, none, Bool, Option, Result, ℕ, ◌+◌, ◌&&◌, ◌≤◌, ◌<◌, ◌≡◌, ◌⊎◌,
  inl, inr, refl, ap, List, [], ◌∷◌, ◌++◌, ok, err, length, arith, Text, text, filter-append,
  length-append, Bool-cases, ltb, leb,
}
use opto_sync_clients.Base.Map.{or_insert}
use opto_sync_clients.Protocol.Types.{
  invalid_payload, pending, invalid_target, upsert, delete, Json, ProtocolMutation, ProtocolQueue,
  ProtocolError, payload_too_large, queue_full, mutation_id_exhausted,
}
use opto_sync_clients.Protocol.Checks.{
  valid_record_id, valid_scope_id, max_i64, can_allocate_mutation_id, parse_decimal, to_string,
}
use opto_sync_clients.Protocol.Queue.{
  queue_delete, queue_upsert, pending_of, queue, with_limits, still_pending,
  write_through_local_first,
}
use opto_sync_clients.Protocol.Decimal.{parse_decimal-to_string}
use opto_sync_clients.Protocol.Wellformed.{IsValid, IsGoodRow, Rows}
use opto_sync_clients.Protocol.Validate.{content_ok, bad_decimal}

-- What a write appends: the mutation under the next id.
abbrev pub appended : {V : Type 0} → ProtocolQueue V → ProtocolMutation V → ProtocolQueue V
appended q m = record q {
  next_mutation_id = q.next_mutation_id + 1;
  mutations = q.mutations ++ record m { mutation_id = to_string q.next_mutation_id } ∷ [];
  consistency_policies =
      or_insert (to_string q.next_mutation_id) write_through_local_first q.consistency_policies;
}

zero_text : parse_decimal (text "0") ≡ ok 0
unfolding parse_decimal
zero_text = refl

module _ {V : Type 0} where
  -- `queue` appends the mutation under the next id, or changes nothing.
  pub queue_cases :
      (q : ProtocolQueue V) (m : ProtocolMutation V) (bytes : ℕ)
      → ((e : ProtocolError) × (queue q m bytes ≡ (q, err e)))
        ⊎ ((queue q m bytes ≡ (appended q m, ok (to_string q.next_mutation_id)))
            × (bytes ≤ q.max_queued_payload_bytes)
            × (length (pending_of q.mutations) < q.max_pending_mutations)
            × (q.next_mutation_id ≤ max_i64))
  unfolding queue can_allocate_mutation_id
  queue_cases q m bytes = elim (Bool-cases (ltb q.max_queued_payload_bytes bytes)) [
    | inl big ↦ inl (payload_too_large, rw (big, queue) refl)
    | inr fits ↦ elim (Bool-cases (leb q.max_pending_mutations (length (pending_of q.mutations)))) [
      | inl full ↦ inl (queue_full, rw (fits, full, queue) refl)
      | inr room ↦ elim (Bool-cases (can_allocate_mutation_id q.next_mutation_id)) [
        | inl fresh ↦ inr (ground arith, ground arith, ground arith, ground arith)
        | inr spent ↦ inl (mutation_id_exhausted, ground arith)
      ]
    ]
  ]

module _ {V : Type 0} (json : Json V) where
  Rows-snoc :
      (next limit lo : ℕ) (ms : List (ProtocolMutation V)) (m : ProtocolMutation V)
      → Rows json next limit lo ms
      → lo < next
      → parse_decimal m.mutation_id ≡ ok next
      → IsGoodRow json limit m
      → Rows json (next + 1) limit lo (ms ++ m ∷ [])
  Rows-snoc next limit lo [] m r l p g = (next, p, l, omega arith, g, tt)
  Rows-snoc next limit lo (x ∷ ms) m (id, parsed, low, high, good, rest) l p g =
      (id, parsed, low, omega arith, good, Rows-snoc next limit id ms m rest high p g)

  pub appended-IsValid :
      (q : ProtocolQueue V) (m : ProtocolMutation V)
      → IsValid json q
      → IsGoodRow json q.max_queued_payload_bytes m
      → length (pending_of q.mutations) < q.max_pending_mutations
      → q.next_mutation_id ≤ max_i64
      → IsValid json (appended q m)
  appended-IsValid q m v g room low = record {
    client_ok = v.client_ok;
    capacity = v.capacity;
    bytes = v.bytes;
    checkpoint_ok = v.checkpoint_ok;
    next_pos = omega arith;
    next_le = omega arith;
    rows =
        Rows-snoc q.next_mutation_id q.max_queued_payload_bytes 0 q.mutations
          (record m { mutation_id = to_string q.next_mutation_id }) v.rows v.next_pos
          (parse_decimal-to_string q.next_mutation_id (omega arith))
          (record {
            table_ok = g.table_ok;
            record_ok = g.record_ok;
            revision_ok = g.revision_ok;
            content = g.content;
          });
    pending_le =
        rw
          (ap length (
            filter-append still_pending q.mutations
              (record m { mutation_id = to_string q.next_mutation_id } ∷ [])))
          (ground (
            arith,
            length-append (pending_of q.mutations)
                (pending_of (record m { mutation_id = to_string q.next_mutation_id } ∷ [])),
          ));
  }

  -- A new queue is well formed.
  pub with_limits-IsValid :
      (client_id : Text) (max_pending max_bytes : ℕ) {q : ProtocolQueue V}
      → with_limits client_id max_pending max_bytes ≡ ok q
      → IsValid json q
  unfolding with_limits
  with_limits-IsValid client_id max_pending max_bytes {q} h =
      let none_yet : q.mutations ≡ [] = ground arith in
      record {
        client_ok = ground arith;
        capacity = ground arith;
        bytes = ground arith;
        checkpoint_ok = ground (arith, zero_text);
        next_pos = ground arith;
        next_le = ground arith;
        rows = rw none_yet tt;
        pending_le = ground arith;
      }

  abbrev pub upsert_row : Text → Text → V → Option Text → Bool → ProtocolMutation V
  upsert_row table record_id payload base_revision resurrect = record {
    mutation_id = [];
    operation = upsert;
    table = table;
    record_id = record_id;
    payload = some payload;
    base_revision = base_revision;
    resurrect = resurrect;
    status = pending;
  }

  abbrev pub delete_row : Text → Text → Option Text → ProtocolMutation V
  delete_row table record_id base_revision = record {
    mutation_id = [];
    operation = delete;
    table = table;
    record_id = record_id;
    payload = none;
    base_revision = base_revision;
    resurrect = false;
    status = pending;
  }

  -- What is known of the queue and the row when a write went through.
  pub record IsAppended (q : ProtocolQueue V) (m : ProtocolMutation V)
      (r : ProtocolQueue V × Result Text ProtocolError) : Type 0 where
    pub done : r ≡ (appended q m, ok (to_string q.next_mutation_id))
    pub room : length (pending_of q.mutations) < q.max_pending_mutations
    pub fresh : q.next_mutation_id ≤ max_i64
    pub good : bad_decimal m.base_revision ≡ false → IsGoodRow json q.max_queued_payload_bytes m

  upsert-IsGoodRow :
      (table record_id : Text) (payload : V) (base_revision : Option Text) (resurrect : Bool)
      (bytes : ℕ) {limit : ℕ}
      → json.encoded_len payload ≡ some bytes
      → (valid_scope_id table && valid_record_id record_id && json.is_object payload) ≡ true
      → bytes ≤ limit
      → bad_decimal base_revision ≡ false
      → IsGoodRow json limit (upsert_row table record_id payload base_revision resurrect)
  unfolding content_ok
  upsert-IsGoodRow table record_id payload base_revision resurrect bytes e valid fits b =
      ground arith

  delete-IsGoodRow :
      (table record_id : Text) (base_revision : Option Text) (limit : ℕ)
      → (valid_scope_id table && valid_record_id record_id) ≡ true
      → bad_decimal base_revision ≡ false
      → IsGoodRow json limit (delete_row table record_id base_revision)
  unfolding content_ok
  delete-IsGoodRow table record_id base_revision limit valid b = ground arith

  module _ (q : ProtocolQueue V) (table record_id : Text) (base_revision : Option Text) where
    pub queue_upsert_cases :
        (payload : V) (resurrect : Bool)
        → ((e : ProtocolError) × (queue_upsert json q table record_id payload base_revision
                resurrect
              ≡ (q, err e)))
          ⊎ IsAppended q
              (upsert_row table record_id payload base_revision resurrect)
              (queue_upsert json q table record_id payload base_revision resurrect)
    unfolding queue_upsert
    queue_upsert_cases payload resurrect =
        elim (Bool-cases
          (valid_scope_id table && valid_record_id record_id && json.is_object payload)) [
            | inr bad ↦ elim (Bool-cases (valid_scope_id table && valid_record_id record_id)) [
              | inr target ↦ inl (invalid_target, ground arith)
              | inl target ↦ inl (invalid_payload, ground arith)
            ]
            | inl valid ↦ elim (Option-cases (json.encoded_len payload)) [
              | inl e ↦ inl (invalid_payload, ground arith)
              | inr (bytes, e) ↦
                  elim (queue_cases q (upsert_row table record_id payload base_revision resurrect)
                    bytes) [
                      | inl (x, refused) ↦ inl (x, ground arith)
                      | inr (accepted, fits, room, fresh) ↦ inr (record {
                        done = ground arith;
                        room = room;
                        fresh = fresh;
                        good =
                            upsert-IsGoodRow table record_id payload base_revision resurrect bytes e
                              valid fits;
                      })
                    ]
            ]
          ]

    pub queue_delete_cases :
        ((e : ProtocolError) × (queue_delete q table record_id base_revision ≡ (q, err e)))
        ⊎ IsAppended q
            (delete_row table record_id base_revision)
            (queue_delete q table record_id base_revision)
    unfolding queue_delete
    queue_delete_cases = elim (Bool-cases (valid_scope_id table && valid_record_id record_id)) [
      | inr bad ↦ inl (invalid_target, ground arith)
      | inl target ↦ elim (queue_cases q (delete_row table record_id base_revision) 2) [
        | inl (e, refused) ↦ inl (e, ground arith)
        | inr (accepted, fits, room, fresh) ↦ inr (record {
          done = ground arith;
          room = room;
          fresh = fresh;
          good = delete-IsGoodRow table record_id base_revision q.max_queued_payload_bytes target;
        })
      ]
    ]
