-- ===== src/Protocol/Wellformed.antt =====
-- What a queue of clients/rust/src/protocol.rs keeps between two calls, stated without `validate`,
-- which decides it.
use opto_sync_clients.Base.{
  Bool-cases, filter, Bool, ℕ, ◌+◌, ◌≤◌, ◌<◌, ◌≡◌, ◌↔◌, ◌⊎◌, inl, inr, refl, ap, true, false, List,
  [], ◌∷◌, Result, ok, err, is_ok, length, arith, Option, none, some, Text, Option-cases,
}
use opto_sync_clients.Protocol.Types.{
  Operation, upsert, delete, Json, ProtocolMutation, ProtocolQueue,
}
use opto_sync_clients.Protocol.Checks.{max_i64, valid_scope_id, valid_record_id, parse_decimal}
use opto_sync_clients.Protocol.Queue.{pending_of}
use opto_sync_clients.Protocol.Validate.{
  encoded_fits, bad_decimal, content_ok, check_row, check_rows, validate, pending_count,
}

pub Result-cases {ℓ κ} :
    {A : Type ℓ} {E : Type κ} (r : Result A E) → ((a : A) × (r ≡ ok a)) ⊎ ((e : E) × (r ≡ err e))
Result-cases (ok a) = inl (a, refl)
Result-cases (err e) = inr (e, refl)

module _ {V : Type 0} (json : Json V) where
  -- A write carries an object whose encoding fits, and a deletion carries nothing.
  abbrev pub IsContent : ℕ → Operation → Option V → Bool → Type 0
  IsContent limit upsert none resurrect = ⊥
  IsContent limit upsert (some payload) resurrect =
      (json.is_object payload ≡ true)
      × ((bytes : ℕ) × (json.encoded_len payload ≡ some bytes) × (bytes ≤ limit))
  IsContent limit delete payload resurrect = (payload ≡ none) × (resurrect ≡ false)

  abbrev pub IsRevision : Option Text → Type 0
  IsRevision none = Unit {0}
  IsRevision (some revision) = (n : ℕ) × (parse_decimal revision ≡ ok n)

  pub content_ok-IsContent :
      (limit : ℕ) (operation : Operation) (payload : Option V) (resurrect : Bool)
      → (content_ok json limit operation payload resurrect ≡ true)
        ↔ IsContent limit operation payload resurrect
  unfolding content_ok encoded_fits
  content_ok-IsContent limit upsert none resurrect = (λ h. absurd (cc), λ c. absurd c)
  content_ok-IsContent limit upsert (some payload) resurrect =
      elim (Option-cases (json.encoded_len payload)) [
        | inl e ↦ (λ h. absurd (ground arith), λ (o, (n, f, l)). ground arith)
        | inr (bytes, e) ↦
            (λ h. (ground arith, (bytes, e, ground arith)), λ (o, (n, f, l)). ground arith)
      ]
  content_ok-IsContent limit delete none true = (λ h. absurd (cc), λ (p, r). absurd (cc))
  content_ok-IsContent limit delete none false = (λ h. (refl, refl), λ c. refl)
  content_ok-IsContent limit delete (some payload) resurrect =
      (λ h. absurd (cc), λ (p, r). absurd (cc))

  pub bad_decimal-IsRevision :
      (revision : Option Text) → (bad_decimal revision ≡ false) ↔ IsRevision revision
  bad_decimal-IsRevision none = (λ h. tt, λ r. refl)
  bad_decimal-IsRevision (some revision) = elim (Result-cases (parse_decimal revision)) [
    | inl (n, e) ↦ (λ h. (n, e), λ r. ground arith)
    | inr (x, e) ↦ (λ h. absurd (ground arith), λ (n, f). absurd (ground arith))
  ]

  pub record IsGoodRow (limit : ℕ) (m : ProtocolMutation V) : Type 0 where
    pub table_ok : valid_scope_id m.table ≡ true
    pub record_ok : valid_record_id m.record_id ≡ true
    pub revision_ok : IsRevision m.base_revision
    pub content : IsContent limit m.operation m.payload m.resurrect

  -- The ids are decimal texts that rise strictly above `lo` and stay below `next`.
  abbrev pub Rows : ℕ → ℕ → ℕ → List (ProtocolMutation V) → Type 0
  Rows next limit lo [] = Unit {0}
  Rows next limit lo (m ∷ ms) =
      (id : ℕ) × (parse_decimal m.mutation_id ≡ ok id)
      × (lo < id)
      × (id < next)
      × IsGoodRow limit m
      × Rows next limit id ms

  pub record IsValid (q : ProtocolQueue V) : Type 0 where
    pub client_ok : valid_scope_id q.client_id ≡ true
    pub capacity : 0 < q.max_pending_mutations
    pub bytes : 2 ≤ q.max_queued_payload_bytes
    pub checkpoint_ok : is_ok (parse_decimal q.checkpoint) ≡ true
    pub next_pos : 0 < q.next_mutation_id
    pub next_le : q.next_mutation_id ≤ max_i64 + 1
    pub rows : Rows q.next_mutation_id q.max_queued_payload_bytes 0 q.mutations
    pub pending_le : length (pending_of q.mutations) ≤ q.max_pending_mutations

  check_row_sound :
      (q : ProtocolQueue V) (prior : ℕ) (m : ProtocolMutation V) (id : ℕ)
      → check_row json q prior m ≡ ok id
      → (parse_decimal m.mutation_id ≡ ok id)
        × (prior < id)
        × (id < q.next_mutation_id)
        × IsGoodRow q.max_queued_payload_bytes m
  unfolding check_row
  check_row_sound q prior m id h =
      let content : content_ok json q.max_queued_payload_bytes m.operation m.payload m.resurrect
          ≡ true =
        ground arith in
      (
        ground arith,
        ground arith,
        ground arith,
        record {
          table_ok = ground arith;
          record_ok = ground arith;
          revision_ok = (bad_decimal-IsRevision m.base_revision).0 (ground arith);
          content =
              (content_ok-IsContent q.max_queued_payload_bytes m.operation m.payload m.resurrect).0
                content;
        },
      )

  check_row_complete :
      (q : ProtocolQueue V) (prior : ℕ) (m : ProtocolMutation V) (id : ℕ)
      → parse_decimal m.mutation_id ≡ ok id
      → prior < id
      → id < q.next_mutation_id
      → IsGoodRow q.max_queued_payload_bytes m
      → check_row json q prior m ≡ ok id
  unfolding check_row
  check_row_complete q prior m id h l u g =
      let revision = (bad_decimal-IsRevision m.base_revision).1 g.revision_ok in
      let content =
        (content_ok-IsContent q.max_queued_payload_bytes m.operation m.payload m.resurrect).1
          g.content in
      let table = g.table_ok in let row = g.record_ok in ground arith

  pending-cons :
      (m : ProtocolMutation V) (ms : List (ProtocolMutation V))
      → length (pending_of (m ∷ ms)) ≡ pending_count m.status + length (pending_of ms)
  pending-cons m ms = ground arith

  check_rows_sound :
      (q : ProtocolQueue V) (prior count n : ℕ) (ms : List (ProtocolMutation V))
      → check_rows json q prior count ms ≡ ok n
      → Rows q.next_mutation_id q.max_queued_payload_bytes prior ms
        × (n ≡ count + length (pending_of ms))
  unfolding check_rows
  check_rows_sound q prior count n [] h = (tt, ground arith)
  check_rows_sound q prior count n (m ∷ ms) h = elim (Result-cases (check_row json q prior m)) [
    | inl (id, e) ↦
        let (parsed, low, high, good) = check_row_sound q prior m id e in
        let (rest, total) =
          check_rows_sound q id (count + pending_count m.status) n ms (rw (e, check_rows) at h) in
        ((id, parsed, low, high, good, rest), omega (arith, pending-cons m ms))
    | inr (x, e) ↦ let h' : err x ≡ ok n = rw (e, check_rows) at h in cc
  ]

  check_rows_complete :
      (q : ProtocolQueue V) (prior count : ℕ) (ms : List (ProtocolMutation V))
      → Rows q.next_mutation_id q.max_queued_payload_bytes prior ms
      → check_rows json q prior count ms ≡ ok (count + length (pending_of ms))
  unfolding check_rows
  check_rows_complete q prior count [] h = ground arith
  check_rows_complete q prior count (m ∷ ms) (id, parsed, low, high, good, rest) =
      rw (check_row_complete q prior m id parsed low high good, check_rows)
        (rw (check_rows_complete q id (count + pending_count m.status) ms rest)
          (ap ok (omega (arith, pending-cons m ms))))

  pub filter-Rows :
      (p : ProtocolMutation V → Bool) (next limit lo low : ℕ) (ms : List (ProtocolMutation V))
      → lo ≤ low
      → Rows next limit low ms
      → Rows next limit lo (filter p ms)
  filter-Rows p next limit lo low [] h r = tt
  filter-Rows p next limit lo low (m ∷ ms) h (id, parsed, above, high, good, rest) =
      elim (Bool-cases (p m)) [
        | inl kept ↦
            rw (kept, filter)
              (
                id,
                parsed,
                omega arith,
                high,
                good,
                filter-Rows p next limit id id ms (omega arith) rest,
              )
        | inr gone ↦ rw (gone, filter) (filter-Rows p next limit lo id ms (omega arith) rest)
      ]

  -- `validate` accepts a queue exactly when it is well formed: its client, its limits, its decimal
  -- checkpoint and its next id are in range, the ids of its rows are decimals that rise from 1 and
  -- stay below the next id, each row has identifiers that the code's checks of identifiers allow and
  -- a decimal base revision where it has one, a write carries an object whose encoding fits and a
  -- deletion carries nothing, and no more rows are pending than the limit.
  pub validate_iff : (q : ProtocolQueue V) → (validate json q ≡ ok tt) ↔ IsValid q
  unfolding validate
  validate_iff q = (sound, λ v. ground (arith, check_rows_complete q 0 0 q.mutations v.rows))
    where
      sound : validate json q ≡ ok tt → IsValid q
      sound h = elim (Result-cases (check_rows json q 0 0 q.mutations)) [
        | inl (n, e) ↦
            let (rows, total) = check_rows_sound q 0 0 n q.mutations e in
            record {
              client_ok = ground arith;
              capacity = ground arith;
              bytes = ground arith;
              checkpoint_ok = ground arith;
              next_pos = ground arith;
              next_le = ground arith;
              rows = rows;
              pending_le = ground arith;
            }
        | inr (x, e) ↦ absurd (ground arith)
      ]
