-- ===== src/Consistency/Views.antt =====
-- The overlay of the read model of clients/rust/src/consistency.rs.
use opto_sync_clients.Base.{
  ◌++◌, text, ◌≡◌, ◌⊎◌, refl, ap, ◌∙◌, Bool, true, false, not, ◌&&◌, Option, none, some, List, [],
  ◌∷◌, Result, ok, err, Text, text_eq, text_eq_sound, text_eq_refl, inl, inr, arith, Bool-cases,
  filter, any, All, if◌then◌else◌,
}
use opto_sync_clients.Base.Map.{Map, lookup, insert, lookup-insert}
use opto_sync_clients.Protocol.Wellformed.{Result-cases}
use opto_sync_clients.Base.Sorted.{IsSorted, insert-IsSorted}
use mathlib.Core.List.{Permᴰ}
use opto_sync_clients.Consistency.Bases.{base_view-IsSorted}
use opto_sync_clients.Consistency.Listing.{
  values, IsOrdered, sorted_values-Permᴰ, sorted_values-IsOrdered,
}
use opto_sync_clients.Consistency.Policy.{
  remote_acknowledged, write_through_local_first, queued_local_first, ConsistencyError,
  ConsistencyPolicy, canonicalize_consistency_policy,
}
use opto_sync_clients.Consistency.Reads.{
  finish_read, OverlayEntry, ProjectedRow, ReadReconciliationInput, record_key, overlaid,
  revision_of, or_payload, overlay_rows, waits_for_server, reconcile_read_model, base_view,
  sorted_values,
}

module _ {V : Type 0} where
  -- Whether an entry is seen: the server has not acknowledged it, and it is not one that waits
  -- for the server to be seen.
  hidden_by : OverlayEntry V → Result ConsistencyPolicy ConsistencyError → Bool
  hidden_by entry (ok remote_acknowledged) = text_eq entry.status (text "pending")
  hidden_by entry (ok write_through_local_first) = false
  hidden_by entry (ok queued_local_first) = false
  hidden_by entry (err e) = false

  hidden-waits :
      (entry : OverlayEntry V) (p : ConsistencyPolicy)
      → hidden_by entry (ok p) ≡ waits_for_server entry p
  unfolding hidden_by
  hidden-waits entry remote_acknowledged = ground arith
  hidden-waits entry write_through_local_first = ground arith
  hidden-waits entry queued_local_first = ground arith

  unfoldable pub shows : List Text → OverlayEntry V → Bool
  unfolding hidden_by
  shows acknowledged entry =
      not (any (λ id. text_eq id entry.mutation_id) acknowledged)
      && not (hidden_by entry (canonicalize_consistency_policy entry.consistency_policy))

  overlay_shown :
      (acknowledged : List Text) (entries : List (OverlayEntry V)) (working : Map (ProjectedRow V))
      → overlay_rows acknowledged entries working
        ≡ overlay_rows acknowledged (filter (shows acknowledged) entries) working
  unfolding overlay_rows shows
  overlay_shown acknowledged [] working = refl
  overlay_shown acknowledged (entry ∷ entries) working =
      elim (Result-cases (canonicalize_consistency_policy entry.consistency_policy)) [
        | inr (e, f) ↦ ground (arith, overlay_shown acknowledged entries working)
        | inl (p, f) ↦ ground (
          arith,
          hidden-waits entry p,
          overlay_shown acknowledged entries working,
          overlay_shown acknowledged entries (
              insert (record_key entry.table entry.record_id)
                (overlaid entry (lookup (record_key entry.table entry.record_id) working)) working),
        )
      ]

  -- A read is the read without the overlay entries that the server has acknowledged and without
  -- the pending ones whose policy waits for the server.
  pub reconcile-shows :
      (input : ReadReconciliationInput V)
      → reconcile_read_model input
        ≡ reconcile_read_model (record input {
          overlay = filter (shows input.acknowledged_mutation_ids) input.overlay;
        })
  unfolding reconcile_read_model base_view
  reconcile-shows input =
      ap finish_read (overlay_shown input.acknowledged_mutation_ids input.overlay (base_view input))

  -- What an entry shows over the row below it: its own payload, or the transformed one where the
  -- server transformed it, at its revision, or at that of the row below.
  abbrev pub payload_of : OverlayEntry V → Option V
  payload_of entry =
      if text_eq entry.status (text "transformed")
      then elim entry.transformed_payload [ none ↦ entry.payload | some v ↦ some v ]
      else entry.payload

  abbrev pub revision_over : Option Text → Option (ProjectedRow V) → Text
  revision_over (some r) below = r
  revision_over none (some row) = row.revision
  revision_over none none = text "0"

  abbrev pub laid_over : OverlayEntry V → Option (ProjectedRow V) → ProjectedRow V
  laid_over entry below = record {
    table = entry.table;
    record_id = entry.record_id;
    revision = revision_over entry.revision below;
    operation = entry.operation;
    payload = payload_of entry;
    provenance = entry.status;
  }

  overlaid-laid_over :
      (entry : OverlayEntry V) (below : Option (ProjectedRow V))
      → overlaid entry below ≡ laid_over entry below
  unfolding overlaid
  overlaid-laid_over entry below =
      let revision = revisions entry.revision below in
      let payload = payloads entry.transformed_payload in ground arith
    where
      revisions :
          (r : Option Text) (row : Option (ProjectedRow V))
          → revision_of r row ≡ revision_over r row
      revisions none none = refl
      revisions none (some row) = refl
      revisions (some r) row = refl

      payloads :
          (p : Option V)
          → or_payload p entry.payload ≡ elim p [ none ↦ entry.payload | some v ↦ some v ]
      payloads none = refl
      payloads (some v) = refl

  -- The row at `key` once the entries are laid over `below`, the last one on top.
  abbrev pub view_at :
      Text → List (OverlayEntry V) → Option (ProjectedRow V) → Option (ProjectedRow V)
  view_at key [] below = below
  view_at key (entry ∷ entries) below = view_at key entries (
      if text_eq (entry.table ++ 0 ∷ entry.record_id) key
      then some (laid_over entry below)
      else below)

  -- An entry whose policy name is known, or that is not looked at.
  abbrev pub IsKnown : List Text → OverlayEntry V → Type 0
  IsKnown acknowledged entry =
      (any (λ id. text_eq id entry.mutation_id) acknowledged ≡ true)
      ⊎ ((p : ConsistencyPolicy) × (canonicalize_consistency_policy entry.consistency_policy
            ≡ ok p))

  insert_at :
      (entry : OverlayEntry V) (k key : Text) (working : Map (ProjectedRow V))
      → lookup key (insert k (overlaid entry (lookup k working)) working)
        ≡ (if text_eq k key then some (overlaid entry (lookup key working)) else lookup key working)
  insert_at entry k key working = elim (Bool-cases (text_eq k key)) [
    | inl same ↦
        let e : k ≡ key = text_eq_sound k key same in
        lookup-insert k key (overlaid entry (lookup k working)) working
        ∙ rw (e, text_eq_refl key) refl
    | inr other ↦ lookup-insert k key (overlaid entry (lookup k working)) working ∙ rw other refl
  ]

  overlay_at :
      (acknowledged : List Text) (entries : List (OverlayEntry V))
      (working after : Map (ProjectedRow V)) (key : Text)
      → overlay_rows acknowledged entries working ≡ ok after
      → (lookup key after ≡ view_at key (filter (shows acknowledged) entries) (lookup key working))
        × All (IsKnown acknowledged) entries
  unfolding overlay_rows shows record_key
  overlay_at acknowledged [] working after key h = (ground arith, tt)
  overlay_at acknowledged (entry ∷ entries) working after key h =
      elim (Bool-cases (any (λ id. text_eq id entry.mutation_id) acknowledged)) [
        | inl seen ↦
            let (at, known) = overlay_at acknowledged entries working after key (ground arith) in
            (ground (arith, at), (inl seen, known))
        | inr new ↦ elim (Result-cases (canonicalize_consistency_policy entry.consistency_policy)) [
          | inr (e, f) ↦ absurd (ground arith)
          | inl (p, f) ↦ elim (Bool-cases (waits_for_server entry p)) [
            | inl waits ↦
                let hides = hidden-waits entry p in
                let (at, known) =
                  overlay_at acknowledged entries working after key (ground arith) in
                (ground (arith, at), (inr (p, f), known))
            | inr visible ↦
                let hides = hidden-waits entry p in
                let k = record_key entry.table entry.record_id in
                let (at, known) =
                  overlay_at acknowledged entries
                    (insert k (overlaid entry (lookup k working)) working) after key
                    (ground arith) in
                let step = insert_at entry k key working in
                let laid = overlaid-laid_over entry (lookup key working) in
                (ground (arith, at, step, laid), (inr (p, f), known))
          ]
        ]
      ]

  overlay-IsSorted :
      (acknowledged : List Text) (entries : List (OverlayEntry V))
      (working after : Map (ProjectedRow V))
      → overlay_rows acknowledged entries working ≡ ok after
      → IsSorted working
      → IsSorted after
  unfolding overlay_rows
  overlay-IsSorted acknowledged [] working after h s =
      let same : working ≡ after = ground arith in rw same at s
  overlay-IsSorted acknowledged (entry ∷ entries) working after h s =
      elim (Bool-cases (any (λ id. text_eq id entry.mutation_id) acknowledged)) [
        | inl seen ↦ overlay-IsSorted acknowledged entries working after (ground arith) s
        | inr new ↦ elim (Result-cases (canonicalize_consistency_policy entry.consistency_policy)) [
          | inr (e, f) ↦ absurd (ground arith)
          | inl (p, f) ↦ elim (Bool-cases (waits_for_server entry p)) [
            | inl waits ↦ overlay-IsSorted acknowledged entries working after (ground arith) s
            | inr visible ↦
                let k = record_key entry.table entry.record_id in
                overlay-IsSorted acknowledged entries
                  (insert k (overlaid entry (lookup k working)) working) after (ground arith)
                  (insert-IsSorted k (overlaid entry (lookup k working)) working s)
          ]
        ]
      ]

  read_map :
      (input : ReadReconciliationInput V) {rows : List (ProjectedRow V)}
      → reconcile_read_model input ≡ ok rows
      → (after : Map (ProjectedRow V)) × (rows ≡ sorted_values after)
        × (overlay_rows input.acknowledged_mutation_ids input.overlay (base_view input) ≡ ok after)
  unfolding reconcile_read_model finish_read
  read_map input h =
      elim (Result-cases
        (overlay_rows input.acknowledged_mutation_ids input.overlay (base_view input))) [
          | inl (m, e) ↦ (m, ground arith, e)
          | inr (x, e) ↦ absurd (ground arith)
        ]

  -- A read that succeeds has known policies wherever it looked, and returns, by table and then by
  -- record id, the values of one map, each key bound once, that holds at every key the row of the
  -- base with the seen overlay entries of that key laid over it, the last one on top; acknowledged
  -- entries, and pending ones whose policy is to wait for the remote acknowledgement, are not seen.
  pub reconcile-view :
      (input : ReadReconciliationInput V) {rows : List (ProjectedRow V)}
      → reconcile_read_model input ≡ ok rows
      → (after : Map (ProjectedRow V)) × Permᴰ rows (values after)
        × IsOrdered rows
        × IsSorted after
        × ((key : Text)
            → lookup key after
              ≡ view_at key
                  (filter (shows input.acknowledged_mutation_ids) input.overlay)
                  (lookup key (base_view input)))
        × All (IsKnown input.acknowledged_mutation_ids) input.overlay
  reconcile-view input h =
      let (after, listed, run) = read_map input h in
      let at = λ (key : Text).
        overlay_at input.acknowledged_mutation_ids input.overlay (base_view input) after key run in
      (
        after,
        rw listed (sorted_values-Permᴰ after),
        rw listed (sorted_values-IsOrdered after),
        overlay-IsSorted input.acknowledged_mutation_ids input.overlay (base_view input) after run
            (base_view-IsSorted input),
        λ key. (at key).0,
        (at []).1,
      )
