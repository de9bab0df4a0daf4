-- ===== src/Protocol/Imported.antt =====
-- A merge of clients/rust/src/protocol.rs loses no row that it must keep.
use opto_sync_clients.Base.{
  ℕ, ◌≡◌, ◌⊎◌, inl, inr, refl, ap, ◌∙◌, Bool, true, ◌||◌, Option, none, some, List, [], ◌∷◌, ◌++◌,
  ok, Text, arith, any, text_eq, text_eq_sound, Bool-cases, leb, find?,
}
use opto_sync_clients.Protocol.Types.{Json, ProtocolMutation, ProtocolQueue}
use opto_sync_clients.Protocol.Queue.{pending_of}
use opto_sync_clients.Protocol.Validate.{validate}
use opto_sync_clients.Protocol.Wellformed.{Result-cases}
use opto_sync_clients.Protocol.Merge.{
  merge_concurrent_durable, match_rows, match_row, import_rows, sort_rows, insert_row, sort_key,
}

or_swap : (a b c : Bool) → (a || (b || c)) ≡ (b || (a || c))
or_swap a b c = ground arith

module _ {V : Type 0} where
  -- Some row bears the id.
  abbrev pub has_id : Text → List (ProtocolMutation V) → Bool
  has_id t rows = any (λ m. text_eq m.mutation_id t) rows

  has_append :
      (t : Text) (xs ys : List (ProtocolMutation V))
      → has_id t (xs ++ ys) ≡ (has_id t xs || has_id t ys)
  has_append t [] ys = refl
  has_append t (x ∷ xs) ys = ground (arith, has_append t xs ys)

  has-insert_row :
      (t : Text) (m : ProtocolMutation V) (ns : List (ProtocolMutation V))
      → has_id t (insert_row m ns) ≡ (text_eq m.mutation_id t || has_id t ns)
  unfolding insert_row
  has-insert_row t m [] = refl
  has-insert_row t m (n ∷ ns) = elim (Bool-cases (leb (sort_key m) (sort_key n))) [
    | inl le ↦ rw le refl
    | inr gt ↦ rw gt (
        ap (λ b. text_eq n.mutation_id t || b) (has-insert_row t m ns)
        ∙ or_swap (text_eq n.mutation_id t) (text_eq m.mutation_id t) (has_id t ns))
  ]

  has-sort_rows :
      (t : Text) (ms : List (ProtocolMutation V)) → has_id t (sort_rows ms) ≡ has_id t ms
  unfolding sort_rows
  has-sort_rows t [] = refl
  has-sort_rows t (m ∷ ms) =
      has-insert_row t m (sort_rows ms)
      ∙ ap (λ b. text_eq m.mutation_id t || b) (has-sort_rows t ms)

module _ {V : Type 0} (json : Json V) where
  match_row-same :
      (m : ProtocolMutation V) (found : Option (ProtocolMutation V)) {m' : ProtocolMutation V}
      → match_row json m found ≡ ok m'
      → m'.mutation_id ≡ m.mutation_id
  unfolding match_row
  match_row-same m none h = ground arith
  match_row-same m (some d) h = ground arith

  has-match_rows :
      (t : Text) (durable ms : List (ProtocolMutation V))
      → has_id t (match_rows json durable ms).0 ≡ has_id t ms
  unfolding match_rows
  has-match_rows t durable [] = refl
  has-match_rows t durable (m ∷ ms) =
      elim (Result-cases
        (match_row json m (find? (λ c. text_eq c.mutation_id m.mutation_id) durable))) [
          | inr (e, bad) ↦ rw (bad, match_rows) refl
          | inl (merged, e) ↦
              rw (e, match_rows)
                (ground (
                  arith,
                  match_row-same m (find? (λ c. text_eq c.mutation_id m.mutation_id) durable) e,
                  has-match_rows t durable ms,
                ))
        ]

  import-keeps :
      (t : Text) (next : ℕ) (rows ds : List (ProtocolMutation V))
      → has_id t rows ≡ true
      → has_id t (import_rows json next rows ds).0 ≡ true
  unfolding import_rows
  import-keeps t next rows [] h = h
  import-keeps t next rows (d ∷ ds) h = ground (
    arith,
    import-keeps t next rows ds h,
    import-keeps t next (rows ++ d ∷ []) ds,
    has_append t rows (d ∷ []),
  )

  import-pending :
      (t : Text) (next : ℕ) (rows ds : List (ProtocolMutation V))
      → (import_rows json next rows ds).1 ≡ ok tt
      → has_id t (pending_of ds) ≡ true
      → has_id t (import_rows json next rows ds).0 ≡ true
  unfolding import_rows
  import-pending t next rows [] h k = ground arith
  import-pending t next rows (d ∷ ds) h k = ground (
    arith,
    import-pending t next rows ds,
    import-pending t next (rows ++ d ∷ []) ds,
    import-keeps t next rows ds,
    import-keeps t next (rows ++ d ∷ []) ds,
    has_append t rows (d ∷ []),
    text_eq_sound d.mutation_id t,
    λ (e : d.mutation_id ≡ t). ap (λ u. has_id u rows) e,
  )

  -- An accepted merge loses no row that it must keep: an id that a row of the queue bears, or a
  -- pending row of the durable queue, is borne by a row of the merge.
  pub merge_loses_none :
      (q durable : ProtocolQueue V) (t : Text) {q' : ProtocolQueue V}
      → merge_concurrent_durable json q durable ≡ (q', ok tt)
      → (has_id t q.mutations ≡ true) ⊎ (has_id t (pending_of durable.mutations) ≡ true)
      → has_id t q'.mutations ≡ true
  unfolding merge_concurrent_durable
  merge_loses_none q durable t {q'} h k = elim (Result-cases (validate json q)) [
    | inr (e, bad) ↦ absurd (ground arith)
    | inl (u, mine) ↦ elim (Result-cases (validate json durable)) [
      | inr (e, bad) ↦ absurd (ground arith)
      | inl (v, theirs) ↦
          let matched = (match_rows json durable.mutations q.mutations).0 in
          let imported = import_rows json q.next_mutation_id matched durable.mutations in
          let rows : q'.mutations ≡ sort_rows imported.0 = ground arith in
          let whole : imported.1 ≡ ok tt = ground arith in
          let kept : has_id t imported.0 ≡ true = elim k [
            | inl own ↦
                import-keeps t q.next_mutation_id matched durable.mutations
                  (has-match_rows t durable.mutations q.mutations ∙ own)
            | inr theirs ↦
                import-pending t q.next_mutation_id matched durable.mutations whole theirs
          ] in
          ap (λ ms. has_id t ms) rows ∙ has-sort_rows t imported.0 ∙ kept
    ]
  ]
