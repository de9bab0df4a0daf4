-- ===== src/Sync/Pages.antt =====
-- The pages that `validate_pull_page` of clients/rust/src/protocol_sync.rs accepts, stated without
-- it.
use opto_sync_clients.Base.{
  ℕ, ◌≤◌, ◌<◌, ◌≡◌, ◌↔◌, true, false, Option, none, some, List, [], ◌∷◌, ok, Text, is_empty, arith,
  Option-cases, inl, inr, refl,
}
use opto_sync_clients.Protocol.Types.{Json, Operation, upsert, delete}
use opto_sync_clients.Sync.Types.{Change, ChangeSource, PullResponse}
use opto_sync_clients.Sync.Checks.{
  parse_decimal, not_positive, bad_source, bad_content, check_changes, page_after,
  validate_pull_page,
}

-- A decimal text of a number from 1.
abbrev pub IsPositive : Text → Type 0
IsPositive s = (n : ℕ) × (parse_decimal s ≡ some n) × (0 < n)

module _ {V : Type 0} (json : Json V) where
  -- An upsert carries an object, a deletion nothing.
  abbrev pub Carries : Operation → Option V → Type 0
  Carries upsert content = (x : V) × (content ≡ some x) × (json.is_object x ≡ true)
  Carries delete content = content ≡ none

  abbrev pub FromClient : Option ChangeSource → Type 0
  FromClient none = Unit
  FromClient (some source) = (is_empty source.client_id ≡ false) × IsPositive source.mutation_id

  pub record IsGoodChange (change : Change V) : Type 0 where
    pub table_ok : is_empty change.table ≡ false
    pub record_ok : is_empty change.record_id ≡ false
    pub revision_ok : IsPositive change.revision
    pub content_ok : Carries change.operation change.content
    pub source_ok : FromClient change.source

  -- The checkpoints of the changes rise strictly above `lo`, up to `hi` at most.
  abbrev pub Rising : ℕ → ℕ → List (Change V) → Type 0
  Rising hi lo [] = Unit {0}
  Rising hi lo (change ∷ changes) =
      (n : ℕ) × (parse_decimal change.checkpoint ≡ some n)
      × (lo < n)
      × (n ≤ hi)
      × IsGoodChange change
      × Rising hi n changes

  abbrev pub IsGoodPage : PullResponse V → Text → Type 0
  IsGoodPage page prior_checkpoint =
      (page.protocol_version ≡ 1)
      × (lo : ℕ) × (parse_decimal prior_checkpoint ≡ some lo)
      × (hi : ℕ) × (parse_decimal page.checkpoint ≡ some hi)
      × (lo ≤ hi)
      × Rising hi lo page.changes

  not_positive_iff : (s : Text) → (not_positive s ≡ false) ↔ IsPositive s
  unfolding not_positive
  not_positive_iff s = elim (Option-cases (parse_decimal s)) [
    | inl e ↦ (λ h. absurd (ground arith), λ (n, p, l). absurd (ground arith))
    | inr (n, e) ↦ (λ h. (n, e, ground arith), λ (m, p, l). ground arith)
  ]

  bad_content_iff :
      (operation : Operation) (content : Option V)
      → (bad_content json operation content ≡ false) ↔ Carries operation content
  unfolding bad_content
  bad_content_iff upsert none = (λ h. cc, λ (x, e, o). cc)
  bad_content_iff upsert (some x) = (λ h. (x, refl, ground arith), λ (y, e, o). ground arith)
  bad_content_iff delete none = (λ h. refl, λ e. refl)
  bad_content_iff delete (some x) = (λ h. cc, λ e. cc)

  bad_source_iff : (source : Option ChangeSource) → (bad_source source ≡ false) ↔ FromClient source
  unfolding bad_source
  bad_source_iff none = (λ h. tt, λ u. refl)
  bad_source_iff (some source) = (
    λ h. (ground arith, (not_positive_iff source.mutation_id).0 (ground arith)),
    λ (named, id). ground (arith, (not_positive_iff source.mutation_id).1 id),
  )

  check_changes_iff :
      (hi lo : ℕ) (changes : List (Change V))
      → (check_changes json hi lo changes ≡ ok tt) ↔ Rising hi lo changes
  unfolding check_changes
  check_changes_iff hi lo [] = (λ h. tt, λ u. refl)
  check_changes_iff hi lo (change ∷ changes) =
      elim (Option-cases (parse_decimal change.checkpoint)) [
        | inl e ↦
            (λ h. absurd (ground arith), λ (n, p, above, below, good, rest). absurd (ground arith))
        | inr (n, e) ↦ (
          λ h. (
            n,
            e,
            ground arith,
            ground arith,
            record {
              table_ok = ground arith;
              record_ok = ground arith;
              revision_ok = (not_positive_iff change.revision).0 (ground arith);
              content_ok = (bad_content_iff change.operation change.content).0 (ground arith);
              source_ok = (bad_source_iff change.source).0 (ground arith);
            },
            (check_changes_iff hi n changes).0 (ground arith),
          ),
          λ (m, p, above, below, good, rest).
              let same : m ≡ n = ground arith in
              ground (
                arith,
                (not_positive_iff change.revision).1 good.revision_ok,
                (bad_content_iff change.operation change.content).1 good.content_ok,
                (bad_source_iff change.source).1 good.source_ok,
                (check_changes_iff hi m changes).1 rest,
              ),
        )
      ]

  -- A page is accepted after a checkpoint exactly when it has version 1, its own checkpoint does
  -- not lie before that one, and its changes are well formed with checkpoints that rise strictly
  -- between the two.
  pub validate_pull_page_iff :
      (page : PullResponse V) (prior_checkpoint : Text)
      → (validate_pull_page json page prior_checkpoint ≡ ok tt) ↔ IsGoodPage page prior_checkpoint
  unfolding validate_pull_page page_after
  validate_pull_page_iff page prior = elim (Option-cases (parse_decimal page.checkpoint)) [
    | inl e ↦ (λ h. absurd (ground arith), λ (one, lo, p, hi, p', l, rest). absurd (ground arith))
    | inr (hi, e) ↦ elim (Option-cases (parse_decimal prior)) [
      | inl f ↦ (λ h. absurd (ground arith), λ (one, lo, p, hi, p', l, rest). absurd (ground arith))
      | inr (lo, f) ↦ (
        λ h. (
          ground arith,
          lo,
          f,
          hi,
          e,
          ground arith,
          (check_changes_iff hi lo page.changes).0 (ground arith),
        ),
        λ (one, lo', p, hi', p', l, rest).
            ground (arith, (check_changes_iff hi' lo' page.changes).1 rest),
      )
    ]
  ]
