-- ===== src/Protocol/Replies.antt =====
-- What a server's answer to a batch of clients/rust/src/protocol.rs must be, stated without
-- `acknowledge`, which checks it.
use opto_sync_clients.Base.{
  ℕ, ◌<◌, ◌≡◌, ◌≢◌, ◌↔◌, ◌⊎◌, inl, inr, refl, true, false, ◌||◌, Option, none, some, List, [], ◌∷◌,
  Text, ok, is_some, ◌&&◌, not, sym, ap, ◌∙◌, length, suc, arith, text_eq, text_eq_sound,
  text_eq_refl,
}
use opto_sync_clients.Protocol.Types.{
  ProtocolMutation, MutationResult, ResultStatus, applied, duplicate, rejected, is_duplicate,
}
use opto_sync_clients.Protocol.Checks.{parse_decimal}
use opto_sync_clients.Protocol.Validate.{bad_decimal}
use opto_sync_clients.Protocol.Acknowledge.{
  mismatched, bad_revision, any_mismatched, is_original_duplicate,
}
use opto_sync_clients.Protocol.Wellformed.{Result-cases}

abbrev pub NamesDecimal : Option Text → Type 0
NamesDecimal none = Unit {0}
NamesDecimal (some s) = (n : ℕ) × (parse_decimal s ≡ ok n)

abbrev pub NamesRevision : Option Text → Type 0
NamesRevision none = Unit {0}
NamesRevision (some s) = (n : ℕ) × (parse_decimal s ≡ ok n) × (0 < n)

-- A duplicate, and no other result, carries the status of the first attempt, which was no duplicate.
abbrev pub NamesStatus : ResultStatus → Option ResultStatus → Type 0
NamesStatus status original =
    ((status ≢ duplicate) × (original ≡ none))
    ⊎ ((status ≡ duplicate)
        × ((first : ResultStatus) × (original ≡ some first) × (first ≢ duplicate)))

module _ {V : Type 0} where
  -- The result of one mutation.
  pub record IsResult (m : ProtocolMutation V) (r : MutationResult) : Type 0 where
    pub same_id : r.mutation_id ≡ m.mutation_id
    pub checkpoint : NamesDecimal r.checkpoint
    pub revision : NamesRevision r.revision
    pub status : NamesStatus r.status r.original_status

  -- One result for each mutation, in order.
  abbrev pub IsAnswered : List (ProtocolMutation V) → List MutationResult → Type 0
  IsAnswered [] [] = Unit {0}
  IsAnswered (m ∷ ms) (r ∷ rs) = IsResult m r × IsAnswered ms rs
  IsAnswered _ _ = ⊥

bad_decimal_iff : (o : Option Text) → (bad_decimal o ≡ false) ↔ NamesDecimal o
bad_decimal_iff none = (λ h. tt, λ h. refl)
bad_decimal_iff (some s) = elim (Result-cases (parse_decimal s)) [
  | inl (n, e) ↦ (λ h. (n, e), λ h. ground arith)
  | inr (x, e) ↦ (λ h. absurd (ground arith), λ h. absurd (ground arith))
]

bad_revision_iff : (o : Option Text) → (bad_revision o ≡ false) ↔ NamesRevision o
unfolding bad_revision
bad_revision_iff none = (λ h. tt, λ h. refl)
bad_revision_iff (some s) = elim (Result-cases (parse_decimal s)) [
  | inl (n, e) ↦ (λ h. (n, e, ground arith), λ (k, f, p). ground arith)
  | inr (x, e) ↦ (λ h. absurd (ground arith), λ h. absurd (ground arith))
]

status_iff :
    (status : ResultStatus) (original : Option ResultStatus)
    → ((is_original_duplicate original
          || (is_duplicate status && not (is_some original))
          || (not (is_duplicate status) && is_some original))
        ≡ false)
      ↔ NamesStatus status original
status_iff applied none = (λ h. inl (λ e. cc, refl), λ n. refl)
status_iff rejected none = (λ h. inl (λ e. cc, refl), λ n. refl)
status_iff duplicate none =
    (λ h. cc, λ n. elim n [ inl (d, o) ↦ absurd (d refl) | inr (e, (f, o, d)) ↦ absurd (cc) ])
status_iff applied (some s) =
    (λ h. ground arith, λ n. elim n [ inl (d, o) ↦ absurd (cc) | inr (e, (f, o, d)) ↦ absurd (cc) ])
status_iff rejected (some s) =
    (λ h. ground arith, λ n. elim n [ inl (d, o) ↦ absurd (cc) | inr (e, (f, o, d)) ↦ absurd (cc) ])
status_iff duplicate (some applied) = (λ h. inr (refl, (applied, refl, λ e. cc)), λ n. refl)
status_iff duplicate (some rejected) = (λ h. inr (refl, (rejected, refl, λ e. cc)), λ n. refl)
status_iff duplicate (some duplicate) =
    (λ h. cc, λ n. elim n [ inl (d, o) ↦ absurd (d refl) | inr (e, (f, o, d)) ↦ absurd (d (cc)) ])

module _ {V : Type 0} where
  mismatched_iff :
      (m : ProtocolMutation V) (r : MutationResult) → (mismatched m r ≡ false) ↔ IsResult m r
  unfolding mismatched
  mismatched_iff m r = (
    λ h. record {
      same_id = sym (text_eq_sound m.mutation_id r.mutation_id (ground arith));
      checkpoint = (bad_decimal_iff r.checkpoint).0 (ground arith);
      revision = (bad_revision_iff r.revision).0 (ground arith);
      status = (status_iff r.status r.original_status).0 (ground arith);
    },
    λ g.
        let same : text_eq m.mutation_id r.mutation_id ≡ true =
          ap (text_eq m.mutation_id) g.same_id ∙ text_eq_refl m.mutation_id in
        let c = (bad_decimal_iff r.checkpoint).1 g.checkpoint in
        let v = (bad_revision_iff r.revision).1 g.revision in
        let s = (status_iff r.status r.original_status).1 g.status in ground (arith, same, c, v, s),
  )

  pub any_mismatched_sound :
      (ms : List (ProtocolMutation V)) (rs : List MutationResult)
      → length rs ≡ length ms
      → any_mismatched ms rs ≡ false
      → IsAnswered ms rs
  unfolding any_mismatched
  any_mismatched_sound [] [] l h = tt
  any_mismatched_sound [] (r ∷ rs) l h = absurd (ground arith)
  any_mismatched_sound (m ∷ ms) [] l h = absurd (ground arith)
  any_mismatched_sound (m ∷ ms) (r ∷ rs) l h = (
    (mismatched_iff m r).0 (ground arith),
    any_mismatched_sound ms rs (ground arith) (ground arith),
  )

  pub any_mismatched_complete :
      (ms : List (ProtocolMutation V)) (rs : List MutationResult)
      → IsAnswered ms rs
      → (length rs ≡ length ms) × (any_mismatched ms rs ≡ false)
  unfolding any_mismatched
  any_mismatched_complete [] [] a = (refl, refl)
  any_mismatched_complete [] (r ∷ rs) a = absurd a
  any_mismatched_complete (m ∷ ms) [] a = absurd a
  any_mismatched_complete (m ∷ ms) (r ∷ rs) (g, a) =
      let (l, h) = any_mismatched_complete ms rs a in
      let here = (mismatched_iff m r).1 g in (ap suc l, ground (arith, here, h))
