-- ===== src/Consistency/Intents.antt =====
-- Policies, outcomes and frozen intents of clients/rust/src/consistency.rs.
use opto_sync_clients.Base.{
  ◌&&◌, not, if◌then◌else◌, ◌≡◌, ◌↔◌, refl, ap, sym, ◌∙◌, Bool, true, false, Option, none, some,
  List, [], ok, Text, text, text_eq, text_eq_sound, text_eq_refl, inl, inr, arith,
}
use opto_sync_clients.Protocol.Wellformed.{Result-cases}
use opto_sync_clients.Consistency.Policy.{
  outcome_for_policy, ConsistencyPolicy, ConsistencyOutcome, OutcomeStatus, as_str,
  canonicalize_consistency_policy, outcome_for_network, policy_eq, remote_acknowledged,
  write_through_local_first, queued_local_first, confirmed, rejected, transformed,
}
use opto_sync_clients.Consistency.Content.{SameValue, sort_value-SameValue}
use opto_sync_clients.Consistency.Values.{
  Value, null, MutationIntent, stable_json, sort_value, assert_queued_intent_frozen, same_intent,
  or_empty, bool_eq,
}

-- The canonical text of a policy is read back as that policy.
pub canonicalize-as_str :
    (p : ConsistencyPolicy) → canonicalize_consistency_policy (as_str p) ≡ ok p
unfolding canonicalize_consistency_policy as_str text_eq
canonicalize-as_str remote_acknowledged = refl
canonicalize-as_str write_through_local_first = refl
canonicalize-as_str queued_local_first = refl

policy_eq_sound : (p q : ConsistencyPolicy) → policy_eq p q ≡ true → p ≡ q
policy_eq_sound remote_acknowledged remote_acknowledged h = refl
policy_eq_sound write_through_local_first write_through_local_first h = refl
policy_eq_sound queued_local_first queued_local_first h = refl
policy_eq_sound remote_acknowledged write_through_local_first h = cc
policy_eq_sound remote_acknowledged queued_local_first h = cc
policy_eq_sound write_through_local_first remote_acknowledged h = cc
policy_eq_sound write_through_local_first queued_local_first h = cc
policy_eq_sound queued_local_first remote_acknowledged h = cc
policy_eq_sound queued_local_first write_through_local_first h = cc

policy_eq_refl : (p : ConsistencyPolicy) → policy_eq p p ≡ true
policy_eq_refl remote_acknowledged = refl
policy_eq_refl write_through_local_first = refl
policy_eq_refl queued_local_first = refl

bool_eq_sound : (a b : Bool) → bool_eq a b ≡ true → a ≡ b
bool_eq_sound true true h = refl
bool_eq_sound false false h = refl
bool_eq_sound true false h = cc
bool_eq_sound false true h = cc

bool_eq_refl : (a : Bool) → bool_eq a a ≡ true
bool_eq_refl true = refl
bool_eq_refl false = refl

-- A payload with the keys of its objects in order, where no payload is `null`.
abbrev canonical : Option Value → Value
unfolding sort_value
canonical none = null
canonical (some v) = sort_value v

abbrev pub revision_text : Option Text → Text
revision_text none = []
revision_text (some s) = s

revision_text-eq : (r : Option Text) → or_empty r ≡ revision_text r
revision_text-eq none = refl
revision_text-eq (some s) = refl

abbrev pub content : Option Value → Value
content none = null
content (some v) = v

canonical-content : (p : Option Value) → canonical p ≡ sort_value (content p)
unfolding sort_value
canonical-content none = refl
canonical-content (some v) = refl

-- Two intents name the same mutation with the same content, under two names of one policy.
abbrev pub SameIntent : MutationIntent → MutationIntent → Type 0
SameIntent a b =
    (a.client_id ≡ b.client_id)
    × (a.mutation_id ≡ b.mutation_id)
    × (a.table ≡ b.table)
    × (a.record_id ≡ b.record_id)
    × (a.operation ≡ b.operation)
    × (revision_text a.base_revision ≡ revision_text b.base_revision)
    × (a.resurrect ≡ b.resurrect)
    × SameValue (content a.payload) (content b.payload)

module _ (print : Value → Text) (print_injective : (u v : Value) → print u ≡ print v → u ≡ v)
    (print_null : print null ≡ text "null") where
  stable_lem : (p : Option Value) → stable_json print p ≡ print (canonical p)
  unfolding stable_json
  stable_lem none = sym print_null
  stable_lem (some null) = sym print_null
  stable_lem (some (Value.boolean b)) = refl
  stable_lem (some (Value.number n)) = refl
  stable_lem (some (Value.string s)) = refl
  stable_lem (some (Value.array items)) = refl
  stable_lem (some (Value.object fields)) = refl

  same_intent_iff :
      (a b : MutationIntent) (p q : ConsistencyPolicy)
      → (same_intent print a b p q ≡ true) ↔ (SameIntent a b × (p ≡ q))
  unfolding same_intent
  same_intent_iff a b p q = (
    λ h. (
      (
        text_eq_sound a.client_id b.client_id (ground arith),
        text_eq_sound a.mutation_id b.mutation_id (ground arith),
        text_eq_sound a.table b.table (ground arith),
        text_eq_sound a.record_id b.record_id (ground arith),
        text_eq_sound a.operation b.operation (ground arith),
        sym (revision_text-eq a.base_revision)
            ∙ text_eq_sound (or_empty a.base_revision) (or_empty b.base_revision) (ground arith)
            ∙ revision_text-eq b.base_revision,
        bool_eq_sound a.resurrect b.resurrect (ground arith),
        (sort_value-SameValue (content a.payload) (content b.payload)).0 (
            sym (canonical-content a.payload)
            ∙ print_injective (canonical a.payload) (canonical b.payload) (
                sym (stable_lem a.payload)
                ∙ text_eq_sound (stable_json print a.payload) (stable_json print b.payload)
                    (ground arith)
                ∙ stable_lem b.payload)
            ∙ canonical-content b.payload),
      ),
      policy_eq_sound p q (ground arith),
    ),
    λ ((c, m, t, r, o, w, s, e), same).
        let v : or_empty a.base_revision ≡ or_empty b.base_revision =
          revision_text-eq a.base_revision ∙ w ∙ sym (revision_text-eq b.base_revision) in
        let printed : stable_json print a.payload ≡ stable_json print b.payload =
          stable_lem a.payload
          ∙ ap print (
              canonical-content a.payload
              ∙ (sort_value-SameValue (content a.payload) (content b.payload)).1 e
              ∙ sym (canonical-content b.payload))
          ∙ sym (stable_lem b.payload) in
        rw (c, m, t, r, o, v, s, same, printed)
          (ground (
            arith,
            text_eq_refl b.client_id,
            text_eq_refl b.mutation_id,
            text_eq_refl b.table,
            text_eq_refl b.record_id,
            text_eq_refl b.operation,
            text_eq_refl (or_empty b.base_revision),
            bool_eq_refl b.resurrect,
            policy_eq_refl q,
            text_eq_refl (stable_json print b.payload),
          )),
  )

  -- A proposed intent is accepted over a queued one exactly when it names the same mutation with
  -- the same content, their policies being known names of one policy; fields of different names in
  -- the objects of a payload may be swapped, and an absent payload counts as `null`, as an absent
  -- base revision as an empty one. It is taken that the printing of values keeps them apart and
  -- writes `null` as such.
  pub assert_frozen_iff :
      (a b : MutationIntent)
      → (assert_queued_intent_frozen print a b ≡ ok tt) ↔ (
          SameIntent a b
          × ((p : ConsistencyPolicy) × (canonicalize_consistency_policy a.consistency_policy ≡ ok p)
              × (canonicalize_consistency_policy b.consistency_policy ≡ ok p)))
  unfolding assert_queued_intent_frozen
  assert_frozen_iff a b =
      elim (Result-cases (canonicalize_consistency_policy a.consistency_policy)) [
        | inr (e, f) ↦ (λ h. absurd (ground arith), λ (same, (p', f', g')). absurd (ground arith))
        | inl (p, f) ↦ elim (Result-cases (canonicalize_consistency_policy b.consistency_policy)) [
          | inr (e, g) ↦ (λ h. absurd (ground arith), λ (same, (p', f', g')). absurd (ground arith))
          | inl (q, g) ↦ (
            λ h.
                let (same, e) = (same_intent_iff a b p q).0 (ground arith) in
                (same, (p, f, rw (sym e) at g)),
            λ (same, (r, f', g')).
                let e : p ≡ q = ground arith in
                let ok_same = (same_intent_iff a b p q).1 (same, e) in ground arith,
          )
        ]
      ]

abbrev pub is_settled : OutcomeStatus → Bool
is_settled rejected = true
is_settled transformed = true
is_settled confirmed = true
is_settled _ = false

-- What `outcome_for_network_lem` states, of the outcome itself.
abbrev Covers : Text → List Text → ConsistencyOutcome → Type 0
Covers network ids o =
    (o.covered_mutation_ids ≡ (if is_settled o.status then ids else []))
    × (is_settled o.status ≡ (
        not (policy_eq o.consistency_policy queued_local_first)
        && not (text_eq network (text "cancelled"))
        && not (text_eq network (text "not-attempted"))
        && not (text_eq network (text "response-lost"))))

Covers-cases :
    (p : ConsistencyPolicy) (network : Text) (ids : List Text)
    → (outcome_for_policy p network ids).consistency_policy ≡ p
      × Covers network ids (outcome_for_policy p network ids)
unfolding outcome_for_policy
Covers-cases p network ids = ground arith

-- An outcome names the policy that was asked for. It is settled, and then covers the mutations of
-- the attempt, exactly when the policy waits for the network and the server's answer arrived: the
-- attempt was not cancelled, was made, and its response was not lost. Otherwise it covers none.
pub outcome_for_network_lem :
    (policy network : Text) (ids : List Text) {o : ConsistencyOutcome}
    → outcome_for_network policy network ids ≡ ok o
    → (canonicalize_consistency_policy policy ≡ ok o.consistency_policy)
      × (o.covered_mutation_ids ≡ (if is_settled o.status then ids else []))
      × (is_settled o.status ≡ (
          not (policy_eq o.consistency_policy queued_local_first)
          && not (text_eq network (text "cancelled"))
          && not (text_eq network (text "not-attempted"))
          && not (text_eq network (text "response-lost"))))
unfolding outcome_for_network outcome_for_policy
outcome_for_network_lem policy network ids {o} h =
    elim (Result-cases (canonicalize_consistency_policy policy)) [
      | inr (e, f) ↦ absurd (ground arith)
      | inl (p, f) ↦
          let same : outcome_for_policy p network ids ≡ o = ground arith in
          let (named, covers) = Covers-cases p network ids in
          let covers' : Covers network ids o = rw same at covers in
          (
            f ∙ ap ok (sym named ∙ ap (λ (x : ConsistencyOutcome). x.consistency_policy) same),
            covers'.0,
            covers'.1,
          )
    ]
