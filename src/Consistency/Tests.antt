-- ===== src/Consistency/Tests.antt =====
-- The theorems on clients/rust/src/consistency.rs, at two intents and a small read.
use opto_sync_clients.Base.{
  text_compare, ℕ, ◌≡◌, ◌↔◌, refl, false, not, ◌&&◌, some, none, List, [], ◌∷◌, Text, text, text_eq,
  ok, filter, All, if◌then◌else◌,
}
use Prim.Native.Nat.{compare}
use mathlib.Core.List.{Mem, Permᴰ}
use opto_sync_clients.Base.Sorted.{IsSorted}
use opto_sync_clients.Consistency.Listing.{values, IsOrdered}
use opto_sync_clients.Base.Map.{Map, lookup}
use opto_sync_clients.Consistency.Policy.{
  ConsistencyPolicy, ConsistencyOutcome, canonicalize_consistency_policy, outcome_for_network,
  rejected, remote_acknowledged, queued_local_first, covering, policy_eq,
}
use opto_sync_clients.Consistency.Values.{
  number, object, end, field, MutationIntent, assert_queued_intent_frozen,
}
use opto_sync_clients.Consistency.Reads.{
  BaseRow, OverlayEntry, ProjectedRow, ReadReconciliationInput, compare_decimal,
  select_remote_winner, reconcile_read_model, base_view, record_key,
}
use opto_sync_clients.Consistency.Intents.{
  SameIntent, assert_frozen_iff, outcome_for_network_lem, is_settled,
}
use opto_sync_clients.Consistency.Winner.{beats, select_remote_winner_best}
use opto_sync_clients.Consistency.Revisions.{compare_decimal-parse_decimal}
use opto_sync_clients.Consistency.Bases.{has_key, local_at, remote_over, base_view_at}
use opto_sync_clients.Consistency.Views.{shows, view_at, IsKnown, reconcile-view}
use opto_sync_clients.Consistency.Printing.{printed, printed_apart, printed_null}
use opto_sync_clients.Protocol.Checks.{parse_decimal}

abbrev queued : MutationIntent
queued = record {
  client_id = text "c";
  mutation_id = text "1";
  table = text "t";
  record_id = text "a";
  operation = text "upsert";
  payload =
      some
        (object (field (text "x") (number (text "1")) (field (text "y") (number (text "2")) end)));
  base_revision = none;
  resurrect = false;
  consistency_policy = text "strict";
}

-- The same with its keys in another order and the policy by another name.
abbrev proposed : MutationIntent
proposed = record queued {
  payload =
      some
        (object (field (text "y") (number (text "2")) (field (text "x") (number (text "1")) end)));
  consistency_policy = text "remote-confirmed";
}

abbrev Agreed : MutationIntent → MutationIntent → Type 0
Agreed a b =
    SameIntent a b
    × ((p : ConsistencyPolicy) × (canonicalize_consistency_policy a.consistency_policy ≡ ok p)
        × (canonicalize_consistency_policy b.consistency_policy ≡ ok p))

assert_frozen_iff_example :
    (assert_queued_intent_frozen printed queued proposed ≡ ok tt) ↔ Agreed queued proposed
assert_frozen_iff_example = assert_frozen_iff printed printed_apart printed_null queued proposed

rebound : assert_queued_intent_frozen printed queued proposed ≡ ok tt
unfolding assert_queued_intent_frozen canonicalize_consistency_policy text_eq printed text_compare
rebound = refl

abbrev refusal : ConsistencyOutcome
refusal = covering rejected remote_acknowledged (text "1" ∷ [])

outcome_for_network_lem_example :
    (canonicalize_consistency_policy (text "strict") ≡ ok refusal.consistency_policy)
    × (refusal.covered_mutation_ids ≡ (if is_settled refusal.status then text "1" ∷ [] else []))
    × (is_settled refusal.status ≡ (
        not (policy_eq refusal.consistency_policy queued_local_first)
        && not (text_eq (text "rejected") (text "cancelled"))
        && not (text_eq (text "rejected") (text "not-attempted"))
        && not (text_eq (text "rejected") (text "response-lost"))))
unfolding outcome_for_network canonicalize_consistency_policy text_eq
outcome_for_network_lem_example =
    outcome_for_network_lem (text "strict") (text "rejected") (text "1" ∷ []) {o = refusal} refl

compare_decimal-parse_decimal_example : compare_decimal (text "9") (text "12") ≡ compare 9 12
unfolding parse_decimal
compare_decimal-parse_decimal_example =
    compare_decimal-parse_decimal (text "9") (text "12") 9 12 refl refl

abbrev row_at : Text → ℕ → BaseRow ℕ
row_at revision payload = record {
  table = text "t";
  record_id = text "a";
  revision = revision;
  operation = text "upsert";
  payload = some payload;
  identity = none;
  arrival_seq = none;
}

abbrev news : List (BaseRow ℕ)
news = row_at (text "12") 2 ∷ row_at (text "3") 3 ∷ []

select_remote_winner_best_example :
    Mem (select_remote_winner (row_at (text "9") 1) news) (row_at (text "9") 1 ∷ news)
    × All
        (λ x. beats x (select_remote_winner (row_at (text "9") 1) news) ≡ false)
        (row_at (text "9") 1 ∷ news)
select_remote_winner_best_example = select_remote_winner_best (row_at (text "9") 1) news

abbrev typed : OverlayEntry ℕ
typed = record {
  mutation_id = text "5";
  client_id = text "c";
  table = text "t";
  record_id = text "a";
  operation = text "upsert";
  payload = some 8;
  revision = none;
  consistency_policy = text "local-first";
  status = text "pending";
  transformed_payload = none;
}

abbrev input : ReadReconciliationInput ℕ
input = record {
  local_base = row_at (text "9") 1 ∷ [];
  overlay = typed ∷ [];
  remote = news;
  acknowledged_mutation_ids = [];
}

abbrev key : Text
key = record_key (text "t") (text "a")

base_view_at_example :
    lookup key (base_view input)
    ≡ remote_over (filter (has_key key) input.remote) (local_at key input.local_base none)
base_view_at_example = base_view_at input key

-- The pending write shows over the newer remote row, at its revision.
abbrev seen : List (ProjectedRow ℕ)
seen =
    record {
      table = text "t";
      record_id = text "a";
      revision = text "12";
      operation = text "upsert";
      payload = some 8;
      provenance = text "pending";
    }
    ∷ []

reconcile-view_example :
    (after : Map (ProjectedRow ℕ)) × Permᴰ seen (values after)
    × IsOrdered seen
    × IsSorted after
    × ((k : Text)
        → lookup k after
          ≡ view_at k
              (filter (shows input.acknowledged_mutation_ids) input.overlay)
              (lookup k (base_view input)))
    × All (IsKnown input.acknowledged_mutation_ids) input.overlay
unfolding reconcile_read_model text_eq text_compare
reconcile-view_example = reconcile-view input {rows = seen} refl
