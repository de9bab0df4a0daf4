-- ===== src/Client/Options.antt =====
-- Options, `reconcile` and `rebase_pending` of clients/rust/src/lib.rs. The merge engine is a
-- parameter: `none` is its refusal of an input that is not JSON.
use opto_sync_clients.Base.{
  ℕ, Bool, true, false, Option, none, some, List, [], ◌∷◌, Result, ok, err, Text, text,
}

-- `ArrayStrategy` belongs to the engine, and is a parameter too.
pub record ReconcileOptions (S : Type 0) : Type 0 where
  pub array_strategy : S
  pub array_match_keys : Text
  pub resolve_by_timestamp : Bool
  pub detect_circular_refs : Bool
  pub lww_keys : Text
  pub fww_keys : Text
  pub max_depth : ℕ

pub record MergeOptions (S : Type 0) : Type 0 where
  pub array_strategy : Option S
  pub max_depth : Option ℕ
  pub detect_circular_refs : Bool
  pub resolve_by_timestamp : Bool
  pub lww_keys : Option Text
  pub fww_keys : Option Text
  pub array_match_keys : Option Text

pub data ReconcileError : Type 0 where
  invalid_json : ReconcileError

abbrev pub Engine : Type 0 → Type 0
Engine S = Text → Text → MergeOptions S → Option Text

abbrev pub default_options : {S : Type 0} → S → ReconcileOptions S
default_options merge_by_key = record {
  array_strategy = merge_by_key;
  array_match_keys = text "id";
  resolve_by_timestamp = true;
  detect_circular_refs = false;
  lww_keys = text "updatedAt,syncedAt";
  fww_keys = [];
  max_depth = 0;
}

abbrev pub non_empty : Text → Option Text
non_empty [] = none
non_empty (c ∷ cs) = some (c ∷ cs)

unfoldable pub to_merge_options : {S : Type 0} → ReconcileOptions S → MergeOptions S
to_merge_options o = record {
  array_strategy = some o.array_strategy;
  max_depth = some o.max_depth;
  detect_circular_refs = o.detect_circular_refs;
  resolve_by_timestamp = o.resolve_by_timestamp;
  lww_keys = some o.lww_keys;
  fww_keys = non_empty o.fww_keys;
  array_match_keys = some o.array_match_keys;
}

abbrev pub ok_or : {A E : Type 0} → Option A → E → Result A E
ok_or none e = err e
ok_or (some a) e = ok a

unfoldable pub reconcile :
    {S : Type 0} → Engine S → Text → Text → ReconcileOptions S → Result Text ReconcileError
unfolding to_merge_options
reconcile merge base incoming o = ok_or (merge base incoming (to_merge_options o)) invalid_json

abbrev pub overlay_options : {S : Type 0} → ReconcileOptions S → Bool → ReconcileOptions S
overlay_options o true = o
overlay_options o false = record o { resolve_by_timestamp = false }

-- The loop over the pending payloads: the first error ends it.
unfoldable pub replay :
    {S : Type 0}
    → Engine S
    → ReconcileOptions S
    → List Text
    → Result Text ReconcileError
    → Result Text ReconcileError
unfolding reconcile
replay merge o [] view = view
replay merge o (payload ∷ payloads) (err e) = err e
replay merge o (payload ∷ payloads) (ok view) =
    replay merge o payloads (reconcile merge view payload o)

unfoldable pub rebase_pending :
    {S : Type 0}
    → Engine S
    → Text
    → List Text
    → ReconcileOptions S
    → Bool
    → Result Text ReconcileError
unfolding replay
rebase_pending merge server pending o gate =
    replay merge (overlay_options o gate) pending (ok server)
