-- ===== src/Protocol/Merged.antt =====
-- What a merge of clients/rust/src/protocol.rs leaves.
use opto_sync_clients.Base.{◌≤◌, ◌≡◌, inl, inr, ap, ok, Text, arith, text_eq_sound}
use opto_sync_clients.Base.Map.{Map, lookup}
use opto_sync_clients.Protocol.Types.{Json, ProtocolQueue}
use opto_sync_clients.Protocol.Queue.{consistency_policy}
use opto_sync_clients.Protocol.Validate.{validate}
use opto_sync_clients.Protocol.Wellformed.{IsValid, validate_iff, Result-cases}
use opto_sync_clients.Protocol.Merge.{merge_concurrent_durable}

module _ {V : Type 0} (json : Json V) (q durable : ProtocolQueue V) where
  -- The policies of an accepted merge are those before it: none of those of the rows that it imports
  -- is taken over, so the policy found under any id is what it was.
  pub merge_policies :
      (id : Text) {q' : ProtocolQueue V}
      → merge_concurrent_durable json q durable ≡ (q', ok tt)
      → consistency_policy q' id ≡ consistency_policy q id
  unfolding merge_concurrent_durable consistency_policy
  merge_policies id {q'} h = elim (Result-cases (validate json q)) [
    | inr (e, bad) ↦ absurd (ground arith)
    | inl (u, mine) ↦ elim (Result-cases (validate json durable)) [
      | inr (e, bad) ↦ absurd (ground arith)
      | inl (v, theirs) ↦
          let same : q'.consistency_policies ≡ q.consistency_policies = ground arith in
          ap (λ (m : Map Text). lookup id m) same
    ]
  ]

  -- An accepted merge is between well-formed queues of one client and leaves a well-formed queue of
  -- that client at the durable queue's next id, which is not behind.
  pub merge_accepted :
      {q' : ProtocolQueue V}
      → merge_concurrent_durable json q durable ≡ (q', ok tt)
      → IsValid json q
        × IsValid json durable
        × IsValid json q'
        × (q.client_id ≡ durable.client_id)
        × (q'.client_id ≡ durable.client_id)
        × (q'.next_mutation_id ≡ durable.next_mutation_id)
        × (q.next_mutation_id ≤ q'.next_mutation_id)
  unfolding merge_concurrent_durable
  merge_accepted {q'} h = elim (Result-cases (validate json q)) [
    | inr (e, bad) ↦ absurd (ground arith)
    | inl (u, mine) ↦ elim (Result-cases (validate json durable)) [
      | inr (e, bad) ↦ absurd (ground arith)
      | inl (v, theirs) ↦
          let accepted : validate json q' ≡ ok tt = ground arith in
          (
            (validate_iff json q).0 mine,
            (validate_iff json durable).0 theirs,
            (validate_iff json q').0 accepted,
            ground (arith, text_eq_sound q.client_id durable.client_id),
            ground (arith, text_eq_sound q.client_id durable.client_id),
            ground arith,
            ground arith,
          )
    ]
  ]
