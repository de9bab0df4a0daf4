-- ===== src/Protocol/Prune.antt =====
-- `prune_confirmed` of clients/rust/src/protocol.rs: the rows that it drops.
use opto_sync_clients.Base.{
  subst, ℕ, zero, suc, ◌+◌, ◌-◌, ◌≤◌, ◌≡◌, refl, ap, Bool, false, not, List, [], ◌∷◌, take, length,
  map, any, filter, Text, ok, arith, Bool-cases, inl, inr, text_eq, text_eq_refl, text_eq_sound,
  if◌then◌else◌,
}
use opto_sync_clients.Protocol.Types.{Json, ProtocolMutation, ProtocolQueue}
use opto_sync_clients.Protocol.Checks.{parse_decimal}
use opto_sync_clients.Protocol.Queue.{pending_of, still_pending, prune_confirmed}
use opto_sync_clients.Protocol.Wellformed.{Rows, IsValid, filter-Rows}

module _ {V : Type 0} where
  -- The first `d` confirmed rows taken out.
  unfoldable pub prune_first : ℕ → List (ProtocolMutation V) → List (ProtocolMutation V)
  prune_first zero ms = ms
  prune_first (suc d) [] = []
  prune_first (suc d) (m ∷ ms) =
      if still_pending m then m ∷ prune_first (suc d) ms else prune_first d ms

  abbrev pub confirmed_of : List (ProtocolMutation V) → List (ProtocolMutation V)
  confirmed_of ms = filter (λ m. not (still_pending m)) ms

  abbrev ids_of : List (ProtocolMutation V) → List Text
  ids_of ms = map (λ (m : ProtocolMutation V). m.mutation_id) ms

  abbrev keeps : List Text → ProtocolMutation V → Bool
  keeps ids m = not (any (λ id. text_eq id m.mutation_id) ids)

  filter_none : (ms : List (ProtocolMutation V)) → filter (keeps []) ms ≡ ms
  filter_none [] = refl
  filter_none (m ∷ ms) = ap (λ (rest : List (ProtocolMutation V)). m ∷ rest) (filter_none ms)

  pub pending-prune_first :
      (d : ℕ) (ms : List (ProtocolMutation V)) → pending_of (prune_first d ms) ≡ pending_of ms
  unfolding prune_first
  pending-prune_first zero ms = refl
  pending-prune_first (suc d) [] = refl
  pending-prune_first (suc d) (m ∷ ms) =
      ground (arith, pending-prune_first d ms, pending-prune_first (suc d) ms)

  length-prune_first :
      (d : ℕ) (ms : List (ProtocolMutation V))
      → d ≤ length (confirmed_of ms)
      → length (prune_first d ms) + d ≡ length ms
  unfolding prune_first
  length-prune_first zero ms h = omega arith
  length-prune_first (suc d) [] h = absurd (omega arith)
  length-prune_first (suc d) (m ∷ ms) h =
      ground (arith, length-prune_first d ms, length-prune_first (suc d) ms)

module _ {V : Type 0} (json : Json V) (next limit : ℕ) where
  -- An id at or below the bound of the rows is none of theirs.
  any_above :
      (lo d n : ℕ) (t : Text) (ms : List (ProtocolMutation V))
      → Rows json next limit lo ms
      → parse_decimal t ≡ ok n
      → n ≤ lo
      → any (λ id. text_eq id t) (take d (ids_of (confirmed_of ms))) ≡ false
  any_above lo zero n t ms r p h = refl
  any_above lo (suc d) n t [] r p h = refl
  any_above lo (suc d) n t (m ∷ ms) (id, parsed, low, high, good, rest) p h = ground (
    arith,
    any_above id (suc d) n t ms rest p,
    any_above id d n t ms rest p,
    text_eq_sound m.mutation_id t,
  )

  keeps_above :
      (lo n : ℕ) (t : Text) (ids : List Text) (ms : List (ProtocolMutation V))
      → Rows json next limit lo ms
      → parse_decimal t ≡ ok n
      → n ≤ lo
      → filter (keeps (t ∷ ids)) ms ≡ filter (keeps ids) ms
  keeps_above lo n t ids [] r p h = refl
  keeps_above lo n t ids (m ∷ ms) (id, parsed, low, high, good, rest) p h =
      ground (arith, keeps_above id n t ids ms rest p, text_eq_sound t m.mutation_id)

  pub filter-prune_first :
      (lo d : ℕ) (ms : List (ProtocolMutation V))
      → Rows json next limit lo ms
      → filter (keeps (take d (ids_of (confirmed_of ms)))) ms ≡ prune_first d ms
  unfolding prune_first
  filter-prune_first lo zero ms r = filter_none ms
  filter-prune_first lo (suc d) [] r = refl
  filter-prune_first lo (suc d) (m ∷ ms) (id, parsed, low, high, good, rest) =
      elim (Bool-cases (still_pending m)) [
        | inl live ↦ ground (
          arith,
          any_above id (suc d) id m.mutation_id ms rest parsed (omega arith),
          filter-prune_first id (suc d) ms rest,
        )
        | inr done ↦ ground (
          arith,
          text_eq_refl m.mutation_id,
          keeps_above id id m.mutation_id (take d (ids_of (confirmed_of ms))) ms rest parsed
              (omega arith),
          filter-prune_first id d ms rest,
        )
      ]

module _ {V : Type 0} (json : Json V) where
  -- On a well-formed queue `prune_confirmed` drops exactly the oldest confirmed rows beyond the
  -- `retain` newest, and reports how many; every pending row stays, in its place.
  pub prune_confirmed_lem :
      (q : ProtocolQueue V) (retain : ℕ)
      → IsValid json q
      → let d = length (confirmed_of q.mutations) - retain in
        (prune_confirmed q retain ≡ (record q { mutations = prune_first d q.mutations }, d))
        × (pending_of (prune_first d q.mutations) ≡ pending_of q.mutations)
  unfolding prune_confirmed
  prune_confirmed_lem q retain v =
      let d = length (confirmed_of q.mutations) - retain in
      let rows =
        filter-prune_first json q.next_mutation_id q.max_queued_payload_bytes 0 d q.mutations
          v.rows in
      let gone : length q.mutations - length (prune_first d q.mutations) ≡ d =
        omega (arith, length-prune_first d q.mutations) in
      (rw rows (rw gone refl), pending-prune_first d q.mutations)

  -- Pruning keeps a queue well formed.
  pub prune_confirmed-IsValid :
      (q : ProtocolQueue V) (retain : ℕ)
      → IsValid json q
      → IsValid json (prune_confirmed q retain).0
  prune_confirmed-IsValid q retain v =
      let (pruned, same) = prune_confirmed_lem q retain v in
      let d = length (confirmed_of q.mutations) - retain in
      let keep = keeps (take d (ids_of (confirmed_of q.mutations))) in
      let kept =
        filter-Rows json keep q.next_mutation_id q.max_queued_payload_bytes 0 0 q.mutations
          (omega arith) v.rows in
      let which =
        filter-prune_first json q.next_mutation_id q.max_queued_payload_bytes 0 d q.mutations
          v.rows in
      rw pruned (record {
        client_ok = v.client_ok;
        capacity = v.capacity;
        bytes = v.bytes;
        checkpoint_ok = v.checkpoint_ok;
        next_pos = v.next_pos;
        next_le = v.next_le;
        rows = subst (Rows json q.next_mutation_id q.max_queued_payload_bytes 0) which kept;
        pending_le = omega (arith, ap length same, v.pending_le);
      })
