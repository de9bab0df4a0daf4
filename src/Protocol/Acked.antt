-- ===== src/Protocol/Acked.antt =====
-- `acknowledge` of clients/rust/src/protocol.rs on a well-formed queue.
use opto_sync_clients.Base.{
  ℕ, zero, suc, ◌≤◌, ◌<◌, ◌≡◌, refl, sym, ap, ◌∙◌, Bool, true, Option, none, some, List, take, drop,
  length, last?, ok, arith, inl, inr, text_eq, text_eq_sound, list_eq_sound, length-take,
  Option-cases,
}
use opto_sync_clients.Protocol.Types.{
  Json, ProtocolMutation, ProtocolQueue, PushRequest, PushResponse, confirmed, operation_eq,
  status_eq, Operation, LocalProtocolStatus, upsert, delete, pending,
}
use opto_sync_clients.Protocol.Checks.{parse_decimal}
use opto_sync_clients.Protocol.Queue.{pending_of}
use opto_sync_clients.Protocol.Acknowledge.{confirm_through, acknowledge, mutation_eq, option_eq}
use opto_sync_clients.Protocol.Wellformed.{IsValid, Result-cases}
use opto_sync_clients.Protocol.Confirm.{confirm_first, confirm_through-eq, pending-confirm_first}

operation_eq_sound : (a b : Operation) → operation_eq a b ≡ true → a ≡ b
operation_eq_sound upsert upsert h = refl
operation_eq_sound delete delete h = refl
operation_eq_sound upsert delete h = cc
operation_eq_sound delete upsert h = cc

status_eq_sound : (a b : LocalProtocolStatus) → status_eq a b ≡ true → a ≡ b
status_eq_sound pending pending h = refl
status_eq_sound confirmed confirmed h = refl
status_eq_sound pending confirmed h = cc
status_eq_sound confirmed pending h = cc

option_eq_sound :
    {A : Type 0} (eq : A → A → Bool)
    → ((x y : A) → eq x y ≡ true → x ≡ y)
    → (a b : Option A) → option_eq eq a b ≡ true
    → a ≡ b
option_eq_sound eq h none none e = refl
option_eq_sound eq h none (some y) e = cc
option_eq_sound eq h (some x) none e = cc
option_eq_sound eq h (some x) (some y) e = ap some (h x y e)

module _ {V : Type 0} (json : Json V) where
  pub mutation_eq_sound : (a b : ProtocolMutation V) → mutation_eq json a b ≡ true → a ≡ b
  unfolding mutation_eq
  mutation_eq_sound a b h = ground (
    arith,
    text_eq_sound a.mutation_id b.mutation_id,
    operation_eq_sound a.operation b.operation,
    text_eq_sound a.table b.table,
    text_eq_sound a.record_id b.record_id,
    option_eq_sound json.value_eq (λ x y. (json.value_eq_iff x y).0) a.payload b.payload,
    option_eq_sound text_eq text_eq_sound a.base_revision b.base_revision,
    status_eq_sound a.status b.status,
  )

  -- What an accepted acknowledgement has been checked for.
  record IsAcked (q q' : ProtocolQueue V) (response : PushResponse) (request : PushRequest V)
      (n : ℕ) : Type 0 where
    matches : request.mutations ≡ take (length request.mutations) (pending_of q.mutations)
    some_sent : 0 < length request.mutations
    watermark : ℕ
    parsed : parse_decimal response.last_mutation_id ≡ ok watermark
    last_row :
        (x : ProtocolMutation V) × (last? request.mutations ≡ some x)
        × (response.last_mutation_id ≡ x.mutation_id)
    loop : confirm_through watermark 0 q.mutations ≡ (q'.mutations, ok n)
    rest : q' ≡ record q { mutations = q'.mutations }

  acknowledge_inv :
      (q : ProtocolQueue V) (response : PushResponse) (request : PushRequest V)
      {q' : ProtocolQueue V} {n : ℕ}
      → acknowledge json q response request ≡ (q', ok n)
      → IsAcked q q' response request n
  unfolding acknowledge
  acknowledge_inv q response request {q'} {n} h =
      elim (Result-cases (parse_decimal response.last_mutation_id)) [
        | inr (e, bad) ↦ absurd (ground arith)
        | inl (w, parsed) ↦ elim (Option-cases (last? request.mutations)) [
          | inl empty ↦ absurd (ground arith)
          | inr (x, last) ↦ record {
            matches =
                list_eq_sound (mutation_eq json) mutation_eq_sound request.mutations
                  (take (length request.mutations) (pending_of q.mutations)) (ground arith);
            some_sent = ground arith;
            watermark = w;
            parsed = parsed;
            last_row =
                (x, last, text_eq_sound response.last_mutation_id x.mutation_id (ground arith));
            loop = ground arith;
            rest = ground arith;
          }
        ]
      ]

  acked_marks :
      (q q' : ProtocolQueue V) (response : PushResponse) (request : PushRequest V) (n : ℕ) (k : ℕ)
      (a : IsAcked q q' response request n)
      → length request.mutations ≡ suc k
      → (x : ProtocolMutation V) × (last? (take (suc k) (pending_of q.mutations)) ≡ some x)
        × (parse_decimal x.mutation_id ≡ ok a.watermark)
  acked_marks q q' response request n k a e =
      let (x, last, same) = a.last_row in
      (x, ap last? (rw e at (sym a.matches)) ∙ last, ap parse_decimal (sym same) ∙ a.parsed)

  confirm_acked :
      (q q' : ProtocolQueue V) (response : PushResponse) (request : PushRequest V) (n k : ℕ)
      → IsValid json q
      → IsAcked q q' response request n
      → length request.mutations ≡ k
      → (q'.mutations ≡ confirm_first k q.mutations) × (n ≡ k)
  confirm_acked q q' response request n zero v a e = absurd (omega (arith, a.some_sent))
  confirm_acked q q' response request n (suc k) v a e =
      let fits : suc k ≤ length (pending_of q.mutations) = omega (
        arith,
        ap length a.matches,
        length-take (length request.mutations) (pending_of q.mutations),
      ) in
      let run =
        confirm_through-eq json q.next_mutation_id q.max_queued_payload_bytes a.watermark 0 0
          (suc k) q.mutations v.rows fits (acked_marks q q' response request n k a e) in
      ground (arith, run, a.loop)

  -- On a well-formed queue an accepted acknowledgement was for the first pending rows, in order; it
  -- confirms exactly those rows, reports their number, and takes them off the pending rows. It
  -- changes nothing else of the queue.
  pub acknowledge_confirms :
      (q : ProtocolQueue V) (response : PushResponse) (request : PushRequest V)
      {q' : ProtocolQueue V} {n : ℕ}
      → IsValid json q
      → acknowledge json q response request ≡ (q', ok n)
      → (0 < n)
        × (n ≡ length request.mutations)
        × (request.mutations ≡ take n (pending_of q.mutations))
        × (q' ≡ record q { mutations = confirm_first n q.mutations })
        × (pending_of q'.mutations ≡ drop n (pending_of q.mutations))
  acknowledge_confirms q response request {q'} {n} v h =
      let a = acknowledge_inv q response request h in
      let (rows, count) =
        confirm_acked q q' response request n (length request.mutations) v a refl in
      let rows' : q'.mutations ≡ confirm_first n q.mutations = rw count rows in
      (
        omega (arith, a.some_sent),
        count,
        rw count a.matches,
        a.rest ∙ ap (λ (ms : List (ProtocolMutation V)). record q { mutations = ms }) rows',
        ap pending_of rows' ∙ pending-confirm_first n q.mutations,
      )
