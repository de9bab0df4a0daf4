-- ===== src/Protocol/Progress.antt =====
-- A batch of clients/rust/src/protocol.rs and the answers that confirm it: `push_request` and
-- `acknowledge` end to end.
use opto_sync_clients.Base.{
  min, ℕ, zero, suc, ◌≤◌, ◌<◌, ◌≡◌, refl, sym, ap, ◌∙◌, Bool, true, Option, none, some, List, [],
  ◌∷◌, take, length, last?, Text, ok, is_ok, arith, inl, inr, text_eq, text_eq_refl, text_eq_sound,
  ◌↔◌, Option-cases, list_eq, list_eq_refl, length-take,
}
use opto_sync_clients.Protocol.Types.{
  Json, ProtocolMutation, ProtocolQueue, PushRequest, PushResponse, confirmed, pending, Operation,
  LocalProtocolStatus, operation_eq, status_eq, upsert, delete,
}
use opto_sync_clients.Protocol.Checks.{watermark_is_valid, valid_push_limit, parse_decimal}
use opto_sync_clients.Protocol.Queue.{pending_of, still_pending, push_request}
use opto_sync_clients.Protocol.Acknowledge.{confirm_through, acknowledge, mutation_eq, option_eq}
use opto_sync_clients.Protocol.Wellformed.{filter-Rows, Rows, IsValid}
use opto_sync_clients.Protocol.Replies.{IsAnswered, any_mismatched_sound, any_mismatched_complete}
use opto_sync_clients.Protocol.Confirm.{last_or_later, confirm_first, confirm_through-eq}

operation_eq_refl : (a : Operation) → operation_eq a a ≡ true
operation_eq_refl upsert = refl
operation_eq_refl delete = refl

status_eq_refl : (a : LocalProtocolStatus) → status_eq a a ≡ true
status_eq_refl pending = refl
status_eq_refl confirmed = refl

option_eq_refl :
    {A : Type 0} (eq : A → A → Bool)
    → ((x : A) → eq x x ≡ true)
    → (a : Option A) → option_eq eq a a ≡ true
option_eq_refl eq h none = refl
option_eq_refl eq h (some x) = h x

last_some {ℓ} : {A : Type ℓ} (x : A) (xs : List A) → (y : A) × (last? (x ∷ xs) ≡ some y)
last_some x [] = (x, refl)
last_some x (y ∷ xs) = last_some y xs

last_of {ℓ} : {A : Type ℓ} (xs : List A) → 0 < length xs → (y : A) × (last? xs ≡ some y)
last_of [] h = absurd (omega arith)
last_of (x ∷ xs) h = last_some x xs

take-length-take {ℓ} : {A : Type ℓ} (k : ℕ) (xs : List A) → take (length (take k xs)) xs ≡ take k xs
take-length-take zero xs = refl
take-length-take (suc k) [] = refl
take-length-take (suc k) (x ∷ xs) = ap (λ ys. x ∷ ys) (take-length-take k xs)

module _ {V : Type 0} where
  abbrev pub last_id : Option (ProtocolMutation V) → Text
  last_id none = []
  last_id (some m) = m.mutation_id

  -- A server's answer to a batch: to the same client, up to the batch's last mutation, at a decimal
  -- checkpoint, with a result for each mutation.
  pub record IsReply (request : PushRequest V) (response : PushResponse) : Type 0 where
    pub version : response.protocol_version ≡ 1
    pub client : response.client_id ≡ request.client_id
    pub last : response.last_mutation_id ≡ last_id (last? request.mutations)
    pub checkpoint : is_ok (parse_decimal response.checkpoint) ≡ true
    pub answered : IsAnswered request.mutations response.results

module _ {V : Type 0} (json : Json V) where
  mutation_eq_refl : (m : ProtocolMutation V) → mutation_eq json m m ≡ true
  unfolding mutation_eq
  mutation_eq_refl m = ground (
    arith,
    text_eq_refl m.mutation_id,
    operation_eq_refl m.operation,
    text_eq_refl m.table,
    text_eq_refl m.record_id,
    option_eq_refl json.value_eq (λ x. (json.value_eq_iff x x).1 refl) m.payload,
    option_eq_refl text_eq text_eq_refl m.base_revision,
    status_eq_refl m.status,
  )

  last_below :
      (next limit lo k : ℕ) (ms : List (ProtocolMutation V)) (x : ProtocolMutation V)
      → Rows json next limit lo ms
      → last? (take k ms) ≡ some x
      → (w : ℕ) × (parse_decimal x.mutation_id ≡ ok w) × (w < next)
  last_below next limit lo zero [] x r e = cc
  last_below next limit lo (suc k) [] x r e = cc
  last_below next limit lo zero (m ∷ ms) x r e = cc
  last_below next limit lo (suc k) (m ∷ ms) x (id, parsed, low, high, good, rest) e =
      elim (last_or_later k m x ms e) [
        | inl same ↦ (id, ground arith, high)
        | inr (j, _, later) ↦ last_below next limit id (suc j) ms x rest later
      ]

  confirm_batch :
      (next limit w k : ℕ) (ms : List (ProtocolMutation V)) (x : ProtocolMutation V)
      → Rows json next limit 0 ms
      → 0 < k
      → k ≤ length (pending_of ms)
      → last? (take k (pending_of ms)) ≡ some x
      → parse_decimal x.mutation_id ≡ ok w
      → confirm_through w 0 ms ≡ (confirm_first k ms, ok k)
  confirm_batch next limit w zero ms x r s f e p = absurd (omega arith)
  confirm_batch next limit w (suc k) ms x r s f e p =
      ground (arith, confirm_through-eq json next limit w 0 0 (suc k) ms r f (x, e, p))

  taken :
      (q : ProtocolQueue V) (limit : ℕ) (request : PushRequest V) (response : PushResponse)
      → IsValid json q
      → push_request q limit ≡ ok request
      → 0 < length request.mutations
      → IsReply request response
      → acknowledge json q response request ≡ (
        record q { mutations = confirm_first (length request.mutations) q.mutations },
        ok (length request.mutations),
      )
  unfolding push_request acknowledge valid_push_limit watermark_is_valid
  taken q limit request response v h some_row reply =
      let ps = pending_of q.mutations in
      let batch : request.mutations ≡ take limit ps = ground arith in
      let size : length request.mutations ≡ min limit (length ps) =
        ap length batch ∙ length-take limit ps in
      let sent : take (length request.mutations) ps ≡ request.mutations =
        ap (λ (k : ℕ). take k ps) (ap length batch) ∙ take-length-take limit ps ∙ sym batch in
      let same : list_eq (mutation_eq json) request.mutations (take (length request.mutations) ps)
          ≡ true =
        ap (list_eq (mutation_eq json) request.mutations) sent
        ∙ list_eq_refl (mutation_eq json) mutation_eq_refl request.mutations in
      let (x, last) = last_of request.mutations some_row in
      let rows =
        filter-Rows json still_pending q.next_mutation_id q.max_queued_payload_bytes 0 0 q.mutations
          (omega arith) v.rows in
      let (w, parsed, below) =
        last_below q.next_mutation_id q.max_queued_payload_bytes 0 (length request.mutations) ps x
          rows (ap last? sent ∙ last) in
      let run =
        confirm_batch q.next_mutation_id q.max_queued_payload_bytes w (length request.mutations)
          q.mutations x v.rows some_row (omega arith) (ap last? sent ∙ last) parsed in
      let named : response.last_mutation_id ≡ x.mutation_id = reply.last ∙ ap last_id last in
      let watermark : parse_decimal response.last_mutation_id ≡ ok w =
        ap parse_decimal named ∙ parsed in
      let ends : text_eq response.last_mutation_id x.mutation_id ≡ true =
        ap (λ (t : Text). text_eq t x.mutation_id) named ∙ text_eq_refl x.mutation_id in
      let mine : request.client_id ≡ q.client_id = ground arith in
      let client : text_eq request.client_id q.client_id ≡ true =
        ap (λ (t : Text). text_eq t q.client_id) mine ∙ text_eq_refl q.client_id in
      let theirs : text_eq response.client_id q.client_id ≡ true =
        ap (λ (t : Text). text_eq t q.client_id) (reply.client ∙ mine) ∙ text_eq_refl q.client_id in
      let version = reply.version in
      let decimal = reply.checkpoint in
      let (paired, matched) =
        any_mismatched_complete request.mutations response.results reply.answered in
      ground (
        arith, same, last, watermark, ends, client, theirs, version, decimal, paired, matched,
        below, run, size,
      )

  checked :
      (q : ProtocolQueue V) (request : PushRequest V) (response : PushResponse)
      {q' : ProtocolQueue V} {n : ℕ}
      → acknowledge json q response request ≡ (q', ok n)
      → IsReply request response
  unfolding acknowledge
  checked q request response h = elim (Option-cases (last? request.mutations)) [
    | inl empty ↦ absurd (ground arith)
    | inr (x, last) ↦ record {
      version = ground arith;
      client =
          text_eq_sound response.client_id q.client_id (ground arith)
          ∙ sym (text_eq_sound request.client_id q.client_id (ground arith));
      last =
          text_eq_sound response.last_mutation_id x.mutation_id (ground arith)
          ∙ sym (ap last_id last);
      checkpoint = ground arith;
      answered =
          any_mismatched_sound request.mutations response.results (ground arith) (ground arith);
    }
  ]

  -- On a well-formed queue, a batch that `push_request` made and that is not empty is acknowledged
  -- exactly by the responses that answer it: of protocol version 1, to the same client, up to the
  -- batch's last mutation, at a decimal checkpoint, with one result for each mutation in order,
  -- under the mutation's id, with a decimal checkpoint and a positive revision where it has them,
  -- and with an original status, which is not `duplicate`, exactly when it is a duplicate. The rows
  -- of the batch become confirmed, nothing else changes, and their number is returned.
  pub acknowledge_iff :
      (q : ProtocolQueue V) (limit : ℕ) (response : PushResponse) {request : PushRequest V}
      → IsValid json q
      → push_request q limit ≡ ok request
      → 0 < length request.mutations
      → (acknowledge json q response request ≡ (
        record q { mutations = confirm_first (length request.mutations) q.mutations },
        ok (length request.mutations),
      ))
        ↔ IsReply request response
  acknowledge_iff q limit response {request} v h some_row =
      (λ e. checked q request response e, λ r. taken q limit request response v h some_row r)
