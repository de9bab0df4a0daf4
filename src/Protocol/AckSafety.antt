-- ===== src/Protocol/AckSafety.antt =====
-- What `acknowledge` of clients/rust/src/protocol.rs keeps, what it refuses, and that the reply of a
-- server that applied the batch is accepted.
use opto_sync_clients.Base.{
  ◌&&◌, ℕ, zero, suc, ◌+◌, ◌≤◌, ◌<◌, ◌≡◌, ◌≢◌, refl, sym, ap, ◌∙◌, List, [], ◌∷◌, take, drop,
  length, ok, err, arith, leb, Bool-cases, inl, inr, Result, if◌then◌else◌,
}
use opto_sync_clients.Protocol.Types.{
  Json, ProtocolMutation, ProtocolQueue, ProtocolError, PushRequest, PushResponse,
}
use opto_sync_clients.Protocol.Checks.{parse_decimal}
use opto_sync_clients.Protocol.Queue.{pending_of, still_pending}
use opto_sync_clients.Protocol.Acknowledge.{confirm_through, acknowledge}
use opto_sync_clients.Protocol.Wellformed.{filter-Rows, Rows, IsValid, Result-cases}
use opto_sync_clients.Protocol.Confirm.{confirm_first, confirm-cons, pending-confirm_first}
use opto_sync_clients.Protocol.Acked.{acknowledge_confirms}

length-drop-le {ℓ} : {A : Type ℓ} (k : ℕ) (xs : List A) → length (drop k xs) ≤ length xs
length-drop-le zero xs = omega arith
length-drop-le (suc k) [] = omega arith
length-drop-le (suc k) (x ∷ xs) = omega (arith, length-drop-le k xs)

module _ {V : Type 0} (json : Json V) where
  confirm_first-Rows :
      (next limit lo k : ℕ) (ms : List (ProtocolMutation V))
      → Rows json next limit lo ms
      → Rows json next limit lo (confirm_first k ms)
  unfolding confirm_first
  confirm_first-Rows next limit lo zero ms r = r
  confirm_first-Rows next limit lo (suc k) [] r = tt
  confirm_first-Rows next limit lo (suc k) (m ∷ ms) (id, parsed, low, high, good, rest) =
      elim (Bool-cases (still_pending m)) [
        | inl live ↦ rw live (
          id,
          parsed,
          low,
          high,
          record {
            table_ok = good.table_ok;
            record_ok = good.record_ok;
            revision_ok = good.revision_ok;
            content = good.content;
          },
          confirm_first-Rows next limit id k ms rest,
        )
        | inr done ↦
            rw done (id, parsed, low, high, good, confirm_first-Rows next limit id (suc k) ms rest)
      ]

  -- The loop over well-formed rows meets no bad id.
  confirm_total :
      (next limit lo w c : ℕ) (ms : List (ProtocolMutation V))
      → Rows json next limit lo ms
      → (n : ℕ) × ((confirm_through w c ms).1 ≡ ok n)
  unfolding confirm_through
  confirm_total next limit lo w c [] r = (c, refl)
  confirm_total next limit lo w c (m ∷ ms) (id, parsed, low, high, good, rest) =
      let (n, e) =
        confirm_total next limit id w (if leb id w && still_pending m then c + 1 else c) ms rest in
      (
        n,
        ap (λ (r : List (ProtocolMutation V) × Result ℕ ProtocolError). r.1)
              (confirm-cons w c id m ms parsed)
            ∙ e,
      )

  -- A refused acknowledgement leaves a well-formed queue as it was.
  pub acknowledge_refused :
      (q : ProtocolQueue V) (response : PushResponse) (request : PushRequest V)
      {q' : ProtocolQueue V} {e : ProtocolError}
      → IsValid json q
      → acknowledge json q response request ≡ (q', err e)
      → q' ≡ q
  unfolding acknowledge
  acknowledge_refused q response request v h =
      elim (Result-cases (parse_decimal response.last_mutation_id)) [
        | inr (e, bad) ↦ ground arith
        | inl (w, parsed) ↦
            let (n, fine) =
              confirm_total q.next_mutation_id q.max_queued_payload_bytes 0 w 0 q.mutations
                v.rows in
            ground arith
      ]

  -- An acknowledgement, accepted or refused, keeps a queue well formed.
  pub acknowledge-IsValid :
      (q : ProtocolQueue V) (response : PushResponse) (request : PushRequest V)
      → IsValid json q
      → IsValid json (acknowledge json q response request).0
  acknowledge-IsValid q response request v =
      elim (Result-cases (acknowledge json q response request).1) [
        | inr (e, bad) ↦
            rw
              (acknowledge_refused q response request {q' = (acknowledge json q response request).0}
                {e = e} v (ground arith))
              v
        | inl (n, fine) ↦
            let (_, count, sent, after, left) =
              acknowledge_confirms json q response request
                {q' = (acknowledge json q response request).0} {n = n} v (ground arith) in
            rw after (record {
              client_ok = v.client_ok;
              capacity = v.capacity;
              bytes = v.bytes;
              checkpoint_ok = v.checkpoint_ok;
              next_pos = v.next_pos;
              next_le = v.next_le;
              rows =
                  confirm_first-Rows q.next_mutation_id q.max_queued_payload_bytes 0 n q.mutations
                    v.rows;
              pending_le = omega (
                arith,
                ap length (pending-confirm_first n q.mutations),
                length-drop-le n (pending_of q.mutations),
                v.pending_le,
              );
            })
      ]

  drop_above :
      (next limit lo k j : ℕ) (ms rest : List (ProtocolMutation V)) (m : ProtocolMutation V)
      → Rows json next limit lo ms
      → take (suc k) (drop j ms) ≡ m ∷ rest
      → (id : ℕ) × (parse_decimal m.mutation_id ≡ ok id) × (lo < id)
  drop_above next limit lo k zero [] rest m r h = cc
  drop_above next limit lo k (suc j) [] rest m r h = cc
  drop_above next limit lo k zero (x ∷ ms) rest m (id, parsed, low, high, good, more) h =
      (id, ground arith, low)
  drop_above next limit lo k (suc j) (x ∷ ms) rest m (id, parsed, low, high, good, more) h =
      let (i, p, above) = drop_above next limit id k j ms rest m more h in (i, p, omega arith)

  -- Rising rows do not begin again with the rows that were dropped.
  drop_differs :
      (next limit lo k : ℕ) (ms : List (ProtocolMutation V))
      → Rows json next limit lo ms
      → 0 < length (take (suc k) ms)
      → take (suc k) ms ≢ take (suc k) (drop (suc k) ms)
  drop_differs next limit lo k [] r some_row h = omega arith
  drop_differs next limit lo k (m ∷ ms) (id, parsed, low, high, good, more) some_row h =
      let (i, p, above) = drop_above next limit id k k ms (take k ms) m more (sym h) in ground arith

  once_at :
      (next limit n : ℕ) (xs ms : List (ProtocolMutation V))
      → Rows json next limit 0 ms
      → 0 < n
      → n ≡ length xs
      → xs ≡ take n ms
      → xs ≢ take n (drop n ms)
  once_at next limit zero xs ms r s c e f = absurd (omega arith)
  once_at next limit (suc k) xs ms r s c e f =
      drop_differs next limit 0 k ms r (omega (arith, ap length e)) (sym e ∙ f)

  -- An acknowledgement that was accepted on a well-formed queue is not accepted again: on the
  -- queue that it leaves every answer to the same request is refused.
  pub acknowledge_once :
      (q : ProtocolQueue V) (response again : PushResponse) (request : PushRequest V)
      {q' q'' : ProtocolQueue V} {n m : ℕ}
      → IsValid json q
      → acknowledge json q response request ≡ (q', ok n)
      → acknowledge json q' again request ≢ (q'', ok m)
  acknowledge_once q response again request {q'} {q''} {n} {m} v h h' =
      let valid : IsValid json q' = rw h at (acknowledge-IsValid q response request v) in
      let (some_sent, count, sent, after, left) =
        acknowledge_confirms json q response request v h in
      let (_, count', sent', _, _) = acknowledge_confirms json q' again request valid h' in
      once_at q.next_mutation_id q.max_queued_payload_bytes n request.mutations
        (pending_of q.mutations)
        (filter-Rows json still_pending q.next_mutation_id q.max_queued_payload_bytes 0 0
          q.mutations (omega arith) v.rows)
        some_sent count sent (rw (count' ∙ sym count, left) at sent')
