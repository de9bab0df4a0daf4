-- ===== src/Client/Pending.antt =====
-- The store in memory of clients/rust/src/lib.rs against the writes that it should hand out.
use opto_sync_clients.Base.{
  subst, inr, inl, Bool-cases, ◌%◌, if◌then◌else◌, ap, ◌∙◌, sym, ℕ, ◌+◌, ◌≤◌, ◌<◌, ◌≡◌, refl, false,
  not, List, [], ◌∷◌, ◌++◌, ◌==◌, filter, map, length, Text, u64_mod, arith,
}
use opto_sync_clients.Client.Store.{
  pending_status, MutationStatus, synced, failed, Mutation, InMemoryStore, empty_store, is_pending,
  awaits_server, set_first, set_status, store_mutation, pending_mutations,
}

pub data StoreCall : Type 0 where
  write : Text → StoreCall
  succeed fail : ℕ → StoreCall

unfoldable pub after_calls : List StoreCall → InMemoryStore → InMemoryStore
unfolding store_mutation set_status
after_calls [] s = s
after_calls (write payload ∷ calls) s = after_calls calls (store_mutation s payload).0
after_calls (succeed id ∷ calls) s = after_calls calls (set_status s id synced).0
after_calls (fail id ∷ calls) s = after_calls calls (set_status s id failed).0

-- The writes that the server has neither taken nor refused, oldest first, without the store.
unfoldable pub unsettled : List StoreCall → ℕ → List (ℕ × Text) → List (ℕ × Text)
unsettled [] next waiting = waiting
unsettled (write payload ∷ calls) next waiting =
    unsettled calls (next + 1) (waiting ++ (next, payload) ∷ [])
unsettled (succeed id ∷ calls) next waiting =
    unsettled calls next (filter (λ w. not (w.0 == id)) waiting)
unsettled (fail id ∷ calls) next waiting =
    unsettled calls next (filter (λ w. not (w.0 == id)) waiting)

-- Ids rise from `lo`, below `hi`.
unfoldable pub IsRising : ℕ → ℕ → List Mutation → Type 0
IsRising lo hi [] = lo ≤ hi
IsRising lo hi (m ∷ ms) = (lo ≤ m.id) × IsRising (m.id + 1) hi ms

unfoldable pub waiting : List Mutation → List (ℕ × Text)
waiting [] = []
waiting (m ∷ ms) = let rest = waiting ms in if is_pending m then (m.id, m.payload) ∷ rest else rest

pub waiting-pending :
    (ms : List Mutation) → map (λ m. (m.id, m.payload)) (filter is_pending ms) ≡ waiting ms
unfolding waiting
waiting-pending [] = refl
waiting-pending (m ∷ ms) = let ih = waiting-pending ms in ground arith

waiting-append : (ms ns : List Mutation) → waiting (ms ++ ns) ≡ waiting ms ++ waiting ns
unfolding waiting
waiting-append [] ns = refl
waiting-append (m ∷ ms) ns = let ih = waiting-append ms ns in ground arith

waiting-below :
    (ms : List Mutation) (lo hi id : ℕ)
    → IsRising lo hi ms
    → id < lo
    → filter (λ w. not (w.0 == id)) (waiting ms) ≡ waiting ms
unfolding waiting IsRising
waiting-below [] lo hi id r l = refl
waiting-below (m ∷ ms) lo hi id (p, r) l =
    let ih = waiting-below ms (m.id + 1) hi id r (omega arith) in
    let other : (m.id == id) ≡ false = ground arith in ground arith

waiting-set :
    (ms : List Mutation) (lo hi id : ℕ) (status : MutationStatus)
    → awaits_server status ≡ false
    → IsRising lo hi ms
    → waiting (set_first ms id status).0 ≡ filter (λ w. not (w.0 == id)) (waiting ms)
unfolding waiting IsRising set_first
waiting-set [] lo hi id status e r = refl
waiting-set (m ∷ ms) lo hi id status e (p, r) = elim (Bool-cases (m.id == id)) [
  | inl same ↦
      let below = waiting-below ms (m.id + 1) hi id r (ground arith) in
      elim (Bool-cases (awaits_server m.status)) [
        | inl a ↦ rw (same, a, filter, same, e) (sym below)
        | inr a ↦ rw same (rw a (rw e (sym below)))
      ]
  | inr other ↦
      let ih = waiting-set ms (m.id + 1) hi id status e r in
      elim (Bool-cases (awaits_server m.status)) [
        | inl a ↦ rw (other, a, filter, other) (ap (λ ws. (m.id, m.payload) ∷ ws) ih)
        | inr a ↦ rw other (rw a ih)
      ]
]

set-IsRising :
    (ms : List Mutation) (lo hi id : ℕ) (status : MutationStatus)
    → IsRising lo hi ms
    → IsRising lo hi (set_first ms id status).0
unfolding IsRising set_first
set-IsRising [] lo hi id status r = r
set-IsRising (m ∷ ms) lo hi id status (p, r) =
    let ih = set-IsRising ms (m.id + 1) hi id status r in
    elim (Bool-cases (m.id == id)) [ inl e ↦ rw e (p, r) | inr e ↦ rw e (p, ih) ]

push-IsRising :
    (ms : List Mutation) (lo : ℕ) (m : Mutation)
    → IsRising lo m.id ms
    → IsRising lo (m.id + 1) (ms ++ m ∷ [])
unfolding IsRising
push-IsRising [] lo m r = (r, omega arith)
push-IsRising (n ∷ ms) lo m (p, r) = (p, push-IsRising ms (n.id + 1) m r)

-- What is waiting after any calls on a store whose ids rise.
waiting-after :
    (calls : List StoreCall) (s : InMemoryStore)
    → IsRising 0 s.next_id s.mutations
    → s.next_id + length calls < u64_mod
    → waiting (after_calls calls s).mutations ≡ unsettled calls s.next_id (waiting s.mutations)
unfolding after_calls unsettled store_mutation set_status waiting
waiting-after [] s r l = refl
waiting-after (write payload ∷ calls) s r l =
    let new : Mutation = record { id = s.next_id; payload = payload; status = pending_status } in
    let moved : (s.next_id + 1) % u64_mod ≡ s.next_id + 1 = omega arith in
    waiting-after calls (store_mutation s payload).0
      (subst (λ n. IsRising 0 n (s.mutations ++ new ∷ [])) (sym moved)
        (push-IsRising s.mutations 0 new r))
      (omega arith)
    ∙ ap (λ n. unsettled calls n (waiting (s.mutations ++ new ∷ []))) moved
    ∙ ap (unsettled calls (s.next_id + 1)) (waiting-append s.mutations (new ∷ []))
waiting-after (succeed id ∷ calls) s r l =
    waiting-after calls (set_status s id synced).0
      (set-IsRising s.mutations 0 s.next_id id synced r) (omega arith)
    ∙ ap (unsettled calls s.next_id) (waiting-set s.mutations 0 s.next_id id synced refl r)
waiting-after (fail id ∷ calls) s r l =
    waiting-after calls (set_status s id failed).0
      (set-IsRising s.mutations 0 s.next_id id failed r) (omega arith)
    ∙ ap (unsettled calls s.next_id) (waiting-set s.mutations 0 s.next_id id failed refl r)

-- After any sequence of fewer than 2 ^ 64 calls on an empty store, `pending` hands out exactly the
-- writes that have not been marked as synced or failed since they were queued, each with the id that
-- it was given, in the order in which they were queued.
pub pending-unsettled :
    (calls : List StoreCall)
    → length calls < u64_mod
    → map (λ m. (m.id, m.payload)) (pending_mutations (after_calls calls empty_store))
      ≡ unsettled calls 0 []
unfolding pending_mutations IsRising waiting
pending-unsettled calls l =
    waiting-pending (after_calls calls empty_store).mutations
    ∙ waiting-after calls empty_store (omega arith) (omega arith)
