-- ===== src/Client/Store.antt =====
-- `MutationStore` and `InMemoryStore` of clients/rust/src/lib.rs.
use opto_sync_clients.Base.{
  ℕ, ◌+◌, ◌%◌, Bool, true, false, List, [], ◌∷◌, ◌++◌, ◌==◌, filter, if◌then◌else◌, Text, u64_mod,
}

pub data MutationStatus : Type 0 where
  pending_status synced failed : MutationStatus

pub record Mutation : Type 0 where
  pub id : ℕ
  pub payload : Text
  pub status : MutationStatus

-- What the client asks of its store.
pub record MutationStore (S : Type 0) : Type 0 where
  pub queue_mutation : S → Text → S × ℕ
  pub pending : S → List Mutation
  pub mark_synced : S → ℕ → S × Bool
  pub mark_failed : S → ℕ → S × Bool

pub record InMemoryStore : Type 0 where
  pub next_id : ℕ
  pub mutations : List Mutation

abbrev pub empty_store : InMemoryStore
empty_store = record { next_id = 0; mutations = [] }

-- Derived `PartialEq`, at `Pending`.
abbrev pub awaits_server : MutationStatus → Bool
awaits_server pending_status = true
awaits_server synced = false
awaits_server failed = false

abbrev pub is_pending : Mutation → Bool
is_pending m = awaits_server m.status

-- `find` and the assignment to what it finds.
unfoldable pub set_first : List Mutation → ℕ → MutationStatus → List Mutation × Bool
set_first [] id status = ([], false)
set_first (m ∷ ms) id status =
    let rest = set_first ms id status in
    if m.id == id then (record m { status = status } ∷ ms, true) else (m ∷ rest.0, rest.1)

unfoldable pub set_status : InMemoryStore → ℕ → MutationStatus → InMemoryStore × Bool
unfolding set_first
set_status s id status =
    let (mutations, found) = set_first s.mutations id status in
    (record s { mutations = mutations }, found)

-- `next_id += 1` on `u64`, as a release build wraps it.
unfoldable pub store_mutation : InMemoryStore → Text → InMemoryStore × ℕ
store_mutation s payload = (
  record s {
    next_id = (s.next_id + 1) % u64_mod;
    mutations =
        s.mutations ++ (record { id = s.next_id; payload = payload; status = pending_status }) ∷ [];
  },
  s.next_id,
)

unfoldable pub pending_mutations : InMemoryStore → List Mutation
pending_mutations s = filter is_pending s.mutations

unfoldable pub in_memory : MutationStore InMemoryStore
unfolding store_mutation pending_mutations set_status
in_memory = record {
  queue_mutation = store_mutation;
  pending = pending_mutations;
  mark_synced = λ s id. set_status s id synced;
  mark_failed = λ s id. set_status s id failed;
}
