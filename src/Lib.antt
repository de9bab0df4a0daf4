-- ===== src/Lib.antt =====
-- The Rust clients of opto-sync: the queue of optimistic writes, the scheduler that decides when to
-- sync it, and the desktop host that runs a sync under a durable lease.
--
-- The parts, and how they interact:
--
-- * Protocol (clients/rust/src/protocol.rs) is the durable queue. A local write appends a pending
--   row under the next mutation id; a push request carries the oldest pending rows; the server's
--   answer confirms exactly that batch; confirmed rows are pruned; a snapshot replaces the
--   application's rows and moves the checkpoint. Protocol/Types.antt has its data, Checks.antt the
--   checks on single values, Queue.antt construction, writes and batches, Validate.antt the
--   validation of a loaded queue, Acknowledge.antt acknowledgement and snapshots, Merge.antt the
--   merge with what another connection has stored.
-- * Sync (clients/rust/src/protocol_sync.rs) is one push and pull cycle over the queue. Sync/Types.antt
--   has its data and the interfaces of the application, Checks.antt the checks on options, pages and
--   snapshots and the retry delay, Outcome.antt the early returns, Driver.antt `sync_cycle`, and
--   Atomic.antt `sync_cycle_atomic`. Sync/Steps.antt is the relation of the steps that a cycle may
--   take, and Runs.antt the cycle against it.
-- * Consistency (clients/rust/src/consistency.rs) names the policies of a write and reconciles local
--   rows, remote rows and queued writes into one view. Consistency/Policy.antt has the policies and
--   the outcome of a network attempt, Values.antt JSON values, the frozen intent of a queued write
--   and the queue's `rebind_consistency`, and Reads.antt the read model.
-- * Scheduler (clients/rust/src/protocol_scheduler.rs) is the state machine that decides when a
--   push and pull cycle runs. Scheduler.antt has the whole transition function.
-- * Desktop (clients/desktop-rust) embeds the cycle in a host. Desktop/Lifecycle.antt is the phase
--   table of src/lib.rs, Fenced.antt the adapter of fenced-lifecycle/src/lib.rs that adds
--   generations to it, Leases.antt the lease store in memory, Runner.antt `DesktopSyncRunner`,
--   which drives the lifecycle, the store and the cycle, Capability.antt the capability answer, and
--   Session.antt the login and logout of src/session_lifecycle.rs.
-- * Clock (clients/rust/src/clock.rs) is the hybrid logical clock that stamps the writes.
--   Clock.antt has the stamps, their texts, `next` and `observe`.
-- * Client (clients/rust/src/lib.rs) is the facade of a client that merges documents.
--   Client/Options.antt has the options, `reconcile` and `rebase_pending`, Store.antt the mutation
--   store as an interface and in memory, and Facade.antt `OptoSyncClient`. Pending.antt and
--   Overlay.antt hold what is proved of the store and of the local view.
-- * Connectivity (clients/rust-connectivity/src/lib.rs) tells the host whether it may sync.
--   Connectivity/Watcher.antt is the watcher with the offline override, Saves.antt the signals that
--   follow a durable save, and Override.antt runs of calls and the interleaving of two threads.
--
-- The other files of each directory hold what is proved of these. Some of them say what the code
-- decides without the code: Protocol/Wellformed.antt what a queue keeps, Protocol/Replies.antt what
-- answers a batch, Consistency/Numbers.antt the number of a revision, Consistency/Content.antt when
-- two payloads are the same, Consistency/Listing.antt the order of a read, and Desktop/Rounds.antt
-- what a run does without the lifecycle. Base has the vocabulary: Boolean tests on numbers, lists,
-- texts and maps.
--
-- How the code is read: a method on `&mut self` returns the new state with its result, and an
-- error path is a value; where the code changes its state before it fails, the model does too.
-- Texts are lists of UTF-8 bytes. Integers are natural numbers; `checked_add` and `saturating_add`
-- of `u64` are written out, and `usize` is taken to have 64 bits. A `BTreeMap` is an association
-- list by its operations. A JSON value is a type parameter with what the code asks of it: whether
-- it is an object, how long its encoding is, and an equality that decides equality, which leaves
-- aside 0.0 and -0.0; in Consistency/Values.antt, which sorts objects, it is a tree. The callbacks
-- that replace a snapshot's rows, run a cycle, flush telemetry or clear credentials thread a state
-- of their own; a store call and a cycle may fail or panic, and a panic in a store call poisons
-- its mutex. The wall clock is an argument of each call. `u64::to_string` recurses on fuel, the
-- number plus one, which is more than its digits. The loops over `max_pull_pages_per_phase` and
-- `max_push_batches_per_cycle` recurse on the rounds that are left. A `Duration` is its nanoseconds.
--
-- Not modelled: `observe_incoming` of the client facade, and its random node ids; the thread that
-- repeats the connectivity probe; SQLite, transports and telemetry, which are I/O over other
-- libraries; the merge engine, which is a submodule; and the clients in other languages.
pub mod Base
pub mod Client
pub mod Clock
pub mod Connectivity
pub mod Consistency
pub mod Desktop
pub mod Protocol
pub mod Scheduler
pub mod Sync
