-- ===== src/Sync/Tests.antt =====
-- The theorems on clients/rust/src/protocol_sync.rs, at a host whose world is its stored queue and
-- the number of its pulls.
use opto_sync_clients.Base.{
  ◌-◌, ◌^◌, List, Option, last?, map, ltb, max, text_eq, min, if◌then◌else◌, drop, ◌/◌, ◌*◌, inl,
  ◌<◌, ℕ, ◌+◌, ◌≤◌, ◌≡◌, ◌↔◌, refl, Bool, true, false, some, none, [], ◌∷◌, Text, text, ok, err,
  length, arith,
}
use opto_sync_clients.Protocol.Types.{
  ProtocolQueue, ProtocolMutation, PushRequest, PushResponse, MutationResult, applied, upsert,
}
use opto_sync_clients.Protocol.Checks as QueueChecks
use opto_sync_clients.Protocol.Queue.{push_request, set_checkpoint, pending_of}
use opto_sync_clients.Protocol.Wellformed.{IsValid}
use opto_sync_clients.Protocol.Progress.{IsReply, last_id}
use opto_sync_clients.Protocol.Replies.{IsAnswered}
use opto_sync_clients.Protocol.Tests.{numbers, two, two-IsValid}
use opto_sync_clients.Sync.Types.{
  persistence, Change, PullResponse, changes, Host, AtomicProtocolSyncStore,
  ProtocolSyncCycleResult,
}
use opto_sync_clients.Sync.Checks as SyncChecks
use opto_sync_clients.Sync.Checks.{
  default_options, validate, validate_pull_page, compute_protocol_retry_delay,
}
use opto_sync_clients.Sync.Driver.{sync_cycle}
use opto_sync_clients.Sync.Atomic.{sync_cycle_atomic}
use opto_sync_clients.Sync.Steps.{Steps}
use opto_sync_clients.Sync.Runs.{sync_cycle-Steps}
use opto_sync_clients.Sync.Safety.{Advances, sync_cycle-Advances, IsDurable, sync_cycle-durable}
use opto_sync_clients.Sync.Counts.{sync_cycle_counts}
use opto_sync_clients.Sync.Converges.{IsServed, sync_cycle_converges}
use opto_sync_clients.Sync.Calls.{IsMeter, sync_cycle-IsMeter}
use opto_sync_clients.Sync.Pages.{IsGoodPage, validate_pull_page_iff}
use opto_sync_clients.Sync.Retry.{compute_protocol_retry_delay_iff}
use opto_sync_clients.Sync.AtomicSafety.{IsTransactional, sync_cycle_atomic-durable}
use opto_sync_clients.Protocol.Confirm.{confirm_first}
use QueueChecks.{valid_push_limit, parse_decimal}
use opto_sync_clients.Protocol.Acknowledge.{any_mismatched, mutation_eq, acknowledge}

record World : Type 0 where
  stored : ProtocolQueue ℕ
  pulls : ℕ

-- A last page without changes.
abbrev page_at : Text → PullResponse ℕ
page_at c = record { protocol_version = 1; checkpoint = c; has_more = false; changes = [] }

-- The results of a server that applied a batch at checkpoint 7.
abbrev answer_to : ProtocolMutation ℕ → MutationResult
answer_to m = record {
  mutation_id = m.mutation_id;
  status = applied;
  original_status = none;
  checkpoint = some (text "7");
  revision = some (text "1");
  code = none;
  message = none;
}

abbrev reply_to : PushRequest ℕ → PushResponse
reply_to request = record {
  protocol_version = 1;
  client_id = request.client_id;
  last_mutation_id = last_id (last? request.mutations);
  checkpoint = text "7";
  results = map answer_to request.mutations;
}

answers-IsAnswered : (ms : List (ProtocolMutation ℕ)) → IsAnswered ms (map answer_to ms)
unfolding parse_decimal
answers-IsAnswered [] = tt
answers-IsAnswered (m ∷ ms) = (
  record {
    same_id = refl;
    checkpoint = (7, refl);
    revision = (1, refl, omega arith);
    status = inl (λ e. cc, refl);
  },
  answers-IsAnswered ms,
)

reply_to-IsReply : (request : PushRequest ℕ) → IsReply request (reply_to request)
unfolding parse_decimal
reply_to-IsReply request = record {
  version = refl;
  client = refl;
  last = refl;
  checkpoint = refl;
  answered = answers-IsAnswered request.mutations;
}

abbrev host : Host ℕ World ℕ ℕ ℕ
host = record {
  options = default_options;
  network = record {
    push = λ w request. (w, ok (reply_to request));
    pull = λ w c n. (record w { pulls = w.pulls + 1 }, ok (changes (page_at (text "7"))));
    snapshot = λ w r. (w, err (record { source = 0; retryable = false; retry_after = none }));
  };
  callbacks = record {
    apply_changes = λ w cs. (w, ok tt);
    replace_authoritative = λ w rs. (w, ok tt);
  };
  storage = record { persist = λ w q. (record w { stored = q }, ok tt) };
}

abbrev start : World
start = record { stored = two; pulls = 0 }

-- The server is at checkpoint 7.
abbrev Behind : Text → World → Type 0
Behind c w = (n : ℕ) × (QueueChecks.parse_decimal c ≡ ok n) × (n ≤ 7)

page_at_fits :
    (c : Text) (w : World) → Behind c w → validate_pull_page numbers (page_at (text "7")) c ≡ ok tt
unfolding validate_pull_page SyncChecks.page_after SyncChecks.check_changes SyncChecks.parse_decimal
    QueueChecks.parse_decimal
page_at_fits c w (n, e, l) = ground arith

host-IsServed : IsServed numbers host Behind
unfolding QueueChecks.parse_decimal
host-IsServed = record {
  pulls = λ w c h. (
    record w { pulls = w.pulls + 1 },
    page_at (text "7"),
    refl,
    refl,
    page_at_fits c w h,
    (7, refl, omega arith),
  );
  pushes = λ w c request h some_left. (w, reply_to request, refl, reply_to-IsReply request, h);
  applies = λ w c cs h. (w, refl, h);
  persists = λ w c q h. (record w { stored = q }, refl, h);
}

host-IsMeter : IsMeter host (λ w. w.pulls) 1 0 0
host-IsMeter = record {
  pulls = λ w c n. omega arith;
  snapshots = λ w r. omega arith;
  pushes = λ w r. omega arith;
  applies = λ w cs. omega arith;
  replaces = λ w rs. omega arith;
  persists = λ w q. omega arith;
}

sync_cycle-Steps_example :
    Steps numbers host two start
      (sync_cycle numbers host two start).0
      (sync_cycle numbers host two start).1
sync_cycle-Steps_example = sync_cycle-Steps numbers host two start two-IsValid

sync_cycle-Advances_example :
    IsValid numbers (sync_cycle numbers host two start).0
    × Advances two (sync_cycle numbers host two start).0
sync_cycle-Advances_example = sync_cycle-Advances numbers host two start two-IsValid

-- The same host with a storage that refuses every write.
abbrev broken : Host ℕ World ℕ ℕ ℕ
broken = record host { storage = record { persist = λ w q. (w, err 3) } }

broken-IsDurable : IsDurable numbers broken (λ w. w.stored)
broken-IsDurable = record {
  saves = λ w w' q e. cc;
  fails = λ w w' q x e. ground arith;
  pull_apart = λ w c n. refl;
  push_apart = λ w r. refl;
  snapshot_apart = λ w r. refl;
  apply_apart = λ w cs. refl;
  replace_apart = λ w rs. refl;
}

sync_cycle-durable_example :
    (sync_cycle numbers broken two start).1.stored ≡ (sync_cycle numbers broken two start).0
sync_cycle-durable_example =
    sync_cycle-durable numbers broken (λ w. w.stored) broken-IsDurable two start two-IsValid refl

-- There the moved checkpoint is rolled back.
rolled_back :
    sync_cycle numbers broken two start
    ≡ (two, record { stored = two; pulls = 1 }, err (persistence 3))
unfolding sync_cycle validate_pull_page set_checkpoint parse_decimal
rolled_back = refl

sync_cycle_converges_example :
    (q' : ProtocolQueue ℕ) × (w' : World) × (r : ProtocolSyncCycleResult) × (sync_cycle numbers host
        two start
      ≡ (q', w', ok r))
    × (r.pushed_mutations ≡ 2)
    × (pending_of q'.mutations ≡ [])
    × (r.has_more_pending ≡ false)
unfolding validate QueueChecks.parse_decimal
sync_cycle_converges_example =
    sync_cycle_converges numbers host Behind host-IsServed two start two-IsValid refl
      (0, refl, omega arith) (omega arith)

sync_cycle-IsMeter_example : (sync_cycle numbers host two start).1.pulls ≤ 200
sync_cycle-IsMeter_example =
    sync_cycle-IsMeter numbers host (λ w. w.pulls) 1 0 0 host-IsMeter two start

abbrev change_of : Text → Change ℕ
change_of c = record {
  checkpoint = c;
  table = text "t";
  record_id = text "a";
  operation = upsert;
  content = some 1;
  revision = text "1";
  source = none;
}

abbrev page_two : PullResponse ℕ
page_two = record {
  protocol_version = 1;
  checkpoint = text "9";
  has_more = true;
  changes = change_of (text "4") ∷ change_of (text "7") ∷ [];
}

validate_pull_page_iff_example :
    (validate_pull_page numbers page_two (text "3") ≡ ok tt)
    ↔ IsGoodPage numbers page_two (text "3")
validate_pull_page_iff_example = validate_pull_page_iff numbers page_two (text "3")

-- The samples one and one half, of ceilings that fit in a `Duration`.
abbrev halved : ℕ → Bool → Option ℕ
halved c one = if ltb c SyncChecks.duration_mod then some (if one then c else c / 2) else none

compute_protocol_retry_delay_iff_example :
    (compute_protocol_retry_delay (λ one. true) halved 3 10 35 false 4 ≡ SyncChecks.delay 17) ↔ (
      (0 < 3)
      × (0 < 10)
      × (10 ≤ 35)
      × (true ≡ true)
      × ((s : ℕ) × (halved (min (10 * 2 ^ min (3 - 1) 30) 35) false ≡ some s) × (17 ≡ max s 4)))
compute_protocol_retry_delay_iff_example =
    compute_protocol_retry_delay_iff (λ one. true) halved 3 10 35 false 4 17 (omega arith)

retry_once : compute_protocol_retry_delay (λ one. true) halved 3 10 35 false 4 ≡ SyncChecks.delay 17
unfolding compute_protocol_retry_delay
retry_once = refl

abbrev synced : ProtocolQueue ℕ
synced = record two { checkpoint = text "7"; mutations = confirm_first 2 two.mutations }

abbrev report : ProtocolSyncCycleResult
report = record {
  pushed_mutations = 2;
  acknowledged_mutations = 2;
  pulled_changes = 0;
  installed_snapshots = 0;
  checkpoint = text "7";
  has_more_pending = false;
}

cycle_run :
    sync_cycle numbers host two start ≡ (synced, record { stored = synced; pulls = 2 }, ok report)
unfolding sync_cycle validate_pull_page set_checkpoint parse_decimal push_request valid_push_limit
    acknowledge text_eq mutation_eq any_mismatched confirm_first
cycle_run = refl

sync_cycle_counts_example :
    (pending_of synced.mutations ≡ drop report.pushed_mutations (pending_of two.mutations))
    × (report.pushed_mutations ≡ min (length (pending_of two.mutations)) (10 * 100))
    × (report.acknowledged_mutations ≡ report.pushed_mutations)
    × (report.has_more_pending ≡ ltb 0 (length (pending_of synced.mutations)))
    × (report.checkpoint ≡ synced.checkpoint)
sync_cycle_counts_example =
    sync_cycle_counts numbers host two start {q' = synced}
      {w' = record { stored = synced; pulls = 2 }} {r = report} two-IsValid cycle_run

-- The same queue in a transactional store.
abbrev committed : AtomicProtocolSyncStore ℕ World ℕ
committed = record {
  persist_acknowledgement = λ w q request response. (record w { stored = q }, q, ok tt);
  apply_changes_and_persist = λ w cs q. (record w { stored = q }, q, ok tt);
  replace_authoritative_and_persist = λ w rs q. (record w { stored = q }, q, ok tt);
}

committed-IsTransactional :
    IsTransactional numbers default_options host.network committed (λ w. w.stored)
committed-IsTransactional = record {
  acknowledges = λ w q request response v. (refl, v);
  applies = λ w cs q v. (refl, v);
  replaces = λ w rs q v. (refl, v);
  pull_apart = λ w c n. refl;
  push_apart = λ w r. refl;
  snapshot_apart = λ w r. refl;
}

sync_cycle_atomic-durable_example :
    IsValid numbers (sync_cycle_atomic numbers default_options host.network committed two start).0
    × ((sync_cycle_atomic numbers default_options host.network committed two start).1.stored
        ≡ (sync_cycle_atomic numbers default_options host.network committed two start).0)
sync_cycle_atomic-durable_example =
    sync_cycle_atomic-durable numbers default_options host.network committed (λ w. w.stored)
      committed-IsTransactional two start two-IsValid refl
