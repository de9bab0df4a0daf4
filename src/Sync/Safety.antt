-- ===== src/Sync/Safety.antt =====
-- What a cycle of clients/rust/src/protocol_sync.rs leaves, however it ends: by induction on the
-- steps of Sync/Steps.antt.
use opto_sync_clients.Base.{
  ℕ, zero, suc, ◌+◌, ◌≤◌, ◌≡◌, refl, ap, ◌∙◌, Text, ok, err, arith, List, [], ◌∷◌,
}
use opto_sync_clients.Protocol.Types.{
  PushRequest, SnapshotRecord, Json, ProtocolQueue, ProtocolMutation,
}
use opto_sync_clients.Protocol.Checks.{parse_decimal}
use opto_sync_clients.Protocol.Confirm.{confirm_first}
use opto_sync_clients.Protocol.Wellformed.{IsValid}
use opto_sync_clients.Protocol.Acked.{acknowledge_confirms}
use opto_sync_clients.Sync.Types.{Host, ResetRequired, Change}
use opto_sync_clients.Sync.Driver.{sync_cycle}
use opto_sync_clients.Sync.Steps.{
  Move, forward, confirmed, Step, pulled, reset, pushed, applied, replaced, stored, unsaved, Steps,
  here, next,
}
use opto_sync_clients.Sync.Reaches.{Steps-IsValid}
use opto_sync_clients.Sync.Runs.{sync_cycle-Steps}

-- The number that a checkpoint names.
abbrev pub checkpoint_value : Text → ℕ
checkpoint_value s = elim (parse_decimal s) [ ok n ↦ n | err e ↦ 0 ]

module _ {V : Type 0} where
  confirm_first-add :
      (j k : ℕ) (ms : List (ProtocolMutation V))
      → confirm_first k (confirm_first j ms) ≡ confirm_first (j + k) ms
  unfolding confirm_first
  confirm_first-add j zero ms =
      let e : j ≡ j + 0 = omega arith in ap (λ (n : ℕ). confirm_first n ms) e
  confirm_first-add zero (suc k) ms =
      let e : suc k ≡ 0 + suc k = omega arith in ap (λ (n : ℕ). confirm_first n ms) e
  confirm_first-add (suc j) (suc k) [] =
      let e : suc (j + suc k) ≡ suc j + suc k = omega arith in
      ap (λ (n : ℕ). confirm_first {V = V} n []) e
  confirm_first-add (suc j) (suc k) (m ∷ ms) =
      let e : suc (j + suc k) ≡ suc j + suc k = omega arith in
      ground (arith, confirm_first-add j (suc k) ms, confirm_first-add (suc j) (suc k) ms)
      ∙ ap (λ (n : ℕ). confirm_first n (m ∷ ms)) e

-- The first `k` pending mutations have become confirmed, and the checkpoint has not gone back;
-- nothing else of the queue has changed.
abbrev pub Advances : {V : Type 0} → ProtocolQueue V → ProtocolQueue V → Type 0
Advances q q' =
    (k : ℕ) × (q'
      ≡ record q { checkpoint = q'.checkpoint; mutations = confirm_first k q.mutations })
    × (checkpoint_value q.checkpoint ≤ checkpoint_value q'.checkpoint)

Advances-trans :
    {V : Type 0} (q q' q'' : ProtocolQueue V) → Advances q q' → Advances q' q'' → Advances q q''
Advances-trans q q' q'' (j, e, l) (k, f, m) =
    (j + k, cc (confirm_first-add j k q.mutations), omega arith)

Move-Advances :
    {V : Type 0} (json : Json V) {q q' : ProtocolQueue V}
    → Move json q q'
    → IsValid json q
    → Advances q q'
unfolding confirm_first
Move-Advances json (forward q c n m h k l) v = (0, refl, ground arith)
Move-Advances json (confirmed q q' response request n h) v =
    let (_, _, _, after, _) = acknowledge_confirms json q response request v h in
    (n, cc, ground arith)

module _ {V W T A P : Type 0} (json : Json V) (host : Host V W T A P) where
  Steps-Advances :
      {q : ProtocolQueue V} {w : W} {q' : ProtocolQueue V} {w' : W}
      → Steps json host q w q' w'
      → IsValid json q
      → Advances q q'
  unfolding confirm_first
  Steps-Advances here v = (0, refl, omega arith)
  Steps-Advances {q} (next {q'} {q''} k s) v =
      Advances-trans q q' q'' (Steps-Advances k v) (Step-Advances s (Steps-IsValid json host k v))
    where
      Step-Advances :
          {x : ProtocolQueue V} {w : W} {y : ProtocolQueue V} {w' : W}
          → Step json host x w y w'
          → IsValid json x
          → Advances x y
      Step-Advances (stored q q' w w' m h) v = Move-Advances json m v
      Step-Advances (pulled q w) v = (0, refl, omega arith)
      Step-Advances (reset q w r) v = (0, refl, omega arith)
      Step-Advances (pushed q w request h) v = (0, refl, omega arith)
      Step-Advances (applied q w page h) v = (0, refl, omega arith)
      Step-Advances (replaced q w snapshot h) v = (0, refl, omega arith)
      Step-Advances (unsaved q q' w w' e m h) v = (0, refl, omega arith)

  -- However a cycle ends, with a result or an error, a well-formed queue stays well formed; the
  -- cycle has confirmed the first of its pending mutations, its checkpoint has not gone back, and
  -- nothing else of the queue has changed: no mutation is lost, added, reordered or altered.
  pub sync_cycle-Advances :
      (q : ProtocolQueue V) (w : W)
      → IsValid json q
      → IsValid json (sync_cycle json host q w).0 × Advances q (sync_cycle json host q w).0
  sync_cycle-Advances q w v =
      let run = sync_cycle-Steps json host q w v in
      (Steps-IsValid json host run v, Steps-Advances run v)

  -- What a host's storage promises: `durable` is the queue that a restart would load. A call of
  -- `persist` that succeeds replaces it, one that fails leaves it, and no other call touches it.
  pub record IsDurable (durable : W → ProtocolQueue V) : Type 0 where
    pub saves :
        (w w' : W) (q : ProtocolQueue V) → host.storage.persist w q ≡ (w', ok tt) → durable w' ≡ q
    pub fails :
        (w w' : W) (q : ProtocolQueue V) (e : P)
        → host.storage.persist w q ≡ (w', err e)
        → durable w' ≡ durable w
    pub pull_apart : (w : W) (c : Text) (n : ℕ) → durable (host.network.pull w c n).0 ≡ durable w
    pub push_apart : (w : W) (r : PushRequest V) → durable (host.network.push w r).0 ≡ durable w
    pub snapshot_apart :
        (w : W) (r : ResetRequired) → durable (host.network.snapshot w r).0 ≡ durable w
    pub apply_apart :
        (w : W) (cs : List (Change V)) → durable (host.callbacks.apply_changes w cs).0 ≡ durable w
    pub replace_apart :
        (w : W) (rs : List (SnapshotRecord V))
        → durable (host.callbacks.replace_authoritative w rs).0 ≡ durable w

  module _ (durable : W → ProtocolQueue V) (d : IsDurable durable) where
    Step-durable :
        {q : ProtocolQueue V} {w : W} {q' : ProtocolQueue V} {w' : W}
        → Step json host q w q' w'
        → durable w ≡ q
        → durable w' ≡ q'
    Step-durable (pulled q w) h = d.pull_apart w q.checkpoint host.options.pull_limit ∙ h
    Step-durable (reset q w r) h = d.snapshot_apart w r ∙ h
    Step-durable (pushed q w request e) h = d.push_apart w request ∙ h
    Step-durable (applied q w page e) h = d.apply_apart w page.changes ∙ h
    Step-durable (replaced q w snapshot e) h = d.replace_apart w snapshot.records ∙ h
    Step-durable (stored q q' w w' m e) h = d.saves w w' q' e
    Step-durable (unsaved q q' w w' x m e) h = d.fails w w' q' x e ∙ h

    Steps-durable :
        {q : ProtocolQueue V} {w : W} {q' : ProtocolQueue V} {w' : W}
        → Steps json host q w q' w'
        → durable w ≡ q
        → durable w' ≡ q'
    Steps-durable here h = h
    Steps-durable (next k s) h = Step-durable s (Steps-durable k h)

    -- When the storage holds a well-formed queue before a cycle, it holds the queue that the cycle
    -- leaves, however the cycle ends: a failed write is rolled back in memory, and no change stays
    -- unsaved. It is taken that a write that succeeds replaces the stored queue, that one that fails
    -- leaves it, and that no other call of the host touches it.
    pub sync_cycle-durable :
        (q : ProtocolQueue V) (w : W)
        → IsValid json q
        → durable w ≡ q
        → durable (sync_cycle json host q w).1 ≡ (sync_cycle json host q w).0
    sync_cycle-durable q w v h = Steps-durable (sync_cycle-Steps json host q w v) h
