-- ===== src/Sync/Reaches.antt =====
-- How the calls of clients/rust/src/protocol_sync.rs compose: what the parts reach by steps, the whole
-- reaches.
use opto_sync_clients.Base.{◌≡◌, refl, Result, ok, err}
use opto_sync_clients.Protocol.Types.{Json, ProtocolQueue}
use opto_sync_clients.Protocol.Wellformed.{IsValid}
use opto_sync_clients.Sync.Types.{Host, persistence, ProtocolSyncError}
use opto_sync_clients.Sync.Outcome.{Outcome, and_then, called, queued, or_restore}
use opto_sync_clients.Sync.Steps.{
  Move, Step, pulled, reset, pushed, applied, replaced, stored, unsaved, Steps, here, next,
  Steps-trans,
}
use opto_sync_clients.Sync.Driver.{persist_or_restore}
use opto_sync_clients.Sync.Moves.{Move-IsValid}

module _ {V W T A P : Type 0} (json : Json V) (host : Host V W T A P) where
  abbrev One : ProtocolQueue V → W → ProtocolQueue V → W → Type 0
  One = Step json host

  abbrev Many : ProtocolQueue V → W → ProtocolQueue V → W → Type 0
  Many = Steps json host

  Step-IsValid :
      {q q' : ProtocolQueue V} {w w' : W} → One q w q' w' → IsValid json q → IsValid json q'
  Step-IsValid (pulled q w) v = v
  Step-IsValid (reset q w r) v = v
  Step-IsValid (pushed q w request h) v = v
  Step-IsValid (applied q w page h) v = v
  Step-IsValid (replaced q w snapshot h) v = v
  Step-IsValid (stored q q' w w' m h) v = Move-IsValid json m v
  Step-IsValid (unsaved q q' w w' e m h) v = v

  pub Steps-IsValid :
      {q : ProtocolQueue V} {w : W} {q' : ProtocolQueue V} {w' : W}
      → Many q w q' w'
      → IsValid json q
      → IsValid json q'
  Steps-IsValid here v = v
  Steps-IsValid (next k s) v = Step-IsValid s (Steps-IsValid k v)

  unfoldable pub Reaches :
      ProtocolQueue V → W → {B : Type 0} → Outcome V W (ProtocolSyncError T A P) B → Type 0
  Reaches q w o = Many q w o.0 o.1

  abbrev Err : Type 0
  Err = ProtocolSyncError T A P

  pub and_then-Steps :
      {B C : Type 0} (q : ProtocolQueue V) (w : W) (o : Outcome V W Err B)
      (rest : ProtocolQueue V → W → B → Outcome V W Err C)
      → IsValid json q
      → Reaches q w o
      → ((q' : ProtocolQueue V) (w' : W) (b : B)
          → o ≡ (q', w', ok b)
          → IsValid json q'
          → Reaches q' w' (rest q' w' b))
      → Reaches q w (and_then o rest)
  unfolding Reaches
  and_then-Steps q w (q', w', ok b) rest v h k = Steps-trans h (k q' w' b refl (Steps-IsValid h v))
  and_then-Steps q w (q', w', err e) rest v h k = h

  pub stays-Steps :
      {C : Type 0} (q : ProtocolQueue V) (w : W) (r : Result C Err) → Reaches q w (q, w, r)
  unfolding Reaches
  stays-Steps q w r = here

  -- A call that leaves the queue, and then the rest.
  pub called-Steps :
      {B C F : Type 0} (wrap : F → Err) (q : ProtocolQueue V) (w : W) (r : W × Result B F)
      (rest : ProtocolQueue V → W → B → Outcome V W Err C)
      → Many q w q r.0
      → ((w' : W) (b : B) → r ≡ (w', ok b) → Reaches q w' (rest q w' b))
      → Reaches q w (and_then (called wrap q r) rest)
  unfolding Reaches
  called-Steps wrap q w (w', ok b) rest h k = Steps-trans h (k w' b refl)
  called-Steps wrap q w (w', err e) rest h k = h

  pub stored-Steps :
      {C : Type 0} (q q' : ProtocolQueue V) (w : W) (r : W × Result (Unit {0}) P)
      (rest : ProtocolQueue V → W → Unit {0} → Outcome V W Err C)
      → Move json q q'
      → host.storage.persist w q' ≡ r
      → ((w' : W) → Reaches q' w' (rest q' w' tt))
      → Reaches q w (and_then (or_restore persistence q (r.0, q', r.1)) rest)
  unfolding Reaches
  stored-Steps q q' w (w', ok u) rest m e k = Steps-trans (next here (stored q q' w w' m e)) (k w')
  stored-Steps q q' w (w', err x) rest m e k = next here (unsaved q q' w w' x m e)

  pub persisted-Steps :
      {C : Type 0} (q q' : ProtocolQueue V) (w : W)
      (rest : ProtocolQueue V → W → Unit {0} → Outcome V W Err C)
      → Move json q q'
      → ((w' : W) → Reaches q' w' (rest q' w' tt))
      → Reaches q w (and_then (persist_or_restore json host q q' w) rest)
  unfolding persist_or_restore
  persisted-Steps q q' w rest m k = stored-Steps q q' w (host.storage.persist w q') rest m refl k

  -- A call of the queue, and then the storage.
  pub moved-Steps :
      {B C F : Type 0} (wrap : F → Err) (q : ProtocolQueue V) (w : W)
      (r : ProtocolQueue V × Result B F)
      (rest : ProtocolQueue V → W → B → ProtocolQueue V → W → Unit {0} → Outcome V W Err C)
      → ((q' : ProtocolQueue V) (e : F) → r ≡ (q', err e) → q' ≡ q)
      → ((q' : ProtocolQueue V) (b : B) → r ≡ (q', ok b) → Move json q q')
      → ((q' : ProtocolQueue V) (w' : W) (b : B)
          → r ≡ (q', ok b)
          → Reaches q' w' (rest q' w b q' w' tt))
      → Reaches q w (
          and_then
            (queued wrap w r)
            (λ q' w b. and_then (persist_or_restore json host q q' w) (rest q' w b)))
  unfolding Reaches
  moved-Steps wrap q w (q', ok b) rest kept move k =
      persisted-Steps q q' w (rest q' w b) (move q' b refl) (λ w'. k q' w' b refl)
  moved-Steps wrap q w (q', err e) rest kept move k = rw (kept q' e refl) here
