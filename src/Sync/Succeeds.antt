-- ===== src/Sync/Succeeds.antt =====
-- Calls of clients/rust/src/protocol_sync.rs that succeed, and what then holds of the queue and of
-- the state outside: `R`.
use opto_sync_clients.Base.{◌≡◌, refl, Result, is_ok, true, ok, err}
use opto_sync_clients.Protocol.Types.{ProtocolQueue}
use opto_sync_clients.Sync.Outcome.{Outcome, and_then, called, queued}

module _ {V W E : Type 0} (R : ProtocolQueue V → W → Type 0) where
  unfoldable pub Succeeds : {B : Type 0} → Outcome V W E B → Type 0
  Succeeds (q, w, ok b) = R q w
  Succeeds (q, w, err e) = ⊥

  pub result-Succeeds :
      {B : Type 0} (q : ProtocolQueue V) (w : W) (r : Result B E)
      → is_ok r ≡ true
      → R q w
      → Succeeds (q, w, r)
  unfolding Succeeds
  result-Succeeds q w (ok b) e h = h
  result-Succeeds q w (err x) e h = cc

  pub Succeeds-ok :
      {B : Type 0} (o : Outcome V W E B)
      → Succeeds o
      → (q : ProtocolQueue V) × (w : W) × (b : B) × (o ≡ (q, w, ok b)) × R q w
  unfolding Succeeds
  Succeeds-ok (q, w, ok b) h = (q, w, b, refl, h)
  Succeeds-ok (q, w, err e) h = absurd h

  pub and_then-Succeeds :
      {B C : Type 0} (o : Outcome V W E B) (rest : ProtocolQueue V → W → B → Outcome V W E C)
      → Succeeds o
      → ((q : ProtocolQueue V) (w : W) (b : B) → o ≡ (q, w, ok b) → R q w → Succeeds (rest q w b))
      → Succeeds (and_then o rest)
  unfolding Succeeds
  and_then-Succeeds (q, w, ok b) rest h k = k q w b refl h
  and_then-Succeeds (q, w, err e) rest h k = absurd h

  pub called-Succeeds :
      {B C F : Type 0} (wrap : F → E) (q : ProtocolQueue V) (r : W × Result B F)
      (rest : ProtocolQueue V → W → B → Outcome V W E C) (w : W) (b : B)
      → r ≡ (w, ok b)
      → Succeeds (rest q w b)
      → Succeeds (and_then (called wrap q r) rest)
  unfolding Succeeds
  called-Succeeds wrap q r rest w b e h = rw e h

  pub queued-Succeeds :
      {B C F : Type 0} (wrap : F → E) (w : W) (r : ProtocolQueue V × Result B F)
      (rest : ProtocolQueue V → W → B → Outcome V W E C) (q : ProtocolQueue V) (b : B)
      → r ≡ (q, ok b)
      → Succeeds (rest q w b)
      → Succeeds (and_then (queued wrap w r) rest)
  unfolding Succeeds
  queued-Succeeds wrap w r rest q b e h = rw e h
