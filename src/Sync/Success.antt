-- ===== src/Sync/Success.antt =====
-- What holds whenever an outcome of Sync/Outcome.antt is a success, part by part.
use opto_sync_clients.Base.{◌≡◌, refl, Result, ok, err}
use opto_sync_clients.Protocol.Types.{Json, ProtocolQueue}
use opto_sync_clients.Sync.Types.{Host, ProtocolSyncError}
use opto_sync_clients.Sync.Outcome.{Outcome, and_then, called, queued, or_restore}
use opto_sync_clients.Sync.Driver.{persist_or_restore}

module _ {V W E : Type 0} where
  -- `Q` holds of what `o` returns, when it returns a result.
  unfoldable pub OnOk : {B : Type 0} → (ProtocolQueue V → W → B → Type 0) → Outcome V W E B → Type 0
  OnOk Q (q, w, ok b) = Q q w b
  OnOk Q (q, w, err e) = Unit

  pub OnOk-ok :
      {B : Type 0} (Q : ProtocolQueue V → W → B → Type 0) (o : Outcome V W E B)
      {q : ProtocolQueue V} {w : W} {b : B}
      → OnOk Q o
      → o ≡ (q, w, ok b)
      → Q q w b
  unfolding OnOk
  OnOk-ok Q o {q} {w} {b} h e = let h' : OnOk Q (q, w, ok b) = rw e at h in h'

  pub err-OnOk :
      {B : Type 0} (Q : ProtocolQueue V → W → B → Type 0) (q : ProtocolQueue V) (w : W) (e : E)
      → OnOk Q (q, w, err e)
  unfolding OnOk
  err-OnOk Q q w e = tt

  pub OnOk-mono :
      {B : Type 0} (Q R : ProtocolQueue V → W → B → Type 0) (o : Outcome V W E B)
      → ((q : ProtocolQueue V) (w : W) (b : B) → Q q w b → R q w b)
      → OnOk Q o
      → OnOk R o
  unfolding OnOk
  OnOk-mono Q R (q, w, ok b) k h = k q w b h
  OnOk-mono Q R (q, w, err e) k h = tt

  pub and_then-OnOk :
      {B C : Type 0} (Q : ProtocolQueue V → W → C → Type 0) (R : ProtocolQueue V → W → B → Type 0)
      (o : Outcome V W E B) (rest : ProtocolQueue V → W → B → Outcome V W E C)
      → OnOk R o
      → ((q : ProtocolQueue V) (w : W) (b : B) → o ≡ (q, w, ok b) → R q w b → OnOk Q (rest q w b))
      → OnOk Q (and_then o rest)
  unfolding OnOk
  and_then-OnOk Q R (q, w, ok b) rest h k = k q w b refl h
  and_then-OnOk Q R (q, w, err e) rest h k = tt

  pub called-OnOk :
      {B C F : Type 0} (Q : ProtocolQueue V → W → C → Type 0) (wrap : F → E) (q : ProtocolQueue V)
      (r : W × Result B F) (rest : ProtocolQueue V → W → B → Outcome V W E C)
      → ((w : W) (b : B) → r ≡ (w, ok b) → OnOk Q (rest q w b))
      → OnOk Q (and_then (called wrap q r) rest)
  unfolding OnOk
  called-OnOk Q wrap q (w, ok b) rest k = k w b refl
  called-OnOk Q wrap q (w, err e) rest k = tt

  pub queued-OnOk :
      {B C F : Type 0} (Q : ProtocolQueue V → W → C → Type 0) (wrap : F → E) (w : W)
      (r : ProtocolQueue V × Result B F) (rest : ProtocolQueue V → W → B → Outcome V W E C)
      → ((q : ProtocolQueue V) (b : B) → r ≡ (q, ok b) → OnOk Q (rest q w b))
      → OnOk Q (and_then (queued wrap w r) rest)
  unfolding OnOk
  queued-OnOk Q wrap w (q, ok b) rest k = k q b refl
  queued-OnOk Q wrap w (q, err e) rest k = tt

  restored-OnOk :
      {C F : Type 0} (Q : ProtocolQueue V → W → C → Type 0) (wrap : F → E) (prior : ProtocolQueue V)
      (r : W × ProtocolQueue V × Result (Unit {0}) F)
      (rest : ProtocolQueue V → W → Unit {0} → Outcome V W E C)
      → ((w : W) → OnOk Q (rest r.1 w tt))
      → OnOk Q (and_then (or_restore wrap prior r) rest)
  unfolding OnOk
  restored-OnOk Q wrap prior (w, q, ok u) rest k = k w
  restored-OnOk Q wrap prior (w, q, err e) rest k = tt

pub ok-OnOk :
    {V W B : Type 0} (E : Type 0) (Q : ProtocolQueue V → W → B → Type 0) (q : ProtocolQueue V)
    (w : W) (b : B)
    → Q q w b
    → OnOk {E = E} Q (q, w, ok b)
unfolding OnOk
ok-OnOk E Q q w b h = h

pub persisted-OnOk :
    {V W T A P C : Type 0} (json : Json V) (host : Host V W T A P)
    (Q : ProtocolQueue V → W → C → Type 0) (prior q : ProtocolQueue V) (w : W)
    (rest : ProtocolQueue V → W → Unit {0} → Outcome V W (ProtocolSyncError T A P) C)
    → ((w' : W) → OnOk Q (rest q w' tt))
    → OnOk Q (and_then (persist_or_restore json host prior q w) rest)
unfolding persist_or_restore
persisted-OnOk json host Q prior q w rest k =
    restored-OnOk Q ProtocolSyncError.persistence prior
      ((host.storage.persist w q).0, q, (host.storage.persist w q).1) rest k
