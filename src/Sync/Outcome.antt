-- ===== src/Sync/Outcome.antt =====
-- How the methods of clients/rust/src/protocol_sync.rs end: the queue, what is outside, and a result
-- or an error that `?` has passed on.
use opto_sync_clients.Base.{Result, ok, err}
use opto_sync_clients.Protocol.Types.{ProtocolQueue}

abbrev pub Outcome : Type 0 → Type 0 → Type 0 → Type 0 → Type 0
Outcome V W E A = ProtocolQueue V × W × Result A E

module _ {V W E : Type 0} where
  -- `f(..)?; ..`: the rest runs after a success only.
  abbrev pub and_then :
      {A B : Type 0}
      → Outcome V W E A
      → (ProtocolQueue V → W → A → Outcome V W E B)
      → Outcome V W E B
  and_then (q, w, ok a) rest = rest q w a
  and_then (q, w, err e) rest = (q, w, err e)

  -- A call of the transport or a check, whose error `map_err` wraps; the queue stays.
  abbrev pub called : {A F : Type 0} → (F → E) → ProtocolQueue V → W × Result A F → Outcome V W E A
  called wrap q (w, ok a) = (q, w, ok a)
  called wrap q (w, err e) = (q, w, err (wrap e))

  -- A call of the queue.
  abbrev pub queued : {A F : Type 0} → (F → E) → W → ProtocolQueue V × Result A F → Outcome V W E A
  queued wrap w (q, ok a) = (q, w, ok a)
  queued wrap w (q, err e) = (q, w, err (wrap e))

  -- `if let Err(error) = .. { *queue = prior; return Err(..) }`.
  abbrev pub or_restore :
      {F : Type 0}
      → (F → E)
      → ProtocolQueue V
      → W × ProtocolQueue V × Result (Unit {0}) F
      → Outcome V W E (Unit {0})
  or_restore wrap prior (w, q, ok u) = (q, w, ok u)
  or_restore wrap prior (w, q, err e) = (prior, w, err (wrap e))
