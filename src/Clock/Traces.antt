-- ===== src/Clock/Traces.antt =====
-- Sequences of calls on a clock of clients/rust/src/clock.rs.
use Prim.Native.Nat.{Ordering}
use opto_sync_clients.Base.{
  ℕ, ◌≤◌, ◌≡◌, inl, inr, refl, ◌∙◌, some, List, [], ◌∷◌, Text, arith, Option-cases,
}
use opto_sync_clients.Clock.{
  HybridLogicalClock, HlcParts, ClockCall, issue, see, after_call, after_calls, next, advanced,
  observe, observe_parsed, keep, max_counter, parse_hlc, format_hlc, compare_hlc, peek,
}
use opto_sync_clients.Clock.Stamps.{format_inv, format-parse, format_order}
use opto_sync_clients.Clock.Steps.{Upto, advanced-Below, Below-order, Upto-Below}

-- The second clock is not behind the first, and its counter has four digits.
abbrev IsLater : HybridLogicalClock → HybridLogicalClock → Type 0
IsLater c d = Upto c.millis c.counter d.millis d.counter × (d.counter ≤ max_counter)

keep-same : (d : HybridLogicalClock) → (keep d).0 ≡ d
unfolding keep
keep-same d = elim (Option-cases (format_hlc (peek d))) [
  | inl e ↦ rw e refl
  | inr (t, e) ↦ rw e refl
]

parsed-IsLater :
    (c : HybridLogicalClock) (remote : Text) (now : ℕ) (p : HlcParts)
    → c.counter ≤ max_counter
    → p.counter ≤ max_counter
    → IsLater c (observe_parsed c remote now (some p)).0
unfolding observe_parsed
parsed-IsLater c remote now p h k = ground (
  arith,
  keep-same (record c { millis = p.millis; counter = p.counter }),
  keep-same (record c { counter = p.counter }),
)

call-IsLater :
    (c : HybridLogicalClock) (call : ClockCall)
    → c.counter ≤ max_counter
    → IsLater c (after_call c call)
unfolding after_call next observe
call-IsLater c (issue physical) h = ground (arith, advanced-Below c physical h)
call-IsLater c (see remote now) h = elim (Option-cases (parse_hlc remote)) [
  | inl e ↦ rw (e, after_call, observe, observe_parsed) (inr (refl, omega arith), h)
  | inr (p, e) ↦
      rw (e, after_call, observe)
        (parsed-IsLater c remote now p h (format_inv p (format-parse remote e)).0.counter_le)
]

calls-IsLater :
    (c : HybridLogicalClock) (calls : List ClockCall)
    → c.counter ≤ max_counter
    → IsLater c (after_calls c calls)
unfolding after_calls
calls-IsLater c [] h = (inr (refl, omega arith), h)
calls-IsLater c (call ∷ calls) h =
    let (up, small) = call-IsLater c call h in
    let (up', small') = calls-IsLater (after_call c call) calls small in (ground arith, small')

-- Stamps are issued in order: whatever a clock issues and observes in between, and however its
-- wall clock jumps, a stamp that it issues later is after one that it issued before.
pub issued_in_order :
    (c : HybridLogicalClock) (physical later : ℕ) (calls : List ClockCall) {s t : Text}
    → (next c physical).1 ≡ some s
    → (next (after_calls (next c physical).0 calls) later).1 ≡ some t
    → compare_hlc s t ≡ Ordering.lt
unfolding next
issued_in_order c physical later calls {s} {t} h k =
    let first = advanced c physical in
    let (stamp, whole) = format_inv (peek first) h in
    let between = after_calls first calls in
    let (up, small) = calls-IsLater first calls stamp.counter_le in
    let second = advanced between later in
    let (above, bounded) = advanced-Below between later small in
    format_order (peek first) (peek second) h k
    ∙ Below-order (peek first) (peek second) (
        Upto-Below first.millis first.counter between.millis between.counter second.millis
          second.counter up above)
