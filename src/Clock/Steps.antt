-- ===== src/Clock/Steps.antt =====
-- `next` and `observe` of clients/rust/src/clock.rs: the clock only moves forward.
use Prim.Native.Nat.{Ordering}
use opto_sync_clients.Base.{
  ◌&&◌, ltb, ◌==◌, ltb, ℕ, ◌+◌, ◌-◌, ◌≤◌, ◌<◌, ◌≡◌, ◌⊎◌, inl, inr, refl, ap, ◌∙◌, false, none, some,
  Text, ok, arith, Bool-cases,
}
use opto_sync_clients.Clock.{
  observe_parsed, keep, HlcParts, HybridLogicalClock, drift, format_hlc, parse_hlc, max_millis,
  max_counter, compare_hlc, peek, advanced, next, Observed, unchanged, adopted, refused, observe,
  with_max_drift,
}
use opto_sync_clients.Clock.Stamps.{
  stamp_text, IsStamp, compare_parts, format_inv, format-IsStamp, format_order, parse-format,
  format-parse,
}

-- A stamp (millis, counter) is not after another; the node is not compared.
abbrev pub Upto : ℕ → ℕ → ℕ → ℕ → Type 0
Upto millis counter millis' counter' =
    (millis < millis') ⊎ (millis ≡ millis') × (counter ≤ counter')

abbrev pub Below : ℕ → ℕ → ℕ → ℕ → Type 0
Below millis counter millis' counter' =
    (millis < millis') ⊎ (millis ≡ millis') × (counter < counter')

pub advanced-Below :
    (c : HybridLogicalClock) (physical : ℕ)
    → c.counter ≤ max_counter
    → Below c.millis c.counter (advanced c physical).millis (advanced c physical).counter
      × ((advanced c physical).counter ≤ max_counter)
unfolding advanced
advanced-Below c physical h = (ground arith, ground arith)

pub Below-order :
    (p q : HlcParts) → Below p.millis p.counter q.millis q.counter → compare_parts p q ≡ Ordering.lt
unfolding compare_parts
Below-order p q b = ground arith

pub Upto-Below :
    (m k : ℕ) (m' k' : ℕ) (m'' k'' : ℕ) → Upto m k m' k' → Below m' k' m'' k'' → Below m k m'' k''
Upto-Below m k m' k' m'' k'' h b = ground arith

advanced-IsStamp :
    (c : HybridLogicalClock) (physical : ℕ)
    → IsStamp (peek c)
    → c.millis < max_millis
    → physical ≤ max_millis
    → IsStamp (peek (advanced c physical))
unfolding advanced
advanced-IsStamp c physical s room wall = record {
  millis_le = ground (arith, s.millis_le);
  counter_le = ground (arith, s.counter_le);
  node_ok = ground (arith, s.node_ok);
}

-- While the clock is before the last millisecond of thirteen digits and the wall clock is not
-- after it, `next` does not panic: it issues a stamp that reads back as the clock it moves to, and
-- that is after every stamp, of any node, that is not after the clock before.
pub next_issues :
    (c : HybridLogicalClock) (physical : ℕ) (p : HlcParts) {seen : Text}
    → IsStamp (peek c)
    → c.millis < max_millis
    → physical ≤ max_millis
    → format_hlc p ≡ some seen
    → Upto p.millis p.counter c.millis c.counter
    → (t : Text) × (next c physical ≡ (advanced c physical, some t))
      × (parse_hlc t ≡ some (peek (advanced c physical)))
      × (compare_hlc seen t ≡ Ordering.lt)
unfolding next
next_issues c physical p {seen} s room wall written upto =
    let after = advanced-IsStamp c physical s room wall in
    let issued = format-IsStamp (peek (advanced c physical)) after in
    let (above, bounded) = advanced-Below c physical s.counter_le in
    (
      stamp_text (peek (advanced c physical)),
      ap (λ t. (advanced c physical, t)) issued,
      parse-format (peek (advanced c physical)) issued,
      format_order p (peek (advanced c physical)) written issued
          ∙ Below-order p (peek (advanced c physical)) (
              Upto-Below p.millis p.counter c.millis c.counter (advanced c physical).millis
                (advanced c physical).counter upto above),
    )

-- The result of an observation that is not refused: a clock at or after both the stamp and the
-- clock before, which is what it saved, if it moved.
pub record IsCaughtUp (c : HybridLogicalClock) (p : HlcParts) (r : HybridLogicalClock × Observed)
    : Type 0 where
  pub after_remote : Upto p.millis p.counter r.0.millis r.0.counter
  pub after_clock : Upto c.millis c.counter r.0.millis r.0.counter
  pub stamp : IsStamp (peek r.0)
  pub saved :
      (r ≡ (c, unchanged)) ⊎ ((t : Text) × (r.1 ≡ adopted t) × (parse_hlc t ≡ some (peek r.0)))

keep-IsCaughtUp :
    (c moved : HybridLogicalClock) (p : HlcParts)
    → Upto p.millis p.counter moved.millis moved.counter
    → Upto c.millis c.counter moved.millis moved.counter
    → IsStamp (peek moved)
    → IsCaughtUp c p (keep moved)
unfolding keep
keep-IsCaughtUp c moved p h k s =
    let written = format-IsStamp (peek moved) s in
    rw written (record {
      after_remote = h;
      after_clock = k;
      stamp = s;
      saved = inr (stamp_text (peek moved), refl, parse-format (peek moved) written);
    })

observe_near :
    (c : HybridLogicalClock) (remote : Text) (now : ℕ) (p : HlcParts)
    → IsStamp (peek c)
    → IsStamp p
    → (ltb now p.millis && ltb c.max_drift_ms (p.millis - now)) ≡ false
    → IsCaughtUp c p (observe_parsed c remote now (some p))
unfolding observe_parsed
observe_near c remote now p s w near = elim (Bool-cases (ltb c.millis p.millis)) [
  | inl ahead ↦ rw near (
      rw ahead (
        keep-IsCaughtUp c (record c { millis = p.millis; counter = p.counter }) p (ground arith)
          (ground arith)
          (record { millis_le = w.millis_le; counter_le = w.counter_le; node_ok = s.node_ok })))
  | inr level ↦ elim (Bool-cases (p.millis == c.millis && ltb c.counter p.counter)) [
    | inl later ↦ rw near (
        rw level (
          rw later (
            keep-IsCaughtUp c (record c { counter = p.counter }) p (ground arith) (ground arith)
              (record {
                millis_le = s.millis_le;
                counter_le = w.counter_le;
                node_ok = s.node_ok;
              }))))
    | inr behind ↦ rw near (
        rw level (
          rw behind (record {
            after_remote = ground arith;
            after_clock = ground arith;
            stamp = s;
            saved = inl refl;
          })))
  ]
]

-- A stamp further ahead of the wall clock than the bound is refused with its drift, and the clock
-- stays; any other leaves the clock at or after both the stamp and where it was, saves the clock if
-- it moved, and never panics.
pub observe_cases :
    (c : HybridLogicalClock) (remote : Text) (now : ℕ) (p : HlcParts)
    → IsStamp (peek c)
    → parse_hlc remote ≡ some p
    → ((now + c.max_drift_ms < p.millis)
        × (observe c remote now ≡ (c, refused (drift remote (p.millis - now) c.max_drift_ms))))
      ⊎ ((p.millis ≤ now + c.max_drift_ms) × IsCaughtUp c p (observe c remote now))
unfolding observe
observe_cases c remote now p s read =
    rw read (elim (Bool-cases (ltb now p.millis && ltb c.max_drift_ms (p.millis - now))) [
      | inl far ↦ inl (ground arith, rw (far, observe_parsed) refl)
      | inr near ↦ inr (
        ground arith,
        observe_near c remote now p s (format_inv p (format-parse remote read)).0 near,
      )
    ])

-- A text that is no stamp is ignored.
pub observe_foreign :
    (c : HybridLogicalClock) (remote : Text) (now : ℕ)
    → parse_hlc remote ≡ none
    → observe c remote now ≡ (c, unchanged)
unfolding observe observe_parsed
observe_foreign c remote now h = rw h refl

-- A clock that is made over a saved stamp starts at that stamp's milliseconds and counter, under
-- its own node id, and its own stamp can be written.
pub with_max_drift_restores :
    (node_id : Text) (p : HlcParts) (drift_ms : ℕ) {saved : Text} {c : HybridLogicalClock}
    → format_hlc p ≡ some saved
    → with_max_drift node_id (some saved) drift_ms ≡ ok c
    → IsStamp (peek c) × (c.millis ≡ p.millis) × (c.counter ≡ p.counter) × (c.node_id ≡ node_id)
unfolding with_max_drift
with_max_drift_restores node_id p drift_ms {saved} {c} written made =
    let read = parse-format p written in
    let (s, e) = format_inv p written in
    let same : c ≡ record {
      node_id = node_id;
      millis = p.millis;
      counter = p.counter;
      max_drift_ms = drift_ms;
    } =
      ground arith in
    (
      record {
        millis_le = ground (arith, s.millis_le);
        counter_le = ground (arith, s.counter_le);
        node_ok = ground arith;
      },
      ground arith,
      ground arith,
      ground arith,
    )
