-- ===== src/Clock.antt =====
-- clients/rust/src/clock.rs: the hybrid logical clock. The wall clock is read once a call and is an
-- argument; what a call saves is part of its result, and a failed assertion is a panic. The
-- additions of `next` do not wrap: they stay far below `u64` unless an assertion has failed before.
pub mod Digits
pub mod Stamps
pub mod Steps
pub mod Traces
mod Tests
use Prim.Native.Nat.{compare, Ordering}
use opto_sync_clients.Base.{
  ℕ, zero, suc, ◌+◌, ◌-◌, ◌*◌, ◌/◌, ◌%◌, Bool, true, false, ◌&&◌, ◌||◌, not, Option, none, some,
  List, [], ◌∷◌, ◌++◌, ltb, leb, ◌==◌, if◌then◌else◌, Result, ok, err, Text, length, all, any,
  is_empty, is_ascii_digit, text_compare,
}

abbrev pub max_millis : ℕ
max_millis = 9999999999999

abbrev pub max_counter : ℕ
max_counter = 65535

pub record HlcParts : Type 0 where
  pub millis : ℕ
  pub counter : ℕ
  pub node_id : Text

pub data ClockError : Type 0 where
  invalid_node_id : Text → ClockError
  drift : Text → ℕ → ℕ → ClockError

-- A digit, in lower case.
abbrev pub digit : ℕ → ℕ
digit d = if ltb d 10 then b'0' + d else d + 87

-- The last `width` digits of a number: `{:0>13}` and `{:04x}` of a number that fits.
unfoldable pub fixed : ℕ → ℕ → ℕ → Text
fixed base zero n = []
fixed base (suc width) n = fixed base width (n / base) ++ digit (n % base) ∷ []

abbrev pub bad_node_id : Text → Bool
bad_node_id id = is_empty id || any (λ b. b == b'-') id

-- `none` for a failed assertion.
unfoldable pub format_hlc : HlcParts → Option Text
format_hlc p =
    if ltb max_millis p.millis || ltb max_counter p.counter || bad_node_id p.node_id
    then none
    else some (fixed 10 13 p.millis ++ b'-' ∷ (fixed 16 4 p.counter ++ b'-' ∷ p.node_id))

-- A text up to its first `-`, and what follows.
unfoldable pub split_dash : Text → Option (Text × Text)
split_dash [] = none
split_dash (b ∷ bs) =
    let rest = split_dash bs in
    if b == b'-' then some ([], bs) else elim rest [ none ↦ none | some r ↦ some (b ∷ r.0, r.1) ]

abbrev pub is_hex_digit : ℕ → Bool
is_hex_digit b = is_ascii_digit b || leb b'a' b && leb b b'f'

-- `parse` and `from_str_radix` on texts of digits.
abbrev pub digit_value : ℕ → ℕ
digit_value b = if ltb b b'a' then b - b'0' else b - 87

unfoldable pub value : ℕ → ℕ → Text → ℕ
value base acc [] = acc
value base acc (b ∷ bs) = value base (acc * base + digit_value b) bs

unfoldable pub parse_fields : Text → Text → Text → Option HlcParts
parse_fields millis counter node_id =
    if not (length millis == 13) || not (all is_ascii_digit millis)
    then none
    else if not (length counter == 4) || not (all is_hex_digit counter)
    then none
    else if bad_node_id node_id
    then none
    else some
        (record { millis = value 10 0 millis; counter = value 16 0 counter; node_id = node_id })

parse_rest : Text → Option (Text × Text) → Option HlcParts
unfolding parse_fields
parse_rest millis none = none
parse_rest millis (some (counter, node_id)) = parse_fields millis counter node_id

parse_split : Option (Text × Text) → Option HlcParts
unfolding parse_rest
parse_split none = none
parse_split (some (millis, rest)) = parse_rest millis (split_dash rest)

-- `splitn(3, '-')`: the third part is all that follows the second dash.
unfoldable pub parse_hlc : Text → Option HlcParts
unfolding parse_split
parse_hlc timestamp = parse_split (split_dash timestamp)

abbrev pub compare_hlc : Text → Text → Ordering
compare_hlc a b = text_compare a b

pub record HybridLogicalClock : Type 0 where
  pub node_id : Text
  pub millis : ℕ
  pub counter : ℕ
  pub max_drift_ms : ℕ

abbrev pub default_max_drift_ms : ℕ
default_max_drift_ms = 60000

-- `and_then(parse_hlc)` on what the persistence loads.
restored : Option Text → Option HlcParts
restored none = none
restored (some timestamp) = parse_hlc timestamp

started : Text → ℕ → Option HlcParts → HybridLogicalClock
started node_id max_drift_ms none = record {
  node_id = node_id;
  millis = 0;
  counter = 0;
  max_drift_ms = max_drift_ms;
}
started node_id max_drift_ms (some p) = record {
  node_id = node_id;
  millis = p.millis;
  counter = p.counter;
  max_drift_ms = max_drift_ms;
}

unfoldable pub with_max_drift : Text → Option Text → ℕ → Result HybridLogicalClock ClockError
unfolding restored started
with_max_drift node_id loaded max_drift_ms =
    if bad_node_id node_id
    then err (invalid_node_id node_id)
    else ok (started node_id max_drift_ms (restored loaded))

abbrev pub peek : HybridLogicalClock → HlcParts
peek c = record { millis = c.millis; counter = c.counter; node_id = c.node_id }

-- The clock that `next` moves to before it formats.
unfoldable pub advanced : HybridLogicalClock → ℕ → HybridLogicalClock
advanced c physical =
    if ltb c.millis physical
    then record c { millis = physical; counter = 0 }
    else if ltb max_counter (c.counter + 1)
    then record c { millis = c.millis + 1; counter = 0 }
    else record c { counter = c.counter + 1 }

-- The text is issued and saved; `none` is the panic of `format_hlc`.
unfoldable pub next : HybridLogicalClock → ℕ → HybridLogicalClock × Option Text
next c physical = (advanced c physical, format_hlc (peek (advanced c physical)))

-- How `observe` ends: what it saved, if anything, a refusal, or a panic.
pub data Observed : Type 0 where
  unchanged adopted_panic : Observed
  adopted : Text → Observed
  refused : ClockError → Observed

adopt : HybridLogicalClock → Option Text → HybridLogicalClock × Observed
adopt c none = (c, adopted_panic)
adopt c (some timestamp) = (c, adopted timestamp)

unfoldable pub keep : HybridLogicalClock → HybridLogicalClock × Observed
unfolding adopt
keep moved = adopt moved (format_hlc (peek moved))

unfoldable pub observe_parsed :
    HybridLogicalClock → Text → ℕ → Option HlcParts → HybridLogicalClock × Observed
unfolding keep
observe_parsed c remote now none = (c, unchanged)
observe_parsed c remote now (some parsed) =
    if ltb now parsed.millis && ltb c.max_drift_ms (parsed.millis - now)
    then (c, refused (drift remote (parsed.millis - now) c.max_drift_ms))
    else if ltb c.millis parsed.millis
    then keep (record c { millis = parsed.millis; counter = parsed.counter })
    else if parsed.millis == c.millis && ltb c.counter parsed.counter
    then keep (record c { counter = parsed.counter })
    else (c, unchanged)

unfoldable pub observe : HybridLogicalClock → Text → ℕ → HybridLogicalClock × Observed
unfolding observe_parsed
observe c remote now = observe_parsed c remote now (parse_hlc remote)

-- The calls that the hosts of a clock make.
pub data ClockCall : Type 0 where
  issue : ℕ → ClockCall
  see : Text → ℕ → ClockCall

unfoldable pub after_call : HybridLogicalClock → ClockCall → HybridLogicalClock
after_call c (issue physical) = (next c physical).0
after_call c (see remote now) = (observe c remote now).0

unfoldable pub after_calls : HybridLogicalClock → List ClockCall → HybridLogicalClock
after_calls c [] = c
after_calls c (call ∷ calls) = after_calls (after_call c call) calls
