-- ===== src/Clock/Tests.antt =====
-- A clock of clients/rust/src/clock.rs at noon of some day, and its theorems there.
use Prim.Native.Nat.{Ordering}
use opto_sync_clients.Base.{◌≡◌, refl, some, [], ◌∷◌, Text, text, arith, ok}
use opto_sync_clients.Clock.{
  after_call, value, split_dash, fixed, HlcParts, HybridLogicalClock, format_hlc, parse_hlc,
  compare_hlc, next, observe, advanced, peek, with_max_drift, see, after_calls,
}
use opto_sync_clients.Clock.Stamps.{format_order, compare_parts, IsStamp, parse-format}
use opto_sync_clients.Clock.Traces.{issued_in_order}

abbrev noon : HlcParts
noon = record { millis = 1721822400000; counter = 255; node_id = text "aa" }

abbrev noon_text : Text
noon_text = text "1721822400000-00ff-aa"

noon_written : format_hlc noon ≡ some noon_text
unfolding format_hlc fixed
noon_written = refl

abbrev clock : HybridLogicalClock
clock = record { node_id = text "bb"; millis = 1721822400000; counter = 255; max_drift_ms = 60000 }

clock_made : with_max_drift (text "bb") (some noon_text) 60000 ≡ ok clock
unfolding with_max_drift parse_hlc split_dash value
clock_made = refl

clock-IsStamp : IsStamp (peek clock)
clock-IsStamp = record { millis_le = omega arith; counter_le = omega arith; node_ok = refl }

parse-format_example : parse_hlc noon_text ≡ some noon
parse-format_example = parse-format noon {t = noon_text} noon_written

format_order_example : compare_hlc noon_text noon_text ≡ compare_parts noon noon
format_order_example =
    format_order noon noon {s = noon_text} {t = noon_text} noon_written noon_written

abbrev issued_first : Text
issued_first = text "1721822400000-0100-bb"

abbrev issued_second : Text
issued_second = text "1721822400000-0101-bb"

issued_in_order_example : compare_hlc issued_first issued_second ≡ Ordering.lt
unfolding next format_hlc advanced fixed after_calls after_call observe parse_hlc split_dash value
issued_in_order_example =
    issued_in_order clock 5 4 (see noon_text 7 ∷ []) {s = issued_first} {t = issued_second} refl
      refl
