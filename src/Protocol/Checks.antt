-- ===== src/Protocol/Checks.antt =====
-- The checks on single values in clients/rust/src/protocol.rs, and `u64::to_string`.
use opto_sync_clients.Base.{
  ℕ, zero, suc, ◌+◌, ◌-◌, ◌*◌, ◌/◌, ◌%◌, Bool, false, ◌&&◌, ◌||◌, not, [], ◌∷◌, ◌++◌, ltb, leb,
  ◌==◌, if◌then◌else◌, Result, ok, err, Text, length, all, is_empty, is_ascii_digit,
  is_ascii_alphanumeric, chars_count, u64_mod,
}
use opto_sync_clients.Protocol.Types.{ProtocolError, invalid_decimal}

abbrev pub max_i64 : ℕ
max_i64 = 9223372036854775807

abbrev pub default_max_pending_mutations : ℕ
default_max_pending_mutations = 10000

abbrev pub default_max_queued_payload_bytes : ℕ
default_max_queued_payload_bytes = 255 * 1024

unfoldable pub valid_push_limit : ℕ → Bool
valid_push_limit limit = leb 1 limit && leb limit 100

unfoldable pub can_allocate_mutation_id : ℕ → Bool
can_allocate_mutation_id next_mutation_id = leb 1 next_mutation_id && leb next_mutation_id max_i64

unfoldable pub watermark_is_valid : ℕ → ℕ → Bool
watermark_is_valid watermark next_mutation_id = ltb watermark next_mutation_id

unfoldable pub valid_scope_id : Text → Bool
valid_scope_id [] = false
valid_scope_id (first ∷ bytes) =
    leb (length (first ∷ bytes)) 128
    && is_ascii_alphanumeric first
    && all (λ b. is_ascii_alphanumeric b || b == b'.' || b == b'_' || b == b':' || b == b'-') bytes

unfoldable pub valid_record_id : Text → Bool
valid_record_id value = not (is_empty value) && leb (chars_count value) 512

abbrev pub starts_with_zero : Text → Bool
starts_with_zero [] = false
starts_with_zero (b ∷ _) = b == b'0'

-- `str::parse::<u64>` on a text of ASCII digits: its value, refused where it does not fit.
abbrev pub digits_value : ℕ → Text → ℕ
digits_value acc [] = acc
digits_value acc (d ∷ ds) = digits_value (acc * 10 + (d - b'0')) ds

parse_u64 : Text → Result ℕ ProtocolError
parse_u64 value =
    if ltb (digits_value 0 value) u64_mod then ok (digits_value 0 value) else err invalid_decimal

unfoldable pub parse_decimal : Text → Result ℕ ProtocolError
unfolding parse_u64
parse_decimal value =
    if is_empty value
      || (ltb 1 (length value) && starts_with_zero value)
      || not (all is_ascii_digit value)
    then err invalid_decimal
    else parse_u64 value

-- `u64::to_string`; a number has at most as many digits as its value plus one.
unfoldable pub digits_of : ℕ → ℕ → Text
digits_of zero n = []
digits_of (suc fuel) n =
    let rest = digits_of fuel (n / 10) ++ (b'0' + n % 10) ∷ [] in
    if ltb n 10 then (b'0' + n) ∷ [] else rest

unfoldable pub to_string : ℕ → Text
unfolding digits_of
to_string n = digits_of (suc n) n
