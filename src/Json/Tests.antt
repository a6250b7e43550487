-- ===== src/Json/Tests.antt =====
-- The builder and the encoders at concrete inputs.
use iojournal.Prelude.{
  Bytes, [], arith, codes, false, if◌then◌else◌, leb, length, ltb, refl, some, true, ℕ, ◌++◌, ◌+◌,
  ◌<◌, ◌∷◌, ◌≡◌,
}
use iojournal.Types.{
  EventCopy, OwnedString, OwnedValue, done, encode_error, fail, level_info, null_string,
}
use iojournal.Simd.{Cpu}
use iojournal.Timestamp.Tests.{instant, instant_run, one_instant}
use iojournal.Escape.{is_special}
use iojournal.Escape.Scan.{has_special}
use iojournal.Json.{
  Builder, append_int64_decimal, append_json_string_known_escape, append_uint64_decimal, push,
}
use iojournal.Json.Put.{IsValid, put}
use iojournal.Json.Decimal.{Puts-append_int64_decimal, Puts-append_uint64_decimal, signed_decimal}
use iojournal.Decimal.{decimal}
use iojournal.Json.Escaped.{Puts-append_json_string, escape_byte, escaped, json_string}
use iojournal.Json.Escaped.Read.{read_string}
use iojournal.Json.Escaped.RoundTrip.{IsPrintable, append_json_string-read_string}
use iojournal.Json.Encode.{json_console_encode, ndjson_encode}
use iojournal.Json.Encode.Text.{IsEncodable, json_text}
use iojournal.Json.Encode.Refine.{json_console_encode_lem}
use iojournal.Json.Encode.Line.{ndjson_encode_lem}

abbrev neon : Cpu
neon = record { has_x86_avx2 = false; has_arm_neon = true }

-- 64 bytes, two of them written
abbrev started : Builder
started = record { capacity = 64; text = codes "{x" }

started-IsValid : IsValid started
started-IsValid = record { room = omega arith; small = omega arith }

abbrev quoted : Bytes
quoted = codes "say \"hi\"\n"

Puts-append_json_string_example :
    append_json_string_known_escape neon quoted true started ≡ put (json_string quoted) started
Puts-append_json_string_example =
    Puts-append_json_string neon quoted true (λ h. absurd (cc h)) (omega arith) started
      started-IsValid

plain_run : has_special (codes "plain") ≡ false
unfolding has_special is_special
plain_run = refl

json_room : 2 + length (json_string (codes "plain")) < 64
unfolding escaped escape_byte
json_room = omega arith

append_json_string-read_string_example :
    (t : Bytes) × (append_json_string_known_escape neon (codes "plain") false started
      ≡ some (push started t))
    × (read_string (t ++ codes ":1}") ≡ some (codes "plain", codes ":1}"))
append_json_string-read_string_example =
    append_json_string-read_string neon (codes "plain") false started (codes ":1}") (λ _. plain_run)
      (omega arith) started-IsValid json_room

Puts-append_uint64_decimal_example : append_uint64_decimal 4096 started ≡ put (decimal 4096) started
Puts-append_uint64_decimal_example =
    Puts-append_uint64_decimal 4096 (omega arith) started started-IsValid

-- the bit pattern of the least `int64_t`
Puts-append_int64_decimal_example :
    append_int64_decimal 9223372036854775808 started
    ≡ put (signed_decimal 9223372036854775808) started
Puts-append_int64_decimal_example =
    Puts-append_int64_decimal 9223372036854775808 (omega arith) started started-IsValid

abbrev string_at : ℕ → ℕ → OwnedString
string_at off len = record { data_at = some off; len = len; needs_json_escape = false }

-- a copied event with a number and a string for attributes
abbrev copied : EventCopy
copied = record {
  timestamp = instant;
  level = level_info;
  event_name = string_at 0 4;
  message = string_at 5 2;
  logger_name = null_string;
  attributes =
      (record { key = string_at 8 1; value = OwnedValue.unsigned 7 })
      ∷ (record { key = string_at 10 1; value = OwnedValue.string (string_at 5 2) })
      ∷ [];
  trace_id = [];
  span_id = [];
  trace_flags = 0;
  has_trace_context = false;
  source_file = null_string;
  source_line = 0;
  source_function = null_string;
  text_arena = codes "boot.up.n.m.";
}

-- a notation for doubles; the event holds none
abbrev no_doubles : ℕ → Bytes
no_doubles v = codes "0"

copied-IsEncodable : IsEncodable no_doubles copied
unfolding has_special is_special
copied-IsEncodable = record {
  name = ((λ _. refl), omega arith);
  message = ((λ _. refl), omega arith);
  logger = ((λ _. refl), omega arith);
  attributes = (
    (((λ _. refl), omega arith), omega arith),
    ((((λ _. refl), omega arith), ((λ _. refl), omega arith)), tt),
  );
}

json_console_encode_lem_example :
    json_console_encode neon one_instant no_doubles (some copied) (some 512) ≡ (
      if ltb (length (json_text no_doubles copied (codes "2026-05-04T12:30:45.123Z"))) 512
      then done (json_text no_doubles copied (codes "2026-05-04T12:30:45.123Z"))
      else fail encode_error)
json_console_encode_lem_example =
    json_console_encode_lem neon one_instant no_doubles copied 512 instant_run (omega arith)
      copied-IsEncodable (omega arith) (omega arith)

ndjson_encode_lem_example :
    (ndjson_encode neon one_instant no_doubles (some copied) (some 16) ≡ (
      if leb (length (json_text no_doubles copied (codes "2026-05-04T12:30:45.123Z")) + 2) 16
      then done (json_text no_doubles copied (codes "2026-05-04T12:30:45.123Z") ++ b'\n' ∷ [])
      else fail encode_error))
    × IsPrintable (json_text no_doubles copied (codes "2026-05-04T12:30:45.123Z"))
ndjson_encode_lem_example =
    ndjson_encode_lem neon one_instant no_doubles copied 16 instant_run copied-IsEncodable
      (λ v. omega arith) (omega arith) (omega arith)
