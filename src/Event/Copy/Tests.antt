-- ===== src/Event/Copy/Tests.antt =====
-- Validation and the copy at a concrete event.
use iojournal.Prelude.{
  Bytes, [], ap, arith, codes, false, if◌then◌else◌, length, length-replicate, ltb, none, refl,
  replicate, some, sym, true, ℕ, ◌∷◌, ◌≡◌,
}
use iojournal.Types.{
  Attr, AttrValue, Event, EventCopy, done, encode_error, fail, invalid_argument, level_info,
  redaction_enabled,
}
use iojournal.Simd.{Cpu}
use iojournal.Strings.{strcmp_equal, strlen, strnlen}
use iojournal.Escape.Scan.{has_special}
use iojournal.Event.{
  attribute_text_size, duplicate_attr_keys, event_passes, event_text_size, key_occurs,
  validate_attr, validate_attr_value, validate_attrs, validate_string_field,
}
use iojournal.Event.Scan.{scan_string_field_copy, validate_attr_string_copy}
use iojournal.Event.Scan.Agree.{
  scan_string_field_copy-validate, scanned, validate_attr_string_copy-validate,
}
use iojournal.Event.Copy.{
  Allocator, attrs_arena_size, copy_from_input, measure_event, measured, text_arena_size,
}
use iojournal.Event.Copy.Accept.{is_some}
use iojournal.Event.Copy.Verdict.{EventBytes, measure_event-validate}
use iojournal.Event.Copy.Contents.Total.{copy_from_input-rejected, full_plan}
use iojournal.Levels.{level_is_valid}
use iojournal.Utf8.{scalar_validate}
use iojournal.Utf8.Simd.{is_valid_dispatch}
use iojournal.Timestamp.Tests.{instant_run, one_instant}
use iojournal.Json.Encode.{json_console_encode}
use iojournal.Json.Encode.Text.{json_text}
use iojournal.Event.Copy.Encodable.{copy_from_input-json_console_encode}
use iojournal.Event.Copy.Contents.Fidelity.{IsCopyOf, copy_from_input-IsCopyOf}

abbrev pub avx2 : Cpu
avx2 = record { has_x86_avx2 = true; has_arm_neon = false }

-- an attribute whose value is a secret
abbrev pub secret : Attr
secret = record {
  key = some (codes "password");
  value = AttrValue.string (some (codes "hunter2")) 7;
}

abbrev pub login : Event
login = record {
  timestamp = record { unix_seconds = 1777897845; nanoseconds = 123_456_789 };
  level = level_info;
  event_name = some (codes "login");
  message = some (codes "user \"bob\"");
  logger = none;
  attributes =
      some (secret ∷ (record { key = some (codes "n"); value = AttrValue.unsigned 7 }) ∷ []);
  attribute_count = 2;
  trace_id = none;
  span_id = none;
  trace_flags = 0;
  has_trace_context = false;
  source_file = none;
  source_line = 0;
  source_function = none;
}

-- the same event with a name that is empty
abbrev pub nameless : Event
nameless = record login { event_name = some [] }

-- `malloc` gives blocks of zero bytes
abbrev pub zeros : Allocator
zeros = record { arena_of = λ n. some (replicate n 0); array_given = true }

pub login-EventBytes : EventBytes login
login-EventBytes = record {
  name = omega arith;
  message = omega arith;
  logger = tt;
  file = tt;
  function = tt;
  attrs = ((omega arith, omega arith), ((omega arith, tt), tt));
}

pub nameless-EventBytes : EventBytes nameless
nameless-EventBytes = record {
  name = tt;
  message = omega arith;
  logger = tt;
  file = tt;
  function = tt;
  attrs = ((omega arith, omega arith), ((omega arith, tt), tt));
}

pub login-passes : event_passes avx2 login ≡ true
unfolding event_passes level_is_valid validate_string_field strnlen is_valid_dispatch
    scalar_validate validate_attrs validate_attr validate_attr_value duplicate_attr_keys key_occurs
    strcmp_equal event_text_size strlen attribute_text_size
login-passes = refl

pub nameless-fails : event_passes avx2 nameless ≡ false
unfolding event_passes level_is_valid validate_string_field strnlen
nameless-fails = refl

copy_from_input-IsCopyOf_example :
    (c : EventCopy) × (copy_from_input avx2 zeros redaction_enabled (some login) ≡ some (done c))
    × IsCopyOf redaction_enabled login c
    × (length c.text_arena ≡ text_arena_size (full_plan avx2 redaction_enabled login))
copy_from_input-IsCopyOf_example =
    copy_from_input-IsCopyOf avx2 redaction_enabled zeros login
      (replicate (text_arena_size (full_plan avx2 redaction_enabled login)) 0) login-EventBytes
      (omega arith, (tt, tt)) login-passes refl (length-replicate _ _) refl

copy_from_input-rejected_example :
    copy_from_input avx2 zeros redaction_enabled (some nameless) ≡ some (fail invalid_argument)
copy_from_input-rejected_example =
    copy_from_input-rejected avx2 zeros redaction_enabled nameless nameless-EventBytes
      nameless-fails

measure_event-validate_example :
    is_some (measure_event avx2 redaction_enabled login) ≡ event_passes avx2 login
measure_event-validate_example =
    measure_event-validate avx2 redaction_enabled login login-EventBytes

scan_string_field_copy-validate_example :
    scan_string_field_copy avx2 (some (codes "user \"bob\"")) 64 false ≡ (
      if validate_string_field avx2 (some (codes "user \"bob\"")) 64 false
      then some (scanned (codes "user \"bob\"") (strnlen (codes "user \"bob\"") 65))
      else none)
scan_string_field_copy-validate_example =
    scan_string_field_copy-validate avx2 (codes "user \"bob\"") 64 false (omega arith)

validate_attr_string_copy-validate_example :
    validate_attr_string_copy avx2 (some (codes "a\tb")) 3 ≡ (
      if validate_attr_value avx2 (AttrValue.string (some (codes "a\tb")) 3)
      then some (has_special (codes "a\tb"))
      else none)
validate_attr_string_copy-validate_example =
    validate_attr_string_copy-validate avx2 (codes "a\tb") 3 (omega arith)

pub login_arena : text_arena_size (full_plan avx2 redaction_enabled login) ≡ 39
unfolding text_arena_size attrs_arena_size strlen measured
login_arena = refl

-- a notation for doubles; the event holds none
abbrev pub no_doubles : ℕ → Bytes
no_doubles v = codes "0"

copy_from_input-json_console_encode_example :
    (c : EventCopy) × (copy_from_input avx2 zeros redaction_enabled (some login) ≡ some (done c))
    × (json_console_encode avx2 one_instant no_doubles (some c) (some 256) ≡ (
        if ltb (length (json_text no_doubles c (codes "2026-05-04T12:30:45.123Z"))) 256
        then done (json_text no_doubles c (codes "2026-05-04T12:30:45.123Z"))
        else fail encode_error))
copy_from_input-json_console_encode_example =
    copy_from_input-json_console_encode avx2 redaction_enabled no_doubles login zeros one_instant
      (replicate 39 0) 256 login-EventBytes (omega arith, (tt, tt)) (tt, (omega arith, tt))
      login-passes (ap (λ n. some (replicate n 0)) login_arena) (sym login_arena) (omega arith) refl
      instant_run (omega arith) (omega arith) (omega arith)
