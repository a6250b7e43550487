-- ===== src/Json/Encode.antt =====
-- src/encoders/ij_json_console.c, `ij_json_console_encode`, and src/encoders/ij_ndjson.c. The C code
-- appends in one chain of `||` that leaves at the first failure: a list of append operations.
-- `snprintf` with "%.17g" belongs to the C library: it is the argument `format_double`, of the bits.
pub mod Text
pub mod Refine
pub mod Line
use iojournal.Prelude.{
  Bytes, List, Option, [], codes, false, if◌then◌else◌, leb, length, ltb, none, some, true, ℕ, ◌++◌,
  ◌+◌, ◌==◌, ◌∷◌,
}
use iojournal.Types.{
  EventCopy, OwnedAttr, OwnedString, OwnedValue, Result, bool, done, double, encode_error, fail,
  invalid_argument, level_debug, level_error, level_fatal, level_info, level_trace, level_warn,
  signed, string, text_of, unsigned, ◌>>=◌,
}
use iojournal.Simd.{Cpu}
use iojournal.Timestamp.{Gmtime, format_timestamp_rfc3339}
use iojournal.Json.{
  Builder, append_char, append_int64_decimal, append_json_key_known_escape,
  append_json_string_known_escape, append_raw_n, append_uint64_decimal, ◌▷◌,
}

abbrev pub Append : Type 0
Append = Builder → Option Builder

-- `a != OK || b != OK || …`
abbrev pub append_all : List Append → Append
append_all [] b = some b
append_all (m ∷ ms) b = m b ▷ append_all ms

-- a literal of the source
abbrev pub literal : Bytes → Append
literal s = append_raw_n s

-- `ij_level_to_json_literal`
pub level_to_json_literal : ℕ → Bytes
level_to_json_literal level =
    if level == level_trace
    then codes "\"trace\""
    else if level == level_debug
    then codes "\"debug\""
    else if level == level_info
    then codes "\"info\""
    else if level == level_warn
    then codes "\"warn\""
    else if level == level_error
    then codes "\"error\""
    else if level == level_fatal
    then codes "\"fatal\""
    else codes "\"unknown\""

-- `sizeof(number_buffer)`
abbrev pub number_buffer_size : ℕ
number_buffer_size = 64

module _ (cpu : Cpu) (format_double : ℕ → Bytes) (arena : Bytes) where
  pub append_string : OwnedString → Append
  append_string s = append_json_string_known_escape cpu (text_of arena s) s.needs_json_escape

  pub append_key : OwnedString → Append
  append_key s = append_json_key_known_escape cpu (text_of arena s) s.needs_json_escape

  -- `ij_builder_append_attr_value`
  pub append_attr_value : OwnedValue → Append
  append_attr_value (string s) = append_string s
  append_attr_value (signed v) = append_int64_decimal v
  append_attr_value (unsigned v) = append_uint64_decimal v
  append_attr_value (bool true) = append_raw_n (codes "true")
  append_attr_value (bool false) = append_raw_n (codes "false")
  append_attr_value (double v) = λ b.
      if leb number_buffer_size (length (format_double v))
      then none
      else append_raw_n (format_double v) b

  -- the loop over the attributes, from the second one on
  pub append_more_attributes : List OwnedAttr → List Append
  append_more_attributes [] = []
  append_more_attributes (a ∷ as') =
      append_char b',' ∷ append_key a.key ∷ append_attr_value a.value ∷ append_more_attributes as'

  -- `if (event->attribute_count > 0U) { … }`
  pub append_attributes : List OwnedAttr → List Append
  append_attributes [] = []
  append_attributes (a ∷ as') =
      literal (codes ",\"attributes\":{")
      ∷ append_key a.key
      ∷ append_attr_value a.value
      ∷ (append_more_attributes as' ++ append_char b'}' ∷ [])

  -- `if (event->logger_name.data != NULL) { … }`
  pub append_logger : OwnedString → List Append
  append_logger s = elim s.data_at [
    | none ↦ []
    | some off ↦ literal (codes ",\"logger\":") ∷ append_string s ∷ []
  ]

  -- the chain, behind the time stamp's formatting
  pub append_record : EventCopy → Bytes → List Append
  append_record e timestamp =
      literal (codes "{\"timestamp\":\"")
      ∷ append_raw_n timestamp
      ∷ literal (codes "\",\"level\":")
      ∷ append_raw_n (level_to_json_literal e.level)
      ∷ literal (codes ",\"event_name\":")
      ∷ append_string e.event_name
      ∷ literal (codes ",\"message\":")
      ∷ append_string e.message
      ∷ (append_logger e.logger_name ++ (append_attributes e.attributes ++ append_char b'}' ∷ []))

-- `sizeof(timestamp)`
abbrev pub timestamp_size : ℕ
timestamp_size = 32

-- what the encoder makes of the formatted time stamp; the text of the record is what stands in the
-- buffer up to `*out_len`
pub finish : Option Builder → Result Bytes
finish none = fail encode_error
finish (some b) = done b.text

module _ (cpu : Cpu) (gmtime : Gmtime) (format_double : ℕ → Bytes) where
  pub encode_body : EventCopy → ℕ → Result Bytes → Result Bytes
  encode_body e buffer_size (fail _) = fail encode_error
  encode_body e buffer_size (done timestamp) = finish (
      append_all (append_record cpu format_double e.text_arena e timestamp)
        (record { capacity = buffer_size; text = [] }))

  -- `ij_json_console_encode`; the pointers that may be NULL are options, the buffer by its size.
  pub json_console_encode : Option EventCopy → Option ℕ → Result Bytes
  json_console_encode none buffer = fail invalid_argument
  json_console_encode (some e) none = fail invalid_argument
  json_console_encode (some e) (some buffer_size) =
      encode_body e buffer_size (format_timestamp_rfc3339 gmtime e.timestamp (some timestamp_size))

  -- `ij_ndjson_encode`
  pub ndjson_encode : Option EventCopy → Option ℕ → Result Bytes
  ndjson_encode event none = fail invalid_argument
  ndjson_encode event (some buffer_size) = json_console_encode event (some buffer_size) >>= λ json.
      if ltb buffer_size (length json + 2) then fail encode_error else done (json ++ b'\n' ∷ [])
