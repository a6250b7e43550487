-- ===== src/Types.antt =====
-- include/iojournal/iojournal_types.h and src/ij_internal.h: the values that the parts exchange.
-- An enum of C is its integer value, since the code tests values that no enumerator has.
use iojournal.Prelude.{Bool, Bytes, List, Option, [], drop, false, none, some, take, true, ℕ}

-- `ij_status_t`
pub data Status : Type 0 where
  ok invalid_argument invalid_state queue_full encode_error sink_error internal_error : Status

-- A function that fails with a status, or gives back what it writes through its out-pointer.
pub data Result {ℓ} (A : Type ℓ) : Type ℓ where
  done : A → Result A
  fail : Status → Result A

-- go on with what was given back, or leave with the status
infixl 5 ◌>>=◌
abbrev pub ◌>>=◌ {ℓ} : {A B : Type ℓ} → Result A → (A → Result B) → Result B
done value >>= next = next value
fail status >>= next = fail status

-- `ij_level_t`
abbrev pub level_trace : ℕ
level_trace = 0

abbrev pub level_debug : ℕ
level_debug = 1

abbrev pub level_info : ℕ
level_info = 2

abbrev pub level_warn : ℕ
level_warn = 3

abbrev pub level_error : ℕ
level_error = 4

abbrev pub level_fatal : ℕ
level_fatal = 5

-- `ij_redaction_mode_t`
abbrev pub redaction_disabled : ℕ
redaction_disabled = 0

abbrev pub redaction_enabled : ℕ
redaction_enabled = 1

-- The limits of an event.
abbrev pub event_name_max_len : ℕ
event_name_max_len = 64

abbrev pub logger_name_max_len : ℕ
logger_name_max_len = 64

abbrev pub attribute_key_max_len : ℕ
attribute_key_max_len = 64

abbrev pub attribute_string_max_len : ℕ
attribute_string_max_len = 512

abbrev pub attribute_count_max : ℕ
attribute_count_max = 32

abbrev pub message_max_len : ℕ
message_max_len = 2048

abbrev pub event_text_max_len : ℕ
event_text_max_len = 4096

-- `ij_timestamp_t`; `unix_seconds` is the bit pattern of the `int64_t`.
pub record Timestamp : Type 0 where
  pub unix_seconds : ℕ
  pub nanoseconds : ℕ

-- `ij_attr_value_t`: the kind selects the member of the union. A string is the object that `data`
-- points to, `none` for NULL, with its length `len`. An `int64_t` and a `double` are given by their
-- bit patterns. `other` is a kind that no enumerator has.
pub data AttrValue : Type 0 where
  string : Option Bytes → ℕ → AttrValue
  signed : ℕ → AttrValue
  unsigned : ℕ → AttrValue
  bool : Bool → AttrValue
  double : ℕ → AttrValue
  other : AttrValue

-- A C string: `none` for NULL, else the bytes of the array in front of its last byte, which is a
-- terminator. A terminator further to the front ends the string there.
abbrev pub CString : Type 0
CString = Option Bytes

-- `p == NULL`
abbrev pub is_null {ℓ} : {A : Type ℓ} → Option A → Bool
is_null none = true
is_null (some _) = false

-- `ij_attr_t`
pub record Attr : Type 0 where
  pub key : CString
  pub value : AttrValue

-- `ij_event_t`. `attributes` is `none` for NULL; the array is as long as `attribute_count` says.
pub record Event : Type 0 where
  pub timestamp : Timestamp
  pub level : ℕ
  pub event_name : CString
  pub message : CString
  pub logger : CString
  pub attributes : Option (List Attr)
  pub attribute_count : ℕ
  pub trace_id : Option Bytes
  pub span_id : Option Bytes
  pub trace_flags : ℕ
  pub has_trace_context : Bool
  pub source_file : CString
  pub source_line : ℕ
  pub source_function : CString

-- `ij_owned_string_t`; `data` is an offset into the text arena of the event, `none` for NULL.
pub record OwnedString : Type 0 where
  pub data_at : Option ℕ
  pub len : ℕ
  pub needs_json_escape : Bool

-- `ij_owned_attr_value_t`
pub data OwnedValue : Type 0 where
  string : OwnedString → OwnedValue
  signed : ℕ → OwnedValue
  unsigned : ℕ → OwnedValue
  bool : Bool → OwnedValue
  double : ℕ → OwnedValue

-- `ij_owned_attr_t`
pub record OwnedAttr : Type 0 where
  pub key : OwnedString
  pub value : OwnedValue

-- `ij_event_copy_t`. The arena is the block that `malloc` gave, of `text_arena_size` bytes; the
-- attributes are a list of `attribute_count` entries.
pub record EventCopy : Type 0 where
  pub timestamp : Timestamp
  pub level : ℕ
  pub event_name : OwnedString
  pub message : OwnedString
  pub logger_name : OwnedString
  pub attributes : List OwnedAttr
  pub trace_id : Bytes
  pub span_id : Bytes
  pub trace_flags : ℕ
  pub has_trace_context : Bool
  pub source_file : OwnedString
  pub source_line : ℕ
  pub source_function : OwnedString
  pub text_arena : Bytes

-- An `ij_owned_string_t` of zero bytes.
abbrev pub null_string : OwnedString
null_string = record { data_at = none; len = 0; needs_json_escape = false }

-- The `n` bytes at offset `off` of a block of memory.
abbrev pub slice : Bytes → ℕ → ℕ → Bytes
slice mem off n = take n (drop off mem)

-- What `memcpy(…, s.data, s.len)` reads.
abbrev pub text_of : Bytes → OwnedString → Bytes
text_of arena s = elim s.data_at [ none ↦ [] | some off ↦ slice arena off s.len ]
