-- ===== src/Event/Copy.antt =====
-- src/core/ij_event.c, `ij_event_copy_from_input`: an event is tested, measured and copied into one
-- block of memory. `malloc` belongs to the platform: `arena_of n` is the block that it gives for
-- `n` bytes, with whatever stands in it, and `array_given` says whether the array of attributes is
-- given.
pub mod Keys
pub mod Accept
pub mod Verdict
pub mod Measure
pub mod Arena
pub mod Contents
pub mod Encodable
pub mod Tests
use iojournal.Prelude.{
  Bool, Bytes, List, Option, [], codes, false, if◌then◌else◌, leb, length, ltb, none, not,
  replicate, some, take, true, ℕ, ◌&&◌, ◌++◌, ◌+◌, ◌==◌, ◌||◌, ◌∷◌,
}
use iojournal.Types.{
  Attr, AttrValue, CString, Event, EventCopy, OwnedAttr, OwnedString, OwnedValue, Result,
  attribute_count_max, attribute_key_max_len, bool, done, double, event_name_max_len,
  event_text_max_len, fail, internal_error, invalid_argument, is_null, logger_name_max_len,
  message_max_len, null_string, other, redaction_enabled, signed, string, unsigned,
}
use iojournal.Simd.{Cpu}
use iojournal.Levels.{level_is_valid}
use iojournal.Strings.{memcmp_equal, store}
use iojournal.Redact.{key_should_redact_n}
use iojournal.Event.{attribute_list, max_size, validate_attr_value, value_len}
use iojournal.Event.Scan.{Scanned, scan_string_field_copy, validate_attr_string_copy}

-- `IJ_REDACTED_LITERAL`
abbrev pub redacted_literal : Bytes
redacted_literal = codes "[REDACTED]"

pub record Allocator : Type 0 where
  pub arena_of : ℕ → Option Bytes
  pub array_given : Bool

-- What the pass over the attributes keeps of each: the entries of the five local arrays.
pub record Measured : Type 0 where
  pub attr : Attr
  pub key_len : ℕ
  pub key_needs_json_escape : Bool
  pub string_needs_json_escape : Bool
  pub should_redact : Bool

-- `size_t capacity = ij_max_size(…)` for a string value
abbrev pub value_capacity : ℕ → ℕ
value_capacity len = max_size len (length redacted_literal)

-- what a value adds to `text_arena_size`
abbrev pub value_arena_size : AttrValue → ℕ
value_arena_size (string s len) = value_capacity len + 1
value_arena_size _ = 0

abbrev pub is_string : AttrValue → Bool
is_string (string s len) = true
is_string _ = false

-- the bytes behind a pointer that is not NULL
abbrev pub bytes_of : Option Bytes → Bytes
bytes_of none = []
bytes_of (some s) = s

-- `ij_attr_keys_equal`: `memcmp` runs only over keys of one length.
pub attr_keys_equal : CString → ℕ → CString → ℕ → Bool
attr_keys_equal left left_len right right_len =
    left_len == right_len
    && memcmp_equal (take left_len (bytes_of left)) (take left_len (bytes_of right))

-- the loop `for (size_t j = 0U; j < i; ++j)`
pub key_seen : CString → ℕ → List Measured → Bool
key_seen key key_len [] = false
key_seen key key_len (m ∷ ms) =
    attr_keys_equal key key_len m.attr.key m.key_len || key_seen key key_len ms

-- the test of a value, with the flag of a string
pub measure_value : Cpu → AttrValue → Option Bool
measure_value cpu (string s len) = validate_attr_string_copy cpu s len
measure_value cpu v = if validate_attr_value cpu v then some false else none

module _ (cpu : Cpu) (redaction_mode : ℕ) where
  pub measured : Attr → Scanned → Bool → Measured
  measured a key flag = record {
    attr = a;
    key_len = key.len;
    key_needs_json_escape = key.needs_json_escape;
    string_needs_json_escape = flag;
    should_redact =
        redaction_mode == redaction_enabled
        && is_string a.value
        && key_should_redact_n (some (take key.len (bytes_of a.key)));
  }

  -- the pass over the attributes: those seen so far in order, `total_text_size` and what is left;
  -- `none` for the status INVALID_ARGUMENT
  pub measure_attrs : List Measured → ℕ → List Attr → Option (List Measured)
  measure_attrs seen total [] = some seen
  measure_attrs seen total (a ∷ as') =
      elim (scan_string_field_copy cpu a.key attribute_key_max_len false) [
        | none ↦ none
        | some key ↦ elim (measure_value cpu a.value) [
          | none ↦ none
          | some flag ↦
              let total' = total + key.len + value_len a.value in
              elim (key_seen a.key key.len seen || ltb event_text_max_len total') [
                | true ↦ none
                | false ↦ measure_attrs (seen ++ measured a key flag ∷ []) total' as'
              ]
        ]
      ]

-- an optional field: `none` inside for a NULL pointer, `none` outside for a text that is refused
pub scan_optional_field : Cpu → CString → ℕ → Option (Option Scanned)
scan_optional_field cpu none max_len = some none
scan_optional_field cpu (some s) max_len =
    elim (scan_string_field_copy cpu (some s) max_len false) [
      | none ↦ none
      | some f ↦ some (some f)
    ]

abbrev pub scanned_len : Option Scanned → ℕ
scanned_len none = 0
scanned_len (some s) = s.len

-- what a field adds to `text_arena_size`
abbrev pub scanned_arena_size : Option Scanned → ℕ
scanned_arena_size none = 0
scanned_arena_size (some s) = s.len + 1

-- What the tests have measured, before any memory is asked for.
pub record Plan : Type 0 where
  pub event_name : Scanned
  pub message : Scanned
  pub logger : Option Scanned
  pub source_file : Option Scanned
  pub source_function : Option Scanned
  pub attrs : List Measured

-- `total_text_size` in front of the attributes
pub head_size : Plan → ℕ
head_size p =
    p.event_name.len
    + p.message.len
    + scanned_len p.logger
    + scanned_len p.source_file
    + scanned_len p.source_function

pub attrs_arena_size : List Measured → ℕ
attrs_arena_size [] = 0
attrs_arena_size (m ∷ ms) = m.key_len + 1 + value_arena_size m.attr.value + attrs_arena_size ms

-- `text_arena_size`
pub text_arena_size : Plan → ℕ
text_arena_size p =
    p.event_name.len
    + 1
    + (p.message.len + 1)
    + scanned_arena_size p.logger
    + scanned_arena_size p.source_file
    + scanned_arena_size p.source_function
    + attrs_arena_size p.attrs

-- the first test, on what is no text
pub shape_passes : Event → Bool
shape_passes e =
    level_is_valid e.level
    && not (leb 10_0000_0000 e.timestamp.nanoseconds)
    && not (ltb attribute_count_max e.attribute_count)
    && not (ltb 0 e.attribute_count && is_null e.attributes)
    && not (e.has_trace_context && (is_null e.trace_id || is_null e.span_id))

module _ (cpu : Cpu) (redaction_mode : ℕ) where
  -- The tests up to the first `malloc`; `none` for the status INVALID_ARGUMENT. The status is the
  -- same for all of them, and none of them changes anything but local variables and `*out_event`,
  -- which a caller does not read after a failure.
  pub measure_attributes : Plan → List Attr → Option Plan
  measure_attributes p as' =
      if ltb event_text_max_len (head_size p)
      then none
      else elim (measure_attrs cpu redaction_mode [] (head_size p) as') [
        | none ↦ none
        | some ms ↦ some (record p { attrs = ms })
      ]

  pub measure_event : Event → Option Plan
  measure_event e =
      if not (shape_passes e)
      then none
      else elim (scan_string_field_copy cpu e.event_name event_name_max_len false) [
        | none ↦ none
        | some name ↦ elim (scan_string_field_copy cpu e.message message_max_len true) [
          | none ↦ none
          | some message ↦ elim (scan_optional_field cpu e.logger logger_name_max_len) [
            | none ↦ none
            | some logger ↦ elim (scan_optional_field cpu e.source_file event_text_max_len) [
              | none ↦ none
              | some file ↦ elim (scan_optional_field cpu e.source_function event_text_max_len) [
                | none ↦ none
                | some function ↦
                    measure_attributes
                      (record {
                        event_name = name;
                        message = message;
                        logger = logger;
                        source_file = file;
                        source_function = function;
                        attrs = [];
                      })
                      (attribute_list e)
              ]
            ]
          ]
        ]
      ]

-- The arena while it is filled: its bytes, and the offset of `cursor`.
pub record Filling : Type 0 where
  pub mem : Bytes
  pub cursor : ℕ

-- A step of the copy; `none` for a write outside of the arena, which C leaves undefined.
abbrev pub Fill : Type 0 → Type 0
Fill A = Filling → Option (A × Filling)

abbrev pub fill_bind : {A B : Type 0} → Fill A → (A → Fill B) → Fill B
fill_bind m k st = elim (m st) [ none ↦ none | some (a, st') ↦ k a st' ]

-- `ij_copy_owned_string_into_arena`, of the first `len` bytes of `value`
pub copy_owned_string_into_arena : Bytes → ℕ → ℕ → Bool → Fill OwnedString
copy_owned_string_into_arena value len capacity flag st =
    elim (store st.mem st.cursor (take len value)) [
      | none ↦ none
      | some mem ↦ elim (store mem (st.cursor + len) (0 ∷ [])) [
        | none ↦ none
        | some mem' ↦ some (
          record { data_at = some st.cursor; len = len; needs_json_escape = flag },
          record { mem = mem'; cursor = st.cursor + (capacity + 1) },
        )
      ]
    ]

-- the overwriting of a copied value by the literal and its terminator, `if (attr_should_redact[i])`
pub redact_string : OwnedString → Fill OwnedString
redact_string s st = elim s.data_at [
  | none ↦ none
  | some off ↦ elim (store st.mem off (redacted_literal ++ 0 ∷ [])) [
    | none ↦ none
    | some mem ↦ some (record s { len = length redacted_literal }, record st { mem = mem })
  ]
]

-- a string as the value of an attribute
abbrev pub fill_string : OwnedString → Fill OwnedValue
fill_string s st = some (OwnedValue.string s, st)

-- `ij_copy_attr_value_into_arena` with the redaction behind it
pub copy_attr_value : Measured → AttrValue → Fill OwnedValue
copy_attr_value m (string s len) =
    fill_bind
      (copy_owned_string_into_arena (bytes_of s) len (value_capacity len)
        m.string_needs_json_escape)
      λ owned.
        if m.should_redact then fill_bind (redact_string owned) fill_string else fill_string owned
copy_attr_value m (signed v) = λ st. some (OwnedValue.signed v, st)
copy_attr_value m (unsigned v) = λ st. some (OwnedValue.unsigned v, st)
copy_attr_value m (bool v) = λ st. some (OwnedValue.bool v, st)
copy_attr_value m (double v) = λ st. some (OwnedValue.double v, st)
-- a kind that is refused before the copy starts
copy_attr_value m other = λ st. none

-- the loop that copies the attributes
pub copy_attrs : List Measured → Fill (List OwnedAttr)
copy_attrs [] st = some ([], st)
copy_attrs (m ∷ ms) st =
    fill_bind
      (copy_owned_string_into_arena (bytes_of m.attr.key) m.key_len m.key_len
        m.key_needs_json_escape)
      (λ key. fill_bind (copy_attr_value m m.attr.value) λ value.
        fill_bind (copy_attrs ms)
          λ rest st'. some ((record { key = key; value = value }) ∷ rest, st'))
      st

-- the copy of a field that is not optional
pub copy_field : CString → Scanned → Fill OwnedString
copy_field value s = copy_owned_string_into_arena (bytes_of value) s.len s.len s.needs_json_escape

-- `if (event->x != NULL) { … }`
pub copy_optional_field : CString → Option Scanned → Fill OwnedString
copy_optional_field value none = λ st. some (null_string, st)
copy_optional_field value (some s) = copy_field value s

-- What the copies of the texts give.
pub record Texts : Type 0 where
  pub event_name : OwnedString
  pub message : OwnedString
  pub logger_name : OwnedString
  pub source_file : OwnedString
  pub source_function : OwnedString
  pub attributes : List OwnedAttr

-- the copies, in the order of the source
pub copy_texts : Event → Plan → Fill Texts
copy_texts e p = fill_bind (copy_field e.event_name p.event_name) λ name.
    fill_bind (copy_field e.message p.message) λ message.
      fill_bind (copy_optional_field e.logger p.logger) λ logger.
        fill_bind (copy_optional_field e.source_file p.source_file) λ file.
          fill_bind (copy_optional_field e.source_function p.source_function) λ function.
            fill_bind (copy_attrs p.attrs) λ attrs st. some (
              record {
                event_name = name;
                message = message;
                logger_name = logger;
                source_file = file;
                source_function = function;
                attributes = attrs;
              },
              st,
            )

-- `*out_event` with its fields that are no texts; `IJ_TRACE_ID_SIZE` is 16, `IJ_SPAN_ID_SIZE` 8.
pub event_copy : Event → Texts → Bytes → EventCopy
event_copy e t arena = record {
  timestamp = e.timestamp;
  level = e.level;
  event_name = t.event_name;
  message = t.message;
  logger_name = t.logger_name;
  attributes = t.attributes;
  trace_id = if e.has_trace_context then take 16 (bytes_of e.trace_id) else replicate 16 0;
  span_id = if e.has_trace_context then take 8 (bytes_of e.span_id) else replicate 8 0;
  trace_flags = e.trace_flags;
  has_trace_context = e.has_trace_context;
  source_file = t.source_file;
  source_line = e.source_line;
  source_function = t.source_function;
  text_arena = arena;
}

-- Everything from the first `malloc` on. The outer option is `none` where a write leaves the arena.
-- The array of attributes is asked for when the five texts have been copied; a refusal is a failure
-- in either place, and what the arena holds then is freed unread.
pub allocate_and_copy : Allocator → Event → Plan → Option (Result EventCopy)
allocate_and_copy alloc e p = elim (alloc.arena_of (text_arena_size p)) [
  | none ↦ some (fail internal_error)
  | some mem ↦ elim (copy_texts e p (record { mem = mem; cursor = 0 })) [
    | none ↦ none
    | some (texts, st) ↦ some (
        if ltb 0 e.attribute_count && not alloc.array_given
        then fail internal_error
        else done (event_copy e texts st.mem))
  ]
]

-- `ij_event_copy_from_input`
pub copy_from_input : Cpu → Allocator → ℕ → Option Event → Option (Result EventCopy)
copy_from_input cpu alloc redaction_mode none = some (fail invalid_argument)
copy_from_input cpu alloc redaction_mode (some e) = elim (measure_event cpu redaction_mode e) [
  | none ↦ some (fail invalid_argument)
  | some p ↦ allocate_and_copy alloc e p
]
