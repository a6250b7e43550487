-- ===== src/Event.antt =====
-- src/core/ij_event.c: validation of an event. `Event.Scan` has the scans that the copy uses in its
-- place, `Event.Copy` the copy itself.
pub mod Scan
pub mod Copy
use iojournal.Prelude.{
  Bool, List, Option, [], false, if◌then◌else◌, leb, ltb, none, not, some, take, true, ℕ, ◌%◌, ◌&&◌,
  ◌+◌, ◌/◌, ◌==◌, ◌^◌, ◌||◌, ◌∷◌,
}
use iojournal.Types.{
  Attr, AttrValue, CString, Event, Status, attribute_count_max, attribute_key_max_len,
  attribute_string_max_len, bool, double, event_name_max_len, event_text_max_len, invalid_argument,
  is_null, logger_name_max_len, message_max_len, ok, other, signed, string, unsigned,
}
use iojournal.Simd.{Cpu}
use iojournal.Utf8.Simd.{is_valid_dispatch}
use iojournal.Levels.{level_is_valid}
use iojournal.Strings.{strcmp_equal, strlen, strnlen}

-- `isfinite`, on the bits of a `double`: the exponent is not all ones.
unfoldable pub isfinite : ℕ → Bool
isfinite bits = not ((bits / 2 ^ 52) % 2 ^ 11 == 2047)

-- `ij_max_size`
abbrev pub max_size : ℕ → ℕ → ℕ
max_size left right = if ltb right left then left else right

-- The entries that the loops over the attributes visit. The array has `attribute_count` entries.
abbrev pub attribute_list : Event → List Attr
attribute_list e = elim e.attributes [ none ↦ [] | some as' ↦ take e.attribute_count as' ]

-- the `strlen` of a pointer that is not NULL
abbrev pub strlen_of : CString → ℕ
strlen_of none = 0
strlen_of (some s) = strlen s

-- what `ij_event_text_size` adds for a value
abbrev pub value_len : AttrValue → ℕ
value_len (string s len) = len
value_len _ = 0

pub attribute_text_size : List Attr → ℕ
attribute_text_size [] = 0
attribute_text_size (a ∷ as') = strlen_of a.key + value_len a.value + attribute_text_size as'

-- `ij_event_text_size`. It runs on fields that passed their tests, so the sum is far below the
-- range of `size_t`.
pub event_text_size : Event → ℕ
event_text_size e =
    strlen_of e.event_name
    + strlen_of e.message
    + strlen_of e.logger
    + strlen_of e.source_file
    + strlen_of e.source_function
    + attribute_text_size (attribute_list e)

-- the inner loop of `ij_duplicate_attr_keys`; every key passed its test, so none is NULL.
abbrev pub key_equal : CString → CString → Bool
key_equal none _ = false
key_equal (some s) none = false
key_equal (some s) (some t) = strcmp_equal s t

pub key_occurs : CString → List Attr → Bool
key_occurs k [] = false
key_occurs k (a ∷ as') = key_equal k a.key || key_occurs k as'

-- `ij_duplicate_attr_keys`
pub duplicate_attr_keys : List Attr → Bool
duplicate_attr_keys [] = false
duplicate_attr_keys (a ∷ as') = key_occurs a.key as' || duplicate_attr_keys as'

module _ (cpu : Cpu) where
  -- `ij_validate_string_field`
  pub validate_string_field : CString → ℕ → Bool → Bool
  validate_string_field none max_len allow_empty = false
  validate_string_field (some value) max_len allow_empty =
      let len = strnlen value (max_len + 1) in
      if (not allow_empty && len == 0) || ltb max_len len
      then false
      else is_valid_dispatch cpu (take len value)

  -- `event->x != NULL && !ij_validate_string_field(event->x, …)`, negated
  abbrev pub validate_optional_field : CString → ℕ → Bool
  validate_optional_field none max_len = true
  validate_optional_field (some value) max_len = validate_string_field (some value) max_len false

  -- `ij_validate_attr_value`
  pub validate_attr_value : AttrValue → Bool
  validate_attr_value (string none len) = false
  validate_attr_value (string (some s) len) =
      if ltb attribute_string_max_len len then false else is_valid_dispatch cpu (take len s)
  validate_attr_value (signed v) = true
  validate_attr_value (unsigned v) = true
  validate_attr_value (bool v) = true
  validate_attr_value (double bits) = isfinite bits
  validate_attr_value other = false

  pub validate_attr : Attr → Bool
  validate_attr a =
      validate_string_field a.key attribute_key_max_len false && validate_attr_value a.value

  pub validate_attrs : List Attr → Bool
  validate_attrs [] = true
  validate_attrs (a ∷ as') = validate_attr a && validate_attrs as'

  -- The tests of `ij_validate_event`, in its order. Each of them returns the same status.
  pub event_passes : Event → Bool
  event_passes e =
      level_is_valid e.level
      && not (leb 10_0000_0000 e.timestamp.nanoseconds)
      && validate_string_field e.event_name event_name_max_len false
      && validate_string_field e.message message_max_len true
      && validate_optional_field e.logger logger_name_max_len
      && validate_optional_field e.source_file event_text_max_len
      && validate_optional_field e.source_function event_text_max_len
      && not (ltb attribute_count_max e.attribute_count)
      && not (ltb 0 e.attribute_count && is_null e.attributes)
      && not (e.has_trace_context && (is_null e.trace_id || is_null e.span_id))
      && validate_attrs (attribute_list e)
      && not (duplicate_attr_keys (attribute_list e) || ltb event_text_max_len (event_text_size e))

  -- `ij_validate_event`
  pub validate_event : Option Event → Status
  validate_event none = invalid_argument
  validate_event (some e) = if event_passes e then ok else invalid_argument
