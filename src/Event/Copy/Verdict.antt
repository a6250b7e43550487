-- ===== src/Event/Copy/Verdict.antt =====
-- The verdict of the copy on an event is that of validation, and what it has measured by then.
use iojournal.Prelude.{
  All, Bool, Option, [], arith, false, if◌then◌else◌, ltb, none, not, refl, some, true, ℕ, ◌&&◌,
  ◌+◌, ◌||◌, ◌≡◌,
}
use iojournal.Types.{
  CString, Event, event_name_max_len, event_text_max_len, logger_name_max_len, message_max_len,
}
use iojournal.Simd.{Cpu}
use iojournal.Strings.{strlen}
use iojournal.Event.{
  attribute_list, attribute_text_size, duplicate_attr_keys, event_passes, event_text_size,
  strlen_of, validate_attrs, validate_optional_field, validate_string_field,
}
use iojournal.Event.Scan.{Scanned, scan_string_field_copy}
use iojournal.Event.Copy.{
  Plan, bytes_of, head_size, measure_attributes, measure_event, scan_optional_field, scanned_len,
  shape_passes,
}
use iojournal.Event.Copy.Keys.{crosses-nil}
use iojournal.Event.Copy.Accept.{
  AttrBytes, PointsToBytes, is_some, measure_attrs-validate, scan-validate, scanned_cstr,
}

-- Every text of the event is a string of bytes.
pub record EventBytes (e : Event) : Type 0 where
  pub name : PointsToBytes e.event_name
  pub message : PointsToBytes e.message
  pub logger : PointsToBytes e.logger
  pub file : PointsToBytes e.source_file
  pub function : PointsToBytes e.source_function
  pub attrs : All AttrBytes (attribute_list e)

abbrev pub scanned_optional : CString → Option Scanned
scanned_optional none = none
scanned_optional (some s) = some (scanned_cstr s)

module _ (cpu : Cpu) where
  scan_field-validate :
      (value : CString) (max_len : ℕ) (allow_empty : Bool)
      → PointsToBytes value
      → scan_string_field_copy cpu value max_len allow_empty ≡ (
          if validate_string_field cpu value max_len allow_empty
          then some (scanned_cstr (bytes_of value))
          else none)
  scan_field-validate none max_len allow_empty b =
      unfold scan_string_field_copy validate_string_field in refl
  scan_field-validate (some s) max_len allow_empty b = scan-validate cpu s max_len allow_empty b

  scan_optional-validate :
      (value : CString) (max_len : ℕ)
      → PointsToBytes value
      → scan_optional_field cpu value max_len ≡ (
          if validate_optional_field cpu value max_len then some (scanned_optional value) else none)
  unfolding scan_optional_field
  scan_optional-validate none max_len b = refl
  scan_optional-validate (some s) max_len b = ground (arith, scan-validate cpu s max_len false b)

-- What is measured of the fields of an accepted event.
abbrev pub plan_of : Event → Plan
plan_of e = record {
  event_name = scanned_cstr (bytes_of e.event_name);
  message = scanned_cstr (bytes_of e.message);
  logger = scanned_optional e.logger;
  source_file = scanned_optional e.source_file;
  source_function = scanned_optional e.source_function;
  attrs = [];
}

-- The tests in front of those on the attributes.
pub fields_pass : Cpu → Event → Bool
fields_pass cpu e =
    shape_passes e
    && validate_string_field cpu e.event_name event_name_max_len false
    && validate_string_field cpu e.message message_max_len true
    && validate_optional_field cpu e.logger logger_name_max_len
    && validate_optional_field cpu e.source_file event_text_max_len
    && validate_optional_field cpu e.source_function event_text_max_len

pub measure_event-fields :
    (cpu : Cpu) (mode : ℕ) (e : Event)
    → EventBytes e
    → measure_event cpu mode e ≡ (
        if fields_pass cpu e
        then measure_attributes cpu mode (plan_of e) (attribute_list e)
        else none)
unfolding measure_event fields_pass
measure_event-fields cpu mode e b = ground (
  arith,
  scan_field-validate cpu e.event_name event_name_max_len false b.name,
  scan_field-validate cpu e.message message_max_len true b.message,
  scan_optional-validate cpu e.logger logger_name_max_len b.logger,
  scan_optional-validate cpu e.source_file event_text_max_len b.file,
  scan_optional-validate cpu e.source_function event_text_max_len b.function,
)

strlen-bytes_of : (v : CString) → strlen (bytes_of v) ≡ strlen_of v
strlen-bytes_of none = unfold strlen in refl
strlen-bytes_of (some s) = refl

scanned_len-optional : (v : CString) → scanned_len (scanned_optional v) ≡ strlen_of v
scanned_len-optional none = refl
scanned_len-optional (some s) = refl

head_size-text :
    (e : Event) → event_text_size e ≡ head_size (plan_of e) + attribute_text_size (attribute_list e)
unfolding event_text_size head_size
head_size-text e = omega (
  arith,
  strlen-bytes_of e.event_name,
  strlen-bytes_of e.message,
  scanned_len-optional e.logger,
  scanned_len-optional e.source_file,
  scanned_len-optional e.source_function,
)

measure_attributes-validate :
    (cpu : Cpu) (mode : ℕ) (e : Event)
    → EventBytes e
    → is_some (measure_attributes cpu mode (plan_of e) (attribute_list e)) ≡ (
        validate_attrs cpu (attribute_list e)
        && not
            (duplicate_attr_keys (attribute_list e) || ltb event_text_max_len (event_text_size e)))
unfolding measure_attributes
measure_attributes-validate cpu mode e b =
    let attrs =
      measure_attrs-validate cpu mode [] (head_size (plan_of e)) (attribute_list e) tt b.attrs in
    ground (arith, attrs, crosses-nil (attribute_list e), head_size-text e)

pub event_passes-parts :
    (cpu : Cpu) (e : Event)
    → event_passes cpu e ≡ true
    → (fields_pass cpu e ≡ true) × (validate_attrs cpu (attribute_list e) ≡ true)
unfolding event_passes
event_passes-parts cpu e v = unfold fields_pass shape_passes in ground arith

-- Up to the allocation of memory, `ij_event_copy_from_input` accepts exactly the events that
-- `ij_validate_event` accepts, in whatever redaction mode, where the texts of the event are byte
-- strings.
pub measure_event-validate :
    (cpu : Cpu) (mode : ℕ) (e : Event)
    → EventBytes e
    → is_some (measure_event cpu mode e) ≡ event_passes cpu e
unfolding event_passes
measure_event-validate cpu mode e b =
    rw (measure_event-fields cpu mode e b)
      (unfold fields_pass shape_passes in ground (arith, measure_attributes-validate cpu mode e b))
