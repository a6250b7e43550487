-- ===== src/Event/Copy/Contents/Fidelity.antt =====
-- What `ij_event_copy_from_input` returns, field by field and without its steps: the copy says what
-- the event said, but for the values that are redacted.
use iojournal.Prelude.{
  All, All-take, Bytes, IsBytes, List, Option, [], arith, false, length, ltb, map, none, not, refl,
  replicate, some, subst, take, true, ℕ, ◌&&◌, ◌==◌, ◌∷◌, ◌≡◌,
}
use iojournal.Types.{
  Attr, AttrValue, CString, Event, EventCopy, OwnedAttr, OwnedString, OwnedValue, bool, done,
  double, null_string, other, redaction_enabled, signed, string, unsigned,
}
use iojournal.Simd.{Cpu}
use iojournal.Event.{attribute_list, event_passes}
use iojournal.Event.Copy.{
  Allocator, bytes_of, copy_from_input, event_copy, measured, redacted_literal, text_arena_size,
}
use iojournal.Event.Copy.Accept.{AttrBytes, PointsToBytes, value_flag}
use iojournal.Event.Copy.Verdict.{EventBytes, scanned_optional}
use iojournal.Event.Copy.Measure.{measured_of}
use iojournal.Event.Copy.Contents.{Holds}
use iojournal.Event.Copy.Contents.Whole.{ValueHolds, ValueObject}
use iojournal.Event.Copy.Contents.Texts.{AttrsHold}
use iojournal.Event.Copy.Contents.Fields.{OptionalHolds}
use iojournal.Event.Copy.Contents.Total.{copy_from_input-CopiedTexts, full_plan}
use iojournal.Escape.Scan.{has_special}
use iojournal.Strings.{cstr}
use iojournal.Redact.Spec.{should_redact}
use iojournal.Redact.Suffix.{key_should_redact_n-should_redact}

-- The string reads `t` in the arena, and says whether JSON wants an escape in it.
abbrev pub Reads : Bytes → Bytes → OwnedString → Type 0
Reads arena t = Holds t (has_special t) arena

-- an optional text: a NULL pointer is copied to a string of zero bytes
abbrev pub ReadsOptional : Bytes → CString → OwnedString → Type 0
ReadsOptional arena none o = o ≡ null_string
ReadsOptional arena (some s) o = Reads arena (cstr s) o

-- Whether a string value under this key is to be redacted.
abbrev pub IsRedacted : ℕ → CString → Type 0
IsRedacted mode key = (mode ≡ redaction_enabled) × (should_redact (cstr (bytes_of key)) ≡ true)

-- `o` is the copy of a value under a key: a string reads the literal if it is to be redacted and
-- its own text if not, and everything else is the same value.
abbrev pub IsCopyOfValue : ℕ → CString → Bytes → AttrValue → OwnedValue → Type 0
IsCopyOfValue mode key arena (string s len) o =
    (t : OwnedString) × (o ≡ OwnedValue.string t)
    × (IsRedacted mode key → Holds redacted_literal (value_flag (AttrValue.string s len)) arena t)
    × (¬ (IsRedacted mode key)
        → Holds (take len (bytes_of s)) (value_flag (AttrValue.string s len)) arena t)
IsCopyOfValue mode key arena (signed v) o = o ≡ OwnedValue.signed v
IsCopyOfValue mode key arena (unsigned v) o = o ≡ OwnedValue.unsigned v
IsCopyOfValue mode key arena (bool v) o = o ≡ OwnedValue.bool v
IsCopyOfValue mode key arena (double v) o = o ≡ OwnedValue.double v
IsCopyOfValue mode key arena other o = ⊥

-- the attributes one by one, each with its key and its value
abbrev pub AreCopiesOf : ℕ → Bytes → List Attr → List OwnedAttr → Type 0
AreCopiesOf mode arena [] [] = Unit
AreCopiesOf mode arena [] (o ∷ os) = ⊥
AreCopiesOf mode arena (a ∷ as') [] = ⊥
AreCopiesOf mode arena (a ∷ as') (o ∷ os) =
    Reads arena (cstr (bytes_of a.key)) o.key
    × IsCopyOfValue mode a.key arena a.value o.value
    × AreCopiesOf mode arena as' os

-- `c` is the copy of the event `e`.
pub record IsCopyOf (mode : ℕ) (e : Event) (c : EventCopy) : Type 0 where
  pub timestamp : c.timestamp ≡ e.timestamp
  pub level : c.level ≡ e.level
  pub event_name : Reads c.text_arena (cstr (bytes_of e.event_name)) c.event_name
  pub message : Reads c.text_arena (cstr (bytes_of e.message)) c.message
  pub logger_name : ReadsOptional c.text_arena e.logger c.logger_name
  pub attributes : AreCopiesOf mode c.text_arena (attribute_list e) c.attributes
  pub has_trace_context : c.has_trace_context ≡ e.has_trace_context
  pub trace_flags : c.trace_flags ≡ e.trace_flags
  pub ids :
      e.has_trace_context ≡ true
      → (c.trace_id ≡ take 16 (bytes_of e.trace_id)) × (c.span_id ≡ take 8 (bytes_of e.span_id))
  pub no_ids :
      e.has_trace_context ≡ false → (c.trace_id ≡ replicate 16 0) × (c.span_id ≡ replicate 8 0)
  pub source_file : ReadsOptional c.text_arena e.source_file c.source_file
  pub source_line : c.source_line ≡ e.source_line
  pub source_function : ReadsOptional c.text_arena e.source_function c.source_function

Optional-Reads :
    (arena : Bytes) (value : CString) (o : OwnedString)
    → OptionalHolds value (scanned_optional value) arena o
    → ReadsOptional arena value o
Optional-Reads arena none o h = h
Optional-Reads arena (some s) o h = h

-- What is marked is a string whose key is one to redact, if redaction is enabled.
measured_of-should_redact :
    (cpu : Cpu) (mode : ℕ) (a : Attr) (s : Option Bytes) (len : ℕ)
    → a.value ≡ AttrValue.string s len
    → AttrBytes a
    → (measured_of cpu mode a).should_redact
      ≡ (mode == redaction_enabled && should_redact (cstr (bytes_of a.key)))
unfolding measured
measured_of-should_redact cpu mode a s len is b =
    ground
      (arith, is, key_should_redact_n-should_redact (cstr (bytes_of a.key)) (key_bytes a.key b.0))
  where
    key_bytes : (key : CString) → PointsToBytes key → IsBytes (cstr (bytes_of key))
    key_bytes none b = All-take _ _ _ tt
    key_bytes (some s) b = All-take _ _ _ b

module _ (cpu : Cpu) (mode : ℕ) where
  ValueHolds-IsCopyOfValue :
      (a : Attr) (arena : Bytes) (v : AttrValue) (o : OwnedValue)
      → a.value ≡ v
      → AttrBytes a
      → (measured_of cpu mode a).string_needs_json_escape ≡ value_flag v
      → ValueHolds (measured_of cpu mode a) v arena o
      → IsCopyOfValue mode a.key arena v o
  ValueHolds-IsCopyOfValue a arena (string s len) o is b f (t, eq, h) =
      let flags = measured_of-should_redact cpu mode a s len is b in
      (
        t,
        eq,
        λ (m, k).
            let redact : (measured_of cpu mode a).should_redact ≡ true = ground arith in
            subst (λ g. Holds redacted_literal g arena t) f (rw redact at h),
        λ plain.
            let redact : (measured_of cpu mode a).should_redact ≡ false = ground arith in
            subst (λ g. Holds (take len (bytes_of s)) g arena t) f (rw redact at h),
      )
  ValueHolds-IsCopyOfValue a arena (signed v) o is b f h = h
  ValueHolds-IsCopyOfValue a arena (unsigned v) o is b f h = h
  ValueHolds-IsCopyOfValue a arena (bool v) o is b f h = h
  ValueHolds-IsCopyOfValue a arena (double v) o is b f h = h
  ValueHolds-IsCopyOfValue a arena other o is b f h = h

  AttrsHold-AreCopiesOf :
      (arena : Bytes) (as' : List Attr) (os : List OwnedAttr)
      → All AttrBytes as'
      → AttrsHold (map (measured_of cpu mode) as') arena os
      → AreCopiesOf mode arena as' os
  unfolding measured
  AttrsHold-AreCopiesOf arena [] [] b h = tt
  AttrsHold-AreCopiesOf arena [] (o ∷ os) b h = h
  AttrsHold-AreCopiesOf arena (a ∷ as') [] b h = h
  AttrsHold-AreCopiesOf arena (a ∷ as') (o ∷ os) (b, bs) (h, hs) = (
    h.key,
    ValueHolds-IsCopyOfValue a arena a.value o.value refl b refl h.value,
    AttrsHold-AreCopiesOf arena as' os bs hs,
  )

  -- For an accepted event whose texts are byte strings and whose string values are objects of at
  -- least the given length, and where `malloc` gives the arena that is asked for and, if there are
  -- attributes, their array, the copy succeeds. The copy that it returns has the time stamp,
  -- level, trace flags and source line of the event, its trace and span identifiers or zeros
  -- without a trace context, and an arena of exactly the measured size in which the event name,
  -- the message and each optional text of the copy reads as that text of the event, and each
  -- attribute as its key and value. A string value reads the redaction literal instead if
  -- redaction is enabled and its key is one to redact. Each string of the copy says whether the
  -- text of the event has a byte that JSON wants escaped.
  pub copy_from_input-IsCopyOf :
      (alloc : Allocator) (e : Event) (mem : Bytes)
      → EventBytes e
      → All (λ a. ValueObject a.value) (attribute_list e)
      → event_passes cpu e ≡ true
      → alloc.arena_of (text_arena_size (full_plan cpu mode e)) ≡ some mem
      → length mem ≡ text_arena_size (full_plan cpu mode e)
      → (ltb 0 e.attribute_count && not alloc.array_given) ≡ false
      → (c : EventCopy) × (copy_from_input cpu alloc mode (some e) ≡ some (done c))
        × IsCopyOf mode e c
        × (length c.text_arena ≡ text_arena_size (full_plan cpu mode e))
  unfolding event_copy
  copy_from_input-IsCopyOf alloc e mem bytes objects passes given size array =
      let r =
        copy_from_input-CopiedTexts cpu alloc mode e mem bytes objects passes given size array in
      (
        event_copy e r.texts r.arena,
        r.returned,
        record {
          timestamp = refl;
          level = refl;
          event_name = r.holds.name;
          message = r.holds.message;
          logger_name = Optional-Reads r.arena e.logger r.texts.logger_name r.holds.logger;
          attributes =
              AttrsHold-AreCopiesOf r.arena (attribute_list e) r.texts.attributes bytes.attrs
                r.holds.attrs;
          has_trace_context = refl;
          trace_flags = refl;
          ids = λ h. rw h (refl, refl);
          no_ids = λ h. rw h (refl, refl);
          source_file = Optional-Reads r.arena e.source_file r.texts.source_file r.holds.file;
          source_line = refl;
          source_function =
              Optional-Reads r.arena e.source_function r.texts.source_function r.holds.function;
        },
        r.arena_size,
      )
