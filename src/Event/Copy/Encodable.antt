-- ===== src/Event/Copy/Encodable.antt =====
-- A copied event is one that the encoders may count on.
use iojournal.Prelude.{
  All, Bool, Bytes, List, Option, [], arith, drop, false, if◌then◌else◌, length, length-drop,
  length-take, ltb, map, none, not, refl, some, suc, sym, take, true, zero, ℕ, ◌&&◌, ◌<◌, ◌^◌, ◌∙◌,
  ◌∷◌, ◌≡◌, ◌≤◌,
}
use iojournal.Types.{
  Attr, AttrValue, CString, Event, EventCopy, OwnedAttr, OwnedString, OwnedValue, bool, done,
  double, encode_error, fail, other, signed, string, unsigned,
}
use iojournal.Simd.{Cpu}
use iojournal.Escape.{is_special}
use iojournal.Escape.Scan.{has_special}
use iojournal.Timestamp.{Gmtime, format_timestamp_rfc3339}
use iojournal.Json.Decimal.{IsU64}
use iojournal.Json.Encode.{json_console_encode, number_buffer_size, timestamp_size}
use iojournal.Json.Encode.Text.{IsEncodable, IsEncodableString, IsEncodableValue, json_text}
use iojournal.Json.Encode.Refine.{json_console_encode_lem}
use iojournal.Event.{attribute_list, event_passes}
use iojournal.Event.Copy.{
  Allocator, Measured, Texts, bytes_of, copy_from_input, event_copy, measured, text_arena_size,
}
use iojournal.Event.Copy.Accept.{value_flag}
use iojournal.Event.Copy.Verdict.{EventBytes, scanned_optional}
use iojournal.Event.Copy.Measure.{measured_of}
use iojournal.Event.Copy.Contents.{Holds, text_of-Holds}
use iojournal.Event.Copy.Contents.Whole.{ValueHolds, ValueObject, value_copy}
use iojournal.Event.Copy.Contents.Texts.{AttrsHold}
use iojournal.Event.Copy.Contents.Fields.{OptionalHolds, TextsHold}
use iojournal.Event.Copy.Contents.Total.{copy_from_input-CopiedTexts, full_plan}

-- A number is one of 64 bits, and the notation of a double fits the array of the encoder.
abbrev pub NumberFits : (ℕ → Bytes) → AttrValue → Type 0
NumberFits format_double (signed v) = IsU64 v
NumberFits format_double (unsigned v) = IsU64 v
NumberFits format_double (double v) = length (format_double v) < number_buffer_size
NumberFits format_double _ = Unit

module _ (d : Bytes) (small : length d < 2 ^ 61) where
  Holds-IsEncodableString :
      (t : Bytes) (flag : Bool) (s : OwnedString)
      → (flag ≡ false → has_special t ≡ false)
      → Holds t flag d s
      → IsEncodableString d s
  Holds-IsEncodableString t flag s fits h = (
    λ e. rw (text_of-Holds t flag d s h) (fits (sym h.flagged ∙ e)),
    rw h.data_is (
        omega (
          arith,
          h.inside,
          length-take s.len (drop h.off d) (omega (arith, h.inside, length-drop h.off d)),
        )),
  )

  OptionalHolds-IsEncodableString :
      (value : CString) (s : OwnedString)
      → OptionalHolds value (scanned_optional value) d s
      → IsEncodableString d s
  OptionalHolds-IsEncodableString none s h = rw h ((λ _. unfold has_special in refl), omega arith)
  OptionalHolds-IsEncodableString (some b) s h = Holds-IsEncodableString _ _ s (λ e. e) h

  value_copy-fits :
      (redact : Bool) (value : Option Bytes) (len : ℕ)
      → value_flag (AttrValue.string value len) ≡ false
      → has_special (value_copy redact (take len (bytes_of value))) ≡ false
  unfolding has_special is_special
  value_copy-fits true value len e = refl
  value_copy-fits false (some s) len e = e
  value_copy-fits false none zero e = refl
  value_copy-fits false none (suc len) e = refl

  module _ (format_double : ℕ → Bytes) (cpu : Cpu) (mode : ℕ) where
    ValueHolds-IsEncodableValue :
        (m : Measured) (v : AttrValue) (o : OwnedValue)
        → m.string_needs_json_escape ≡ value_flag v
        → NumberFits format_double v
        → ValueHolds m v d o
        → IsEncodableValue format_double d o
    ValueHolds-IsEncodableValue m (string s len) o f n (t, eq, h) =
        rw eq
          (Holds-IsEncodableString _ _ t (λ e. value_copy-fits m.should_redact s len (sym f ∙ e)) h)
    ValueHolds-IsEncodableValue m (signed v) o f n h = rw h n
    ValueHolds-IsEncodableValue m (unsigned v) o f n h = rw h n
    ValueHolds-IsEncodableValue m (bool v) o f n h = rw h tt
    ValueHolds-IsEncodableValue m (double v) o f n h = rw h n
    ValueHolds-IsEncodableValue m other o f n h = absurd h

    AttrsHold-IsEncodable :
        (as' : List Attr) (os : List OwnedAttr)
        → All (λ a. NumberFits format_double a.value) as'
        → AttrsHold (map (measured_of cpu mode) as') d os
        → All (λ a. IsEncodableString d a.key × IsEncodableValue format_double d a.value) os
    unfolding measured
    AttrsHold-IsEncodable [] [] n h = tt
    AttrsHold-IsEncodable [] (o ∷ os) n h = absurd h
    AttrsHold-IsEncodable (a ∷ as') [] n h = absurd h
    AttrsHold-IsEncodable (a ∷ as') (o ∷ os) (n, ns) (h, hs) = (
      (
        Holds-IsEncodableString _ _ o.key (λ e. e) h.key,
        ValueHolds-IsEncodableValue (measured_of cpu mode a) a.value o.value refl n h.value,
      ),
      AttrsHold-IsEncodable as' os ns hs,
    )

module _ (cpu : Cpu) (mode : ℕ) (format_double : ℕ → Bytes) (e : Event) where
  -- What is copied of an event can be encoded.
  TextsHold-IsEncodable :
      (t : Texts) (arena : Bytes)
      → length arena < 2 ^ 61
      → All (λ a. NumberFits format_double a.value) (attribute_list e)
      → TextsHold e (full_plan cpu mode e) arena t
      → IsEncodable format_double (event_copy e t arena)
  unfolding event_copy
  TextsHold-IsEncodable t arena small numbers h = record {
    name = Holds-IsEncodableString arena small _ _ t.event_name (λ eq. eq) h.name;
    message = Holds-IsEncodableString arena small _ _ t.message (λ eq. eq) h.message;
    logger = OptionalHolds-IsEncodableString arena small e.logger t.logger_name h.logger;
    attributes =
        AttrsHold-IsEncodable arena small format_double cpu mode (attribute_list e) t.attributes
          numbers h.attrs;
  }

  -- For an accepted event whose texts are byte strings, whose string values are objects of at
  -- least the given length, whose numbers are of 64 bits and whose doubles have a notation that
  -- fits the array of the encoder, with the memory given that is asked for and below 2^61 bytes, a
  -- time stamp that can be formatted, and a buffer of 1 to 2^62 bytes: the copy succeeds, and the
  -- JSON encoder returns the whole text of the copied event if that leaves room for a terminator,
  -- and an encode error if not.
  pub copy_from_input-json_console_encode :
      (alloc : Allocator) (gmtime : Gmtime) (mem : Bytes) (size : ℕ) {timestamp : Bytes}
      → EventBytes e
      → All (λ a. ValueObject a.value) (attribute_list e)
      → All (λ a. NumberFits format_double a.value) (attribute_list e)
      → event_passes cpu e ≡ true
      → alloc.arena_of (text_arena_size (full_plan cpu mode e)) ≡ some mem
      → length mem ≡ text_arena_size (full_plan cpu mode e)
      → length mem < 2 ^ 61
      → (ltb 0 e.attribute_count && not alloc.array_given) ≡ false
      → format_timestamp_rfc3339 gmtime e.timestamp (some timestamp_size) ≡ done timestamp
      → length timestamp < 2 ^ 62
      → 0 < size
      → size ≤ 2 ^ 62
      → (c : EventCopy) × (copy_from_input cpu alloc mode (some e) ≡ some (done c))
        × (json_console_encode cpu gmtime format_double (some c) (some size) ≡ (
            if ltb (length (json_text format_double c timestamp)) size
            then done (json_text format_double c timestamp)
            else fail encode_error))
  copy_from_input-json_console_encode alloc gmtime mem size {timestamp} bytes objects numbers passes
        given measured small array stamp short nonempty limit =
      let r =
        copy_from_input-CopiedTexts cpu alloc mode e mem bytes objects passes given measured
          array in
      let c = event_copy e r.texts r.arena in
      let time : format_timestamp_rfc3339 gmtime c.timestamp (some timestamp_size)
          ≡ done timestamp =
        unfold event_copy in stamp in
      (
        c,
        r.returned,
        json_console_encode_lem cpu gmtime format_double c size time short
            (TextsHold-IsEncodable r.texts r.arena (omega (arith, r.arena_size, measured, small))
              numbers r.holds)
            nonempty limit,
      )
