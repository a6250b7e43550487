-- ===== src/Json/Encode/Line.antt =====
-- src/encoders/ij_ndjson.c: one record, one line.
use iojournal.Prelude.{
  All, All-append, Bool-cases, Bytes, List, Option, [], arith, codes, false, if◌then◌else◌, inl,
  inr, leb, length, none, some, true, ℕ, ◌++◌, ◌+◌, ◌-◌, ◌<◌, ◌^◌, ◌∷◌, ◌≡◌, ◌≤◌,
}
use iojournal.Types.{
  EventCopy, OwnedAttr, OwnedString, OwnedValue, bool, done, double, encode_error, fail, signed,
  string, text_of, unsigned,
}
use iojournal.Simd.{Cpu}
use iojournal.Decimal.{IsDigit, decimal, decimal-IsDigit}
use iojournal.Timestamp.{Gmtime, format_timestamp_rfc3339}
use iojournal.Timestamp.Fields.{IsVisible, format_timestamp-IsVisible}
use iojournal.Json.Decimal.{signed_decimal}
use iojournal.Json.Escaped.{escaped, json_string}
use iojournal.Json.Escaped.RoundTrip.{IsPrintable, escaped-IsPrintable}
use iojournal.Json.Encode.{level_to_json_literal, ndjson_encode, timestamp_size}
use iojournal.Json.Encode.Text.{
  IsEncodable, attribute_texts, concat, json_text, key_text, logger_texts, more_attribute_texts,
  record_texts, value_text,
}
use iojournal.Json.Encode.Refine.{json_console_encode_lem}

concat-IsPrintable : (ss : List Bytes) → All IsPrintable ss → IsPrintable (concat ss)
concat-IsPrintable [] h = tt
concat-IsPrintable (s ∷ ss) h = All-append _ s (concat ss) h.0 (concat-IsPrintable ss h.1)

json_string-IsPrintable : (s : Bytes) → IsPrintable (json_string s)
json_string-IsPrintable s =
    (omega arith, All-append _ (escaped s) (b'"' ∷ []) (escaped-IsPrintable s) (omega arith))

IsDigit-IsPrintable : (s : Bytes) → All IsDigit s → IsPrintable s
IsDigit-IsPrintable [] h = tt
IsDigit-IsPrintable (c ∷ s) h = (omega arith, IsDigit-IsPrintable s h.1)

IsVisible-IsPrintable : (s : Bytes) → All IsVisible s → IsPrintable s
IsVisible-IsPrintable [] h = tt
IsVisible-IsPrintable (c ∷ s) h = (omega (arith, h.0.0), IsVisible-IsPrintable s h.1)

decimal-IsPrintable : (v : ℕ) → IsPrintable (decimal v)
decimal-IsPrintable v = IsDigit-IsPrintable (decimal v) (decimal-IsDigit v)

signed_decimal-IsPrintable : (v : ℕ) → IsPrintable (signed_decimal v)
signed_decimal-IsPrintable v = elim (Bool-cases (leb (2 ^ 63) v)) [
  | inl n ↦ rw n (omega arith, decimal-IsPrintable (2 ^ 64 - v))
  | inr p ↦ rw p (decimal-IsPrintable v)
]

level-IsPrintable : (l : ℕ) → IsPrintable (level_to_json_literal l)
unfolding level_to_json_literal
level-IsPrintable l = ground arith

module _ (fd : ℕ → Bytes) (fd-IsPrintable : (v : ℕ) → IsPrintable (fd v)) (arena : Bytes) where
  value_text-IsPrintable : (v : OwnedValue) → IsPrintable (value_text fd arena v)
  unfolding value_text
  value_text-IsPrintable (string s) = json_string-IsPrintable (text_of arena s)
  value_text-IsPrintable (signed v) = signed_decimal-IsPrintable v
  value_text-IsPrintable (unsigned v) = decimal-IsPrintable v
  value_text-IsPrintable (bool true) = omega arith
  value_text-IsPrintable (bool false) = omega arith
  value_text-IsPrintable (double v) = fd-IsPrintable v

  key_text-IsPrintable : (s : OwnedString) → IsPrintable (key_text fd arena s)
  unfolding key_text
  key_text-IsPrintable s =
      All-append _ (json_string (text_of arena s)) (b':' ∷ [])
        (json_string-IsPrintable (text_of arena s)) (omega arith)

  more-IsPrintable : (as' : List OwnedAttr) → All IsPrintable (more_attribute_texts fd arena as')
  unfolding more_attribute_texts
  more-IsPrintable [] = tt
  more-IsPrintable (a ∷ as') = (
    omega arith,
    (key_text-IsPrintable a.key, (value_text-IsPrintable a.value, more-IsPrintable as')),
  )

  attributes-IsPrintable : (as' : List OwnedAttr) → All IsPrintable (attribute_texts fd arena as')
  unfolding attribute_texts
  attributes-IsPrintable [] = tt
  attributes-IsPrintable (a ∷ as') = (
    omega arith,
    (
      key_text-IsPrintable a.key,
      (
        value_text-IsPrintable a.value,
        All-append _ (more_attribute_texts fd arena as') ((b'}' ∷ []) ∷ []) (more-IsPrintable as')
            (omega arith),
      ),
    ),
  )

  logger-IsPrintable : (s : OwnedString) → All IsPrintable (logger_texts fd arena s)
  unfolding logger_texts
  logger-IsPrintable s = go s.data_at
    where
      go :
          (o : Option ℕ)
          → All IsPrintable (elim o [
            | none ↦ []
            | some off ↦ codes ",\"logger\":" ∷ json_string (text_of arena s) ∷ []
          ])
      go none = tt
      go (some off) = (omega arith, (json_string-IsPrintable (text_of arena s), tt))

json_text-IsPrintable :
    (fd : ℕ → Bytes) (e : EventCopy) (timestamp : Bytes)
    → ((v : ℕ) → IsPrintable (fd v))
    → All IsVisible timestamp
    → IsPrintable (json_text fd e timestamp)
unfolding record_texts
json_text-IsPrintable fd e ts p t = concat-IsPrintable (record_texts fd e.text_arena e ts) (
  omega arith,
  (
    IsVisible-IsPrintable ts t,
    (
      omega arith,
      (
        level-IsPrintable e.level,
        (
          omega arith,
          (
            json_string-IsPrintable (text_of e.text_arena e.event_name),
            (
              omega arith,
              (
                json_string-IsPrintable (text_of e.text_arena e.message),
                All-append _ (logger_texts fd e.text_arena e.logger_name) _
                    (logger-IsPrintable fd p e.text_arena e.logger_name)
                    (All-append _ (attribute_texts fd e.text_arena e.attributes) ((b'}' ∷ []) ∷ [])
                      (attributes-IsPrintable fd p e.text_arena e.attributes) (omega arith)),
              ),
            ),
          ),
        ),
      ),
    ),
  ),
)

-- Where the time stamp can be formatted, for an event that is encodable and a buffer of 1 to 2^62
-- bytes, the NDJSON encoder returns the text of the record with one line feed behind it if both
-- and a terminator fit, and an encode error if not. The record itself holds no control character,
-- so no line feed, if the notation of a double has none.
pub ndjson_encode_lem :
    (cpu : Cpu) (gmtime : Gmtime) (format_double : ℕ → Bytes) (e : EventCopy) (size : ℕ)
    {timestamp : Bytes}
    → format_timestamp_rfc3339 gmtime e.timestamp (some timestamp_size) ≡ done timestamp
    → IsEncodable format_double e
    → ((v : ℕ) → IsPrintable (format_double v))
    → 0 < size
    → size ≤ 2 ^ 62
    → (ndjson_encode cpu gmtime format_double (some e) (some size) ≡ (
        if leb (length (json_text format_double e timestamp) + 2) size
        then done (json_text format_double e timestamp ++ b'\n' ∷ [])
        else fail encode_error))
      × IsPrintable (json_text format_double e timestamp)
unfolding ndjson_encode
ndjson_encode_lem cpu gmtime fd e size {timestamp} t h p nonempty small =
    let v = format_timestamp-IsVisible gmtime e.timestamp (some timestamp_size) t in
    (
      ground (
        arith,
        json_console_encode_lem cpu gmtime fd e size t (omega (arith, v.0)) h nonempty small,
      ),
      json_text-IsPrintable fd e timestamp p v.1,
    )
