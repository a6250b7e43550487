-- ===== src/Json/Encode/Refine.antt =====
-- The encoder writes the record's text, whole or not at all.
use iojournal.Prelude.{
  All, Bytes, List, Option, [], arith, codes, false, if◌then◌else◌, length, ltb, none, some, sym,
  true, ℕ, ◌++◌, ◌<◌, ◌^◌, ◌∷◌, ◌≡◌, ◌≤◌,
}
use iojournal.Types.{
  EventCopy, OwnedAttr, OwnedString, OwnedValue, bool, done, double, encode_error, fail, signed,
  string, text_of, unsigned,
}
use iojournal.Simd.{Cpu}
use iojournal.Timestamp.{Gmtime, format_timestamp_rfc3339}
use iojournal.Json.{Builder}
use iojournal.Json.Decimal.{Puts-append_int64_decimal, Puts-append_uint64_decimal}
use iojournal.Json.Escaped.{Puts-append_json_key, Puts-append_json_string, json_string}
use iojournal.Json.Put.{Puts, Puts-append_char, Puts-append_raw_n, Puts-bind, put-nil}
use iojournal.Json.Encode.{
  Append, append_all, append_attr_value, append_attributes, append_key, append_logger,
  append_more_attributes, append_record, append_string, encode_body, finish, json_console_encode,
  level_to_json_literal, literal, timestamp_size,
}
use iojournal.Json.Encode.Text.{
  IsEncodable, IsEncodableString, IsEncodableValue, attribute_texts, concat, json_text, key_text,
  logger_texts, more_attribute_texts, record_texts, value_text,
}

-- Each operation writes the text at its place.
abbrev PutsAll : List Append → List Bytes → Type 0
PutsAll [] [] = Unit
PutsAll [] (t ∷ ts) = ⊥
PutsAll (m ∷ ms) [] = ⊥
PutsAll (m ∷ ms) (t ∷ ts) = Puts m t × PutsAll ms ts

PutsAll-append :
    (ms ns : List Append) (ss ts : List Bytes)
    → PutsAll ms ss
    → PutsAll ns ts
    → PutsAll (ms ++ ns) (ss ++ ts)
PutsAll-append [] ns [] ts h k = k
PutsAll-append [] ns (s ∷ ss) ts h k = absurd h
PutsAll-append (m ∷ ms) ns [] ts h k = absurd h
PutsAll-append (m ∷ ms) ns (s ∷ ss) ts h k = (h.0, PutsAll-append ms ns ss ts h.1 k)

Puts-append_all :
    (ms : List Append) (ts : List Bytes) → PutsAll ms ts → Puts (append_all ms) (concat ts)
Puts-append_all [] [] h = λ b v. sym (put-nil b v)
Puts-append_all [] (t ∷ ts) h = absurd h
Puts-append_all (m ∷ ms) [] h = absurd h
Puts-append_all (m ∷ ms) (t ∷ ts) h =
    Puts-bind m (append_all ms) t (concat ts) h.0 (Puts-append_all ms ts h.1)

module _ (cpu : Cpu) (format_double : ℕ → Bytes) (arena : Bytes) where
  Puts-append_string :
      (s : OwnedString)
      → IsEncodableString arena s
      → Puts (append_string cpu format_double arena s) (json_string (text_of arena s))
  unfolding append_string
  Puts-append_string s h = Puts-append_json_string cpu (text_of arena s) s.needs_json_escape h.0 h.1

  Puts-append_key :
      (s : OwnedString)
      → IsEncodableString arena s
      → Puts (append_key cpu format_double arena s) (key_text format_double arena s)
  unfolding append_key key_text
  Puts-append_key s h = Puts-append_json_key cpu (text_of arena s) s.needs_json_escape h.0 h.1

  Puts-append_attr_value :
      (v : OwnedValue)
      → IsEncodableValue format_double arena v
      → Puts (append_attr_value cpu format_double arena v) (value_text format_double arena v)
  unfolding append_attr_value value_text
  Puts-append_attr_value (string s) h = Puts-append_string s h
  Puts-append_attr_value (signed v) h = Puts-append_int64_decimal v h
  Puts-append_attr_value (unsigned v) h = Puts-append_uint64_decimal v h
  Puts-append_attr_value (bool true) h = Puts-append_raw_n (codes "true") (omega arith)
  Puts-append_attr_value (bool false) h = Puts-append_raw_n (codes "false") (omega arith)
  Puts-append_attr_value (double v) h =
      λ b valid. ground (arith, Puts-append_raw_n (format_double v) (omega arith) b valid)

  IsEncodableAttr : OwnedAttr → Type 0
  IsEncodableAttr a = IsEncodableString arena a.key × IsEncodableValue format_double arena a.value

  PutsAll-more_attributes :
      (as' : List OwnedAttr)
      → All (λ a. IsEncodableString arena a.key × IsEncodableValue format_double arena a.value) as'
      → PutsAll
          (append_more_attributes cpu format_double arena as')
          (more_attribute_texts format_double arena as')
  unfolding append_more_attributes more_attribute_texts
  PutsAll-more_attributes [] h = tt
  PutsAll-more_attributes (a ∷ as') h = (
    Puts-append_char b',',
    (
      Puts-append_key a.key h.0.0,
      (Puts-append_attr_value a.value h.0.1, PutsAll-more_attributes as' h.1),
    ),
  )

  PutsAll-attributes :
      (as' : List OwnedAttr)
      → All (λ a. IsEncodableString arena a.key × IsEncodableValue format_double arena a.value) as'
      → PutsAll
          (append_attributes cpu format_double arena as')
          (attribute_texts format_double arena as')
  unfolding append_attributes attribute_texts
  PutsAll-attributes [] h = tt
  PutsAll-attributes (a ∷ as') h = (
    Puts-append_raw_n (codes ",\"attributes\":{") (omega arith),
    (
      Puts-append_key a.key h.0.0,
      (
        Puts-append_attr_value a.value h.0.1,
        PutsAll-append _ _ (more_attribute_texts format_double arena as') _
            (PutsAll-more_attributes as' h.1) (Puts-append_char b'}', tt),
      ),
    ),
  )

  PutsAll-logger :
      (s : OwnedString)
      → IsEncodableString arena s
      → PutsAll (append_logger cpu format_double arena s) (logger_texts format_double arena s)
  unfolding append_logger logger_texts
  PutsAll-logger s h = go s.data_at
    where
      go :
          (o : Option ℕ)
          → PutsAll
              (elim o [
                | none ↦ []
                | some off ↦
                    literal (codes ",\"logger\":") ∷ append_string cpu format_double arena s ∷ []
              ])
              (elim o [
                | none ↦ []
                | some off ↦ codes ",\"logger\":" ∷ json_string (text_of arena s) ∷ []
              ])
      go none = tt
      go (some off) =
          (Puts-append_raw_n (codes ",\"logger\":") (omega arith), (Puts-append_string s h, tt))

length-level_to_json_literal : (l : ℕ) → length (level_to_json_literal l) ≤ 9
unfolding level_to_json_literal
length-level_to_json_literal l = ground arith

Puts-append_record :
    (cpu : Cpu) (format_double : ℕ → Bytes) (e : EventCopy) (timestamp : Bytes)
    → IsEncodable format_double e
    → length timestamp < 2 ^ 62
    → Puts
        (append_all (append_record cpu format_double e.text_arena e timestamp))
        (json_text format_double e timestamp)
unfolding append_record record_texts
Puts-append_record cpu fd e ts h small =
    Puts-append_all (append_record cpu fd e.text_arena e ts) (record_texts fd e.text_arena e ts) (
      Puts-append_raw_n (codes "{\"timestamp\":\"") (omega arith),
      (
        Puts-append_raw_n ts small,
        (
          Puts-append_raw_n (codes "\",\"level\":") (omega arith),
          (
            Puts-append_raw_n (level_to_json_literal e.level)
                (omega (arith, length-level_to_json_literal e.level)),
            (
              Puts-append_raw_n (codes ",\"event_name\":") (omega arith),
              (
                Puts-append_string cpu fd e.text_arena e.event_name h.name,
                (
                  Puts-append_raw_n (codes ",\"message\":") (omega arith),
                  (
                    Puts-append_string cpu fd e.text_arena e.message h.message,
                    PutsAll-append _ _ (logger_texts fd e.text_arena e.logger_name) _
                        (PutsAll-logger cpu fd e.text_arena e.logger_name h.logger)
                        (PutsAll-append _ _ (attribute_texts fd e.text_arena e.attributes) _
                          (PutsAll-attributes cpu fd e.text_arena e.attributes h.attributes)
                          (Puts-append_char b'}', tt)),
                  ),
                ),
              ),
            ),
          ),
        ),
      ),
    )

-- Where the time stamp can be formatted, for an event that is encodable and a buffer of 1 to 2^62
-- bytes, the JSON encoder returns exactly the abstract text of the record if that leaves room for
-- a terminator, and an encode error if not: never a part of a record.
pub json_console_encode_lem :
    (cpu : Cpu) (gmtime : Gmtime) (format_double : ℕ → Bytes) (e : EventCopy) (size : ℕ)
    {timestamp : Bytes}
    → format_timestamp_rfc3339 gmtime e.timestamp (some timestamp_size) ≡ done timestamp
    → length timestamp < 2 ^ 62
    → IsEncodable format_double e
    → 0 < size
    → size ≤ 2 ^ 62
    → json_console_encode cpu gmtime format_double (some e) (some size) ≡ (
        if ltb (length (json_text format_double e timestamp)) size
        then done (json_text format_double e timestamp)
        else fail encode_error)
unfolding json_console_encode encode_body finish
json_console_encode_lem cpu gmtime fd e size {timestamp} t short h nonempty small =
    let start : Builder = record { capacity = size; text = [] } in
    let wrote =
      Puts-append_record cpu fd e timestamp h short start
        (record { room = nonempty; small = small }) in
    rw (t, wrote) (ground arith)
