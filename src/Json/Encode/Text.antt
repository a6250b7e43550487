-- ===== src/Json/Encode/Text.antt =====
-- The record as a text: what a JSON object with the fields of an event says, with no buffer.
use iojournal.Prelude.{
  All, Bytes, List, [], codes, false, length, none, some, true, ℕ, ◌++◌, ◌<◌, ◌^◌, ◌∷◌,
}
use iojournal.Types.{
  EventCopy, OwnedAttr, OwnedString, OwnedValue, bool, double, signed, string, text_of, unsigned,
}
use iojournal.Decimal.{decimal}
use iojournal.Json.Decimal.{IsU64, signed_decimal}
use iojournal.Json.Escaped.{FlagFits, json_string}
use iojournal.Json.Encode.{level_to_json_literal, number_buffer_size}

-- The pieces of a text, one behind the other.
abbrev pub concat : List Bytes → Bytes
concat [] = []
concat (s ∷ ss) = s ++ concat ss

module _ (format_double : ℕ → Bytes) (arena : Bytes) where
  unfoldable pub value_text : OwnedValue → Bytes
  value_text (string s) = json_string (text_of arena s)
  value_text (signed v) = signed_decimal v
  value_text (unsigned v) = decimal v
  value_text (bool true) = codes "true"
  value_text (bool false) = codes "false"
  value_text (double v) = format_double v

  unfoldable pub key_text : OwnedString → Bytes
  key_text s = json_string (text_of arena s) ++ b':' ∷ []

  unfoldable pub more_attribute_texts : List OwnedAttr → List Bytes
  more_attribute_texts [] = []
  more_attribute_texts (a ∷ as') =
      (b',' ∷ []) ∷ key_text a.key ∷ value_text a.value ∷ more_attribute_texts as'

  unfoldable pub attribute_texts : List OwnedAttr → List Bytes
  attribute_texts [] = []
  attribute_texts (a ∷ as') =
      codes ",\"attributes\":{"
      ∷ key_text a.key
      ∷ value_text a.value
      ∷ (more_attribute_texts as' ++ (b'}' ∷ []) ∷ [])

  unfoldable pub logger_texts : OwnedString → List Bytes
  logger_texts s = elim s.data_at [
    | none ↦ []
    | some off ↦ codes ",\"logger\":" ∷ json_string (text_of arena s) ∷ []
  ]

  unfoldable pub record_texts : EventCopy → Bytes → List Bytes
  record_texts e timestamp =
      codes "{\"timestamp\":\""
      ∷ timestamp
      ∷ codes "\",\"level\":"
      ∷ level_to_json_literal e.level
      ∷ codes ",\"event_name\":"
      ∷ json_string (text_of arena e.event_name)
      ∷ codes ",\"message\":"
      ∷ json_string (text_of arena e.message)
      ∷ (logger_texts e.logger_name ++ (attribute_texts e.attributes ++ (b'}' ∷ []) ∷ []))

-- The record of an event with a formatted time stamp.
abbrev pub json_text : (ℕ → Bytes) → EventCopy → Bytes → Bytes
json_text format_double e timestamp = concat (record_texts format_double e.text_arena e timestamp)

-- A string of a copied event: its flag fits its text, and it is an object of C.
abbrev pub IsEncodableString : Bytes → OwnedString → Type 0
IsEncodableString arena s =
    FlagFits (text_of arena s) s.needs_json_escape × (length (text_of arena s) < 2 ^ 61)

abbrev pub IsEncodableValue : (ℕ → Bytes) → Bytes → OwnedValue → Type 0
IsEncodableValue format_double arena (string s) = IsEncodableString arena s
IsEncodableValue format_double arena (signed v) = IsU64 v
IsEncodableValue format_double arena (unsigned v) = IsU64 v
IsEncodableValue format_double arena (bool v) = Unit
IsEncodableValue format_double arena (double v) = length (format_double v) < number_buffer_size

-- What an encoder may count on in an event: flags that fit the texts, 64-bit numbers, and doubles
-- whose notation fits the array that `snprintf` writes to.
pub record IsEncodable (format_double : ℕ → Bytes) (e : EventCopy) : Type 0 where
  pub name : IsEncodableString e.text_arena e.event_name
  pub message : IsEncodableString e.text_arena e.message
  pub logger : IsEncodableString e.text_arena e.logger_name
  pub attributes :
      All
        (λ a.
          IsEncodableString e.text_arena a.key
          × IsEncodableValue format_double e.text_arena a.value)
        e.attributes
