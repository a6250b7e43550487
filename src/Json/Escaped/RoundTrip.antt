-- ===== src/Json/Escaped/RoundTrip.antt =====
-- A reader of JSON gets back the text that the encoder was given, and the escaped text has no
-- control character.
use iojournal.Prelude.{
  ==_iff, All, All-append, Bool, Bytes, [], ap, append_assoc, arith, bit_and, holds_at, holds_up_to,
  length, length-append, refl, some, suc, zero, ℕ, ◌%◌, ◌++◌, ◌+◌, ◌/◌, ◌<◌, ◌==◌, ◌^◌, ◌∙◌, ◌∷◌,
  ◌≡◌, ◌≤◌,
}
use iojournal.Utf8.Spec.{encode}
use iojournal.Json.{Builder, append_json_string_known_escape, hex_digit, push}
use iojournal.Json.Escaped.{FlagFits, Puts-append_json_string, escape_byte, escaped, json_string}
use iojournal.Json.Escaped.Read.{
  hex4, hex_value, prepend, read_chars, read_escape, read_point, read_string, read_unicode,
}
use iojournal.Simd.{Cpu}
use iojournal.Json.Put.{IsValid}

hex_value-hex_digit : (v : ℕ) → v < 16 → hex_value (hex_digit v) ≡ some v
unfolding hex_value hex_digit
hex_value-hex_digit v h = ground arith

low_nibble : (c : ℕ) → c < 256 → bit_and c 0x0f ≡ c % 16
unfolding holds_up_to
low_nibble c h = (==_iff _ _).0 (holds_at (λ d. bit_and d 0x0f == d % 16) 256 c h refl)

hex4-control :
    (c : ℕ) → c < 0x20 → hex4 b'0' b'0' (hex_digit (c / 16)) (hex_digit (bit_and c 0x0f)) ≡ some c
unfolding hex4
hex4-control c h =
    let zero_digit : hex_value b'0' ≡ some 0 = unfold hex_value in refl in
    ground (
      arith,
      zero_digit,
      low_nibble c (omega arith),
      hex_value-hex_digit (c / 16) (omega arith),
      hex_value-hex_digit (c % 16) (omega arith),
    )

-- one character
read_chars-escape_byte :
    (f c : ℕ) (s : Bytes)
    → read_chars (suc f) (escape_byte c ++ s) ≡ prepend (c ∷ []) (read_chars f s)
unfolding read_chars escape_byte read_escape read_unicode read_point encode
read_chars-escape_byte f c s = ground (arith, hex4-control c)

read_chars-escaped :
    (s rest : Bytes) (f : ℕ)
    → length s < f
    → read_chars f (escaped s ++ b'"' ∷ rest) ≡ some (s, rest)
unfolding escaped
read_chars-escaped s rest zero h = absurd (omega arith)
read_chars-escaped [] rest (suc f) h = unfold read_chars in refl
read_chars-escaped (c ∷ s) rest (suc f) h =
    rw (append_assoc (escape_byte c) (escaped s) (b'"' ∷ rest)) (
      read_chars-escape_byte f c (escaped s ++ b'"' ∷ rest)
      ∙ ap (prepend (c ∷ [])) (read_chars-escaped s rest f (omega arith)))

length-escaped : (s : Bytes) → length s ≤ length (escaped s)
unfolding escaped escape_byte
length-escaped [] = omega arith
length-escaped (c ∷ s) = ground (arith, length-append (escape_byte c) (escaped s), length-escaped s)

-- A reader of JSON takes the string that the encoder writes for a text back to that text, and stops
-- behind its closing quotation mark.
pub read_string-json_string :
    (s rest : Bytes) → read_string (json_string s ++ rest) ≡ some (s, rest)
unfolding read_string
read_string-json_string s rest = rw (append_assoc (escaped s) (b'"' ∷ []) rest) (
    read_chars-escaped s rest (suc (length (escaped s ++ b'"' ∷ rest)))
      (omega (arith, length-escaped s, length-append (escaped s) (b'"' ∷ rest))))

-- Where there is room for the JSON string and a terminator in a valid builder, and the flag fits,
-- a text below 2^61 bytes that is appended as a JSON string is read back by a reader of JSON
-- strings from what was appended, whatever follows it.
pub append_json_string-read_string :
    (cpu : Cpu) (s : Bytes) (flag : Bool) (b : Builder) (rest : Bytes)
    → FlagFits s flag
    → length s < 2 ^ 61
    → IsValid b
    → length b.text + length (json_string s) < b.capacity
    → (t : Bytes) × (append_json_string_known_escape cpu s flag b ≡ some (push b t))
      × (read_string (t ++ rest) ≡ some (s, rest))
append_json_string-read_string cpu s flag b rest fits small valid room = (
  json_string s,
  ground (arith, Puts-append_json_string cpu s flag fits small b valid),
  read_string-json_string s rest,
)

-- No byte of the text is a control character.
abbrev pub IsPrintable : Bytes → Type 0
IsPrintable = All (λ c. 0x20 ≤ c)

escape_byte-IsPrintable : (c : ℕ) → IsPrintable (escape_byte c)
unfolding escape_byte hex_digit
escape_byte-IsPrintable c = ground arith

pub escaped-IsPrintable : (s : Bytes) → IsPrintable (escaped s)
unfolding escaped
escaped-IsPrintable [] = tt
escaped-IsPrintable (c ∷ s) =
    All-append _ (escape_byte c) (escaped s) (escape_byte-IsPrintable c) (escaped-IsPrintable s)
