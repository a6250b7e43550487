-- ===== src/Json/Escaped/Read.antt =====
-- A reader of JSON strings, as RFC 8259 section 7 defines them. It does not stand in the program: it
-- says what the escaped text means to whoever reads the log. A `\u` escape of a surrogate is
-- refused, since the encoder writes none.
use iojournal.Prelude.{
  Bytes, Option, [], false, if◌then◌else◌, length, ltb, none, some, suc, true, within, zero, ℕ, ◌*◌,
  ◌++◌, ◌+◌, ◌-◌, ◌==◌, ◌||◌, ◌∷◌,
}
use iojournal.Utf8.Spec.{encode}

unfoldable pub hex_value : ℕ → Option ℕ
hex_value c =
    if within b'0' b'9' c
    then some (c - b'0')
    else if within b'a' b'f' c
    then some (c - b'a' + 10)
    else if within b'A' b'F' c
    then some (c - b'A' + 10)
    else none

-- The value of four hexadecimal digits.
unfoldable pub hex4 : ℕ → ℕ → ℕ → ℕ → Option ℕ
hex4 a b c d = elim (hex_value a) [
  | none ↦ none
  | some w ↦ elim (hex_value b) [
    | none ↦ none
    | some x ↦ elim (hex_value c) [
      | none ↦ none
      | some y ↦ elim (hex_value d) [
        | none ↦ none
        | some z ↦ some (w * 4096 + x * 256 + y * 16 + z)
      ]
    ]
  ]
]

abbrev pub Parsed : Type 0
Parsed = Option (Bytes × Bytes)

abbrev pub prepend : Bytes → Parsed → Parsed
prepend t none = none
prepend t (some (s, rest)) = some (t ++ s, rest)

-- a `\u` escape of the code point `v`, in front of what `next` reads
unfoldable pub read_point : Option ℕ → Parsed → Parsed
read_point none next = none
read_point (some v) next = if within 0xd800 0xdfff v then none else prepend (encode v) next

unfoldable pub read_unicode : (Bytes → Parsed) → Bytes → Parsed
read_unicode next (a ∷ b ∷ c ∷ d ∷ s) = read_point (hex4 a b c d) (next s)
read_unicode next _ = none

-- what stands behind a backslash
unfoldable pub read_escape : (Bytes → Parsed) → Bytes → Parsed
read_escape next [] = none
read_escape next (d ∷ s) =
    if d == b'"' || d == b'\\' || d == b'/'
    then prepend (d ∷ []) (next s)
    else if d == b'b'
    then prepend (8 ∷ []) (next s)
    else if d == b'f'
    then prepend (12 ∷ []) (next s)
    else if d == b'n'
    then prepend (10 ∷ []) (next s)
    else if d == b'r'
    then prepend (13 ∷ []) (next s)
    else if d == b't'
    then prepend (9 ∷ []) (next s)
    else if d == b'u'
    then read_unicode next s
    else none

-- The characters of a string up to the closing quotation mark, and what stands behind that. A
-- control character is refused. On fuel: one unit for each character.
unfoldable pub read_chars : ℕ → Bytes → Parsed
read_chars zero s = none
read_chars (suc f) [] = none
read_chars (suc f) (c ∷ s) = elim (c == b'"') [
  | true ↦ some ([], s)
  | false ↦ elim (c == b'\\') [
    | true ↦ read_escape (read_chars f) s
    | false ↦ elim (ltb c 0x20) [ true ↦ none | false ↦ prepend (c ∷ []) (read_chars f s) ]
  ]
]

-- A whole string, with its quotation marks, and what stands behind it. No string has more
-- characters than the text has bytes.
unfoldable pub read_string : Bytes → Parsed
unfolding read_chars read_escape read_unicode read_point hex4 hex_value
read_string [] = none
read_string (c ∷ s) = if c == b'"' then read_chars (suc (length s)) s else none
