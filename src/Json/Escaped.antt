-- ===== src/Json/Escaped.antt =====
-- The escaped text of a JSON string, and the string operations of the builder against it.
pub mod Read
pub mod RoundTrip
use iojournal.Prelude.{
  Bool, Bytes, [], append_assoc, arith, bit_and, drop, false, if◌then◌else◌, length, length-append,
  length-drop, length-take, ltb, refl, some, suc, sym, take, true, zero, ℕ, ◌++◌, ◌+◌, ◌/◌, ◌<◌,
  ◌==◌, ◌^◌, ◌∷◌, ◌≡◌, ◌≤◌,
}
use iojournal.Simd.{Cpu}
use iojournal.Escape.{is_special, scalar_find_first_special}
use iojournal.Escape.Scan.{find_first_special-eq_scalar, has_special, scalar_find_first_special-le}
use iojournal.Json.{
  append_char, append_control_escape, append_escaped_loop, append_escaped_string_n,
  append_json_key_known_escape, append_json_string_known_escape, append_plain, append_special,
  hex_digit, ◌▷◌,
}
use iojournal.Json.Put.{
  IsObject, Puts, Puts-append_char, Puts-append_raw_n, Puts-bind, can_append_lem, put-nil,
}

-- What stands for one byte inside a JSON string.
unfoldable pub escape_byte : ℕ → Bytes
escape_byte c =
    if c == b'\\'
    then b'\\' ∷ b'\\' ∷ []
    else if c == b'"'
    then b'\\' ∷ b'"' ∷ []
    else if c == b'\n'
    then b'\\' ∷ b'n' ∷ []
    else if c == b'\r'
    then b'\\' ∷ b'r' ∷ []
    else if c == b'\t'
    then b'\\' ∷ b't' ∷ []
    else if ltb c 0x20
    then b'\\' ∷ b'u' ∷ b'0' ∷ b'0' ∷ hex_digit (c / 16) ∷ hex_digit (bit_and c 0x0f) ∷ []
    else c ∷ []

unfoldable pub escaped : Bytes → Bytes
unfolding escape_byte hex_digit
escaped [] = []
escaped (c ∷ s) = escape_byte c ++ escaped s

-- A JSON string: quoted and escaped.
abbrev pub json_string : Bytes → Bytes
json_string s = b'"' ∷ (escaped s ++ b'"' ∷ [])

escape_byte-plain : (c : ℕ) → is_special c ≡ false → escape_byte c ≡ c ∷ []
unfolding escape_byte is_special
escape_byte-plain c h = ground arith

pub escaped-plain : (s : Bytes) → has_special s ≡ false → escaped s ≡ s
unfolding escaped has_special
escaped-plain [] h = refl
escaped-plain (c ∷ s) h = ground (arith, escape_byte-plain c, escaped-plain s)

-- The scan splits a text where its first escape stands.
escaped-scan :
    (s : Bytes)
    → take (scalar_find_first_special s) s ++ escaped (drop (scalar_find_first_special s) s)
      ≡ escaped s
unfolding escaped scalar_find_first_special
escaped-scan [] = refl
escaped-scan (c ∷ s) = ground (arith, escape_byte-plain c, escaped-scan s)

Puts-append_special : (c : ℕ) → Puts (append_special c) (escape_byte c)
unfolding append_special escape_byte append_control_escape
Puts-append_special c b v = ground (
  arith,
  Puts-append_raw_n (b'\\' ∷ b'\\' ∷ []) (omega arith) b v,
  Puts-append_raw_n (b'\\' ∷ b'"' ∷ []) (omega arith) b v,
  Puts-append_raw_n (b'\\' ∷ b'n' ∷ []) (omega arith) b v,
  Puts-append_raw_n (b'\\' ∷ b'r' ∷ []) (omega arith) b v,
  Puts-append_raw_n (b'\\' ∷ b't' ∷ []) (omega arith) b v,
  Puts-append_raw_n
      (b'\\' ∷ b'u' ∷ b'0' ∷ b'0' ∷ hex_digit (c / 16) ∷ hex_digit (bit_and c 0x0f) ∷ [])
      (omega arith) b v,
  Puts-append_char c b v,
)

Puts-append_plain : (s : Bytes) → IsObject s → Puts (append_plain s) s
unfolding append_plain
Puts-append_plain [] h = λ b v. sym (put-nil b v)
Puts-append_plain (c ∷ s) h = Puts-append_raw_n (c ∷ s) h

module _ (cpu : Cpu) where
  -- the part of a round behind the plain bytes
  Puts-rest :
      (f : ℕ)
      → ((r : Bytes) → length r ≤ f → IsObject r → Puts (append_escaped_loop cpu f r) (escaped r))
      → (s : Bytes) → length s ≤ suc f
      → IsObject s
      → Puts
          (λ b. elim s [
            | [] ↦ some b
            | d ∷ rest ↦ append_special d b ▷ append_escaped_loop cpu f rest
          ])
          (escaped s)
  unfolding escaped
  Puts-rest f ih [] h o = λ b v. sym (put-nil b v)
  Puts-rest f ih (d ∷ s) h o =
      Puts-bind (append_special d) (append_escaped_loop cpu f s) (escape_byte d) (escaped s)
        (Puts-append_special d) (ih s (omega arith) (omega arith))

  Puts-append_escaped_loop :
      (f : ℕ) (s : Bytes)
      → length s ≤ f
      → IsObject s
      → Puts (append_escaped_loop cpu f s) (escaped s)
  unfolding append_escaped_loop
  Puts-append_escaped_loop f [] h o = unfold escaped in λ b v. sym (put-nil b v)
  Puts-append_escaped_loop zero (c ∷ s) h o = absurd (omega arith)
  Puts-append_escaped_loop (suc f) (c ∷ s) h o =
      let k = scalar_find_first_special (c ∷ s) in
      let short : k ≤ length (c ∷ s) = scalar_find_first_special-le (c ∷ s) in
      rw (find_first_special-eq_scalar, ← escaped-scan (c ∷ s))
        (Puts-bind (append_plain (take k (c ∷ s))) _ (take k (c ∷ s)) (escaped (drop k (c ∷ s)))
          (Puts-append_plain (take k (c ∷ s)) (omega (arith, length-take k (c ∷ s) short)))
          (Puts-rest f (Puts-append_escaped_loop f) (drop k (c ∷ s))
            (omega (arith, length-drop k (c ∷ s))) (omega (arith, length-drop k (c ∷ s)))))

abbrev quote : Bytes
quote = b'"' ∷ []

-- The slow path of a string.
Puts-slow :
    (cpu : Cpu) (s : Bytes)
    → length s < 2 ^ 61
    → Puts (append_json_string_known_escape cpu s true) (json_string s)
unfolding append_json_string_known_escape append_escaped_string_n
Puts-slow cpu s o =
    Puts-bind _ (append_char b'"') (quote ++ escaped s) quote
      (Puts-bind (append_char b'"') (append_escaped_loop cpu (length s) s) quote (escaped s)
        (Puts-append_char b'"')
        (Puts-append_escaped_loop cpu (length s) s (omega arith) (omega arith)))
      (Puts-append_char b'"')

-- A text may be said to need no escape only if it needs none.
abbrev pub FlagFits : Bytes → Bool → Type 0
FlagFits s flag = flag ≡ false → has_special s ≡ false

-- With a flag that fits and a text below 2^61 bytes, a string is written to a valid builder as the
-- JSON string of the text, whole or not at all, on the fast path and on the slow one.
pub Puts-append_json_string :
    (cpu : Cpu) (s : Bytes) (flag : Bool)
    → FlagFits s flag
    → length s < 2 ^ 61
    → Puts (append_json_string_known_escape cpu s flag) (json_string s)
Puts-append_json_string cpu s true h o = Puts-slow cpu s o
Puts-append_json_string cpu s false h o =
    unfold append_json_string_known_escape in
    λ b v. ground (
      arith,
      can_append_lem b (length s + 2) v (omega arith),
      escaped-plain s (h refl),
      length-append s (b'"' ∷ []),
    )

-- A key is written as the JSON string of the text with a colon behind it.
pub Puts-append_json_key :
    (cpu : Cpu) (s : Bytes) (flag : Bool)
    → FlagFits s flag
    → length s < 2 ^ 61
    → Puts (append_json_key_known_escape cpu s flag) (json_string s ++ b':' ∷ [])
Puts-append_json_key cpu s true h o =
    unfold append_json_key_known_escape in
    Puts-bind (append_json_string_known_escape cpu s true) (append_char b':') (json_string s)
      (b':' ∷ []) (Puts-slow cpu s o) (Puts-append_char b':')
Puts-append_json_key cpu s false h o =
    unfold append_json_key_known_escape in
    λ b v. ground (
      arith,
      can_append_lem b (length s + 3) v (omega arith),
      escaped-plain s (h refl),
      length-append s (b'"' ∷ b':' ∷ []),
      append_assoc s (b'"' ∷ []) (b':' ∷ []),
    )
