-- ===== src/Json.antt =====
-- src/encoders/ij_json_console.c: the bounded builder, strings and numbers. `Json.Encode` has the
-- encoder itself, and `Timestamp` the time stamp.
pub mod Put
pub mod Escaped
pub mod Decimal
pub mod Encode
mod Tests
use iojournal.Prelude.{
  Bool, Bytes, Option, [], bit_and, drop, false, if◌then◌else◌, leb, length, ltb, none, some, suc,
  take, true, zero, ℕ, ◌%◌, ◌++◌, ◌+◌, ◌-◌, ◌/◌, ◌==◌, ◌^◌, ◌∷◌,
}
use iojournal.Simd.{Cpu}
use iojournal.Escape.{find_first_special}

-- `size_t` addition
abbrev pub size_add : ℕ → ℕ → ℕ
size_add a b = (a + b) % 2 ^ 64

-- `ij_json_builder_t`: `text` is `buffer[0 .. length)`. The byte behind it is the terminator.
pub record Builder : Type 0 where
  pub capacity : ℕ
  pub text : Bytes

-- Every failure of the builder's functions is IJ_STATUS_ENCODE_ERROR, and every caller returns it
-- at once, without a further look at the buffer: `none`.
infixl 5 ◌▷◌
abbrev pub ◌▷◌ {ℓ κ} : {A : Type ℓ} {B : Type κ} → Option A → (A → Option B) → Option B
some a ▷ f = f a
none ▷ f = none

abbrev pub push : Builder → Bytes → Builder
push b s = record b { text = b.text ++ s }

-- `ij_builder_append_raw_n`; `len` is the length of `text`.
pub append_raw_n : Bytes → Builder → Option Builder
append_raw_n s b =
    if ltb b.capacity (size_add (size_add (length b.text) (length s)) 1)
    then none
    else some (push b s)

-- `ij_builder_can_append`
pub can_append : Builder → ℕ → Bool
can_append b len = leb (size_add (size_add (length b.text) len) 1) b.capacity

-- `ij_builder_append_char`
pub append_char : ℕ → Builder → Option Builder
append_char c b =
    if ltb b.capacity (size_add (length b.text) 2) then none else some (push b (c ∷ []))

-- `ij_hex_digit`
pub hex_digit : ℕ → ℕ
hex_digit v = if ltb v 10 then b'0' + v else b'a' + (v - 10)

-- `ij_builder_append_control_escape`
pub append_control_escape : ℕ → Builder → Option Builder
append_control_escape c =
    append_raw_n (b'\\' ∷ b'u' ∷ b'0' ∷ b'0' ∷ hex_digit (c / 16) ∷ hex_digit (bit_and c 0x0f) ∷ [])

-- the `switch` on the special byte
pub append_special : ℕ → Builder → Option Builder
append_special c b =
    if c == b'\\'
    then append_raw_n (b'\\' ∷ b'\\' ∷ []) b
    else if c == b'"'
    then append_raw_n (b'\\' ∷ b'"' ∷ []) b
    else if c == b'\n'
    then append_raw_n (b'\\' ∷ b'n' ∷ []) b
    else if c == b'\r'
    then append_raw_n (b'\\' ∷ b'r' ∷ []) b
    else if c == b'\t'
    then append_raw_n (b'\\' ∷ b't' ∷ []) b
    else if ltb c 0x20
    then append_control_escape c b
    else append_char c b

-- the run of plain bytes in front of a special one, `if (next > 0U && …)`
pub append_plain : Bytes → Builder → Option Builder
append_plain [] b = some b
append_plain (c ∷ s) b = append_raw_n (c ∷ s) b

-- `ij_builder_append_escaped_string_n`, on fuel: every round reads at least one byte, so the length
-- is enough.
pub append_escaped_loop : Cpu → ℕ → Bytes → Builder → Option Builder
append_escaped_loop cpu f [] b = some b
append_escaped_loop cpu zero (c ∷ s) b = none
append_escaped_loop cpu (suc f) (c ∷ s) b =
    let next = find_first_special cpu (c ∷ s) in
    append_plain (take next (c ∷ s)) b ▷ λ b'. elim (drop next (c ∷ s)) [
      | [] ↦ some b'
      | d ∷ rest ↦ append_special d b' ▷ append_escaped_loop cpu f rest
    ]

pub append_escaped_string_n : Cpu → Bytes → Builder → Option Builder
append_escaped_string_n cpu s = append_escaped_loop cpu (length s) s

-- `ij_builder_append_json_string_known_escape`
pub append_json_string_known_escape : Cpu → Bytes → Bool → Builder → Option Builder
append_json_string_known_escape cpu s false b =
    if can_append b (length s + 2) then some (push b (b'"' ∷ (s ++ b'"' ∷ []))) else none
append_json_string_known_escape cpu s true b =
    append_char b'"' b ▷ append_escaped_string_n cpu s ▷ append_char b'"'

-- `ij_builder_append_json_key_known_escape`
pub append_json_key_known_escape : Cpu → Bytes → Bool → Builder → Option Builder
append_json_key_known_escape cpu s false b =
    if can_append b (length s + 3) then some (push b (b'"' ∷ (s ++ b'"' ∷ b':' ∷ []))) else none
append_json_key_known_escape cpu s true b =
    append_json_string_known_escape cpu s true b ▷ append_char b':'

-- the `do … while` of `ij_builder_append_uint64_decimal`: `digits` is what stands from `position`
-- on, and the fuel is `position`, the room that is left in the array in front of it.
pub decimal_loop : ℕ → ℕ → Bytes → Option Bytes
decimal_loop zero v digits = none
decimal_loop (suc position) v digits = elim (v / 10 == 0) [
  | true ↦ some ((b'0' + v % 10) ∷ digits)
  | false ↦ decimal_loop position (v / 10) ((b'0' + v % 10) ∷ digits)
]

-- `ij_builder_append_uint64_decimal`
pub append_uint64_decimal : ℕ → Builder → Option Builder
append_uint64_decimal v b = decimal_loop 20 v [] ▷ λ digits. append_raw_n digits b

-- `ij_builder_append_int64_decimal`, on the bit pattern of `value`
pub append_int64_decimal : ℕ → Builder → Option Builder
append_int64_decimal v b =
    if leb (2 ^ 63) v
    then append_char b'-' b ▷ append_uint64_decimal ((2 ^ 64 - v) % 2 ^ 64)
    else append_uint64_decimal v b
