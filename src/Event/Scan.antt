-- ===== src/Event/Scan.antt =====
-- src/core/ij_event.c: the scans of `ij_event_copy_from_input`, which test a text, measure it and
-- note whether JSON wants an escape in it, in one pass where the text is ASCII.
pub mod Agree
use iojournal.Prelude.{
  Bool, Bytes, Option, [], bit_and, false, if◌then◌else◌, length, ltb, none, not, some, suc, take,
  zero, ℕ, ◌&&◌, ◌+◌, ◌==◌, ◌||◌, ◌∷◌,
}
use iojournal.Types.{CString, attribute_string_max_len}
use iojournal.Simd.{Cpu}
use iojournal.Utf8.Simd.{is_valid_dispatch}
use iojournal.Escape.{find_first_special}
use iojournal.Strings.{strnlen}

-- `ij_ascii_needs_json_escape`
pub ascii_needs_json_escape : ℕ → Bool
ascii_needs_json_escape c = ltb c 0x20 || c == b'"' || c == b'\\'

-- `(c & 0x80U) != 0U`
abbrev pub is_high : ℕ → Bool
is_high c = not (bit_and c 0x80 == 0)

-- What a scan writes through its pointers: the length, and whether the text needs an escape.
pub record Scanned : Type 0 where
  pub len : ℕ
  pub needs_json_escape : Bool

module _ (cpu : Cpu) where
  -- `ij_json_escape_find_first_special(value, len) != len`
  abbrev pub needs_escape : Bytes → Bool
  needs_escape s = not (find_first_special cpu s == length s)

  module _ (value : Bytes) (max_len : ℕ) (allow_empty : Bool) where
    -- the branch for a byte that is not ASCII
    pub scan_utf8 : Option Scanned
    scan_utf8 =
        let len = strnlen value (max_len + 1) in
        if (not allow_empty && len == 0) || ltb max_len len
        then none
        else if not (is_valid_dispatch cpu (take len value))
        then none
        else some (record { len = len; needs_json_escape = needs_escape (take len value) })

    -- the branch for the terminator, at index `i`
    pub scan_end : ℕ → Bool → Option Scanned
    scan_end i flag =
        if not allow_empty && i == 0
        then none
        else some (record { len = i; needs_json_escape = flag })

    -- `for (size_t i = 0U; i <= max_len; ++i)`: the rounds that are left, the bytes from `i` on,
    -- `i` and the flag
    pub scan_loop : ℕ → Bytes → ℕ → Bool → Option Scanned
    scan_loop zero s i flag = none
    scan_loop (suc rounds) [] i flag = scan_end i flag
    scan_loop (suc rounds) (c ∷ s) i flag =
        let rest = scan_loop rounds s (i + 1) (flag || ascii_needs_json_escape c) in
        if c == 0 then scan_end i flag else if is_high c then scan_utf8 else rest

  -- `ij_scan_string_field_copy`
  unfoldable pub scan_string_field_copy : CString → ℕ → Bool → Option Scanned
  scan_string_field_copy none max_len allow_empty = none
  scan_string_field_copy (some value) max_len allow_empty =
      scan_loop value max_len allow_empty (max_len + 1) value 0 false

  -- the loop of `ij_validate_attr_string_copy` over what is left of `value`
  pub attr_string_loop : Bytes → Bytes → Bool → Option Bool
  attr_string_loop value [] flag = some flag
  attr_string_loop value (c ∷ s) flag =
      let rest = attr_string_loop value s (flag || ascii_needs_json_escape c) in
      if is_high c
      then (if not (is_valid_dispatch cpu value) then none else some (needs_escape value))
      else rest

  -- `ij_validate_attr_string_copy`
  unfoldable pub validate_attr_string_copy : Option Bytes → ℕ → Option Bool
  validate_attr_string_copy none len = none
  validate_attr_string_copy (some value) len =
      if ltb attribute_string_max_len len
      then none
      else attr_string_loop (take len value) (take len value) false
