-- ===== src/Redact/Value.antt =====
-- src/filters/ij_redact.c: the overwriting of a value that is owned already. The arena is the block
use iojournal.Prelude.{
  Bool, Bytes, Option, [], arith, false, if◌then◌else◌, length, ltb, none, not, refl, some, true, ℕ,
  ◌++◌, ◌∷◌, ◌≡◌, ◌≤◌,
}
use iojournal.Types.{
  CString, OwnedString, OwnedValue, bool, double, is_null, signed, string, unsigned,
}
use iojournal.Strings.{cstr, store}
use iojournal.Redact.{key_should_redact_n}
use iojournal.Event.Copy.{redacted_literal, value_capacity}

-- that the value points into; a write outside of it is `none`.

-- `ij_key_should_redact`
pub key_should_redact : CString → Bool
key_should_redact none = key_should_redact_n none
key_should_redact (some key) = key_should_redact_n (some (cstr key))

-- what is written over a string, with its terminator
pub overwrite_string : OwnedString → Bytes → Option (OwnedValue × Bytes)
overwrite_string s arena = elim s.data_at [
  | none ↦ some (OwnedValue.string s, arena)
  | some off ↦ elim (store arena off (redacted_literal ++ 0 ∷ [])) [
    | none ↦ none
    | some arena' ↦ some (OwnedValue.string (record s { len = length redacted_literal }), arena')
  ]
]

-- `ij_redact_owned_attr_value_n` on a value that is not NULL
pub redact_owned_attr_value_n : Option Bytes → OwnedValue → ℕ → Bytes → Option (OwnedValue × Bytes)
redact_owned_attr_value_n key (string s) value_capacity arena =
    if is_null s.data_at
    then some (OwnedValue.string s, arena)
    else if ltb value_capacity (length redacted_literal)
    then some (OwnedValue.string s, arena)
    else if not (key_should_redact_n key)
    then some (OwnedValue.string s, arena)
    else overwrite_string s arena
redact_owned_attr_value_n key value value_capacity arena = some (value, arena)

-- `ij_redact_owned_attr_value`
pub redact_owned_attr_value : CString → OwnedValue → ℕ → Bytes → Option (OwnedValue × Bytes)
redact_owned_attr_value none value value_capacity arena = some (value, arena)
redact_owned_attr_value (some key) value value_capacity arena =
    redact_owned_attr_value_n (some (cstr key)) value value_capacity arena

-- A value whose key is not one to redact is left as it is.
redact_owned_attr_value-kept :
    (key : CString) (value : OwnedValue) (value_capacity : ℕ) (arena : Bytes)
    → key_should_redact key ≡ false
    → redact_owned_attr_value key value value_capacity arena ≡ some (value, arena)
unfolding redact_owned_attr_value redact_owned_attr_value_n key_should_redact
redact_owned_attr_value-kept none value value_capacity arena h = refl
redact_owned_attr_value-kept (some key) (string s) value_capacity arena h = ground (arith, h)
redact_owned_attr_value-kept (some key) (signed v) value_capacity arena h = refl
redact_owned_attr_value-kept (some key) (unsigned v) value_capacity arena h = refl
redact_owned_attr_value-kept (some key) (bool v) value_capacity arena h = refl
redact_owned_attr_value-kept (some key) (double v) value_capacity arena h = refl

-- A string that is to be redacted reads as the literal, where its block has the room.
redact_owned_attr_value-redacted :
    (key : Bytes) (s : OwnedString) (off value_capacity : ℕ) (arena arena' : Bytes)
    → key_should_redact (some key) ≡ true
    → s.data_at ≡ some off
    → length redacted_literal ≤ value_capacity
    → store arena off (redacted_literal ++ 0 ∷ []) ≡ some arena'
    → redact_owned_attr_value (some key) (OwnedValue.string s) value_capacity arena
      ≡ some (OwnedValue.string (record s { len = length redacted_literal }), arena')
unfolding redact_owned_attr_value redact_owned_attr_value_n key_should_redact overwrite_string
redact_owned_attr_value-redacted key s off value_capacity arena arena' h a room stored_at =
    let large : ltb value_capacity (length redacted_literal) ≡ false = ground arith in
    ground (arith, h, a, large, stored_at)
