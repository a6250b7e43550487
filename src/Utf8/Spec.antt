-- ===== src/Utf8/Spec.antt =====
-- UTF-8 as RFC 3629 defines it: the encoding of a Unicode scalar value, and of a text.
use iojournal.Prelude.{
  All, Bytes, List, [], if◌then◌else◌, ltb, ℕ, ◌%◌, ◌++◌, ◌+◌, ◌/◌, ◌<◌, ◌∷◌, ◌≡◌, ◌≤◌, ◌⊎◌,
}

-- A code point that is no surrogate.
abbrev pub IsScalar : ℕ → Type 0
IsScalar n = (n < 0xd800) ⊎ ((0xe000 ≤ n) × (n < 0x11_0000))

-- The payload bits of a continuation byte.
abbrev pub tail_byte : ℕ → ℕ
tail_byte n = 0x80 + n % 64

unfoldable pub encode : ℕ → Bytes
encode n =
    if ltb n 0x80
    then n ∷ []
    else if ltb n 0x800
    then (0xc0 + n / 64) ∷ tail_byte n ∷ []
    else if ltb n 0x1_0000
    then (0xe0 + n / 4096) ∷ tail_byte (n / 64) ∷ tail_byte n ∷ []
    else (0xf0 + n / 262144) ∷ tail_byte (n / 4096) ∷ tail_byte (n / 64) ∷ tail_byte n ∷ []

unfoldable pub encode_text : List ℕ → Bytes
encode_text [] = []
encode_text (n ∷ ns) = encode n ++ encode_text ns

-- The text of some list of Unicode scalar values.
pub record IsUtf8 (s : Bytes) : Type 0 where
  pub points : List ℕ
  pub scalars : All IsScalar points
  pub encodes : s ≡ encode_text points
