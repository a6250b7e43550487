-- ===== src/Utf8/Consumes.antt =====
-- A round of the validation loop at the encoding of a scalar value reads that encoding.
use iojournal.Prelude.{
  Bool-cases, Bytes, [], arith, inl, inr, length, ltb, some, true, ℕ, ◌++◌, ◌+◌, ◌/◌, ◌<◌, ◌∙◌, ◌∷◌,
  ◌≡◌, ◌≤◌,
}
use iojournal.Utf8.{advance, is_continuation, sequence_2, sequence_3, sequence_4}
use iojournal.Utf8.Spec.{IsScalar, encode, tail_byte}
use iojournal.Utf8.Ranges.{
  is_continuation-within, is_lead_2-within, is_lead_3-within, is_lead_4-within,
}

-- A round at the head of `s` moves on by `k` bytes.
abbrev pub Consumes : Bytes → ℕ → Type 0
Consumes [] k = ⊥
Consumes (c ∷ s) k = advance c s ≡ some k

Consumes-1 : (n : ℕ) (s : Bytes) → n < 0x80 → Consumes (n ∷ s) 1
unfolding advance
Consumes-1 n s h = ground arith

tail_byte-is_continuation : (n : ℕ) → is_continuation (tail_byte n) ≡ true
tail_byte-is_continuation n = is_continuation-within (tail_byte n) (omega arith) ∙ ground arith

Consumes-2 :
    (n : ℕ) (s : Bytes) → 0x80 ≤ n → n < 0x800 → Consumes ((0xc0 + n / 64) ∷ tail_byte n ∷ s) 2
unfolding advance sequence_2
Consumes-2 n s h k =
    ground (arith, tail_byte-is_continuation n, is_lead_2-within (0xc0 + n / 64) (omega arith))

Consumes-3 :
    (n : ℕ) (s : Bytes)
    → 0x800 ≤ n
    → n < 0x1_0000
    → IsScalar n
    → Consumes ((0xe0 + n / 4096) ∷ tail_byte (n / 64) ∷ tail_byte n ∷ s) 3
unfolding advance sequence_3
Consumes-3 n s h k sc = ground (
  arith,
  tail_byte-is_continuation n,
  tail_byte-is_continuation (n / 64),
  is_lead_2-within (0xe0 + n / 4096) (omega arith),
  is_lead_3-within (0xe0 + n / 4096) (omega arith),
)

Consumes-4 :
    (n : ℕ) (s : Bytes)
    → 0x1_0000 ≤ n
    → n < 0x11_0000
    → Consumes ((0xf0 + n / 262144) ∷ tail_byte (n / 4096) ∷ tail_byte (n / 64) ∷ tail_byte n ∷ s) 4
unfolding advance sequence_4
Consumes-4 n s h k = ground (
  arith,
  tail_byte-is_continuation n,
  tail_byte-is_continuation (n / 64),
  tail_byte-is_continuation (n / 4096),
  is_lead_2-within (0xf0 + n / 262144) (omega arith),
  is_lead_3-within (0xf0 + n / 262144) (omega arith),
  is_lead_4-within (0xf0 + n / 262144) (omega arith),
)

-- A round at the encoding of a scalar value reads exactly that encoding.
pub encode-Consumes :
    (n : ℕ) (s : Bytes) → IsScalar n → Consumes (encode n ++ s) (length (encode n))
unfolding encode
encode-Consumes n s sc = elim (Bool-cases (ltb n 0x80)) [
  | inl one ↦ rw one (Consumes-1 n s (ground arith))
  | inr more ↦ elim (Bool-cases (ltb n 0x800)) [
    | inl two ↦ rw (more, two) (Consumes-2 n s (ground arith) (ground arith))
    | inr more₂ ↦ elim (Bool-cases (ltb n 0x1_0000)) [
      | inl three ↦ rw (more, more₂, three) (Consumes-3 n s (ground arith) (ground arith) sc)
      | inr four ↦ rw (more, more₂, four) (Consumes-4 n s (ground arith) (ground arith))
    ]
  ]
]
