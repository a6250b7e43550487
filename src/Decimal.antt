-- ===== src/Decimal.antt =====
-- Unsigned numbers in decimal, as `printf` writes them for `%u`, `%zu` and `%llu`, and how they are
-- read back.
use native.Mathlib.Nat.{pow-suc}
use iojournal.Prelude.{
  ==_iff, All, All-append, Bool, Bool-cases, Bytes, Option, [], arith, false, if◌then◌else◌, inl,
  inr, leb, length, length-append, ltb, none, refl, some, suc, true, zero, ℕ, ◌%◌, ◌&&◌, ◌*◌, ◌++◌,
  ◌+◌, ◌-◌, ◌/◌, ◌<◌, ◌==◌, ◌^◌, ◌∷◌, ◌≡◌, ◌≤◌,
}

-- On fuel: a number has no more digits than its successor has units.
unfoldable pub decimal_digits : ℕ → ℕ → Bytes
decimal_digits zero v = []
decimal_digits (suc f) v = elim (v / 10 == 0) [
  | true ↦ (b'0' + v % 10) ∷ []
  | false ↦ decimal_digits f (v / 10) ++ (b'0' + v % 10) ∷ []
]

unfoldable pub decimal : ℕ → Bytes
unfolding decimal_digits
decimal v = decimal_digits (suc v) v

-- The number that a string of digits stands for, read from the left.
unfoldable pub value_of : ℕ → Bytes → ℕ
value_of acc [] = acc
value_of acc (c ∷ s) = value_of (acc * 10 + (c - b'0')) s

abbrev pub IsDigit : ℕ → Type 0
IsDigit c = (b'0' ≤ c) × (c ≤ b'9')

-- A strict reader, which refuses a byte that is not a digit.
unfoldable pub read_digits : ℕ → Bytes → Option ℕ
read_digits acc [] = some acc
read_digits acc (c ∷ s) =
    let rest = read_digits (acc * 10 + (c - b'0')) s in
    if leb b'0' c && leb c b'9' then rest else none

-- The number that a text is; there is none without a digit.
unfoldable pub read_number : Bytes → Option ℕ
read_number s = if length s == 0 then none else read_digits 0 s

read_digits-IsDigit :
    (acc : ℕ) (s : Bytes) → All IsDigit s → read_digits acc s ≡ some (value_of acc s)
unfolding read_digits value_of
read_digits-IsDigit acc [] h = refl
read_digits-IsDigit acc (c ∷ s) (h, hs) =
    ground (arith, read_digits-IsDigit (acc * 10 + (c - b'0')) s hs)

-- Digits are read as the number that they stand for.
pub read_number-IsDigit :
    (s : Bytes) → All IsDigit s → 0 < length s → read_number s ≡ some (value_of 0 s)
unfolding read_number
read_number-IsDigit s h k = ground (arith, read_digits-IsDigit 0 s h)

value_of-concat :
    (acc : ℕ) (s : Bytes) (c : ℕ) → value_of acc (s ++ c ∷ []) ≡ value_of acc s * 10 + (c - b'0')
unfolding value_of
value_of-concat acc [] c = refl
value_of-concat acc (d ∷ s) c = value_of-concat (acc * 10 + (d - b'0')) s c

-- The two cases of a round.
pub decimal_digits-last :
    (f v : ℕ) → v / 10 == 0 ≡ true → decimal_digits (suc f) v ≡ (b'0' + v % 10) ∷ []
unfolding decimal_digits
decimal_digits-last f v h = ground arith

pub decimal_digits-more :
    (f v : ℕ)
    → v / 10 == 0 ≡ false
    → decimal_digits (suc f) v ≡ decimal_digits f (v / 10) ++ (b'0' + v % 10) ∷ []
unfolding decimal_digits
decimal_digits-more f v h = ground arith

decimal_digits-value_of : (f v : ℕ) → v < f → value_of 0 (decimal_digits f v) ≡ v
decimal_digits-value_of zero v h = elim h [ ]
decimal_digits-value_of (suc f) v h = elim (Bool-cases (v / 10 == 0)) [
  | inl last ↦ rw (decimal_digits-last f v last) (unfold value_of in ground arith)
  | inr more ↦
      rw (decimal_digits-more f v more, value_of-concat)
        (ground (arith, decimal_digits-value_of f (v / 10)))
]

-- The digits of a number are read back as that number.
pub value_of-decimal : (v : ℕ) → value_of 0 (decimal v) ≡ v
unfolding decimal
value_of-decimal v = decimal_digits-value_of (suc v) v (omega arith)

decimal_digits-IsDigit : (f v : ℕ) → All IsDigit (decimal_digits f v)
decimal_digits-IsDigit zero v = unfold decimal_digits in tt
decimal_digits-IsDigit (suc f) v = elim (Bool-cases (v / 10 == 0)) [
  | inl last ↦ rw (decimal_digits-last f v last) (omega arith)
  | inr more ↦ rw (decimal_digits-more f v more) (
      All-append IsDigit (decimal_digits f (v / 10)) ((b'0' + v % 10) ∷ [])
        (decimal_digits-IsDigit f (v / 10)) (omega arith))
]

pub decimal-IsDigit : (v : ℕ) → All IsDigit (decimal v)
unfolding decimal
decimal-IsDigit v = decimal_digits-IsDigit (suc v) v

length-decimal_digits : (f n v : ℕ) → v < 10 ^ n → 0 < n → length (decimal_digits f v) ≤ n
length-decimal_digits zero n v h p = unfold decimal_digits in omega arith
length-decimal_digits (suc f) zero v h p = absurd (omega arith)
length-decimal_digits (suc f) (suc n) v h p = elim (Bool-cases (v / 10 == 0)) [
  | inl last ↦ rw (decimal_digits-last f v last) (omega arith)
  | inr more ↦
      let small : v / 10 < 10 ^ n = omega (arith, pow-suc 10 n) in
      let some_left : 0 < n = elim (Bool-cases (n == 0)) [
        | inl z ↦ let e : n ≡ 0 = (==_iff n 0).0 z in absurd (ground (arith, rw e at small))
        | inr nz ↦ ground arith
      ] in
      rw
        (
          decimal_digits-more f v more,
          length-append (decimal_digits f (v / 10)) ((b'0' + v % 10) ∷ []),
        )
        (omega (arith, length-decimal_digits f n (v / 10) small some_left))
]

-- A number below `10 ^ n` has at most `n` digits.
pub length-decimal : (n v : ℕ) → v < 10 ^ n → 0 < n → length (decimal v) ≤ n
unfolding decimal
length-decimal n v = length-decimal_digits (suc v) n v

-- whether a text starts with a digit that is not 0, as a count does in RFC 6587
abbrev pub starts_nonzero : Bytes → Bool
starts_nonzero [] = false
starts_nonzero (c ∷ s) = ltb b'0' c && leb c b'9'

starts_nonzero-append : (s t : Bytes) → starts_nonzero s ≡ true → starts_nonzero (s ++ t) ≡ true
starts_nonzero-append [] t h = absurd (ground arith)
starts_nonzero-append (c ∷ s) t h = h

starts_nonzero-decimal_digits :
    (f v : ℕ) → v < f → 0 < v → starts_nonzero (decimal_digits f v) ≡ true
starts_nonzero-decimal_digits zero v h p = absurd (omega arith)
starts_nonzero-decimal_digits (suc f) v h p = elim (Bool-cases (v / 10 == 0)) [
  | inl last ↦ rw (decimal_digits-last f v last) (ground arith)
  | inr more ↦ rw (decimal_digits-more f v more) (
      starts_nonzero-append (decimal_digits f (v / 10)) ((b'0' + v % 10) ∷ [])
        (starts_nonzero-decimal_digits f (v / 10) (ground arith) (ground arith)))
]

-- A number above 0 is written without a leading 0.
pub starts_nonzero-decimal : (v : ℕ) → 0 < v → starts_nonzero (decimal v) ≡ true
unfolding decimal
starts_nonzero-decimal v h = starts_nonzero-decimal_digits (suc v) v (omega arith) h

decimal-filled : (v : ℕ) → 0 < length (decimal v)
unfolding decimal
decimal-filled v = elim (Bool-cases (v / 10 == 0)) [
  | inl last ↦ rw (decimal_digits-last v v last) (omega arith)
  | inr more ↦
      rw
        (
          decimal_digits-more v v more,
          length-append (decimal_digits v (v / 10)) ((b'0' + v % 10) ∷ []),
        )
        (omega arith)
]

-- The strict reader reads a number back.
pub read_number-decimal : (v : ℕ) → read_number (decimal v) ≡ some v
read_number-decimal v =
    rw (read_number-IsDigit (decimal v) (decimal-IsDigit v) (decimal-filled v), value_of-decimal v)
      refl
