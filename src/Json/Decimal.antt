-- ===== src/Json/Decimal.antt =====
-- The builder's decimal numbers: 20 digits are room enough for a `uint64_t`, and what is written
-- is the decimal notation of the number.
use native.Mathlib.Nat.{pow-suc}
use iojournal.Prelude.{
  Bool-cases, Bytes, [], ap, append-nil, append_assoc, arith, false, if◌then◌else◌, inl, inr, leb,
  some, suc, sym, true, zero, ℕ, ◌%◌, ◌++◌, ◌+◌, ◌-◌, ◌/◌, ◌<◌, ◌==◌, ◌^◌, ◌∙◌, ◌∷◌, ◌≡◌,
}
use iojournal.Decimal.{
  decimal, decimal_digits, decimal_digits-last, decimal_digits-more, length-decimal,
}
use iojournal.Json.{append_char, append_int64_decimal, append_uint64_decimal, decimal_loop}
use iojournal.Json.Put.{Puts, Puts-append_char, Puts-append_raw_n, Puts-bind}

decimal_loop-last :
    (f v : ℕ) (ds : Bytes)
    → v / 10 == 0 ≡ true
    → decimal_loop (suc f) v ds ≡ some ((b'0' + v % 10) ∷ ds)
unfolding decimal_loop
decimal_loop-last f v ds h = ground arith

decimal_loop-more :
    (f v : ℕ) (ds : Bytes)
    → v / 10 == 0 ≡ false
    → decimal_loop (suc f) v ds ≡ decimal_loop f (v / 10) ((b'0' + v % 10) ∷ ds)
unfolding decimal_loop
decimal_loop-more f v ds h = ground arith

-- With room for all digits the loop ends, and has put the digits in front of what stood there.
decimal_loop-digits :
    (f g v : ℕ) (ds : Bytes)
    → v < 10 ^ f
    → 0 < f
    → v < g
    → decimal_loop f v ds ≡ some (decimal_digits g v ++ ds)
decimal_loop-digits zero g v ds h p q = absurd (omega arith)
decimal_loop-digits (suc f) zero v ds h p q = elim q [ ]
decimal_loop-digits (suc f) (suc g) v ds h p q = elim (Bool-cases (v / 10 == 0)) [
  | inl last ↦ rw (decimal_loop-last f v ds last, decimal_digits-last g v last)
  | inr more ↦
      let small : v / 10 < 10 ^ f = omega (arith, pow-suc 10 f) in
      rw (decimal_loop-more f v ds more, decimal_digits-more g v more)
        (decimal_loop-digits f g (v / 10) ((b'0' + v % 10) ∷ ds) small (some_left f more small)
            (ground arith)
          ∙ ap some (sym (append_assoc (decimal_digits g (v / 10)) ((b'0' + v % 10) ∷ []) ds)))
]
  where
    some_left : (n : ℕ) → v / 10 == 0 ≡ false → v / 10 < 10 ^ n → 0 < n
    some_left zero m s = absurd (ground arith)
    some_left (suc n) m s = omega arith

-- The bits of a 64-bit number.
abbrev pub IsU64 : ℕ → Type 0
IsU64 v = v < 2 ^ 64

-- `ij_builder_append_uint64_decimal` never runs out of its array of digits, and writes the decimal
-- notation of a 64-bit number to a valid builder whole or not at all.
pub Puts-append_uint64_decimal : (v : ℕ) → IsU64 v → Puts (append_uint64_decimal v) (decimal v)
unfolding append_uint64_decimal decimal
Puts-append_uint64_decimal v h b valid =
    rw (decimal_loop-digits 20 (suc v) v [] (omega arith) (omega arith) (omega arith), append-nil)
      (Puts-append_raw_n (decimal_digits (suc v) v)
        (omega (arith, length-decimal 20 v (omega arith) (omega arith))) b valid)

-- The decimal notation of the `int64_t` with a given bit pattern.
abbrev pub signed_decimal : ℕ → Bytes
signed_decimal v = if leb (2 ^ 63) v then b'-' ∷ decimal (2 ^ 64 - v) else decimal v

-- The decimal notation of the `int64_t` with a given bit pattern, the least one included, is
-- written to a valid builder whole or not at all.
pub Puts-append_int64_decimal : (v : ℕ) → IsU64 v → Puts (append_int64_decimal v) (signed_decimal v)
Puts-append_int64_decimal v h = elim (Bool-cases (leb (2 ^ 63) v)) [
  | inl negative ↦
      let wraps : (2 ^ 64 - v) % 2 ^ 64 ≡ 2 ^ 64 - v = ground arith in
      unfold append_int64_decimal in
      rw (negative, wraps)
        (Puts-bind (append_char b'-') (append_uint64_decimal (2 ^ 64 - v)) (b'-' ∷ [])
          (decimal (2 ^ 64 - v)) (Puts-append_char b'-')
          (Puts-append_uint64_decimal (2 ^ 64 - v) (ground arith)))
  | inr positive ↦ unfold append_int64_decimal in rw positive (Puts-append_uint64_decimal v h)
]
