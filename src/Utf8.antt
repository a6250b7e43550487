-- ===== src/Utf8.antt =====
-- src/core/ij_utf8_scalar.c, ij_utf8_x86_avx2.c, ij_utf8_arm_neon.c: UTF-8 validation.
-- `data` from index `i` on, up to `len`, is the list of the bytes that are left.
pub mod Spec
mod Ranges
mod Steps
mod Consumes
pub mod Sound
pub mod Simd
mod Tests
use iojournal.Prelude.{
  Bool, Bytes, Option, [], bit_and, drop, false, get_or, if◌then◌else◌, leb, length, ltb, none, not,
  some, suc, true, zero, ℕ, ◌&&◌, ◌==◌, ◌||◌, ◌∷◌,
}

-- `(c & 0xc0) == 0x80` and the tests for a lead byte
pub is_continuation : ℕ → Bool
is_continuation c = bit_and c 0xc0 == 0x80

pub is_lead_2 : ℕ → Bool
is_lead_2 c = bit_and c 0xe0 == 0xc0

pub is_lead_3 : ℕ → Bool
is_lead_3 c = bit_and c 0xf0 == 0xe0

pub is_lead_4 : ℕ → Bool
is_lead_4 c = bit_and c 0xf8 == 0xf0

-- The bodies of the loop's three branches for a multi-byte sequence, with `c` at `data[i]` and the
-- bytes behind it: how far `i` moves, or `none` for `return false`. `remaining` counts `c` too.
pub sequence_2 : ℕ → Bytes → Option ℕ
sequence_2 c s =
    if ltb (suc (length s)) 2 || not (is_continuation (get_or s 0 0)) || ltb c 0xc2
    then none
    else some 2

pub sequence_3 : ℕ → Bytes → Option ℕ
sequence_3 c s =
    let c1 = get_or s 0 0 in
    let c2 = get_or s 1 0 in
    if ltb (suc (length s)) 3
    then none
    else if not (is_continuation c1) || not (is_continuation c2)
    then none
    else if (c == 0xe0 && ltb c1 0xa0) || (c == 0xed && leb 0xa0 c1)
    then none
    else some 3

pub sequence_4 : ℕ → Bytes → Option ℕ
sequence_4 c s =
    let c1 = get_or s 0 0 in
    let c2 = get_or s 1 0 in
    let c3 = get_or s 2 0 in
    if ltb (suc (length s)) 4
    then none
    else if not (is_continuation c1) || not (is_continuation c2) || not (is_continuation c3)
    then none
    else if (c == 0xf0 && ltb c1 0x90) || (c == 0xf4 && leb 0x90 c1) || ltb 0xf4 c
    then none
    else some 4

-- One round of the loop.
pub advance : ℕ → Bytes → Option ℕ
advance c s =
    if leb c 0x7f
    then some 1
    else if is_lead_2 c
    then sequence_2 c s
    else if is_lead_3 c
    then sequence_3 c s
    else if is_lead_4 c
    then sequence_4 c s
    else none

-- `while (i < len)`, on fuel: every round moves `i` on, so `len` rounds are enough.
pub validate_loop : ℕ → Bytes → Bool
validate_loop f [] = true
validate_loop zero (c ∷ s) = false
validate_loop (suc f) (c ∷ s) = elim (advance c s) [
  | none ↦ false
  | some n ↦ validate_loop f (drop n (c ∷ s))
]

-- `ij_utf8_scalar_validate`
unfoldable pub scalar_validate : Bytes → Bool
unfolding validate_loop advance sequence_2 sequence_3 sequence_4 is_lead_2 is_lead_3 is_lead_4
    is_continuation
scalar_validate s = validate_loop (length s) s
