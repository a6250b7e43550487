-- ===== src/Strings.antt =====
-- The functions of <string.h> on C strings and blocks of memory that the program calls.
use iojournal.Prelude.{
  Bool, Bytes, Option, [], arith, drop, false, if◌then◌else◌, leb, length, none, refl, some, suc,
  take, true, zero, ℕ, ◌&&◌, ◌++◌, ◌+◌, ◌<◌, ◌==◌, ◌∷◌, ◌≡◌, ◌≤◌,
}

-- `strnlen`
unfoldable pub strnlen : Bytes → ℕ → ℕ
strnlen [] n = 0
strnlen (c ∷ s) zero = 0
strnlen (c ∷ s) (suc n) = let rest = strnlen s n in if c == 0 then 0 else suc rest

-- `strlen`
unfoldable pub strlen : Bytes → ℕ
strlen [] = 0
strlen (c ∷ s) = let rest = strlen s in if c == 0 then 0 else suc rest

-- `strcmp(s, t) == 0`
unfoldable pub strcmp_equal : Bytes → Bytes → Bool
strcmp_equal [] [] = true
strcmp_equal [] (d ∷ t) = d == 0
strcmp_equal (c ∷ s) [] = c == 0
strcmp_equal (c ∷ s) (d ∷ t) =
    let rest = strcmp_equal s t in if c == d then (if c == 0 then true else rest) else false

-- `memcmp(s, t, n) == 0`, for two arrays of `n` bytes
unfoldable pub memcmp_equal : Bytes → Bytes → Bool
memcmp_equal [] [] = true
memcmp_equal (c ∷ s) (d ∷ t) = c == d && memcmp_equal s t
memcmp_equal _ _ = false

-- `memcpy` into a block of memory at an offset; `none` for a write outside of the block.
unfoldable pub store : Bytes → ℕ → Bytes → Option Bytes
store mem off s =
    if leb (off + length s) (length mem)
    then some (take off mem ++ (s ++ drop (off + length s) mem))
    else none

-- The string in front of the terminator.
abbrev pub cstr : Bytes → Bytes
cstr s = take (strlen s) s

pub strnlen-le : (s : Bytes) (n : ℕ) → (strnlen s n ≤ n) × (strnlen s n ≤ length s)
unfolding strnlen
strnlen-le [] n = omega arith
strnlen-le (c ∷ s) zero = omega arith
strnlen-le (c ∷ s) (suc n) = ground (arith, strnlen-le s n)

-- Where `strnlen` stops short of its limit it is `strlen`.
pub strnlen-strlen : (s : Bytes) (n : ℕ) → strnlen s n < n → strnlen s n ≡ strlen s
unfolding strnlen strlen
strnlen-strlen [] n h = refl
strnlen-strlen (c ∷ s) zero h = absurd (omega arith)
strnlen-strlen (c ∷ s) (suc n) h = ground (arith, strnlen-strlen s n)

pub strlen-le : (s : Bytes) → strlen s ≤ length s
unfolding strlen
strlen-le [] = omega arith
strlen-le (c ∷ s) = ground (arith, strlen-le s)

pub strcmp-memcmp : (s t : Bytes) → strcmp_equal s t ≡ memcmp_equal (cstr s) (cstr t)
unfolding strcmp_equal memcmp_equal strlen
strcmp-memcmp [] [] = refl
strcmp-memcmp [] (d ∷ t) = ground arith
strcmp-memcmp (c ∷ s) [] = ground arith
strcmp-memcmp (c ∷ s) (d ∷ t) = ground (arith, strcmp-memcmp s t)
