-- ===== src/Prelude/ByteStrings.antt =====
-- Byte strings: a `char` or `unsigned char` is a number below 256.
use Prim.Native.Nat.{ℕ, zero, suc, ◌<◌}
use Prim.Native.Char.{code}
use Prim.Native.String.{String}
use mathlib.Core.Path.{◌≡◌}
use mathlib.Core.Bool.{Bool, true, false}
use mathlib.Core.List.{List, [], ◌∷◌}
use native.Mathlib.Omega.{arith}
use iojournal.Prelude.Lists.{All}
use iojournal.Prelude.Tests.{if◌then◌else◌}

abbrev pub Bytes : Type 0
Bytes = List ℕ

abbrev pub IsByte : ℕ → Type 0
IsByte c = c < 256

abbrev pub IsBytes : Bytes → Type 0
IsBytes = All IsByte

-- The bytes of a text literal of the source; every one of them is ASCII.
abbrev pub codes : String → Bytes
codes String.[] = []
codes (String.◌∷◌ c s) = code c ∷ codes s

-- A test that every number in front of a bound passes, to be run on the byte values.
unfoldable pub holds_up_to : (ℕ → Bool) → ℕ → Bool
holds_up_to test zero = true
holds_up_to test (suc bound) =
    let lower = holds_up_to test bound in if test bound then lower else false

pub holds_at :
    (test : ℕ → Bool) (bound c : ℕ) → c < bound → holds_up_to test bound ≡ true → test c ≡ true
unfolding holds_up_to
holds_at test zero c less table = absurd (omega (arith, less))
holds_at test (suc bound) c less table = ground (arith, holds_at test bound c)

-- Equality of Boolean tests, to be checked over a table.
abbrev pub same : Bool → Bool → Bool
same true b = b
same false true = false
same false false = true

pub eq_of_same : (a b : Bool) → same a b ≡ true → a ≡ b
eq_of_same a b h = ground arith
