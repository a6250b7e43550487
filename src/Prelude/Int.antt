-- ===== src/Prelude/Int.antt =====
-- Signed integers over the native numbers; `negsuc n` is -(n + 1).
use Prim.Native.Nat.{ℕ, ◌+◌, ◌-◌}
use iojournal.Prelude.Tests.{if◌then◌else◌, ltb}

pub data ℤ : Type 0 where
  pos : ℕ → ℤ
  negsuc : ℕ → ℤ

-- `a + k`
abbrev pub add_ℕ : ℤ → ℕ → ℤ
add_ℕ (pos n) k = pos (n + k)
add_ℕ (negsuc n) k = if ltb n k then pos (k - n - 1) else negsuc (n - k)
