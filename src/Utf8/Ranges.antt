-- ===== src/Utf8/Ranges.antt =====
-- The mask tests of the validator as ranges of byte values.
use iojournal.Prelude.{
  Bool, IsByte, eq_of_same, holds_at, holds_up_to, refl, same, true, within, ℕ, ◌≡◌,
}
use iojournal.Utf8.{is_continuation, is_lead_2, is_lead_3, is_lead_4}

range_of_table :
    (p : ℕ → Bool) (lo hi : ℕ)
    → holds_up_to (λ c. same (p c) (within lo hi c)) 256 ≡ true
    → (c : ℕ) → IsByte c
    → p c ≡ within lo hi c
range_of_table p lo hi table c h =
    eq_of_same (p c) (within lo hi c) (holds_at (λ d. same (p d) (within lo hi d)) 256 c h table)

pub is_continuation-within : (c : ℕ) → IsByte c → is_continuation c ≡ within 0x80 0xbf c
unfolding is_continuation holds_up_to
is_continuation-within = range_of_table is_continuation 0x80 0xbf refl

pub is_lead_2-within : (c : ℕ) → IsByte c → is_lead_2 c ≡ within 0xc0 0xdf c
unfolding is_lead_2 holds_up_to
is_lead_2-within = range_of_table is_lead_2 0xc0 0xdf refl

pub is_lead_3-within : (c : ℕ) → IsByte c → is_lead_3 c ≡ within 0xe0 0xef c
unfolding is_lead_3 holds_up_to
is_lead_3-within = range_of_table is_lead_3 0xe0 0xef refl

pub is_lead_4-within : (c : ℕ) → IsByte c → is_lead_4 c ≡ within 0xf0 0xf7 c
unfolding is_lead_4 holds_up_to
is_lead_4-within = range_of_table is_lead_4 0xf0 0xf7 refl
