-- ===== src/Escape/Tests.antt =====
-- The scans at a concrete text.
use iojournal.Prelude.{codes, false, refl, true, ◌≡◌}
use iojournal.Simd.{Cpu}
use iojournal.Escape.{find_first_special, is_special, scalar_find_first_special}
use iojournal.Escape.Scan.{find_first_special-eq_scalar}

abbrev neon : Cpu
neon = record { has_x86_avx2 = false; has_arm_neon = true }

quoted_run : scalar_find_first_special (codes "say \"hi\"") ≡ 4
unfolding scalar_find_first_special is_special
quoted_run = refl

find_first_special-eq_scalar_example :
    find_first_special neon (codes "a text of forty bytes, one of them a \" .")
    ≡ scalar_find_first_special (codes "a text of forty bytes, one of them a \" .")
find_first_special-eq_scalar_example =
    find_first_special-eq_scalar neon (codes "a text of forty bytes, one of them a \" .")
