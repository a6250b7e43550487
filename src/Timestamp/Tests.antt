-- ===== src/Timestamp/Tests.antt =====
-- The time stamp of a concrete instant, with a `gmtime_r` that knows one instant.
use iojournal.Prelude.{
  Bytes, arith, codes, if◌then◌else◌, length, none, pos, refl, some, ◌/◌, ◌<◌, ◌==◌, ◌≡◌,
}
use iojournal.Types.{Timestamp, done}
use iojournal.Timestamp.{
  Gmtime, Tm, format_timestamp_rfc3339, layout, with_year, write_four_digits, write_three_digits,
  write_two_digits,
}
use iojournal.Timestamp.Fields.{InRange, Says, format_timestamp-Says}

-- 2026-05-04 12:30:45
abbrev pub may_fourth : Tm
may_fourth = record {
  tm_year = pos 126;
  tm_mon = 4;
  tm_mday = 4;
  tm_hour = 12;
  tm_min = 30;
  tm_sec = 45;
}

abbrev pub one_instant : Gmtime
one_instant seconds = if seconds == 1777897845 then some may_fourth else none

abbrev pub instant : Timestamp
instant = record { unix_seconds = 1777897845; nanoseconds = 123_456_789 }

pub instant_run :
    format_timestamp_rfc3339 one_instant instant (some 32) ≡ done (codes "2026-05-04T12:30:45.123Z")
unfolding format_timestamp_rfc3339 with_year layout write_two_digits write_three_digits
    write_four_digits
instant_run = refl

may_fourth-InRange : InRange may_fourth
may_fourth-InRange = record {
  mon = omega arith;
  mday = omega arith;
  hour = omega arith;
  minute = omega arith;
  sec = omega arith;
}

format_timestamp-Says_example :
    (s : Bytes) × (format_timestamp_rfc3339 one_instant instant (some 32) ≡ done s)
    × Says s 2026 may_fourth (instant.nanoseconds / 100_0000)
    × (length s < 32)
format_timestamp-Says_example =
    format_timestamp-Says one_instant instant 32 2026 refl may_fourth-InRange refl (omega arith)
      (omega arith) (omega arith)
