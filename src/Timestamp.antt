-- ===== src/Timestamp.antt =====
-- src/encoders/ij_json_console.c, `ij_format_timestamp_rfc3339`: the time stamp of every record.
-- `gmtime_r` belongs to the platform: it is the argument `gmtime`, of the bit pattern of the seconds.
pub mod Fields
pub mod Tests
use iojournal.Prelude.{
  Bytes, Option, [], add_ℕ, if◌then◌else◌, leb, ltb, negsuc, none, pos, some, ℕ, ℤ, ◌%◌, ◌++◌, ◌+◌,
  ◌/◌, ◌||◌, ◌∷◌,
}
use iojournal.Types.{Result, Timestamp, done, encode_error, fail, invalid_argument}

-- the fields of `struct tm` that are read
pub record Tm : Type 0 where
  pub tm_year : ℤ
  pub tm_mon : ℕ
  pub tm_mday : ℕ
  pub tm_hour : ℕ
  pub tm_min : ℕ
  pub tm_sec : ℕ

-- `gmtime_r`; `none` for a NULL result
abbrev pub Gmtime : Type 0
Gmtime = ℕ → Option Tm

abbrev digit : ℕ → ℕ
digit v = b'0' + v % 10

-- `ij_write_two_digits`, `ij_write_three_digits`, `ij_write_four_digits`
pub write_two_digits : ℕ → Bytes
write_two_digits v = digit (v / 10) ∷ digit v ∷ []

pub write_three_digits : ℕ → Bytes
write_three_digits v = digit (v / 100) ∷ digit (v / 10) ∷ digit v ∷ []

pub write_four_digits : ℕ → Bytes
write_four_digits v = digit (v / 1000) ∷ digit (v / 100) ∷ digit (v / 10) ∷ digit v ∷ []

-- what goes into `buffer[0 .. 24)`
pub layout : ℕ → Tm → ℕ → Bytes
layout year tm milliseconds =
    write_four_digits year
    ++ (b'-' ∷ write_two_digits (tm.tm_mon + 1))
    ++ (b'-' ∷ write_two_digits tm.tm_mday)
    ++ (b'T' ∷ write_two_digits tm.tm_hour)
    ++ (b':' ∷ write_two_digits tm.tm_min)
    ++ (b':' ∷ write_two_digits tm.tm_sec)
    ++ (b'.' ∷ write_three_digits milliseconds)
    ++ b'Z' ∷ []

-- the test of `year`
pub with_year : ℤ → Tm → ℕ → Result Bytes
with_year (negsuc n) tm milliseconds = fail encode_error
with_year (pos year) tm milliseconds =
    if ltb 9999 year then fail encode_error else done (layout year tm milliseconds)

-- `ij_format_timestamp_rfc3339`; `buffer_size` is `none` where `buffer` is NULL.
pub format_timestamp_rfc3339 : Gmtime → Timestamp → Option ℕ → Result Bytes
unfolding with_year layout write_two_digits write_three_digits write_four_digits
format_timestamp_rfc3339 gmtime timestamp none = fail invalid_argument
format_timestamp_rfc3339 gmtime timestamp (some buffer_size) =
    if ltb buffer_size 25 || leb 10_0000_0000 timestamp.nanoseconds
    then fail invalid_argument
    else elim (gmtime timestamp.unix_seconds) [
      | none ↦ fail encode_error
      | some tm ↦ with_year (add_ℕ tm.tm_year 1900) tm (timestamp.nanoseconds / 100_0000)
    ]
