-- ===== src/Timestamp/Fields.antt =====
-- The time stamp is read back field by field.
use iojournal.Prelude.{
  All, Bool-cases, Bytes, Option, [], add_ℕ, ap, arith, codes, drop, get_or, inl, inr, leb, length,
  ltb, map, negsuc, none, pos, refl, some, subst, take, ℕ, ℤ, ◌+◌, ◌/◌, ◌<◌, ◌||◌, ◌∙◌, ◌∷◌, ◌≡◌,
  ◌≤◌,
}
use iojournal.Types.{Result, Timestamp, done, encode_error, fail}
use iojournal.Decimal.{IsDigit, read_number, read_number-IsDigit, value_of}
use iojournal.Timestamp.{
  Gmtime, Tm, format_timestamp_rfc3339, layout, with_year, write_four_digits, write_three_digits,
  write_two_digits,
}

-- What `gmtime_r` documents of the fields of a `struct tm`; 60 is a leap second.
pub record InRange (tm : Tm) : Type 0 where
  pub mon : tm.tm_mon < 12
  pub mday : tm.tm_mday ≤ 31
  pub hour : tm.tm_hour < 24
  pub minute : tm.tm_min < 60
  pub sec : tm.tm_sec ≤ 60

-- The number that stands in a text at `[off, off + n)`; none if a byte there is not a digit.
abbrev pub number_at : Bytes → ℕ → ℕ → Option ℕ
number_at s off n = read_number (take n (drop off s))

-- What a time stamp of RFC 3339 in UTC with milliseconds says.
pub record Says (s : Bytes) (year : ℕ) (tm : Tm) (milliseconds : ℕ) : Type 0 where
  pub size : length s ≡ 24
  pub year_at : number_at s 0 4 ≡ some year
  pub month_at : number_at s 5 2 ≡ some (tm.tm_mon + 1)
  pub day_at : number_at s 8 2 ≡ some tm.tm_mday
  pub hour_at : number_at s 11 2 ≡ some tm.tm_hour
  pub minute_at : number_at s 14 2 ≡ some tm.tm_min
  pub second_at : number_at s 17 2 ≡ some tm.tm_sec
  pub milliseconds_at : number_at s 20 3 ≡ some milliseconds
  pub separators : map (λ i. get_or s i 0) (4 ∷ 7 ∷ 10 ∷ 13 ∷ 16 ∷ 19 ∷ 23 ∷ []) ≡ codes "--T::.Z"

number_at-digits :
    (s : Bytes) (off n : ℕ) {v : ℕ}
    → All IsDigit (take n (drop off s))
    → 0 < length (take n (drop off s))
    → value_of 0 (take n (drop off s)) ≡ v
    → number_at s off n ≡ some v
number_at-digits s off n digits filled e =
    read_number-IsDigit (take n (drop off s)) digits filled ∙ ap some e

layout-Says :
    (year : ℕ) (tm : Tm) (ms : ℕ)
    → year ≤ 9999
    → InRange tm
    → ms < 1000
    → Says (layout year tm ms) year tm ms
unfolding layout write_two_digits write_three_digits write_four_digits value_of
layout-Says year tm ms h r m = record {
  size = refl;
  year_at = number_at-digits (layout year tm ms) 0 4 (omega arith) (omega arith) (omega arith);
  month_at = number_at-digits (layout year tm ms) 5 2 (omega arith) (omega arith) (omega arith);
  day_at = number_at-digits (layout year tm ms) 8 2 (omega arith) (omega arith) (omega arith);
  hour_at = number_at-digits (layout year tm ms) 11 2 (omega arith) (omega arith) (omega arith);
  minute_at = number_at-digits (layout year tm ms) 14 2 (omega arith) (omega arith) (omega arith);
  second_at = number_at-digits (layout year tm ms) 17 2 (omega arith) (omega arith) (omega arith);
  milliseconds_at =
      number_at-digits (layout year tm ms) 20 3 (omega arith) (omega arith) (omega arith);
  separators = refl;
}

-- The time stamp fits the caller's array, it has the separators of RFC 3339, and the digits of
-- each of its fields are those of the broken-down time: the full year, the month counted from 1,
-- the day, the time of the day and the nanoseconds cut to milliseconds. The seconds are those of
-- `gmtime_r` up to 60, so that a leap second is written as 60. This holds for every instant that
-- `gmtime_r` breaks down, within the ranges that it documents, to a year from 0 to 9999, with
-- nanoseconds below a second and an array of at least 25 bytes.
pub format_timestamp-Says :
    (gmtime : Gmtime) (timestamp : Timestamp) (buffer_size year : ℕ) {tm : Tm}
    → gmtime timestamp.unix_seconds ≡ some tm
    → InRange tm
    → add_ℕ tm.tm_year 1900 ≡ pos year
    → year ≤ 9999
    → timestamp.nanoseconds < 10_0000_0000
    → 25 ≤ buffer_size
    → (s : Bytes) × (format_timestamp_rfc3339 gmtime timestamp (some buffer_size) ≡ done s)
      × Says s year tm (timestamp.nanoseconds / 100_0000)
      × (length s < buffer_size)
format_timestamp-Says gmtime timestamp size year {tm} e r y h n b =
    let ms = timestamp.nanoseconds / 100_0000 in
    (
      layout year tm ms,
      unfold format_timestamp_rfc3339 in ground arith,
      layout-Says year tm ms h r (omega arith),
      omega (arith, (layout-Says year tm ms h r (omega arith)).size),
    )

abbrev pub IsVisible : ℕ → Type 0
IsVisible c = (0x21 ≤ c) × (c ≤ 0x7e)

abbrev IsStamp : Result Bytes → Type 0
IsStamp (done s) = (length s ≡ 24) × All IsVisible s
IsStamp (fail e) = Unit

layout-IsStamp : (year : ℕ) (tm : Tm) (ms : ℕ) → IsStamp (done (layout year tm ms))
unfolding layout write_two_digits write_three_digits write_four_digits
layout-IsStamp year tm ms = (refl, omega arith)

with_year-IsStamp : (year : ℤ) (tm : Tm) (ms : ℕ) → IsStamp (with_year year tm ms)
unfolding with_year
with_year-IsStamp (negsuc n) tm ms = tt
with_year-IsStamp (pos year) tm ms = elim (Bool-cases (ltb 9999 year)) [
  | inl late ↦ rw late tt
  | inr fits ↦ rw fits (layout-IsStamp year tm ms)
]

IsStamp-of-IsStamp :
    (o : Option Tm) (ms : ℕ)
    → IsStamp
        (elim o [ none ↦ fail encode_error | some tm ↦ with_year (add_ℕ tm.tm_year 1900) tm ms ])
IsStamp-of-IsStamp none ms = tt
IsStamp-of-IsStamp (some tm) ms = with_year-IsStamp (add_ℕ tm.tm_year 1900) tm ms

format_timestamp-IsStamp :
    (gmtime : Gmtime) (timestamp : Timestamp) (buffer : Option ℕ)
    → IsStamp (format_timestamp_rfc3339 gmtime timestamp buffer)
unfolding format_timestamp_rfc3339
format_timestamp-IsStamp gmtime timestamp none = tt
format_timestamp-IsStamp gmtime timestamp (some size) =
    elim (Bool-cases (ltb size 25 || leb 10_0000_0000 timestamp.nanoseconds)) [
      | inl bad ↦ rw bad tt
      | inr good ↦
          rw good
            (IsStamp-of-IsStamp (gmtime timestamp.unix_seconds) (timestamp.nanoseconds / 100_0000))
    ]

-- Every time stamp is 24 visible bytes.
pub format_timestamp-IsVisible :
    (gmtime : Gmtime) (timestamp : Timestamp) (buffer : Option ℕ) {s : Bytes}
    → format_timestamp_rfc3339 gmtime timestamp buffer ≡ done s
    → (length s ≡ 24) × All IsVisible s
format_timestamp-IsVisible gmtime timestamp buffer e =
    subst IsStamp e (format_timestamp-IsStamp gmtime timestamp buffer)
