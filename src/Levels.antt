-- ===== src/Levels.antt =====
-- src/filters/ij_level_filter.c and the tests on enums at the head of src/core/ij_logger.c. An enum
use iojournal.Prelude.{
  Bool, Bytes, arith, codes, false, if◌then◌else◌, leb, not, ℕ, ◌&&◌, ◌==◌, ◌||◌, ◌≡◌,
}
use iojournal.Types.{level_debug, level_error, level_fatal, level_info, level_trace, level_warn}

-- is its value, an unsigned number.

-- `ij_level_is_valid`
unfoldable pub level_is_valid : ℕ → Bool
level_is_valid level = leb level_trace level && leb level level_fatal

-- `ij_level_is_enabled`
unfoldable pub level_is_enabled : ℕ → ℕ → Bool
unfolding level_is_valid
level_is_enabled min_level event_level =
    if not (level_is_valid min_level) || not (level_is_valid event_level)
    then false
    else leb min_level event_level

-- `ij_level_to_text`
pub level_to_text : ℕ → Bytes
level_to_text level =
    if level == level_trace
    then codes "trace"
    else if level == level_debug
    then codes "debug"
    else if level == level_info
    then codes "info"
    else if level == level_warn
    then codes "warn"
    else if level == level_error
    then codes "error"
    else if level == level_fatal
    then codes "fatal"
    else codes "unknown"

-- A level that is not valid has no name.
level_to_text-unknown :
    (level : ℕ) → level_is_valid level ≡ false → level_to_text level ≡ codes "unknown"
unfolding level_to_text level_is_valid
level_to_text-unknown level h = ground arith
