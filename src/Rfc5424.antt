-- ===== src/Rfc5424.antt =====
-- src/encoders/ij_rfc5424.c: the record for syslog. `snprintf` writes the text of its format, cut to
-- the buffer, and returns the length of the whole text, which is negative when it has no `int`.
pub mod Read
pub mod Header
pub mod Tests
pub mod Encode
pub mod AppName
use iojournal.Prelude.{
  Bytes, Option, [], codes, drop, if◌then◌else◌, leb, length, ltb, map, none, not, some, take, ℕ,
  ◌%◌, ◌&&◌, ◌*◌, ◌++◌, ◌+◌, ◌-◌, ◌==◌, ◌^◌, ◌||◌, ◌∷◌,
}
use iojournal.Types.{
  CString, EventCopy, OwnedString, Result, done, encode_error, fail, invalid_argument, level_debug,
  level_error, level_fatal, level_info, level_trace, level_warn,
}
use iojournal.Strings.{cstr, strlen}
use iojournal.Decimal.{decimal}
use iojournal.Timestamp.{Gmtime, format_timestamp_rfc3339}
use iojournal.Config.{LoggerConfig, first_byte, is_missing}

-- `ij_syslog_severity_from_level`; `none` for -1
pub syslog_severity_from_level : ℕ → Option ℕ
syslog_severity_from_level level =
    if level == level_fatal
    then some 2
    else if level == level_error
    then some 3
    else if level == level_warn
    then some 4
    else if level == level_info
    then some 6
    else if level == level_debug || level == level_trace
    then some 7
    else none

-- the value of a field that is not there
abbrev pub nil_value : Bytes
nil_value = codes "-"

-- The bytes from `s.data` to its terminator; empty for NULL.
abbrev pub c_text : Bytes → OwnedString → Bytes
c_text arena s = elim s.data_at [ none ↦ [] | some off ↦ cstr (drop off arena) ]

-- the bytes of a pointer that is not NULL, to its terminator
abbrev pub c_string : CString → Bytes
c_string none = []
c_string (some s) = cstr s

-- `ij_syslog_app_name`
pub syslog_app_name : EventCopy → LoggerConfig → Bytes
syslog_app_name event config =
    if not (first_byte (c_text event.text_arena event.logger_name) == 0)
    then c_text event.text_arena event.logger_name
    else if not (is_missing config.logger_name)
    then c_string config.logger_name
    else nil_value

abbrev pub app_name_max : ℕ
app_name_max = 48

-- a round of the loop of `ij_syslog_sanitize_app_name`
pub sanitize_byte : ℕ → ℕ
sanitize_byte c = if leb 33 c && leb c 126 then c else b'_'

-- `ij_syslog_sanitize_app_name`, up to the terminator
pub sanitize_app_name : Bytes → ℕ → Bytes
sanitize_app_name raw out_size =
    let full : ℕ = strlen raw in
    let limited : ℕ = if ltb app_name_max full then app_name_max else full in
    let raw_len : ℕ = if leb out_size limited then out_size - 1 else limited in
    map sanitize_byte (take raw_len raw)

-- the two formats: "<%u>%u %s - %s - - -", and the same with " %s" behind it
pub syslog_text : ℕ → Bytes → Bytes → Bytes → Bytes
syslog_text pri timestamp app_name message =
    b'<'
    ∷ (decimal pri
        ++ (b'>'
            ∷ (decimal 1
                ++ (b' '
                    ∷ (timestamp
                        ++ (b' '
                            ∷ (nil_value
                                ++ (b' '
                                    ∷ (app_name
                                        ++ (b' '
                                            ∷ (nil_value
                                                ++ (b' '
                                                    ∷ (nil_value
                                                        ++ (b' '
                                                            ∷ (nil_value
                                                            ++ (if first_byte message == 0
                                                            then []
                                                            else b' ' ∷ message))))))))))))))))

-- what `snprintf` makes of a text, with the test behind it
pub print_into : ℕ → Bytes → Result Bytes
print_into buffer_size text =
    if leb (2 ^ 31) (length text) || leb buffer_size (length text)
    then fail encode_error
    else done text

-- `(unsigned int)config->syslog_facility * 8U + (unsigned int)severity`
pub priority : ℕ → ℕ → ℕ
priority facility severity = (facility * 8 + severity) % 2 ^ 32

-- `ij_rfc5424_encode` behind its tests on pointers
pub encode_syslog : Gmtime → EventCopy → LoggerConfig → ℕ → Result Bytes
encode_syslog gmtime event config buffer_size = elim (syslog_severity_from_level event.level) [
  | none ↦ fail invalid_argument
  | some severity ↦ elim (format_timestamp_rfc3339 gmtime event.timestamp (some 32)) [
    | fail status ↦ fail encode_error
    | done timestamp ↦ print_into buffer_size (
        syslog_text (priority config.syslog_facility severity) timestamp
          (sanitize_app_name (syslog_app_name event config) (app_name_max + 1))
          (c_text event.text_arena event.message))
  ]
]

-- `ij_rfc5424_encode`; the pointers that may be NULL are options, the buffer by its size.
pub rfc5424_encode : Gmtime → Option EventCopy → Option LoggerConfig → Option ℕ → Result Bytes
rfc5424_encode gmtime none config buffer = fail invalid_argument
rfc5424_encode gmtime (some event) none buffer = fail invalid_argument
rfc5424_encode gmtime (some event) (some config) none = fail invalid_argument
rfc5424_encode gmtime (some event) (some config) (some buffer_size) =
    if buffer_size == 0
    then fail invalid_argument
    else encode_syslog gmtime event config buffer_size
