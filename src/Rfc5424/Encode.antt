-- ===== src/Rfc5424/Encode.antt =====
-- A record of `ij_rfc5424_encode` as its reader sees it.
use iojournal.Prelude.{
  All, Bool-cases, Bytes, List, [], ap, arith, false, get_or, if◌then◌else◌, inl, inr, length, ltb,
  map, min, refl, some, subst, suc, take, true, zero, ℕ, ◌%◌, ◌+◌, ◌/◌, ◌<◌, ◌==◌, ◌^◌, ◌∙◌, ◌∷◌,
  ◌≡◌, ◌≤◌,
}
use iojournal.Config.{LoggerConfig, facility_local7, first_byte, syslog_facility_is_valid}
use iojournal.Types.{EventCopy, done, encode_error, fail}
use iojournal.Rfc5424.{
  app_name_max, c_string, c_text, encode_syslog, print_into, priority, rfc5424_encode,
  sanitize_app_name, sanitize_byte, syslog_app_name, syslog_severity_from_level, syslog_text,
}
use iojournal.Decimal.{decimal, read_number-decimal}
use iojournal.Timestamp.Fields.{IsVisible, format_timestamp-IsVisible}
use iojournal.Rfc5424.Read.{
  Lacks, SyslogMessage, after-append, before-append, read_numbered, read_syslog,
}
use iojournal.Rfc5424.Header.{decimal-Lacks, read_fields-text, syslog_message, written_message}
use iojournal.Rfc5424.AppName.{
  AreSanitized, IsAppName, IsAppName-Lacks, IsChosen, Whole, Whole-c_text, Whole-empty,
  sanitize_app_name-AreSanitized, sanitize_app_name-IsAppName, syslog_app_name-IsChosen,
  syslog_app_name-filled,
}
use iojournal.Timestamp.{Gmtime, format_timestamp_rfc3339}
use iojournal.Strings.{strlen}

-- no stamp has a space, nor has a name
facility-bound :
    (facility : ℕ) → syslog_facility_is_valid facility ≡ true → facility ≤ facility_local7
unfolding syslog_facility_is_valid
facility-bound facility h = ground arith

-- The severities of RFC 5424 for the levels 0 to 5: debug (7) for TRACE and DEBUG, informational (6)
-- for INFO, warning (4) for WARN, error (3) for ERROR and critical (2) for FATAL.
abbrev pub severities : List ℕ
severities = 7 ∷ 7 ∷ 6 ∷ 4 ∷ 3 ∷ 2 ∷ []

abbrev pub severity_of : ℕ → ℕ
severity_of level = get_or severities level 0

syslog_severity-severity_of :
    (level : ℕ)
    → level ≤ 5
    → (syslog_severity_from_level level ≡ some (severity_of level)) × (severity_of level ≤ 7)
unfolding syslog_severity_from_level
syslog_severity-severity_of zero h = (refl, omega arith)
syslog_severity-severity_of (suc zero) h = (refl, omega arith)
syslog_severity-severity_of (suc (suc zero)) h = (refl, omega arith)
syslog_severity-severity_of (suc (suc (suc zero))) h = (refl, omega arith)
syslog_severity-severity_of (suc (suc (suc (suc zero)))) h = (refl, omega arith)
syslog_severity-severity_of (suc (suc (suc (suc (suc zero))))) h = (refl, omega arith)
syslog_severity-severity_of (suc (suc (suc (suc (suc (suc n)))))) h = absurd (omega arith)

priority-fields :
    (facility severity : ℕ)
    → facility ≤ facility_local7
    → severity ≤ 7
    → (priority facility severity / 8 ≡ facility) × (priority facility severity % 8 ≡ severity)
unfolding priority
priority-fields facility severity h k = omega arith

-- A text of the two formats is read back as the fields that were put into it.
pub read_syslog-text :
    (facility severity : ℕ) (timestamp app_name message : Bytes)
    → facility ≤ facility_local7
    → severity ≤ 7
    → Lacks b' ' timestamp
    → Lacks b' ' app_name
    → read_syslog (syslog_text (priority facility severity) timestamp app_name message)
      ≡ some (syslog_message facility severity timestamp app_name message)
unfolding read_syslog read_numbered syslog_text
read_syslog-text facility severity timestamp app_name message hf hs ht ha =
    let pri = priority facility severity in
    let (f, s) = priority-fields facility severity hf hs in
    let one : Lacks b' ' (decimal 1) = decimal-Lacks b' ' 1 (omega arith) in
    let no_bracket : Lacks b'>' (decimal pri) = decimal-Lacks b'>' pri (omega arith) in
    rw
      (
        before-append b'>' (decimal pri) _ no_bracket,
        after-append b'>' (decimal pri) _ no_bracket,
        before-append b' ' (decimal 1) _ one,
        after-append b' ' (decimal 1) _ one,
        read_number-decimal pri,
        read_number-decimal 1,
        read_fields-text pri 1 timestamp app_name message ht ha,
        f,
        s,
      )
      refl

Lacks-IsVisible : (s : Bytes) → All IsVisible s → Lacks b' ' s
Lacks-IsVisible [] h = tt
Lacks-IsVisible (c ∷ s) (h, hs) = (omega arith, Lacks-IsVisible s hs)

print_into-fits :
    (size : ℕ) (text : Bytes)
    → size ≤ 2 ^ 31
    → print_into size text ≡ (if ltb (length text) size then done text else fail encode_error)
unfolding print_into
print_into-fits size text h = ground arith

encode_syslog-print :
    (gmtime : Gmtime) (event : EventCopy) (config : LoggerConfig) (size : ℕ) {severity : ℕ}
    {timestamp : Bytes}
    → syslog_severity_from_level event.level ≡ some severity
    → format_timestamp_rfc3339 gmtime event.timestamp (some 32) ≡ done timestamp
    → encode_syslog gmtime event config size
      ≡ print_into size (
          syslog_text
            (priority config.syslog_facility severity)
            timestamp
            (sanitize_app_name (syslog_app_name event config) (app_name_max + 1))
            (c_text event.text_arena event.message))
unfolding encode_syslog
encode_syslog-print gmtime event config size hs ht = rw (encode_syslog, hs, ht) refl

written_message-Whole : (message : Bytes) → Whole message → written_message message ≡ message
written_message-Whole message whole = elim (Bool-cases (first_byte message == 0)) [
  | inl h ↦ rw (h, Whole-empty message whole h) refl
  | inr h ↦ rw h refl
]

-- What a reader finds in a record: the facility, the severity of the level, version 1, the time
-- stamp, the name, and the message; the other fields are "-".
abbrev pub record_of : EventCopy → LoggerConfig → Bytes → Bytes → SyslogMessage
record_of event config timestamp name = record {
  facility = config.syslog_facility;
  severity = severity_of event.level;
  version = 1;
  timestamp = timestamp;
  hostname = b'-' ∷ [];
  app_name = name;
  process = b'-' ∷ [];
  message_id = b'-' ∷ [];
  structured_data = b'-' ∷ [];
  message = c_text event.text_arena event.message;
}

syslog_message-record_of :
    (event : EventCopy) (config : LoggerConfig) (timestamp name : Bytes)
    → syslog_message config.syslog_facility
        (severity_of event.level)
        timestamp
        name
        (c_text event.text_arena event.message)
      ≡ record_of event config timestamp name
syslog_message-record_of event config timestamp name =
    ap (λ m. record (record_of event config timestamp name) { message = m })
      (written_message-Whole (c_text event.text_arena event.message)
        (Whole-c_text event.text_arena event.message))

-- For a facility that is valid, a level from 0 to 5, a time stamp that can be formatted and a
-- buffer of 1 to 2^31 bytes, there is a text which `ij_rfc5424_encode` returns if it is shorter
-- than the buffer, with an encode error if not. A reader of the RFC 5424 header reads from it the
-- facility, the severity that a table gives for the level, version 1, the time stamp, the
-- application name and the message. The name is the event's logger name, that of the logger if it
-- is empty, or "-" if both are, cut to 48 bytes, with '_' for every byte that is not from 33 to
-- 126 and every other byte as it is; it has 1 to 48 bytes from 33 to 126.
pub rfc5424_encode-reads :
    (gmtime : Gmtime) (event : EventCopy) (config : LoggerConfig) (size : ℕ) {timestamp : Bytes}
    → syslog_facility_is_valid config.syslog_facility ≡ true
    → event.level ≤ 5
    → format_timestamp_rfc3339 gmtime event.timestamp (some 32) ≡ done timestamp
    → 0 < size
    → size ≤ 2 ^ 31
    → (text : Bytes) × (name : Bytes) × (raw : Bytes) × (rfc5424_encode gmtime
          (some event)
          (some config)
          (some size)
        ≡ (if ltb (length text) size then done text else fail encode_error))
      × (read_syslog text ≡ some (record_of event config timestamp name))
      × IsChosen (c_text event.text_arena event.logger_name) (c_string config.logger_name) raw
      × AreSanitized (take 48 raw) name
      × IsAppName name
unfolding rfc5424_encode
rfc5424_encode-reads gmtime event config size {timestamp} hf hl ht hz hm =
    let message = c_text event.text_arena event.message in
    let raw = syslog_app_name event config in
    let (hs, small) = syslog_severity-severity_of event.level hl in
    let (same_name, named) =
      sanitize_app_name-IsAppName raw (syslog_app_name-filled event config) in
    let name = map sanitize_byte (take (min app_name_max (strlen raw)) raw) in
    let is_name : IsAppName name = subst IsAppName same_name named in
    let text =
      syslog_text (priority config.syslog_facility (severity_of event.level)) timestamp name
        message in
    let not_empty : size == 0 ≡ false = ground arith in
    (
      text,
      name,
      raw,
      rw (not_empty, encode_syslog-print gmtime event config size hs ht, same_name)
          (print_into-fits size text hm),
      read_syslog-text config.syslog_facility (severity_of event.level) timestamp name message
            (facility-bound config.syslog_facility hf) small
            (Lacks-IsVisible timestamp
              (format_timestamp-IsVisible gmtime event.timestamp (some 32) ht).1)
            (IsAppName-Lacks name is_name.2)
          ∙ ap some (syslog_message-record_of event config timestamp name),
      syslog_app_name-IsChosen event config,
      sanitize_app_name-AreSanitized event config,
      is_name,
    )
