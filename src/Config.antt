-- ===== src/Config.antt =====
-- src/core/ij_logger.c: the configuration of a logger, its validation and its defaults. An enum is
-- its value, an unsigned number.
use iojournal.Prelude.{
  Bool, Bytes, Option, [], bit_and, if◌then◌else◌, leb, ltb, none, not, some, true, ℕ, ◌&&◌, ◌-◌,
  ◌==◌, ◌||◌, ◌∷◌,
}
use iojournal.Types.{CString, Status, invalid_argument, ok, redaction_disabled, redaction_enabled}
use iojournal.Levels.{level_is_valid}
use iojournal.Ring.{queue_capacity_default, queue_capacity_max, queue_capacity_min}

-- `ij_logger_config_t`
pub record LoggerConfig : Type 0 where
  pub min_level : ℕ
  pub sink_kind : ℕ
  pub redaction_mode : ℕ
  pub queue_capacity : ℕ
  pub logger_name : CString
  pub file_path : CString
  pub file_rotate_bytes : ℕ
  pub file_rotate_interval_seconds : ℕ
  pub file_retention_files : ℕ
  pub file_backend : ℕ
  pub syslog_host : CString
  pub syslog_port : ℕ
  pub syslog_transport : ℕ
  pub syslog_facility : ℕ

-- `ij_sink_kind_t`
abbrev pub sink_console : ℕ
sink_console = 0

abbrev pub sink_file : ℕ
sink_file = 1

abbrev pub sink_syslog : ℕ
sink_syslog = 2

-- `ij_syslog_transport_t`
abbrev pub transport_udp : ℕ
transport_udp = 0

abbrev pub transport_tcp : ℕ
transport_tcp = 1

-- `ij_file_backend_t`
abbrev pub backend_auto : ℕ
backend_auto = 0

abbrev pub backend_sync : ℕ
backend_sync = 1

abbrev pub backend_io_uring : ℕ
backend_io_uring = 2

-- the bounds of the two ranges of `ij_syslog_facility_t`, which starts at 0
abbrev pub facility_ftp : ℕ
facility_ftp = 11

abbrev pub facility_local0 : ℕ
facility_local0 = 16

abbrev pub facility_local7 : ℕ
facility_local7 = 23

-- `text[0]`
abbrev pub first_byte : Bytes → ℕ
first_byte [] = 0
first_byte (c ∷ s) = c

-- `text == NULL || text[0] == '\0'`
abbrev pub is_missing : CString → Bool
is_missing none = true
is_missing (some s) = first_byte s == 0

-- `ij_sink_kind_is_valid`
unfoldable pub sink_kind_is_valid : ℕ → Bool
sink_kind_is_valid kind = leb sink_console kind && leb kind sink_syslog

-- `ij_syslog_transport_is_valid`
unfoldable pub syslog_transport_is_valid : ℕ → Bool
syslog_transport_is_valid transport = transport == transport_udp || transport == transport_tcp

-- `ij_syslog_facility_is_valid`
unfoldable pub syslog_facility_is_valid : ℕ → Bool
syslog_facility_is_valid facility =
    (leb 0 facility && leb facility facility_ftp)
    || (leb facility_local0 facility && leb facility facility_local7)

-- `ij_redaction_mode_is_valid`
unfoldable pub redaction_mode_is_valid : ℕ → Bool
redaction_mode_is_valid mode = mode == redaction_disabled || mode == redaction_enabled

-- `ij_file_backend_is_valid`
unfoldable pub file_backend_is_valid : ℕ → Bool
file_backend_is_valid backend =
    backend == backend_auto || (backend == backend_sync || backend == backend_io_uring)

-- `ij_is_power_of_two`
unfoldable pub is_power_of_two : ℕ → Bool
is_power_of_two value = not (value == 0) && bit_and value (value - 1) == 0

-- `ij_validate_logger_config`, its tests in its order
unfoldable pub validate_logger_config : Option LoggerConfig → Status
validate_logger_config none = invalid_argument
validate_logger_config (some config) =
    if not (level_is_valid config.min_level)
      || (not (sink_kind_is_valid config.sink_kind)
          || (not (redaction_mode_is_valid config.redaction_mode)
              || not (file_backend_is_valid config.file_backend)))
    then invalid_argument
    else if not (config.queue_capacity == 0)
        && (ltb config.queue_capacity queue_capacity_min
            || (ltb queue_capacity_max config.queue_capacity
                || not (is_power_of_two config.queue_capacity)))
    then invalid_argument
    else if config.sink_kind == sink_file && is_missing config.file_path
    then invalid_argument
    else if config.sink_kind == sink_syslog
        && (not (syslog_transport_is_valid config.syslog_transport)
            || (not (syslog_facility_is_valid config.syslog_facility)
                || (is_missing config.syslog_host || config.syslog_port == 0)))
    then invalid_argument
    else ok

-- the `queue_capacity` of `ij_apply_logger_defaults`
unfoldable pub default_capacity : ℕ → ℕ
default_capacity capacity = if capacity == 0 then queue_capacity_default else capacity
