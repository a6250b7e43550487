-- ===== src/Rfc5424/Tests.antt =====
-- A record for syslog.
use iojournal.Prelude.{
  Bytes, [], arith, codes, false, if◌then◌else◌, length, ltb, none, refl, some, take, ◌++◌, ◌∷◌,
  ◌≡◌,
}
use iojournal.Rfc5424.Read.{read_syslog}
use iojournal.Types.{EventCopy, done, encode_error, fail, level_error}
use iojournal.Timestamp.Tests.{instant, instant_run, one_instant}
use iojournal.Config.{LoggerConfig, syslog_facility_is_valid}
use iojournal.Rfc5424.{c_string, c_text, rfc5424_encode}
use iojournal.Rfc5424.Encode.{record_of, rfc5424_encode-reads}
use iojournal.Rfc5424.AppName.{AreSanitized, IsAppName, IsChosen}

-- a logger that sends to a server by UDP, for the facility local0
abbrev pub to_server : LoggerConfig
to_server = record {
  min_level = 3;
  sink_kind = 2;
  redaction_mode = 1;
  queue_capacity = 0;
  logger_name = some (codes "my app");
  file_path = none;
  file_rotate_bytes = 0;
  file_rotate_interval_seconds = 0;
  file_retention_files = 0;
  file_backend = 0;
  syslog_host = some (codes "logs");
  syslog_port = 514;
  syslog_transport = 0;
  syslog_facility = 16;
}

-- a copied event with a message and no name of its own
abbrev pub no_disk : EventCopy
no_disk = record {
  timestamp = instant;
  level = level_error;
  event_name = record { data_at = some 0; len = 4; needs_json_escape = false };
  message = record { data_at = some 5; len = 4; needs_json_escape = false };
  logger_name = record { data_at = none; len = 0; needs_json_escape = false };
  attributes = [];
  trace_id = [];
  span_id = [];
  trace_flags = 0;
  has_trace_context = false;
  source_file = record { data_at = none; len = 0; needs_json_escape = false };
  source_line = 0;
  source_function = record { data_at = none; len = 0; needs_json_escape = false };
  text_arena = codes "disk" ++ 0 ∷ (codes "full" ++ 0 ∷ []);
}

rfc5424_encode-reads_example :
    (text : Bytes) × (name : Bytes) × (raw : Bytes) × (rfc5424_encode one_instant
        (some no_disk)
        (some to_server)
        (some 8192)
      ≡ (if ltb (length text) 8192 then done text else fail encode_error))
    × (read_syslog text
        ≡ some (record_of no_disk to_server (codes "2026-05-04T12:30:45.123Z") name))
    × IsChosen (c_text no_disk.text_arena no_disk.logger_name) (c_string to_server.logger_name) raw
    × AreSanitized (take 48 raw) name
    × IsAppName name
rfc5424_encode-reads_example =
    rfc5424_encode-reads one_instant no_disk to_server 8192
      (unfold syslog_facility_is_valid in refl) (omega arith) instant_run (omega arith)
      (omega arith)
