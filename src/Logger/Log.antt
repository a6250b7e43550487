-- ===== src/Logger/Log.antt =====
-- src/core/ij_logger.c, `ij_logger_log`: an event is copied, encoded and written to the sink.
use iojournal.Prelude.{Bytes, Option, if◌then◌else◌, none, not, some, ℕ, ◌++◌, ◌==◌}
use iojournal.Sinks.Syslog.{tcp_write, udp_write}
use iojournal.Json.Encode.{json_console_encode, ndjson_encode}
use iojournal.Types.{
  Event, EventCopy, Result, Status, done, fail, invalid_argument, invalid_state, ok, sink_error,
}
use iojournal.Levels.{level_is_enabled}
use iojournal.Config.{sink_console, sink_file, sink_syslog, transport_tcp, transport_udp}
use iojournal.Rfc5424.{rfc5424_encode}
use iojournal.Event.Copy.{copy_from_input}
use iojournal.Sinks.Console.{console_write}
use iojournal.Sinks.Wire.{Wire}
use iojournal.Sinks.File.Rotate.{file_sink_write}
use iojournal.Logger.{Logger, Platform, World}

-- `sizeof(payload)`
abbrev pub payload_size : ℕ
payload_size = 8192

-- The result of a call; `none` only where a copy or a loop of the model does not end.
abbrev pub Logged : Type 0
Logged = Option (Status × Logger × World)

-- the world behind a write to the console, and behind one to a connection
unfoldable pub on_console : Logger → World → Option (Status × Wire) → Logged
on_console logger world none = none
on_console logger world (some (status, wire)) =
    some (status, logger, record world { stdout = wire })

unfoldable pub on_connection : Logger → World → Option (Status × Wire) → Logged
on_connection logger world none = none
on_connection logger world (some (status, wire)) =
    some (status, logger, record world { connection = wire })

module _ (platform : Platform) where
  unfoldable pub log_console : Logger → World → Result Bytes → Logged
  log_console logger world (fail status) = some (status, logger, world)
  log_console logger world (done payload) =
      on_console logger world (console_write platform.console (some payload) world.stdout)

  unfoldable pub log_file : Logger → World → Result Bytes → Logged
  log_file logger world (fail status) = some (status, logger, world)
  log_file logger world (done payload) =
      let (status, sink, disk) =
        file_sink_write platform.host logger.file_sink payload world.disk in
      some (status, record logger { file_sink = sink }, record world { disk = disk })

  unfoldable pub log_syslog : Logger → World → Result Bytes → Logged
  log_syslog logger world (fail status) = some (status, logger, world)
  log_syslog logger world (done payload) =
      if logger.config.syslog_transport == transport_udp
      then (let (status, sent) =
            udp_write platform.sendto (some logger.syslog_sink) (some payload) in
          some (status, logger, record world { datagrams = world.datagrams ++ sent }))
      else if logger.config.syslog_transport == transport_tcp
      then on_connection logger world
          (tcp_write platform.stream (some logger.syslog_sink) (some payload) world.connection)
      else some (sink_error, logger, world)

  -- the switch of `ij_logger_log`
  unfoldable pub log_copy : Logger → World → EventCopy → Logged
  log_copy logger world copied =
      let kind = logger.config.sink_kind in
      if kind == sink_console
      then log_console logger world (
          json_console_encode platform.cpu platform.gmtime platform.format_double (some copied)
            (some payload_size))
      else if kind == sink_file
      then log_file logger world (
          ndjson_encode platform.cpu platform.gmtime platform.format_double (some copied)
            (some payload_size))
      else if kind == sink_syslog
      then log_syslog logger world
          (rfc5424_encode platform.gmtime (some copied) (some logger.config) (some payload_size))
      else some (invalid_argument, logger, world)

  unfoldable pub log_copied : Logger → World → Option (Result EventCopy) → Logged
  log_copied logger world none = none
  log_copied logger world (some (fail status)) = some (status, logger, world)
  log_copied logger world (some (done copied)) = log_copy logger world copied

  -- `ij_logger_log` on a logger that is not NULL
  unfoldable pub logger_log : Logger → Option Event → World → Logged
  logger_log logger none world = some (invalid_argument, logger, world)
  logger_log logger (some event) world =
      if not logger.active
      then some (invalid_state, logger, world)
      else if not (level_is_enabled logger.config.min_level event.level)
      then some (ok, logger, world)
      else log_copied logger world
          (copy_from_input platform.cpu platform.alloc logger.config.redaction_mode (some event))
