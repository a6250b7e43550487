-- ===== src/Logger.antt =====
-- src/core/ij_logger.c: the life of a logger, and what `ij_logger_log` makes of an event. Everything
-- around the program is one parameter, and what it has seen so far one state.
pub mod Log
pub mod Tests
pub mod Life
pub mod Refused
pub mod Console
use iojournal.Prelude.{
  Bool, Bytes, List, Option, [], false, if◌then◌else◌, none, not, pos, replicate, some, true, ℕ,
  ◌++◌, ◌==◌, ◌||◌,
}
use iojournal.Types.{
  CString, EventCopy, Status, internal_error, invalid_argument, invalid_state, null_string, ok,
  sink_error,
}
use iojournal.Simd.{Cpu}
use iojournal.Config.{
  LoggerConfig, default_capacity, sink_file, sink_syslog, transport_tcp, transport_udp,
  validate_logger_config,
}
use iojournal.Ring.{Grants, Mutex, Ring, ring_destroy, ring_init, zero_ring}
use iojournal.Timestamp.{Gmtime}
use iojournal.Event.Copy.{Allocator}
use iojournal.Sinks.Wire.{Kernel, Wire}
use iojournal.Sinks.Syslog.{Network, SocketEvent, SyslogSink, syslog_sink_close, tcp_open, udp_open}
use iojournal.Sinks.File.{FileSink, Outcome, zero_file_sink}
use iojournal.Sinks.File.Calls.{Disk, Host}
use iojournal.Sinks.File.Rotate.{file_sink_close, file_sink_flush, file_sink_open}

-- the processor, the C library and the system
pub record Platform : Type 0 where
  pub cpu : Cpu
  pub alloc : Allocator
  pub gmtime : Gmtime
  pub format_double : ℕ → Bytes
  pub console : Kernel
  pub stream : Kernel
  pub sendto : ℕ → Option ℕ
  pub net : Network
  pub host : Host

-- what has been written so far, and what has happened to sockets
pub record World : Type 0 where
  pub stdout : Wire
  pub connection : Wire
  pub datagrams : List Bytes
  pub sockets : List SocketEvent
  pub disk : Disk

-- `ij_logger_t`
pub record Logger : Type 0 where
  pub config : LoggerConfig
  pub active : Bool
  pub ring : Ring EventCopy
  pub file_sink : FileSink
  pub syslog_sink : SyslogSink

-- what the platform grants `ij_logger_init`: the logger, the copies of two strings, and the ring
pub record InitGrants : Type 0 where
  pub logger_given : Bool
  pub name_given : Bool
  pub host_given : Bool
  pub ring_grants : Grants

-- a copy whose bytes are all zero
abbrev pub zero_copy : EventCopy
zero_copy = record {
  timestamp = record { unix_seconds = 0; nanoseconds = 0 };
  level = 0;
  event_name = null_string;
  message = null_string;
  logger_name = null_string;
  attributes = [];
  trace_id = replicate 16 0;
  span_id = replicate 8 0;
  trace_flags = 0;
  has_trace_context = false;
  source_file = null_string;
  source_line = 0;
  source_function = null_string;
  text_arena = [];
}

-- `ij_apply_logger_defaults` on a logger whose bytes are all zero
pub apply_logger_defaults : LoggerConfig → Logger
apply_logger_defaults config = record {
  config = record config { queue_capacity = default_capacity config.queue_capacity };
  active = true;
  ring = zero_ring;
  file_sink = zero_file_sink;
  syslog_sink = record { fd = pos 0; address = []; address_len = 0 };
}

-- a string that is given and whose copy is not
abbrev pub copy_fails : CString → Bool → Bool
copy_fails none given = false
copy_fails (some s) given = not given

module _ (platform : Platform) where
  -- the file sink of `ij_logger_init`, by what opening it gives
  pub init_opened : Logger → World → Outcome → Status × Option Logger × World
  init_opened logger world (ok, sink, disk) = (
    ok,
    some (record logger {
      file_sink = record sink {
        rotate_bytes = logger.config.file_rotate_bytes;
        rotate_interval_seconds = logger.config.file_rotate_interval_seconds;
        retention_files = logger.config.file_retention_files;
      };
    }),
    record world { disk = disk },
  )
  init_opened logger world (failure, sink, disk) = (failure, none, record world { disk = disk })

  pub init_file : Logger → World → Status × Option Logger × World
  init_file logger world = init_opened logger world (
      file_sink_open platform.host
        (record logger.file_sink { requested_backend = logger.config.file_backend })
        logger.config.file_path world.disk)

  -- the syslog sink, by what opening it gives
  unfoldable pub init_syslog :
      Logger → World → Status × SyslogSink × List SocketEvent → Status × Option Logger × World
  init_syslog logger world (ok, sink, events) = (
    ok,
    some (record logger { syslog_sink = sink }),
    record world { sockets = world.sockets ++ events },
  )
  init_syslog logger world (failure, sink, events) =
      (failure, none, record world { sockets = world.sockets ++ events })

  -- the sink of `ij_logger_init`
  pub init_sink : Logger → World → Status × Option Logger × World
  init_sink logger world =
      let config = logger.config in
      if config.sink_kind == sink_file
      then init_file logger world
      else if config.sink_kind == sink_syslog
      then (if config.syslog_transport == transport_udp
          then init_syslog logger world
              (udp_open platform.net config.syslog_host config.syslog_port)
          else if config.syslog_transport == transport_tcp
          then init_syslog logger world
              (tcp_open platform.net config.syslog_host config.syslog_port)
          else (sink_error, none, world))
      else (ok, some logger, world)

  -- the ring of `ij_logger_init`
  pub init_ring : Logger → World → Status × Option (Ring EventCopy) → Status × Option Logger × World
  init_ring logger world (ok, some ring) = init_sink (record logger { ring = ring }) world
  init_ring logger world (ok, none) = (ok, none, world)
  init_ring logger world (failure, ring) = (failure, none, world)

  -- `ij_logger_init` behind the validation
  pub init_logger : InitGrants → LoggerConfig → World → Status × Option Logger × World
  init_logger grants config world =
      let logger = apply_logger_defaults config in
      if not grants.logger_given
      then (internal_error, none, world)
      else if copy_fails config.logger_name grants.name_given
          || copy_fails config.syslog_host grants.host_given
      then (internal_error, none, world)
      else init_ring logger world
          (ring_init zero_copy grants.ring_grants (some logger.ring) logger.config.queue_capacity)

  -- by the verdict on the configuration
  pub init_valid : InitGrants → LoggerConfig → World → Status → Status × Option Logger × World
  init_valid grants config world ok = init_logger grants config world
  init_valid grants config world failure = (failure, none, world)

  -- `ij_logger_init`: the status, `*out_logger`, and the world; `out_given` says that the pointer is
  -- not NULL.
  pub logger_init : InitGrants → Bool → Option LoggerConfig → World → Status × Option Logger × World
  logger_init grants false config world = (invalid_argument, none, world)
  logger_init grants true none world = (validate_logger_config none, none, world)
  logger_init grants true (some config) world =
      init_valid grants config world (validate_logger_config (some config))

  -- `ij_logger_shutdown`: with the events that are disposed of
  pub logger_shutdown : Mutex → Option Logger → World → Status × World × List EventCopy
  logger_shutdown mutex none world = (ok, world, [])
  logger_shutdown mutex (some logger) world =
      if not logger.active
      then (invalid_state, world, [])
      else (let (file, disk) = file_sink_close platform.host logger.file_sink world.disk in
          let (syslog, events) = syslog_sink_close logger.syslog_sink in
          let (ring, disposed) = ring_destroy mutex (some logger.ring) in
          (ok, record world { disk = disk; sockets = world.sockets ++ events }, disposed))

  -- `ij_logger_flush`
  pub logger_flush : Option Logger → World → Status × Option Logger × World
  logger_flush none world = (invalid_argument, none, world)
  logger_flush (some logger) world =
      if not logger.active
      then (invalid_state, some logger, world)
      else if logger.config.sink_kind == sink_file
      then (let (status, sink, disk) = file_sink_flush platform.host logger.file_sink world.disk in
          (status, some (record logger { file_sink = sink }), record world { disk = disk }))
      else (ok, some logger, world)
