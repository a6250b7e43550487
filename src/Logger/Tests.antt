-- ===== src/Logger/Tests.antt =====
-- Loggers at work.
use iojournal.Prelude.{
  [], ap, arith, codes, if◌then◌else◌, length, ltb, none, not, pos, refl, replicate, some, sym,
  true, ◌++◌, ◌∷◌, ◌≡◌,
}
use iojournal.Levels.{level_is_enabled, level_is_valid}
use iojournal.Types.{
  EventCopy, done, encode_error, invalid_argument, invalid_state, ok, redaction_enabled,
}
use iojournal.Event.Copy.{copy_from_input}
use iojournal.Event.Copy.Tests.{
  avx2, login, login-EventBytes, login-passes, login_arena, nameless, nameless-EventBytes,
  nameless-fails, no_doubles, zeros,
}
use iojournal.Timestamp.Tests.{instant_run, one_instant}
use iojournal.Json.Encode.Text.{json_text}
use iojournal.Config.{
  LoggerConfig, default_capacity, file_backend_is_valid, is_power_of_two, redaction_mode_is_valid,
  sink_console, sink_kind_is_valid, syslog_facility_is_valid, syslog_transport_is_valid,
  validate_logger_config,
}
use iojournal.Ring.{Mutex, capacity_passes, fresh_ring, ring_init}
use iojournal.Rfc5424.Tests.{to_server}
use iojournal.Sinks.Tests.{
  two_addresses, two_at_a_time, two_at_a_time-TakesAtMost, two_at_a_time-TakesSome, working,
}
use iojournal.Sinks.Wire.{Wire}
use iojournal.Sinks.Console.{line}
use iojournal.Logger.{
  InitGrants, Logger, Platform, World, apply_logger_defaults, init_logger, init_ring, init_sink,
  init_valid, logger_init, logger_shutdown, zero_copy,
}
use iojournal.Logger.Log.{logger_log, payload_size}
use iojournal.Logger.Life.{shutdown-closes_zero, validate_logger_config-capacity_passes}
use iojournal.Logger.Refused.{logger_log-refused}
use iojournal.Logger.Console.{logger_log-console}
use iojournal.Sinks.Syslog.{closed}

abbrev platform : Platform
platform = record {
  cpu = avx2;
  alloc = zeros;
  gmtime = one_instant;
  format_double = no_doubles;
  console = two_at_a_time;
  stream = two_at_a_time;
  sendto = λ size. some size;
  net = two_addresses;
  host = working;
}

abbrev to_console : LoggerConfig
to_console = record to_server { sink_kind = sink_console; min_level = 2 }

abbrev world : World
world = record {
  stdout = record { calls = 0; sent = [] };
  connection = record { calls = 0; sent = [] };
  datagrams = [];
  sockets = [];
  disk = record { calls = 0; active = none; pending = []; rotated = [] };
}

abbrev console_logger : Logger
console_logger = record (apply_logger_defaults to_console) { ring = fresh_ring zero_copy 1024 }

abbrev all_granted : InitGrants
all_granted = record {
  logger_given = true;
  name_given = true;
  host_given = true;
  ring_grants = record { slots_given = true; occupied_given = true; lock_made = true };
}

abbrev sound : Mutex
sound = record { locks = true; unlocks = true }

initialised :
    logger_init platform all_granted true (some to_console) world ≡ (ok, some console_logger, world)
unfolding logger_init validate_logger_config init_valid init_logger apply_logger_defaults
    default_capacity init_ring ring_init capacity_passes init_sink is_power_of_two level_is_valid
    sink_kind_is_valid redaction_mode_is_valid file_backend_is_valid
initialised = refl

shutdown-closes_zero_example :
    (logger_shutdown platform sound (some console_logger) world).1.sockets
    ≡ world.sockets ++ closed (pos 0) ∷ []
shutdown-closes_zero_example =
    shutdown-closes_zero platform all_granted to_console world world world sound refl initialised

validate_logger_config-capacity_passes_example :
    capacity_passes (default_capacity to_server.queue_capacity) ≡ true
validate_logger_config-capacity_passes_example = validate_logger_config-capacity_passes to_server (
    unfold validate_logger_config level_is_valid sink_kind_is_valid redaction_mode_is_valid
      file_backend_is_valid syslog_transport_is_valid syslog_facility_is_valid in
    refl)

logger_log-refused_example :
    logger_log platform console_logger (some nameless) world
    ≡ some (
      (if not console_logger.active
          then invalid_state
          else if not (level_is_enabled console_logger.config.min_level nameless.level)
          then ok
          else invalid_argument),
      console_logger,
      world,
    )
logger_log-refused_example =
    logger_log-refused platform console_logger nameless world nameless-EventBytes nameless-fails

console_logger_active : console_logger.active ≡ true
unfolding apply_logger_defaults
console_logger_active = refl

logger_log-console_example :
    (c : EventCopy) × (wire : Wire) × (copy_from_input avx2 zeros redaction_enabled (some login)
      ≡ some (done c))
    × (wire.sent
        ≡ world.stdout.sent ++ line (json_text no_doubles c (codes "2026-05-04T12:30:45.123Z")))
    × (logger_log platform console_logger (some login) world ≡ (
        if ltb (length (json_text no_doubles c (codes "2026-05-04T12:30:45.123Z"))) payload_size
        then some (ok, console_logger, record world { stdout = wire })
        else some (encode_error, console_logger, world)))
unfolding apply_logger_defaults
logger_log-console_example =
    logger_log-console platform console_logger login world (replicate 39 0)
      two_at_a_time-TakesAtMost two_at_a_time-TakesSome refl refl
      (unfold level_is_enabled level_is_valid in refl) login-EventBytes (omega arith, (tt, tt))
      (tt, (omega arith, tt)) login-passes (ap (λ n. some (replicate n 0)) login_arena)
      (sym login_arena) (omega arith) refl instant_run
