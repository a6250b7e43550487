-- ===== src/Logger/Refused.antt =====
-- Events that leave no trace.
use iojournal.Prelude.{[], arith, false, if◌then◌else◌, not, some, ◌≡◌}
use iojournal.Types.{Event, invalid_argument, invalid_state, ok}
use iojournal.Event.Copy.Contents.Total.{copy_from_input-rejected}
use iojournal.Event.Copy.Verdict.{EventBytes}
use iojournal.Logger.{Logger, Platform, World, logger_flush, logger_shutdown}
use iojournal.Logger.Log.{log_copied, logger_log}
use iojournal.Event.{event_passes}
use iojournal.Levels.{level_is_enabled}
use iojournal.Ring.{Mutex}

-- For an event of byte strings that fails validation, `ij_logger_log` writes nothing and returns
-- INVALID_STATE if the logger is not active, else OK if the level is not enabled, else
-- INVALID_ARGUMENT.
pub logger_log-refused :
    (platform : Platform) (logger : Logger) (event : Event) (world : World)
    → EventBytes event
    → event_passes platform.cpu event ≡ false
    → logger_log platform logger (some event) world
      ≡ some (
        (if not logger.active
            then invalid_state
            else if not (level_is_enabled logger.config.min_level event.level)
            then ok
            else invalid_argument),
        logger,
        world,
      )
unfolding logger_log log_copied
logger_log-refused platform logger event world bytes bad =
    rw
      (copy_from_input-rejected platform.cpu platform.alloc logger.config.redaction_mode event bytes
        bad)
      (ground arith)

-- A logger that is not active does nothing, and says so.
inactive-refuses :
    (platform : Platform) (logger : Logger) (event : Event) (world : World) (mutex : Mutex)
    → logger.active ≡ false
    → (logger_log platform logger (some event) world ≡ some (invalid_state, logger, world))
      × (logger_flush platform (some logger) world ≡ (invalid_state, some logger, world))
      × (logger_shutdown platform mutex (some logger) world ≡ (invalid_state, world, []))
unfolding logger_log logger_flush logger_shutdown
inactive-refuses platform logger event world mutex h = (ground arith, ground arith, ground arith)
