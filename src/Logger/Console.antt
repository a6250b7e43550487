-- ===== src/Logger/Console.antt =====
-- From an event to the line on standard output.
use iojournal.Prelude.{
  All, Bool, Bool-cases, Bytes, arith, false, if◌then◌else◌, inl, inr, length, ltb, not, refl, some,
  true, ℕ, ◌&&◌, ◌++◌, ◌<◌, ◌^◌, ◌∙◌, ◌≡◌,
}
use iojournal.Types.{Event, EventCopy, done, encode_error, fail, ok}
use iojournal.Levels.{level_is_enabled}
use iojournal.Event.{attribute_list, event_passes}
use iojournal.Event.Copy.{copy_from_input, measured, text_arena_size}
use iojournal.Event.Copy.Encodable.{NumberFits, copy_from_input-json_console_encode}
use iojournal.Json.Encode.{json_console_encode, timestamp_size}
use iojournal.Json.Encode.Text.{json_text, record_texts}
use iojournal.Timestamp.{format_timestamp_rfc3339}
use iojournal.Timestamp.Fields.{format_timestamp-IsVisible}
use iojournal.Sinks.Wire.{TakesAtMost, TakesSome, Wire}
use iojournal.Sinks.Console.{console_write-send_all, line}
use iojournal.Logger.{Logger, Platform, World}
use iojournal.Logger.Log.{log_console, log_copied, log_copy, logger_log, on_console, payload_size}
use iojournal.Config.{sink_console}
use iojournal.Event.Copy.Verdict.{EventBytes}
use iojournal.Event.Copy.Contents.Whole.{ValueObject}
use iojournal.Event.Copy.Contents.Total.{full_plan}
use iojournal.Sinks.Wire.Complete.{send_all-TakesSome}

-- A copy that is encoded and written, or is too long.
written_line :
    (platform : Platform) (logger : Logger) (world : World) (c : EventCopy) (text : Bytes)
    → TakesAtMost platform.console
    → TakesSome platform.console
    → logger.config.sink_kind ≡ sink_console
    → 0 < length text
    → json_console_encode platform.cpu platform.gmtime platform.format_double
        (some c)
        (some payload_size)
      ≡ (if ltb (length text) payload_size then done text else fail encode_error)
    → (wire : Wire) × (wire.sent ≡ world.stdout.sent ++ line text)
      × (log_copy platform logger world c ≡ (
          if ltb (length text) payload_size
          then some (ok, logger, record world { stdout = wire })
          else some (encode_error, logger, world)))
unfolding log_copy log_console on_console
written_line platform logger world c text most least kind filled e =
    let (wire, returns, sends) =
      send_all-TakesSome platform.console (line text) world.stdout most least in
    let wrote = console_write-send_all platform.console most text world.stdout filled ∙ returns in
    elim (Bool-cases (ltb (length text) payload_size)) [
      | inl fits ↦ (wire, sends, rw (kind, e, fits, wrote) refl)
      | inr long ↦ (wire, sends, rw (kind, e, long) refl)
    ]

json_text-filled :
    (format_double : ℕ → Bytes) (c : EventCopy) (timestamp : Bytes)
    → 0 < length (json_text format_double c timestamp)
unfolding record_texts
json_text-filled format_double c timestamp = omega arith

past_guards :
    {A : Type 0} (b c : Bool) (x y z : A)
    → b ≡ true
    → c ≡ true
    → (if not b then x else if not c then y else z) ≡ z
past_guards b c x y z h k = rw (h, k) refl

module _ (platform : Platform) (logger : Logger) (event : Event) (world : World) where
  -- From an event to standard output, for an active logger with the console sink, a level that is
  -- enabled, an event as in `copy_from_input-json_console_encode`, memory that is given, a time
  -- stamp that can be formatted, and a kernel that takes some of every request and no more than
  -- all of it: the event is copied, and `ij_logger_log` returns OK with exactly the JSON text of
  -- the copy and a newline added to the output if the text is shorter than the buffer of 8192
  -- bytes, and an encode error with nothing written if not.
  pub logger_log-console :
      (mem : Bytes) {timestamp : Bytes}
      → TakesAtMost platform.console
      → TakesSome platform.console
      → logger.active ≡ true
      → logger.config.sink_kind ≡ sink_console
      → level_is_enabled logger.config.min_level event.level ≡ true
      → EventBytes event
      → All (λ a. ValueObject a.value) (attribute_list event)
      → All (λ a. NumberFits platform.format_double a.value) (attribute_list event)
      → event_passes platform.cpu event ≡ true
      → platform.alloc.arena_of
          (text_arena_size (full_plan platform.cpu logger.config.redaction_mode event))
        ≡ some mem
      → length mem ≡ text_arena_size (full_plan platform.cpu logger.config.redaction_mode event)
      → length mem < 2 ^ 61
      → (ltb 0 event.attribute_count && not platform.alloc.array_given) ≡ false
      → format_timestamp_rfc3339 platform.gmtime event.timestamp (some timestamp_size)
        ≡ done timestamp
      → (c : EventCopy) × (wire : Wire) × (copy_from_input platform.cpu platform.alloc
            logger.config.redaction_mode
            (some event)
          ≡ some (done c))
        × (wire.sent ≡ world.stdout.sent ++ line (json_text platform.format_double c timestamp))
        × (logger_log platform logger (some event) world ≡ (
            if ltb (length (json_text platform.format_double c timestamp)) payload_size
            then some (ok, logger, record world { stdout = wire })
            else some (encode_error, logger, world)))
  unfolding logger_log log_copied
  logger_log-console mem {timestamp} most least active kind enabled bytes objects numbers passes
        given measured small array stamp =
      let short : length timestamp < 2 ^ 62 = omega (
        arith,
        (format_timestamp-IsVisible platform.gmtime event.timestamp (some timestamp_size) stamp).0,
      ) in
      let (c, copied, encoded) =
        copy_from_input-json_console_encode platform.cpu logger.config.redaction_mode
          platform.format_double event platform.alloc platform.gmtime mem payload_size bytes objects
          numbers passes given measured small array stamp short (omega arith) (omega arith) in
      let (wire, sends, written) =
        written_line platform logger world c (json_text platform.format_double c timestamp) most
          least kind (json_text-filled platform.format_double c timestamp) encoded in
      (
        c,
        wire,
        copied,
        sends,
        past_guards logger.active (level_is_enabled logger.config.min_level event.level) _ _ _
              active enabled
            ∙ rw copied written,
      )
