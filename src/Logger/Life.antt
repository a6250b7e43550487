-- ===== src/Logger/Life.antt =====
-- What a logger is set up with, and what its shutdown closes.
use iojournal.Prelude.{
  Bool-cases, Option, [], arith, false, inl, inr, none, pos, refl, some, subst, true, ◌++◌, ◌==◌,
  ◌||◌, ◌∷◌, ◌≡◌,
}
use iojournal.Config.{
  LoggerConfig, default_capacity, is_power_of_two, sink_file, sink_syslog, validate_logger_config,
}
use iojournal.Types.{EventCopy, Status, ok}
use iojournal.Ring.{Mutex, Ring, capacity_passes}
use iojournal.Logger.{
  InitGrants, Logger, Platform, World, apply_logger_defaults, copy_fails, init_file, init_logger,
  init_opened, init_ring, init_sink, init_valid, logger_init, logger_shutdown,
}
use iojournal.Sinks.Syslog.{closed, syslog_sink_close}
use iojournal.Sinks.File.{Outcome}

-- The capacity of a configuration that is valid is, after the defaults, one that the test of
-- `ij_ring_init` accepts.
pub validate_logger_config-capacity_passes :
    (config : LoggerConfig)
    → validate_logger_config (some config) ≡ ok
    → capacity_passes (default_capacity config.queue_capacity) ≡ true
unfolding validate_logger_config capacity_passes default_capacity is_power_of_two
validate_logger_config-capacity_passes config h = ground arith

-- A logger that does not log to syslog has a socket that is descriptor 0.
HasDescriptorZero : Status × Option Logger × World → Type 0
HasDescriptorZero (status, some logger, world) =
    (logger.syslog_sink.fd ≡ pos 0) × (logger.active ≡ true)
HasDescriptorZero (status, none, world) = Unit

module _ (platform : Platform) where
  init_opened-zero :
      (logger : Logger) (world : World) (o : Outcome)
      → logger.syslog_sink.fd ≡ pos 0
      → logger.active ≡ true
      → HasDescriptorZero (init_opened platform logger world o)
  unfolding init_opened HasDescriptorZero
  init_opened-zero logger world (ok, sink, disk) z a = (z, a)
  init_opened-zero logger world (failure, sink, disk) z a = tt

  init_sink-zero :
      (logger : Logger) (world : World)
      → logger.config.sink_kind == sink_syslog ≡ false
      → logger.syslog_sink.fd ≡ pos 0
      → logger.active ≡ true
      → HasDescriptorZero (init_sink platform logger world)
  unfolding init_sink init_file HasDescriptorZero
  init_sink-zero logger world k z a = elim (Bool-cases (logger.config.sink_kind == sink_file)) [
    | inl file ↦ rw file (init_opened-zero logger world _ z a)
    | inr not_file ↦ rw (not_file, k) (z, a)
  ]

  init_ring-zero :
      (logger : Logger) (world : World) (o : Status × Option (Ring EventCopy))
      → logger.config.sink_kind == sink_syslog ≡ false
      → logger.syslog_sink.fd ≡ pos 0
      → logger.active ≡ true
      → HasDescriptorZero (init_ring platform logger world o)
  unfolding init_ring
  init_ring-zero logger world (ok, some ring) k z a =
      init_sink-zero (record logger { ring = ring }) world k z a
  init_ring-zero logger world (ok, none) k z a = unfold HasDescriptorZero in tt
  init_ring-zero logger world (failure, ring) k z a = unfold HasDescriptorZero in tt

  init_logger-zero :
      (grants : InitGrants) (config : LoggerConfig) (world : World)
      → config.sink_kind == sink_syslog ≡ false
      → HasDescriptorZero (init_logger platform grants config world)
  unfolding init_logger apply_logger_defaults HasDescriptorZero
  init_logger-zero grants config world k = elim (Bool-cases grants.logger_given) [
    | inr not_given ↦ rw not_given tt
    | inl given ↦
        elim (Bool-cases (
          copy_fails config.logger_name grants.name_given
          || copy_fails config.syslog_host grants.host_given)) [
            | inl fails ↦ rw (given, fails) tt
            | inr fine ↦
                rw (given, fine) (init_ring-zero (apply_logger_defaults config) world _ k refl refl)
          ]
  ]

  init_valid-zero :
      (grants : InitGrants) (config : LoggerConfig) (world : World) (verdict : Status)
      → config.sink_kind == sink_syslog ≡ false
      → HasDescriptorZero (init_valid platform grants config world verdict)
  unfolding init_valid
  init_valid-zero grants config world ok k = init_logger-zero grants config world k
  init_valid-zero grants config world failure k = unfold HasDescriptorZero in tt

  -- After a successful `ij_logger_init` for a sink that is not syslog, `ij_logger_shutdown` closes
  -- descriptor 0, and does so in whatever state of the world it is called.
  pub shutdown-closes_zero :
      (grants : InitGrants) (config : LoggerConfig) (world world' later : World) (mutex : Mutex)
      {logger : Logger}
      → config.sink_kind == sink_syslog ≡ false
      → logger_init platform grants true (some config) world ≡ (ok, some logger, world')
      → (logger_shutdown platform mutex (some logger) later).1.sockets
        ≡ later.sockets ++ closed (pos 0) ∷ []
  unfolding logger_init logger_shutdown syslog_sink_close HasDescriptorZero
  shutdown-closes_zero grants config world world' later mutex {logger} k e =
      let (z, a) =
        subst HasDescriptorZero e
          (init_valid-zero grants config world (validate_logger_config (some config)) k) in
      rw (a, z) refl
