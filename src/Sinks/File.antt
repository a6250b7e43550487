-- ===== src/Sinks/File.antt =====
-- src/sinks/ij_file_sink.c, src/sinks/ij_file_sink_sync.c, and src/sinks/ij_file_sink_uring.c as it
-- is built without liburing. The C library and the file system are parameters.
pub mod Calls
pub mod Rotate
pub mod Retention
pub mod Size
pub mod Journal
use iojournal.Prelude.{
  Bool, Bytes, List, Option, [], false, if◌then◌else◌, length, none, not, pos, some, true, ℕ, ℤ,
  ◌==◌, ◌||◌,
}
use iojournal.Types.{Status, invalid_argument, ok, sink_error}
use iojournal.Config.{backend_io_uring}
use iojournal.Sinks.File.Calls.{Disk, Host, fclose, fflush, fopen, fwrite}

-- `ij_file_sink_t`; `stream` says whether its pointer is not NULL, and `uring` is always NULL here.
pub record FileSink : Type 0 where
  pub path : Option Bytes
  pub requested_backend : ℕ
  pub active_backend : ℕ
  pub stream : Bool
  pub fd : ℤ
  pub rotate_bytes : ℕ
  pub rotate_interval_seconds : ℕ
  pub retention_files : ℕ
  pub bytes_written : ℕ
  pub rotation_sequence : ℕ
  pub last_rotation_epoch : ℕ
  pub rotated_paths : List Bytes

-- a sink behind `memset`
abbrev pub zero_file_sink : FileSink
zero_file_sink = record {
  path = none;
  requested_backend = 0;
  active_backend = 0;
  stream = false;
  fd = pos 0;
  rotate_bytes = 0;
  rotate_interval_seconds = 0;
  retention_files = 0;
  bytes_written = 0;
  rotation_sequence = 0;
  last_rotation_epoch = 0;
  rotated_paths = [];
}

-- what an operation leaves behind
abbrev pub Outcome : Type 0
Outcome = Status × FileSink × Disk

-- `ij_file_sink_ops_t`
pub record FileSinkOps : Type 0 where
  pub open_file : FileSink → Disk → Outcome
  pub write : FileSink → Bytes → Disk → Outcome
  pub flush : FileSink → Disk → Outcome
  pub close : FileSink → Disk → FileSink × Disk

-- `IJ_FILE_SINK_IO_URING_OPS` without liburing
abbrev pub uring_ops : FileSinkOps
uring_ops = record {
  open_file = λ sink disk. (sink_error, sink, disk);
  write = λ sink payload disk. (sink_error, sink, disk);
  flush = λ sink disk. (sink_error, sink, disk);
  close = λ sink disk. (sink, disk);
}

module _ (host : Host) where
  -- `ij_file_sink_sync_open`
  pub sync_open : FileSink → Disk → Outcome
  sync_open sink disk = elim sink.path [
    | none ↦ (invalid_argument, sink, disk)
    | some path ↦
        let (opens, disk') = fopen host disk in
        if opens
        then (ok, record sink { stream = true }, disk')
        else (sink_error, record sink { stream = false }, disk')
  ]

  -- `ij_file_sink_sync_write`
  pub sync_write : FileSink → Bytes → Disk → Outcome
  sync_write sink payload disk =
      if not sink.stream || length payload == 0
      then (invalid_argument, sink, disk)
      else (let (count, disk') = fwrite host disk payload in
          (if count == length payload then ok else sink_error, sink, disk'))

  -- `ij_file_sink_sync_flush`
  pub sync_flush : FileSink → Disk → Outcome
  sync_flush sink disk =
      if sink.stream
      then (let (flushed, disk') = fflush host disk in
          (if flushed then ok else sink_error, sink, disk'))
      else (invalid_argument, sink, disk)

  -- `ij_file_sink_sync_close`
  pub sync_close : FileSink → Disk → FileSink × Disk
  sync_close sink disk =
      if sink.stream then (record sink { stream = false }, fclose host disk) else (sink, disk)

  -- `IJ_FILE_SINK_SYNC_OPS`
  abbrev pub sync_ops : FileSinkOps
  sync_ops = record {
    open_file = sync_open;
    write = sync_write;
    flush = sync_flush;
    close = sync_close;
  }

  -- `ij_file_sink_ops`
  pub file_sink_ops : FileSink → FileSinkOps
  file_sink_ops sink = if sink.active_backend == backend_io_uring then uring_ops else sync_ops
