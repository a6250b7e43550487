-- ===== src/Sinks/File/Rotate.antt =====
-- src/sinks/ij_file_sink.c: renaming the file of a sink when it is due, and the operations that a
use iojournal.Prelude.{
  Bool, Bytes, List, [], add_ℕ, false, if◌then◌else◌, leb, length, ltb, negsuc, none, not, pos,
  replicate, some, suc, ℕ, ℤ, ◌%◌, ◌&&◌, ◌++◌, ◌+◌, ◌-◌, ◌==◌, ◌^◌, ◌||◌, ◌∷◌,
}
use iojournal.Sinks.Syslog.{closed_sink, is_negative}
use iojournal.Strings.{strlen}
use iojournal.Types.{CString, Result, done, fail, internal_error, invalid_argument, ok, sink_error}
use iojournal.Config.{backend_io_uring, backend_sync, is_missing}
use iojournal.Decimal.{decimal}
use iojournal.Timestamp.{Tm}
use iojournal.Sinks.File.{
  FileSink, FileSinkOps, Outcome, file_sink_ops, sync_ops, uring_ops, zero_file_sink,
}
use iojournal.Rfc5424.{c_string}
use iojournal.Sinks.File.Calls.{Disk, Host, malloc, rename, time_of, unlink}

-- logger calls.

-- "%0*d" of a number that is not negative, and of any number
abbrev pub pad : ℕ → ℕ → Bytes
pad width v = replicate (width - length (decimal v)) b'0' ++ decimal v

abbrev pub print_int : ℕ → ℤ → Bytes
print_int width (pos n) = pad width n
print_int width (negsuc n) = b'-' ∷ pad (width - 1) (n + 1)

-- "%s.%04d%02d%02dT%02d%02d%02dZ.%06llu"
unfoldable pub rotation_name : Bytes → Tm → ℕ → Bytes
rotation_name path tm sequence =
    path
    ++ (b'.' ∷ print_int 4 (add_ℕ tm.tm_year 1900))
    ++ pad 2 (tm.tm_mon + 1)
    ++ pad 2 tm.tm_mday
    ++ (b'T' ∷ pad 2 tm.tm_hour)
    ++ pad 2 tm.tm_min
    ++ pad 2 tm.tm_sec
    ++ (b'Z' ∷ (b'.' ∷ pad 6 sequence))

abbrev pub rotated_path_size : ℕ
rotated_path_size = 4096

-- the count of `ij_file_sink_write` behind the write
unfoldable pub counted : ℕ → Outcome → Outcome
counted payload_len (ok, sink, disk) =
    (ok, record sink { bytes_written = (sink.bytes_written + payload_len) % 2 ^ 64 }, disk)
counted payload_len (failure, sink, disk) = (failure, sink, disk)

-- the writes of `ij_file_sink_write` behind a rotation
unfoldable pub write_rotated : FileSinkOps → Bytes → Outcome → Outcome
write_rotated ops payload (ok, sink, disk) = counted (length payload) (ops.write sink payload disk)
write_rotated ops payload (failure, sink, disk) = (failure, sink, disk)

module _ (host : Host) where
  -- `ij_file_sink_make_rotation_path`
  unfoldable pub make_rotation_path : FileSink → ℕ → Disk → Result Bytes × Disk
  make_rotation_path sink buffer_size disk =
      let (now, disk') = time_of host disk in
      elim sink.path [
        | none ↦ (fail invalid_argument, disk')
        | some path ↦ elim (host.gmtime now) [
          | none ↦ (fail sink_error, disk')
          | some tm ↦
              let name = rotation_name path tm ((sink.rotation_sequence + 1) % 2 ^ 64) in
              (
                if leb (2 ^ 31) (length name)
                      || (leb buffer_size (length name) || leb (length name) (strlen path))
                    then fail sink_error
                    else done name,
                disk',
              )
        ]
      ]

  -- `ij_file_sink_rotation_due`
  unfoldable pub rotation_due : FileSink → ℕ → Disk → Bool × Disk
  rotation_due sink next_payload_len disk =
      let (now, disk') = time_of host disk in
      (
        if (sink.active_backend == backend_sync && not sink.stream)
              || (sink.active_backend == backend_io_uring && is_negative sink.fd)
            then false
            else (ltb 0 sink.rotate_bytes
                && (ltb 0 sink.bytes_written
                    && ltb sink.rotate_bytes ((sink.bytes_written + next_payload_len) % 2 ^ 64)))
              || (ltb 0 sink.rotate_interval_seconds
                  && (ltb 0 sink.bytes_written
                      && (ltb sink.last_rotation_epoch now
                          && leb sink.rotate_interval_seconds (now - sink.last_rotation_epoch)))),
        disk',
      )

  -- `ij_file_sink_record_rotation`
  unfoldable pub record_rotation : FileSink → Bytes → Disk → Outcome
  record_rotation sink rotated_path disk =
      let (copied, disk1) = malloc host disk in
      if not copied
      then (internal_error, sink, disk1)
      else (let (grown, disk2) = malloc host disk1 in
          if not grown
          then (internal_error, sink, disk2)
          else (ok, record sink { rotated_paths = sink.rotated_paths ++ rotated_path ∷ [] }, disk2))

  -- the loop of `ij_file_sink_apply_retention`, which drops the oldest path
  unfoldable pub retention_rounds : ℕ → List Bytes → Disk → List Bytes × Disk
  retention_rounds retention_files [] disk = ([], disk)
  retention_rounds retention_files (oldest ∷ rotated_paths) disk =
      let rest = retention_rounds retention_files rotated_paths (unlink host disk oldest) in
      if ltb 0 retention_files && ltb retention_files (suc (length rotated_paths))
      then rest
      else (oldest ∷ rotated_paths, disk)

  -- `ij_file_sink_apply_retention`
  unfoldable pub apply_retention : FileSink → Disk → FileSink × Disk
  apply_retention sink disk =
      let (rotated_paths, disk') = retention_rounds sink.retention_files sink.rotated_paths disk in
      (record sink { rotated_paths = rotated_paths }, disk')

  -- `ij_file_sink_rotate` behind the path that is recorded
  unfoldable pub rotate_recorded : FileSinkOps → Outcome → Outcome
  rotate_recorded ops (ok, sink, disk) =
      let (now, disk1) = time_of host disk in
      let (retained, disk2) =
        apply_retention
          (record sink {
            rotation_sequence = (sink.rotation_sequence + 1) % 2 ^ 64;
            bytes_written = 0;
            last_rotation_epoch = now;
          })
          disk1 in
      ops.open_file retained disk2
  rotate_recorded ops (failure, sink, disk) = (internal_error, sink, disk)

  -- `ij_file_sink_rotate` behind the flush
  unfoldable pub rotate_flushed : FileSinkOps → Bytes → Outcome → Outcome
  rotate_flushed ops rotated_path (ok, sink, disk) =
      let (closed_sink, disk1) = ops.close sink disk in
      let (renamed, disk2) = rename host disk1 rotated_path in
      if renamed
      then rotate_recorded ops (record_rotation closed_sink rotated_path disk2)
      else (sink_error, closed_sink, disk2)
  rotate_flushed ops rotated_path (failure, sink, disk) = (failure, sink, disk)

  -- `ij_file_sink_rotate` behind the path that is made
  unfoldable pub rotate_named : FileSinkOps → FileSink → Result Bytes × Disk → Outcome
  rotate_named ops sink (fail status, disk) = (sink_error, sink, disk)
  rotate_named ops sink (done rotated_path, disk) =
      rotate_flushed ops rotated_path (ops.flush sink disk)

  -- `ij_file_sink_rotate`
  unfoldable pub rotate : FileSink → Disk → Outcome
  rotate sink disk = elim sink.path [
    | none ↦ (invalid_argument, sink, disk)
    | some path ↦
        rotate_named (file_sink_ops host sink) sink (make_rotation_path sink rotated_path_size disk)
  ]

  -- `ij_file_sink_write` on pointers that are not NULL; the backend is chosen in front of a rotation.
  unfoldable pub file_sink_write : FileSink → Bytes → Disk → Outcome
  file_sink_write sink payload disk =
      if length payload == 0
      then (invalid_argument, sink, disk)
      else (let (due, disk') = rotation_due sink (length payload) disk in
          if due
          then write_rotated (file_sink_ops host sink) payload (rotate sink disk')
          else counted (length payload) ((file_sink_ops host sink).write sink payload disk'))

  -- `ij_file_sink_flush`
  unfoldable pub file_sink_flush : FileSink → Disk → Outcome
  file_sink_flush sink disk = (file_sink_ops host sink).flush sink disk

  -- `ij_file_sink_close`, which frees the paths
  unfoldable pub file_sink_close : FileSink → Disk → FileSink × Disk
  file_sink_close sink disk =
      let (closed_sink, disk') = (file_sink_ops host sink).close sink disk in
      (record closed_sink { path = none; rotated_paths = [] }, disk')

  -- the sink that a backend is opened for, where the path is stored
  unfoldable pub open_backend : FileSink → Disk → Outcome
  open_backend sink disk =
      if sink.requested_backend == backend_io_uring
      then (let (status, opened_sink, disk1) =
            uring_ops.open_file (record sink { active_backend = backend_io_uring }) disk in
          elim status [
            | ok ↦ (ok, opened_sink, disk1)
            | failure ↦
                (sync_ops host).open_file
                  (record opened_sink { active_backend = backend_sync; fd = negsuc 0 }) disk1
          ])
      else (sync_ops host).open_file (record sink { active_backend = backend_sync }) disk

  -- `ij_file_sink_open` on a sink that is not NULL
  unfoldable pub file_sink_open : FileSink → CString → Disk → Outcome
  file_sink_open sink path disk =
      if is_missing path
      then (invalid_argument, sink, disk)
      else (let cleared : FileSink = record zero_file_sink {
        fd = negsuc 0;
        requested_backend = sink.requested_backend;
      } in
          let (stored, disk1) = malloc host disk in
          if not stored
          then (internal_error, cleared, disk1)
          else (let (status, opened_sink, disk2) =
                open_backend (record cleared { path = some (c_string path) }) disk1 in
              elim status [
                | ok ↦
                    let (now, disk3) = time_of host disk2 in
                    (
                      ok,
                      record opened_sink {
                        bytes_written = 0;
                        rotation_sequence = 0;
                        last_rotation_epoch = now;
                      },
                      disk3,
                    )
                | failure ↦
                    let (closed_sink, disk3) = file_sink_close opened_sink disk2 in
                    (failure, closed_sink, disk3)
              ]))
