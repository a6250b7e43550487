-- ===== src/Sinks/File/Size.antt =====
-- How large the file of a sink grows, and that the sink counts its bytes.
use iojournal.Prelude.{
  Bool-cases, Bytes, Option, arith, false, inl, inr, length, length-append, ltb, lt→ltb, max, none,
  not, refl, some, suc, take-length, true, ℕ, ◌%◌, ◌+◌, ◌<◌, ◌==◌, ◌^◌, ◌||◌, ◌∙◌, ◌≡◌, ◌≤◌,
}
use iojournal.Types.{Result, done, fail, ok}
use iojournal.Sinks.File.{
  FileSink, Outcome, file_sink_ops, sync_close, sync_flush, sync_open, sync_ops, sync_write,
}
use iojournal.Sinks.File.Calls.{Disk, Host, bytes_of, fopen, fwrite, malloc, rename, time_of}
use iojournal.Sinks.File.Rotate.{
  apply_retention, counted, file_sink_write, make_rotation_path, record_rotation, rotate,
  rotate_flushed, rotate_named, rotate_recorded, rotated_path_size, rotation_due, write_rotated,
}
use iojournal.Config.{backend_sync}
use iojournal.Sinks.File.Retention.{retention_rounds-active}

-- the bytes of the file that is written, with those that are still pending for it
abbrev pub file_size : Disk → ℕ
file_size disk = length (bytes_of disk.active) + length disk.pending

-- A successful step leaves a sink that counts the bytes of its file, and a file of at most `limit`
-- bytes.
pub Bounded : ℕ → Outcome → Type 0
Bounded limit (ok, sink, disk) = (sink.bytes_written ≡ file_size disk) × (file_size disk ≤ limit)
Bounded limit (failure, sink, disk) = Unit

Bounded-le : (m n : ℕ) (o : Outcome) → m ≤ n → Bounded m o → Bounded n o
unfolding Bounded
Bounded-le m n (ok, sink, disk) h (e, k) = (e, omega arith)
Bounded-le m n (failure, sink, disk) h k = tt

-- a successful step leaves no file under the path of the sink
Moved : Outcome → Type 0
Moved (ok, sink, disk) = disk.active ≡ none
Moved (failure, sink, disk) = Unit

module _ (host : Host) where
  counted-Bounded :
      (sink : FileSink) (payload : Bytes) (disk : Disk) (limit : ℕ)
      → sink.bytes_written ≡ file_size disk
      → sink.bytes_written + length payload < 2 ^ 64
      → sink.bytes_written + length payload ≤ limit
      → Bounded limit (counted (length payload) (sync_write host sink payload disk))
  unfolding counted sync_write fwrite Bounded
  counted-Bounded sink payload disk limit e small h =
      elim (Bool-cases (not sink.stream || length payload == 0)) [
        | inl bad ↦ rw bad tt
        | inr fine ↦ elim (Bool-cases (host.takes disk.calls (length payload) == length payload)) [
          | inr short ↦ rw (fine, short) tt
          | inl whole ↦
              let all_of_it : host.takes disk.calls (length payload) ≡ length payload =
                ground arith in
              rw (fine, whole, all_of_it, take-length payload, length-append disk.pending payload)
                (omega (arith, e, small), omega (arith, e, h))
        ]
      ]

  open-of :
      (sink : FileSink) (disk : Disk) (path : Option Bytes)
      → sink.path ≡ path
      → sink.bytes_written ≡ 0
      → disk.active ≡ none
      → Bounded 0 (sync_open host sink disk)
  unfolding Bounded sync_open fopen
  open-of sink disk none a h moved = rw (sync_open, a) tt
  open-of sink disk (some path) a h moved = elim (Bool-cases (host.opens disk.calls)) [
    | inl opens ↦ rw (sync_open, a, opens, moved) (omega (arith, h), omega arith)
    | inr fails ↦ rw (sync_open, a, fails) tt
  ]

  rotate_recorded-Bounded :
      (o : Outcome) → Moved o → Bounded 0 (rotate_recorded host (sync_ops host) o)
  unfolding rotate_recorded apply_retention time_of Moved
  rotate_recorded-Bounded (ok, sink, disk) moved = open-of _ _ sink.path refl refl (
      retention_rounds-active host sink.retention_files sink.rotated_paths
        (record disk { calls = suc disk.calls })
      ∙ moved)
  rotate_recorded-Bounded (failure, sink, disk) moved = unfold Bounded in tt

  record_rotation-Moved :
      (sink : FileSink) (name : Bytes) (disk : Disk)
      → disk.active ≡ none
      → Moved (record_rotation host sink name disk)
  unfolding record_rotation malloc Moved
  record_rotation-Moved sink name disk h = elim (Bool-cases (host.allocates disk.calls)) [
    | inr fails ↦ rw fails tt
    | inl copies ↦ elim (Bool-cases (host.allocates (suc disk.calls))) [
      | inr fails ↦ rw (copies, fails) tt
      | inl grows ↦ rw (copies, grows) h
    ]
  ]

  rename-of :
      (disk : Disk) (name : Bytes) (active : Option Bytes)
      → disk.active ≡ active
      → (rename host disk name).0 ≡ true
      → (rename host disk name).1.active ≡ none
  unfolding rename
  rename-of disk name none a e = absurd (ground (arith, rw (rename, a) at e))
  rename-of disk name (some bytes) a e =
      let allowed : host.renames disk.calls ≡ true = ground (arith, rw (rename, a) at e) in
      rw (rename, a, allowed) refl

  rotate_flushed-Bounded :
      (name : Bytes) (o : Outcome) → Bounded 0 (rotate_flushed host (sync_ops host) name o)
  unfolding rotate_flushed
  rotate_flushed-Bounded name (ok, sink, disk) =
      let closed_disk = (sync_close host sink disk).1 in
      elim (Bool-cases (rename host closed_disk name).0) [
        | inl moved ↦
            let gone = rename-of closed_disk name closed_disk.active refl moved in
            rw moved (
              rotate_recorded-Bounded
                (record_rotation host (sync_close host sink disk).0 name
                  (rename host closed_disk name).1)
                (record_rotation-Moved (sync_close host sink disk).0 name
                  (rename host closed_disk name).1 gone))
        | inr fails ↦ rw fails (unfold Bounded in tt)
      ]
  rotate_flushed-Bounded name (failure, sink, disk) = unfold Bounded in tt

  rotate_named-Bounded :
      (sink : FileSink) (named : Result Bytes × Disk)
      → Bounded 0 (rotate_named host (sync_ops host) sink named)
  unfolding rotate_named
  rotate_named-Bounded sink (fail status, disk) = unfold Bounded in tt
  rotate_named-Bounded sink (done name, disk) =
      rotate_flushed-Bounded name (sync_flush host sink disk)

  write_rotated-Bounded :
      (payload : Bytes) (o : Outcome)
      → length payload < 2 ^ 64
      → Bounded 0 o
      → Bounded (length payload) (write_rotated (sync_ops host) payload o)
  unfolding write_rotated Bounded
  write_rotated-Bounded payload (ok, sink, disk) small (e, h) =
      counted-Bounded sink payload disk (length payload) e (omega arith) (omega arith)
  write_rotated-Bounded payload (failure, sink, disk) small h = tt

  rotate-of :
      (sink : FileSink) (disk : Disk) (path : Option Bytes)
      → sink.path ≡ path
      → file_sink_ops host sink ≡ sync_ops host
      → Bounded 0 (rotate host sink disk)
  unfolding rotate Bounded
  rotate-of sink disk none a o = rw (rotate, a) tt
  rotate-of sink disk (some path) a o =
      rw (rotate, a, o)
        (rotate_named-Bounded sink (make_rotation_path host sink rotated_path_size disk))

  due-small :
      (sink : FileSink) (payload_len : ℕ) (disk : Disk)
      → sink.active_backend ≡ backend_sync
      → sink.stream ≡ true
      → 0 < sink.rotate_bytes
      → sink.bytes_written + payload_len < 2 ^ 64
      → (rotation_due host sink payload_len disk).0 ≡ false
      → sink.bytes_written + payload_len ≤ max sink.rotate_bytes payload_len
  unfolding rotation_due
  due-small sink payload_len disk s live on fits not_due =
      let wants = ltb sink.rotate_bytes ((sink.bytes_written + payload_len) % 2 ^ 64) in
      let no_wrap : (sink.bytes_written + payload_len) % 2 ^ 64 ≡ sink.bytes_written + payload_len =
        omega arith in
      elim (Bool-cases wants) [
        | inr small ↦ ground arith
        | inl large ↦
            let nothing_yet : ltb 0 sink.bytes_written ≡ false =
              ground (arith, rw (s, live, lt→ltb 0 sink.rotate_bytes on, large) at not_due) in
            ground arith
      ]

  -- On the synchronous backend with an open stream and a limit on the size, for a sink that counts
  -- the bytes of its file (those in it and those pending), and a payload with which the count
  -- stays below 2^64: after a write that returns OK the sink again counts the bytes of its file,
  -- which are at most the limit, or at most those of the one payload if that is longer.
  pub file_sink_write-Bounded :
      (sink : FileSink) (payload : Bytes) (disk : Disk)
      → sink.active_backend ≡ backend_sync
      → sink.stream ≡ true
      → 0 < sink.rotate_bytes
      → sink.bytes_written ≡ file_size disk
      → sink.bytes_written + length payload < 2 ^ 64
      → Bounded (max sink.rotate_bytes (length payload)) (file_sink_write host sink payload disk)
  unfolding file_sink_write rotation_due time_of Bounded
  file_sink_write-Bounded sink payload disk s live on e fits =
      let sync : file_sink_ops host sink ≡ sync_ops host = unfold file_sink_ops in rw s refl in
      let limit = max sink.rotate_bytes (length payload) in
      let disk' = (rotation_due host sink (length payload) disk).1 in
      elim (Bool-cases (length payload == 0)) [
        | inl empty ↦ rw empty tt
        | inr filled ↦ elim (Bool-cases (rotation_due host sink (length payload) disk).0) [
          | inl due ↦
              rw (filled, due, sync)
                (Bounded-le (length payload) limit
                  (write_rotated (sync_ops host) payload (rotate host sink disk')) (omega arith)
                  (write_rotated-Bounded payload (rotate host sink disk') (omega arith)
                    (rotate-of sink disk' sink.path refl sync)))
          | inr not_due ↦
              rw (filled, not_due, sync)
                (counted-Bounded sink payload disk' limit e fits
                  (due-small sink (length payload) disk s live on fits not_due))
        ]
      ]
