-- ===== src/Sinks/File/Journal/Write.antt =====
-- A write, with a rotation in front of it or not.
use iojournal.Prelude.{
  Bool-cases, Bytes, Option, append_assoc, arith, inl, inr, leb, length, none, not, refl, some,
  subst, take-length, ℕ, ◌%◌, ◌++◌, ◌+◌, ◌==◌, ◌^◌, ◌||◌, ◌≡◌,
}
use iojournal.Types.{Result, done, fail, ok}
use iojournal.Sinks.File.Calls.{Disk, Host, bytes_of, fwrite, time_of}
use iojournal.Sinks.File.{FileSink, Outcome, file_sink_ops, sync_flush, sync_ops, sync_write}
use iojournal.Sinks.File.Rotate.{
  counted, file_sink_write, make_rotation_path, rotate, rotate_named, rotated_path_size,
  rotation_due, rotation_name, write_rotated,
}
use iojournal.Timestamp.{Tm}
use iojournal.Strings.{strlen}
use iojournal.Config.{backend_sync}
use iojournal.Sinks.File.Journal.{
  Named, NextIsFresh, Settled, Written, after_call, contents_of, journal,
}
use iojournal.Sinks.File.Journal.Steps.{
  rotate_flushed-Settled, sync_flush-Settled, sync_flush-rotated,
}

module _ (host : Host) where
  make_rotation_path-of :
      (sink : FileSink) (size : ℕ) (disk : Disk) (path : Option Bytes) (tm : Option Tm)
      → sink.path ≡ path
      → host.gmtime (host.time disk.calls) ≡ tm
      → NextIsFresh sink disk
      → Named disk (make_rotation_path host sink size disk)
  unfolding make_rotation_path time_of Named
  make_rotation_path-of sink size disk none tm a t fresh = rw (make_rotation_path, a) tt
  make_rotation_path-of sink size disk (some path) none a t fresh = rw (make_rotation_path, a, t) tt
  make_rotation_path-of sink size disk (some path) (some tm) a t fresh =
      let name = rotation_name path tm ((sink.rotation_sequence + 1) % 2 ^ 64) in
      elim (Bool-cases (
        leb (2 ^ 31) (length name)
        || (leb size (length name) || leb (length name) (strlen path)))) [
          | inl long ↦ rw (make_rotation_path, a, t, long) tt
          | inr fits ↦ rw (make_rotation_path, a, t, fits) (refl, fresh path tm a)
        ]

  rotate_named-Settled :
      (sink : FileSink) (disk : Disk) (named : Result Bytes × Disk)
      → sink.retention_files ≡ 0
      → Named disk named
      → Settled (journal disk) (rotate_named host (sync_ops host) sink named)
  unfolding rotate_named Named Settled
  rotate_named-Settled sink disk (fail status, disk') k h = tt
  rotate_named-Settled sink disk (done name, disk') k (e, fresh) = rw e (
      rotate_flushed-Settled host (sync_flush host sink (after_call disk)) name (journal disk)
        (sync_flush-Settled host sink (after_call disk) k)
        (rw (sync_flush-rotated host sink (after_call disk)) fresh))

  rotate-of :
      (sink : FileSink) (disk : Disk) (path : Option Bytes)
      → sink.path ≡ path
      → file_sink_ops host sink ≡ sync_ops host
      → sink.retention_files ≡ 0
      → NextIsFresh sink disk
      → Settled (journal disk) (rotate host sink disk)
  unfolding rotate Settled
  rotate-of sink disk none a o k fresh = rw (rotate, a) tt
  rotate-of sink disk (some path) a o k fresh =
      rw (rotate, a, o)
        (rotate_named-Settled sink disk (make_rotation_path host sink rotated_path_size disk) k (
          make_rotation_path-of sink rotated_path_size disk sink.path
            (host.gmtime (host.time disk.calls)) refl refl fresh))

  sync_write-Written :
      (sink : FileSink) (payload : Bytes) (disk : Disk)
      → Written
          (journal disk ++ payload)
          (counted (length payload) (sync_write host sink payload disk))
  unfolding counted sync_write fwrite Written
  sync_write-Written sink payload disk =
      elim (Bool-cases (not sink.stream || length payload == 0)) [
        | inl bad ↦ rw bad tt
        | inr fine ↦ elim (Bool-cases (host.takes disk.calls (length payload) == length payload)) [
          | inr short ↦ rw (fine, short) tt
          | inl whole ↦
              let all_of_it : host.takes disk.calls (length payload) ≡ length payload =
                ground arith in
              rw
                (
                  fine,
                  whole,
                  all_of_it,
                  take-length payload,
                  append_assoc (contents_of disk.rotated) (bytes_of disk.active ++ disk.pending)
                      payload,
                  append_assoc (bytes_of disk.active) disk.pending payload,
                )
                refl
        ]
      ]

  write_rotated-Written :
      (payload bytes : Bytes) (o : Outcome)
      → Settled bytes o
      → Written (bytes ++ payload) (write_rotated (sync_ops host) payload o)
  unfolding write_rotated Settled
  write_rotated-Written payload bytes (ok, sink, disk) (e, p, k) =
      subst
        (λ b. Written (b ++ payload) (counted (length payload) (sync_write host sink payload disk)))
        e (sync_write-Written sink payload disk)
  write_rotated-Written payload bytes (failure, sink, disk) h = unfold Written in tt

  -- Nothing is lost by a rotation: on the synchronous backend with no limit on the renamed files,
  -- and where no renamed file has a name that the next rotation may give, a write that returns OK
  -- adds exactly the payload to the bytes of the renamed files, of the file and of what is
  -- pending, in this order, whether the file was renamed before it or not, and however the calls
  -- of the system go.
  pub file_sink_write-Written :
      (sink : FileSink) (payload : Bytes) (disk : Disk)
      → sink.active_backend ≡ backend_sync
      → sink.retention_files ≡ 0
      → NextIsFresh sink disk
      → Written (journal disk ++ payload) (file_sink_write host sink payload disk)
  unfolding file_sink_write Written
  file_sink_write-Written sink payload disk s k fresh =
      let sync : file_sink_ops host sink ≡ sync_ops host = unfold file_sink_ops in rw s refl in
      let due_disk : (rotation_due host sink (length payload) disk).1 ≡ after_call disk =
        unfold rotation_due time_of in refl in
      elim (Bool-cases (length payload == 0)) [
        | inl empty ↦ rw empty tt
        | inr filled ↦ elim (Bool-cases (rotation_due host sink (length payload) disk).0) [
          | inl due ↦
              rw (filled, due, sync, due_disk)
                (write_rotated-Written payload (journal disk) (rotate host sink (after_call disk))
                  (rotate-of sink (after_call disk) sink.path refl sync k fresh))
          | inr not_due ↦
              rw (filled, not_due, sync, due_disk)
                (sync_write-Written sink payload (after_call disk))
        ]
      ]
