-- ===== src/Sinks/File/Journal/Steps.antt =====
-- The steps of a rotation, one by one: each keeps the journal.
use iojournal.Prelude.{
  Bool-cases, Bytes, List, Option, [], append-nil, append_assoc, arith, if◌then◌else◌, inl, inr,
  length, none, refl, some, suc, take-length, take-nil, true, ◌++◌, ◌∙◌, ◌∷◌, ◌≡◌,
}
use iojournal.Types.{ok, sink_error}
use iojournal.Sinks.File.Calls.{
  Disk, Host, bytes_of, fclose, fflush, fopen, malloc, rename, time_of, without,
}
use iojournal.Sinks.File.{FileSink, Outcome, sync_close, sync_flush, sync_open, sync_ops}
use iojournal.Sinks.File.Rotate.{
  apply_retention, record_rotation, retention_rounds, rotate_flushed, rotate_recorded,
}
use iojournal.Sinks.File.Journal.{Settled, contents_of, journal}

module _ (host : Host) where
  fflush-journal :
      (disk : Disk) → (fflush host disk).0 ≡ true → (journal (fflush host disk).1 ≡ journal disk)
  unfolding fflush
  fflush-journal disk h =
      let all_of_it : host.flushes disk.calls (length disk.pending) ≡ length disk.pending =
        ground arith in
      rw (all_of_it, take-length disk.pending, append-nil (bytes_of disk.active ++ disk.pending))
        refl

  fclose-journal :
      (disk : Disk)
      → disk.pending ≡ []
      → (journal (fclose host disk) ≡ journal disk) × ((fclose host disk).pending ≡ [])
  unfolding fclose fflush
  fclose-journal disk h = (
    rw
        (
          h,
          take-nil (host.flushes disk.calls 0),
          append-nil (bytes_of disk.active),
          append-nil (bytes_of disk.active),
        )
        refl,
    refl,
  )

  contents_of-append :
      (xs ys : List (Bytes × Bytes)) → contents_of (xs ++ ys) ≡ contents_of xs ++ contents_of ys
  contents_of-append [] ys = refl
  contents_of-append ((name, bytes) ∷ xs) ys =
      rw (contents_of-append xs ys, append_assoc bytes (contents_of xs) (contents_of ys)) refl

  renamed :
      (disk : Disk) (name bytes : Bytes)
      → disk.active ≡ some bytes
      → host.renames disk.calls ≡ true
      → rename host disk name ≡ (
        true,
        record disk {
          calls = suc disk.calls;
          active = none;
          rotated = without name disk.rotated ++ (name, bytes) ∷ [];
        },
      )
  unfolding rename
  renamed disk name bytes a r = rw (a, r) refl

  rename-of :
      (disk : Disk) (name : Bytes) (active : Option Bytes)
      → disk.active ≡ active
      → disk.pending ≡ []
      → without name disk.rotated ≡ disk.rotated
      → (rename host disk name).0 ≡ true
      → (journal (rename host disk name).1 ≡ journal disk)
        × ((rename host disk name).1.pending ≡ [])
  unfolding rename
  rename-of disk name none a p h e = absurd (ground (arith, rw (rename, a) at e))
  rename-of disk name (some bytes) a p h e =
      let allowed : host.renames disk.calls ≡ true = ground (arith, rw (rename, a) at e) in
      rw
        (
          renamed disk name bytes a allowed,
          a,
          p,
          h,
          contents_of-append disk.rotated ((name, bytes) ∷ []),
          append-nil bytes,
          append-nil (contents_of disk.rotated ++ bytes),
        )
        (refl, refl)

  rename-journal :
      (disk : Disk) (name : Bytes)
      → disk.pending ≡ []
      → without name disk.rotated ≡ disk.rotated
      → (rename host disk name).0 ≡ true
      → (journal (rename host disk name).1 ≡ journal disk)
        × ((rename host disk name).1.pending ≡ [])
  rename-journal disk name = rename-of disk name disk.active refl

  fopen-journal :
      (disk : Disk)
      → disk.pending ≡ []
      → (journal (fopen host disk).1 ≡ journal disk) × ((fopen host disk).1.pending ≡ [])
  unfolding fopen
  fopen-journal disk h = elim (Bool-cases (host.opens disk.calls)) [
    | inl opens ↦ rw (opens, h) (refl, refl)
    | inr fails ↦ rw fails (refl, h)
  ]

  open-of :
      (sink : FileSink) (disk : Disk) (bytes : Bytes) (path : Option Bytes)
      → sink.path ≡ path
      → Settled bytes (ok, sink, disk)
      → Settled bytes (sync_open host sink disk)
  unfolding sync_open Settled
  open-of sink disk bytes none a h = rw (sync_open, a) tt
  open-of sink disk bytes (some path) a (e, p, k) = elim (Bool-cases (fopen host disk).0) [
    | inl opens ↦
        rw (sync_open, a, opens) ((fopen-journal disk p).0 ∙ e, (fopen-journal disk p).1, k)
    | inr fails ↦ rw (sync_open, a, fails) tt
  ]

  sync_open-Settled :
      (sink : FileSink) (disk : Disk) (bytes : Bytes)
      → Settled bytes (ok, sink, disk)
      → Settled bytes (sync_open host sink disk)
  sync_open-Settled sink disk bytes = open-of sink disk bytes sink.path refl

  retention_rounds-none :
      (paths : List Bytes) (disk : Disk) → retention_rounds host 0 paths disk ≡ (paths, disk)
  unfolding retention_rounds
  retention_rounds-none [] disk = refl
  retention_rounds-none (path ∷ paths) disk = refl

  record_rotation-Settled :
      (sink : FileSink) (name : Bytes) (disk : Disk) (bytes : Bytes)
      → Settled bytes (ok, sink, disk)
      → Settled bytes (record_rotation host sink name disk)
  unfolding record_rotation malloc Settled
  record_rotation-Settled sink name disk bytes h = elim (Bool-cases (host.allocates disk.calls)) [
    | inr fails ↦ rw fails tt
    | inl copies ↦ elim (Bool-cases (host.allocates (suc disk.calls))) [
      | inr fails ↦ rw (copies, fails) tt
      | inl grows ↦ rw (copies, grows) h
    ]
  ]

  rotate_recorded-Settled :
      (o : Outcome) (bytes : Bytes)
      → Settled bytes o
      → Settled bytes (rotate_recorded host (sync_ops host) o)
  unfolding rotate_recorded apply_retention time_of Settled
  rotate_recorded-Settled (ok, sink, disk) bytes (e, p, k) =
      let counted_call : Disk = record disk { calls = suc disk.calls } in
      rw (k, retention_rounds-none sink.rotated_paths counted_call)
        (sync_open-Settled _ counted_call bytes (e, p, refl))
  rotate_recorded-Settled (failure, sink, disk) bytes h = tt

  -- closing a stream that has nothing pending
  Unmoved : Bytes → Bytes → FileSink × Disk → Type 0
  Unmoved bytes name (sink, disk) =
      (Settled bytes (ok, sink, disk)) × (without name disk.rotated ≡ disk.rotated)

  sync_close-Unmoved :
      (sink : FileSink) (disk : Disk) (name bytes : Bytes)
      → Settled bytes (ok, sink, disk)
      → without name disk.rotated ≡ disk.rotated
      → Unmoved bytes name (sync_close host sink disk)
  unfolding Unmoved Settled sync_close fclose fflush
  sync_close-Unmoved sink disk name bytes (e, p, k) fresh = elim (Bool-cases sink.stream) [
    | inl live ↦ rw live (((fclose-journal disk p).0 ∙ e, refl, k), fresh)
    | inr not_live ↦ rw not_live ((e, p, k), fresh)
  ]

  rotate_closed : (name : Bytes) → FileSink × Disk → Outcome
  rotate_closed name (sink, disk) =
      let (renamed, disk') = rename host disk name in
      if renamed
      then rotate_recorded host (sync_ops host) (record_rotation host sink name disk')
      else (sink_error, sink, disk')

  rotate_closed-Settled :
      (o : FileSink × Disk) (name bytes : Bytes)
      → Unmoved bytes name o
      → Settled bytes (rotate_closed name o)
  unfolding rotate_closed Unmoved Settled
  rotate_closed-Settled (sink, disk) name bytes ((e, p, k), fresh) =
      elim (Bool-cases (rename host disk name).0) [
        | inl moved ↦
            let (j, q) = rename-journal disk name p fresh moved in
            rw moved (
              rotate_recorded-Settled _ bytes
                (record_rotation-Settled sink name (rename host disk name).1 bytes (j ∙ e, q, k)))
        | inr fails ↦ rw fails tt
      ]

  pub rotate_flushed-Settled :
      (o : Outcome) (name bytes : Bytes)
      → Settled bytes o
      → without name o.2.rotated ≡ o.2.rotated
      → Settled bytes (rotate_flushed host (sync_ops host) name o)
  unfolding rotate_flushed Settled rotate_closed
  rotate_flushed-Settled (ok, sink, disk) name bytes h fresh =
      rotate_closed-Settled (sync_close host sink disk) name bytes
        (sync_close-Unmoved sink disk name bytes h fresh)
  rotate_flushed-Settled (failure, sink, disk) name bytes h fresh = tt

  pub sync_flush-Settled :
      (sink : FileSink) (disk : Disk)
      → sink.retention_files ≡ 0
      → Settled (journal disk) (sync_flush host sink disk)
  unfolding sync_flush Settled
  sync_flush-Settled sink disk k = elim (Bool-cases sink.stream) [
    | inr not_live ↦ rw not_live tt
    | inl live ↦ elim (Bool-cases (fflush host disk).0) [
      | inl flushed ↦ rw (live, flushed) (fflush-journal disk flushed, unfold fflush in refl, k)
      | inr fails ↦ rw (live, fails) tt
    ]
  ]

  pub sync_flush-rotated :
      (sink : FileSink) (disk : Disk) → (sync_flush host sink disk).2.rotated ≡ disk.rotated
  unfolding sync_flush fflush
  sync_flush-rotated sink disk = elim (Bool-cases sink.stream) [
    | inl live ↦ rw live refl
    | inr not_live ↦ rw not_live refl
  ]
