-- ===== src/Sinks/File/Retention.antt =====
-- Which of the renamed files stay.
use iojournal.Prelude.{
  Bool-cases, Bytes, List, [], arith, drop, if◌then◌else◌, inl, inr, length, ltb, refl, suc, take,
  ℕ, ◌&&◌, ◌-◌, ◌==◌, ◌∙◌, ◌∷◌, ◌≡◌,
}
use iojournal.Sinks.File.Calls.{Disk, Host, unlink}
use iojournal.Sinks.File.Rotate.{retention_rounds}

-- how many of the oldest files are too many; a limit of 0 is none
abbrev pub excess : ℕ → ℕ → ℕ
excess retention_files count = if retention_files == 0 then 0 else count - retention_files

pub unlink_all : Host → List Bytes → Disk → Disk
unlink_all host [] disk = disk
unlink_all host (path ∷ paths) disk = unlink_all host paths (unlink host disk path)

-- The loop of `ij_file_sink_apply_retention` keeps the newest paths, as many as the limit allows
-- and all of them if it is 0, and unlinks the others, the oldest first.
pub retention_rounds-newest :
    (host : Host) (retention_files : ℕ) (paths : List Bytes) (disk : Disk)
    → retention_rounds host retention_files paths disk ≡ (
      drop (excess retention_files (length paths)) paths,
      unlink_all host (take (excess retention_files (length paths)) paths) disk,
    )
unfolding retention_rounds unlink_all
retention_rounds-newest host retention_files [] disk =
    let nothing : excess retention_files 0 ≡ 0 = ground arith in rw nothing refl
retention_rounds-newest host retention_files (path ∷ paths) disk =
    elim (Bool-cases (ltb 0 retention_files && ltb retention_files (suc (length paths)))) [
      | inl over ↦
          let one_more : excess retention_files (suc (length paths))
              ≡ suc (excess retention_files (length paths)) =
            ground arith in
          rw (over, one_more)
            (retention_rounds-newest host retention_files paths (unlink host disk path))
      | inr within_limit ↦
          let none_over : excess retention_files (suc (length paths)) ≡ 0 = ground arith in
          rw (within_limit, none_over) refl
    ]

module _ (host : Host) where
  unlink_all-active :
      (paths : List Bytes) (disk : Disk) → (unlink_all host paths disk).active ≡ disk.active
  unfolding unlink_all
  unlink_all-active [] disk = refl
  unlink_all-active (path ∷ paths) disk =
      unlink_all-active paths (unlink host disk path)
      ∙ unfold unlink in
        elim (Bool-cases (host.unlinks disk.calls)) [ inl u ↦ rw u refl | inr k ↦ rw k refl ]

  -- Files are unlinked, but not the one that is written.
  pub retention_rounds-active :
      (retention_files : ℕ) (paths : List Bytes) (disk : Disk)
      → (retention_rounds host retention_files paths disk).1.active ≡ disk.active
  retention_rounds-active retention_files paths disk =
      rw (retention_rounds-newest host retention_files paths disk)
        (unlink_all-active (take (excess retention_files (length paths)) paths) disk)
