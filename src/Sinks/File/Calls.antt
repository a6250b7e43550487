-- ===== src/Sinks/File/Calls.antt =====
-- The calls of the C library that the file sink makes. A file is the bytes in it; what is written to
use iojournal.Prelude.{
  Bool, Bytes, List, Option, [], false, if◌then◌else◌, length, none, some, suc, take, true, ℕ, ◌++◌,
  ◌==◌, ◌∷◌,
}
use iojournal.Timestamp.{Gmtime}
use iojournal.Strings.{memcmp_equal}

-- a stream is pending until the stream is flushed.

-- The answers, by the number of the call: whether `fopen`, `rename` and `malloc` succeed, how much
-- of a request `fwrite` takes and how much of the pending bytes gets to the file, and the clock.
pub record Host : Type 0 where
  pub opens : ℕ → Bool
  pub takes : ℕ → ℕ → ℕ
  pub flushes : ℕ → ℕ → ℕ
  pub renames : ℕ → Bool
  pub unlinks : ℕ → Bool
  pub allocates : ℕ → Bool
  pub time : ℕ → ℕ
  pub gmtime : Gmtime

-- The file that is written, if there is one, what is pending for it, and the files that were
-- renamed, each with its name.
pub record Disk : Type 0 where
  pub calls : ℕ
  pub active : Option Bytes
  pub pending : Bytes
  pub rotated : List (Bytes × Bytes)

-- the bytes of a file that may not be there
abbrev pub bytes_of : Option Bytes → Bytes
bytes_of none = []
bytes_of (some bytes) = bytes

-- `fopen(path, "ab")`
unfoldable pub fopen : Host → Disk → Bool × Disk
fopen host disk =
    if host.opens disk.calls
    then (
      true,
      record disk { calls = suc disk.calls; active = some (bytes_of disk.active); pending = [] },
    )
    else (false, record disk { calls = suc disk.calls })

unfoldable pub fwrite : Host → Disk → Bytes → ℕ × Disk
fwrite host disk payload =
    let count = host.takes disk.calls (length payload) in
    (count, record disk { calls = suc disk.calls; pending = disk.pending ++ take count payload })

-- `fflush`: where it fails, what did not get to the file is lost.
unfoldable pub fflush : Host → Disk → Bool × Disk
fflush host disk =
    let count = host.flushes disk.calls (length disk.pending) in
    (
      count == length disk.pending,
      record disk {
        calls = suc disk.calls;
        active = some (bytes_of disk.active ++ take count disk.pending);
        pending = [];
      },
    )

unfoldable pub fclose : Host → Disk → Disk
fclose host disk = let (flushed, disk') = fflush host disk in disk'

-- the files without those of a name
unfoldable pub without : Bytes → List (Bytes × Bytes) → List (Bytes × Bytes)
without name [] = []
without name ((other_name, bytes) ∷ files) =
    let rest = without name files in
    if memcmp_equal name other_name then rest else (other_name, bytes) ∷ rest

-- `rename(path, name)`, which replaces a file of that name; it fails where there is no file.
unfoldable pub rename : Host → Disk → Bytes → Bool × Disk
rename host disk name = elim disk.active [
  | none ↦ (false, record disk { calls = suc disk.calls })
  | some bytes ↦
      if host.renames disk.calls
      then (
        true,
        record disk {
          calls = suc disk.calls;
          active = none;
          rotated = without name disk.rotated ++ (name, bytes) ∷ [];
        },
      )
      else (false, record disk { calls = suc disk.calls })
]

-- `unlink(name)`
unfoldable pub unlink : Host → Disk → Bytes → Disk
unlink host disk name =
    if host.unlinks disk.calls
    then record disk { calls = suc disk.calls; rotated = without name disk.rotated }
    else record disk { calls = suc disk.calls }

-- `malloc` and `realloc`
unfoldable pub malloc : Host → Disk → Bool × Disk
malloc host disk = (host.allocates disk.calls, record disk { calls = suc disk.calls })

-- `time(NULL)`
unfoldable pub time_of : Host → Disk → ℕ × Disk
time_of host disk = (host.time disk.calls, record disk { calls = suc disk.calls })
