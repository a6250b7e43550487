-- ===== src/Sinks/File/Journal.antt =====
-- What is kept when a sink writes: nothing is lost when the file of a sink is renamed and opened anew.
pub mod Steps
pub mod Write
use iojournal.Prelude.{Bytes, List, [], some, suc, ◌%◌, ◌++◌, ◌+◌, ◌^◌, ◌∷◌, ◌≡◌}
use iojournal.Types.{Result, done, fail, ok}
use iojournal.Sinks.File.Calls.{Disk, bytes_of, without}
use iojournal.Sinks.File.{FileSink, Outcome}
use iojournal.Sinks.File.Rotate.{rotation_name}
use iojournal.Timestamp.{Tm}

-- the bytes of the renamed files in their order
abbrev pub contents_of : List (Bytes × Bytes) → Bytes
contents_of [] = []
contents_of ((name, bytes) ∷ files) = bytes ++ contents_of files

-- Everything that was written and is still there, the oldest byte first.
abbrev pub journal : Disk → Bytes
journal disk = contents_of disk.rotated ++ (bytes_of disk.active ++ disk.pending)

-- A step that is successful leaves these bytes, none of them pending, and keeps all files.
pub Settled : Bytes → Outcome → Type 0
Settled bytes (ok, sink, disk) =
    (journal disk ≡ bytes) × (disk.pending ≡ []) × (sink.retention_files ≡ 0)
Settled bytes (failure, sink, disk) = Unit

-- a step that is successful leaves these bytes
pub Written : Bytes → Outcome → Type 0
Written bytes (ok, sink, disk) = journal disk ≡ bytes
Written bytes (failure, sink, disk) = Unit

-- No renamed file has a name that the next rotation may give.
abbrev pub NextIsFresh : FileSink → Disk → Type 0
NextIsFresh sink disk =
    (path : Bytes) (tm : Tm)
    → sink.path ≡ some path
    → without (rotation_name path tm ((sink.rotation_sequence + 1) % 2 ^ 64)) disk.rotated
      ≡ disk.rotated

-- one call more, and the same files
abbrev pub after_call : Disk → Disk
after_call disk = record disk { calls = suc disk.calls }

-- a name that is fresh, or a failure, behind a call
pub Named : Disk → Result Bytes × Disk → Type 0
Named disk (done name, disk') =
    (disk' ≡ after_call disk) × (without name disk.rotated ≡ disk.rotated)
Named disk (fail status, disk') = Unit
