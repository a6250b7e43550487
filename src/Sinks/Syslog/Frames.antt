-- ===== src/Sinks/Syslog/Frames.antt =====
-- The stream of `ij_syslog_tcp_write`: octet counting (RFC 6587, section 3.4.1), and its reader.
use iojournal.Prelude.{
  All, Bytes, List, Option, [], append_assoc, arith, drop, drop-append_self, false, if◌then◌else◌,
  length, length-append, ltb, none, not, refl, some, suc, take, take-append_self, zero, ℕ, ◌++◌,
  ◌<◌, ◌==◌, ◌||◌, ◌∷◌, ◌≡◌, ◌≤◌,
}
use iojournal.Decimal.{
  decimal, read_number, read_number-decimal, starts_nonzero, starts_nonzero-decimal,
}
use iojournal.Rfc5424.Read.{Lacks, after, after-append, before, before-append}
use iojournal.Rfc5424.Header.{decimal-Lacks}

-- the frame of a payload
abbrev pub frame : Bytes → Bytes
frame payload = decimal (length payload) ++ (b' ' ∷ payload)

abbrev pub frames : List Bytes → Bytes
frames [] = []
frames (payload ∷ payloads) = frame payload ++ frames payloads

unfoldable pub read_counted : Option ℕ → Bytes → Option (Bytes × Bytes)
read_counted none rest = none
read_counted (some count) rest =
    if ltb (length rest) count then none else some (take count rest, drop count rest)

-- A receiver of one frame: the payload, and what is behind it. The count is digits of which the
-- first is not 0, a space stands behind it, and all bytes that it counts are there.
unfoldable pub read_frame : Bytes → Option (Bytes × Bytes)
read_frame stream =
    let count_text = before b' ' stream in
    let rest = after b' ' stream in
    if not (starts_nonzero count_text) || length count_text == length stream
    then none
    else read_counted (read_number count_text) rest

unfoldable pub put_first : Bytes → Option (List Bytes) → Option (List Bytes)
put_first payload none = none
put_first payload (some payloads) = some (payload ∷ payloads)

-- A receiver of frames to the end of a stream, on fuel. It refuses a stream of anything else.
unfoldable pub read_frames : ℕ → Bytes → Option (List Bytes)
read_frames zero stream = if length stream == 0 then some [] else none
read_frames (suc fuel) stream = if length stream == 0 then some [] else elim (read_frame stream) [
  | none ↦ none
  | some (payload, rest) ↦ put_first payload (read_frames fuel rest)
]

-- A frame takes a byte of the stream at least, so that its length is enough fuel.
abbrev pub read_stream : Bytes → Option (List Bytes)
read_stream stream = read_frames (length stream) stream

read_frame-frame :
    (payload rest : Bytes)
    → 0 < length payload
    → read_frame (frame payload ++ rest) ≡ some (payload, rest)
unfolding read_frame read_counted
read_frame-frame payload rest filled =
    let count = decimal (length payload) in
    let digits : Lacks b' ' count = decimal-Lacks b' ' (length payload) (omega arith) in
    let e : frame payload ++ rest ≡ count ++ (b' ' ∷ (payload ++ rest)) =
      append_assoc count (b' ' ∷ payload) rest in
    let space : length count == length (count ++ (b' ' ∷ (payload ++ rest))) ≡ false =
      ground (arith, length-append count (b' ' ∷ (payload ++ rest))) in
    let all_there : ltb (length (payload ++ rest)) (length payload) ≡ false =
      ground (arith, length-append payload rest) in
    rw
      (
        e,
        before-append b' ' count (payload ++ rest) digits,
        after-append b' ' count (payload ++ rest) digits,
        starts_nonzero-decimal (length payload) filled,
        space,
        read_number-decimal (length payload),
        all_there,
        take-append_self payload rest,
        drop-append_self payload rest,
      )
      refl

length-frames :
    (payload : Bytes) (payloads : List Bytes)
    → length (frames payloads) < length (frame payload ++ frames payloads)
length-frames payload payloads = omega (
  arith,
  length-append (frame payload) (frames payloads),
  length-append (decimal (length payload)) (b' ' ∷ payload),
)

-- The receiver reads the payloads that the frames hold, and the end of the stream behind them.
pub read_frames-frames :
    (payloads : List Bytes) (fuel : ℕ)
    → All (λ payload. 0 < length payload) payloads
    → length (frames payloads) ≤ fuel
    → read_frames fuel (frames payloads) ≡ some payloads
unfolding read_frames put_first
read_frames-frames [] zero p h = refl
read_frames-frames [] (suc fuel) p h = refl
read_frames-frames (payload ∷ payloads) zero p h =
    absurd (omega (arith, h, length-frames payload payloads))
read_frames-frames (payload ∷ payloads) (suc fuel) (filled, all_filled) h =
    let not_empty : length (frame payload ++ frames payloads) == 0 ≡ false =
      ground (arith, length-frames payload payloads) in
    rw
      (
        not_empty,
        read_frame-frame payload (frames payloads) filled,
        read_frames-frames payloads fuel all_filled
            (omega (arith, h, length-frames payload payloads)),
      )
      refl
