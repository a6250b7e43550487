-- ===== src/Sinks/Syslog/Session.antt =====
-- The records of a connection, written one behind the other.
use iojournal.Prelude.{
  All, All-append, Bytes, List, [], append-nil, append_assoc, arith, false, length, refl, some,
  ◌++◌, ◌<◌, ◌^◌, ◌∙◌, ◌∷◌, ◌≡◌,
}
use iojournal.Types.{ok}
use iojournal.Sinks.Syslog.Tcp.{tcp_write-Sent}
use iojournal.Sinks.Wire.{Kernel, TakesAtMost, Wire}
use iojournal.Sinks.Syslog.{SyslogSink, is_negative, tcp_write}
use iojournal.Sinks.Syslog.Frames.{frame, frames, read_frames-frames, read_stream}
use iojournal.Sinks.Wire.Complete.{Sent-ok}

module _ (kernel : Kernel) (honest : TakesAtMost kernel) (sink : SyslogSink) where
  -- A new connection, and writes that were successful.
  pub data Session : Wire → List Bytes → Type 0 where
    connected : {wire : Wire} → wire.sent ≡ [] → Session wire []
    written :
        {wire wire' : Wire} {payloads : List Bytes} (payload : Bytes)
        → Session wire payloads
        → length payload < 2 ^ 64
        → tcp_write kernel (some sink) (some payload) wire ≡ some (ok, wire')
        → Session wire' (payloads ++ payload ∷ [])

  tcp_write-accepts :
      (payload : Bytes) (wire wire' : Wire)
      → tcp_write kernel (some sink) (some payload) wire ≡ some (ok, wire')
      → (is_negative sink.fd ≡ false) × (0 < length payload)
  unfolding tcp_write
  tcp_write-accepts payload wire wire' e = ground arith

  frames-append : (xs ys : List Bytes) → frames (xs ++ ys) ≡ frames xs ++ frames ys
  frames-append [] ys = refl
  frames-append (x ∷ xs) ys =
      rw (frames-append xs ys, append_assoc (frame x) (frames xs) (frames ys)) refl

  tcp_write-ok :
      (payload : Bytes) (wire wire' : Wire)
      → length payload < 2 ^ 64
      → tcp_write kernel (some sink) (some payload) wire ≡ some (ok, wire')
      → wire'.sent ≡ wire.sent ++ frame payload
  tcp_write-ok payload wire wire' small e =
      let (live, filled) = tcp_write-accepts payload wire wire' e in
      let s = tcp_write-Sent kernel honest sink payload wire live filled small in Sent-ok s e

  Session-frames :
      {wire : Wire} {payloads : List Bytes} → Session wire payloads → wire.sent ≡ frames payloads
  Session-frames (connected e) = e
  Session-frames (written {wire} {wire'} {payloads} payload before small e) =
      tcp_write-ok payload wire wire' small e
      ∙ rw
          (Session-frames before, frames-append payloads (payload ∷ []), append-nil (frame payload))
          refl

  Session-filled :
      {wire : Wire} {payloads : List Bytes}
      → Session wire payloads
      → All (λ payload. 0 < length payload) payloads
  Session-filled (connected e) = tt
  Session-filled (written {wire} {wire'} {payloads} payload before small e) =
      All-append (λ p. 0 < length p) payloads (payload ∷ []) (Session-filled before)
        ((tcp_write-accepts payload wire wire' e).1, tt)

  -- On a new connection whose kernel takes no more than it is given, after any number of
  -- successful calls of `ij_syslog_tcp_write` with payloads shorter than 2^64 bytes, a strict
  -- receiver of octet counting (RFC 6587), which refuses a count that is not digits or starts with
  -- 0, a missing space, a frame that is cut and a byte between or behind the frames, reads the
  -- stream to its end and gets exactly the payloads, in their order.
  pub Session-read_stream :
      {wire : Wire} {payloads : List Bytes}
      → Session wire payloads
      → read_stream wire.sent ≡ some payloads
  Session-read_stream {wire} {payloads} session = rw (Session-frames session) (
      read_frames-frames payloads (length (frames payloads)) (Session-filled session) (omega arith))
