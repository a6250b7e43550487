-- ===== src/Sinks/Tests.antt =====
-- The sinks with a concrete kernel, network and file system.
use iojournal.Prelude.{
  [], arith, codes, drop, max, min, negsuc, none, pos, refl, some, take, true, ◌++◌, ◌∷◌, ◌≡◌,
}
use iojournal.Decimal.{decimal, decimal_digits, read_digits, read_number}
use iojournal.Config.{backend_sync}
use iojournal.Strings.{memcmp_equal}
use iojournal.Types.{ok}
use iojournal.Sinks.Wire.{Kernel, TakesAtMost, TakesSome, Wire, send, send_all, send_rounds}
use iojournal.Sinks.Wire.Sends.{Sent}
use iojournal.Sinks.Console.{console_write, console_write-send_all, line}
use iojournal.Sinks.Syslog.{
  Network, SyslogSink, frame_prefix, send_frame, send_next, tcp_open, tcp_write, udp_open,
  udp_write,
}
use iojournal.Sinks.Syslog.Frames.{
  frame, put_first, read_counted, read_frame, read_frames, read_stream,
}
use iojournal.Sinks.Syslog.Tcp.{tcp_write-Sent}
use iojournal.Sinks.Syslog.Udp.{IsSent, udp_write_iff}
use iojournal.Sinks.Syslog.Open.{Opening, tcp_open-Opening, udp_open-Opening}
use iojournal.Sinks.Syslog.Session.{Session-read_stream, connected, written}
use iojournal.Sinks.File.{FileSink}
use iojournal.Sinks.File.Calls.{Disk, Host, without}
use iojournal.Sinks.File.Rotate.{file_sink_write, retention_rounds}
use iojournal.Sinks.File.Journal.{Written}
use iojournal.Sinks.File.Retention.{excess, retention_rounds-newest, unlink_all}
use iojournal.Timestamp.Tests.{one_instant}
use iojournal.Sinks.File.Journal.Write.{file_sink_write-Written}
use iojournal.Sinks.Wire.Complete.{send_all-TakesSome}
use iojournal.Rfc5424.Read.{after, before}
use iojournal.Sinks.File.Size.{Bounded, file_sink_write-Bounded}

-- a kernel that takes two bytes at a time, or the one that is left
abbrev pub two_at_a_time : Kernel
two_at_a_time call size = some (min 2 size)

pub two_at_a_time-TakesAtMost : TakesAtMost two_at_a_time
two_at_a_time-TakesAtMost call size count e = ground arith

pub two_at_a_time-TakesSome : TakesSome two_at_a_time
two_at_a_time-TakesSome call size h = (min 2 size, refl, omega arith)

abbrev new_wire : Wire
new_wire = record { calls = 0; sent = [] }

send_all-TakesSome_example :
    (wire' : Wire) × (send_all two_at_a_time (codes "abc") new_wire ≡ some (ok, wire'))
    × (wire'.sent ≡ new_wire.sent ++ codes "abc")
send_all-TakesSome_example =
    send_all-TakesSome two_at_a_time (codes "abc") new_wire two_at_a_time-TakesAtMost
      two_at_a_time-TakesSome

console_write-send_all_example :
    console_write two_at_a_time (some (codes "abc")) new_wire
    ≡ send_all two_at_a_time (line (codes "abc")) new_wire
console_write-send_all_example =
    console_write-send_all two_at_a_time two_at_a_time-TakesAtMost (codes "abc") new_wire
      (omega arith)

abbrev connected_sink : SyslogSink
connected_sink = record { fd = pos 5; address = codes "peer"; address_len = 4 }

tcp_write-Sent_example :
    Sent two_at_a_time
      (frame (codes "abc"))
      0
      new_wire
      (tcp_write two_at_a_time (some connected_sink) (some (codes "abc")) new_wire)
tcp_write-Sent_example =
    tcp_write-Sent two_at_a_time two_at_a_time-TakesAtMost connected_sink (codes "abc") new_wire
      refl (omega arith) (omega arith)

-- a kernel that takes everything
abbrev all_at_once : Kernel
all_at_once call size = some size

all_at_once-TakesAtMost : TakesAtMost all_at_once
all_at_once-TakesAtMost call size count e = ground arith

abbrev after_abc : Wire
after_abc = record { calls = 2; sent = codes "3 abc" }

abc_written :
    tcp_write all_at_once (some connected_sink) (some (codes "abc")) new_wire ≡ some (ok, after_abc)
unfolding tcp_write send_frame frame_prefix decimal decimal_digits send_next send_all send_rounds
    send
abc_written = refl

Session-read_stream_example : read_stream after_abc.sent ≡ some (codes "abc" ∷ [])
Session-read_stream_example =
    Session-read_stream all_at_once all_at_once-TakesAtMost connected_sink
      (written (codes "abc") (connected refl) (omega arith) abc_written)

-- a receiver that refuses what is not a stream of frames
stray_line_feed : read_stream (codes "3 abc\n3 def\n") ≡ none
unfolding read_frames read_frame read_counted put_first before after read_number read_digits
stray_line_feed = refl

two_frames : read_stream (codes "3 abc3 def") ≡ some (codes "abc" ∷ (codes "def" ∷ []))
unfolding read_frames read_frame read_counted put_first before after read_number read_digits
two_frames = refl

udp_write_iff_example :
    ((udp_write (λ n. some n) (some connected_sink) (some (codes "abc"))).0 ≡ ok
      → IsSent (λ n. some n) connected_sink (codes "abc"))
    × (IsSent (λ n. some n) connected_sink (codes "abc")
        → udp_write (λ n. some n) (some connected_sink) (some (codes "abc"))
          ≡ (ok, codes "abc" ∷ []))
udp_write_iff_example = udp_write_iff (λ n. some n) connected_sink (codes "abc")

-- a host with two addresses, of which the first does not answer
abbrev pub two_addresses : Network
two_addresses = record {
  resolve = λ host service. some (codes "a" ∷ (codes "b" ∷ []));
  socket = λ attempt entry. pos 4;
  connects = λ attempt fd entry. memcmp_equal entry (codes "b");
}

tcp_open-Opening_example : Opening (tcp_open two_addresses (some (codes "logs")) 514)
tcp_open-Opening_example = tcp_open-Opening two_addresses (some (codes "logs")) 514

udp_open-Opening_example : Opening (udp_open two_addresses (some (codes "logs")) 514)
udp_open-Opening_example = udp_open-Opening two_addresses (some (codes "logs")) 514

-- a file system on which everything works, at one instant
abbrev pub working : Host
working = record {
  opens = λ call. true;
  takes = λ call size. size;
  flushes = λ call size. size;
  renames = λ call. true;
  unlinks = λ call. true;
  allocates = λ call. true;
  time = λ call. 1777897845;
  gmtime = one_instant;
}

-- a sink whose file holds three bytes of at most four
abbrev nearly_full : FileSink
nearly_full = record {
  path = some (codes "app.log");
  requested_backend = backend_sync;
  active_backend = backend_sync;
  stream = true;
  fd = negsuc 0;
  rotate_bytes = 4;
  rotate_interval_seconds = 0;
  retention_files = 0;
  bytes_written = 3;
  rotation_sequence = 0;
  last_rotation_epoch = 0;
  rotated_paths = [];
}

abbrev three_bytes : Disk
three_bytes = record { calls = 0; active = some (codes "ab"); pending = codes "c"; rotated = [] }

file_sink_write-Written_example :
    Written
      (codes "abc" ++ codes "de")
      (file_sink_write working nearly_full (codes "de") three_bytes)
file_sink_write-Written_example =
    file_sink_write-Written working nearly_full (codes "de") three_bytes refl refl
      (λ path tm e. unfold without in refl)

file_sink_write-Bounded_example :
    Bounded (max 4 2) (file_sink_write working nearly_full (codes "de") three_bytes)
file_sink_write-Bounded_example =
    file_sink_write-Bounded working nearly_full (codes "de") three_bytes refl refl (omega arith)
      refl (omega arith)

retention_rounds-newest_example :
    retention_rounds working 1 (codes "x.1" ∷ (codes "x.2" ∷ [])) three_bytes ≡ (
      drop (excess 1 2) (codes "x.1" ∷ (codes "x.2" ∷ [])),
      unlink_all working (take (excess 1 2) (codes "x.1" ∷ (codes "x.2" ∷ []))) three_bytes,
    )
retention_rounds-newest_example =
    retention_rounds-newest working 1 (codes "x.1" ∷ (codes "x.2" ∷ [])) three_bytes
