-- ===== src/Lib.antt =====
-- iojournal, a structured logging library in C: an event is validated, copied into memory of its
-- own with secrets replaced, encoded as a record of JSON or NDJSON, and given to a sink.
--
-- The parts, their files and the files that model them:
-- * Event, Event.Scan, Event.Copy model src/core/ij_event.c. `Event` is `ij_validate_event`;
--   `Event.Scan` has the single-pass scans that the copy uses in place of validation; `Event.Copy`
--   is `ij_event_copy_from_input`: the tests and measurements up to the first `malloc` are
--   `measure_event`, everything behind it is `allocate_and_copy`. The text arena is a block of
--   bytes that is filled at a cursor, an owned string an offset and a length in it.
-- * Utf8 models src/core/ij_utf8_scalar.c, src/core/ij_utf8_x86_avx2.c and
--   src/core/ij_utf8_arm_neon.c. `Utf8.Spec` is RFC 3629.
-- * Escape models src/encoders/ij_json_escape_scalar.c and its two vector variants; Simd models
--   src/encoders/ij_simd_dispatch.h.
-- * Redact models src/filters/ij_redact.c and src/filters/ij_redact_match_scalar.c;
--   `Redact.Spec` is the denylist as a list. `Redact.Simd` models the vector variants in
--   src/filters/ij_redact_match_x86_avx2.c and src/filters/ij_redact_match_arm_neon.c.
-- * Json models src/encoders/ij_json_console.c and src/encoders/ij_ndjson.c. The builder is a
--   capacity and the text written so far, with its terminator left out. `Json.Put` states the
--   contract of every append operation: the whole text, or a failure. `Json.Escaped.Read` is a
--   reader of the strings of RFC 8259, `Json.Encode.Text` the record as a text with no buffer.
-- * Timestamp models `ij_format_timestamp_rfc3339` of src/encoders/ij_json_console.c, and Decimal
--   the notation of numbers.
-- * Levels models `ij_level_is_valid` of src/core/ij_logger.c and src/filters/ij_level_filter.c.
-- * Ring models src/core/ij_queue.c over any type of events. `Ring.Inv` is its invariant,
--   `Ring.Queue` the bounded first-in, first-out queue that it stands for, `Ring.Reach` the rings
--   that calls can lead to.
-- * Config models the configuration of src/core/ij_logger.c and its validation. Logger models the
--   life of a logger, and `Logger.Log` is `ij_logger_log`, which composes the filter, the copy, an
--   encoder and a sink.
-- * Rfc5424 models src/encoders/ij_rfc5424.c; `Rfc5424.Read` is a reader of such records.
-- * Sinks models src/sinks. `Sinks.Wire` has the calls on a descriptor and the loop of
--   `ij_syslog_send_all`, `Sinks.Console` src/sinks/ij_console_sink.c, `Sinks.Syslog`
--   src/sinks/ij_syslog_tcp.c and src/sinks/ij_syslog_udp.c, `Sinks.File` and `Sinks.File.Rotate`
--   src/sinks/ij_file_sink.c with src/sinks/ij_file_sink_sync.c, and `Sinks.File.Calls` the calls of
--   the C library that they make. `Sinks.Syslog.Frames` is a strict receiver of octet counting.
-- * Types models include/iojournal/iojournal_types.h and src/ij_internal.h. Strings has the parts of
--   string.h that the code calls, and Prelude the names and the lemmas that all files share.
-- Each component's tests stand in the module Tests below it.
--
-- How the model corresponds to the code: a byte is a number below 256, a C string the list of the
-- bytes in front of the end of its array, `none` a NULL pointer. A function that fails returns
-- `none` or a status. Signed 64-bit numbers and doubles are their bit patterns. `size_t` sums wrap
-- around in the builder; the event copy adds only lengths that passed their limits, so its sums
-- are far below the range. A vector is the list of its lanes.
--
-- The state that a call changes is passed in and given back: a ring, a sink, and for a logger the
-- world, which is what was written so far. A mutex is held throughout an operation of the ring, so
-- threads are a sequence of whole operations, each with what the mutex answers it. The bytes of a
-- file are apart from those that wait in the buffer of its stream.
--
-- Fuel: the UTF-8 loop, the vector loops and the escaping loop run on the length of what is left,
-- of which every round takes at least one byte; the loops that send run on the number of bytes, of
-- which every round sends one; the digit loop runs on the 20 places of its array and fails if they
-- run out. The theorems on these functions state what they return, so that the fuel is enough is
-- part of them.
--
-- Parameters, for code that belongs to the platform: the processor's features, `malloc`, `gmtime_r`,
-- the clock, the notation of a double by `snprintf`, the mutex, and what the kernel, the resolver,
-- the sockets and the file system answer to each call.
--
-- Not modelled: the io_uring backend as it is built with liburing, in
-- src/sinks/ij_file_sink_uring.c; `ij_event_copy_dispose`, which frees; src/core/ij_version.c, which
-- returns constants; tests, benchmarks and examples.
pub mod Config
pub mod Decimal
pub mod Escape
pub mod Event
pub mod Json
pub mod Levels
pub mod Logger
pub mod Prelude
pub mod Redact
pub mod Rfc5424
pub mod Ring
pub mod Simd
pub mod Sinks
pub mod Strings
pub mod Timestamp
pub mod Types
pub mod Utf8
