-- ===== src/Sinks/Syslog/Udp.antt =====
-- `ij_syslog_udp_write`: one datagram for one record, or an error.
use iojournal.Prelude.{
  Bytes, Option, [], ap, arith, false, length, ltb, none, refl, some, take-length, true, ℕ, ◌<◌,
  ◌==◌, ◌∷◌, ◌≡◌, ◌≤◌,
}
use iojournal.Types.{ok}
use iojournal.Sinks.Syslog.{SyslogSink, datagram_result, is_negative, udp_target_max, udp_write}

-- what has to hold for a record to go out
pub record IsSent (sendto : ℕ → Option ℕ) (sink : SyslogSink) (payload : Bytes) : Type 0 where
  pub filled : 0 < length payload
  pub small : length payload ≤ udp_target_max
  pub live : is_negative sink.fd ≡ false
  pub addressed : 0 < sink.address_len
  pub taken_whole : sendto (length payload) ≡ some (length payload)

pub udp_write-sent :
    (sendto : ℕ → Option ℕ) (sink : SyslogSink) (payload : Bytes)
    → IsSent sendto sink payload
    → udp_write sendto (some sink) (some payload) ≡ (ok, payload ∷ [])
unfolding udp_write datagram_result
udp_write-sent sendto sink payload h =
    let not_empty : length payload == 0 ≡ false = ground (arith, h.filled) in
    let has_address : sink.address_len == 0 ≡ false = ground (arith, h.addressed) in
    let fits : ltb udp_target_max (length payload) ≡ false = ground (arith, h.small) in
    let whole : length payload == length payload ≡ true = ground arith in
    rw (not_empty, h.live, has_address, fits, h.taken_whole, whole, take-length payload) refl

of_answer :
    (sendto : ℕ → Option ℕ) (sink : SyslogSink) (payload : Bytes) (answer : Option ℕ)
    → sendto (length payload) ≡ answer
    → (length payload == 0 ≡ false)
    → (is_negative sink.fd ≡ false)
    → sink.address_len == 0 ≡ false
    → ltb udp_target_max (length payload) ≡ false
    → (datagram_result payload answer).0 ≡ ok
    → IsSent sendto sink payload
unfolding datagram_result
of_answer sendto sink payload none e a b c d h = absurd (ground arith)
of_answer sendto sink payload (some count) e a b c d h = record {
  filled = ground arith;
  small = ground arith;
  live = b;
  addressed = ground arith;
  taken_whole = rw e (ap some (ground arith));
}

pub udp_write-ok :
    (sendto : ℕ → Option ℕ) (sink : SyslogSink) (payload : Bytes)
    → (udp_write sendto (some sink) (some payload)).0 ≡ ok
    → IsSent sendto sink payload
unfolding udp_write
udp_write-ok sendto sink payload h =
    let a : length payload == 0 ≡ false = ground arith in
    let b : is_negative sink.fd ≡ false = ground arith in
    let c : sink.address_len == 0 ≡ false = ground arith in
    let d : ltb udp_target_max (length payload) ≡ false = ground arith in
    of_answer sendto sink payload (sendto (length payload)) refl a b c d (rw (a, b, c, d) at h)

-- `ij_syslog_udp_write` returns OK only if the payload has 1 to 2048 bytes, the sink has a socket
-- and an address, and `sendto` takes the payload whole; and if all this holds it returns OK and
-- has sent the payload as one datagram.
pub udp_write_iff :
    (sendto : ℕ → Option ℕ) (sink : SyslogSink) (payload : Bytes)
    → ((udp_write sendto (some sink) (some payload)).0 ≡ ok → IsSent sendto sink payload)
      × (IsSent sendto sink payload
          → udp_write sendto (some sink) (some payload) ≡ (ok, payload ∷ []))
udp_write_iff sendto sink payload =
    (udp_write-ok sendto sink payload, udp_write-sent sendto sink payload)
