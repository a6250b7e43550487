-- ===== src/Sinks/Syslog/Tcp.antt =====
-- `ij_syslog_tcp_write` on a connection: one write, and the writes of a session.
use iojournal.Prelude.{
  Bytes, Option, [], append_assoc, arith, false, inl, inr, leb, length, length-append, refl, some,
  subst, sym, take, take-append_le, take-append_length, take-length, ℕ, ◌++◌, ◌+◌, ◌<◌, ◌==◌, ◌^◌,
  ◌∙◌, ◌∷◌, ◌≡◌, ◌≤◌,
}
use iojournal.Types.{Status, sink_error}
use iojournal.Sinks.Wire.{Kernel, TakesAtMost, Wire, send_all}
use iojournal.Decimal.{decimal, length-decimal}
use iojournal.Sinks.Wire.Sends.{Ends, Ends-cases, Refusal, Sent, all_sent, refused, send_all-Sent}
use iojournal.Sinks.Syslog.{SyslogSink, frame_prefix, is_negative, send_frame, send_next, tcp_write}
use iojournal.Sinks.Syslog.Frames.{frame}

abbrev pub prefix_of : Bytes → Bytes
prefix_of payload = decimal (length payload) ++ b' ' ∷ []

frame_prefix-fits :
    (payload : Bytes)
    → length payload < 2 ^ 64
    → frame_prefix (length payload) ≡ some (prefix_of payload)
unfolding frame_prefix
frame_prefix-fits payload h =
    let digits : length (decimal (length payload)) ≤ 20 =
      length-decimal 20 (length payload) (omega arith) (omega arith) in
    let fits : leb 32 (length (prefix_of payload)) ≡ false =
      ground (arith, length-append (decimal (length payload)) (b' ' ∷ [])) in
    rw fits refl

Ends-shift :
    {kernel : Kernel} (n m c : ℕ) {status : Status}
    → Ends kernel n status (0 + c)
    → Ends kernel (m + n) status (0 + (m + c))
Ends-shift n m c (all_sent h) = all_sent (omega arith)
Ends-shift n m c (refused h refusal) = refused (omega arith) refusal

module _ (kernel : Kernel) (honest : TakesAtMost kernel) where
  -- the first of two texts is not sent to its end
  first_fails :
      (a b : Bytes) (wire : Wire) {result : Option (Status × Wire)}
      → (s : Sent kernel a 0 wire result) → s.count < length a
      → Refusal kernel
      → Sent kernel (a ++ b) 0 wire (some (sink_error, s.wire'))
  first_fails a b wire s h refusal = record {
    status = sink_error;
    wire' = s.wire';
    count = s.count;
    returns = refl;
    sends = rw (take-append_le s.count a b (omega arith)) s.sends;
    ends = refused (omega (arith, length-append a b)) refusal;
  }

  -- both are sent, the second to where it is refused
  then_second :
      (a b : Bytes) (wire : Wire) {first second : Option (Status × Wire)}
      → (s : Sent kernel a 0 wire first) → s.count ≡ length a
      → Sent kernel b 0 s.wire' second
      → Sent kernel (a ++ b) 0 wire second
  then_second a b wire s h t = record {
    status = t.status;
    wire' = t.wire';
    count = length a + t.count;
    returns = t.returns;
    sends =
        t.sends
        ∙ rw
            (
              s.sends,
              h,
              take-length a,
              append_assoc wire.sent a (take t.count b),
              take-append_length a b t.count,
            )
            refl;
    ends =
        subst (λ n. Ends kernel n t.status (0 + (length a + t.count))) (sym (length-append a b))
          (Ends-shift (length b) (length a) t.count t.ends);
  }

  -- The writes of a prefix and of a payload.
  in_turn :
      (a b : Bytes) (wire : Wire)
      → Sent kernel (a ++ b) 0 wire (send_next kernel b (send_all kernel a wire))
  unfolding send_next
  in_turn a b wire =
      let first = send_all-Sent kernel honest a wire in
      elim (Ends-cases first.ends) [
        | inl (fine, whole) ↦
            rw (first.returns, fine)
              (then_second a b wire first (omega arith) (send_all-Sent kernel honest b first.wire'))
        | inr (failed, part, refusal) ↦
            rw (first.returns, failed) (first_fails a b wire first (omega arith) refusal)
      ]

  -- On a sink that has a socket, with a kernel that takes no more than it is given, and for a
  -- payload of 1 to 2^64 - 1 bytes, `ij_syslog_tcp_write` returns: it returns OK with the whole
  -- frame of the payload sent, or SINK_ERROR with a shorter part from its front sent and a request
  -- of the kernel that failed or took nothing.
  pub tcp_write-Sent :
      (sink : SyslogSink) (payload : Bytes) (wire : Wire)
      → is_negative sink.fd ≡ false
      → 0 < length payload
      → length payload < 2 ^ 64
      → Sent kernel (frame payload) 0 wire (tcp_write kernel (some sink) (some payload) wire)
  unfolding tcp_write send_frame
  tcp_write-Sent sink payload wire live filled small =
      let not_empty : length payload == 0 ≡ false = ground arith in
      rw (not_empty, live, send_frame, frame_prefix-fits payload small)
        (subst
          (λ t.
            Sent kernel t 0 wire
              (send_next kernel payload (send_all kernel (prefix_of payload) wire)))
          (append_assoc (decimal (length payload)) (b' ' ∷ []) payload)
          (in_turn (prefix_of payload) payload wire))
