-- ===== src/Sinks/Wire/Sends.antt =====
-- What the loop of `ij_syslog_send_all` puts on the wire, whatever the kernel does.
use iojournal.Prelude.{
  Bool-cases, Bytes, Option, [], ap, append-nil, append_assoc, arith, drop, drop-drop, false, inl,
  inr, length, length-drop, ltb, ltb→lt, lt→ltb, none, refl, some, subst, suc, sym, take,
  take-take-drop, zero, ℕ, ◌++◌, ◌+◌, ◌<◌, ◌==◌, ◌∙◌, ◌≡◌, ◌≤◌, ◌⊎◌,
}
use iojournal.Types.{Status, ok, sink_error}
use iojournal.Sinks.Wire.{Kernel, TakesAtMost, Wire, send, send_all, send_rounds}

-- a call that asks for something and is not given any
pub record Refusal (kernel : Kernel) : Type 0 where
  pub call : ℕ
  pub size : ℕ
  pub asks : 0 < size
  pub gets : (kernel call size ≡ none) ⊎ (kernel call size ≡ some 0)

-- How the loop ends: with everything sent, or at a refusal in front of the end.
pub data Ends (kernel : Kernel) (size : ℕ) : Status → ℕ → Type 0 where
  all_sent : {count : ℕ} → count ≡ size → Ends kernel size ok count
  refused : {count : ℕ} → count < size → Refusal kernel → Ends kernel size sink_error count

pub Ends-cases :
    {kernel : Kernel} {size : ℕ} {status : Status} {count : ℕ}
    → Ends kernel size status count
    → ((status ≡ ok) × (count ≡ size)) ⊎ ((status ≡ sink_error) × (count < size) × Refusal kernel)
Ends-cases (all_sent h) = inl (refl, h)
Ends-cases (refused h refusal) = inr (refl, h, refusal)

-- The outcome: from `total_sent` on, `count` bytes are sent.
pub record Sent (kernel : Kernel) (buffer : Bytes) (total_sent : ℕ) (wire : Wire)
    (result : Option (Status × Wire)) : Type 0 where
  pub status : Status
  pub wire' : Wire
  pub count : ℕ
  pub returns : result ≡ some (status, wire')
  pub sends : wire'.sent ≡ wire.sent ++ take count (drop total_sent buffer)
  pub ends : Ends kernel (length buffer) status (total_sent + count)

-- one call, by the answer of the kernel
abbrev pub called : Wire → Bytes → Wire
called wire accepted = record { calls = suc wire.calls; sent = wire.sent ++ accepted }

pub send-none :
    (kernel : Kernel) (wire : Wire) (request : Bytes)
    → kernel wire.calls (length request) ≡ none
    → send kernel wire request ≡ (none, called wire [])
unfolding send
send-none kernel wire request e = rw (send, e, append-nil wire.sent) refl

pub send-some :
    (kernel : Kernel) (wire : Wire) (request : Bytes) {count : ℕ}
    → kernel wire.calls (length request) ≡ some count
    → send kernel wire request ≡ (some count, called wire (take count request))
unfolding send
send-some kernel wire request e = rw (send, e) refl

module _ (kernel : Kernel) (honest : TakesAtMost kernel) where
  empty_answer :
      (buffer : Bytes) (total_sent call : ℕ)
      → total_sent < length buffer
      → (kernel call (length (drop total_sent buffer)) ≡ none)
        ⊎ (kernel call (length (drop total_sent buffer)) ≡ some 0)
      → Refusal kernel
  empty_answer buffer total_sent call more gets = record {
    call = call;
    size = length (drop total_sent buffer);
    asks = omega (arith, length-drop total_sent buffer);
    gets = gets;
  }

  -- nothing is sent in the round, and the loop is left
  stopped_early :
      (buffer : Bytes) (total_sent : ℕ) (wire wire' : Wire)
      → total_sent < length buffer
      → wire'.sent ≡ wire.sent
      → Refusal kernel
      → Sent kernel buffer total_sent wire (some (sink_error, wire'))
  stopped_early buffer total_sent wire wire' more same_sent refusal = record {
    status = sink_error;
    wire' = wire';
    count = 0;
    returns = refl;
    sends = same_sent ∙ sym (append-nil wire.sent);
    ends = refused (omega arith) refusal;
  }

  -- a round that sends something, in front of the other rounds
  one_more :
      (buffer : Bytes) (total_sent count : ℕ) (wire wire' : Wire) {result : Option (Status × Wire)}
      → wire'.sent ≡ wire.sent ++ take count (drop total_sent buffer)
      → Sent kernel buffer (total_sent + count) wire' result
      → Sent kernel buffer total_sent wire result
  one_more buffer total_sent count wire wire' sends rest = record {
    status = rest.status;
    wire' = rest.wire';
    count = count + rest.count;
    returns = rest.returns;
    sends =
        rest.sends
        ∙ rw
            (
              sends,
              append_assoc wire.sent (take count (drop total_sent buffer))
                  (take rest.count (drop (total_sent + count) buffer)),
              ← drop-drop total_sent count buffer,
              take-take-drop count rest.count (drop total_sent buffer),
            )
            refl;
    ends = subst (Ends kernel (length buffer) rest.status) (omega arith) rest.ends;
  }

  -- the loop is over
  at_end :
      (buffer : Bytes) (total_sent : ℕ) (wire : Wire)
      → total_sent ≡ length buffer
      → Sent kernel buffer total_sent wire (some (ok, wire))
  at_end buffer total_sent wire h = record {
    status = ok;
    wire' = wire;
    count = 0;
    returns = refl;
    sends = sym (append-nil wire.sent);
    ends = all_sent (omega arith);
  }

  a_round :
      (fuel : ℕ) (buffer : Bytes) (total_sent : ℕ) (wire : Wire) (answer : Option ℕ)
      → kernel wire.calls (length (drop total_sent buffer)) ≡ answer
      → total_sent < length buffer
      → ((count : ℕ) (wire' : Wire)
          → 0 < count
          → total_sent + count ≤ length buffer
          → Sent kernel buffer
              (total_sent + count)
              wire'
              (send_rounds kernel fuel buffer (total_sent + count) wire'))
      → Sent kernel buffer total_sent wire (send_rounds kernel (suc fuel) buffer total_sent wire)
  unfolding send_rounds
  a_round fuel buffer total_sent wire none e more rounds =
      rw
        (
          send_rounds,
          lt→ltb total_sent (length buffer) more,
          send-none kernel wire (drop total_sent buffer) e,
          send-none kernel wire (drop total_sent buffer) e,
        )
        (stopped_early buffer total_sent wire (called wire []) more (append-nil wire.sent)
          (empty_answer buffer total_sent wire.calls more (inl e)))
  a_round fuel buffer total_sent wire (some count) e more rounds = elim (Bool-cases (count == 0)) [
    | inl nothing ↦
        let is_zero : count ≡ 0 = ground arith in
        rw
          (
            send_rounds,
            lt→ltb total_sent (length buffer) more,
            send-some kernel wire (drop total_sent buffer) e,
            nothing,
            send-some kernel wire (drop total_sent buffer) e,
          )
          (stopped_early buffer total_sent wire (called wire (take count (drop total_sent buffer)))
            more (rw is_zero (append-nil wire.sent))
            (empty_answer buffer total_sent wire.calls more (inr (rw e (ap some is_zero)))))
    | inr something ↦
        rw
          (
            send_rounds,
            lt→ltb total_sent (length buffer) more,
            send-some kernel wire (drop total_sent buffer) e,
            something,
            send-some kernel wire (drop total_sent buffer) e,
          )
          (one_more buffer total_sent count wire (called wire (take count (drop total_sent buffer)))
            refl
            (rounds count _ (ground arith) (
              omega (
                arith,
                length-drop total_sent buffer,
                honest wire.calls (length (drop total_sent buffer)) count e,
              ))))
  ]

  pub send_rounds-Sent :
      (fuel : ℕ) (buffer : Bytes) (total_sent : ℕ) (wire : Wire)
      → length buffer ≤ fuel + total_sent
      → total_sent ≤ length buffer
      → Sent kernel buffer total_sent wire (send_rounds kernel fuel buffer total_sent wire)
  unfolding send_rounds
  send_rounds-Sent zero buffer total_sent wire h k =
      let enough : ltb total_sent (length buffer) ≡ false = ground arith in
      rw (send_rounds, enough) (at_end buffer total_sent wire (omega arith))
  send_rounds-Sent (suc fuel) buffer total_sent wire h k =
      elim (Bool-cases (ltb total_sent (length buffer))) [
        | inl more ↦
            a_round fuel buffer total_sent wire _ refl (ltb→lt total_sent (length buffer) more)
              (λ count wire' p q.
                send_rounds-Sent fuel buffer (total_sent + count) wire' (omega arith) q)
        | inr enough ↦ rw (send_rounds, enough) (at_end buffer total_sent wire (ground arith))
      ]

  pub send_all-Sent :
      (buffer : Bytes) (wire : Wire) → Sent kernel buffer 0 wire (send_all kernel buffer wire)
  unfolding send_all
  send_all-Sent buffer wire =
      send_rounds-Sent (length buffer) buffer 0 wire (omega arith) (omega arith)
