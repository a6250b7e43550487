-- ===== src/Sinks/Console.antt =====
-- src/sinks/ij_console_sink.c: a record and a newline, written with `writev` until all of it is out.
use iojournal.Prelude.{
  Bool-cases, Bytes, Option, [], ap, arith, drop, drop-append_le, drop-append_self, false,
  if◌then◌else◌, inl, inr, leb, length, length-append, length-drop, ltb, none, refl, some, suc, sym,
  take, true, zero, ℕ, ◌++◌, ◌+◌, ◌-◌, ◌<◌, ◌==◌, ◌∙◌, ◌∷◌, ◌≡◌, ◌≤◌,
}
use iojournal.Sinks.Wire.{Kernel, TakesAtMost, Wire, send, send_all, send_rounds}
use iojournal.Types.{Status, invalid_argument, ok, sink_error}
use iojournal.Sinks.Wire.Sends.{called, send-none, send-some}

-- The two vectors of a round.
abbrev pub vectors : Bytes → ℕ → Bytes
vectors payload offset =
    (if leb (length payload) offset then [] else drop offset payload) ++ b'\n' ∷ []

-- where the next round starts
abbrev pub next_offset : Bytes → ℕ → ℕ → ℕ
next_offset payload offset written =
    if ltb offset (length payload)
    then offset
      + (if ltb (length payload - offset) written then length payload - offset else written)
    else offset

-- The loop of `ij_console_sink_write`, on fuel; `none` when the fuel is spent.
pub console_rounds : Kernel → ℕ → Bytes → ℕ → ℕ → Wire → Option (Status × Wire)
console_rounds kernel zero payload remaining offset wire =
    if ltb 0 remaining then none else some (ok, wire)
console_rounds kernel (suc fuel) payload remaining offset wire = elim (ltb 0 remaining) [
  | false ↦ some (ok, wire)
  | true ↦
      let (answer, wire') = send kernel wire (vectors payload offset) in
      elim answer [
        | none ↦ some (sink_error, wire')
        | some written ↦ elim (written == 0) [
          | true ↦ some (sink_error, wire')
          | false ↦ elim (leb remaining written) [
            | true ↦ some (ok, wire')
            | false ↦
                console_rounds kernel fuel payload (remaining - written)
                  (next_offset payload offset written) wire'
          ]
        ]
      ]
]

-- `ij_console_sink_write`; the pointer that may be NULL is an option.
pub console_write : Kernel → Option Bytes → Wire → Option (Status × Wire)
console_write kernel none wire = some (invalid_argument, wire)
console_write kernel (some payload) wire =
    if length payload == 0
    then some (invalid_argument, wire)
    else console_rounds kernel (length payload + 1) payload (length payload + 1) 0 wire

-- the bytes of a line
abbrev pub line : Bytes → Bytes
line payload = payload ++ b'\n' ∷ []

-- A round asks for what is left of the line.
vectors-line :
    (payload : Bytes) (offset : ℕ)
    → offset ≤ length payload
    → vectors payload offset ≡ drop offset (line payload)
vectors-line payload offset h = elim (Bool-cases (leb (length payload) offset)) [
  | inl past ↦
      let at_end : offset ≡ length payload = ground arith in
      rw (past, at_end, drop-append_self payload (b'\n' ∷ [])) refl
  | inr inside ↦ rw (inside, drop-append_le offset payload (b'\n' ∷ []) h) refl
]

tests :
    (payload : Bytes) (remaining offset : ℕ)
    → offset ≤ length payload
    → remaining + offset ≡ length payload + 1
    → (ltb 0 remaining ≡ true) × (ltb offset (length (line payload)) ≡ true)
tests payload remaining offset h k =
    (ground arith, ground (arith, length-append payload (b'\n' ∷ [])))

send_rounds-end :
    (kernel : Kernel) (fuel : ℕ) (buffer : Bytes) (total_sent : ℕ) (wire : Wire)
    → length buffer ≤ total_sent
    → send_rounds kernel fuel buffer total_sent wire ≡ some (ok, wire)
unfolding send_rounds
send_rounds-end kernel zero buffer total_sent wire h = ground arith
send_rounds-end kernel (suc fuel) buffer total_sent wire h = ground arith

module _ (kernel : Kernel) (honest : TakesAtMost kernel) where
  -- the rounds are those of the loop that sends a line
  a_round :
      (fuel : ℕ) (payload : Bytes) (remaining offset : ℕ) (wire : Wire) (answer : Option ℕ)
      → kernel wire.calls (length (drop offset (line payload))) ≡ answer
      → offset ≤ length payload
      → remaining + offset ≡ length payload + 1
      → ((written : ℕ) (wire' : Wire)
          → 0 < written
          → offset + written ≤ length payload
          → console_rounds kernel fuel payload (remaining - written) (offset + written) wire'
            ≡ send_rounds kernel fuel (line payload) (offset + written) wire')
      → console_rounds kernel (suc fuel) payload remaining offset wire
        ≡ send_rounds kernel (suc fuel) (line payload) offset wire
  unfolding console_rounds send_rounds
  a_round fuel payload remaining offset wire none e h k rounds =
      let request = drop offset (line payload) in
      let (t, u) = tests payload remaining offset h k in
      let of_line : send kernel wire request ≡ (none, called wire []) =
        send-none kernel wire request e in
      let of_vectors : send kernel wire (vectors payload offset) ≡ (none, called wire []) =
        ap (send kernel wire) (vectors-line payload offset h) ∙ of_line in
      rw (console_rounds, t, send_rounds, u, of_vectors, of_line, of_vectors, of_line) refl
  a_round fuel payload remaining offset wire (some written) e h k rounds =
      let request = drop offset (line payload) in
      let (t, u) = tests payload remaining offset h k in
      let of_line : send kernel wire request ≡ (some written, called wire (take written request)) =
        send-some kernel wire request e in
      let of_vectors : send kernel wire (vectors payload offset)
          ≡ (some written, called wire (take written request)) =
        ap (send kernel wire) (vectors-line payload offset h) ∙ of_line in
      let at_most : written ≤ remaining = omega (
        arith,
        honest wire.calls (length request) written e,
        length-drop offset (line payload),
        length-append payload (b'\n' ∷ []),
      ) in
      elim (Bool-cases (written == 0)) [
        | inl nothing ↦
            rw
              (console_rounds, t, send_rounds, u, of_vectors, of_line, nothing, of_vectors, of_line)
              refl
        | inr something ↦ elim (Bool-cases (leb remaining written)) [
          | inl last ↦
              rw
                (
                  console_rounds, t, send_rounds, u, of_vectors, of_line, something, last,
                  of_vectors, of_line,
                )
                (sym (
                  send_rounds-end kernel fuel (line payload) (offset + written)
                    (called wire (take written request))
                    (ground (arith, length-append payload (b'\n' ∷ [])))))
          | inr more ↦
              let next : next_offset payload offset written ≡ offset + written = ground arith in
              rw
                (
                  console_rounds, t, send_rounds, u, of_vectors, of_line, something, more,
                  of_vectors, of_line, next,
                )
                (rounds written (called wire (take written request)) (ground arith) (ground arith))
        ]
      ]

  console_rounds-send_rounds :
      (fuel : ℕ) (payload : Bytes) (remaining offset : ℕ) (wire : Wire)
      → offset ≤ length payload
      → remaining + offset ≡ length payload + 1
      → remaining ≤ fuel
      → console_rounds kernel fuel payload remaining offset wire
        ≡ send_rounds kernel fuel (line payload) offset wire
  console_rounds-send_rounds zero payload remaining offset wire h k l = absurd (omega arith)
  console_rounds-send_rounds (suc fuel) payload remaining offset wire h k l =
      a_round fuel payload remaining offset wire
        (kernel wire.calls (length (drop offset (line payload)))) refl h k
        (λ written wire' p q.
          console_rounds-send_rounds fuel payload (remaining - written) (offset + written) wire' q
            (omega arith) (omega arith))

  -- With a kernel that takes no more than it is given, the loop of `ij_console_sink_write` over
  -- two vectors does, for a payload that is not empty, what the loop of `ij_syslog_send_all` does
  -- for the payload with a newline behind it: the same result and the same bytes.
  pub console_write-send_all :
      (payload : Bytes) (wire : Wire)
      → 0 < length payload
      → console_write kernel (some payload) wire ≡ send_all kernel (line payload) wire
  unfolding console_write send_all
  console_write-send_all payload wire h =
      let filled : length payload == 0 ≡ false = ground arith in
      rw (filled, length-append payload (b'\n' ∷ []))
        (console_rounds-send_rounds (length payload + 1) payload (length payload + 1) 0 wire
          (omega arith) (omega arith) (omega arith))
