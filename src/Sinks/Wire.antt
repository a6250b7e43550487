-- ===== src/Sinks/Wire.antt =====
-- `send` and `writev` on one descriptor, as the sinks call them, and `ij_syslog_send_all` of
pub mod Sends
pub mod Complete
use iojournal.Prelude.{
  Bytes, Option, drop, false, if◌then◌else◌, length, ltb, none, some, suc, take, true, zero, ℕ,
  ◌++◌, ◌+◌, ◌<◌, ◌==◌, ◌≡◌, ◌≤◌,
}
use iojournal.Types.{Status, ok, sink_error}

-- src/sinks/ij_syslog_tcp.c. The kernel is a parameter.

-- How many bytes of a request the kernel takes, by the number of the call and the size of the
-- request; `none` for -1.
abbrev pub Kernel : Type 0
Kernel = ℕ → ℕ → Option ℕ

-- The kernel takes no more than it is given.
abbrev pub TakesAtMost : Kernel → Type 0
TakesAtMost kernel = (call size count : ℕ) → kernel call size ≡ some count → count ≤ size

-- It takes something of every request that asks for something.
abbrev pub TakesSome : Kernel → Type 0
TakesSome kernel =
    (call size : ℕ) → 0 < size → (count : ℕ) × (kernel call size ≡ some count) × (0 < count)

-- the calls so far, and the bytes that were taken
pub record Wire : Type 0 where
  pub calls : ℕ
  pub sent : Bytes

-- one call: what it returns, and the descriptor behind it
unfoldable pub send : Kernel → Wire → Bytes → Option ℕ × Wire
send kernel wire request = elim (kernel wire.calls (length request)) [
  | none ↦ (none, record { calls = suc wire.calls; sent = wire.sent })
  | some count ↦
      (some count, record { calls = suc wire.calls; sent = wire.sent ++ take count request })
]

-- The loop of `ij_syslog_send_all`, on fuel; `none` when the fuel is spent.
unfoldable pub send_rounds : Kernel → ℕ → Bytes → ℕ → Wire → Option (Status × Wire)
send_rounds kernel zero buffer total_sent wire =
    if ltb total_sent (length buffer) then none else some (ok, wire)
send_rounds kernel (suc fuel) buffer total_sent wire = elim (ltb total_sent (length buffer)) [
  | false ↦ some (ok, wire)
  | true ↦
      let (answer, wire') = send kernel wire (drop total_sent buffer) in
      elim answer [
        | none ↦ some (sink_error, wire')
        | some count ↦ elim (count == 0) [
          | true ↦ some (sink_error, wire')
          | false ↦ send_rounds kernel fuel buffer (total_sent + count) wire'
        ]
      ]
]

-- `ij_syslog_send_all`: a round for every byte is enough.
unfoldable pub send_all : Kernel → Bytes → Wire → Option (Status × Wire)
send_all kernel buffer wire = send_rounds kernel (length buffer) buffer 0 wire
