-- ===== src/Sinks/Wire/Complete.antt =====
-- When everything is sent.
use iojournal.Prelude.{
  Bytes, Option, arith, inl, inr, length, refl, some, take-length, ◌++◌, ◌∙◌, ◌≡◌,
}
use iojournal.Types.{Status, ok}
use iojournal.Sinks.Wire.{Kernel, TakesAtMost, TakesSome, Wire, send_all}
use iojournal.Sinks.Wire.Sends.{Ends-cases, Refusal, Sent, send_all-Sent}

-- What went wrong if anything did: a kernel that takes some of every request gives no reason.
pub TakesSome-Refusal : (kernel : Kernel) → TakesSome kernel → ¬ Refusal kernel
TakesSome-Refusal kernel takes refusal =
    let (count, answers, some_of_it) = takes refusal.call refusal.size refusal.asks in
    elim refusal.gets [
      | inl e ↦ ground (arith, rw answers at e)
      | inr e ↦ ground (arith, rw answers at e)
    ]

-- Success means that all of it was sent.
pub Sent-ok :
    {kernel : Kernel} {buffer : Bytes} {wire wire' : Wire} {result : Option (Status × Wire)}
    → Sent kernel buffer 0 wire result
    → result ≡ some (ok, wire')
    → wire'.sent ≡ wire.sent ++ buffer
Sent-ok {buffer = buffer} {wire = wire} {wire' = wire'} s e =
    let (same_status, same_wire) : (s.status ≡ ok) × (s.wire' ≡ wire') =
      ground (arith, s.returns, e) in
    elim (Ends-cases s.ends) [
      | inl (fine, whole) ↦
          let all_of_it : s.count ≡ length buffer = omega arith in
          rw (← same_wire, s.sends, all_of_it, take-length buffer) refl
      | inr (failed, part, refusal) ↦ ground (arith, rw failed at same_status)
    ]

-- With a kernel that takes some of every request that is not empty, and no more than all of it,
-- `ij_syslog_send_all` comes to its end and returns OK with the whole buffer sent.
pub send_all-TakesSome :
    (kernel : Kernel) (buffer : Bytes) (wire : Wire)
    → TakesAtMost kernel
    → TakesSome kernel
    → (wire' : Wire) × (send_all kernel buffer wire ≡ some (ok, wire'))
      × (wire'.sent ≡ wire.sent ++ buffer)
send_all-TakesSome kernel buffer wire honest takes =
    let s = send_all-Sent kernel honest buffer wire in
    elim (Ends-cases s.ends) [
      | inl (fine, whole) ↦
          let returns : send_all kernel buffer wire ≡ some (ok, s.wire') =
            s.returns ∙ rw fine refl in
          (s.wire', returns, Sent-ok s returns)
      | inr (failed, part, refusal) ↦ absurd (TakesSome-Refusal kernel takes refusal)
    ]
