-- ===== src/Sinks/Syslog.antt =====
-- src/sinks/ij_syslog_tcp.c and src/sinks/ij_syslog_udp.c: the sinks that send to a log server. The
pub mod Frames
pub mod Udp
pub mod Open
pub mod Session
pub mod Tcp
use iojournal.Prelude.{
  Bool, Bytes, List, Option, [], false, if◌then◌else◌, leb, length, ltb, negsuc, none, pos, some,
  suc, take, true, ℕ, ℤ, ◌++◌, ◌==◌, ◌||◌, ◌∷◌,
}
use iojournal.Types.{
  CString, Result, Status, done, encode_error, fail, invalid_argument, invalid_state, ok,
  sink_error,
}
use iojournal.Sinks.Wire.{Kernel, Wire, send_all}
use iojournal.Strings.{cstr}
use iojournal.Decimal.{decimal}

-- resolver and the calls on sockets are parameters.

-- `ij_syslog_sink_t`
pub record SyslogSink : Type 0 where
  pub fd : ℤ
  pub address : Bytes
  pub address_len : ℕ

-- what `ij_syslog_tcp_open` and `ij_syslog_udp_open` start from
abbrev pub closed_sink : SyslogSink
closed_sink = record { fd = negsuc 0; address = []; address_len = 0 }

-- `fd < 0`
abbrev pub is_negative : ℤ → Bool
is_negative (pos n) = false
is_negative (negsuc n) = true

-- What happens to the sockets.
pub data SocketEvent : Type 0 where
  opened closed : ℤ → SocketEvent

-- The system around the sinks: the addresses of a host and a service, the socket that an attempt
-- gets, and whether it is connected, by the number of the attempt. Entries of the resolver are
-- their socket addresses.
pub record Network : Type 0 where
  pub resolve : Bytes → Bytes → Option (List Bytes)
  pub socket : ℕ → Bytes → ℤ
  pub connects : ℕ → ℤ → Bytes → Bool

-- the loop of `ij_syslog_connect_tcp`, from an attempt on: the socket that stays open, and what
-- happened
pub connect_entries : Network → ℕ → List Bytes → Result ℤ × List SocketEvent
connect_entries net attempt [] = (fail sink_error, [])
connect_entries net attempt (entry ∷ entries) =
    let (result, events) = connect_entries net (suc attempt) entries in
    let fd = net.socket attempt entry in
    if is_negative fd
    then (result, events)
    else if net.connects attempt fd entry
    then (done fd, opened fd ∷ [])
    else (result, opened fd ∷ (closed fd ∷ events))

-- the digits of the port, in an array of 6 bytes
unfoldable pub service_of : ℕ → Option Bytes
service_of port = if leb 6 (length (decimal port)) then none else some (decimal port)

-- what `getaddrinfo` finds
abbrev pub resolved : Option (List Bytes) → Result (List Bytes)
resolved none = fail sink_error
resolved (some entries) = done entries

-- The part of `ij_syslog_connect_tcp` and of `ij_syslog_resolve_udp` in front of their loops.
pub lookup : Network → CString → ℕ → Result (List Bytes)
lookup net none port = fail invalid_argument
lookup net (some host) port = elim (service_of port) [
  | none ↦ fail invalid_argument
  | some service ↦ resolved (net.resolve (cstr host) service)
]

-- the loop, where addresses are found
pub attempt_at {ℓ} :
    {A : Type ℓ}
    → (List Bytes → Result A × List SocketEvent)
    → Result (List Bytes)
    → Result A × List SocketEvent
attempt_at attempt (fail status) = (fail status, [])
attempt_at attempt (done entries) = attempt entries

-- the status, and the sink behind the attempt
pub opening_of {ℓ} :
    {A : Type ℓ}
    → (A → SyslogSink)
    → Result A × List SocketEvent
    → Status × SyslogSink × List SocketEvent
opening_of sink_of (fail status, events) = (status, closed_sink, events)
opening_of sink_of (done a, events) = (ok, sink_of a, events)

-- `ij_syslog_connect_tcp`
pub connect_tcp : Network → CString → ℕ → Result ℤ × List SocketEvent
connect_tcp net host port = attempt_at (connect_entries net 0) (lookup net host port)

-- a sink that has a descriptor and no address
abbrev pub tcp_sink : ℤ → SyslogSink
tcp_sink fd = record { fd = fd; address = []; address_len = 0 }

-- `ij_syslog_tcp_open` on a sink that is not NULL
pub tcp_open : Network → CString → ℕ → Status × SyslogSink × List SocketEvent
tcp_open net host port = opening_of tcp_sink (connect_tcp net host port)

-- the loop of `ij_syslog_resolve_udp`, from an attempt on
pub resolve_entries : Network → ℕ → List Bytes → Result SyslogSink × List SocketEvent
resolve_entries net attempt [] = (fail sink_error, [])
resolve_entries net attempt (entry ∷ entries) =
    let rest = resolve_entries net (suc attempt) entries in
    let fd = net.socket attempt entry in
    if is_negative fd
    then rest
    else (done (record { fd = fd; address = entry; address_len = length entry }), opened fd ∷ [])

-- `ij_syslog_resolve_udp`
pub resolve_udp : Network → CString → ℕ → Result SyslogSink × List SocketEvent
resolve_udp net host port = attempt_at (resolve_entries net 0) (lookup net host port)

-- `ij_syslog_udp_open` on a sink that is not NULL
pub udp_open : Network → CString → ℕ → Status × SyslogSink × List SocketEvent
udp_open net host port = opening_of (λ sink. sink) (resolve_udp net host port)

-- `ij_syslog_sink_close`
unfoldable pub syslog_sink_close : SyslogSink → SyslogSink × List SocketEvent
syslog_sink_close sink = (closed_sink, if is_negative sink.fd then [] else closed sink.fd ∷ [])

-- "%zu " of the length, in an array of 32 bytes
unfoldable pub frame_prefix : ℕ → Option Bytes
frame_prefix payload_len =
    let prefix = decimal payload_len ++ b' ' ∷ [] in
    if leb 32 (length prefix) then none else some prefix

-- the payload behind its prefix, unless that failed
unfoldable pub send_next : Kernel → Bytes → Option (Status × Wire) → Option (Status × Wire)
send_next kernel payload none = none
send_next kernel payload (some (ok, wire)) = send_all kernel payload wire
send_next kernel payload (some (failure, wire)) = some (failure, wire)

-- `ij_syslog_tcp_write` behind its tests on the arguments
unfoldable pub send_frame : Kernel → Bytes → Wire → Option (Status × Wire)
send_frame kernel payload wire = elim (frame_prefix (length payload)) [
  | none ↦ some (encode_error, wire)
  | some prefix ↦ send_next kernel payload (send_all kernel prefix wire)
]

-- `ij_syslog_tcp_write`; the pointers that may be NULL are options.
unfoldable pub tcp_write : Kernel → Option SyslogSink → Option Bytes → Wire → Option (Status × Wire)
tcp_write kernel none payload wire = some (invalid_argument, wire)
tcp_write kernel (some sink) none wire = some (invalid_argument, wire)
tcp_write kernel (some sink) (some payload) wire =
    if length payload == 0
    then some (invalid_argument, wire)
    else if is_negative sink.fd
    then some (invalid_state, wire)
    else send_frame kernel payload wire

-- the limit of a datagram
abbrev pub udp_target_max : ℕ
udp_target_max = 2048

-- by the answer of `sendto`
pub datagram_result : Bytes → Option ℕ → Status × List Bytes
datagram_result payload none = (sink_error, [])
datagram_result payload (some count) =
    (if count == length payload then ok else sink_error, take count payload ∷ [])

-- `ij_syslog_udp_write`, where `sendto` says how much of a datagram is taken: the status, and what
-- is sent
pub udp_write : (ℕ → Option ℕ) → Option SyslogSink → Option Bytes → Status × List Bytes
udp_write sendto none payload = (invalid_argument, [])
udp_write sendto (some sink) none = (invalid_argument, [])
udp_write sendto (some sink) (some payload) =
    if length payload == 0
    then (invalid_argument, [])
    else if is_negative sink.fd || sink.address_len == 0
    then (invalid_state, [])
    else if ltb udp_target_max (length payload)
    then (sink_error, [])
    else datagram_result payload (sendto (length payload))
