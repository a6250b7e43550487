-- ===== src/Sinks/Syslog/Open.antt =====
-- The sockets that opening and closing a syslog sink leave behind.

use iojournal.Prelude.{
  Bool-cases, Bytes, List, Option, [], ap, append-nil, arith, false, inl, inr, none, refl, some,
  suc, ℕ, ℤ, ◌++◌, ◌∷◌, ◌≡◌, ◌≢◌,
}
use iojournal.Types.{CString, Result, Status, done, fail, invalid_argument, ok}
use iojournal.Strings.{cstr}
use iojournal.Sinks.Syslog.{
  Network, SocketEvent, SyslogSink, attempt_at, closed, closed_sink, connect_entries, connect_tcp,
  is_negative, lookup, opened, opening_of, resolve_entries, resolve_udp, resolved, service_of,
  syslog_sink_close, tcp_open, tcp_sink, udp_open,
}

-- the descriptors that are opened, and those that are closed, each in its order
abbrev pub opened_of : List SocketEvent → List ℤ
opened_of [] = []
opened_of (opened fd ∷ events) = fd ∷ opened_of events
opened_of (closed fd ∷ events) = opened_of events

abbrev pub closed_of : List SocketEvent → List ℤ
closed_of [] = []
closed_of (opened fd ∷ events) = closed_of events
closed_of (closed fd ∷ events) = fd ∷ closed_of events

-- What an attempt leaves open: the descriptor of what it gives back, or nothing.
Leaves : {A : Type 0} → (A → ℤ) → Result A × List SocketEvent → Type 0
Leaves fd_of (done a, events) =
    (is_negative (fd_of a) ≡ false) × (opened_of events ≡ closed_of events ++ fd_of a ∷ [])
Leaves fd_of (fail status, events) = (status ≢ ok) × (opened_of events ≡ closed_of events)

-- a socket that is opened and closed again
Leaves-closed :
    {A : Type 0} (fd_of : A → ℤ) (fd : ℤ) (result : Result A) (events : List SocketEvent)
    → Leaves fd_of (result, events)
    → Leaves fd_of (result, opened fd ∷ (closed fd ∷ events))
unfolding Leaves
Leaves-closed fd_of fd (done a) events (h, k) = (h, ap (◌∷◌ fd) k)
Leaves-closed fd_of fd (fail status) events (h, k) = (h, ap (◌∷◌ fd) k)

abbrev itself : ℤ → ℤ
itself fd = fd

connect_entries-Leaves :
    (net : Network) (attempt : ℕ) (entries : List Bytes)
    → Leaves itself (connect_entries net attempt entries)
unfolding connect_entries Leaves
connect_entries-Leaves net attempt [] = (ground arith, refl)
connect_entries-Leaves net attempt (entry ∷ entries) =
    elim (Bool-cases (is_negative (net.socket attempt entry))) [
      | inl refused_socket ↦ rw refused_socket (connect_entries-Leaves net (suc attempt) entries)
      | inr fine ↦ elim (Bool-cases (net.connects attempt (net.socket attempt entry) entry)) [
        | inl connects ↦ rw (fine, connects) (fine, refl)
        | inr fails ↦
            rw (fine, fails)
              (Leaves-closed itself (net.socket attempt entry)
                (connect_entries net (suc attempt) entries).0
                (connect_entries net (suc attempt) entries).1
                (connect_entries-Leaves net (suc attempt) entries))
      ]
    ]

resolve_entries-Leaves :
    (net : Network) (attempt : ℕ) (entries : List Bytes)
    → Leaves SyslogSink.fd (resolve_entries net attempt entries)
unfolding resolve_entries Leaves
resolve_entries-Leaves net attempt [] = (ground arith, refl)
resolve_entries-Leaves net attempt (entry ∷ entries) =
    elim (Bool-cases (is_negative (net.socket attempt entry))) [
      | inl refused_socket ↦ rw refused_socket (resolve_entries-Leaves net (suc attempt) entries)
      | inr fine ↦ rw fine (fine, refl)
    ]

-- A sink that was opened, and what happened to the sockets: the status tells whether the sink has a
-- socket, and closing the sink closes what is open.
pub record Opening (outcome : Status × SyslogSink × List SocketEvent) : Type 0 where
  pub after_success : outcome.0 ≡ ok → is_negative outcome.1.fd ≡ false
  pub after_failure : outcome.0 ≢ ok → outcome.1 ≡ closed_sink
  pub closed_again :
      opened_of (outcome.2 ++ (syslog_sink_close outcome.1).1)
      ≡ closed_of (outcome.2 ++ (syslog_sink_close outcome.1).1)
  pub emptied : (syslog_sink_close outcome.1).0 ≡ closed_sink

opened_of-closed :
    (events : List SocketEvent) (fd : ℤ) → opened_of (events ++ closed fd ∷ []) ≡ opened_of events
opened_of-closed [] fd = refl
opened_of-closed (opened first ∷ events) fd = ap (◌∷◌ first) (opened_of-closed events fd)
opened_of-closed (closed first ∷ events) fd = opened_of-closed events fd

closed_of-closed :
    (events : List SocketEvent) (fd : ℤ)
    → closed_of (events ++ closed fd ∷ []) ≡ closed_of events ++ fd ∷ []
closed_of-closed [] fd = refl
closed_of-closed (opened first ∷ events) fd = closed_of-closed events fd
closed_of-closed (closed first ∷ events) fd = ap (◌∷◌ first) (closed_of-closed events fd)

fail-Opening :
    (status : Status) (events : List SocketEvent)
    → status ≢ ok
    → opened_of events ≡ closed_of events
    → Opening (status, closed_sink, events)
unfolding syslog_sink_close
fail-Opening status events h k = record {
  after_success = λ e. absurd (h e);
  after_failure = λ e. refl;
  closed_again = rw (append-nil events) k;
  emptied = refl;
}

ok-Opening :
    (sink : SyslogSink) (events : List SocketEvent)
    → is_negative sink.fd ≡ false
    → opened_of events ≡ closed_of events ++ sink.fd ∷ []
    → Opening (ok, sink, events)
unfolding syslog_sink_close
ok-Opening sink events h k = record {
  after_success = λ e. h;
  after_failure = λ e. absurd (e refl);
  closed_again = rw (h, opened_of-closed events sink.fd, closed_of-closed events sink.fd) k;
  emptied = refl;
}

-- the addresses, or a failure
IsLookup : Result (List Bytes) → Type 0
IsLookup (done entries) = Unit
IsLookup (fail status) = status ≢ ok

resolved-IsLookup : (found : Option (List Bytes)) → IsLookup (resolved found)
unfolding IsLookup
resolved-IsLookup none = ground arith
resolved-IsLookup (some entries) = tt

lookup-IsLookup : (net : Network) (host : CString) (port : ℕ) → IsLookup (lookup net host port)
unfolding lookup IsLookup
lookup-IsLookup net none port = ground arith
lookup-IsLookup net (some host) port =
    elim (service_of port)
      as (λ s. IsLookup (elim s [
        | none ↦ fail invalid_argument
        | some service ↦ resolved (net.resolve (cstr host) service)
      ])) [
        | none ↦ ground arith
        | some service ↦ resolved-IsLookup (net.resolve (cstr host) service)
      ]

module _ {A : Type 0} (fd_of : A → ℤ) (attempt : List Bytes → Result A × List SocketEvent)
    (leaves : (entries : List Bytes) → Leaves fd_of (attempt entries)) where
  attempt-Leaves :
      (found : Result (List Bytes)) → IsLookup found → Leaves fd_of (attempt_at attempt found)
  unfolding attempt_at Leaves IsLookup
  attempt-Leaves (fail status) h = (h, refl)
  attempt-Leaves (done entries) h = leaves entries

  attempt-Opening :
      (sink_of : A → SyslogSink)
      → ((a : A) → (sink_of a).fd ≡ fd_of a)
      → (outcome : Result A × List SocketEvent) → Leaves fd_of outcome
      → Opening (opening_of sink_of outcome)
  unfolding opening_of Leaves
  attempt-Opening sink_of same_fd (fail status, events) (h, k) = fail-Opening status events h k
  attempt-Opening sink_of same_fd (done a, events) (h, k) =
      ok-Opening (sink_of a) events (rw (same_fd a) h) (rw (same_fd a) k)

-- Whatever the network does, `ij_syslog_tcp_open` returns OK only with a descriptor that is not
-- negative, any other status only with an empty sink; and when the sink is closed behind it, the
-- sockets that were opened are those that were closed, in the same order.
pub tcp_open-Opening :
    (net : Network) (host : CString) (port : ℕ) → Opening (tcp_open net host port)
unfolding tcp_open connect_tcp
tcp_open-Opening net host port =
    attempt-Opening itself (connect_entries net 0) (connect_entries-Leaves net 0) tcp_sink
      (λ fd. refl) (attempt_at (connect_entries net 0) (lookup net host port))
      (attempt-Leaves itself (connect_entries net 0) (connect_entries-Leaves net 0)
        (lookup net host port) (lookup-IsLookup net host port))

-- Whatever the network does, `ij_syslog_udp_open` returns OK only with a descriptor that is not
-- negative, any other status only with an empty sink; and when the sink is closed behind it, the
-- sockets that were opened are those that were closed, in the same order.
pub udp_open-Opening :
    (net : Network) (host : CString) (port : ℕ) → Opening (udp_open net host port)
unfolding udp_open resolve_udp
udp_open-Opening net host port =
    attempt-Opening SyslogSink.fd (resolve_entries net 0) (resolve_entries-Leaves net 0)
      (λ sink. sink) (λ sink. refl) (attempt_at (resolve_entries net 0) (lookup net host port))
      (attempt-Leaves SyslogSink.fd (resolve_entries net 0) (resolve_entries-Leaves net 0)
        (lookup net host port) (lookup-IsLookup net host port))
