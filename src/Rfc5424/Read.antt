-- ===== src/Rfc5424/Read.antt =====
-- A reader of RFC 5424 records: the header, its fields between spaces, and the message.
use iojournal.Prelude.{
  All, Bytes, Option, [], arith, if◌then◌else◌, none, some, ℕ, ◌%◌, ◌++◌, ◌/◌, ◌==◌, ◌∷◌, ◌≡◌, ◌≢◌,
}
use iojournal.Decimal.{read_number}

-- what stands in front of the first `stop`, and what stands behind it
unfoldable pub before : ℕ → Bytes → Bytes
before stop [] = []
before stop (c ∷ s) = let rest = before stop s in if c == stop then [] else c ∷ rest

unfoldable pub after : ℕ → Bytes → Bytes
after stop [] = []
after stop (c ∷ s) = let rest = after stop s in if c == stop then s else rest

pub record SyslogMessage : Type 0 where
  pub facility : ℕ
  pub severity : ℕ
  pub version : ℕ
  pub timestamp : Bytes
  pub hostname : Bytes
  pub app_name : Bytes
  pub process : Bytes
  pub message_id : Bytes
  pub structured_data : Bytes
  pub message : Bytes

-- the fields behind the version
unfoldable pub read_fields : ℕ → ℕ → Bytes → SyslogMessage
read_fields pri version s1 =
    let s2 = after b' ' s1 in
    let s3 = after b' ' s2 in
    let s4 = after b' ' s3 in
    let s5 = after b' ' s4 in
    let s6 = after b' ' s5 in
    record {
      facility = pri / 8;
      severity = pri % 8;
      version = version;
      timestamp = before b' ' s1;
      hostname = before b' ' s2;
      app_name = before b' ' s3;
      process = before b' ' s4;
      message_id = before b' ' s5;
      structured_data = before b' ' s6;
      message = after b' ' s6;
    }

-- A record whose two numbers are read; there is none if one of them is not a number.
unfoldable pub read_numbered : Option ℕ → Option ℕ → Bytes → Option SyslogMessage
read_numbered none version s = none
read_numbered (some pri) none s = none
read_numbered (some pri) (some version) s = some (read_fields pri version s)

-- "<PRI>VERSION" and the fields behind it
unfoldable pub read_syslog : Bytes → Option SyslogMessage
read_syslog [] = none
read_syslog (c ∷ s) =
    let header = after b'>' s in
    let message =
      read_numbered (read_number (before b'>' s)) (read_number (before b' ' header))
        (after b' ' header) in
    if c == b'<' then message else none

-- a text in which a byte does not occur
abbrev pub Lacks : ℕ → Bytes → Type 0
Lacks stop = All (λ c. c ≢ stop)

pub before-append : (stop : ℕ) (t rest : Bytes) → Lacks stop t → before stop (t ++ stop ∷ rest) ≡ t
unfolding before
before-append stop [] rest h = ground arith
before-append stop (c ∷ t) rest (h, hs) = ground (arith, before-append stop t rest hs)

pub after-append : (stop : ℕ) (t rest : Bytes) → Lacks stop t → after stop (t ++ stop ∷ rest) ≡ rest
unfolding after
after-append stop [] rest h = ground arith
after-append stop (c ∷ t) rest (h, hs) = ground (arith, after-append stop t rest hs)
