-- ===== src/Rfc5424/Header.antt =====
-- The header that is written is read back field by field.
use iojournal.Prelude.{
  All, Bool-cases, Bytes, [], arith, if◌then◌else◌, inl, inr, refl, ℕ, ◌%◌, ◌++◌, ◌/◌, ◌==◌, ◌∷◌,
  ◌≡◌, ◌≢◌,
}
use iojournal.Decimal.{IsDigit, decimal, decimal-IsDigit}
use iojournal.Rfc5424.{nil_value}
use iojournal.Rfc5424.Read.{
  Lacks, SyslogMessage, after, after-append, before, before-append, read_fields,
}
use iojournal.Config.{first_byte}

Lacks-IsDigit :
    (stop : ℕ) (s : Bytes) → ((c : ℕ) → IsDigit c → c ≢ stop) → All IsDigit s → Lacks stop s
Lacks-IsDigit stop [] h d = tt
Lacks-IsDigit stop (c ∷ s) h (d, ds) = (h c d, Lacks-IsDigit stop s h ds)

-- the message as it is written, in front of which a space stands if there is one
abbrev pub written_message : Bytes → Bytes
written_message message = if first_byte message == 0 then [] else message

abbrev pub syslog_message : ℕ → ℕ → Bytes → Bytes → Bytes → SyslogMessage
syslog_message facility severity timestamp app_name message = record {
  facility = facility;
  severity = severity;
  version = 1;
  timestamp = timestamp;
  hostname = b'-' ∷ [];
  app_name = app_name;
  process = b'-' ∷ [];
  message_id = b'-' ∷ [];
  structured_data = b'-' ∷ [];
  message = written_message message;
}

pub decimal-Lacks : (stop v : ℕ) → ((c : ℕ) → IsDigit c → c ≢ stop) → Lacks stop (decimal v)
decimal-Lacks stop v h = Lacks-IsDigit stop (decimal v) h (decimal-IsDigit v)

-- the last field, and the message behind it
last_field :
    (message : Bytes)
    → (before b' ' (nil_value ++ (if first_byte message == 0 then [] else b' ' ∷ message))
        ≡ nil_value)
      × (after b' ' (nil_value ++ (if first_byte message == 0 then [] else b' ' ∷ message))
          ≡ written_message message)
unfolding before after
last_field message = elim (Bool-cases (first_byte message == 0)) [
  | inl h ↦ rw h (refl, refl)
  | inr h ↦ rw h (refl, refl)
]

abbrev pub fields_text : Bytes → Bytes → Bytes → Bytes
fields_text timestamp app_name rest =
    timestamp
    ++ (b' '
        ∷ (nil_value
            ++ (b' '
                ∷ (app_name ++ (b' ' ∷ (nil_value ++ (b' ' ∷ (nil_value ++ (b' ' ∷ rest)))))))))

pub read_fields-text :
    (pri version : ℕ) (timestamp app_name message : Bytes)
    → Lacks b' ' timestamp
    → Lacks b' ' app_name
    → read_fields pri version (
        fields_text timestamp app_name
          (nil_value ++ (if first_byte message == 0 then [] else b' ' ∷ message)))
      ≡ record (syslog_message (pri / 8) (pri % 8) timestamp app_name message) { version = version }
unfolding read_fields before after
read_fields-text pri version timestamp app_name message ht ha =
    let dash : Lacks b' ' (nil_value) = omega arith in
    rw
      (
        after-append b' ' timestamp _ ht,
        after-append b' ' (nil_value) _ dash,
        after-append b' ' app_name _ ha,
        before-append b' ' timestamp _ ht,
        before-append b' ' (nil_value) _ dash,
        before-append b' ' app_name _ ha,
        (last_field message).0,
        (last_field message).1,
      )
      refl
