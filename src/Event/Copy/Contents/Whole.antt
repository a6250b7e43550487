-- ===== src/Event/Copy/Contents/Whole.antt =====
-- The copied values, attributes and texts.
use iojournal.Prelude.{
  Bool, Bool-cases, Bytes, Option, arith, drop, false, if◌then◌else◌, inl, inr, length, refl, sym,
  take, true, ℕ, ◌++◌, ◌+◌, ◌∙◌, ◌≡◌, ◌≤◌,
}
use iojournal.Types.{
  AttrValue, OwnedString, OwnedValue, bool, double, other, signed, string, unsigned,
}
use iojournal.Event.Copy.{
  Fill, Filling, Measured, bytes_of, copy_attr_value, copy_owned_string_into_arena, fill_bind,
  fill_string, redact_string, redacted_literal, value_arena_size, value_capacity,
}
use iojournal.Event.Copy.Arena.{Fills, Fills-congr, Fills-pure, Stable, fill_bind_lem, filling}
use iojournal.Event.Copy.Contents.{Fills-copy_owned, Fills-redacted, Holds, Holds-Stable}

-- The text that a string value is copied to.
abbrev pub value_copy : Bool → Bytes → Bytes
value_copy redact t = if redact then redacted_literal else t

-- `o` is the copy of the value `v` in the memory `d`.
abbrev pub ValueHolds : Measured → AttrValue → Bytes → OwnedValue → Type 0
ValueHolds m (string s len) d o =
    (t : OwnedString) × (o ≡ OwnedValue.string t)
    × Holds (value_copy m.should_redact (take len (bytes_of s))) m.string_needs_json_escape d t
ValueHolds m (signed v) d o = o ≡ OwnedValue.signed v
ValueHolds m (unsigned v) d o = o ≡ OwnedValue.unsigned v
ValueHolds m (bool v) d o = o ≡ OwnedValue.bool v
ValueHolds m (double v) d o = o ≡ OwnedValue.double v
ValueHolds m other d o = ⊥

pub ValueHolds-Stable : (m : Measured) (v : AttrValue) → Stable OwnedValue (ValueHolds m v)
ValueHolds-Stable m (string s len) d x o (t, e, h) = (t, e, Holds-Stable _ _ d x t h)
ValueHolds-Stable m (signed v) d x o h = h
ValueHolds-Stable m (unsigned v) d x o h = h
ValueHolds-Stable m (bool v) d x o h = h
ValueHolds-Stable m (double v) d x o h = h
ValueHolds-Stable m other d x o h = h

-- A string value is an object of at least the length that is given with it, and is not redacted if
-- it is none.
abbrev pub ValueObject : AttrValue → Type 0
ValueObject (string s len) = len ≤ length (bytes_of s)
ValueObject other = ⊥
ValueObject _ = Unit

Fills-fill_string :
    (m : Fill OwnedString) (n : ℕ) (t : Bytes) (flag : Bool)
    → Fills OwnedString m n (Holds t flag)
    → Fills OwnedValue
        (fill_bind m fill_string)
        n
        (λ d o. (s : OwnedString) × (o ≡ OwnedValue.string s) × Holds t flag d s)
Fills-fill_string m n t flag f d rest room =
    let r = f d rest room in
    record {
      value = OwnedValue.string r.value;
      block = r.block;
      runs =
          fill_bind_lem OwnedString OwnedValue m fill_string (filling d rest) r.value
            (filling (d ++ r.block) (drop n rest)) r.runs;
      size = r.size;
      holds = (r.value, refl, r.holds);
    }

fill_bind_assoc :
    (A B C : Type 0) (m : Fill A) (k : A → Fill B) (h : B → Fill C) (st : Filling)
    → fill_bind (fill_bind m k) h st ≡ fill_bind m (λ a. fill_bind (k a) h) st
fill_bind_assoc A B C m k h st = ground arith

module _ (m : Measured) (s : Option Bytes) (len : ℕ) where
  abbrev copying : Fill OwnedString
  copying =
      copy_owned_string_into_arena (bytes_of s) len (value_capacity len) m.string_needs_json_escape

  copy_redacted :
      m.should_redact ≡ true
      → (st : Filling)
      → copy_attr_value m (AttrValue.string s len) st
        ≡ fill_bind (fill_bind copying redact_string) fill_string st
  copy_redacted e st =
      let step : copy_attr_value m (AttrValue.string s len) st
          ≡ fill_bind copying (λ owned. fill_bind (redact_string owned) fill_string) st =
        unfold copy_attr_value in rw e refl in
      step
      ∙ sym
          (fill_bind_assoc OwnedString OwnedString OwnedValue copying redact_string fill_string st)

  copy_plain :
      m.should_redact ≡ false
      → (st : Filling)
      → copy_attr_value m (AttrValue.string s len) st ≡ fill_bind copying fill_string st
  copy_plain e st = unfold copy_attr_value in rw e refl

  Fills-string_value :
      len ≤ length (bytes_of s)
      → Fills OwnedValue
          (copy_attr_value m (AttrValue.string s len))
          (value_capacity len + 1)
          (ValueHolds m (AttrValue.string s len))
  Fills-string_value h = elim (Bool-cases m.should_redact) [
    | inl redact ↦
        Fills-congr OwnedValue _ (fill_bind (fill_bind copying redact_string) fill_string)
          (value_capacity len + 1) _ (copy_redacted redact)
          (rw redact (
            Fills-fill_string (fill_bind copying redact_string) (value_capacity len + 1)
              redacted_literal m.string_needs_json_escape
              (Fills-redacted (bytes_of s) len (value_capacity len) m.string_needs_json_escape h
                (ground arith) (ground arith))))
    | inr plain ↦
        Fills-congr OwnedValue _ (fill_bind copying fill_string) (value_capacity len + 1) _
          (copy_plain plain)
          (rw plain (
            Fills-fill_string copying (value_capacity len + 1) (take len (bytes_of s))
              m.string_needs_json_escape
              (Fills-copy_owned (bytes_of s) len (value_capacity len) m.string_needs_json_escape h
                (ground arith))))
  ]

pub Fills-copy_attr_value :
    (m : Measured) (v : AttrValue)
    → ValueObject v
    → Fills OwnedValue (copy_attr_value m v) (value_arena_size v) (ValueHolds m v)
Fills-copy_attr_value m (string s len) h = Fills-string_value m s len h
Fills-copy_attr_value m (signed v) h =
    unfold copy_attr_value in Fills-pure OwnedValue (OwnedValue.signed v) _ (λ d. refl)
Fills-copy_attr_value m (unsigned v) h =
    unfold copy_attr_value in Fills-pure OwnedValue (OwnedValue.unsigned v) _ (λ d. refl)
Fills-copy_attr_value m (bool v) h =
    unfold copy_attr_value in Fills-pure OwnedValue (OwnedValue.bool v) _ (λ d. refl)
Fills-copy_attr_value m (double v) h =
    unfold copy_attr_value in Fills-pure OwnedValue (OwnedValue.double v) _ (λ d. refl)
Fills-copy_attr_value m other h = absurd h
