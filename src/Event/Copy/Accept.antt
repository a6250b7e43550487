-- ===== src/Event/Copy/Accept.antt =====
-- The copy accepts exactly the events that `ij_validate_event` accepts.
use iojournal.Prelude.{
  All, All-append, Bool, Bool-cases, Bytes, IsBytes, List, Option, [], arith, false, if◌then◌else◌,
  inl, inr, leb, ltb, none, not, refl, some, take, true, ℕ, ◌&&◌, ◌++◌, ◌+◌, ◌||◌, ◌∙◌, ◌∷◌, ◌≡◌,
  ◌≤◌,
}
use iojournal.Types.{
  Attr, AttrValue, CString, attribute_key_max_len, event_text_max_len, signed, string,
}
use iojournal.Simd.{Cpu}
use iojournal.Escape.Scan.{has_special}
use iojournal.Strings.{cstr, strlen, strnlen, strnlen-strlen}
use iojournal.Event.{
  attribute_text_size, duplicate_attr_keys, strlen_of, validate_attr, validate_attr_value,
  validate_attrs, validate_string_field, value_len,
}
use iojournal.Event.Scan.{Scanned, scan_string_field_copy, validate_attr_string_copy}
use iojournal.Event.Scan.Agree.{scan_string_field_copy-validate, validate_attr_string_copy-validate}
use iojournal.Event.Copy.{Measured, key_seen, measure_attrs, measure_value, measured}
use iojournal.Event.Copy.Keys.{SeenOk, crosses, crosses-concat, key_seen-occurs, occurs_before}

-- The texts of a pointer are bytes.
abbrev pub PointsToBytes : Option Bytes → Type 0
PointsToBytes none = Unit
PointsToBytes (some s) = IsBytes s

abbrev pub ValueBytes : AttrValue → Type 0
ValueBytes (string s len) = PointsToBytes s
ValueBytes _ = Unit

abbrev pub AttrBytes : Attr → Type 0
AttrBytes a = PointsToBytes a.key × ValueBytes a.value

-- Whether a string value holds a byte that JSON wants escaped.
abbrev pub value_flag : AttrValue → Bool
value_flag (string (some s) len) = has_special (take len s)
value_flag _ = false

abbrev pub is_some {ℓ} : {A : Type ℓ} → Option A → Bool
is_some none = false
is_some (some _) = true

-- What the scan of an accepted key, or of a field, reports.
abbrev pub scanned_cstr : Bytes → Scanned
scanned_cstr s = record { len = strlen s; needs_json_escape = has_special (cstr s) }

module _ (cpu : Cpu) where
  -- an accepted field is no longer than its limit, so that `strnlen` measures all of it
  pub strlen-of_validate :
      (s : Bytes) (max_len : ℕ) (allow_empty : Bool)
      → validate_string_field cpu (some s) max_len allow_empty ≡ true
      → (strnlen s (max_len + 1) ≡ strlen s) × (strlen s ≤ max_len)
  unfolding validate_string_field
  strlen-of_validate s max_len allow_empty h = ground (arith, strnlen-strlen s (max_len + 1))

  pub scan-validate :
      (s : Bytes) (max_len : ℕ) (allow_empty : Bool)
      → IsBytes s
      → scan_string_field_copy cpu (some s) max_len allow_empty ≡ (
          if validate_string_field cpu (some s) max_len allow_empty
          then some (scanned_cstr s)
          else none)
  scan-validate s max_len allow_empty b =
      elim (Bool-cases (validate_string_field cpu (some s) max_len allow_empty)) [
        | inl good ↦
            scan_string_field_copy-validate cpu s max_len allow_empty b
            ∙ rw (good, (strlen-of_validate s max_len allow_empty good).0) refl
        | inr bad ↦ scan_string_field_copy-validate cpu s max_len allow_empty b ∙ rw bad refl
      ]

  pub measure_value-validate :
      (v : AttrValue)
      → ValueBytes v
      → measure_value cpu v ≡ (if validate_attr_value cpu v then some (value_flag v) else none)
  measure_value-validate (string none len) b =
      unfold measure_value validate_attr_value validate_attr_string_copy in refl
  measure_value-validate (string (some s) len) b =
      unfold measure_value in validate_attr_string_copy-validate cpu s len b
  measure_value-validate (signed v) b = unfold measure_value in ground arith
  measure_value-validate _ b = unfold measure_value in ground arith

module _ (cpu : Cpu) (mode : ℕ) where
  -- what the pass does at an attribute whose tests succeed
  pub measure_attrs-good :
      (seen : List Measured) (total : ℕ) (a : Attr) (as' : List Attr) (s : Bytes)
      → a.key ≡ some s
      → scan_string_field_copy cpu a.key attribute_key_max_len false ≡ some (scanned_cstr s)
      → measure_value cpu a.value ≡ some (value_flag a.value)
      → All SeenOk seen
      → measure_attrs cpu mode seen total (a ∷ as') ≡ (
          if occurs_before a.key seen
            || ltb event_text_max_len (total + strlen s + value_len a.value)
          then none
          else measure_attrs cpu mode
              (seen ++ measured cpu mode a (scanned_cstr s) (value_flag a.value) ∷ [])
              (total + strlen s + value_len a.value)
              as')
  unfolding measure_attrs
  measure_attrs-good seen total a as' s e scan value known =
      let keys : key_seen a.key (strlen s) seen ≡ occurs_before a.key seen =
        rw e (key_seen-occurs s seen known) in
      ground (arith, keys)

  -- What the pass decides about the attributes that are left.
  abbrev AttrsAgree : List Measured → ℕ → List Attr → Type 0
  AttrsAgree seen total as' = is_some (measure_attrs cpu mode seen total as') ≡ (
      validate_attrs cpu as'
      && not (crosses seen as' || duplicate_attr_keys as')
      && leb (total + attribute_text_size as') event_text_max_len)

  AttrsAgree-good :
      (seen : List Measured) (total : ℕ) (a : Attr) (as' : List Attr) (s : Bytes)
      → a.key ≡ some s
      → validate_string_field cpu (some s) attribute_key_max_len false ≡ true
      → validate_attr_value cpu a.value ≡ true
      → (let m = measured cpu mode a (scanned_cstr s) (value_flag a.value) in
          let total' = total + strlen s + value_len a.value in
          (measure_attrs cpu mode seen total (a ∷ as') ≡ (
            if occurs_before a.key seen || ltb event_text_max_len total'
            then none
            else measure_attrs cpu mode (seen ++ m ∷ []) total' as'))
          → (total' ≤ event_text_max_len → AttrsAgree (seen ++ m ∷ []) total' as')
          → AttrsAgree seen total (a ∷ as'))
  AttrsAgree-good seen total a as' s e good fine step ih =
      let m = measured cpu mode a (scanned_cstr s) (value_flag a.value) in
      let attr_key : m.attr.key ≡ a.key = unfold measured in refl in
      let key_good : validate_string_field cpu a.key attribute_key_max_len false ≡ true =
        rw e good in
      let key_size : strlen_of a.key ≡ strlen s = rw e refl in
      unfold validate_attrs validate_attr crosses duplicate_attr_keys attribute_text_size in
      ground (arith, crosses-concat seen m as')

  AttrsAgree-cons :
      (seen : List Measured) (total : ℕ) (a : Attr) (as' : List Attr) (key : CString)
      → a.key ≡ key
      → PointsToBytes key
      → ValueBytes a.value
      → All SeenOk seen
      → ((m : Measured) (total' : ℕ)
          → SeenOk m
          → total' ≤ event_text_max_len
          → AttrsAgree (seen ++ m ∷ []) total' as')
      → AttrsAgree seen total (a ∷ as')
  AttrsAgree-cons seen total a as' none e kb vb known ih =
      unfold measure_attrs validate_attrs validate_attr scan_string_field_copy
        validate_string_field in
      ground arith
  AttrsAgree-cons seen total a as' (some s) e kb vb known ih =
      let key_test = scan-validate cpu s attribute_key_max_len false kb in
      let value_test = measure_value-validate cpu a.value vb in
      let m = measured cpu mode a (scanned_cstr s) (value_flag a.value) in
      let total' = total + strlen s + value_len a.value in
      let m_ok : SeenOk m = (s, unfold measured in e, unfold measured in refl) in
      let attr_key : m.attr.key ≡ a.key = unfold measured in refl in
      elim (Bool-cases (validate_string_field cpu (some s) attribute_key_max_len false)) [
        | inr bad ↦
            let scan : scan_string_field_copy cpu a.key attribute_key_max_len false ≡ none =
              rw e (key_test ∙ rw bad refl) in
            let bad_key : validate_string_field cpu a.key attribute_key_max_len false ≡ false =
              rw e bad in
            unfold measure_attrs validate_attrs validate_attr in ground (arith, scan, bad_key)
        | inl good ↦
            let scan : scan_string_field_copy cpu a.key attribute_key_max_len false
                ≡ some (scanned_cstr s) =
              rw e (key_test ∙ rw good refl) in
            elim (Bool-cases (validate_attr_value cpu a.value)) [
              | inr bad ↦
                  let value : measure_value cpu a.value ≡ none = value_test ∙ rw bad refl in
                  unfold measure_attrs validate_attrs validate_attr in
                  ground (arith, scan, value, bad)
              | inl fine ↦
                  let value : measure_value cpu a.value ≡ some (value_flag a.value) =
                    value_test ∙ rw fine refl in
                  AttrsAgree-good seen total a as' s e good fine
                    (measure_attrs-good seen total a as' s e scan value known) (ih m total' m_ok)
            ]
      ]

  pub measure_attrs-validate :
      (seen : List Measured) (total : ℕ) (as' : List Attr)
      → All SeenOk seen
      → All AttrBytes as'
      → total ≤ event_text_max_len
      → AttrsAgree seen total as'
  measure_attrs-validate seen total [] known b h =
      unfold measure_attrs validate_attrs crosses duplicate_attr_keys attribute_text_size in
      ground arith
  measure_attrs-validate seen total (a ∷ as') known b h =
      AttrsAgree-cons seen total a as' a.key refl b.0.0 b.0.1 known (λ m total' m_ok.
        measure_attrs-validate (seen ++ m ∷ []) total' as'
          (All-append SeenOk seen (m ∷ []) known (m_ok, tt)) b.1)
