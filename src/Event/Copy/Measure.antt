-- ===== src/Event/Copy/Measure.antt =====
-- What the pass over the attributes has measured when it succeeds.
use iojournal.Prelude.{
  All, All-append, List, Option, [], append-nil, append_assoc, arith, false, map, none, refl, some,
  sym, true, ℕ, ◌++◌, ◌+◌, ◌∙◌, ◌∷◌, ◌≡◌,
}
use iojournal.Types.{Attr, CString, Event, attribute_key_max_len}
use iojournal.Simd.{Cpu}
use iojournal.Strings.{strlen}
use iojournal.Event.{
  attribute_list, event_passes, validate_attr, validate_attr_value, validate_attrs,
  validate_string_field, value_len,
}
use iojournal.Event.Scan.{scan_string_field_copy}
use iojournal.Event.Copy.{
  Measured, Plan, bytes_of, head_size, measure_attributes, measure_attrs, measure_event,
  measure_value, measured,
}
use iojournal.Event.Copy.Keys.{SeenOk}
use iojournal.Event.Copy.Accept.{
  AttrBytes, PointsToBytes, ValueBytes, is_some, measure_attrs-good, measure_value-validate,
  scan-validate, scanned_cstr, value_flag,
}
use iojournal.Event.Copy.Verdict.{
  EventBytes, event_passes-parts, fields_pass, measure_event-fields, measure_event-validate,
  plan_of,
}

module _ (cpu : Cpu) (mode : ℕ) where
  -- what is kept of an attribute that passes its tests
  abbrev pub measured_of : Attr → Measured
  measured_of a = measured cpu mode a (scanned_cstr (bytes_of a.key)) (value_flag a.value)

  measure_attrs-cons :
      (seen : List Measured) (total : ℕ) (a : Attr) (as' : List Attr) (key : CString)
      → a.key ≡ key
      → PointsToBytes key
      → ValueBytes a.value
      → All SeenOk seen
      → validate_attr cpu a ≡ true
      → {ms : List Measured} → measure_attrs cpu mode seen total (a ∷ as') ≡ some ms
      → SeenOk (measured_of a)
        × (measure_attrs cpu mode
              (seen ++ measured_of a ∷ [])
              (total + strlen (bytes_of a.key) + value_len a.value)
              as'
            ≡ some ms)
  measure_attrs-cons seen total a as' none e kb vb known v h =
      let bad : validate_string_field cpu a.key attribute_key_max_len false ≡ false =
        rw e (unfold validate_string_field in refl) in
      absurd (unfold validate_attr in ground (arith, bad))
  measure_attrs-cons seen total a as' (some s) e kb vb known v h =
      let both : (validate_string_field cpu a.key attribute_key_max_len false ≡ true)
          × (validate_attr_value cpu a.value ≡ true) =
        unfold validate_attr in ground arith in
      let key_test : scan_string_field_copy cpu a.key attribute_key_max_len false
          ≡ some (scanned_cstr s) =
        rw e (scan-validate cpu s attribute_key_max_len false kb ∙ rw (rw e at both.0) refl) in
      let value_test : measure_value cpu a.value ≡ some (value_flag a.value) =
        measure_value-validate cpu a.value vb ∙ rw both.1 refl in
      let bytes_is : bytes_of a.key ≡ s = rw e refl in
      let step = measure_attrs-good cpu mode seen total a as' s e key_test value_test known in
      rw bytes_is ((s, (unfold measured in e), (unfold measured in refl)), ground (arith, step))

  -- The entries that are kept are those of the attributes, in order.
  pub measure_attrs-map :
      (seen : List Measured) (total : ℕ) (as' : List Attr)
      → All SeenOk seen
      → All AttrBytes as'
      → validate_attrs cpu as' ≡ true
      → {ms : List Measured} → measure_attrs cpu mode seen total as' ≡ some ms
      → ms ≡ seen ++ map measured_of as'
  measure_attrs-map seen total [] known b v h =
      unfold measure_attrs in ground (arith, append-nil seen)
  measure_attrs-map seen total (a ∷ as') known b v {ms} h =
      let both : (validate_attr cpu a ≡ true) × (validate_attrs cpu as' ≡ true) =
        unfold validate_attrs in ground arith in
      let (m_ok, later) =
        measure_attrs-cons seen total a as' a.key refl b.0.0 b.0.1 known both.0 h in
      measure_attrs-map (seen ++ measured_of a ∷ [])
        (total + strlen (bytes_of a.key) + value_len a.value) as'
        (All-append SeenOk seen (measured_of a ∷ []) known (m_ok, tt)) b.1 both.1 later
      ∙ append_assoc seen (measured_of a ∷ []) (map measured_of as')

  measure_attributes-plan :
      (p : Plan) (as' : List Attr) (r : Option (List Measured))
      → measure_attrs cpu mode [] (head_size p) as' ≡ r
      → All AttrBytes as'
      → validate_attrs cpu as' ≡ true
      → is_some (measure_attributes cpu mode p as') ≡ true
      → measure_attributes cpu mode p as' ≡ some (record p { attrs = map measured_of as' })
  unfolding measure_attributes
  measure_attributes-plan p as' none e b v h = absurd (ground (arith, e))
  measure_attributes-plan p as' (some ms) e b v h =
      let kept = measure_attrs-map [] (head_size p) as' tt b v e in ground (arith, e, kept)

  -- What is measured of an accepted event.
  pub measure_event-plan :
      (e : Event)
      → EventBytes e
      → event_passes cpu e ≡ true
      → measure_event cpu mode e
        ≡ some (record (plan_of e) { attrs = map measured_of (attribute_list e) })
  measure_event-plan e b v =
      let both : (fields_pass cpu e ≡ true) × (validate_attrs cpu (attribute_list e) ≡ true) =
        event_passes-parts cpu e v in
      let fields = measure_event-fields cpu mode e b ∙ rw both.0 refl in
      fields
      ∙ measure_attributes-plan (plan_of e) (attribute_list e) _ refl b.attrs both.1
          (rw (sym fields) (measure_event-validate cpu mode e b ∙ v))
