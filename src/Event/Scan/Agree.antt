-- ===== src/Event/Scan/Agree.antt =====
-- The scans accept what validation accepts, and report the length and the need of an escape.
use iojournal.Prelude.{
  All-take, Bool, Bool-cases, Bytes, IsByte, IsBytes, Option, [], arith, false, if◌then◌else◌, inl,
  inr, leb, ltb, none, not, refl, some, suc, take, true, zero, ℕ, ◌&&◌, ◌+◌, ◌==◌, ◌||◌, ◌∙◌, ◌∷◌,
  ◌≡◌,
}
use iojournal.Event.{validate_attr_value, validate_string_field}
use iojournal.Utf8.{scalar_validate}
use iojournal.Simd.{Cpu}
use iojournal.Utf8.Simd.{
  ascii_of_table, is_valid_dispatch, is_valid_dispatch-eq_scalar, scalar_validate-cons_ascii,
}
use iojournal.Escape.{is_special}
use iojournal.Escape.Scan.{find_first_special-eq_scalar, has_special, has_special-scan}
use iojournal.Strings.{strnlen}
use iojournal.Event.Scan.{
  Scanned, ascii_needs_json_escape, attr_string_loop, is_high, needs_escape, scan_end, scan_loop,
  scan_string_field_copy, scan_utf8, validate_attr_string_copy,
}
use iojournal.Types.{AttrValue}
use native.Mathlib.Nat.{zero-add}

ascii_needs-is_special : (c : ℕ) → ascii_needs_json_escape c ≡ is_special c
unfolding ascii_needs_json_escape is_special
ascii_needs-is_special c = ground arith

pub needs_escape-has_special : (cpu : Cpu) (s : Bytes) → needs_escape cpu s ≡ has_special s
needs_escape-has_special cpu s = rw (find_first_special-eq_scalar cpu s) (has_special-scan s)

-- What a scan of an accepted text reports.
abbrev pub scanned : Bytes → ℕ → Scanned
scanned s len = record { len = len; needs_json_escape = has_special (take len s) }

module _ (cpu : Cpu) (value : Bytes) (max_len : ℕ) (allow_empty : Bool) where
  -- the verdict and the report of a scan in one pass over the measured text
  verdict : Option Scanned
  verdict =
      let len = strnlen value (max_len + 1) in
      if (not allow_empty && len == 0) || ltb max_len len
      then none
      else if not (is_valid_dispatch cpu (take len value))
      then none
      else some (scanned value len)

  scan_utf8-verdict : scan_utf8 cpu value max_len allow_empty ≡ verdict
  unfolding scan_utf8 verdict
  scan_utf8-verdict = rw (needs_escape-has_special cpu (take (strnlen value (max_len + 1)) value))

  -- where the loop stands: `s` is what is left of the text behind `i` ASCII bytes
  record At (rounds : ℕ) (s : Bytes) (i : ℕ) (flag : Bool) : Type 0 where
    budget : rounds + i ≡ max_len + 1
    left : strnlen value (max_len + 1) ≡ i + strnlen s rounds
    valid : (n : ℕ) → is_valid_dispatch cpu (take (i + n) value) ≡ scalar_validate (take n s)
    special : (n : ℕ) → has_special (take (i + n) value) ≡ flag || has_special (take n s)

  At-next :
      (rounds c : ℕ) (s : Bytes) (i : ℕ) (flag : Bool)
      → At (suc rounds) (c ∷ s) i flag
      → c == 0 ≡ false
      → leb c 0x7f ≡ true
      → At rounds s (i + 1) (flag || ascii_needs_json_escape c)
  At-next rounds c s i flag at nonzero ascii = record {
    budget = omega (arith, at.budget);
    left = at.left ∙ (unfold strnlen in ground arith);
    valid = λ n.
        let e : i + 1 + n ≡ i + suc n = omega arith in
        rw e (at.valid (suc n) ∙ scalar_validate-cons_ascii c (take n s) ascii);
    special = λ n.
        let e : i + 1 + n ≡ i + suc n = omega arith in
        rw e
          (at.special (suc n) ∙ (unfold has_special in ground (arith, ascii_needs-is_special c)));
  }

  scan_end-verdict :
      (rounds : ℕ) (s : Bytes) (i : ℕ) (flag : Bool)
      → At (suc rounds) s i flag
      → strnlen s (suc rounds) ≡ 0
      → scan_end cpu value max_len allow_empty i flag ≡ verdict
  unfolding scan_end verdict
  scan_end-verdict rounds s i flag at e =
      let len : strnlen value (max_len + 1) ≡ i = at.left ∙ omega (arith, e) in
      let zero_more : i + 0 ≡ i = omega arith in
      let valid : is_valid_dispatch cpu (take i value) ≡ true =
        rw zero_more at (at.valid 0) ∙ (unfold scalar_validate in refl) in
      let special : has_special (take i value) ≡ flag =
        rw zero_more at (at.special 0) ∙ (unfold has_special in ground arith) in
      rw len (ground (arith, at.budget, valid, special))

  scan_loop-verdict :
      (rounds : ℕ) (s : Bytes) (i : ℕ) (flag : Bool)
      → IsBytes s
      → At rounds s i flag
      → scan_loop cpu value max_len allow_empty rounds s i flag ≡ verdict
  unfolding scan_loop
  scan_loop-verdict zero s i flag b at = unfold verdict in ground (arith, at.budget, at.left)
  scan_loop-verdict (suc rounds) [] i flag b at =
      scan_end-verdict rounds [] i flag at (unfold strnlen in refl)
  scan_loop-verdict (suc rounds) (c ∷ s) i flag b at = elim (Bool-cases (c == 0)) [
    | inl z ↦ rw z (scan_end-verdict rounds (c ∷ s) i flag at (unfold strnlen in ground arith))
    | inr nz ↦ elim (Bool-cases (is_high c)) [
      | inl high ↦ rw (nz, high) scan_utf8-verdict
      | inr low ↦
          rw (nz, low)
            (scan_loop-verdict rounds s (i + 1) (flag || ascii_needs_json_escape c) b.1
              (At-next rounds c s i flag at nz (ground (arith, ascii_of_table c b.0))))
    ]
  ]

-- The scan of a byte string in the copy accepts it exactly if `ij_validate_string_field` does, and
-- reports its length and whether it holds a byte that JSON wants escaped.
pub scan_string_field_copy-validate :
    (cpu : Cpu) (value : Bytes) (max_len : ℕ) (allow_empty : Bool)
    → IsBytes value
    → scan_string_field_copy cpu (some value) max_len allow_empty ≡ (
        if validate_string_field cpu (some value) max_len allow_empty
        then some (scanned value (strnlen value (max_len + 1)))
        else none)
unfolding scan_string_field_copy validate_string_field
scan_string_field_copy-validate cpu value max_len allow_empty b =
    scan_loop-verdict cpu value max_len allow_empty (max_len + 1) value 0 false b (record {
      budget = omega arith;
      left = omega arith;
      valid = λ n.
          rw zero-add (is_valid_dispatch-eq_scalar cpu (take n value) (All-take IsByte n value b));
      special = λ n. rw zero-add refl;
    })
    ∙ (unfold verdict in ground arith)

module _ (cpu : Cpu) (value : Bytes) where
  -- the report of `ij_validate_attr_string_copy` on the text
  attr_verdict : Option Bool
  attr_verdict = if is_valid_dispatch cpu value then some (has_special value) else none

  attr_string_loop-verdict :
      (s : Bytes) (flag : Bool)
      → IsBytes s
      → is_valid_dispatch cpu value ≡ scalar_validate s
      → has_special value ≡ flag || has_special s
      → attr_string_loop cpu value s flag ≡ attr_verdict
  attr_string_loop-verdict [] flag b valid special =
      unfold attr_string_loop attr_verdict has_special scalar_validate in ground arith
  attr_string_loop-verdict (c ∷ s) flag b valid special = elim (Bool-cases (is_high c)) [
    | inl high ↦
        unfold attr_string_loop attr_verdict in
        rw high (ground (arith, needs_escape-has_special cpu value))
    | inr low ↦
        let ascii : leb c 0x7f ≡ true = ground (arith, ascii_of_table c b.0) in
        let step : attr_string_loop cpu value (c ∷ s) flag
            ≡ attr_string_loop cpu value s (flag || ascii_needs_json_escape c) =
          unfold attr_string_loop in rw low in
        step
        ∙ attr_string_loop-verdict s (flag || ascii_needs_json_escape c) b.1
            (valid ∙ scalar_validate-cons_ascii c s ascii)
            (special ∙ (unfold has_special in ground (arith, ascii_needs-is_special c)))
  ]

-- `ij_validate_attr_string_copy` accepts a byte string exactly if `ij_validate_attr_value` does,
-- and reports whether it holds a byte that JSON wants escaped.
pub validate_attr_string_copy-validate :
    (cpu : Cpu) (s : Bytes) (len : ℕ)
    → IsBytes s
    → validate_attr_string_copy cpu (some s) len ≡ (
        if validate_attr_value cpu (AttrValue.string (some s) len)
        then some (has_special (take len s))
        else none)
unfolding validate_attr_string_copy validate_attr_value
validate_attr_string_copy-validate cpu s len b =
    let t = take len s in
    let loop =
      attr_string_loop-verdict cpu t t false (All-take IsByte len s b)
        (is_valid_dispatch-eq_scalar cpu t (All-take IsByte len s b)) refl in
    unfold attr_verdict in ground (arith, loop)
