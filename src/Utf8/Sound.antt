-- ===== src/Utf8/Sound.antt =====
-- The validator accepts the encodings of lists of Unicode scalar values and nothing else.
use iojournal.Prelude.{
  All, All-drop, Bytes, IsByte, IsBytes, List, Option, [], ap, arith, drop, drop-append_self,
  length, length-append, none, refl, some, suc, true, zero, ℕ, ◌++◌, ◌<◌, ◌∙◌, ◌∷◌, ◌≡◌, ◌≤◌,
}
use iojournal.Utf8.{advance, scalar_validate, validate_loop}
use iojournal.Utf8.Spec.{IsScalar, IsUtf8, encode, encode_text}
use iojournal.Utf8.Steps.{advance-Reads}
use iojournal.Utf8.Consumes.{Consumes, encode-Consumes}

length-encode-pos : (n : ℕ) → 0 < length (encode n)
unfolding encode
length-encode-pos n = ground arith

IsUtf8-cons : (n : ℕ) (s : Bytes) → IsScalar n → IsUtf8 s → IsUtf8 (encode n ++ s)
unfolding encode_text
IsUtf8-cons n s sc u = record {
  points = n ∷ u.points;
  scalars = (sc, u.scalars);
  encodes = ap (λ t. encode n ++ t) u.encodes;
}

validate_loop-IsUtf8 : (f : ℕ) (s : Bytes) → IsBytes s → validate_loop f s ≡ true → IsUtf8 s
unfolding validate_loop encode_text
validate_loop-IsUtf8 f [] b e = record { points = []; scalars = tt; encodes = refl }
validate_loop-IsUtf8 zero (c ∷ s) b e = cc
validate_loop-IsUtf8 (suc f) (c ∷ s) b e =
    go (advance c s) refl
      (λ k. validate_loop-IsUtf8 f (drop k (c ∷ s)) (All-drop IsByte k (c ∷ s) b))
  where
    go :
        (o : Option ℕ)
        → advance c s ≡ o
        → ((k : ℕ) → validate_loop f (drop k (c ∷ s)) ≡ true → IsUtf8 (drop k (c ∷ s)))
        → IsUtf8 (c ∷ s)
    go none h rest = ground arith
    go (some k) h rest =
        let r = advance-Reads c s b.0 b.1 h in
        rw r.splits
          (IsUtf8-cons r.point (drop k (c ∷ s)) r.scalar (rest k (rw (h, validate_loop) at e)))

validate_loop-of_Consumes :
    (f : ℕ) (s : Bytes) (k : ℕ)
    → Consumes s k
    → validate_loop (suc f) s ≡ validate_loop f (drop k s)
unfolding validate_loop
validate_loop-of_Consumes f [] k h = absurd h
validate_loop-of_Consumes f (c ∷ s) k h = rw (h, validate_loop)

validate_loop-encode_text :
    (ns : List ℕ) (f : ℕ)
    → All IsScalar ns
    → length (encode_text ns) ≤ f
    → validate_loop f (encode_text ns) ≡ true
unfolding validate_loop encode_text
validate_loop-encode_text [] f h l = refl
validate_loop-encode_text (n ∷ ns) zero h l =
    absurd (omega (arith, length-encode-pos n, length-append (encode n) (encode_text ns)))
validate_loop-encode_text (n ∷ ns) (suc f) h l =
    validate_loop-of_Consumes f (encode n ++ encode_text ns) (length (encode n))
      (encode-Consumes n (encode_text ns) h.0)
    ∙ ap (validate_loop f) (drop-append_self (encode n) (encode_text ns))
    ∙ validate_loop-encode_text ns f h.1
        (omega (arith, length-encode-pos n, length-append (encode n) (encode_text ns)))

-- `ij_utf8_scalar_validate` accepts a byte string exactly if it is the UTF-8 encoding, in the
-- sense of RFC 3629, of a list of Unicode scalar values: no overlong form, no surrogate, nothing
-- above U+10FFFF.
pub scalar_validate-IsUtf8 :
    (s : Bytes)
    → IsBytes s
    → (scalar_validate s ≡ true → IsUtf8 s) × (IsUtf8 s → scalar_validate s ≡ true)
unfolding scalar_validate
scalar_validate-IsUtf8 s b = (
  validate_loop-IsUtf8 (length s) s b,
  λ u. rw u.encodes (validate_loop-encode_text u.points _ u.scalars (omega arith)),
)
