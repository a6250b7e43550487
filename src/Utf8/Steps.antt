-- ===== src/Utf8/Steps.antt =====
-- A round of the validation loop that goes on has read the encoding of one scalar value.
use iojournal.Prelude.{
  Bool-cases, Bytes, IsByte, IsBytes, [], arith, drop, inl, inr, leb, some, sym, true, within, ℕ,
  ◌*◌, ◌++◌, ◌+◌, ◌-◌, ◌<◌, ◌∙◌, ◌∷◌, ◌≡◌, ◌≤◌,
}
use iojournal.Utf8.Spec.{IsScalar, encode}
use iojournal.Utf8.{advance, is_lead_2, is_lead_3, is_lead_4, sequence_2, sequence_3, sequence_4}
use iojournal.Utf8.Ranges.{
  is_continuation-within, is_lead_2-within, is_lead_3-within, is_lead_4-within,
}

-- The scalar value that a sequence of two, three or four bytes stands for.
point_2 : ℕ → ℕ → ℕ
point_2 c c1 = (c - 0xc0) * 64 + (c1 - 0x80)

point_3 : ℕ → ℕ → ℕ → ℕ
point_3 c c1 c2 = (c - 0xe0) * 4096 + (c1 - 0x80) * 64 + (c2 - 0x80)

point_4 : ℕ → ℕ → ℕ → ℕ → ℕ
point_4 c c1 c2 c3 = (c - 0xf0) * 262144 + (c1 - 0x80) * 4096 + (c2 - 0x80) * 64 + (c3 - 0x80)

abbrev IsTail : ℕ → Type 0
IsTail c = (0x80 ≤ c) × (c ≤ 0xbf)

encode-point_2 : (c c1 : ℕ) → 0xc2 ≤ c → c ≤ 0xdf → IsTail c1 → encode (point_2 c c1) ≡ c ∷ c1 ∷ []
unfolding encode point_2
encode-point_2 c c1 h k t = ground arith

encode-point_3 :
    (c c1 c2 : ℕ)
    → 0xe0 ≤ c
    → c ≤ 0xef
    → IsTail c1
    → IsTail c2
    → (c ≡ 0xe0 → 0xa0 ≤ c1)
    → encode (point_3 c c1 c2) ≡ c ∷ c1 ∷ c2 ∷ []
unfolding encode point_3
encode-point_3 c c1 c2 h k t1 t2 e = ground arith

encode-point_4 :
    (c c1 c2 c3 : ℕ)
    → 0xf0 ≤ c
    → c ≤ 0xf4
    → IsTail c1
    → IsTail c2
    → IsTail c3
    → (c ≡ 0xf0 → 0x90 ≤ c1)
    → encode (point_4 c c1 c2 c3) ≡ c ∷ c1 ∷ c2 ∷ c3 ∷ []
unfolding encode point_4
encode-point_4 c c1 c2 c3 h k t1 t2 t3 e = ground arith

-- What one round of the loop has read: the encoding of a scalar value, of `k` bytes.
pub record Reads (c : ℕ) (s : Bytes) (k : ℕ) : Type 0 where
  pub point : ℕ
  pub scalar : IsScalar point
  pub splits : c ∷ s ≡ encode point ++ drop k (c ∷ s)

point_2-IsScalar : (c c1 : ℕ) → c ≤ 0xdf → IsTail c1 → IsScalar (point_2 c c1)
unfolding point_2
point_2-IsScalar c c1 k t = inl (omega arith)

point_3-IsScalar :
    (c c1 c2 : ℕ)
    → c ≤ 0xef
    → IsTail c1
    → IsTail c2
    → (c ≡ 0xed → c1 < 0xa0)
    → IsScalar (point_3 c c1 c2)
unfolding point_3
point_3-IsScalar c c1 c2 k t1 t2 e = ground arith

point_4-IsScalar :
    (c c1 c2 c3 : ℕ)
    → 0xf0 ≤ c
    → c ≤ 0xf4
    → IsTail c1
    → IsTail c2
    → IsTail c3
    → (c ≡ 0xf0 → 0x90 ≤ c1)
    → (c ≡ 0xf4 → c1 < 0x90)
    → IsScalar (point_4 c c1 c2 c3)
unfolding point_4
point_4-IsScalar c c1 c2 c3 h k t1 t2 t3 e f = ground arith

sequence_2-Reads :
    (c : ℕ) (s : Bytes) {k : ℕ}
    → IsBytes s
    → within 0xc0 0xdf c ≡ true
    → sequence_2 c s ≡ some k
    → Reads c s k
unfolding sequence_2
sequence_2-Reads c [] b h e = ground arith
sequence_2-Reads c (c1 ∷ s) {k} b h e =
    let t = is_continuation-within c1 b.0 in
    let lead : (0xc2 ≤ c) × (c ≤ 0xdf) = ground (arith, t) in
    let tail : IsTail c1 = ground (arith, t) in
    let two : k ≡ 2 = ground arith in
    record {
      point = point_2 c c1;
      scalar = point_2-IsScalar c c1 lead.1 tail;
      splits = rw (two, encode-point_2 c c1 lead.0 lead.1 tail);
    }

sequence_3-Reads :
    (c : ℕ) (s : Bytes) {k : ℕ}
    → IsBytes s
    → within 0xe0 0xef c ≡ true
    → sequence_3 c s ≡ some k
    → Reads c s k
unfolding sequence_3
sequence_3-Reads c [] b h e = ground arith
sequence_3-Reads c (c1 ∷ []) b h e = ground arith
sequence_3-Reads c (c1 ∷ c2 ∷ s) {k} b h e =
    let t1 = is_continuation-within c1 b.0 in
    let t2 = is_continuation-within c2 b.1.0 in
    let lead : (0xe0 ≤ c) × (c ≤ 0xef) = ground arith in
    let tails : IsTail c1 × IsTail c2 = ground (arith, t1, t2) in
    let low : c ≡ 0xe0 → 0xa0 ≤ c1 = ground (arith, t1, t2) in
    let high : c ≡ 0xed → c1 < 0xa0 = ground (arith, t1, t2) in
    let three : k ≡ 3 = ground arith in
    record {
      point = point_3 c c1 c2;
      scalar = point_3-IsScalar c c1 c2 lead.1 tails.0 tails.1 high;
      splits = rw (three, encode-point_3 c c1 c2 lead.0 lead.1 tails.0 tails.1 low);
    }

sequence_4-Reads :
    (c : ℕ) (s : Bytes) {k : ℕ}
    → IsBytes s
    → within 0xf0 0xf7 c ≡ true
    → sequence_4 c s ≡ some k
    → Reads c s k
unfolding sequence_4
sequence_4-Reads c [] b h e = ground arith
sequence_4-Reads c (c1 ∷ []) b h e = ground arith
sequence_4-Reads c (c1 ∷ c2 ∷ []) b h e = ground arith
sequence_4-Reads c (c1 ∷ c2 ∷ c3 ∷ s) {k} b h e =
    let t1 = is_continuation-within c1 b.0 in
    let t2 = is_continuation-within c2 b.1.0 in
    let t3 = is_continuation-within c3 b.1.1.0 in
    let lead : (0xf0 ≤ c) × (c ≤ 0xf4) = ground (arith, t1, t2, t3) in
    let tails : IsTail c1 × IsTail c2 × IsTail c3 = ground (arith, t1, t2, t3) in
    let low : c ≡ 0xf0 → 0x90 ≤ c1 = ground (arith, t1, t2, t3) in
    let high : c ≡ 0xf4 → c1 < 0x90 = ground (arith, t1, t2, t3) in
    let four : k ≡ 4 = ground arith in
    record {
      point = point_4 c c1 c2 c3;
      scalar = point_4-IsScalar c c1 c2 c3 lead.0 lead.1 tails.0 tails.1 tails.2 low high;
      splits = rw (four, encode-point_4 c c1 c2 c3 lead.0 lead.1 tails.0 tails.1 tails.2 low);
    }

encode-ascii : (c : ℕ) → c ≤ 0x7f → encode c ≡ c ∷ []
unfolding encode
encode-ascii c h = ground arith

-- A round that goes on has read the encoding of one scalar value.
pub advance-Reads :
    (c : ℕ) (s : Bytes) {k : ℕ} → IsByte c → IsBytes s → advance c s ≡ some k → Reads c s k
unfolding advance
advance-Reads c s {k} b bs e = elim (Bool-cases (leb c 0x7f)) [
  | inl ascii ↦
      let low : c ≤ 0x7f = ground arith in
      let one : k ≡ 1 = ground arith in
      record { point = c; scalar = inl (omega arith); splits = rw (one, encode-ascii c low) }
  | inr multi ↦ elim (Bool-cases (is_lead_2 c)) [
    | inl l2 ↦ sequence_2-Reads c s bs (sym (is_lead_2-within c b) ∙ l2) (rw (multi, l2) at e)
    | inr n2 ↦ elim (Bool-cases (is_lead_3 c)) [
      | inl l3 ↦ sequence_3-Reads c s bs (sym (is_lead_3-within c b) ∙ l3) (rw (multi, n2, l3) at e)
      | inr n3 ↦ elim (Bool-cases (is_lead_4 c)) [
        | inl l4 ↦
            sequence_4-Reads c s bs (sym (is_lead_4-within c b) ∙ l4) (rw (multi, n2, n3, l4) at e)
        | inr n4 ↦ ground arith
      ]
    ]
  ]
]
