-- ===== src/Json/Put.antt =====
-- The builder's contract: an operation writes its text if the buffer has room for the text and
-- the terminator, and fails if not. Contracts compose.
use iojournal.Prelude.{
  Bytes, Option, [], append-nil, append_assoc, arith, if◌then◌else◌, length, length-append, ltb,
  none, refl, some, ℕ, ◌++◌, ◌+◌, ◌<◌, ◌^◌, ◌∙◌, ◌∷◌, ◌≡◌, ◌≤◌,
}
use iojournal.Json.{Builder, append_char, append_raw_n, can_append, push, ◌▷◌}

-- The text fits with its terminator, and no sum of sizes comes near the range of `size_t`.
pub record IsValid (b : Builder) : Type 0 where
  pub room : length b.text < b.capacity
  pub small : b.capacity ≤ 2 ^ 62

-- An object of C is no longer than this.
abbrev pub IsObject : Bytes → Type 0
IsObject s = length s < 2 ^ 62

-- The abstract operation.
abbrev pub put : Bytes → Builder → Option Builder
put s b = if ltb (length b.text + length s) b.capacity then some (push b s) else none

-- `m` writes `s`, whole or not at all.
abbrev pub Puts : (Builder → Option Builder) → Bytes → Type 0
Puts m s = (b : Builder) → IsValid b → m b ≡ put s b

pub put-IsValid : (s : Bytes) (b : Builder) {c : Builder} → IsValid b → put s b ≡ some c → IsValid c
put-IsValid s b v e = ground (arith, length-append b.text s)

pub put-append : (s t : Bytes) (b : Builder) → (put s b ▷ put t) ≡ put (s ++ t) b
put-append s t b =
    ground (arith, length-append b.text s, length-append s t, append_assoc b.text s t)

pub put-nil : (b : Builder) → IsValid b → put [] b ≡ some b
put-nil b v = ground (arith, append-nil b.text)

bind-congr :
    {A B : Type 0} (o : Option A) (f g : A → Option B)
    → ((a : A) → o ≡ some a → f a ≡ g a)
    → (o ▷ f) ≡ (o ▷ g)
bind-congr (some a) f g h = h a refl
bind-congr none f g h = refl

pub Puts-bind :
    (m n : Builder → Option Builder) (s t : Bytes)
    → Puts m s
    → Puts n t
    → Puts (λ b. m b ▷ n) (s ++ t)
Puts-bind m n s t p q b v =
    rw (p b v)
      (bind-congr (put s b) n (put t) (λ c e. q c (put-IsValid s b v e)) ∙ put-append s t b)

pub Puts-append_raw_n : (s : Bytes) → IsObject s → Puts (append_raw_n s) s
unfolding append_raw_n
Puts-append_raw_n s h b v = ground arith

pub Puts-append_char : (c : ℕ) → Puts (append_char c) (c ∷ [])
unfolding append_char
Puts-append_char c b v = ground arith

pub can_append_lem :
    (b : Builder) (n : ℕ)
    → IsValid b
    → n < 2 ^ 62
    → can_append b n ≡ ltb (length b.text + n) b.capacity
unfolding can_append
can_append_lem b n v h = ground arith
