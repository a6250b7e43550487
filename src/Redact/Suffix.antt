-- ===== src/Redact/Suffix.antt =====
-- The matcher on dotted keys, and the decision to redact.
use iojournal.Prelude.{
  All-drop, Bool-cases, Bytes, IsByte, IsBytes, [], arith, bool_ext, drop, inl, inr, length,
  length-drop, ltb, lt→ltb, refl, some, suc, true, zero, ℕ, ◌+◌, ◌-◌, ◌<◌, ◌∙◌, ◌∷◌, ◌≡◌, ◌≤◌, ◌⊎◌,
}
use iojournal.Redact.{has_dot_scalar, key_should_redact_n, known_tail, match_suffix}
use iojournal.Redact.Spec.{
  has_byte, is_secret, secret_suffix, should_redact, words_10, words_11, words_12, words_13,
  words_5, words_6, words_7, words_8,
}
use iojournal.Redact.Words.{any_word-length, is_secret-split, match_known_key-is_secret}

-- A suffix of `key` that starts behind its first byte and is a name of a secret.
abbrev SecretAt : Bytes → ℕ → Type 0
SecretAt key k = (0 < k) × (k ≤ length key) × (is_secret (drop k key) ≡ true)

secret_suffix-of_SecretAt : (key : Bytes) (k : ℕ) → SecretAt key k → secret_suffix key ≡ true
unfolding secret_suffix
secret_suffix-of_SecretAt key zero h = absurd (omega arith)
secret_suffix-of_SecretAt [] (suc k) h = absurd (omega arith)
secret_suffix-of_SecretAt (c ∷ key) (suc zero) h = rw h.2 refl
secret_suffix-of_SecretAt (c ∷ key) (suc (suc k)) h =
    ground (arith, secret_suffix-of_SecretAt key (suc k) (omega arith, omega arith, h.2))

SecretAt-of_secret_suffix : (key : Bytes) → secret_suffix key ≡ true → (k : ℕ) × SecretAt key k
unfolding secret_suffix
SecretAt-of_secret_suffix [] h = cc
SecretAt-of_secret_suffix (c ∷ key) h = elim (Bool-cases (is_secret key)) [
  | inl here ↦ (1, (omega arith, omega arith, here))
  | inr later ↦
      let (k, at) = SecretAt-of_secret_suffix key (rw later at h) in
      (suc k, (omega arith, omega arith, at.2))
]

abbrev IsWordLength : ℕ → Type 0
IsWordLength n =
    (n ≡ 13) ⊎ ((n ≡ 12) ⊎ ((n ≡ 11) ⊎ ((n ≡ 10) ⊎ ((n ≡ 8) ⊎ ((n ≡ 7) ⊎ ((n ≡ 6) ⊎ (n ≡ 5)))))))

length-is_secret : (key : Bytes) → is_secret key ≡ true → IsWordLength (length key)
length-is_secret key h = ground (
  arith,
  is_secret-split key,
  any_word-length key 5 words_5 (omega arith),
  any_word-length key 6 words_6 (omega arith),
  any_word-length key 7 words_7 (omega arith),
  any_word-length key 8 words_8 (omega arith),
  any_word-length key 10 words_10 (omega arith),
  any_word-length key 11 words_11 (omega arith),
  any_word-length key 12 words_12 (omega arith),
  any_word-length key 13 words_13 (omega arith),
)

module _ (key : Bytes) (b : IsBytes key) where
  known_tail-of_SecretAt : (n k : ℕ) → SecretAt key k → length key ≡ k + n → known_tail n key ≡ true
  unfolding known_tail
  known_tail-of_SecretAt n k h e =
      let cut : length key - n ≡ k = omega arith in
      let longer : ltb n (length key) ≡ true = lt→ltb n (length key) (omega arith) in
      rw (longer, cut) (match_known_key-is_secret (drop k key) (All-drop IsByte k key b) ∙ h.2)

  SecretAt-of_known_tail : (n : ℕ) → 0 < n → known_tail n key ≡ true → SecretAt key (length key - n)
  unfolding known_tail
  SecretAt-of_known_tail n p h = ground (
    arith,
    match_known_key-is_secret (drop (length key - n) key) (All-drop IsByte (length key - n) key b),
  )

  secret_suffix-known_tail : (n : ℕ) → 0 < n → known_tail n key ≡ true → secret_suffix key ≡ true
  secret_suffix-known_tail n p h =
      secret_suffix-of_SecretAt key (length key - n) (SecretAt-of_known_tail n p h)

  match_suffix-of_SecretAt :
      (n k : ℕ) → SecretAt key k → length key ≡ k + n → IsWordLength n → match_suffix key ≡ true
  unfolding match_suffix
  match_suffix-of_SecretAt n k h e l = ground (arith, known_tail-of_SecretAt n k h e)

  match_suffix-eq : match_suffix key ≡ secret_suffix key
  match_suffix-eq = bool_ext (match_suffix key) (secret_suffix key) there back
    where
      there : match_suffix key ≡ true → secret_suffix key ≡ true
      there h =
          unfold match_suffix in
          ground (
            arith,
            secret_suffix-known_tail 13 (omega arith),
            secret_suffix-known_tail 12 (omega arith),
            secret_suffix-known_tail 11 (omega arith),
            secret_suffix-known_tail 10 (omega arith),
            secret_suffix-known_tail 8 (omega arith),
            secret_suffix-known_tail 7 (omega arith),
            secret_suffix-known_tail 6 (omega arith),
            secret_suffix-known_tail 5 (omega arith),
          )

      back : secret_suffix key ≡ true → match_suffix key ≡ true
      back h =
          let (k, at) = SecretAt-of_secret_suffix key h in
          match_suffix-of_SecretAt (length key - k) k at (omega arith)
            (rw (length-drop k key) at (length-is_secret (drop k key) at.2))

has_dot-has_byte : (s : Bytes) → has_dot_scalar s ≡ has_byte b'.' s
unfolding has_dot_scalar has_byte
has_dot-has_byte [] = refl
has_dot-has_byte (c ∷ s) = ground (arith, has_dot-has_byte s)

-- A key of bytes is redacted exactly if it is a name of a secret, whatever the case of its
-- letters, or holds a dot and ends in one behind at least one other byte.
pub key_should_redact_n-should_redact :
    (key : Bytes) → IsBytes key → key_should_redact_n (some key) ≡ should_redact key
unfolding key_should_redact_n
key_should_redact_n-should_redact key b =
    ground (arith, match_known_key-is_secret key b, match_suffix-eq key b, has_dot-has_byte key)
