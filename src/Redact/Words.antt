-- ===== src/Redact/Words.antt =====
-- The matcher decides membership in the denylist.
use iojournal.Prelude.{
  All, Bytes, IsByte, IsBytes, List, [], ap, arith, bit_or, codes, holds_at, holds_up_to, length,
  refl, same, suc, true, within, ℕ, ◌&&◌, ◌++◌, ◌==◌, ◌||◌, ◌∷◌, ◌≡◌,
}
use iojournal.Redact.{
  case_equal_loop, case_equal_scalar, lead, match_10, match_11, match_13, match_6, match_7, match_8,
  match_known_key, tolower,
}
use iojournal.Redact.Spec.{
  any_word, bytes_equal, is_secret, is_word, words_10, words_11, words_12, words_13, words_5,
  words_6, words_7, words_8,
}

length-is_word : (key word : Bytes) → is_word key word ≡ true → length key ≡ length word
unfolding is_word bytes_equal
length-is_word [] [] h = refl
length-is_word [] (d ∷ word) h = cc
length-is_word (c ∷ key) [] h = cc
length-is_word (c ∷ key) (d ∷ word) h = ap suc (length-is_word key word (ground arith))

-- No letter of the word is upper case.
abbrev IsLower : Bytes → Type 0
IsLower = All (λ c. tolower c ≡ c)

case_equal_loop-is_word :
    (key word : Bytes)
    → IsLower word
    → length key ≡ length word
    → case_equal_loop key word ≡ is_word key word
unfolding case_equal_loop is_word bytes_equal
case_equal_loop-is_word [] [] l h = refl
case_equal_loop-is_word [] (d ∷ word) l h = absurd (omega arith)
case_equal_loop-is_word (c ∷ key) [] l h = absurd (omega arith)
case_equal_loop-is_word (c ∷ key) (d ∷ word) l h =
    ground (arith, l.0, case_equal_loop-is_word key word l.1)

case_equal-is_word :
    (key word : Bytes) → IsLower word → case_equal_scalar key word ≡ is_word key word
unfolding case_equal_scalar
case_equal-is_word key word l =
    ground (arith, case_equal_loop-is_word key word l, length-is_word key word)

-- The first byte of a word tells the arm.
lead_table : (c : ℕ) → IsByte c → within b'a' b'z' (tolower c) ≡ true → bit_or c 0x20 ≡ tolower c
unfolding holds_up_to tolower
lead_table c h e = ground (
  arith,
  holds_at
      (λ d.
        same (within b'a' b'z' (tolower d))
          (within b'a' b'z' (tolower d) && (bit_or d 0x20 == tolower d)))
      256 c h refl,
)

lead-is_word :
    (key : Bytes) (c : ℕ) (word : Bytes)
    → IsBytes key
    → within b'a' b'z' c ≡ true
    → is_word key (c ∷ word) ≡ true
    → lead key ≡ c
unfolding is_word bytes_equal
lead-is_word [] c word b w h = cc
lead-is_word (d ∷ key) c word b w h = ground (arith, lead_table d b.0)

any_word-append :
    (key : Bytes) (ws vs : List Bytes)
    → any_word key (ws ++ vs) ≡ any_word key ws || any_word key vs
unfolding any_word
any_word-append key [] vs = refl
any_word-append key (w ∷ ws) vs = ground (arith, any_word-append key ws vs)

-- A key has no word of another length.
pub any_word-length :
    (key : Bytes) (n : ℕ) (ws : List Bytes)
    → All (λ w. length w ≡ n) ws
    → any_word key ws ≡ true
    → length key ≡ n
unfolding any_word
any_word-length key n [] l h = cc
any_word-length key n (w ∷ ws) l h =
    ground (arith, length-is_word key w, any_word-length key n ws l.1)

-- What the arm of a word knows of it.
abbrev ArmFacts : Bytes → ℕ → Bytes → Type 0
ArmFacts key c word =
    (case_equal_scalar key (c ∷ word) ≡ is_word key (c ∷ word))
    × (is_word key (c ∷ word) ≡ true → lead key ≡ c)

arm_facts :
    (key : Bytes) (c : ℕ) (word : Bytes)
    → IsBytes key
    → within b'a' b'z' c ≡ true
    → IsLower (c ∷ word)
    → ArmFacts key c word
arm_facts key c word b w l = (case_equal-is_word key (c ∷ word) l, lead-is_word key c word b w)

match_6-words : (key : Bytes) → IsBytes key → match_6 key ≡ any_word key words_6
unfolding match_6 any_word
match_6-words key b = ground (
  arith,
  arm_facts key b'a' (codes "pikey") b refl (unfold tolower in omega arith),
  arm_facts key b'c' (codes "ookie") b refl (unfold tolower in omega arith),
  arm_facts key b'p' (codes "asswd") b refl (unfold tolower in omega arith),
  arm_facts key b's' (codes "ecret") b refl (unfold tolower in omega arith),
)

match_7-words : (key : Bytes) → IsBytes key → match_7 key ≡ any_word key words_7
unfolding match_7 any_word
match_7-words key b = ground (
  arith,
  arm_facts key b'a' (codes "pi_key") b refl (unfold tolower in omega arith),
  arm_facts key b's' (codes "ession") b refl (unfold tolower in omega arith),
)

match_8-words : (key : Bytes) → IsBytes key → match_8 key ≡ any_word key words_8
unfolding match_8 any_word
match_8-words key b = ground (
  arith,
  arm_facts key b'i' (codes "d_token") b refl (unfold tolower in omega arith),
  arm_facts key b'p' (codes "assword") b refl (unfold tolower in omega arith),
)

match_10-words : (key : Bytes) → IsBytes key → match_10 key ≡ any_word key words_10
unfolding match_10 any_word
match_10-words key b = ground (
  arith,
  arm_facts key b'p' (codes "assphrase") b refl (unfold tolower in omega arith),
  arm_facts key b's' (codes "ession_id") b refl (unfold tolower in omega arith),
  arm_facts key b's' (codes "et_cookie") b refl (unfold tolower in omega arith),
  arm_facts key b's' (codes "ecret_key") b refl (unfold tolower in omega arith),
)

match_11-words : (key : Bytes) → IsBytes key → match_11 key ≡ any_word key words_11
unfolding match_11 any_word
match_11-words key b = ground (
  arith,
  arm_facts key b'p' (codes "rivate_key") b refl (unfold tolower in omega arith),
  arm_facts key b's' (codes "igning_key") b refl (unfold tolower in omega arith),
)

match_13-words : (key : Bytes) → IsBytes key → match_13 key ≡ any_word key words_13
unfolding match_13 any_word
match_13-words key b = ground (
  arith,
  arm_facts key b'a' (codes "uthorization") b refl (unfold tolower in omega arith),
  arm_facts key b'c' (codes "lient_secret") b refl (unfold tolower in omega arith),
  arm_facts key b'r' (codes "efresh_token") b refl (unfold tolower in omega arith),
)

any_word-singleton : (key w : Bytes) → any_word key (w ∷ []) ≡ is_word key w
unfolding any_word
any_word-singleton key w = ground arith

-- The denylist holds a key if the words of its length do.
pub is_secret-split :
    (key : Bytes)
    → is_secret key ≡ (
        any_word key words_5
        || (any_word key words_6
            || (any_word key words_7
                || (any_word key words_8
                    || (any_word key words_10
                        || (any_word key words_11
                            || (any_word key words_12 || any_word key words_13)))))))
unfolding any_word
is_secret-split key = ground arith

-- `ij_redact_match_known_key` decides, for a key of bytes, whether the key is on the denylist,
-- whatever the case of its letters.
pub match_known_key-is_secret : (key : Bytes) → IsBytes key → match_known_key key ≡ is_secret key
unfolding match_known_key
match_known_key-is_secret key b = ground (
  arith,
  is_secret-split key,
  case_equal-is_word key (codes "token") (unfold tolower in omega arith),
  any_word-singleton key (codes "token"),
  match_6-words key b,
  match_7-words key b,
  match_8-words key b,
  match_10-words key b,
  match_11-words key b,
  case_equal-is_word key (codes "access_token") (unfold tolower in omega arith),
  any_word-singleton key (codes "access_token"),
  match_13-words key b,
  any_word-length key 5 words_5 (omega arith),
  any_word-length key 6 words_6 (omega arith),
  any_word-length key 7 words_7 (omega arith),
  any_word-length key 8 words_8 (omega arith),
  any_word-length key 10 words_10 (omega arith),
  any_word-length key 11 words_11 (omega arith),
  any_word-length key 12 words_12 (omega arith),
  any_word-length key 13 words_13 (omega arith),
)
