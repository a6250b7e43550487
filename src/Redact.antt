-- ===== src/Redact.antt =====
-- src/filters/ij_redact_match_scalar.c and src/filters/ij_redact.c: which attribute keys name a
-- secret. `tolower` is that of the "C" locale, in which a program starts. A key is given with its
-- length, so it is the list of its bytes.
pub mod Words
pub mod Spec
pub mod Suffix
pub mod Simd
pub mod Value
mod Tests
use iojournal.Prelude.{
  Bool, Bytes, Option, [], bit_or, codes, drop, false, get_or, if◌then◌else◌, length, ltb, none,
  not, some, true, within, ℕ, ◌&&◌, ◌+◌, ◌-◌, ◌==◌, ◌||◌, ◌∷◌,
}

-- `tolower((unsigned char)c)`
pub tolower : ℕ → ℕ
tolower c = if within b'A' b'Z' c then c + 32 else c

-- the loop of `ij_redact_case_equal_scalar`, over two arrays of one length
pub case_equal_loop : Bytes → Bytes → Bool
case_equal_loop [] rhs = true
case_equal_loop (c ∷ lhs) [] = true
case_equal_loop (c ∷ lhs) (d ∷ rhs) =
    let rest = case_equal_loop lhs rhs in if not (tolower c == tolower d) then false else rest

-- `ij_redact_case_equal_scalar`
pub case_equal_scalar : Bytes → Bytes → Bool
unfolding case_equal_loop tolower
case_equal_scalar lhs rhs =
    if not (length lhs == length rhs) then false else case_equal_loop lhs rhs

-- `ij_redact_has_dot_scalar`
pub has_dot_scalar : Bytes → Bool
has_dot_scalar [] = false
has_dot_scalar (c ∷ s) = let rest = has_dot_scalar s in if c == b'.' then true else rest

-- `key[0] | 0x20`; the arms that read it stand behind a test of the length.
abbrev pub lead : Bytes → ℕ
lead key = bit_or (get_or key 0 0) 0x20

-- the arms of the `switch` on the length that look at the first byte
pub match_6 : Bytes → Bool
match_6 key =
    if lead key == b'a'
    then case_equal_scalar key (codes "apikey")
    else if lead key == b'c'
    then case_equal_scalar key (codes "cookie")
    else if lead key == b'p'
    then case_equal_scalar key (codes "passwd")
    else if lead key == b's'
    then case_equal_scalar key (codes "secret")
    else false

pub match_7 : Bytes → Bool
match_7 key =
    if lead key == b'a'
    then case_equal_scalar key (codes "api_key")
    else if lead key == b's'
    then case_equal_scalar key (codes "session")
    else false

pub match_8 : Bytes → Bool
match_8 key =
    if lead key == b'i'
    then case_equal_scalar key (codes "id_token")
    else if lead key == b'p'
    then case_equal_scalar key (codes "password")
    else false

pub match_10 : Bytes → Bool
match_10 key =
    if lead key == b'p'
    then case_equal_scalar key (codes "passphrase")
    else if lead key == b's'
    then case_equal_scalar key (codes "session_id")
      || case_equal_scalar key (codes "set_cookie")
      || case_equal_scalar key (codes "secret_key")
    else false

pub match_11 : Bytes → Bool
match_11 key =
    if lead key == b'p'
    then case_equal_scalar key (codes "private_key")
    else if lead key == b's'
    then case_equal_scalar key (codes "signing_key")
    else false

pub match_13 : Bytes → Bool
match_13 key =
    if lead key == b'a'
    then case_equal_scalar key (codes "authorization")
    else if lead key == b'c'
    then case_equal_scalar key (codes "client_secret")
    else if lead key == b'r'
    then case_equal_scalar key (codes "refresh_token")
    else false

-- `ij_redact_match_known_key`
pub match_known_key : Bytes → Bool
unfolding match_6 match_7 match_8 match_10 match_11 match_13 case_equal_scalar
match_known_key key =
    let n = length key in
    if n == 5
    then case_equal_scalar key (codes "token")
    else if n == 6
    then match_6 key
    else if n == 7
    then match_7 key
    else if n == 8
    then match_8 key
    else if n == 10
    then match_10 key
    else if n == 11
    then match_11 key
    else if n == 12
    then case_equal_scalar key (codes "access_token")
    else if n == 13
    then match_13 key
    else false

-- `key_len > n && ij_redact_match_known_key(key + (key_len - n), n)`
pub known_tail : ℕ → Bytes → Bool
known_tail n key = ltb n (length key) && match_known_key (drop (length key - n) key)

-- `ij_redact_match_suffix`
pub match_suffix : Bytes → Bool
match_suffix key =
    known_tail 13 key
    || known_tail 12 key
    || known_tail 11 key
    || known_tail 10 key
    || known_tail 8 key
    || known_tail 7 key
    || known_tail 6 key
    || known_tail 5 key

-- `ij_key_should_redact_n`; `none` for NULL
pub key_should_redact_n : Option Bytes → Bool
unfolding match_known_key match_suffix known_tail has_dot_scalar
key_should_redact_n none = false
key_should_redact_n (some key) = match_known_key key || (has_dot_scalar key && match_suffix key)
