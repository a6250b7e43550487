-- ===== src/Redact/Spec.antt =====
-- The secrets by name: what the matcher decides, with no switch on lengths or first bytes.
use iojournal.Prelude.{
  Bool, Bytes, List, [], codes, false, map, true, ℕ, ◌&&◌, ◌++◌, ◌==◌, ◌||◌, ◌∷◌,
}
use iojournal.Redact.{tolower}

unfoldable pub bytes_equal : Bytes → Bytes → Bool
bytes_equal [] [] = true
bytes_equal (x ∷ xs) (y ∷ ys) = x == y && bytes_equal xs ys
bytes_equal _ _ = false

-- The key is a word, whatever the case of its letters.
unfoldable pub is_word : Bytes → Bytes → Bool
is_word key word = bytes_equal (map tolower key) word

unfoldable pub any_word : Bytes → List Bytes → Bool
any_word key [] = false
any_word key (w ∷ ws) = is_word key w || any_word key ws

-- The names of secrets, by length.
abbrev pub words_5 : List Bytes
words_5 = codes "token" ∷ []

abbrev pub words_6 : List Bytes
words_6 = codes "apikey" ∷ codes "cookie" ∷ codes "passwd" ∷ codes "secret" ∷ []

abbrev pub words_7 : List Bytes
words_7 = codes "api_key" ∷ codes "session" ∷ []

abbrev pub words_8 : List Bytes
words_8 = codes "id_token" ∷ codes "password" ∷ []

abbrev pub words_10 : List Bytes
words_10 = codes "passphrase" ∷ codes "session_id" ∷ codes "set_cookie" ∷ codes "secret_key" ∷ []

abbrev pub words_11 : List Bytes
words_11 = codes "private_key" ∷ codes "signing_key" ∷ []

abbrev pub words_12 : List Bytes
words_12 = codes "access_token" ∷ []

abbrev pub words_13 : List Bytes
words_13 = codes "authorization" ∷ codes "client_secret" ∷ codes "refresh_token" ∷ []

-- The denylist.
abbrev pub words : List Bytes
words =
    words_5
    ++ (words_6 ++ (words_7 ++ (words_8 ++ (words_10 ++ (words_11 ++ (words_12 ++ words_13))))))

-- A name of a secret.
abbrev pub is_secret : Bytes → Bool
is_secret key = any_word key words

-- Some proper suffix of the key is a name of a secret.
unfoldable pub secret_suffix : Bytes → Bool
secret_suffix [] = false
secret_suffix (c ∷ key) = is_secret key || secret_suffix key

unfoldable pub has_byte : ℕ → Bytes → Bool
has_byte d [] = false
has_byte d (c ∷ s) = c == d || has_byte d s

-- What is to be redacted: the name of a secret, or a dotted key that ends in one.
abbrev pub should_redact : Bytes → Bool
should_redact key = is_secret key || (has_byte b'.' key && secret_suffix key)
