-- ===== src/Event/Copy/Contents.antt =====
-- What the copied strings hold.
pub mod Whole
pub mod Texts
pub mod Fields
pub mod Total
pub mod Fidelity
use iojournal.Prelude.{
  Bool, Bytes, [], ap, append_assoc, arith, drop, drop-append_le, drop-drop, length, length-append,
  length-drop, length-take, refl, some, subst, sym, take, take-append-drop, ℕ, ◌++◌, ◌+◌, ◌-◌, ◌∙◌,
  ◌∷◌, ◌≡◌, ◌≤◌,
}
use iojournal.Types.{OwnedString, slice, text_of}
use iojournal.Strings.{store}
use iojournal.Event.Copy.{copy_owned_string_into_arena, fill_bind, redact_string, redacted_literal}
use iojournal.Event.Copy.Arena.{
  Fills, Stable, fill_bind_lem, filling, slice-append, slice-append_right, store-append,
}

-- The string `s` lies inside of the memory `d`, reads `t` there, and carries the flag.
pub record Holds (t : Bytes) (flag : Bool) (d : Bytes) (s : OwnedString) : Type 0 where
  pub off : ℕ
  pub data_is : s.data_at ≡ some off
  pub inside : off + s.len ≤ length d
  pub reads : slice d off s.len ≡ t
  pub flagged : s.needs_json_escape ≡ flag

pub Holds-Stable : (t : Bytes) (flag : Bool) → Stable OwnedString (Holds t flag)
Holds-Stable t flag d x s h = record {
  off = h.off;
  data_is = h.data_is;
  inside = omega (arith, length-append d x, h.inside);
  reads = slice-append d x h.off s.len h.inside ∙ h.reads;
  flagged = h.flagged;
}

pub text_of-Holds :
    (t : Bytes) (flag : Bool) (d : Bytes) (s : OwnedString) → Holds t flag d s → text_of d s ≡ t
text_of-Holds t flag d s h = rw h.data_is h.reads

abbrev owned_at : ℕ → ℕ → Bool → OwnedString
owned_at off len flag = record { data_at = some off; len = len; needs_json_escape = flag }

-- A string at the place where the block begins.
Holds-block :
    (d t x : Bytes) (flag : Bool)
    → Holds t flag (d ++ (t ++ x)) (owned_at (length d) (length t) flag)
Holds-block d t x flag = record {
  off = length d;
  data_is = refl;
  inside = omega (arith, length-append d (t ++ x), length-append t x);
  reads = slice-append_right d t x;
  flagged = refl;
}

-- what the copy leaves of the old bytes behind the terminator of `t`, up to the end of the block
abbrev padding : ℕ → ℕ → Bytes → Bytes
padding len capacity rest = take (capacity - len) (drop (len + 1) rest)

abbrev block_of : Bytes → ℕ → Bytes → Bytes
block_of t capacity rest = t ++ (0 ∷ padding (length t) capacity rest)

module _ (d rest t : Bytes) (capacity : ℕ) (fits : length t ≤ capacity)
    (room : capacity + 1 ≤ length rest) where
  length-padding : length (padding (length t) capacity rest) ≡ capacity - length t
  length-padding =
      length-take (capacity - length t) (drop (length t + 1) rest)
        (omega (arith, length-drop (length t + 1) rest))

  length-block_of : length (block_of t capacity rest) ≡ capacity + 1
  length-block_of =
      omega (arith, length-append t (0 ∷ padding (length t) capacity rest), length-padding)

  store_text : store (d ++ rest) (length d) t ≡ some ((d ++ t) ++ drop (length t) rest)
  store_text =
      store-append d rest t (omega arith) ∙ ap some (sym (append_assoc d t (drop (length t) rest)))

  rest_split :
      drop 1 (drop (length t) rest) ≡ padding (length t) capacity rest ++ drop (capacity + 1) rest
  rest_split =
      drop-drop (length t) 1 rest
      ∙ sym (take-append-drop (capacity - length t) (drop (length t + 1) rest))
      ∙ ap (λ u. padding (length t) capacity rest ++ u)
          (drop-drop (length t + 1) (capacity - length t) rest ∙ ap (λ n. drop n rest) sum_is)
    where
      sum_is : length t + 1 + (capacity - length t) ≡ capacity + 1
      sum_is = omega arith

  store_terminator :
      store ((d ++ t) ++ drop (length t) rest) (length d + length t) (0 ∷ [])
      ≡ some ((d ++ block_of t capacity rest) ++ drop (capacity + 1) rest)
  store_terminator =
      ap (λ n. store ((d ++ t) ++ drop (length t) rest) n (0 ∷ [])) (sym (length-append d t))
      ∙ store-append (d ++ t) (drop (length t) rest) (0 ∷ [])
          (omega (arith, length-drop (length t) rest))
      ∙ ap some (ap (λ u. (d ++ t) ++ (0 ∷ u)) rest_split ∙ simp append_assoc)

  copy_owned_lem :
      (value : Bytes) (flag : Bool)
      → take (length t) value ≡ t
      → copy_owned_string_into_arena value (length t) capacity flag (filling d rest)
        ≡ some (
          owned_at (length d) (length t) flag,
          filling (d ++ block_of t capacity rest) (drop (capacity + 1) rest),
        )
  copy_owned_lem value flag same_text =
      let text_write : store (d ++ rest) (length d) (take (length t) value)
          ≡ some ((d ++ t) ++ drop (length t) rest) =
        rw same_text store_text in
      let next : length d + (capacity + 1) ≡ length (d ++ block_of t capacity rest) =
        omega (arith, length-append d (block_of t capacity rest), length-block_of) in
      unfold copy_owned_string_into_arena in ground (arith, text_write, store_terminator, next)

-- The first `len` bytes of `value`, in a block of `capacity + 1` bytes.
pub Fills-copy_owned :
    (value : Bytes) (len capacity : ℕ) (flag : Bool)
    → len ≤ length value
    → len ≤ capacity
    → Fills OwnedString
        (copy_owned_string_into_arena value len capacity flag)
        (capacity + 1)
        (Holds (take len value) flag)
Fills-copy_owned value len capacity flag l fits d rest room =
    let t = take len value in
    let size : length t ≡ len = length-take len value l in
    let fits' : length t ≤ capacity = omega (arith, size) in
    record {
      value = owned_at (length d) (length t) flag;
      block = block_of t capacity rest;
      runs =
          subst
            (λ n.
              copy_owned_string_into_arena value n capacity flag (filling d rest)
              ≡ some (
                owned_at (length d) (length t) flag,
                filling (d ++ block_of t capacity rest) (drop (capacity + 1) rest),
              ))
            size
            (copy_owned_lem d rest t capacity fits' room value flag (ap (λ n. take n value) size));
      size = length-block_of d rest t capacity fits' room;
      holds = Holds-block d t (0 ∷ padding (length t) capacity rest) flag;
    }

abbrev literal_bytes : Bytes
literal_bytes = redacted_literal ++ 0 ∷ []

redact_string_lem :
    (d block rest : Bytes) (len : ℕ) (flag : Bool)
    → 11 ≤ length block
    → redact_string (owned_at (length d) len flag) (filling (d ++ block) rest)
      ≡ some (owned_at (length d) 10 flag, filling (d ++ (literal_bytes ++ drop 11 block)) rest)
redact_string_lem d block rest len flag long =
    let write : store ((d ++ block) ++ rest) (length d) literal_bytes
        ≡ some ((d ++ (literal_bytes ++ drop 11 block)) ++ rest) =
      ap (λ u. store u (length d) literal_bytes) (append_assoc d block rest)
      ∙ store-append d (block ++ rest) literal_bytes (omega (arith, length-append block rest))
      ∙ ap (λ u. some (d ++ (literal_bytes ++ u))) (drop-append_le 11 block rest long)
      ∙ simp append_assoc in
    let cursor : length (d ++ block) ≡ length (d ++ (literal_bytes ++ drop 11 block)) = omega (
      arith,
      length-append d block,
      length-append d (literal_bytes ++ drop 11 block),
      length-drop 11 block,
    ) in
    unfold redact_string in ground (arith, write, cursor)

-- A string value that is redacted: the block of the copy holds the literal.
pub Fills-redacted :
    (value : Bytes) (len capacity : ℕ) (flag : Bool)
    → len ≤ length value
    → len ≤ capacity
    → 10 ≤ capacity
    → Fills OwnedString
        (fill_bind (copy_owned_string_into_arena value len capacity flag) redact_string)
        (capacity + 1)
        (Holds redacted_literal flag)
Fills-redacted value len capacity flag l fits long d rest room =
    let t = take len value in
    let size : length t ≡ len = length-take len value l in
    let fits' : length t ≤ capacity = omega (arith, size) in
    let block = block_of t capacity rest in
    let block_size = length-block_of d rest t capacity fits' room in
    let copied : copy_owned_string_into_arena value len capacity flag (filling d rest)
        ≡ some
            (owned_at (length d) (length t) flag, filling (d ++ block) (drop (capacity + 1) rest)) =
      subst
        (λ n.
          copy_owned_string_into_arena value n capacity flag (filling d rest)
          ≡ some (
            owned_at (length d) (length t) flag,
            filling (d ++ block) (drop (capacity + 1) rest),
          ))
        size
        (copy_owned_lem d rest t capacity fits' room value flag (ap (λ n. take n value) size)) in
    record {
      value = owned_at (length d) 10 flag;
      block = literal_bytes ++ drop 11 block;
      runs =
          fill_bind_lem OwnedString OwnedString
            (copy_owned_string_into_arena value len capacity flag) redact_string (filling d rest)
            (owned_at (length d) (length t) flag) (filling (d ++ block) (drop (capacity + 1) rest))
            copied
          ∙ redact_string_lem d block (drop (capacity + 1) rest) (length t) flag
              (omega (arith, block_size));
      size = omega (arith, block_size, length-drop 11 block);
      holds = Holds-block d redacted_literal (0 ∷ drop 11 block) flag;
    }
