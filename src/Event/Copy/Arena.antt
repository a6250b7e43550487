-- ===== src/Event/Copy/Arena.antt =====
-- The arena is filled from its front: a step writes a block of known size behind what stands there
-- and leaves that as it is. Steps with this property run one behind the other.
use iojournal.Prelude.{
  Bytes, [], ap, append-nil, append_assoc, ap₂, arith, drop, drop-append_le, drop-append_length,
  drop-append_self, drop-drop, leb, length, length-append, length-drop, refl, some, subst, take,
  take-append_le, take-append_self, true, ℕ, ◌++◌, ◌+◌, ◌∙◌, ◌≡◌, ◌≤◌,
}
use iojournal.Types.{slice}
use iojournal.Strings.{store}
use iojournal.Event.Copy.{Fill, Filling, fill_bind}

-- What stands in a block of memory is there whatever stands behind it.
pub slice-append :
    (d x : Bytes) (off n : ℕ) → off + n ≤ length d → slice (d ++ x) off n ≡ slice d off n
slice-append d x off n h =
    ap (take n) (drop-append_le off d x (omega arith))
    ∙ take-append_le n (drop off d) x (omega (arith, length-drop off d))

pub slice-append_right : (d s x : Bytes) → slice (d ++ (s ++ x)) (length d) (length s) ≡ s
slice-append_right d s x = rw drop-append_self (take-append_self s x)

-- A write at the end of what is there.
pub store-append :
    (d rest s : Bytes)
    → length s ≤ length rest
    → store (d ++ rest) (length d) s ≡ some (d ++ (s ++ drop (length s) rest))
unfolding store
store-append d rest s h =
    let fits : leb (length d + length s) (length (d ++ rest)) ≡ true =
      ground (arith, length-append d rest) in
    rw (fits, take-append_self, drop-append_length d rest (length s))

abbrev pub filling : Bytes → Bytes → Filling
filling d rest = record { mem = d ++ rest; cursor = length d }

-- What a run of `m` behind the bytes `d` gives: a value, and `n` bytes written.
pub record Filled (A : Type 0) (m : Fill A) (n : ℕ) (P : Bytes → A → Type 0) (d rest : Bytes)
    : Type 0 where
  pub value : A
  pub block : Bytes
  pub runs : m (filling d rest) ≡ some (value, filling (d ++ block) (drop n rest))
  pub size : length block ≡ n
  pub holds : P (d ++ block) value

-- `m` writes exactly `n` bytes behind what is there, wherever there is room for them, and the value
-- that it returns has the property `P` in the memory written so far.
abbrev pub Fills : (A : Type 0) → Fill A → ℕ → (Bytes → A → Type 0) → Type 0
Fills A m n P = (d rest : Bytes) → n ≤ length rest → Filled A m n P d rest

-- `P` is not lost by writes further on.
abbrev pub Stable : (A : Type 0) → (Bytes → A → Type 0) → Type 0
Stable A P = (d x : Bytes) (a : A) → P d a → P (d ++ x) a

pub Fills-pure :
    (A : Type 0) (a : A) (P : Bytes → A → Type 0)
    → ((d : Bytes) → P d a)
    → Fills A (λ st. some (a, st)) 0 P
Fills-pure A a P h d rest l = record {
  value = a;
  block = [];
  runs = rw append-nil refl;
  size = refl;
  holds = rw append-nil (h d);
}

pub fill_bind_lem :
    (A B : Type 0) (m : Fill A) (k : A → Fill B) (st : Filling) (a : A) (st' : Filling)
    → m st ≡ some (a, st')
    → fill_bind m k st ≡ k a st'
fill_bind_lem A B m k st a st' e = rw (e, fill_bind) refl

pub Fills-bind :
    (A B : Type 0) (m : Fill A) (k : A → Fill B) (n n' : ℕ) (P : Bytes → A → Type 0)
    (Q : A → Bytes → B → Type 0)
    → Stable A P
    → Fills A m n P
    → ((a : A) → Fills B (k a) n' (Q a))
    → Fills B (fill_bind m k) (n + n') (λ d b. (a : A) × P d a × Q a d b)
Fills-bind A B m k n n' P Q stable f g d rest l =
    let r = f d rest (omega arith) in
    let s = g r.value (d ++ r.block) (drop n rest) (omega (arith, length-drop n rest)) in
    record {
      value = s.value;
      block = r.block ++ s.block;
      runs =
          fill_bind_lem A B m k (filling d rest) r.value (filling (d ++ r.block) (drop n rest))
            r.runs
          ∙ s.runs
          ∙ ap₂ (λ t u. some (s.value, filling t u)) (append_assoc d r.block s.block)
              (drop-drop n n' rest);
      size = rw length-append (omega (arith, r.size, s.size));
      holds = (
        r.value,
        subst (λ t. P t r.value) (append_assoc d r.block s.block)
            (stable (d ++ r.block) s.block r.value r.holds),
        subst (λ t. Q r.value t s.value) (append_assoc d r.block s.block) s.holds,
      );
    }

-- A step with a weaker property.
pub Fills-map :
    (A : Type 0) (m : Fill A) (n : ℕ) (P Q : Bytes → A → Type 0)
    → ((d : Bytes) (a : A) → P d a → Q d a)
    → Fills A m n P
    → Fills A m n Q
Fills-map A m n P Q h f d rest l =
    let r = f d rest l in
    record {
      value = r.value;
      block = r.block;
      runs = r.runs;
      size = r.size;
      holds = h (d ++ r.block) r.value r.holds;
    }

-- Steps that agree at every state fill alike.
pub Fills-congr :
    (A : Type 0) (m m' : Fill A) (n : ℕ) (P : Bytes → A → Type 0)
    → ((st : Filling) → m st ≡ m' st)
    → Fills A m' n P
    → Fills A m n P
Fills-congr A m m' n P e f d rest l =
    let r = f d rest l in
    record {
      value = r.value;
      block = r.block;
      runs = e (filling d rest) ∙ r.runs;
      size = r.size;
      holds = r.holds;
    }
