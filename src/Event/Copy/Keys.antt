-- ===== src/Event/Copy/Keys.antt =====
-- The keys of the attributes: what the copy compares is what `ij_duplicate_attr_keys` compares.
use iojournal.Prelude.{
  ==_iff, All, Bool, Bool-cases, Bytes, List, [], ap, arith, false, inl, inr, length, length-take,
  refl, some, suc, sym, take, true, ◌++◌, ◌==◌, ◌||◌, ◌∙◌, ◌∷◌, ◌≡◌,
}
use iojournal.Types.{Attr, CString}
use iojournal.Strings.{cstr, memcmp_equal, strcmp-memcmp, strcmp_equal, strlen, strlen-le}
use iojournal.Event.{key_equal, key_occurs}
use iojournal.Event.Copy.{Measured, attr_keys_equal, key_seen}

memcmp_comm : (s t : Bytes) → memcmp_equal s t ≡ memcmp_equal t s
unfolding memcmp_equal
memcmp_comm [] [] = refl
memcmp_comm [] (d ∷ t) = refl
memcmp_comm (c ∷ s) [] = refl
memcmp_comm (c ∷ s) (d ∷ t) = ground (arith, memcmp_comm s t)

length-memcmp : (s t : Bytes) → memcmp_equal s t ≡ true → length s ≡ length t
unfolding memcmp_equal
length-memcmp [] [] h = refl
length-memcmp [] (d ∷ t) h = cc
length-memcmp (c ∷ s) [] h = cc
length-memcmp (c ∷ s) (d ∷ t) h = ap suc (length-memcmp s t (ground arith))

-- Two measured keys are compared as `strcmp` would compare them.
pub attr_keys_equal-strcmp :
    (s t : Bytes) → attr_keys_equal (some s) (strlen s) (some t) (strlen t) ≡ strcmp_equal t s
unfolding attr_keys_equal
attr_keys_equal-strcmp s t = elim (Bool-cases (strlen s == strlen t)) [
  | inl e ↦
      let len : strlen s ≡ strlen t = (==_iff (strlen s) (strlen t)).0 e in
      rw e (
        ap (λ n. memcmp_equal (cstr s) (take n t)) len
        ∙ memcmp_comm (cstr s) (cstr t)
        ∙ sym (strcmp-memcmp t s))
  | inr ne ↦ ground (
    arith,
    strcmp-memcmp t s,
    length-memcmp (cstr t) (cstr s),
    length-take (strlen s) s (strlen-le s),
    length-take (strlen t) t (strlen-le t),
  )
]

-- What the pass knows of an attribute that it has seen.
abbrev pub SeenOk : Measured → Type 0
SeenOk m = (s : Bytes) × (m.attr.key ≡ some s) × (m.key_len ≡ strlen s)

-- The key occurs among those seen.
pub occurs_before : CString → List Measured → Bool
occurs_before key [] = false
occurs_before key (m ∷ ms) = key_equal m.attr.key key || occurs_before key ms

pub key_seen-occurs :
    (s : Bytes) (ms : List Measured)
    → All SeenOk ms
    → key_seen (some s) (strlen s) ms ≡ occurs_before (some s) ms
unfolding key_seen occurs_before
key_seen-occurs s [] h = refl
key_seen-occurs s (m ∷ ms) ((t, k, l), h) =
    rw (k, l, attr_keys_equal-strcmp s t, key_seen-occurs s ms h) refl

-- Some of the keys to come is one of those seen.
unfoldable pub crosses : List Measured → List Attr → Bool
crosses ms [] = false
crosses ms (a ∷ as') = occurs_before a.key ms || crosses ms as'

pub occurs_before-concat :
    (key : CString) (ms : List Measured) (m : Measured)
    → occurs_before key (ms ++ m ∷ []) ≡ occurs_before key ms || key_equal m.attr.key key
unfolding occurs_before
occurs_before-concat key [] m = ground arith
occurs_before-concat key (x ∷ ms) m = ground (arith, occurs_before-concat key ms m)

pub crosses-concat :
    (ms : List Measured) (m : Measured) (as' : List Attr)
    → crosses (ms ++ m ∷ []) as' ≡ crosses ms as' || key_occurs m.attr.key as'
unfolding crosses key_occurs
crosses-concat ms m [] = refl
crosses-concat ms m (a ∷ as') =
    ground (arith, occurs_before-concat a.key ms m, crosses-concat ms m as')

pub crosses-nil : (as' : List Attr) → crosses [] as' ≡ false
unfolding crosses occurs_before
crosses-nil [] = refl
crosses-nil (a ∷ as') = crosses-nil as'
