-- ===== src/Event/Copy/Contents/Texts.antt =====
-- The copy of the whole event: every text is in the arena, and no write leaves it.
use iojournal.Prelude.{
  All, Bytes, List, [], arith, length, refl, subst, sym, take, ℕ, ◌+◌, ◌∷◌, ◌≡◌, ◌≤◌,
}
use iojournal.Types.{OwnedAttr, OwnedString, OwnedValue}
use iojournal.Event.Copy.{
  Fill, Measured, attrs_arena_size, bytes_of, copy_attr_value, copy_attrs,
  copy_owned_string_into_arena, value_arena_size,
}
use iojournal.Event.Copy.Arena.{Fills, Fills-bind, Fills-map, Fills-pure, Stable}
use iojournal.Event.Copy.Contents.{Fills-copy_owned, Holds, Holds-Stable}
use iojournal.Event.Copy.Contents.Whole.{
  Fills-copy_attr_value, ValueHolds, ValueHolds-Stable, ValueObject,
}

-- A measured attribute whose key is no longer than the array that holds it.
pub record AttrObject (m : Measured) : Type 0 where
  pub key_inside : m.key_len ≤ length (bytes_of m.attr.key)
  pub value_inside : ValueObject m.attr.value

-- `a` is the copy of the measured attribute.
pub record AttrHolds (m : Measured) (d : Bytes) (a : OwnedAttr) : Type 0 where
  pub key : Holds (take m.key_len (bytes_of m.attr.key)) m.key_needs_json_escape d a.key
  pub value : ValueHolds m m.attr.value d a.value

abbrev pub AttrsHold : List Measured → Bytes → List OwnedAttr → Type 0
AttrsHold [] d [] = Unit
AttrsHold [] d (a ∷ as') = ⊥
AttrsHold (m ∷ ms) d [] = ⊥
AttrsHold (m ∷ ms) d (a ∷ as') = AttrHolds m d a × AttrsHold ms d as'

pub AttrsHold-Stable : (ms : List Measured) → Stable (List OwnedAttr) (AttrsHold ms)
AttrsHold-Stable [] d x [] h = tt
AttrsHold-Stable [] d x (a ∷ as') h = absurd h
AttrsHold-Stable (m ∷ ms) d x [] h = absurd h
AttrsHold-Stable (m ∷ ms) d x (a ∷ as') (h, hs) = (
  record {
    key = Holds-Stable _ _ d x a.key h.key;
    value = ValueHolds-Stable m m.attr.value d x a.value h.value;
  },
  AttrsHold-Stable ms d x as' hs,
)

pub Fills-size :
    (A : Type 0) (m : Fill A) (n n' : ℕ) (P : Bytes → A → Type 0)
    → n ≡ n'
    → Fills A m n P
    → Fills A m n' P
Fills-size A m n n' P e f = subst (λ k. Fills A m k P) e f

Fills-cons :
    (m : Measured) (ms : List Measured)
    → AttrObject m
    → Fills (List OwnedAttr) (copy_attrs ms) (attrs_arena_size ms) (AttrsHold ms)
    → Fills (List OwnedAttr) (copy_attrs (m ∷ ms)) (attrs_arena_size (m ∷ ms)) (AttrsHold (m ∷ ms))
Fills-cons m ms h ih =
    Fills-size (List OwnedAttr) (copy_attrs (m ∷ ms))
      (m.key_len + 1 + (value_arena_size m.attr.value + (attrs_arena_size ms + 0)))
      (attrs_arena_size (m ∷ ms)) (AttrsHold (m ∷ ms)) (unfold attrs_arena_size in omega arith)
      (unfold copy_attrs in
        Fills-map (List OwnedAttr) _ _ _ (AttrsHold (m ∷ ms)) there (
          Fills-bind OwnedString (List OwnedAttr)
            (copy_owned_string_into_arena (bytes_of m.attr.key) m.key_len m.key_len
              m.key_needs_json_escape)
            _ (m.key_len + 1) (value_arena_size m.attr.value + (attrs_arena_size ms + 0)) KeyHolds
            (λ key d b. (v : OwnedValue) × ValueHolds m m.attr.value d v × Built key v d b)
            (Holds-Stable _ _)
            (Fills-copy_owned (bytes_of m.attr.key) m.key_len m.key_len m.key_needs_json_escape
              h.key_inside (omega arith))
            λ key.
              Fills-bind OwnedValue (List OwnedAttr) (copy_attr_value m m.attr.value) _
                (value_arena_size m.attr.value) (attrs_arena_size ms + 0)
                (ValueHolds m m.attr.value) (Built key) (ValueHolds-Stable m m.attr.value)
                (Fills-copy_attr_value m m.attr.value h.value_inside)
                λ v.
                  Fills-bind (List OwnedAttr) (List OwnedAttr) (copy_attrs ms) _
                    (attrs_arena_size ms) 0 (AttrsHold ms)
                    (λ rest d b. b ≡ (record { key = key; value = v }) ∷ rest) (AttrsHold-Stable ms)
                    ih
                    λ rest.
                      Fills-pure (List OwnedAttr) ((record { key = key; value = v }) ∷ rest) _
                        (λ d. refl)))
  where
    KeyHolds : Bytes → OwnedString → Type 0
    KeyHolds = Holds (take m.key_len (bytes_of m.attr.key)) m.key_needs_json_escape

    Built : OwnedString → OwnedValue → Bytes → List OwnedAttr → Type 0
    Built key v d b =
        (rest : List OwnedAttr) × AttrsHold ms d rest
        × (b ≡ (record { key = key; value = v }) ∷ rest)

    there :
        (d : Bytes) (b : List OwnedAttr)
        → (key : OwnedString) × KeyHolds d key
          × ((v : OwnedValue) × ValueHolds m m.attr.value d v × Built key v d b)
        → AttrsHold (m ∷ ms) d b
    there d b (key, kh, (v, vh, (rest, rh, e))) =
        subst (AttrsHold (m ∷ ms) d) (sym e) (record { key = kh; value = vh }, rh)

pub Fills-copy_attrs :
    (ms : List Measured)
    → All AttrObject ms
    → Fills (List OwnedAttr) (copy_attrs ms) (attrs_arena_size ms) (AttrsHold ms)
Fills-copy_attrs [] h =
    unfold copy_attrs attrs_arena_size in Fills-pure (List OwnedAttr) [] (AttrsHold []) (λ d. tt)
Fills-copy_attrs (m ∷ ms) h = Fills-cons m ms h.0 (Fills-copy_attrs ms h.1)
