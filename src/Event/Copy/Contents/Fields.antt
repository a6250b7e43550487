-- ===== src/Event/Copy/Contents/Fields.antt =====
-- The five texts of an event and its attributes, copied one behind the other.
use iojournal.Prelude.{
  All, Bytes, List, Option, arith, length, none, refl, some, subst, sym, take, ℕ, ◌+◌, ◌≡◌, ◌≤◌,
}
use iojournal.Types.{CString, Event, OwnedAttr, OwnedString, null_string}
use iojournal.Event.Scan.{Scanned}
use iojournal.Event.Copy.{
  Fill, Plan, Texts, attrs_arena_size, bytes_of, copy_attrs, copy_field, copy_optional_field,
  copy_texts, fill_bind, scanned_arena_size, text_arena_size,
}
use iojournal.Event.Copy.Arena.{Fills, Fills-bind, Fills-map, Fills-pure, Stable}
use iojournal.Event.Copy.Contents.{Fills-copy_owned, Holds, Holds-Stable}
use iojournal.Event.Copy.Contents.Texts.{
  AttrObject, AttrsHold, AttrsHold-Stable, Fills-copy_attrs, Fills-size,
}

-- A text that is measured no longer than it is.
abbrev pub Inside : CString → Scanned → Type 0
Inside value s = s.len ≤ length (bytes_of value)

abbrev pub FieldHolds : CString → Scanned → Bytes → OwnedString → Type 0
FieldHolds value s = Holds (take s.len (bytes_of value)) s.needs_json_escape

abbrev pub OptionalInside : CString → Option Scanned → Type 0
OptionalInside value none = Unit
OptionalInside value (some s) = Inside value s

abbrev pub OptionalHolds : CString → Option Scanned → Bytes → OwnedString → Type 0
OptionalHolds value none d o = o ≡ null_string
OptionalHolds value (some s) d o = FieldHolds value s d o

OptionalHolds-Stable :
    (value : CString) (s : Option Scanned) → Stable OwnedString (OptionalHolds value s)
OptionalHolds-Stable value none d x o h = h
OptionalHolds-Stable value (some s) d x o h = Holds-Stable _ _ d x o h

Fills-copy_field :
    (value : CString) (s : Scanned)
    → Inside value s
    → Fills OwnedString (copy_field value s) (s.len + 1) (FieldHolds value s)
Fills-copy_field value s h =
    unfold copy_field in
    Fills-copy_owned (bytes_of value) s.len s.len s.needs_json_escape h (omega arith)

Fills-copy_optional :
    (value : CString) (s : Option Scanned)
    → OptionalInside value s
    → Fills OwnedString (copy_optional_field value s) (scanned_arena_size s) (OptionalHolds value s)
Fills-copy_optional value none h =
    unfold copy_optional_field in Fills-pure OwnedString null_string _ (λ d. refl)
Fills-copy_optional value (some s) h = unfold copy_optional_field in Fills-copy_field value s h

-- Everything that is measured lies inside of the array that it was measured in.
pub record PlanInside (e : Event) (p : Plan) : Type 0 where
  pub name : Inside e.event_name p.event_name
  pub message : Inside e.message p.message
  pub logger : OptionalInside e.logger p.logger
  pub file : OptionalInside e.source_file p.source_file
  pub function : OptionalInside e.source_function p.source_function
  pub attrs : All AttrObject p.attrs

-- The copied texts, in the memory `d`.
pub record TextsHold (e : Event) (p : Plan) (d : Bytes) (t : Texts) : Type 0 where
  pub name : FieldHolds e.event_name p.event_name d t.event_name
  pub message : FieldHolds e.message p.message d t.message
  pub logger : OptionalHolds e.logger p.logger d t.logger_name
  pub file : OptionalHolds e.source_file p.source_file d t.source_file
  pub function : OptionalHolds e.source_function p.source_function d t.source_function
  pub attrs : AttrsHold p.attrs d t.attributes

module _ (e : Event) (p : Plan) where
  abbrev all_texts :
      OwnedString → OwnedString → OwnedString → OwnedString → OwnedString → List OwnedAttr → Texts
  all_texts name message logger file function attrs = record {
    event_name = name;
    message = message;
    logger_name = logger;
    source_file = file;
    source_function = function;
    attributes = attrs;
  }

  abbrev S : Type 0
  S = OwnedString

  -- what is left to be known when the first texts are copied
  abbrev AfterFunction : S → S → S → S → S → Bytes → Texts → Type 0
  AfterFunction name message logger file function d t =
      (attrs : List OwnedAttr) × AttrsHold p.attrs d attrs
      × (t ≡ all_texts name message logger file function attrs)

  abbrev AfterFile : S → S → S → S → Bytes → Texts → Type 0
  AfterFile name message logger file d t =
      (function : S) × OptionalHolds e.source_function p.source_function d function
      × AfterFunction name message logger file function d t

  abbrev AfterLogger : S → S → S → Bytes → Texts → Type 0
  AfterLogger name message logger d t =
      (file : S) × OptionalHolds e.source_file p.source_file d file
      × AfterFile name message logger file d t

  abbrev AfterMessage : S → S → Bytes → Texts → Type 0
  AfterMessage name message d t =
      (logger : S) × OptionalHolds e.logger p.logger d logger × AfterLogger name message logger d t

  abbrev AfterName : S → Bytes → Texts → Type 0
  AfterName name d t =
      (message : S) × FieldHolds e.message p.message d message × AfterMessage name message d t

  -- the bytes that the steps from there on write
  abbrev n_attrs : ℕ
  n_attrs = attrs_arena_size p.attrs + 0

  abbrev n_function : ℕ
  n_function = scanned_arena_size p.source_function + n_attrs

  abbrev n_file : ℕ
  n_file = scanned_arena_size p.source_file + n_function

  abbrev n_logger : ℕ
  n_logger = scanned_arena_size p.logger + n_file

  abbrev n_message : ℕ
  n_message = p.message.len + 1 + n_logger

  texts_of_steps :
      (d : Bytes) (t : Texts)
      → (name : S) × FieldHolds e.event_name p.event_name d name × AfterName name d t
      → TextsHold e p d t
  texts_of_steps d t
        (name, hn, (message, hm, (logger, hl, (file, hf, (function, hu, (attrs, ha, eq)))))) =
      subst (TextsHold e p d) (sym eq)
        (record { name = hn; message = hm; logger = hl; file = hf; function = hu; attrs = ha })

  module _ (h : PlanInside e p) where
    Fills-AfterFunction :
        (name message logger file function : S)
        → Fills Texts
            (fill_bind
              (copy_attrs p.attrs)
              (λ attrs st. some (all_texts name message logger file function attrs, st)))
            n_attrs
            (AfterFunction name message logger file function)
    Fills-AfterFunction name message logger file function =
        Fills-bind (List OwnedAttr) Texts (copy_attrs p.attrs) _ (attrs_arena_size p.attrs) 0
          (AttrsHold p.attrs) (λ attrs d t. t ≡ all_texts name message logger file function attrs)
          (AttrsHold-Stable p.attrs) (Fills-copy_attrs p.attrs h.attrs)
          λ attrs.
            Fills-pure Texts (all_texts name message logger file function attrs) _ (λ d. refl)

    -- a step of an optional field, in front of a continuation
    Fills-then_optional :
        (value : CString) (s : Option Scanned) (k : S → Fill Texts) (n : ℕ)
        (Q : S → Bytes → Texts → Type 0)
        → OptionalInside value s
        → ((o : S) → Fills Texts (k o) n (Q o))
        → Fills Texts
            (fill_bind (copy_optional_field value s) k)
            (scanned_arena_size s + n)
            (λ d t. (o : S) × OptionalHolds value s d o × Q o d t)
    Fills-then_optional value s k n Q inside f =
        Fills-bind S Texts (copy_optional_field value s) k (scanned_arena_size s) n
          (OptionalHolds value s) Q (OptionalHolds-Stable value s)
          (Fills-copy_optional value s inside) f

    Fills-then_field :
        (value : CString) (s : Scanned) (k : S → Fill Texts) (n : ℕ)
        (Q : S → Bytes → Texts → Type 0)
        → Inside value s
        → ((o : S) → Fills Texts (k o) n (Q o))
        → Fills Texts
            (fill_bind (copy_field value s) k)
            (s.len + 1 + n)
            (λ d t. (o : S) × FieldHolds value s d o × Q o d t)
    Fills-then_field value s k n Q inside f =
        Fills-bind S Texts (copy_field value s) k (s.len + 1) n (FieldHolds value s) Q
          (Holds-Stable _ _) (Fills-copy_field value s inside) f

    Fills-steps :
        Fills Texts
          (copy_texts e p)
          (p.event_name.len + 1 + n_message)
          (λ d t. (name : S) × FieldHolds e.event_name p.event_name d name × AfterName name d t)
    unfolding copy_texts
    Fills-steps = Fills-then_field e.event_name p.event_name _ n_message AfterName h.name λ name.
        Fills-then_field e.message p.message _ n_logger (AfterMessage name) h.message λ message.
          Fills-then_optional e.logger p.logger _ n_file (AfterLogger name message) h.logger
            λ logger.
              Fills-then_optional e.source_file p.source_file _ n_function
                (AfterFile name message logger) h.file
                λ file.
                  Fills-then_optional e.source_function p.source_function _ n_attrs
                    (AfterFunction name message logger file) h.function
                    λ function. Fills-AfterFunction name message logger file function

    -- The copies of the texts write exactly the bytes that the arena was measured for.
    pub Fills-copy_texts : Fills Texts (copy_texts e p) (text_arena_size p) (TextsHold e p)
    Fills-copy_texts =
        Fills-size Texts (copy_texts e p) (p.event_name.len + 1 + n_message) (text_arena_size p)
          (TextsHold e p) (unfold text_arena_size in omega arith)
          (Fills-map Texts (copy_texts e p) _ _ (TextsHold e p) texts_of_steps Fills-steps)
