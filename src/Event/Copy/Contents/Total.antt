-- ===== src/Event/Copy/Contents/Total.antt =====
-- The whole copy: what `ij_event_copy_from_input` returns of an event, and what its arena holds.
use iojournal.Prelude.{
  All, Bytes, List, Option, [], ap, append-nil, arith, drop, false, length, length-drop, ltb, map,
  none, not, refl, some, subst, sym, true, ℕ, ◌&&◌, ◌∙◌, ◌∷◌, ◌≡◌,
}
use iojournal.Types.{Attr, CString, Event, EventCopy, Result, done, fail, invalid_argument}
use iojournal.Simd.{Cpu}
use iojournal.Event.{attribute_list, event_passes}
use iojournal.Event.Copy.{
  Allocator, Plan, Texts, allocate_and_copy, bytes_of, copy_from_input, copy_texts, event_copy,
  measure_event, measured, text_arena_size,
}
use iojournal.Event.Copy.Arena.{Filled, filling}
use iojournal.Event.Copy.Verdict.{EventBytes, measure_event-validate, plan_of, scanned_optional}
use iojournal.Event.Copy.Measure.{measure_event-plan, measured_of}
use iojournal.Event.Copy.Contents.Fields.{Fills-copy_texts, OptionalInside, PlanInside, TextsHold}
use iojournal.Strings.{strlen-le}
use iojournal.Event.Copy.Contents.Whole.{ValueObject}
use iojournal.Event.Copy.Contents.Texts.{AttrObject}

-- What the copy of an event returns when all memory is given.
pub record CopiedTexts (e : Event) (p : Plan) (r : Option (Result EventCopy)) : Type 0 where
  pub texts : Texts
  pub arena : Bytes
  pub returned : r ≡ some (done (event_copy e texts arena))
  pub arena_size : length arena ≡ text_arena_size p
  pub holds : TextsHold e p arena texts

nil_of_length : (xs : Bytes) → length xs ≡ 0 → xs ≡ []
nil_of_length [] e = refl
nil_of_length (x ∷ xs) e = absurd (omega (arith, e))

allocate-Filled :
    (alloc : Allocator) (e : Event) (p : Plan) (mem : Bytes)
    → alloc.arena_of (text_arena_size p) ≡ some mem
    → length mem ≡ text_arena_size p
    → (ltb 0 e.attribute_count && not alloc.array_given) ≡ false
    → Filled Texts (copy_texts e p) (text_arena_size p) (TextsHold e p) [] mem
    → CopiedTexts e p (allocate_and_copy alloc e p)
allocate-Filled alloc e p mem given size array f =
    let full : drop (text_arena_size p) mem ≡ [] =
      nil_of_length _ (omega (arith, size, length-drop (text_arena_size p) mem)) in
    let runs : copy_texts e p (record { mem = mem; cursor = 0 })
        ≡ some (f.value, filling f.block []) =
      f.runs ∙ ap (λ t. some (f.value, filling f.block t)) full in
    let returned : allocate_and_copy alloc e p ≡ some (done (event_copy e f.value f.block)) =
      unfold allocate_and_copy in ground (arith, given, runs, append-nil f.block) in
    record {
      texts = f.value;
      arena = f.block;
      returned = returned;
      arena_size = f.size;
      holds = f.holds;
    }

pub allocate_and_copy-CopiedTextsTexts :
    (alloc : Allocator) (e : Event) (p : Plan) (mem : Bytes)
    → alloc.arena_of (text_arena_size p) ≡ some mem
    → length mem ≡ text_arena_size p
    → (ltb 0 e.attribute_count && not alloc.array_given) ≡ false
    → PlanInside e p
    → CopiedTexts e p (allocate_and_copy alloc e p)
allocate_and_copy-CopiedTextsTexts alloc e p mem given size array inside =
    allocate-Filled alloc e p mem given size array
      (Fills-copy_texts e p inside [] mem (omega (arith, size)))

-- What is measured of an event that is accepted.
abbrev pub full_plan : Cpu → ℕ → Event → Plan
full_plan cpu mode e = record (plan_of e) { attrs = map (measured_of cpu mode) (attribute_list e) }

Inside-optional : (value : CString) → OptionalInside value (scanned_optional value)
Inside-optional none = tt
Inside-optional (some s) = strlen-le s

measured_of-inside :
    (cpu : Cpu) (mode : ℕ) (as' : List Attr)
    → All (λ a. ValueObject a.value) as'
    → All AttrObject (map (measured_of cpu mode) as')
unfolding measured
measured_of-inside cpu mode [] h = tt
measured_of-inside cpu mode (a ∷ as') (h, hs) = (
  record { key_inside = strlen-le (bytes_of a.key); value_inside = h },
  measured_of-inside cpu mode as' hs,
)

full_plan-inside :
    (cpu : Cpu) (mode : ℕ) (e : Event)
    → All (λ a. ValueObject a.value) (attribute_list e)
    → PlanInside e (full_plan cpu mode e)
full_plan-inside cpu mode e h = record {
  name = strlen-le (bytes_of e.event_name);
  message = strlen-le (bytes_of e.message);
  logger = Inside-optional e.logger;
  file = Inside-optional e.source_file;
  function = Inside-optional e.source_function;
  attrs = measured_of-inside cpu mode (attribute_list e) h;
}

-- The copy of an accepted event, in terms of what was measured.
pub copy_from_input-CopiedTexts :
    (cpu : Cpu) (alloc : Allocator) (mode : ℕ) (e : Event) (mem : Bytes)
    → EventBytes e
    → All (λ a. ValueObject a.value) (attribute_list e)
    → event_passes cpu e ≡ true
    → alloc.arena_of (text_arena_size (full_plan cpu mode e)) ≡ some mem
    → length mem ≡ text_arena_size (full_plan cpu mode e)
    → (ltb 0 e.attribute_count && not alloc.array_given) ≡ false
    → CopiedTexts e (full_plan cpu mode e) (copy_from_input cpu alloc mode (some e))
copy_from_input-CopiedTexts cpu alloc mode e mem bytes objects passes given size array =
    let copied : copy_from_input cpu alloc mode (some e)
        ≡ allocate_and_copy alloc e (full_plan cpu mode e) =
      unfold copy_from_input in ground (arith, measure_event-plan cpu mode e bytes passes) in
    subst (CopiedTexts e (full_plan cpu mode e)) (sym copied) (
      allocate_and_copy-CopiedTextsTexts alloc e (full_plan cpu mode e) mem given size array
        (full_plan-inside cpu mode e objects))

-- An event whose texts are byte strings and which fails validation is refused with the status for
-- an invalid argument, whatever memory there is.
pub copy_from_input-rejected :
    (cpu : Cpu) (alloc : Allocator) (mode : ℕ) (e : Event)
    → EventBytes e
    → event_passes cpu e ≡ false
    → copy_from_input cpu alloc mode (some e) ≡ some (fail invalid_argument)
copy_from_input-rejected cpu alloc mode e bytes h = rejected (measure_event cpu mode e) refl
  where
    rejected :
        (r : Option Plan)
        → measure_event cpu mode e ≡ r
        → copy_from_input cpu alloc mode (some e) ≡ some (fail invalid_argument)
    rejected none eq = unfold copy_from_input in ground (arith, eq)
    rejected (some p) eq = absurd (ground (arith, eq, h, measure_event-validate cpu mode e bytes))
