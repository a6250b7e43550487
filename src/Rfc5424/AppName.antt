-- ===== src/Rfc5424/AppName.antt =====
-- The application name of a record, which the format wants to be 1 to 48 visible bytes.
use iojournal.Prelude.{
  All, Bool-cases, Bytes, Option, [], ap, arith, drop, false, inl, inr, length, length-take, map,
  min, none, refl, some, suc, sym, take, take-nil, true, zero, ℕ, ◌+◌, ◌<◌, ◌==◌, ◌∙◌, ◌∷◌, ◌≡◌,
  ◌≤◌,
}
use iojournal.Config.{LoggerConfig, first_byte, is_missing}
use iojournal.Types.{CString, EventCopy, OwnedString}
use iojournal.Strings.{cstr, strlen, strlen-le}
use iojournal.Rfc5424.{
  app_name_max, c_string, c_text, sanitize_app_name, sanitize_byte, syslog_app_name,
}
use iojournal.Rfc5424.Read.{Lacks}

-- a byte that the format allows in a name
abbrev pub IsGraphic : ℕ → Type 0
IsGraphic c = (33 ≤ c) × (c ≤ 126)

abbrev pub IsAppName : Bytes → Type 0
IsAppName s = (1 ≤ length s) × (length s ≤ 48) × All IsGraphic s

-- The second text is the first with every byte that the format does not allow replaced by '_'.
abbrev pub AreSanitized : Bytes → Bytes → Type 0
AreSanitized [] [] = Unit
AreSanitized [] (d ∷ t) = ⊥
AreSanitized (c ∷ s) [] = ⊥
AreSanitized (c ∷ s) (d ∷ t) =
    (IsGraphic c → d ≡ c) × (¬ (IsGraphic c) → d ≡ b'_') × AreSanitized s t

-- The name to use: that of the event, that of the logger if it is empty, and "-" if both are.
abbrev pub IsChosen : Bytes → Bytes → Bytes → Type 0
IsChosen own given raw =
    (0 < length own → raw ≡ own)
    × (length own ≡ 0 → 0 < length given → raw ≡ given)
    × (length own ≡ 0 → length given ≡ 0 → raw ≡ b'-' ∷ [])

sanitize_byte-IsGraphic : (c : ℕ) → IsGraphic (sanitize_byte c)
unfolding sanitize_byte
sanitize_byte-IsGraphic c = ground arith

map-sanitize_byte :
    (s : Bytes) → (length (map sanitize_byte s) ≡ length s) × All IsGraphic (map sanitize_byte s)
map-sanitize_byte [] = (refl, tt)
map-sanitize_byte (c ∷ s) =
    let (same_length, graphic) = map-sanitize_byte s in
    (ap suc same_length, (sanitize_byte-IsGraphic c, graphic))

map-AreSanitized : (s : Bytes) → AreSanitized s (map sanitize_byte s)
map-AreSanitized [] = tt
map-AreSanitized (c ∷ s) = (
  λ h. unfold sanitize_byte in ground arith,
  λ h. unfold sanitize_byte in ground arith,
  map-AreSanitized s,
)

-- a string that is not empty has a byte in front of its terminator
strlen-first_byte : (s : Bytes) → first_byte s == 0 ≡ false → 1 ≤ strlen s
unfolding strlen
strlen-first_byte [] h = absurd (ground arith)
strlen-first_byte (c ∷ s) h = ground arith

strlen-cstr : (s : Bytes) → strlen (take (strlen s) s) ≡ strlen s
unfolding strlen
strlen-cstr [] = refl
strlen-cstr (c ∷ s) = elim (Bool-cases (c == 0)) [
  | inl h ↦ rw h refl
  | inr h ↦ rw (h, h) (ap suc (strlen-cstr s))
]

c_string-filled : (name : CString) → is_missing name ≡ false → 1 ≤ strlen (c_string name)
c_string-filled none h = absurd (ground arith)
c_string-filled (some s) h = rw (strlen-cstr s) (strlen-first_byte s h)

c_string-empty : (name : CString) → is_missing name ≡ true → length (c_string name) ≡ 0
c_string-empty none h = refl
c_string-empty (some []) h = unfold strlen in refl
c_string-empty (some (c ∷ s)) h = unfold strlen in ground arith

-- A C string has no terminator in it.
abbrev pub Whole : Bytes → Type 0
Whole s = strlen s ≡ length s

Whole-cstr : (s : Bytes) → Whole (cstr s)
Whole-cstr s = strlen-cstr s ∙ sym (length-take (strlen s) s (strlen-le s))

pub Whole-c_text : (arena : Bytes) (s : OwnedString) → Whole (c_text arena s)
Whole-c_text arena s = of s.data_at
  where
    of : (at : Option ℕ) → Whole (elim at [ none ↦ [] | some off ↦ cstr (drop off arena) ])
    of none = unfold strlen in refl
    of (some off) = Whole-cstr (drop off arena)

Whole-c_string : (name : CString) → Whole (c_string name)
Whole-c_string none = unfold strlen in refl
Whole-c_string (some s) = Whole-cstr s

pub Whole-empty : (s : Bytes) → Whole s → first_byte s == 0 ≡ true → s ≡ []
unfolding strlen
Whole-empty [] w h = refl
Whole-empty (c ∷ s) w h = absurd (ground (arith, h, w))

pub syslog_app_name-IsChosen :
    (event : EventCopy) (config : LoggerConfig)
    → IsChosen
        (c_text event.text_arena event.logger_name)
        (c_string config.logger_name)
        (syslog_app_name event config)
unfolding syslog_app_name
syslog_app_name-IsChosen event config =
    let own = c_text event.text_arena event.logger_name in
    elim (Bool-cases (first_byte own == 0)) [
      | inr h ↦
          let filled : 1 ≤ length own =
            omega
              (arith, strlen-first_byte own h, Whole-c_text event.text_arena event.logger_name) in
          rw h (
            (λ _. refl),
            (λ e. absurd (omega (arith, e, filled))),
            λ e. absurd (omega (arith, e, filled)),
          )
      | inl h ↦
          let empty : length own ≡ 0 =
            ap length (Whole-empty own (Whole-c_text event.text_arena event.logger_name) h) in
          elim (Bool-cases (is_missing config.logger_name)) [
            | inl missing ↦
                let nothing = c_string-empty config.logger_name missing in
                rw (h, missing)
                  (
                    (λ e. absurd (omega (arith, e, empty))),
                    (λ _ e. absurd (omega (arith, e, nothing))),
                    λ _ _. refl,
                  )
            | inr given ↦
                let filled : 1 ≤ length (c_string config.logger_name) = omega (
                  arith,
                  c_string-filled config.logger_name given,
                  Whole-c_string config.logger_name,
                ) in
                rw (h, given)
                  (
                    (λ e. absurd (omega (arith, e, empty))),
                    (λ _ _. refl),
                    λ _ e. absurd (omega (arith, e, filled)),
                  )
          ]
    ]

syslog_app_name-Whole :
    (event : EventCopy) (config : LoggerConfig) → Whole (syslog_app_name event config)
unfolding syslog_app_name
syslog_app_name-Whole event config =
    elim (Bool-cases (first_byte (c_text event.text_arena event.logger_name) == 0)) [
      | inr h ↦ rw h (Whole-c_text event.text_arena event.logger_name)
      | inl h ↦ elim (Bool-cases (is_missing config.logger_name)) [
        | inl missing ↦ rw (h, missing) (unfold strlen in refl)
        | inr given ↦ rw (h, given) (Whole-c_string config.logger_name)
      ]
    ]

take-min : (n : ℕ) (s : Bytes) → take (min n (length s)) s ≡ take n s
take-min zero s = let e : min 0 (length s) ≡ 0 = ground arith in rw e refl
take-min (suc n) [] = take-nil (min (suc n) 0)
take-min (suc n) (c ∷ s) =
    let e : min (suc n) (suc (length s)) ≡ suc (min n (length s)) = ground arith in
    rw e (ap (λ t. c ∷ t) (take-min n s))

-- The name in a record is made of the chosen name, byte by byte, up to 48.
pub sanitize_app_name-AreSanitized :
    (event : EventCopy) (config : LoggerConfig)
    → AreSanitized (take 48 (syslog_app_name event config)) (
        map sanitize_byte (
          take
            (min app_name_max (strlen (syslog_app_name event config)))
            (syslog_app_name event config)))
sanitize_app_name-AreSanitized event config =
    let raw = syslog_app_name event config in
    rw (syslog_app_name-Whole event config, take-min 48 raw) (map-AreSanitized (take 48 raw))

pub syslog_app_name-filled :
    (event : EventCopy) (config : LoggerConfig) → 1 ≤ strlen (syslog_app_name event config)
unfolding syslog_app_name
syslog_app_name-filled event config =
    let own = c_text event.text_arena event.logger_name in
    elim (Bool-cases (first_byte own == 0)) [
      | inr h ↦ rw h (strlen-first_byte own h)
      | inl h ↦ elim (Bool-cases (is_missing config.logger_name)) [
        | inl missing ↦ rw (h, missing) (unfold strlen in omega arith)
        | inr given ↦ rw (h, given) (c_string-filled config.logger_name given)
      ]
    ]

-- What is taken of the name, and that it is a name of the format.
pub sanitize_app_name-IsAppName :
    (raw : Bytes)
    → 1 ≤ strlen raw
    → (sanitize_app_name raw (app_name_max + 1)
        ≡ map sanitize_byte (take (min app_name_max (strlen raw)) raw))
      × IsAppName (sanitize_app_name raw (app_name_max + 1))
unfolding sanitize_app_name
sanitize_app_name-IsAppName raw h =
    let kept : ℕ = min app_name_max (strlen raw) in
    let same_count : sanitize_app_name raw (app_name_max + 1) ≡ map sanitize_byte (take kept raw) =
      ap (λ n. map sanitize_byte (take n raw)) (ground arith) in
    let (same_length, graphic) = map-sanitize_byte (take kept raw) in
    let taken_length : length (take kept raw) ≡ kept =
      length-take kept raw (omega (arith, strlen-le raw)) in
    (
      same_count,
      rw same_count (
        omega (arith, same_length, taken_length),
        omega (arith, same_length, taken_length),
        graphic,
      ),
    )

pub IsAppName-Lacks : (s : Bytes) → All IsGraphic s → Lacks b' ' s
IsAppName-Lacks [] h = tt
IsAppName-Lacks (c ∷ s) (h, hs) = (omega arith, IsAppName-Lacks s hs)
