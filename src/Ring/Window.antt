-- ===== src/Ring/Window.antt =====
-- Positions in a ring: the slots that a run of positions goes through, round the array.
use native.Mathlib.Nat.{
  mod-add-mod, mod-eq_of_lt, mod-eq-sub-mod, mod-lt, mod-mod_of_dvd, dvd-mul_right, pow-suc,
  mul_assoc, mul-one,
}
use Prim.Native.Nat.{◌∣◌}
use iojournal.Prelude.{
  Bool-cases, List, [], ap, ap₂, arith, get_or, get_or-set_ne, inl, inr, length, ltb, ltb→lt, refl,
  set, subst, suc, sym, zero, ℕ, ◌%◌, ◌*◌, ◌++◌, ◌+◌, ◌-◌, ◌<◌, ◌^◌, ◌∙◌, ◌∷◌, ◌≡◌, ◌≢◌, ◌≤◌,
}

pow-add : (a b : ℕ) → 2 ^ (a + b) ≡ 2 ^ a * 2 ^ b
pow-add a zero = ap (λ m. 2 ^ m) (omega arith) ∙ sym (mul-one (2 ^ a))
pow-add a (suc b) =
    ap (λ m. 2 ^ m) (omega arith)
    ∙ pow-suc 2 (a + b)
    ∙ ap (λ m. m * 2) (pow-add a b)
    ∙ mul_assoc (2 ^ a) (2 ^ b) 2
    ∙ ap (λ m. 2 ^ a * m) (sym (pow-suc 2 b))

-- A counter of 64 bits wraps without a jump in the positions of a ring whose size is a power of two.
pub wrap-mod : (n k : ℕ) → k ≤ 64 → n % 2 ^ 64 % 2 ^ k ≡ n % 2 ^ k
wrap-mod n k h = mod-mod_of_dvd (2 ^ k) n (
    subst (λ m. 2 ^ k ∣ m) (sym (pow-add k (64 - k)) ∙ ap (λ m. 2 ^ m) {y = 64} (omega arith))
      (dvd-mul_right (2 ^ k) (2 ^ (64 - k))))

-- Fewer than `cap` steps from a position lead to another one.
pub add-mod-ne : (cap a d : ℕ) → 0 < d → d < cap → (a + d) % cap ≢ a % cap
add-mod-ne cap a d pos_d small e =
    let r : ℕ = a % cap in
    let low : r < cap = mod-lt a (omega arith) in
    let from_r : (r + d) % cap ≡ r = mod-add-mod a cap d ∙ e in
    elim (Bool-cases (ltb (r + d) cap)) [
      | inl short ↦ omega (arith, mod-eq_of_lt (ltb→lt (r + d) cap short))
      | inr long ↦
          let long_le : cap ≤ r + d = ground (arith, long) in
          omega (
            arith,
            mod-eq-sub-mod {n = r + d} {m = cap} long_le,
            mod-eq_of_lt {n = r + d - cap} {m = cap} (omega arith),
          )
    ]

-- Of two positions less than `cap` apart, the first and the second.
pub positions-ne : (cap h j m : ℕ) → j < m → m < cap → (h + m) % cap ≢ (h + j) % cap
positions-ne cap h j m before near =
    subst (λ n. n % cap ≢ (h + j) % cap) (omega arith)
      (add-mod-ne cap (h + j) (m - j) (omega arith) (omega arith))

module _ {A : Type 0} (cleared : A) (cap : ℕ) where
  -- the `n` elements from position `h` on
  abbrev pub window : List A → ℕ → ℕ → List A
  window xs h zero = []
  window xs h (suc n) = get_or xs (h % cap) cleared ∷ window xs (h + 1) n

  pub length-window : (xs : List A) (h n : ℕ) → length (window xs h n) ≡ n
  length-window xs h zero = refl
  length-window xs h (suc n) = ap suc (length-window xs (h + 1) n)

  pub window-congr :
      (xs : List A) (h h' n : ℕ) → h % cap ≡ h' % cap → window xs h n ≡ window xs h' n
  window-congr xs h h' zero e = refl
  window-congr xs h h' (suc n) e = ap₂ ◌∷◌ (ap (λ i. get_or xs i cleared) e) (
      window-congr xs (h + 1) (h' + 1) n
        (sym (mod-add-mod h cap 1) ∙ ap (λ m. (m + 1) % cap) e ∙ mod-add-mod h' cap 1))

  -- A write to a position that the run does not go through.
  pub window-set_out :
      (xs : List A) (x : A) (i h n : ℕ)
      → ((j : ℕ) → j < n → i ≢ (h + j) % cap)
      → window (set xs i x) h n ≡ window xs h n
  window-set_out xs x i h zero out = refl
  window-set_out xs x i h (suc n) out =
      ap₂ ◌∷◌ (get_or-set_ne xs i (h % cap) x cleared first) (window-set_out xs x i (h + 1) n later)
    where
      first : i ≢ h % cap
      first = subst (λ m. i ≢ m % cap) (omega arith) (out 0 (omega arith))

      later : (j : ℕ) → j < n → i ≢ (h + 1 + j) % cap
      later j l = subst (λ m. i ≢ m % cap) (omega arith) (out (j + 1) (omega arith))

  pub window-snoc :
      (xs : List A) (h n : ℕ)
      → window xs h (suc n) ≡ window xs h n ++ get_or xs ((h + n) % cap) cleared ∷ []
  window-snoc xs h zero = ap (λ m. get_or xs (m % cap) cleared ∷ []) (omega arith)
  window-snoc xs h (suc n) = ap (◌∷◌ (get_or xs (h % cap) cleared)) (
      window-snoc xs (h + 1) n
      ∙ ap (λ m. window xs (h + 1) n ++ get_or xs (m % cap) cleared ∷ []) (omega arith))
