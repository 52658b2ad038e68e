-- ===== src/Tnode/Tree/Digits.antt =====
-- The digits of a chunk number, three bits each, that lead through the tree, and the height it needs.
use native.Mathlib.Nat.{
  div-div-eq-div-mul, div-eq_of_lt, div-lt_iff_lt-mul, pow-suc, pow-succ', two-pow-succ,
}
use whisper_yaffs.Prelude.{
  ℕ, zero, suc, ◌+◌, ◌*◌, ◌/◌, ◌%◌, ◌^◌, ◌≤◌, ◌<◌, ◌≡◌, refl, sym, ap, ◌∙◌, Bool, true, ◌&&◌, arith,
  ◌==◌, Bool-cases, inl, inr, ◌>>>◌,
}
use whisper_yaffs.Bits.{and_mask}
use whisper_yaffs.Tnode.Tree.{slot, tallness_loop}

pub power_suc : (l : ℕ) → 8 ^ suc l ≡ 8 * 8 ^ l
power_suc l = pow-succ' 8 l

three_more : (k : ℕ) → 2 ^ suc (suc (suc k)) ≡ 8 * 2 ^ k
three_more k = omega (arith, two-pow-succ (suc (suc k)), two-pow-succ (suc k), two-pow-succ k)

-- The weight of a digit.
weight : (l : ℕ) → 2 ^ (4 + l * 3) ≡ 16 * 8 ^ l
weight zero = refl
weight (suc l) =
    let same : 4 + suc l * 3 ≡ suc (suc (suc (4 + l * 3))) = omega arith in
    ap (λ e. 2 ^ e) same ∙ omega (arith, three_more (4 + l * 3), weight l, power_suc l)

pub slot_lem : (l c : ℕ) → slot l c ≡ c / 16 / 8 ^ l % 8
unfolding slot
slot_lem l c =
    and_mask 3 (c >>> (4 + l * 3))
    ∙ ap (λ w. c / w % 8) (weight l)
    ∙ ap (λ q. q % 8) (sym (div-div-eq-div-mul c 16 (8 ^ l)))

pub power_positive : (l : ℕ) → 1 ≤ 8 ^ l
power_positive zero = omega arith
power_positive (suc l) = omega (arith, power_suc l, power_positive l)

-- Two numbers take the same way through the lowest levels.
unfoldable pub agree : (level c c' : ℕ) → Bool
agree zero c c' = true
agree (suc level) c c' = slot level c == slot level c' && agree level c c'

below_third : (x l : ℕ) → x < 8 ^ suc l → x / 8 < 8 ^ l
below_third x l h = omega (arith, power_suc l, h)

above_third : (x l : ℕ) → x / 8 < 8 ^ l → x < 8 ^ suc l
above_third x l h = omega (arith, power_suc l, h)

pub tall_below : (fuel x l : ℕ) → x < 8 ^ l → tallness_loop fuel x ≤ l
unfolding tallness_loop
tall_below zero x l h = omega arith
tall_below (suc fuel) x zero h =
    let none_left : x ≡ 0 = omega (arith, h) in rw none_left (omega arith)
tall_below (suc fuel) x (suc l) h =
    let rest = tall_below fuel (x / 8) l (below_third x l h) in ground (arith, rest)

pub below_tall : (fuel x l : ℕ) → x < 8 ^ fuel → tallness_loop fuel x ≤ l → x < 8 ^ l
unfolding tallness_loop
below_tall zero x l h t = omega (arith, h, power_positive l)
below_tall (suc fuel) x zero h t = ground (arith, t)
below_tall (suc fuel) x (suc l) h t = elim (Bool-cases (x == 0)) [
  | inl e ↦
      let none_left : x ≡ 0 = ground (arith, e) in omega (arith, none_left, power_positive (suc l))
  | inr e ↦
      let low : tallness_loop fuel (x / 8) ≤ l = ground (arith, t, e) in
      above_third x l (below_tall fuel (x / 8) l (below_third x fuel h) low)
]

-- A digit above the number is zero, and the highest digit is not.
pub slot_above : (l c : ℕ) → c / 16 < 8 ^ l → slot l c ≡ 0
slot_above l c h = slot_lem l c ∙ ap (λ q. q % 8) (div-eq_of_lt h)

quotient_positive : (x p : ℕ) → 1 ≤ p → p ≤ x → 1 ≤ x / p
quotient_positive x p some h = grind arith

pub slot_top : (l c : ℕ) → c / 16 < 8 ^ suc l → 8 ^ l ≤ c / 16 → 1 ≤ slot l c
slot_top l c below above =
    let q = quotient_positive (c / 16) (8 ^ l) (power_positive l) above in
    let small : c / 16 / 8 ^ l < 8 =
      (div-lt_iff_lt-mul (power_positive l)).1 (omega (arith, power_suc l, below)) in
    omega (arith, slot_lem l c, q, small)

eighth : (x l : ℕ) → x / 8 ^ l / 8 ≡ x / 8 ^ suc l
eighth x l = div-div-eq-div-mul x (8 ^ l) 8 ∙ ap (λ w. x / w) (sym (pow-suc 8 l))

-- The same way below and the same number above.
agree_number :
    (l c c' : ℕ) → agree l c c' ≡ true → c / 16 / 8 ^ l ≡ c' / 16 / 8 ^ l → c / 16 ≡ c' / 16
unfolding agree
agree_number zero c c' h e = omega (arith, e)
agree_number (suc l) c c' h e =
    let digit : slot l c ≡ slot l c' = ground (arith, h) in
    let rest : agree l c c' ≡ true = ground (arith, h) in
    agree_number l c c' rest
      (omega (arith, eighth (c / 16) l, eighth (c' / 16) l, e, slot_lem l c, slot_lem l c', digit))

-- Below the height of the tree, two numbers take the same way if they are of the same tnode.
pub agree_lem :
    (l c c' : ℕ) → c / 16 < 8 ^ l → c' / 16 < 8 ^ l → agree l c c' ≡ true → c / 16 ≡ c' / 16
agree_lem l c c' h h' e = agree_number l c c' e (div-eq_of_lt h ∙ sym (div-eq_of_lt h'))

pub agree_same : (l c c' : ℕ) → c / 16 ≡ c' / 16 → agree l c c' ≡ true
unfolding agree
agree_same zero c c' e = refl
agree_same (suc l) c c' e =
    let digit : slot l c ≡ slot l c' =
      slot_lem l c ∙ ap (λ x. x / 8 ^ l % 8) e ∙ sym (slot_lem l c') in
    rw (agree_same l c c' e, digit) (ground arith)
