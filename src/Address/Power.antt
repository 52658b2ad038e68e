-- ===== src/Address/Power.antt =====
-- The power of two that `ShiftsGE` finds.
use whisper_yaffs.Prelude.{
  ℕ, zero, suc, ◌+◌, ◌*◌, ◌/◌, ◌%◌, ◌^◌, ◌≤◌, ◌<◌, ◌≡◌, refl, ap, ◌∙◌, inl, inr, ◌||◌, Bool, true,
  false, ltb, ◌==◌, if◌then◌else◌, arith, Bool-cases,
}
use whisper_yaffs.Bits.{two_pow_suc, two_pow_pos, digit_cases}
use whisper_yaffs.Address.{shifts_ge, shifts_ge_loop}

two_pow_next : (n : ℕ) → 2 ^ (n + 1) ≡ 2 * 2 ^ n
two_pow_next n =
    let next : n + 1 ≡ suc n = omega arith in
    ap (λ (t : ℕ). 2 ^ t) next ∙ two_pow_suc n ∙ omega arith

-- What `x` and the flag say of the number `y`, of which `n` bits are shifted out.
Shifted : (y x n : ℕ) → (extra : Bool) → Type 0
Shifted y x n extra = (x * 2 ^ n ≤ y) × (y < x * 2 ^ n + 2 ^ n) × (extra ≡ ltb (x * 2 ^ n) y)

or_false : (b : Bool) → (b || false) ≡ b
or_false true = refl
or_false false = refl

or_true : (b : Bool) → (b || true) ≡ true
or_true true = refl
or_true false = refl

shift_lem :
    (y x n : ℕ) (extra : Bool)
    → Shifted y x n extra
    → Shifted y (x / 2) (n + 1) (extra || x % 2 == 1)
unfolding Shifted
shift_lem y x n extra (low, high, lost) =
    let m = 2 ^ n in
    let next : x / 2 * 2 ^ (n + 1) ≡ x / 2 * (2 * m) = ap (λ (t : ℕ). x / 2 * t) (two_pow_next n) in
    let digits : x ≡ x / 2 * 2 + x % 2 = omega arith in
    let whole : x * m ≡ (x / 2 * 2 + x % 2) * m = ap (λ (t : ℕ). t * m) digits in
    elim (digit_cases x) [
      | inl even ↦
          let same : x * m ≡ x / 2 * (2 * m) =
            whole ∙ ap (λ (t : ℕ). (x / 2 * 2 + t) * m) even ∙ omega arith in
          let turned : x / 2 * 2 ^ (n + 1) ≡ x * m = omega (arith, next, same) in
          (
            omega (arith, turned),
            omega (arith, turned, two_pow_next n),
            rw even (rw turned (or_false extra ∙ lost)),
          )
      | inr odd ↦
          let more : x * m ≡ x / 2 * (2 * m) + m =
            whole ∙ ap (λ (t : ℕ). (x / 2 * 2 + t) * m) odd ∙ omega arith in
          let above : x / 2 * 2 ^ (n + 1) < y = omega (arith, next, more, two_pow_pos n) in
          (
            omega (arith, above),
            omega (arith, next, more, two_pow_next n),
            rw odd (or_true extra ∙ ground (arith, above)),
          )
    ]

last_lem :
    (x n y : ℕ) (extra : Bool)
    → x ≡ 1
    → Shifted y x n extra
    → (y ≤ 2 ^ (if extra then n + 1 else n)) × (2 ^ (if extra then n + 1 else n) < 2 * y)
unfolding Shifted
last_lem x n y true one (low, high, lost) =
    let unit : x * 2 ^ n ≡ 1 * 2 ^ n = ap (λ (t : ℕ). t * 2 ^ n) one in
    let above : x * 2 ^ n < y = ground arith in
    (omega (arith, unit, two_pow_next n), omega (arith, unit, above, two_pow_next n))
last_lem x n y false one (low, high, lost) =
    let unit : x * 2 ^ n ≡ 1 * 2 ^ n = ap (λ (t : ℕ). t * 2 ^ n) one in
    let equal : y ≤ x * 2 ^ n = ground arith in
    (omega (arith, unit, equal), omega (arith, unit, low, two_pow_pos n))

ge_loop_lem :
    (fuel x n y : ℕ) (extra : Bool)
    → 0 < x
    → x < 2 ^ fuel
    → Shifted y x n extra
    → (y ≤ 2 ^ shifts_ge_loop fuel x n extra) × (2 ^ shifts_ge_loop fuel x n extra < 2 * y)
unfolding shifts_ge_loop
ge_loop_lem zero x n y extra some small state = absurd (omega arith)
ge_loop_lem (suc fuel) x n y extra some small state = elim (Bool-cases (ltb 1 x)) [
  | inl more ↦ rw more (
      ge_loop_lem fuel (x / 2) (n + 1) y (extra || x % 2 == 1) (ground arith)
        (omega (arith, two_pow_suc fuel)) (shift_lem y x n extra state))
  | inr last ↦ rw last (last_lem x n y extra (ground arith) state)
]

-- `ShiftsGE` of a number above zero, of 32 bits, is the number of shifts for the least power of two
-- that is not below it: the power is at least the number, and less than twice the number.
pub shifts_ge_lem : (x : ℕ) → 0 < x → x < 2 ^ 32 → (x ≤ 2 ^ shifts_ge x) × (2 ^ shifts_ge x < 2 * x)
unfolding shifts_ge Shifted
shifts_ge_lem x some small =
    ge_loop_lem 33 x 0 x false some (omega arith) (omega arith, omega arith, ground arith)
