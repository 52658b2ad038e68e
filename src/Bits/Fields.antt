-- ===== src/Bits/Fields.antt =====
-- `&` with one bit or a mask of low bits, and `|` of disjoint fields, as arithmetic.
use native.Mathlib.Nat.{div-add-mod}
use whisper_yaffs.Prelude.{
  ℕ, zero, suc, ◌+◌, ◌-◌, ◌*◌, ◌/◌, ◌%◌, ◌^◌, ◌≤◌, ◌<◌, bit_and, bit_or, ◌≡◌, refl, ◌∙◌, ap, ◌⊎◌,
  inl, inr, arith, truthy, Bool, true, false, to_int, if◌then◌else◌, ◌==◌,
}
use whisper_yaffs.Bits.Step.{bit_and_step, bit_or_step}
use whisper_yaffs.Bits.Xor.{two_pow_suc, two_pow_pos, div_pow_suc, mod_pow_suc}

or_zero_below : (n a : ℕ) → a ≤ n → bit_or a 0 ≡ a
or_zero_below n zero p = refl
or_zero_below zero (suc a) p = absurd (omega arith)
or_zero_below (suc n) (suc a) p =
    omega (arith, bit_or_step (suc a) 0, or_zero_below n (suc a / 2) (omega arith))

pub or-zero_right : (a : ℕ) → bit_or a 0 ≡ a
or-zero_right a = or_zero_below a a (omega arith)

and_zero_below : (n a : ℕ) → a ≤ n → bit_and a 0 ≡ 0
and_zero_below n zero p = refl
and_zero_below zero (suc a) p = absurd (omega arith)
and_zero_below (suc n) (suc a) p =
    omega (arith, bit_and_step (suc a) 0, and_zero_below n (suc a / 2) (omega arith))

pub and-zero_right : (a : ℕ) → bit_and a 0 ≡ 0
and-zero_right a = and_zero_below a a (omega arith)

-- `x & (1 << k)`.
pub and_bit : (k x : ℕ) → bit_and x (2 ^ k) ≡ x / 2 ^ k % 2 * 2 ^ k
and_bit zero x = omega (arith, bit_and_step x 1, and-zero_right (x / 2))
and_bit (suc k) x =
    let half : 2 ^ suc k / 2 ≡ 2 ^ k = omega (arith, two_pow_suc k) in
    omega (
      arith,
      bit_and_step x (2 ^ suc k),
      ap (bit_and (x / 2)) half ∙ and_bit k (x / 2),
      ap (λ (t : ℕ). t % 2 * 2 ^ suc k) (div_pow_suc x k),
      ap (λ (t : ℕ). x / 2 / 2 ^ k % 2 * t) (two_pow_suc k),
      two_pow_suc k,
    )

pub digit_cases : (x : ℕ) → (x % 2 ≡ 0) ⊎ (x % 2 ≡ 1)
digit_cases x = omega arith

truthy_scaled : (d m : ℕ) → d < 2 → 0 < m → truthy (d * m) ≡ (d == 1)
truthy_scaled d zero p q = absurd (omega arith)
truthy_scaled zero (suc m) p q = let e : 0 * suc m ≡ 0 = omega arith in rw e
truthy_scaled (suc zero) (suc m) p q = let e : 1 * suc m ≡ suc m = omega arith in rw e
truthy_scaled (suc (suc d)) (suc m) p q = absurd (omega arith)

-- The test `if (x & (1 << k))`.
pub truthy_bit : (k x : ℕ) → truthy (bit_and x (2 ^ k)) ≡ (x / 2 ^ k % 2 == 1)
truthy_bit k x =
    rw (and_bit k x) (truthy_scaled (x / 2 ^ k % 2) (2 ^ k) (omega arith) (two_pow_pos k))

-- `(q << k) | r` is a sum when `r` fits `k` bits.
pub or_fields : (k q r : ℕ) → r < 2 ^ k → bit_or (q * 2 ^ k) r ≡ q * 2 ^ k + r
or_fields zero q r fits =
    let none : r ≡ 0 = omega arith in rw none (omega (arith, or-zero_right (q * 2 ^ 0)))
or_fields (suc k) q r fits =
    let half : q * 2 ^ suc k / 2 ≡ q * 2 ^ k =
      omega (arith, ap (λ (t : ℕ). q * t) (two_pow_suc k)) in
    omega (
      arith,
      bit_or_step (q * 2 ^ suc k) r,
      ap (λ t. bit_or t (r / 2)) half,
      ap (λ (t : ℕ). q * t) (two_pow_suc k),
      or_fields k q (r / 2) (omega (arith, two_pow_suc k)),
    )

-- `x & (2 ^ k - 1)`.
pub and_mask : (k x : ℕ) → bit_and x (2 ^ k - 1) ≡ x % 2 ^ k
and_mask zero x = omega (arith, and-zero_right x)
and_mask (suc k) x =
    let half : (2 ^ suc k - 1) / 2 ≡ 2 ^ k - 1 = omega (arith, two_pow_suc k, two_pow_pos k) in
    omega (
      arith,
      bit_and_step x (2 ^ suc k - 1),
      ap (bit_and (x / 2)) half ∙ and_mask k (x / 2),
      mod_pow_suc x k,
      two_pow_suc k,
      two_pow_pos k,
    )

or_clear : (m t : ℕ) → t % 2 ^ suc m ≡ 0 → bit_or t (2 ^ m) ≡ t + 2 ^ m
or_clear m t h =
    let q = t / 2 ^ suc m in
    let whole : t ≡ q * 2 ^ suc m = omega (arith, div-add-mod t (2 ^ suc m)) in
    ap (λ s. bit_or s (2 ^ m)) whole
    ∙ or_fields (suc m) q (2 ^ m) (omega (arith, two_pow_suc m, two_pow_pos m))
    ∙ omega (arith, whole)

-- `if (x & (1 << k)) t |= 1 << m` where the digits of `t` up to `m` are clear.
pub or_if :
    (k m x t : ℕ)
    → t % 2 ^ suc m ≡ 0
    → (if truthy (bit_and x (2 ^ k)) then bit_or t (2 ^ m) else t) ≡ t + x / 2 ^ k % 2 * 2 ^ m
or_if k m x t h = elim (digit_cases (x / 2 ^ k)) [
  | inl clear ↦ rw (truthy_bit k x, clear) (omega arith)
  | inr up ↦ rw (truthy_bit k x, up) (omega (arith, or_clear m t h))
]

or_le_below : (n a b : ℕ) → a ≤ n → a ≤ bit_or a b
or_le_below n zero b p = omega arith
or_le_below zero (suc a) b p = absurd (omega arith)
or_le_below (suc n) (suc a) b p =
    omega (arith, bit_or_step (suc a) b, or_le_below n (suc a / 2) (b / 2) (omega arith))

pub le-or_left : (a b : ℕ) → a ≤ bit_or a b
le-or_left a b = or_le_below a a b (omega arith)

or_comm_below : (n a b : ℕ) → a ≤ n → b ≤ n → bit_or a b ≡ bit_or b a
or_comm_below zero a b p q = let x : a ≡ 0 = omega arith in let y : b ≡ 0 = omega arith in rw (x, y)
or_comm_below (suc n) a b p q = omega (
  arith,
  bit_or_step a b,
  bit_or_step b a,
  or_comm_below n (a / 2) (b / 2) (omega arith) (omega arith),
)

pub le-or_right : (a b : ℕ) → b ≤ bit_or a b
le-or_right a b =
    omega (arith, le-or_left b a, or_comm_below (a + b) a b (omega arith) (omega arith))

pub or_comm : (a b : ℕ) → bit_or a b ≡ bit_or b a
or_comm a b = or_comm_below (a + b) a b (omega arith) (omega arith)

-- `x |= 1 << k`.
pub or_bit : (k x : ℕ) → bit_or x (2 ^ k) ≡ x + (1 - x / 2 ^ k % 2) * 2 ^ k
or_bit zero x = omega (arith, bit_or_step x 1, or-zero_right (x / 2))
or_bit (suc k) x =
    let half : 2 ^ suc k / 2 ≡ 2 ^ k = omega (arith, two_pow_suc k) in
    let d = 1 - x / 2 / 2 ^ k % 2 in
    omega (
      arith,
      bit_or_step x (2 ^ suc k),
      ap (bit_or (x / 2)) half ∙ or_bit k (x / 2),
      ap (λ (t : ℕ). (1 - t % 2) * 2 ^ suc k) (div_pow_suc x k),
      ap (λ (t : ℕ). d * t) (two_pow_suc k),
      two_pow_suc k,
    )

-- `if (c) x |= 1 << k` where digit `k` of `x` is clear.
pub or_digit :
    (k x : ℕ) (c : Bool)
    → x / 2 ^ k % 2 ≡ 0
    → (if c then bit_or x (2 ^ k) else x) ≡ x + to_int c * 2 ^ k
or_digit k x false h = omega arith
or_digit k x true h = or_bit k x ∙ ap (λ (d : ℕ). x + (1 - d) * 2 ^ k) h
