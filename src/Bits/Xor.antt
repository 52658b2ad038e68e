-- ===== src/Bits/Xor.antt =====
-- The laws of `^`.
use Prim.Native.Nat.{bit_xor-bitwise}
use native.Mathlib.Nat.{
  pow-suc, one-le-pow, div-div-eq-div-mul, div-add-mod, mod-lt, mod-eq_of_lt, mul-add-mod_self_left,
}
use mathlib.Core.Path.{ap₂}
use whisper_yaffs.Prelude.{
  ℕ, zero, suc, ◌+◌, ◌*◌, ◌/◌, ◌%◌, ◌^◌, ◌≤◌, ◌<◌, bit_xor, ◌≡◌, refl, sym, ◌∙◌, ap, arith,
}
use whisper_yaffs.Bits.Step.{bit_xor_step}

pub xor-zero_left : (b : ℕ) → bit_xor 0 b ≡ b
xor-zero_left b = bit_xor-bitwise 0 b

zero_right_below : (n a : ℕ) → a ≤ n → bit_xor a 0 ≡ a
zero_right_below n zero p = refl
zero_right_below zero (suc a) p = absurd (omega arith)
zero_right_below (suc n) (suc a) p =
    omega (arith, bit_xor_step (suc a) 0, zero_right_below n (suc a / 2) (omega arith))

pub xor-zero_right : (a : ℕ) → bit_xor a 0 ≡ a
xor-zero_right a = zero_right_below a a (omega arith)

self_below : (n a : ℕ) → a ≤ n → bit_xor a a ≡ 0
self_below n zero p = refl
self_below zero (suc a) p = absurd (omega arith)
self_below (suc n) (suc a) p =
    omega (arith, bit_xor_step (suc a) (suc a), self_below n (suc a / 2) (omega arith))

pub xor_self : (a : ℕ) → bit_xor a a ≡ 0
xor_self a = self_below a a (omega arith)

comm_below : (n a b : ℕ) → a ≤ n → bit_xor a b ≡ bit_xor b a
comm_below n zero b p = xor-zero_left b ∙ sym (xor-zero_right b)
comm_below zero (suc a) b p = absurd (omega arith)
comm_below (suc n) (suc a) b p = omega (
  arith,
  bit_xor_step (suc a) b,
  bit_xor_step b (suc a),
  comm_below n (suc a / 2) (b / 2) (omega arith),
)

pub xor_comm : (a b : ℕ) → bit_xor a b ≡ bit_xor b a
xor_comm a b = comm_below a a b (omega arith)

pub half_xor : (a b : ℕ) → bit_xor a b / 2 ≡ bit_xor (a / 2) (b / 2)
half_xor a b = omega (arith, bit_xor_step a b)

pub low_xor : (a b : ℕ) → bit_xor a b % 2 ≡ (a + b) % 2
low_xor a b = omega (arith, bit_xor_step a b)

-- The step of associativity, from the claim for the halves.
assoc_step :
    (a b c : ℕ)
    → bit_xor (bit_xor (a / 2) (b / 2)) (c / 2) ≡ bit_xor (a / 2) (bit_xor (b / 2) (c / 2))
    → bit_xor (bit_xor a b) c ≡ bit_xor a (bit_xor b c)
assoc_step a b c ih = omega (
  arith,
  bit_xor_step (bit_xor a b) c,
  bit_xor_step a (bit_xor b c),
  ap (λ t. bit_xor t (c / 2)) (half_xor a b) ∙ ih ∙ ap (bit_xor (a / 2)) (sym (half_xor b c)),
  low_xor a b,
  low_xor b c,
)

assoc_below : (n a b c : ℕ) → a ≤ n → bit_xor (bit_xor a b) c ≡ bit_xor a (bit_xor b c)
assoc_below n zero b c p =
    ap (λ t. bit_xor t c) (xor-zero_left b) ∙ sym (xor-zero_left (bit_xor b c))
assoc_below zero (suc a) b c p = absurd (omega arith)
assoc_below (suc n) (suc a) b c p =
    assoc_step (suc a) b c (assoc_below n (suc a / 2) (b / 2) (c / 2) (omega arith))

pub xor_assoc : (a b c : ℕ) → bit_xor (bit_xor a b) c ≡ bit_xor a (bit_xor b c)
xor_assoc a b c = assoc_below a a b c (omega arith)

pub xor-lt : (k a b : ℕ) → a < 2 ^ k → b < 2 ^ k → bit_xor a b < 2 ^ k
xor-lt zero zero zero p q = omega arith
xor-lt zero zero (suc b) p q = absurd (omega arith)
xor-lt zero (suc a) b p q = absurd (omega arith)
xor-lt (suc k) a b p q = omega (
  arith,
  pow-suc 2 k,
  bit_xor_step a b,
  xor-lt k (a / 2) (b / 2) (omega (arith, pow-suc 2 k)) (omega (arith, pow-suc 2 k)),
)

pub two_pow_suc : (k : ℕ) → 2 ^ suc k ≡ 2 * 2 ^ k
two_pow_suc k = omega (arith, pow-suc 2 k)

pub two_pow_pos : (k : ℕ) → 0 < 2 ^ k
two_pow_pos k = one-le-pow k 2 (omega arith)

pub two_pow-lt : (k w : ℕ) → k < w → 2 ^ k < 2 ^ w
two_pow-lt k zero h = absurd (omega arith)
two_pow-lt zero (suc w) h = omega (arith, two_pow_suc w, two_pow_pos w)
two_pow-lt (suc k) (suc w) h =
    omega (arith, two_pow_suc k, two_pow_suc w, two_pow-lt k w (omega arith))

pub div_pow_suc : (a k : ℕ) → a / 2 ^ suc k ≡ a / 2 / 2 ^ k
div_pow_suc a k = ap (λ (t : ℕ). a / t) (two_pow_suc k) ∙ sym (div-div-eq-div-mul a 2 (2 ^ k))

pub mod_pow_suc : (a k : ℕ) → a % 2 ^ suc k ≡ a / 2 % 2 ^ k * 2 + a % 2
mod_pow_suc a k =
    let q = a / 2 / 2 ^ k in
    let c = a / 2 % 2 ^ k * 2 + a % 2 in
    let whole : a ≡ 2 ^ suc k * q + c =
      omega (arith, div-add-mod (a / 2) (2 ^ k), ap (λ (t : ℕ). t * q) (two_pow_suc k)) in
    ap (λ (t : ℕ). t % 2 ^ suc k) whole
    ∙ mul-add-mod_self_left (2 ^ suc k) q c
    ∙ mod-eq_of_lt (omega (arith, two_pow_suc k, mod-lt (a / 2) (two_pow_pos k)))

-- One digit of an exclusive or.
pub xor_digit : (k a b : ℕ) → bit_xor a b / 2 ^ k % 2 ≡ (a / 2 ^ k + b / 2 ^ k) % 2
xor_digit zero a b = omega (arith, low_xor a b)
xor_digit (suc k) a b =
    rw (div_pow_suc (bit_xor a b) k, div_pow_suc a k, div_pow_suc b k, half_xor a b)
      (xor_digit k (a / 2) (b / 2))

-- A cast commutes with `^`.
pub xor-mod : (k a b : ℕ) → bit_xor a b % 2 ^ k ≡ bit_xor (a % 2 ^ k) (b % 2 ^ k)
xor-mod zero a b =
    let x : bit_xor a b % 2 ^ 0 ≡ 0 = omega arith in
    let y : a % 2 ^ 0 ≡ 0 = omega arith in let z : b % 2 ^ 0 ≡ 0 = omega arith in rw (x, y, z)
xor-mod (suc k) a b =
    let y : a % 2 ^ suc k / 2 ≡ a / 2 % 2 ^ k = omega (arith, mod_pow_suc a k) in
    let z : b % 2 ^ suc k / 2 ≡ b / 2 % 2 ^ k = omega (arith, mod_pow_suc b k) in
    omega (
      arith,
      mod_pow_suc (bit_xor a b) k,
      ap (λ (t : ℕ). t % 2 ^ k) (half_xor a b) ∙ xor-mod k (a / 2) (b / 2),
      low_xor a b,
      bit_xor_step (a % 2 ^ suc k) (b % 2 ^ suc k),
      ap₂ bit_xor y z,
      mod_pow_suc a k,
      mod_pow_suc b k,
    )

-- Two changes at once.
pub xor_medial :
    (a b c d : ℕ) → bit_xor (bit_xor a b) (bit_xor c d) ≡ bit_xor (bit_xor a c) (bit_xor b d)
xor_medial a b c d =
    xor_assoc a b (bit_xor c d)
    ∙ ap (bit_xor a)
        (sym (xor_assoc b c d) ∙ ap (λ t. bit_xor t d) (xor_comm b c) ∙ xor_assoc c b d)
    ∙ sym (xor_assoc a c (bit_xor b d))

-- The same change twice is none.
pub xor_cancel : (a b : ℕ) → bit_xor (bit_xor a b) b ≡ a
xor_cancel a b = xor_assoc a b b ∙ ap (bit_xor a) (xor_self b) ∙ xor-zero_right a

pub xor_delta : (a b : ℕ) → bit_xor a (bit_xor a b) ≡ b
xor_delta a b = sym (xor_assoc a a b) ∙ ap (λ t. bit_xor t b) (xor_self a) ∙ xor-zero_left b

xor_double : (a b : ℕ) → bit_xor (a * 2) (b * 2) ≡ bit_xor a b * 2
xor_double a b =
    let x : a * 2 / 2 ≡ a = omega arith in
    let y : b * 2 / 2 ≡ b = omega arith in
    omega (arith, bit_xor_step (a * 2) (b * 2), ap₂ bit_xor x y)

-- Clearing the two lowest digits commutes with `^`.
pub xor_high_digits : (a b : ℕ) → bit_xor a b / 4 * 4 ≡ bit_xor (a / 4 * 4) (b / 4 * 4)
xor_high_digits a b =
    let x : a / 2 / 2 * 2 * 2 ≡ a / 4 * 4 = omega arith in
    let y : b / 2 / 2 * 2 * 2 ≡ b / 4 * 4 = omega arith in
    omega (
      arith,
      half_xor a b,
      half_xor (a / 2) (b / 2),
      ap (λ (t : ℕ). t / 2) (half_xor a b),
      xor_double (a / 2 / 2) (b / 2 / 2),
      xor_double (a / 2 / 2 * 2) (b / 2 / 2 * 2),
      ap₂ bit_xor x y,
    )
