-- ===== src/Bits/Digits.antt =====
-- Numbers by their binary digits: each operation on words as what it does to one digit.
use Prim.Native.Nat.{min, max}
use native.Mathlib.Nat.{mod-lt}
use whisper_yaffs.Prelude.{
  ℕ, zero, suc, ◌+◌, ◌-◌, ◌*◌, ◌/◌, ◌%◌, ◌^◌, ◌≤◌, ◌<◌, bit_and, bit_or, ◌≡◌, refl, sym, ap, ◌∙◌,
  arith, if◌then◌else◌, ltb,
}
use whisper_yaffs.Bits.Step.{bit_and_step, bit_or_step}
use whisper_yaffs.Bits.Xor.{two_pow_suc, two_pow_pos, div_pow_suc, mod_pow_suc}

-- Digit `k` of `x`.
unfoldable pub digit : (x k : ℕ) → ℕ
digit x k = x / 2 ^ k % 2

pub digit_zero : (x : ℕ) → digit x 0 ≡ x % 2
unfolding digit
digit_zero x = omega arith

pub digit-suc : (x k : ℕ) → digit x (suc k) ≡ digit (x / 2) k
unfolding digit
digit-suc x k = ap (λ (t : ℕ). t % 2) (div_pow_suc x k)

pub digit-lt : (x k : ℕ) → digit x k < 2
unfolding digit
digit-lt x k = omega arith

pub digit_none : (k : ℕ) → digit 0 k ≡ 0
unfolding digit
digit_none zero = refl
digit_none (suc k) = digit-suc 0 k ∙ digit_none k

-- Numbers below a power of two with the same digits are the same.
pub digits_ext :
    (n x y : ℕ) → x < 2 ^ n → y < 2 ^ n → ((k : ℕ) → k < n → digit x k ≡ digit y k) → x ≡ y
digits_ext zero x y hx hy same = omega arith
digits_ext (suc n) x y hx hy same =
    let halves =
      digits_ext n (x / 2) (y / 2) (omega (arith, two_pow_suc n)) (omega (arith, two_pow_suc n))
        (λ k h. sym (digit-suc x k) ∙ same (suc k) (omega arith) ∙ digit-suc y k) in
    omega (arith, halves, same 0 (omega arith), digit_zero x, digit_zero y)

pub and_digit : (k x y : ℕ) → digit (bit_and x y) k ≡ min (digit x k) (digit y k)
and_digit zero x y =
    omega (arith, digit_zero x, digit_zero y, digit_zero (bit_and x y), bit_and_step x y)
and_digit (suc k) x y =
    let half : bit_and x y / 2 ≡ bit_and (x / 2) (y / 2) = omega (arith, bit_and_step x y) in
    rw (digit-suc (bit_and x y) k, digit-suc x k, digit-suc y k, half) (and_digit k (x / 2) (y / 2))

pub digit_or : (k x y : ℕ) → digit (bit_or x y) k ≡ max (digit x k) (digit y k)
digit_or zero x y =
    omega (arith, digit_zero x, digit_zero y, digit_zero (bit_or x y), bit_or_step x y)
digit_or (suc k) x y =
    let half : bit_or x y / 2 ≡ bit_or (x / 2) (y / 2) = omega (arith, bit_or_step x y) in
    rw (digit-suc (bit_or x y) k, digit-suc x k, digit-suc y k, half) (digit_or k (x / 2) (y / 2))

pub digit_mod : (w k x : ℕ) → k < w → digit (x % 2 ^ w) k ≡ digit x k
digit_mod zero k x h = absurd (omega arith)
digit_mod (suc w) zero x h =
    omega (arith, digit_zero x, digit_zero (x % 2 ^ suc w), mod_pow_suc x w)
digit_mod (suc w) (suc k) x h =
    let half : x % 2 ^ suc w / 2 ≡ x / 2 % 2 ^ w = omega (arith, mod_pow_suc x w) in
    rw (digit-suc (x % 2 ^ suc w) k, digit-suc x k, half) (digit_mod w k (x / 2) (omega arith))

pub digit_mod_above : (w k x : ℕ) → w ≤ k → digit (x % 2 ^ w) k ≡ 0
digit_mod_above zero k x h = let none : x % 2 ^ 0 ≡ 0 = omega arith in rw none (digit_none k)
digit_mod_above (suc w) zero x h = absurd (omega arith)
digit_mod_above (suc w) (suc k) x h =
    let half : x % 2 ^ suc w / 2 ≡ x / 2 % 2 ^ w = omega (arith, mod_pow_suc x w) in
    rw (digit-suc (x % 2 ^ suc w) k, half) (digit_mod_above w k (x / 2) (omega arith))

-- The digits of a mask.
pub mask_digit : (w k : ℕ) → digit (2 ^ w - 1) k ≡ (if ltb k w then 1 else 0)
mask_digit zero k = ground (arith, digit_none k)
mask_digit (suc w) zero = ground (arith, digit_zero (2 ^ suc w - 1), two_pow_suc w, two_pow_pos w)
mask_digit (suc w) (suc k) =
    let half : (2 ^ suc w - 1) / 2 ≡ 2 ^ w - 1 = omega (arith, two_pow_suc w, two_pow_pos w) in
    rw (digit-suc (2 ^ suc w - 1) k, half) (mask_digit w k ∙ ground arith)

-- A complement of 32 digits.
pub not_digit : (w k x : ℕ) → k < w → digit (2 ^ w - 1 - x % 2 ^ w) k ≡ 1 - digit x k
not_digit zero k x h = absurd (omega arith)
not_digit (suc w) zero x h = omega (
  arith,
  digit_zero x,
  digit_zero (2 ^ suc w - 1 - x % 2 ^ suc w),
  mod_pow_suc x w,
  mod-lt (x / 2) (two_pow_pos w),
  two_pow_suc w,
)
not_digit (suc w) (suc k) x h =
    let half : (2 ^ suc w - 1 - x % 2 ^ suc w) / 2 ≡ 2 ^ w - 1 - x / 2 % 2 ^ w =
      omega (arith, mod_pow_suc x w, mod-lt (x / 2) (two_pow_pos w), two_pow_suc w) in
    rw (digit-suc (2 ^ suc w - 1 - x % 2 ^ suc w) k, digit-suc x k, half)
      (not_digit w k (x / 2) (omega arith))

pub shl_digit : (b k x : ℕ) → digit (x * 2 ^ b) k ≡ (if ltb k b then 0 else digit x (k - b))
shl_digit zero k x =
    let same : x * 2 ^ 0 ≡ x = omega arith in
    let place : k - 0 ≡ k = omega arith in rw (same, place) (ground arith)
shl_digit (suc b) zero x =
    ground (arith, digit_zero (x * 2 ^ suc b), ap (λ (t : ℕ). x * t) (two_pow_suc b))
shl_digit (suc b) (suc k) x =
    let half : x * 2 ^ suc b / 2 ≡ x * 2 ^ b =
      omega (arith, ap (λ (t : ℕ). x * t) (two_pow_suc b)) in
    rw (digit-suc (x * 2 ^ suc b) k, half) (shl_digit b k x ∙ ground arith)

pub shr_digit : (b k x : ℕ) → digit (x / 2 ^ b) k ≡ digit x (b + k)
shr_digit zero k x =
    let same : x / 2 ^ 0 ≡ x = omega arith in
    let place : 0 + k ≡ k = omega arith in rw (same, place)
shr_digit (suc b) k x =
    let place : suc b + k ≡ suc (b + k) = omega arith in
    rw (div_pow_suc x b, place, digit-suc x (b + k)) (shr_digit b k (x / 2))

pub or-lt : (k a b : ℕ) → a < 2 ^ k → b < 2 ^ k → bit_or a b < 2 ^ k
or-lt zero zero zero p q = omega arith
or-lt zero zero (suc b) p q = absurd (omega arith)
or-lt zero (suc a) b p q = absurd (omega arith)
or-lt (suc k) a b p q = omega (
  arith,
  two_pow_suc k,
  bit_or_step a b,
  or-lt k (a / 2) (b / 2) (omega (arith, two_pow_suc k)) (omega (arith, two_pow_suc k)),
)

and_zero_below : (n b : ℕ) → b ≤ n → bit_and 0 b ≡ 0
and_zero_below n zero p = refl
and_zero_below zero (suc b) p = absurd (omega arith)
and_zero_below (suc n) (suc b) p =
    omega (arith, bit_and_step 0 (suc b), and_zero_below n (suc b / 2) (omega arith))

and_zero_left : (b : ℕ) → bit_and 0 b ≡ 0
and_zero_left b = and_zero_below b b (omega arith)

and_le_below : (n a b : ℕ) → a ≤ n → bit_and a b ≤ a
and_le_below n zero b p = omega (arith, bit_and_step 0 b, and_zero_left b)
and_le_below zero (suc a) b p = absurd (omega arith)
and_le_below (suc n) (suc a) b p =
    omega (arith, bit_and_step (suc a) b, and_le_below n (suc a / 2) (b / 2) (omega arith))

pub and-le : (a b : ℕ) → bit_and a b ≤ a
and-le a b = and_le_below a a b (omega arith)
