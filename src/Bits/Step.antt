-- ===== src/Bits/Step.antt =====
-- One equation for the lowest digit of each operation, with the fuel of its definition dropped.
use Prim.Native.Nat.{
  min, max, digits, bitwise, differ, bit_and-bitwise, bit_or-bitwise, bit_xor-bitwise,
}
use whisper_yaffs.Prelude.{
  ℕ, zero, suc, ◌+◌, ◌*◌, ◌/◌, ◌%◌, ◌≤◌, ◌<◌, bit_and, bit_or, bit_xor, ◌≡◌, refl, sym, ap, ◌∙◌,
  ◌-◌, arith,
}

-- An operation that is `digits` with its own first argument as fuel: one unit of fuel more changes
-- nothing, so the fuel can be dropped.
module _ (z : ℕ → ℕ) (f op : ℕ → ℕ → ℕ) (means : (x y : ℕ) → op x y ≡ bitwise z f x y) where
  one_more : (n x y : ℕ) → x ≤ n → digits z f (suc n) x y ≡ digits z f n x y
  one_more zero zero y h = refl
  one_more (suc n) zero y h = refl
  one_more zero (suc x) y h = absurd (omega arith)
  one_more (suc n) (suc x) y h =
      ap (λ (t : ℕ). t * 2 + f (suc x % 2) (y % 2)) (one_more n (suc x / 2) (y / 2) (omega arith))

  some_more : (k n x y : ℕ) → x ≤ n → digits z f (k + n) x y ≡ digits z f n x y
  some_more zero n x y h = let e : 0 + n ≡ n = omega arith in rw e
  some_more (suc k) n x y h =
      let e : suc k + n ≡ suc (k + n) = omega arith in
      rw e (one_more (k + n) x y (omega arith) ∙ some_more k n x y h)

  lowest_digit : (x y : ℕ) → op (suc x) y ≡ op (suc x / 2) (y / 2) * 2 + f (suc x % 2) (y % 2)
  lowest_digit x y =
      let half = suc x / 2 in
      let fuel : x - half + half ≡ x = omega arith in
      let drop =
        ap (λ n. digits z f n half (y / 2)) (sym fuel)
        ∙ some_more (x - half) half half (y / 2) (omega arith) in
      omega (arith, means (suc x) y, means half (y / 2), drop)

pub bit_and_step : (x y : ℕ) → bit_and x y ≡ bit_and (x / 2) (y / 2) * 2 + min (x % 2) (y % 2)
bit_and_step (suc x) y = lowest_digit (λ b. 0) min bit_and bit_and-bitwise x y
bit_and_step zero y = omega (arith, bit_and-bitwise 0 y, bit_and-bitwise 0 (y / 2))

pub bit_or_step : (x y : ℕ) → bit_or x y ≡ bit_or (x / 2) (y / 2) * 2 + max (x % 2) (y % 2)
bit_or_step (suc x) y = lowest_digit (λ b. b) max bit_or bit_or-bitwise x y
bit_or_step zero y = omega (arith, bit_or-bitwise 0 y, bit_or-bitwise 0 (y / 2))

differ-mod : (x y : ℕ) → x < 2 → y < 2 → differ x y ≡ (x + y) % 2
differ-mod zero y p q = omega arith
differ-mod (suc zero) zero p q = refl
differ-mod (suc zero) (suc zero) p q = refl
differ-mod (suc zero) (suc (suc y)) p q = absurd (omega arith)
differ-mod (suc (suc x)) y p q = absurd (omega arith)

pub bit_xor_step : (a b : ℕ) → bit_xor a b ≡ bit_xor (a / 2) (b / 2) * 2 + (a + b) % 2
bit_xor_step (suc a) b = omega (
  arith,
  lowest_digit (λ b. b) differ bit_xor bit_xor-bitwise a b,
  differ-mod (suc a % 2) (b % 2) (omega arith) (omega arith),
)
bit_xor_step zero b = omega (arith, bit_xor-bitwise 0 b, bit_xor-bitwise 0 (b / 2))
