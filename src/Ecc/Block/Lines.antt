-- ===== src/Ecc/Block/Lines.antt =====
-- The bytes that are put together digit by digit, as sums of digits.
use whisper_yaffs.Prelude.{
  ℕ, ◌+◌, ◌*◌, ◌/◌, ◌%◌, ◌^◌, bit_and, bit_or, ◌≡◌, refl, arith, truthy, if◌then◌else◌,
}
use whisper_yaffs.Bits.{or_if}
use whisper_yaffs.Ecc.Block.{high_lines, low_lines, error_byte, error_bit}

-- `if (x & (1 << k)) t |= 1 << m`.
abbrev put : (k m x t : ℕ) → ℕ
put k m x t = if truthy (bit_and x (2 ^ k)) then bit_or t (2 ^ m) else t

abbrev pub digit : ℕ → ℕ → ℕ
digit x k = x / 2 ^ k % 2

module _ (x7 k7 x6 k6 x5 k5 x4 k4 x3 k3 x2 k2 x1 k1 x0 k0 : ℕ) where
  abbrev put_high : ℕ
  put_high = put k4 4 x4 (put k5 5 x5 (put k6 6 x6 (put k7 7 x7 0)))

  abbrev put_all : ℕ
  put_all = put k0 0 x0 (put k1 1 x1 (put k2 2 x2 (put k3 3 x3 put_high)))

  put_high_sum :
      put_high ≡ digit x7 k7 * 128 + digit x6 k6 * 64 + digit x5 k5 * 32 + digit x4 k4 * 16
  put_high_sum =
      let t1 = put k7 7 x7 0 in
      let e1 : t1 ≡ 0 + digit x7 k7 * 128 = or_if k7 7 x7 0 refl in
      let t2 = put k6 6 x6 t1 in
      let e2 : t2 ≡ t1 + digit x6 k6 * 64 = or_if k6 6 x6 t1 (omega arith) in
      let t3 = put k5 5 x5 t2 in
      let e3 : t3 ≡ t2 + digit x5 k5 * 32 = or_if k5 5 x5 t2 (omega arith) in
      let e4 : put k4 4 x4 t3 ≡ t3 + digit x4 k4 * 16 = or_if k4 4 x4 t3 (omega arith) in
      omega arith

  put_all_sum :
      put_all ≡ put_high + digit x3 k3 * 8 + digit x2 k2 * 4 + digit x1 k1 * 2 + digit x0 k0
  put_all_sum =
      let t4 = put_high in
      let e4 = put_high_sum in
      let t5 = put k3 3 x3 t4 in
      let e5 : t5 ≡ t4 + digit x3 k3 * 8 = or_if k3 3 x3 t4 (omega arith) in
      let t6 = put k2 2 x2 t5 in
      let e6 : t6 ≡ t5 + digit x2 k2 * 4 = or_if k2 2 x2 t5 (omega arith) in
      let t7 = put k1 1 x1 t6 in
      let e7 : t7 ≡ t6 + digit x1 k1 * 2 = or_if k1 1 x1 t6 (omega arith) in
      let e8 : put k0 0 x0 t7 ≡ t7 + digit x0 k0 * 1 = or_if k0 0 x0 t7 (omega arith) in omega arith

pub high_lines_sum :
    (a b : ℕ)
    → high_lines a b
      ≡ digit a 7 * 128
        + digit b 7 * 64
        + digit a 6 * 32
        + digit b 6 * 16
        + digit a 5 * 8
        + digit b 5 * 4
        + digit a 4 * 2
        + digit b 4
unfolding high_lines
high_lines_sum a b = omega (
  arith,
  put_high_sum a 7 b 7 a 6 b 6 a 5 b 5 a 4 b 4,
  put_all_sum a 7 b 7 a 6 b 6 a 5 b 5 a 4 b 4,
)

pub low_lines_sum :
    (a b : ℕ)
    → low_lines a b
      ≡ digit a 3 * 128
        + digit b 3 * 64
        + digit a 2 * 32
        + digit b 2 * 16
        + digit a 1 * 8
        + digit b 1 * 4
        + digit a 0 * 2
        + digit b 0
unfolding low_lines
low_lines_sum a b = omega (
  arith,
  put_high_sum a 3 b 3 a 2 b 2 a 1 b 1 a 0 b 0,
  put_all_sum a 3 b 3 a 2 b 2 a 1 b 1 a 0 b 0,
)

pub error_byte_sum :
    (h l : ℕ)
    → error_byte h l
      ≡ digit h 7 * 128
        + digit h 5 * 64
        + digit h 3 * 32
        + digit h 1 * 16
        + digit l 7 * 8
        + digit l 5 * 4
        + digit l 3 * 2
        + digit l 1
unfolding error_byte
error_byte_sum h l = omega (
  arith,
  put_high_sum h 7 h 5 h 3 h 1 l 7 l 5 l 3 l 1,
  put_all_sum h 7 h 5 h 3 h 1 l 7 l 5 l 3 l 1,
)

pub error_bit_sum : (d : ℕ) → error_bit d ≡ digit d 7 * 4 + digit d 5 * 2 + digit d 3
unfolding error_bit
error_bit_sum d =
    let t1 = put 7 2 d 0 in
    let e1 : t1 ≡ 0 + digit d 7 * 4 = or_if 7 2 d 0 refl in
    let t2 = put 5 1 d t1 in
    let e2 : t2 ≡ t1 + digit d 5 * 2 = or_if 5 1 d t1 (omega arith) in
    let e3 : put 3 0 d t2 ≡ t2 + digit d 3 * 1 = or_if 3 0 d t2 (omega arith) in omega arith
