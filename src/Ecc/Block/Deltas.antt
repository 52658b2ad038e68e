-- ===== src/Ecc/Block/Deltas.antt =====
-- The deltas that `yaffs_ECCCorrect` forms from two codes, digit by digit, when the parities behind
-- the codes differ by `u` and `v` in the lines and by `s` in the column.
use whisper_yaffs.Prelude.{
  ℕ, ◌+◌, ◌*◌, ◌/◌, ◌<◌, bit_or, bit_xor, ◌≡◌, refl, arith, true, not8, ◌==◌, ==_iff, all_below,
  all_below_sound,
}
use whisper_yaffs.Bits.{xor_digit, xor-lt, xor_medial, xor-zero_right, xor_delta, xor_high_digits}
use whisper_yaffs.Ecc.Block.{high_lines, low_lines}
use whisper_yaffs.Ecc.Block.Lines.{digit, high_lines_sum, low_lines_sum}

not8_table : all_below 256 (λ a. not8 a == bit_xor a 255) ≡ true
unfolding all_below
not8_table = refl

not8-xor : (a : ℕ) → a < 256 → not8 a ≡ bit_xor a 255
not8-xor a p = (==_iff _ _).0 (all_below_sound 256 (λ x. not8 x == bit_xor x 255) a not8_table p)

-- The delta of two complemented bytes is that of the bytes.
pub xor_not8 : (a b : ℕ) → a < 256 → b < 256 → bit_xor (not8 a) (not8 b) ≡ bit_xor a b
xor_not8 a b p q =
    let e : bit_xor 255 255 ≡ 0 = refl in
    rw (not8-xor a p, not8-xor b q, xor_medial a 255 b 255, e) (xor-zero_right (bit_xor a b))

-- The eight digits of `t` are those of `u` and `v` in turn, from digit `s + 3` down.
abbrev pub Interleaves : (s t u v : ℕ) → Type 0
Interleaves s t u v =
    (t < 256)
    × (digit t 7 ≡ digit u (s + 3))
    × (digit t 6 ≡ digit v (s + 3))
    × (digit t 5 ≡ digit u (s + 2))
    × (digit t 4 ≡ digit v (s + 2))
    × (digit t 3 ≡ digit u (s + 1))
    × (digit t 2 ≡ digit v (s + 1))
    × (digit t 1 ≡ digit u s)
    × (digit t 0 ≡ digit v s)

pub high_lines-Interleaves : (a b : ℕ) → Interleaves 4 (high_lines a b) a b
high_lines-Interleaves a b = omega (arith, high_lines_sum a b)

pub low_lines-Interleaves : (a b : ℕ) → Interleaves 0 (low_lines a b) a b
low_lines-Interleaves a b = omega (arith, low_lines_sum a b)

Interleaves-delta :
    (s t t' a b u v : ℕ)
    → Interleaves s t a b
    → Interleaves s t' (bit_xor a u) (bit_xor b v)
    → Interleaves s (bit_xor t t') u v
Interleaves-delta s t t' a b u v h k = (
  xor-lt 8 t t' h.0 k.0,
  omega (arith, xor_digit 7 t t', xor_digit (s + 3) a u),
  omega (arith, xor_digit 6 t t', xor_digit (s + 3) b v),
  omega (arith, xor_digit 5 t t', xor_digit (s + 2) a u),
  omega (arith, xor_digit 4 t t', xor_digit (s + 2) b v),
  omega (arith, xor_digit 3 t t', xor_digit (s + 1) a u),
  omega (arith, xor_digit 2 t t', xor_digit (s + 1) b v),
  omega (arith, xor_digit 1 t t', xor_digit s a u),
  omega (arith, xor_digit 0 t t', xor_digit s b v),
)

pub high_delta :
    (a b u v : ℕ)
    → Interleaves 4
        (bit_xor (not8 (high_lines a b)) (not8 (high_lines (bit_xor a u) (bit_xor b v))))
        u
        v
high_delta a b u v =
    let h = high_lines-Interleaves a b in
    let k = high_lines-Interleaves (bit_xor a u) (bit_xor b v) in
    rw (xor_not8 _ _ h.0 k.0) (Interleaves-delta 4 _ _ a b u v h k)

pub low_delta :
    (a b u v : ℕ)
    → Interleaves 0
        (bit_xor (not8 (low_lines a b)) (not8 (low_lines (bit_xor a u) (bit_xor b v))))
        u
        v
low_delta a b u v =
    let h = low_lines-Interleaves a b in
    let k = low_lines-Interleaves (bit_xor a u) (bit_xor b v) in
    rw (xor_not8 _ _ h.0 k.0) (Interleaves-delta 0 _ _ a b u v h k)

col_table : all_below 256 (λ c. bit_or (not8 c) 0x03 == bit_xor (c / 4 * 4) 255) ≡ true
unfolding all_below
col_table = refl

col_code : (c : ℕ) → c < 256 → bit_or (not8 c) 0x03 ≡ bit_xor (c / 4 * 4) 255
col_code c p =
    (==_iff _ _).0
      (all_below_sound 256 (λ x. bit_or (not8 x) 0x03 == bit_xor (x / 4 * 4) 255) c col_table p)

-- The six column digits of the third byte, above two that never differ.
pub col_delta :
    (c s : ℕ)
    → c < 256
    → s < 256
    → bit_xor (bit_or (not8 c) 0x03) (bit_or (not8 (bit_xor c s)) 0x03) ≡ s / 4 * 4
col_delta c s p q =
    let e : bit_xor 255 255 ≡ 0 = refl in
    rw
      (
        col_code c p,
        col_code (bit_xor c s) (xor-lt 8 c s p q),
        xor_medial (c / 4 * 4) 255 (bit_xor c s / 4 * 4) 255,
        e,
        xor-zero_right,
        xor_high_digits c s,
      )
      (xor_delta (c / 4 * 4) (s / 4 * 4))
