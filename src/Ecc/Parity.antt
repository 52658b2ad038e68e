-- ===== src/Ecc/Parity.antt =====
-- The loop that `yaffs_ECCCalculate` and `yaffs_ECCCalculateOther` share, and the bit counts. The
-- first keeps its line parities in an `unsigned char`, the second in an `unsigned`: `cast` and
-- `complement` are those of the type.
pub mod Flip
use whisper_yaffs.Prelude.{
  ℕ, zero, suc, ◌+◌, ◌/◌, ◌%◌, ◌^◌, bit_and, bit_xor, List, [], ◌∷◌, truthy, if◌then◌else◌, get_or,
  u8,
}
use whisper_yaffs.Ecc.Table.{column_parity_table}

pub record Parity : Type 0 where
  pub col : ℕ
  pub line : ℕ
  pub line_prime : ℕ

abbrev pub no_parity : Parity
no_parity = record { col = 0; line = 0; line_prime = 0 }

unfoldable pub column : ℕ → ℕ
unfolding column_parity_table
column x = get_or column_parity_table x 0

module _ (cast complement : ℕ → ℕ) where
  -- One round, at index `i` over the byte `x`.
  unfoldable pub round : ℕ → ℕ → Parity → Parity
  round i x p =
      let b = column x in
      let odd = truthy (bit_and b 0x01) in
      record {
        col = u8 (bit_xor p.col b);
        line = if odd then cast (bit_xor p.line i) else p.line;
        line_prime = if odd then cast (bit_xor p.line_prime (complement i)) else p.line_prime;
      }

  -- `for (; n rounds left; i++) b = column_parity_table[*data++] ...`; a read past the end of the
  -- buffer ends the loop.
  unfoldable pub parity_loop : (n i : ℕ) → List ℕ → Parity → Parity
  parity_loop zero i bytes p = p
  parity_loop (suc n) i [] p = p
  parity_loop (suc n) i (x ∷ xs) p = parity_loop n (i + 1) xs (round i x p)

-- `while (x) { if (x & 1) r++; x >>= 1; }` with at most `fuel` rounds.
unfoldable pub count_loop : (fuel x r : ℕ) → ℕ
count_loop zero x r = r
count_loop (suc fuel) x r =
    let rest = count_loop fuel (x / 2) (if truthy (bit_and x 1) then r + 1 else r) in
    if truthy x then rest else r

-- `yaffs_CountBits` of an `unsigned char` and `yaffs_CountBits32` of an `unsigned`.
unfoldable pub count_bits : ℕ → ℕ
unfolding count_loop
count_bits x = count_loop 8 x 0

unfoldable pub count_bits32 : ℕ → ℕ
unfolding count_loop
count_bits32 x = count_loop 32 x 0
