-- ===== src/Ecc/Other.antt =====
-- `yaffs_ECCCalculateOther` and `yaffs_ECCCorrectOther`: the code over any number of bytes.
pub mod Single
use whisper_yaffs.Prelude.{
  ℕ, ◌+◌, ◌%◌, ◌^◌, ◌>>>◌, bit_and, bit_or, bit_xor, ◌&&◌, List, ◌==◌, ltb, leb, truthy,
  if◌then◌else◌, u32, not32,
}
use whisper_yaffs.Ecc.Parity.{no_parity, parity_loop, count_bits, count_bits32}
use whisper_yaffs.Ecc.Block.{Correction, clean, corrected, uncorrectable, pairs_differ, flip}

pub record EccOther : Type 0 where
  pub col_parity : ℕ
  pub line_parity : ℕ
  pub line_parity_prime : ℕ

unfoldable pub calculate_other : List ℕ → (n_bytes : ℕ) → EccOther
calculate_other bytes n_bytes =
    let p = parity_loop u32 not32 n_bytes 0 bytes no_parity in
    record {
      col_parity = bit_and (p.col >>> 2) 0x3f;
      line_parity = p.line;
      line_parity_prime = p.line_prime;
    }

-- The digit that a column delta of six digits spells.
unfoldable pub other_bit : ℕ → ℕ
other_bit d =
    let b0 : ℕ = 0 in
    let b1 = if truthy (bit_and d 0x20) then bit_or b0 0x04 else b0 in
    let b2 = if truthy (bit_and d 0x08) then bit_or b1 0x02 else b1 in
    if truthy (bit_and d 0x02) then bit_or b2 0x01 else b2

unfoldable pub correct_other : List ℕ → (n_bytes : ℕ) → (read test : EccOther) → Correction EccOther
correct_other bytes n_bytes read test =
    let c_delta = bit_xor read.col_parity test.col_parity in
    let l_delta = bit_xor read.line_parity test.line_parity in
    let l_delta_prime = bit_xor read.line_parity_prime test.line_parity_prime in
    if bit_or (bit_or c_delta l_delta) l_delta_prime == 0
    then record { outcome = clean; bytes = bytes; read = read }
    else if l_delta == not32 l_delta_prime && pairs_differ 0x15 c_delta
    then (if leb n_bytes l_delta
        then record { outcome = uncorrectable; bytes = bytes; read = read }
        else record {
          outcome = corrected;
          bytes = flip bytes l_delta (other_bit c_delta);
          read = read;
        })
    else if count_bits32 l_delta + count_bits32 l_delta_prime + count_bits c_delta == 1
    then record { outcome = corrected; bytes = bytes; read = test }
    else record { outcome = uncorrectable; bytes = bytes; read = read }
