-- ===== src/Ecc/Block.antt =====
-- `yaffs_ECCCalculate` and `yaffs_ECCCorrect`. The parameter is the build's choice
-- CONFIG_YAFFS_ECC_WRONG_ORDER.
pub mod Lines
pub mod Deltas
pub mod Pairs
pub mod Single
pub mod Multiple
pub mod Code
use whisper_yaffs.Prelude.{
  ℕ, ◌+◌, ◌*◌, ◌/◌, ◌^◌, ◌<<<◌, ◌>>>◌, bit_and, bit_or, bit_xor, Bool, true, false, ◌&&◌, List,
  ◌==◌, truthy, if◌then◌else◌, get_or, set, u8, not8,
}
use whisper_yaffs.Ecc.Parity.{Parity, no_parity, parity_loop, count_bits}

-- The three bytes of an ECC.
pub record EccBytes : Type 0 where
  pub e0 : ℕ
  pub e1 : ℕ
  pub e2 : ℕ

-- The results 0, 1 and -1.
pub data Outcome : Type 0 where
  clean corrected uncorrectable : Outcome

-- What a correction leaves behind: its result, the data and the ECC that was read.
pub record Correction (E : Type 0) : Type 0 where
  pub outcome : Outcome
  pub bytes : List ℕ
  pub read : E

unfoldable pub block_parity : List ℕ → Parity
block_parity bytes = parity_loop u8 not8 256 0 bytes no_parity

-- The byte `t` of digits 7 to 4 of both line parities, before its complement.
unfoldable pub high_lines : (line line_prime : ℕ) → ℕ
high_lines line line_prime =
    let t0 : ℕ = 0 in
    let t1 = if truthy (bit_and line 0x80) then bit_or t0 0x80 else t0 in
    let t2 = if truthy (bit_and line_prime 0x80) then bit_or t1 0x40 else t1 in
    let t3 = if truthy (bit_and line 0x40) then bit_or t2 0x20 else t2 in
    let t4 = if truthy (bit_and line_prime 0x40) then bit_or t3 0x10 else t3 in
    let t5 = if truthy (bit_and line 0x20) then bit_or t4 0x08 else t4 in
    let t6 = if truthy (bit_and line_prime 0x20) then bit_or t5 0x04 else t5 in
    let t7 = if truthy (bit_and line 0x10) then bit_or t6 0x02 else t6 in
    if truthy (bit_and line_prime 0x10) then bit_or t7 0x01 else t7

-- The same for digits 3 to 0.
unfoldable pub low_lines : (line line_prime : ℕ) → ℕ
low_lines line line_prime =
    let t0 : ℕ = 0 in
    let t1 = if truthy (bit_and line 0x08) then bit_or t0 0x80 else t0 in
    let t2 = if truthy (bit_and line_prime 0x08) then bit_or t1 0x40 else t1 in
    let t3 = if truthy (bit_and line 0x04) then bit_or t2 0x20 else t2 in
    let t4 = if truthy (bit_and line_prime 0x04) then bit_or t3 0x10 else t3 in
    let t5 = if truthy (bit_and line 0x02) then bit_or t4 0x08 else t4 in
    let t6 = if truthy (bit_and line_prime 0x02) then bit_or t5 0x04 else t5 in
    let t7 = if truthy (bit_and line 0x01) then bit_or t6 0x02 else t6 in
    if truthy (bit_and line_prime 0x01) then bit_or t7 0x01 else t7

-- The index that the line deltas `d1` and `d0` spell.
unfoldable pub error_byte : (d1 d0 : ℕ) → ℕ
error_byte d1 d0 =
    let b0 : ℕ = 0 in
    let b1 = if truthy (bit_and d1 0x80) then bit_or b0 0x80 else b0 in
    let b2 = if truthy (bit_and d1 0x20) then bit_or b1 0x40 else b1 in
    let b3 = if truthy (bit_and d1 0x08) then bit_or b2 0x20 else b2 in
    let b4 = if truthy (bit_and d1 0x02) then bit_or b3 0x10 else b3 in
    let b5 = if truthy (bit_and d0 0x80) then bit_or b4 0x08 else b4 in
    let b6 = if truthy (bit_and d0 0x20) then bit_or b5 0x04 else b5 in
    let b7 = if truthy (bit_and d0 0x08) then bit_or b6 0x02 else b6 in
    if truthy (bit_and d0 0x02) then bit_or b7 0x01 else b7

-- The digit that a column delta spells.
unfoldable pub error_bit : ℕ → ℕ
error_bit d2 =
    let b0 : ℕ = 0 in
    let b1 = if truthy (bit_and d2 0x80) then bit_or b0 0x04 else b0 in
    let b2 = if truthy (bit_and d2 0x20) then bit_or b1 0x02 else b1 in
    if truthy (bit_and d2 0x08) then bit_or b2 0x01 else b2

-- `((d ^ (d >> 1)) & mask) == mask`: the digits of each pair differ.
unfoldable pub pairs_differ : (mask d : ℕ) → Bool
pairs_differ mask d = bit_and (bit_xor d (d >>> 1)) mask == mask

-- `data[byte] ^= (1 << bit)`.
unfoldable pub flip : List ℕ → (byte bit : ℕ) → List ℕ
flip bytes byte bit = set bytes byte (u8 (bit_xor (get_or bytes byte 0) (1 <<< bit)))

module _ (wrong_order : Bool) where
  unfoldable pub encode : Parity → EccBytes
  encode p =
      let hi = not8 (high_lines p.line p.line_prime) in
      let lo = not8 (low_lines p.line p.line_prime) in
      record {
        e0 = if wrong_order then hi else lo;
        e1 = if wrong_order then lo else hi;
        e2 = bit_or (not8 p.col) 0x03;
      }

  unfoldable pub calculate : List ℕ → EccBytes
  calculate bytes = encode (block_parity bytes)

  unfoldable pub correct : List ℕ → (read test : EccBytes) → Correction EccBytes
  correct bytes read test =
      let d0 = bit_xor read.e0 test.e0 in
      let d1 = bit_xor read.e1 test.e1 in
      let d2 = bit_xor read.e2 test.e2 in
      if bit_or (bit_or d0 d1) d2 == 0
      then record { outcome = clean; bytes = bytes; read = read }
      else if pairs_differ 0x55 d0 && (pairs_differ 0x55 d1 && pairs_differ 0x54 d2)
      then record {
        outcome = corrected;
        bytes =
            flip bytes (if wrong_order then error_byte d0 d1 else error_byte d1 d0) (error_bit d2);
        read = read;
      }
      else if count_bits d0 + count_bits d1 + count_bits d2 == 1
      then record { outcome = corrected; bytes = bytes; read = test }
      else record { outcome = uncorrectable; bytes = bytes; read = read }
