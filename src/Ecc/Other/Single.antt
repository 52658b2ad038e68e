-- ===== src/Ecc/Other/Single.antt =====
-- `yaffs_ECCCorrectOther` mends one wrong bit, whatever the length of the buffer.
use whisper_yaffs.Prelude.{
  ℕ, ◌+◌, ◌/◌, ◌^◌, ◌≤◌, ◌<◌, bit_and, bit_xor, bit_or, ◌≡◌, refl, ap, ◌∙◌, true, false, ◌&&◌,
  arith, length, All, IsByte, List, ◌==◌, leb, ltb, u32, not32, all_below, all_below_sound,
}
use whisper_yaffs.Bits.{xor_delta, and_mask, half_xor, le-or_left, xor-lt}
use whisper_yaffs.Ecc.Parity.{no_parity, parity_loop, column}
use whisper_yaffs.Ecc.Parity.Flip.{
  InRange, delta, combine, column_bit-lt, parity_loop-flip, parity_loop-InRange,
}
use whisper_yaffs.Ecc.Block.{corrected, pairs_differ, flip}
use whisper_yaffs.Ecc.Block.Single.{flip_lem, flip-flip}
use whisper_yaffs.Ecc.Other.{EccOther, calculate_other, other_bit, correct_other}

other_table :
    all_below 8
      (λ k. let s = column (2 ^ k) / 2 / 2 in ltb 0 s && (pairs_differ 0x15 s && other_bit s == k))
    ≡ true
unfolding all_below pairs_differ other_bit column
other_table = refl

-- The column of a single bit, without its two lowest digits, spells the bit.
other_column :
    (k : ℕ)
    → k < 8
    → let s = column (2 ^ k) / 2 / 2 in (0 < s) × (pairs_differ 0x15 s ≡ true) × (other_bit s ≡ k)
other_column k h =
    let row =
      all_below_sound 8
        (λ j.
          let s = column (2 ^ j) / 2 / 2 in ltb 0 s && (pairs_differ 0x15 s && other_bit s == j))
        k other_table h in
    (ground arith, ground arith, ground arith)

six_digits : (c : ℕ) → c < 256 → bit_and (c / 4) 0x3f ≡ c / 2 / 2
six_digits c h = omega (arith, and_mask 6 (c / 4))

col_delta :
    (c s : ℕ)
    → c < 256
    → s < 256
    → bit_xor (bit_and (c / 4) 0x3f) (bit_and (bit_xor c s / 4) 0x3f) ≡ s / 2 / 2
col_delta c s p q =
    rw
      (
        six_digits c p,
        six_digits (bit_xor c s) (xor-lt 8 c s p q),
        half_xor c s,
        half_xor (c / 2) (s / 2),
      )
      (xor_delta (c / 2 / 2) (s / 2 / 2))

no_parity-InRange : InRange 32 no_parity
no_parity-InRange = omega arith

other_parity-flip :
    (bytes : List ℕ) (n j k : ℕ)
    → n ≤ length bytes
    → n ≤ 2 ^ 32
    → All IsByte bytes
    → j < n
    → k < 8
    → parity_loop u32 not32 n 0 (flip bytes j k) no_parity
      ≡ combine (parity_loop u32 not32 n 0 bytes no_parity) (delta 32 j k)
other_parity-flip bytes n j k hl hn hb hj hk =
    let start : 0 + j ≡ j = omega arith in
    rw (flip_lem bytes j k hb hk) (
      rw start at (
        parity_loop-flip 32 n 0 bytes j k no_parity hj (omega arith) hb hk (omega arith)
          no_parity-InRange))

correct_other-corrected :
    (bytes : List ℕ) (n : ℕ) (read test : EccOther) (j k s : ℕ)
    → bit_xor read.col_parity test.col_parity ≡ s
    → bit_xor read.line_parity test.line_parity ≡ j
    → bit_xor read.line_parity_prime test.line_parity_prime ≡ not32 j
    → j < n
    → j < 2 ^ 32
    → (0 < s) × (pairs_differ 0x15 s ≡ true) × (other_bit s ≡ k)
    → correct_other bytes n read test
      ≡ record { outcome = corrected; bytes = flip bytes j k; read = read }
unfolding correct_other
correct_other-corrected bytes n read test j k s ec el ep hj hw h =
    let d01 = bit_or s j in
    let differs : (bit_or d01 (not32 j) == 0) ≡ false =
      ground (arith, le-or_left s j, le-or_left d01 (not32 j), h.0) in
    let opposite : (j == not32 (not32 j)) ≡ true = ground arith in
    let within : leb n j ≡ false = ground arith in
    rw (ec, el, ep, differs, opposite, h.1, within, h.2)

-- One flipped bit in the `n` bytes that the code covers: the code read with the buffer and the code
-- calculated of the damaged buffer lead back to the buffer as it was.
pub correct_other-flip :
    (bytes : List ℕ) (n j k : ℕ)
    → n ≤ length bytes
    → n ≤ 2 ^ 32
    → All IsByte bytes
    → j < n
    → k < 8
    → let stored = calculate_other bytes n in
      let damaged = flip bytes j k in
      correct_other damaged n stored (calculate_other damaged n)
      ≡ record { outcome = corrected; bytes = bytes; read = stored }
unfolding calculate_other combine
correct_other-flip bytes n j k hl hn hb hj hk =
    let p = parity_loop u32 not32 n 0 bytes no_parity in
    let r = parity_loop-InRange 32 n 0 bytes no_parity no_parity-InRange in
    let damaged = flip bytes j k in
    let e = other_parity-flip bytes n j k hl hn hb hj hk in
    correct_other-corrected damaged n (calculate_other bytes n) (calculate_other damaged n) j k
      (column (2 ^ k) / 2 / 2) (rw e (col_delta p.col (column (2 ^ k)) r.col (column_bit-lt k hk)))
      (rw e (xor_delta p.line j)) (rw e (xor_delta p.line_prime (not32 j))) hj (omega arith)
      (other_column k hk)
    ∙ ap
        (λ (xs : List ℕ). record {
          outcome = corrected;
          bytes = xs;
          read = calculate_other bytes n;
        })
        (flip-flip bytes j k hb (omega arith) hk)
