-- ===== src/Ecc/Block/Single.antt =====
-- `yaffs_ECCCorrect` mends one wrong bit of a block.
use native.Mathlib.Nat.{mod-eq_of_lt}
use whisper_yaffs.Bits.{xor-lt, xor_cancel, two_pow-lt, le-or_right}
use whisper_yaffs.Prelude.{
  All-set, All-get_or, get_or-set_self, set-set, set-get_or, length-set, ℕ, ◌+◌, ◌-◌, ◌*◌, ◌/◌, ◌%◌,
  ◌^◌, ◌<◌, bit_xor, bit_or, ◌≡◌, ap, ◌∙◌, Bool, true, false, arith, length, get_or, set, All,
  IsByte, List, ◌==◌, if◌then◌else◌,
}
use whisper_yaffs.Ecc.Parity.{Parity, no_parity, column}
use whisper_yaffs.Ecc.Parity.Flip.{
  InRange, delta, column_bit-lt, combine, parity_loop-flip, parity_loop-InRange,
}
use whisper_yaffs.Ecc.Block.Deltas.{high_delta, low_delta, col_delta}
use whisper_yaffs.Ecc.Block.Pairs.{
  high_pairs_differ, low_pairs_differ, Interleaves-error_byte, column_delta, pairs_differ_lem,
}
use whisper_yaffs.Ecc.Block.{
  corrected, EccBytes, block_parity, encode, calculate, correct, flip, error_byte, error_bit,
  pairs_differ,
}

no_parity-InRange : InRange 8 no_parity
no_parity-InRange = omega arith

get_or-IsByte : (xs : List ℕ) (j : ℕ) → All IsByte xs → get_or xs j 0 < 256
get_or-IsByte xs j h = All-get_or IsByte xs j 0 h (omega arith)

-- The cast of the flipped byte changes nothing.
pub flip_lem :
    (xs : List ℕ) (j k : ℕ)
    → All IsByte xs
    → k < 8
    → flip xs j k ≡ set xs j (bit_xor (get_or xs j 0) (2 ^ k))
unfolding flip
flip_lem xs j k h q =
    let one : 1 * 2 ^ k ≡ 2 ^ k = omega arith in
    rw (
      one,
      mod-eq_of_lt (xor-lt 8 (get_or xs j 0) (2 ^ k) (get_or-IsByte xs j h) (two_pow-lt k 8 q)),
    )

pub flip-IsByte : (xs : List ℕ) (j k : ℕ) → All IsByte xs → All IsByte (flip xs j k)
unfolding flip
flip-IsByte xs j k h = All-set IsByte xs j _ h (omega arith)

pub flip-length : (xs : List ℕ) (j k : ℕ) → length (flip xs j k) ≡ length xs
unfolding flip
flip-length xs j k = length-set xs j _

-- Flipping a bit twice gives the buffer back.
pub flip-flip :
    (xs : List ℕ) (j k : ℕ) → All IsByte xs → j < length xs → k < 8 → flip (flip xs j k) j k ≡ xs
flip-flip xs j k h p q =
    rw
      (
        flip_lem (flip xs j k) j k (flip-IsByte xs j k h) q,
        flip_lem xs j k h q,
        get_or-set_self xs j (bit_xor (get_or xs j 0) (2 ^ k)) 0 p,
        xor_cancel (get_or xs j 0) (2 ^ k),
        set-set xs j (bit_xor (get_or xs j 0) (2 ^ k)) (get_or xs j 0),
      )
      (set-get_or xs j 0 p)

pub block_parity-InRange : (bytes : List ℕ) → InRange 8 (block_parity bytes)
unfolding block_parity
block_parity-InRange bytes = parity_loop-InRange 8 256 0 bytes no_parity no_parity-InRange

pub block_parity-flip :
    (bytes : List ℕ) (j k : ℕ)
    → length bytes ≡ 256
    → All IsByte bytes
    → j < 256
    → k < 8
    → block_parity (flip bytes j k) ≡ combine (block_parity bytes) (delta 8 j k)
unfolding block_parity
block_parity-flip bytes j k hl hb hj hk =
    let start : 0 + j ≡ j = omega arith in
    rw (flip_lem bytes j k hb hk) (
      rw start at (
        parity_loop-flip 8 256 0 bytes j k no_parity hj (omega arith) hb hk (omega arith)
          no_parity-InRange))

-- When the deltas pass the three tests, the bit that they spell is flipped.
correct-corrected :
    (wrong_order : Bool) (bytes : List ℕ) (read test : EccBytes) (j k : ℕ)
    → let d0 = bit_xor read.e0 test.e0 in
      let d1 = bit_xor read.e1 test.e1 in
      let d2 = bit_xor read.e2 test.e2 in
      0 < d2
      → pairs_differ 0x55 d0 ≡ true
      → pairs_differ 0x55 d1 ≡ true
      → pairs_differ 0x54 d2 ≡ true
      → (if wrong_order then error_byte d0 d1 else error_byte d1 d0) ≡ j
      → error_bit d2 ≡ k
      → correct wrong_order bytes read test
        ≡ record { outcome = corrected; bytes = flip bytes j k; read = read }
unfolding correct
correct-corrected wrong_order bytes read test j k some_delta p0 p1 p2 ej ek =
    let d01 = bit_or (bit_xor read.e0 test.e0) (bit_xor read.e1 test.e1) in
    let d2 = bit_xor read.e2 test.e2 in
    let differs : (bit_or d01 d2 == 0) ≡ false = ground (arith, le-or_right d01 d2) in
    rw (differs, p0, p1, p2, ej, ek)

column_delta-pos : (k : ℕ) → k < 8 → 0 < column (2 ^ k) / 4 * 4
column_delta-pos k h =
    let s = column (2 ^ k) / 4 * 4 in
    let small : s < 256 = omega (arith, column_bit-lt k h) in
    ground (arith, (pairs_differ_lem s small).1, (column_delta k h).0)

module _ (p : Parity) (r : InRange 8 p) (j k : ℕ) (hj : j < 256) (hk : k < 8) where
  abbrev flipped : Parity
  flipped = combine p (delta 8 j k)

  -- The codes of parities that differ by one flip.
  correct-encode :
      (wrong_order : Bool) (bytes : List ℕ)
      → let read = encode wrong_order p in
        correct wrong_order bytes read (encode wrong_order flipped)
        ≡ record { outcome = corrected; bytes = flip bytes j k; read = read }
  unfolding encode combine
  correct-encode true bytes =
      let v = 255 - j % 256 in
      let hi = high_delta p.line p.line_prime j v in
      let lo = low_delta p.line p.line_prime j v in
      let c = col_delta p.col (column (2 ^ k)) r.col (column_bit-lt k hk) in
      correct-corrected true bytes (encode true p) (encode true flipped) j k
        (rw c (column_delta-pos k hk)) (high_pairs_differ _ j hj hi) (low_pairs_differ _ j hj lo)
        (rw c (column_delta k hk).0) (Interleaves-error_byte _ _ j v hj hi lo)
        (rw c (column_delta k hk).1)
  correct-encode false bytes =
      let v = 255 - j % 256 in
      let hi = high_delta p.line p.line_prime j v in
      let lo = low_delta p.line p.line_prime j v in
      let c = col_delta p.col (column (2 ^ k)) r.col (column_bit-lt k hk) in
      correct-corrected false bytes (encode false p) (encode false flipped) j k
        (rw c (column_delta-pos k hk)) (low_pairs_differ _ j hj lo) (high_pairs_differ _ j hj hi)
        (rw c (column_delta k hk).0) (Interleaves-error_byte _ _ j v hj hi lo)
        (rw c (column_delta k hk).1)

-- One flipped bit in 256 bytes: the ECC read with the block and the ECC calculated of the damaged
-- block lead back to the block as it was.
pub correct-flip :
    (wrong_order : Bool) (bytes : List ℕ) (j k : ℕ)
    → length bytes ≡ 256
    → All IsByte bytes
    → j < 256
    → k < 8
    → let stored = calculate wrong_order bytes in
      let damaged = flip bytes j k in
      correct wrong_order damaged stored (calculate wrong_order damaged)
      ≡ record { outcome = corrected; bytes = bytes; read = stored }
unfolding calculate
correct-flip wrong_order bytes j k hl hb hj hk = rw (block_parity-flip bytes j k hl hb hj hk) (
    correct-encode (block_parity bytes) (block_parity-InRange bytes) j k hj hk wrong_order
      (flip bytes j k)
    ∙ ap
        (λ (xs : List ℕ). record {
          outcome = corrected;
          bytes = xs;
          read = encode wrong_order (block_parity bytes);
        })
        (flip-flip bytes j k hb (omega arith) hk))
