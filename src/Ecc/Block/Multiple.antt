-- ===== src/Ecc/Block/Multiple.antt =====
-- `yaffs_ECCCorrect` on two wrong bits of a block, and on a wrong bit of the code itself.
use whisper_yaffs.Prelude.{
  ℕ, zero, suc, ◌+◌, ◌*◌, ◌/◌, ◌%◌, ◌^◌, ◌<◌, bit_xor, bit_or, ◌≡◌, ◌≢◌, ◌⊎◌, inl, inr, refl, sym,
  ap, ◌∙◌, Bool, true, false, ◌&&◌, ◌||◌, not, arith, length, All, IsByte, List, ◌==◌, all_below,
  all_below_sound, not8,
}
use whisper_yaffs.Bits.{xor_assoc, xor-lt, xor_delta, xor-zero_right, le-or_left, le-or_right}
use whisper_yaffs.Ecc.Parity.{Parity, column, count_bits}
use whisper_yaffs.Ecc.Parity.Flip.{InRange, delta, combine, column_bit-lt}
use whisper_yaffs.Ecc.Block.{
  uncorrectable, EccBytes, high_lines, low_lines, block_parity, encode, calculate, correct, flip,
  pairs_differ, error_byte,
}
use whisper_yaffs.Ecc.Block.Lines.{digit}
use whisper_yaffs.Ecc.Block.Deltas.{Interleaves, high_delta, low_delta, col_delta, xor_not8}
use whisper_yaffs.Ecc.Block.Pairs.{Interleaves-error_byte}
use whisper_yaffs.Ecc.Block.Single.{
  block_parity-flip, block_parity-InRange, flip-IsByte, flip-length,
}

-- The digits of each pair agree.
abbrev equal_pairs : ℕ → Bool
equal_pairs d =
    digit d 7 == digit d 6
    && (digit d 5 == digit d 4 && (digit d 3 == digit d 2 && digit d 1 == digit d 0))

even_table : all_below 256 (λ d. not (equal_pairs d) || count_bits d % 2 == 0) ≡ true
unfolding all_below count_bits
even_table = refl

-- A delta whose pairs agree has an even number of ones.
count_bits_even : (d : ℕ) → d < 256 → equal_pairs d ≡ true → count_bits d % 2 ≡ 0
count_bits_even d h e =
    let row =
      all_below_sound 256 (λ x. not (equal_pairs x) || count_bits x % 2 == 0) d even_table h in
    ground arith

unpaired_table : all_below 256 (λ d. not (equal_pairs d) || not (pairs_differ 0x55 d)) ≡ true
unfolding all_below pairs_differ
unpaired_table = refl

unpaired : (d : ℕ) → d < 256 → equal_pairs d ≡ true → pairs_differ 0x55 d ≡ false
unpaired d h e =
    let row =
      all_below_sound 256 (λ x. not (equal_pairs x) || not (pairs_differ 0x55 x)) d unpaired_table
        h in
    ground arith

abbrev column_pair : ℕ → ℕ → ℕ
column_pair k l = bit_xor (column (2 ^ k)) (column (2 ^ l)) / 4 * 4

column_pair_table :
    all_below 8 (λ k.
      all_below 8
        (λ l. (k == l || not (column_pair k l == 0)) && count_bits (column_pair k l) % 2 == 0))
    ≡ true
unfolding all_below count_bits column
column_pair_table = refl

-- Two columns differ in an even number of digits, and in some if they are of two bits.
column_pair_lem :
    (k l : ℕ)
    → k < 8
    → l < 8
    → (count_bits (column_pair k l) % 2 ≡ 0) × (k ≢ l → 0 < column_pair k l)
column_pair_lem k l p q =
    let test = λ (x y : ℕ).
      (x == y || not (column_pair x y == 0)) && count_bits (column_pair x y) % 2 == 0 in
    let row =
      all_below_sound 8 (test k) l
        (all_below_sound 8 (λ x. all_below 8 (test x)) k column_pair_table p) q in
    (ground arith, λ ne. ground arith)

Interleaves-equal_pairs : (s t u : ℕ) → Interleaves s t u u → equal_pairs t ≡ true
Interleaves-equal_pairs s t u i = ground arith

-- Where the first pair test fails and the ones are not a single one, nothing is changed.
correct-uncorrectable :
    (wrong_order : Bool) (bytes : List ℕ) (read test : EccBytes)
    → let d0 = bit_xor read.e0 test.e0 in
      let d1 = bit_xor read.e1 test.e1 in
      let d2 = bit_xor read.e2 test.e2 in
      (0 < d0) ⊎ (0 < d1) ⊎ (0 < d2)
      → pairs_differ 0x55 d0 ≡ false
      → (count_bits d0 + count_bits d1 + count_bits d2) % 2 ≡ 0
      → correct wrong_order bytes read test
        ≡ record { outcome = uncorrectable; bytes = bytes; read = read }
unfolding correct
correct-uncorrectable wrong_order bytes read test some_delta p0 even =
    let d0 = bit_xor read.e0 test.e0 in
    let d1 = bit_xor read.e1 test.e1 in
    let d2 = bit_xor read.e2 test.e2 in
    let differs : (bit_or (bit_or d0 d1) d2 == 0) ≡ false = ground (
      arith,
      le-or_left d0 d1,
      le-or_right d0 d1,
      le-or_left (bit_or d0 d1) d2,
      le-or_right (bit_or d0 d1) d2,
    ) in
    let more : (count_bits d0 + count_bits d1 + count_bits d2 == 1) ≡ false = ground arith in
    rw (differs, p0, more)

-- The change of the parities that two flips make together.
abbrev both_flips : (j k j' l : ℕ) → Parity
both_flips j k j' l = record {
  col = bit_xor (column (2 ^ k)) (column (2 ^ l));
  line = bit_xor j j';
  line_prime = bit_xor j j';
}

combine_twice :
    (p : Parity) (j k j' l : ℕ)
    → j < 256
    → j' < 256
    → combine (combine p (delta 8 j k)) (delta 8 j' l) ≡ combine p (both_flips j k j' l)
unfolding combine
combine_twice p j k j' l h h' = λ i. record {
  col = xor_assoc p.col (column (2 ^ k)) (column (2 ^ l)) i;
  line = xor_assoc p.line j j' i;
  line_prime =
      (xor_assoc p.line_prime (not8 j) (not8 j') ∙ ap (bit_xor p.line_prime) (xor_not8 j j' h h'))
        i;
}

delta-pos :
    (d1 d0 u : ℕ)
    → u < 256
    → 0 < u
    → Interleaves 4 d1 u u
    → Interleaves 0 d0 u u
    → (0 < d1) ⊎ (0 < d0)
unfolding error_byte
delta-pos d1 d0 u h pos i k = go d1 d0 (Interleaves-error_byte d1 d0 u u h i k)
  where
    go : (x y : ℕ) → error_byte x y ≡ u → (0 < x) ⊎ (0 < y)
    go zero zero e = absurd (omega (arith, e))
    go zero (suc y) e = inr (omega arith)
    go (suc x) y e = inl (omega arith)

xor-pos : (a b : ℕ) → a ≢ b → 0 < bit_xor a b
xor-pos a b ne = go (bit_xor a b) refl
  where
    go : (x : ℕ) → bit_xor a b ≡ x → 0 < x
    go zero e = absurd (ne (sym (xor-zero_right a) ∙ ap (bit_xor a) (sym e) ∙ xor_delta a b))
    go (suc x) e = omega arith

module _ (p : Parity) (r : InRange 8 p) (j k j' l : ℕ) (hj : j < 256) (hk : k < 8) (hj' : j' < 256)
    (hl : l < 8) (ne : (j ≢ j') ⊎ (k ≢ l)) where
  abbrev flipped : Parity
  flipped = combine p (both_flips j k j' l)

  abbrev hi : ℕ
  hi =
      bit_xor (not8 (high_lines p.line p.line_prime))
        (not8 (high_lines (bit_xor p.line (bit_xor j j')) (bit_xor p.line_prime (bit_xor j j'))))

  abbrev lo : ℕ
  lo =
      bit_xor (not8 (low_lines p.line p.line_prime))
        (not8 (low_lines (bit_xor p.line (bit_xor j j')) (bit_xor p.line_prime (bit_xor j j'))))

  hi-Interleaves : Interleaves 4 hi (bit_xor j j') (bit_xor j j')
  hi-Interleaves = high_delta p.line p.line_prime (bit_xor j j') (bit_xor j j')

  lo-Interleaves : Interleaves 0 lo (bit_xor j j') (bit_xor j j')
  lo-Interleaves = low_delta p.line p.line_prime (bit_xor j j') (bit_xor j j')

  lines_pos : (j ≢ j') → (0 < hi) ⊎ (0 < lo)
  lines_pos other =
      delta-pos hi lo (bit_xor j j') (xor-lt 8 j j' hj hj') (xor-pos j j' other) hi-Interleaves
        lo-Interleaves

  some_delta : (0 < hi) ⊎ (0 < lo) ⊎ (0 < column_pair k l)
  some_delta = elim ne [
    | inl other ↦ elim (lines_pos other) [ inl h ↦ inl h | inr h ↦ inr (inl h) ]
    | inr other ↦ inr (inr ((column_pair_lem k l hk hl).1 other))
  ]

  even_delta : (count_bits hi + count_bits lo + count_bits (column_pair k l)) % 2 ≡ 0
  even_delta = omega (
    arith,
    count_bits_even hi hi-Interleaves.0 (Interleaves-equal_pairs 4 hi _ hi-Interleaves),
    count_bits_even lo lo-Interleaves.0 (Interleaves-equal_pairs 0 lo _ lo-Interleaves),
    (column_pair_lem k l hk hl).0,
  )

  col_pair : bit_xor (bit_or (not8 p.col) 0x03) (bit_or (not8 flipped.col) 0x03) ≡ column_pair k l
  unfolding combine
  col_pair =
      col_delta p.col (bit_xor (column (2 ^ k)) (column (2 ^ l))) r.col
        (xor-lt 8 _ _ (column_bit-lt k hk) (column_bit-lt l hl))

  correct-encode_twice :
      (wrong_order : Bool) (bytes : List ℕ)
      → let read = encode wrong_order p in
        correct wrong_order bytes read (encode wrong_order flipped)
        ≡ record { outcome = uncorrectable; bytes = bytes; read = read }
  unfolding encode combine
  correct-encode_twice true bytes =
      correct-uncorrectable true bytes (encode true p) (encode true flipped)
        (rw col_pair some_delta)
        (unpaired hi hi-Interleaves.0 (Interleaves-equal_pairs 4 hi _ hi-Interleaves))
        (rw col_pair even_delta)
  correct-encode_twice false bytes =
      correct-uncorrectable false bytes (encode false p) (encode false flipped)
        (rw col_pair (elim some_delta [
          | inl h ↦ inr (inl h)
          | inr (inl h) ↦ inl h
          | inr (inr h) ↦ inr (inr h)
        ]))
        (unpaired lo lo-Interleaves.0 (Interleaves-equal_pairs 0 lo _ lo-Interleaves))
        (rw col_pair (omega (arith, even_delta)))

-- Two flipped bits in a block are detected, and nothing is changed.
pub correct-flip_twice :
    (wrong_order : Bool) (bytes : List ℕ) (j k j' l : ℕ)
    → length bytes ≡ 256
    → All IsByte bytes
    → j < 256
    → k < 8
    → j' < 256
    → l < 8
    → (j ≢ j') ⊎ (k ≢ l)
    → let stored = calculate wrong_order bytes in
      let damaged = flip (flip bytes j k) j' l in
      correct wrong_order damaged stored (calculate wrong_order damaged)
      ≡ record { outcome = uncorrectable; bytes = damaged; read = stored }
unfolding calculate
correct-flip_twice wrong_order bytes j k j' l h hb hj hk hj' hl ne =
    rw
      (
        block_parity-flip (flip bytes j k) j' l (flip-length bytes j k ∙ h)
            (flip-IsByte bytes j k hb) hj' hl,
        block_parity-flip bytes j k h hb hj hk,
        combine_twice (block_parity bytes) j k j' l hj hj',
      )
      (correct-encode_twice (block_parity bytes) (block_parity-InRange bytes) j k j' l hj hk hj' hl
        ne wrong_order (flip (flip bytes j k) j' l))
