-- ===== src/Ecc/Block/Pairs.antt =====
-- The tests and the counts on a delta, read off its digits.
use whisper_yaffs.Prelude.{
  ℕ, ◌+◌, ◌-◌, ◌*◌, ◌/◌, ◌%◌, ◌^◌, ◌<◌, ◌≡◌, refl, Bool, true, ◌&&◌, arith, ◌==◌, all_below,
  all_below_sound, same, same_sound,
}
use whisper_yaffs.Ecc.Parity.{column}
use whisper_yaffs.Ecc.Block.{pairs_differ, error_byte, error_bit}
use whisper_yaffs.Ecc.Block.Lines.{digit, error_byte_sum}
use whisper_yaffs.Ecc.Block.Deltas.{Interleaves}

-- The digits of each of the three high pairs differ.
abbrev pub high_pairs : ℕ → Bool
high_pairs d =
    digit d 7 + digit d 6 == 1 && (digit d 5 + digit d 4 == 1 && digit d 3 + digit d 2 == 1)

abbrev pub all_pairs : ℕ → Bool
all_pairs d = digit d 1 + digit d 0 == 1 && high_pairs d

pairs_table :
    all_below 256
      (λ d. same (pairs_differ 0x55 d) (all_pairs d) && same (pairs_differ 0x54 d) (high_pairs d))
    ≡ true
unfolding all_below pairs_differ
pairs_table = refl

pub pairs_differ_lem :
    (d : ℕ) → d < 256 → (pairs_differ 0x55 d ≡ all_pairs d) × (pairs_differ 0x54 d ≡ high_pairs d)
pairs_differ_lem d h =
    let both =
      all_below_sound 256
        (λ x. same (pairs_differ 0x55 x) (all_pairs x) && same (pairs_differ 0x54 x) (high_pairs x))
        d pairs_table h in
    (same_sound _ _ (ground arith), same_sound _ _ (ground arith))

-- A line and its complement differ in each pair.
pub high_pairs_differ :
    (t u : ℕ) → u < 256 → Interleaves 4 t u (255 - u % 256) → pairs_differ 0x55 t ≡ true
high_pairs_differ t u h i = rw (pairs_differ_lem t i.0).0 (ground arith)

pub low_pairs_differ :
    (t u : ℕ) → u < 256 → Interleaves 0 t u (255 - u % 256) → pairs_differ 0x55 t ≡ true
low_pairs_differ t u h i = rw (pairs_differ_lem t i.0).0 (ground arith)

byte_digits :
    (u : ℕ)
    → u < 256
    → digit u 7 * 128
        + digit u 6 * 64
        + digit u 5 * 32
        + digit u 4 * 16
        + digit u 3 * 8
        + digit u 2 * 4
        + digit u 1 * 2
        + digit u 0
      ≡ u
byte_digits u h = omega arith

-- The line deltas spell the index.
pub Interleaves-error_byte :
    (d1 d0 u v : ℕ) → u < 256 → Interleaves 4 d1 u v → Interleaves 0 d0 u v → error_byte d1 d0 ≡ u
Interleaves-error_byte d1 d0 u v h i k =
    rw (error_byte_sum d1 d0, i.1, i.3, i.5, i.7, k.1, k.3, k.5, k.7) (byte_digits u h)

column_table :
    all_below 8 (λ k. let s = column (2 ^ k) / 4 * 4 in pairs_differ 0x54 s && error_bit s == k)
    ≡ true
unfolding all_below pairs_differ error_bit column
column_table = refl

-- The column of a single bit spells its digit.
pub column_delta :
    (k : ℕ)
    → k < 8
    → let s = column (2 ^ k) / 4 * 4 in (pairs_differ 0x54 s ≡ true) × (error_bit s ≡ k)
column_delta k h =
    let both =
      all_below_sound 8
        (λ j. pairs_differ 0x54 (column (2 ^ j) / 4 * 4) && error_bit (column (2 ^ j) / 4 * 4) == j)
        k column_table h in
    (ground arith, ground arith)
