-- ===== src/Tags/Yaffs1.antt =====
-- yaffs_tagscompat.c: the code over the tags of yaffs1. The tags are their 8 bytes; the place of the
-- 12-bit field of the code in them is the compiler's: `ecc_of` and `with_ecc` read and write it.
pub mod Flip
pub mod Mend
use whisper_yaffs.Prelude.{
  ℕ, zero, suc, ◌+◌, ◌-◌, ◌/◌, ◌<<<◌, bit_and, bit_xor, Bool, true, ◌&&◌, List, [], ◌∷◌, ◌==◌, leb,
  truthy, all_below, all_below_sound, ==_iff, take, drop, ◌≡◌, ◌<◌, refl, if◌then◌else◌, get_or,
}
use whisper_yaffs.Ecc.Parity.{count_bits, count_loop}
use whisper_yaffs.Ecc.Block.{EccBytes, calculate, Outcome, clean, corrected, uncorrectable, flip}

-- The inner loop of `yaffs_CalcTagsECC`: `n` digits of byte `x` from digit `j`, after `bit` bits.
unfoldable pub digits_loop : (n j x bit ecc : ℕ) → ℕ
digits_loop zero j x bit ecc = ecc
digits_loop (suc n) j x bit ecc =
    digits_loop n (j + 1) x (bit + 1)
      (if truthy (bit_and x (1 <<< j)) then bit_xor ecc (bit + 1) else ecc)

-- The outer loop, over the bytes.
unfoldable pub bytes_loop : List ℕ → (bit ecc : ℕ) → ℕ
bytes_loop [] bit ecc = ecc
bytes_loop (x ∷ xs) bit ecc = bytes_loop xs (bit + 8) (digits_loop 8 0 x bit ecc)

-- `yaffs_countBitsTable` and `yaffs_CountBits`.
unfoldable pub count_bits_table : List ℕ
count_bits_table =
    0 ∷ 1 ∷ 1 ∷ 2 ∷ 1 ∷ 2 ∷ 2 ∷ 3 ∷ 1 ∷ 2 ∷ 2 ∷ 3 ∷ 2 ∷ 3 ∷ 3 ∷ 4 ∷ 1 ∷ 2 ∷ 2 ∷ 3 ∷ 2 ∷ 3 ∷ 3 ∷ 4
    ∷ 2 ∷ 3 ∷ 3 ∷ 4 ∷ 3 ∷ 4 ∷ 4 ∷ 5 ∷ 1 ∷ 2 ∷ 2 ∷ 3 ∷ 2 ∷ 3 ∷ 3 ∷ 4 ∷ 2 ∷ 3 ∷ 3 ∷ 4 ∷ 3 ∷ 4 ∷ 4 ∷ 5
    ∷ 2 ∷ 3 ∷ 3 ∷ 4 ∷ 3 ∷ 4 ∷ 4 ∷ 5 ∷ 3 ∷ 4 ∷ 4 ∷ 5 ∷ 4 ∷ 5 ∷ 5 ∷ 6 ∷ 1 ∷ 2 ∷ 2 ∷ 3 ∷ 2 ∷ 3 ∷ 3 ∷ 4
    ∷ 2 ∷ 3 ∷ 3 ∷ 4 ∷ 3 ∷ 4 ∷ 4 ∷ 5 ∷ 2 ∷ 3 ∷ 3 ∷ 4 ∷ 3 ∷ 4 ∷ 4 ∷ 5 ∷ 3 ∷ 4 ∷ 4 ∷ 5 ∷ 4 ∷ 5 ∷ 5 ∷ 6
    ∷ 2 ∷ 3 ∷ 3 ∷ 4 ∷ 3 ∷ 4 ∷ 4 ∷ 5 ∷ 3 ∷ 4 ∷ 4 ∷ 5 ∷ 4 ∷ 5 ∷ 5 ∷ 6 ∷ 3 ∷ 4 ∷ 4 ∷ 5 ∷ 4 ∷ 5 ∷ 5 ∷ 6
    ∷ 4 ∷ 5 ∷ 5 ∷ 6 ∷ 5 ∷ 6 ∷ 6 ∷ 7 ∷ 1 ∷ 2 ∷ 2 ∷ 3 ∷ 2 ∷ 3 ∷ 3 ∷ 4 ∷ 2 ∷ 3 ∷ 3 ∷ 4 ∷ 3 ∷ 4 ∷ 4 ∷ 5
    ∷ 2 ∷ 3 ∷ 3 ∷ 4 ∷ 3 ∷ 4 ∷ 4 ∷ 5 ∷ 3 ∷ 4 ∷ 4 ∷ 5 ∷ 4 ∷ 5 ∷ 5 ∷ 6 ∷ 2 ∷ 3 ∷ 3 ∷ 4 ∷ 3 ∷ 4 ∷ 4 ∷ 5
    ∷ 3 ∷ 4 ∷ 4 ∷ 5 ∷ 4 ∷ 5 ∷ 5 ∷ 6 ∷ 3 ∷ 4 ∷ 4 ∷ 5 ∷ 4 ∷ 5 ∷ 5 ∷ 6 ∷ 4 ∷ 5 ∷ 5 ∷ 6 ∷ 5 ∷ 6 ∷ 6 ∷ 7
    ∷ 2 ∷ 3 ∷ 3 ∷ 4 ∷ 3 ∷ 4 ∷ 4 ∷ 5 ∷ 3 ∷ 4 ∷ 4 ∷ 5 ∷ 4 ∷ 5 ∷ 5 ∷ 6 ∷ 3 ∷ 4 ∷ 4 ∷ 5 ∷ 4 ∷ 5 ∷ 5 ∷ 6
    ∷ 4 ∷ 5 ∷ 5 ∷ 6 ∷ 5 ∷ 6 ∷ 6 ∷ 7 ∷ 3 ∷ 4 ∷ 4 ∷ 5 ∷ 4 ∷ 5 ∷ 5 ∷ 6 ∷ 4 ∷ 5 ∷ 5 ∷ 6 ∷ 5 ∷ 6 ∷ 6 ∷ 7
    ∷ 4 ∷ 5 ∷ 5 ∷ 6 ∷ 5 ∷ 6 ∷ 6 ∷ 7 ∷ 5 ∷ 6 ∷ 6 ∷ 7 ∷ 6 ∷ 7 ∷ 7 ∷ 8 ∷ []

unfoldable pub table_count_bits : ℕ → ℕ
table_count_bits x = get_or count_bits_table x 0

-- `yaffs_CalcECC`: the codes of the two halves of a chunk of 512 bytes.
unfoldable pub calc_ecc : (wrong_order : Bool) → List ℕ → EccBytes × EccBytes
calc_ecc wrong_order chunk =
    (calculate wrong_order (take 256 chunk), calculate wrong_order (drop 256 chunk))

table_rows : all_below 256 (λ x. table_count_bits x == count_bits x) ≡ true
unfolding all_below table_count_bits count_bits_table count_bits count_loop
table_rows = refl

-- On every byte, the table of yaffs_tagscompat.c agrees with the loop of yaffs_ecc.c that counts bits.
pub table_count_bits-count_bits : (x : ℕ) → x < 256 → table_count_bits x ≡ count_bits x
table_count_bits-count_bits x h =
    (==_iff (table_count_bits x) (count_bits x)).0
      (all_below_sound 256 (λ y. table_count_bits y == count_bits y) x table_rows h)

module _ (ecc_of : List ℕ → ℕ) (with_ecc : List ℕ → ℕ → List ℕ) where
  -- `yaffs_CalcTagsECC`: the code over the tags with the field cleared, stored in the field.
  unfoldable pub calc_tags_ecc : List ℕ → List ℕ
  calc_tags_ecc b = with_ecc b (bytes_loop (with_ecc b 0) 0 0)

  -- `yaffs_CheckECCOnTags`: the result and the tags.
  unfoldable pub check_ecc_on_tags : List ℕ → Outcome × List ℕ
  check_ecc_on_tags b =
      let fresh = calc_tags_ecc b in
      let ecc = bit_xor (ecc_of b) (ecc_of fresh) in
      if truthy ecc && leb ecc 64
      then (corrected, calc_tags_ecc (flip fresh ((ecc - 1) / 8) (bit_and (ecc - 1) 7)))
      else if truthy ecc
      then (uncorrectable, fresh)
      else (clean, fresh)
