-- ===== src/Bitmap/Tests.antt =====
-- The bitmap operations on a device with two blocks of ten chunks.
use whisper_yaffs.Prelude.{
  ℕ, Bool, ◌*◌, ◌≡◌, refl, true, false, [], ◌∷◌, none, some, arith, ◌==◌, ltb, if◌then◌else◌,
}
use whisper_yaffs.Bitmap.{
  Bitmap, set_chunk_bit, clear_chunk_bit, check_chunk_bit, clear_chunk_bits, count_chunk_bits,
  still_some_chunk_bits, chunk_byte, chunk_mask,
}
use whisper_yaffs.Bitmap.View.{
  IsValid, HasChunk, view, Updates, set_chunk_bit-Updates, clear_chunk_bit-Updates,
}
use whisper_yaffs.Bitmap.Check.{Reads, check-set_chunk_bit}
use whisper_yaffs.Bitmap.Count.{
  tally, count_chunk_bits-tally, still_some_chunk_bits-tally, clear_chunk_bits-view,
}

abbrev sample : Bitmap
sample = record {
  start_block = 1;
  end_block = 2;
  chunks_per_block = 10;
  stride = 2;
  chunk_bits = 0x81 ∷ 0 ∷ 0xff ∷ 0x02 ∷ [];
}

sample-IsValid : IsValid sample
sample-IsValid = record { room = omega arith; sized = refl; bytes = omega arith }

sample-HasChunk : HasChunk sample 2 8
sample-HasChunk = record { first = omega arith; last = omega arith; chunk = omega arith }

check_tests :
    (check_chunk_bit sample 1 7 ≡ some true)
    × (check_chunk_bit sample 2 8 ≡ some false)
    × (check_chunk_bit sample 1 10 ≡ none)
    × (check_chunk_bit sample 3 0 ≡ none)
unfolding check_chunk_bit chunk_byte chunk_mask
check_tests = (refl, refl, refl, refl)

set_chunk_bit-Updates_example :
    (m' : Bitmap) × (set_chunk_bit sample 2 8 ≡ some m') × Updates sample 2 8 true m'
set_chunk_bit-Updates_example = set_chunk_bit-Updates sample-IsValid sample-HasChunk

clear_chunk_bit-Updates_example :
    (m' : Bitmap) × (clear_chunk_bit sample 2 8 ≡ some m') × Updates sample 2 8 false m'
clear_chunk_bit-Updates_example = clear_chunk_bit-Updates sample-IsValid sample-HasChunk

check-set_chunk_bit_example :
    ((m' : Bitmap) × (set_chunk_bit sample 2 8 ≡ some m') × Reads sample 2 8 2 8 true m')
    × ((m' : Bitmap) × (clear_chunk_bit sample 2 8 ≡ some m') × Reads sample 2 8 2 8 false m')
    × ((x : Bool) × (check_chunk_bit sample 2 8 ≡ some x))
check-set_chunk_bit_example = check-set_chunk_bit sample-IsValid sample-HasChunk sample-HasChunk

count_chunk_bits-tally_example : count_chunk_bits sample 2 ≡ some (tally (view sample 2) (2 * 8))
count_chunk_bits-tally_example = count_chunk_bits-tally sample 2 sample-IsValid (omega arith)

still_some_chunk_bits-tally_example :
    still_some_chunk_bits sample 1 ≡ some (ltb 0 (tally (view sample 1) (2 * 8)))
still_some_chunk_bits-tally_example =
    still_some_chunk_bits-tally sample 1 sample-IsValid (omega arith)

clear_chunk_bits-view_example :
    (m' : Bitmap) × (clear_chunk_bits sample 2 ≡ some m')
    × IsValid m'
    × ((b' c' : ℕ)
        → HasChunk sample b' c'
        → view m' b' c' ≡ (if 2 == b' then false else view sample b' c'))
clear_chunk_bits-view_example = clear_chunk_bits-view sample 2 sample-IsValid (omega arith)
