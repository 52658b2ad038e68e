-- ===== src/Bitmap.antt =====
-- yaffs_bitmap.c: the bitmap of the chunks in use. `none` is a report through YBUG, which is followed
-- by an access out of bounds.
pub mod Bytes
pub mod View
pub mod Check
pub mod Count
mod Tests
use whisper_yaffs.Prelude.{
  ℕ, zero, suc, ◌+◌, ◌-◌, ◌*◌, ◌/◌, ◌%◌, ◌^◌, ◌<<<◌, bit_and, bit_or, Bool, true, false, not, ◌||◌,
  List, Option, none, some, ◌==◌, ltb, leb, truthy, if◌then◌else◌, get_or, set, fill, not8,
}
use whisper_yaffs.Ecc.Parity.{count_loop}

-- The fields of `yaffs_Device` that the bitmap is found by.
pub record Bitmap : Type 0 where
  pub start_block : ℕ
  pub end_block : ℕ
  pub chunks_per_block : ℕ
  pub stride : ℕ
  pub chunk_bits : List ℕ

-- `yaffs_BlockBits`: where the bits of a block begin.
unfoldable pub block_bits : Bitmap → ℕ → Option ℕ
block_bits m blk =
    if ltb blk m.start_block || ltb m.end_block blk
    then none
    else some (m.stride * (blk - m.start_block))

-- `yaffs_VerifyChunkBitId`.
unfoldable pub chunk_bit_id_ok : Bitmap → (blk chunk : ℕ) → Bool
chunk_bit_id_ok m blk chunk =
    not (ltb blk m.start_block || (ltb m.end_block blk || leb m.chunks_per_block chunk))

-- The byte of a chunk's bit: `blkBits[chunk / 8]`, for a verified chunk.
unfoldable pub chunk_byte : Bitmap → (blk chunk : ℕ) → Option ℕ
unfolding block_bits chunk_bit_id_ok
chunk_byte m blk chunk = elim (block_bits m blk) [
  | none ↦ none
  | some off ↦ if chunk_bit_id_ok m blk chunk then some (off + chunk / 8) else none
]

-- `1 << (chunk & 7)`.
unfoldable pub chunk_mask : ℕ → ℕ
chunk_mask chunk = 1 <<< bit_and chunk 7

-- `yaffs_ClearChunkBits`.
unfoldable pub clear_chunk_bits : Bitmap → ℕ → Option Bitmap
clear_chunk_bits m blk = elim (block_bits m blk) [
  | none ↦ none
  | some off ↦ some (record m { chunk_bits = fill m.chunk_bits off m.stride 0 })
]

-- `yaffs_ClearChunkBit`.
unfoldable pub clear_chunk_bit : Bitmap → (blk chunk : ℕ) → Option Bitmap
clear_chunk_bit m blk chunk = elim (chunk_byte m blk chunk) [
  | none ↦ none
  | some i ↦ some (record m {
    chunk_bits = set m.chunk_bits i (bit_and (get_or m.chunk_bits i 0) (not8 (chunk_mask chunk)));
  })
]

-- `yaffs_SetChunkBit`.
unfoldable pub set_chunk_bit : Bitmap → (blk chunk : ℕ) → Option Bitmap
set_chunk_bit m blk chunk = elim (chunk_byte m blk chunk) [
  | none ↦ none
  | some i ↦ some (record m {
    chunk_bits = set m.chunk_bits i (bit_or (get_or m.chunk_bits i 0) (chunk_mask chunk));
  })
]

-- `yaffs_CheckChunkBit`.
unfoldable pub check_chunk_bit : Bitmap → (blk chunk : ℕ) → Option Bool
check_chunk_bit m blk chunk = elim (chunk_byte m blk chunk) [
  | none ↦ none
  | some i ↦ some (truthy (bit_and (get_or m.chunk_bits i 0) (chunk_mask chunk)))
]

-- `for (; n rounds left; blkBits++) if (*blkBits) return 1;`
unfoldable pub some_bits_loop : List ℕ → (n i : ℕ) → Bool
some_bits_loop xs zero i = false
some_bits_loop xs (suc n) i =
    let rest = some_bits_loop xs n (i + 1) in if truthy (get_or xs i 0) then true else rest

-- `yaffs_StillSomeChunkBits`.
unfoldable pub still_some_chunk_bits : Bitmap → ℕ → Option Bool
still_some_chunk_bits m blk = elim (block_bits m blk) [
  | none ↦ none
  | some off ↦ some (some_bits_loop m.chunk_bits m.stride off)
]

-- The two loops of `yaffs_CountChunkBits`: the inner one runs at most 8 rounds on a byte.
unfoldable pub count_bits_loop : List ℕ → (n i count : ℕ) → ℕ
count_bits_loop xs zero i count = count
count_bits_loop xs (suc n) i count =
    count_bits_loop xs n (i + 1) (count_loop 8 (get_or xs i 0) count)

-- `yaffs_CountChunkBits`.
unfoldable pub count_chunk_bits : Bitmap → ℕ → Option ℕ
count_chunk_bits m blk = elim (block_bits m blk) [
  | none ↦ none
  | some off ↦ some (count_bits_loop m.chunk_bits m.stride off 0)
]
