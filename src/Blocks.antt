-- ===== src/Blocks.antt =====
-- yaffs_BlockInfo and the part of yaffs_Device that manages blocks (yaffs_guts.h), the access to it
-- (yaffs_getblockinfo.h), and the oldest dirty sequence (yaffs_yaffs2.c). The modules below model the
-- erasure, retirement, deletion and allocation of yaffs_guts.c.
--
-- A field of type `int` holds its 32 bits, a bit field its bits. A block or chunk number is a natural
-- number; the number -1 of a block is `none`. The driver stands for the functions of `dev->param`, or
-- for those of yaffs_tagscompat.c where one is missing. The checks of erased chunks that only run for
-- tracing are left out, and so are the traces.
pub mod Nand
pub mod Reserve
pub mod Erase
pub mod Dirty
pub mod Allocate
pub mod Accounts
pub mod Oldest
pub mod Write
pub mod Collect
pub mod Sample
mod Tests
use whisper_yaffs.Prelude.{
  ℕ, zero, suc, ◌+◌, ◌-◌, ◌*◌, ◌/◌, ◌%◌, ◌^◌, Bool, true, false, not, ◌&&◌, ◌||◌, List, Option,
  none, some, ◌==◌, ltb, leb, truthy, if◌then◌else◌, get_elem?, set, u32,
}
use whisper_yaffs.Bitmap.{Bitmap}
use whisper_yaffs.Tags.{ExtendedTags}

-- `yaffs_BlockState`.
abbrev pub needs_scanning : ℕ
needs_scanning = 2

abbrev pub empty : ℕ
empty = 3

abbrev pub allocating : ℕ
allocating = 4

abbrev pub full : ℕ
full = 5

abbrev pub dirty : ℕ
dirty = 6

abbrev pub checkpoint : ℕ
checkpoint = 7

abbrev pub collecting : ℕ
collecting = 8

abbrev pub dead : ℕ
dead = 9

pub record BlockInfo : Type 0 where
  pub soft_deletions : ℕ
  pub pages_in_use : ℕ
  pub block_state : ℕ
  pub needs_retiring : Bool
  pub skip_erased_check : Bool
  pub gc_prioritise : Bool
  pub chunk_error_strikes : ℕ
  pub has_shrink_header : Bool
  pub sequence_number : ℕ

-- `sizeof` of the structures that a checkpoint stores, which the compiler lays out.
pub record Sizes : Type 0 where
  pub validity : ℕ
  pub device : ℕ
  pub block_info : ℕ
  pub object : ℕ

-- `n_device_blocks` is `param.endBlock - param.startBlock + 1`.
-- The range of blocks and the chunks of a block are fields of the bitmap.
pub record Device (N : Type 0) : Type 0 where
  pub nand : N
  pub bitmap : Bitmap
  pub block_info : List BlockInfo
  pub is_yaffs2 : Bool
  pub block_offset : ℕ
  pub chunk_offset : ℕ
  pub n_data_bytes_per_chunk : ℕ
  pub n_reserved_blocks : ℕ
  pub always_check_erased : Bool
  pub skip_checkpoint_write : Bool
  pub read_only : Bool
  pub n_device_blocks : ℕ
  pub sizes : Sizes
  pub n_objects : ℕ
  pub n_tnodes : ℕ
  pub tnode_size : ℕ
  pub n_checkpoint_blocks_required : ℕ
  pub n_free_chunks : ℕ
  pub n_erased_blocks : ℕ
  pub allocation_block : Option ℕ
  pub allocation_page : ℕ
  pub allocation_block_finder : ℕ
  pub sequence_number : ℕ
  pub oldest_dirty_sequence : ℕ
  pub oldest_dirty_block : ℕ
  pub gc_block : ℕ
  pub gc_dirtiest : ℕ
  pub gc_pages_in_use : ℕ
  pub has_pending_prioritised_gcs : Bool
  pub is_checkpointed : Bool
  pub blocks_in_checkpoint : ℕ
  pub n_deletions : ℕ
  pub n_unmarked_deletions : ℕ
  pub n_retired_blocks : ℕ
  pub n_erasure_failures : ℕ
  pub n_block_erasures : ℕ
  pub n_page_writes : ℕ
  pub n_page_reads : ℕ
  pub n_retried_writes : ℕ

-- The data and the tags that a read fills in.
pub record Read : Type 0 where
  pub ok : Bool
  pub bytes : List ℕ
  pub tags : ExtendedTags

-- The functions of the NAND driver, on the numbers it is given: whether they succeed, and the flash
-- they leave behind.
pub record Driver (N : Type 0) : Type 0 where
  pub erase_block : N → ℕ → Bool × N
  pub mark_block_bad : N → ℕ → Bool × N
  pub write_chunk : N → ℕ → Option (List ℕ) → ExtendedTags → Bool × N
  pub read_chunk : N → ℕ → Read × N
  pub mark_super_block_dirty : N → N

-- The order of `int` on the 32 bits.
abbrev pub int_lt : ℕ → ℕ → Bool
int_lt a b = ltb ((a + 2 ^ 31) % 2 ^ 32) ((b + 2 ^ 31) % 2 ^ 32)

-- `a - b` and `x--` on 32 bits.
abbrev pub sub32 : ℕ → ℕ → ℕ
sub32 a b = (a + (2 ^ 32 - b % 2 ^ 32)) % 2 ^ 32

module _ {N : Type 0} where
  abbrev pub start_block : Device N → ℕ
  start_block d = d.bitmap.start_block

  abbrev pub end_block : Device N → ℕ
  end_block d = d.bitmap.end_block

  abbrev pub chunks_per_block : Device N → ℕ
  chunks_per_block d = d.bitmap.chunks_per_block

  -- `yaffs_GetBlockInfo`: `none` is a report through YBUG, which is followed by an access out of
  -- bounds.
  unfoldable pub get_block_info : Device N → ℕ → Option BlockInfo
  get_block_info d b =
      if ltb b (start_block d) || ltb (end_block d) b
      then none
      else get_elem? d.block_info (b - start_block d)

  -- A write through the pointer that `yaffs_GetBlockInfo` returned.
  abbrev pub put_block_info : Device N → ℕ → BlockInfo → Device N
  put_block_info d b bi = record d { block_info = set d.block_info (b - start_block d) bi }

  -- `yaffs2_ClearOldestDirtySequence`.
  unfoldable pub clear_oldest_dirty_sequence : Device N → BlockInfo → Device N
  clear_oldest_dirty_sequence d bi =
      if d.is_yaffs2 && bi.sequence_number == d.oldest_dirty_sequence
      then record d { oldest_dirty_sequence = 0; oldest_dirty_block = 0 }
      else d

  -- `yaffs2_UpdateOldestDirtySequence`.
  unfoldable pub update_oldest_dirty_sequence : Device N → ℕ → BlockInfo → Device N
  update_oldest_dirty_sequence d b bi =
      if d.is_yaffs2
        && (truthy d.oldest_dirty_sequence && ltb bi.sequence_number d.oldest_dirty_sequence)
      then record d { oldest_dirty_sequence = bi.sequence_number; oldest_dirty_block = b }
      else d

  -- `yaffs_HandleChunkError`, on the device and the block.
  unfoldable pub handle_chunk_error : Device N → BlockInfo → Device N × BlockInfo
  handle_chunk_error d bi =
      let strikes = (bi.chunk_error_strikes + 1) % 2 ^ 3 in
      if bi.gc_prioritise then (d, bi) else (
        record d { has_pending_prioritised_gcs = true },
        record bi {
          gc_prioritise = true;
          chunk_error_strikes = strikes;
          needs_retiring = if ltb 3 strikes then true else bi.needs_retiring;
        },
      )
