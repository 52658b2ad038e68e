-- ===== src/Blocks/Reserve.antt =====
-- The space that is kept free: yaffs2_CheckpointRequired and yaffs2_CalcCheckpointBlocksRequired of
-- yaffs_yaffs2.c, and yaffs_CheckSpaceForAllocation of yaffs_guts.c.
use whisper_yaffs.Prelude.{ℕ, ◌+◌, ◌-◌, ◌*◌, ◌/◌, Bool, not, ◌&&◌, ◌==◌, leb, if◌then◌else◌, u32}
use whisper_yaffs.Blocks.{Device, int_lt, sub32, start_block, end_block, chunks_per_block}

-- `YAFFS_CHECKPOINT_MIN_BLOCKS`.
abbrev pub checkpoint_min_blocks : ℕ
checkpoint_min_blocks = 60

module _ {N : Type 0} where
  -- `yaffs2_CheckpointRequired`.
  unfoldable pub checkpoint_required : Device N → Bool
  checkpoint_required d =
      d.is_yaffs2
      && (not d.skip_checkpoint_write
          && (not d.read_only && leb checkpoint_min_blocks (end_block d + 1 - start_block d)))

  -- The bytes of a checkpoint, an int that is not negative.
  unfoldable pub checkpoint_bytes : Device N → ℕ
  checkpoint_bytes d = u32 (
      d.sizes.validity
      + d.sizes.device
      + d.n_device_blocks * d.sizes.block_info
      + d.n_device_blocks * d.bitmap.stride
      + (d.sizes.object + 4) * d.n_objects
      + (d.tnode_size + 4) * d.n_tnodes
      + d.sizes.validity
      + 4)

  -- The number that `yaffs2_CalcCheckpointBlocksRequired` caches, where it is to be computed.
  unfoldable pub cache_blocks_required : Device N → Device N
  cache_blocks_required d =
      let required = checkpoint_bytes d / (d.n_data_bytes_per_chunk * chunks_per_block d) + 3 in
      record d {
        n_checkpoint_blocks_required =
            if d.n_checkpoint_blocks_required == 0 && checkpoint_required d
            then required
            else d.n_checkpoint_blocks_required;
      }

  -- `yaffs2_CalcCheckpointBlocksRequired`.
  unfoldable pub calc_checkpoint_blocks_required : Device N → ℕ × Device N
  calc_checkpoint_blocks_required d =
      let d1 = cache_blocks_required d in
      let left = sub32 d1.n_checkpoint_blocks_required d1.blocks_in_checkpoint in
      (if d.is_yaffs2 then if int_lt left 0 then 0 else left else 0, if d.is_yaffs2 then d1 else d)

  -- `yaffs_CheckSpaceForAllocation`.
  unfoldable pub check_space_for_allocation : Device N → (n_chunks : ℕ) → Bool × Device N
  check_space_for_allocation d n_chunks =
      let r = calc_checkpoint_blocks_required d in
      let reserved = (d.n_reserved_blocks + r.0) * chunks_per_block d in
      (int_lt (u32 (reserved + n_chunks)) d.n_free_chunks, r.1)
