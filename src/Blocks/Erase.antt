-- ===== src/Blocks/Erase.antt =====
-- yaffs_guts.c and yaffs_checkptrw.c: the erasure of checkpoint blocks and of dirty blocks, the
-- retirement of a block, and the deletion of a chunk.
use whisper_yaffs.Prelude.{
  ℕ, zero, suc, ◌+◌, ◌-◌, ◌*◌, false, ◌||◌, Option, none, some, ◌==◌, if◌then◌else◌, replicate, u32,
}
use whisper_yaffs.Tags.{ExtendedTags, initialise_tags}
use whisper_yaffs.Blocks.Nand.{mark_bad_in_nand, erase_block_in_nand}
use whisper_yaffs.Blocks.{
  BlockInfo, Device, Driver, empty, checkpoint, dead, int_lt, start_block, end_block,
  chunks_per_block, get_block_info, put_block_info, clear_oldest_dirty_sequence,
}

module _ {N : Type 0} (driver : Driver N) where
  open driver use {erase_block, mark_block_bad, write_chunk, mark_super_block_dirty}

  -- The checkpoint block `i`, once the driver has erased it or has failed to. The block that is marked
  -- bad is not realigned.
  unfoldable pub reclaimed : Device N → ℕ → BlockInfo → Device N
  reclaimed d i bi = record (put_block_info d i (record bi { block_state = empty })) {
    n_erased_blocks = u32 (d.n_erased_blocks + 1);
    n_free_chunks = u32 (d.n_free_chunks + chunks_per_block d);
  }

  unfoldable pub given_up : Device N → ℕ → BlockInfo → Device N
  given_up d i bi = record (put_block_info d i (record bi { block_state = dead })) {
    nand = (mark_block_bad d.nand i).1;
  }

  -- One round of `yaffs2_CheckpointErase`.
  unfoldable pub checkpoint_erase_block : Device N → ℕ → Option (Device N)
  checkpoint_erase_block d i = elim (get_block_info d i) [
    | none ↦ none
    | some bi ↦
        let r = erase_block d.nand (i - d.block_offset) in
        let d1 = record d { nand = r.1; n_block_erasures = u32 (d.n_block_erasures + 1) } in
        if bi.block_state == checkpoint
        then some (if r.0 then reclaimed d1 i bi else given_up d1 i bi)
        else some d
  ]

  unfoldable pub checkpoint_erase_loop : (n i : ℕ) → Device N → Option (Device N)
  checkpoint_erase_loop zero i d = some d
  checkpoint_erase_loop (suc n) i d = elim (checkpoint_erase_block d i) [
    | none ↦ none
    | some d' ↦ checkpoint_erase_loop n (i + 1) d'
  ]

  -- `yaffs2_CheckpointErase`, through `yaffs2_CheckpointInvalidateStream`.
  unfoldable pub checkpoint_erase : Device N → Option (Device N)
  checkpoint_erase d =
      elim (checkpoint_erase_loop (end_block d + 1 - start_block d) (start_block d) d) [
        | none ↦ none
        | some d' ↦ some (record d' { blocks_in_checkpoint = 0 })
      ]

  -- `yaffs2_InvalidateCheckpoint`.
  unfoldable pub invalidate_checkpoint : Device N → Option (Device N)
  invalidate_checkpoint d =
      let erased = checkpoint_erase (record d { is_checkpointed = false }) in
      elim (if d.is_checkpointed || int_lt 0 d.blocks_in_checkpoint then erased else some d) [
        | none ↦ none
        | some d' ↦ some (record d' { nand = mark_super_block_dirty d'.nand })
      ]

  -- The tags that mark a bad block.
  abbrev pub bad_block_tags : ExtendedTags
  bad_block_tags = record initialise_tags { sequence_number = 0xFFFF0000 }

  -- The flash after `yaffs_RetireBlock` has marked the block bad: by the driver, or where that fails,
  -- by an erasure and a chunk with the marker.
  unfoldable pub mark_retired : Device N → ℕ → Device N
  mark_retired d b =
      let r = mark_bad_in_nand driver d b in
      let e = erase_block_in_nand driver r.1 b in
      let buffer = replicate d.n_data_bytes_per_chunk 0xFF in
      let w =
        write_chunk e.1.nand (b * chunks_per_block d - d.chunk_offset) (some buffer)
          bad_block_tags in
      if r.0 then r.1 else if e.0 then record e.1 { nand = w.1 } else e.1

  -- `yaffs_RetireBlock`.
  unfoldable pub retire_block : Device N → ℕ → Option (Device N)
  retire_block d b = elim (invalidate_checkpoint d) [
    | none ↦ none
    | some d1 ↦ elim (get_block_info d1 b) [
      | none ↦ none
      | some bi ↦
          let d2 = mark_retired (clear_oldest_dirty_sequence d1 bi) b in
          let bi' = record bi {
            block_state = dead;
            gc_prioritise = false;
            needs_retiring = false;
          } in
          some
            (record (put_block_info d2 b bi') { n_retired_blocks = u32 (d2.n_retired_blocks + 1) })
    ]
  ]
