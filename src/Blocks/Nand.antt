-- ===== src/Blocks/Nand.antt =====
-- yaffs_nand.c: the calls of the NAND driver, with the offsets of the device and its statistics. `none`
-- is a report through YBUG.
use whisper_yaffs.Prelude.{
  ℕ, ◌+◌, ◌-◌, ◌/◌, Bool, true, false, List, Option, none, some, if◌then◌else◌, u32,
}
use whisper_yaffs.Tags.{ExtendedTags, EccResult, unknown, no_error, fixed, unfixed, validate_tags}
use whisper_yaffs.Blocks.{
  Device, Driver, Read, chunks_per_block, get_block_info, put_block_info, handle_chunk_error,
}

-- `eccResult > YAFFS_ECC_RESULT_NO_ERROR`.
unfoldable pub ecc_failed : EccResult → Bool
ecc_failed unknown = false
ecc_failed no_error = false
ecc_failed fixed = true
ecc_failed unfixed = true

module _ {N : Type 0} (driver : Driver N) where
  open driver use {erase_block, mark_block_bad, write_chunk, read_chunk}

  -- `yaffs_ReadChunkWithTagsFromNAND`.
  unfoldable pub read_chunk_with_tags : Device N → (chunk : ℕ) → Option (Read × Device N)
  read_chunk_with_tags d chunk =
      let r = read_chunk d.nand (chunk - d.chunk_offset) in
      let d1 = record d { nand = r.1; n_page_reads = u32 (d.n_page_reads + 1) } in
      let b = chunk / chunks_per_block d in
      if ecc_failed r.0.tags.ecc_result
      then elim (get_block_info d1 b) [
        | none ↦ none
        | some bi ↦
            let handled = handle_chunk_error d1 bi in
            some (r.0, put_block_info handled.0 b handled.1)
      ]
      else some (r.0, d1)

  -- `yaffs_WriteChunkWithTagsToNAND`, with tags: whether the driver succeeds, the tags as they are
  -- written, and the device.
  unfoldable pub write_chunk_with_tags :
      Device N
      → (chunk : ℕ) → Option (List ℕ)
      → ExtendedTags
      → Option (Bool × ExtendedTags × Device N)
  write_chunk_with_tags d chunk buffer tags =
      let written = record tags { sequence_number = d.sequence_number; chunk_used = 1 } in
      let w = write_chunk d.nand (chunk - d.chunk_offset) buffer written in
      if validate_tags written
      then some (w.0, written, record d { nand = w.1; n_page_writes = u32 (d.n_page_writes + 1) })
      else none

  -- `yaffs_MarkBlockBad`.
  unfoldable pub mark_bad_in_nand : Device N → ℕ → Bool × Device N
  mark_bad_in_nand d b =
      let r = mark_block_bad d.nand (b - d.block_offset) in (r.0, record d { nand = r.1 })

  -- `yaffs_EraseBlockInNAND`.
  unfoldable pub erase_block_in_nand : Device N → ℕ → Bool × Device N
  erase_block_in_nand d b =
      let r = erase_block d.nand (b - d.block_offset) in
      (r.0, record d { nand = r.1; n_block_erasures = u32 (d.n_block_erasures + 1) })
