-- ===== src/Blocks/Dirty.antt =====
-- yaffs_guts.c: a block that has become dirty, and the deletion of a chunk.
use whisper_yaffs.Prelude.{
  ℕ, ◌+◌, ◌/◌, ◌%◌, ◌^◌, Bool, true, false, not, ◌&&◌, ◌||◌, Option, none, some, ◌==◌,
  if◌then◌else◌, u32,
}
use whisper_yaffs.Bitmap.{clear_chunk_bits, clear_chunk_bit, check_chunk_bit}
use whisper_yaffs.Tags.{ExtendedTags, initialise_tags}
use whisper_yaffs.Blocks.{
  BlockInfo, Device, Driver, needs_scanning, empty, allocating, full, dirty, collecting, sub32,
  chunks_per_block, get_block_info, put_block_info, clear_oldest_dirty_sequence,
  update_oldest_dirty_sequence,
}
use whisper_yaffs.Blocks.Nand.{erase_block_in_nand, write_chunk_with_tags}
use whisper_yaffs.Blocks.Erase.{invalidate_checkpoint, retire_block}

-- The block of `yaffs_BlockBecameDirty` once it is erased.
abbrev pub erased_info : BlockInfo → BlockInfo
erased_info bi = record bi {
  block_state = empty;
  sequence_number = 0;
  pages_in_use = 0;
  soft_deletions = 0;
  has_shrink_header = false;
  skip_erased_check = true;
  gc_prioritise = false;
}

-- The states in which a block can have chunks.
abbrev pub holds_chunks : BlockInfo → Bool
holds_chunks bi =
    bi.block_state == allocating
    || (bi.block_state == full
        || (bi.block_state == needs_scanning || bi.block_state == collecting))

module _ {N : Type 0} where
  -- The start of `yaffs_BlockBecameDirty`, up to the erasure.
  unfoldable pub mark_dirty : Device N → ℕ → BlockInfo → Device N
  mark_dirty d b bi =
      let d1 =
        put_block_info (clear_oldest_dirty_sequence d bi) b (record bi { block_state = dirty }) in
      let candidate = b == d.gc_dirtiest in
      record d1 {
        gc_block = if b == d.gc_block then 0 else d.gc_block;
        gc_dirtiest = if candidate then 0 else d.gc_dirtiest;
        gc_pages_in_use = if candidate then 0 else d.gc_pages_in_use;
      }

  -- What `yaffs_BlockBecameDirty` does once the block is erased.
  unfoldable pub cleaned : Device N → ℕ → Option (Device N)
  cleaned d b = elim (get_block_info d b) [
    | none ↦ none
    | some bi ↦ elim (clear_chunk_bits d.bitmap b) [
      | none ↦ none
      | some m ↦ some (record (put_block_info d b (erased_info bi)) {
        n_erased_blocks = u32 (d.n_erased_blocks + 1);
        bitmap = m;
      })
    ]
  ]

-- The tags of a deleted chunk.
abbrev pub deleted_tags : ExtendedTags
deleted_tags = record initialise_tags { chunk_deleted = 1 }

module _ {N : Type 0} (driver : Driver N) where
  open driver use {write_chunk}

  -- And once it turned out that it cannot be erased, or need not be.
  unfoldable pub lost : Device N → ℕ → Option (Device N)
  lost d b =
      retire_block driver (record d { n_free_chunks = sub32 d.n_free_chunks (chunks_per_block d) })
        b

  -- `yaffs_BlockBecameDirty`.
  unfoldable pub block_became_dirty : Device N → ℕ → Option (Device N)
  block_became_dirty d b = elim (get_block_info d b) [
    | none ↦ none
    | some bi ↦
        let d1 = mark_dirty d b bi in
        if bi.needs_retiring then lost d1 b else elim (invalidate_checkpoint driver d1) [
          | none ↦ none
          | some d2 ↦
              let e = erase_block_in_nand driver d2 b in
              let failures = u32 (d2.n_erasure_failures + 1) in
              if e.0 then cleaned e.1 b else lost (record e.1 { n_erasure_failures = failures }) b
        ]
  ]

  -- The mark of yaffs1 on the flash, or the count of the deletions without one.
  unfoldable pub mark_deleted :
      Device N → (chunk : ℕ) → (mark_nand : Bool) → BlockInfo → Option (Device N)
  mark_deleted d chunk mark_nand bi =
      if not d.is_yaffs2 && (mark_nand && not (bi.block_state == collecting))
      then elim (write_chunk_with_tags driver d chunk none deleted_tags) [
        | none ↦ none
        | some w ↦ some w.2
      ]
      else some (record d { n_unmarked_deletions = u32 (d.n_unmarked_deletions + 1) })

  -- The block that a deletion leaves, and the device with it.
  unfoldable pub drop_page : Device N → (b page : ℕ) → BlockInfo → Option (Device N)
  drop_page d b page bi =
      let pages = (bi.pages_in_use + 1023) % 2 ^ 10 in
      let bi' = record bi { pages_in_use = pages } in
      elim (clear_chunk_bit d.bitmap b page) [
        | none ↦ none
        | some m ↦
            let d' = record (put_block_info d b bi') {
              bitmap = m;
              n_free_chunks = u32 (d.n_free_chunks + 1);
            } in
            if pages == 0
              && (not bi.has_shrink_header
                  && not (bi.block_state == allocating || bi.block_state == needs_scanning))
            then block_became_dirty d' b
            else some d'
      ]

  -- `yaffs_DeleteChunk`, for a chunk number that is not negative.
  unfoldable pub delete_chunk : Device N → (chunk : ℕ) → (mark_nand : Bool) → Option (Device N)
  delete_chunk d chunk mark_nand =
      let n = chunks_per_block d in
      let b = chunk / n in
      let page = chunk % n in
      if chunk == 0 then some d else elim (check_chunk_bit d.bitmap b page) [
        | none ↦ none
        | some known ↦ elim (get_block_info d b) [
          | none ↦ none
          | some bi ↦
              let d1 = record d { n_deletions = u32 (d.n_deletions + 1) } in
              elim (mark_deleted (update_oldest_dirty_sequence d1 b bi) chunk mark_nand bi) [
                | none ↦ none
                | some d2 ↦ if holds_chunks bi then drop_page d2 b page bi else some d2
              ]
        ]
      ]
