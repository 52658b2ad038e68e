-- ===== src/Blocks/Oldest.antt =====
-- yaffs_yaffs2.c: the oldest dirty sequence number, and the block to refresh.
pub mod Least
use whisper_yaffs.Prelude.{
  ℕ, ◌+◌, ◌%◌, ◌≤◌, ◌≡◌, Bool, true, not, ◌&&◌, ◌||◌, List, [], ◌∷◌, ◌==◌, ltb, leb, truthy,
  if◌then◌else◌, u32, All, arith,
}
use whisper_yaffs.Blocks.{BlockInfo, Device, full, start_block, chunks_per_block}

-- The order of the signed 10-bit fields.
abbrev pub biased : ℕ → ℕ
biased x = (x + 512) % 1024

-- A full block with a page that is discarded: `pagesInUse - softDeletions < nChunksPerBlock`.
unfoldable pub has_discarded : ℕ → BlockInfo → Bool
has_discarded n b =
    b.block_state == full && ltb (biased b.pages_in_use) (n + biased b.soft_deletions)

-- The loop of `yaffs2_CalcOldestDirtySequence`, over the blocks from number `i`: the least sequence
-- number and its block.
unfoldable pub oldest_loop : ℕ → List BlockInfo → (i seq block_no : ℕ) → ℕ × ℕ
oldest_loop n [] i seq block_no = (seq, block_no)
oldest_loop n (b ∷ bs) i seq block_no =
    let taken = has_discarded n b && ltb b.sequence_number seq in
    oldest_loop n bs (i + 1) (if taken then b.sequence_number else seq)
      (if taken then i else block_no)

module _ {N : Type 0} where
  -- `yaffs2_CalcOldestDirtySequence`.
  unfoldable pub calc_oldest_dirty_sequence : Device N → Device N
  calc_oldest_dirty_sequence d =
      let r =
        oldest_loop (chunks_per_block d) d.block_info (start_block d) (u32 (d.sequence_number + 1))
          0 in
      if d.is_yaffs2 && truthy r.1
      then record d { oldest_dirty_sequence = r.0; oldest_dirty_block = r.1 }
      else d

  -- `yaffs2_FindOldestDirtySequence`.
  unfoldable pub find_oldest_dirty_sequence : Device N → Device N
  find_oldest_dirty_sequence d =
      if d.is_yaffs2 && not (truthy d.oldest_dirty_sequence)
      then calc_oldest_dirty_sequence d
      else d

  -- `yaffs2_BlockNotDisqualifiedFromGC`.
  unfoldable pub block_not_disqualified_from_gc : Device N → BlockInfo → Bool × Device N
  block_not_disqualified_from_gc d bi =
      let found = find_oldest_dirty_sequence d in
      if not d.is_yaffs2
      then (true, d)
      else if not bi.has_shrink_header
      then (true, d)
      else (leb bi.sequence_number found.oldest_dirty_sequence, found)

-- The counters of the refreshing of blocks.
pub record Refresh : Type 0 where
  pub refresh_period : ℕ
  pub refresh_skip : ℕ
  pub refresh_count : ℕ

-- The loop of `yaffs2_FindRefreshBlock`.
unfoldable pub refresh_loop : List BlockInfo → (b oldest oldest_sequence : ℕ) → ℕ
refresh_loop [] b oldest oldest_sequence = oldest
refresh_loop (bi ∷ bs) b oldest oldest_sequence =
    let taken =
      bi.block_state == full && (ltb oldest 1 || ltb bi.sequence_number oldest_sequence) in
    refresh_loop bs (b + 1) (if taken then b else oldest)
      (if taken then bi.sequence_number else oldest_sequence)

-- `yaffs2_FindRefreshBlock`, for counters that are not negative.
unfoldable pub find_refresh_block : {N : Type 0} → Device N → Refresh → ℕ × Refresh
find_refresh_block d r =
    let skip = if ltb r.refresh_period r.refresh_skip then r.refresh_period else r.refresh_skip in
    let found = refresh_loop d.block_info (start_block d) 0 0 in
    if not d.is_yaffs2
    then (0, r)
    else if ltb r.refresh_period 10
    then (0, r)
    else if ltb 0 skip
    then (0, record r { refresh_skip = skip })
    else (
      found,
      record r { refresh_skip = r.refresh_period; refresh_count = u32 (r.refresh_count + 1) },
    )
