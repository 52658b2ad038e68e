-- ===== src/Blocks/Allocate.antt =====
-- yaffs_guts.c: the search for an erased block, the allocation of a chunk, and the rest of a block
-- that is skipped.
use whisper_yaffs.Prelude.{
  ℕ, zero, suc, ◌+◌, ◌-◌, ◌*◌, ◌%◌, ◌^◌, Bool, ◌||◌, Option, none, some, ◌==◌, leb, if◌then◌else◌,
  u32,
}
use whisper_yaffs.Bitmap.{Bitmap, set_chunk_bit}
use whisper_yaffs.Blocks.Reserve.{check_space_for_allocation}
use whisper_yaffs.Blocks.{
  BlockInfo, Device, empty, allocating, full, int_lt, sub32, start_block, end_block,
  chunks_per_block, get_block_info, put_block_info,
}

module _ {N : Type 0} where
  -- The next place of the finder: one further, or back at the start.
  unfoldable pub next_finder : Device N → ℕ
  next_finder d =
      let f = u32 (d.allocation_block_finder + 1) in
      if int_lt f (start_block d) || int_lt (end_block d) f then start_block d else f

  -- The block that the finder found empty.
  unfoldable pub take_block : Device N → ℕ → BlockInfo → Device N
  take_block d b bi =
      let seq = u32 (d.sequence_number + 1) in
      record (put_block_info d b (record bi { block_state = allocating; sequence_number = seq })) {
        sequence_number = seq;
        n_erased_blocks = sub32 d.n_erased_blocks 1;
      }

  -- The loop of `yaffs_FindBlockForAllocation`: at most `n` rounds.
  unfoldable pub find_loop : (n : ℕ) → Device N → Option (Option ℕ × Device N)
  find_loop zero d = some (none, d)
  find_loop (suc n) d =
      let b = next_finder d in
      let d' = record d { allocation_block_finder = b } in
      let rest = find_loop n d' in
      elim (get_block_info d' b) [
        | none ↦ none
        | some bi ↦ if bi.block_state == empty then some (some b, take_block d' b bi) else rest
      ]

  -- `yaffs_FindBlockForAllocation`: the block, with `none` for -1.
  unfoldable pub find_block_for_allocation : Device N → Option (Option ℕ × Device N)
  find_block_for_allocation d =
      if int_lt d.n_erased_blocks 1
      then some (none, d)
      else find_loop (end_block d + 1 - start_block d) d

  -- The start of `yaffs_AllocateChunk`: a block to allocate from.
  unfoldable pub open_block : Device N → Option (Device N)
  open_block d = elim d.allocation_block [
    | some b ↦ some d
    | none ↦ elim (find_block_for_allocation d) [
      | none ↦ none
      | some r ↦ some (record r.1 { allocation_block = r.0; allocation_page = 0 })
    ]
  ]

  -- The block that a page is taken from, and the device with the chunk's bit set: the last page of the
  -- block makes it full and closes it.
  abbrev pub last_page : Device N → Bool
  last_page d = leb (chunks_per_block d) (d.allocation_page + 1)

  unfoldable pub taken_info : Device N → BlockInfo → BlockInfo
  taken_info d bi = record bi {
    pages_in_use = (bi.pages_in_use + 1) % 2 ^ 10;
    block_state = if last_page d then full else bi.block_state;
  }

  unfoldable pub taken : Device N → ℕ → BlockInfo → Bitmap → Device N
  taken d b bi m = record (put_block_info d b (taken_info d bi)) {
    bitmap = m;
    allocation_page = d.allocation_page + 1;
    n_free_chunks = sub32 d.n_free_chunks 1;
    allocation_block = if last_page d then none else d.allocation_block;
  }

  -- The next page of the open block `b`.
  unfoldable pub take_page : Device N → ℕ → BlockInfo → Option (Option ℕ × Device N)
  take_page d b bi = elim (set_chunk_bit d.bitmap b d.allocation_page) [
    | none ↦ none
    | some m ↦ some (some (b * chunks_per_block d + d.allocation_page), taken d b bi m)
  ]

  -- `useReserve || yaffs_CheckSpaceForAllocation(dev, 1)`.
  unfoldable pub may_allocate : Device N → (use_reserve : Bool) → Bool × Device N
  may_allocate d use_reserve =
      let r = check_space_for_allocation d 1 in (use_reserve || r.0, if use_reserve then d else r.1)

  -- `yaffs_AllocateChunk`: the chunk, with `none` for -1.
  unfoldable pub allocate_chunk : Device N → (use_reserve : Bool) → Option (Option ℕ × Device N)
  allocate_chunk d use_reserve = elim (open_block d) [
    | none ↦ none
    | some d1 ↦
        let r = may_allocate d1 use_reserve in
        if r.0
        then elim r.1.allocation_block [
          | none ↦ some (none, r.1)
          | some b ↦ elim (get_block_info r.1 b) [ none ↦ none | some bi ↦ take_page r.1 b bi ]
        ]
        else some (none, r.1)
  ]

  -- `yaffs_GetErasedChunks`.
  unfoldable pub get_erased_chunks : Device N → ℕ
  get_erased_chunks d =
      let n = u32 (d.n_erased_blocks * chunks_per_block d) in
      elim d.allocation_block [
        | some (suc b) ↦ u32 (n + (chunks_per_block d - d.allocation_page))
        | _ ↦ n
      ]

  -- `yaffs_SkipRestOfBlock`, which tests `allocationBlock > 0`.
  unfoldable pub skip_rest_of_block : Device N → Option (Device N)
  skip_rest_of_block d = elim d.allocation_block [
    | some (suc b) ↦ elim (get_block_info d (suc b)) [
      | none ↦ none
      | some bi ↦ some (
          if bi.block_state == allocating
          then record (put_block_info d (suc b) (record bi { block_state = full })) {
            allocation_block = none;
          }
          else d)
    ]
    | _ ↦ some d
  ]
