-- ===== src/Blocks/Write.antt =====
-- yaffs_guts.c: a new chunk is written, with another attempt on another chunk where that fails.
use whisper_yaffs.Prelude.{
  ℕ, zero, suc, ◌+◌, ◌-◌, ◌/◌, Bool, true, false, not, ◌&&◌, ◌||◌, List, [], ◌∷◌, Option, none,
  some, ◌==◌, leb, truthy, if◌then◌else◌, u32,
}
use whisper_yaffs.Tags.{ExtendedTags}
use whisper_yaffs.Blocks.{
  Device, Driver, chunks_per_block, get_block_info, put_block_info, handle_chunk_error,
}
use whisper_yaffs.Blocks.Nand.{ecc_failed, read_chunk_with_tags, write_chunk_with_tags}
use whisper_yaffs.Blocks.Erase.{invalidate_checkpoint}
use whisper_yaffs.Blocks.Dirty.{delete_chunk}
use whisper_yaffs.Blocks.Allocate.{allocate_chunk, skip_rest_of_block}

-- `yaffs_CheckFF` over the first `n` bytes, which the buffer has.
unfoldable pub check_ff : (n : ℕ) → List ℕ → Bool
check_ff zero bytes = true
check_ff (suc n) [] = true
check_ff (suc n) (x ∷ xs) = x == 0xFF && check_ff n xs

-- `memcmp(a, b, n) == 0`, for buffers of `n` bytes or more.
unfoldable pub memcmp_equal : (n : ℕ) → (a b : List ℕ) → Bool
memcmp_equal zero a b = true
memcmp_equal (suc n) [] b = true
memcmp_equal (suc n) (x ∷ xs) [] = true
memcmp_equal (suc n) (x ∷ xs) (y ∷ ys) = x == y && memcmp_equal n xs ys

-- What one round of the loop ends with: no chunk is left, the chunk could not be written, or it is.
pub data Attempt (N : Type 0) : Type 0 where
  no_space : Device N → Attempt N
  retry : ExtendedTags → Device N → Attempt N
  written : (chunk : ℕ) → Device N → Attempt N

module _ {N : Type 0} (driver : Driver N) where
  -- `yaffs_CheckChunkErased`.
  unfoldable pub check_chunk_erased : Device N → (chunk : ℕ) → Option (Bool × Device N)
  check_chunk_erased d chunk = elim (read_chunk_with_tags driver d chunk) [
    | none ↦ none
    | some (r, d') ↦ some (
      not (ecc_failed r.tags.ecc_result)
          && (check_ff d.n_data_bytes_per_chunk r.bytes && not (truthy r.tags.chunk_used)),
      d',
    )
  ]

  -- `yaffs_VerifyChunkWritten`.
  unfoldable pub verify_chunk_written :
      Device N → (chunk : ℕ) → List ℕ → ExtendedTags → Option (Bool × Device N)
  verify_chunk_written d chunk bytes tags = elim (read_chunk_with_tags driver d chunk) [
    | none ↦ none
    | some (r, d') ↦ some (
      memcmp_equal d.n_data_bytes_per_chunk r.bytes bytes
          && (r.tags.object_id == tags.object_id
              && (r.tags.chunk_id == tags.chunk_id && r.tags.byte_count == tags.byte_count)),
      d',
    )
  ]

  -- `yaffs_DeleteChunk` and `yaffs_SkipRestOfBlock`, in the order of both callers.
  unfoldable pub abandon_chunk : Device N → (chunk : ℕ) → Option (Device N)
  abandon_chunk d chunk = elim (delete_chunk driver d chunk true) [
    | none ↦ none
    | some d' ↦ skip_rest_of_block d'
  ]

  -- `yaffs_HandleWriteChunkError`.
  unfoldable pub handle_write_chunk_error :
      Device N → (chunk : ℕ) → (erased_ok : Bool) → Option (Device N)
  handle_write_chunk_error d chunk erased_ok =
      let b = chunk / chunks_per_block d in
      elim (get_block_info d b) [
        | none ↦ none
        | some bi ↦
            let h = handle_chunk_error d bi in
            let bi' = record h.1 {
              needs_retiring = if erased_ok then true else h.1.needs_retiring;
            } in
            abandon_chunk (put_block_info h.0 b bi') chunk
      ]

  -- `bi->skipErasedCheck = skip`.
  unfoldable pub set_skip : Device N → (b : ℕ) → (skip : Bool) → Option (Device N)
  set_skip d b skip = elim (get_block_info d b) [
    | none ↦ none
    | some bi ↦ some (put_block_info d b (record bi { skip_erased_check = skip }))
  ]

  -- The end of a round, from whether the chunk is written.
  unfoldable pub finish :
      Device N → (chunk : ℕ) → ExtendedTags → (write_ok erased_ok : Bool) → Option (Attempt N)
  finish d chunk tags write_ok erased_ok =
      if write_ok
      then elim (set_skip d (chunk / chunks_per_block d) true) [
        | none ↦ none
        | some d' ↦ some (written chunk d')
      ]
      else elim (handle_write_chunk_error d chunk erased_ok) [
        | none ↦ none
        | some d' ↦ some (retry tags d')
      ]

  -- The write of an allocated chunk whose block has been erased by this driver.
  unfoldable pub write_unchecked :
      Device N → (chunk : ℕ) → List ℕ → ExtendedTags → Option (Attempt N)
  write_unchecked d chunk bytes tags =
      elim (write_chunk_with_tags driver d chunk (some bytes) tags) [
        | none ↦ none
        | some w ↦ finish w.2 chunk w.1 w.0 false
      ]

  -- The write of a chunk that has to be checked first, and is verified; the result of the write itself is
  -- overwritten by that of the verification.
  unfoldable pub write_checked : Device N → (chunk : ℕ) → List ℕ → ExtendedTags → Option (Attempt N)
  write_checked d chunk bytes tags = elim (check_chunk_erased d chunk) [
    | none ↦ none
    | some (erased_ok, d1) ↦
        if erased_ok
        then elim (write_chunk_with_tags driver d1 chunk (some bytes) tags) [
          | none ↦ none
          | some w ↦ elim (verify_chunk_written w.2 chunk bytes w.1) [
            | none ↦ none
            | some (write_ok, d2) ↦ finish d2 chunk w.1 write_ok true
          ]
        ]
        else elim (abandon_chunk d1 chunk) [ none ↦ none | some d2 ↦ some (retry tags d2) ]
  ]

  -- One round of the loop of `yaffs_WriteNewChunkWithTagsToNAND`.
  unfoldable pub try_write :
      Device N → List ℕ → ExtendedTags → (use_reserve : Bool) → Option (Attempt N)
  try_write d bytes tags use_reserve = elim (allocate_chunk d use_reserve) [
    | none ↦ none
    | some (none, d1) ↦ some (no_space d1)
    | some (some chunk, d1) ↦
        let b = chunk / chunks_per_block d1 in
        elim (get_block_info d1 b) [
          | none ↦ none
          | some bi ↦
              let skip = bi.skip_erased_check && not d1.always_check_erased in
              let d2 = put_block_info d1 b (record bi { skip_erased_check = skip }) in
              if skip
              then write_unchecked d2 chunk bytes tags
              else write_checked d2 chunk bytes tags
        ]
  ]

  -- The loop, after `attempts` rounds: the chunk, with `none` for -1, and the number of rounds that had
  -- one. `max_attempts` is `yaffs_wr_attempts`.
  unfoldable pub write_loop :
      (fuel max_attempts attempts : ℕ)
      → Device N
      → List ℕ
      → ExtendedTags
      → (use_reserve : Bool) → Option (Option ℕ × ℕ × Device N)
  write_loop zero max_attempts attempts d bytes tags use_reserve = none
  write_loop (suc fuel) max_attempts attempts d bytes tags use_reserve =
      elim (try_write d bytes tags use_reserve) [
        | none ↦ none
        | some (no_space d') ↦ some (none, attempts, d')
        | some (written chunk d') ↦ some (some chunk, attempts + 1, d')
        | some (retry tags' d') ↦ elim (max_attempts == 0 || leb (attempts + 1) max_attempts) [
          | true ↦ write_loop fuel max_attempts (attempts + 1) d' bytes tags' use_reserve
          | false ↦ some (none, attempts + 1, d')
        ]
      ]

  -- `yaffs_WriteNewChunkWithTagsToNAND`, where `yaffs_wr_attempts` is above zero.
  unfoldable pub write_new_chunk :
      (max_attempts : ℕ)
      → Device N
      → List ℕ
      → ExtendedTags
      → (use_reserve : Bool) → Option (Option ℕ × Device N)
  write_new_chunk max_attempts d bytes tags use_reserve = elim (invalidate_checkpoint driver d) [
    | none ↦ none
    | some d1 ↦ elim (write_loop (max_attempts + 1) max_attempts 0 d1 bytes tags use_reserve) [
      | none ↦ none
      | some (chunk, attempts, d2) ↦
          some (chunk, record d2 { n_retried_writes = u32 (d2.n_retried_writes + (attempts - 1)) })
    ]
  ]
