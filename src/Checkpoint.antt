-- ===== src/Checkpoint.antt =====
-- yaffs_checkptrw.c: the checkpoint as a stream of bytes over blocks of its own. The erasure of the
-- checkpoint is in Blocks/Erase.
--
-- The number -1 of a block or a chunk is `none`, and so is a NULL buffer. The calls of the driver are those
-- of Blocks; what they find in local tags that are not initialised is a parameter. `none` as the outcome
-- of an operation is a report through YBUG or an access through NULL.
pub mod Session
pub mod Accounts
pub mod Pages
pub mod Close
mod Tests
use whisper_yaffs.Prelude.{
  ℕ, zero, suc, ◌+◌, ◌-◌, ◌*◌, ◌/◌, ◌%◌, ◌^◌, ◌<<<◌, bit_and, bit_or, bit_xor, Bool, true, false,
  not, ◌&&◌, ◌||◌, List, [], ◌∷◌, ◌++◌, Option, none, some, ◌==◌, ltb, leb, truthy, if◌then◌else◌,
  replicate, drop, get_or, set, u32,
}
use whisper_yaffs.Tags.{ExtendedTags, EccResult, unknown, no_error, fixed, unfixed}
use whisper_yaffs.Blocks.{
  BlockInfo, Device, Driver, empty, checkpoint, int_lt, sub32, start_block, end_block,
  chunks_per_block, get_block_info, put_block_info,
}
use whisper_yaffs.Blocks.Erase.{checkpoint_erase}

abbrev pub sequence_checkpoint_data : ℕ
sequence_checkpoint_data = 0x21

-- The device, and its fields of the checkpoint stream.
pub record Stream (N : Type 0) : Type 0 where
  pub device : Device N
  pub open_for_write : Bool
  pub buffer : Option (List ℕ)
  pub page_sequence : ℕ
  pub byte_count : ℕ
  pub byte_offset : ℕ
  pub sum : ℕ
  pub xor : ℕ
  pub current_block : Option ℕ
  pub current_chunk : ℕ
  pub next_block : Option ℕ
  pub max_blocks : ℕ
  pub block_list : Option (List (Option ℕ))

-- What a count of bytes ends with: the count, or -1.
pub data Count : Type 0 where
  count : ℕ → Count
  refused : Count

-- A block number as it is stored in the tags.
abbrev pub block_id : Option ℕ → ℕ
block_id none = 2 ^ 32 - 1
block_id (some b) = b

-- `eccResult > YAFFS_ECC_RESULT_FIXED`.
unfoldable pub beyond_repair : EccResult → Bool
beyond_repair unknown = false
beyond_repair no_error = false
beyond_repair fixed = false
beyond_repair unfixed = true

-- `memset(buffer, 0, nDataBytesPerChunk)`.
abbrev pub clear_buffer : ℕ → List ℕ → List ℕ
clear_buffer n bytes = replicate n 0 ++ drop n bytes

module _ {N : Type 0} where
  -- `blocksAvailable`, an int.
  abbrev pub blocks_available : Device N → ℕ
  blocks_available d = sub32 d.n_erased_blocks d.n_reserved_blocks

  -- `yaffs2_CheckpointSpaceOk`.
  unfoldable pub checkpoint_space_ok : Device N → Bool
  checkpoint_space_ok d = int_lt 0 (blocks_available d)

  -- The search of `yaffs2_CheckpointFindNextErasedBlock` from block `i` on: at most `n` rounds.
  unfoldable pub find_erased_loop : (n i : ℕ) → Device N → Option (Option ℕ)
  find_erased_loop zero i d = some none
  find_erased_loop (suc n) i d =
      let rest = find_erased_loop n (i + 1) d in
      elim (get_block_info d i) [
        | none ↦ none
        | some bi ↦ if bi.block_state == empty then some (some i) else rest
      ]

  -- `yaffs2_CheckpointFindNextErasedBlock`.
  unfoldable pub find_next_erased_block : Stream N → Option (Stream N)
  find_next_erased_block s = elim s.next_block [
    | none ↦ some (record s { next_block = none; current_block = none })
    | some b ↦
        if leb b (end_block s.device) && int_lt 0 (blocks_available s.device)
        then elim (find_erased_loop (end_block s.device + 1 - b) b s.device) [
          | none ↦ none
          | some none ↦ some (record s { next_block = none; current_block = none })
          | some (some i) ↦ some (record s { next_block = some (i + 1); current_block = some i })
        ]
        else some (record s { next_block = none; current_block = none })
  ]

  -- The sums over one more byte of the stream.
  unfoldable pub count_byte : Stream N → ℕ → Stream N
  count_byte s byte = record s {
    sum = u32 (s.sum + byte);
    xor = bit_xor s.xor byte;
    byte_offset = s.byte_offset + 1;
    byte_count = u32 (s.byte_count + 1);
  }

  -- `yaffs2_GetCheckpointSum`.
  unfoldable pub get_checkpoint_sum : Stream N → ℕ
  get_checkpoint_sum s = bit_or (u32 (s.sum <<< 8)) (bit_and s.xor 0xFF)

  -- The first chunk of a block makes it one of the checkpoint.
  unfoldable pub claim_block : Device N → (b chunk : ℕ) → Option (Device N)
  claim_block d b chunk =
      let claimed = λ (bi : BlockInfo).
        record (put_block_info d b (record bi { block_state = checkpoint })) {
          blocks_in_checkpoint = u32 (d.blocks_in_checkpoint + 1);
        } in
      if chunk == 0
      then elim (get_block_info d b) [ none ↦ none | some bi ↦ some (claimed bi) ]
      else some d

  -- A block to write to.
  unfoldable pub flush_target : Stream N → Option (Stream N)
  flush_target s = elim s.current_block [
    | some b ↦ some s
    | none ↦ elim (find_next_erased_block s) [
      | none ↦ none
      | some s' ↦ some (record s' { current_chunk = 0 })
    ]
  ]

module _ {N : Type 0} (driver : Driver N) (local_tags : ExtendedTags) where
  open driver use {write_chunk, read_chunk}

  -- The write of the buffer as the next chunk of block `b`.
  unfoldable pub flush_into : Stream N → (b : ℕ) → List ℕ → Option (Stream N)
  flush_into s b bytes =
      let n = chunks_per_block s.device in
      let tags = record local_tags {
        chunk_deleted = 0;
        object_id = block_id s.next_block;
        chunk_id = u32 (s.page_sequence + 1);
        sequence_number = sequence_checkpoint_data;
        byte_count = s.device.n_data_bytes_per_chunk;
      } in
      let last = leb n (s.current_chunk + 1) in
      elim (claim_block s.device b s.current_chunk) [
        | none ↦ none
        | some d ↦
            let chunk = b * n + s.current_chunk in
            let w = write_chunk d.nand (chunk - d.chunk_offset) (some bytes) tags in
            some (record s {
              device = record d { nand = w.1; n_page_writes = u32 (d.n_page_writes + 1) };
              buffer = some (clear_buffer d.n_data_bytes_per_chunk bytes);
              byte_offset = 0;
              page_sequence = u32 (s.page_sequence + 1);
              current_chunk = if last then 0 else s.current_chunk + 1;
              current_block = if last then none else s.current_block;
            })
      ]

  -- `yaffs2_CheckpointFlushBuffer`.
  unfoldable pub flush_buffer : Stream N → Option (Bool × Stream N)
  flush_buffer s = elim (flush_target s) [
    | none ↦ none
    | some s1 ↦ elim s1.current_block [
      | none ↦ some (false, s1)
      | some b ↦ elim s1.buffer [
        | none ↦ none
        | some bytes ↦ elim (flush_into s1 b bytes) [ none ↦ none | some s2 ↦ some (true, s2) ]
      ]
    ]
  ]

  -- One byte of `yaffs2_CheckpointWrite`.
  unfoldable pub write_byte : Stream N → ℕ → Option (Bool × Stream N)
  write_byte s byte = elim s.buffer [
    | none ↦ none
    | some bytes ↦
        let s1 = count_byte (record s { buffer = some (set bytes s.byte_offset byte) }) byte in
        let flushed = flush_buffer s1 in
        if leb s1.device.n_data_bytes_per_chunk s1.byte_offset then flushed else some (true, s1)
  ]

  -- The loop of `yaffs2_CheckpointWrite`, after `i` bytes.
  unfoldable pub write_bytes : (bytes : List ℕ) → (i : ℕ) → Stream N → Option (ℕ × Stream N)
  write_bytes [] i s = some (i, s)
  write_bytes (byte ∷ bytes) i s = elim (write_byte s byte) [
    | none ↦ none
    | some (true, s') ↦ write_bytes bytes (i + 1) s'
    | some (false, s') ↦ some (i + 1, s')
  ]

  -- `yaffs2_CheckpointWrite`.
  unfoldable pub checkpoint_write : Stream N → List ℕ → Option (Count × Stream N)
  checkpoint_write s bytes = elim s.buffer [
    | none ↦ some (count 0, s)
    | some buffer ↦ elim s.open_for_write [
      | false ↦ some (refused, s)
      | true ↦ elim (write_bytes bytes 0 s) [ none ↦ none | some r ↦ some (count r.0, r.1) ]
    ]
  ]
