-- ===== src/Checkpoint/Session.antt =====
-- yaffs_checkptrw.c: the opening and the closing of the checkpoint stream, and the reading of it.
use whisper_yaffs.Prelude.{
  ℕ, zero, suc, ◌+◌, ◌-◌, ◌*◌, ◌/◌, ◌^◌, Bool, true, false, not, ◌&&◌, List, [], ◌∷◌, Option, none,
  some, ◌==◌, ltb, leb, if◌then◌else◌, replicate, get_or, set, u32,
}
use whisper_yaffs.Tags.{ExtendedTags}
use whisper_yaffs.Blocks.{
  Device, Driver, empty, checkpoint, int_lt, sub32, start_block, end_block, chunks_per_block,
  get_block_info, put_block_info,
}
use whisper_yaffs.Blocks.Erase.{checkpoint_erase}
use whisper_yaffs.Checkpoint.{
  Stream, sequence_checkpoint_data, beyond_repair, checkpoint_space_ok, count_byte, clear_buffer,
  flush_buffer,
}

-- An int from the tags, where a negative one is -1.
abbrev pub id_block : ℕ → Option ℕ
id_block id = if ltb id (2 ^ 31) then some id else none

unfoldable pub has_buffer : Option (List ℕ) → Bool
has_buffer none = false
has_buffer (some bytes) = true

-- The buffer that is there, or new memory.
unfoldable pub held_or : Option (List ℕ) → Option (List ℕ) → Option (List ℕ)
held_or memory none = memory
held_or memory (some bytes) = some bytes

module _ {N : Type 0} where
  -- The fields that `yaffs2_CheckpointOpen` resets.
  unfoldable pub reset_stream : Stream N → Stream N
  reset_stream s = record s {
    page_sequence = 0;
    byte_count = 0;
    sum = 0;
    xor = 0;
    current_block = none;
    current_chunk = 2 ^ 32 - 1;
    next_block = some (start_block s.device);
  }

  unfoldable pub open_reading : Stream N → (list_memory : Bool) → Bool × Stream N
  open_reading s list_memory =
      let d = record s.device { blocks_in_checkpoint = 0 } in
      let m = (end_block d - start_block d) / 16 + 2 in
      let list = if list_memory then some (replicate m none) else none in
      (
        list_memory,
        record s {
          byte_offset = d.n_data_bytes_per_chunk;
          device = d;
          max_blocks = m;
          block_list = list;
        },
      )

  -- The blocks that were read become blocks of the checkpoint.
  unfoldable pub keep_blocks : (n : ℕ) → List (Option ℕ) → Device N → Option (Device N)
  keep_blocks zero blocks d = some d
  keep_blocks (suc n) [] d = some d
  keep_blocks (suc n) (none ∷ blocks) d = some d
  keep_blocks (suc n) (some b ∷ blocks) d =
      let rest = λ (x : Device N). keep_blocks n blocks x in
      if leb (start_block d) b && leb b (end_block d)
      then elim (get_block_info d b) [
        | none ↦ none
        | some bi ↦ rest (
            if bi.block_state == empty
            then put_block_info d b (record bi { block_state = checkpoint })
            else d)
      ]
      else rest d

  -- The end of `yaffs2_CheckpointClose`: the blocks of the checkpoint are no longer counted.
  unfoldable pub settle : Stream N → Bool × Stream N
  settle s =
      let d = s.device in
      let k = d.blocks_in_checkpoint in
      let closed = record s {
        device = record d {
          n_free_chunks = sub32 d.n_free_chunks (k * chunks_per_block d);
          n_erased_blocks = sub32 d.n_erased_blocks k;
        };
        buffer = none;
      } in
      (has_buffer s.buffer, closed)

module _ {N : Type 0} (driver : Driver N) where
  open driver use {read_chunk}

  -- The block that the search found.
  unfoldable pub found_block : Stream N → (i next : ℕ) → Option (Stream N)
  found_block s i next = elim s.block_list [
    | none ↦ none
    | some blocks ↦
        let k = s.device.blocks_in_checkpoint in
        some (record s {
          next_block = id_block next;
          current_block = some i;
          block_list = some (set blocks k (some i));
          device = record s.device { blocks_in_checkpoint = u32 (k + 1) };
        })
  ]

  -- The search of `yaffs2_CheckpointFindNextCheckpointBlock` from block `i` on: at most `n` rounds.
  unfoldable pub find_checkpoint_loop : (n i : ℕ) → Stream N → Option (Stream N)
  find_checkpoint_loop zero i s = some (record s { next_block = none; current_block = none })
  find_checkpoint_loop (suc n) i s =
      let d = s.device in
      let r = read_chunk d.nand (i * chunks_per_block d - d.chunk_offset) in
      let s' = record s { device = record d { nand = r.1 } } in
      let rest = find_checkpoint_loop n (i + 1) s' in
      if r.0.tags.sequence_number == sequence_checkpoint_data
      then found_block s' i r.0.tags.object_id
      else rest

  -- `yaffs2_CheckpointFindNextCheckpointBlock`. A search from block -1 on is `none`: it reads chunks with
  -- negative numbers.
  unfoldable pub find_next_checkpoint_block : Stream N → Option (Stream N)
  find_next_checkpoint_block s =
      if int_lt s.device.blocks_in_checkpoint s.max_blocks
      then elim s.next_block [
        | none ↦ none
        | some b ↦ find_checkpoint_loop (end_block s.device + 1 - b) b s
      ]
      else some (record s { next_block = none; current_block = none })

  -- A block to read from.
  unfoldable pub read_target : Stream N → Option (Stream N)
  read_target s = elim s.current_block [
    | some b ↦ some s
    | none ↦ elim (find_next_checkpoint_block s) [
      | none ↦ none
      | some s' ↦ some (record s' { current_chunk = 0 })
    ]
  ]

  -- The next chunk of block `b`, and whether it is the one that is expected.
  unfoldable pub load_from : Stream N → (b : ℕ) → Bool × Stream N
  load_from s b =
      let d = s.device in
      let chunk = b * chunks_per_block d + s.current_chunk in
      let r = read_chunk d.nand (chunk - d.chunk_offset) in
      let t = r.0.tags in
      (
        t.chunk_id == u32 (s.page_sequence + 1)
            && (not (beyond_repair t.ecc_result) && t.sequence_number == sequence_checkpoint_data),
        record s {
          device = record d { nand = r.1; n_page_reads = u32 (d.n_page_reads + 1) };
          buffer = some r.0.bytes;
          byte_offset = 0;
          page_sequence = u32 (s.page_sequence + 1);
          current_chunk = s.current_chunk + 1;
          current_block =
              if leb (chunks_per_block d) (s.current_chunk + 1) then none else s.current_block;
        },
      )

  -- The next page, where the buffer is read to its end.
  unfoldable pub load_page : Stream N → Option (Bool × Stream N)
  load_page s = elim (read_target s) [
    | none ↦ none
    | some s1 ↦ elim s1.current_block [ none ↦ some (false, s1) | some b ↦ some (load_from s1 b) ]
  ]

  -- One round of the loop of `yaffs2_CheckpointRead`: the byte, or `none` where the reading stops.
  unfoldable pub read_byte : Stream N → Option (Option ℕ × Stream N)
  read_byte s =
      let page = load_page s in
      let ready =
        if leb s.device.n_data_bytes_per_chunk s.byte_offset then page else some (true, s) in
      elim ready [
        | none ↦ none
        | some (false, s1) ↦ some (none, s1)
        | some (true, s1) ↦ elim s1.buffer [
          | none ↦ none
          | some bytes ↦
              let byte = get_or bytes s1.byte_offset 0 in some (some byte, count_byte s1 byte)
        ]
      ]

  -- The loop of `yaffs2_CheckpointRead`, for `n` bytes.
  unfoldable pub read_bytes : (n : ℕ) → Stream N → Option (List ℕ × Stream N)
  read_bytes zero s = some ([], s)
  read_bytes (suc n) s = elim (read_byte s) [
    | none ↦ none
    | some (none, s') ↦ some ([], s')
    | some (some byte, s') ↦ elim (read_bytes n s') [
      | none ↦ none
      | some (bytes, s'') ↦ some (byte ∷ bytes, s'')
    ]
  ]

  -- `yaffs2_CheckpointRead`: the bytes, or `none` for -1.
  unfoldable pub checkpoint_read : Stream N → (n : ℕ) → Option (Option (List ℕ) × Stream N)
  checkpoint_read s n = elim s.buffer [
    | none ↦ some (some [], s)
    | some buffer ↦ elim s.open_for_write [
      | true ↦ some (none, s)
      | false ↦ elim (read_bytes n s) [ none ↦ none | some r ↦ some (some r.0, r.1) ]
    ]
  ]

  unfoldable pub open_writing : Stream N → List ℕ → Option (Bool × Stream N)
  open_writing s bytes =
      let cleared = clear_buffer s.device.n_data_bytes_per_chunk bytes in
      elim (checkpoint_erase driver s.device) [
        | none ↦ none
        | some d ↦ some (true, record s { device = d; buffer = some cleared; byte_offset = 0 })
      ]

  -- `yaffs2_CheckpointOpen`, where the driver has the functions it asks for; `memory` is what YMALLOC_DMA
  -- gives where there is no buffer, and `list_memory` whether YMALLOC gives the list.
  unfoldable pub checkpoint_open :
      Stream N
      → (for_writing : Bool) → (memory : Option (List ℕ)) → (list_memory : Bool)
      → Option (Bool × Stream N)
  checkpoint_open s for_writing memory list_memory =
      let s1 = record s { open_for_write = for_writing } in
      let buffer = held_or memory s.buffer in
      let s2 = reset_stream (record s1 { buffer = buffer }) in
      if for_writing && not (checkpoint_space_ok s.device) then some (false, s1) else elim buffer [
        | none ↦ some (false, s1)
        | some bytes ↦ elim for_writing [
          | true ↦ open_writing s2 bytes
          | false ↦ some (open_reading s2 list_memory)
        ]
      ]

  -- `yaffs2_CheckpointClose`.
  unfoldable pub checkpoint_close :
      (local_tags : ExtendedTags) → Stream N → Option (Bool × Stream N)
  checkpoint_close local_tags s = elim s.open_for_write [
    | true ↦
        let flushed = flush_buffer driver local_tags s in
        if s.byte_offset == 0
        then some (settle s)
        else elim flushed [ none ↦ none | some r ↦ some (settle r.1) ]
    | false ↦ elim s.block_list [
      | none ↦ some (settle s)
      | some blocks ↦ elim (keep_blocks s.device.blocks_in_checkpoint blocks s.device) [
        | none ↦ none
        | some d ↦ some (settle (record s { device = d; block_list = none }))
      ]
    ]
  ]
