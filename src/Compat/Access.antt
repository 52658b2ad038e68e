-- ===== src/Compat/Access.antt =====
-- yaffs_tagscompat.c: the reads and writes of chunks, the mark of a bad block and the state of a block.
-- The pointer to the spare area is never NULL here: no caller passes NULL.
use whisper_yaffs.Prelude.{
  ℕ, ◌+◌, ◌*◌, ◌%◌, ◌^◌, ◌>>>◌, bit_and, bit_or, Bool, true, false, not, ◌&&◌, ◌||◌, List, ◌++◌,
  Option, none, some, ltb, leb, truthy, to_int, if◌then◌else◌, take, drop,
}
use whisper_yaffs.Ecc.Block.{Outcome, calculate, correct}
use whisper_yaffs.Tags.{ExtendedTags, EccResult, unknown}
use whisper_yaffs.Tags.Yaffs1.{calc_ecc, table_count_bits}
use whisper_yaffs.Blocks.{chunks_per_block, needs_scanning, empty, dead}
use whisper_yaffs.Compat.{
  Tags, Layout, Spare, spare_initialise, is_ff, RawRead, RawDriver, CompatDevice, with_nand,
  is_fixed, is_unfixed, sign, combined_result, count_result, load_tags_into_spare,
  get_tags_from_spare, handle_read_data_error,
}

-- What a read of a chunk leaves behind: `*eccResult` is what was passed unless it is written.
pub record Chunk (N : Type 0) : Type 0 where
  pub ok : Bool
  pub bytes : List ℕ
  pub spare : Spare
  pub ecc_result : EccResult
  pub device : CompatDevice N

-- The tags that `yaffs_TagsCompatabilityWriteChunkWithTagsToNAND` stores. Their code is not set here.
unfoldable pub stored_tags : (n_data_bytes_per_chunk : ℕ) → ExtendedTags → Tags
stored_tags n t = record {
  chunk_id = t.chunk_id % 2 ^ 20;
  serial_number = t.serial_number % 2 ^ 2;
  byte_count_lsb = bit_and t.byte_count 0x3ff;
  object_id = t.object_id % 2 ^ 18;
  ecc = 0;
  byte_count_msb = if leb 1024 n then bit_and (t.byte_count >>> 10) 3 else 3;
}

-- The fields that `yaffs_TagsCompatabilityReadChunkWithTagsFromNAND` fills in from tags of a used chunk.
unfoldable pub loaded_tags : (n_data_bytes_per_chunk : ℕ) → ExtendedTags → Tags → ExtendedTags
loaded_tags n e t = record e {
  object_id = t.object_id;
  chunk_id = t.chunk_id;
  byte_count =
      if leb 1024 n then bit_or t.byte_count_lsb (t.byte_count_msb * 2 ^ 10) else t.byte_count_lsb;
  serial_number = t.serial_number;
}

module _ {N : Type 0} (raw : RawDriver N) (layout : Layout) (wrong_order : Bool) where
  open raw use {write_raw, read_raw}

  -- `yaffs_WriteChunkToNAND`.
  unfoldable pub write_chunk_to_nand :
      CompatDevice N → (chunk : ℕ) → Option (List ℕ) → Spare → Bool × CompatDevice N
  write_chunk_to_nand d chunk bytes spare =
      let w = write_raw d.device.nand chunk bytes spare in
      if ltb chunk (d.start_block * chunks_per_block d.device)
      then (false, d)
      else (w.0, with_nand d w.1)

  -- The end of both ways of `yaffs_ReadChunkFromNAND`, from the results of the two halves.
  unfoldable pub conclude :
      CompatDevice N → (chunk : ℕ) → RawRead → (r1 r2 : Outcome) → Option (Chunk N)
  conclude d chunk r r1 r2 =
      let wrong = is_fixed r1 || is_unfixed r1 || (is_fixed r2 || is_unfixed r2) in
      elim (if wrong then handle_read_data_error d chunk else some d) [
        | none ↦ none
        | some d' ↦ some (record {
          ok = r.ok;
          bytes = r.bytes;
          spare = r.spare;
          ecc_result = combined_result r1 r2;
          device = d';
        })
      ]

  -- The correction of the two halves of 256 bytes, in place: the code that was read can change too.
  unfoldable pub correct_halves : CompatDevice N → (chunk : ℕ) → RawRead → Option (Chunk N)
  correct_halves d chunk r =
      let low = take 256 r.bytes in
      let high = drop 256 r.bytes in
      let c1 = correct wrong_order low r.spare.ecc1 (calculate wrong_order low) in
      let c2 = correct wrong_order high r.spare.ecc2 (calculate wrong_order high) in
      let spare = record r.spare { ecc1 = c1.read; ecc2 = c2.read } in
      conclude (count_result (count_result d c1.outcome) c2.outcome) chunk
        (record r { bytes = c1.bytes ++ c2.bytes; spare = spare }) c1.outcome c2.outcome

  -- `yaffs_ReadChunkFromNAND`. `none` is a report through YBUG.
  unfoldable pub read_chunk_from_nand :
      CompatDevice N
      → (chunk : ℕ) → (data_wanted : Bool) → EccResult
      → (do_error_correction : Bool) → Option (Chunk N)
  read_chunk_from_nand d chunk data_wanted ecc_result do_error_correction =
      let r = read_raw d.device.nand chunk data_wanted in
      let after = with_nand d r.1 in
      let plain : Chunk N = record {
        ok = r.0.ok;
        bytes = r.0.bytes;
        spare = r.0.spare;
        ecc_result = ecc_result;
        device = after;
      } in
      if not (data_wanted && do_error_correction)
      then some plain
      else if not d.use_nand_ecc
      then correct_halves after chunk r.0
      else conclude after chunk r.0 (sign r.0.eccres1) (sign r.0.eccres2)

  -- `yaffs_TagsCompatabilityWriteChunkWithTagsToNAND`.
  unfoldable pub compat_write :
      CompatDevice N → (chunk : ℕ) → Option (List ℕ) → ExtendedTags → Bool × CompatDevice N
  compat_write d chunk bytes tags =
      let with_code : Spare = elim bytes [
        | none ↦ spare_initialise
        | some chunk_bytes ↦ if d.use_nand_ecc then spare_initialise else record spare_initialise {
          ecc1 = (calc_ecc wrong_order chunk_bytes).0;
          ecc2 = (calc_ecc wrong_order chunk_bytes).1;
        }
      ] in
      let n = d.device.n_data_bytes_per_chunk in
      let spare =
        if truthy tags.chunk_deleted
        then record spare_initialise { page_status = 0 }
        else load_tags_into_spare layout with_code (stored_tags n tags) in
      write_chunk_to_nand d chunk bytes spare

  -- The tags that a read fills in, where it is given tags.
  unfoldable pub fill_tags : Chunk N → Option ExtendedTags → Option ExtendedTags × CompatDevice N
  fill_tags c none = (none, c.device)
  fill_tags c (some e) =
      let used = not (is_ff c.spare) in
      let e1 = record e {
        chunk_deleted = to_int (ltb (table_count_bits c.spare.page_status) 7);
        ecc_result = c.ecc_result;
        block_bad = 0;
        chunk_used = to_int used;
      } in
      let t = get_tags_from_spare layout c.device c.spare in
      let n = c.device.device.n_data_bytes_per_chunk in
      if used then (some (loaded_tags n e1 t.0), t.1) else (some e1, c.device)

  -- `yaffs_TagsCompatabilityReadChunkWithTagsFromNAND`: whether it succeeds, the data, the tags, and the
  -- device.
  unfoldable pub compat_read :
      CompatDevice N
      → (chunk : ℕ) → (data_wanted : Bool) → Option ExtendedTags
      → Option (Bool × List ℕ × Option ExtendedTags × CompatDevice N)
  compat_read d chunk data_wanted tags =
      elim (read_chunk_from_nand d chunk data_wanted unknown true) [
        | none ↦ none
        | some c ↦
            let filled = fill_tags c tags in
            some (
              if c.ok
              then (true, c.bytes, filled.0, filled.1)
              else (false, c.bytes, tags, c.device))
      ]

  -- `yaffs_TagsCompatabilityMarkNANDBlockBad`.
  unfoldable pub compat_mark_bad : CompatDevice N → (block : ℕ) → Bool × CompatDevice N
  compat_mark_bad d block =
      let spare = record spare_initialise { block_status = 0x59 } in
      let first = block * chunks_per_block d.device in
      let d1 = write_chunk_to_nand d first none spare in
      (true, (write_chunk_to_nand d1.1 (first + 1) none spare).1)

  -- `yaffs_TagsCompatabilityQueryNANDBlock`: the result, the state and the sequence number.
  unfoldable pub compat_query_block :
      CompatDevice N → (block : ℕ) → Option (Bool × ℕ × ℕ × CompatDevice N)
  compat_query_block d block =
      let first = block * chunks_per_block d.device in
      elim (read_chunk_from_nand d first false unknown true) [
        | none ↦ none
        | some c0 ↦ elim (read_chunk_from_nand c0.device (first + 1) false unknown true) [
          | none ↦ none
          | some c1 ↦
              let both = bit_and c0.spare.block_status c1.spare.block_status in
              let state =
                if ltb (table_count_bits both) 7
                then dead
                else if is_ff c0.spare
                then empty
                else needs_scanning in
              some (true, state, 0, c1.device)
        ]
      ]
