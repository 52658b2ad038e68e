-- ===== src/Compat/Roundtrip.antt =====
-- A chunk that is written with its tags and read again.
use whisper_yaffs.Prelude.{
  ℕ, truthy, ◌*◌, ◌%◌, ◌^◌, ◌≤◌, ◌≡◌, refl, ap, ◌∙◌, Bool, true, false, List, some, ltb, leb,
  if◌then◌else◌, arith, take, drop,
}
use whisper_yaffs.Bits.{xor_self}
use whisper_yaffs.Prelude.Slices.{append-take-drop}
use whisper_yaffs.Ecc.Block.{Outcome, clean, calculate, correct}
use whisper_yaffs.Tags.{ExtendedTags, EccResult, unknown, no_error}
use whisper_yaffs.Tags.Yaffs1.{calc_ecc, table_count_bits, count_bits_table}
use whisper_yaffs.Tags.Yaffs1.Mend.{check-calc}
use whisper_yaffs.Blocks.{chunks_per_block}
use whisper_yaffs.Compat.{
  Layout, ecc_of, with_ecc, Spare, spare_initialise, is_ff, RawDriver, CompatDevice, with_nand,
  combined_result, count_result, load_tags_into_spare, get_tags_from_spare,
}
use whisper_yaffs.Compat.Access.{
  stored_tags, write_chunk_to_nand, conclude, correct_halves, read_chunk_from_nand, compat_write,
  fill_tags, compat_read,
}
use whisper_yaffs.Compat.Bytes.{
  IsLayout, layout-IsField, stored_tags-FitsFields, loaded-stored, are_ff-calc,
}

-- The spare area that a write of a used chunk stores, with the code of its data.
abbrev pub written_spare : Layout → (wrong_order : Bool) → ℕ → List ℕ → ExtendedTags → Spare
written_spare l wrong_order n bytes tags =
    load_tags_into_spare l
      (record spare_initialise {
        ecc1 = (calc_ecc wrong_order bytes).0;
        ecc2 = (calc_ecc wrong_order bytes).1;
      })
      (stored_tags n tags)

-- The tags that such a chunk is read with, over those passed.
abbrev pub read_tags : (n : ℕ) → (result : EccResult) → (old tags : ExtendedTags) → ExtendedTags
read_tags n result old tags = record old {
  chunk_deleted = 0;
  ecc_result = result;
  block_bad = 0;
  chunk_used = 1;
  object_id = tags.object_id % 2 ^ 18;
  chunk_id = tags.chunk_id % 2 ^ 20;
  byte_count = if leb 1024 n then tags.byte_count % 2 ^ 12 else tags.byte_count % 2 ^ 10;
  serial_number = tags.serial_number % 2 ^ 2;
}

-- A chunk that the driver has stored with this spare area is read back with these bytes.
pub record ReadsBack {N : Type 0} (raw : RawDriver N) (nand : N) (chunk : ℕ) (bytes got : List ℕ)
    (spare : Spare) : Type 0 where
  pub taken : (raw.write_raw nand chunk (some bytes) spare).0 ≡ true
  pub given :
      (raw.read_raw (raw.write_raw nand chunk (some bytes) spare).1 chunk true).0
      ≡ record { ok = true; bytes = got; spare = spare; eccres1 = 0; eccres2 = 0 }

module _ (l : Layout) (wrong_order : Bool) (layout : IsLayout l) where
  is_ff-written :
      (n : ℕ) (bytes : List ℕ) (tags : ExtendedTags)
      → is_ff (written_spare l wrong_order n bytes tags) ≡ false
  unfolding is_ff load_tags_into_spare
  is_ff-written n bytes tags =
      let t = stored_tags n tags in
      rw (
        are_ff-calc l layout (l.as_bytes t)
          (layout.bytes t (stored_tags-FitsFields l layout n tags)))

  fill_lem :
      {N : Type 0} (raw : RawDriver N) (d : CompatDevice N) (ok : Bool) (got bytes : List ℕ)
      (result : EccResult) (old tags : ExtendedTags)
      → let n = d.device.n_data_bytes_per_chunk in
        fill_tags raw l wrong_order
          (record {
            ok = ok;
            bytes = got;
            spare = written_spare l wrong_order n bytes tags;
            ecc_result = result;
            device = d;
          })
          (some old)
        ≡ (some (read_tags n result old tags), d)
  unfolding fill_tags get_tags_from_spare load_tags_into_spare spare_initialise table_count_bits
      count_bits_table
  fill_lem raw d ok got bytes result old tags =
      let n = d.device.n_data_bytes_per_chunk in
      let t = stored_tags n tags in
      let held = layout.bytes t (stored_tags-FitsFields l layout n tags) in
      rw
        (
          is_ff-written n bytes tags,
          check-calc (ecc_of l) (with_ecc l) (layout-IsField l layout) (l.as_bytes t) held,
        )
        (ap (λ (e : ExtendedTags). (some e, d))
          (loaded-stored l layout n
            (record old { chunk_deleted = 0; ecc_result = result; block_bad = 0; chunk_used = 1 })
            tags))

pub correct_same :
    (wrong_order : Bool) (b : List ℕ)
    → correct wrong_order b (calculate wrong_order b) (calculate wrong_order b)
      ≡ record { outcome = clean; bytes = b; read = calculate wrong_order b }
unfolding correct
correct_same wrong_order b =
    let e = calculate wrong_order b in rw (xor_self e.e0, xor_self e.e1, xor_self e.e2)

module _ {N : Type 0} (raw : RawDriver N) (l : Layout) (wrong_order : Bool) (d : CompatDevice N)
    (chunk : ℕ) where
  -- A read of data with the code of this file.
  soft_read :
      d.use_nand_ecc ≡ false
      → read_chunk_from_nand raw l wrong_order d chunk true unknown true
        ≡ correct_halves raw l wrong_order
            (with_nand d (raw.read_raw d.device.nand chunk true).1)
            chunk
            (raw.read_raw d.device.nand chunk true).0
  unfolding read_chunk_from_nand
  soft_read soft = simp soft

  halves_lem :
      (got bytes : List ℕ) (spare : Spare) (r1 r2 : Outcome)
      → correct wrong_order (take 256 got) spare.ecc1 (calculate wrong_order (take 256 got))
        ≡ record { outcome = r1; bytes = take 256 bytes; read = spare.ecc1 }
      → correct wrong_order (drop 256 got) spare.ecc2 (calculate wrong_order (drop 256 got))
        ≡ record { outcome = r2; bytes = drop 256 bytes; read = spare.ecc2 }
      → correct_halves raw l wrong_order d chunk
          (record { ok = true; bytes = got; spare = spare; eccres1 = 0; eccres2 = 0 })
        ≡ conclude raw l wrong_order
            (count_result (count_result d r1) r2)
            chunk
            (record { ok = true; bytes = bytes; spare = spare; eccres1 = 0; eccres2 = 0 })
            r1
            r2
  unfolding correct_halves
  halves_lem got bytes spare r1 r2 first second = simp (first, second, append-take-drop 256 bytes)

module _ {N : Type 0} (raw : RawDriver N) (l : Layout) (wrong_order : Bool) (layout : IsLayout l)
    (d : CompatDevice N) (chunk : ℕ) (bytes got : List ℕ) (old tags : ExtendedTags) where
  abbrev pub kept_spare : Spare
  kept_spare = written_spare l wrong_order d.device.n_data_bytes_per_chunk bytes tags

  abbrev pub after_write : N
  after_write = (raw.write_raw d.device.nand chunk (some bytes) kept_spare).1

  abbrev pub after_read : CompatDevice N
  after_read = with_nand d (raw.read_raw after_write chunk true).1

  pub write_lem :
      d.use_nand_ecc ≡ false
      → d.start_block * chunks_per_block d.device ≤ chunk
      → truthy tags.chunk_deleted ≡ false
      → (raw.write_raw d.device.nand chunk (some bytes) kept_spare).0 ≡ true
      → compat_write raw l wrong_order d chunk (some bytes) tags ≡ (true, with_nand d after_write)
  unfolding compat_write write_chunk_to_nand
  write_lem soft inside live taken =
      let above : ltb chunk (d.start_block * chunks_per_block d.device) ≡ false = ground arith in
      rw (soft, live, above, taken)

  pub read_lem :
      (r1 r2 : Outcome) (d' : CompatDevice N)
      → d.use_nand_ecc ≡ false
      → (raw.read_raw after_write chunk true).0
        ≡ record { ok = true; bytes = got; spare = kept_spare; eccres1 = 0; eccres2 = 0 }
      → correct wrong_order (take 256 got) kept_spare.ecc1 (calculate wrong_order (take 256 got))
        ≡ record { outcome = r1; bytes = take 256 bytes; read = kept_spare.ecc1 }
      → correct wrong_order (drop 256 got) kept_spare.ecc2 (calculate wrong_order (drop 256 got))
        ≡ record { outcome = r2; bytes = drop 256 bytes; read = kept_spare.ecc2 }
      → conclude raw l wrong_order
          (count_result (count_result after_read r1) r2)
          chunk
          (record { ok = true; bytes = bytes; spare = kept_spare; eccres1 = 0; eccres2 = 0 })
          r1
          r2
        ≡ some (record {
          ok = true;
          bytes = bytes;
          spare = written_spare l wrong_order d'.device.n_data_bytes_per_chunk bytes tags;
          ecc_result = combined_result r1 r2;
          device = d';
        })
      → compat_read raw l wrong_order (with_nand d after_write) chunk true (some old)
        ≡ some (
          true,
          bytes,
          some (read_tags d'.device.n_data_bytes_per_chunk (combined_result r1 r2) old tags),
          d',
        )
  unfolding compat_read
  read_lem r1 r2 d' soft given first second concluded =
      let read =
        soft_read raw l wrong_order (with_nand d after_write) chunk soft
        ∙ ap (correct_halves raw l wrong_order after_read chunk) given
        ∙ halves_lem raw l wrong_order after_read chunk got bytes kept_spare r1 r2 first second
        ∙ concluded in
      rw (read, compat_read)
        (rw
          (fill_lem l wrong_order layout raw d' true bytes bytes (combined_result r1 r2) old tags))

-- A used chunk that is written with its tags, on a device that corrects errors itself,
-- and read again as it was written: the data come back, and so do the tags, cut to their widths, as
-- those of a used chunk without an error; nothing but the flash is changed.
pub compat_read-compat_write :
    {N : Type 0} (raw : RawDriver N) (l : Layout) (wrong_order : Bool) (d : CompatDevice N)
    (chunk : ℕ) (bytes : List ℕ) (old tags : ExtendedTags)
    → IsLayout l
    → d.use_nand_ecc ≡ false
    → d.start_block * chunks_per_block d.device ≤ chunk
    → truthy tags.chunk_deleted ≡ false
    → (let n = d.device.n_data_bytes_per_chunk in
        ReadsBack raw d.device.nand chunk bytes bytes (written_spare l wrong_order n bytes tags))
    → let n = d.device.n_data_bytes_per_chunk in
      let w = compat_write raw l wrong_order d chunk (some bytes) tags in
      (w.0 ≡ true)
      × (compat_read raw l wrong_order w.1 chunk true (some old)
          ≡ some (
            true,
            bytes,
            some (read_tags n no_error old tags),
            with_nand d (raw.read_raw w.1.device.nand chunk true).1,
          ))
unfolding conclude count_result combined_result load_tags_into_spare calc_ecc
compat_read-compat_write raw l wrong_order d chunk bytes old tags layout soft inside live driver =
    let written =
      write_lem raw l wrong_order layout d chunk bytes bytes old tags soft inside live
        driver.taken in
    rw written (
      refl,
      read_lem raw l wrong_order layout d chunk bytes bytes old tags clean clean
          (after_read raw l wrong_order layout d chunk bytes bytes old tags) soft driver.given
          (correct_same wrong_order (take 256 bytes)) (correct_same wrong_order (drop 256 bytes))
          refl,
    )
