-- ===== src/Tags/Packed1.antt =====
-- yaffs_packedtags1.c: the 12 bytes of tags of yaffs1, as bit fields.
use whisper_yaffs.Prelude.{ℕ, ◌%◌, ◌^◌, ◌≡◌, Bool, ◌&&◌, arith, ◌==◌, truthy, to_int, if◌then◌else◌}
use whisper_yaffs.Tags.{ExtendedTags, no_error, zero_tags}

-- The widths of the fields are 20, 2, 10, 18, 12, 1, 1 and 32 bits.
pub record PackedTags1 : Type 0 where
  pub chunk_id : ℕ
  pub serial_number : ℕ
  pub byte_count : ℕ
  pub object_id : ℕ
  pub ecc : ℕ
  pub deleted : ℕ
  pub unused_stuff : ℕ
  pub should_be_ff : ℕ

-- A store into a bit field keeps its low bits.
unfoldable pub pack_tags1 : ExtendedTags → PackedTags1
pack_tags1 t = record {
  chunk_id = t.chunk_id % 2 ^ 20;
  serial_number = t.serial_number % 2 ^ 2;
  byte_count = t.byte_count % 2 ^ 10;
  object_id = t.object_id % 2 ^ 18;
  ecc = 0;
  deleted = if truthy t.chunk_deleted then 0 else 1;
  unused_stuff = 0;
  should_be_ff = 0xFFFFFFFF;
}

-- `memcmp(allFF, pt, sizeof(yaffs_PackedTags1)) == 0`: every field has all its bits set.
unfoldable pub all_ff : PackedTags1 → Bool
all_ff pt =
    pt.chunk_id == 0xFFFFF
    && (pt.serial_number == 0x3
        && (pt.byte_count == 0x3FF
            && (pt.object_id == 0x3FFFF
                && (pt.ecc == 0xFFF
                    && (pt.deleted == 1
                        && (pt.unused_stuff == 1 && pt.should_be_ff == 0xFFFFFFFF))))))

-- The tags that are not written keep what they had.
unfoldable pub unpack_tags1 : ExtendedTags → PackedTags1 → ExtendedTags
unpack_tags1 t pt = if all_ff pt then zero_tags else record t {
  block_bad = if pt.should_be_ff == 0xFFFFFFFF then 0 else 1;
  chunk_used = 1;
  object_id = pt.object_id;
  chunk_id = pt.chunk_id;
  byte_count = pt.byte_count;
  ecc_result = no_error;
  chunk_deleted = if truthy pt.deleted then 0 else 1;
  serial_number = pt.serial_number;
}

-- Unpacking what was packed gives every stored field back, cut to its width, and a chunk in use on a
-- good block; the other fields are those of the tags that are overwritten.
pub unpack_tags1-pack_tags1 :
    (old t : ExtendedTags)
    → unpack_tags1 old (pack_tags1 t) ≡ record old {
      block_bad = 0;
      chunk_used = 1;
      object_id = t.object_id % 2 ^ 18;
      chunk_id = t.chunk_id % 2 ^ 20;
      byte_count = t.byte_count % 2 ^ 10;
      ecc_result = no_error;
      chunk_deleted = to_int (truthy t.chunk_deleted);
      serial_number = t.serial_number % 2 ^ 2;
    }
unfolding unpack_tags1 pack_tags1 all_ff
unpack_tags1-pack_tags1 old t = ground arith
