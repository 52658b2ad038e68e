-- ===== src/Tags/Packed2.antt =====
-- yaffs_packedtags2.c: the tags of yaffs2, with the extra header info that speeds up a scan and the
-- code over the tags.
pub mod Roundtrip
pub mod Protect
use whisper_yaffs.Prelude.{
  ℕ, ◌*◌, ◌-◌, ◌%◌, ◌^◌, ◌<<<◌, ◌>>>◌, bit_and, bit_or, Bool, not, ◌&&◌, List, ◌==◌, truthy,
  if◌then◌else◌, u32, not32, length, All, IsByte, IsWord, ◌≡◌,
}
use whisper_yaffs.Ecc.Block.{Correction, Outcome, clean, corrected, uncorrectable}
use whisper_yaffs.Ecc.Other.{EccOther, calculate_other, correct_other}
use whisper_yaffs.Tags.{
  ExtendedTags, EccResult, no_error, fixed, unfixed, zero_tags, initialise_tags, object_type_file,
  object_type_hardlink,
}

pub record TagsPart : Type 0 where
  pub sequence_number : ℕ
  pub object_id : ℕ
  pub chunk_id : ℕ
  pub byte_count : ℕ

pub record PackedTags2 : Type 0 where
  pub t : TagsPart
  pub ecc : EccOther

abbrev pub extra_header_info_flag : ℕ
extra_header_info_flag = 0x80000000

abbrev pub extra_shrink_flag : ℕ
extra_shrink_flag = 0x40000000

abbrev pub extra_shadows_flag : ℕ
extra_shadows_flag = 0x20000000

abbrev pub all_extra_flags : ℕ
all_extra_flags = 0xF0000000

abbrev pub extra_object_type_shift : ℕ
extra_object_type_shift = 28

abbrev pub extra_object_type_mask : ℕ
extra_object_type_mask = 0xF0000000

-- The `chunkId` of a header with extra info: the parent under the flags.
unfoldable pub extra_chunk_id : ExtendedTags → ℕ
extra_chunk_id t =
    let c0 = bit_or extra_header_info_flag t.extra_parent_object_id in
    let c1 = if truthy t.extra_is_shrink_header then bit_or c0 extra_shrink_flag else c0 in
    if truthy t.extra_shadows then bit_or c1 extra_shadows_flag else c1

unfoldable pub pack_tags_part : ExtendedTags → TagsPart
unfolding extra_chunk_id
pack_tags_part t =
    let plain : TagsPart = record {
      sequence_number = t.sequence_number;
      object_id = t.object_id;
      chunk_id = t.chunk_id;
      byte_count = t.byte_count;
    } in
    if t.chunk_id == 0 && truthy t.extra_header_info_available
    then record plain {
      chunk_id = extra_chunk_id t;
      object_id =
          bit_or (bit_and t.object_id (not32 extra_object_type_mask))
            (u32 (t.extra_object_type <<< extra_object_type_shift));
      byte_count =
          if t.extra_object_type == object_type_hardlink
          then t.extra_equivalent_object_id
          else if t.extra_object_type == object_type_file
          then t.extra_file_length
          else 0;
    }
    else plain

-- The tags of a chunk in use, before the extra header info is looked at.
unfoldable pub unpack_used : TagsPart → ExtendedTags
unfolding initialise_tags
unpack_used ptt = record initialise_tags {
  block_bad = 0;
  chunk_used = 1;
  object_id = ptt.object_id;
  chunk_id = ptt.chunk_id;
  byte_count = ptt.byte_count;
  chunk_deleted = 0;
  serial_number = 0;
  sequence_number = ptt.sequence_number;
}

-- The extra header info, where its flag is set.
unfoldable pub unpack_extra : TagsPart → ExtendedTags → ExtendedTags
unpack_extra ptt t =
    let type = ptt.object_id >>> extra_object_type_shift in
    let hardlink = type == object_type_hardlink in
    record t {
      chunk_id = 0;
      byte_count = 0;
      extra_header_info_available = 1;
      extra_parent_object_id = bit_and ptt.chunk_id (not32 all_extra_flags);
      extra_is_shrink_header = if truthy (bit_and ptt.chunk_id extra_shrink_flag) then 1 else 0;
      extra_shadows = if truthy (bit_and ptt.chunk_id extra_shadows_flag) then 1 else 0;
      extra_object_type = type;
      object_id = bit_and t.object_id (not32 extra_object_type_mask);
      extra_equivalent_object_id =
          if hardlink then ptt.byte_count else t.extra_equivalent_object_id;
      extra_file_length = if hardlink then t.extra_file_length else ptt.byte_count;
    }

unfoldable pub unpack_tags_part : TagsPart → ExtendedTags
unfolding unpack_used unpack_extra
unpack_tags_part ptt =
    if ptt.sequence_number == 0xFFFFFFFF
    then initialise_tags
    else if truthy (bit_and ptt.chunk_id extra_header_info_flag)
    then unpack_extra ptt (unpack_used ptt)
    else unpack_used ptt

-- The result of a correction, as the tags report it.
unfoldable pub ecc_result_of : Outcome → EccResult
ecc_result_of clean = no_error
ecc_result_of corrected = fixed
ecc_result_of uncorrectable = unfixed

abbrev pub IsPart : TagsPart → Type 0
IsPart p = IsWord p.sequence_number × IsWord p.object_id × IsWord p.chunk_id × IsWord p.byte_count

-- The compiler's layout of the tags part in its 16 bytes: both ways, without loss.
pub record Layout : Type 0 where
  pub bytes_of : TagsPart → List ℕ
  pub of_bytes : List ℕ → TagsPart
  pub length_bytes : (p : TagsPart) → length (bytes_of p) ≡ 16
  pub byte_bytes : (p : TagsPart) → All IsByte (bytes_of p)
  pub of_bytes-bytes_of : (p : TagsPart) → IsPart p → of_bytes (bytes_of p) ≡ p
  pub bytes_of-of_bytes :
      (xs : List ℕ) → length xs ≡ 16 → All IsByte xs → bytes_of (of_bytes xs) ≡ xs

module _ (layout : Layout) where
  open layout use {bytes_of, of_bytes}

  -- Without `tagsECC` the `ecc` field is left as it was.
  unfoldable pub pack_tags2 : PackedTags2 → ExtendedTags → (tags_ecc : Bool) → PackedTags2
  pack_tags2 old t tags_ecc =
      let part = pack_tags_part t in
      record { t = part; ecc = if tags_ecc then calculate_other (bytes_of part) 16 else old.ecc }

  -- The tags with the packed tags, which a correction changes.
  unfoldable pub unpack_tags2 : PackedTags2 → (tags_ecc : Bool) → ExtendedTags × PackedTags2
  unfolding ecc_result_of
  unpack_tags2 pt tags_ecc =
      let bytes = bytes_of pt.t in
      let test = calculate_other bytes 16 in
      let fix = correct_other bytes 16 pt.ecc test in
      let mended : PackedTags2 = record { t = of_bytes fix.bytes; ecc = fix.read } in
      if not (pt.t.sequence_number == 0xFFFFFFFF) && tags_ecc
      then (record (unpack_tags_part mended.t) { ecc_result = ecc_result_of fix.outcome }, mended)
      else (record (unpack_tags_part pt.t) { ecc_result = no_error }, pt)
