-- ===== src/Tags/Packed2/Roundtrip.antt =====
-- What comes back from the packed tags of yaffs2.
use mathlib.Core.Path.{ap₂}
use whisper_yaffs.Prelude.{
  ℕ, ◌+◌, ◌*◌, ◌/◌, ◌^◌, ◌<◌, bit_and, bit_or, ◌≡◌, ◌≢◌, ◌∙◌, Bool, true, false, ◌&&◌, arith, ◌==◌,
  truthy, to_int, if◌then◌else◌, u32, not32,
}
use whisper_yaffs.Bits.{truthy_bit, and_mask, or_comm, or_fields, or_digit}
use whisper_yaffs.Tags.{ExtendedTags, initialise_tags, object_type_file, object_type_hardlink}
use whisper_yaffs.Tags.Packed2.{
  TagsPart, extra_chunk_id, pack_tags_part, unpack_used, unpack_extra, unpack_tags_part,
}

-- A chunk without extra header info comes back with its object, its place, its length and its
-- sequence number, as a chunk in use: its id must leave the flag's bit clear, and its sequence number
-- must not be that of an erased chunk.
pub unpack-pack_plain :
    (t : ExtendedTags)
    → (t.chunk_id == 0 && truthy t.extra_header_info_available) ≡ false
    → t.chunk_id < 2 ^ 31
    → t.sequence_number ≢ 0xFFFFFFFF
    → unpack_tags_part (pack_tags_part t) ≡ record initialise_tags {
      chunk_used = 1;
      object_id = t.object_id;
      chunk_id = t.chunk_id;
      byte_count = t.byte_count;
      sequence_number = t.sequence_number;
    }
unfolding unpack_tags_part pack_tags_part
unpack-pack_plain t plain small used =
    let clear : (t.sequence_number == 0xFFFFFFFF) ≡ false = ground arith in
    let no_flag : truthy (bit_and t.chunk_id 0x80000000) ≡ false =
      ground (arith, truthy_bit 31 t.chunk_id) in
    rw (plain, clear, no_flag)

extra_chunk_id_sum :
    (t : ExtendedTags)
    → t.extra_parent_object_id < 2 ^ 28
    → extra_chunk_id t
      ≡ 2 ^ 31
        + to_int (truthy t.extra_is_shrink_header) * 2 ^ 30
        + to_int (truthy t.extra_shadows) * 2 ^ 29
        + t.extra_parent_object_id
unfolding extra_chunk_id
extra_chunk_id_sum t small =
    let parent = t.extra_parent_object_id in
    let shrink = truthy t.extra_is_shrink_header in
    let shadows = truthy t.extra_shadows in
    let c0 = bit_or 0x80000000 parent in
    let e0 : c0 ≡ 2 ^ 31 + parent = or_fields 31 1 parent (omega arith) in
    let c1 = if shrink then bit_or c0 (2 ^ 30) else c0 in
    let e1 : c1 ≡ c0 + to_int shrink * 2 ^ 30 = or_digit 30 c0 shrink (omega arith) in
    let e2 = or_digit 29 c1 shadows (omega arith) in omega (arith, e2)

-- The fields of the tags of a header with extra info, within their widths.
pub record IsExtraHeader (t : ExtendedTags) : Type 0 where
  pub header : t.chunk_id ≡ 0
  pub available : truthy t.extra_header_info_available ≡ true
  pub parent : t.extra_parent_object_id < 2 ^ 28
  pub object : t.object_id < 2 ^ 28
  pub type : t.extra_object_type < 2 ^ 4

-- What the extra info of such a header says of a hard link, and of anything else.
abbrev pub extra_equivalent : ExtendedTags → ℕ
extra_equivalent t =
    if t.extra_object_type == object_type_hardlink then t.extra_equivalent_object_id else 0

abbrev pub extra_length : ExtendedTags → ℕ
extra_length t = if t.extra_object_type == object_type_file then t.extra_file_length else 0

extra_object_id_sum :
    (t : ExtendedTags)
    → IsExtraHeader t
    → bit_or (bit_and t.object_id (not32 0xF0000000)) (u32 (t.extra_object_type * 2 ^ 28))
      ≡ t.extra_object_type * 2 ^ 28 + t.object_id
extra_object_id_sum t h =
    let low : bit_and t.object_id (not32 0xF0000000) ≡ t.object_id =
      omega (arith, and_mask 28 t.object_id, h.object) in
    let high : u32 (t.extra_object_type * 2 ^ 28) ≡ t.extra_object_type * 2 ^ 28 =
      omega (arith, h.type) in
    rw (low, high, or_comm t.object_id (t.extra_object_type * 2 ^ 28))
      (or_fields 28 t.extra_object_type t.object_id h.object)

-- The digits of the number that holds the flags.
flag_digits :
    (c parent : ℕ) (shrink shadows : Bool)
    → parent < 2 ^ 28
    → c ≡ 2 ^ 31 + to_int shrink * 2 ^ 30 + to_int shadows * 2 ^ 29 + parent
    → (truthy (bit_and c 0x80000000) ≡ true)
      × (truthy (bit_and c 0x40000000) ≡ shrink)
      × (truthy (bit_and c 0x20000000) ≡ shadows)
      × (bit_and c 0xFFFFFFF ≡ parent)
flag_digits c parent shrink shadows small e = (
  rw (truthy_bit 31 c) (ground arith),
  rw (truthy_bit 30 c) (ground arith),
  rw (truthy_bit 29 c) (ground arith),
  ground (arith, and_mask 28 c),
)

-- Unpacking the extra info from the numbers that packing stores.
unpack_extra_sum :
    (ptt : TagsPart) (parent object type : ℕ) (shrink shadows : Bool)
    → parent < 2 ^ 28
    → object < 2 ^ 28
    → ptt.chunk_id ≡ 2 ^ 31 + to_int shrink * 2 ^ 30 + to_int shadows * 2 ^ 29 + parent
    → ptt.object_id ≡ type * 2 ^ 28 + object
    → (truthy (bit_and ptt.chunk_id 0x80000000) ≡ true)
      × (unpack_extra ptt (unpack_used ptt) ≡ record initialise_tags {
        chunk_used = 1;
        object_id = object;
        sequence_number = ptt.sequence_number;
        extra_header_info_available = 1;
        extra_parent_object_id = parent;
        extra_is_shrink_header = to_int shrink;
        extra_shadows = to_int shadows;
        extra_object_type = type;
        extra_equivalent_object_id = if type == object_type_hardlink then ptt.byte_count else 0;
        extra_file_length = if type == object_type_hardlink then 0 else ptt.byte_count;
      })
unfolding unpack_extra unpack_used initialise_tags
unpack_extra_sum ptt parent object type shrink shadows hp ho ec eo =
    let f = flag_digits ptt.chunk_id parent shrink shadows hp ec in
    let top : ptt.object_id / 2 ^ 28 ≡ type = omega arith in
    let low : bit_and ptt.object_id 0xFFFFFFF ≡ object = omega (arith, and_mask 28 ptt.object_id) in
    (f.0, rw (f.1, f.2, f.3, top, low))

-- A header with extra info comes back with its object, its parent, its flags, its type, and the length
-- of a file or the target of a hard link. Its object and its parent have less than 29 bits and its type
-- less than 5, and its sequence number is not that of an erased chunk.
pub unpack-pack_extra :
    (t : ExtendedTags)
    → IsExtraHeader t
    → t.sequence_number ≢ 0xFFFFFFFF
    → unpack_tags_part (pack_tags_part t) ≡ record initialise_tags {
      chunk_used = 1;
      object_id = t.object_id;
      sequence_number = t.sequence_number;
      extra_header_info_available = 1;
      extra_parent_object_id = t.extra_parent_object_id;
      extra_is_shrink_header = to_int (truthy t.extra_is_shrink_header);
      extra_shadows = to_int (truthy t.extra_shadows);
      extra_object_type = t.extra_object_type;
      extra_equivalent_object_id = extra_equivalent t;
      extra_file_length = extra_length t;
    }
unfolding unpack_tags_part pack_tags_part
unpack-pack_extra t h used =
    let type = t.extra_object_type in
    let shrink = truthy t.extra_is_shrink_header in
    let shadows = truthy t.extra_shadows in
    let extra : (t.chunk_id == 0 && truthy t.extra_header_info_available) ≡ true = ground arith in
    let clear : (t.sequence_number == 0xFFFFFFFF) ≡ false = ground arith in
    let count : ℕ =
      if type == object_type_hardlink
      then t.extra_equivalent_object_id
      else if type == object_type_file
      then t.extra_file_length
      else 0 in
    let ptt : TagsPart = record {
      sequence_number = t.sequence_number;
      object_id =
          bit_or (bit_and t.object_id (not32 0xF0000000)) (u32 (t.extra_object_type * 2 ^ 28));
      chunk_id = extra_chunk_id t;
      byte_count = count;
    } in
    let u =
      unpack_extra_sum ptt t.extra_parent_object_id t.object_id type shrink shadows h.parent
        h.object (extra_chunk_id_sum t h.parent) (extra_object_id_sum t h) in
    let target : (if type == object_type_hardlink then count else 0) ≡ extra_equivalent t =
      ground arith in
    let len : (if type == object_type_hardlink then 0 else count) ≡ extra_length t = ground arith in
    rw (extra, clear, u.0)
      (u.1
        ∙ ap₂
            (λ e l. record initialise_tags {
              chunk_used = 1;
              object_id = t.object_id;
              sequence_number = t.sequence_number;
              extra_header_info_available = 1;
              extra_parent_object_id = t.extra_parent_object_id;
              extra_is_shrink_header = to_int shrink;
              extra_shadows = to_int shadows;
              extra_object_type = type;
              extra_equivalent_object_id = e;
              extra_file_length = l;
            })
            target len)
