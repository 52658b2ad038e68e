-- ===== src/Tags.antt =====
-- `yaffs_ExtendedTags` of yaffs_guts.h and yaffs_tagsvalidity.c: the tags in memory. The modules
-- below pack them into the forms that are stored.
pub mod Packed1
pub mod Packed2
pub mod Yaffs1
mod Tests
use whisper_yaffs.Prelude.{ℕ, Bool, ◌&&◌, ◌==◌}

-- `yaffs_ECCResult`, in the order of its values 0 to 3.
pub data EccResult : Type 0 where
  unknown no_error fixed unfixed : EccResult

-- `yaffs_ObjectType`. A field of this type can hold other numbers too, so it is kept as a number.
abbrev pub object_type_file : ℕ
object_type_file = 1

abbrev pub object_type_hardlink : ℕ
object_type_hardlink = 4

pub record ExtendedTags : Type 0 where
  pub valid_marker0 : ℕ
  pub chunk_used : ℕ
  pub object_id : ℕ
  pub chunk_id : ℕ
  pub byte_count : ℕ
  pub ecc_result : EccResult
  pub block_bad : ℕ
  pub chunk_deleted : ℕ
  pub serial_number : ℕ
  pub sequence_number : ℕ
  pub extra_header_info_available : ℕ
  pub extra_parent_object_id : ℕ
  pub extra_is_shrink_header : ℕ
  pub extra_shadows : ℕ
  pub extra_object_type : ℕ
  pub extra_file_length : ℕ
  pub extra_equivalent_object_id : ℕ
  pub valid_marker1 : ℕ

-- `memset(tags, 0, sizeof(yaffs_ExtendedTags))`.
abbrev pub zero_tags : ExtendedTags
zero_tags = record {
  valid_marker0 = 0;
  chunk_used = 0;
  object_id = 0;
  chunk_id = 0;
  byte_count = 0;
  ecc_result = unknown;
  block_bad = 0;
  chunk_deleted = 0;
  serial_number = 0;
  sequence_number = 0;
  extra_header_info_available = 0;
  extra_parent_object_id = 0;
  extra_is_shrink_header = 0;
  extra_shadows = 0;
  extra_object_type = 0;
  extra_file_length = 0;
  extra_equivalent_object_id = 0;
  valid_marker1 = 0;
}

-- `yaffs_InitialiseTags`: whatever the tags were.
unfoldable pub initialise_tags : ExtendedTags
initialise_tags = record zero_tags { valid_marker0 = 0xAAAAAAAA; valid_marker1 = 0x55555555 }

-- `yaffs_ValidateTags`.
unfoldable pub validate_tags : ExtendedTags → Bool
validate_tags t = t.valid_marker0 == 0xAAAAAAAA && t.valid_marker1 == 0x55555555
