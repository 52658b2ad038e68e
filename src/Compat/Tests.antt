-- ===== src/Compat/Tests.antt =====
-- A flash of one chunk, and a device over it.
use whisper_yaffs.Prelude.{
  ℕ, ◌^◌, bit_xor, ◌≡◌, refl, Bool, true, false, List, [], ◌∷◌, none, some, arith, if◌then◌else◌,
  replicate, length-replicate, All-replicate, IsByte,
}
use whisper_yaffs.Bitmap.{Bitmap}
use whisper_yaffs.Ecc.Block.{corrected, flip}
use whisper_yaffs.Tags.{ExtendedTags, zero_tags, no_error, fixed}
use whisper_yaffs.Tags.Yaffs1.{calc_tags_ecc, check_ecc_on_tags}
use whisper_yaffs.Tags.Yaffs1.Mend.{check_ecc_on_tags-flip, check_ecc_on_tags-flip_code}
use whisper_yaffs.Blocks.{Device, BlockInfo, full, empty, get_block_info}
use whisper_yaffs.Compat.{
  ecc_of, with_ecc, Spare, spare_initialise, RawDriver, CompatDevice, with_nand,
}
use whisper_yaffs.Compat.Access.{compat_write, compat_read}
use whisper_yaffs.Compat.Roundtrip.{read_tags, compat_read-compat_write}
use whisper_yaffs.Compat.Damage.{noted, compat_read-flip}
use whisper_yaffs.Compat.Little.{little, little-IsLayout, little-IsOutside}
use whisper_yaffs.Compat.Bytes.{layout-IsField}

abbrev tag_bytes : List ℕ
tag_bytes = 1 ∷ 2 ∷ 3 ∷ 4 ∷ 5 ∷ 6 ∷ 7 ∷ 8 ∷ []

check_ecc_on_tags-flip_example :
    let stored = calc_tags_ecc (ecc_of little) (with_ecc little) tag_bytes in
    check_ecc_on_tags (ecc_of little) (with_ecc little) (flip stored 0 3) ≡ (corrected, stored)
check_ecc_on_tags-flip_example =
    check_ecc_on_tags-flip (ecc_of little) (with_ecc little) tag_bytes 0 3
      (layout-IsField little little-IsLayout) (little-IsOutside 3) (omega arith) (omega arith)
      (omega arith)

check_ecc_on_tags-flip_code_example :
    let stored = calc_tags_ecc (ecc_of little) (with_ecc little) tag_bytes in
    check_ecc_on_tags
      (ecc_of little)
      (with_ecc little)
      (with_ecc little stored (bit_xor (ecc_of little stored) (2 ^ 2)))
    ≡ (corrected, calc_tags_ecc (ecc_of little) (with_ecc little) (flip tag_bytes 0 3))
check_ecc_on_tags-flip_code_example =
    check_ecc_on_tags-flip_code (ecc_of little) (with_ecc little) tag_bytes 2 0 3
      (layout-IsField little little-IsLayout) (little-IsOutside 3) (omega arith) (omega arith)
      (omega arith) (omega arith)

-- The chunk that was written last, and whether it is read with a wrong bit.
record Flash : Type 0 where
  worn : Bool
  bytes : List ℕ
  spare : Spare

abbrev flash_driver : RawDriver Flash
flash_driver = record {
  write_raw = λ f c written spare. elim written [
    | none ↦ (true, record f { spare = spare })
    | some chunk_bytes ↦ (true, record f { bytes = chunk_bytes; spare = spare })
  ];
  read_raw = λ f c wanted. (
    record {
      ok = true;
      bytes = if f.worn then flip f.bytes 300 5 else f.bytes;
      spare = f.spare;
      eccres1 = 0;
      eccres2 = 0;
    },
    f,
  );
}

abbrev flash_of : Bool → Flash
flash_of worn = record { worn = worn; bytes = []; spare = spare_initialise }

abbrev full_info : BlockInfo
full_info = record {
  soft_deletions = 0;
  pages_in_use = 1;
  block_state = full;
  needs_retiring = false;
  skip_erased_check = true;
  gc_prioritise = false;
  chunk_error_strikes = 0;
  has_shrink_header = false;
  sequence_number = 4097;
}

abbrev empty_info : BlockInfo
empty_info = record full_info { pages_in_use = 0; block_state = empty; sequence_number = 0 }

abbrev small_bitmap : Bitmap
small_bitmap = record {
  start_block = 1;
  end_block = 2;
  chunks_per_block = 10;
  stride = 2;
  chunk_bits = 0x08 ∷ 0 ∷ 0 ∷ 0 ∷ [];
}

abbrev small : Flash → Device Flash
small nand = record {
  nand = nand;
  bitmap = small_bitmap;
  block_info = full_info ∷ empty_info ∷ [];
  is_yaffs2 = false;
  block_offset = 0;
  chunk_offset = 0;
  n_data_bytes_per_chunk = 512;
  n_reserved_blocks = 0;
  always_check_erased = false;
  skip_checkpoint_write = false;
  read_only = false;
  n_device_blocks = 2;
  sizes = record { validity = 16; device = 64; block_info = 12; object = 44 };
  n_objects = 4;
  n_tnodes = 1;
  tnode_size = 32;
  n_checkpoint_blocks_required = 0;
  n_free_chunks = 19;
  n_erased_blocks = 1;
  allocation_block = none;
  allocation_page = 0;
  allocation_block_finder = 0xFFFFFFFF;
  sequence_number = 4097;
  oldest_dirty_sequence = 0;
  oldest_dirty_block = 0;
  gc_block = 0;
  gc_dirtiest = 0;
  gc_pages_in_use = 0;
  has_pending_prioritised_gcs = false;
  is_checkpointed = true;
  blocks_in_checkpoint = 0;
  n_deletions = 0;
  n_unmarked_deletions = 0;
  n_retired_blocks = 0;
  n_erasure_failures = 0;
  n_block_erasures = 0;
  n_page_writes = 0;
  n_page_reads = 0;
  n_retried_writes = 0;
}

abbrev device : Bool → CompatDevice Flash
device worn = record {
  device = small (flash_of worn);
  start_block = 1;
  use_nand_ecc = false;
  ecc_fixed = 0;
  ecc_unfixed = 0;
  tags_ecc_fixed = 0;
  tags_ecc_unfixed = 0;
}

abbrev chunk_bytes : List ℕ
chunk_bytes = replicate 512 0x5A

abbrev tags : ExtendedTags
tags = record zero_tags { object_id = 257; chunk_id = 3; byte_count = 512; serial_number = 1 }

compat_read-compat_write_example :
    let d = device false in
    let w = compat_write flash_driver little false d 12 (some chunk_bytes) tags in
    (w.0 ≡ true)
    × (compat_read flash_driver little false w.1 12 true (some zero_tags)
        ≡ some (
          true,
          chunk_bytes,
          some (read_tags 512 no_error zero_tags tags),
          with_nand d (flash_driver.read_raw w.1.device.nand 12 true).1,
        ))
compat_read-compat_write_example =
    compat_read-compat_write flash_driver little false (device false) 12 chunk_bytes zero_tags tags
      little-IsLayout refl (omega arith) refl (record { taken = refl; given = refl })

compat_read-flip_example :
    let d = device true in
    let w = compat_write flash_driver little false d 12 (some chunk_bytes) tags in
    (w.0 ≡ true)
    × (compat_read flash_driver little false w.1 12 true (some zero_tags)
        ≡ some (
          true,
          chunk_bytes,
          some (read_tags 512 fixed zero_tags tags),
          noted (with_nand d (flash_driver.read_raw w.1.device.nand 12 true).1) 1 full_info,
        ))
unfolding get_block_info
compat_read-flip_example =
    compat_read-flip flash_driver little false (device true) 12 full_info chunk_bytes 300 5
      zero_tags tags little-IsLayout (length-replicate {A = ℕ} 512 0x5A)
      (All-replicate IsByte 512 0x5A (omega arith)) (omega arith) (omega arith) refl (omega arith)
      refl refl (record { taken = refl; given = refl })
