-- ===== src/Blocks/Sample.antt =====
-- A device of two blocks of ten chunks: a full one with one page in use, and an erased one. The flash
-- counts the calls of its driver; the erasure of block 2 fails.
use whisper_yaffs.Prelude.{ℕ, ◌+◌, true, false, not, [], ◌∷◌, none, ◌==◌}
use whisper_yaffs.Bitmap.{Bitmap}
use whisper_yaffs.Blocks.{BlockInfo, Device, Driver, full, empty}
use whisper_yaffs.Tags.{initialise_tags}

abbrev pub flash : Driver ℕ
flash = record {
  erase_block = λ n b. (not (b == 2), n + 1);
  mark_block_bad = λ n b. (true, n + 1);
  write_chunk = λ n c bytes tags. (true, n + 1);
  read_chunk = λ n c. (record { ok = true; bytes = []; tags = initialise_tags }, n + 1);
  mark_super_block_dirty = λ n. n;
}

abbrev pub full_info : BlockInfo
full_info = record {
  soft_deletions = 0;
  pages_in_use = 1;
  block_state = full;
  needs_retiring = false;
  skip_erased_check = true;
  gc_prioritise = false;
  chunk_error_strikes = 0;
  has_shrink_header = false;
  sequence_number = 4097;
}

abbrev pub empty_info : BlockInfo
empty_info = record full_info { pages_in_use = 0; block_state = empty; sequence_number = 0 }

abbrev pub small_bitmap : Bitmap
small_bitmap = record {
  start_block = 1;
  end_block = 2;
  chunks_per_block = 10;
  stride = 2;
  chunk_bits = 0x08 ∷ 0 ∷ 0 ∷ 0 ∷ [];
}

abbrev pub small : Device ℕ
small = record {
  nand = 0;
  bitmap = small_bitmap;
  block_info = full_info ∷ empty_info ∷ [];
  is_yaffs2 = true;
  block_offset = 0;
  chunk_offset = 0;
  n_data_bytes_per_chunk = 2048;
  n_reserved_blocks = 0;
  always_check_erased = false;
  skip_checkpoint_write = false;
  read_only = false;
  n_device_blocks = 2;
  sizes = record { validity = 16; device = 64; block_info = 12; object = 44 };
  n_objects = 4;
  n_tnodes = 1;
  tnode_size = 32;
  n_checkpoint_blocks_required = 0;
  n_free_chunks = 19;
  n_erased_blocks = 1;
  allocation_block = none;
  allocation_page = 0;
  allocation_block_finder = 0xFFFFFFFF;
  sequence_number = 4097;
  oldest_dirty_sequence = 0;
  oldest_dirty_block = 0;
  gc_block = 0;
  gc_dirtiest = 0;
  gc_pages_in_use = 0;
  has_pending_prioritised_gcs = false;
  is_checkpointed = true;
  blocks_in_checkpoint = 0;
  n_deletions = 0;
  n_unmarked_deletions = 0;
  n_retired_blocks = 0;
  n_erasure_failures = 0;
  n_block_erasures = 0;
  n_page_writes = 0;
  n_page_reads = 0;
  n_retried_writes = 0;
}
