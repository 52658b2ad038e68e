-- ===== src/Checkpoint/Tests.antt =====
-- The checkpoint stream on a device with an erased block.
use whisper_yaffs.Prelude.{ℕ, ◌+◌, ◌≡◌, refl, true, false, [], ◌∷◌, none, some, arith, total}
use whisper_yaffs.Blocks.{BlockInfo, Device, Driver, empty}
use whisper_yaffs.Tags.{initialise_tags}
use whisper_yaffs.Blocks.Accounts.{Accounts, free_chunks}
use whisper_yaffs.Checkpoint.{Stream, count, checkpoint_space_ok, checkpoint_write}
use whisper_yaffs.Checkpoint.Session.{checkpoint_open, checkpoint_close}
use whisper_yaffs.Checkpoint.Close.{write_session-Accounts}

-- The flash counts its pages.
abbrev flash : Driver ℕ
flash = record {
  erase_block = λ n b. (true, n);
  mark_block_bad = λ n b. (true, n);
  write_chunk = λ n c bytes tags. (true, n + 1);
  read_chunk = λ n c. (record { ok = true; bytes = []; tags = initialise_tags }, n);
  mark_super_block_dirty = λ n. n;
}

abbrev empty_info : BlockInfo
empty_info = record {
  soft_deletions = 0;
  pages_in_use = 0;
  block_state = empty;
  needs_retiring = false;
  skip_erased_check = true;
  gc_prioritise = false;
  chunk_error_strikes = 0;
  has_shrink_header = false;
  sequence_number = 0;
}

abbrev erased_device : Device ℕ
erased_device = record {
  nand = 0;
  bitmap = record {
    start_block = 1;
    end_block = 2;
    chunks_per_block = 8;
    stride = 1;
    chunk_bits = 0 ∷ 0 ∷ [];
  };
  block_info = empty_info ∷ empty_info ∷ [];
  is_yaffs2 = true;
  block_offset = 0;
  chunk_offset = 0;
  n_data_bytes_per_chunk = 2;
  n_reserved_blocks = 0;
  always_check_erased = false;
  skip_checkpoint_write = false;
  read_only = false;
  n_device_blocks = 2;
  sizes = record { validity = 16; device = 64; block_info = 12; object = 44 };
  n_objects = 4;
  n_tnodes = 1;
  tnode_size = 32;
  n_checkpoint_blocks_required = 0;
  n_free_chunks = 16;
  n_erased_blocks = 2;
  allocation_block = none;
  allocation_page = 0;
  allocation_block_finder = 0;
  sequence_number = 4097;
  oldest_dirty_sequence = 0;
  oldest_dirty_block = 0;
  gc_block = 0;
  gc_dirtiest = 0;
  gc_pages_in_use = 0;
  has_pending_prioritised_gcs = false;
  is_checkpointed = false;
  blocks_in_checkpoint = 0;
  n_deletions = 0;
  n_unmarked_deletions = 0;
  n_retired_blocks = 0;
  n_erasure_failures = 0;
  n_block_erasures = 0;
  n_page_writes = 0;
  n_page_reads = 0;
  n_retried_writes = 0;
}

erased_device-Accounts : Accounts erased_device
unfolding total free_chunks
erased_device-Accounts = record {
  range = omega arith;
  last = omega arith;
  sized = refl;
  page = (omega arith, omega arith);
  small = omega arith;
  infos = (
    record { pages = omega arith; unused = λ e. refl },
    (record { pages = omega arith; unused = λ e. refl }, tt),
  );
  bits = record { room = omega arith; sized = refl; bytes = omega arith };
  free = refl;
  empty_blocks = refl;
}

abbrev closed_stream : Stream ℕ
closed_stream = record {
  device = erased_device;
  open_for_write = false;
  buffer = none;
  page_sequence = 0;
  byte_count = 0;
  byte_offset = 0;
  sum = 0;
  xor = 0;
  current_block = none;
  current_chunk = 0;
  next_block = none;
  max_blocks = 0;
  block_list = none;
}

-- Three bytes are two pages of two bytes.
write_session-Accounts_example :
    (s1 : Stream ℕ) × (n : ℕ) × (s2 : Stream ℕ) × (s3 : Stream ℕ) × (checkpoint_open flash
        closed_stream true
        (some (0 ∷ 0 ∷ []))
        true
      ≡ some (true, s1))
    × (checkpoint_write flash initialise_tags s1 (7 ∷ 8 ∷ 9 ∷ []) ≡ some (count n, s2))
    × (checkpoint_close flash initialise_tags s2 ≡ some (true, s3))
    × Accounts s3.device
unfolding checkpoint_space_ok
write_session-Accounts_example =
    write_session-Accounts flash initialise_tags closed_stream (0 ∷ 0 ∷ []) true (7 ∷ 8 ∷ 9 ∷ [])
      erased_device-Accounts refl
