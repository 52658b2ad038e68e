-- ===== src/Files/Tests.antt =====
-- The chunks of a file with one tnode on a device with a chunk in use.
use mathlib.Core.Path.{subst}
use whisper_yaffs.Prelude.{
  ℕ, some-injective, ◌+◌, ◌-◌, ◌≡◌, refl, Bool, true, false, ◌∷◌, Option, none, some, arith, ◌==◌,
  replicate, if◌then◌else◌, List, IsWord, All-replicate,
}
use whisper_yaffs.Tags.{initialise_tags}
use whisper_yaffs.Bitmap.{check_chunk_bit, chunk_byte, chunk_mask}
use whisper_yaffs.Blocks.{get_block_info, update_oldest_dirty_sequence}
use whisper_yaffs.Blocks.Sample.{flash, small}
use whisper_yaffs.Tnode.{load_level0_tnode, merge_word, get_chunk_group_base}
use whisper_yaffs.Tnode.Roundtrip.{packing}
use whisper_yaffs.Tnode.Tree.{
  Tnode, Allocator, find_level0_tnode, required_tallness, tallness_loop, find_down,
  add_or_find_level0_tnode, add_below, copy_entries, grow,
}
use whisper_yaffs.Files.{
  File, Store, put_level0, load_entry, drop_entry, find_chunk_in_group, group_loop, Found,
  find_chunk_in_file, find_and_delete_chunk_in_file,
}
use whisper_yaffs.Files.Put.{not_scanning, put_chunk_into_file, put_entry, set_entry}
use whisper_yaffs.Files.Soft.{soft_delete_chunk, soft_entries, soft_delete_worker}
use whisper_yaffs.Files.Base.{HasRoom}
use whisper_yaffs.Files.Roundtrip.{Stores, find_chunk_in_file-put_chunk_into_file}

-- An allocator with a number of tnodes left.
abbrev counted : Allocator ℕ
counted = record {
  allocate_raw = λ n. if n == 0 then (false, 0) else (true, n - 1);
  free_raw = λ n. n + 1;
}

abbrev words : List ℕ
words = replicate 8 0

abbrev file : File
file = record {
  object_id = 300;
  is_file = true;
  n_data_chunks = 0;
  structure = record { top_level = 0; top = some words };
}

abbrev store : Store ℕ ℕ
store = record {
  device = small;
  tnodes = record {
    raw = 3;
    n_tnodes = 1;
    n_checkpoint_blocks_required = 0;
    n_words = 8;
    n_entry_words = 8;
  };
  packing = packing 16 0;
  chunk_group_size = 1;
}

words-HasRoom : (old : List ℕ) → find_level0_tnode file.structure 2 ≡ some old → HasRoom 16 old
unfolding find_level0_tnode required_tallness tallness_loop find_down
words-HasRoom old e =
    let same : words ≡ old = some-injective e in
    subst (HasRoom 16) same (All-replicate IsWord 8 0 (omega arith), omega arith)

find_chunk_in_file-put_chunk_into_file_example :
    Stores flash counted store file 16 0 2 13 2 initialise_tags initialise_tags
find_chunk_in_file-put_chunk_into_file_example =
    find_chunk_in_file-put_chunk_into_file flash counted store file 16 0 2 13 2 initialise_tags
      initialise_tags refl (omega arith) (omega arith) refl (omega arith) (omega arith)
      (omega arith) (omega arith) words-HasRoom

-- The file with chunk 13 of the flash as its chunk 2.
abbrev stored : File
stored = record {
  object_id = 300;
  is_file = true;
  n_data_chunks = 1;
  structure = record { top_level = 0; top = some (0 ∷ 13 ∷ replicate 6 0) };
}

put_stores :
    put_chunk_into_file flash counted store file 2 13 not_scanning initialise_tags
    ≡ some (true, stored, store)
unfolding put_chunk_into_file put_entry set_entry load_entry put_level0 add_or_find_level0_tnode
    add_below copy_entries grow required_tallness tallness_loop load_level0_tnode merge_word
    get_chunk_group_base
put_stores = refl

chunk_of : Option (Found ℕ × File) → Option ℕ × File
chunk_of none = (none, file)
chunk_of (some r) = (r.0.chunk, r.1)

-- The chunk is found, and its entry removed; the count stays.
found_and_deleted :
    chunk_of (find_and_delete_chunk_in_file flash store stored 2 initialise_tags)
    ≡ (some 13, record file { n_data_chunks = 1 })
unfolding chunk_of find_and_delete_chunk_in_file find_chunk_in_file find_chunk_in_group group_loop
    find_level0_tnode required_tallness tallness_loop find_down drop_entry load_entry put_level0
    load_level0_tnode merge_word get_chunk_group_base check_chunk_bit chunk_byte chunk_mask
found_and_deleted = refl

free_after : Option (Bool × Tnode 0 × Store ℕ ℕ) → Option (ℕ × Tnode 0)
free_after none = none
free_after (some r) = some (r.2.device.n_free_chunks, r.1)

-- The soft deletion counts the chunk as free, and clears its entry.
soft_deleted :
    free_after (soft_delete_worker counted 0 stored.structure.top store) ≡ some (20, some words)
unfolding free_after soft_delete_worker soft_entries soft_delete_chunk load_level0_tnode merge_word
    get_chunk_group_base get_block_info update_oldest_dirty_sequence
soft_deleted = refl
