-- ===== src/Blocks/Tests.antt =====
-- The block management on a device with a full block and an erased one.
use whisper_yaffs.Prelude.{ℕ, ◌+◌, ◌*◌, ◌≡◌, refl, true, false, [], ◌∷◌, none, some, arith, inr}
use whisper_yaffs.Blocks.Sample.{flash, full_info, empty_info, small_bitmap, small}
use whisper_yaffs.Blocks.{BlockInfo, Device}
use whisper_yaffs.Tags.{initialise_tags, validate_tags}
use whisper_yaffs.Blocks.Write.{write_new_chunk}
use whisper_yaffs.Blocks.Accounts.Same.{Around}
use whisper_yaffs.Blocks.Accounts.Held.{Held, IsSound}
use whisper_yaffs.Blocks.Accounts.Write.{write_new_chunk-returns}
use whisper_yaffs.Prelude.{◌⊎◌, inl, Option}
use whisper_yaffs.Prelude.{total}
use whisper_yaffs.Blocks.Oldest.{calc_oldest_dirty_sequence}
use whisper_yaffs.Blocks.Oldest.Least.{Finds, calc_oldest_dirty_sequence-Finds}
use whisper_yaffs.Blocks.Erase.{invalidate_checkpoint}
use whisper_yaffs.Blocks.Dirty.{block_became_dirty, delete_chunk}
use whisper_yaffs.Blocks.Allocate.{find_block_for_allocation, allocate_chunk}
use whisper_yaffs.Blocks.{get_block_info}
use whisper_yaffs.Blocks.Oldest.{block_not_disqualified_from_gc}
use whisper_yaffs.Blocks.Collect.{
  Collector, find_block_for_gc, select_prioritised, select_dirtiest, dirtiest_loop, consider,
  next_gc_block, gc_iterations, gc_threshold, count_selection,
}
use whisper_yaffs.Blocks.Accounts.Collect.{Selects, find_block_for_gc-Selects}
use whisper_yaffs.Blocks.Accounts.{Accounts, free_chunks}
use whisper_yaffs.Blocks.Accounts.Find.{Takes, find_block_for_allocation-finds}
use whisper_yaffs.Blocks.Accounts.Allocate.{allocate_chunk-Allocates}
use whisper_yaffs.Blocks.Accounts.Open.{Allocates}
use whisper_yaffs.Blocks.Accounts.Keeps.{Keeps}
use whisper_yaffs.Blocks.Accounts.Erase.{invalidate_checkpoint-Keeps}
use whisper_yaffs.Blocks.Accounts.Dirty.{block_became_dirty-Accounts}
use whisper_yaffs.Blocks.Accounts.Delete.{Deletes, delete_chunk-Accounts}

small-Accounts : Accounts small
unfolding total free_chunks
small-Accounts = record {
  range = omega arith;
  last = omega arith;
  sized = refl;
  page = (omega arith, omega arith);
  small = omega arith;
  infos = (
    record { pages = omega arith; unused = λ e. cc },
    (record { pages = omega arith; unused = λ e. refl }, tt),
  );
  bits = record { room = omega arith; sized = refl; bytes = omega arith };
  free = refl;
  empty_blocks = refl;
}

find_block_for_allocation-finds_example :
    (b : ℕ) × (bi : BlockInfo) × (d' : Device ℕ) × (find_block_for_allocation small
      ≡ some (some b, d'))
    × Takes small b bi d'
    × Accounts d'
    × (d'.n_erased_blocks + 1 ≡ 1)
find_block_for_allocation-finds_example =
    find_block_for_allocation-finds small small-Accounts (omega arith)

allocate_chunk-Allocates_example :
    (b : ℕ) × (p : ℕ) × (d' : Device ℕ) × (allocate_chunk small true ≡ some (some (b * 10 + p), d'))
    × Allocates small_bitmap 19 b p d'
allocate_chunk-Allocates_example =
    allocate_chunk-Allocates small true small-Accounts (inr (refl, omega arith)) refl

invalidate_checkpoint-Keeps_example :
    (d' : Device ℕ) × (invalidate_checkpoint flash small ≡ some d') × Keeps 0 small d'
invalidate_checkpoint-Keeps_example = invalidate_checkpoint-Keeps 0 flash small small-Accounts

-- The same device with the page of block 1 gone.
abbrev unused_info : BlockInfo
unused_info = record full_info { pages_in_use = 0 }

abbrev drained : Device ℕ
drained = record small { block_info = unused_info ∷ empty_info ∷ []; n_free_chunks = 20 }

drained-Accounts : Accounts drained
unfolding total free_chunks
drained-Accounts = record {
  range = omega arith;
  last = omega arith;
  sized = refl;
  page = (omega arith, omega arith);
  small = omega arith;
  infos = (
    record { pages = omega arith; unused = λ e. refl },
    (record { pages = omega arith; unused = λ e. refl }, tt),
  );
  bits = record { room = omega arith; sized = refl; bytes = omega arith };
  free = refl;
  empty_blocks = refl;
}

block_became_dirty-Accounts_example :
    (d' : Device ℕ) × (block_became_dirty flash drained 1 ≡ some d')
    × Accounts d'
    × Around 1 drained d'
block_became_dirty-Accounts_example =
    block_became_dirty-Accounts flash drained 1 unused_info drained-Accounts
      (omega arith, omega arith) refl (refl, refl)

delete_chunk-Accounts_example :
    (d' : Device ℕ) × (delete_chunk flash small 13 true ≡ some d')
    × Deletes flash 1 3 full_info small d'
delete_chunk-Accounts_example =
    delete_chunk-Accounts flash small 13 true full_info small-Accounts (λ e. omega (arith, e))
      (omega arith, omega arith) refl refl (omega arith)

calc_oldest_dirty_sequence-Finds_example : Finds small (calc_oldest_dirty_sequence small)
calc_oldest_dirty_sequence-Finds_example =
    calc_oldest_dirty_sequence-Finds small refl (omega arith) (omega arith)
      ((omega arith, omega arith), ((omega arith, omega arith), tt))
      (omega arith, (omega arith, tt))

write_new_chunk-returns_example :
    (r : Option ℕ) × (d' : Device ℕ) × (write_new_chunk flash 5 small (7 ∷ []) initialise_tags true
      ≡ some (r, d'))
    × IsSound d'
    × ((r ≡ none) ⊎ ((c : ℕ) × (r ≡ some c) × Held d' c))
unfolding validate_tags initialise_tags
write_new_chunk-returns_example =
    write_new_chunk-returns flash 5 small (7 ∷ []) initialise_tags true (omega arith) small-Accounts
      (inl refl) refl

abbrev idle_collector : Collector
idle_collector = record {
  gc_block_finder = 0;
  gc_not_done = 0;
  oldest_dirty_gcs = 0;
  n_gc_blocks = 0;
  background_gcs = 0;
  refresh_skip = 0;
}

find_block_for_gc-Selects_example :
    Selects small (find_block_for_gc small idle_collector true false)
find_block_for_gc-Selects_example =
    find_block_for_gc-Selects small idle_collector true false small-Accounts (inl refl) (inl refl)

-- An aggressive collection selects the full block.
selects_block :
    (elim (find_block_for_gc small idle_collector true false) as (λ o. ℕ) [
      | none ↦ 9
      | some r ↦ r.0
    ])
    ≡ 1
unfolding find_block_for_gc select_prioritised select_dirtiest dirtiest_loop consider next_gc_block
    gc_iterations gc_threshold count_selection block_not_disqualified_from_gc get_block_info
selects_block = refl
