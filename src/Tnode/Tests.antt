-- ===== src/Tnode/Tests.antt =====
-- An entry of a tnode that lies across two words, and look-up trees of one and two levels.
use whisper_yaffs.Prelude.{
  ℕ, ◌+◌, ◌-◌, ◌%◌, ◌^◌, ◌>>>◌, ◌<<<◌, u32, IsWord, All-replicate, ◌≤◌, ◌≡◌, refl, true, false, ◌∷◌,
  some, none, replicate, arith, ◌==◌, if◌then◌else◌,
}
use whisper_yaffs.Tnode.Tree.{
  Tnode, FileStructure, Tnodes, Allocator, put_child, find_level0_tnode, add_or_find_level0_tnode,
}
use whisper_yaffs.Tnode.Tree.Pruning.{prune_file_structure}
use whisper_yaffs.Tnode.Roundtrip.{packing, get-load}
use whisper_yaffs.Tnode.Tree.Add.{AddsAt, add_or_find-AddsAt}
use whisper_yaffs.Tnode.Tree.Prune.{Spares, HasFirst, prune_file_structure-Spares}
use whisper_yaffs.Tnode.{get_chunk_group_base, load_level0_tnode, merge_word}

-- Entry 1 of 18 bits lies across two words.
across_words :
    (get_chunk_group_base
        (record { tnode_width = 18; tnode_mask = 0x3ffff; chunk_group_bits = 1 })
        (load_level0_tnode
          (record { tnode_width = 18; tnode_mask = 0x3ffff; chunk_group_bits = 1 })
          (replicate 9 0xffffffff)
          1
          0x24682)
        1
      ≡ 0x24682)
unfolding get_chunk_group_base load_level0_tnode merge_word
across_words = refl

get-load_example :
    get_chunk_group_base
      (packing 18 1)
      (load_level0_tnode (packing 18 1) (replicate 9 0xffffffff) 1 0x24682)
      17
    ≡ u32 (((0x24682 >>> 1) % 2 ^ 18) <<< 1)
get-load_example =
    get-load 18 1 (replicate 9 0xffffffff) 1 0x24682 17 (omega arith) (omega arith)
      (All-replicate IsWord 9 0xffffffff (omega arith)) (omega arith)

-- An allocator with a number of tnodes left.
abbrev counted : Allocator ℕ
counted = record {
  allocate_raw = λ n. if n == 0 then (false, 0) else (true, n - 1);
  free_raw = λ n. n + 1;
}

abbrev three_left : Tnodes ℕ
three_left = record {
  raw = 3;
  n_tnodes = 1;
  n_checkpoint_blocks_required = 0;
  n_words = 8;
  n_entry_words = 8;
}

-- A file with one tnode, whose first entry is in use.
abbrev one_tnode : FileStructure
one_tnode = record { top_level = 0; top = some (5 ∷ replicate 7 0) }

add_or_find-AddsAt_example :
    (r : Tnode 0 × FileStructure × Tnodes ℕ) × (add_or_find_level0_tnode counted one_tnode 1000 none
        three_left
      ≡ some r)
    × AddsAt counted one_tnode 1000 three_left 7 r
add_or_find-AddsAt_example =
    add_or_find-AddsAt counted one_tnode 1000 three_left 7 (omega arith) (omega arith)

-- A file of two levels, with a tnode that is all zero.
abbrev two_tnodes : FileStructure
two_tnodes = record {
  top_level = 1;
  top =
      some
        (put_child (put_child (λ i. none) 0 (some (5 ∷ replicate 7 0))) 2 (some (replicate 8 0)));
}

prune_file_structure-Spares_example :
    (r : FileStructure × Tnodes ℕ) × (prune_file_structure counted two_tnodes three_left ≡ some r)
    × (r.0.top_level ≤ 1)
    × Spares 8 (find_level0_tnode two_tnodes 33) (find_level0_tnode r.0 33)
unfolding HasFirst
prune_file_structure-Spares_example =
    prune_file_structure-Spares counted two_tnodes three_left 33 (omega arith) tt
