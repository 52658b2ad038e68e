-- ===== src/Files/Soft.antt =====
-- yaffs_guts.c: the soft deletion of a file.
use whisper_yaffs.Prelude.{
  ℕ, zero, suc, ◌+◌, ◌/◌, ◌%◌, ◌^◌, Bool, true, false, List, Option, none, some, ◌==◌, u32,
}
use whisper_yaffs.Blocks.{
  Device, chunks_per_block, get_block_info, put_block_info, update_oldest_dirty_sequence,
}
use whisper_yaffs.Tnode.{Packing, load_level0_tnode, get_chunk_group_base}
use whisper_yaffs.Tnode.Tree.{
  Tnode, Allocator, put_child, null, is_null, free_tnode, ntnodes_internal, ntnodes_level0,
}
use whisper_yaffs.Files.{Store}

-- `yaffs_SoftDeleteChunk`. `none` is a report through YBUG.
unfoldable pub soft_delete_chunk : {N : Type 0} → Device N → (chunk : ℕ) → Option (Device N)
soft_delete_chunk d chunk =
    let b = chunk / chunks_per_block d in
    elim (get_block_info d b) [
      | none ↦ none
      | some bi ↦
          let bi' = record bi { soft_deletions = (bi.soft_deletions + 1) % 2 ^ 10 } in
          some (
            update_oldest_dirty_sequence
              (record (put_block_info d b bi') { n_free_chunks = u32 (d.n_free_chunks + 1) }) b bi')
    ]

-- The loop of `yaffs_SoftDeleteWorker` over the entries of a tnode of level 0, from entry `n - 1` down.
unfoldable pub soft_entries :
    {N : Type 0} → Packing → (n : ℕ) → List ℕ → Device N → Option (List ℕ × Device N)
soft_entries p zero words d = some (words, d)
soft_entries p (suc n) words d =
    let the_chunk = get_chunk_group_base p words n in
    elim (the_chunk == 0) [
      | true ↦ soft_entries p n words d
      | false ↦ elim (soft_delete_chunk d the_chunk) [
        | none ↦ none
        | some d1 ↦ soft_entries p n (load_level0_tnode p words n 0) d1
      ]
    ]

module _ {N A : Type 0} (allocator : Allocator A) where
  -- The loop over the pointers of a tnode, from pointer `n - 1` down, while all is done.
  unfoldable pub soft_children :
      (level : ℕ)
      → (Tnode level → Store N A → Option (Bool × Tnode level × Store N A))
      → (n : ℕ) → (ℕ → Tnode level)
      → Store N A
      → Option (Bool × (ℕ → Tnode level) × Store N A)
  soft_children level worker zero child s = some (true, child, s)
  soft_children level worker (suc n) child s = elim (is_null level (child n)) [
    | true ↦ soft_children level worker n child s
    | false ↦ elim (worker (child n) s) [
      | none ↦ none
      | some r ↦ elim r.0 [
        | false ↦ some (false, put_child child n r.1, r.2)
        | true ↦
            soft_children level worker n (put_child child n (null level))
              (record r.2 { tnodes = free_tnode allocator r.2.tnodes })
      ]
    ]
  ]

  -- `yaffs_SoftDeleteWorker`.
  unfoldable pub soft_delete_worker :
      (level : ℕ) → Tnode level → Store N A → Option (Bool × Tnode level × Store N A)
  soft_delete_worker zero none s = some (true, none, s)
  soft_delete_worker zero (some words) s =
      elim (soft_entries s.packing ntnodes_level0 words s.device) [
        | none ↦ none
        | some r ↦ some (true, some r.0, record s { device = r.1 })
      ]
  soft_delete_worker (suc level) none s = some (true, none, s)
  soft_delete_worker (suc level) (some child) s =
      elim (soft_children level (soft_delete_worker level) ntnodes_internal child s) [
        | none ↦ none
        | some r ↦ some (r.0, some r.1, r.2)
      ]
