-- ===== src/Tnode/Tree/Pruning.antt =====
-- yaffs_PruneWorker and yaffs_PruneFileStructure of yaffs_guts.c: tnodes without a word are given back, and
-- the tree is made lower.
use whisper_yaffs.Prelude.{
  ℕ, zero, suc, ◌+◌, ◌-◌, Bool, true, false, not, ◌&&◌, ◌||◌, List, [], ◌∷◌, Option, none, some,
  ◌==◌, truthy, if◌then◌else◌,
}
use whisper_yaffs.Tnode.Tree.{
  Tnode, FileStructure, Tnodes, Allocator, put_child, is_null, ntnodes_internal, free_tnode,
}

-- The words of a tnode are looked at from the first on.
unfoldable pub has_words : (n : ℕ) → List ℕ → Bool
has_words zero words = false
has_words (suc n) [] = false
has_words (suc n) (w ∷ words) = truthy w || has_words n words

-- The loop of `yaffs_PruneWorker` over the pointers of a tnode, from pointer `i` on.
unfoldable pub prune_children :
    {A : Type 0}
    → (level : ℕ) → (Tnode level → Bool → Tnodes A → Tnode level × Tnodes A)
    → (n i : ℕ) → (ℕ → Tnode level)
    → (del0 has_data : Bool) → Tnodes A
    → (ℕ → Tnode level) × Bool × Tnodes A
prune_children level worker zero i child del0 has_data s = (child, has_data, s)
prune_children level worker (suc n) i child del0 has_data s =
    let r = worker (child i) (if i == 0 then del0 else true) s in
    prune_children level worker n (i + 1) (put_child child i r.0) del0
      (has_data || not (is_null level r.0)) r.1

-- Whether a pointer but the first is in use.
unfoldable pub has_others : (level n i : ℕ) → (ℕ → Tnode level) → Bool
has_others level zero i child = false
has_others level (suc n) i child = not (is_null level (child i)) || has_others level n (i + 1) child

module _ {A : Type 0} (allocator : Allocator A) where
  -- `yaffs_PruneWorker`.
  unfoldable pub prune_worker :
      (level : ℕ) → Tnode level → (del0 : Bool) → Tnodes A → Tnode level × Tnodes A
  prune_worker zero none del0 s = (none, s)
  prune_worker zero (some words) del0 s =
      if not (has_words s.n_words words) && del0
      then (none, free_tnode allocator s)
      else (some words, s)
  prune_worker (suc level) none del0 s = (none, s)
  prune_worker (suc level) (some child) del0 s =
      let r = prune_children level (prune_worker level) ntnodes_internal 0 child del0 false s in
      if not r.1 && del0 then (none, free_tnode allocator r.2) else (some r.0, r.2)

  -- The loop of `yaffs_PruneFileStructure` that makes the tree lower. `none` is an access through NULL.
  unfoldable pub lower : (level : ℕ) → Tnode level → Tnodes A → Option (FileStructure × Tnodes A)
  lower zero tn s = some (record { top_level = zero; top = tn }, s)
  lower (suc level) none s = none
  lower (suc level) (some child) s =
      let rest = lower level (child 0) (free_tnode allocator s) in
      if has_others level (ntnodes_internal - 1) 1 child
      then some (record { top_level = suc level; top = some child }, s)
      else rest

  -- `yaffs_PruneFileStructure`.
  unfoldable pub prune_file_structure : FileStructure → Tnodes A → Option (FileStructure × Tnodes A)
  prune_file_structure f s =
      let r = prune_worker f.top_level f.top false s in
      if f.top_level == 0 then some (f, s) else lower f.top_level r.0 r.1
