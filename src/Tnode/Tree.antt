-- ===== src/Tnode/Tree.antt =====
-- yaffs_guts.c: the look-up tree of a file, from the number of a chunk in the file to the tnode of level
-- 0 that has its entry.
--
-- A pointer to a tnode is an option, with `none` for NULL: the tree has no sharing. The level says how
-- the code reads the memory of a tnode, so it indexes the type. The raw allocation of
-- yaffs_allocator.c is an interface, of which the two build choices of that file are instances.
pub mod Digits
pub mod Lookup
pub mod Height
pub mod Add
pub mod Pruning
pub mod Prune
use whisper_yaffs.Prelude.{
  ℕ, zero, suc, ◌+◌, ◌-◌, ◌*◌, ◌/◌, ◌%◌, ◌^◌, ◌>>>◌, bit_and, Bool, true, false, not, ◌&&◌, ◌||◌,
  List, [], ◌∷◌, ◌++◌, Option, none, some, ◌==◌, ltb, truthy, if◌then◌else◌, replicate, take, drop,
  u32,
}

abbrev pub tnodes_level0_bits : ℕ
tnodes_level0_bits = 4

abbrev pub ntnodes_level0 : ℕ
ntnodes_level0 = 16

abbrev pub tnodes_internal_bits : ℕ
tnodes_internal_bits = 3

abbrev pub ntnodes_internal : ℕ
ntnodes_internal = 8

abbrev pub tnodes_internal_mask : ℕ
tnodes_internal_mask = 0x7

abbrev pub tnodes_max_level : ℕ
tnodes_max_level = 6

abbrev pub max_chunk_id : ℕ
max_chunk_id = 0x000FFFFF

-- A pointer to a tnode: the words of one of level 0, or the pointers of one above.
abbrev pub Tnode : (level : ℕ) → Type 0
Tnode zero = Option (List ℕ)
Tnode (suc level) = Option (ℕ → Tnode level)

-- `yaffs_FileStructure`, the fields of the tree.
pub record FileStructure : Type 0 where
  pub top_level : ℕ
  pub top : Tnode top_level

-- `yaffs_AllocateRawTnode`, whether it gives memory, and `yaffs_FreeRawTnode`.
pub record Allocator (A : Type 0) : Type 0 where
  pub allocate_raw : A → Bool × A
  pub free_raw : A → A

-- The fields of `yaffs_Device` about tnodes; a tnode has `n_words` words, of which the entries take the
-- first `n_entry_words`.
pub record Tnodes (A : Type 0) : Type 0 where
  pub raw : A
  pub n_tnodes : ℕ
  pub n_checkpoint_blocks_required : ℕ
  pub n_words : ℕ
  pub n_entry_words : ℕ

-- The pointer of an internal tnode that leads to a chunk, one level above `level`.
unfoldable pub slot : (level chunk : ℕ) → ℕ
slot level chunk =
    bit_and (chunk >>> (tnodes_level0_bits + level * tnodes_internal_bits)) tnodes_internal_mask

-- The loop for the height that a chunk needs: at most `fuel` rounds.
unfoldable pub tallness_loop : (fuel x : ℕ) → ℕ
tallness_loop zero x = 0
tallness_loop (suc fuel) x =
    let rest = tallness_loop fuel (x >>> tnodes_internal_bits) in if x == 0 then 0 else suc rest

-- A chunk number has 28 bits above the lowest four.
unfoldable pub required_tallness : (chunk : ℕ) → ℕ
required_tallness chunk = tallness_loop 10 (chunk >>> tnodes_level0_bits)

-- The way down of `yaffs_FindLevel0Tnode`.
unfoldable pub find_down : (level : ℕ) → Tnode level → (chunk : ℕ) → Tnode 0
find_down zero tn chunk = tn
find_down (suc level) none chunk = none
find_down (suc level) (some child) chunk = find_down level (child (slot level chunk)) chunk

-- `yaffs_FindLevel0Tnode`.
unfoldable pub find_level0_tnode : FileStructure → (chunk : ℕ) → Tnode 0
find_level0_tnode f chunk =
    if ltb tnodes_max_level f.top_level
      || (ltb max_chunk_id chunk || ltb f.top_level (required_tallness chunk))
    then none
    else find_down f.top_level f.top chunk

-- `tn->internal[x] = new`.
abbrev pub put_child : {T : Type 0} → (ℕ → T) → ℕ → T → ℕ → T
put_child child x new i = if i == x then new else child i

abbrev pub null : (level : ℕ) → Tnode level
null zero = none
null (suc level) = none

abbrev pub is_null : (level : ℕ) → Tnode level → Bool
is_null zero none = true
is_null zero (some words) = false
is_null (suc level) none = true
is_null (suc level) (some child) = false

-- The memory of `yaffs_GetTnode`, which is cleared.
unfoldable pub cleared : (n_words level : ℕ) → Tnode level
cleared n_words zero = some (replicate n_words 0)
cleared n_words (suc level) = some (λ i. null level)

module _ {A : Type 0} (allocator : Allocator A) where
  open allocator use {allocate_raw, free_raw}

  -- `yaffs_GetTnode`: whether there is memory for a tnode.
  unfoldable pub get_tnode : Tnodes A → Bool × Tnodes A
  get_tnode s =
      let r = allocate_raw s.raw in
      (
        r.0,
        record s {
          raw = r.1;
          n_tnodes = if r.0 then u32 (s.n_tnodes + 1) else s.n_tnodes;
          n_checkpoint_blocks_required = 0;
        },
      )

  -- `yaffs_FreeTnode`.
  unfoldable pub free_tnode : Tnodes A → Tnodes A
  free_tnode s = record s {
    raw = free_raw s.raw;
    n_tnodes = u32 (s.n_tnodes + (2 ^ 32 - 1));
    n_checkpoint_blocks_required = 0;
  }

  -- The loop of `yaffs_AddOrFindLevel0Tnode` that makes the tree `n` levels taller, and whether it can.
  unfoldable pub grow : (n : ℕ) → FileStructure → Tnodes A → Bool × FileStructure × Tnodes A
  grow zero f s = (true, f, s)
  grow (suc n) f s =
      let r = get_tnode s in
      elim r.0 [
        | true ↦
            let child : ℕ → Tnode f.top_level = put_child (λ i. null f.top_level) 0 f.top in
            grow n (record { top_level = suc f.top_level; top = some child }) r.1
        | false ↦ (false, f, r.1)
      ]

  -- The pointer to a tnode of level 0: the one that is passed takes its place, or one is added.
  unfoldable pub place : Tnode 0 → (passed : Tnode 0) → Tnodes A → Tnode 0 × Tnodes A
  place none (some p) s = (some p, s)
  place (some words) (some p) s = (some p, free_tnode s)
  place (some words) none s = (some words, s)
  place none none s = let r = get_tnode s in (if r.0 then cleared s.n_words 0 else none, r.1)

  -- The way down, with the tnodes that are missing: the tnode of level 0 or NULL, and the tree.
  unfoldable pub add_down :
      (level : ℕ)
      → Tnode level
      → (chunk : ℕ) → (passed : Tnode 0) → Tnodes A
      → Tnode 0 × Tnode level × Tnodes A
  add_down zero tn chunk passed s = (tn, tn, s)
  add_down (suc level) none chunk passed s = (none, none, s)
  add_down (suc zero) (some child) chunk passed s =
      let x = slot 0 chunk in
      let r = place (child x) passed s in (r.0, some (put_child child x r.0), r.1)
  add_down (suc (suc level)) (some child) chunk passed s =
      let x = slot (suc level) chunk in
      elim (child x) [
        | some below ↦
            let r = add_down (suc level) (some below) chunk passed s in
            (r.0, some (put_child child x r.1), r.2)
        | none ↦
            let g = get_tnode s in
            let r = add_down (suc level) (cleared s.n_words (suc level)) chunk passed g.1 in
            elim g.0 [
              | true ↦ (r.0, some (put_child child x r.1), r.2)
              | false ↦ (none, some child, g.1)
            ]
      ]

  -- A tree of level 0: the entries of a passed tnode are copied. `none` is a copy to NULL.
  unfoldable pub copy_entries :
      Tnode 0 → (passed : Tnode 0) → Tnodes A → Option (Tnode 0 × Tnodes A)
  copy_entries tn none s = some (tn, s)
  copy_entries none (some p) s = none
  copy_entries (some words) (some p) s =
      some (some (take s.n_entry_words p ++ drop s.n_entry_words words), free_tnode s)

  -- The second half of `yaffs_AddOrFindLevel0Tnode`.
  unfoldable pub add_below :
      (level : ℕ)
      → Tnode level
      → (chunk : ℕ) → (passed : Tnode 0) → Tnodes A
      → Option (Tnode 0 × FileStructure × Tnodes A)
  add_below zero tn chunk passed s = elim (copy_entries tn passed s) [
    | none ↦ none
    | some r ↦ some (r.0, record { top_level = zero; top = r.0 }, r.1)
  ]
  add_below (suc level) tn chunk passed s =
      let r = add_down (suc level) tn chunk passed s in
      some (r.0, record { top_level = suc level; top = r.1 }, r.2)

  -- `yaffs_AddOrFindLevel0Tnode`.
  unfoldable pub add_or_find_level0_tnode :
      FileStructure
      → (chunk : ℕ) → (passed : Tnode 0) → Tnodes A
      → Option (Tnode 0 × FileStructure × Tnodes A)
  add_or_find_level0_tnode f chunk passed s =
      let g = grow (required_tallness chunk - f.top_level) f s in
      if ltb tnodes_max_level f.top_level || ltb max_chunk_id chunk
      then some (none, f, s)
      else if g.0
      then add_below g.1.top_level g.1.top chunk passed g.2
      else some (none, g.1, g.2)
