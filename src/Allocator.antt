-- ===== src/Allocator.antt =====
-- yaffs_allocator.c: the pools of tnodes and objects, with their free lists, in the build without
-- CONFIG_YAFFS_YMALLOC_ALLOCATOR.
--
-- An address is a number, 0 for NULL. `next` is the memory that the free lists use: the first pointer
-- of a tnode and the sibling pointer of an object. YMALLOC and YFREE are the kernel's, a parameter.
-- The lists for freeing are only pushed and emptied: they are lists of a slab and its list node.
pub mod Chain
pub mod Pools
pub mod Lend
mod Tests
pub mod Tnodes
pub mod Objects
use whisper_yaffs.Prelude.{
  ℕ, zero, suc, ◌+◌, ◌-◌, ◌*◌, ◌%◌, ◌^◌, Bool, true, false, ◌||◌, List, [], ◌∷◌, Option, none, some,
  ◌==◌, ltb, not, truthy, if◌then◌else◌, u32,
}

abbrev pub null : ℕ
null = 0

-- `YAFFS_ALLOCATION_NTNODES` and `YAFFS_ALLOCATION_NOBJECTS`.
abbrev pub allocation_ntnodes : ℕ
allocation_ntnodes = 100

abbrev pub allocation_nobjects : ℕ
allocation_nobjects = 100

-- `YMALLOC` and `YFREE`.
pub record Kernel (M : Type 0) : Type 0 where
  pub ymalloc : M → (size : ℕ) → ℕ × M
  pub yfree : M → ℕ → M

-- The fields of `yaffs_Allocator` for nodes of one kind.
pub record Pool : Type 0 where
  pub n_created : ℕ
  pub free : ℕ
  pub n_free : ℕ
  pub allocated_list : List (ℕ × ℕ)

-- `yaffs_Allocator`, at its address.
pub record Allocator : Type 0 where
  pub address : ℕ
  pub tnodes : Pool
  pub objects : Pool

-- `sizeof(yaffs_TnodeList)`, `sizeof(yaffs_ObjectList)`, `sizeof(yaffs_Object)` and
-- `sizeof(yaffs_Allocator)`.
pub record NodeSizes : Type 0 where
  pub tnode_list : ℕ
  pub object_list : ℕ
  pub object : ℕ
  pub allocator : ℕ

-- The device and the memory.
pub record Machine (M : Type 0) : Type 0 where
  pub kernel : M
  pub next : ℕ → ℕ
  pub allocator : Option Allocator
  pub tnode_size : ℕ
  pub sizes : NodeSizes
  pub n_checkpoint_blocks_required : ℕ

-- `p->next = q`.
abbrev pub link : (ℕ → ℕ) → (p q : ℕ) → ℕ → ℕ
link next p q a = if p == a then q else next a

-- `&mem[i * size]`.
abbrev pub cell : (base size i : ℕ) → ℕ
cell base size i = base + i * size

-- The loop that hooks `rounds` nodes to their neighbours, from node `i` on.
unfoldable pub hook_loop : (base size rounds i : ℕ) → (ℕ → ℕ) → ℕ → ℕ
hook_loop base size zero i next = next
hook_loop base size (suc rounds) i next =
    hook_loop base size rounds (i + 1) (link next (cell base size i) (cell base size (i + 1)))

-- The nodes of a new slab before the free ones.
unfoldable pub hook : (base size n : ℕ) → (ℕ → ℕ) → Pool → (ℕ → ℕ) × Pool
hook base size n next pool = (
  link (hook_loop base size (n - 1) 0 next) (cell base size (n - 1)) pool.free,
  record pool { n_created = u32 (pool.n_created + n); free = base; n_free = u32 (pool.n_free + n) },
)

-- The first free node of a pool, or NULL.
unfoldable pub take_first : (ℕ → ℕ) → Pool → ℕ × Pool
take_first next pool = if pool.free == null then (null, pool) else (
  pool.free,
  record pool { free = next pool.free; n_free = u32 (pool.n_free + (2 ^ 32 - 1)) },
)

-- A node before the free ones.
abbrev pub put_first : ℕ → Pool → Pool
put_first p pool = record pool { free = p; n_free = u32 (pool.n_free + 1) }

abbrev pub empty_pool : (n_created : ℕ) → Pool
empty_pool n = record { n_created = n; free = null; n_free = 0; allocated_list = [] }

abbrev pub put_tnodes : {M : Type 0} → Machine M → Allocator → Pool → Machine M
put_tnodes d a pool = record d { allocator = some (record a { tnodes = pool }) }

abbrev pub put_objects : {M : Type 0} → Machine M → Allocator → Pool → Machine M
put_objects d a pool = record d { allocator = some (record a { objects = pool }) }

module _ {M : Type 0} (kernel : Kernel M) where
  open kernel use {yfree}

  -- The slabs of a list, each with its list node.
  unfoldable pub free_slabs : List (ℕ × ℕ) → M → M
  free_slabs [] m = m
  free_slabs (s ∷ rest) m = free_slabs rest (yfree (yfree m s.0) s.1)
