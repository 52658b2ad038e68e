-- ===== src/Allocator/Tnodes.antt =====
-- yaffs_allocator.c: the pool of tnodes.
use whisper_yaffs.Prelude.{
  ℕ, ◌*◌, Bool, true, false, ◌∷◌, none, some, ◌==◌, ltb, if◌then◌else◌, u32,
}
use whisper_yaffs.Allocator.{
  null, allocation_ntnodes, Kernel, Allocator, Machine, link, hook, take_first, put_first,
  empty_pool, put_tnodes, free_slabs,
}

module _ {M : Type 0} (kernel : Kernel M) where
  open kernel use {ymalloc, yfree}

  -- `yaffs_DeinitialiseRawTnodes`.
  unfoldable pub deinitialise_raw_tnodes : Machine M → Machine M
  deinitialise_raw_tnodes d = elim d.allocator [
    | none ↦ d
    | some a ↦
        put_tnodes (record d { kernel = free_slabs kernel a.tnodes.allocated_list d.kernel }) a
          (empty_pool 0)
  ]

  -- `yaffs_InitialiseRawTnodes`.
  unfoldable pub initialise_raw_tnodes : Machine M → Machine M
  initialise_raw_tnodes d = elim d.allocator [ none ↦ d | some a ↦ put_tnodes d a (empty_pool 0) ]

  -- `yaffs_CreateTnodes`, of an allocator: the slab is in use even if there is no memory for its list
  -- node.
  unfoldable pub create_tnodes : Machine M → Allocator → (n : ℕ) → Bool × Machine M
  create_tnodes d a n =
      let slab = ymalloc d.kernel (u32 (n * d.tnode_size)) in
      let hooked = hook slab.0 d.tnode_size n d.next a.tnodes in
      let node = ymalloc slab.1 d.sizes.tnode_list in
      let listed = record hooked.1 {
        allocated_list = (slab.0, node.0) ∷ a.tnodes.allocated_list;
      } in
      let d1 = record d { kernel = node.1; next = hooked.0 } in
      if ltb n 1
      then (true, d)
      else if slab.0 == null
      then (false, record d { kernel = slab.1 })
      else if node.0 == null
      then (false, put_tnodes d1 a hooked.1)
      else (true, put_tnodes d1 a listed)

  -- `yaffs_AllocateRawTnode`, after more are made if there are none left.
  unfoldable pub take_tnode : Machine M → ℕ × Machine M
  take_tnode d = elim d.allocator [
    | none ↦ (null, d)
    | some a ↦ let t = take_first d.next a.tnodes in (t.0, put_tnodes d a t.1)
  ]

  -- `yaffs_AllocateRawTnode`.
  unfoldable pub allocate_raw_tnode : Machine M → ℕ × Machine M
  allocate_raw_tnode d = elim d.allocator [
    | none ↦ (null, d)
    | some a ↦
        take_tnode (if a.tnodes.free == null then (create_tnodes d a allocation_ntnodes).1 else d)
  ]

  -- `yaffs_FreeRawTnode`.
  unfoldable pub free_raw_tnode : Machine M → (tn : ℕ) → Machine M
  free_raw_tnode d tn = elim d.allocator [
    | none ↦ d
    | some a ↦
        let freed = record d {
          next = link d.next tn a.tnodes.free;
          allocator = some (record a { tnodes = put_first tn a.tnodes });
        } in
        record (if tn == null then d else freed) { n_checkpoint_blocks_required = 0 }
  ]
