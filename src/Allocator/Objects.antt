-- ===== src/Allocator/Objects.antt =====
-- yaffs_allocator.c: the pool of objects, and both pools together.
use whisper_yaffs.Prelude.{
  ℕ, ◌*◌, Bool, true, false, ◌||◌, ◌∷◌, none, some, ◌==◌, ltb, if◌then◌else◌,
}
use whisper_yaffs.Allocator.{
  null, allocation_nobjects, Kernel, Allocator, Machine, link, hook, take_first, put_first,
  empty_pool, put_objects, free_slabs,
}
use whisper_yaffs.Allocator.Tnodes.{initialise_raw_tnodes, deinitialise_raw_tnodes}

module _ {M : Type 0} (kernel : Kernel M) where
  open kernel use {ymalloc, yfree}

  -- `yaffs_InitialiseRawObjects`, which leaves the count of the nodes made.
  unfoldable pub initialise_raw_objects : Machine M → Machine M
  initialise_raw_objects d = elim d.allocator [
    | none ↦ d
    | some a ↦ put_objects d a (empty_pool a.objects.n_created)
  ]

  -- `yaffs_DeinitialiseRawObjects`.
  unfoldable pub deinitialise_raw_objects : Machine M → Machine M
  deinitialise_raw_objects d = elim d.allocator [
    | none ↦ d
    | some a ↦
        put_objects (record d { kernel = free_slabs kernel a.objects.allocated_list d.kernel }) a
          (empty_pool 0)
  ]

  -- `yaffs_CreateFreeObjects`, of an allocator: without memory for both, neither is kept.
  unfoldable pub create_free_objects : Machine M → Allocator → (n : ℕ) → Bool × Machine M
  create_free_objects d a n =
      let slab = ymalloc d.kernel (n * d.sizes.object) in
      let node = ymalloc slab.1 d.sizes.object_list in
      let k1 = if slab.0 == null then node.1 else yfree node.1 slab.0 in
      let k2 = if node.0 == null then k1 else yfree k1 node.0 in
      let hooked = hook slab.0 d.sizes.object n d.next a.objects in
      let listed = record hooked.1 {
        allocated_list = (slab.0, node.0) ∷ a.objects.allocated_list;
      } in
      if ltb n 1
      then (true, d)
      else if slab.0 == null || node.0 == null
      then (false, record d { kernel = k2 })
      else (true, put_objects (record d { kernel = node.1; next = hooked.0 }) a listed)

  unfoldable pub take_object : Machine M → ℕ × Machine M
  take_object d = elim d.allocator [
    | none ↦ (null, d)
    | some a ↦ let t = take_first d.next a.objects in (t.0, put_objects d a t.1)
  ]

  -- `yaffs_AllocateRawObject`.
  unfoldable pub allocate_raw_object : Machine M → ℕ × Machine M
  allocate_raw_object d = elim d.allocator [
    | none ↦ (null, d)
    | some a ↦
        take_object
          (if a.objects.free == null then (create_free_objects d a allocation_nobjects).1 else d)
  ]

  -- `yaffs_FreeRawObject`.
  unfoldable pub free_raw_object : Machine M → (obj : ℕ) → Machine M
  free_raw_object d obj = elim d.allocator [
    | none ↦ d
    | some a ↦ record d {
      next = link d.next obj a.objects.free;
      allocator = some (record a { objects = put_first obj a.objects });
    }
  ]

  -- `yaffs_DeinitialiseRawTnodesAndObjects`.
  unfoldable pub deinitialise_raw : Machine M → Machine M
  deinitialise_raw d =
      let d1 = deinitialise_raw_objects (deinitialise_raw_tnodes kernel d) in
      elim d.allocator [
        | none ↦ d
        | some a ↦ record d1 { kernel = yfree d1.kernel a.address; allocator = none }
      ]

  -- `yaffs_InitialiseRawTnodesAndObjects`: `left` is what the memory of the count of objects held.
  unfoldable pub initialise_raw : Machine M → (left : ℕ) → Machine M
  initialise_raw d left =
      let r = ymalloc d.kernel d.sizes.allocator in
      let made = record d {
        kernel = r.1;
        allocator =
            some (record { address = r.0; tnodes = empty_pool left; objects = empty_pool left });
      } in
      elim d.allocator [
        | none ↦
            if r.0 == null
            then record d { kernel = r.1 }
            else initialise_raw_objects (initialise_raw_tnodes kernel made)
        | some a ↦ d
      ]
