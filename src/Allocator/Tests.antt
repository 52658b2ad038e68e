-- ===== src/Allocator/Tests.antt =====
-- A kernel that gives memory in ascending order, and a pool of tnodes over it.
use whisper_yaffs.Prelude.{
  ℕ, zero, suc, ◌+◌, ◌≤◌, ◌<◌, ◌≡◌, ◌≢◌, refl, [], ◌∷◌, ◌++◌, some, inr, arith, All,
}
use whisper_yaffs.Allocator.{
  Kernel, Allocator, Machine, hook, hook_loop, take_first, empty_pool, cell,
}
use whisper_yaffs.Allocator.Tnodes.{create_tnodes, take_tnode, allocate_raw_tnode, free_raw_tnode}
use whisper_yaffs.Allocator.Chain.{Distinct, Lacks, slots}
use whisper_yaffs.Allocator.Lend.{
  HasTnodes, Lends, allocate_raw_tnode-Lends, free_raw_tnode-HasTnodes,
}

-- The memory is the next free address.
abbrev ascending : Kernel ℕ
ascending = record { ymalloc = λ m size. (m, m + size); yfree = λ m p. m }

abbrev fresh_allocator : Allocator
fresh_allocator = record { address = 8; tnodes = empty_pool 0; objects = empty_pool 0 }

abbrev machine : Machine ℕ
machine = record {
  kernel = 1024;
  next = λ p. 0;
  allocator = some fresh_allocator;
  tnode_size = 32;
  sizes = record { tnode_list = 16; object_list = 16; object = 200; allocator = 64 };
  n_checkpoint_blocks_required = 3;
}

slots-Lacks : (base size i n a : ℕ) → a < cell base size i → Lacks (slots base size i n ++ []) a
unfolding slots
slots-Lacks base size i zero a h = tt
slots-Lacks base size i (suc n) a h =
    let next : cell base size i ≤ cell base size (i + 1) = grind arith in
    (λ e. absurd (omega arith), slots-Lacks base size (i + 1) n a (omega arith))

slots-Distinct : (base size i n : ℕ) → 0 < size → Distinct (slots base size i n ++ [])
unfolding slots
slots-Distinct base size i zero h = tt
slots-Distinct base size i (suc n) h =
    let next : cell base size i < cell base size (i + 1) = grind arith in
    (slots-Lacks base size (i + 1) n (cell base size i) next, slots-Distinct base size (i + 1) n h)

slots_some : (base size i n : ℕ) → 0 < base → All (λ a. a ≢ 0) (slots base size i n)
unfolding slots
slots_some base size i zero h = tt
slots_some base size i (suc n) h = (λ e. absurd (omega arith), slots_some base size (i + 1) n h)

-- The first allocation makes a slab and lends its first tnode; the next lends the second.
first_lent : (allocate_raw_tnode ascending machine).0 ≡ 1024
unfolding allocate_raw_tnode take_tnode create_tnodes take_first hook hook_loop
first_lent = refl

second_lent : (allocate_raw_tnode ascending (allocate_raw_tnode ascending machine).1).0 ≡ 1056
unfolding allocate_raw_tnode take_tnode create_tnodes take_first hook hook_loop
second_lent = refl

allocate_raw_tnode-Lends_example : let r = allocate_raw_tnode ascending machine in Lends r.0 r.1 []
allocate_raw_tnode-Lends_example =
    allocate_raw_tnode-Lends ascending machine fresh_allocator [] [] refl
      (record { chain = refl; counted = refl; distinct = tt }) (omega arith)
      (inr (slots-Distinct 1024 32 0 100 (omega arith), slots_some 1024 32 0 100 (omega arith)))

free_raw_tnode-HasTnodes_example :
    let freed = free_raw_tnode ascending machine 640 in
    HasTnodes freed (640 ∷ []) []
    × (freed.n_checkpoint_blocks_required ≡ 0)
    × ((allocate_raw_tnode ascending freed).0 ≡ 640)
free_raw_tnode-HasTnodes_example =
    free_raw_tnode-HasTnodes ascending machine fresh_allocator 640 [] [] refl
      (record { chain = refl; counted = refl; distinct = (tt, tt) }) (omega arith) (omega arith)
