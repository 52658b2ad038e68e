-- ===== src/Allocator/Lend.antt =====
-- Tnodes that are lent and given back.
use mathlib.Core.Path.{subst}
use whisper_yaffs.Prelude.{
  ℕ, suc, ◌+◌, ◌*◌, ◌^◌, ◌<◌, ◌≡◌, ◌≢◌, refl, sym, ap, ◌∙◌, true, false, List, [], ◌∷◌, ◌++◌, ◌==◌,
  Option, none, some, ◌⊎◌, inl, inr, if◌then◌else◌, arith, length, length-append, All, u32, ltb,
  Bool-cases,
}
use whisper_yaffs.Allocator.{
  Kernel, Pool, Allocator, Machine, allocation_ntnodes, hook, take_first, put_first, put_tnodes,
  link,
}
use whisper_yaffs.Allocator.Tnodes.{create_tnodes, take_tnode, allocate_raw_tnode, free_raw_tnode}
use whisper_yaffs.Allocator.Chain.{Distinct, Lacks, slots, length-slots, Lacks-right}
use whisper_yaffs.Allocator.Pools.{
  IsPool, hook-IsPool, take_first-IsPool, take_first-none, put_first-IsPool,
}

-- The device has an allocator, in whose pool of tnodes these are free and those in use.
pub record HasTnodes {M : Type 0} (d : Machine M) (free used : List ℕ) : Type 0 where
  pub allocator : Allocator
  pub present : d.allocator ≡ some allocator
  pub is_pool : IsPool d.next allocator.tnodes free used

-- A slab, if it is not NULL: none of its `n` nodes is NULL or in use.
abbrev pub IsFresh : (slab size n : ℕ) → (used : List ℕ) → Type 0
IsFresh slab size n used =
    (slab ≡ 0) ⊎ (Distinct (slots slab size 0 n ++ used) × All (λ a. a ≢ 0) (slots slab size 0 n))

-- What an allocation gives: NULL and no free tnode, or a tnode that was not in use.
abbrev pub Lends : {M : Type 0} → (tn : ℕ) → Machine M → (used : List ℕ) → Type 0
Lends tn d used =
    ((tn ≡ 0) × HasTnodes d [] used)
    ⊎ ((tn ≢ 0) × Lacks used tn × ((rest : List ℕ) × HasTnodes d rest (tn ∷ used)))

IsPool-listed :
    (next : ℕ → ℕ) (pool : Pool) (free used : List ℕ) (list : List (ℕ × ℕ))
    → IsPool next pool free used
    → IsPool next (record pool { allocated_list = list }) free used
IsPool-listed next pool free used list h = record {
  chain = h.chain;
  counted = h.counted;
  distinct = h.distinct;
}

module _ {M : Type 0} (kernel : Kernel M) where
  take_tnode_lem :
      (d : Machine M) (a : Allocator)
      → d.allocator ≡ some a
      → take_tnode kernel d
        ≡ ((take_first d.next a.tnodes).0, put_tnodes d a (take_first d.next a.tnodes).1)
  unfolding take_tnode
  take_tnode_lem d a present = rw (present, take_tnode)

  take_tnode-Lends :
      (d : Machine M) (a : Allocator) (free used : List ℕ)
      → d.allocator ≡ some a
      → IsPool d.next a.tnodes free used
      → length free < 2 ^ 32
      → Lends (take_tnode kernel d).0 (take_tnode kernel d).1 used
  take_tnode-Lends d a [] used present is_pool small =
      let t = take_first d.next a.tnodes in
      let empty = take_first-none d.next a.tnodes used is_pool in
      let pool : t.1 ≡ a.tnodes = ap (λ (r : ℕ × Pool). r.1) empty in
      subst (λ (r : ℕ × Machine M). Lends r.0 r.1 used) (sym (take_tnode_lem d a present))
        (inl (
          ap (λ (r : ℕ × Pool). r.0) empty,
          record {
            allocator = record a { tnodes = t.1 };
            present = refl;
            is_pool = subst (λ (p : Pool). IsPool d.next p [] used) (sym pool) is_pool;
          },
        ))
  take_tnode-Lends d a (x ∷ free) used present is_pool small =
      let t = take_first d.next a.tnodes in
      let taken = take_first-IsPool d.next a.tnodes x free used is_pool small in
      subst (λ (r : ℕ × Machine M). Lends r.0 r.1 used) (sym (take_tnode_lem d a present))
        (subst (λ (y : ℕ). Lends y (put_tnodes d a t.1) used) (sym taken.0)
          (inr (
            is_pool.chain.1,
            Lacks-right free used x is_pool.distinct.0,
            (
              free,
              record { allocator = record a { tnodes = t.1 }; present = refl; is_pool = taken.1 },
            ),
          )))

  -- `yaffs_CreateTnodes` of an empty pool, with memory or without.
  create_tnodes-HasTnodes :
      (d : Machine M) (a : Allocator) (n : ℕ) (used : List ℕ)
      → d.allocator ≡ some a
      → IsPool d.next a.tnodes [] used
      → suc n < 2 ^ 32
      → IsFresh (kernel.ymalloc d.kernel (u32 (suc n * d.tnode_size))).0 d.tnode_size (suc n) used
      → (free : List ℕ) × (length free < 2 ^ 32)
        × HasTnodes (create_tnodes kernel d a (suc n)).1 free used
  unfolding create_tnodes
  create_tnodes-HasTnodes d a n used present is_pool small fresh =
      let slab = kernel.ymalloc d.kernel (u32 (suc n * d.tnode_size)) in
      let node = kernel.ymalloc slab.1 d.sizes.tnode_list in
      let news = slots slab.0 d.tnode_size 0 (suc n) in
      let some_wanted : ltb (suc n) 1 ≡ false = ground arith in
      let long : length (news ++ []) ≡ suc n =
        omega (arith, length-append news [], length-slots slab.0 d.tnode_size 0 (suc n)) in
      let hooked = λ (f : Distinct (news ++ used)) (g : All (λ a. a ≢ 0) news).
        hook-IsPool slab.0 d.tnode_size n d.next a.tnodes [] used is_pool f g (omega arith) in
      elim (Bool-cases (slab.0 == 0)) [
        | inl refused ↦
            rw (some_wanted, refused)
              ([], omega arith, record { allocator = a; present = present; is_pool = is_pool })
        | inr given ↦ elim fresh [
          | inl null ↦ absurd (ground arith)
          | inr (apart, real) ↦ elim (Bool-cases (node.0 == 0)) [
            | inl unlisted ↦
                rw (some_wanted, given, unlisted)
                  (
                    news ++ [],
                    omega (arith, long),
                    record {
                      allocator = record a {
                        tnodes = (hook slab.0 d.tnode_size (suc n) d.next a.tnodes).1;
                      };
                      present = refl;
                      is_pool = hooked apart real;
                    },
                  )
            | inr listed ↦
                rw (some_wanted, given, listed)
                  (
                    news ++ [],
                    omega (arith, long),
                    record {
                      allocator = record a {
                        tnodes = record (hook slab.0 d.tnode_size (suc n) d.next a.tnodes).1 {
                          allocated_list = (slab.0, node.0) ∷ a.tnodes.allocated_list;
                        };
                      };
                      present = refl;
                      is_pool = IsPool-listed _ _ _ _ _ (hooked apart real);
                    },
                  )
          ]
        ]
      ]

  allocate_lem :
      (d : Machine M) (a : Allocator)
      → d.allocator ≡ some a
      → allocate_raw_tnode kernel d
        ≡ take_tnode kernel
            (if a.tnodes.free == 0 then (create_tnodes kernel d a allocation_ntnodes).1 else d)
  unfolding allocate_raw_tnode
  allocate_lem d a present =
      ap
        (λ (o : Option Allocator). elim o as (λ _. ℕ × Machine M) [
          | none ↦ (0, d)
          | some b ↦
              take_tnode kernel
                (if b.tnodes.free == 0 then (create_tnodes kernel d b allocation_ntnodes).1 else d)
        ])
        present

  free_lem :
      (d : Machine M) (a : Allocator) (tn : ℕ)
      → d.allocator ≡ some a
      → tn ≢ 0
      → free_raw_tnode kernel d tn ≡ record d {
        next = link d.next tn a.tnodes.free;
        allocator = some (record a { tnodes = put_first tn a.tnodes });
        n_checkpoint_blocks_required = 0;
      }
  unfolding free_raw_tnode
  free_lem d a tn present real =
      let there : (tn == 0) ≡ false = ground arith in
      ap
        (λ (o : Option Allocator). elim o as (λ _. Machine M) [
          | none ↦ d
          | some b ↦
              let freed = record d {
                next = link d.next tn b.tnodes.free;
                allocator = some (record b { tnodes = put_first tn b.tnodes });
              } in
              record (if tn == 0 then d else freed) { n_checkpoint_blocks_required = 0 }
        ])
        present
      ∙ (rw there)

-- `yaffs_AllocateRawTnode`, on a pool whose free list has the tnodes that are free, and where what
-- YMALLOC gives for a slab, if anything, is not in use: it gives NULL, and then no tnode is free, or a
-- tnode that was not in use. The pool is as well kept afterwards, with the tnode in use: the free
-- list has the free tnodes, their count is right, and no tnode is both free and in use or stands
-- twice.
pub allocate_raw_tnode-Lends :
    {M : Type 0} (kernel : Kernel M) (d : Machine M) (a : Allocator) (free used : List ℕ)
    → d.allocator ≡ some a
    → IsPool d.next a.tnodes free used
    → length free < 2 ^ 32
    → IsFresh
        (kernel.ymalloc d.kernel (u32 (allocation_ntnodes * d.tnode_size))).0
        d.tnode_size
        allocation_ntnodes
        used
    → let r = allocate_raw_tnode kernel d in Lends r.0 r.1 used
allocate_raw_tnode-Lends kernel d a [] used present is_pool small fresh =
    let empty : (a.tnodes.free == 0) ≡ true = ground (arith, is_pool.chain) in
    let (made, short, has) =
      create_tnodes-HasTnodes kernel d a 99 used present is_pool (omega arith) fresh in
    subst (λ (r : ℕ × Machine _). Lends r.0 r.1 used) (sym (allocate_lem kernel d a present))
      (rw empty (take_tnode-Lends kernel _ has.allocator made used has.present has.is_pool short))
allocate_raw_tnode-Lends kernel d a (x ∷ free) used present is_pool small fresh =
    let full : (a.tnodes.free == 0) ≡ false = ground (arith, is_pool.chain.0, is_pool.chain.1) in
    subst (λ (r : ℕ × Machine _). Lends r.0 r.1 used) (sym (allocate_lem kernel d a present))
      (rw full (take_tnode-Lends kernel d a (x ∷ free) used present is_pool small))

-- `yaffs_FreeRawTnode` of a tnode in use: it is free, and the next to be lent. The pool is as well kept
-- afterwards, and the size of the checkpoint is to be computed again.
pub free_raw_tnode-HasTnodes :
    {M : Type 0} (kernel : Kernel M) (d : Machine M) (a : Allocator) (tn : ℕ) (free used : List ℕ)
    → d.allocator ≡ some a
    → IsPool d.next a.tnodes free (tn ∷ used)
    → tn ≢ 0
    → length free + 1 < 2 ^ 32
    → let freed = free_raw_tnode kernel d tn in
      HasTnodes freed (tn ∷ free) used
      × (freed.n_checkpoint_blocks_required ≡ 0)
      × ((allocate_raw_tnode kernel freed).0 ≡ tn)
unfolding allocate_raw_tnode take_tnode
free_raw_tnode-HasTnodes kernel d a tn free used present is_pool real small =
    let there : (tn == 0) ≡ false = ground arith in
    let put = put_first-IsPool d.next a.tnodes tn free used is_pool real small in
    subst
      (λ (e : Machine _).
        HasTnodes e (tn ∷ free) used
        × (e.n_checkpoint_blocks_required ≡ 0)
        × ((allocate_raw_tnode kernel e).0 ≡ tn))
      (sym (free_lem kernel d a tn present real))
      (
        record {
          allocator = record a { tnodes = put_first tn a.tnodes };
          present = refl;
          is_pool = put;
        },
        refl,
        rw there
            (take_first-IsPool (link d.next tn a.tnodes.free) (put_first tn a.tnodes) tn free used
              put (omega arith)).0,
      )
