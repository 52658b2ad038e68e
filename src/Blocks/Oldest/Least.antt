-- ===== src/Blocks/Oldest/Least.antt =====
-- yaffs2_CalcOldestDirtySequence finds the least sequence number of the dirty blocks, and its block.
use whisper_yaffs.Prelude.{
  ℕ, suc, ◌+◌, ◌^◌, ◌≤◌, ◌<◌, ◌≡◌, refl, ◌∙◌, true, false, ◌&&◌, List, [], ◌∷◌, some, ltb, truthy,
  u32, All, arith, get_elem?, ◌⊎◌, inl, inr, Bool-cases,
}
use whisper_yaffs.Blocks.{BlockInfo, Device, full, start_block, chunks_per_block}
use whisper_yaffs.Blocks.Oldest.{has_discarded, oldest_loop, calc_oldest_dirty_sequence}

-- A full block with fewer than `n` pages in use, the softly deleted ones not counted.
abbrev pub IsDirty : (n : ℕ) → BlockInfo → Type 0
IsDirty n b = (b.block_state ≡ full) × (b.pages_in_use < n + b.soft_deletions)

-- The signed fields of 10 bits are not negative.
abbrev pub IsSmall : BlockInfo → Type 0
IsSmall b = (b.pages_in_use < 512) × (b.soft_deletions < 512)

has_discarded-IsDirty : (n : ℕ) (b : BlockInfo) → IsSmall b → has_discarded n b ≡ true → IsDirty n b
unfolding has_discarded
has_discarded-IsDirty n b small e = (ground (arith, e), ground (arith, e, small))

IsDirty-has_discarded : (n : ℕ) (b : BlockInfo) → IsSmall b → IsDirty n b → has_discarded n b ≡ true
unfolding has_discarded
IsDirty-has_discarded n b small h = ground (arith, h, small)

-- No dirty block has a smaller number.
abbrev pub NoneBelow : (n : ℕ) → List BlockInfo → (seq : ℕ) → Type 0
NoneBelow n bs seq = All (λ b. IsDirty n b → seq ≤ b.sequence_number) bs

-- The number is that of a dirty block, from those that are numbered from `i` on.
record Attains (n : ℕ) (bs : List BlockInfo) (i : ℕ) (r : ℕ × ℕ) : Type 0 where
  k : ℕ
  info : BlockInfo
  at : get_elem? bs k ≡ some info
  dirty : IsDirty n info
  seq : r.0 ≡ info.sequence_number
  block : r.1 ≡ i + k

record Least (n : ℕ) (bs : List BlockInfo) (i seq block_no : ℕ) (r : ℕ × ℕ) : Type 0 where
  bound : r.0 ≤ seq
  below : NoneBelow n bs r.0
  origin : ((r.0 ≡ seq) × (r.1 ≡ block_no)) ⊎ Attains n bs i r

oldest_loop-Least :
    (n : ℕ) (bs : List BlockInfo) (i seq block_no : ℕ)
    → All IsSmall bs
    → Least n bs i seq block_no (oldest_loop n bs i seq block_no)
unfolding oldest_loop
oldest_loop-Least n [] i seq block_no small = record {
  bound = omega arith;
  below = tt;
  origin = inl (refl, refl);
}
oldest_loop-Least n (b ∷ bs) i seq block_no (here, rest) =
    elim (Bool-cases (has_discarded n b && ltb b.sequence_number seq)) [
      | inl taken ↦
          let r = oldest_loop-Least n bs (i + 1) b.sequence_number i rest in
          let dirty = has_discarded-IsDirty n b here (ground (arith, taken)) in
          rw taken (record {
            bound = ground (arith, r.bound, taken);
            below = (λ h. r.bound, r.below);
            origin = inr (elim r.origin [
              | inl same ↦ record {
                k = 0;
                info = b;
                at = refl;
                dirty = dirty;
                seq = same.0;
                block = omega (arith, same.1);
              }
              | inr a ↦ record {
                k = suc a.k;
                info = a.info;
                at = a.at;
                dirty = a.dirty;
                seq = a.seq;
                block = omega (arith, a.block);
              }
            ]);
          })
      | inr skipped ↦
          let r = oldest_loop-Least n bs (i + 1) seq block_no rest in
          rw skipped (record {
            bound = r.bound;
            below = (
              λ h.
                  let is_dirty = IsDirty-has_discarded n b here h in
                  ground (arith, r.bound, skipped, is_dirty),
              r.below,
            );
            origin = elim r.origin [
              | inl same ↦ inl same
              | inr a ↦ inr (record {
                k = suc a.k;
                info = a.info;
                at = a.at;
                dirty = a.dirty;
                seq = a.seq;
                block = omega (arith, a.block);
              })
            ];
          })
    ]

none_dirty :
    (n top : ℕ) (bs : List BlockInfo)
    → NoneBelow n bs (top + 1)
    → All (λ b. b.sequence_number ≤ top) bs
    → All (λ b. ¬ IsDirty n b) bs
none_dirty n top [] below high = tt
none_dirty n top (b ∷ bs) (below, more) (high, rest) =
    (λ h. let late = below h in absurd (omega (arith, late, high)), none_dirty n top bs more rest)

module _ {N : Type 0} where
  -- What the search leaves: a dirty block with the least sequence number of the dirty blocks, or the
  -- device as it was if no block is dirty.
  abbrev pub Finds : (d d' : Device N) → Type 0
  Finds d d' =
      ((k : ℕ) × (b : BlockInfo) × (get_elem? d.block_info k ≡ some b)
        × IsDirty (chunks_per_block d) b
        × NoneBelow (chunks_per_block d) d.block_info b.sequence_number
        × (d' ≡ record d {
          oldest_dirty_sequence = b.sequence_number;
          oldest_dirty_block = start_block d + k;
        }))
      ⊎ (All (λ b. ¬ IsDirty (chunks_per_block d) b) d.block_info × (d' ≡ d))

  -- `yaffs2_CalcOldestDirtySequence` finds a dirty block whose sequence number is the least of the dirty
  -- blocks, with that number, and changes nothing else; where no block is dirty it changes nothing. A
  -- block is dirty if it is full and has fewer pages in use than a block has, the softly deleted ones not
  -- counted. This is for a yaffs2 device whose first block is not block 0 and whose blocks are not newer
  -- than its own sequence number, with fields of 10 bits that are not negative.
  pub calc_oldest_dirty_sequence-Finds :
      (d : Device N)
      → d.is_yaffs2 ≡ true
      → 1 ≤ start_block d
      → d.sequence_number + 1 < 2 ^ 32
      → All IsSmall d.block_info
      → All (λ b. b.sequence_number ≤ d.sequence_number) d.block_info
      → Finds d (calc_oldest_dirty_sequence d)
  unfolding calc_oldest_dirty_sequence
  calc_oldest_dirty_sequence-Finds d yaffs2 first fits small high =
      let n = chunks_per_block d in
      let r = oldest_loop n d.block_info (start_block d) (u32 (d.sequence_number + 1)) 0 in
      let least =
        oldest_loop-Least n d.block_info (start_block d) (u32 (d.sequence_number + 1)) 0 small in
      let own : u32 (d.sequence_number + 1) ≡ d.sequence_number + 1 = omega (arith, fits) in
      elim least.origin [
        | inl same ↦
            let unset : (d.is_yaffs2 && truthy r.1) ≡ false = ground (arith, same.1) in
            inr (
              none_dirty n d.sequence_number d.block_info (rw (same.0 ∙ own) at least.below) high,
              rw unset refl,
            )
        | inr a ↦
            let set_ : (d.is_yaffs2 && truthy r.1) ≡ true =
              ground (arith, a.block, first, yaffs2) in
            inl
              (a.k, a.info, a.at, a.dirty, rw a.seq at least.below, rw (set_, a.seq, a.block) refl)
      ]
