-- ===== src/Blocks/Accounts/Same.antt =====
-- What an operation leaves alone: the fields that the accounts are about, or all but one block.
use mathlib.Core.Path.{subst}
use whisper_yaffs.Prelude.{
  ℕ, ◌-◌, ◌≤◌, ◌≡◌, ◌≢◌, refl, sym, ap, ◌∙◌, Bool, true, false, ◌&&◌, some, arith, ◌==◌, ltb,
  if◌then◌else◌, get_elem?, set, truthy, get_elem-set_ne,
}
use whisper_yaffs.Bitmap.{Bitmap}
use whisper_yaffs.Prelude.{List, Option}
use whisper_yaffs.Blocks.{
  BlockInfo, Device, checkpoint, start_block, clear_oldest_dirty_sequence,
  update_oldest_dirty_sequence,
}
use whisper_yaffs.Blocks.Accounts.{Books, Owing, InRange, At}

-- Block `b` of a list of blocks, found by the bitmap's range.
abbrev pub Holds : Bitmap → List BlockInfo → ℕ → BlockInfo → Type 0
Holds m xs b bi = get_elem? xs (b - m.start_block) ≡ some bi

-- Everything but block `b`, and the blocks of the checkpoint, is as it was; so is the block that chunks
-- are allocated from. This is over the fields of the device that it is about.
pub record Fixed (b : ℕ) (m : Bitmap) (xs : List BlockInfo) (block : Option ℕ) (page : ℕ)
    (m' : Bitmap) (xs' : List BlockInfo) (block' : Option ℕ) (page' : ℕ) : Type 0 where
  pub start : m'.start_block ≡ m.start_block
  pub last : m'.end_block ≡ m.end_block
  pub chunks : m'.chunks_per_block ≡ m.chunks_per_block
  pub alloc_block : block' ≡ block
  pub alloc_page : page' ≡ page
  pub others :
      (b' : ℕ) (bi : BlockInfo)
      → b' ≢ b
      → (m.start_block ≤ b') × (b' ≤ m.end_block)
      → Holds m xs b' bi
      → (bi.block_state == checkpoint) ≡ false
      → Holds m' xs' b' bi

pub Around-trans :
    {b : ℕ} {m m1 m2 : Bitmap} {xs xs1 xs2 : List BlockInfo} {o o1 o2 : Option ℕ} {p p1 p2 : ℕ}
    → Fixed b m xs o p m1 xs1 o1 p1
    → Fixed b m1 xs1 o1 p1 m2 xs2 o2 p2
    → Fixed b m xs o p m2 xs2 o2 p2
Around-trans s t = record {
  start = t.start ∙ s.start;
  last = t.last ∙ s.last;
  chunks = t.chunks ∙ s.chunks;
  alloc_block = t.alloc_block ∙ s.alloc_block;
  alloc_page = t.alloc_page ∙ s.alloc_page;
  others = λ b' bi ne range at live.
      t.others b' bi ne (omega (arith, range, s.start), omega (arith, range, s.last))
        (s.others b' bi ne range at live) live;
}

module _ {N : Type 0} where
  -- The fields that the accounts are about are the same.
  pub record Same (d d' : Device N) : Type 0 where
    pub bitmap : d'.bitmap ≡ d.bitmap
    pub infos : d'.block_info ≡ d.block_info
    pub free : d'.n_free_chunks ≡ d.n_free_chunks
    pub erased_blocks : d'.n_erased_blocks ≡ d.n_erased_blocks
    pub alloc_block : d'.allocation_block ≡ d.allocation_block
    pub alloc_page : d'.allocation_page ≡ d.allocation_page

  pub Same-refl : (d : Device N) → Same d d
  Same-refl d = record {
    bitmap = refl;
    infos = refl;
    free = refl;
    erased_blocks = refl;
    alloc_block = refl;
    alloc_page = refl;
  }

  pub Same-if : {d x y : Device N} (c : Bool) → Same d x → Same d y → Same d (if c then x else y)
  Same-if true p q = p
  Same-if false p q = q

  pub Same-trans : {d e f : Device N} → Same d e → Same e f → Same d f
  Same-trans s t = record {
    bitmap = t.bitmap ∙ s.bitmap;
    infos = t.infos ∙ s.infos;
    free = t.free ∙ s.free;
    erased_blocks = t.erased_blocks ∙ s.erased_blocks;
    alloc_block = t.alloc_block ∙ s.alloc_block;
    alloc_page = t.alloc_page ∙ s.alloc_page;
  }

  pub clear_oldest-Same :
      (d : Device N) (bi : BlockInfo) → Same d (clear_oldest_dirty_sequence d bi)
  unfolding clear_oldest_dirty_sequence
  clear_oldest-Same d bi =
      Same-if (d.is_yaffs2 && bi.sequence_number == d.oldest_dirty_sequence)
        (record {
          bitmap = refl;
          infos = refl;
          free = refl;
          erased_blocks = refl;
          alloc_block = refl;
          alloc_page = refl;
        })
        (Same-refl d)

  pub update_oldest-Same :
      (d : Device N) (b : ℕ) (bi : BlockInfo) → Same d (update_oldest_dirty_sequence d b bi)
  unfolding update_oldest_dirty_sequence
  update_oldest-Same d b bi =
      Same-if
        (d.is_yaffs2
          && (truthy d.oldest_dirty_sequence && ltb bi.sequence_number d.oldest_dirty_sequence))
        (record {
          bitmap = refl;
          infos = refl;
          free = refl;
          erased_blocks = refl;
          alloc_block = refl;
          alloc_page = refl;
        })
        (Same-refl d)

  pub Owing-Same : {k : ℕ} {d d' : Device N} → Same d d' → Owing k d → Owing k d'
  Owing-Same {k} {d} {d'} s acc =
      let o1 =
        subst (λ m. Books m d.block_info d.n_free_chunks d.n_erased_blocks k) (sym s.bitmap) acc in
      let o2 =
        subst (λ xs. Books d'.bitmap xs d.n_free_chunks d.n_erased_blocks k) (sym s.infos) o1 in
      let o3 = subst (λ n. Books d'.bitmap d'.block_info n d.n_erased_blocks k) (sym s.free) o2 in
      subst (λ n. Books d'.bitmap d'.block_info d'.n_free_chunks n k) (sym s.erased_blocks) o3

  pub At-Same : {d d' : Device N} (b : ℕ) (bi : BlockInfo) → Same d d' → At d b bi → At d' b bi
  At-Same {d} {d'} b bi s at =
      ap (λ m. get_elem? d'.block_info (b - m.start_block)) s.bitmap
      ∙ ap (λ xs. get_elem? xs (b - start_block d)) s.infos
      ∙ at

  pub InRange-bitmap : (d d' : Device N) {b : ℕ} → d'.bitmap ≡ d.bitmap → InRange d b → InRange d' b
  InRange-bitmap d d' {b} e h = subst (λ m. (m.start_block ≤ b) × (b ≤ m.end_block)) (sym e) h

  abbrev pub Around : ℕ → Device N → Device N → Type 0
  Around b d d' =
      Fixed b d.bitmap d.block_info d.allocation_block d.allocation_page d'.bitmap d'.block_info
        d'.allocation_block d'.allocation_page

  pub Same-Around : {b : ℕ} {d d' : Device N} → Same d d' → Around b d d'
  Same-Around {b} {d} {d'} s = record {
    start = ap (λ m. m.start_block) s.bitmap;
    last = ap (λ m. m.end_block) s.bitmap;
    chunks = ap (λ m. m.chunks_per_block) s.bitmap;
    alloc_block = s.alloc_block;
    alloc_page = s.alloc_page;
    others = λ b' bi ne range at live. At-Same {d = d} {d' = d'} b' bi s at;
  }

  -- The other blocks, when one is replaced.
  pub put-others :
      (d : Device N) (b : ℕ) (new : BlockInfo)
      → InRange d b
      → (b' : ℕ) (bi : BlockInfo) → b' ≢ b
      → InRange d b'
      → At d b' bi
      → get_elem? (set d.block_info (b - start_block d) new) (b' - start_block d) ≡ some bi
  put-others d b new range b' bi ne range' at =
      get_elem-set_ne d.block_info (b - start_block d) (b' - start_block d) new
        (λ e. ne (omega (arith, e, range, range')))
      ∙ at
