-- ===== src/Blocks/Accounts/Open.antt =====
-- The block that chunks are allocated from, and the block of the chunk that was allocated last.
use whisper_yaffs.Prelude.{
  ℕ, ◌+◌, ◌-◌, ◌≤◌, ◌<◌, ◌≡◌, refl, sym, ◌∙◌, true, none, some, arith, ◌⊎◌, inl, inr,
  get_elem-set_self,
}
use whisper_yaffs.Bitmap.{Bitmap}
use whisper_yaffs.Bitmap.View.{Updates}
use whisper_yaffs.Blocks.{
  BlockInfo, Device, allocating, start_block, chunks_per_block, put_block_info,
}
use whisper_yaffs.Blocks.Dirty.{holds_chunks}
use whisper_yaffs.Blocks.Accounts.{
  Accounts, InRange, At, IsInfo, Accounts-Replaces, IsInfo-At, free_chunks,
}
use whisper_yaffs.Blocks.Accounts.Same.{Same, Owing-Same, At-Same, InRange-bitmap}

module _ {N : Type 0} where
  -- The block that chunks are allocated from, with a page left.
  pub record Open (d : Device N) (b : ℕ) (bi : BlockInfo) : Type 0 where
    pub block : d.allocation_block ≡ some b
    pub range : InRange d b
    pub at : At d b bi
    pub state : bi.block_state ≡ allocating
    pub page : d.allocation_page < chunks_per_block d
    pub used : bi.pages_in_use ≤ d.allocation_page

  -- Either no block is open, or the one that is has a page left.
  abbrev pub IsOpen : Device N → Type 0
  IsOpen d = (d.allocation_block ≡ none) ⊎ ((b : ℕ) × (bi : BlockInfo) × Open d b bi)

  -- A block with a page in use, which is the open one unless none is open.
  pub record Ready (d : Device N) (b : ℕ) : Type 0 where
    pub accounts : Accounts d
    pub info : BlockInfo
    pub range : InRange d b
    pub at : At d b info
    pub holds : holds_chunks info ≡ true
    pub some_page : 1 ≤ info.pages_in_use
    pub opened : (d.allocation_block ≡ none) ⊎ Open d b info

  pub Ready-IsOpen : {d : Device N} {b : ℕ} → Ready d b → IsOpen d
  Ready-IsOpen {d} {b} r = elim r.opened [ inl closed ↦ inl closed | inr o ↦ inr (b, r.info, o) ]

  -- What an allocation of page `p` of block `b` has done, with bitmap `m` and `free` chunks before.
  pub record Allocates (m : Bitmap) (free b p : ℕ) (d' : Device N) : Type 0 where
    pub range : (m.start_block ≤ b) × (b ≤ m.end_block)
    pub page : p < m.chunks_per_block
    pub accounts : Accounts d'
    pub opened : IsOpen d'
    pub ready : Ready d' b
    pub one_less : d'.n_free_chunks + 1 ≡ free
    pub bit : Updates m b p true d'.bitmap

  pub Open-Same :
      {d d' : Device N} (b : ℕ) (bi : BlockInfo) → Same d d' → Open d b bi → Open d' b bi
  Open-Same {d} {d'} b bi s o = record {
    block = s.alloc_block ∙ o.block;
    range = InRange-bitmap d d' s.bitmap o.range;
    at = At-Same {d = d} {d' = d'} b bi s o.at;
    state = o.state;
    page = rw (s.bitmap, s.alloc_page) o.page;
    used = rw s.alloc_page o.used;
  }

  pub Ready-Same :
      {d d' : Device N} {b : ℕ}
      → Same d d'
      → (r : Ready d b) → (r' : Ready d' b) × (r'.info ≡ r.info)
  Ready-Same {d} {d'} {b} s r = (
    record {
      accounts = Owing-Same s r.accounts;
      info = r.info;
      range = InRange-bitmap d d' s.bitmap r.range;
      at = At-Same {d = d} {d' = d'} b r.info s r.at;
      holds = r.holds;
      some_page = r.some_page;
      opened = elim r.opened [
        | inl closed ↦ inl (s.alloc_block ∙ closed)
        | inr o ↦ inr (Open-Same b r.info s o)
      ];
    },
    refl,
  )

  -- The state and the pages of a block are all that the accounts read of it.
  pub Ready-put :
      (d : Device N) (b : ℕ) (new : BlockInfo)
      → (r : Ready d b) → new.block_state ≡ r.info.block_state
      → new.pages_in_use ≡ r.info.pages_in_use
      → Ready (put_block_info d b new) b
  Ready-put d b new r same_state same_pages = record {
    accounts =
        Accounts-Replaces {d = d} {d' = put_block_info d b new} {b = b} r.accounts r.at info
          (record {
            same_start = refl;
            same_end = refl;
            same_chunks = refl;
            bits_valid = r.accounts.bits;
            blocks = refl;
            free_moves = unfold free_chunks in rw (same_state, same_pages) refl;
            erased_moves = rw same_state refl;
          });
    info = new;
    range = r.range;
    at = at;
    holds = rw same_state r.holds;
    some_page = rw same_pages r.some_page;
    opened = elim r.opened [
      | inl closed ↦ inl closed
      | inr o ↦ inr (record {
        block = o.block;
        range = o.range;
        at = at;
        state = same_state ∙ o.state;
        page = o.page;
        used = rw same_pages o.used;
      })
    ];
  }
    where
      old_info : IsInfo (chunks_per_block d) r.info
      old_info = IsInfo-At d b r.info r.accounts r.at

      info : IsInfo (chunks_per_block d) new
      info = record {
        pages = rw same_pages old_info.pages;
        unused = λ e. same_pages ∙ old_info.unused (rw (sym same_state) e);
      }

      at : At (put_block_info d b new) b new
      at =
          get_elem-set_self d.block_info (b - start_block d) new
            (omega (arith, r.range, r.accounts.sized))
