-- ===== src/Blocks/Accounts/Allocate.antt =====
-- The allocation of a chunk: the accounts, the open block and the bitmap after it.
use mathlib.Core.Path.{subst}
use whisper_yaffs.Prelude.{
  ℕ, ◌+◌, ◌-◌, ◌*◌, ◌≤◌, ◌≡◌, refl, ap, ◌∙◌, Bool, true, ◌||◌, none, some, arith, u32, ◌⊎◌, inl,
  inr, get_elem-set_self,
}
use whisper_yaffs.Blocks.{BlockInfo, Device, empty, allocating, start_block, chunks_per_block}
use whisper_yaffs.Blocks.Allocate.{take_block, open_block, allocate_chunk, may_allocate}
use whisper_yaffs.Blocks.Accounts.{Accounts, InRange, At, get_block_info-At, IsInfo-At}
use whisper_yaffs.Blocks.Reserve.{
  check_space_for_allocation, calc_checkpoint_blocks_required, cache_blocks_required,
  checkpoint_required, checkpoint_bytes,
}
use whisper_yaffs.Blocks.Accounts.Same.{Same, Same-refl, Same-if, Owing-Same}
use whisper_yaffs.Blocks.Accounts.Open.{Open, Open-Same, Allocates}
use whisper_yaffs.Blocks.Accounts.Find.{find_block_for_allocation-finds}
use whisper_yaffs.Blocks.Accounts.Page.{take_page-Allocates}

module _ {N : Type 0} where
  -- A block to allocate from is at hand, or an erased one is left.
  abbrev pub HasRoom : Device N → Type 0
  HasRoom d =
      ((b : ℕ) × (bi : BlockInfo) × Open d b bi)
      ⊎ ((d.allocation_block ≡ none) × (1 ≤ d.n_erased_blocks))

  -- The block that a search took is open.
  taken_block-Open :
      (d : Device N) (b : ℕ) (bi : BlockInfo)
      → Accounts d
      → InRange d b
      → At d b bi
      → bi.block_state ≡ empty
      → (ti : BlockInfo) × Open
          (record (take_block d b bi) { allocation_block = some b; allocation_page = 0 })
          b
          ti
  unfolding take_block
  taken_block-Open d b bi acc range at e =
      let none_used : bi.pages_in_use ≡ 0 = (IsInfo-At d b bi acc at).unused (ground (arith, e)) in
      let ti = record bi {
        block_state = allocating;
        sequence_number = u32 (d.sequence_number + 1);
      } in
      (
        ti,
        record {
          block = refl;
          range = range;
          at =
              get_elem-set_self d.block_info (b - start_block d) ti
                (omega (arith, range, acc.sized));
          state = refl;
          page = acc.page.0;
          used = omega (arith, none_used);
        },
      )

  -- What `open_block` leaves: an open block, and the same chunks free.
  pub record Opened (d : Device N) (d1 : Device N) : Type 0 where
    pub done : open_block d ≡ some d1
    pub accounts : Accounts d1
    pub b : ℕ
    pub bi : BlockInfo
    pub opened : Open d1 b bi
    pub same_free : d1.n_free_chunks ≡ d.n_free_chunks
    pub same_bits : d1.bitmap ≡ d.bitmap
    pub same_space : (check_space_for_allocation d1 1).0 ≡ (check_space_for_allocation d 1).0

  pub open_block-opens : (d : Device N) → Accounts d → HasRoom d → (d1 : Device N) × Opened d d1
  unfolding open_block take_block checkpoint_required checkpoint_bytes
  open_block-opens d acc (inl (b, bi, o)) = (
    d,
    record {
      done = simp (o.block, open_block) refl;
      accounts = acc;
      b = b;
      bi = bi;
      opened = o;
      same_free = refl;
      same_bits = refl;
      same_space = refl;
    },
  )
  open_block-opens d acc (inr (closed, left)) =
      let (b, bi, d', found, takes, acc', count) = find_block_for_allocation-finds d acc left in
      let df = record d { allocation_block_finder = b } in
      let (ti, o) = taken_block-Open df b bi acc takes.range takes.at takes.was_empty in
      (
        record (take_block df b bi) { allocation_block = some b; allocation_page = 0 },
        record {
          done =
              simp (closed, found, open_block)
                (ap
                  (λ (x : Device N).
                    some (record x { allocation_block = some b; allocation_page = 0 }))
                  takes.now);
          accounts = subst (λ x. Accounts x) takes.now acc';
          b = b;
          bi = ti;
          opened = o;
          same_free = refl;
          same_bits = refl;
          same_space =
              unfold check_space_for_allocation in
              unfold calc_checkpoint_blocks_required in unfold cache_blocks_required in refl;
        },
      )

  pub may_allocate-Same :
      (d : Device N) (use_reserve : Bool) → Same d (may_allocate d use_reserve).1
  unfolding may_allocate check_space_for_allocation calc_checkpoint_blocks_required
      cache_blocks_required
  may_allocate-Same d use_reserve =
      Same-if use_reserve (Same-refl d) (Same-if d.is_yaffs2 same (Same-refl d))
    where
      same : Same d (cache_blocks_required d)
      same = record {
        bitmap = refl;
        infos = refl;
        free = refl;
        erased_blocks = refl;
        alloc_block = refl;
        alloc_page = refl;
      }

  -- The page that is taken from an open block, when the allocation is allowed.
  pub take-allowed :
      (d d1 : Device N) (use_reserve : Bool)
      → Opened d d1
      → (may_allocate d1 use_reserve).0 ≡ true
      → (b : ℕ) × (p : ℕ) × (d' : Device N) × (allocate_chunk d use_reserve
          ≡ some (some (b * chunks_per_block d + p), d'))
        × Allocates d.bitmap d.n_free_chunks b p d'
  unfolding allocate_chunk
  take-allowed d d1 use_reserve o may =
      let d2 = (may_allocate d1 use_reserve).1 in
      let s = may_allocate-Same d1 use_reserve in
      let open2 = Open-Same o.b o.bi s o.opened in
      let (d', done, a) = take_page-Allocates d2 o.b o.bi (Owing-Same s o.accounts) open2 in
      let got = get_block_info-At d2 o.b o.bi open2.range open2.at in
      let same_m = s.bitmap ∙ o.same_bits in
      let same_n = ap (λ m. m.chunks_per_block) same_m in
      (
        o.b,
        d2.allocation_page,
        d',
        simp (o.done, may, open2.block, got, allocate_chunk)
            (done ∙ ap (λ n. some (some (o.b * n + d2.allocation_page), d')) same_n),
        subst (λ m. Allocates m d.n_free_chunks o.b d2.allocation_page d') same_m
            (subst (λ k. Allocates d2.bitmap k o.b d2.allocation_page d') (s.free ∙ o.same_free) a),
      )

  -- An allocation that may use the reserve, or has space without it, with a block at hand or an erased
  -- one left, gives a page: its bit is set and no other changed, one chunk is free less, and the accounts
  -- and the open block stay right.
  pub allocate_chunk-Allocates :
      (d : Device N) (use_reserve : Bool)
      → Accounts d
      → HasRoom d
      → (use_reserve || (check_space_for_allocation d 1).0) ≡ true
      → (b : ℕ) × (p : ℕ) × (d' : Device N) × (allocate_chunk d use_reserve
          ≡ some (some (b * chunks_per_block d + p), d'))
        × Allocates d.bitmap d.n_free_chunks b p d'
  allocate_chunk-Allocates d use_reserve acc room may =
      let (d1, o) = open_block-opens d acc room in
      let allowed : (may_allocate d1 use_reserve).0 ≡ true =
        unfold may_allocate in rw o.same_space may in
      take-allowed d d1 use_reserve o allowed
