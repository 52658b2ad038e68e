-- ===== src/Blocks/Accounts/Erase.antt =====
-- The erasure of checkpoint blocks: the accounts, and the blocks that it leaves alone.
use whisper_yaffs.Prelude.{
  ℕ, zero, suc, ◌+◌, ◌-◌, ◌≤◌, ◌≡◌, ◌≢◌, refl, ap, ◌∙◌, false, ◌||◌, some, arith, ◌==◌, get_elem?,
  set, u32, inl, inr, Bool-cases, ==_iff, get_elem-set_ne,
}
use whisper_yaffs.Blocks.{
  BlockInfo, Device, Driver, empty, checkpoint, dead, start_block, end_block, chunks_per_block,
  int_lt,
}
use whisper_yaffs.Blocks.Erase.{
  reclaimed, given_up, checkpoint_erase_block, checkpoint_erase_loop, checkpoint_erase,
  invalidate_checkpoint,
}
use whisper_yaffs.Blocks.Accounts.Keeps.{Keeps, Keeps-refl, Keeps-trans}
use whisper_yaffs.Blocks.Accounts.{
  Owing, InRange, At, At-same, IsInfo, Accounts-Replaces, get_block_info-At, free_chunks,
  counters-bound, IsInfo-At, At-some,
}

module _ {N : Type 0} (debt : ℕ) (driver : Driver N) (d : Device N) (i : ℕ) (bi : BlockInfo)
    (acc : Owing debt d) (range : InRange d i) (at : At d i bi)
    (state : bi.block_state ≡ checkpoint) where
  info : IsInfo (chunks_per_block d) bi
  info = IsInfo-At d i bi acc at

  none_used : bi.pages_in_use ≡ 0
  none_used = info.unused (ground (arith, state))

  not_checkpoint : (s : ℕ) → s ≡ checkpoint → (s == checkpoint) ≡ false → ⊥
  not_checkpoint s e h = ground arith

  others_kept :
      (new : BlockInfo) (b : ℕ) (old : BlockInfo)
      → InRange d b
      → At d b old
      → (old.block_state == checkpoint) ≡ false
      → get_elem? (set d.block_info (i - start_block d) new) (b - start_block d) ≡ some old
  others_kept new b old h at_b s =
      let apart : (i - start_block d) ≢ (b - start_block d) = λ e.
        not_checkpoint old.block_state
          (ap (λ x. x.block_state) (At-same d (omega (arith, e, h, range)) at_b at) ∙ state) s in
      get_elem-set_ne d.block_info (i - start_block d) (b - start_block d) new apart ∙ at_b

  reclaimed-Keeps : Keeps debt d (reclaimed driver d i bi)
  unfolding reclaimed free_chunks
  reclaimed-Keeps =
      let bounds = counters-bound d acc in
      record {
        accounts =
            Accounts-Replaces {d = d} {d' = reclaimed driver d i bi} {b = i} acc at
              (record { pages = info.pages; unused = λ h. none_used })
              (record {
                same_start = refl;
                same_end = refl;
                same_chunks = refl;
                bits_valid = acc.bits;
                blocks = refl;
                free_moves = rw state (omega (arith, bounds.0, acc.page.1));
                erased_moves = rw state (omega (arith, bounds.1));
              });
        bitmap = refl;
        alloc_block = refl;
        alloc_page = refl;
        others = others_kept (record bi { block_state = empty });
      }

  given_up-Keeps : Keeps debt d (given_up driver d i bi)
  unfolding given_up free_chunks
  given_up-Keeps =
      let bounds = counters-bound d acc in
      record {
        accounts =
            Accounts-Replaces {d = d} {d' = given_up driver d i bi} {b = i} acc at
              (record { pages = info.pages; unused = λ h. none_used })
              (record {
                same_start = refl;
                same_end = refl;
                same_chunks = refl;
                bits_valid = acc.bits;
                blocks = refl;
                free_moves = rw state refl;
                erased_moves = rw state refl;
              });
        bitmap = refl;
        alloc_block = refl;
        alloc_page = refl;
        others = others_kept (record bi { block_state = dead });
      }

module _ {N : Type 0} (debt : ℕ) (driver : Driver N) where
  checkpoint_erase_block-Keeps :
      (d : Device N) (i : ℕ)
      → Owing debt d
      → InRange d i
      → (d' : Device N) × (checkpoint_erase_block driver d i ≡ some d') × Keeps debt d d'
  unfolding checkpoint_erase_block
  checkpoint_erase_block-Keeps d i acc range =
      let (bi, at) = At-some d acc i range in
      let got = get_block_info-At d i bi range at in
      let r = driver.erase_block d.nand (i - d.block_offset) in
      let d1 = record d { nand = r.1; n_block_erasures = u32 (d.n_block_erasures + 1) } in
      elim (Bool-cases (bi.block_state == checkpoint)) [
        | inr other ↦ (d, simp (got, other, checkpoint_erase_block) refl, Keeps-refl debt d acc)
        | inl held ↦
            let state = (==_iff bi.block_state checkpoint).0 held in
            elim (Bool-cases r.0) [
              | inl ok ↦
                  let k = reclaimed-Keeps debt driver d1 i bi acc range at state in
                  (
                    reclaimed driver d1 i bi,
                    simp (got, held, ok, checkpoint_erase_block) refl,
                    record {
                      accounts = k.accounts;
                      bitmap = k.bitmap;
                      alloc_block = k.alloc_block;
                      alloc_page = k.alloc_page;
                      others = k.others;
                    },
                  )
              | inr failed ↦
                  let k = given_up-Keeps debt driver d1 i bi acc range at state in
                  (
                    given_up driver d1 i bi,
                    simp (got, held, failed, checkpoint_erase_block) refl,
                    record {
                      accounts = k.accounts;
                      bitmap = k.bitmap;
                      alloc_block = k.alloc_block;
                      alloc_page = k.alloc_page;
                      others = k.others;
                    },
                  )
            ]
      ]

  checkpoint_erase_loop-Keeps :
      (n i : ℕ) (d : Device N)
      → Owing debt d
      → start_block d ≤ i
      → i + n ≤ end_block d + 1
      → (d' : Device N) × (checkpoint_erase_loop driver n i d ≡ some d') × Keeps debt d d'
  unfolding checkpoint_erase_loop
  checkpoint_erase_loop-Keeps zero i d acc low high = (d, refl, Keeps-refl debt d acc)
  checkpoint_erase_loop-Keeps (suc n) i d acc low high =
      let (d1, done, k) = checkpoint_erase_block-Keeps d i acc (low, omega arith) in
      let low1 : start_block d1 ≤ i + 1 = omega (arith, ap (λ m. m.start_block) k.bitmap) in
      let high1 : i + 1 + n ≤ end_block d1 + 1 = omega (arith, ap (λ m. m.end_block) k.bitmap) in
      let (d2, done', l) = checkpoint_erase_loop-Keeps n (i + 1) d1 k.accounts low1 high1 in
      (d2, simp (done, checkpoint_erase_loop) done', Keeps-trans debt k l)

  pub checkpoint_erase-Keeps :
      (d : Device N)
      → Owing debt d
      → (d' : Device N) × (checkpoint_erase driver d ≡ some d') × Keeps debt d d'
  unfolding checkpoint_erase
  checkpoint_erase-Keeps d acc =
      let (d1, done, k) =
        checkpoint_erase_loop-Keeps (end_block d + 1 - start_block d) (start_block d) d acc
          (omega arith) (omega (arith, acc.range)) in
      (
        record d1 { blocks_in_checkpoint = 0 },
        simp (done, checkpoint_erase) refl,
        record {
          accounts = k.accounts;
          bitmap = k.bitmap;
          alloc_block = k.alloc_block;
          alloc_page = k.alloc_page;
          others = k.others;
        },
      )

  -- `yaffs2_InvalidateCheckpoint` runs to its end, whatever the driver answers: the accounts stay right,
  -- the bitmap and every block outside the checkpoint stay as they are.
  pub invalidate_checkpoint-Keeps :
      (d : Device N)
      → Owing debt d
      → (d' : Device N) × (invalidate_checkpoint driver d ≡ some d') × Keeps debt d d'
  unfolding invalidate_checkpoint
  invalidate_checkpoint-Keeps d acc =
      let (d1, done, k) = checkpoint_erase-Keeps (record d { is_checkpointed = false }) acc in
      elim (Bool-cases (d.is_checkpointed || int_lt 0 d.blocks_in_checkpoint)) [
        | inl held ↦ (
          record d1 { nand = driver.mark_super_block_dirty d1.nand },
          simp (held, done, invalidate_checkpoint) refl,
          record {
            accounts = k.accounts;
            bitmap = k.bitmap;
            alloc_block = k.alloc_block;
            alloc_page = k.alloc_page;
            others = k.others;
          },
        )
        | inr free ↦ (
          record d { nand = driver.mark_super_block_dirty d.nand },
          simp (free, invalidate_checkpoint) refl,
          record {
            accounts = acc;
            bitmap = refl;
            alloc_block = refl;
            alloc_page = refl;
            others = λ b bi h at s. at;
          },
        )
      ]
