-- ===== src/Blocks/Accounts/Dirty.antt =====
-- A block that has become dirty, and the deletion of a chunk: the accounts after them.
use whisper_yaffs.Prelude.{
  ℕ, ◌+◌, ◌-◌, ◌≡◌, refl, ap, ◌∙◌, false, ◌||◌, some, arith, ◌==◌, get_elem?, u32, inl, inr,
  Bool-cases, get_elem-set_self, total-at,
}
use whisper_yaffs.Bitmap.Count.{clear_chunk_bits-frame}
use whisper_yaffs.Blocks.{
  BlockInfo, Device, Driver, empty, checkpoint, dead, dirty, start_block, chunks_per_block,
  put_block_info, sub32, clear_oldest_dirty_sequence,
}
use whisper_yaffs.Blocks.Dirty.{erased_info, mark_dirty, cleaned, lost, block_became_dirty}
use whisper_yaffs.Blocks.Accounts.{
  Owing, Accounts, InRange, At, Accounts-Replaces, get_block_info-At, free_chunks, counters-bound,
}
use whisper_yaffs.Blocks.Accounts.Keeps.{Keeps-Around}
use whisper_yaffs.Blocks.Accounts.Erase.{invalidate_checkpoint-Keeps}
use whisper_yaffs.Blocks.Nand.{erase_block_in_nand}
use whisper_yaffs.Blocks.Accounts.Same.{
  Owing-Same, At-Same, InRange-bitmap, clear_oldest-Same, Around, Around-trans, Same-Around,
  put-others,
}
use whisper_yaffs.Blocks.Accounts.Retire.{IsDirty, dirty_free, not_erased, retire_block-Accounts}

module _ {N : Type 0} (driver : Driver N) where
  lost-Accounts :
      (d : Device N) (b : ℕ) (bi : BlockInfo)
      → Accounts d
      → InRange d b
      → At d b bi
      → IsDirty bi
      → (d' : Device N) × (lost driver d b ≡ some d') × Accounts d' × Around b d d'
  unfolding lost
  lost-Accounts d b bi acc range at h =
      let n = chunks_per_block d in
      let bounds = counters-bound d acc in
      let enough = total-at (free_chunks n) d.block_info (b - start_block d) bi at in
      let d1 = record d { n_free_chunks = sub32 d.n_free_chunks n } in
      let owing : Owing n d1 = record {
        range = acc.range;
        last = acc.last;
        sized = acc.sized;
        page = acc.page;
        small = acc.small;
        infos = acc.infos;
        bits = acc.bits;
        free = omega (arith, acc.free, enough, dirty_free n bi h, bounds.0, acc.page.1);
        empty_blocks = acc.empty_blocks;
      } in
      retire_block-Accounts driver d1 b bi owing range at h

  cleaned-Accounts :
      (d : Device N) (b : ℕ) (bi : BlockInfo)
      → Accounts d
      → InRange d b
      → At d b bi
      → IsDirty bi
      → (d' : Device N) × (cleaned d b ≡ some d') × Accounts d' × Around b d d'
  unfolding cleaned free_chunks
  cleaned-Accounts d b bi acc range at h =
      let bounds = counters-bound d acc in
      let got = get_block_info-At d b bi range at in
      let (m, done, valid, same_start, same_end, same_chunks) =
        clear_chunk_bits-frame d.bitmap b acc.bits range in
      let d' = record (put_block_info d b (erased_info bi)) {
        n_erased_blocks = u32 (d.n_erased_blocks + 1);
        bitmap = m;
      } in
      (
        d',
        simp (got, done, cleaned) refl,
        Accounts-Replaces {d = d} {d' = d'} {b = b} acc at
            (record { pages = omega arith; unused = λ e. refl })
            (record {
              same_start = same_start;
              same_end = same_end;
              same_chunks = same_chunks;
              bits_valid = valid;
              blocks = refl;
              free_moves = omega (arith, dirty_free (chunks_per_block d) bi h);
              erased_moves = omega (arith, not_erased bi h.state, bounds.1);
            }),
        record {
          start = same_start;
          last = same_end;
          chunks = same_chunks;
          alloc_block = refl;
          alloc_page = refl;
          others = λ b' old ne r a live.
              ap (λ k. get_elem? d'.block_info (b' - k)) same_start
              ∙ put-others d b (erased_info bi) range b' old ne r a;
        },
      )

  -- A block without a page in use that is not erased, lost or part of the checkpoint.
  abbrev pub IsUnused : BlockInfo → Type 0
  IsUnused bi =
      (bi.pages_in_use ≡ 0)
      × ((bi.block_state == empty || (bi.block_state == dead || bi.block_state == checkpoint))
          ≡ false)

  mark_dirty-Accounts :
      (d : Device N) (b : ℕ) (bi : BlockInfo)
      → Accounts d
      → InRange d b
      → At d b bi
      → IsUnused bi
      → Accounts (mark_dirty d b bi)
        × InRange (mark_dirty d b bi) b
        × At (mark_dirty d b bi) b (record bi { block_state = dirty })
        × Around b d (mark_dirty d b bi)
  unfolding mark_dirty free_chunks
  mark_dirty-Accounts d b bi acc range at h =
      let dc = clear_oldest_dirty_sequence d bi in
      let s = clear_oldest-Same d bi in
      let accc = Owing-Same s acc in
      let atc = At-Same b bi s at in
      let rangec = InRange-bitmap d dc s.bitmap range in
      let new = record bi { block_state = dirty } in
      (
        Accounts-Replaces {d = dc} {d' = mark_dirty d b bi} {b = b} accc atc
            (record { pages = omega (arith, h.0); unused = λ e. h.0 })
            (record {
              same_start = refl;
              same_end = refl;
              same_chunks = refl;
              bits_valid = accc.bits;
              blocks = refl;
              free_moves = ground (arith, h);
              erased_moves = ground (arith, h);
            }),
        rangec,
        get_elem-set_self dc.block_info (b - start_block dc) new
            (omega (arith, rangec, accc.sized)),
        Around-trans (Same-Around s) (record {
          start = refl;
          last = refl;
          chunks = refl;
          alloc_block = refl;
          alloc_page = refl;
          others = λ b' old ne r a live. put-others dc b new rangec b' old ne r a;
        }),
      )

  -- `yaffs_BlockBecameDirty` runs to its end, whether the block is erased or retired, and the accounts
  -- stay right, for a block without a page in use that is not erased, lost or part of the checkpoint. The
  -- other blocks outside the checkpoint stay as they are, and so does the open block.
  pub block_became_dirty-Accounts :
      (d : Device N) (b : ℕ) (bi : BlockInfo)
      → Accounts d
      → InRange d b
      → At d b bi
      → IsUnused bi
      → (d' : Device N) × (block_became_dirty driver d b ≡ some d') × Accounts d' × Around b d d'
  unfolding block_became_dirty erase_block_in_nand
  block_became_dirty-Accounts d b bi acc range at h =
      let got = get_block_info-At d b bi range at in
      let d1 = mark_dirty d b bi in
      let new = record bi { block_state = dirty } in
      let (acc1, range1, at1, around1) = mark_dirty-Accounts d b bi acc range at h in
      let is_dirty : IsDirty new = record { state = refl; no_pages = h.0 } in
      elim (Bool-cases bi.needs_retiring) [
        | inl retire ↦
            let (d', done, acc', around) = lost-Accounts d1 b new acc1 range1 at1 is_dirty in
            (d', simp (got, retire, block_became_dirty) done, acc', Around-trans around1 around)
        | inr keep ↦
            let (d2, done, k) = invalidate_checkpoint-Keeps 0 driver d1 acc1 in
            let at2 = k.others b new range1 at1 refl in
            let range2 = InRange-bitmap d1 d2 k.bitmap range1 in
            let around2 = Around-trans around1 (Keeps-Around 0 k) in
            let r = driver.erase_block d2.nand (b - d2.block_offset) in
            let e = record d2 { nand = r.1; n_block_erasures = u32 (d2.n_block_erasures + 1) } in
            elim (Bool-cases r.0) [
              | inl ok ↦
                  let (d', clean, acc', around) =
                    cleaned-Accounts e b new k.accounts range2 at2 is_dirty in
                  (
                    d',
                    simp (got, keep, done, ok, block_became_dirty) clean,
                    acc',
                    Around-trans around2 around,
                  )
              | inr failed ↦
                  let f = record e { n_erasure_failures = u32 (d2.n_erasure_failures + 1) } in
                  let (d', lose, acc', around) =
                    lost-Accounts f b new k.accounts range2 at2 is_dirty in
                  (
                    d',
                    simp (got, keep, done, failed, block_became_dirty) lose,
                    acc',
                    Around-trans around2 around,
                  )
            ]
      ]
