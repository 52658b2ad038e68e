-- ===== src/Blocks/Accounts/Retire.antt =====
-- The retirement of a dirty block: the accounts, and what it leaves alone.
use whisper_yaffs.Prelude.{
  ℕ, ◌+◌, ◌-◌, ◌≡◌, refl, ap, ◌∙◌, false, some, arith, u32, length-set, All-set, total-set,
}
use whisper_yaffs.Blocks.{
  BlockInfo, Device, Driver, dead, dirty, start_block, chunks_per_block, put_block_info,
  clear_oldest_dirty_sequence,
}
use whisper_yaffs.Blocks.Nand.{mark_bad_in_nand, erase_block_in_nand}
use whisper_yaffs.Blocks.Erase.{mark_retired, retire_block}
use whisper_yaffs.Blocks.Accounts.{
  Owing, Accounts, InRange, At, IsInfo, get_block_info-At, erased, free_chunks,
}
use whisper_yaffs.Blocks.Accounts.Same.{
  Same, Same-if, Same-trans, Owing-Same, At-Same, InRange-bitmap, clear_oldest-Same, Around,
  Around-trans, Same-Around, put-others,
}
use whisper_yaffs.Blocks.Accounts.Keeps.{Keeps-Around}
use whisper_yaffs.Blocks.Accounts.Erase.{invalidate_checkpoint-Keeps}

pub not_erased : (bi : BlockInfo) → bi.block_state ≡ dirty → erased bi ≡ 0
not_erased bi e = ground (arith, e)

-- A dirty block without a page in use.
pub record IsDirty (bi : BlockInfo) : Type 0 where
  pub state : bi.block_state ≡ dirty
  pub no_pages : bi.pages_in_use ≡ 0

pub dirty_free : (n : ℕ) (bi : BlockInfo) → IsDirty bi → free_chunks n bi ≡ n
unfolding free_chunks
dirty_free n bi h = rw h.state (omega (arith, h.no_pages))

module _ {N : Type 0} (driver : Driver N) where
  mark_retired-Same : (d : Device N) (b : ℕ) → Same d (mark_retired driver d b)
  unfolding mark_retired mark_bad_in_nand erase_block_in_nand
  mark_retired-Same d b =
      let r = driver.mark_block_bad d.nand (b - d.block_offset) in
      let e = driver.erase_block r.1 (b - d.block_offset) in
      Same-if r.0
        (record {
          bitmap = refl;
          infos = refl;
          free = refl;
          erased_blocks = refl;
          alloc_block = refl;
          alloc_page = refl;
        })
        (Same-if e.0
          (record {
            bitmap = refl;
            infos = refl;
            free = refl;
            erased_blocks = refl;
            alloc_block = refl;
            alloc_page = refl;
          })
          (record {
            bitmap = refl;
            infos = refl;
            free = refl;
            erased_blocks = refl;
            alloc_block = refl;
            alloc_page = refl;
          }))

  -- A dirty block whose chunks are no longer counted is retired, and the accounts are right again.
  pub retire_block-Accounts :
      (d : Device N) (b : ℕ) (bi : BlockInfo)
      → Owing (chunks_per_block d) d
      → InRange d b
      → At d b bi
      → IsDirty bi
      → (d' : Device N) × (retire_block driver d b ≡ some d') × Accounts d' × Around b d d'
  unfolding retire_block free_chunks
  retire_block-Accounts d b bi acc range at h =
      let n = chunks_per_block d in
      let (d1, done, k) = invalidate_checkpoint-Keeps n driver d acc in
      let at1 = k.others b bi range at (ground (arith, h.state)) in
      let range1 = InRange-bitmap d d1 k.bitmap range in
      let got = get_block_info-At d1 b bi range1 at1 in
      let dc = clear_oldest_dirty_sequence d1 bi in
      let d2 = mark_retired driver dc b in
      let s = Same-trans (clear_oldest-Same d1 bi) (mark_retired-Same dc b) in
      let acc2 = Owing-Same s k.accounts in
      let at2 = At-Same b bi s at1 in
      let new = record bi { block_state = dead; gc_prioritise = false; needs_retiring = false } in
      let d3 = record (put_block_info d2 b new) {
        n_retired_blocks = u32 (d2.n_retired_blocks + 1);
      } in
      let same_n : chunks_per_block d2 ≡ n = ap (λ m. m.chunks_per_block) (s.bitmap ∙ k.bitmap) in
      let i = b - start_block d2 in
      let len = length-set d2.block_info i new in
      let w = dirty_free (chunks_per_block d2) bi h in
      let free_set = total-set (free_chunks (chunks_per_block d2)) d2.block_info i bi new at2 in
      let erased_set = total-set erased d2.block_info i bi new at2 in
      (
        d3,
        simp (done, got, retire_block) refl,
        record {
          range = acc2.range;
          last = acc2.last;
          sized = len ∙ acc2.sized;
          page = acc2.page;
          small = rw len acc2.small;
          infos =
              All-set (IsInfo (chunks_per_block d2)) d2.block_info i new acc2.infos
                (record { pages = omega (arith, h.no_pages); unused = λ e. h.no_pages });
          bits = acc2.bits;
          free = omega (arith, free_set, acc2.free, w, same_n);
          empty_blocks = omega (arith, erased_set, acc2.empty_blocks, not_erased bi h.state);
        },
        Around-trans (Around-trans (Keeps-Around n k) (Same-Around s)) (record {
          start = refl;
          last = refl;
          chunks = refl;
          alloc_block = refl;
          alloc_page = refl;
          others = λ b' old ne r a live.
              put-others d2 b new (InRange-bitmap d1 d2 s.bitmap range1) b' old ne r a;
        }),
      )
