-- ===== src/Blocks/Accounts/Delete.antt =====
-- The deletion of a chunk: the accounts, and the block that it may free.
use mathlib.Core.Path.{subst}
use native.Mathlib.Nat.{mod-lt}
use whisper_yaffs.Prelude.{
  ℕ, ◌⊎◌, ◌+◌, ◌-◌, ◌/◌, ◌%◌, ◌^◌, ◌≤◌, ◌<◌, ◌≡◌, ◌≢◌, refl, sym, ap, ◌∙◌, Bool, true, false, not,
  ◌&&◌, ◌||◌, none, some, arith, ◌==◌, get_elem?, u32, inl, inr, Bool-cases, get_elem-set_self,
}
use whisper_yaffs.Bitmap.View.{HasChunk, Updates, clear_chunk_bit-Updates, check_chunk_bit-view}
use whisper_yaffs.Blocks.{
  BlockInfo, Device, Driver, empty, checkpoint, dead, allocating, needs_scanning, collecting,
  start_block, chunks_per_block, put_block_info, update_oldest_dirty_sequence,
}
use whisper_yaffs.Blocks.Dirty.{deleted_tags, mark_deleted, drop_page, delete_chunk, holds_chunks}
use whisper_yaffs.Blocks.Accounts.{
  Accounts, InRange, At, IsInfo, Accounts-Replaces, get_block_info-At, free_chunks, counters-bound,
  IsInfo-At,
}
use whisper_yaffs.Tags.{validate_tags, initialise_tags}
use whisper_yaffs.Blocks.Nand.{write_chunk_with_tags}
use whisper_yaffs.Blocks.Accounts.Same.{
  Same, Same-trans, Owing-Same, At-Same, update_oldest-Same, Around, Around-trans, Same-Around,
  put-others,
}
use whisper_yaffs.Blocks.Accounts.Dirty.{block_became_dirty-Accounts}

-- The block that a chunk is deleted from, as the deletion leaves it.
abbrev pub less : BlockInfo → BlockInfo
less bi = record bi { pages_in_use = (bi.pages_in_use + 1023) % 2 ^ 10 }

less_free :
    (n : ℕ) (bi : BlockInfo)
    → holds_chunks bi ≡ true
    → 1 ≤ bi.pages_in_use
    → bi.pages_in_use ≤ n
    → n < 512
    → free_chunks n (less bi) ≡ free_chunks n bi + 1
unfolding free_chunks
less_free n bi h p q r = ground arith

less-IsInfo :
    (n : ℕ) (bi : BlockInfo) → IsInfo n bi → 1 ≤ bi.pages_in_use → n < 512 → IsInfo n (less bi)
less-IsInfo n bi info p r = record {
  pages = omega (arith, info.pages);
  unused = λ e. absurd (omega (arith, info.unused e));
}

emptied :
    (bi : BlockInfo)
    → holds_chunks bi ≡ true
    → (bi.block_state == empty || (bi.block_state == dead || bi.block_state == checkpoint)) ≡ false
emptied bi h = ground arith

not_idle :
    (bi : BlockInfo)
    → bi.block_state ≡ allocating
    → ((less bi).pages_in_use == 0
        && (not bi.has_shrink_header
            && not (bi.block_state == allocating || bi.block_state == needs_scanning)))
      ≡ true
    → ⊥
not_idle bi e h = ground arith

module _ {N : Type 0} (driver : Driver N) where
  -- What a deletion of page `page` from block `b` leaves: right accounts, the other blocks as they were,
  -- and the block itself with a page in use less, if it is the one that is allocated from. The bit of the
  -- page is clear and no other changed, unless the block has no page in use left.
  pub record Deletes (b page : ℕ) (bi : BlockInfo) (d d' : Device N) : Type 0 where
    pub accounts : Accounts d'
    pub around : Around b d d'
    pub opened : bi.block_state ≡ allocating → At d' b (less bi)
    pub bits :
        Updates d.bitmap b page false d'.bitmap
        ⊎ (((less bi).pages_in_use ≡ 0) × (bi.block_state ≢ allocating))

  drop_page-Accounts :
      (d : Device N) (b page : ℕ) (bi : BlockInfo)
      → Accounts d
      → HasChunk d.bitmap b page
      → At d b bi
      → holds_chunks bi ≡ true
      → 1 ≤ bi.pages_in_use
      → (d' : Device N) × (drop_page driver d b page bi ≡ some d') × Deletes b page bi d d'
  unfolding drop_page
  drop_page-Accounts d b page bi acc has at holds some_page =
      let n = chunks_per_block d in
      let bounds = counters-bound d acc in
      let info = IsInfo-At d b bi acc at in
      let (m, done, u) = clear_chunk_bit-Updates acc.bits has in
      let d1 = record (put_block_info d b (less bi)) {
        bitmap = m;
        n_free_chunks = u32 (d.n_free_chunks + 1);
      } in
      let range : InRange d b = (has.first, has.last) in
      let gain = less_free n bi holds some_page info.pages acc.page.1 in
      let acc1 : Accounts d1 =
        Accounts-Replaces {d = d} {d' = d1} {b = b} acc at
          (less-IsInfo n bi info some_page acc.page.1)
          (record {
            same_start = u.start_block;
            same_end = u.end_block;
            same_chunks = u.chunks_per_block;
            bits_valid = u.valid;
            blocks = refl;
            free_moves = omega (arith, gain, bounds.0);
            erased_moves = refl;
          }) in
      let idle =
        (less bi).pages_in_use == 0
        && (not bi.has_shrink_header
            && not (bi.block_state == allocating || bi.block_state == needs_scanning)) in
      let at1 : At d1 b (less bi) =
        ap (λ s. get_elem? d1.block_info (b - s)) u.start_block
        ∙ get_elem-set_self d.block_info (b - start_block d) (less bi)
            (omega (arith, range, acc.sized)) in
      let around1 : Around b d d1 = record {
        start = u.start_block;
        last = u.end_block;
        chunks = u.chunks_per_block;
        alloc_block = refl;
        alloc_page = refl;
        others = λ b' old ne r a live.
            ap (λ s. get_elem? d1.block_info (b' - s)) u.start_block
            ∙ put-others d b (less bi) range b' old ne r a;
      } in
      elim (Bool-cases idle) [
        | inr busy ↦ (
          d1,
          simp (done, busy, drop_page) refl,
          record { accounts = acc1; around = around1; opened = λ e. at1; bits = inl u },
        )
        | inl free ↦
            let range1 : InRange d1 b =
              (omega (arith, u.start_block, range.0), omega (arith, u.end_block, range.1)) in
            let none_left : (less bi).pages_in_use ≡ 0 = ground arith in
            let (d', dirtied, acc', around) =
              block_became_dirty-Accounts driver d1 b (less bi) acc1 range1 at1
                (none_left, emptied bi holds) in
            (
              d',
              simp (done, free, drop_page) dirtied,
              record {
                accounts = acc';
                around = Around-trans around1 around;
                opened = λ e. absurd (not_idle bi e free);
                bits = inr (none_left, λ e. not_idle bi e free);
              },
            )
      ]

  mark_deleted-Same :
      (d : Device N) (chunk : ℕ) (mark_nand : Bool) (bi : BlockInfo)
      → (d' : Device N) × (mark_deleted driver d chunk mark_nand bi ≡ some d') × Same d d'
  unfolding mark_deleted write_chunk_with_tags validate_tags initialise_tags
  mark_deleted-Same d chunk mark_nand bi =
      elim (Bool-cases (not d.is_yaffs2 && (mark_nand && not (bi.block_state == collecting)))) [
        | inl marked ↦ (
          record d {
            n_page_writes = u32 (d.n_page_writes + 1);
            nand =
                (driver.write_chunk d.nand (chunk - d.chunk_offset) none
                  (record deleted_tags { sequence_number = d.sequence_number; chunk_used = 1 })).1;
          },
          simp (marked, mark_deleted) refl,
          record {
            bitmap = refl;
            infos = refl;
            free = refl;
            erased_blocks = refl;
            alloc_block = refl;
            alloc_page = refl;
          },
        )
        | inr quiet ↦ (
          record d { n_unmarked_deletions = u32 (d.n_unmarked_deletions + 1) },
          simp (quiet, mark_deleted) refl,
          record {
            bitmap = refl;
            infos = refl;
            free = refl;
            erased_blocks = refl;
            alloc_block = refl;
            alloc_page = refl;
          },
        )
      ]

  -- `yaffs_DeleteChunk` runs to its end and keeps the accounts, for a chunk of a block that can hold
  -- chunks and has a page in use, even where the deletion makes the block dirty and it is erased or
  -- retired. The other blocks outside the checkpoint and the open block stay as they are; the block itself
  -- has a page in use less if it is being allocated from. The bit of the chunk is clear then and no other
  -- changed, unless this was the last page in use of a block that is not being allocated from.
  pub delete_chunk-Accounts :
      (d : Device N) (chunk : ℕ) (mark_nand : Bool) (bi : BlockInfo)
      → Accounts d
      → chunk ≢ 0
      → InRange d (chunk / chunks_per_block d)
      → At d (chunk / chunks_per_block d) bi
      → holds_chunks bi ≡ true
      → 1 ≤ bi.pages_in_use
      → (d' : Device N) × (delete_chunk driver d chunk mark_nand ≡ some d')
        × Deletes (chunk / chunks_per_block d) (chunk % chunks_per_block d) bi d d'
  unfolding delete_chunk
  delete_chunk-Accounts d chunk mark_nand bi acc some_chunk range at holds some_page =
      let n = chunks_per_block d in
      let b = chunk / n in
      let page = chunk % n in
      let has : HasChunk d.bitmap b page = record {
        first = range.0;
        last = range.1;
        chunk = mod-lt chunk acc.page.0;
      } in
      let nonzero : (chunk == 0) ≡ false = ground arith in
      let known = check_chunk_bit-view acc.bits has in
      let got = get_block_info-At d b bi range at in
      let d1 = record d { n_deletions = u32 (d.n_deletions + 1) } in
      let du = update_oldest_dirty_sequence d1 b bi in
      let (d2, marked, same) = mark_deleted-Same du chunk mark_nand bi in
      let s : Same d1 d2 = Same-trans (update_oldest-Same d1 b bi) same in
      let acc1 : Accounts d1 = acc in
      let acc2 = Owing-Same s acc1 in
      let at2 = At-Same {d = d1} {d' = d2} b bi s at in
      let has2 = subst (λ m. HasChunk m b page) (sym s.bitmap) has in
      let (d', done, dropped) = drop_page-Accounts d2 b page bi acc2 has2 at2 holds some_page in
      (
        d',
        simp (nonzero, known, got, marked, holds, delete_chunk) done,
        record {
          accounts = dropped.accounts;
          around = Around-trans (Same-Around s) dropped.around;
          opened = dropped.opened;
          bits =
              subst
                (λ m.
                  Updates m b page false d'.bitmap
                  ⊎ (((less bi).pages_in_use ≡ 0) × (bi.block_state ≢ allocating)))
                s.bitmap dropped.bits;
        },
      )
