-- ===== src/Blocks/Collect.antt =====
-- yaffs_guts.c: the choice of a block to collect.
use whisper_yaffs.Prelude.{
  ℕ, zero, suc, ◌+◌, ◌-◌, ◌*◌, ◌/◌, Bool, true, false, not, ◌&&◌, ◌||◌, List, [], ◌∷◌, Option, none,
  some, ◌==◌, ltb, leb, truthy, if◌then◌else◌, u32,
}
use whisper_yaffs.Blocks.{
  BlockInfo, Device, full, int_lt, sub32, start_block, end_block, chunks_per_block, get_block_info,
}
use whisper_yaffs.Blocks.Oldest.{biased, find_oldest_dirty_sequence, block_not_disqualified_from_gc}

abbrev pub gc_good_enough : ℕ
gc_good_enough = 2

abbrev pub gc_passive_threshold : ℕ
gc_passive_threshold = 4

-- The fields of `yaffs_Device` that only the garbage collection uses.
pub record Collector : Type 0 where
  pub gc_block_finder : ℕ
  pub gc_not_done : ℕ
  pub oldest_dirty_gcs : ℕ
  pub n_gc_blocks : ℕ
  pub background_gcs : ℕ
  pub refresh_skip : ℕ

-- `bi->pagesInUse - bi->softDeletions`, an int.
abbrev pub pages_used : BlockInfo → ℕ
pages_used bi = sub32 (biased bi.pages_in_use) (biased bi.soft_deletions)

-- How many pages in use a block may have to be collected.
unfoldable pub gc_threshold : (n gc_not_done : ℕ) → (aggressive background : Bool) → ℕ
gc_threshold n gc_not_done aggressive background =
    let share = if background then n / 2 else n / 8 in
    let limit = if ltb share gc_passive_threshold then gc_passive_threshold else share in
    let wanted = if background then u32 ((gc_not_done + 2) * 2) else 0 in
    let raised = if int_lt wanted gc_passive_threshold then gc_passive_threshold else wanted in
    let passive = if int_lt limit raised then limit else raised in if aggressive then n else passive

-- How many blocks are looked at.
unfoldable pub gc_iterations : (n_blocks : ℕ) → (aggressive : Bool) → ℕ
gc_iterations n_blocks aggressive =
    let few = n_blocks / 16 + 1 in if aggressive then n_blocks else if ltb 100 few then 100 else few

module _ {N : Type 0} where
  -- The search for a prioritised block: the block or 0, and whether there is a prioritised one.
  unfoldable pub prioritised_loop :
      List BlockInfo → (i : ℕ) → (exists_one : Bool) → Device N → ℕ × Bool × Device N
  prioritised_loop [] i exists_one d = (0, exists_one, d)
  prioritised_loop (bi ∷ bs) i exists_one d =
      let q = block_not_disqualified_from_gc d bi in
      let looked = bi.gc_prioritise && bi.block_state == full in
      let d' = if looked then q.1 else d in
      let rest = prioritised_loop bs (i + 1) (exists_one || bi.gc_prioritise) d' in
      if looked && (q.0 && truthy i) then (i, true, d') else rest

  -- The first part of `yaffs_FindBlockForGarbageCollection`.
  unfoldable pub select_prioritised : Device N → (aggressive : Bool) → ℕ × Device N
  select_prioritised d aggressive =
      let r = prioritised_loop d.block_info (start_block d) false (record d { gc_dirtiest = 0 }) in
      let oldest = r.2.oldest_dirty_block in
      let selected = if r.1 && (r.0 == 0 && ltb 0 oldest) then oldest else r.0 in
      if d.has_pending_prioritised_gcs && not aggressive
      then (selected, record r.2 { has_pending_prioritised_gcs = r.1 })
      else (0, d)

  -- The next block of the finder, which is unsigned.
  unfoldable pub next_gc_block : Device N → Collector → ℕ
  next_gc_block d c =
      let f = u32 (c.gc_block_finder + 1) in
      if ltb f (start_block d) || ltb (end_block d) f then start_block d else f

  -- A full block with fewer pages in use than any before.
  unfoldable pub consider : Device N → (b : ℕ) → BlockInfo → Device N
  consider d b bi =
      let used = pages_used bi in
      let better =
        bi.block_state == full
        && (int_lt used (chunks_per_block d)
            && (ltb d.gc_dirtiest 1 || ltb used d.gc_pages_in_use)) in
      let q = block_not_disqualified_from_gc d bi in
      let chosen = record q.1 { gc_dirtiest = b; gc_pages_in_use = used } in
      if better then if q.0 then chosen else q.1 else d

  -- The search for a dirty block: at most `n` rounds.
  unfoldable pub dirtiest_loop : (n : ℕ) → Device N → Collector → Option (Device N × Collector)
  dirtiest_loop zero d c = some (d, c)
  dirtiest_loop (suc n) d c =
      let b = next_gc_block d c in
      let c' = record c { gc_block_finder = b } in
      if ltb d.gc_dirtiest 1 || ltb gc_good_enough d.gc_pages_in_use
      then elim (get_block_info d b) [
        | none ↦ none
        | some bi ↦ dirtiest_loop n (consider d b bi) c'
      ]
      else some (d, c)

  -- The second part: the block or 0.
  unfoldable pub select_dirtiest :
      Device N → Collector → (aggressive background : Bool) → Option (ℕ × Device N × Collector)
  select_dirtiest d c aggressive background =
      let threshold = gc_threshold (chunks_per_block d) c.gc_not_done aggressive background in
      elim (dirtiest_loop (gc_iterations (end_block d + 1 - start_block d) aggressive) d c) [
        | none ↦ none
        | some r ↦ some (
          if ltb 0 r.0.gc_dirtiest && leb r.0.gc_pages_in_use threshold then r.0.gc_dirtiest else 0,
          r.0,
          r.1,
        )
      ]

  -- The third part, where nothing has been selected for a while.
  unfoldable pub select_oldest :
      Device N → Collector → (background : Bool) → Option (ℕ × Device N × Collector)
  select_oldest d c background =
      let d1 = find_oldest_dirty_sequence d in
      let b = d1.oldest_dirty_block in
      let chosen =
        λ (bi : BlockInfo). record d1 { gc_dirtiest = b; gc_pages_in_use = pages_used bi } in
      let counted = record c { oldest_dirty_gcs = u32 (c.oldest_dirty_gcs + 1) } in
      if d.is_yaffs2 && leb (if background then 10 else 20) c.gc_not_done
      then if ltb 0 b
        then elim (get_block_info d1 b) [ none ↦ none | some bi ↦ some (b, chosen bi, counted) ]
        else some (0, d1, record c { gc_not_done = 0 })
      else some (0, d, c)

  -- The end: the counters.
  unfoldable pub count_selection :
      (selected : ℕ) → Device N → Collector → (background : Bool) → ℕ × Device N × Collector
  count_selection selected d c background =
      let more = u32 (c.background_gcs + 1) in
      if truthy selected
      then (
        selected,
        record d { gc_dirtiest = 0; gc_pages_in_use = 0 },
        record c {
          n_gc_blocks = u32 (c.n_gc_blocks + 1);
          background_gcs = if background then more else c.background_gcs;
          gc_not_done = 0;
          refresh_skip = if int_lt 0 c.refresh_skip then c.refresh_skip - 1 else c.refresh_skip;
        },
      )
      else (0, d, record c { gc_not_done = u32 (c.gc_not_done + 1) })

  -- `yaffs_FindBlockForGarbageCollection`: the block, or 0.
  unfoldable pub find_block_for_gc :
      Device N → Collector → (aggressive background : Bool) → Option (ℕ × Device N × Collector)
  find_block_for_gc d c aggressive background =
      let p = select_prioritised d aggressive in
      let second =
        if truthy p.0 then some (p.0, p.1, c) else select_dirtiest p.1 c aggressive background in
      elim second [
        | none ↦ none
        | some r ↦
            elim (if truthy r.0 then some (r.0, r.1, r.2) else select_oldest r.1 r.2 background) [
              | none ↦ none
              | some t ↦ some (count_selection t.0 t.1 t.2 background)
            ]
      ]
