-- ===== src/Blocks/Accounts/Collect.antt =====
-- The choice of a block to collect: it ends, with a block of the device or none, and leaves the blocks
-- alone.
use whisper_yaffs.Prelude.{
  ℕ, ◌+◌, ◌-◌, ◌≡◌, refl, ap, Bool, false, not, ◌&&◌, arith, Option, some, ◌==◌, ltb, leb, truthy,
  Bool-cases, inl, inr, if◌then◌else◌, u32, length,
}
use whisper_yaffs.Blocks.{Device, start_block, end_block, chunks_per_block}
use whisper_yaffs.Blocks.Oldest.{find_oldest_dirty_sequence}
use whisper_yaffs.Blocks.Collect.{
  Collector, pages_used, gc_threshold, gc_iterations, prioritised_loop, select_prioritised,
  select_dirtiest, select_oldest, count_selection, find_block_for_gc,
}
use whisper_yaffs.Blocks.Accounts.{Accounts, InRange}
use whisper_yaffs.Blocks.Accounts.Held.{if_both}
use whisper_yaffs.Blocks.Accounts.Remembered.{
  Known, Sane, find_oldest-Sane, block_at, dirtiest_loop-Sane, prioritised-Sane,
}

module _ {N : Type 0} where
  -- What a part of the choice leaves: the block that it selects, and the device.
  abbrev pub Selects : Device N → Option (ℕ × Device N × Collector) → Type 0
  Selects d0 o =
      (b : ℕ) × (d' : Device N) × (c' : Collector) × (o ≡ some (b, d', c'))
      × Known d0 b
      × Sane d0 d'

  module _ (d0 : Device N) (acc : Accounts d0) where
    select_prioritised-Sane :
        (d : Device N) (aggressive : Bool)
        → Sane d0 d
        → Known d0 (select_prioritised d aggressive).0 × Sane d0 (select_prioritised d aggressive).1
    unfolding select_prioritised
    select_prioritised-Sane d aggressive w =
        let start = ap (λ m. m.start_block) w.same.bitmap in
        let sized = ap length w.same.infos in
        let cleared = record d { gc_dirtiest = 0 } in
        let w0 : Sane d0 cleared = record {
          same = w.same;
          dirtiest = inl refl;
          oldest = w.oldest;
        } in
        let r = prioritised_loop d.block_info (start_block d) false cleared in
        let (known, w1) =
          prioritised-Sane d0 acc d.block_info (start_block d) false cleared (omega (arith, start))
            (omega (arith, start, sized, acc.sized, acc.range)) w0 in
        let chosen : Known d0 (
            if r.1 && (r.0 == 0 && ltb 0 r.2.oldest_dirty_block)
            then r.2.oldest_dirty_block
            else r.0) =
          if_both (Known d0) (r.1 && (r.0 == 0 && ltb 0 r.2.oldest_dirty_block)) w1.oldest known in
        let d2 = record r.2 { has_pending_prioritised_gcs = r.1 } in
        let w2 : Sane d0 d2 = record {
          same = w1.same;
          dirtiest = w1.dirtiest;
          oldest = w1.oldest;
        } in
        if_both (λ (x : ℕ × Device N). Known d0 x.0 × Sane d0 x.1)
          (d.has_pending_prioritised_gcs && not aggressive) (chosen, w2) (inl refl, w)

    select_dirtiest-Selects :
        (d : Device N) (c : Collector) (aggressive background : Bool)
        → Sane d0 d
        → Selects d0 (select_dirtiest d c aggressive background)
    unfolding select_dirtiest
    select_dirtiest-Selects d c aggressive background w =
        let (d', c', done, w') =
          dirtiest_loop-Sane d0 acc (gc_iterations (end_block d + 1 - start_block d) aggressive) d c
            w in
        let good =
          ltb 0 d'.gc_dirtiest
          && leb d'.gc_pages_in_use
              (gc_threshold (chunks_per_block d) c.gc_not_done aggressive background) in
        (
          if good then d'.gc_dirtiest else 0,
          d',
          c',
          simp (done, select_dirtiest) refl,
          if_both (Known d0) good w'.dirtiest (inl refl),
          w',
        )

    select_oldest-Selects :
        (d : Device N) (c : Collector) (background : Bool)
        → Sane d0 d
        → Selects d0 (select_oldest d c background)
    unfolding select_oldest
    select_oldest-Selects d c background w =
        let d1 = find_oldest_dirty_sequence d in
        let w1 = find_oldest-Sane d0 acc d w in
        let b = d1.oldest_dirty_block in
        let late = d.is_yaffs2 && leb (if background then 10 else 20) c.gc_not_done in
        elim (Bool-cases late) [
          | inr early ↦ (0, d, c, simp (early, select_oldest) refl, inl refl, w)
          | inl waited ↦ elim (Bool-cases (ltb 0 b)) [
            | inr none_old ↦ (
              0,
              d1,
              record c { gc_not_done = 0 },
              simp (waited, none_old, select_oldest) refl,
              inl refl,
              w1,
            )
            | inl old ↦
                let range : InRange d0 b = elim w1.oldest [
                  | inr r ↦ r
                  | inl e ↦ absurd (ground (arith, old, e))
                ] in
                let (bi, got) = block_at d0 acc d1 b w1 range in
                let d2 = record d1 { gc_dirtiest = b; gc_pages_in_use = pages_used bi } in
                let w2 : Sane d0 d2 = record {
                  same = w1.same;
                  dirtiest = inr range;
                  oldest = w1.oldest;
                } in
                (
                  b,
                  d2,
                  record c { oldest_dirty_gcs = u32 (c.oldest_dirty_gcs + 1) },
                  simp (waited, old, got, select_oldest) refl,
                  inr range,
                  w2,
                )
          ]
        ]

    count_selection-Sane :
        (b : ℕ) (d : Device N) (c : Collector) (background : Bool)
        → Known d0 b
        → Sane d0 d
        → Known d0 (count_selection b d c background).0
          × Sane d0 (count_selection b d c background).1
    unfolding count_selection
    count_selection-Sane b d c background known w =
        let d1 = record d { gc_dirtiest = 0; gc_pages_in_use = 0 } in
        let w1 : Sane d0 d1 = record { same = w.same; dirtiest = inl refl; oldest = w.oldest } in
        if_both (λ (x : ℕ × Device N × Collector). Known d0 x.0 × Sane d0 x.1) (truthy b)
          (known, w1) (inl refl, w)

  -- `yaffs_FindBlockForGarbageCollection` returns, on a device whose accounts are right and whose dirtiest
  -- and oldest dirty blocks, as far as they are remembered, are its own: aggressive or not, in the
  -- background or not. It selects a block of the device or none, leaves the blocks, the bitmap, the
  -- counters and the open block as they are, and remembers only blocks of the device.
  pub find_block_for_gc-Selects :
      (d : Device N) (c : Collector) (aggressive background : Bool)
      → Accounts d
      → Known d d.gc_dirtiest
      → Known d d.oldest_dirty_block
      → Selects d (find_block_for_gc d c aggressive background)
  unfolding find_block_for_gc
  find_block_for_gc-Selects d c aggressive background acc dirtiest oldest =
      let w : Sane d d = record {
        same = record {
          bitmap = refl;
          infos = refl;
          free = refl;
          erased_blocks = refl;
          alloc_block = refl;
          alloc_page = refl;
        };
        dirtiest = dirtiest;
        oldest = oldest;
      } in
      let p = select_prioritised d aggressive in
      let (known, w1) = select_prioritised-Sane d acc d aggressive w in
      let (b2, d2, c2, done2, known2, w2) =
        if_both (Selects d) (truthy p.0) (p.0, p.1, c, refl, known, w1)
          (select_dirtiest-Selects d acc p.1 c aggressive background w1) in
      let (b3, d3, c3, done3, known3, w3) =
        if_both (Selects d) (truthy b2) (b2, d2, c2, refl, known2, w2)
          (select_oldest-Selects d acc d2 c2 background w2) in
      let t = count_selection b3 d3 c3 background in
      let (known4, w4) = count_selection-Sane d acc b3 d3 c3 background known3 w3 in
      (t.0, t.1, t.2, simp (done2, done3, find_block_for_gc) refl, known4, w4)
