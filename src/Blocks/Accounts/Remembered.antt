-- ===== src/Blocks/Accounts/Remembered.antt =====
-- The blocks that the garbage collection remembers, and its loops over the blocks.
use whisper_yaffs.Prelude.{
  ℕ, zero, suc, ◌+◌, ◌≤◌, ◌≡◌, refl, ap, Bool, not, ◌&&◌, ◌||◌, arith, List, [], ◌∷◌, Option, some,
  ◌==◌, ltb, truthy, Bool-cases, ◌⊎◌, inl, inr, if◌then◌else◌, u32, length,
}
use whisper_yaffs.Bitmap.{Bitmap}
use whisper_yaffs.Blocks.{
  BlockInfo, Device, full, int_lt, start_block, end_block, chunks_per_block, get_block_info,
}
use whisper_yaffs.Blocks.Oldest.{
  oldest_loop, has_discarded, calc_oldest_dirty_sequence, find_oldest_dirty_sequence,
  block_not_disqualified_from_gc,
}
use whisper_yaffs.Blocks.Collect.{
  Collector, pages_used, gc_good_enough, prioritised_loop, next_gc_block, consider, dirtiest_loop,
}
use whisper_yaffs.Blocks.Accounts.{Accounts, InRange, At-some, get_block_info-At}
use whisper_yaffs.Blocks.Accounts.Same.{Same, At-Same, InRange-bitmap}
use whisper_yaffs.Blocks.Accounts.Held.{if_both}

module _ {N : Type 0} where
  -- A block of the device, or 0.
  abbrev pub Known : Device N → ℕ → Type 0
  Known d b = (b ≡ 0) ⊎ InRange d b

  -- The fields of the blocks are those of device `d0`.
  pub record Still (d0 : Device N) (m : Bitmap) (xs : List BlockInfo) (f e : ℕ) (b : Option ℕ)
      (p : ℕ) : Type 0 where
    pub bitmap : m ≡ d0.bitmap
    pub infos : xs ≡ d0.block_info
    pub free : f ≡ d0.n_free_chunks
    pub erased_blocks : e ≡ d0.n_erased_blocks
    pub alloc_block : b ≡ d0.allocation_block
    pub alloc_page : p ≡ d0.allocation_page

  -- Of device `d0`, only other fields than those of its blocks have changed, and the blocks that are
  -- remembered are its own.
  pub record Sane (d0 d : Device N) : Type 0 where
    pub same :
        Still d0 d.bitmap d.block_info d.n_free_chunks d.n_erased_blocks d.allocation_block
          d.allocation_page
    pub dirtiest : Known d0 d.gc_dirtiest
    pub oldest : Known d0 d.oldest_dirty_block

  pub Sane-Same : {d0 d : Device N} → Sane d0 d → Same d0 d
  Sane-Same w = record {
    bitmap = w.same.bitmap;
    infos = w.same.infos;
    free = w.same.free;
    erased_blocks = w.same.erased_blocks;
    alloc_block = w.same.alloc_block;
    alloc_page = w.same.alloc_page;
  }

  pub oldest_loop-Known :
      (d0 : Device N) (n : ℕ) (bs : List BlockInfo) (i seq block_no : ℕ)
      → start_block d0 ≤ i
      → i + length bs ≤ end_block d0 + 1
      → Known d0 block_no
      → Known d0 (oldest_loop n bs i seq block_no).1
  unfolding oldest_loop
  oldest_loop-Known d0 n [] i seq block_no low high known = known
  oldest_loop-Known d0 n (b ∷ bs) i seq block_no low high known =
      let taken = has_discarded n b && ltb b.sequence_number seq in
      oldest_loop-Known d0 n bs (i + 1) (if taken then b.sequence_number else seq)
        (if taken then i else block_no) (omega (arith, low)) (omega (arith, high))
        (if_both (Known d0) taken (inr (low, omega (arith, high))) known)

  module _ (d0 : Device N) (acc : Accounts d0) where
    pub find_oldest-Sane : (d : Device N) → Sane d0 d → Sane d0 (find_oldest_dirty_sequence d)
    unfolding find_oldest_dirty_sequence calc_oldest_dirty_sequence
    find_oldest-Sane d w =
        let start = ap (λ m. m.start_block) w.same.bitmap in
        let sized = ap length w.same.infos in
        let r =
          oldest_loop (chunks_per_block d) d.block_info (start_block d)
            (u32 (d.sequence_number + 1)) 0 in
        let known : Known d0 r.1 =
          oldest_loop-Known d0 (chunks_per_block d) d.block_info (start_block d)
            (u32 (d.sequence_number + 1)) 0 (omega (arith, start))
            (omega (arith, start, sized, acc.sized, acc.range)) (inl refl) in
        let d1 = record d { oldest_dirty_sequence = r.0; oldest_dirty_block = r.1 } in
        let w1 : Sane d0 d1 = record { same = w.same; dirtiest = w.dirtiest; oldest = known } in
        if_both (Sane d0) (d.is_yaffs2 && not (truthy d.oldest_dirty_sequence))
          (if_both (Sane d0) (d.is_yaffs2 && truthy r.1) w1 w) w

    pub qualified-Sane :
        (d : Device N) (bi : BlockInfo)
        → Sane d0 d
        → Sane d0 (block_not_disqualified_from_gc d bi).1
    unfolding block_not_disqualified_from_gc
    qualified-Sane d bi w =
        if_both (λ (x : Bool × Device N). Sane d0 x.1) (not d.is_yaffs2) w
          (if_both (λ (x : Bool × Device N). Sane d0 x.1) (not bi.has_shrink_header) w
            (find_oldest-Sane d w))

    pub consider-Sane :
        (d : Device N) (b : ℕ) (bi : BlockInfo)
        → Sane d0 d
        → InRange d0 b
        → Sane d0 (consider d b bi)
    unfolding consider
    consider-Sane d b bi w range =
        let used = pages_used bi in
        let better =
          bi.block_state == full
          && (int_lt used (chunks_per_block d)
              && (ltb d.gc_dirtiest 1 || ltb used d.gc_pages_in_use)) in
        let q = block_not_disqualified_from_gc d bi in
        let w' = qualified-Sane d bi w in
        let d1 = record q.1 { gc_dirtiest = b; gc_pages_in_use = used } in
        let w1 : Sane d0 d1 = record { same = w'.same; dirtiest = inr range; oldest = w'.oldest } in
        if_both (Sane d0) better (if_both (Sane d0) q.0 w1 w') w

    pub block_at :
        (d : Device N) (b : ℕ)
        → Sane d0 d
        → InRange d0 b
        → (bi : BlockInfo) × (get_block_info d b ≡ some bi)
    block_at d b w range =
        let (bi, at) = At-some d0 acc b range in
        (
          bi,
          get_block_info-At d b bi (InRange-bitmap d0 d w.same.bitmap range)
              (At-Same {d = d0} {d' = d} b bi (Sane-Same w) at),
        )

    pub next_gc_block-InRange :
        (d : Device N) (c : Collector) → Sane d0 d → InRange d0 (next_gc_block d c)
    unfolding next_gc_block
    next_gc_block-InRange d c w =
        let start = ap (λ m. m.start_block) w.same.bitmap in
        let last = ap (λ m. m.end_block) w.same.bitmap in
        let f = u32 (c.gc_block_finder + 1) in
        elim (Bool-cases (ltb f (start_block d) || ltb (end_block d) f)) [
          | inl out ↦ rw out (omega (arith, start), omega (arith, start, acc.range))
          | inr inside ↦
              rw inside (ground (arith, start, last, inside), ground (arith, start, last, inside))
        ]

    pub dirtiest_loop-Sane :
        (n : ℕ) (d : Device N) (c : Collector)
        → Sane d0 d
        → (d' : Device N) × (c' : Collector) × (dirtiest_loop n d c ≡ some (d', c')) × Sane d0 d'
    unfolding dirtiest_loop
    dirtiest_loop-Sane zero d c w = (d, c, refl, w)
    dirtiest_loop-Sane (suc n) d c w =
        let b = next_gc_block d c in
        let range = next_gc_block-InRange d c w in
        let (bi, got) = block_at d b w range in
        let (d', c', done, w') =
          dirtiest_loop-Sane n (consider d b bi) (record c { gc_block_finder = b })
            (consider-Sane d b bi w range) in
        elim (Bool-cases (ltb d.gc_dirtiest 1 || ltb gc_good_enough d.gc_pages_in_use)) [
          | inl on ↦ (d', c', simp (on, got, dirtiest_loop) done, w')
          | inr stop ↦ (d, c, simp (stop, dirtiest_loop) refl, w)
        ]

    pub prioritised-Sane :
        (bs : List BlockInfo) (i : ℕ) (exists_one : Bool) (d : Device N)
        → start_block d0 ≤ i
        → i + length bs ≤ end_block d0 + 1
        → Sane d0 d
        → Known d0 (prioritised_loop bs i exists_one d).0
          × Sane d0 (prioritised_loop bs i exists_one d).2
    unfolding prioritised_loop
    prioritised-Sane [] i exists_one d low high w = (inl refl, w)
    prioritised-Sane (bi ∷ bs) i exists_one d low high w =
        let q = block_not_disqualified_from_gc d bi in
        let looked = bi.gc_prioritise && bi.block_state == full in
        let d' = if looked then q.1 else d in
        let w' : Sane d0 d' = if_both (Sane d0) looked (qualified-Sane d bi w) w in
        if_both (λ (r : ℕ × Bool × Device N). Known d0 r.0 × Sane d0 r.2)
          (looked && (q.0 && truthy i)) (inr (low, omega (arith, high)), w')
          (prioritised-Sane bs (i + 1) (exists_one || bi.gc_prioritise) d' (omega (arith, low))
            (omega (arith, high)) w')
