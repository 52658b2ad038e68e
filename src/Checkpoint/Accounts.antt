-- ===== src/Checkpoint/Accounts.antt =====
-- The accounts of free chunks and erased blocks while a checkpoint is written, and after it.
use whisper_yaffs.Prelude.{
  ℕ, zero, suc, ◌+◌, ◌-◌, ◌*◌, ◌^◌, ◌≤◌, ◌<◌, ◌≡◌, refl, true, ◌&&◌, arith, List, Option, none,
  some, ◌==◌, leb, Bool-cases, ◌⊎◌, inl, inr,
}
use whisper_yaffs.Blocks.{
  BlockInfo, Device, empty, int_lt, start_block, end_block, chunks_per_block,
}
use whisper_yaffs.Blocks.Accounts.{Books, InRange, At, At-some, get_block_info-At}
use whisper_yaffs.Checkpoint.{
  Stream, find_erased_loop, find_next_erased_block, blocks_available, flush_target,
}

module _ {N : Type 0} where
  -- The counters still count the blocks that the checkpoint has taken; without them they are right.
  pub record Unsettled (s : Stream N) : Type 0 where
    pub free : ℕ
    pub erased_blocks : ℕ
    pub books : Books s.device.bitmap s.device.block_info free erased_blocks 0
    pub counts_free :
        s.device.n_free_chunks ≡ free + s.device.blocks_in_checkpoint * chunks_per_block s.device
    pub counts_erased : s.device.n_erased_blocks ≡ erased_blocks + s.device.blocks_in_checkpoint
    pub bound : (s.device.n_free_chunks < 2 ^ 31) × (s.device.n_erased_blocks < 2 ^ 31)
    pub next :
        (s.next_block ≡ none) ⊎ ((b : ℕ) × (s.next_block ≡ some b) × (start_block s.device ≤ b))
    pub held : (bytes : List ℕ) × (s.buffer ≡ some bytes)
    pub writable : s.open_for_write ≡ true

  -- An erased block, or none, is what the search finds.
  unfoldable pub FindsErased : Device N → Option ℕ → Type 0
  FindsErased d none = Unit
  FindsErased d (some i) = InRange d i × ((bi : BlockInfo) × At d i bi × (bi.block_state ≡ empty))

  -- The device with the counters that are right.
  abbrev pub right : (s : Stream N) → Unsettled s → Device N
  right s w = record s.device { n_free_chunks = w.free; n_erased_blocks = w.erased_blocks }

  find_erased-Finds :
      (n i : ℕ) (s : Stream N)
      → Unsettled s
      → start_block s.device ≤ i
      → i + n ≤ end_block s.device + 1
      → (r : Option ℕ) × (find_erased_loop n i s.device ≡ some r) × FindsErased s.device r
  unfolding find_erased_loop FindsErased
  find_erased-Finds zero i s w low high = (none, refl, tt)
  find_erased-Finds (suc n) i s w low high =
      let d = s.device in
      let range : InRange d i = (low, omega (arith, high)) in
      let (bi, at) = At-some (right s w) w.books i range in
      let got = get_block_info-At d i bi range at in
      elim (Bool-cases (bi.block_state == empty)) [
        | inl hit ↦
            (some i, simp (got, hit, find_erased_loop) refl, (range, (bi, at, ground (arith, hit))))
        | inr miss ↦
            let (r, done, found) =
              find_erased-Finds n (i + 1) s w (omega (arith, low)) (omega (arith, high)) in
            (r, simp (got, miss, find_erased_loop) done, found)
      ]

  -- Between two pages: no block is written to, or one that has a page.
  abbrev pub Between : Stream N → Type 0
  Between s =
      (s.current_block ≡ none) ⊎ ((b : ℕ) × (s.current_block ≡ some b) × (1 ≤ s.current_chunk))

  -- Before a page: no block is left, or one that has a page, or an erased one.
  abbrev pub OpenPage : Stream N → Type 0
  OpenPage s =
      (s.current_block ≡ none)
      ⊎ ((b : ℕ) × (s.current_block ≡ some b)
          × ((1 ≤ s.current_chunk) ⊎ ((s.current_chunk ≡ 0) × FindsErased s.device (some b))))

  -- No block is left.
  out_of_blocks :
      (s : Stream N)
      → Unsettled s
      → find_next_erased_block s ≡ some (record s { next_block = none; current_block = none })
      → s.current_block ≡ none
      → (s1 : Stream N) × (flush_target s ≡ some s1) × Unsettled s1 × OpenPage s1
  unfolding flush_target
  out_of_blocks s w done closed = (
    record s { next_block = none; current_block = none; current_chunk = 0 },
    simp (closed, done, flush_target) refl,
    record {
      free = w.free;
      erased_blocks = w.erased_blocks;
      books = w.books;
      counts_free = w.counts_free;
      counts_erased = w.counts_erased;
      bound = w.bound;
      next = inl refl;
      held = w.held;
      writable = w.writable;
    },
    inl refl,
  )

  take_erased :
      (s : Stream N) (i : ℕ)
      → Unsettled s
      → find_next_erased_block s
        ≡ some (record s { next_block = some (i + 1); current_block = some i })
      → FindsErased s.device (some i)
      → s.current_block ≡ none
      → (s1 : Stream N) × (flush_target s ≡ some s1) × Unsettled s1 × OpenPage s1
  unfolding flush_target FindsErased
  take_erased s i w done (range, found) closed = (
    record s { next_block = some (i + 1); current_block = some i; current_chunk = 0 },
    simp (closed, done, flush_target) refl,
    record {
      free = w.free;
      erased_blocks = w.erased_blocks;
      books = w.books;
      counts_free = w.counts_free;
      counts_erased = w.counts_erased;
      bound = w.bound;
      next = inr (i + 1, refl, omega (arith, range));
      held = w.held;
      writable = w.writable;
    },
    inr (i, refl, inr (refl, (range, found))),
  )

  pub flush_target-OpenPage :
      (s : Stream N)
      → Unsettled s
      → Between s
      → (s1 : Stream N) × (flush_target s ≡ some s1) × Unsettled s1 × OpenPage s1
  unfolding flush_target find_next_erased_block
  flush_target-OpenPage s w (inr (b, at, pages)) = (s, rw at refl, w, inr (b, at, inl pages))
  flush_target-OpenPage s w (inl closed) = elim w.next [
    | inl e ↦ out_of_blocks s w (simp (e, find_next_erased_block) refl) closed
    | inr (b, e, low) ↦
        let guard = leb b (end_block s.device) && int_lt 0 (blocks_available s.device) in
        elim (Bool-cases guard) [
          | inr full ↦ out_of_blocks s w (simp (e, full, find_next_erased_block) refl) closed
          | inl room ↦
              let (r, done, found) =
                find_erased-Finds (end_block s.device + 1 - b) b s w low (ground (arith, room)) in
              go b e room r done found
        ]
  ]
    where
      go :
          (b : ℕ)
          → s.next_block ≡ some b
          → (leb b (end_block s.device) && int_lt 0 (blocks_available s.device)) ≡ true
          → (r : Option ℕ) → find_erased_loop (end_block s.device + 1 - b) b s.device ≡ some r
          → FindsErased s.device r
          → (s1 : Stream N) × (flush_target s ≡ some s1) × Unsettled s1 × OpenPage s1
      go b e room none done found =
          out_of_blocks s w (simp (e, room, done, find_next_erased_block) refl) closed
      go b e room (some i) done found =
          take_erased s i w (simp (e, room, done, find_next_erased_block) refl) found closed
