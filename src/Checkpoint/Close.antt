-- ===== src/Checkpoint/Close.antt =====
-- A checkpoint that is opened for writing, written and closed.
use mathlib.Core.Path.{subst}
use whisper_yaffs.Prelude.{
  ℕ, ◌+◌, ◌-◌, ◌*◌, ◌≡◌, refl, sym, ap, Bool, true, arith, List, Option, none, some, ◌==◌,
  Bool-cases, inl, inr, some-injective,
}
use whisper_yaffs.Tags.{ExtendedTags}
use whisper_yaffs.Blocks.{Device, Driver, sub32, start_block, end_block, chunks_per_block}
use whisper_yaffs.Blocks.Erase.{checkpoint_erase, checkpoint_erase_loop}
use whisper_yaffs.Blocks.Accounts.{Accounts, Books, counters-bound}
use whisper_yaffs.Blocks.Accounts.Erase.{checkpoint_erase-Keeps}
use whisper_yaffs.Checkpoint.{Stream, count, checkpoint_space_ok, checkpoint_write, clear_buffer}
use whisper_yaffs.Checkpoint.Session.{
  held_or, has_buffer, reset_stream, open_writing, checkpoint_open, settle, checkpoint_close,
}
use whisper_yaffs.Checkpoint.Accounts.{Unsettled, Between}
use whisper_yaffs.Checkpoint.Pages.{flush_buffer-Steps, checkpoint_write-Unsettled}

module _ {N : Type 0} (driver : Driver N) where
  -- After the erasure no block is in the checkpoint.
  nothing_kept :
      (d d' : Device N) → checkpoint_erase driver d ≡ some d' → d'.blocks_in_checkpoint ≡ 0
  unfolding checkpoint_erase
  nothing_kept d d' e =
      go (checkpoint_erase_loop driver (end_block d + 1 - start_block d) (start_block d) d) e
    where
      go :
          (o : Option (Device N))
          → (elim o as (λ x. Option (Device N)) [
            | none ↦ none
            | some x ↦ some (record x { blocks_in_checkpoint = 0 })
          ])
            ≡ some d'
          → d'.blocks_in_checkpoint ≡ 0
      go none e = absurd (ground (arith, e))
      go (some x) e = sym (ap (λ (y : Device N). y.blocks_in_checkpoint) (some-injective e))

  held_lem :
      (memory : List ℕ) (b : Option (List ℕ))
      → (bytes : List ℕ) × (held_or (some memory) b ≡ some bytes)
  unfolding held_or
  held_lem memory none = (memory, refl)
  held_lem memory (some bytes) = (bytes, refl)

  open_writing_lem :
      (s : Stream N) (bytes : List ℕ) (d : Device N)
      → checkpoint_erase driver s.device ≡ some d
      → open_writing driver s bytes
        ≡ some (
          true,
          record s {
            device = d;
            buffer = some (clear_buffer s.device.n_data_bytes_per_chunk bytes);
            byte_offset = 0;
          },
        )
  unfolding open_writing
  open_writing_lem s bytes d done = simp (done, open_writing) refl

  open_writing-Unsettled :
      (s : Stream N) (memory : List ℕ) (list_memory : Bool)
      → Accounts s.device
      → checkpoint_space_ok s.device ≡ true
      → (s1 : Stream N) × (checkpoint_open driver s true (some memory) list_memory
          ≡ some (true, s1))
        × Unsettled s1
        × Between s1
  unfolding checkpoint_open reset_stream
  open_writing-Unsettled s memory list_memory acc room =
      let (bytes, held) = held_lem memory s.buffer in
      let (d, done, k) = checkpoint_erase-Keeps 0 driver s.device acc in
      let zero_kept = nothing_kept s.device d done in
      let s0 = reset_stream (record s { open_for_write = true; buffer = some bytes }) in
      let cleared = clear_buffer s.device.n_data_bytes_per_chunk bytes in
      (
        record s0 { device = d; buffer = some cleared; byte_offset = 0 },
        simp (held, room, checkpoint_open)
            (open_writing_lem
              (reset_stream (record s { open_for_write = true; buffer = some bytes })) bytes d
              done),
        record {
          free = d.n_free_chunks;
          erased_blocks = d.n_erased_blocks;
          books = k.accounts;
          counts_free = omega (arith, ap (λ j. j * chunks_per_block d) zero_kept);
          counts_erased = omega (arith, zero_kept);
          bound = counters-bound d k.accounts;
          next = inr (start_block s.device, refl, omega (arith, ap (λ m. m.start_block) k.bitmap));
          held = (cleared, refl);
          writable = refl;
        },
        inl refl,
      )

  -- The counters are right once the blocks of the checkpoint are taken out of them.
  settle-Accounts : (s : Stream N) → Unsettled s → Accounts (settle s).1.device
  unfolding settle
  settle-Accounts s w =
      let d = s.device in
      let k = d.blocks_in_checkpoint in
      let same_free : sub32 d.n_free_chunks (k * chunks_per_block d) ≡ w.free =
        omega (arith, w.counts_free, w.bound.0) in
      let same_erased : sub32 d.n_erased_blocks k ≡ w.erased_blocks =
        omega (arith, w.counts_erased, w.bound.1) in
      subst (λ n. Books d.bitmap d.block_info n (sub32 d.n_erased_blocks k) 0) (sym same_free)
        (subst (λ n. Books d.bitmap d.block_info w.free n 0) (sym same_erased) w.books)

  settle_closes : (s : Stream N) → Unsettled s → (settle s).0 ≡ true
  unfolding settle has_buffer
  settle_closes s w = let (bytes, held) = w.held in rw held refl

  close-Accounts :
      (local_tags : ExtendedTags) (s : Stream N)
      → Unsettled s
      → Between s
      → (s' : Stream N) × (checkpoint_close driver local_tags s ≡ some (true, s'))
        × Accounts s'.device
  unfolding checkpoint_close
  close-Accounts local_tags s w between = elim (Bool-cases (s.byte_offset == 0)) [
    | inl clean ↦ (
      (settle s).1,
      simp (w.writable, clean, checkpoint_close)
          (ap (λ b. some (b, (settle s).1)) (settle_closes s w)),
      settle-Accounts s w,
    )
    | inr dirty_ ↦
        let (ok, s1, done, w1, between1) = flush_buffer-Steps driver local_tags s w between in
        (
          (settle s1).1,
          simp (w.writable, dirty_, done, checkpoint_close)
              (ap (λ b. some (b, (settle s1).1)) (settle_closes s1 w1)),
          settle-Accounts s1 w1,
        )
  ]

  -- A stream that is opened for writing with memory for its buffer, on a device with right accounts and
  -- room for a checkpoint, can be written to and closed, whatever the flash does and wherever the blocks
  -- run out. Afterwards the accounts of free chunks and erased blocks are right without the blocks that
  -- the checkpoint has taken.
  pub write_session-Accounts :
      (local_tags : ExtendedTags) (s : Stream N) (memory : List ℕ) (list_memory : Bool)
      (bytes : List ℕ)
      → Accounts s.device
      → checkpoint_space_ok s.device ≡ true
      → (s1 : Stream N) × (n : ℕ) × (s2 : Stream N) × (s3 : Stream N) × (checkpoint_open driver s
            true
            (some memory)
            list_memory
          ≡ some (true, s1))
        × (checkpoint_write driver local_tags s1 bytes ≡ some (count n, s2))
        × (checkpoint_close driver local_tags s2 ≡ some (true, s3))
        × Accounts s3.device
  write_session-Accounts local_tags s memory list_memory bytes acc room =
      let (s1, opened, w1, between1) = open_writing-Unsettled s memory list_memory acc room in
      let (n, s2, wrote, w2, between2) =
        checkpoint_write-Unsettled driver local_tags s1 bytes w1 between1 in
      let (s3, closed, acc3) = close-Accounts local_tags s2 w2 between2 in
      (s1, n, s2, s3, opened, wrote, closed, acc3)
