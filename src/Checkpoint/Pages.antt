-- ===== src/Checkpoint/Pages.antt =====
-- The pages and the bytes of a checkpoint that is written: they keep the accounts.
use whisper_yaffs.Prelude.{
  ℕ, ◌+◌, ◌-◌, ◌*◌, ◌≤◌, ◌≡◌, refl, ap, true, false, arith, List, [], ◌∷◌, Option, none, some, ◌==◌,
  leb, Bool-cases, ◌⊎◌, inl, inr, if◌then◌else◌, u32, set, total-at,
}
use whisper_yaffs.Tags.{ExtendedTags}
use whisper_yaffs.Blocks.{Device, Driver, checkpoint, start_block, chunks_per_block, put_block_info}
use whisper_yaffs.Blocks.Accounts.{
  Accounts, get_block_info-At, IsInfo-At, Accounts-Replaces, free_chunks, erased,
}
use whisper_yaffs.Checkpoint.{
  clear_buffer, block_id, sequence_checkpoint_data, Stream, count, count_byte, claim_block,
  flush_into, flush_buffer, write_byte, write_bytes, checkpoint_write,
}
use whisper_yaffs.Checkpoint.Accounts.{
  Unsettled, FindsErased, Between, right, flush_target-OpenPage,
}

next_product : (k n : ℕ) → (k + 1) * n ≡ k * n + n
next_product k n = grind arith

module _ {N : Type 0} (driver : Driver N) (local_tags : ExtendedTags) where
  -- What claiming a block leaves of the accounts.
  claim-Unsettled :
      (s : Stream N) (b : ℕ)
      → Unsettled s
      → (1 ≤ s.current_chunk) ⊎ ((s.current_chunk ≡ 0) × FindsErased s.device (some b))
      → (d : Device N) × (claim_block s.device b s.current_chunk ≡ some d)
        × Unsettled (record s { device = d })
  unfolding claim_block FindsErased
  claim-Unsettled s b w (inl some_) =
      let later : (s.current_chunk == 0) ≡ false = ground (arith, some_) in
      (s.device, rw later refl, w)
  claim-Unsettled s b w (inr (first, (range, (bi, at, was)))) =
      let d = s.device in
      let n = chunks_per_block d in
      let k = d.blocks_in_checkpoint in
      let new = record bi { block_state = checkpoint } in
      let d1 = record (put_block_info d b new) { blocks_in_checkpoint = u32 (k + 1) } in
      let old_free : free_chunks n bi ≡ n = unfold free_chunks in rw was refl in
      let new_free : free_chunks n new ≡ 0 = unfold free_chunks in refl in
      let some_free = total-at (free_chunks n) d.block_info (b - start_block d) bi at in
      let some_erased = total-at erased d.block_info (b - start_block d) bi at in
      let one : erased bi ≡ 1 = rw was refl in
      let enough : n ≤ w.free = omega (arith, some_free, old_free, w.books.free) in
      let one_left : 1 ≤ w.erased_blocks = omega (arith, some_erased, one, w.books.empty_blocks) in
      let info = IsInfo-At (right s w) b bi w.books at in
      let small : u32 (k + 1) ≡ k + 1 = omega (arith, w.counts_erased, w.bound.1, one_left) in
      let replaced : Device N = record (put_block_info d b new) {
        n_free_chunks = w.free - n;
        n_erased_blocks = w.erased_blocks - 1;
      } in
      let books : Accounts replaced =
        Accounts-Replaces {d = right s w} {d' = replaced} {b = b} w.books at
          (record { pages = info.pages; unused = λ e. info.unused (rw was refl) })
          (record {
            same_start = refl;
            same_end = refl;
            same_chunks = refl;
            bits_valid = w.books.bits;
            blocks = refl;
            free_moves = omega (arith, enough, old_free, new_free);
            erased_moves = omega (arith, one_left, one);
          }) in
      let got = get_block_info-At d b bi range at in
      (
        d1,
        simp (first, got, claim_block) refl,
        record {
          free = w.free - n;
          erased_blocks = w.erased_blocks - 1;
          books = books;
          counts_free =
              omega (arith, w.counts_free, enough, next_product k n, ap (λ j. j * n) small);
          counts_erased = omega (arith, small, one_left, w.counts_erased);
          bound = w.bound;
          next = w.next;
          held = w.held;
          writable = w.writable;
        },
      )

  -- What a page leaves.
  abbrev Settled : Option (Stream N) → Type 0
  Settled o = (s' : Stream N) × (o ≡ some s') × Unsettled s' × Between s'

  flush_into-Settled :
      (s : Stream N) (b : ℕ) (bytes : List ℕ)
      → Unsettled s
      → s.current_block ≡ some b
      → (1 ≤ s.current_chunk) ⊎ ((s.current_chunk ≡ 0) × FindsErased s.device (some b))
      → Settled (flush_into driver local_tags s b bytes)
  unfolding flush_into
  flush_into-Settled s b bytes w at page =
      let (d, claimed, w1) = claim-Unsettled s b w page in
      let n = chunks_per_block s.device in
      let last = leb n (s.current_chunk + 1) in
      let tags = record local_tags {
        chunk_deleted = 0;
        object_id = block_id s.next_block;
        chunk_id = u32 (s.page_sequence + 1);
        sequence_number = sequence_checkpoint_data;
        byte_count = s.device.n_data_bytes_per_chunk;
      } in
      let chunk = b * n + s.current_chunk in
      let d1 = record d {
        nand = (driver.write_chunk d.nand (chunk - d.chunk_offset) (some bytes) tags).1;
        n_page_writes = u32 (d.n_page_writes + 1);
      } in
      (
        record s {
          device = d1;
          buffer = some (clear_buffer d.n_data_bytes_per_chunk bytes);
          byte_offset = 0;
          page_sequence = u32 (s.page_sequence + 1);
          current_chunk = if last then 0 else s.current_chunk + 1;
          current_block = if last then none else s.current_block;
        },
        simp (claimed, flush_into) refl,
        record {
          free = w1.free;
          erased_blocks = w1.erased_blocks;
          books = w1.books;
          counts_free = w1.counts_free;
          counts_erased = w1.counts_erased;
          bound = w1.bound;
          next = w1.next;
          held = (clear_buffer d.n_data_bytes_per_chunk bytes, refl);
          writable = w1.writable;
        },
        elim (Bool-cases last) [
          | inl full ↦ inl (rw full refl)
          | inr more ↦ inr (b, rw more at, rw more (omega arith))
        ],
      )

  -- What a step that may run out of blocks leaves.
  abbrev Steps : {A : Type 0} → Option (A × Stream N) → Type 0
  Steps {A} o = (x : A) × (s' : Stream N) × (o ≡ some (x, s')) × Unsettled s' × Between s'

  pub flush_buffer-Steps :
      (s : Stream N) → Unsettled s → Between s → Steps (flush_buffer driver local_tags s)
  unfolding flush_buffer
  flush_buffer-Steps s w between =
      let (s1, aimed, w1, page) = flush_target-OpenPage s w between in
      elim page [
        | inl out ↦ (false, s1, simp (aimed, out, flush_buffer) refl, w1, inl out)
        | inr (b, at, chunk) ↦
            let (bytes, held) = w1.held in
            let (s2, done, w2, between2) = flush_into-Settled s1 b bytes w1 at chunk in
            (true, s2, simp (aimed, at, held, done, flush_buffer) refl, w2, between2)
      ]

  write_byte-Steps :
      (s : Stream N) (byte : ℕ)
      → Unsettled s
      → Between s
      → Steps (write_byte driver local_tags s byte)
  unfolding write_byte count_byte
  write_byte-Steps s byte w between =
      let (bytes, held) = w.held in
      let s1 = count_byte (record s { buffer = some (set bytes s.byte_offset byte) }) byte in
      let w1 : Unsettled s1 = record {
        free = w.free;
        erased_blocks = w.erased_blocks;
        books = w.books;
        counts_free = w.counts_free;
        counts_erased = w.counts_erased;
        bound = w.bound;
        next = w.next;
        held = (set bytes s.byte_offset byte, refl);
        writable = w.writable;
      } in
      let full = leb s1.device.n_data_bytes_per_chunk s1.byte_offset in
      elim (Bool-cases full) [
        | inl flush ↦
            let (ok, s2, done, w2, between2) = flush_buffer-Steps s1 w1 between in
            (ok, s2, simp (held, flush, write_byte) done, w2, between2)
        | inr room ↦ (true, s1, simp (held, room, write_byte) refl, w1, between)
      ]

  write_bytes-Steps :
      (bytes : List ℕ) (i : ℕ) (s : Stream N)
      → Unsettled s
      → Between s
      → Steps (write_bytes driver local_tags bytes i s)
  unfolding write_bytes
  write_bytes-Steps [] i s w between = (i, s, refl, w, between)
  write_bytes-Steps (byte ∷ bytes) i s w between =
      let (ok, s1, done, w1, between1) = write_byte-Steps s byte w between in
      let (n, s2, done2, w2, between2) = write_bytes-Steps bytes (i + 1) s1 w1 between1 in
      elim (Bool-cases ok) [
        | inl on ↦ (n, s2, simp (done, on, write_bytes) done2, w2, between2)
        | inr stop ↦ (i + 1, s1, simp (done, stop, write_bytes) refl, w1, between1)
      ]

  -- `yaffs2_CheckpointWrite` to a stream that is open for writing runs to its end with a count of bytes,
  -- whatever the flash does. The counters of the device still count the blocks that the checkpoint has
  -- taken, and are right without them; no block is left with no page written.
  pub checkpoint_write-Unsettled :
      (s : Stream N) (bytes : List ℕ)
      → Unsettled s
      → Between s
      → (n : ℕ) × (s' : Stream N) × (checkpoint_write driver local_tags s bytes
          ≡ some (count n, s'))
        × Unsettled s'
        × Between s'
  unfolding checkpoint_write
  checkpoint_write-Unsettled s bytes w between =
      let (buffer, held) = w.held in
      let (n, s', done, w', between') = write_bytes-Steps bytes 0 s w between in
      (n, s', simp (held, w.writable, done, checkpoint_write) refl, w', between')
