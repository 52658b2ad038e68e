-- ===== src/Blocks/Accounts/Steps.antt =====
-- The steps of a write on an allocated chunk: they run to their end, and what they leave.
use whisper_yaffs.Prelude.{
  ℕ, ◌+◌, ◌-◌, ◌/◌, ◌%◌, ◌<◌, ◌≡◌, refl, ◌∙◌, Bool, true, not, ◌&&◌, List, Option, some, arith, inl,
  inr, Bool-cases, ◌==◌, truthy, if◌then◌else◌, u32,
}
use whisper_yaffs.Tags.{ExtendedTags, validate_tags}
use whisper_yaffs.Blocks.{Device, Driver, chunks_per_block, put_block_info, handle_chunk_error}
use whisper_yaffs.Blocks.Nand.{ecc_failed, read_chunk_with_tags, write_chunk_with_tags}
use whisper_yaffs.Blocks.Dirty.{delete_chunk}
use whisper_yaffs.Blocks.Write.{
  check_ff, memcmp_equal, check_chunk_erased, verify_chunk_written, abandon_chunk,
  handle_write_chunk_error,
}
use whisper_yaffs.Blocks.Accounts.{IsInfo-At, get_block_info-At}
use whisper_yaffs.Blocks.Accounts.Same.{Same}
use whisper_yaffs.Blocks.Accounts.Open.{IsOpen}
use whisper_yaffs.Blocks.Accounts.Delete.{Deletes, less, delete_chunk-Accounts}
use whisper_yaffs.Blocks.Accounts.Held.{
  Held, IsSound, Held-IsSound, Held-Same, handled, Held-put, skip_rest-IsSound,
}

module _ {N : Type 0} (driver : Driver N) where
  Deletes-IsOpen :
      {d d' : Device N} (c : ℕ) (h : Held d c)
      → Deletes driver (c / chunks_per_block d) (c % chunks_per_block d) h.ready.info d d'
      → IsOpen d'
  Deletes-IsOpen {d} {d'} c h del = elim h.ready.opened [
    | inl closed ↦ inl (del.around.alloc_block ∙ closed)
    | inr o ↦ inr (
      c / chunks_per_block d,
      less h.ready.info,
      record {
        block = del.around.alloc_block ∙ o.block;
        range = (rw del.around.start o.range.0, rw del.around.last o.range.1);
        at = del.opened o.state;
        state = o.state;
        page = rw (del.around.alloc_page, del.around.chunks) o.page;
        used = rw del.around.alloc_page (ground (arith, o.used, h.ready.some_page, pages_small));
      },
    )
  ]
    where
      pages_small : h.ready.info.pages_in_use < 512
      pages_small = omega (
        arith,
        (IsInfo-At d (c / chunks_per_block d) h.ready.info h.ready.accounts h.ready.at).pages,
        h.ready.accounts.page.1,
      )

  -- What a step on an allocated chunk leaves, with the value it gives.
  abbrev pub Runs : {A : Type 0} → Option (A × Device N) → ℕ → Type 0
  Runs {A} o c = (x : A) × (d' : Device N) × (o ≡ some (x, d')) × Held d' c

  read-Runs : (d : Device N) (c : ℕ) → Held d c → Runs (read_chunk_with_tags driver d c) c
  unfolding read_chunk_with_tags
  read-Runs d c h =
      let r = driver.read_chunk d.nand (c - d.chunk_offset) in
      let d1 = record d { nand = r.1; n_page_reads = u32 (d.n_page_reads + 1) } in
      let b = c / chunks_per_block d in
      let same : Same d d1 = record {
        bitmap = refl;
        infos = refl;
        free = refl;
        erased_blocks = refl;
        alloc_block = refl;
        alloc_page = refl;
      } in
      let h1 : Held d1 c = Held-Same {d' = d1} c same h in
      let (s, st, pg) = handled d1 h1.ready.info in
      let hc = handle_chunk_error d1 h1.ready.info in
      let got = get_block_info-At d1 b h1.ready.info h1.ready.range h1.ready.at in
      elim (Bool-cases (ecc_failed r.0.tags.ecc_result)) [
        | inl failed ↦ (
          r.0,
          put_block_info hc.0 b hc.1,
          simp (failed, got, read_chunk_with_tags) refl,
          Held-put d1 hc.0 c hc.1 s h1 st pg,
        )
        | inr fine ↦ (r.0, d1, simp (fine, read_chunk_with_tags) refl, h1)
      ]

  pub write-Runs :
      (d : Device N) (c : ℕ) (bytes : List ℕ) (tags : ExtendedTags)
      → validate_tags tags ≡ true
      → Held d c
      → (ok : Bool) × (tags' : ExtendedTags) × (d' : Device N) × (write_chunk_with_tags driver d c
            (some bytes)
            tags
          ≡ some (ok, tags', d'))
        × (validate_tags tags' ≡ true)
        × Held d' c
  unfolding write_chunk_with_tags validate_tags
  write-Runs d c bytes tags valid h =
      let t = record tags { sequence_number = d.sequence_number; chunk_used = 1 } in
      let w = driver.write_chunk d.nand (c - d.chunk_offset) (some bytes) t in
      let d1 = record d { nand = w.1; n_page_writes = u32 (d.n_page_writes + 1) } in
      (
        w.0,
        t,
        d1,
        simp (valid, write_chunk_with_tags, validate_tags) refl,
        valid,
        Held-Same {d' = d1} c
            (record {
              bitmap = refl;
              infos = refl;
              free = refl;
              erased_blocks = refl;
              alloc_block = refl;
              alloc_page = refl;
            })
            h,
      )

  pub check_erased-Runs : (d : Device N) (c : ℕ) → Held d c → Runs (check_chunk_erased driver d c) c
  unfolding check_chunk_erased
  check_erased-Runs d c h =
      let (r, d', done, h') = read-Runs d c h in
      let ok =
        not (ecc_failed r.tags.ecc_result)
        && (check_ff d.n_data_bytes_per_chunk r.bytes && not (truthy r.tags.chunk_used)) in
      (ok, d', simp (done, check_chunk_erased) refl, h')

  pub verify-Runs :
      (d : Device N) (c : ℕ) (bytes : List ℕ) (tags : ExtendedTags)
      → Held d c
      → Runs (verify_chunk_written driver d c bytes tags) c
  unfolding verify_chunk_written
  verify-Runs d c bytes tags h =
      let (r, d', done, h') = read-Runs d c h in
      let ok =
        memcmp_equal d.n_data_bytes_per_chunk r.bytes bytes
        && (r.tags.object_id == tags.object_id
            && (r.tags.chunk_id == tags.chunk_id && r.tags.byte_count == tags.byte_count)) in
      (ok, d', simp (done, verify_chunk_written) refl, h')

  delete_zero : (d : Device N) (c : ℕ) → (c == 0) ≡ true → delete_chunk driver d c true ≡ some d
  unfolding delete_chunk
  delete_zero d c e = rw e refl

  -- The chunk is deleted and the rest of its block skipped.
  pub abandon-IsSound :
      (d : Device N) (c : ℕ)
      → Held d c
      → (d' : Device N) × (abandon_chunk driver d c ≡ some d') × IsSound d'
  unfolding abandon_chunk
  abandon-IsSound d c h = elim (Bool-cases (c == 0)) [
    | inl none_at_all ↦
        let (d', skipped, sound) = skip_rest-IsSound d (Held-IsSound c h) in
        (d', simp (delete_zero d c none_at_all, abandon_chunk) skipped, sound)
    | inr some_chunk ↦
        let (d1, deleted, del) =
          delete_chunk-Accounts driver d c true h.ready.info h.ready.accounts
            (λ e. ground (arith, e)) h.ready.range h.ready.at h.ready.holds h.ready.some_page in
        let (d', skipped, sound) = skip_rest-IsSound d1 (del.accounts, Deletes-IsOpen c h del) in
        (d', simp (deleted, abandon_chunk) skipped, sound)
  ]

  pub handle_write_error-IsSound :
      (d : Device N) (c : ℕ) (erased_ok : Bool)
      → Held d c
      → (d' : Device N) × (handle_write_chunk_error driver d c erased_ok ≡ some d') × IsSound d'
  unfolding handle_write_chunk_error
  handle_write_error-IsSound d c erased_ok h =
      let b = c / chunks_per_block d in
      let (s, st, pg) = handled d h.ready.info in
      let hc = handle_chunk_error d h.ready.info in
      let bi = record hc.1 { needs_retiring = if erased_ok then true else hc.1.needs_retiring } in
      let got = get_block_info-At d b h.ready.info h.ready.range h.ready.at in
      let (d', done, sound) =
        abandon-IsSound (put_block_info hc.0 b bi) c (Held-put d hc.0 c bi s h st pg) in
      (d', simp (got, handle_write_chunk_error) done, sound)
