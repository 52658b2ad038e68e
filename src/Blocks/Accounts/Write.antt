-- ===== src/Blocks/Accounts/Write.antt =====
-- The write of a new chunk: every round of its loop ends, and so does the loop.
use whisper_yaffs.Prelude.{
  ℕ, zero, suc, ◌+◌, ◌-◌, ◌/◌, ◌≤◌, ◌<◌, ◌≡◌, refl, ◌∙◌, Bool, true, false, not, ◌&&◌, ◌||◌, List,
  Option, none, some, arith, ◌⊎◌, inl, inr, Bool-cases, ◌==◌, leb, u32,
}
use whisper_yaffs.Tags.{ExtendedTags, validate_tags}
use whisper_yaffs.Blocks.{Device, Driver, chunks_per_block, put_block_info}
use whisper_yaffs.Blocks.Write.{
  set_skip, Attempt, no_space, retry, written, finish, write_unchecked, write_checked, try_write,
  write_loop, write_new_chunk,
}
use whisper_yaffs.Blocks.Accounts.{Accounts, get_block_info-At}
use whisper_yaffs.Blocks.Accounts.Same.{Same, Same-refl, Owing-Same, InRange-bitmap}
use whisper_yaffs.Blocks.Accounts.Keeps.{Keeps}
use whisper_yaffs.Blocks.Accounts.Erase.{invalidate_checkpoint-Keeps}
use whisper_yaffs.Blocks.Accounts.Open.{IsOpen}
use whisper_yaffs.Blocks.Accounts.Gives.{IsOpen-Same, allocate_chunk-Gives}
use whisper_yaffs.Blocks.Accounts.Held.{if_both, Held-Same, Held, IsSound, Held-IsSound, Held-put}
use whisper_yaffs.Blocks.Accounts.Steps.{
  write-Runs, check_erased-Runs, verify-Runs, abandon-IsSound, handle_write_error-IsSound,
}

module _ {N : Type 0} where
  Keeps-IsOpen : (d d' : Device N) → Keeps 0 d d' → IsOpen d → IsOpen d'
  Keeps-IsOpen d d' k (inl closed) = inl (k.alloc_block ∙ closed)
  Keeps-IsOpen d d' k (inr (b, bi, o)) = inr (
    b,
    bi,
    record {
      block = k.alloc_block ∙ o.block;
      range = InRange-bitmap d d' k.bitmap o.range;
      at = k.others b bi o.range o.at (ground (arith, o.state));
      state = o.state;
      page = rw (k.bitmap, k.alloc_page) o.page;
      used = rw k.alloc_page o.used;
    },
  )

module _ {N : Type 0} (driver : Driver N) where
  -- What a round leaves.
  IsRound : Attempt N → Type 0
  IsRound (no_space d) = IsSound d
  IsRound (retry tags d) = (validate_tags tags ≡ true) × IsSound d
  IsRound (written c d) = Held d c

  abbrev Rounds : Option (Attempt N) → Type 0
  Rounds o = (a : Attempt N) × (o ≡ some a) × IsRound a

  finish-Rounds :
      (d : Device N) (c : ℕ) (tags : ExtendedTags) (write_ok erased_ok : Bool)
      → validate_tags tags ≡ true
      → Held d c
      → Rounds (finish driver d c tags write_ok erased_ok)
  unfolding finish set_skip IsRound
  finish-Rounds d c tags true erased_ok valid h =
      let b = c / chunks_per_block d in
      let bi = record h.ready.info { skip_erased_check = true } in
      (
        written c (put_block_info d b bi),
        rw (get_block_info-At d b h.ready.info h.ready.range h.ready.at) refl,
        Held-put d d c bi (Same-refl d) h refl refl,
      )
  finish-Rounds d c tags false erased_ok valid h =
      let (d', done, sound) = handle_write_error-IsSound driver d c erased_ok h in
      (retry tags d', rw done refl, (valid, sound))

  unchecked-Rounds :
      (d : Device N) (c : ℕ) (bytes : List ℕ) (tags : ExtendedTags)
      → validate_tags tags ≡ true
      → Held d c
      → Rounds (write_unchecked driver d c bytes tags)
  unfolding write_unchecked
  unchecked-Rounds d c bytes tags valid h =
      let (ok, tags', d1, done, valid', h') = write-Runs driver d c bytes tags valid h in
      let (a, ended, r) = finish-Rounds d1 c tags' ok false valid' h' in
      (a, simp (done, write_unchecked) ended, r)

  checked-Rounds :
      (d : Device N) (c : ℕ) (bytes : List ℕ) (tags : ExtendedTags)
      → validate_tags tags ≡ true
      → Held d c
      → Rounds (write_checked driver d c bytes tags)
  unfolding write_checked IsRound
  checked-Rounds d c bytes tags valid h =
      let (erased_ok, d1, checked, h1) = check_erased-Runs driver d c h in
      elim (Bool-cases erased_ok) [
        | inl is_erased ↦
            let (ok, tags', d2, done, valid', h2) = write-Runs driver d1 c bytes tags valid h1 in
            let (write_ok, d3, verified, h3) = verify-Runs driver d2 c bytes tags' h2 in
            let (a, ended, r) = finish-Rounds d3 c tags' write_ok true valid' h3 in
            (a, simp (checked, is_erased, done, verified, write_checked) ended, r)
        | inr not_erased ↦
            let (d2, gone, sound) = abandon-IsSound driver d1 c h1 in
            (retry tags d2, simp (checked, not_erased, gone, write_checked) refl, (valid, sound))
      ]

  try-Rounds :
      (d : Device N) (bytes : List ℕ) (tags : ExtendedTags) (use_reserve : Bool)
      → validate_tags tags ≡ true
      → IsSound d
      → Rounds (try_write driver d bytes tags use_reserve)
  unfolding try_write IsRound
  try-Rounds d bytes tags use_reserve valid (acc, opened) =
      let (r, d1, done, same_n, gives) = allocate_chunk-Gives d use_reserve acc opened in
      elim gives [
        | inl (e, acc', opened') ↦ (no_space d1, simp (done, e, try_write) refl, (acc', opened'))
        | inr (c, e, h) ↦
            let b = c / chunks_per_block d1 in
            let skip = h.ready.info.skip_erased_check && not d1.always_check_erased in
            let bi = record h.ready.info { skip_erased_check = skip } in
            let d2 = put_block_info d1 b bi in
            let h2 = Held-put d1 d1 c bi (Same-refl d1) h refl refl in
            let got = get_block_info-At d1 b h.ready.info h.ready.range h.ready.at in
            let (a, ended, r') =
              if_both Rounds skip (unchecked-Rounds d2 c bytes tags valid h2)
                (checked-Rounds d2 c bytes tags valid h2) in
            (a, simp (done, e, got, try_write) ended, r')
      ]

  -- What the loop ends with.
  abbrev Ends : Option (Option ℕ × ℕ × Device N) → Type 0
  Ends o =
      (r : Option ℕ) × (n : ℕ) × (d' : Device N) × (o ≡ some (r, n, d'))
      × IsSound d'
      × ((r ≡ none) ⊎ ((c : ℕ) × (r ≡ some c) × Held d' c))

  -- The loop has enough fuel: one round more than the attempts that are left.
  write_loop-Ends :
      (fuel max_attempts attempts : ℕ) (d : Device N) (bytes : List ℕ) (tags : ExtendedTags)
      (use_reserve : Bool)
      → max_attempts < attempts + fuel
      → attempts ≤ max_attempts
      → 1 ≤ max_attempts
      → validate_tags tags ≡ true
      → IsSound d
      → Ends (write_loop driver fuel max_attempts attempts d bytes tags use_reserve)
  unfolding write_loop IsRound
  write_loop-Ends zero max_attempts attempts d bytes tags use_reserve enough before positive valid
        sound =
      absurd (omega (arith, enough, before))
  write_loop-Ends (suc fuel) max_attempts attempts d bytes tags use_reserve enough before positive
        valid sound =
      let (a, ended, r) = try-Rounds d bytes tags use_reserve valid sound in
      go a ended r (λ tags' d' more valid' sound'.
        write_loop-Ends fuel max_attempts (attempts + 1) d' bytes tags' use_reserve
          (omega (arith, enough)) more positive valid' sound')
    where
      go :
          (a : Attempt N)
          → try_write driver d bytes tags use_reserve ≡ some a
          → IsRound a
          → ((tags' : ExtendedTags) (d' : Device N)
              → attempts + 1 ≤ max_attempts
              → validate_tags tags' ≡ true
              → IsSound d'
              → Ends
                  (write_loop driver fuel max_attempts (attempts + 1) d' bytes tags' use_reserve))
          → Ends (write_loop driver (suc fuel) max_attempts attempts d bytes tags use_reserve)
      go (no_space d') ended sound' again =
          (none, attempts, d', simp (ended, write_loop) refl, sound', inl refl)
      go (written c d') ended h again = (
        some c,
        attempts + 1,
        d',
        simp (ended, write_loop) refl,
        Held-IsSound c h,
        inr (c, refl, h),
      )
      go (retry tags' d') ended (valid', sound') again =
          elim (Bool-cases (max_attempts == 0 || leb (attempts + 1) max_attempts)) [
            | inl go_on ↦
                let more : attempts + 1 ≤ max_attempts = ground (arith, go_on, positive) in
                let (r, n, d2, done, sound2, held) = again tags' d' more valid' sound' in
                (r, n, d2, simp (ended, go_on, write_loop) done, sound2, held)
            | inr over ↦
                (none, attempts + 1, d', simp (ended, over, write_loop) refl, sound', inl refl)
          ]

  -- `yaffs_WriteNewChunkWithTagsToNAND` returns, whatever the flash does, for valid tags and a positive
  -- limit of attempts on a device whose accounts and open block are right. They are right again
  -- afterwards, and the chunk is none or one whose bit is set, in a block that has a page in use and is
  -- the open one unless none is open.
  pub write_new_chunk-returns :
      (max_attempts : ℕ) (d : Device N) (bytes : List ℕ) (tags : ExtendedTags) (use_reserve : Bool)
      → 1 ≤ max_attempts
      → Accounts d
      → IsOpen d
      → validate_tags tags ≡ true
      → (r : Option ℕ) × (d' : Device N) × (write_new_chunk driver max_attempts d bytes tags
            use_reserve
          ≡ some (r, d'))
        × IsSound d'
        × ((r ≡ none) ⊎ ((c : ℕ) × (r ≡ some c) × Held d' c))
  unfolding write_new_chunk
  write_new_chunk-returns max_attempts d bytes tags use_reserve some_attempt acc opened valid =
      let (d1, done, k) = invalidate_checkpoint-Keeps 0 driver d acc in
      let (r, n, d2, ended, sound', held) =
        write_loop-Ends (max_attempts + 1) max_attempts 0 d1 bytes tags use_reserve (omega arith)
          (omega arith) some_attempt valid (k.accounts, Keeps-IsOpen d d1 k opened) in
      let d3 = record d2 { n_retried_writes = u32 (d2.n_retried_writes + (n - 1)) } in
      let same : Same d2 d3 = record {
        bitmap = refl;
        infos = refl;
        free = refl;
        erased_blocks = refl;
        alloc_block = refl;
        alloc_page = refl;
      } in
      (
        r,
        d3,
        simp (done, ended, write_new_chunk) refl,
        (Owing-Same same sound'.0, IsOpen-Same same sound'.1),
        elim held [ inl e ↦ inl e | inr (c, e, h) ↦ inr (c, e, Held-Same {d' = d3} c same h) ],
      )
