-- ===== src/Blocks/Accounts/Page.antt =====
-- A page that is taken from the open block.
use whisper_yaffs.Prelude.{
  ℕ, ◌+◌, ◌-◌, ◌*◌, ◌≤◌, ◌≡◌, refl, true, none, some, arith, leb, ◌⊎◌, inl, inr, Bool-cases,
  get_elem-set_self, total-at,
}
use whisper_yaffs.Bitmap.{Bitmap}
use whisper_yaffs.Bitmap.View.{HasChunk, Updates, set_chunk_bit-Updates}
use whisper_yaffs.Blocks.{BlockInfo, Device, start_block, chunks_per_block}
use whisper_yaffs.Blocks.Allocate.{take_page, taken, taken_info}
use whisper_yaffs.Blocks.Accounts.{
  Accounts, At, IsInfo, Accounts-Replaces, free_chunks, counters-bound, IsInfo-At,
}
use whisper_yaffs.Blocks.Dirty.{holds_chunks}
use whisper_yaffs.Blocks.Accounts.Open.{Open, Ready, Ready-IsOpen, Allocates}

module _ {N : Type 0} where
  module _ (d : Device N) (b : ℕ) (bi : BlockInfo) (acc : Accounts d) (open_ : Open d b bi) where
    info : IsInfo (chunks_per_block d) bi
    info = IsInfo-At d b bi acc open_.at

    before : free_chunks (chunks_per_block d) bi ≡ chunks_per_block d - bi.pages_in_use
    unfolding free_chunks
    before = rw open_.state refl

    after :
        free_chunks (chunks_per_block d) (taken_info d bi)
        ≡ chunks_per_block d - (bi.pages_in_use + 1)
    unfolding free_chunks taken_info
    after = ground (arith, open_.state, open_.used, open_.page, acc.page.1)

    some_free : 1 ≤ d.n_free_chunks
    some_free = omega (
      arith,
      total-at (free_chunks (chunks_per_block d)) d.block_info (b - start_block d) bi open_.at,
      acc.free,
      before,
      open_.used,
      open_.page,
    )

    taken_info-IsInfo : IsInfo (chunks_per_block d) (taken_info d bi)
    unfolding taken_info
    taken_info-IsInfo = record {
      pages = omega (arith, open_.used, open_.page, acc.page.1);
      unused = λ h. ground (arith, open_.state);
    }

    taken_info-holds : holds_chunks (taken_info d bi) ≡ true
    unfolding taken_info
    taken_info-holds = ground (arith, open_.state)

    has_chunk : HasChunk d.bitmap b d.allocation_page
    has_chunk = record { first = open_.range.0; last = open_.range.1; chunk = open_.page }

    taken-Accounts :
        (m : Bitmap) → Updates d.bitmap b d.allocation_page true m → Accounts (taken d b bi m)
    unfolding taken
    taken-Accounts m u =
        let bounds = counters-bound d acc in
        Accounts-Replaces {d = d} {d' = taken d b bi m} {b = b} acc open_.at taken_info-IsInfo
          (record {
            same_start = u.start_block;
            same_end = u.end_block;
            same_chunks = u.chunks_per_block;
            bits_valid = u.valid;
            blocks = refl;
            free_moves = omega (arith, before, after, some_free, bounds.0, open_.used, open_.page);
            erased_moves = unfold taken_info in ground (arith, open_.state);
          })

    taken-At :
        (m : Bitmap)
        → Updates d.bitmap b d.allocation_page true m
        → At (taken d b bi m) b (taken_info d bi)
    unfolding taken
    taken-At m u = rw u.start_block (
        get_elem-set_self d.block_info (b - start_block d) (taken_info d bi)
          (omega (arith, open_.range, acc.sized)))

    taken-Open :
        (m : Bitmap)
        → Updates d.bitmap b d.allocation_page true m
        → ((taken d b bi m).allocation_block ≡ none) ⊎ Open (taken d b bi m) b (taken_info d bi)
    unfolding taken taken_info
    taken-Open m u = elim (Bool-cases (leb (chunks_per_block d) (d.allocation_page + 1))) [
      | inl last ↦ inl (rw last refl)
      | inr more ↦ inr (record {
        block = rw more open_.block;
        range = (rw u.start_block open_.range.0, rw u.end_block open_.range.1);
        at = taken-At m u;
        state = rw more open_.state;
        page = rw u.chunks_per_block (ground arith);
        used = omega (arith, open_.used, open_.page, acc.page.1);
      })
    ]

    taken-Ready :
        (m : Bitmap) → Updates d.bitmap b d.allocation_page true m → Ready (taken d b bi m) b
    taken-Ready m u = record {
      accounts = taken-Accounts m u;
      info = taken_info d bi;
      range = unfold taken in (rw u.start_block open_.range.0, rw u.end_block open_.range.1);
      at = taken-At m u;
      holds = taken_info-holds;
      some_page = unfold taken_info in omega (arith, open_.used, open_.page, acc.page.1);
      opened = taken-Open m u;
    }

    pub take_page-Allocates :
        (d' : Device N) × (take_page d b bi
          ≡ some (some (b * chunks_per_block d + d.allocation_page), d'))
        × Allocates d.bitmap d.n_free_chunks b d.allocation_page d'
    unfolding take_page
    take_page-Allocates =
        let (m, done, u) = set_chunk_bit-Updates acc.bits has_chunk in
        (
          taken d b bi m,
          rw (done, take_page) refl,
          record {
            range = open_.range;
            page = open_.page;
            accounts = taken-Accounts m u;
            opened = Ready-IsOpen (taken-Ready m u);
            ready = taken-Ready m u;
            one_less = one_less m;
            bit = unfold taken in u;
          },
        )
      where
        one_less : (m : Bitmap) → (taken d b bi m).n_free_chunks + 1 ≡ d.n_free_chunks
        one_less m = unfold taken in omega (arith, some_free, (counters-bound d acc).0)
