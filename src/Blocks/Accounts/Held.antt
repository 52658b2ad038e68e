-- ===== src/Blocks/Accounts/Held.antt =====
-- The block of an allocated chunk, as the steps of a write change it.
use mathlib.Core.Path.{subst}
use whisper_yaffs.Prelude.{
  ℕ, zero, suc, ◌/◌, ◌%◌, ◌≡◌, refl, sym, ap, ◌∙◌, Bool, true, false, none, some, arith, inl, inr,
  if◌then◌else◌,
}
use whisper_yaffs.Bitmap.View.{view}
use whisper_yaffs.Blocks.{
  BlockInfo, Device, full, chunks_per_block, put_block_info, handle_chunk_error,
}
use whisper_yaffs.Blocks.Allocate.{skip_rest_of_block}
use whisper_yaffs.Blocks.Accounts.{
  Accounts, IsInfo-At, Accounts-Replaces, free_chunks, get_block_info-At,
}
use whisper_yaffs.Blocks.Accounts.Same.{Same, Same-refl}
use whisper_yaffs.Blocks.Accounts.Open.{IsOpen, Ready, Ready-Same, Ready-IsOpen, Ready-put}

pub if_both :
    {A : Type 0} (P : A → Type 0) (c : Bool) {x y : A} → P x → P y → P (if c then x else y)
if_both P true p q = p
if_both P false p q = q

module _ {N : Type 0} where
  -- The bit of a chunk is set.
  abbrev pub InUse : Device N → ℕ → Type 0
  InUse d c = view d.bitmap (c / chunks_per_block d) (c % chunks_per_block d) ≡ true

  -- The bit of a chunk is set, and its block has a page in use and is the open one unless none is open.
  pub record Held (d : Device N) (c : ℕ) : Type 0 where
    pub ready : Ready d (c / chunks_per_block d)
    pub bit : InUse d c

  -- The accounts and the open block are right.
  abbrev pub IsSound : Device N → Type 0
  IsSound d = Accounts d × IsOpen d

  pub Held-IsSound : {d : Device N} (c : ℕ) → Held d c → IsSound d
  Held-IsSound c h = (h.ready.accounts, Ready-IsOpen h.ready)

  pub Held-Same : {d d' : Device N} (c : ℕ) → Same d d' → Held d c → Held d' c
  Held-Same {d} {d'} c s h = record {
    ready = subst (λ m. Ready d' (c / m.chunks_per_block)) (sym s.bitmap) (Ready-Same s h.ready).0;
    bit =
        subst (λ m. view m (c / m.chunks_per_block) (c % m.chunks_per_block) ≡ true) (sym s.bitmap)
          h.bit;
  }

  pub handled :
      (d : Device N) (bi : BlockInfo)
      → Same d (handle_chunk_error d bi).0
        × ((handle_chunk_error d bi).1.block_state ≡ bi.block_state)
        × ((handle_chunk_error d bi).1.pages_in_use ≡ bi.pages_in_use)
  unfolding handle_chunk_error
  handled d bi =
      if_both
        (λ (x : Device N × BlockInfo).
          Same d x.0 × (x.1.block_state ≡ bi.block_state) × (x.1.pages_in_use ≡ bi.pages_in_use))
        bi.gc_prioritise (Same-refl d, refl, refl)
        (
          record {
            bitmap = refl;
            infos = refl;
            free = refl;
            erased_blocks = refl;
            alloc_block = refl;
            alloc_page = refl;
          },
          refl,
          refl,
        )

  -- A device that is the same with another block of the same state and pages in its place.
  pub Held-put :
      (d d' : Device N) (c : ℕ) (new : BlockInfo)
      → Same d d'
      → (h : Held d c) → new.block_state ≡ h.ready.info.block_state
      → new.pages_in_use ≡ h.ready.info.pages_in_use
      → Held (put_block_info d' (c / chunks_per_block d) new) c
  Held-put d d' c new s h same_state same_pages =
      let b = c / chunks_per_block d in
      let (r, same_info) = Ready-Same s h.ready in
      record {
        ready =
            subst (λ m. Ready (put_block_info d' b new) (c / m.chunks_per_block)) (sym s.bitmap)
              (Ready-put d' b new r (same_state ∙ ap (λ bi. bi.block_state) (sym same_info))
                (same_pages ∙ ap (λ bi. bi.pages_in_use) (sym same_info)));
        bit = (Held-Same {d' = d'} c s h).bit;
      }

  -- The rest of the open block is skipped.
  pub skip_rest-IsSound :
      (d : Device N) → IsSound d → (d' : Device N) × (skip_rest_of_block d ≡ some d') × IsSound d'
  unfolding skip_rest_of_block
  skip_rest-IsSound d (acc, inl closed) = (d, rw closed refl, (acc, inl closed))
  skip_rest-IsSound d (acc, inr (zero, bi, o)) = (d, rw o.block refl, (acc, inr (zero, bi, o)))
  skip_rest-IsSound d (acc, inr (suc b, bi, o)) =
      let d' = record (put_block_info d (suc b) (record bi { block_state = full })) {
        allocation_block = none;
      } in
      let got = get_block_info-At d (suc b) bi o.range o.at in
      let info = IsInfo-At d (suc b) bi acc o.at in
      (
        d',
        simp (o.block, got, o.state, skip_rest_of_block) refl,
        (
          Accounts-Replaces {d = d} {d' = d'} {b = suc b} acc o.at
              (record { pages = info.pages; unused = λ e. absurd (ground (arith, e)) })
              (record {
                same_start = refl;
                same_end = refl;
                same_chunks = refl;
                bits_valid = acc.bits;
                blocks = refl;
                free_moves = unfold free_chunks in rw o.state refl;
                erased_moves = rw o.state refl;
              }),
          inl refl,
        ),
      )
