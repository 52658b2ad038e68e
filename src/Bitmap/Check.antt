-- ===== src/Bitmap/Check.antt =====
-- yaffs_CheckChunkBit after yaffs_SetChunkBit and yaffs_ClearChunkBit.
use whisper_yaffs.Prelude.{
  ℕ, ◌≡◌, refl, sym, ap, ◌∙◌, Bool, true, false, ◌&&◌, Option, some, ◌==◌, if◌then◌else◌,
}
use whisper_yaffs.Bitmap.{Bitmap, set_chunk_bit, clear_chunk_bit, check_chunk_bit}
use whisper_yaffs.Bitmap.View.{
  IsValid, HasChunk, view, Updates, check_chunk_bit-view, set_chunk_bit-Updates,
  clear_chunk_bit-Updates,
}

some-if : (c x y : Bool) → some (if c then x else y) ≡ (if c then some x else some y)
some-if true x y = refl
some-if false x y = refl

-- What is read after an update: the value at the chunk, and elsewhere what was read before.
abbrev pub Reads : Bitmap → (b c b' c' : ℕ) → (value : Bool) → Bitmap → Type 0
Reads m b c b' c' value m' =
    check_chunk_bit m' b' c' ≡ (if b == b' && c == c' then some value else check_chunk_bit m b' c')

module _ {m : Bitmap} {b c b' c' : ℕ} (v : IsValid m) (h : HasChunk m b c)
    (h' : HasChunk m b' c') where
  Updates-Reads : (value : Bool) (m' : Bitmap) → Updates m b c value m' → Reads m b c b' c' value m'
  Updates-Reads value m' u =
      let has : HasChunk m' b' c' = record {
        first = rw u.start_block h'.first;
        last = rw u.end_block h'.last;
        chunk = rw u.chunks_per_block h'.chunk;
      } in
      check_chunk_bit-view u.valid has
      ∙ ap (λ (x : Bool). some x) (u.views b' c' h')
      ∙ some-if (b == b' && c == c') value (view m b' c')
      ∙ ap (λ (x : Option Bool). if b == b' && c == c' then some value else x)
          (sym (check_chunk_bit-view v h'))

  -- After `yaffs_SetChunkBit` on a chunk of the bitmap `yaffs_CheckChunkBit` finds it in use, after
  -- `yaffs_ClearChunkBit` it finds it not in use, and for every other chunk of the bitmap both leave what
  -- it finds. None of them leaves the bitmap's range.
  pub check-set_chunk_bit :
      ((m' : Bitmap) × (set_chunk_bit m b c ≡ some m') × Reads m b c b' c' true m')
      × ((m' : Bitmap) × (clear_chunk_bit m b c ≡ some m') × Reads m b c b' c' false m')
      × ((x : Bool) × (check_chunk_bit m b' c' ≡ some x))
  check-set_chunk_bit =
      let (m1, set_, u1) = set_chunk_bit-Updates v h in
      let (m2, cleared, u2) = clear_chunk_bit-Updates v h in
      (
        (m1, set_, Updates-Reads true m1 u1),
        (m2, cleared, Updates-Reads false m2 u2),
        (view m b' c', check_chunk_bit-view v h'),
      )
