-- ===== src/Blocks/Accounts.antt =====
-- The accounts of the free chunks and of the erased blocks: what the counters of the device are to say
-- of its blocks.
pub mod Find
pub mod Page
pub mod Allocate
pub mod Same
pub mod Open
pub mod Keeps
pub mod Erase
pub mod Retire
pub mod Dirty
pub mod Delete
pub mod Gives
pub mod Held
pub mod Steps
pub mod Remembered
pub mod Collect
pub mod Write
use whisper_yaffs.Prelude.{
  ℕ, zero, suc, ◌+◌, ◌-◌, ◌*◌, ◌/◌, ◌%◌, ◌^◌, ◌≤◌, ◌<◌, ◌≡◌, ◌≢◌, refl, sym, ap, ◌∙◌, Bool, true,
  false, not, ◌&&◌, ◌||◌, List, [], ◌∷◌, Option, none, some, arith, ◌==◌, ltb, leb, to_int,
  if◌then◌else◌, length, get_elem?, set, All, u32, length-set, All-set, some-injective, total,
  total-set, total-at, total-bound, get_elem_some, All-get_elem,
}
use whisper_yaffs.Bitmap.{Bitmap}
use whisper_yaffs.Bitmap.View.{IsValid}
use whisper_yaffs.Blocks.{
  BlockInfo, Device, empty, checkpoint, dead, start_block, end_block, chunks_per_block,
  get_block_info,
}

-- The free chunks that a block counts for.
unfoldable pub free_chunks : ℕ → BlockInfo → ℕ
free_chunks n bi =
    if bi.block_state == empty
    then n
    else if bi.block_state == dead || bi.block_state == checkpoint
    then 0
    else n - bi.pages_in_use

abbrev pub erased : BlockInfo → ℕ
erased bi = to_int (bi.block_state == empty)

free_chunks-bound : (n : ℕ) (bi : BlockInfo) → free_chunks n bi ≤ n
unfolding free_chunks
free_chunks-bound n bi = ground arith

erased-bound : (bi : BlockInfo) → erased bi ≤ 1
erased-bound bi = ground arith

-- No more pages in use than the block has, and none in an erased block or one of the checkpoint.
pub record IsInfo (n : ℕ) (bi : BlockInfo) : Type 0 where
  pub pages : bi.pages_in_use ≤ n
  pub unused :
      (bi.block_state == empty || bi.block_state == checkpoint) ≡ true → bi.pages_in_use ≡ 0

-- The accounts over the fields of the device that they are about, with a number of chunks that are no
-- longer counted as free though their block is.
pub record Books (m : Bitmap) (xs : List BlockInfo) (free_count erased_count debt : ℕ)
    : Type 0 where
  pub range : m.start_block ≤ m.end_block
  pub last : m.end_block < 2 ^ 31 - 1
  pub sized : length xs ≡ m.end_block + 1 - m.start_block
  pub page : (0 < m.chunks_per_block) × (m.chunks_per_block < 512)
  pub small : length xs * m.chunks_per_block < 2 ^ 31
  pub infos : All (IsInfo m.chunks_per_block) xs
  pub bits : IsValid m
  pub free : free_count + debt ≡ total (free_chunks m.chunks_per_block) xs
  pub empty_blocks : erased_count ≡ total erased xs

module _ {N : Type 0} where
  abbrev pub Owing : ℕ → Device N → Type 0
  Owing k d = Books d.bitmap d.block_info d.n_free_chunks d.n_erased_blocks k

  abbrev pub Accounts : Device N → Type 0
  Accounts d = Owing 0 d

  abbrev pub InRange : Device N → ℕ → Type 0
  InRange d b = (start_block d ≤ b) × (b ≤ end_block d)

  -- The block that the device has at a number.
  abbrev pub At : Device N → ℕ → BlockInfo → Type 0
  At d b bi = get_elem? d.block_info (b - start_block d) ≡ some bi

  pub At-some :
      {k : ℕ} (d : Device N) → Owing k d → (b : ℕ) → InRange d b → (bi : BlockInfo) × At d b bi
  At-some d acc b h = get_elem_some d.block_info (b - start_block d) (omega (arith, acc.sized))

  pub At-same :
      (d : Device N) {b t : ℕ} {bi ti : BlockInfo} → b ≡ t → At d b bi → At d t ti → bi ≡ ti
  At-same d same at_b at_t =
      some-injective (sym at_b ∙ ap (λ k. get_elem? d.block_info (k - start_block d)) same ∙ at_t)

  pub get_block_info-At :
      (d : Device N) (b : ℕ) (bi : BlockInfo)
      → InRange d b
      → At d b bi
      → get_block_info d b ≡ some bi
  unfolding get_block_info
  get_block_info-At d b bi h at =
      let inside : (ltb b (start_block d) || ltb (end_block d) b) ≡ false = ground arith in
      rw (inside, at)

  pub counters-bound :
      {k : ℕ} (d : Device N) → Owing k d → (d.n_free_chunks < 2 ^ 31) × (d.n_erased_blocks < 2 ^ 31)
  counters-bound d acc =
      let n = chunks_per_block d in
      let xs = d.block_info in
      let product : length xs * 1 ≤ length xs * n = grind (arith, acc.page.0) in
      let free_bound = total-bound (free_chunks n) n xs (free_chunks-bound n) in
      let erased_bound = total-bound erased 1 xs erased-bound in
      (
        omega (arith, acc.free, acc.small, free_bound),
        omega (arith, acc.empty_blocks, acc.small, erased_bound, product),
      )

  pub IsInfo-At :
      {k : ℕ} (d : Device N) (b : ℕ) (bi : BlockInfo)
      → Owing k d
      → At d b bi
      → IsInfo (chunks_per_block d) bi
  IsInfo-At d b bi acc at =
      All-get_elem (IsInfo (chunks_per_block d)) d.block_info (b - start_block d) bi acc.infos at

  -- The device with another block in the place of one, and with counters that follow.
  pub record Replaces (d : Device N) (b : ℕ) (old new : BlockInfo) (d' : Device N) : Type 0 where
    pub same_start : start_block d' ≡ start_block d
    pub same_end : end_block d' ≡ end_block d
    pub same_chunks : chunks_per_block d' ≡ chunks_per_block d
    pub bits_valid : IsValid d'.bitmap
    pub blocks : d'.block_info ≡ set d.block_info (b - start_block d) new
    pub free_moves :
        d'.n_free_chunks + free_chunks (chunks_per_block d) old
        ≡ d.n_free_chunks + free_chunks (chunks_per_block d) new
    pub erased_moves : d'.n_erased_blocks + erased old ≡ d.n_erased_blocks + erased new

  -- The accounts of a device whose block is replaced, from the accounts before.
  pub Accounts-Replaces :
      {k : ℕ} {d d' : Device N} {b : ℕ} {old new : BlockInfo}
      → Owing k d
      → At d b old
      → IsInfo (chunks_per_block d) new
      → Replaces d b old new d'
      → Owing k d'
  Accounts-Replaces {k} {d} {d'} {b} {old} {new} acc at info r =
      let n = chunks_per_block d in
      let i = b - start_block d in
      let xs = d.block_info in
      let ys = set xs i new in
      let len = length-set xs i new in
      let infos = All-set (IsInfo n) xs i new acc.infos info in
      let free_set = total-set (free_chunks n) xs i old new at in
      let erased_set = total-set erased xs i old new at in
      record {
        range = rw (r.same_start, r.same_end) acc.range;
        last = rw r.same_end acc.last;
        sized = rw (r.blocks, r.same_start, r.same_end) (len ∙ acc.sized);
        page = rw r.same_chunks acc.page;
        small = rw (r.blocks, r.same_chunks, len) acc.small;
        infos = rw (r.blocks, r.same_chunks) infos;
        bits = r.bits_valid;
        free = rw (r.blocks, r.same_chunks) (omega (arith, free_set, acc.free, r.free_moves));
        empty_blocks = rw r.blocks (omega (arith, erased_set, acc.empty_blocks, r.erased_moves));
      }
