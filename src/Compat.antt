-- ===== src/Compat.antt =====
-- yaffs_tagscompat.c: the chunks of yaffs1, whose tags are in the spare area, read and written through
-- a driver that knows no tags.
--
-- `Layout` is the compiler's layout of the bit fields of `yaffs_Tags`. The driver gets the spare area
-- with each chunk; on a read it fills in the data, the spare area and two results of its own code.
pub mod Access
pub mod Bytes
pub mod Damage
mod Little
mod Tests
pub mod Roundtrip
use whisper_yaffs.Prelude.{
  ℕ, ◌+◌, ◌-◌, ◌*◌, ◌/◌, ◌%◌, ◌^◌, ◌<<<◌, ◌>>>◌, bit_and, bit_or, Bool, true, false, not, ◌&&◌,
  ◌||◌, List, [], ◌∷◌, ◌++◌, Option, none, some, ◌==◌, ltb, leb, truthy, to_int, if◌then◌else◌,
  take, drop, get_or, u32,
}
use whisper_yaffs.Ecc.Block.{
  EccBytes, Outcome, clean, corrected, uncorrectable, Correction, calculate, correct,
}
use whisper_yaffs.Tags.{ExtendedTags, EccResult, unknown, no_error, fixed, unfixed}
use whisper_yaffs.Tags.Yaffs1.{calc_ecc, calc_tags_ecc, check_ecc_on_tags, table_count_bits}
use whisper_yaffs.Blocks.{
  Device, BlockInfo, int_lt, get_block_info, put_block_info, chunks_per_block, needs_scanning,
  empty, dead,
}

-- `yaffs_Tags`: fields of 20, 2, 10, 18, 12 and 2 bits.
pub record Tags : Type 0 where
  pub chunk_id : ℕ
  pub serial_number : ℕ
  pub byte_count_lsb : ℕ
  pub object_id : ℕ
  pub ecc : ℕ
  pub byte_count_msb : ℕ

-- `yaffs_TagsUnion`.
pub record Layout : Type 0 where
  pub as_bytes : Tags → List ℕ
  pub as_tags : List ℕ → Tags

-- `tags->ecc`, and a store into it, on the bytes.
abbrev pub ecc_of : Layout → List ℕ → ℕ
ecc_of l b = (l.as_tags b).ecc

abbrev pub with_ecc : Layout → List ℕ → ℕ → List ℕ
with_ecc l b v = l.as_bytes (record (l.as_tags b) { ecc = v % 2 ^ 12 })

-- `yaffs_Spare`, with its tag bytes 0 to 7 as a list.
pub record Spare : Type 0 where
  pub tag_bytes : List ℕ
  pub page_status : ℕ
  pub block_status : ℕ
  pub ecc1 : EccBytes
  pub ecc2 : EccBytes

abbrev pub ff_bytes : List ℕ
ff_bytes = 0xFF ∷ 0xFF ∷ 0xFF ∷ 0xFF ∷ 0xFF ∷ 0xFF ∷ 0xFF ∷ 0xFF ∷ []

abbrev pub ff_ecc : EccBytes
ff_ecc = record { e0 = 0xFF; e1 = 0xFF; e2 = 0xFF }

-- `yaffs_SpareInitialise`.
unfoldable pub spare_initialise : Spare
spare_initialise = record {
  tag_bytes = ff_bytes;
  page_status = 0xFF;
  block_status = 0xFF;
  ecc1 = ff_ecc;
  ecc2 = ff_ecc;
}

unfoldable pub is_ff_ecc : EccBytes → Bool
is_ff_ecc e = e.e0 == 0xFF && (e.e1 == 0xFF && e.e2 == 0xFF)

unfoldable pub are_ff : List ℕ → Bool
are_ff [] = true
are_ff (x ∷ xs) = x == 0xFF && are_ff xs

-- `memcmp(&spareFF, &spare, sizeof(spareFF)) == 0`.
unfoldable pub is_ff : Spare → Bool
is_ff s =
    are_ff s.tag_bytes
    && (s.page_status == 0xFF && (s.block_status == 0xFF && (is_ff_ecc s.ecc1 && is_ff_ecc s.ecc2)))

-- What the driver's read fills in: the two results are those of `struct yaffs_NANDSpare`, on 32 bits.
pub record RawRead : Type 0 where
  pub ok : Bool
  pub bytes : List ℕ
  pub spare : Spare
  pub eccres1 : ℕ
  pub eccres2 : ℕ

-- `dev->param.writeChunkToNAND` and `dev->param.readChunkFromNAND`, which can be called without data.
pub record RawDriver (N : Type 0) : Type 0 where
  pub write_raw : N → ℕ → Option (List ℕ) → Spare → Bool × N
  pub read_raw : N → ℕ → (data_wanted : Bool) → RawRead × N

-- The device, with its fields that only this file uses.
pub record CompatDevice (N : Type 0) : Type 0 where
  pub device : Device N
  pub start_block : ℕ
  pub use_nand_ecc : Bool
  pub ecc_fixed : ℕ
  pub ecc_unfixed : ℕ
  pub tags_ecc_fixed : ℕ
  pub tags_ecc_unfixed : ℕ

abbrev pub with_nand : {N : Type 0} → CompatDevice N → N → CompatDevice N
with_nand d n = record d { device = record d.device { nand = n } }

-- `eccResult > 0` and `eccResult < 0`.
abbrev pub is_fixed : Outcome → Bool
is_fixed clean = false
is_fixed corrected = true
is_fixed uncorrectable = false

abbrev pub is_unfixed : Outcome → Bool
is_unfixed clean = false
is_unfixed corrected = false
is_unfixed uncorrectable = true

-- A result of the driver's code, by its sign.
unfoldable pub sign : ℕ → Outcome
sign e = if int_lt 0 e then corrected else if int_lt e 0 then uncorrectable else clean

-- `*eccResult`, of two results.
unfoldable pub combined_result : Outcome → Outcome → EccResult
combined_result r1 r2 =
    if is_unfixed r1 || is_unfixed r2
    then unfixed
    else if is_fixed r1 || is_fixed r2
    then fixed
    else no_error

-- The statistics of one corrected half.
unfoldable pub count_result : {N : Type 0} → CompatDevice N → Outcome → CompatDevice N
count_result d clean = d
count_result d corrected = record d { ecc_fixed = u32 (d.ecc_fixed + 1) }
count_result d uncorrectable = record d { ecc_unfixed = u32 (d.ecc_unfixed + 1) }

-- `yaffs_LoadTagsIntoSpare`.
unfoldable pub load_tags_into_spare : Layout → Spare → Tags → Spare
load_tags_into_spare l s t = record s {
  tag_bytes = calc_tags_ecc (ecc_of l) (with_ecc l) (l.as_bytes t);
}

-- `yaffs_GetTagsFromSpare`.
unfoldable pub get_tags_from_spare :
    {N : Type 0} → Layout → CompatDevice N → Spare → Tags × CompatDevice N
get_tags_from_spare l d s =
    let r = check_ecc_on_tags (ecc_of l) (with_ecc l) s.tag_bytes in
    (
      l.as_tags r.1,
      if is_fixed r.0
          then record d { tags_ecc_fixed = u32 (d.tags_ecc_fixed + 1) }
          else if is_unfixed r.0
          then record d { tags_ecc_unfixed = u32 (d.tags_ecc_unfixed + 1) }
          else d,
    )

-- `yaffs_HandleReadDataError`: `none` is a report through YBUG.
unfoldable pub handle_read_data_error :
    {N : Type 0} → CompatDevice N → (chunk : ℕ) → Option (CompatDevice N)
handle_read_data_error d chunk =
    let b = chunk / chunks_per_block d.device + d.device.block_offset in
    elim (get_block_info d.device b) [
      | none ↦ none
      | some bi ↦
          some
            (record d { device = put_block_info d.device b (record bi { needs_retiring = true }) })
    ]
