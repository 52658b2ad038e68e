-- ===== src/Address.antt =====
-- yaffs_guts.c: the numbers of the geometry that yaffs_GutsInitialise computes, and the split of a byte
-- address into a chunk and an offset.
mod Power
mod Split
mod Tests
use whisper_yaffs.Prelude.{
  ℕ, zero, suc, ◌+◌, ◌-◌, ◌*◌, ◌/◌, ◌%◌, ◌<<<◌, ◌>>>◌, bit_and, Bool, true, false, ◌||◌, ◌==◌, ltb,
  if◌then◌else◌, u32,
}

-- The loop of `ShiftsGE`: at most `fuel` rounds, with the shifts and whether a bit was lost.
unfoldable pub shifts_ge_loop : (fuel x n_shifts : ℕ) → (extra : Bool) → ℕ
shifts_ge_loop zero x n_shifts extra = n_shifts
shifts_ge_loop (suc fuel) x n_shifts extra =
    let rest = shifts_ge_loop fuel (x >>> 1) (n_shifts + 1) (extra || x % 2 == 1) in
    if ltb 1 x then rest else if extra then n_shifts + 1 else n_shifts

-- `ShiftsGE` of a number of 32 bits.
unfoldable pub shifts_ge : (x : ℕ) → ℕ
shifts_ge x = shifts_ge_loop 33 x 0 false

-- The loop of `Shifts`: at most `fuel` rounds.
unfoldable pub shifts_loop : (fuel x : ℕ) → ℕ
shifts_loop zero x = 0
shifts_loop (suc fuel) x =
    let rest = shifts_loop fuel (x >>> 1) in if x % 2 == 1 then 0 else suc rest

-- `Shifts` of a number of 32 bits.
unfoldable pub shifts : (x : ℕ) → ℕ
shifts x = if x == 0 then 0 else shifts_loop 32 x

-- The fields of `yaffs_Device` for addresses.
pub record ChunkSizes : Type 0 where
  pub n_data_bytes_per_chunk : ℕ
  pub chunk_shift : ℕ
  pub chunk_div : ℕ
  pub chunk_mask : ℕ

-- What `yaffs_GutsInitialise` sets them to.
unfoldable pub chunk_sizes : (n_data_bytes_per_chunk : ℕ) → ChunkSizes
chunk_sizes n = record {
  n_data_bytes_per_chunk = n;
  chunk_shift = shifts n;
  chunk_div = n >>> shifts n;
  chunk_mask = u32 (1 <<< shifts n) - 1;
}

-- `yaffs_AddrToChunk`, for an address that is not negative and whose chunk number before the division is
-- one of an int.
unfoldable pub addr_to_chunk : ChunkSizes → (addr : ℕ) → ℕ × ℕ
addr_to_chunk s addr =
    let chunk = u32 (addr >>> s.chunk_shift) in
    let quotient = chunk / s.chunk_div in
    if s.chunk_div == 1
    then (chunk, u32 (bit_and addr s.chunk_mask))
    else (quotient, u32 (addr - quotient * s.n_data_bytes_per_chunk))
