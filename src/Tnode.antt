-- ===== src/Tnode.antt =====
-- yaffs_guts.c: the entries of a level 0 tnode, packed into 32-bit words at the width of the device.
-- A tnode is the list of its words.
mod Tests
pub mod Entries
pub mod Roundtrip
pub mod Tree
use whisper_yaffs.Prelude.{
  ℕ, ◌+◌, ◌-◌, ◌*◌, ◌/◌, ◌%◌, ◌^◌, ◌<<<◌, ◌>>>◌, bit_and, bit_or, Bool, true, false, List, [], ◌∷◌,
  replicate, ltb, if◌then◌else◌, get_or, set, u32, not32, ◌≡◌, refl,
}

-- `YAFFS_TNODES_LEVEL0_MASK`.
abbrev pub tnodes_level0_mask : ℕ
tnodes_level0_mask = 0xf

-- The fields of `yaffs_Device` that say how entries are packed.
pub record Packing : Type 0 where
  pub tnode_width : ℕ
  pub tnode_mask : ℕ
  pub chunk_group_bits : ℕ

-- `map[word] &= ~mask; map[word] |= (mask & bits);`
unfoldable pub merge_word : List ℕ → (word mask bits : ℕ) → List ℕ
merge_word map word mask bits =
    set map word (bit_or (bit_and (get_or map word 0) (not32 mask)) (bit_and mask bits))

-- `yaffs_LoadLevel0Tnode`: the second word is written where the entry does not fit the first.
unfoldable pub load_level0_tnode : Packing → List ℕ → (pos val : ℕ) → List ℕ
load_level0_tnode p map pos val =
    let at = bit_and pos tnodes_level0_mask in
    let v = val >>> p.chunk_group_bits in
    let bit_in_map = u32 (at * p.tnode_width) in
    let word = bit_in_map / 32 in
    let bit_in_word = bit_and bit_in_map 31 in
    let first =
      merge_word map word (u32 (p.tnode_mask <<< bit_in_word)) (u32 (v <<< bit_in_word)) in
    let rest = 32 - bit_in_word in
    if ltb rest p.tnode_width
    then merge_word first (word + 1) (p.tnode_mask >>> rest) (v >>> rest)
    else first

-- `yaffs_GetChunkGroupBase`.
unfoldable pub get_chunk_group_base : Packing → List ℕ → (pos : ℕ) → ℕ
get_chunk_group_base p map pos =
    let at = bit_and pos tnodes_level0_mask in
    let bit_in_map = u32 (at * p.tnode_width) in
    let word = bit_in_map / 32 in
    let bit_in_word = bit_and bit_in_map 31 in
    let low = get_or map word 0 >>> bit_in_word in
    let rest = 32 - bit_in_word in
    let both = bit_or low (u32 (get_or map (word + 1) 0 <<< rest)) in
    let val = if ltb rest p.tnode_width then both else low in
    u32 (bit_and val p.tnode_mask <<< p.chunk_group_bits)
