-- ===== src/Files/Put.antt =====
-- yaffs_guts.c: a chunk is put into a file, by a write or by a scan.
use whisper_yaffs.Prelude.{
  ℕ, ◌+◌, bit_and, Bool, true, false, ◌||◌, List, Option, none, some, ◌==◌, if◌then◌else◌, u32,
}
use whisper_yaffs.Tags.{ExtendedTags}
use whisper_yaffs.Blocks.{Driver}
use whisper_yaffs.Blocks.Nand.{read_chunk_with_tags}
use whisper_yaffs.Blocks.Dirty.{delete_chunk}
use whisper_yaffs.Tnode.{get_chunk_group_base}
use whisper_yaffs.Tnode.Tree.{Allocator, add_or_find_level0_tnode}
use whisper_yaffs.Files.{File, Store, load_entry, find_chunk_in_file}

-- `inScan`, by its sign: 0, above zero, and below.
pub data Scan : Type 0 where
  not_scanning forward backward : Scan

-- The end of `yaffs_PutChunkIntoFile`: the entry is set, and a new chunk counted.
unfoldable pub set_entry :
    {N A : Type 0}
    → Store N A
    → File
    → List ℕ
    → (chunk_in_inode chunk_in_nand : ℕ) → (existing : Option ℕ) → Bool × File × Store N A
set_entry s file words chunk_in_inode chunk_in_nand existing =
    let fresh = elim existing as (λ _. Bool) [ none ↦ false | some e ↦ e == 0 ] in
    let counted = u32 (file.n_data_chunks + 1) in
    (
      true,
      record file {
        n_data_chunks = if fresh then counted else file.n_data_chunks;
        structure = load_entry s.packing file.structure words chunk_in_inode chunk_in_nand;
      },
      s,
    )

module _ {N A : Type 0} (driver : Driver N) where
  -- The deletion of a chunk that is to go, where -1 is ignored, and then what the function returns.
  unfoldable pub discard : Store N A → File → Option ℕ → Option (Bool × File × Store N A)
  discard s file none = some (true, file, s)
  discard s file (some chunk) = elim (delete_chunk driver s.device chunk true) [
    | none ↦ none
    | some d ↦ some (true, file, record s { device = d })
  ]

  -- A forward scan finds a chunk in the place: the tags of both decide which one stays. `left` is what
  -- the memory of the tags held before.
  unfoldable pub scan_forward :
      Store N A
      → File
      → List ℕ
      → (chunk_in_inode chunk_in_nand : ℕ) → (left : ExtendedTags)
      → Option (Bool × File × Store N A)
  scan_forward s file words chunk_in_inode chunk_in_nand left =
      elim (read_chunk_with_tags driver s.device chunk_in_nand) [
        | none ↦ none
        | some r ↦
            elim (find_chunk_in_file driver (record s { device = r.1 }) file chunk_in_inode left) [
              | none ↦ none
              | some found ↦
                  let s1 = record s { device = found.device } in
                  let missing = elim found.chunk as (λ _. Bool) [ none ↦ true | some e ↦ e == 0 ] in
                  let newer =
                    bit_and (u32 (found.tags.serial_number + 1)) 3 == r.0.tags.serial_number in
                  if missing || newer
                  then elim (discard s1 file found.chunk) [
                    | none ↦ none
                    | some dropped ↦
                        some
                          (set_entry dropped.2 file words chunk_in_inode chunk_in_nand found.chunk)
                  ]
                  else discard s1 file (some chunk_in_nand)
            ]
      ]

  -- `yaffs_PutChunkIntoFile` with the tnode there: whether there is a chunk in the place, and if so, how
  -- the chunk got here.
  unfoldable pub put_entry :
      Store N A
      → File
      → List ℕ
      → (chunk_in_inode chunk_in_nand : ℕ) → Scan
      → (left : ExtendedTags) → Option (Bool × File × Store N A)
  put_entry s file words chunk_in_inode chunk_in_nand scan left =
      let existing = get_chunk_group_base s.packing words chunk_in_inode in
      let plain = some (set_entry s file words chunk_in_inode chunk_in_nand (some existing)) in
      elim scan [
        | not_scanning ↦ plain
        | forward ↦
            if existing == 0
            then plain
            else scan_forward s file words chunk_in_inode chunk_in_nand left
        | backward ↦ if existing == 0 then plain else discard s file (some chunk_in_nand)
      ]

  module _ (allocator : Allocator A) where
    -- `yaffs_PutChunkIntoFile`: whether it succeeds, the file, and the device. `none` is a report through
    -- YBUG.
    unfoldable pub put_chunk_into_file :
        Store N A
        → File
        → (chunk_in_inode chunk_in_nand : ℕ) → Scan
        → (left : ExtendedTags) → Option (Bool × File × Store N A)
    put_chunk_into_file s file chunk_in_inode chunk_in_nand scan left =
        let other = elim scan as (λ _. Option (Bool × File × Store N A)) [
          | not_scanning ↦ none
          | _ ↦ discard s file (some chunk_in_nand)
        ] in
        elim file.is_file [
          | false ↦ other
          | true ↦
              elim (add_or_find_level0_tnode allocator file.structure chunk_in_inode none
                s.tnodes) [
                  | none ↦ none
                  | some r ↦
                      let s1 = record s { tnodes = r.2 } in
                      let file1 = record file { structure = r.1 } in
                      elim r.0 [
                        | none ↦ some (false, file1, s1)
                        | some words ↦
                            if chunk_in_nand == 0
                            then some (true, file1, s1)
                            else put_entry s1 file1 words chunk_in_inode chunk_in_nand scan left
                      ]
                ]
        ]
