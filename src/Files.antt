-- ===== src/Files.antt =====
-- yaffs_guts.c: the chunks of a file. The look-up tree leads from a number in the file to a group of
-- chunks on the flash; the tags say which chunk of the group it is.
--
-- A chunk number -1 is `none`. The tree is a value, so a write through the pointer to a tnode puts the
-- tnode back into the tree.
pub mod Base
pub mod Entries
pub mod Put
pub mod Roundtrip
pub mod Soft
mod Tests
use whisper_yaffs.Prelude.{
  ℕ, zero, suc, ◌+◌, ◌/◌, ◌%◌, ◌^◌, Bool, true, false, not, ◌&&◌, ◌||◌, List, Option, none, some,
  ◌==◌, truthy, if◌then◌else◌, u32,
}
use whisper_yaffs.Bitmap.{check_chunk_bit}
use whisper_yaffs.Tags.{ExtendedTags}
use whisper_yaffs.Blocks.{Device, Driver, chunks_per_block}
use whisper_yaffs.Blocks.Nand.{read_chunk_with_tags}
use whisper_yaffs.Tnode.{Packing, load_level0_tnode, get_chunk_group_base}
use whisper_yaffs.Tnode.Tree.{Tnode, FileStructure, Tnodes, slot, put_child, find_level0_tnode}

-- The fields of `yaffs_Object` that are about the chunks of a file.
pub record File : Type 0 where
  pub object_id : ℕ
  pub is_file : Bool
  pub n_data_chunks : ℕ
  pub structure : FileStructure

-- The parts of the device: its blocks, its tnodes, and the groups of chunks.
pub record Store (N A : Type 0) : Type 0 where
  pub device : Device N
  pub tnodes : Tnodes A
  pub packing : Packing
  pub chunk_group_size : ℕ

-- What a search finds: the chunk, if there is one, the tags, which stay where none are read, and the
-- device.
pub record Found (N : Type 0) : Type 0 where
  pub chunk : Option ℕ
  pub tags : ExtendedTags
  pub device : Device N

-- The tnode of level 0 of a chunk is replaced, if there is one.
unfoldable pub put_level0 : (level : ℕ) → Tnode level → (chunk : ℕ) → List ℕ → Tnode level
put_level0 zero none chunk new = none
put_level0 zero (some words) chunk new = some new
put_level0 (suc level) none chunk new = none
put_level0 (suc level) (some child) chunk new =
    let x = slot level chunk in some (put_child child x (put_level0 level (child x) chunk new))

-- `yaffs_LoadLevel0Tnode` on the tnode `words` of a file.
unfoldable pub load_entry :
    Packing → FileStructure → List ℕ → (chunk_in_inode value : ℕ) → FileStructure
load_entry p f words chunk_in_inode value = record {
  top_level = f.top_level;
  top =
      put_level0 f.top_level f.top chunk_in_inode (load_level0_tnode p words chunk_in_inode value);
}

-- `yaffs_TagsMatch`.
unfoldable pub tags_match : ExtendedTags → (object_id chunk_in_object : ℕ) → Bool
tags_match t object_id chunk_in_object =
    t.chunk_id == chunk_in_object && (t.object_id == object_id && not (truthy t.chunk_deleted))

-- The tree without the entry of a chunk that was found.
unfoldable pub drop_entry : Packing → File → (chunk_in_inode : ℕ) → Option ℕ → File
drop_entry p file chunk_in_inode none = file
drop_entry p file chunk_in_inode (some c) = elim (find_level0_tnode file.structure chunk_in_inode) [
  | none ↦ file
  | some words ↦ record file { structure = load_entry p file.structure words chunk_in_inode 0 }
]

module _ {N : Type 0} (driver : Driver N) where
  -- The loop of `yaffs_FindChunkInGroup`. `none` is a report through YBUG.
  unfoldable pub group_loop :
      (size : ℕ)
      → (n : ℕ) → Device N
      → (the_chunk : ℕ) → ExtendedTags
      → (object_id chunk_in_inode : ℕ) → Option (Found N)
  group_loop size zero d the_chunk tags object_id chunk_in_inode =
      some (record { chunk = none; tags = tags; device = d })
  group_loop size (suc n) d the_chunk tags object_id chunk_in_inode =
      let cpb = chunks_per_block d in
      let skipped = group_loop size n d (the_chunk + 1) tags object_id chunk_in_inode in
      let alone : Found N = record { chunk = some the_chunk; tags = tags; device = d } in
      elim (the_chunk == 0) [
        | true ↦ some (record { chunk = none; tags = tags; device = d })
        | false ↦ elim (check_chunk_bit d.bitmap (the_chunk / cpb) (the_chunk % cpb)) [
          | none ↦ none
          | some false ↦ skipped
          | some true ↦ elim (size == 1) [
            | true ↦ some alone
            | false ↦ elim (read_chunk_with_tags driver d the_chunk) [
              | none ↦ none
              | some r ↦
                  let found : Found N = record {
                    chunk = some the_chunk;
                    tags = r.0.tags;
                    device = r.1;
                  } in
                  let rest =
                    group_loop size n r.1 (the_chunk + 1) r.0.tags object_id chunk_in_inode in
                  elim (tags_match r.0.tags object_id chunk_in_inode) [
                    | true ↦ some found
                    | false ↦ rest
                  ]
            ]
          ]
        ]
      ]

  -- `yaffs_FindChunkInGroup`.
  unfoldable pub find_chunk_in_group :
      (size : ℕ)
      → Device N
      → (the_chunk : ℕ) → ExtendedTags
      → (object_id chunk_in_inode : ℕ) → Option (Found N)
  find_chunk_in_group size d the_chunk tags object_id chunk_in_inode =
      group_loop size size d the_chunk tags object_id chunk_in_inode

  module _ {A : Type 0} where
    -- `yaffs_FindChunkInFile`.
    unfoldable pub find_chunk_in_file :
        Store N A → File → (chunk_in_inode : ℕ) → ExtendedTags → Option (Found N)
    find_chunk_in_file s file chunk_in_inode tags =
        elim (find_level0_tnode file.structure chunk_in_inode) [
          | none ↦ some (record { chunk = none; tags = tags; device = s.device })
          | some words ↦
              find_chunk_in_group s.chunk_group_size s.device
                (get_chunk_group_base s.packing words chunk_in_inode) tags file.object_id
                chunk_in_inode
        ]

    -- `yaffs_FindAndDeleteChunkInFile`.
    unfoldable pub find_and_delete_chunk_in_file :
        Store N A → File → (chunk_in_inode : ℕ) → ExtendedTags → Option (Found N × File)
    find_and_delete_chunk_in_file s file chunk_in_inode tags =
        elim (find_chunk_in_file s file chunk_in_inode tags) [
          | none ↦ none
          | some r ↦ some (r, drop_entry s.packing file chunk_in_inode r.chunk)
        ]
