-- ===== src/Lib.antt =====
-- The verification library of the YAFFS sources: a NAND flash file system.
--
-- The program's parts and the files that model them:
--   * yaffs_ecc.c, the error correcting code over data blocks and over packed tags: Ecc. Ecc/Block
--     models yaffs_ECCCalculate and yaffs_ECCCorrect, Ecc/Other the variant over any number of bytes,
--     Ecc/Parity the loop and the bit counts that both share, Ecc/Table the table.
--   * yaffs_packedtags1.c, yaffs_packedtags2.c and yaffs_tagsvalidity.c, the tags of a chunk in memory
--     and as they are stored: Tags, Tags/Packed1 and Tags/Packed2.
--   * yaffs_bitmap.c, the bitmap of the chunks in use: Bitmap; Bitmap/View relates the operations to a set
--     of chunks, Bitmap/Check to one another, Bitmap/Count counts.
-- Prelude holds the shared names, lists and words; Bits the lemmas on the bits of a number.
--
--   * the block management of yaffs_guts.c, with yaffs_getblockinfo.h, the oldest dirty sequence and
--     yaffs2_InvalidateCheckpoint of yaffs_yaffs2.c, and yaffs2_CheckpointErase of yaffs_checkptrw.c:
--     Blocks. Blocks/Nand models the calls of the driver in yaffs_nand.c, Blocks/Reserve the space
--     that is kept free (yaffs_CheckSpaceForAllocation, yaffs2_CalcCheckpointBlocksRequired),
--     Blocks/Write yaffs_WriteNewChunkWithTagsToNAND with its attempts. Blocks/Erase erases and retires blocks,
--     Blocks/Dirty models yaffs_BlockBecameDirty and yaffs_DeleteChunk, Blocks/Allocate
--     yaffs_AllocateChunk; Blocks/Accounts states what the counters of free chunks and erased blocks
--     are to say, and the files below it are about one operation each.
--
--     Blocks/Collect models yaffs_FindBlockForGarbageCollection. The accounts are those of a device
--     without softly deleted chunks.
--
--   * yaffs_nameval.c, names and values in a small buffer: Nameval; Nameval/Find and Nameval/Delete are
--     about the record that is found, and the bytes after a deletion.
--   * the look-up tree of a file, of yaffs_guts.c: Tnode models the packed entries of a tnode of level 0
--     (Tnode/Entries and Tnode/Roundtrip are about their digits),
--     Tnode/Tree yaffs_FindLevel0Tnode and yaffs_AddOrFindLevel0Tnode over an interface of
--     yaffs_allocator.c, Tnode/Tree/Pruning yaffs_PruneFileStructure. The sum over a name: Name.
--   * the code over the tags of yaffs1 and the table of bit counts, of yaffs_tagscompat.c: Tags/Yaffs1.
--     The rest of that file, which reads and writes chunks over a driver that knows no tags: Compat, with
--     the layout of yaffs_Tags as a parameter (Compat/Little is that of little-endian machines).
--   * the stream of bytes of a checkpoint, of yaffs_checkptrw.c: Checkpoint writes it, Checkpoint/Session
--     opens, reads and closes it; Checkpoint/Accounts and the files beside it are about the counters of
--     the device while it is written.
--   * the chunks of a file, of yaffs_guts.c: Files models yaffs_FindChunkInFile and
--     yaffs_FindAndDeleteChunkInFile, Files/Put yaffs_PutChunkIntoFile, Files/Soft yaffs_SoftDeleteWorker
--     over the tree; Files/Base, Files/Entries and Files/Roundtrip are about the entries.
--   * the pools of tnodes and objects with their free lists, of yaffs_allocator.c: Allocator, with
--     Allocator/Tnodes and Allocator/Objects; Allocator/Chain, Allocator/Pools and Allocator/Lend are about
--     the lists.
--   * the cache of chunks for short reads and writes, of yaffs_guts.c: Cache; Cache/Find is about the
--     invalidation, Cache/Use about the order of use.
--   * yaffs_AddrToChunk of yaffs_guts.c and the numbers that yaffs_GutsInitialise computes for it: Address.
--   * the oldest dirty sequence and the refresh block of yaffs_yaffs2.c: Blocks/Oldest; Blocks/Oldest/Least is
--     about the first.
--
-- The tags of yaffs2 are protected by the code of Ecc/Other; the bitmap is kept by the block
-- management. Numbers are natural numbers. A C expression that can wrap is written with its cast, as
-- u8, u32, not8 and not32 of Prelude/Words. A buffer is a list; a pointer into it is an index. The
-- loops over a buffer are recursion on the number of rounds; the loop that counts bits has as many
-- rounds as the number has bits.
--
-- Fields of type int are kept as their 32 bits and bit fields as their bits, with the wrap-around
-- written out. The NAND driver is a parameter: functions of a state of the flash, of which nothing
-- is assumed. An access to a block out of range, which the code reports through YBUG, is none. The
-- search for an erased block has one round for each block; the erasure of the checkpoint has too.
-- The loop that writes a new chunk has one round more than yaffs_wr_attempts, which is above zero.
--
-- The pointers of the look-up tree are options, indexed by the level at which the code reads them. The
-- height of a chunk number is computed in at most ten rounds, which its 28 higher bits need. The loops of Shifts and ShiftsGE have a round for each bit.
--
-- Left out: the flush of the chunk cache, the collection of a block, the scan, yaffs_SoftDeleteFile, and the
-- records that a checkpoint is made of. Not modelled: the parts that only call the kernel (yaffs_vfs_glue.c, yaffs_mtdif*.c,
-- yaffs_linux_allocator.c), encryption (yaffs_crypto.c), and tracing.
pub mod Prelude
pub mod Bits
pub mod Ecc
pub mod Tags
pub mod Bitmap
pub mod Blocks
pub mod Nameval
pub mod Tnode
pub mod Name
pub mod Checkpoint
pub mod Cache
pub mod Address
pub mod Compat
pub mod Allocator
pub mod Files
