-- ===== src/Cache.antt =====
-- yaffs_guts.c: the cache of chunks for short reads and writes. A cache is found by the number of its
-- object, with `none` for NULL, and of its chunk; the pointer to one is its index.
pub mod Find
pub mod Use
mod Tests
use whisper_yaffs.Prelude.{
  ℕ, zero, suc, ◌+◌, ◌-◌, ◌%◌, ◌^◌, Bool, true, false, not, ◌&&◌, ◌||◌, List, [], ◌∷◌, map, Option,
  none, some, ◌==◌, ltb, leb, if◌then◌else◌, set, get_elem?, u32,
}

-- `yaffs_ChunkCache`; the data are those of the buffer.
pub record ChunkCache : Type 0 where
  pub object : Option ℕ
  pub chunk_id : ℕ
  pub last_use : ℕ
  pub dirty : Bool
  pub n_bytes : ℕ
  pub locked : Bool
  pub bytes : List ℕ

-- The fields of `yaffs_Device` about the caches, as many as `nShortOpCaches`.
pub record Caches : Type 0 where
  pub sr_cache : List ChunkCache
  pub sr_last_use : ℕ
  pub cache_hits : ℕ

-- Whether a pointer to an object is that of an object.
unfoldable pub points_to : (object : ℕ) → Option ℕ → Bool
points_to object none = false
points_to object (some o) = o == object

abbrev pub is_of : (object : ℕ) → ChunkCache → Bool
is_of object c = points_to object c.object

-- The loop of `yaffs_ObjectHasCachedWriteData`.
unfoldable pub has_cached_write_data : (object : ℕ) → List ChunkCache → Bool
has_cached_write_data object [] = false
has_cached_write_data object (c ∷ cs) = is_of object c && c.dirty || has_cached_write_data object cs

-- The loop of `yaffs_GrabChunkCacheWorker`, from index `i` on.
unfoldable pub grab_loop : (i : ℕ) → List ChunkCache → Option ℕ
grab_loop i [] = none
grab_loop i (c ∷ cs) = elim c.object [ none ↦ some i | some o ↦ grab_loop (i + 1) cs ]

-- `yaffs_GrabChunkCacheWorker`.
unfoldable pub grab_chunk_cache_worker : Caches → Option ℕ
grab_chunk_cache_worker s = grab_loop 0 s.sr_cache

-- The loop of `yaffs_FindChunkCache`, from index `i` on.
unfoldable pub find_cache_loop : (object chunk i : ℕ) → List ChunkCache → Option ℕ
find_cache_loop object chunk i [] = none
find_cache_loop object chunk i (c ∷ cs) =
    let rest = find_cache_loop object chunk (i + 1) cs in
    if is_of object c && c.chunk_id == chunk then some i else rest

-- `yaffs_FindChunkCache`.
unfoldable pub find_chunk_cache : Caches → (object chunk : ℕ) → Option ℕ × Caches
find_chunk_cache s object chunk = elim (find_cache_loop object chunk 0 s.sr_cache) [
  | none ↦ (none, s)
  | some i ↦ (some i, record s { cache_hits = u32 (s.cache_hits + 1) })
]

-- `dev->srCache[i].lastUse = 0` for all caches but the first.
unfoldable pub reset_usage : List ChunkCache → List ChunkCache
reset_usage [] = []
reset_usage (c ∷ cs) = c ∷ map (λ (x : ChunkCache). record x { last_use = 0 }) cs

-- The caches before the use of one, for a last use that is not negative.
unfoldable pub renew : Caches → Caches
renew s =
    if ltb 100000000 s.sr_last_use
    then record s { sr_cache = reset_usage s.sr_cache; sr_last_use = 0 }
    else s

-- `yaffs_UseChunkCache` on cache `i`.
unfoldable pub use_chunk_cache : Caches → (i : ℕ) → (is_a_write : Bool) → Option Caches
use_chunk_cache s i is_a_write =
    let s1 = renew s in
    elim (get_elem? s1.sr_cache i) [
      | none ↦ none
      | some c ↦
          let used = record c { last_use = s1.sr_last_use + 1; dirty = c.dirty || is_a_write } in
          some (record s1 { sr_cache = set s1.sr_cache i used; sr_last_use = s1.sr_last_use + 1 })
    ]

abbrev pub emptied : ChunkCache → ChunkCache
emptied c = record c { object = none }

-- `yaffs_InvalidateChunkCache`.
unfoldable pub invalidate_chunk_cache : Caches → (object chunk : ℕ) → Caches
invalidate_chunk_cache s object chunk =
    let found = find_chunk_cache s object chunk in
    elim found.0 [
      | none ↦ found.1
      | some i ↦ elim (get_elem? s.sr_cache i) [
        | none ↦ found.1
        | some c ↦ record found.1 { sr_cache = set s.sr_cache i (emptied c) }
      ]
    ]

-- `yaffs_InvalidateWholeChunkCache`.
unfoldable pub invalidate_whole_chunk_cache : Caches → (object : ℕ) → Caches
invalidate_whole_chunk_cache s object = record s {
  sr_cache = map (λ c. if is_of object c then emptied c else c) s.sr_cache;
}
