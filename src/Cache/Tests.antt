-- ===== src/Cache/Tests.antt =====
-- A cache of three chunks, of which one is free.
use whisper_yaffs.Prelude.{
  ◌<◌, inl, ◌≡◌, refl, true, false, [], ◌∷◌, some, none, arith, ◌==◌, if◌then◌else◌, get_elem?,
}
use whisper_yaffs.Cache.{
  ChunkCache, Caches, find_chunk_cache, find_cache_loop, points_to, renew, reset_usage,
  invalidate_whole_chunk_cache,
}
use whisper_yaffs.Cache.Find.{find-invalidate_whole}
use whisper_yaffs.Cache.Use.{use_caches, use_chunk_cache-order}

abbrev cached : ChunkCache
cached = record {
  object = some 7;
  chunk_id = 1;
  last_use = 3;
  dirty = true;
  n_bytes = 4;
  locked = false;
  bytes = 1 ∷ 2 ∷ 3 ∷ 4 ∷ [];
}

abbrev three : Caches
three = record {
  sr_cache =
      cached
      ∷ record cached { object = none; last_use = 0 }
      ∷ record cached { object = some 8; last_use = 5 }
      ∷ [];
  sr_last_use = 5;
  cache_hits = 0;
}

find-invalidate_whole_example :
    (find_chunk_cache (invalidate_whole_chunk_cache three 7) 8 1).0
    ≡ (if 8 == 7 then none else (find_chunk_cache three 8 1).0)
find-invalidate_whole_example = find-invalidate_whole three 7 8 1

-- Cache 0 is read, and then cache 2 is written.
use_chunk_cache-order_example :
    (s' : Caches) × (c' : ChunkCache) × (d' : ChunkCache) × (use_caches three
        ((0, false) ∷ (2, true) ∷ [])
      ≡ some s')
    × (get_elem? s'.sr_cache 0 ≡ some c')
    × (get_elem? s'.sr_cache 2 ≡ some d')
    × (c'.last_use < d'.last_use)
    × (c'.dirty ≡ true)
    × ((c'.object ≡ some 7) × (c'.chunk_id ≡ 1) × (c'.locked ≡ false))
use_chunk_cache-order_example =
    use_chunk_cache-order three 0 2 false ((2, true) ∷ []) cached
      (record cached { object = some 8; last_use = 5 }) (omega arith)
      (omega arith, (omega arith, tt)) (λ e. omega (arith, e), tt) (inl refl) refl refl

-- The second chunk of object 8 is found third.
found_third : (find_chunk_cache three 8 1).0 ≡ some 2
unfolding find_chunk_cache find_cache_loop points_to
found_third = refl

-- The reset leaves the first cache as it is, with a last use above all that follow.
reset_first : (renew (record three { sr_last_use = 100000001 })).sr_last_use ≡ 0
unfolding renew
reset_first = refl

kept_first : get_elem? (reset_usage three.sr_cache) 0 ≡ some cached
unfolding reset_usage
kept_first = refl
