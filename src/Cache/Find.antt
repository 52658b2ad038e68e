-- ===== src/Cache/Find.antt =====
-- What is found in the cache of chunks after an invalidation.
use whisper_yaffs.Prelude.{
  ℕ, ◌+◌, ◌≡◌, refl, sym, ap, ◌∙◌, Bool, true, false, List, [], ◌∷◌, map, Option, none, some, ◌==◌,
  if◌then◌else◌, arith, Bool-cases, inl, inr,
}
use whisper_yaffs.Cache.{
  ChunkCache, Caches, is_of, points_to, emptied, find_cache_loop, find_chunk_cache,
  invalidate_whole_chunk_cache,
}

found_index :
    (s : Caches) (o chunk : ℕ)
    → (find_chunk_cache s o chunk).0 ≡ find_cache_loop o chunk 0 s.sr_cache
unfolding find_chunk_cache
found_index s o chunk = go (find_cache_loop o chunk 0 s.sr_cache) refl
  where
    go :
        (r : Option ℕ)
        → find_cache_loop o chunk 0 s.sr_cache ≡ r
        → (find_chunk_cache s o chunk).0 ≡ r
    go none e = simp (e, find_chunk_cache) refl
    go (some i) e = simp (e, find_chunk_cache) refl

if_same : {A : Type 0} (b : Bool) (a : A) → (if b then a else a) ≡ a
if_same true a = refl
if_same false a = refl

-- A pointer after the invalidation of an object.
points_to_lem :
    (x : Option ℕ) (object o : ℕ)
    → points_to o (if points_to object x then none else x)
      ≡ (if o == object then false else points_to o x)
unfolding points_to
points_to_lem none object o = sym (if_same (o == object) false)
points_to_lem (some k) object o = elim (Bool-cases (k == object)) [
  | inl hit ↦ rw hit (ground (arith, hit))
  | inr miss ↦ rw miss (ground (arith, miss))
]

object_lem :
    (c : ChunkCache) (object : ℕ)
    → (if is_of object c then emptied c else c).object
      ≡ (if points_to object c.object then none else c.object)
object_lem c object = elim (Bool-cases (points_to object c.object)) [
  | inl hit ↦ rw hit refl
  | inr miss ↦ rw miss refl
]

chunk_lem : (c : ChunkCache) (b : Bool) → (if b then emptied c else c).chunk_id ≡ c.chunk_id
chunk_lem c true = refl
chunk_lem c false = refl

find-map :
    (cs : List ChunkCache) (object o chunk i : ℕ)
    → find_cache_loop o chunk i (map (λ c. if is_of object c then emptied c else c) cs)
      ≡ (if o == object then none else find_cache_loop o chunk i cs)
unfolding find_cache_loop
find-map [] object o chunk i = sym (if_same (o == object) none)
find-map (c ∷ cs) object o chunk i =
    let here = ap (points_to o) (object_lem c object) ∙ points_to_lem c.object object o in
    let rest = find-map cs object o chunk (i + 1) in
    elim (Bool-cases (o == object)) [
      | inl same ↦ rw (here, chunk_lem c (is_of object c), rest, same) refl
      | inr other ↦ rw (here, chunk_lem c (is_of object c), rest, other) refl
    ]

-- After `yaffs_InvalidateWholeChunkCache` no chunk of the object is found in the cache, and the chunks of
-- every other object are found where they were.
pub find-invalidate_whole :
    (s : Caches) (object o chunk : ℕ)
    → (find_chunk_cache (invalidate_whole_chunk_cache s object) o chunk).0
      ≡ (if o == object then none else (find_chunk_cache s o chunk).0)
unfolding invalidate_whole_chunk_cache
find-invalidate_whole s object o chunk =
    found_index (invalidate_whole_chunk_cache s object) o chunk
    ∙ find-map s.sr_cache object o chunk 0
    ∙ ap (λ x. if o == object then none else x) (sym (found_index s o chunk))
