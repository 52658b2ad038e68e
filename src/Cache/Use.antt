-- ===== src/Cache/Use.antt =====
-- yaffs_UseChunkCache, called again and again: the order in which the caches were used.
use whisper_yaffs.Prelude.{
  ℕ, suc, ◌+◌, ◌≤◌, ◌<◌, ◌≡◌, ◌≢◌, refl, sym, ap, ◌∙◌, Bool, false, ◌||◌, List, [], ◌∷◌, Option,
  none, some, ◌==◌, ==_iff, ltb, set, get_elem?, arith, Bool-cases, ◌⊎◌, inl, inr, All, length,
  length-set, get_elem_some, get_elem-set_self, get_elem-set_ne, some-injective,
}
use whisper_yaffs.Cache.{ChunkCache, Caches, use_chunk_cache, renew}

-- The calls in their order, each with the index of the cache and whether it is for a write.
unfoldable pub use_caches : Caches → List (ℕ × Bool) → Option Caches
use_caches s [] = some s
use_caches s (u ∷ us) = elim (use_chunk_cache s u.0 u.1) [
  | none ↦ none
  | some s' ↦ use_caches s' us
]

-- Cache `j` is used by one of the calls.
abbrev pub Uses : ℕ → List (ℕ × Bool) → Type 0
Uses j [] = ⊥
Uses j (u ∷ us) = (u.0 ≡ j) ⊎ Uses j us

-- What a cache was is what it is but for its use.
abbrev touched : ChunkCache → ℕ → Bool → ChunkCache
touched c at is_a_write = record c { last_use = at; dirty = c.dirty || is_a_write }

-- What one call does while the count of uses is small.
record Step (s : Caches) (i : ℕ) (is_a_write : Bool) (s' : Caches) : Type 0 where
  done : use_chunk_cache s i is_a_write ≡ some s'
  count : s'.sr_last_use ≡ s.sr_last_use + 1
  same_length : length s'.sr_cache ≡ length s.sr_cache
  own :
      (c : ChunkCache)
      → get_elem? s.sr_cache i ≡ some c
      → get_elem? s'.sr_cache i ≡ some (touched c (s.sr_last_use + 1) is_a_write)
  others : (j : ℕ) → i ≢ j → get_elem? s'.sr_cache j ≡ get_elem? s.sr_cache j

use-Step :
    (s : Caches) (i : ℕ) (is_a_write : Bool)
    → s.sr_last_use ≤ 100000000
    → i < length s.sr_cache
    → (s' : Caches) × Step s i is_a_write s'
unfolding use_chunk_cache renew
use-Step s i is_a_write small inside =
    let (c, at) = get_elem_some s.sr_cache i inside in
    let calm : ltb 100000000 s.sr_last_use ≡ false = ground (arith, small) in
    let used = touched c (s.sr_last_use + 1) is_a_write in
    (
      record s { sr_cache = set s.sr_cache i used; sr_last_use = s.sr_last_use + 1 },
      record {
        done = simp (calm, at, use_chunk_cache, renew) refl;
        count = refl;
        same_length = length-set s.sr_cache i used;
        own = λ x e.
            get_elem-set_self s.sr_cache i used inside
            ∙ ap (λ (o : ChunkCache). some (touched o (s.sr_last_use + 1) is_a_write))
                (some-injective (sym at ∙ e));
        others = λ j ne. get_elem-set_ne s.sr_cache i j used ne;
      },
    )

-- What a run of calls does.
record Run (s : Caches) (us : List (ℕ × Bool)) (s' : Caches) : Type 0 where
  done : use_caches s us ≡ some s'
  untouched : (i : ℕ) → All (λ u. u.0 ≢ i) us → get_elem? s'.sr_cache i ≡ get_elem? s.sr_cache i
  later :
      (m j : ℕ) (c : ChunkCache)
      → get_elem? s.sr_cache j ≡ some c
      → m ≤ s.sr_last_use
      → (m < c.last_use) ⊎ Uses j us
      → (c' : ChunkCache) × (get_elem? s'.sr_cache j ≡ some c') × (m < c'.last_use)

-- The last use of a cache after one call.
one_later :
    (s s1 : Caches) (i : ℕ) (w : Bool) (m j : ℕ) (c : ChunkCache)
    → Step s i w s1
    → get_elem? s.sr_cache j ≡ some c
    → m ≤ s.sr_last_use
    → (m < c.last_use) ⊎ (i ≡ j)
    → (c1 : ChunkCache) × (get_elem? s1.sr_cache j ≡ some c1) × (m < c1.last_use)
one_later s s1 i w m j c step at low why = elim (Bool-cases (i == j)) [
  | inl hit ↦
      let same : i ≡ j = (==_iff i j).0 hit in
      let here = step.own c (ap (get_elem? s.sr_cache) same ∙ at) in
      (
        touched c (s.sr_last_use + 1) w,
        ap (get_elem? s1.sr_cache) (sym same) ∙ here,
        omega (arith, low),
      )
  | inr miss ↦
      let other : i ≢ j = ground (arith, miss) in
      (c, step.others j other ∙ at, elim why [ inl more ↦ more | inr e ↦ absurd (other e) ])
]

-- A cache stays in its place.
one_there :
    (s s1 : Caches) (i : ℕ) (w : Bool) (j : ℕ) (c : ChunkCache)
    → Step s i w s1
    → get_elem? s.sr_cache j ≡ some c
    → (c1 : ChunkCache) × (get_elem? s1.sr_cache j ≡ some c1)
one_there s s1 i w j c step at = elim (Bool-cases (i == j)) [
  | inl hit ↦
      let same : i ≡ j = (==_iff i j).0 hit in
      let (c1, at1, later) = one_later s s1 i w 0 j c step at (omega arith) (inr same) in (c1, at1)
  | inr miss ↦ (c, step.others j (ground (arith, miss)) ∙ at)
]

use_caches-Run :
    (us : List (ℕ × Bool)) (s : Caches)
    → s.sr_last_use + length us ≤ 100000000
    → All (λ u. u.0 < length s.sr_cache) us
    → (s' : Caches) × Run s us s'
unfolding use_caches
use_caches-Run [] s small inside = (
  s,
  record {
    done = refl;
    untouched = λ i none_at_all. refl;
    later = λ m j c at low why. elim why [ inl more ↦ (c, at, more) | inr never ↦ absurd never ];
  },
)
use_caches-Run (u ∷ us) s small (here, rest) =
    let (s1, step) = use-Step s u.0 u.1 (omega (arith, small)) here in
    let (s', r) =
      use_caches-Run us s1 (rw step.count (omega (arith, small))) (rw step.same_length rest) in
    (
      s',
      record {
        done = simp (step.done, use_caches) r.done;
        untouched = λ i apart. r.untouched i apart.1 ∙ step.others i apart.0;
        later = λ m j c at low why.
            let low1 : m ≤ s1.sr_last_use = rw step.count (omega (arith, low)) in
            let at_once : (m < c.last_use) ⊎ (u.0 ≡ j)
                → (c' : ChunkCache) × (get_elem? s'.sr_cache j ≡ some c') × (m < c'.last_use) =
              λ soon.
                let (c1, at1, more) = one_later s s1 u.0 u.1 m j c step at low soon in
                r.later m j c1 at1 low1 (inl more) in
            elim why [
              | inl more ↦ at_once (inl more)
              | inr (inl e) ↦ at_once (inr e)
              | inr (inr uses) ↦
                  let (c1, at1) = one_there s s1 u.0 u.1 j c step at in
                  r.later m j c1 at1 low1 (inr uses)
            ];
      },
    )

-- Calls of `yaffs_UseChunkCache`: the first one uses cache `i`, none of the others does, and one of them
-- uses cache `j`. Then all calls return, and cache `i` ends with a smaller last use than cache `j`. It has the object, the chunk and the lock that it had, and it is
-- dirty if it was or if its use is for a write. This is while the count of uses does not go above
-- 100000000.
pub use_chunk_cache-order :
    (s : Caches) (i j : ℕ) (is_a_write : Bool) (us : List (ℕ × Bool)) (c d : ChunkCache)
    → s.sr_last_use + suc (length us) ≤ 100000000
    → All (λ u. u.0 < length s.sr_cache) ((i, is_a_write) ∷ us)
    → All (λ u. u.0 ≢ i) us
    → Uses j us
    → get_elem? s.sr_cache i ≡ some c
    → get_elem? s.sr_cache j ≡ some d
    → (s' : Caches) × (c' : ChunkCache) × (d' : ChunkCache) × (use_caches s ((i, is_a_write) ∷ us)
        ≡ some s')
      × (get_elem? s'.sr_cache i ≡ some c')
      × (get_elem? s'.sr_cache j ≡ some d')
      × (c'.last_use < d'.last_use)
      × (c'.dirty ≡ (c.dirty || is_a_write))
      × ((c'.object ≡ c.object) × (c'.chunk_id ≡ c.chunk_id) × (c'.locked ≡ c.locked))
unfolding use_caches
use_chunk_cache-order s i j is_a_write us c d small (here, rest) apart uses at_i at_j =
    let (s1, step) = use-Step s i is_a_write (omega (arith, small)) here in
    let (s', r) =
      use_caches-Run us s1 (rw step.count (omega (arith, small))) (rw step.same_length rest) in
    let (d1, there) = one_there s s1 i is_a_write j d step at_j in
    let at : ℕ = s.sr_last_use + 1 in
    let (d', last, later) = r.later at j d1 there (omega (arith, step.count)) (inr uses) in
    (
      s',
      touched c at is_a_write,
      d',
      simp (step.done, use_caches) r.done,
      r.untouched i apart ∙ step.own c at_i,
      last,
      later,
      refl,
      (refl, refl, refl),
    )
