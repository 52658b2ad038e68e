-- ===== src/Allocator/Pools.antt =====
-- A pool of the allocator: its list of free nodes is a chain of nodes that are not in use.
use mathlib.Core.Path.{subst}
use mathlib.Core.List.{append_assoc}
use whisper_yaffs.Prelude.{
  ℕ, suc, ◌+◌, ◌-◌, ◌^◌, ◌<◌, ◌≡◌, ◌≢◌, refl, sym, true, false, List, [], ◌∷◌, ◌++◌, ◌==◌, arith,
  length, length-append, All,
}
use whisper_yaffs.Allocator.{Pool, link, cell, hook_loop, hook, take_first, put_first}
use whisper_yaffs.Allocator.Chain.{
  Chain, Lacks, Distinct, slots, length-slots, Lacks-left, link_self, Chain-link, Chain-hook_loop,
}

Distinct-left : (xs ys : List ℕ) → Distinct (xs ++ ys) → Distinct xs
Distinct-left [] ys h = tt
Distinct-left (x ∷ xs) ys h = (Lacks-left xs ys x h.0, Distinct-left xs ys h.1)

-- A pool whose free nodes are those of a list, and whose other nodes are in use: none stands twice.
pub record IsPool (next : ℕ → ℕ) (pool : Pool) (free used : List ℕ) : Type 0 where
  pub chain : Chain next pool.free free
  pub counted : pool.n_free ≡ length free
  pub distinct : Distinct (free ++ used)

-- What the free list becomes when the slab at `base` is hooked: the new nodes stand first.
pub hook-IsPool :
    (base size n : ℕ) (next : ℕ → ℕ) (pool : Pool) (free used : List ℕ)
    → IsPool next pool free used
    → Distinct (slots base size 0 (suc n) ++ (free ++ used))
    → All (λ a. a ≢ 0) (slots base size 0 (suc n))
    → length free + suc n < 2 ^ 32
    → let h = hook base size (suc n) next pool in
      IsPool h.0 h.1 (slots base size 0 (suc n) ++ free) used
unfolding hook
hook-IsPool base size n next pool free used is_pool apart some small =
    let news = slots base size 0 (suc n) in
    let rounds : suc n - 1 ≡ n = omega arith in
    let first : cell base size 0 ≡ base = omega arith in
    let regrouped : Distinct ((news ++ free) ++ used) =
      subst Distinct (sym (append_assoc news free used)) apart in
    let hooked =
      Chain-hook_loop base size n 0 n pool.free next free (omega arith) is_pool.chain
        (Distinct-left (news ++ free) used regrouped) some in
    record {
      chain =
          subst
            (λ (m : ℕ).
              Chain (link (hook_loop base size m 0 next) (cell base size m) pool.free) base
                (news ++ free))
            (sym rounds)
            (subst
              (λ (p : ℕ).
                Chain (link (hook_loop base size n 0 next) (cell base size n) pool.free) p
                  (news ++ free))
              first hooked);
      counted =
          omega (arith, is_pool.counted, length-append news free, length-slots base size 0 (suc n));
      distinct = regrouped;
    }

Lacks-middle : (xs ys : List ℕ) (x a : ℕ) → x ≢ a → Lacks (xs ++ ys) a → Lacks (xs ++ x ∷ ys) a
Lacks-middle [] ys x a ne h = (ne, h)
Lacks-middle (z ∷ xs) ys x a ne h = (h.0, Lacks-middle xs ys x a ne h.1)

Distinct-middle :
    (xs ys : List ℕ) (x : ℕ) → Lacks (xs ++ ys) x → Distinct (xs ++ ys) → Distinct (xs ++ x ∷ ys)
Distinct-middle [] ys x h d = (h, d)
Distinct-middle (z ∷ xs) ys x h d =
    (Lacks-middle xs ys x z (λ e. h.0 (sym e)) d.0, Distinct-middle xs ys x h.1 d.1)

Lacks-without : (xs ys : List ℕ) (x a : ℕ) → Lacks (xs ++ x ∷ ys) a → (x ≢ a) × Lacks (xs ++ ys) a
Lacks-without [] ys x a h = h
Lacks-without (z ∷ xs) ys x a h = let rest = Lacks-without xs ys x a h.1 in (rest.0, (h.0, rest.1))

Distinct-without :
    (xs ys : List ℕ) (x : ℕ) → Distinct (xs ++ x ∷ ys) → Lacks (xs ++ ys) x × Distinct (xs ++ ys)
Distinct-without [] ys x d = d
Distinct-without (z ∷ xs) ys x d =
    let here = Lacks-without xs ys x z d.0 in
    let rest = Distinct-without xs ys x d.1 in ((λ e. here.0 (sym e), rest.0), (here.1, rest.1))

-- The first free node is lent.
pub take_first-IsPool :
    (next : ℕ → ℕ) (pool : Pool) (x : ℕ) (free used : List ℕ)
    → IsPool next pool (x ∷ free) used
    → length (x ∷ free) < 2 ^ 32
    → let r = take_first next pool in
      (r.0 ≡ x) × IsPool next r.1 free (x ∷ used) × (r.1.allocated_list ≡ pool.allocated_list)
unfolding take_first
take_first-IsPool next pool x free used is_pool small =
    let head = is_pool.chain.0 in
    let full : (pool.free == 0) ≡ false = ground (arith, is_pool.chain.1) in
    rw full (
      head,
      record {
        chain = rw head is_pool.chain.2;
        counted = omega (arith, is_pool.counted);
        distinct = Distinct-middle free used x is_pool.distinct.0 is_pool.distinct.1;
      },
      refl,
    )

pub take_first-none :
    (next : ℕ → ℕ) (pool : Pool) (used : List ℕ)
    → IsPool next pool [] used
    → take_first next pool ≡ (0, pool)
unfolding take_first
take_first-none next pool used is_pool =
    let none : (pool.free == 0) ≡ true = ground (arith, is_pool.chain) in rw none

-- A node that is given back stands first.
pub put_first-IsPool :
    (next : ℕ → ℕ) (pool : Pool) (x : ℕ) (free used : List ℕ)
    → IsPool next pool free (x ∷ used)
    → x ≢ 0
    → length free + 1 < 2 ^ 32
    → IsPool (link next x pool.free) (put_first x pool) (x ∷ free) used
put_first-IsPool next pool x free used is_pool some small =
    let apart = Distinct-without free used x is_pool.distinct in
    record {
      chain = (
        refl,
        some,
        rw (link_self next x pool.free) (
            Chain-link next x pool.free pool.free free is_pool.chain
              (Lacks-left free used x apart.0)),
      );
      counted = omega (arith, is_pool.counted);
      distinct = apart;
    }
