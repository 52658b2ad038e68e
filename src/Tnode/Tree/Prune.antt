-- ===== src/Tnode/Tree/Prune.antt =====
-- yaffs_PruneWorker and yaffs_PruneFileStructure: what the tree still finds when it is pruned.
use mathlib.Core.Path.{subst}
use whisper_yaffs.Prelude.{
  ℕ, zero, suc, ◌+◌, ◌≤◌, ◌<◌, ◌≡◌, refl, sym, ap, ◌∙◌, Bool, true, false, not, ◌&&◌, ◌||◌, arith,
  List, none, some, ◌==◌, Bool-cases, ◌⊎◌, inl, inr, if◌then◌else◌,
}
use whisper_yaffs.Tnode.Tree.{
  Tnode, FileStructure, Tnodes, Allocator, slot, find_down, find_level0_tnode, put_child, is_null,
  ntnodes_internal, free_tnode, tnodes_max_level,
}
use whisper_yaffs.Tnode.Tree.Pruning.{
  has_words, prune_children, prune_worker, has_others, lower, prune_file_structure,
}
use whisper_yaffs.Tnode.Tree.Digits.{slot_lem}
use whisper_yaffs.Tnode.Tree.Height.{at_level, taller, fits, find_fit, find_misfit}

-- What is found is the same, or a tnode without a word is gone.
abbrev pub Spares : ℕ → Tnode 0 → Tnode 0 → Type 0
Spares n t t' = (t' ≡ t) ⊎ ((t' ≡ none) × ((w : List ℕ) × (t ≡ some w) × (has_words n w ≡ false)))

replace_ends : (n : ℕ) {a b a' b' : Tnode 0} → a ≡ b → a' ≡ b' → Spares n b b' → Spares n a a'
replace_ends n e e' (inl same) = inl (e' ∙ same ∙ sym e)
replace_ends n e e' (inr (gone, (w, was, clear))) = inr (e' ∙ gone, (w, e ∙ was, clear))

find_nulls : (l c : ℕ) (tn : Tnode l) → is_null l tn ≡ true → find_down l tn c ≡ none
unfolding find_down
find_nulls zero c none e = refl
find_nulls zero c (some words) e = absurd (ground (arith, e))
find_nulls (suc l) c none e = refl
find_nulls (suc l) c (some child) e = absurd (ground (arith, e))

-- What a function that prunes one subtree does to what is found.
abbrev SparesAll :
    {A : Type 0} → (l : ℕ) → (Tnode l → Bool → Tnodes A → Tnode l × Tnodes A) → (c n : ℕ) → Type 0
SparesAll {A} l worker c n =
    (tn : Tnode l) (del0 : Bool) (s : Tnodes A)
    → s.n_words ≡ n
    → ((worker tn del0 s).1.n_words ≡ n)
      × Spares n (find_down l tn c) (find_down l (worker tn del0 s).0 c)

module _ {A : Type 0} (l c words : ℕ) (worker : Tnode l → Bool → Tnodes A → Tnode l × Tnodes A)
    (spares : SparesAll l worker c words) where
  -- What the loop leaves of the pointers from `i` on.
  pub record Loops (n i : ℕ) (child : ℕ → Tnode l) (has_data : Bool)
      (r : (ℕ → Tnode l) × Bool × Tnodes A) : Type 0 where
    pub same_words : r.2.n_words ≡ words
    pub spared : (x : ℕ) → Spares words (find_down l (child x) c) (find_down l (r.0 x) c)
    pub before : (x : ℕ) → x < i → r.0 x ≡ child x
    pub had : r.1 ≡ false → has_data ≡ false
    pub nulls : r.1 ≡ false → (x : ℕ) → i ≤ x → x < i + n → is_null l (r.0 x) ≡ true

  pub loop-Loops :
      (n i : ℕ) (child : ℕ → Tnode l) (del0 has_data : Bool) (s : Tnodes A)
      → s.n_words ≡ words
      → Loops n i child has_data (prune_children l worker n i child del0 has_data s)
  unfolding prune_children
  loop-Loops zero i child del0 has_data s e = record {
    same_words = e;
    spared = λ x. inl refl;
    before = λ x h. refl;
    had = λ h. h;
    nulls = λ h x low high. absurd (omega (arith, low, high));
  }
  loop-Loops (suc n) i child del0 has_data s e =
      let d = if i == 0 then del0 else true in
      let (e1, kept) = spares (child i) d s e in
      let w = worker (child i) d s in
      let rest =
        loop-Loops n (i + 1) (put_child child i w.0) del0 (has_data || not (is_null l w.0)) w.1
          e1 in
      let placed : (x : ℕ) → x ≡ i → put_child child i w.0 x ≡ w.0 =
        λ x h. let hit : (x == i) ≡ true = ground (arith, h) in rw hit refl in
      let kept_as : (x : ℕ) → (x == i) ≡ false → put_child child i w.0 x ≡ child x =
        λ x h. rw h refl in
      record {
        same_words = rest.same_words;
        spared = λ x. elim (Bool-cases (x == i)) [
          | inl hit ↦
              let here : x ≡ i = ground (arith, hit) in
              let now = rest.before x (omega (arith, here)) ∙ placed x here in
              replace_ends words (ap (λ k. find_down l (child k) c) here)
                (ap (λ t. find_down l t c) now) kept
          | inr miss ↦
              replace_ends words (ap (λ t. find_down l t c) (sym (kept_as x miss))) refl
                (rest.spared x)
        ];
        before = λ x h. rest.before x (omega (arith, h)) ∙ kept_as x (ground (arith, h));
        had = λ h. ground (arith, rest.had h);
        nulls = λ h x low high. elim (Bool-cases (x == i)) [
          | inl hit ↦
              let here : x ≡ i = ground (arith, hit) in
              let now = rest.before x (omega (arith, here)) ∙ placed x here in
              ap (is_null l) now ∙ ground (arith, rest.had h)
          | inr miss ↦ rest.nulls h x (ground (arith, miss, low)) (omega (arith, high))
        ];
      }

module _ {A : Type 0} (allocator : Allocator A) where
  clear :
      {n : ℕ} (s : Tnodes A) (words : List ℕ)
      → s.n_words ≡ n
      → has_words s.n_words words ≡ false
      → has_words n words ≡ false
  clear s words e h = subst (λ k. has_words k words ≡ false) e h

  pub prune_worker-SparesAll : (l c n : ℕ) → SparesAll l (prune_worker allocator l) c n
  unfolding prune_worker find_down free_tnode
  prune_worker-SparesAll zero c n none del0 s e = (e, inl refl)
  prune_worker-SparesAll zero c n (some words) del0 s e =
      elim (Bool-cases (not (has_words s.n_words words) && del0)) [
        | inl gone ↦
            (rw gone e, inr (rw gone refl, (words, refl, clear s words e (ground (arith, gone)))))
        | inr kept ↦ (rw kept e, inl (rw kept refl))
      ]
  prune_worker-SparesAll (suc l) c n none del0 s e = (e, inl refl)
  prune_worker-SparesAll (suc l) c n (some child) del0 s e =
      let rec_ = prune_worker-SparesAll l c n in
      let r = prune_children l (prune_worker allocator l) ntnodes_internal 0 child del0 false s in
      let loop =
        loop-Loops l c n (prune_worker allocator l) rec_ ntnodes_internal 0 child del0 false s e in
      let x = slot l c in
      let below_eight : x < 8 = omega (arith, slot_lem l c) in
      elim (Bool-cases (not r.1 && del0)) [
        | inl gone ↦
            let none_left : r.1 ≡ false = ground (arith, gone) in
            let lost =
              find_nulls l c (r.0 x)
                (loop.nulls none_left x (omega arith) (omega (arith, below_eight))) in
            (rw gone loop.same_words, rw gone (replace_ends n refl (sym lost) (loop.spared x)))
        | inr kept ↦ (rw kept loop.same_words, rw kept (loop.spared x))
      ]

-- The pointers to the first chunk are there, down to level 0.
unfoldable pub HasFirst : (l : ℕ) → Tnode l → Type 0
HasFirst zero tn = Unit
HasFirst (suc l) none = ⊥
HasFirst (suc l) (some child) = HasFirst l (child 0)

others_null :
    (l n i : ℕ) (child : ℕ → Tnode l)
    → has_others l n i child ≡ false
    → (x : ℕ) → i ≤ x
    → x < i + n
    → is_null l (child x) ≡ true
unfolding has_others
others_null l zero i child h x low high = absurd (omega (arith, low, high))
others_null l (suc n) i child h x low high = elim (Bool-cases (x == i)) [
  | inl e ↦
      let here : x ≡ i = ground (arith, e) in ap (λ k. is_null l (child k)) here ∙ ground (arith, h)
  | inr e ↦
      others_null l n (i + 1) child (ground (arith, h)) x (ground (arith, e, low))
        (omega (arith, high))
]

module _ {A : Type 0} (allocator : Allocator A) where
  prune_worker-HasFirst :
      (l : ℕ) (tn : Tnode l) (s : Tnodes A)
      → HasFirst l tn
      → HasFirst l (prune_worker allocator l tn false s).0
  unfolding prune_worker HasFirst prune_children
  prune_worker-HasFirst zero tn s h = h
  prune_worker-HasFirst (suc l) none s h = h
  prune_worker-HasFirst (suc l) (some child) s h =
      let w = prune_worker allocator l (child 0) false s in
      let rest =
        loop-Loops l 0 w.1.n_words (prune_worker allocator l)
          (prune_worker-SparesAll allocator l 0 w.1.n_words) 7 1 (put_child child 0 w.0) false
          (not (is_null l w.0)) w.1 refl in
      let stays : (not (prune_children l (prune_worker allocator l) 8 0 child false false s).1
            && false)
          ≡ false =
        ground arith in
      rw stays (
        subst (HasFirst l) (sym (rest.before 0 (omega arith)))
          (prune_worker-HasFirst l (child 0) s h))

  lower-find :
      (l : ℕ) (tn : Tnode l) (s : Tnodes A) (c : ℕ)
      → l ≤ 6
      → HasFirst l tn
      → (r : FileStructure × Tnodes A) × (lower allocator l tn s ≡ some r)
        × (r.0.top_level ≤ l)
        × (find_level0_tnode r.0 c ≡ find_level0_tnode (at_level l tn) c)
  unfolding lower HasFirst
  lower-find zero tn s c low h = ((at_level 0 tn, s), refl, omega arith, refl)
  lower-find (suc l) none s c low h = absurd h
  lower-find (suc l) (some child) s c low h =
      let (r, done, not_taller, same) =
        lower-find l (child 0) (free_tnode allocator s) c (omega (arith, low)) h in
      elim (Bool-cases (has_others l 7 1 child)) [
        | inl kept ↦ ((at_level (suc l) (some child), s), rw kept refl, omega arith, refl)
        | inr only ↦ (
          r,
          rw only done,
          omega (arith, not_taller),
          same
              ∙ sym (
                  taller l child c low (λ x p q.
                    find_nulls l c (child x)
                      (others_null l 7 1 child only x p (omega (arith, q))))),
        )
      ]

  -- `yaffs_PruneFileStructure` returns, on a tree of at most six levels that has the pointers to its first
  -- chunk. The tree is no taller then. For every chunk number `yaffs_FindLevel0Tnode` finds the tnode that
  -- it found before, or none where the words of that tnode were all zero.
  pub prune_file_structure-Spares :
      (f : FileStructure) (s : Tnodes A) (c : ℕ)
      → f.top_level ≤ tnodes_max_level
      → HasFirst f.top_level f.top
      → (r : FileStructure × Tnodes A) × (prune_file_structure allocator f s ≡ some r)
        × (r.0.top_level ≤ f.top_level)
        × Spares s.n_words (find_level0_tnode f c) (find_level0_tnode r.0 c)
  unfolding prune_file_structure
  prune_file_structure-Spares f s c low h = elim (Bool-cases (f.top_level == 0)) [
    | inl flat ↦ ((f, s), rw flat refl, omega arith, inl refl)
    | inr tall ↦
        let l = f.top_level in
        let w = prune_worker allocator l f.top false s in
        let (e, kept) = prune_worker-SparesAll allocator l c s.n_words f.top false s refl in
        let (r, done, not_taller, same) =
          lower-find l w.0 w.1 c low (prune_worker-HasFirst l f.top s h) in
        (
          r,
          rw tall done,
          not_taller,
          elim (fits l c) [
            | inl ok ↦
                replace_ends s.n_words (find_fit l f.top c low ok) (same ∙ find_fit l w.0 c low ok)
                  kept
            | inr why ↦ inl (same ∙ find_misfit l w.0 c why ∙ sym (find_misfit l f.top c why))
          ],
        )
  ]
