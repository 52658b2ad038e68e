-- ===== src/Tnode/Tree/Add.antt =====
-- yaffs_AddOrFindLevel0Tnode and yaffs_FindLevel0Tnode: the tree as a map from tnodes to their words.
use whisper_yaffs.Prelude.{
  ℕ, zero, suc, ◌+◌, ◌-◌, ◌/◌, ◌^◌, ◌≤◌, ◌<◌, ◌≡◌, refl, sym, ap, ◌∙◌, true, false, ◌||◌, arith,
  none, some, ◌==◌, ltb, Bool-cases, ◌⊎◌, inl, inr, if◌then◌else◌, replicate,
}
use whisper_yaffs.Tnode.Tree.{
  Tnode, FileStructure, Tnodes, Allocator, required_tallness, find_down, find_level0_tnode,
  put_child, null, get_tnode, grow, add_down, copy_entries, add_below, add_or_find_level0_tnode,
  max_chunk_id, tnodes_max_level,
}
use whisper_yaffs.Tnode.Tree.Digits.{agree, agree_lem, agree_same}
use whisper_yaffs.Tnode.Tree.Lookup.{Adds, Gives, add_down-Adds, add_down-Gives, same_words}
use whisper_yaffs.Tnode.Tree.Height.{
  Fits, required_below, below_required, high_required, at_level, find_fit, find_misfit, fits,
  not_found, taller, only_first,
}

module _ {A : Type 0} (allocator : Allocator A) where
  -- What the growth of the tree leaves.
  record Grows (n : ℕ) (f : FileStructure) (s : Tnodes A) (c : ℕ) : Type 0 where
    same : find_level0_tnode (grow allocator n f s).1 c ≡ find_level0_tnode f c
    words : (grow allocator n f s).2.n_words ≡ s.n_words
    not_taller : (grow allocator n f s).1.top_level ≤ f.top_level + n
    reaches :
        (((grow allocator n f s).0 ≡ true) × ((grow allocator n f s).1.top_level ≡ f.top_level + n))
        ⊎ (((grow allocator n f s).0 ≡ false) × (1 ≤ n))

  grow-Grows :
      (n : ℕ) (f : FileStructure) (s : Tnodes A) (c : ℕ) → f.top_level + n ≤ 6 → Grows n f s c
  unfolding grow
  grow-Grows zero f s c low = record {
    same = refl;
    words = refl;
    not_taller = omega arith;
    reaches = inl (refl, omega arith);
  }
  grow-Grows (suc n) f s c low =
      let child : ℕ → Tnode f.top_level = put_child (λ i. null f.top_level) 0 f.top in
      let f1 : FileStructure = record { top_level = suc f.top_level; top = some child } in
      let s1 = (get_tnode allocator s).1 in
      let rest = grow-Grows n f1 s1 c (omega (arith, low)) in
      elim (Bool-cases (get_tnode allocator s).0) [
        | inl got ↦ record {
          same =
              simp (got, grow)
                (rest.same
                  ∙ taller f.top_level child c (omega (arith, low))
                      (λ x p q. only_first f.top_level f.top c x p));
          words = simp (got, grow) (rest.words ∙ same_words allocator s);
          not_taller = simp (got, grow) (omega (arith, rest.not_taller));
          reaches = elim rest.reaches [
            | inl (yes_, there) ↦
                inl (simp (got, grow) yes_, simp (got, grow) (omega (arith, there)))
            | inr (no_, short) ↦ inr (simp (got, grow) no_, omega arith)
          ];
        }
        | inr full ↦ record {
          same = simp (full, grow) refl;
          words = simp (full, grow) (same_words allocator s);
          not_taller = simp (full, grow) (omega arith);
          reaches = inr (simp (full, grow) refl, omega arith);
        }
      ]

pub agree_tnode : (l c c' : ℕ) → Fits l c → Fits l c' → agree l c c' ≡ (c' / 16 == c / 16)
agree_tnode l c c' here there = elim (Bool-cases (c' / 16 == c / 16)) [
  | inl e ↦ agree_same l c c' (ground (arith, e)) ∙ sym e
  | inr e ↦ elim (Bool-cases (agree l c c')) [
    | inr differ ↦ differ ∙ sym e
    | inl a ↦ absurd (ground (arith, e, agree_lem l c c' here.1 there.1 a))
  ]
]

-- A chunk that the tree has no place for is of another tnode than one with a place.
pub elsewhere :
    (l c c' : ℕ) → Fits l c → (max_chunk_id < c') ⊎ (8 ^ l ≤ c' / 16) → (c' / 16 == c / 16) ≡ false
elsewhere l c c' here (inl big) = ground (arith, big, here.0)
elsewhere l c c' here (inr high) = ground (arith, high, here.1)

module _ {A : Type 0} (allocator : Allocator A) where
  -- The same, found in the whole tree.
  find-add_down :
      (l : ℕ) (tn : Tnode l) (c : ℕ) (s : Tnodes A) (c' : ℕ)
      → l ≤ 6
      → Fits l c
      → find_level0_tnode (at_level l (add_down allocator l tn c none s).1) c' ≡ (
          if c' / 16 == c / 16
          then (add_down allocator l tn c none s).0
          else find_level0_tnode (at_level l tn) c')
  unfolding Adds
  find-add_down l tn c s c' low here = elim (fits l c') [
    | inl there ↦
        find_fit l (add_down allocator l tn c none s).1 c' low there
        ∙ add_down-Adds allocator l tn c none s c'
        ∙ ap (λ b. if b then (add_down allocator l tn c none s).0 else find_down l tn c')
            (agree_tnode l c c' here there)
        ∙ ap (λ t. if c' / 16 == c / 16 then (add_down allocator l tn c none s).0 else t)
            (sym (find_fit l tn c' low there))
    | inr why ↦
        let other : (c' / 16 == c / 16) ≡ false = elsewhere l c c' here why in
        find_misfit l (add_down allocator l tn c none s).1 c' why
        ∙ rw other (sym (find_misfit l tn c' why))
  ]

  -- What an addition has done: the tree finds the tnode it gives, and what it found before elsewhere.
  pub record AddsAt (f : FileStructure) (c : ℕ) (s : Tnodes A) (c' : ℕ)
      (r : Tnode 0 × FileStructure × Tnodes A) : Type 0 where
    pub low : r.1.top_level ≤ tnodes_max_level
    pub found :
        find_level0_tnode r.1 c' ≡ (if c' / 16 == c / 16 then r.0 else find_level0_tnode f c')
    pub given :
        (r.0 ≡ find_level0_tnode f c)
        ⊎ ((find_level0_tnode f c ≡ none) × (r.0 ≡ some (replicate s.n_words 0)))

  add_below_lem :
      (l : ℕ) (tn : Tnode l) (c : ℕ) (s : Tnodes A)
      → add_below allocator l tn c none s
        ≡ some (
          (add_down allocator l tn c none s).0,
          at_level l (add_down allocator l tn c none s).1,
          (add_down allocator l tn c none s).2,
        )
  unfolding add_below copy_entries add_down
  add_below_lem zero tn c s = refl
  add_below_lem (suc l) tn c s = refl

  -- `yaffs_AddOrFindLevel0Tnode` without a tnode passed always returns, on a tree of at most six levels
  -- and for a chunk number that is not too big. For every chunk number, `yaffs_FindLevel0Tnode` then finds
  -- the returned tnode where the number is of the same tnode, and elsewhere what it found before. What is
  -- returned is what was found before, or a cleared tnode where none was found.
  pub add_or_find-AddsAt :
      (f : FileStructure) (c : ℕ) (s : Tnodes A) (c' : ℕ)
      → f.top_level ≤ tnodes_max_level
      → c ≤ max_chunk_id
      → (r : Tnode 0 × FileStructure × Tnodes A) × (add_or_find_level0_tnode allocator f c none s
          ≡ some r)
        × AddsAt f c s c' r
  unfolding add_or_find_level0_tnode Gives
  add_or_find-AddsAt f c s c' low small =
      let n = required_tallness c - f.top_level in
      let tall : required_tallness c ≤ 6 = below_required 6 c (omega (arith, small)) in
      let g = grow allocator n f s in
      let grows = grow-Grows allocator n f s in
      let at_c = grows c (omega (arith, low, tall)) in
      let at_c' = grows c' (omega (arith, low, tall)) in
      let sane : (ltb tnodes_max_level f.top_level || ltb max_chunk_id c) ≡ false =
        ground (arith, low, small) in
      elim at_c.reaches [
        | inl (grown, there) ↦
            let l = g.1.top_level in
            let here : Fits l c = (small, required_below l c small (omega (arith, there))) in
            let low1 : l ≤ 6 = omega (arith, there, low, tall) in
            let r = add_down allocator l g.1.top c none g.2 in
            (
              (r.0, at_level l r.1, r.2),
              simp (sane, grown, add_or_find_level0_tnode) (add_below_lem l g.1.top c g.2),
              record {
                low = low1;
                found =
                    find-add_down l g.1.top c g.2 c' low1 here
                    ∙ ap (λ t. if c' / 16 == c / 16 then r.0 else t) at_c'.same;
                given = elim (add_down-Gives allocator l g.1.top c g.2) [
                  | inl same ↦ inl (same ∙ sym (find_fit l g.1.top c low1 here) ∙ at_c.same)
                  | inr (missing, new) ↦ inr (
                    sym at_c.same ∙ find_fit l g.1.top c low1 here ∙ missing,
                    new ∙ ap (λ k. some (replicate k 0)) at_c.words,
                  )
                ];
              },
            )
        | inr (full, short) ↦ (
          (none, g.1, g.2),
          simp (sane, full, add_or_find_level0_tnode) refl,
          record {
            low = omega (arith, at_c.not_taller, low, tall);
            found = at_c'.same ∙ not_found c c' f (omega (arith, short));
            given = inl (
                sym (
                  find_misfit f.top_level f.top c
                    (inr (high_required f.top_level c (omega (arith, short))))));
          },
        )
      ]
