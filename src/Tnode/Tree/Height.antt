-- ===== src/Tnode/Tree/Height.antt =====
-- The height of the look-up tree and what it finds: the chunk numbers that fit, and a taller tree.
use whisper_yaffs.Prelude.{
  ℕ, suc, ◌/◌, ◌^◌, ◌≤◌, ◌<◌, ◌≡◌, refl, sym, ap, ◌∙◌, true, false, ◌||◌, arith, none, some, ◌==◌,
  ltb, leb, Bool-cases, ◌⊎◌, inl, inr, if◌then◌else◌,
}
use whisper_yaffs.Tnode.Tree.{
  Tnode, FileStructure, slot, required_tallness, find_down, find_level0_tnode, put_child, null,
  max_chunk_id, tnodes_max_level,
}
use whisper_yaffs.Tnode.Tree.Digits.{
  tall_below, below_tall, slot_above, slot_top, power_suc, slot_lem,
}
use whisper_yaffs.Tnode.Tree.Lookup.{find_null}

-- The chunk is below the height of the tree.
abbrev pub Fits : ℕ → ℕ → Type 0
Fits l c = (c ≤ max_chunk_id) × (c / 16 < 8 ^ l)

pub required_below : (l c : ℕ) → c ≤ max_chunk_id → required_tallness c ≤ l → c / 16 < 8 ^ l
unfolding required_tallness
required_below l c small h = below_tall 10 (c / 16) l (omega (arith, small)) h

pub below_required : (l c : ℕ) → c / 16 < 8 ^ l → required_tallness c ≤ l
unfolding required_tallness
below_required l c h = tall_below 10 (c / 16) l h

pub high_required : (l c : ℕ) → l < required_tallness c → 8 ^ l ≤ c / 16
high_required l c h = elim (Bool-cases (leb (8 ^ l) (c / 16))) [
  | inl e ↦ ground (arith, e)
  | inr e ↦ absurd (omega (arith, h, below_required l c (ground (arith, e))))
]

abbrev pub at_level : (l : ℕ) → Tnode l → FileStructure
at_level l tn = record { top_level = l; top = tn }

pub find_fit :
    (l : ℕ) (tn : Tnode l) (c : ℕ)
    → l ≤ 6
    → Fits l c
    → find_level0_tnode (at_level l tn) c ≡ find_down l tn c
unfolding find_level0_tnode
find_fit l tn c low fits =
    let tall = below_required l c fits.1 in
    let ok : (ltb tnodes_max_level l || (ltb max_chunk_id c || ltb l (required_tallness c)))
        ≡ false =
      ground (arith, low, fits.0, tall) in
    rw ok refl

pub find_misfit :
    (l : ℕ) (tn : Tnode l) (c : ℕ)
    → ((max_chunk_id < c) ⊎ (8 ^ l ≤ c / 16))
    → find_level0_tnode (at_level l tn) c ≡ none
unfolding find_level0_tnode
find_misfit l tn c why = rw (refused why) refl
  where
    refused :
        ((max_chunk_id < c) ⊎ (8 ^ l ≤ c / 16))
        → (ltb tnodes_max_level l || (ltb max_chunk_id c || ltb l (required_tallness c))) ≡ true
    refused (inl big) = ground (arith, big)
    refused (inr high) = elim (Bool-cases (ltb max_chunk_id c)) [
      | inl big ↦ ground (arith, big)
      | inr small ↦ elim (Bool-cases (ltb l (required_tallness c))) [
        | inl e ↦ ground (arith, e)
        | inr e ↦
            absurd
              (omega (arith, high, required_below l c (ground (arith, small)) (ground (arith, e))))
      ]
    ]

pub fits : (l c : ℕ) → Fits l c ⊎ ((max_chunk_id < c) ⊎ (8 ^ l ≤ c / 16))
fits l c = elim (Bool-cases (ltb max_chunk_id c)) [
  | inl big ↦ inr (inl (ground (arith, big)))
  | inr small ↦ elim (Bool-cases (leb (8 ^ l) (c / 16))) [
    | inl high ↦ inr (inr (ground (arith, high)))
    | inr low ↦ inl (ground (arith, small), ground (arith, low))
  ]
]

-- A tree that is too low for a chunk finds nothing for its tnode.
pub not_found :
    (c c' : ℕ) (f : FileStructure)
    → f.top_level < required_tallness c
    → find_level0_tnode f c' ≡ (if c' / 16 == c / 16 then none else find_level0_tnode f c')
not_found c c' f h = elim (Bool-cases (c' / 16 == c / 16)) [
  | inr other ↦ rw other refl
  | inl e ↦
      let high = high_required f.top_level c h in
      rw e (find_misfit f.top_level f.top c' (inr (ground (arith, e, high))))
]

-- A tree finds the same as the one below its first pointer, if nothing is found below the others.
pub taller :
    (l : ℕ) (child : ℕ → Tnode l) (c : ℕ)
    → suc l ≤ 6
    → ((x : ℕ) → 1 ≤ x → x < 8 → find_down l (child x) c ≡ none)
    → find_level0_tnode (at_level (suc l) (some child)) c
      ≡ find_level0_tnode (at_level l (child 0)) c
unfolding find_down
taller l child c low others = elim (fits (suc l) c) [
  | inr why ↦ find_misfit (suc l) (some child) c why ∙ sym (find_misfit l (child 0) c (lower why))
  | inl ok ↦ find_fit (suc l) (some child) c low ok ∙ elim (fits l c) [
    | inl below ↦
        ap (λ k. find_down l (child k) c) (slot_above l c below.1)
        ∙ sym (find_fit l (child 0) c (omega (arith, low)) below)
    | inr (inl big) ↦ absurd (omega (arith, big, ok.0))
    | inr (inr high) ↦
        others (slot l c) (slot_top l c ok.1 high) (omega (arith, slot_lem l c))
        ∙ sym (find_misfit l (child 0) c (inr high))
  ]
]
  where
    lower : (max_chunk_id < c) ⊎ (8 ^ suc l ≤ c / 16) → (max_chunk_id < c) ⊎ (8 ^ l ≤ c / 16)
    lower (inl big) = inl big
    lower (inr high) = inr (omega (arith, high, power_suc l))

pub only_first :
    (l : ℕ) (tn : Tnode l) (c x : ℕ) → 1 ≤ x → find_down l (put_child (λ i. null l) 0 tn x) c ≡ none
only_first l tn c x some_ =
    let other : (x == 0) ≡ false = ground (arith, some_) in rw other (find_null l c)
