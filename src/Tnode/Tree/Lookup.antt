-- ===== src/Tnode/Tree/Lookup.antt =====
-- What the look-up tree of a file finds after a tnode is added.
use whisper_yaffs.Prelude.{
  ℕ, zero, suc, ◌≡◌, refl, sym, ap, ◌∙◌, Bool, true, false, ◌&&◌, arith, none, some, ◌==◌,
  Bool-cases, ◌⊎◌, inl, inr, if◌then◌else◌, replicate,
}
use whisper_yaffs.Tnode.Tree.{
  Tnode, Tnodes, Allocator, slot, find_down, put_child, null, cleared, get_tnode, place, add_down,
}
use whisper_yaffs.Tnode.Tree.Digits.{agree}

pub find_null : (l c : ℕ) → find_down l (null l) c ≡ none
unfolding find_down
find_null zero c = refl
find_null (suc l) c = refl

find_cleared : (n l c : ℕ) → find_down (suc l) (cleared n (suc l)) c ≡ none
unfolding find_down cleared
find_cleared n l c = find_null l c

if_same : {A : Type 0} (b : Bool) (a : A) → (if b then a else a) ≡ a
if_same true a = refl
if_same false a = refl

-- A child is replaced: what is found below it, and what is found below the others.
pub extend :
    (l : ℕ) (child : ℕ → Tnode l) (c c' : ℕ) (new : Tnode l) (given old : Tnode 0)
    → find_down l new c' ≡ (if agree l c c' then given else old)
    → old ≡ find_down l (child (slot l c)) c'
    → find_down (suc l) (some (put_child child (slot l c) new)) c'
      ≡ (if agree (suc l) c c' then given else find_down (suc l) (some child) c')
unfolding find_down agree
extend l child c c' new given old found same = elim (Bool-cases (slot l c == slot l c')) [
  | inl hit ↦
      let digit : slot l c ≡ slot l c' = ground (arith, hit) in
      let back : (slot l c' == slot l c) ≡ true = ground (arith, hit) in
      rw (hit, back)
        (found
          ∙ ap (λ x. if agree l c c' then given else x)
              (same ∙ ap (λ k. find_down l (child k) c') digit))
  | inr miss ↦
      let back : (slot l c' == slot l c) ≡ false = ground (arith, miss) in rw (miss, back) refl
]

-- A child that is missing stays so.
absent :
    (l : ℕ) (child : ℕ → Tnode l) (c c' : ℕ)
    → find_down l (child (slot l c)) c' ≡ none
    → find_down (suc l) (some child) c'
      ≡ (if agree (suc l) c c' then none else find_down (suc l) (some child) c')
unfolding find_down agree
absent l child c c' missing = elim (Bool-cases (slot l c == slot l c' && agree l c c')) [
  | inl hit ↦
      let digit : slot l c ≡ slot l c' = ground (arith, hit) in
      rw hit (ap (λ k. find_down l (child k) c') (sym digit) ∙ missing)
  | inr miss ↦ rw miss refl
]

module _ {A : Type 0} (allocator : Allocator A) where
  -- What is found below a way down: the tnode that it gives for the numbers that take the same way, what
  -- was found before for the others.
  unfoldable pub Adds : (l : ℕ) → Tnode l → (c : ℕ) → Tnode 0 → Tnodes A → ℕ → Type 0
  Adds l tn c passed s c' =
      find_down l (add_down allocator l tn c passed s).1 c'
      ≡ (if agree l c c' then (add_down allocator l tn c passed s).0 else find_down l tn c')

  add_missing :
      (l : ℕ) (child : ℕ → Tnode (suc l)) (c : ℕ) (passed : Tnode 0) (s : Tnodes A) (c' : ℕ)
      → child (slot (suc l) c) ≡ none
      → Adds (suc l) (cleared s.n_words (suc l)) c passed (get_tnode allocator s).1 c'
      → Adds (suc (suc l)) (some child) c passed s c'
  unfolding Adds add_down
  add_missing l child c passed s c' at below =
      let g = get_tnode allocator s in
      let empty_here = ap (λ t. find_down (suc l) t c') at ∙ find_null (suc l) c' in
      elim (Bool-cases g.0) [
        | inl got ↦
            simp (at, got, add_down)
              (extend (suc l) child c c'
                (add_down allocator (suc l) (cleared s.n_words (suc l)) c passed g.1).1
                (add_down allocator (suc l) (cleared s.n_words (suc l)) c passed g.1).0
                (find_down (suc l) (cleared s.n_words (suc l)) c') below
                (find_cleared s.n_words l c' ∙ sym empty_here))
        | inr full ↦ simp (at, full, add_down) (absent (suc l) child c c' empty_here)
      ]

  add_present :
      (l : ℕ) (child : ℕ → Tnode (suc l)) (c : ℕ) (passed : Tnode 0) (s : Tnodes A) (c' : ℕ)
      (grand : ℕ → Tnode l)
      → child (slot (suc l) c) ≡ some grand
      → Adds (suc l) (some grand) c passed s c'
      → Adds (suc (suc l)) (some child) c passed s c'
  unfolding Adds add_down
  add_present l child c passed s c' grand at below =
      simp (at, add_down)
        (extend (suc l) child c c' (add_down allocator (suc l) (some grand) c passed s).1
          (add_down allocator (suc l) (some grand) c passed s).0 (find_down (suc l) (some grand) c')
          below (ap (λ t. find_down (suc l) t c') (sym at)))

  pub add_down-Adds :
      (l : ℕ) (tn : Tnode l) (c : ℕ) (passed : Tnode 0) (s : Tnodes A) (c' : ℕ)
      → Adds l tn c passed s c'
  unfolding Adds add_down find_down agree
  add_down-Adds zero tn c passed s c' = refl
  add_down-Adds (suc l) none c passed s c' = sym (if_same (agree (suc l) c c') none)
  add_down-Adds (suc zero) (some child) c passed s c' = ground arith
  add_down-Adds (suc (suc l)) (some child) c passed s c' =
      go (child (slot (suc l) c)) refl
        (add_down-Adds (suc l) (cleared s.n_words (suc l)) c passed (get_tnode allocator s).1 c')
        (λ grand. add_down-Adds (suc l) (some grand) c passed s c')
    where
      go :
          (below : Tnode (suc l))
          → child (slot (suc l) c) ≡ below
          → Adds (suc l) (cleared s.n_words (suc l)) c passed (get_tnode allocator s).1 c'
          → ((grand : ℕ → Tnode l) → Adds (suc l) (some grand) c passed s c')
          → Adds (suc (suc l)) (some child) c passed s c'
      go none at missing present = add_missing l child c passed s c' at missing
      go (some grand) at missing present =
          add_present l child c passed s c' grand at (present grand)

  -- The tnode that is given is the one that was there, or a cleared one where there was none.
  unfoldable pub Gives : (l : ℕ) → Tnode l → (c : ℕ) → Tnodes A → Type 0
  Gives l tn c s =
      ((add_down allocator l tn c none s).0 ≡ find_down l tn c)
      ⊎ ((find_down l tn c ≡ none)
          × ((add_down allocator l tn c none s).0 ≡ some (replicate s.n_words 0)))

  pub same_words : (s : Tnodes A) → (get_tnode allocator s).1.n_words ≡ s.n_words
  unfolding get_tnode
  same_words s = refl

  place_lem :
      (tn : Tnode 0) (s : Tnodes A)
      → ((place allocator tn none s).0 ≡ tn)
        ⊎ ((tn ≡ none) × ((place allocator tn none s).0 ≡ some (replicate s.n_words 0)))
  unfolding place cleared
  place_lem (some words) s = inl refl
  place_lem none s = elim (Bool-cases (get_tnode allocator s).0) [
    | inl got ↦ inr (refl, rw got refl)
    | inr full ↦ inl (rw full refl)
  ]

  pub add_down-Gives : (l : ℕ) (tn : Tnode l) (c : ℕ) (s : Tnodes A) → Gives l tn c s
  unfolding Gives add_down find_down
  add_down-Gives zero tn c s = inl refl
  add_down-Gives (suc l) none c s = inl refl
  add_down-Gives (suc zero) (some child) c s = place_lem (child (slot 0 c)) s
  add_down-Gives (suc (suc l)) (some child) c s =
      go (child (slot (suc l) c)) refl
        (add_down-Gives (suc l) (cleared s.n_words (suc l)) c (get_tnode allocator s).1)
        (λ grand. add_down-Gives (suc l) (some grand) c s)
    where
      go :
          (below : Tnode (suc l))
          → child (slot (suc l) c) ≡ below
          → Gives (suc l) (cleared s.n_words (suc l)) c (get_tnode allocator s).1
          → ((grand : ℕ → Tnode l) → Gives (suc l) (some grand) c s)
          → Gives (suc (suc l)) (some child) c s
      go none at missing present = elim (Bool-cases (get_tnode allocator s).0) [
        | inl got ↦ elim missing [
          | inl same ↦ inl (
              simp (at, got, add_down)
                (same ∙ find_cleared s.n_words l c ∙ sym (find_null (suc l) c)))
          | inr (absent_, new) ↦ inr (
            simp at refl,
            simp (at, got, add_down) (new ∙ ap (λ n. some (replicate n 0)) (same_words s)),
          )
        ]
        | inr full ↦ inl (simp (at, full, add_down) refl)
      ]
      go (some grand) at missing present = elim (present grand) [
        | inl same ↦ inl (simp (at, add_down) same)
        | inr (absent_, new) ↦ inr (simp at absent_, simp (at, add_down) new)
      ]
