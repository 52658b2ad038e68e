-- ===== src/Allocator/Chain.antt =====
-- Free lists in memory: which nodes a list has, and what the operations on pools make of them.
use mathlib.Core.Path.{subst}
use whisper_yaffs.Prelude.{
  ℕ, zero, suc, ◌+◌, ◌≡◌, ◌≢◌, refl, sym, ap, ◌∙◌, List, [], ◌∷◌, ◌++◌, arith, length, All,
}
use whisper_yaffs.Allocator.{link, cell, hook_loop}

-- The nodes that a list has from `p` on.
abbrev pub Chain : (next : ℕ → ℕ) → (p : ℕ) → List ℕ → Type 0
Chain next p [] = p ≡ 0
Chain next p (x ∷ xs) = (p ≡ x) × (x ≢ 0) × Chain next (next x) xs

abbrev pub Lacks : List ℕ → (a : ℕ) → Type 0
Lacks xs a = All (λ x. x ≢ a) xs

-- No node stands twice in a list.
abbrev pub Distinct : List ℕ → Type 0
Distinct [] = Unit
Distinct (x ∷ xs) = Lacks xs x × Distinct xs

-- The nodes of a slab from node `i` on.
unfoldable pub slots : (base size i n : ℕ) → List ℕ
slots base size i zero = []
slots base size i (suc n) = cell base size i ∷ slots base size (i + 1) n

pub length-slots : (base size i n : ℕ) → length (slots base size i n) ≡ n
unfolding slots
length-slots base size i zero = refl
length-slots base size i (suc n) = ap suc (length-slots base size (i + 1) n)

pub Lacks-left : (xs ys : List ℕ) (a : ℕ) → Lacks (xs ++ ys) a → Lacks xs a
Lacks-left [] ys a h = tt
Lacks-left (x ∷ xs) ys a h = (h.0, Lacks-left xs ys a h.1)

pub Lacks-right : (xs ys : List ℕ) (a : ℕ) → Lacks (xs ++ ys) a → Lacks ys a
Lacks-right [] ys a h = h
Lacks-right (x ∷ xs) ys a h = Lacks-right xs ys a h.1

link_other : (next : ℕ → ℕ) (p q a : ℕ) → p ≢ a → link next p q a ≡ next a
link_other next p q a ne = ground arith

pub link_self : (next : ℕ → ℕ) (p q : ℕ) → link next p q p ≡ q
link_self next p q = ground arith

-- A write to another node leaves a list as it is.
pub Chain-link :
    (next : ℕ → ℕ) (a v p : ℕ) (xs : List ℕ)
    → Chain next p xs
    → Lacks xs a
    → Chain (link next a v) p xs
Chain-link next a v p [] h apart = h
Chain-link next a v p (x ∷ xs) h apart =
    let other : a ≢ x = λ e. apart.0 (sym e) in
    (h.0, h.1, rw (link_other next a v x other) (Chain-link next a v (next x) xs h.2 apart.1))

hook_loop-other :
    (base size rounds i a : ℕ) (next : ℕ → ℕ)
    → Lacks (slots base size i rounds) a
    → hook_loop base size rounds i next a ≡ next a
unfolding hook_loop slots
hook_loop-other base size zero i a next apart = refl
hook_loop-other base size (suc rounds) i a next apart =
    hook_loop-other base size rounds (i + 1) a _ apart.1
    ∙ link_other next (cell base size i) (cell base size (i + 1)) a apart.0

slots-suc :
    (base size i n : ℕ) (a : ℕ)
    → Lacks (slots base size i (suc n)) a
    → Lacks (slots base size i n) a
unfolding slots
slots-suc base size i zero a h = tt
slots-suc base size i (suc n) a h = (h.0, slots-suc base size (i + 1) n a h.1)

Lacks-slots :
    (base size n i last a : ℕ)
    → last ≡ i + n
    → Lacks (slots base size i (suc n)) a
    → cell base size last ≢ a
unfolding slots
Lacks-slots base size zero i last a e h = let here : last ≡ i = omega arith in rw here h.0
Lacks-slots base size (suc n) i last a e h =
    Lacks-slots base size n (i + 1) last a (omega arith) h.1

-- The nodes of a new slab, hooked to each other and to a list.
pub Chain-hook_loop :
    (base size rounds i last tail : ℕ) (next : ℕ → ℕ) (xs : List ℕ)
    → last ≡ i + rounds
    → Chain next tail xs
    → Distinct (slots base size i (suc rounds) ++ xs)
    → All (λ a. a ≢ 0) (slots base size i (suc rounds))
    → Chain
        (link (hook_loop base size rounds i next) (cell base size last) tail)
        (cell base size i)
        (slots base size i (suc rounds) ++ xs)
unfolding hook_loop slots
Chain-hook_loop base size zero i last tail next xs e chain apart some =
    let here : last ≡ i = omega arith in
    let c = cell base size i in
    subst (λ (t : ℕ). Chain (link next (cell base size t) tail) c (c ∷ xs)) (sym here)
      (refl, some.0, rw (link_self next c tail) (Chain-link next c tail tail xs chain apart.0))
Chain-hook_loop base size (suc rounds) i last tail next xs e chain apart some =
    let c = cell base size i in
    let next1 = link next c (cell base size (i + 1)) in
    let looped = hook_loop base size rounds (i + 1) next1 in
    let later = slots base size (i + 1) (suc rounds) in
    let lacks : Lacks later c = Lacks-left later xs c apart.0 in
    let reached : link looped (cell base size last) tail c ≡ cell base size (i + 1) =
      link_other looped (cell base size last) tail c
        (Lacks-slots base size rounds (i + 1) last c (omega arith) lacks)
      ∙ hook_loop-other base size rounds (i + 1) c next1
          (slots-suc base size (i + 1) rounds c lacks)
      ∙ link_self next c (cell base size (i + 1)) in
    (
      refl,
      some.0,
      rw reached (
          Chain-hook_loop base size rounds (i + 1) last tail next1 xs (omega arith)
            (Chain-link next c (cell base size (i + 1)) tail xs chain
              (Lacks-right later xs c apart.0))
            apart.1 some.1),
    )
