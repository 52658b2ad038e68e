-- ===== src/Prelude/Lists.antt =====
-- Lists measured and indexed by native numbers, under the library's names. A list stands for a C
-- array or buffer.
use Prim.Native.Nat.{ℕ, zero, suc, ◌+◌, ◌<◌, ◌≤◌}
use mathlib.Core.Path.{◌≡◌, refl, ap, ◌∙◌, subst}
use mathlib.Core.Logic.{◌≢◌, ◌⊎◌, inl}
use mathlib.Core.List.{List, [], ◌∷◌, ◌++◌}
use mathlib.Core.Option.{Option, none, some}
use native.Mathlib.Decide.{ℕ_discrete}
use native.Mathlib.Omega.{arith}

module _ {ℓ} {A : Type ℓ} where
  abbrev pub length : List A → ℕ
  length [] = 0
  length (x ∷ xs) = suc (length xs)

  abbrev pub get_elem? : List A → ℕ → Option A
  get_elem? [] i = none
  get_elem? (x ∷ xs) zero = some x
  get_elem? (x ∷ xs) (suc i) = get_elem? xs i

  -- A write out of bounds changes nothing.
  abbrev pub set : List A → ℕ → A → List A
  set [] i v = []
  set (x ∷ xs) zero v = v ∷ xs
  set (x ∷ xs) (suc i) v = x ∷ set xs i v

  abbrev pub get_or : List A → ℕ → A → A
  get_or [] i d = d
  get_or (x ∷ xs) zero d = x
  get_or (x ∷ xs) (suc i) d = get_or xs i d

  abbrev pub take : ℕ → List A → List A
  take zero xs = []
  take (suc n) [] = []
  take (suc n) (x ∷ xs) = x ∷ take n xs

  abbrev pub drop : ℕ → List A → List A
  drop zero xs = xs
  drop (suc n) [] = []
  drop (suc n) (x ∷ xs) = drop n xs

  abbrev pub replicate : ℕ → A → List A
  replicate zero a = []
  replicate (suc n) a = a ∷ replicate n a

  -- Every element satisfies `P`.
  abbrev pub All {κ} : (A → Type κ) → List A → Type κ
  All P [] = Unit
  All P (x ∷ xs) = P x × All P xs

  pub length-append : (xs ys : List A) → length (xs ++ ys) ≡ length xs + length ys
  length-append [] ys = omega arith
  length-append (x ∷ xs) ys = omega (arith, length-append xs ys)

module _ {ℓ} {A : Type ℓ} where
  pub length-set : (xs : List A) (i : ℕ) (v : A) → length (set xs i v) ≡ length xs
  length-set [] i v = refl
  length-set (x ∷ xs) zero v = refl
  length-set (x ∷ xs) (suc i) v = ap suc (length-set xs i v)

  pub get_or-set_self :
      (xs : List A) (i : ℕ) (v d : A) → i < length xs → get_or (set xs i v) i d ≡ v
  get_or-set_self [] i v d h = absurd (omega arith)
  get_or-set_self (x ∷ xs) zero v d h = refl
  get_or-set_self (x ∷ xs) (suc i) v d h = get_or-set_self xs i v d (omega arith)

  pub get_or-set_ne :
      (xs : List A) (i j : ℕ) (v d : A) → i ≢ j → get_or (set xs i v) j d ≡ get_or xs j d
  get_or-set_ne [] i j v d ne = refl
  get_or-set_ne (x ∷ xs) zero zero v d ne = absurd (ne refl)
  get_or-set_ne (x ∷ xs) zero (suc j) v d ne = refl
  get_or-set_ne (x ∷ xs) (suc i) zero v d ne = refl
  get_or-set_ne (x ∷ xs) (suc i) (suc j) v d ne = get_or-set_ne xs i j v d (λ e. ne (ap suc e))

  pub set-get_or : (xs : List A) (i : ℕ) (d : A) → i < length xs → set xs i (get_or xs i d) ≡ xs
  set-get_or [] i d h = refl
  set-get_or (x ∷ xs) zero d h = refl
  set-get_or (x ∷ xs) (suc i) d h = ap (λ (ys : List A). x ∷ ys) (set-get_or xs i d (omega arith))

  pub set-set : (xs : List A) (i : ℕ) (u v : A) → set (set xs i u) i v ≡ set xs i v
  set-set [] i u v = refl
  set-set (x ∷ xs) zero u v = refl
  set-set (x ∷ xs) (suc i) u v = ap (λ (ys : List A). x ∷ ys) (set-set xs i u v)

  pub All-set {κ} :
      (P : A → Type κ) (xs : List A) (i : ℕ) (v : A) → All P xs → P v → All P (set xs i v)
  All-set P [] i v h p = h
  All-set P (x ∷ xs) zero v h p = (p, h.1)
  All-set P (x ∷ xs) (suc i) v h p = (h.0, All-set P xs i v h.1 p)

  pub All-get_or {κ} :
      (P : A → Type κ) (xs : List A) (i : ℕ) (d : A) → All P xs → P d → P (get_or xs i d)
  All-get_or P [] i d h p = p
  All-get_or P (x ∷ xs) zero d h p = h.0
  All-get_or P (x ∷ xs) (suc i) d h p = All-get_or P xs i d h.1 p

  pub length-replicate : (n : ℕ) (a : A) → length (replicate n a) ≡ n
  length-replicate zero a = refl
  length-replicate (suc n) a = ap suc (length-replicate n a)

module _ {ℓ} {A : Type ℓ} where
  pub All-replicate {κ} : (P : A → Type κ) (n : ℕ) (a : A) → P a → All P (replicate n a)
  All-replicate P zero a p = tt
  All-replicate P (suc n) a p = (p, All-replicate P n a p)

-- `memset(xs + i, v, n)`.
module _ {ℓ} {A : Type ℓ} where
  unfoldable pub fill : List A → (i n : ℕ) → A → List A
  fill xs i zero v = xs
  fill xs i (suc n) v = fill (set xs i v) (suc i) n v

  pub length-fill : (xs : List A) (i n : ℕ) (v : A) → length (fill xs i n v) ≡ length xs
  unfolding fill
  length-fill xs i zero v = refl
  length-fill xs i (suc n) v = length-fill (set xs i v) (suc i) n v ∙ length-set xs i v

  pub get_or-fill_outside :
      (xs : List A) (i n j : ℕ) (v d : A)
      → (j < i) ⊎ (i + n ≤ j)
      → get_or (fill xs i n v) j d ≡ get_or xs j d
  unfolding fill
  get_or-fill_outside xs i zero j v d h = refl
  get_or-fill_outside xs i (suc n) j v d h =
      get_or-fill_outside (set xs i v) (suc i) n j v d (omega arith)
      ∙ get_or-set_ne xs i j v d (omega arith)

  pub get_or-fill_inside :
      (xs : List A) (i n j : ℕ) (v d : A)
      → i ≤ j
      → j < i + n
      → i + n ≤ length xs
      → get_or (fill xs i n v) j d ≡ v
  unfolding fill
  get_or-fill_inside xs i zero j v d p q h = absurd (omega arith)
  get_or-fill_inside xs i (suc n) j v d p q h = elim (ℕ_discrete i j) [
    | yes e ↦
        get_or-fill_outside (set xs i v) (suc i) n j v d (inl (omega arith))
        ∙ subst (λ t. get_or (set xs i v) t d ≡ v) e (get_or-set_self xs i v d (omega arith))
    | no ne ↦
        get_or-fill_inside (set xs i v) (suc i) n j v d (omega arith) (omega arith)
          (rw (length-set xs i v) (omega arith))
  ]

  pub All-fill {κ} :
      (P : A → Type κ) (xs : List A) (i n : ℕ) (v : A) → All P xs → P v → All P (fill xs i n v)
  unfolding fill
  All-fill P xs i zero v h p = h
  All-fill P xs i (suc n) v h p = All-fill P (set xs i v) (suc i) n v (All-set P xs i v h p) p
