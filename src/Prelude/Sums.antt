-- ===== src/Prelude/Sums.antt =====
-- Sums over a list, and its elements by index.
use mathlib.Core.Path.{◌≡◌, refl, ap, subst}
use mathlib.Core.Logic.{◌≢◌}
use mathlib.Core.List.{List, [], ◌∷◌}
use mathlib.Core.Option.{none, some}
use native.Mathlib.Decide.{dec_lt}
use native.Mathlib.Omega.{arith}
use Prim.Native.Nat.{ℕ, zero, suc, ◌+◌, ◌*◌, ◌≤◌, ◌<◌}
use whisper_yaffs.Prelude.Lists.{length, get_elem?, set, All}

pub some-injective : {A : Type 0} {a b : A} → some a ≡ some b → a ≡ b
some-injective {A} {a} {b} e = ap (λ o. elim o [ none ↦ a | some c ↦ c ]) e

module _ {A : Type 0} (f : A → ℕ) where
  -- The sum over a list.
  unfoldable pub total : List A → ℕ
  total [] = 0
  total (x ∷ xs) = f x + total xs

  pub total-set :
      (xs : List A) (i : ℕ) (a v : A)
      → get_elem? xs i ≡ some a
      → total (set xs i v) + f a ≡ total xs + f v
  unfolding total
  total-set [] i a v h = cc
  total-set (x ∷ xs) zero a v h = let e : f x ≡ f a = ap f (some-injective h) in omega (arith, e)
  total-set (x ∷ xs) (suc i) a v h = omega (arith, total-set xs i a v h)

  pub total-at : (xs : List A) (i : ℕ) (a : A) → get_elem? xs i ≡ some a → f a ≤ total xs
  unfolding total
  total-at [] i a h = cc
  total-at (x ∷ xs) zero a h = let e : f x ≡ f a = ap f (some-injective h) in omega (arith, e)
  total-at (x ∷ xs) (suc i) a h = omega (arith, total-at xs i a h)

  pub total-bound : (n : ℕ) (xs : List A) → ((x : A) → f x ≤ n) → total xs ≤ length xs * n
  unfolding total
  total-bound n [] h = omega arith
  total-bound n (x ∷ xs) h =
      let e : suc (length xs) * n ≡ n + length xs * n = grind arith in
      omega (arith, total-bound n xs h, h x, e)

  -- A sum above zero has a summand above zero.
  pub total_witness :
      (xs : List A)
      → 0 < total xs
      → (i : ℕ) × (a : A) × (i < length xs) × (get_elem? xs i ≡ some a) × (0 < f a)
  unfolding total
  total_witness [] h = absurd (omega arith)
  total_witness (x ∷ xs) h = elim (dec_lt 0 (f x)) [
    | yes pos ↦ (0, x, omega arith, refl, pos)
    | no low ↦
        let (i, a, lt, at, pos) = total_witness xs (omega (arith, h)) in
        (suc i, a, omega (arith, lt), at, pos)
  ]

pub get_elem_some :
    {A : Type 0} (xs : List A) (i : ℕ) → i < length xs → (a : A) × (get_elem? xs i ≡ some a)
get_elem_some [] i h = absurd (omega arith)
get_elem_some (x ∷ xs) zero h = (x, refl)
get_elem_some (x ∷ xs) (suc i) h = get_elem_some xs i (omega arith)

pub All-get_elem :
    {A : Type 0} (P : A → Type 0) (xs : List A) (i : ℕ) (a : A)
    → All P xs
    → get_elem? xs i ≡ some a
    → P a
All-get_elem P [] i a h e = cc
All-get_elem P (x ∷ xs) zero a h e = subst P (some-injective e) h.0
All-get_elem P (x ∷ xs) (suc i) a h e = All-get_elem P xs i a h.1 e

pub get_elem-set_self :
    {A : Type 0} (xs : List A) (i : ℕ) (v : A) → i < length xs → get_elem? (set xs i v) i ≡ some v
get_elem-set_self [] i v h = absurd (omega arith)
get_elem-set_self (x ∷ xs) zero v h = refl
get_elem-set_self (x ∷ xs) (suc i) v h = get_elem-set_self xs i v (omega arith)

pub get_elem-set_ne :
    {A : Type 0} (xs : List A) (i j : ℕ) (v : A) → i ≢ j → get_elem? (set xs i v) j ≡ get_elem? xs j
get_elem-set_ne [] i j v ne = refl
get_elem-set_ne (x ∷ xs) zero zero v ne = absurd (ne refl)
get_elem-set_ne (x ∷ xs) zero (suc j) v ne = refl
get_elem-set_ne (x ∷ xs) (suc i) zero v ne = refl
get_elem-set_ne (x ∷ xs) (suc i) (suc j) v ne = get_elem-set_ne xs i j v (λ e. ne (ap suc e))
