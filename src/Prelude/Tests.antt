-- ===== src/Prelude/Tests.antt =====
-- Boolean tests on the native numbers, the conditional, and splits on a computed value.
use Prim.Native.Nat.{ℕ, zero, suc, ◌<◌, compare, Ordering}
use mathlib.Core.Path.{◌≡◌, refl}
use mathlib.Core.Logic.{◌↔◌, ◌⊎◌, inl, inr}
use mathlib.Core.Bool.{Bool, true, false, ◌&&◌}
use mathlib.Core.Option.{Option, none, some}
use native.Mathlib.Omega.{arith}

abbrev pub ltb : ℕ → ℕ → Bool
ltb a b = elim (compare a b) [ Ordering.lt ↦ true | _ ↦ false ]

abbrev pub leb : ℕ → ℕ → Bool
leb a b = elim (compare a b) [ Ordering.gt ↦ false | _ ↦ true ]

infix 50 ◌==◌
abbrev pub ◌==◌ : ℕ → ℕ → Bool
a == b = elim (compare a b) [ Ordering.eq ↦ true | _ ↦ false ]

infix 1 if◌then◌else◌
abbrev pub if◌then◌else◌ {ℓ} : {A : Type ℓ} → Bool → A → A → A
if true then x else y = x
if false then x else y = y

-- A C truth value: 1 or 0.
abbrev pub to_int : Bool → ℕ
to_int b = if b then 1 else 0

-- `if (x)` on a number.
abbrev pub truthy : ℕ → Bool
truthy zero = false
truthy (suc n) = true

pub ==_iff : (a b : ℕ) → ((a == b) ≡ true) ↔ (a ≡ b)
==_iff a b = ground arith

pub Bool-cases : (b : Bool) → (b ≡ true) ⊎ (b ≡ false)
Bool-cases true = inl refl
Bool-cases false = inr refl

pub Option-cases {ℓ} : {A : Type ℓ} (o : Option A) → (o ≡ none) ⊎ ((a : A) × (o ≡ some a))
Option-cases none = inl refl
Option-cases (some a) = inr (a, refl)

-- A table of all numbers below `n`, checked by evaluation.
unfoldable pub all_below : (n : ℕ) → (ℕ → Bool) → Bool
all_below (suc n) test = all_below n test && test n
all_below zero test = true

pub all_below_sound :
    (n : ℕ) (test : ℕ → Bool) (x : ℕ) (every : all_below n test ≡ true) → x < n → test x ≡ true
unfolding all_below
all_below_sound (suc n) test x every h = ground (arith, all_below_sound n test x)
all_below_sound zero test x every h = absurd (omega arith)

-- Equality of Booleans, as a test.
abbrev pub same : Bool → Bool → Bool
same true b = b
same false true = false
same false false = true

pub same_sound : (a b : Bool) → same a b ≡ true → a ≡ b
same_sound true true h = refl
same_sound true false h = cc
same_sound false true h = cc
same_sound false false h = refl
