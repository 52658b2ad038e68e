-- ===== src/Prelude/Slices.antt =====
-- `take` and `drop` with writes, reads and lengths.
use Prim.Native.Nat.{ℕ, zero, suc, ◌+◌, ◌-◌, ◌<◌, ◌≤◌}
use mathlib.Core.Path.{◌≡◌, refl, ap, ◌∙◌}
use mathlib.Core.List.{List, [], ◌∷◌, ◌++◌}
use native.Mathlib.Omega.{arith}
use whisper_yaffs.Prelude.Lists.{length, take, drop, get_or, set, All}
use whisper_yaffs.Prelude.Words.{IsByte}

pub take-set_below :
    (n : ℕ) (xs : List ℕ) (i v : ℕ) → i < n → take n (set xs i v) ≡ set (take n xs) i v
take-set_below zero xs i v h = absurd (omega arith)
take-set_below (suc n) [] i v h = refl
take-set_below (suc n) (x ∷ xs) zero v h = refl
take-set_below (suc n) (x ∷ xs) (suc i) v h =
    ap (λ (t : List ℕ). x ∷ t) (take-set_below n xs i v (omega arith))

pub take-set_above : (n : ℕ) (xs : List ℕ) (i v : ℕ) → n ≤ i → take n (set xs i v) ≡ take n xs
take-set_above zero xs i v h = refl
take-set_above (suc n) [] i v h = refl
take-set_above (suc n) (x ∷ xs) zero v h = absurd (omega arith)
take-set_above (suc n) (x ∷ xs) (suc i) v h =
    ap (λ (t : List ℕ). x ∷ t) (take-set_above n xs i v (omega arith))

pub drop-set_below : (n : ℕ) (xs : List ℕ) (i v : ℕ) → i < n → drop n (set xs i v) ≡ drop n xs
drop-set_below zero xs i v h = absurd (omega arith)
drop-set_below (suc n) [] i v h = refl
drop-set_below (suc n) (x ∷ xs) zero v h = refl
drop-set_below (suc n) (x ∷ xs) (suc i) v h = drop-set_below n xs i v (omega arith)

pub drop-set_above :
    (n : ℕ) (xs : List ℕ) (i v : ℕ) → drop n (set xs (n + i) v) ≡ set (drop n xs) i v
drop-set_above zero xs i v = let e : 0 + i ≡ i = omega arith in rw e
drop-set_above (suc n) [] i v = refl
drop-set_above (suc n) (x ∷ xs) i v =
    let e : suc n + i ≡ suc (n + i) = omega arith in rw e (drop-set_above n xs i v)

pub get_or-take : (n : ℕ) (xs : List ℕ) (i d : ℕ) → i < n → get_or (take n xs) i d ≡ get_or xs i d
get_or-take zero xs i d h = absurd (omega arith)
get_or-take (suc n) [] i d h = refl
get_or-take (suc n) (x ∷ xs) zero d h = refl
get_or-take (suc n) (x ∷ xs) (suc i) d h = get_or-take n xs i d (omega arith)

pub get_or-drop : (n : ℕ) (xs : List ℕ) (i d : ℕ) → get_or (drop n xs) i d ≡ get_or xs (n + i) d
get_or-drop zero xs i d = let e : 0 + i ≡ i = omega arith in rw e
get_or-drop (suc n) [] i d = refl
get_or-drop (suc n) (x ∷ xs) i d =
    let e : suc n + i ≡ suc (n + i) = omega arith in rw e (get_or-drop n xs i d)

pub length-take : (n : ℕ) (xs : List ℕ) → n ≤ length xs → length (take n xs) ≡ n
length-take zero xs h = refl
length-take (suc n) [] h = absurd (omega arith)
length-take (suc n) (x ∷ xs) h = ap suc (length-take n xs (omega arith))

pub length-drop : (n : ℕ) (xs : List ℕ) → length (drop n xs) ≡ length xs - n
length-drop zero xs = omega arith
length-drop (suc n) [] = omega arith
length-drop (suc n) (x ∷ xs) = length-drop n xs ∙ omega arith

pub All-take : (n : ℕ) (xs : List ℕ) → All IsByte xs → All IsByte (take n xs)
All-take zero xs h = tt
All-take (suc n) [] h = tt
All-take (suc n) (x ∷ xs) h = (h.0, All-take n xs h.1)

pub All-drop : (n : ℕ) (xs : List ℕ) → All IsByte xs → All IsByte (drop n xs)
All-drop zero xs h = h
All-drop (suc n) [] h = tt
All-drop (suc n) (x ∷ xs) h = All-drop n xs h.1

pub append-take-drop : (n : ℕ) (xs : List ℕ) → take n xs ++ drop n xs ≡ xs
append-take-drop zero xs = refl
append-take-drop (suc n) [] = refl
append-take-drop (suc n) (x ∷ xs) = ap (λ (t : List ℕ). x ∷ t) (append-take-drop n xs)
