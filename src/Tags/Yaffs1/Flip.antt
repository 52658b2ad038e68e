-- ===== src/Tags/Yaffs1/Flip.antt =====
-- The code over the tags of yaffs1, of tags with one bit flipped.
use whisper_yaffs.Bits.{xor_assoc, xor_comm, xor_digit, xor_cancel, truthy_bit, xor-lt}
use whisper_yaffs.Prelude.{
  ℕ, zero, suc, ◌+◌, ◌-◌, ◌*◌, ◌/◌, ◌%◌, ◌^◌, ◌≤◌, ◌<◌, ◌<<<◌, bit_and, bit_xor, ◌≡◌, ◌≢◌, refl,
  sym, ap, ◌∙◌, Bool, true, false, not, List, [], ◌∷◌, ◌==◌, if◌then◌else◌, truthy, arith,
  all_below, all_below_sound, ==_iff, Bool-cases, inl, inr, length, get_or, set,
}
use whisper_yaffs.Tags.Yaffs1.{digits_loop, bytes_loop}

xor_swap : (e d m : ℕ) → bit_xor (bit_xor e d) m ≡ bit_xor (bit_xor e m) d
xor_swap e d m = xor_assoc e d m ∙ ap (bit_xor e) (xor_comm d m) ∙ sym (xor_assoc e m d)

xor_if :
    (b : Bool) (e d m : ℕ)
    → (if b then bit_xor (bit_xor e d) m else bit_xor e d)
      ≡ bit_xor (if b then bit_xor e m else e) d
xor_if true e d m = xor_swap e d m
xor_if false e d m = refl

digits_loop-xor :
    (n j x bit e d : ℕ) → digits_loop n j x bit (bit_xor e d) ≡ bit_xor (digits_loop n j x bit e) d
unfolding digits_loop
digits_loop-xor zero j x bit e d = refl
digits_loop-xor (suc n) j x bit e d = rw (xor_if (truthy (bit_and x (1 <<< j))) e d (bit + 1)) (
    digits_loop-xor n (j + 1) x (bit + 1)
      (if truthy (bit_and x (1 <<< j)) then bit_xor e (bit + 1) else e) d)

pub bytes_loop-xor :
    (xs : List ℕ) (bit e d : ℕ) → bytes_loop xs bit (bit_xor e d) ≡ bit_xor (bytes_loop xs bit e) d
unfolding bytes_loop
bytes_loop-xor [] bit e d = refl
bytes_loop-xor (x ∷ xs) bit e d =
    rw (digits_loop-xor 8 0 x bit e d) (bytes_loop-xor xs (bit + 8) (digits_loop 8 0 x bit e) d)

powers :
    all_below 64 (λ i. 2 ^ (i / 8) / 2 ^ (i % 8) % 2 == (if i / 8 == i % 8 then 1 else 0)) ≡ true
unfolding all_below
powers = refl

power_digit : (k j : ℕ) → k < 8 → j < 8 → 2 ^ k / 2 ^ j % 2 ≡ (if k == j then 1 else 0)
power_digit k j hk hj =
    let i = k * 8 + j in
    let high : i / 8 ≡ k = omega arith in
    let low : i % 8 ≡ j = omega arith in
    let row = (==_iff (2 ^ (i / 8) / 2 ^ (i % 8) % 2) (if i / 8 == i % 8 then 1 else 0)).0 (
      all_below_sound 64 (λ i. 2 ^ (i / 8) / 2 ^ (i % 8) % 2 == (if i / 8 == i % 8 then 1 else 0)) i
        powers (omega arith)) in
    rw high at (rw low at (row))

-- A digit of the flipped byte.
digit_flip :
    (x k j : ℕ)
    → k < 8
    → j < 8
    → truthy (bit_and (bit_xor x (2 ^ k)) (1 <<< j))
      ≡ (if k == j then not (truthy (bit_and x (1 <<< j))) else truthy (bit_and x (1 <<< j)))
digit_flip x k j hk hj =
    let one : 1 * 2 ^ j ≡ 2 ^ j = omega arith in
    rw (one, truthy_bit j (bit_xor x (2 ^ k)), truthy_bit j x, xor_digit j x (2 ^ k))
      (ground (arith, power_digit k j hk hj))

digit_other :
    (x k j : ℕ)
    → k < 8
    → j < 8
    → (k == j) ≡ false
    → truthy (bit_and (bit_xor x (2 ^ k)) (1 <<< j)) ≡ truthy (bit_and x (1 <<< j))
digit_other x k j hk hj other = rw (digit_flip x k j hk hj, other)

digit_here :
    (x k j : ℕ)
    → k < 8
    → j < 8
    → (k == j) ≡ true
    → truthy (bit_and (bit_xor x (2 ^ k)) (1 <<< j)) ≡ not (truthy (bit_and x (1 <<< j)))
digit_here x k j hk hj here = rw (digit_flip x k j hk hj, here)

digits_loop-miss :
    (n j x k bit e : ℕ)
    → k < 8
    → j + n ≤ 8
    → k < j
    → digits_loop n j (bit_xor x (2 ^ k)) bit e ≡ digits_loop n j x bit e
unfolding digits_loop
digits_loop-miss zero j x k bit e hk hn hj = refl
digits_loop-miss (suc n) j x k bit e hk hn hj =
    rw (digit_other x k j hk (omega arith) (ground arith)) (
      digits_loop-miss n (j + 1) x k (bit + 1)
        (if truthy (bit_and x (1 <<< j)) then bit_xor e (bit + 1) else e) hk (omega arith)
        (omega arith))

xor_not :
    (b : Bool) (e m : ℕ)
    → (if not b then bit_xor e m else e) ≡ bit_xor (if b then bit_xor e m else e) m
xor_not true e m = sym (xor_cancel e m)
xor_not false e m = refl

digits_loop-hit :
    (n j x k bit e : ℕ)
    → k < 8
    → j + n ≤ 8
    → j ≤ k
    → k < j + n
    → digits_loop n j (bit_xor x (2 ^ k)) bit e
      ≡ bit_xor (digits_loop n j x bit e) (bit + (k - j) + 1)
unfolding digits_loop
digits_loop-hit zero j x k bit e hk hn hj h = absurd (omega arith)
digits_loop-hit (suc n) j x k bit e hk hn hj h = elim (Bool-cases (k == j)) [
  | inl here ↦
      let same : k ≡ j = (==_iff k j).0 here in
      let b = truthy (bit_and x (1 <<< j)) in
      let place : bit + 1 ≡ bit + (k - j) + 1 = omega arith in
      rw (digit_here x k j hk (omega arith) here) (
        digits_loop-miss n (j + 1) x k (bit + 1) (if not b then bit_xor e (bit + 1) else e) hk
          (omega arith) (omega arith)
        ∙ ap (digits_loop n (j + 1) x (bit + 1)) (xor_not b e (bit + 1))
        ∙ digits_loop-xor n (j + 1) x (bit + 1) (if b then bit_xor e (bit + 1) else e) (bit + 1)
        ∙ ap (bit_xor (digits_loop n (j + 1) x (bit + 1) (if b then bit_xor e (bit + 1) else e)))
            place)
  | inr other ↦
      let b = truthy (bit_and x (1 <<< j)) in
      let next : j ≢ k = ground arith in
      let place : bit + 1 + (k - (j + 1)) + 1 ≡ bit + (k - j) + 1 = omega arith in
      rw (digit_other x k j hk (omega arith) other) (
        digits_loop-hit n (j + 1) x k (bit + 1) (if b then bit_xor e (bit + 1) else e) hk
          (omega arith) (omega arith) (omega arith)
        ∙ ap (bit_xor (digits_loop n (j + 1) x (bit + 1) (if b then bit_xor e (bit + 1) else e)))
            place)
]

-- A bit flipped in the bytes flips the digits of its position, counted from one, in the code.
pub bytes_loop-set :
    (xs : List ℕ) (i k bit e : ℕ)
    → i < length xs
    → k < 8
    → bytes_loop (set xs i (bit_xor (get_or xs i 0) (2 ^ k))) bit e
      ≡ bit_xor (bytes_loop xs bit e) (bit + i * 8 + k + 1)
unfolding bytes_loop
bytes_loop-set [] i k bit e h hk = absurd (omega arith)
bytes_loop-set (x ∷ xs) zero k bit e h hk =
    let place : bit + (k - 0) + 1 ≡ bit + 0 * 8 + k + 1 = omega arith in
    ap (bytes_loop xs (bit + 8))
      (digits_loop-hit 8 0 x k bit e hk (omega arith) (omega arith) (omega arith))
    ∙ bytes_loop-xor xs (bit + 8) (digits_loop 8 0 x bit e) (bit + (k - 0) + 1)
    ∙ ap (bit_xor (bytes_loop xs (bit + 8) (digits_loop 8 0 x bit e))) place
bytes_loop-set (x ∷ xs) (suc i) k bit e h hk =
    let place : bit + 8 + i * 8 + k + 1 ≡ bit + suc i * 8 + k + 1 = omega arith in
    bytes_loop-set xs i k (bit + 8) (digits_loop 8 0 x bit e) (omega arith) hk
    ∙ ap (bit_xor (bytes_loop xs (bit + 8) (digits_loop 8 0 x bit e))) place

digits_loop-lt : (w n j x bit e : ℕ) → e < 2 ^ w → bit + n < 2 ^ w → digits_loop n j x bit e < 2 ^ w
unfolding digits_loop
digits_loop-lt w zero j x bit e he h = he
digits_loop-lt w (suc n) j x bit e he h =
    digits_loop-lt w n (j + 1) x (bit + 1)
      (if truthy (bit_and x (1 <<< j)) then bit_xor e (bit + 1) else e)
      (elim (truthy (bit_and x (1 <<< j)))
        as (λ b. (if b then bit_xor e (bit + 1) else e) < 2 ^ w) [
          | true ↦ xor-lt w e (bit + 1) he (omega arith)
          | false ↦ he
        ])
      (omega arith)

pub bytes_loop-lt :
    (w : ℕ) (xs : List ℕ) (bit e : ℕ)
    → e < 2 ^ w
    → bit + 8 * length xs < 2 ^ w
    → bytes_loop xs bit e < 2 ^ w
unfolding bytes_loop
bytes_loop-lt w [] bit e he h = he
bytes_loop-lt w (x ∷ xs) bit e he h =
    bytes_loop-lt w xs (bit + 8) (digits_loop 8 0 x bit e)
      (digits_loop-lt w 8 0 x bit e he (omega arith)) (omega arith)
