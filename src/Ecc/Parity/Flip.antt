-- ===== src/Ecc/Parity/Flip.antt =====
-- How the parities of a buffer change when one bit of it is flipped.
use native.Mathlib.Nat.{mod-eq_of_lt, mod-lt, div-one}
use whisper_yaffs.Prelude.{
  ℕ, zero, suc, ◌+◌, ◌-◌, ◌/◌, ◌%◌, ◌^◌, ◌<◌, bit_and, bit_xor, ◌≡◌, refl, sym, ap, ◌∙◌, Bool, true,
  false, not, List, [], ◌∷◌, arith, truthy, if◌then◌else◌, length, get_or, set, All, IsByte, ◌==◌,
  ==_iff, all_below, all_below_sound, Bool-cases, inl, inr,
}
use whisper_yaffs.Bits.{
  xor_comm, xor_assoc, xor-lt, xor-mod, xor_cancel, truthy_bit, two_pow_pos, low_xor,
}
use whisper_yaffs.Ecc.Parity.{Parity, column, round, parity_loop}

abbrev linear_at : ℕ → ℕ → Bool
linear_at x k = column (bit_xor x (2 ^ k)) == bit_xor (column x) (column (2 ^ k))

linear_table : all_below 256 (λ x. all_below 8 (linear_at x)) ≡ true
unfolding column all_below
linear_table = refl

-- The table is linear in each bit of its index.
pub column-xor :
    (x k : ℕ) → x < 256 → k < 8 → column (bit_xor x (2 ^ k)) ≡ bit_xor (column x) (column (2 ^ k))
column-xor x k p q = (==_iff _ _).0 (
    all_below_sound 8 (linear_at x) k
      (all_below_sound 256 (λ y. all_below 8 (linear_at y)) x linear_table p) q)

odd_table : all_below 8 (λ k. column (2 ^ k) % 2 == 1) ≡ true
unfolding column all_below
odd_table = refl

-- The column of a single bit is odd, so that a flip changes the parity of its byte.
pub column_odd : (k : ℕ) → k < 8 → column (2 ^ k) % 2 ≡ 1
column_odd k q = (==_iff _ _).0 (all_below_sound 8 (λ j. column (2 ^ j) % 2 == 1) k odd_table q)

small_table : all_below 8 (λ k. column (2 ^ k) / 256 == 0) ≡ true
unfolding column all_below
small_table = refl

pub column_bit-lt : (k : ℕ) → k < 8 → column (2 ^ k) < 256
column_bit-lt k q =
    omega
      (arith, (==_iff _ _).0 (all_below_sound 8 (λ j. column (2 ^ j) / 256 == 0) k small_table q))

-- Two sets of parities, digit by digit.
unfoldable pub combine : Parity → Parity → Parity
combine p d = record {
  col = bit_xor p.col d.col;
  line = bit_xor p.line d.line;
  line_prime = bit_xor p.line_prime d.line_prime;
}

xor_swap : (a b c : ℕ) → bit_xor (bit_xor a b) c ≡ bit_xor (bit_xor a c) b
xor_swap a b c = xor_assoc a b c ∙ ap (bit_xor a) (xor_comm b c) ∙ sym (xor_assoc a c b)

-- The parity of a byte, as a test on its column.
odd_test : (b : ℕ) → truthy (bit_and b 0x01) ≡ (b % 2 == 1)
odd_test b = truthy_bit 0 b ∙ ap (λ (t : ℕ). t % 2 == 1) (div-one b)

-- A flip turns the parity of its byte.
odd_flip :
    (x k : ℕ)
    → x < 256
    → k < 8
    → truthy (bit_and (column (bit_xor x (2 ^ k))) 0x01) ≡ not (truthy (bit_and (column x) 0x01))
odd_flip x k p q =
    rw (odd_test (column (bit_xor x (2 ^ k))), odd_test (column x), column-xor x k p q)
      (ground (arith, low_xor (column x) (column (2 ^ k)), column_odd k q))

if_lt : (b : Bool) (x y m : ℕ) → x < m → y < m → (if b then x else y) < m
if_lt true x y m p q = p
if_lt false x y m p q = q

module _ (w : ℕ) where
  abbrev pub cast : ℕ → ℕ
  cast n = n % 2 ^ w

  abbrev pub complement : ℕ → ℕ
  complement n = 2 ^ w - 1 - n % 2 ^ w

  pub record InRange (p : Parity) : Type 0 where
    pub col : p.col < 256
    pub line : p.line < 2 ^ w
    pub line_prime : p.line_prime < 2 ^ w

  -- The change that a flip of bit `k` in the byte at index `i` makes.
  abbrev pub delta : ℕ → ℕ → Parity
  delta i k = record { col = column (2 ^ k); line = i; line_prime = complement i }

  delta-InRange : (i k : ℕ) → i < 2 ^ w → k < 8 → InRange (delta i k)
  delta-InRange i k p q = record {
    col = column_bit-lt k q;
    line = p;
    line_prime = omega (arith, two_pow_pos w);
  }

  round-InRange : (i x : ℕ) {p : Parity} → InRange p → InRange (round cast complement i x p)
  unfolding round
  round-InRange i x {p} r =
      let odd = truthy (bit_and (column x) 0x01) in
      record {
        col = omega arith;
        line = if_lt odd _ _ _ (mod-lt (bit_xor p.line i) (two_pow_pos w)) r.line;
        line_prime =
            if_lt odd _ _ _ (mod-lt (bit_xor p.line_prime (complement i)) (two_pow_pos w))
              r.line_prime;
      }

  cast_swap :
      (v a d b : ℕ) → d < 2 ^ v → bit_xor (bit_xor a d) b % 2 ^ v ≡ bit_xor (bit_xor a b % 2 ^ v) d
  cast_swap v a d b small =
      ap (λ (t : ℕ). t % 2 ^ v) (xor_swap a d b)
      ∙ xor-mod v (bit_xor a b) d
      ∙ ap (bit_xor (bit_xor a b % 2 ^ v)) (mod-eq_of_lt small)

  round-combine :
      (i x : ℕ) (p d : Parity)
      → InRange d
      → round cast complement i x (combine p d) ≡ combine (round cast complement i x p) d
  unfolding round combine
  round-combine i x p d r = elim (Bool-cases (truthy (bit_and (column x) 0x01))) [
    | inl odd ↦ rw (
      odd,
      cast_swap 8 p.col d.col (column x) r.col,
      cast_swap w p.line d.line i r.line,
      cast_swap w p.line_prime d.line_prime (complement i) r.line_prime,
    )
    | inr even ↦ rw (even, cast_swap 8 p.col d.col (column x) r.col)
  ]

  pub parity_loop-combine :
      (n i : ℕ) (xs : List ℕ) (p d : Parity)
      → InRange d
      → parity_loop cast complement n i xs (combine p d)
        ≡ combine (parity_loop cast complement n i xs p) d
  unfolding parity_loop
  parity_loop-combine zero i xs p d r = refl
  parity_loop-combine (suc n) i [] p d r = refl
  parity_loop-combine (suc n) i (x ∷ xs) p d r =
      rw (round-combine i x p d r)
        (parity_loop-combine n (i + 1) xs (round cast complement i x p) d r)

  complement-lt : (i : ℕ) → complement i < 2 ^ w
  complement-lt i = omega (arith, two_pow_pos w)

  cast_xor : (a d : ℕ) → a < 2 ^ w → d < 2 ^ w → bit_xor a d % 2 ^ w ≡ bit_xor a d
  cast_xor a d p q = mod-eq_of_lt (xor-lt w a d p q)

  -- A line parity `a` before and after a flip at a byte that holds `d`'s index.
  line-flip :
      (odd : Bool) (a d : ℕ)
      → a < 2 ^ w
      → d < 2 ^ w
      → (if not odd then bit_xor a d % 2 ^ w else a)
        ≡ bit_xor (if odd then bit_xor a d % 2 ^ w else a) d
  line-flip true a d p q = rw (cast_xor a d p q) (sym (xor_cancel a d))
  line-flip false a d p q = cast_xor a d p q

  col-flip :
      (a x k : ℕ)
      → x < 256
      → k < 8
      → bit_xor a (column (bit_xor x (2 ^ k))) % 256
        ≡ bit_xor (bit_xor a (column x) % 256) (column (2 ^ k))
  col-flip a x k p q =
      ap (λ (t : ℕ). bit_xor a t % 256) (column-xor x k p q)
      ∙ ap (λ (t : ℕ). t % 256) (sym (xor_assoc a (column x) (column (2 ^ k))))
      ∙ xor-mod 8 (bit_xor a (column x)) (column (2 ^ k))
      ∙ ap (bit_xor (bit_xor a (column x) % 256)) (mod-eq_of_lt (column_bit-lt k q))

  round-flip :
      (i x k : ℕ) (p : Parity)
      → i < 2 ^ w
      → x < 256
      → k < 8
      → InRange p
      → round cast complement i (bit_xor x (2 ^ k)) p
        ≡ combine (round cast complement i x p) (delta i k)
  unfolding round combine
  round-flip i x k p hi hx hk r = rw (odd_flip x k hx hk) (λ j. record {
    col = col-flip p.col x k hx hk j;
    line = line-flip (truthy (bit_and (column x) 0x01)) p.line i r.line hi j;
    line_prime =
        line-flip (truthy (bit_and (column x) 0x01)) p.line_prime (complement i) r.line_prime
          (complement-lt i) j;
  })

  -- Flipping one bit of a buffer changes its parities by the bit's column, the index of its byte
  -- and the complement of that index.
  pub parity_loop-flip :
      (n i : ℕ) (xs : List ℕ) (j k : ℕ) (p : Parity)
      → j < n
      → j < length xs
      → All IsByte xs
      → k < 8
      → i + j < 2 ^ w
      → InRange p
      → parity_loop cast complement n i (set xs j (bit_xor (get_or xs j 0) (2 ^ k))) p
        ≡ combine (parity_loop cast complement n i xs p) (delta (i + j) k)
  unfolding parity_loop
  parity_loop-flip zero i xs j k p hn hl hb hk hi r = absurd (omega arith)
  parity_loop-flip (suc n) i [] j k p hn hl hb hk hi r = absurd (omega arith)
  parity_loop-flip (suc n) i (x ∷ xs) zero k p hn hl hb hk hi r =
      let here : i + 0 ≡ i = omega arith in
      rw (here, round-flip i x k p (omega arith) hb.0 hk r)
        (parity_loop-combine n (i + 1) xs (round cast complement i x p) (delta i k)
          (delta-InRange i k (omega arith) hk))
  parity_loop-flip (suc n) i (x ∷ xs) (suc j) k p hn hl hb hk hi r =
      let there : i + suc j ≡ i + 1 + j = omega arith in
      rw there (
        parity_loop-flip n (i + 1) xs j k (round cast complement i x p) (omega arith) (omega arith)
          hb.1 hk (omega arith) (round-InRange i x r))

  pub parity_loop-InRange :
      (n i : ℕ) (xs : List ℕ) (p : Parity)
      → InRange p
      → InRange (parity_loop cast complement n i xs p)
  unfolding parity_loop
  parity_loop-InRange zero i xs p r = r
  parity_loop-InRange (suc n) i [] p r = r
  parity_loop-InRange (suc n) i (x ∷ xs) p r =
      parity_loop-InRange n (i + 1) xs (round cast complement i x p) (round-InRange i x r)
