-- ===== src/Bitmap/Count.antt =====
-- A whole block of the bitmap: cleared at once, tested and counted.
use mathlib.Core.Path.{ap₂}
use Prim.Native.Nat.{bit_and-bitwise}
use native.Mathlib.Decide.{ℕ_discrete, dec_lt}
use whisper_yaffs.Prelude.{
  ℕ, zero, suc, ◌+◌, ◌-◌, ◌*◌, ◌/◌, ◌%◌, ◌^◌, ◌≤◌, ◌<◌, bit_and, ◌≡◌, ◌≢◌, refl, sym, ap, ◌∙◌, ◌⊎◌,
  inl, inr, Bool, true, false, ◌&&◌, ◌||◌, List, some, arith, ◌==◌, ltb, truthy, to_int,
  if◌then◌else◌, get_or, fill, All, IsByte, All-get_or, length-fill, All-fill, get_or-fill_inside,
  get_or-fill_outside, all_below, all_below_sound, same, same_sound,
}
use whisper_yaffs.Ecc.Parity.{count_loop}
use whisper_yaffs.Bitmap.{
  Bitmap, block_bits, clear_chunk_bits, some_bits_loop, still_some_chunk_bits, count_bits_loop,
  count_chunk_bits,
}
use whisper_yaffs.Bitmap.View.{IsValid, HasChunk, place, view, index_in_range}

-- How many of `p 0` to `p (n - 1)` hold.
unfoldable pub tally : (ℕ → Bool) → ℕ → ℕ
tally p zero = 0
tally p (suc n) = to_int (p 0) + tally (λ j. p (suc j)) n

tally_congr : (p q : ℕ → Bool) (n : ℕ) → ((j : ℕ) → p j ≡ q j) → tally p n ≡ tally q n
unfolding tally
tally_congr p q zero h = refl
tally_congr p q (suc n) h =
    omega (arith, ap to_int (h 0), tally_congr (λ j. p (suc j)) (λ j. q (suc j)) n (λ j. h (suc j)))

-- Digit `l` of a byte.
abbrev bit_of : ℕ → ℕ → Bool
bit_of x l = truthy (bit_and x (2 ^ l))

byte_table :
    all_below 256
      (λ x. count_loop 8 x 0 == tally (bit_of x) 8 && same (truthy x) (ltb 0 (count_loop 8 x 0)))
    ≡ true
unfolding all_below count_loop tally
byte_table = refl

byte_lem :
    (x : ℕ)
    → x < 256
    → (count_loop 8 x 0 ≡ tally (bit_of x) 8) × (truthy x ≡ ltb 0 (count_loop 8 x 0))
byte_lem x h =
    let row =
      all_below_sound 256
        (λ y. count_loop 8 y 0 == tally (bit_of y) 8 && same (truthy y) (ltb 0 (count_loop 8 y 0)))
        x byte_table h in
    (ground arith, same_sound _ _ (ground arith))

count_loop-add : (f x r : ℕ) → count_loop f x r ≡ r + count_loop f x 0
unfolding count_loop
count_loop-add zero x r = omega arith
count_loop-add (suc f) x r = ground (
  arith,
  count_loop-add f (x / 2) (if truthy (bit_and x 1) then r + 1 else r),
  count_loop-add f (x / 2) (if truthy (bit_and x 1) then 1 else 0),
)

-- The digits of the bytes from index `i`.
abbrev digit_from : List ℕ → ℕ → ℕ → Bool
digit_from xs i j = bit_of (get_or xs (i + j / 8) 0) (j % 8)

tally-eight :
    (p : ℕ → Bool) (n : ℕ) → tally p (suc n * 8) ≡ tally p 8 + tally (λ j. p (8 + j)) (n * 8)
unfolding tally
tally-eight p n =
    let e : suc n * 8 ≡ suc (suc (suc (suc (suc (suc (suc (suc (n * 8)))))))) = omega arith in
    let rest =
      tally_congr (λ j. p (suc (suc (suc (suc (suc (suc (suc (suc j))))))))) (λ j. p (8 + j))
        (n * 8) (λ j. ap p (omega arith)) in
    rw e (omega (arith, rest))

first_byte : (xs : List ℕ) (i : ℕ) → tally (digit_from xs i) 8 ≡ tally (bit_of (get_or xs i 0)) 8
unfolding tally
first_byte xs i = let here : i + 0 ≡ i = omega arith in rw here

next_byte : (xs : List ℕ) (i j : ℕ) → digit_from xs i (8 + j) ≡ digit_from xs (i + 1) j
next_byte xs i j = ap₂ (λ a b. bit_of (get_or xs a 0) b) (omega arith) (omega arith)

count_bits_loop-tally :
    (xs : List ℕ) (n i count : ℕ)
    → All IsByte xs
    → count_bits_loop xs n i count ≡ count + tally (digit_from xs i) (n * 8)
unfolding count_bits_loop
count_bits_loop-tally xs zero i count h =
    let e : 0 * 8 ≡ 0 = omega arith in unfold tally in rw e (omega arith)
count_bits_loop-tally xs (suc n) i count h =
    let x = get_or xs i 0 in
    omega (
      arith,
      count_bits_loop-tally xs n (i + 1) (count_loop 8 x count) h,
      count_loop-add 8 x count,
      (byte_lem x (All-get_or IsByte xs i 0 h (omega arith))).0,
      tally-eight (digit_from xs i) n,
      first_byte xs i,
      tally_congr (λ j. digit_from xs i (8 + j)) (digit_from xs (i + 1)) (n * 8) (next_byte xs i),
    )

some_bits_loop-count :
    (xs : List ℕ) (n i count : ℕ)
    → All IsByte xs
    → ltb 0 (count_bits_loop xs n i count) ≡ (ltb 0 count || some_bits_loop xs n i)
unfolding count_bits_loop some_bits_loop
some_bits_loop-count xs zero i count h = ground arith
some_bits_loop-count xs (suc n) i count h =
    let x = get_or xs i 0 in
    ground (
      arith,
      some_bits_loop-count xs n (i + 1) (count_loop 8 x count) h,
      count_loop-add 8 x count,
      (byte_lem x (All-get_or IsByte xs i 0 h (omega arith))).1,
    )

zero-bit_and : (x : ℕ) → bit_and 0 x ≡ 0
zero-bit_and x = bit_and-bitwise 0 x

row_in_range : (s i n : ℕ) → i < n → s * i + s ≤ s * n
row_in_range s i n h = grind arith

rows_apart : (s a b x : ℕ) → a ≢ b → x < s → (s * b + x < s * a) ⊎ (s * a + s ≤ s * b + x)
rows_apart s a b x ne h = elim (dec_lt b a) [
  | yes below ↦ inl (index_in_range s b a x below h)
  | no above ↦ inr (omega (arith, row_in_range s a b (omega arith)))
]

-- A block within the bitmap.
abbrev pub HasBlock : Bitmap → ℕ → Type 0
HasBlock m b = (m.start_block ≤ b) × (b ≤ m.end_block)

module _ (m : Bitmap) (b : ℕ) (v : IsValid m) (h : HasBlock m b) where
  block_bits-some : block_bits m b ≡ some (m.stride * (b - m.start_block))
  unfolding block_bits
  block_bits-some = ground arith

  -- `yaffs_CountChunkBits` is the number of chunks of the block in the set, over all the bits of the
  -- block's bytes.
  pub count_chunk_bits-tally : count_chunk_bits m b ≡ some (tally (view m b) (m.stride * 8))
  unfolding count_chunk_bits view
  count_chunk_bits-tally =
      rw (block_bits-some, count_chunk_bits)
        (ap some (
          count_bits_loop-tally m.chunk_bits m.stride (m.stride * (b - m.start_block)) 0 v.bytes
          ∙ omega arith))

  -- `yaffs_StillSomeChunkBits` tells whether the count is above zero.
  pub still_some_chunk_bits-tally :
      still_some_chunk_bits m b ≡ some (ltb 0 (tally (view m b) (m.stride * 8)))
  unfolding still_some_chunk_bits view
  still_some_chunk_bits-tally =
      let off = m.stride * (b - m.start_block) in
      rw (block_bits-some, still_some_chunk_bits)
        (ap some (
          sym (some_bits_loop-count m.chunk_bits m.stride off 0 v.bytes)
          ∙ ap (ltb 0) (count_bits_loop-tally m.chunk_bits m.stride off 0 v.bytes ∙ omega arith)))

  cleared_row :
      (c' : ℕ)
      → HasChunk m b c'
      → get_or (fill m.chunk_bits (m.stride * (b - m.start_block)) m.stride 0) (place m b c') 0 ≡ 0
  cleared_row c' h' =
      get_or-fill_inside m.chunk_bits (m.stride * (b - m.start_block)) m.stride (place m b c') 0 0
        (omega arith) (omega (arith, h'.chunk, v.room))
        (rw v.sized (
          row_in_range m.stride (b - m.start_block) (m.end_block + 1 - m.start_block)
            (omega arith)))

  other_row :
      (b' c' : ℕ)
      → b ≢ b'
      → HasChunk m b' c'
      → get_or (fill m.chunk_bits (m.stride * (b - m.start_block)) m.stride 0) (place m b' c') 0
        ≡ get_or m.chunk_bits (place m b' c') 0
  other_row b' c' ne h' =
      get_or-fill_outside m.chunk_bits (m.stride * (b - m.start_block)) m.stride (place m b' c') 0 0
        (rows_apart m.stride (b - m.start_block) (b' - m.start_block) (c' / 8)
          (λ e. ne (omega (arith, e, h'.first))) (omega (arith, h'.chunk, v.room)))

  cleared :
      (b' c' : ℕ)
      → HasChunk m b' c'
      → view
          (record m { chunk_bits = fill m.chunk_bits (m.stride * (b - m.start_block)) m.stride 0 })
          b'
          c'
        ≡ (if b == b' then false else view m b' c')
  unfolding view
  cleared b' c' h' = elim (ℕ_discrete b b') [
    | yes e ↦
        let here : (b == b') ≡ true = ground arith in
        let z = cleared_row c' (record { first = h.0; last = h.1; chunk = h'.chunk }) in
        rw (here, ← e, z, zero-bit_and (2 ^ (c' % 8)))
    | no ne ↦ let there : (b == b') ≡ false = ground arith in rw (there, other_row b' c' ne h')
  ]

  -- `yaffs_ClearChunkBits` takes all the chunks of the block out of the set, and changes no other block.
  pub clear_chunk_bits-view :
      (m' : Bitmap) × (clear_chunk_bits m b ≡ some m')
      × IsValid m'
      × ((b' c' : ℕ) → HasChunk m b' c' → view m' b' c' ≡ (if b == b' then false else view m b' c'))
  unfolding clear_chunk_bits view
  clear_chunk_bits-view =
      let off = m.stride * (b - m.start_block) in
      (
        record m { chunk_bits = fill m.chunk_bits off m.stride 0 },
        rw (block_bits-some, clear_chunk_bits),
        record {
          room = v.room;
          sized = length-fill m.chunk_bits off m.stride 0 ∙ v.sized;
          bytes = All-fill IsByte m.chunk_bits off m.stride 0 v.bytes (omega arith);
        },
        cleared,
      )

  -- What clearing a block leaves of the bitmap's frame.
  pub clear_chunk_bits-frame :
      (m' : Bitmap) × (clear_chunk_bits m b ≡ some m')
      × IsValid m'
      × (m'.start_block ≡ m.start_block)
      × (m'.end_block ≡ m.end_block)
      × (m'.chunks_per_block ≡ m.chunks_per_block)
  unfolding clear_chunk_bits
  clear_chunk_bits-frame =
      let off = m.stride * (b - m.start_block) in
      (
        record m { chunk_bits = fill m.chunk_bits off m.stride 0 },
        rw (block_bits-some, clear_chunk_bits),
        record {
          room = v.room;
          sized = length-fill m.chunk_bits off m.stride 0 ∙ v.sized;
          bytes = All-fill IsByte m.chunk_bits off m.stride 0 v.bytes (omega arith);
        },
        refl,
        refl,
        refl,
      )
