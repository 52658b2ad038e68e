-- ===== src/Tnode/Roundtrip.antt =====
-- An entry of a tnode that is stored and read again.
use native.Mathlib.Nat.{mod-lt, div-le_self}
use whisper_yaffs.Bits.{and_mask, two_pow_pos, two_pow-lt}
use whisper_yaffs.Bits.Digits.{
  or-lt, and-le, digit, digits_ext, digit_or, digit_mod, digit_mod_above, shl_digit, shr_digit,
}
use whisper_yaffs.Prelude.{
  ℕ, ◌+◌, ◌-◌, ◌*◌, ◌/◌, ◌%◌, ◌^◌, ◌≤◌, ◌<◌, ◌<<<◌, ◌>>>◌, bit_and, bit_or, ◌≡◌, ◌≢◌, sym, ap, ◌∙◌,
  true, List, ltb, ◌==◌, ==_iff, Bool-cases, inl, inr, ◌⊎◌, if◌then◌else◌, get_or, length, u32,
  not32, arith, All, IsWord, All-get_or, All-set,
}
use whisper_yaffs.Tnode.{
  Packing, tnodes_level0_mask, merge_word, load_level0_tnode, get_chunk_group_base,
}
use whisper_yaffs.Tnode.Entries.{map_digit, store, store-inside, store-outside}

-- The value of the entry of `w` digits from digit `p` on, before it is shifted.
unfoldable fetch : (w p : ℕ) → List ℕ → ℕ
fetch w p map =
    let b = p % 32 in
    let low = get_or map (p / 32) 0 >>> b in
    let both = bit_or low (u32 (get_or map (p / 32 + 1) 0 <<< (32 - b))) in
    bit_and (if ltb (32 - b) w then both else low) (2 ^ w - 1)

fetch-lt : (w p : ℕ) (map : List ℕ) → fetch w p map < 2 ^ w
unfolding fetch
fetch-lt w p map =
    let b = p % 32 in
    let low = get_or map (p / 32) 0 >>> b in
    let both = bit_or low (u32 (get_or map (p / 32 + 1) 0 <<< (32 - b))) in
    let v = if ltb (32 - b) w then both else low in
    omega (arith, and_mask w v, mod-lt v (two_pow_pos w))

-- Digits above the 32 of a word are zero.
word_digit : (x k : ℕ) → x < 2 ^ 32 → 32 ≤ k → digit x k ≡ 0
word_digit x k small high =
    let same : x % 2 ^ 32 ≡ x = omega arith in rw (← same) (digit_mod_above 32 k x high)

digit-fetch :
    (w p k : ℕ) (map : List ℕ)
    → w ≤ 32
    → All IsWord map
    → k < w
    → digit (fetch w p map) k ≡ map_digit map (p + k)
unfolding fetch map_digit
digit-fetch w p k map narrow words h =
    let b = p % 32 in
    let x = get_or map (p / 32) 0 in
    let y = get_or map (p / 32 + 1) 0 in
    let low = x >>> b in
    let both = bit_or low (u32 (y <<< (32 - b))) in
    let v = if ltb (32 - b) w then both else low in
    let word : x < 2 ^ 32 = All-get_or IsWord map (p / 32) 0 words (omega arith) in
    let masked : digit (bit_and v (2 ^ w - 1)) k ≡ digit v k =
      ap (λ (t : ℕ). digit t k) (and_mask w v) ∙ digit_mod w k v h in
    let shifted : digit low k ≡ digit x (b + k) = shr_digit b k x in
    elim (Bool-cases (ltb k (32 - b))) [
      | inl near ↦
          let here : (p + k) / 32 ≡ p / 32 = ground arith in
          let place : (p + k) % 32 ≡ b + k = ground arith in
          rw (masked, here, place)
            (elim (Bool-cases (ltb (32 - b) w)) [
              | inl split ↦ rw split (
                  ground (
                    arith,
                    digit_or k low (u32 (y <<< (32 - b))),
                    digit_mod 32 k (y <<< (32 - b)),
                    shl_digit (32 - b) k y,
                    shifted,
                  ))
              | inr whole ↦ rw whole shifted
            ])
      | inr far ↦
          let next : (p + k) / 32 ≡ p / 32 + 1 = ground arith in
          let place : (p + k) % 32 ≡ k - (32 - b) = ground arith in
          let split : ltb (32 - b) w ≡ true = ground arith in
          let clear : digit x (b + k) ≡ 0 = word_digit x (b + k) word (ground arith) in
          rw (masked, next, place, split)
            (ground (
              arith,
              digit_or k low (u32 (y <<< (32 - b))),
              digit_mod 32 k (y <<< (32 - b)),
              shl_digit (32 - b) k y,
              shifted,
              clear,
            ))
    ]

-- What the initialisation sets for entries of `w` digits.
abbrev pub packing : (w g : ℕ) → Packing
packing w g = record { tnode_width = w; tnode_mask = 2 ^ w - 1; chunk_group_bits = g }

mul_bound : (a b w : ℕ) → a ≤ b → a * w ≤ b * w
mul_bound a b w h = grind arith

apart_lem : (w a b : ℕ) → a ≢ b → (a * w + w ≤ b * w) ⊎ (b * w + w ≤ a * w)
apart_lem w a b ne = elim (Bool-cases (ltb a b)) [
  | inl less ↦
      let above : a + 1 ≤ b = ground arith in inl (omega (arith, mul_bound (a + 1) b w above))
  | inr more ↦
      let above : b + 1 ≤ a = ground arith in inr (omega (arith, mul_bound (b + 1) a w above))
]

module _ (w g pos : ℕ) (narrow : w ≤ 32) where
  at_lem : bit_and pos tnodes_level0_mask ≡ pos % 16
  at_lem = and_mask 4 pos

  bit_lem : u32 (pos % 16 * w) ≡ pos % 16 * w
  bit_lem = omega (arith, mul_bound (pos % 16) 15 w (omega arith))

  load_lem :
      (map : List ℕ) (val : ℕ)
      → load_level0_tnode (packing w g) map pos val ≡ store w (pos % 16 * w) (val >>> g) map
  unfolding load_level0_tnode store
  load_lem map val = rw (at_lem, bit_lem, and_mask 5 (pos % 16 * w))

  get_lem :
      (map : List ℕ)
      → get_chunk_group_base (packing w g) map pos ≡ u32 (fetch w (pos % 16 * w) map <<< g)
  unfolding get_chunk_group_base fetch
  get_lem map = rw (at_lem, bit_lem, and_mask 5 (pos % 16 * w))

merge_word-IsWord :
    (map : List ℕ) (word mask bits : ℕ)
    → mask < 2 ^ 32
    → All IsWord map
    → All IsWord (merge_word map word mask bits)
unfolding merge_word
merge_word-IsWord map word mask bits small words =
    let x = get_or map word 0 in
    let old : x < 2 ^ 32 = All-get_or IsWord map word 0 words (omega arith) in
    All-set IsWord map word (bit_or (bit_and x (not32 mask)) (bit_and mask bits)) words (
      or-lt 32 (bit_and x (not32 mask)) (bit_and mask bits) (omega (arith, and-le x (not32 mask)))
        (omega (arith, and-le mask bits)))

power_bound : (w : ℕ) → w ≤ 32 → 2 ^ w ≤ 2 ^ 32
power_bound w h = elim (Bool-cases (w == 32)) [
  | inl last ↦ let top : w ≡ 32 = (==_iff w 32).0 last in rw top (omega arith)
  | inr below ↦ let small : w < 32 = ground arith in omega (arith, two_pow-lt w 32 small)
]

store-IsWord : (w p v : ℕ) (map : List ℕ) → w ≤ 32 → All IsWord map → All IsWord (store w p v map)
unfolding store
store-IsWord w p v map narrow words =
    let b = p % 32 in
    let m1 = u32 ((2 ^ w - 1) <<< b) in
    let first = merge_word map (p / 32) m1 (u32 (v <<< b)) in
    let kept : All IsWord first =
      merge_word-IsWord map (p / 32) m1 (u32 (v <<< b)) (omega arith) words in
    elim (Bool-cases (ltb (32 - b) w)) [
      | inl split ↦ rw split (
          merge_word-IsWord first (p / 32 + 1) ((2 ^ w - 1) >>> (32 - b)) (v >>> (32 - b))
            (omega (arith, div-le_self (2 ^ w - 1) (2 ^ (32 - b)), power_bound w narrow)) kept)
      | inr whole ↦ rw whole kept
    ]

-- An entry that `yaffs_LoadLevel0Tnode` stores is what `yaffs_GetChunkGroupBase` reads at its place: the
-- number of a chunk without its group bits, cut to the width of an entry. At the other places what is
-- read is what was read before. This is for entries of 1 to 32 digits in a tnode that has the words
-- for 16 of them.
pub get-load :
    (w g : ℕ) (map : List ℕ) (pos val q : ℕ)
    → 0 < w
    → w ≤ 32
    → All IsWord map
    → w ≤ 2 * length map
    → get_chunk_group_base (packing w g) (load_level0_tnode (packing w g) map pos val) q ≡ (
        if q % 16 == pos % 16
        then u32 (((val >>> g) % 2 ^ w) <<< g)
        else get_chunk_group_base (packing w g) map q)
get-load w g map pos val q positive narrow words room =
    let p = pos % 16 * w in
    let v = val >>> g in
    let stored = store w p v map in
    let inside : p + w ≤ 32 * length map = omega (arith, mul_bound (pos % 16) 15 w (omega arith)) in
    let kept = store-IsWord w p v map narrow words in
    rw (load_lem w g pos narrow map val, get_lem w g q narrow stored)
      (elim (Bool-cases (q % 16 == pos % 16)) [
        | inl same ↦
            let here : q % 16 ≡ pos % 16 = (==_iff (q % 16) (pos % 16)).0 same in
            rw same (
              ap (λ (t : ℕ). u32 (t <<< g))
                (ap (λ (t : ℕ). fetch w (t * w) stored) here
                  ∙ digits_ext w (fetch w p stored) (v % 2 ^ w) (fetch-lt w p stored)
                      (mod-lt v (two_pow_pos w))
                      (λ k h.
                        let place : p + k - p ≡ k = omega arith in
                        digit-fetch w p k stored narrow kept h
                        ∙ store-inside w p v (p + k) map positive narrow inside (omega arith)
                            (omega arith)
                        ∙ ap (digit v) place
                        ∙ sym (digit_mod w k v h))))
        | inr differs ↦
            let r = q % 16 * w in
            let apart : (r + w ≤ p) ⊎ (p + w ≤ r) =
              apart_lem w (q % 16) (pos % 16) (ground arith) in
            rw (differs, get_lem w g q narrow map)
              (ap (λ (t : ℕ). u32 (t <<< g))
                (digits_ext w (fetch w r stored) (fetch w r map) (fetch-lt w r stored)
                  (fetch-lt w r map)
                  (λ k h.
                    digit-fetch w r k stored narrow kept h
                    ∙ store-outside w p v (r + k) map positive narrow inside (omega arith)
                    ∙ sym (digit-fetch w r k map narrow words h))))
      ])
