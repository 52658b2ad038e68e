-- ===== src/Tnode/Entries.antt =====
-- The packed entries of a tnode of level 0, by the digits of its words.
use whisper_yaffs.Bits.Digits.{
  digit, digit-lt, and_digit, digit_or, digit_mod, mask_digit, not_digit, shl_digit, shr_digit,
}
use whisper_yaffs.Prelude.{
  ℕ, ◌+◌, ◌-◌, ◌*◌, ◌/◌, ◌%◌, ◌^◌, ◌≤◌, ◌<◌, ◌<<<◌, ◌>>>◌, bit_and, bit_or, ◌≡◌, ◌≢◌, sym, ap, ◌∙◌,
  List, ltb, ◌==◌, ==_iff, Bool-cases, inl, inr, ◌⊎◌, if◌then◌else◌, get_or, length,
  get_or-set_self, get_or-set_ne, u32, not32, arith, length-set,
}
use whisper_yaffs.Tnode.{merge_word}

-- Digit `n` of the words of a tnode.
unfoldable pub map_digit : List ℕ → (n : ℕ) → ℕ
map_digit map n = digit (get_or map (n / 32) 0) (n % 32)

merge_digit :
    (x mask bits k : ℕ)
    → k < 32
    → digit (bit_or (bit_and x (not32 mask)) (bit_and mask bits)) k
      ≡ (if digit mask k == 1 then digit bits k else digit x k)
merge_digit x mask bits k h = ground (
  arith,
  digit_or k (bit_and x (not32 mask)) (bit_and mask bits),
  and_digit k x (not32 mask),
  and_digit k mask bits,
  not_digit 32 k mask h,
  digit-lt mask k,
  digit-lt x k,
  digit-lt bits k,
)

-- A word that is merged keeps the digits outside the mask; the other words stay.
merge_word-inside :
    (map : List ℕ) (word mask bits n : ℕ)
    → word < length map
    → n / 32 ≡ word
    → digit mask (n % 32) ≡ 1
    → map_digit (merge_word map word mask bits) n ≡ digit bits (n % 32)
unfolding map_digit merge_word
merge_word-inside map word mask bits n inside here one =
    let x = get_or map word 0 in
    let v = bit_or (bit_and x (not32 mask)) (bit_and mask bits) in
    rw (
      here,
      get_or-set_self map word v 0 inside,
      merge_digit x mask bits (n % 32) (omega arith),
      one,
    )

merge_word-elsewhere :
    (map : List ℕ) (word mask bits n : ℕ)
    → n / 32 ≢ word
    → map_digit (merge_word map word mask bits) n ≡ map_digit map n
unfolding map_digit merge_word
merge_word-elsewhere map word mask bits n other =
    let x = get_or map word 0 in
    let v = bit_or (bit_and x (not32 mask)) (bit_and mask bits) in
    rw (get_or-set_ne map word (n / 32) v 0 (λ e. other (sym e)))

merge_word-outside :
    (map : List ℕ) (word mask bits n : ℕ)
    → word < length map
    → digit mask (n % 32) ≡ 0
    → map_digit (merge_word map word mask bits) n ≡ map_digit map n
unfolding map_digit merge_word
merge_word-outside map word mask bits n inside clear = elim (Bool-cases (n / 32 == word)) [
  | inl same ↦
      let here : n / 32 ≡ word = (==_iff (n / 32) word).0 same in
      let x = get_or map word 0 in
      let v = bit_or (bit_and x (not32 mask)) (bit_and mask bits) in
      rw (
        here,
        get_or-set_self map word v 0 inside,
        merge_digit x mask bits (n % 32) (omega arith),
        clear,
      )
  | inr differs ↦ merge_word-elsewhere map word mask bits n (ground arith)
]

-- The two masks and the bits that go with them.
pub low_mask :
    (w b k : ℕ)
    → k < 32
    → digit (u32 ((2 ^ w - 1) <<< b)) k ≡ (if ltb k b then 0 else if ltb (k - b) w then 1 else 0)
low_mask w b k h =
    ground
      (arith, digit_mod 32 k ((2 ^ w - 1) <<< b) h, shl_digit b k (2 ^ w - 1), mask_digit w (k - b))

low_bits : (v b k : ℕ) → k < 32 → b ≤ k → digit (u32 (v <<< b)) k ≡ digit v (k - b)
low_bits v b k h above = ground (arith, digit_mod 32 k (v <<< b) h, shl_digit b k v)

high_mask : (w r k : ℕ) → digit ((2 ^ w - 1) >>> r) k ≡ (if ltb (r + k) w then 1 else 0)
high_mask w r k = shr_digit r k (2 ^ w - 1) ∙ mask_digit w (r + k)

-- An entry of `w` digits is stored from digit `p` on.
unfoldable pub store : (w p v : ℕ) → List ℕ → List ℕ
store w p v map =
    let b = p % 32 in
    let first = merge_word map (p / 32) (u32 ((2 ^ w - 1) <<< b)) (u32 (v <<< b)) in
    if ltb (32 - b) w
    then merge_word first (p / 32 + 1) ((2 ^ w - 1) >>> (32 - b)) (v >>> (32 - b))
    else first

pub length-merge_word :
    (map : List ℕ) (word mask bits : ℕ) → length (merge_word map word mask bits) ≡ length map
unfolding merge_word
length-merge_word map word mask bits = length-set map word _

module _ (w p v n : ℕ) (map : List ℕ) (positive : 0 < w) (narrow : w ≤ 32)
    (inside : p + w ≤ 32 * length map) where
  first : List ℕ
  first = merge_word map (p / 32) (u32 ((2 ^ w - 1) <<< (p % 32))) (u32 (v <<< (p % 32)))

  first-inside : n / 32 ≡ p / 32 → p ≤ n → n < p + w → map_digit first n ≡ digit v (n - p)
  unfolding first
  first-inside here low high =
      let k = n % 32 in
      let place : n - p ≡ k - p % 32 = omega arith in
      rw place (
        merge_word-inside map (p / 32) (u32 ((2 ^ w - 1) <<< (p % 32))) (u32 (v <<< (p % 32))) n
          (omega arith) here (ground (arith, low_mask w (p % 32) k))
        ∙ low_bits v (p % 32) k (omega arith) (omega arith))

  first-outside : (n < p) ⊎ (p + w ≤ n) ⊎ (n / 32 ≢ p / 32) → map_digit first n ≡ map_digit map n
  unfolding first
  first-outside away = elim (Bool-cases (n / 32 == p / 32)) [
    | inl same ↦
        let here : n / 32 ≡ p / 32 = (==_iff (n / 32) (p / 32)).0 same in
        merge_word-outside map (p / 32) (u32 ((2 ^ w - 1) <<< (p % 32))) (u32 (v <<< (p % 32))) n
          (omega arith) (ground (arith, low_mask w (p % 32) (n % 32)))
    | inr differs ↦
        merge_word-elsewhere map (p / 32) (u32 ((2 ^ w - 1) <<< (p % 32))) (u32 (v <<< (p % 32))) n
          (ground arith)
  ]

  pub store-inside : p ≤ n → n < p + w → map_digit (store w p v map) n ≡ digit v (n - p)
  unfolding store first
  store-inside low high = elim (Bool-cases (ltb (32 - p % 32) w)) [
    | inl split ↦ elim (Bool-cases (n / 32 == p / 32)) [
      | inl same ↦
          let here : n / 32 ≡ p / 32 = (==_iff (n / 32) (p / 32)).0 same in
          rw split (
            merge_word-elsewhere first (p / 32 + 1) ((2 ^ w - 1) >>> (32 - p % 32))
              (v >>> (32 - p % 32)) n (omega arith)
            ∙ first-inside here low high)
      | inr differs ↦
          let wide : 32 - p % 32 < w = ground arith in
          let apart : n / 32 ≢ p / 32 = ground arith in
          let r = 32 - p % 32 in
          let next : n / 32 ≡ p / 32 + 1 = omega arith in
          let place : r + n % 32 ≡ n - p = omega arith in
          let there : p / 32 + 1 < length first =
            rw
              (length-merge_word map (p / 32) (u32 ((2 ^ w - 1) <<< (p % 32)))
                (u32 (v <<< (p % 32))))
              (omega arith) in
          rw split (
            merge_word-inside first (p / 32 + 1) ((2 ^ w - 1) >>> r) (v >>> r) n there next
              (ground (arith, high_mask w r (n % 32)))
            ∙ shr_digit r (n % 32) v
            ∙ ap (digit v) place)
    ]
    | inr whole ↦
        let short : w ≤ 32 - p % 32 = ground arith in rw whole (first-inside (omega arith) low high)
  ]

  pub store-outside : (n < p) ⊎ (p + w ≤ n) → map_digit (store w p v map) n ≡ map_digit map n
  unfolding store first
  store-outside away =
      let kept : map_digit first n ≡ map_digit map n =
        first-outside (elim away [ inl x ↦ inl x | inr y ↦ inr (inl y) ]) in
      elim (Bool-cases (ltb (32 - p % 32) w)) [
        | inl split ↦
            let r = 32 - p % 32 in
            let there : p / 32 + 1 < length first =
              rw
                (length-merge_word map (p / 32) (u32 ((2 ^ w - 1) <<< (p % 32)))
                  (u32 (v <<< (p % 32))))
                (ground arith) in
            rw split (elim (Bool-cases (n / 32 == p / 32 + 1)) [
              | inl same ↦
                  merge_word-outside first (p / 32 + 1) ((2 ^ w - 1) >>> r) (v >>> r) n there
                    (ground (arith, high_mask w r (n % 32)))
                  ∙ kept
              | inr differs ↦
                  merge_word-elsewhere first (p / 32 + 1) ((2 ^ w - 1) >>> r) (v >>> r) n
                    (ground arith)
                  ∙ kept
            ])
        | inr whole ↦ rw whole kept
      ]
