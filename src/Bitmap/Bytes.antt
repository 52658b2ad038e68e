-- ===== src/Bitmap/Bytes.antt =====
-- One bit of a byte, set, cleared and read.
use whisper_yaffs.Prelude.{
  ℕ, ◌^◌, ◌<◌, bit_and, bit_or, ◌≡◌, refl, Bool, ◌&&◌, arith, ◌==◌, ltb, truthy, if◌then◌else◌,
  not8, all_below, all_below_sound, same, same_sound, false, true,
}

abbrev bit_test : ℕ → ℕ → Bool
bit_test x l = truthy (bit_and x (2 ^ l))

abbrev set_row : ℕ → ℕ → ℕ → Bool
set_row x k l =
    same (bit_test (bit_or x (2 ^ k)) l) (if k == l then true else bit_test x l)
    && (same (bit_test (bit_and x (not8 (2 ^ k))) l) (if k == l then false else bit_test x l)
        && (ltb (bit_or x (2 ^ k)) 256 && ltb (bit_and x (not8 (2 ^ k))) 256))

set_table : all_below 256 (λ x. all_below 8 (λ k. all_below 8 (set_row x k))) ≡ true
unfolding all_below
set_table = refl

pub bit_lem :
    (x k l : ℕ)
    → x < 256
    → k < 8
    → l < 8
    → (truthy (bit_and (bit_or x (2 ^ k)) (2 ^ l))
        ≡ (if k == l then true else truthy (bit_and x (2 ^ l))))
      × (truthy (bit_and (bit_and x (not8 (2 ^ k))) (2 ^ l))
          ≡ (if k == l then false else truthy (bit_and x (2 ^ l))))
      × (bit_or x (2 ^ k) < 256)
      × (bit_and x (not8 (2 ^ k)) < 256)
bit_lem x k l hx hk hl =
    let row =
      all_below_sound 8 (set_row x k) l
        (all_below_sound 8 (λ j. all_below 8 (set_row x j)) k
          (all_below_sound 256 (λ y. all_below 8 (λ j. all_below 8 (set_row y j))) x set_table hx)
          hk)
        hl in
    (same_sound _ _ (ground arith), same_sound _ _ (ground arith), ground arith, ground arith)
