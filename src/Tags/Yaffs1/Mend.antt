-- ===== src/Tags/Yaffs1/Mend.antt =====
-- What `yaffs_CheckECCOnTags` makes of one wrong bit.
use native.Mathlib.Nat.{mod-eq_of_lt}
use whisper_yaffs.Bits.{
  xor-lt, xor_cancel, xor_delta, xor_comm, and_mask, two_pow-lt, two_pow_pos, xor_self,
}
use whisper_yaffs.Prelude.{
  ℕ, ◌+◌, ◌-◌, ◌*◌, ◌/◌, ◌%◌, ◌^◌, ◌≤◌, ◌<◌, bit_and, bit_xor, ◌≡◌, sym, ap, ◌∙◌, true, ◌&&◌, List,
  truthy, leb, ◌==◌, ==_iff, Bool-cases, inl, inr, arith, length, All, IsByte,
}
use whisper_yaffs.Ecc.Block.{clean, corrected, flip}
use whisper_yaffs.Ecc.Block.Single.{flip_lem, flip-IsByte, flip-length, flip-flip}
use whisper_yaffs.Tags.Yaffs1.{bytes_loop, calc_tags_ecc, check_ecc_on_tags}
use whisper_yaffs.Tags.Yaffs1.Flip.{bytes_loop-set, bytes_loop-lt}

-- The 8 bytes of tags.
abbrev pub AreTags : List ℕ → Type 0
AreTags b = (length b ≡ 8) × All IsByte b

-- The field of the code is one of 12 bits in 8 bytes, which keeps what is stored.
pub record IsField (ecc_of : List ℕ → ℕ) (with_ecc : List ℕ → ℕ → List ℕ) : Type 0 where
  pub stored : (b : List ℕ) (v : ℕ) → AreTags b → AreTags (with_ecc b v)
  pub kept : (b : List ℕ) (v : ℕ) → AreTags b → ecc_of (with_ecc b v) ≡ v % 2 ^ 12
  pub replaced : (b : List ℕ) (v w : ℕ) → AreTags b → with_ecc (with_ecc b v) w ≡ with_ecc b w

-- Bit `k` of byte `i` is not in the field.
pub record IsOutside (ecc_of : List ℕ → ℕ) (with_ecc : List ℕ → ℕ → List ℕ) (i k : ℕ) : Type 0 where
  pub unread : (b : List ℕ) → AreTags b → ecc_of (flip b i k) ≡ ecc_of b
  pub unwritten :
      (b : List ℕ) (v : ℕ) → AreTags b → with_ecc (flip b i k) v ≡ flip (with_ecc b v) i k

-- What the loops of `yaffs_CalcTagsECC` give for tags.
abbrev code : (with_ecc : List ℕ → ℕ → List ℕ) → List ℕ → ℕ
code with_ecc b = bytes_loop (with_ecc b 0) 0 0

power_bound : (t : ℕ) → t < 7 → 2 ^ t ≤ 64
power_bound t h = elim (Bool-cases (t == 6)) [
  | inl last ↦ let six : t ≡ 6 = (==_iff t 6).0 last in rw six (omega arith)
  | inr below ↦ let small : t < 6 = ground arith in omega (arith, two_pow-lt t 6 small)
]

truthy_suc : (p : ℕ) → 0 < p → p ≤ 64 → (truthy p && leb p 64) ≡ true
truthy_suc p some small = ground arith

module _ (ecc_of : List ℕ → ℕ) (with_ecc : List ℕ → ℕ → List ℕ)
    (field : IsField ecc_of with_ecc) where
  code-lt : (b : List ℕ) → AreTags b → code with_ecc b < 2 ^ 7
  code-lt b tags =
      bytes_loop-lt 7 (with_ecc b 0) 0 0 (omega arith) (omega (arith, (field.stored b 0 tags).0))

  -- The code is below 128, so the field holds it.
  ecc_of-with : (b : List ℕ) (v : ℕ) → AreTags b → v < 2 ^ 7 → ecc_of (with_ecc b v) ≡ v
  ecc_of-with b v tags small = field.kept b v tags ∙ mod-eq_of_lt (omega arith)

  code-with : (b : List ℕ) (v : ℕ) → AreTags b → code with_ecc (with_ecc b v) ≡ code with_ecc b
  code-with b v tags = ap (λ (t : List ℕ). bytes_loop t 0 0) (field.replaced b v 0 tags)

  calc-with :
      (b : List ℕ) (v : ℕ)
      → AreTags b
      → calc_tags_ecc ecc_of with_ecc (with_ecc b v) ≡ calc_tags_ecc ecc_of with_ecc b
  unfolding calc_tags_ecc
  calc-with b v tags =
      field.replaced b v (code with_ecc (with_ecc b v)) tags ∙ ap (with_ecc b) (code-with b v tags)

  module _ (i k : ℕ) (hi : i < 8) (hk : k < 8) (outside : IsOutside ecc_of with_ecc i k) where
    flip-AreTags : (b : List ℕ) → AreTags b → AreTags (flip b i k)
    flip-AreTags b tags = (flip-length b i k ∙ tags.0, flip-IsByte b i k tags.1)

    code-flip :
        (b : List ℕ)
        → AreTags b
        → code with_ecc (flip b i k) ≡ bit_xor (code with_ecc b) (0 + i * 8 + k + 1)
    code-flip b tags =
        let cleared = field.stored b 0 tags in
        ap (λ (t : List ℕ). bytes_loop t 0 0)
          (outside.unwritten b 0 tags ∙ flip_lem (with_ecc b 0) i k cleared.1 hk)
        ∙ bytes_loop-set (with_ecc b 0) i k 0 0 (omega (arith, cleared.0)) hk

    -- Tags whose code differs from the one stored by a position have the bit there flipped.
    check-differs :
        (b : List ℕ)
        → AreTags b
        → ecc_of b ≡ bit_xor (code with_ecc b) (i * 8 + k + 1)
        → check_ecc_on_tags ecc_of with_ecc b
          ≡ (corrected, calc_tags_ecc ecc_of with_ecc (flip b i k))
    unfolding check_ecc_on_tags calc_tags_ecc
    check-differs b tags differs =
        let c = code with_ecc b in
        let p = i * 8 + k + 1 in
        let found : bit_xor (ecc_of b) (ecc_of (with_ecc b c)) ≡ p =
          ap (bit_xor (ecc_of b)) (ecc_of-with b c tags (code-lt b tags))
          ∙ ap (λ (t : ℕ). bit_xor t c) differs
          ∙ xor_comm (bit_xor c p) c
          ∙ xor_delta c p in
        let byte : (p - 1) / 8 ≡ i = omega arith in
        let bit : bit_and (p - 1) 7 ≡ k = and_mask 3 (p - 1) ∙ omega arith in
        rw (found, truthy_suc p (omega arith) (omega arith), byte, bit)
          (ap (λ (t : List ℕ). (corrected, calc_tags_ecc ecc_of with_ecc t))
              (sym (outside.unwritten b c tags))
            ∙ ap (λ (t : List ℕ). (corrected, t)) (calc-with (flip b i k) c (flip-AreTags b tags)))

module _ (ecc_of : List ℕ → ℕ) (with_ecc : List ℕ → ℕ → List ℕ) (field : IsField ecc_of with_ecc)
    (b : List ℕ) (tags : AreTags b) where
  ecc_of-calc : ecc_of (calc_tags_ecc ecc_of with_ecc b) ≡ code with_ecc b
  unfolding calc_tags_ecc
  ecc_of-calc =
      ecc_of-with ecc_of with_ecc field b (code with_ecc b) tags
        (code-lt ecc_of with_ecc field b tags)

  pub calc-lt : ecc_of (calc_tags_ecc ecc_of with_ecc b) < 2 ^ 7
  calc-lt = rw ecc_of-calc (code-lt ecc_of with_ecc field b tags)

  pub calc-AreTags : AreTags (calc_tags_ecc ecc_of with_ecc b)
  unfolding calc_tags_ecc
  calc-AreTags = field.stored b (code with_ecc b) tags

  pub calc-calc :
      calc_tags_ecc ecc_of with_ecc (calc_tags_ecc ecc_of with_ecc b)
      ≡ calc_tags_ecc ecc_of with_ecc b
  unfolding calc_tags_ecc
  calc-calc = calc-with ecc_of with_ecc field b (code with_ecc b) tags

  -- Tags as they were stored are clean.
  pub check-calc :
      check_ecc_on_tags ecc_of with_ecc (calc_tags_ecc ecc_of with_ecc b)
      ≡ (clean, calc_tags_ecc ecc_of with_ecc b)
  unfolding check_ecc_on_tags
  check-calc = rw (calc-calc, xor_self (ecc_of (calc_tags_ecc ecc_of with_ecc b)))

-- Tags that are stored with their code, and read back with one wrong bit outside the field of the
-- code, are mended: `yaffs_CheckECCOnTags` reports a corrected error and leaves the tags with their
-- code as they were stored. The field is one of 12 bits, wherever the compiler puts it.
pub check_ecc_on_tags-flip :
    (ecc_of : List ℕ → ℕ) (with_ecc : List ℕ → ℕ → List ℕ) (b : List ℕ) (i k : ℕ)
    → IsField ecc_of with_ecc
    → IsOutside ecc_of with_ecc i k
    → AreTags b
    → i < 8
    → k < 8
    → let stored = calc_tags_ecc ecc_of with_ecc b in
      check_ecc_on_tags ecc_of with_ecc (flip stored i k) ≡ (corrected, stored)
unfolding calc_tags_ecc
check_ecc_on_tags-flip ecc_of with_ecc b i k field outside tags hi hk =
    let c = code with_ecc b in
    let p = i * 8 + k + 1 in
    let stored = with_ecc b c in
    let held = field.stored b c tags in
    let start : 0 + i * 8 + k + 1 ≡ p = omega arith in
    let fresh : code with_ecc (flip stored i k) ≡ bit_xor c p =
      code-flip ecc_of with_ecc field i k hi hk outside stored held
      ∙ ap (bit_xor (code with_ecc stored)) start
      ∙ ap (λ (t : ℕ). bit_xor t p) (code-with ecc_of with_ecc field b c tags) in
    let differs : ecc_of (flip stored i k) ≡ bit_xor (code with_ecc (flip stored i k)) p =
      outside.unread stored held
      ∙ ecc_of-with ecc_of with_ecc field b c tags (code-lt ecc_of with_ecc field b tags)
      ∙ sym (xor_cancel c p)
      ∙ ap (λ (t : ℕ). bit_xor t p) (sym fresh) in
    check-differs ecc_of with_ecc field i k hi hk outside (flip stored i k)
      (flip-AreTags ecc_of with_ecc field i k hi hk outside stored held) differs
    ∙ ap (λ (t : List ℕ). (corrected, calc_tags_ecc ecc_of with_ecc t))
        (flip-flip stored i k held.1 (omega (arith, held.0)) hk)
    ∙ ap (λ (t : List ℕ). (corrected, t)) (calc-with ecc_of with_ecc field b c tags)

-- Tags that are stored with their code, and read back with digit `t` of the code wrong, for a `t`
-- below 7: `yaffs_CheckECCOnTags` reports a corrected error, but has flipped bit `2 ^ t - 1` of the
-- tags, which was right. This is where that bit, bit `k` of byte `i`, is outside the field.
pub check_ecc_on_tags-flip_code :
    (ecc_of : List ℕ → ℕ) (with_ecc : List ℕ → ℕ → List ℕ) (b : List ℕ) (t i k : ℕ)
    → IsField ecc_of with_ecc
    → IsOutside ecc_of with_ecc i k
    → AreTags b
    → t < 7
    → i * 8 + k ≡ 2 ^ t - 1
    → k < 8
    → let stored = calc_tags_ecc ecc_of with_ecc b in
      check_ecc_on_tags ecc_of with_ecc (with_ecc stored (bit_xor (ecc_of stored) (2 ^ t)))
      ≡ (corrected, calc_tags_ecc ecc_of with_ecc (flip b i k))
unfolding calc_tags_ecc
check_ecc_on_tags-flip_code ecc_of with_ecc b t i k field outside tags ht place hk =
    let c = code with_ecc b in
    let stored = with_ecc b c in
    let held = field.stored b c tags in
    let low : c < 2 ^ 7 = code-lt ecc_of with_ecc field b tags in
    let e : ecc_of stored ≡ c = ecc_of-with ecc_of with_ecc field b c tags low in
    let v = bit_xor (ecc_of stored) (2 ^ t) in
    let small : v < 2 ^ 7 = xor-lt 7 (ecc_of stored) (2 ^ t) (rw e low) (two_pow-lt t 7 ht) in
    let p : i * 8 + k + 1 ≡ 2 ^ t = omega (arith, two_pow_pos t) in
    let hi : i < 8 = omega (arith, p, power_bound t ht) in
    let wrong = with_ecc stored v in
    let again : code with_ecc wrong ≡ c =
      code-with ecc_of with_ecc field stored v held ∙ code-with ecc_of with_ecc field b c tags in
    let differs : ecc_of wrong ≡ bit_xor (code with_ecc wrong) (i * 8 + k + 1) =
      ecc_of-with ecc_of with_ecc field stored v held small
      ∙ ap (λ (x : ℕ). bit_xor x (2 ^ t)) (e ∙ sym again)
      ∙ ap (bit_xor (code with_ecc wrong)) (sym p) in
    let whole : flip wrong i k ≡ with_ecc (flip b i k) v =
      ap (λ (x : List ℕ). flip x i k) (field.replaced b c v tags)
      ∙ sym (outside.unwritten b v tags) in
    check-differs ecc_of with_ecc field i k hi hk outside wrong (field.stored stored v held) differs
    ∙ ap (λ (x : List ℕ). (corrected, calc_tags_ecc ecc_of with_ecc x)) whole
    ∙ ap (λ (x : List ℕ). (corrected, x))
        (calc-with ecc_of with_ecc field (flip b i k) v
          (flip-AreTags ecc_of with_ecc field i k hi hk outside b tags))
