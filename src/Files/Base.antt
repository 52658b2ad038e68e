-- ===== src/Files/Base.antt =====
-- yaffs_guts.c: what the tnodes of a file say of its chunks, before and after an entry is written.
use native.Mathlib.Nat.{zero-div, zero-mod}
use whisper_yaffs.Bits.{and_mask, or-zero_right}
use whisper_yaffs.Prelude.{
  ℕ, zero, suc, ◌+◌, ◌-◌, ◌*◌, ◌/◌, ◌%◌, ◌^◌, ◌≤◌, ◌<◌, ◌<<<◌, ◌>>>◌, bit_and, bit_or, ◌≡◌, refl,
  sym, ap, ◌∙◌, Bool, true, false, arith, List, none, some, ◌==◌, ltb, Bool-cases, ◌⊎◌, inl, inr,
  if◌then◌else◌, get_or, replicate, length, u32, All, IsWord, All-replicate, length-replicate,
  some-injective,
}
use whisper_yaffs.Tnode.{Packing, tnodes_level0_mask, load_level0_tnode, get_chunk_group_base}
use whisper_yaffs.Tnode.Roundtrip.{packing, get-load}
use whisper_yaffs.Tnode.Tree.{Tnode, FileStructure, find_level0_tnode}
use whisper_yaffs.Files.{load_entry}
use whisper_yaffs.Files.Entries.{find_same, find-load_entry}

-- What the tnode of a chunk says of it: 0 where there is no tnode.
unfoldable pub base : Packing → Tnode 0 → ℕ → ℕ
base p none c = 0
base p (some words) c = get_chunk_group_base p words c

get_or-replicate : (n k : ℕ) → get_or {A = ℕ} (replicate n 0) k 0 ≡ 0
get_or-replicate zero k = refl
get_or-replicate (suc n) zero = refl
get_or-replicate (suc n) (suc k) = get_or-replicate n k

zero_bits :
    (b r : ℕ) (split : Bool) → (if split then bit_or (0 >>> b) (u32 (0 <<< r)) else (0 >>> b)) ≡ 0
zero_bits b r true =
    let high : u32 (0 <<< r) ≡ 0 = omega arith in rw (zero-div (2 ^ b), high) (or-zero_right 0)
zero_bits b r false = zero-div (2 ^ b)

base_cleared : (w g n c : ℕ) → base (packing w g) (some (replicate n 0)) c ≡ 0
unfolding base get_chunk_group_base
base_cleared w g n c =
    let p = u32 (bit_and c tnodes_level0_mask * w) in
    let b = bit_and p 31 in
    rw
      (
        get_or-replicate n (p / 32),
        get_or-replicate n (p / 32 + 1),
        zero_bits b (32 - b) (ltb (32 - b) w),
        and_mask w 0,
        zero-mod (2 ^ w),
      )
      (omega arith)

-- Memory of a tnode that has the words for 16 entries of `w` digits.
abbrev pub HasRoom : (w : ℕ) → List ℕ → Type 0
HasRoom w words = All IsWord words × (w ≤ 2 * length words)

-- A tnode that was there or is new, with `n` words.
abbrev pub Given : FileStructure → (n c : ℕ) → Tnode 0 → Type 0
Given f n c t =
    (t ≡ find_level0_tnode f c) ⊎ ((find_level0_tnode f c ≡ none) × (t ≡ some (replicate n 0)))

module _ (w g : ℕ) (f : FileStructure) (n c : ℕ) where
  pub Given-HasRoom :
      (words : List ℕ)
      → Given f n c (some words)
      → ((old : List ℕ) → find_level0_tnode f c ≡ some old → HasRoom w old)
      → w ≤ 2 * n
      → HasRoom w words
  Given-HasRoom words (inl same) old room = old words (sym same)
  Given-HasRoom words (inr (missing, new)) old room =
      let e : words ≡ replicate n 0 = some-injective new in
      let blank : ℕ = 0 in
      rw e (All-replicate IsWord n 0 (omega arith), omega (arith, room, length-replicate n blank))

  -- The entries that it has are those that were found before.
  pub Given-base :
      (words : List ℕ) (c' : ℕ)
      → Given f n c (some words)
      → (c' / 16 == c / 16) ≡ true
      → base (packing w g) (some words) c' ≡ base (packing w g) (find_level0_tnode f c') c'
  unfolding base
  Given-base words c' (inl same) e =
      ap (λ (t : Tnode 0). base (packing w g) t c') (same ∙ find_same f c c' e)
  Given-base words c' (inr (missing, new)) e =
      ap (λ (t : Tnode 0). base (packing w g) t c') new
      ∙ base_cleared w g n c'
      ∙ ap (λ (t : Tnode 0). base (packing w g) t c') (sym missing ∙ find_same f c c' e)

-- Chunks of one tnode are told apart by their entries.
same_entry : (c c' : ℕ) → (c' / 16 == c / 16) ≡ true → (c' % 16 == c % 16) ≡ (c' == c)
same_entry c c' same = elim (Bool-cases (c' % 16 == c % 16)) [
  | inl e ↦ let equal : (c' == c) ≡ true = ground (arith, same, e) in e ∙ sym equal
  | inr e ↦ let differ : (c' == c) ≡ false = ground (arith, same, e) in e ∙ sym differ
]

-- The entries of a file after one is written.
pub base-load_entry :
    (w g : ℕ) (f f1 : FileStructure) (n c k c' : ℕ) (words : List ℕ)
    → 0 < w
    → w ≤ 32
    → f1.top_level ≤ 6
    → HasRoom w words
    → Given f n c (some words)
    → find_level0_tnode f1 c ≡ some words
    → find_level0_tnode f1 c' ≡ (if c' / 16 == c / 16 then some words else find_level0_tnode f c')
    → base (packing w g) (find_level0_tnode (load_entry (packing w g) f1 words c k) c') c' ≡ (
        if c' == c
        then u32 (((k >>> g) % 2 ^ w) <<< g)
        else base (packing w g) (find_level0_tnode f c') c')
unfolding base
base-load_entry w g f f1 n c k c' words positive narrow low room given here there =
    let p = packing w g in
    let written = find-load_entry p f1 c k words c' low here in
    elim (Bool-cases (c' / 16 == c / 16)) [
      | inl same ↦
          let digit : (c' % 16 == c % 16) ≡ (c' == c) = same_entry c c' same in
          ap (λ (t : Tnode 0). base p t c')
            (written
              ∙ ap
                  (λ (b : Bool).
                    if b then some (load_level0_tnode p words c k) else find_level0_tnode f1 c')
                  same)
          ∙ get-load w g words c k c' positive narrow room.0 room.1
          ∙ rw digit (
              ap (λ (x : ℕ). if c' == c then u32 (((k >>> g) % 2 ^ w) <<< g) else x)
                (Given-base w g f n c words c' given same))
      | inr differs ↦
          let other : (c' == c) ≡ false = ground (arith, differs) in
          ap (λ (t : Tnode 0). base p t c')
            (written
              ∙ ap
                  (λ (b : Bool).
                    if b then some (load_level0_tnode p words c k) else find_level0_tnode f1 c')
                  differs
              ∙ there
              ∙ ap (λ (b : Bool). if b then some words else find_level0_tnode f c') differs)
          ∙ rw other refl
    ]
