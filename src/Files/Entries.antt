-- ===== src/Files/Entries.antt =====
-- yaffs_guts.c: the entry of one chunk of a file is written, and the entries of all chunks are read.
use whisper_yaffs.Prelude.{
  ℕ, zero, suc, ◌/◌, ◌≤◌, ◌≡◌, refl, sym, ap, ◌∙◌, Bool, true, false, ◌||◌, arith, List, none, some,
  ◌==◌, ltb, inl, inr, if◌then◌else◌,
}
use whisper_yaffs.Tnode.Tree.{
  Tnode, FileStructure, slot, find_down, find_level0_tnode, max_chunk_id, tnodes_max_level,
  required_tallness,
}
use whisper_yaffs.Tnode.Tree.Digits.{agree, agree_same}
use whisper_yaffs.Tnode.Tree.Lookup.{extend}
use whisper_yaffs.Tnode.Tree.Height.{find_fit, find_misfit, fits}
use whisper_yaffs.Tnode.Tree.Add.{agree_tnode, elsewhere}
use whisper_yaffs.Tnode.{Packing, load_level0_tnode}
use whisper_yaffs.Files.{put_level0, load_entry}

-- The tnode of level 0 of a chunk is replaced: what is found then.
find-put_level0 :
    (l : ℕ) (tn : Tnode l) (c : ℕ) (words new : List ℕ) (c' : ℕ)
    → find_down l tn c ≡ some words
    → find_down l (put_level0 l tn c new) c'
      ≡ (if agree l c c' then some new else find_down l tn c')
unfolding find_down put_level0 agree
find-put_level0 zero none c words new c' there = absurd (ground (arith, there))
find-put_level0 zero (some old) c words new c' there = refl
find-put_level0 (suc l) none c words new c' there = absurd (ground (arith, there))
find-put_level0 (suc l) (some child) c words new c' there =
    extend l child c c' (put_level0 l (child (slot l c)) c new) (some new)
      (find_down l (child (slot l c)) c')
      (find-put_level0 l (child (slot l c)) c words new c' there) refl

-- Two chunks of one tnode take the same way down.
same_way :
    (l : ℕ) (tn : Tnode l) (c c' : ℕ) → agree l c c' ≡ true → find_down l tn c ≡ find_down l tn c'
unfolding find_down agree
same_way zero tn c c' a = refl
same_way (suc l) none c c' a = refl
same_way (suc l) (some child) c c' a =
    let digit : slot l c ≡ slot l c' = ground (arith, a) in
    ap (λ k. find_down l (child k) c) digit
    ∙ same_way l (child (slot l c')) c c' (ground (arith, a))

same_tallness : (c c' : ℕ) → c / 16 ≡ c' / 16 → required_tallness c ≡ required_tallness c'
unfolding required_tallness
same_tallness c c' e = rw e refl

pub find_same :
    (f : FileStructure) (c c' : ℕ)
    → (c' / 16 == c / 16) ≡ true
    → find_level0_tnode f c ≡ find_level0_tnode f c'
unfolding find_level0_tnode
find_same f c c' e =
    let tn : c / 16 ≡ c' / 16 = ground (arith, e) in
    let big : ltb max_chunk_id c ≡ ltb max_chunk_id c' = ground (arith, tn) in
    rw (big, same_tallness c c' tn)
      (ap
        (λ t.
          if ltb tnodes_max_level f.top_level
            || (ltb max_chunk_id c' || ltb f.top_level (required_tallness c'))
          then none
          else t)
        (same_way f.top_level f.top c c' (agree_same f.top_level c c' tn)))

-- An entry is written through the tnode that was found.
pub find-load_entry :
    (p : Packing) (f : FileStructure) (c v : ℕ) (words : List ℕ) (c' : ℕ)
    → f.top_level ≤ 6
    → find_level0_tnode f c ≡ some words
    → find_level0_tnode (load_entry p f words c v) c'
      ≡ (if c' / 16 == c / 16 then some (load_level0_tnode p words c v) else find_level0_tnode f c')
unfolding load_entry
find-load_entry p f c v words c' low there =
    let l = f.top_level in
    let new = load_level0_tnode p words c v in
    elim (fits l c) [
      | inr out ↦ absurd (ground (arith, there, find_misfit l f.top c out))
      | inl here ↦
          let at : find_down l f.top c ≡ some words = sym (find_fit l f.top c low here) ∙ there in
          elim (fits l c') [
            | inl here' ↦
                find_fit l (put_level0 l f.top c new) c' low here'
                ∙ find-put_level0 l f.top c words new c' at
                ∙ ap (λ (b : Bool). if b then some new else find_down l f.top c')
                    (agree_tnode l c c' here here')
                ∙ ap (λ (t : Tnode 0). if c' / 16 == c / 16 then some new else t)
                    (sym (find_fit l f.top c' low here'))
            | inr why ↦
                let other : (c' / 16 == c / 16) ≡ false = elsewhere l c c' here why in
                find_misfit l (put_level0 l f.top c new) c' why
                ∙ rw other (sym (find_misfit l f.top c' why))
          ]
    ]
