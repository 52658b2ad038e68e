-- ===== src/Nameval/Find.antt =====
-- nval_find: the record that it finds.
use whisper_yaffs.Prelude.{
  ℕ, zero, suc, ◌+◌, ◌<◌, ◌≤◌, ◌≡◌, ◌≢◌, refl, sym, ap, ◌∙◌, Bool, true, false, List, [], ◌∷◌,
  Option, none, some, if◌then◌else◌, length, get_or, drop, ltb, All, arith, Bool-cases, inl, inr,
}
use whisper_yaffs.Prelude.Slices.{get_or-drop}
use whisper_yaffs.Blocks.{sub32}
use whisper_yaffs.Nameval.{
  IntLayout, find_loop, record_here, nval_find, next_size, int_at, strncmp_equal,
}

-- Two strings that compare equal have the same bytes up to the NUL of the second one, as far as they
-- are compared.
strncmp_equal-bytes :
    (n : ℕ) (a b : List ℕ) (k : ℕ)
    → All (λ x. x ≢ 0) b
    → strncmp_equal n a b ≡ true
    → k < n
    → k ≤ length b
    → get_or a k 0 ≡ get_or b k 0
unfolding strncmp_equal
strncmp_equal-bytes zero a b k named same short inside = absurd (omega (arith, short))
strncmp_equal-bytes (suc n) a b zero named same short inside = ground (arith, same)
strncmp_equal-bytes (suc n) a [] (suc k) named same short inside = absurd (omega (arith, inside))
strncmp_equal-bytes (suc n) a (x ∷ b) (suc k) (first, named) same short inside =
    let rest : strncmp_equal n (drop 1 a) b ≡ true = ground (arith, same, first) in
    sym (get_or-drop 1 a k 0 ∙ ap (λ (i : ℕ). get_or a i 0) (omega arith))
    ∙ strncmp_equal-bytes n (drop 1 a) b k named rest (omega (arith, short)) (omega (arith, inside))

bytes-strncmp_equal :
    (n : ℕ) (a b : List ℕ)
    → ((k : ℕ) → k ≤ length b → get_or a k 0 ≡ get_or b k 0)
    → length b < n
    → strncmp_equal n a b ≡ true
unfolding strncmp_equal
bytes-strncmp_equal zero a b same long = absurd (omega (arith, long))
bytes-strncmp_equal (suc n) a [] same long =
    let first : get_or a 0 0 ≡ 0 = same 0 (omega arith) in rw first refl
bytes-strncmp_equal (suc n) a (x ∷ b) same long =
    let first : get_or a 0 0 ≡ x = same 0 (omega arith) in
    let rest : strncmp_equal n (drop 1 a) b ≡ true =
      bytes-strncmp_equal n (drop 1 a) b
        (λ k within.
          get_or-drop 1 a k 0
          ∙ ap (λ (i : ℕ). get_or a i 0) (omega arith)
          ∙ same (suc k) (omega (arith, within)))
        (omega (arith, long)) in
    ground (arith, first, rest)

module _ (layout : IntLayout) (xb name : List ℕ) where
  -- The records of the buffer, from one at `pos` of a size on: each but the last says where the next is.
  pub data Reaches : (pos size p s : ℕ) → Type 0 where
    arrived : {pos size : ℕ} → record_here layout xb pos size ≡ true → Reaches pos size pos size
    onward :
        {pos size p s : ℕ}
        → record_here layout xb pos size ≡ true
        → Reaches (pos + size) (next_size layout xb (pos + size)) p s
        → Reaches pos size p s

  -- A record that has the name and its NUL.
  abbrev pub IsNamed : (pos size : ℕ) → Type 0
  IsNamed pos size =
      (length name < size)
      × ((k : ℕ) → k ≤ length name → get_or xb (pos + 4 + k) 0 ≡ get_or name k 0)

  -- A record of the buffer, with its size as its first four bytes say, that has the name and its NUL,
  -- byte for byte as far as the record's size goes.
  pub record Holds (r : ℕ × ℕ) : Type 0 where
    pub positive : 0 < r.1
    pub inside : r.0 + r.1 < length xb
    pub sized : r.1 ≡ int_at layout xb r.0
    pub bytes : (k : ℕ) → k < r.1 → k ≤ length name → get_or xb (r.0 + 4 + k) 0 ≡ get_or name k 0

  -- What holds of the record that is found; where none is, no record of the buffer has the name.
  abbrev pub Finds : Option (ℕ × ℕ) → Type 0
  Finds none = (p s : ℕ) → Reaches 0 (int_at layout xb 0) p s → ¬ IsNamed p s
  Finds (some r) = Holds r

  abbrev HoldsIf : Option (ℕ × ℕ) → Type 0
  HoldsIf none = Unit
  HoldsIf (some r) = Holds r

  HoldsIf-if :
      (c : Bool) (x y : Option (ℕ × ℕ))
      → (c ≡ true → HoldsIf x)
      → HoldsIf y
      → HoldsIf (if c then x else y)
  HoldsIf-if true x y p q = p refl
  HoldsIf-if false x y p q = q

  next_size-int_at :
      (pos : ℕ)
      → record_here layout xb pos (next_size layout xb pos) ≡ true
      → next_size layout xb pos ≡ int_at layout xb pos
  unfolding next_size record_here
  next_size-int_at pos here = elim (Bool-cases (ltb pos (sub32 (length xb) 4))) [
    | inl room ↦ rw room refl
    | inr full ↦ absurd (ground (arith, here, full))
  ]

  find_loop-HoldsIf :
      (fuel pos size : ℕ)
      → All (λ x. x ≢ 0) name
      → (record_here layout xb pos size ≡ true → size ≡ int_at layout xb pos)
      → HoldsIf (find_loop layout fuel xb name pos size)
  unfolding find_loop
  find_loop-HoldsIf zero pos size named read = tt
  find_loop-HoldsIf (suc fuel) pos size named read =
      elim (Bool-cases (record_here layout xb pos size)) [
        | inr no_record ↦ simp (no_record, find_loop) tt
        | inl here ↦
            simp (here, find_loop)
              (HoldsIf-if (strncmp_equal size (drop (pos + 4) xb) name) (some (pos, size)) _
                (λ same. record {
                  positive = unfold record_here in ground (arith, here);
                  inside = unfold record_here in ground (arith, here);
                  sized = read here;
                  bytes = λ k short within.
                      sym (get_or-drop (pos + 4) xb k 0)
                      ∙ strncmp_equal-bytes size (drop (pos + 4) xb) name k named same short within;
                })
                (find_loop-HoldsIf fuel (pos + size) (next_size layout xb (pos + size)) named
                  (next_size-int_at (pos + size))))
      ]

  find_loop-reached :
      (fuel pos size p s : ℕ)
      → length xb < fuel + pos
      → Reaches pos size p s
      → IsNamed p s
      → (r : ℕ × ℕ) × (find_loop layout fuel xb name pos size ≡ some r)
  unfolding find_loop
  find_loop-reached zero pos size p s enough (arrived at) named =
      absurd (unfold record_here in ground (arith, at, enough))
  find_loop-reached zero pos size p s enough (onward at more) named =
      absurd (unfold record_here in ground (arith, at, enough))
  find_loop-reached (suc fuel) pos size _ _ enough (arrived at) named =
      let same =
        bytes-strncmp_equal size (drop (pos + 4) xb) name
          (λ k within. get_or-drop (pos + 4) xb k 0 ∙ named.1 k within) named.0 in
      ((pos, size), simp (at, same, find_loop) refl)
  find_loop-reached (suc fuel) pos size p s enough (onward at more) named =
      let positive : 0 < size = unfold record_here in ground (arith, at) in
      let (r, found) =
        find_loop-reached fuel (pos + size) (next_size layout xb (pos + size)) p s
          (omega (arith, enough, positive)) more named in
      elim (Bool-cases (strncmp_equal size (drop (pos + 4) xb) name)) [
        | inl same ↦ ((pos, size), simp (at, same, find_loop) refl)
        | inr differs ↦ (r, simp (at, differs, find_loop) found)
      ]

  -- A record that `nval_find` finds, for a name without a NUL in it, has a size above zero, the one that
  -- its first four bytes say, and ends before the buffer does. Behind the size it has the bytes of the
  -- name and a NUL, as far as the record's size goes. Where it finds none, no record of the buffer has the
  -- name and its NUL: no record that the sizes of the records lead to from the start of the buffer.
  pub nval_find-Finds : All (λ x. x ≢ 0) name → Finds (nval_find layout xb name)
  unfolding nval_find
  nval_find-Finds named =
      shown (nval_find layout xb name) refl
        (find_loop-HoldsIf (suc (length xb)) 0 (int_at layout xb 0) named (λ at. refl))
    where
      shown : (o : Option (ℕ × ℕ)) → nval_find layout xb name ≡ o → HoldsIf o → Finds o
      shown (some r) e h = h
      shown none e h = λ p s reaches is_named.
          let (r, found) =
            find_loop-reached (suc (length xb)) 0 (int_at layout xb 0) p s (omega arith) reaches
              is_named in
          absurd (ground (arith, sym found ∙ e))
