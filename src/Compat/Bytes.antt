-- ===== src/Compat/Bytes.antt =====
-- The tags in the spare area: what is known of the compiler's layout, and tags that are stored with
-- their code.
use whisper_yaffs.Prelude.{
  ℕ, ◌*◌, ◌/◌, ◌%◌, ◌^◌, ◌<◌, ◌>>>◌, bit_and, bit_or, ◌≡◌, ◌≢◌, refl, ap, ◌∙◌, true, false, List,
  [], ◌∷◌, leb, if◌then◌else◌, arith, length, replicate, Bool-cases, inl, inr,
}
use whisper_yaffs.Bits.{and_mask, or_comm, or_fields}
use whisper_yaffs.Tags.{ExtendedTags}
use whisper_yaffs.Tags.Yaffs1.{bytes_loop, calc_tags_ecc}
use whisper_yaffs.Tags.Yaffs1.Mend.{AreTags, IsField, calc-lt, calc-AreTags}
use whisper_yaffs.Compat.{Tags, Layout, ecc_of, with_ecc, are_ff, ff_bytes}
use whisper_yaffs.Compat.Access.{stored_tags, loaded_tags}

-- Every field fits its width.
pub record FitsFields (t : Tags) : Type 0 where
  pub chunk_id : t.chunk_id < 2 ^ 20
  pub serial_number : t.serial_number < 2 ^ 2
  pub byte_count_lsb : t.byte_count_lsb < 2 ^ 10
  pub object_id : t.object_id < 2 ^ 18
  pub ecc : t.ecc < 2 ^ 12
  pub byte_count_msb : t.byte_count_msb < 2 ^ 2

-- The fields fill the 8 bytes, bit by bit, and so bytes of ones are fields of ones.
pub record IsLayout (l : Layout) : Type 0 where
  pub bytes : (t : Tags) → FitsFields t → AreTags (l.as_bytes t)
  pub fields : (b : List ℕ) → AreTags b → FitsFields (l.as_tags b)
  pub read_back : (t : Tags) → FitsFields t → l.as_tags (l.as_bytes t) ≡ t
  pub ones : (l.as_tags ff_bytes).ecc ≡ 0xFFF

are_ff-eq : (b : List ℕ) → are_ff b ≡ true → b ≡ replicate (length b) 0xFF
unfolding are_ff
are_ff-eq [] all = refl
are_ff-eq (x ∷ xs) all =
    let first : x ≡ 0xFF = ground arith in
    let rest : are_ff xs ≡ true = ground arith in
    rw first (ap (λ (t : List ℕ). 0xFF ∷ t) (are_ff-eq xs rest))

module _ (l : Layout) (layout : IsLayout l) where
  put_ecc-FitsFields :
      (b : List ℕ) (v : ℕ) → AreTags b → FitsFields (record (l.as_tags b) { ecc = v % 2 ^ 12 })
  put_ecc-FitsFields b v tags =
      let f = layout.fields b tags in
      record {
        chunk_id = f.chunk_id;
        serial_number = f.serial_number;
        byte_count_lsb = f.byte_count_lsb;
        object_id = f.object_id;
        ecc = omega arith;
        byte_count_msb = f.byte_count_msb;
      }

  as_tags-with_ecc :
      (b : List ℕ) (v : ℕ)
      → AreTags b
      → l.as_tags (with_ecc l b v) ≡ record (l.as_tags b) { ecc = v % 2 ^ 12 }
  as_tags-with_ecc b v tags = layout.read_back _ (put_ecc-FitsFields b v tags)

  -- The code is a field of 12 bits.
  pub layout-IsField : IsField (ecc_of l) (with_ecc l)
  layout-IsField = record {
    stored = λ b v tags. layout.bytes _ (put_ecc-FitsFields b v tags);
    kept = λ b v tags. ap (λ (t : Tags). t.ecc) (as_tags-with_ecc b v tags);
    replaced = λ b v w tags.
        ap (λ (t : Tags). l.as_bytes (record t { ecc = w % 2 ^ 12 })) (as_tags-with_ecc b v tags);
  }

  -- No tags with their code are eight bytes of ones.
  pub calc-not_ff : (b : List ℕ) → AreTags b → calc_tags_ecc (ecc_of l) (with_ecc l) b ≢ ff_bytes
  calc-not_ff b tags same =
      let low = calc-lt (ecc_of l) (with_ecc l) layout-IsField b tags in
      omega (arith, ap (ecc_of l) same, layout.ones, low)

  as_tags-calc :
      (t : Tags)
      → FitsFields t
      → (v : ℕ) × (l.as_tags (calc_tags_ecc (ecc_of l) (with_ecc l) (l.as_bytes t))
          ≡ record t { ecc = v })
  unfolding calc_tags_ecc
  as_tags-calc t fits =
      let v = bytes_loop (with_ecc l (l.as_bytes t) 0) 0 0 in
      (
        v % 2 ^ 12,
        as_tags-with_ecc (l.as_bytes t) v (layout.bytes t fits)
            ∙ ap (λ (u : Tags). record u { ecc = v % 2 ^ 12 }) (layout.read_back t fits),
      )

  pub stored_tags-FitsFields : (n : ℕ) (t : ExtendedTags) → FitsFields (stored_tags n t)
  unfolding stored_tags
  stored_tags-FitsFields n t =
      let low : bit_and t.byte_count 0x3ff < 2 ^ 10 = omega (arith, and_mask 10 t.byte_count) in
      let high : bit_and (t.byte_count >>> 10) 3 < 2 ^ 2 =
        omega (arith, and_mask 2 (t.byte_count >>> 10)) in
      record {
        chunk_id = omega arith;
        serial_number = omega arith;
        byte_count_lsb = low;
        object_id = omega arith;
        ecc = omega arith;
        byte_count_msb =
            elim (leb 1024 n) as (λ b. (if b then bit_and (t.byte_count >>> 10) 3 else 3) < 2 ^ 2) [
              | true ↦ high
              | false ↦ omega arith
            ];
      }

  -- What is loaded of the tags that are stored.
  pub loaded-stored :
      (n : ℕ) (e t : ExtendedTags)
      → loaded_tags n e
          (l.as_tags (calc_tags_ecc (ecc_of l) (with_ecc l) (l.as_bytes (stored_tags n t))))
        ≡ record e {
          object_id = t.object_id % 2 ^ 18;
          chunk_id = t.chunk_id % 2 ^ 20;
          byte_count = if leb 1024 n then t.byte_count % 2 ^ 12 else t.byte_count % 2 ^ 10;
          serial_number = t.serial_number % 2 ^ 2;
        }
  unfolding loaded_tags stored_tags
  loaded-stored n e t =
      let (v, back) = as_tags-calc (stored_tags n t) (stored_tags-FitsFields n t) in
      let low : bit_and t.byte_count 0x3ff ≡ t.byte_count % 2 ^ 10 = and_mask 10 t.byte_count in
      let high : bit_and (t.byte_count >>> 10) 3 ≡ t.byte_count / 2 ^ 10 % 4 =
        and_mask 2 (t.byte_count >>> 10) in
      let both : bit_or (t.byte_count % 2 ^ 10) (t.byte_count / 2 ^ 10 % 4 * 2 ^ 10)
          ≡ t.byte_count % 2 ^ 12 =
        or_comm (t.byte_count % 2 ^ 10) (t.byte_count / 2 ^ 10 % 4 * 2 ^ 10)
        ∙ or_fields 10 (t.byte_count / 2 ^ 10 % 4) (t.byte_count % 2 ^ 10) (omega arith)
        ∙ omega arith in
      elim (Bool-cases (leb 1024 n)) [
        | inl large ↦ rw (back, large, low, high, both)
        | inr small ↦ rw (back, small, low)
      ]

  pub are_ff-calc :
      (b : List ℕ) → AreTags b → are_ff (calc_tags_ecc (ecc_of l) (with_ecc l) b) ≡ false
  are_ff-calc b tags =
      let stored = calc_tags_ecc (ecc_of l) (with_ecc l) b in
      elim (Bool-cases (are_ff stored)) [
        | inl all ↦
            let long : length stored ≡ 8 =
              (calc-AreTags (ecc_of l) (with_ecc l) layout-IsField b tags).0 in
            absurd
              (calc-not_ff b tags (are_ff-eq stored all ∙ ap (λ (n : ℕ). replicate n 0xFF) long))
        | inr some_other ↦ some_other
      ]
