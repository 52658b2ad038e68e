-- ===== src/Compat/Little.antt =====
-- The layout of `yaffs_Tags` that compilers for little-endian machines choose: the fields fill two words
-- from their lowest bits on.
use whisper_yaffs.Prelude.{
  ℕ, ◌+◌, ◌*◌, ◌/◌, ◌%◌, ◌^◌, ◌<◌, bit_xor, ◌≡◌, refl, sym, ap, ◌∙◌, List, [], ◌∷◌, get_or, All,
  IsByte, arith, u8, ◌<<<◌,
}
use whisper_yaffs.Ecc.Block.{flip}
use whisper_yaffs.Tags.Yaffs1.Mend.{AreTags, IsOutside}
use whisper_yaffs.Compat.{Tags, Layout, ecc_of, with_ecc}
use whisper_yaffs.Compat.Bytes.{IsLayout, FitsFields}

abbrev low_word : Tags → ℕ
low_word t = t.chunk_id + t.serial_number * 2 ^ 20 + t.byte_count_lsb * 2 ^ 22

abbrev high_word : Tags → ℕ
high_word t = t.object_id + t.ecc * 2 ^ 18 + t.byte_count_msb * 2 ^ 30

abbrev word_at : List ℕ → ℕ → ℕ
word_at b i =
    get_or b i 0
    + get_or b (i + 1) 0 * 2 ^ 8
    + get_or b (i + 2) 0 * 2 ^ 16
    + get_or b (i + 3) 0 * 2 ^ 24

unfoldable pub little : Layout
little = record {
  as_bytes = λ t.
      (low_word t % 256)
      ∷ (low_word t / 2 ^ 8 % 256)
      ∷ (low_word t / 2 ^ 16 % 256)
      ∷ (low_word t / 2 ^ 24 % 256)
      ∷ (high_word t % 256)
      ∷ (high_word t / 2 ^ 8 % 256)
      ∷ (high_word t / 2 ^ 16 % 256)
      ∷ (high_word t / 2 ^ 24 % 256)
      ∷ [];
  as_tags = λ b. record {
    chunk_id = word_at b 0 % 2 ^ 20;
    serial_number = word_at b 0 / 2 ^ 20 % 2 ^ 2;
    byte_count_lsb = word_at b 0 / 2 ^ 22 % 2 ^ 10;
    object_id = word_at b 4 % 2 ^ 18;
    ecc = word_at b 4 / 2 ^ 18 % 2 ^ 12;
    byte_count_msb = word_at b 4 / 2 ^ 30 % 2 ^ 2;
  };
}

low_bytes :
    (w : ℕ)
    → w < 2 ^ 32
    → w % 256 + w / 2 ^ 8 % 256 * 2 ^ 8 + w / 2 ^ 16 % 256 * 2 ^ 16 + w / 2 ^ 24 % 256 * 2 ^ 24 ≡ w
low_bytes w h = omega arith

module _ (t : Tags) (fits : FitsFields t) where
  low : low_word t < 2 ^ 32
  low = omega (arith, fits.chunk_id, fits.serial_number, fits.byte_count_lsb)

  high : high_word t < 2 ^ 32
  high = omega (arith, fits.object_id, fits.ecc, fits.byte_count_msb)

  little_back : little.as_tags (little.as_bytes t) ≡ t
  unfolding little
  little_back =
      rw (low_bytes (low_word t) low, low_bytes (high_word t) high)
        (λ i. record {
          chunk_id = chunk_part i;
          serial_number = serial_part i;
          byte_count_lsb = lsb_part i;
          object_id = object_part i;
          ecc = ecc_part i;
          byte_count_msb = msb_part i;
        })
    where
      chunk_part : low_word t % 2 ^ 20 ≡ t.chunk_id
      chunk_part = omega (arith, fits.chunk_id)

      serial_part : low_word t / 2 ^ 20 % 2 ^ 2 ≡ t.serial_number
      serial_part = omega (arith, fits.chunk_id, fits.serial_number)

      lsb_part : low_word t / 2 ^ 22 % 2 ^ 10 ≡ t.byte_count_lsb
      lsb_part = omega (arith, fits.chunk_id, fits.serial_number, fits.byte_count_lsb)

      object_part : high_word t % 2 ^ 18 ≡ t.object_id
      object_part = omega (arith, fits.object_id)

      ecc_part : high_word t / 2 ^ 18 % 2 ^ 12 ≡ t.ecc
      ecc_part = omega (arith, fits.object_id, fits.ecc)

      msb_part : high_word t / 2 ^ 30 % 2 ^ 2 ≡ t.byte_count_msb
      msb_part = omega (arith, fits.object_id, fits.ecc, fits.byte_count_msb)

pub little-IsLayout : IsLayout little
unfolding little
little-IsLayout = record {
  bytes = λ t fits. (refl, omega arith);
  fields = λ b tags. record {
    chunk_id = omega arith;
    serial_number = omega arith;
    byte_count_lsb = omega arith;
    object_id = omega arith;
    ecc = omega arith;
    byte_count_msb = omega arith;
  };
  read_back = little_back;
  ones = refl;
}

module _ (b0 b1 b2 b3 : ℕ) (h0 : b0 < 256) (h1 : b1 < 256) (h2 : b2 < 256) (h3 : b3 < 256) where
  word : ℕ
  word = b0 + b1 * 2 ^ 8 + b2 * 2 ^ 16 + b3 * 2 ^ 24

  word_bytes :
      (word % 256 ≡ b0)
      × (word / 2 ^ 8 % 256 ≡ b1)
      × (word / 2 ^ 16 % 256 ≡ b2)
      × (word / 2 ^ 24 % 256 ≡ b3)
  unfolding word
  word_bytes = (omega arith, omega arith, omega arith, omega arith)

  low_fields :
      word % 2 ^ 20 + word / 2 ^ 20 % 2 ^ 2 * 2 ^ 20 + word / 2 ^ 22 % 2 ^ 10 * 2 ^ 22 ≡ word
  unfolding word
  low_fields = omega arith

  -- The bytes of the second word with another code.
  high_fields :
      (v : ℕ)
      → let w = word % 2 ^ 18 + v % 2 ^ 12 * 2 ^ 18 + word / 2 ^ 30 % 2 ^ 2 * 2 ^ 30 in
        (w % 256 ≡ b0)
        × (w / 2 ^ 8 % 256 ≡ b1)
        × (w / 2 ^ 16 % 256 ≡ b2 % 4 + v % 64 * 4)
        × (w / 2 ^ 24 % 256 ≡ v / 64 % 64 + b3 / 64 * 64)
  unfolding word
  high_fields v = (omega arith, omega arith, omega arith, omega arith)

-- The field stands in the last two bytes.
with_ecc-little :
    (b0 b1 b2 b3 b4 b5 b6 b7 v : ℕ)
    → All IsByte (b0 ∷ b1 ∷ b2 ∷ b3 ∷ b4 ∷ b5 ∷ b6 ∷ b7 ∷ [])
    → with_ecc little (b0 ∷ b1 ∷ b2 ∷ b3 ∷ b4 ∷ b5 ∷ b6 ∷ b7 ∷ []) v
      ≡ b0 ∷ b1 ∷ b2 ∷ b3 ∷ b4 ∷ b5 ∷ (b6 % 4 + v % 64 * 4) ∷ (v / 64 % 64 + b7 / 64 * 64) ∷ []
unfolding little word
with_ecc-little b0 b1 b2 b3 b4 b5 b6 b7 v h =
    let rest = h.1.1.1.1 in
    let low = word_bytes b0 b1 b2 b3 h.0 h.1.0 h.1.1.0 h.1.1.1.0 in
    let high = high_fields b4 b5 b6 b7 rest.0 rest.1.0 rest.1.1.0 rest.1.1.1.0 v in
    rw (
      low_fields b0 b1 b2 b3 h.0 h.1.0 h.1.1.0 h.1.1.1.0,
      low.0,
      low.1,
      low.2,
      low.3,
      high.0,
      high.1,
      high.2,
      high.3,
    )

-- The first bits of the tags are those of the chunk number.
pub little-IsOutside : (k : ℕ) → IsOutside (ecc_of little) (with_ecc little) 0 k
unfolding little flip
little-IsOutside k = record { unread = unread; unwritten = unwritten }
  where
    unread : (b : List ℕ) → AreTags b → ecc_of little (flip b 0 k) ≡ ecc_of little b
    unread [] tags = refl
    unread (x ∷ xs) tags = refl

    unwritten :
        (b : List ℕ) (v : ℕ)
        → AreTags b
        → with_ecc little (flip b 0 k) v ≡ flip (with_ecc little b v) 0 k
    unwritten (b0 ∷ b1 ∷ b2 ∷ b3 ∷ b4 ∷ b5 ∷ b6 ∷ b7 ∷ []) v tags =
        let x = u8 (bit_xor b0 (1 <<< k)) in
        let h = tags.1 in
        with_ecc-little x b1 b2 b3 b4 b5 b6 b7 v (omega arith, h.1)
        ∙ ap (λ (t : List ℕ). flip t 0 k) (sym (with_ecc-little b0 b1 b2 b3 b4 b5 b6 b7 v h))
    unwritten b v tags = absurd (omega arith)
