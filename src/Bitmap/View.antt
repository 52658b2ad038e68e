-- ===== src/Bitmap/View.antt =====
-- The bitmap as a set of chunks: where the bits of two chunks meet, and how each operation changes
-- the set.
use native.Mathlib.Nat.{mul-add-div, div-eq_of_lt}
use mathlib.Core.Path.{subst, ap₂}
use native.Mathlib.Decide.{ℕ_discrete}
use whisper_yaffs.Prelude.{
  ℕ, ◌+◌, ◌-◌, ◌*◌, ◌/◌, ◌%◌, ◌^◌, ◌≤◌, ◌<◌, bit_and, bit_or, ◌≡◌, refl, sym, ap, ◌∙◌, inl, inr,
  Bool, true, false, ◌&&◌, some, arith, ◌==◌, truthy, if◌then◌else◌, length, get_or, set, not8, All,
  IsByte, All-set, All-get_or, length-set, get_or-set_self, get_or-set_ne, Bool-cases,
}
use whisper_yaffs.Bits.{and_mask}
use whisper_yaffs.Bitmap.{
  Bitmap, chunk_byte, chunk_mask, clear_chunk_bit, set_chunk_bit, check_chunk_bit,
}
use whisper_yaffs.Bitmap.Bytes.{bit_lem}

pub record IsValid (m : Bitmap) : Type 0 where
  pub room : m.chunks_per_block ≤ m.stride * 8
  pub sized : length m.chunk_bits ≡ m.stride * (m.end_block + 1 - m.start_block)
  pub bytes : All IsByte m.chunk_bits

-- The pairs that the bitmap has a bit for.
pub record HasChunk (m : Bitmap) (b c : ℕ) : Type 0 where
  pub first : m.start_block ≤ b
  pub last : b ≤ m.end_block
  pub chunk : c < m.chunks_per_block

abbrev pub place : Bitmap → (b c : ℕ) → ℕ
place m b c = m.stride * (b - m.start_block) + c / 8

-- The set of chunks that the bits stand for.
unfoldable pub view : Bitmap → (b c : ℕ) → Bool
view m b c = truthy (bit_and (get_or m.chunk_bits (place m b c) 0) (2 ^ (c % 8)))

mask_lem : (c : ℕ) → chunk_mask c ≡ 2 ^ (c % 8)
unfolding chunk_mask
mask_lem c = rw (and_mask 3 c) (omega arith)

pub index_in_range : (s i n x : ℕ) → i < n → x < s → s * i + x < s * n
index_in_range s i n x p q = grind arith

quotient_lem : (s a x : ℕ) → x < s → (s * a + x) / s ≡ a
quotient_lem s a x p = mul-add-div (omega arith) a x ∙ omega (arith, div-eq_of_lt p)

place-injective : (s a b x y : ℕ) → x < s → y < s → s * a + x ≡ s * b + y → (a ≡ b) × (x ≡ y)
place-injective s a b x y p q e =
    let same_row : a ≡ b =
      sym (quotient_lem s a x p) ∙ ap (λ (t : ℕ). t / s) e ∙ quotient_lem s b y q in
    (same_row, omega (arith, ap (λ (t : ℕ). s * t) same_row))

module _ {m : Bitmap} {b c : ℕ} (v : IsValid m) (h : HasChunk m b c) where
  pub chunk_byte-place : chunk_byte m b c ≡ some (place m b c)
  unfolding chunk_byte
  chunk_byte-place = ground arith

  pub place-lt : place m b c < length m.chunk_bits
  place-lt = rw v.sized (
      index_in_range m.stride (b - m.start_block) (m.end_block + 1 - m.start_block) (c / 8)
        (omega arith) (omega arith))

  -- `yaffs_CheckChunkBit` reads the set.
  pub check_chunk_bit-view : check_chunk_bit m b c ≡ some (view m b c)
  unfolding check_chunk_bit view
  check_chunk_bit-view = rw (chunk_byte-place, check_chunk_bit) (rw (mask_lem c))

-- `m'` is `m` with the chunk `c` of block `b` put in or taken out.
pub record Updates (m : Bitmap) (b c : ℕ) (value : Bool) (m' : Bitmap) : Type 0 where
  pub start_block : m'.start_block ≡ m.start_block
  pub end_block : m'.end_block ≡ m.end_block
  pub chunks_per_block : m'.chunks_per_block ≡ m.chunks_per_block
  pub stride : m'.stride ≡ m.stride
  pub valid : IsValid m'
  pub views :
      (b' c' : ℕ)
      → HasChunk m b' c'
      → view m' b' c' ≡ (if b == b' && c == c' then value else view m b' c')

not_both : (b c b' c' : ℕ) → (b ≡ b' → c ≡ c' → ⊥) → (b == b' && c == c') ≡ false
not_both b c b' c' apart = elim (Bool-cases (b == b' && c == c')) [
  | inl both ↦ absurd (apart (ground arith) (ground arith))
  | inr other ↦ other
]

same_place :
    {m : Bitmap} {b c b' c' : ℕ}
    → IsValid m
    → HasChunk m b c
    → HasChunk m b' c'
    → place m b c ≡ place m b' c'
    → (b ≡ b') × (c / 8 ≡ c' / 8)
same_place {m} {b} {c} {b'} {c'} v h h' e =
    let parts =
      place-injective m.stride (b - m.start_block) (b' - m.start_block) (c / 8) (c' / 8)
        (omega arith) (omega arith) e in
    (omega (arith, parts.0), parts.1)

module _ {m : Bitmap} {b c : ℕ} (v : IsValid m) (h : HasChunk m b c) (value : Bool) (new : ℕ)
    (byte : new < 256)
    (bits : (l : ℕ)
      → l < 8
      → truthy (bit_and new (2 ^ l)) ≡ (
          if c % 8 == l
          then value
          else truthy (bit_and (get_or m.chunk_bits (place m b c) 0) (2 ^ l)))) where
  abbrev written : Bitmap
  written = record m { chunk_bits = set m.chunk_bits (place m b c) new }

  written-views :
      (b' c' : ℕ)
      → HasChunk m b' c'
      → view written b' c' ≡ (if b == b' && c == c' then value else view m b' c')
  unfolding view
  written-views b' c' h' = elim (ℕ_discrete (place m b c) (place m b' c')) [
    | yes e ↦
        let (eb, ec) = same_place v h h' e in
        subst
          (λ t.
            truthy (bit_and (get_or (set m.chunk_bits (place m b c) new) t 0) (2 ^ (c' % 8))) ≡ (
              if b == b' && c == c'
              then value
              else truthy (bit_and (get_or m.chunk_bits t 0) (2 ^ (c' % 8)))))
          e
          (rw
            (
              get_or-set_self m.chunk_bits (place m b c) new 0 (place-lt v h),
              bits (c' % 8) (omega arith),
            )
            (ground arith))
    | no ne ↦
        let apart : (b == b' && c == c') ≡ false =
          not_both b c b' c' (λ eb ec. ne (ap₂ (place m) eb ec)) in
        rw (get_or-set_ne m.chunk_bits (place m b c) (place m b' c') new 0 ne, apart)
  ]

  written-Updates : Updates m b c value written
  written-Updates = record {
    start_block = refl;
    end_block = refl;
    chunks_per_block = refl;
    stride = refl;
    valid = record {
      room = v.room;
      sized = length-set m.chunk_bits (place m b c) new ∙ v.sized;
      bytes = All-set IsByte m.chunk_bits (place m b c) new v.bytes byte;
    };
    views = written-views;
  }

module _ {m : Bitmap} {b c : ℕ} (v : IsValid m) (h : HasChunk m b c) where
  old-IsByte : get_or m.chunk_bits (place m b c) 0 < 256
  old-IsByte = All-get_or IsByte m.chunk_bits (place m b c) 0 v.bytes (omega arith)

  -- `yaffs_SetChunkBit` puts the chunk into the set, and changes no other.
  pub set_chunk_bit-Updates :
      (m' : Bitmap) × (set_chunk_bit m b c ≡ some m') × Updates m b c true m'
  unfolding set_chunk_bit
  set_chunk_bit-Updates =
      let x = get_or m.chunk_bits (place m b c) 0 in
      let k = c % 8 in
      (
        record m { chunk_bits = set m.chunk_bits (place m b c) (bit_or x (2 ^ k)) },
        rw (chunk_byte-place v h, set_chunk_bit) (rw (mask_lem c)),
        written-Updates v h true (bit_or x (2 ^ k))
            (bit_lem x k 0 old-IsByte (omega arith) (omega arith)).2
            (λ l q. (bit_lem x k l old-IsByte (omega arith) q).0),
      )

  -- `yaffs_ClearChunkBit` takes the chunk out of the set, and changes no other.
  pub clear_chunk_bit-Updates :
      (m' : Bitmap) × (clear_chunk_bit m b c ≡ some m') × Updates m b c false m'
  unfolding clear_chunk_bit
  clear_chunk_bit-Updates =
      let x = get_or m.chunk_bits (place m b c) 0 in
      let k = c % 8 in
      (
        record m { chunk_bits = set m.chunk_bits (place m b c) (bit_and x (not8 (2 ^ k))) },
        rw (chunk_byte-place v h, clear_chunk_bit) (rw (mask_lem c)),
        written-Updates v h false (bit_and x (not8 (2 ^ k)))
            (bit_lem x k 0 old-IsByte (omega arith) (omega arith)).3
            (λ l q. (bit_lem x k l old-IsByte (omega arith) q).1),
      )
