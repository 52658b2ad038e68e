-- ===== src/Tags/Tests.antt =====
-- The packed tags of a concrete header and chunk, and a layout of the packed tags.
use whisper_yaffs.Prelude.{
  ℕ, suc, ◌+◌, ◌*◌, ◌/◌, ◌%◌, ◌≡◌, ◌≢◌, refl, true, List, [], ◌∷◌, arith, length, All, IsByte,
  IsWord, get_or,
}
use whisper_yaffs.Ecc.Other.{calculate_other}
use whisper_yaffs.Ecc.Block.{flip}
use whisper_yaffs.Tags.{ExtendedTags, zero_tags, initialise_tags, fixed, no_error}
use whisper_yaffs.Ecc.Parity.{count_bits}
use whisper_yaffs.Tags.Yaffs1.{table_count_bits, table_count_bits-count_bits}
use whisper_yaffs.Tags.Packed1.{pack_tags1, unpack_tags1, unpack_tags1-pack_tags1}
use whisper_yaffs.Tags.Packed2.{
  TagsPart, Layout, IsPart, pack_tags_part, unpack_tags_part, unpack_tags2,
}
use whisper_yaffs.Tags.Packed2.Roundtrip.{IsExtraHeader, unpack-pack_plain, unpack-pack_extra}
use whisper_yaffs.Tags.Packed2.Protect.{damage, unpack_tags2-damage}

-- The bytes of a word from the lowest.
word_bytes : ℕ → List ℕ → List ℕ
word_bytes w rest = w % 256 ∷ w / 256 % 256 ∷ w / 65536 % 256 ∷ w / 16777216 % 256 ∷ rest

word_at : List ℕ → ℕ → ℕ
word_at xs i =
    get_or xs i 0
    + get_or xs (suc i) 0 * 256
    + get_or xs (suc (suc i)) 0 * 65536
    + get_or xs (suc (suc (suc i))) 0 * 16777216

part_bytes : TagsPart → List ℕ
unfolding word_bytes
part_bytes p =
    word_bytes p.sequence_number
      (word_bytes p.object_id (word_bytes p.chunk_id (word_bytes p.byte_count [])))

part_of : List ℕ → TagsPart
unfolding word_at
part_of xs = record {
  sequence_number = word_at xs 0;
  object_id = word_at xs 4;
  chunk_id = word_at xs 8;
  byte_count = word_at xs 12;
}

part_of-part_bytes : (p : TagsPart) → IsPart p → part_of (part_bytes p) ≡ p
unfolding part_of part_bytes
part_of-part_bytes p h = λ i. record {
  sequence_number = word_lem p.sequence_number h.0 i;
  object_id = word_lem p.object_id h.1 i;
  chunk_id = word_lem p.chunk_id h.2 i;
  byte_count = word_lem p.byte_count h.3 i;
}
  where
    word_lem :
        (w : ℕ)
        → IsWord w
        → w % 256 + w / 256 % 256 * 256 + w / 65536 % 256 * 65536 + w / 16777216 % 256 * 16777216
          ≡ w
    word_lem w q = omega arith

part_bytes-IsByte : (p : TagsPart) → All IsByte (part_bytes p)
unfolding part_bytes
part_bytes-IsByte p = omega arith

word_bytes-word :
    (a b c d : ℕ) (rest : List ℕ)
    → IsByte a
    → IsByte b
    → IsByte c
    → IsByte d
    → word_bytes (a + b * 256 + c * 65536 + d * 16777216) rest ≡ a ∷ b ∷ c ∷ d ∷ rest
unfolding word_bytes
word_bytes-word a b c d rest ha hb hc hd =
    let w = a + b * 256 + c * 65536 + d * 16777216 in
    let e0 : w % 256 ≡ a = omega arith in
    let e1 : w / 256 % 256 ≡ b = omega arith in
    let e2 : w / 65536 % 256 ≡ c = omega arith in
    let e3 : w / 16777216 % 256 ≡ d = omega arith in rw (e0, e1, e2, e3)

-- The first four bytes of a list that is long enough.
record Four (n : ℕ) (xs : List ℕ) : Type 0 where
  a : ℕ
  b : ℕ
  c : ℕ
  d : ℕ
  ys : List ℕ
  eq : xs ≡ a ∷ b ∷ c ∷ d ∷ ys
  ha : IsByte a
  hb : IsByte b
  hc : IsByte c
  hd : IsByte d
  len : length ys ≡ n
  rest : All IsByte ys

four : (n : ℕ) (xs : List ℕ) → length xs ≡ 4 + n → All IsByte xs → Four n xs
four n [] h q = absurd (omega arith)
four n (a ∷ []) h q = absurd (omega arith)
four n (a ∷ b ∷ []) h q = absurd (omega arith)
four n (a ∷ b ∷ c ∷ []) h q = absurd (omega arith)
four n (a ∷ b ∷ c ∷ d ∷ ys) h q = record {
  a = a;
  b = b;
  c = c;
  d = d;
  ys = ys;
  eq = refl;
  ha = q.0;
  hb = q.1.0;
  hc = q.1.1.0;
  hd = q.1.1.1.0;
  len = omega arith;
  rest = q.1.1.1.1;
}

empty_lem : (xs : List ℕ) → length xs ≡ 0 → xs ≡ []
empty_lem [] h = refl
empty_lem (x ∷ xs) h = absurd (omega arith)

part_bytes-part_of : (xs : List ℕ) → length xs ≡ 16 → All IsByte xs → part_bytes (part_of xs) ≡ xs
unfolding part_bytes part_of
part_bytes-part_of xs h q =
    let f = four 12 xs h q in
    let g = four 8 f.ys f.len f.rest in
    let k = four 4 g.ys g.len g.rest in
    let m = four 0 k.ys k.len k.rest in
    rw (f.eq, g.eq, k.eq, m.eq, empty_lem m.ys m.len)
      (rw (
        word_bytes-word m.a m.b m.c m.d [] m.ha m.hb m.hc m.hd,
        word_bytes-word k.a k.b k.c k.d _ k.ha k.hb k.hc k.hd,
        word_bytes-word g.a g.b g.c g.d _ g.ha g.hb g.hc g.hd,
        word_bytes-word f.a f.b f.c f.d _ f.ha f.hb f.hc f.hd,
      ))

length-part_bytes : (p : TagsPart) → length (part_bytes p) ≡ 16
unfolding part_bytes word_bytes
length-part_bytes p = refl

-- Little-endian words without padding.
abbrev little_endian : Layout
little_endian = record {
  bytes_of = part_bytes;
  of_bytes = part_of;
  length_bytes = length-part_bytes;
  byte_bytes = part_bytes-IsByte;
  of_bytes-bytes_of = part_of-part_bytes;
  bytes_of-of_bytes = part_bytes-part_of;
}

abbrev chunk_tags : ExtendedTags
chunk_tags = record zero_tags {
  object_id = 700;
  chunk_id = 5;
  byte_count = 2048;
  sequence_number = 4097;
}

abbrev header_tags : ExtendedTags
header_tags = record zero_tags {
  object_id = 700;
  sequence_number = 4097;
  extra_header_info_available = 1;
  extra_parent_object_id = 257;
  extra_is_shrink_header = 1;
  extra_object_type = 1;
  extra_file_length = 100000;
}

abbrev chunk_part : TagsPart
chunk_part = record { sequence_number = 4097; object_id = 700; chunk_id = 5; byte_count = 2048 }

chunk_tags1 : (pack_tags1 chunk_tags).object_id ≡ 700
unfolding pack_tags1
chunk_tags1 = refl

unpack_tags1-pack_tags1_example :
    unpack_tags1 zero_tags (pack_tags1 chunk_tags) ≡ record zero_tags {
      block_bad = 0;
      chunk_used = 1;
      object_id = 700;
      chunk_id = 5;
      byte_count = 0;
      ecc_result = no_error;
      chunk_deleted = 0;
      serial_number = 0;
    }
unpack_tags1-pack_tags1_example = unpack_tags1-pack_tags1 zero_tags chunk_tags

unpack-pack_plain_example : unpack_tags_part (pack_tags_part chunk_tags) ≡ record initialise_tags {
  chunk_used = 1;
  object_id = 700;
  chunk_id = 5;
  byte_count = 2048;
  sequence_number = 4097;
}
unpack-pack_plain_example = unpack-pack_plain chunk_tags refl (omega arith) (λ e. omega (arith, e))

header_tags-IsExtraHeader : IsExtraHeader header_tags
header_tags-IsExtraHeader = record {
  header = refl;
  available = refl;
  parent = omega arith;
  object = omega arith;
  type = omega arith;
}

unpack-pack_extra_example : unpack_tags_part (pack_tags_part header_tags) ≡ record initialise_tags {
  chunk_used = 1;
  object_id = 700;
  sequence_number = 4097;
  extra_header_info_available = 1;
  extra_parent_object_id = 257;
  extra_is_shrink_header = 1;
  extra_shadows = 0;
  extra_object_type = 1;
  extra_equivalent_object_id = 0;
  extra_file_length = 100000;
}
unpack-pack_extra_example =
    unpack-pack_extra header_tags header_tags-IsExtraHeader (λ e. omega (arith, e))

damaged_used : (damage little_endian chunk_part 9 3).sequence_number ≢ 0xFFFFFFFF
unfolding part_bytes part_of flip
damaged_used e = omega (arith, e)

unpack_tags2-damage_example :
    unpack_tags2 little_endian
      (record {
        t = damage little_endian chunk_part 9 3;
        ecc = calculate_other (part_bytes chunk_part) 16;
      })
      true
    ≡ (
      record (unpack_tags_part chunk_part) { ecc_result = fixed },
      record { t = chunk_part; ecc = calculate_other (part_bytes chunk_part) 16 },
    )
unpack_tags2-damage_example =
    unpack_tags2-damage little_endian chunk_part 9 3
      (omega arith, omega arith, omega arith, omega arith) (omega arith) (omega arith) damaged_used

table_count_bits-count_bits_example : table_count_bits 0xa7 ≡ count_bits 0xa7
table_count_bits-count_bits_example = table_count_bits-count_bits 0xa7 (omega arith)
