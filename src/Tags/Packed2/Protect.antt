-- ===== src/Tags/Packed2/Protect.antt =====
-- The code over the packed tags: one wrong bit in the 16 bytes is mended.
use whisper_yaffs.Prelude.{ℕ, ◌<◌, ◌≡◌, ◌≢◌, ◌∙◌, true, false, arith, ◌==◌}
use whisper_yaffs.Ecc.Block.{flip}
use whisper_yaffs.Ecc.Block.Single.{flip-IsByte, flip-length}
use whisper_yaffs.Ecc.Other.{calculate_other}
use whisper_yaffs.Ecc.Other.Single.{correct_other-flip}
use whisper_yaffs.Tags.{fixed}
use whisper_yaffs.Tags.Packed2.{TagsPart, Layout, IsPart, unpack_tags_part, unpack_tags2}

module _ (layout : Layout) where
  open layout use {
    bytes_of, of_bytes, length_bytes, byte_bytes, of_bytes-bytes_of, bytes_of-of_bytes,
  }

  -- The tags part with one bit of its bytes flipped.
  abbrev pub damage : TagsPart → (byte bit : ℕ) → TagsPart
  damage p j k = of_bytes (flip (bytes_of p) j k)

  -- Packed tags that were written with their code, and read back with one wrong bit that does not make
  -- them look erased, are unpacked as they were written and reported as fixed.
  pub unpack_tags2-damage :
      (p : TagsPart) (j k : ℕ)
      → IsPart p
      → j < 16
      → k < 8
      → (damage p j k).sequence_number ≢ 0xFFFFFFFF
      → let ecc = calculate_other (bytes_of p) 16 in
        unpack_tags2 layout (record { t = damage p j k; ecc = ecc }) true
        ≡ (record (unpack_tags_part p) { ecc_result = fixed }, record { t = p; ecc = ecc })
  unfolding unpack_tags2
  unpack_tags2-damage p j k words hj hk used =
      let xs = bytes_of p in
      let raw =
        bytes_of-of_bytes (flip xs j k) (flip-length xs j k ∙ length_bytes p)
          (flip-IsByte xs j k (byte_bytes p)) in
      let clear : ((damage p j k).sequence_number == 0xFFFFFFFF) ≡ false = ground arith in
      rw (
        clear,
        raw,
        correct_other-flip xs 16 j k (omega (arith, length_bytes p)) (omega arith) (byte_bytes p) hj
            hk,
        of_bytes-bytes_of p words,
      )
