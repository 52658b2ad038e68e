-- ===== src/Ecc/Tests.antt =====
-- The codes of yaffs_ecc.c on concrete buffers.
use whisper_yaffs.Prelude.{
  ℕ, ◌≡◌, refl, true, false, List, [], ◌∷◌, arith, inl, replicate, All, IsByte, All-replicate,
}
use whisper_yaffs.Ecc.Parity.{parity_loop, round, column}
use whisper_yaffs.Ecc.Block.{
  corrected, uncorrectable, block_parity, high_lines, low_lines, encode, calculate, correct, flip,
}
use whisper_yaffs.Ecc.Block.Single.{correct-flip}
use whisper_yaffs.Ecc.Block.Multiple.{correct-flip_twice}
use whisper_yaffs.Ecc.Block.Code.{flip_code, correct-flip_code}
use whisper_yaffs.Ecc.Other.{calculate_other, correct_other}
use whisper_yaffs.Ecc.Other.Single.{correct_other-flip}

abbrev block : List ℕ
block = 0x12 ∷ replicate 255 0xa7

block-bytes : All IsByte block
block-bytes = (omega arith, All-replicate IsByte 255 0xa7 (omega arith))

block_code : calculate false block ≡ record { e0 = 0xaa; e1 = 0xaa; e2 = 0x6b }
unfolding calculate block_parity parity_loop round column encode high_lines low_lines
block_code = refl

correct-flip_example :
    correct false (flip block 3 5) (calculate false block) (calculate false (flip block 3 5))
    ≡ record { outcome = corrected; bytes = block; read = calculate false block }
correct-flip_example = correct-flip false block 3 5 refl block-bytes (omega arith) (omega arith)

correct-flip_twice_example :
    correct true
      (flip (flip block 3 5) 200 5)
      (calculate true block)
      (calculate true (flip (flip block 3 5) 200 5))
    ≡ record {
      outcome = uncorrectable;
      bytes = flip (flip block 3 5) 200 5;
      read = calculate true block;
    }
correct-flip_twice_example =
    correct-flip_twice true block 3 5 200 5 refl block-bytes (omega arith) (omega arith)
      (omega arith) (omega arith) (inl (omega arith))

correct-flip_code_example :
    correct false block (flip_code 1 6 (calculate false block)) (calculate false block)
    ≡ record { outcome = corrected; bytes = block; read = calculate false block }
correct-flip_code_example = correct-flip_code false block 1 6 (omega arith)

abbrev buffer : List ℕ
buffer = 1 ∷ 2 ∷ 3 ∷ 255 ∷ 0 ∷ []

correct_other-flip_example :
    correct_other
      (flip buffer 4 7)
      5
      (calculate_other buffer 5)
      (calculate_other (flip buffer 4 7) 5)
    ≡ record { outcome = corrected; bytes = buffer; read = calculate_other buffer 5 }
correct_other-flip_example =
    correct_other-flip buffer 5 4 7 (omega arith) (omega arith) (omega arith) (omega arith)
      (omega arith)
