-- ===== src/Ecc/Block/Code.antt =====
-- `yaffs_ECCCorrect` on one wrong bit of the code itself.
use whisper_yaffs.Prelude.{
  ℕ, zero, suc, ◌+◌, ◌^◌, ◌<◌, bit_xor, bit_or, ◌≡◌, refl, ◌∙◌, Bool, true, false, ◌&&◌, not, arith,
  List, ◌==◌, all_below, all_below_sound,
}
use whisper_yaffs.Bits.{xor_delta, xor_comm, xor_self}
use whisper_yaffs.Ecc.Parity.{count_bits}
use whisper_yaffs.Ecc.Block.{corrected, EccBytes, calculate, correct, pairs_differ}

-- A code with digit `m` of its byte `i` flipped.
abbrev pub flip_code : (i m : ℕ) → EccBytes → EccBytes
flip_code zero m e = record e { e0 = bit_xor e.e0 (2 ^ m) }
flip_code (suc zero) m e = record e { e1 = bit_xor e.e1 (2 ^ m) }
flip_code (suc (suc i)) m e = record e { e2 = bit_xor e.e2 (2 ^ m) }

-- What the tests of `correct` say of deltas with a single one.
abbrev OneDigit : (d0 d1 d2 : ℕ) → Type 0
OneDigit d0 d1 d2 =
    ((bit_or (bit_or d0 d1) d2 == 0) ≡ false)
    × ((pairs_differ 0x55 d0 && (pairs_differ 0x55 d1 && pairs_differ 0x54 d2)) ≡ false)
    × ((count_bits d0 + count_bits d1 + count_bits d2 == 1) ≡ true)

abbrev one_digit : (d0 d1 d2 : ℕ) → Bool
one_digit d0 d1 d2 =
    not (bit_or (bit_or d0 d1) d2 == 0)
    && (not (pairs_differ 0x55 d0 && (pairs_differ 0x55 d1 && pairs_differ 0x54 d2))
        && count_bits d0 + count_bits d1 + count_bits d2 == 1)

OneDigit-sound : (d0 d1 d2 : ℕ) → one_digit d0 d1 d2 ≡ true → OneDigit d0 d1 d2
OneDigit-sound d0 d1 d2 h = ground arith

and_all : {a b c : Bool} → (a && (b && c)) ≡ true → (a ≡ true) × (b ≡ true) × (c ≡ true)
and_all h = ground arith

one_digit_table :
    all_below 8 (λ m. one_digit (2 ^ m) 0 0 && (one_digit 0 (2 ^ m) 0 && one_digit 0 0 (2 ^ m)))
    ≡ true
unfolding all_below pairs_differ count_bits
one_digit_table = refl

one_digit_lem : (m : ℕ) → m < 8 → OneDigit (2 ^ m) 0 0 × OneDigit 0 (2 ^ m) 0 × OneDigit 0 0 (2 ^ m)
one_digit_lem m h =
    let row = and_all (
      all_below_sound 8
        (λ x. one_digit (2 ^ x) 0 0 && (one_digit 0 (2 ^ x) 0 && one_digit 0 0 (2 ^ x))) m
        one_digit_table h) in
    (
      OneDigit-sound (2 ^ m) 0 0 row.0,
      OneDigit-sound 0 (2 ^ m) 0 row.1,
      OneDigit-sound 0 0 (2 ^ m) row.2,
    )

correct-OneDigit :
    (wrong_order : Bool) (bytes : List ℕ) (read test : EccBytes)
    → OneDigit (bit_xor read.e0 test.e0) (bit_xor read.e1 test.e1) (bit_xor read.e2 test.e2)
    → correct wrong_order bytes read test
      ≡ record { outcome = corrected; bytes = bytes; read = test }
unfolding correct
correct-OneDigit wrong_order bytes read test h = rw (h.0, h.1, h.2)

undo : (e m : ℕ) → bit_xor (bit_xor e (2 ^ m)) e ≡ 2 ^ m
undo e m = xor_comm (bit_xor e (2 ^ m)) e ∙ xor_delta e (2 ^ m)

-- A code with one wrong bit, read with an intact block, is replaced by the code of the block.
pub correct-flip_code :
    (wrong_order : Bool) (bytes : List ℕ) (i m : ℕ)
    → m < 8
    → let fresh = calculate wrong_order bytes in
      correct wrong_order bytes (flip_code i m fresh) fresh
      ≡ record { outcome = corrected; bytes = bytes; read = fresh }
correct-flip_code w bytes zero m h =
    let e = calculate w bytes in
    correct-OneDigit w bytes (flip_code 0 m e) e
      (rw (undo e.e0 m, xor_self e.e1, xor_self e.e2) (one_digit_lem m h).0)
correct-flip_code w bytes (suc zero) m h =
    let e = calculate w bytes in
    correct-OneDigit w bytes (flip_code 1 m e) e
      (rw (undo e.e1 m, xor_self e.e0, xor_self e.e2) (one_digit_lem m h).1)
correct-flip_code w bytes (suc (suc i)) m h =
    let e = calculate w bytes in
    correct-OneDigit w bytes (flip_code (suc (suc i)) m e) e
      (rw (undo e.e2 m, xor_self e.e0, xor_self e.e1) (one_digit_lem m h).2)
