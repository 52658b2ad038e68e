-- ===== src/Compat/Damage.antt =====
-- A chunk that is written with its tags and read again with a wrong bit in its data.
use whisper_yaffs.Prelude.{
  ℕ, truthy, ◌+◌, ◌-◌, ◌*◌, ◌/◌, ◌≤◌, ◌<◌, bit_xor, ◌≡◌, refl, ap, ◌∙◌, Bool, true, false, List,
  some, arith, length, take, drop, get_or, All, IsByte, u32, u8, ◌⊎◌, inl, inr, ◌<<<◌,
}
use whisper_yaffs.Prelude.Slices.{
  take-set_below, take-set_above, drop-set_below, drop-set_above, get_or-take, get_or-drop,
  length-take, length-drop, All-take, All-drop,
}
use whisper_yaffs.Ecc.Block.{Outcome, clean, corrected, calculate, correct, flip}
use whisper_yaffs.Ecc.Block.Single.{correct-flip}
use whisper_yaffs.Tags.{ExtendedTags, fixed}
use whisper_yaffs.Tags.Yaffs1.{calc_ecc}
use whisper_yaffs.Blocks.{BlockInfo, chunks_per_block, get_block_info, put_block_info}
use whisper_yaffs.Compat.{
  Layout, Spare, RawDriver, CompatDevice, with_nand, combined_result, count_result,
  load_tags_into_spare, handle_read_data_error,
}
use whisper_yaffs.Compat.Access.{conclude, compat_write, compat_read}
use whisper_yaffs.Compat.Bytes.{IsLayout}
use whisper_yaffs.Compat.Roundtrip.{
  written_spare, read_tags, ReadsBack, correct_same, after_read, write_lem, read_lem,
}

take-flip : (n : ℕ) (xs : List ℕ) (j k : ℕ) → j < n → take n (flip xs j k) ≡ flip (take n xs) j k
unfolding flip
take-flip n xs j k h =
    rw (take-set_below n xs j (u8 (bit_xor (get_or xs j 0) (1 <<< k))) h, get_or-take n xs j 0 h)

drop-flip : (n : ℕ) (xs : List ℕ) (j k : ℕ) → drop n (flip xs (n + j) k) ≡ flip (drop n xs) j k
unfolding flip
drop-flip n xs j k =
    rw (drop-set_above n xs j (u8 (bit_xor (get_or xs (n + j) 0) (1 <<< k))), get_or-drop n xs j 0)

-- What a read error leaves of a device: the block is to be retired, and one more error is fixed.
abbrev pub noted : {N : Type 0} → CompatDevice N → (block : ℕ) → BlockInfo → CompatDevice N
noted d b bi = record d {
  device = put_block_info d.device b (record bi { needs_retiring = true });
  ecc_fixed = u32 (d.ecc_fixed + 1);
}

-- The wrong bit is in one of the halves, and the other is as it was.
first_half :
    (wrong_order : Bool) (bytes : List ℕ) (j k : ℕ)
    → length bytes ≡ 512
    → All IsByte bytes
    → j < 256
    → k < 8
    → (let got = take 256 (flip bytes j k) in
        let e = calculate wrong_order (take 256 bytes) in
        correct wrong_order got e (calculate wrong_order got)
        ≡ record { outcome = corrected; bytes = take 256 bytes; read = e })
      × (let got = drop 256 (flip bytes j k) in
          let e = calculate wrong_order (drop 256 bytes) in
          correct wrong_order got e (calculate wrong_order got)
          ≡ record { outcome = clean; bytes = drop 256 bytes; read = e })
unfolding flip
first_half wrong_order bytes j k long all hj hk = (
  rw (take-flip 256 bytes j k hj) (
      correct-flip wrong_order (take 256 bytes) j k (length-take 256 bytes (omega arith))
        (All-take 256 bytes all) hj hk),
  rw (drop-set_below 256 bytes j (u8 (bit_xor (get_or bytes j 0) (1 <<< k))) hj)
      (correct_same wrong_order (drop 256 bytes)),
)

second_half :
    (wrong_order : Bool) (bytes : List ℕ) (j k : ℕ)
    → length bytes ≡ 512
    → All IsByte bytes
    → 256 ≤ j
    → j < 512
    → k < 8
    → (let got = take 256 (flip bytes j k) in
        let e = calculate wrong_order (take 256 bytes) in
        correct wrong_order got e (calculate wrong_order got)
        ≡ record { outcome = clean; bytes = take 256 bytes; read = e })
      × (let got = drop 256 (flip bytes j k) in
          let e = calculate wrong_order (drop 256 bytes) in
          correct wrong_order got e (calculate wrong_order got)
          ≡ record { outcome = corrected; bytes = drop 256 bytes; read = e })
unfolding flip
second_half wrong_order bytes j k long all low hj hk =
    let place : j ≡ 256 + (j - 256) = omega arith in
    let moved : drop 256 (flip bytes j k) ≡ flip (drop 256 bytes) (j - 256) k =
      ap (λ (t : ℕ). drop 256 (flip bytes t k)) place ∙ drop-flip 256 bytes (j - 256) k in
    (
      rw (take-set_above 256 bytes j (u8 (bit_xor (get_or bytes j 0) (1 <<< k))) low)
          (correct_same wrong_order (take 256 bytes)),
      rw moved (
          correct-flip wrong_order (drop 256 bytes) (j - 256) k
            (length-drop 256 bytes ∙ omega arith) (All-drop 256 bytes all) (omega arith) hk),
    )

low_or_high : (j : ℕ) → (j < 256) ⊎ (256 ≤ j)
low_or_high j = omega arith

module _ {N : Type 0} (raw : RawDriver N) (l : Layout) (wrong_order : Bool) (d : CompatDevice N)
    (chunk : ℕ) (bi : BlockInfo)
    (known : get_block_info d.device (chunk / chunks_per_block d.device + d.device.block_offset)
      ≡ some bi) where
  abbrev block : ℕ
  block = chunk / chunks_per_block d.device + d.device.block_offset

  -- `yaffs_HandleReadDataError` after a read, whatever was counted.
  handled :
      (n : N) (count : ℕ)
      → let e = record (with_nand d n) { ecc_fixed = count } in
        handle_read_data_error e chunk
        ≡ some (record e {
          device = put_block_info e.device block (record bi { needs_retiring = true });
        })
  unfolding get_block_info handle_read_data_error
  handled n count = rw (handle_read_data_error, known)

  -- One fixed half marks the block for retirement.
  conclude-first :
      (n : N) (bytes : List ℕ) (spare : Spare)
      → conclude raw l wrong_order
          (count_result (count_result (with_nand d n) corrected) clean)
          chunk
          (record { ok = true; bytes = bytes; spare = spare; eccres1 = 0; eccres2 = 0 })
          corrected
          clean
        ≡ some (record {
          ok = true;
          bytes = bytes;
          spare = spare;
          ecc_result = fixed;
          device = noted (with_nand d n) block bi;
        })
  unfolding conclude count_result combined_result
  conclude-first n bytes spare = rw (handled n (u32 (d.ecc_fixed + 1)), conclude)

  conclude-second :
      (n : N) (bytes : List ℕ) (spare : Spare)
      → conclude raw l wrong_order
          (count_result (count_result (with_nand d n) clean) corrected)
          chunk
          (record { ok = true; bytes = bytes; spare = spare; eccres1 = 0; eccres2 = 0 })
          clean
          corrected
        ≡ some (record {
          ok = true;
          bytes = bytes;
          spare = spare;
          ecc_result = fixed;
          device = noted (with_nand d n) block bi;
        })
  unfolding conclude count_result combined_result
  conclude-second n bytes spare = rw (handled n (u32 (d.ecc_fixed + 1)), conclude)

-- A used chunk of 512 bytes that is written with its tags, on a device that corrects errors itself,
-- and read with one wrong bit in its data: the data come back as they were written, and so do the
-- tags, cut to their widths, with the result that an error was fixed. The block is marked for
-- retirement and the fixed error is counted; but for that nothing but the flash is changed.
pub compat_read-flip :
    {N : Type 0} (raw : RawDriver N) (l : Layout) (wrong_order : Bool) (d : CompatDevice N)
    (chunk : ℕ) (bi : BlockInfo) (bytes : List ℕ) (j k : ℕ) (old tags : ExtendedTags)
    → IsLayout l
    → length bytes ≡ 512
    → All IsByte bytes
    → j < 512
    → k < 8
    → d.use_nand_ecc ≡ false
    → d.start_block * chunks_per_block d.device ≤ chunk
    → get_block_info d.device (chunk / chunks_per_block d.device + d.device.block_offset) ≡ some bi
    → truthy tags.chunk_deleted ≡ false
    → (let n = d.device.n_data_bytes_per_chunk in
        ReadsBack raw d.device.nand chunk bytes
          (flip bytes j k)
          (written_spare l wrong_order n bytes tags))
    → let n = d.device.n_data_bytes_per_chunk in
      let b = chunk / chunks_per_block d.device + d.device.block_offset in
      let w = compat_write raw l wrong_order d chunk (some bytes) tags in
      (w.0 ≡ true)
      × (compat_read raw l wrong_order w.1 chunk true (some old)
          ≡ some (
            true,
            bytes,
            some (read_tags n fixed old tags),
            noted (with_nand d (raw.read_raw w.1.device.nand chunk true).1) b bi,
          ))
unfolding load_tags_into_spare calc_ecc combined_result
compat_read-flip raw l wrong_order d chunk bi bytes j k old tags layout long all hj hk soft inside
      known live driver =
    let got = flip bytes j k in
    let b = chunk / chunks_per_block d.device + d.device.block_offset in
    let after = after_read raw l wrong_order layout d chunk bytes got old tags in
    let spare = written_spare l wrong_order d.device.n_data_bytes_per_chunk bytes tags in
    let written =
      write_lem raw l wrong_order layout d chunk bytes got old tags soft inside live driver.taken in
    let read = λ (r1 : Outcome) (r2 : Outcome).
      read_lem raw l wrong_order layout d chunk bytes got old tags r1 r2 (noted after b bi) soft
        driver.given in
    rw written (
      refl,
      elim (low_or_high j) [
        | inl low ↦
            let halves = first_half wrong_order bytes j k long all low hk in
            read corrected clean halves.0 halves.1
              (conclude-first raw l wrong_order d chunk bi known after.device.nand bytes spare)
        | inr high ↦
            let halves = second_half wrong_order bytes j k long all high hj hk in
            read clean corrected halves.0 halves.1
              (conclude-second raw l wrong_order d chunk bi known after.device.nand bytes spare)
      ],
    )
