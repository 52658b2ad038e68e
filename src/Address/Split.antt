-- ===== src/Address/Split.antt =====
-- The split of a byte address is the division by the size of a chunk.
use native.Mathlib.Nat.{div-add-mod', div-div-eq-div-mul, mod-lt, mul-pos}
use whisper_yaffs.Prelude.{
  ℕ, zero, suc, ◌-◌, ◌*◌, ◌/◌, ◌%◌, ◌^◌, ◌<◌, ◌≡◌, sym, ap, ◌∙◌, ◌<<<◌, ◌>>>◌, ◌==◌, u32, arith,
  bit_and, inl, inr, Bool-cases,
}
use whisper_yaffs.Bits.{two_pow_suc, two_pow_pos, and_mask, div_pow_suc, digit_cases}
use whisper_yaffs.Address.{shifts, shifts_loop, ChunkSizes, chunk_sizes, addr_to_chunk}

shifts_loop_lem :
    (fuel x : ℕ)
    → 0 < x
    → x < 2 ^ fuel
    → ((x >>> shifts_loop fuel x) % 2 ≡ 1)
      × ((x >>> shifts_loop fuel x) * 2 ^ shifts_loop fuel x ≡ x)
unfolding shifts_loop
shifts_loop_lem zero x some small = absurd (omega arith)
shifts_loop_lem (suc fuel) x some small = elim (digit_cases x) [
  | inl even ↦
      let s = shifts_loop fuel (x / 2) in
      let below = shifts_loop_lem fuel (x / 2) (omega arith) (omega (arith, two_pow_suc fuel)) in
      rw even (
        omega (arith, div_pow_suc x s, below.0),
        omega (
          arith,
          div_pow_suc x s,
          ap (λ (t : ℕ). t * 2 ^ suc s) (div_pow_suc x s),
          ap (λ (t : ℕ). x / 2 / 2 ^ s * t) (two_pow_suc s),
          below.1,
        ),
      )
  | inr odd ↦ rw odd (omega arith, omega arith)
]

shifts_above : (x : ℕ) → 0 < x → shifts x ≡ shifts_loop 32 x
unfolding shifts
shifts_above x some = ground arith

-- `Shifts` leaves an odd number, and shifts out zeros only.
pub shifts_lem :
    (x : ℕ)
    → 0 < x
    → x < 2 ^ 32
    → ((x >>> shifts x) % 2 ≡ 1) × ((x >>> shifts x) * 2 ^ shifts x ≡ x)
shifts_lem x some small = rw (shifts_above x some) (shifts_loop_lem 32 x some small)

pair_path : {a b c d : ℕ} → a ≡ b → c ≡ d → ◌≡◌ {A = ℕ × ℕ} (a, c) (b, d)
pair_path p q = λ i. (p i, q i)

sizes : (s d : ℕ) → ChunkSizes
sizes s d = record {
  n_data_bytes_per_chunk = d * 2 ^ s;
  chunk_shift = s;
  chunk_div = d;
  chunk_mask = u32 (1 <<< s) - 1;
}

split_odd :
    (s d addr : ℕ)
    → 0 < d
    → d * 2 ^ s < 2 ^ 31
    → addr >>> s < 2 ^ 31
    → addr_to_chunk (sizes s d) addr ≡ (addr / (d * 2 ^ s), addr % (d * 2 ^ s))
unfolding addr_to_chunk sizes
split_odd s d addr some small fits =
    let n = d * 2 ^ s in
    let chunk : u32 (addr >>> s) ≡ addr / 2 ^ s = omega arith in
    let whole : addr / 2 ^ s / d ≡ addr / n =
      div-div-eq-div-mul addr (2 ^ s) d ∙ ap (λ (t : ℕ). addr / t) (omega arith) in
    let rest_small : addr % n < n = mod-lt addr (mul-pos some (two_pow_pos s)) in
    elim (Bool-cases (d == 1)) [
      | inl one ↦
          let single : d ≡ 1 = ground arith in
          let power : n ≡ 2 ^ s = ap (λ (t : ℕ). t * 2 ^ s) single ∙ omega arith in
          let mask : u32 (1 <<< s) - 1 ≡ 2 ^ s - 1 = omega (arith, power) in
          let below : bit_and addr (u32 (1 <<< s) - 1) ≡ addr % n =
            ap (bit_and addr) mask ∙ and_mask s addr ∙ ap (λ (t : ℕ). addr % t) (sym power) in
          rw one (
            pair_path (chunk ∙ ap (λ (t : ℕ). addr / t) (sym power))
              (omega (arith, below, rest_small)))
      | inr more ↦
          let quotient : u32 (addr >>> s) / d ≡ addr / n = ap (λ (t : ℕ). t / d) chunk ∙ whole in
          let product : u32 (addr >>> s) / d * n ≡ addr / n * n = ap (λ (t : ℕ). t * n) quotient in
          rw more (pair_path quotient (omega (arith, product, div-add-mod' addr n, rest_small)))
    ]

-- `yaffs_AddrToChunk`, on a device whose chunks have `n` data bytes, divides the address by `n`: it
-- gives the quotient and the remainder, whether `n` is a power of two or not. This is for `n` above
-- zero and in an int, and for an address that, shifted by the zeros that end `n`, is in an int.
pub addr_to_chunk_lem :
    (n addr : ℕ)
    → 0 < n
    → n < 2 ^ 31
    → addr >>> shifts n < 2 ^ 31
    → addr_to_chunk (chunk_sizes n) addr ≡ (addr / n, addr % n)
unfolding chunk_sizes sizes
addr_to_chunk_lem n addr some small fits =
    let s = shifts n in
    let d = n / 2 ^ s in
    let parts = shifts_lem n some (omega arith) in
    let positive : 0 < d = omega (arith, parts.0) in
    let same : sizes s d ≡ chunk_sizes n =
      ap (λ (m : ℕ). record (sizes s d) { n_data_bytes_per_chunk = m }) parts.1 in
    ap (λ (c : ChunkSizes). addr_to_chunk c addr) (sym same)
    ∙ split_odd s d addr positive (omega (arith, parts.1)) fits
    ∙ ap (λ (m : ℕ). (addr / m, addr % m)) parts.1
