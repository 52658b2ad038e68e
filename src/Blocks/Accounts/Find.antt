-- ===== src/Blocks/Accounts/Find.antt =====
-- The search for an erased block: it finds one, and the accounts follow.
use mathlib.Core.Path.{subst}
use whisper_yaffs.Prelude.{
  ℕ, set, u32, zero, suc, ◌+◌, ◌-◌, ◌^◌, ◌≤◌, ◌<◌, ◌≡◌, refl, sym, ap, ◌∙◌, false, some, arith,
  ◌==◌, leb, if◌then◌else◌, inl, inr, Bool-cases, ==_iff, ◌≢◌, total_witness,
}
use whisper_yaffs.Blocks.{
  BlockInfo, Device, allocating, sub32, empty, start_block, end_block, int_lt,
}
use whisper_yaffs.Blocks.Allocate.{next_finder, take_block, find_loop, find_block_for_allocation}
use whisper_yaffs.Blocks.Accounts.{
  Accounts, InRange, At, Accounts-Replaces, At-some, get_block_info-At, erased, free_chunks,
  At-same, counters-bound, IsInfo-At,
}

not_empty : (s : ℕ) → (s == empty) ≡ false → s ≢ empty
not_empty s h e = ground arith

erased_state : (bi : BlockInfo) → 0 < erased bi → bi.block_state ≡ empty
erased_state bi h = ground arith

plus_minus : (s i : ℕ) → s + i - s ≡ i
plus_minus s i = omega arith

module _ {N : Type 0} where
  next_finder_range :
      (d : Device N)
      → start_block d ≤ end_block d
      → end_block d < 2 ^ 31 - 1
      → (start_block d ≤ next_finder d) × (next_finder d ≤ end_block d)
  unfolding next_finder
  next_finder_range d h k = ground arith

  -- One place further, and around.
  next_finder_next :
      (d : Device N) (b : ℕ)
      → start_block d ≤ b
      → b ≤ end_block d
      → end_block d < 2 ^ 31 - 1
      → next_finder (record d { allocation_block_finder = b })
        ≡ (if b == end_block d then start_block d else b + 1)
  unfolding next_finder
  next_finder_next d b h k l = ground arith

  -- The finder is moved to the block, which was empty: it is to be allocated from now, with a new sequence
  -- number that is also the device's, and one erased block is left less.
  pub record Takes (d : Device N) (b : ℕ) (bi : BlockInfo) (d' : Device N) : Type 0 where
    pub range : InRange d b
    pub at : At d b bi
    pub was_empty : bi.block_state ≡ empty
    pub now : d' ≡ record d {
      allocation_block_finder = b;
      block_info =
          set d.block_info
            (b - start_block d)
            (record bi { block_state = allocating; sequence_number = u32 (d.sequence_number + 1) });
      sequence_number = u32 (d.sequence_number + 1);
      n_erased_blocks = sub32 d.n_erased_blocks 1;
    }

  -- What the loop leaves to be searched.
  abbrev ahead : Device N → (t : ℕ) → ℕ
  ahead d t =
      if leb (next_finder d) t
      then t - next_finder d
      else t + (end_block d + 1 - start_block d) - next_finder d

  find_loop-finds :
      (n : ℕ) (d : Device N) (t : ℕ) (ti : BlockInfo)
      → Accounts d
      → InRange d t
      → At d t ti
      → ti.block_state ≡ empty
      → ahead d t < n
      → (b : ℕ) × (bi : BlockInfo) × (d' : Device N) × (find_loop n d ≡ some (some b, d'))
        × Takes d b bi d'
  unfolding find_loop take_block
  find_loop-finds zero d t ti acc h at e lt = absurd (omega arith)
  find_loop-finds (suc n) d t ti acc h at e lt =
      let b = next_finder d in
      let d1 = record d { allocation_block_finder = b } in
      let r = next_finder_range d acc.range acc.last in
      let (bi, atb) = At-some d acc b r in
      let got = get_block_info-At d1 b bi r atb in
      elim (Bool-cases (bi.block_state == empty)) [
        | inl hit ↦ (
          b,
          bi,
          take_block d1 b bi,
          rw (got, hit, find_loop),
          record { range = r; at = atb; was_empty = (==_iff _ _).0 hit; now = refl },
        )
        | inr miss ↦
            let next = next_finder_next d b r.0 r.1 acc.last in
            let apart : b ≢ t = λ same.
              not_empty bi.block_state miss (ap (λ x. x.block_state) (At-same d same atb at) ∙ e) in
            let closer : ahead d1 t < n = rw next (ground arith) in
            let (b', bi', d', found, takes) = find_loop-finds n d1 t ti acc h at e closer in
            (
              b',
              bi',
              d',
              rw (got, miss, find_loop) found,
              record {
                range = takes.range;
                at = takes.at;
                was_empty = takes.was_empty;
                now = takes.now;
              },
            )
      ]

  take_block-erased :
      (d : Device N) (b : ℕ) (bi : BlockInfo)
      → 1 ≤ d.n_erased_blocks
      → d.n_erased_blocks < 2 ^ 31
      → (take_block d b bi).n_erased_blocks + 1 ≡ d.n_erased_blocks
  unfolding take_block
  take_block-erased d b bi h k = omega arith

  take_block-Accounts :
      (d : Device N) (b : ℕ) (bi : BlockInfo)
      → Accounts d
      → At d b bi
      → bi.block_state ≡ empty
      → 1 ≤ d.n_erased_blocks
      → Accounts (take_block d b bi)
  unfolding take_block free_chunks
  take_block-Accounts d b bi acc at e some_left =
      let info = IsInfo-At d b bi acc at in
      let none_used : bi.pages_in_use ≡ 0 = info.unused (ground (arith, e)) in
      let bounds = counters-bound d acc in
      Accounts-Replaces {d = d} {d' = take_block d b bi} acc at
        (record { pages = info.pages; unused = λ h. none_used })
        (record {
          same_start = refl;
          same_end = refl;
          same_chunks = refl;
          bits_valid = acc.bits;
          blocks = refl;
          free_moves = rw (e, none_used) (omega arith);
          erased_moves = rw e (omega (arith, bounds.1));
        })

  Takes-Accounts :
      {d d' : Device N} {b : ℕ} {bi : BlockInfo}
      → Takes d b bi d'
      → Accounts d
      → 1 ≤ d.n_erased_blocks
      → Accounts d' × (d'.n_erased_blocks + 1 ≡ d.n_erased_blocks)
  unfolding take_block
  Takes-Accounts {d} {d'} {b} {bi} takes acc some_left =
      let d1 = record d { allocation_block_finder = b } in
      subst (λ x. Accounts x × (x.n_erased_blocks + 1 ≡ d.n_erased_blocks)) (sym takes.now)
        (
          take_block-Accounts d1 b bi acc takes.at takes.was_empty some_left,
          take_block-erased d1 b bi some_left (counters-bound d acc).1,
        )

  -- While the counter of erased blocks is above zero, the search succeeds: it takes an erased block
  -- for allocation, which gets the next sequence number of the device, the counters follow, and one erased
  -- block is left less. Nothing else is changed but the place of the search.
  pub find_block_for_allocation-finds :
      (d : Device N)
      → Accounts d
      → 1 ≤ d.n_erased_blocks
      → (b : ℕ) × (bi : BlockInfo) × (d' : Device N) × (find_block_for_allocation d
          ≡ some (some b, d'))
        × Takes d b bi d'
        × Accounts d'
        × (d'.n_erased_blocks + 1 ≡ d.n_erased_blocks)
  unfolding find_block_for_allocation
  find_block_for_allocation-finds d acc some_left =
      let bounds = counters-bound d acc in
      let guard : int_lt d.n_erased_blocks 1 ≡ false = ground (arith, bounds.1) in
      let (i, ti, lt, at, pos) =
        total_witness erased d.block_info (omega (arith, some_left, acc.empty_blocks)) in
      let t = start_block d + i in
      let at_t : At d t ti = rw (plus_minus (start_block d) i) at in
      let here : InRange d t = (omega arith, omega (arith, lt, acc.sized)) in
      let r = next_finder_range d acc.range acc.last in
      let close : ahead d t < end_block d + 1 - start_block d = ground (arith, r, here) in
      let (b, bi, d', found, takes) =
        find_loop-finds (end_block d + 1 - start_block d) d t ti acc here at_t (erased_state ti pos)
          close in
      let done = Takes-Accounts takes acc some_left in
      (b, bi, d', rw guard found, takes, done.0, done.1)
