-- ===== src/Blocks/Accounts/Gives.antt =====
-- The allocation of a chunk, with or without space: what it gives and what it leaves.
use mathlib.Core.Path.{subst, ap₂}
use native.Mathlib.Nat.{mul-add-div_right, div-eq_of_lt, mul-add-mod_self_right, mod-eq_of_lt}
use whisper_yaffs.Prelude.{
  ℕ, ◌+◌, ◌*◌, ◌/◌, ◌%◌, true, ◌<◌, ◌≡◌, refl, sym, ap, ◌∙◌, Bool, false, Option, none, some, arith,
  ◌⊎◌, inl, inr, Bool-cases, ◌==◌,
}
use whisper_yaffs.Blocks.{Device, chunks_per_block}
use whisper_yaffs.Blocks.Allocate.{
  find_block_for_allocation, open_block, may_allocate, allocate_chunk,
}
use whisper_yaffs.Blocks.Accounts.{Accounts}
use whisper_yaffs.Blocks.Accounts.Same.{Same, Owing-Same}
use whisper_yaffs.Blocks.Accounts.Open.{Open-Same, IsOpen, Ready, Allocates}
use whisper_yaffs.Blocks.Accounts.Held.{Held}
use whisper_yaffs.Bitmap.View.{view}
use whisper_yaffs.Blocks.Accounts.Allocate.{
  HasRoom, open_block-opens, take-allowed, may_allocate-Same,
}

quotient_lem : (b n p : ℕ) → p < n → (b * n + p) / n ≡ b
quotient_lem b n p h =
    mul-add-div_right (omega arith) b p ∙ ap (λ k. b + k) (div-eq_of_lt h) ∙ omega arith

remainder_lem : (b n p : ℕ) → p < n → (b * n + p) % n ≡ p
remainder_lem b n p h = mul-add-mod_self_right b n p ∙ mod-eq_of_lt h

module _ {N : Type 0} where
  -- What an allocation gives: no chunk, or one that is then in use.
  abbrev pub Gives : Option ℕ → Device N → Type 0
  Gives r d' = ((r ≡ none) × Accounts d' × IsOpen d') ⊎ ((c : ℕ) × (r ≡ some c) × Held d' c)

  pub IsOpen-Same : {d d' : Device N} → Same d d' → IsOpen d → IsOpen d'
  IsOpen-Same {d} {d'} s (inl closed) = inl (s.alloc_block ∙ closed)
  IsOpen-Same {d} {d'} s (inr (b, bi, o)) = inr (b, bi, Open-Same b bi s o)

  -- Without an open block and without an erased one there is none to open.
  nothing_left :
      (d : Device N)
      → (d.allocation_block ≡ none)
      → (d.n_erased_blocks ≡ 0)
      → open_block d ≡ some (record d { allocation_block = none; allocation_page = 0 })
  unfolding open_block find_block_for_allocation
  nothing_left d closed spent = rw (closed, spent) refl

  room :
      (d : Device N)
      → IsOpen d
      → HasRoom d ⊎ ((d.allocation_block ≡ none) × (d.n_erased_blocks ≡ 0))
  room d (inr o) = inl (inl o)
  room d (inl closed) = elim (Bool-cases (d.n_erased_blocks == 0)) [
    | inl e ↦ inr (closed, ground (arith, e))
    | inr e ↦ inl (inr (closed, ground (arith, e)))
  ]

  -- An allocation that is not allowed, and one without a block.
  without_chunk :
      (d d1 : Device N) (use_reserve : Bool)
      → open_block d ≡ some d1
      → Accounts d1
      → IsOpen d1
      → chunks_per_block d1 ≡ chunks_per_block d
      → ((may_allocate d1 use_reserve).0 ≡ false) ⊎ (d1.allocation_block ≡ none)
      → (r : Option ℕ) × (d' : Device N) × (allocate_chunk d use_reserve ≡ some (r, d'))
        × (chunks_per_block d' ≡ chunks_per_block d)
        × Gives r d'
  unfolding allocate_chunk
  without_chunk d d1 use_reserve done acc opened same_n why =
      let d2 = (may_allocate d1 use_reserve).1 in
      let s = may_allocate-Same d1 use_reserve in
      (
        none,
        d2,
        elim why [
          | inl denied ↦ simp (done, denied, allocate_chunk) refl
          | inr closed ↦ elim (Bool-cases (may_allocate d1 use_reserve).0) [
            | inl allowed ↦ simp (done, allowed, s.alloc_block ∙ closed, allocate_chunk) refl
            | inr denied ↦ simp (done, denied, allocate_chunk) refl
          ]
        ],
        ap (λ m. m.chunks_per_block) s.bitmap ∙ same_n,
        inl (refl, Owing-Same s acc, IsOpen-Same s opened),
      )

  marked :
      (d d' : Device N) (b p : ℕ)
      → Allocates d.bitmap d.n_free_chunks b p d'
      → view d'.bitmap b p ≡ true
  marked d d' b p a =
      a.bit.views b p (record { first = a.range.0; last = a.range.1; chunk = a.page })
      ∙ ground arith

  pub allocate_chunk-Gives :
      (d : Device N) (use_reserve : Bool)
      → Accounts d
      → IsOpen d
      → (r : Option ℕ) × (d' : Device N) × (allocate_chunk d use_reserve ≡ some (r, d'))
        × (chunks_per_block d' ≡ chunks_per_block d)
        × Gives r d'
  allocate_chunk-Gives d use_reserve acc opened = elim (room d opened) [
    | inr (closed, spent) ↦
        let d1 = record d { allocation_block = none; allocation_page = 0 } in
        without_chunk d d1 use_reserve (nothing_left d closed spent) acc (inl refl) refl (inr refl)
    | inl has ↦
        let (d1, o) = open_block-opens d acc has in
        elim (Bool-cases (may_allocate d1 use_reserve).0) [
          | inr denied ↦
              without_chunk d d1 use_reserve o.done o.accounts (inr (o.b, o.bi, o.opened))
                (ap (λ m. m.chunks_per_block) o.same_bits) (inl denied)
          | inl may ↦
              let (b, p, d', done, a) = take-allowed d d1 use_reserve o may in
              let c = b * chunks_per_block d + p in
              let q =
                ap (λ n. c / n) a.bit.chunks_per_block
                ∙ quotient_lem b (chunks_per_block d) p a.page in
              let q' =
                ap (λ n. c % n) a.bit.chunks_per_block
                ∙ remainder_lem b (chunks_per_block d) p a.page in
              (
                some c,
                d',
                done,
                a.bit.chunks_per_block,
                inr (
                  c,
                  refl,
                  record {
                    ready = subst (λ x. Ready d' x) (sym q) a.ready;
                    bit = ap₂ (view d'.bitmap) q q' ∙ marked d d' b p a;
                  },
                ),
              )
        ]
  ]
