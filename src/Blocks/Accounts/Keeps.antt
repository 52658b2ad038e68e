-- ===== src/Blocks/Accounts/Keeps.antt =====
-- What an erasure of checkpoint blocks leaves alone: blocks without a checkpoint, and the open block.
use mathlib.Core.Path.{subst}
use whisper_yaffs.Prelude.{ℕ, ◌≤◌, ◌≡◌, refl, sym, ap, ◌∙◌, false, ◌==◌}
use whisper_yaffs.Blocks.{BlockInfo, Device, checkpoint}
use whisper_yaffs.Blocks.Accounts.Same.{Around}
use whisper_yaffs.Blocks.Accounts.{Owing, InRange, At}

-- A device after an erasure of checkpoint blocks: the accounts are right, and the bitmap and every
-- block that holds no checkpoint are as they were.
module _ {N : Type 0} (debt : ℕ) where
  pub record Keeps (d d' : Device N) : Type 0 where
    pub accounts : Owing debt d'
    pub bitmap : d'.bitmap ≡ d.bitmap
    pub alloc_block : d'.allocation_block ≡ d.allocation_block
    pub alloc_page : d'.allocation_page ≡ d.allocation_page
    pub others :
        (b : ℕ) (bi : BlockInfo)
        → InRange d b
        → At d b bi
        → (bi.block_state == checkpoint) ≡ false
        → At d' b bi

  pub Keeps-refl : (d : Device N) → Owing debt d → Keeps d d
  Keeps-refl d acc = record {
    accounts = acc;
    bitmap = refl;
    alloc_block = refl;
    alloc_page = refl;
    others = λ b bi h at s. at;
  }

  pub Keeps-trans : {d d' d'' : Device N} → Keeps d d' → Keeps d' d'' → Keeps d d''
  Keeps-trans {d} {d'} {d''} k l = record {
    accounts = l.accounts;
    bitmap = l.bitmap ∙ k.bitmap;
    alloc_block = l.alloc_block ∙ k.alloc_block;
    alloc_page = l.alloc_page ∙ k.alloc_page;
    others = λ b bi h at s.
        l.others b bi (subst (λ m. (m.start_block ≤ b) × (b ≤ m.end_block)) (sym k.bitmap) h)
          (k.others b bi h at s) s;
  }

  pub Keeps-Around : {b : ℕ} {d d' : Device N} → Keeps d d' → Around b d d'
  Keeps-Around k = record {
    start = ap (λ m. m.start_block) k.bitmap;
    last = ap (λ m. m.end_block) k.bitmap;
    chunks = ap (λ m. m.chunks_per_block) k.bitmap;
    alloc_block = k.alloc_block;
    alloc_page = k.alloc_page;
    others = λ b' bi ne range at live. k.others b' bi range at live;
  }
