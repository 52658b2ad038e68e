-- ===== src/Name.antt =====
-- yaffs_guts.c: the sum over a name that speeds up look-ups. A name is the list of its characters
-- without the NUL; `fold` is the case folding of a build that ignores case, or the identity.
use whisper_yaffs.Prelude.{
  ℕ, ◌+◌, ◌*◌, ◌/◌, ◌%◌, ◌^◌, List, [], ◌∷◌, ◌&&◌, ltb, truthy, if◌then◌else◌,
}

-- `YAFFS_MAX_NAME_LENGTH` without Unicode.
abbrev pub max_name_length : ℕ
max_name_length = 255

module _ (fold : ℕ → ℕ) where
  -- The loop of `yaffs_CalcNameSum`, from character `i`, on 16-bit numbers.
  unfoldable pub name_sum_loop : List ℕ → (i sum : ℕ) → ℕ
  name_sum_loop [] i sum = sum
  name_sum_loop (c ∷ cs) i sum =
      let rest = name_sum_loop cs ((i + 1) % 2 ^ 16) ((sum + fold c * i) % 2 ^ 16) in
      if truthy c && ltb i (max_name_length / 2) then rest else sum

  -- `yaffs_CalcNameSum`.
  unfoldable pub calc_name_sum : List ℕ → ℕ
  calc_name_sum name = name_sum_loop name 1 0
