-- ===== src/Nameval/Delete.antt =====
-- nval_del: the bytes of the buffer after it.
use whisper_yaffs.Prelude.{
  ℕ, ◌+◌, ◌≡◌, List, Option, none, some, if◌then◌else◌, length, get_or, ltb,
}
use whisper_yaffs.Nameval.{Result, ok, failed, no_data}

-- What a deletion of the record that was found, if one was, leaves of byte `k`, and its result.
abbrev pub Deletes : (xb : List ℕ) → (k : ℕ) → Option (ℕ × ℕ) → List ℕ × Result Unit → Type 0
Deletes xb k none r = r ≡ (xb, failed no_data)
Deletes xb k (some found) r =
    (r.1 ≡ ok tt)
    × (length r.0 ≡ length xb)
    × (get_or r.0 k 0 ≡ (if ltb k found.0 then get_or xb k 0 else get_or xb (k + found.1) 0))
