-- ===== src/Nameval.antt =====
-- yaffs_nameval.c: the store of names and values in a small buffer of bytes. A record is its size as
-- an int, the name with its NUL, and the value. A character is a byte; a name is the list of its bytes
-- without the NUL. The bytes of an int are the compiler's choice, a parameter. A read past the end of
-- the buffer is 0, and a write past it changes nothing in the buffer.
pub mod Find
pub mod Delete
mod Tests
use whisper_yaffs.Prelude.{
  ℕ, zero, suc, ◌+◌, ◌-◌, ◌*◌, ◌%◌, ◌^◌, Bool, true, false, not, ◌&&◌, ◌||◌, List, [], ◌∷◌, ◌++◌,
  Option, none, some, ◌==◌, ltb, leb, truthy, if◌then◌else◌, length, get_or, set, take, drop,
  replicate, u32,
}
use whisper_yaffs.Blocks.{int_lt, sub32}

-- An int from its four bytes, and back.
pub record IntLayout : Type 0 where
  pub of_bytes : (b0 b1 b2 b3 : ℕ) → ℕ
  pub to_bytes : ℕ → List ℕ

-- The errors that the operations return.
pub data Error : Type 0 where
  no_data exists no_space range : Error

pub data Result (A : Type 0) : Type 0 where
  ok : A → Result A
  failed : Error → Result A

-- `strncmp(a, b, n) == 0`, for `b` ended by its NUL.
unfoldable pub strncmp_equal : (n : ℕ) → (a b : List ℕ) → Bool
strncmp_equal zero a b = true
strncmp_equal (suc n) a b =
    let rest = strncmp_equal n (drop 1 a) (drop 1 b) in
    if not (get_or a 0 0 == get_or b 0 0) then false else if get_or a 0 0 == 0 then true else rest

-- `strnlen(s, n)`.
unfoldable pub strnlen : (n : ℕ) → List ℕ → ℕ
strnlen zero s = 0
strnlen (suc n) s = let rest = strnlen n (drop 1 s) in if get_or s 0 0 == 0 then 0 else suc rest

-- `memcpy(xb + pos, bytes, length)`.
unfoldable pub write : List ℕ → (pos : ℕ) → List ℕ → List ℕ
write xb pos [] = xb
write xb pos (b ∷ bs) = write (set xb pos b) (pos + 1) bs

module _ (layout : IntLayout) where
  -- `memcpy(&size, xb + pos, sizeof(int))`.
  unfoldable pub int_at : List ℕ → ℕ → ℕ
  int_at xb pos =
      layout.of_bytes (get_or xb pos 0) (get_or xb (pos + 1) 0) (get_or xb (pos + 2) 0)
        (get_or xb (pos + 3) 0)

  -- `size > 0 && size < xb_size && pos + size < xb_size`.
  unfoldable pub record_here : List ℕ → (pos size : ℕ) → Bool
  record_here xb pos size = int_lt 0 size && (ltb size (length xb) && ltb (pos + size) (length xb))

  -- The size of the record at `pos`, 0 where there is no room for one. The subtraction is unsigned.
  unfoldable pub next_size : List ℕ → ℕ → ℕ
  next_size xb pos = if ltb pos (sub32 (length xb) 4) then int_at xb pos else 0

  -- The loop of `nval_find`; every round moves on by a byte or more.
  unfoldable pub find_loop : (fuel : ℕ) → (xb name : List ℕ) → (pos size : ℕ) → Option (ℕ × ℕ)
  find_loop zero xb name pos size = none
  find_loop (suc fuel) xb name pos size =
      let rest = find_loop fuel xb name (pos + size) (next_size xb (pos + size)) in
      if not (record_here xb pos size)
      then none
      else if strncmp_equal size (drop (pos + 4) xb) name
      then some (pos, size)
      else rest

  -- `nval_find`: the place of a record and its size.
  unfoldable pub nval_find : (xb name : List ℕ) → Option (ℕ × ℕ)
  nval_find xb name = find_loop (suc (length xb)) xb name 0 (int_at xb 0)

  unfoldable pub used_loop : (fuel : ℕ) → List ℕ → (pos size : ℕ) → ℕ
  used_loop zero xb pos size = pos
  used_loop (suc fuel) xb pos size =
      let rest = used_loop fuel xb (pos + size) (next_size xb (pos + size)) in
      if record_here xb pos size then rest else pos

  -- `nval_used`.
  unfoldable pub nval_used : List ℕ → ℕ
  nval_used xb = used_loop (suc (length xb)) xb 0 (int_at xb 0)

  -- `nval_del`: the rest of the buffer is moved over the record, and its end is cleared. The copy is taken
  -- to be one of the old bytes, although its regions can overlap.
  unfoldable pub nval_del : (xb name : List ℕ) → List ℕ × Result Unit
  nval_del xb name = elim (nval_find xb name) [
    | none ↦ (xb, failed no_data)
    | some r ↦ (take r.0 xb ++ (drop (r.0 + r.1) xb ++ replicate r.1 0), ok tt)
  ]

  -- `strncpy(xb + pos, name, n)`: the name, and zeros up to `n` bytes.
  unfoldable pub strncpy : List ℕ → (pos : ℕ) → List ℕ → (n : ℕ) → List ℕ
  strncpy xb pos name n = write xb pos (take n (name ++ replicate n 0))

  -- The record that `nval_set` writes at `pos`. The copy of the name fills as many bytes as the whole
  -- record has, so it clears four bytes behind it.
  unfoldable pub put_record : (xb name value : List ℕ) → (pos : ℕ) → List ℕ
  put_record xb name value pos =
      let len = strnlen (length xb) name in
      let reclen = 4 + len + 1 + length value in
      let xb1 = write xb pos (layout.to_bytes reclen) in
      let xb2 = strncpy xb1 (pos + 4) name reclen in write xb2 (pos + 4 + (len + 1)) value

  -- `nval_set`, with the flags XATTR_CREATE and XATTR_REPLACE.
  unfoldable pub nval_set :
      (xb name value : List ℕ) → (create replace : Bool) → List ℕ × Result Unit
  nval_set xb name value create replace =
      let reclen = 4 + strnlen (length xb) name + 1 + length value in
      let start = nval_used xb in
      let cleared = (nval_del xb name).0 in
      elim (nval_find xb name) [
        | none ↦
            if replace
            then (xb, failed no_data)
            else if ltb (length xb - start) reclen
            then (xb, failed no_space)
            else (put_record xb name value start, ok tt)
        | some r ↦
            if create
            then (xb, failed exists)
            else if ltb (length xb - start + r.1) reclen
            then (xb, failed no_space)
            else (put_record cleared name value (nval_used cleared), ok tt)
      ]

  -- The loop of `nval_get` over the name: the place of its NUL and the bytes left.
  unfoldable pub skip_name : (fuel : ℕ) → List ℕ → (pos size : ℕ) → ℕ × ℕ
  skip_name zero xb pos size = (pos, size)
  skip_name (suc fuel) xb pos size =
      let rest = skip_name fuel xb (pos + 1) (sub32 size 1) in
      if truthy (get_or xb pos 0) && (int_lt 0 size && ltb pos (length xb))
      then rest
      else (pos, size)

  -- `nval_get`, into a buffer of `bsize` bytes: the value, whose length is the result. A size that the
  -- subtractions make negative is the length of a copy without an end.
  unfoldable pub nval_get : (xb name : List ℕ) → (bsize : ℕ) → Result (List ℕ)
  nval_get xb name bsize = elim (nval_find xb name) [
    | none ↦ failed no_data
    | some r ↦
        let s = skip_name (length xb) xb (r.0 + 4) (sub32 r.1 4) in
        let size = sub32 s.1 1 in
        if int_lt bsize size then failed range else ok (take size (drop (s.0 + 1) xb))
  ]

  -- The loop of `nval_list`: the names with their NULs, as long as they leave a byte of `bsize`. It is
  -- modelled for sizes that are not negative; the source's first test reads a size as unsigned.
  unfoldable pub list_loop : (fuel : ℕ) → List ℕ → (pos size bsize copied : ℕ) → List ℕ
  list_loop zero xb pos size bsize copied = []
  list_loop (suc fuel) xb pos size bsize copied =
      let len = strnlen (size - 4) (drop (pos + 4) xb) in
      let count = copied + (len + 1) in
      let next = pos + size in
      let rest = list_loop fuel xb next (next_size xb next) bsize count in
      if not (ltb 4 size && (leb size (length xb) && ltb (pos + size) (length xb)))
      then []
      else if ltb count bsize
      then take len (drop (pos + 4) xb) ++ (0 ∷ rest)
      else []

  -- `nval_list`: what it copies; the number of bytes is the result.
  unfoldable pub nval_list : List ℕ → (bsize : ℕ) → List ℕ
  nval_list xb bsize = list_loop (suc (length xb)) xb 0 (int_at xb 0) bsize 0

  -- `nval_hasvalues`.
  unfoldable pub nval_hasvalues : List ℕ → Bool
  nval_hasvalues xb = ltb 0 (nval_used xb)
