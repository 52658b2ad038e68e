-- ===== src/Files/Roundtrip.antt =====
-- yaffs_guts.c: a chunk is put into a file, and chunks of the file are looked for.
use mathlib.Core.Path.{subst}
use whisper_yaffs.Prelude.{
  ℕ, ◌+◌, zero, suc, ◌*◌, ◌/◌, ◌%◌, ◌^◌, ◌≤◌, ◌<◌, ◌<<<◌, ◌>>>◌, ◌≡◌, refl, sym, ap, ◌∙◌, Bool,
  true, false, ◌&&◌, arith, List, Option, none, some, ◌==◌, Bool-cases, ◌⊎◌, inl, inr,
  if◌then◌else◌, u32, some-injective,
}
use whisper_yaffs.Tags.{ExtendedTags}
use whisper_yaffs.Blocks.{Device, Driver}
use whisper_yaffs.Tnode.{get_chunk_group_base}
use whisper_yaffs.Tnode.Roundtrip.{packing}
use whisper_yaffs.Tnode.Tree.{
  Tnode, FileStructure, Tnodes, Allocator, find_level0_tnode, add_or_find_level0_tnode,
  max_chunk_id, tnodes_max_level,
}
use whisper_yaffs.Tnode.Tree.Add.{AddsAt, add_or_find-AddsAt}
use whisper_yaffs.Files.{
  File, Store, Found, load_entry, group_loop, find_chunk_in_group, find_chunk_in_file,
}
use whisper_yaffs.Files.Entries.{find_same}
use whisper_yaffs.Files.Put.{not_scanning, put_chunk_into_file, put_entry, set_entry}
use whisper_yaffs.Files.Base.{Given, base, HasRoom, Given-HasRoom, Given-base, base-load_entry}

module _ {N : Type 0} (driver : Driver N) where
  -- Without a group there is no chunk.
  no_group :
      (size : ℕ) (d : Device N) (tags : ExtendedTags) (o c : ℕ)
      → some (record { chunk = none; tags = tags; device = d })
        ≡ find_chunk_in_group driver size d 0 tags o c
  unfolding find_chunk_in_group group_loop
  no_group zero d tags o c = refl
  no_group (suc n) d tags o c = refl

  find_chunk_in_file_lem :
      {A : Type 0} (s : Store N A) (file : File) (c : ℕ) (tags : ExtendedTags)
      → find_chunk_in_file driver s file c tags
        ≡ find_chunk_in_group driver s.chunk_group_size s.device
            (base s.packing (find_level0_tnode file.structure c) c)
            tags
            file.object_id
            c
  unfolding find_chunk_in_file base
  find_chunk_in_file_lem s file c tags =
      elim (find_level0_tnode file.structure c)
        as (λ t.
          (elim t [
            | none ↦ some (record { chunk = none; tags = tags; device = s.device })
            | some words ↦
                find_chunk_in_group driver s.chunk_group_size s.device
                  (get_chunk_group_base s.packing words c) tags file.object_id c
          ])
          ≡ find_chunk_in_group driver s.chunk_group_size s.device (base s.packing t c) tags
              file.object_id c) [
                | none ↦ no_group s.chunk_group_size s.device tags file.object_id c
                | some words ↦ refl
              ]

module _ {N A : Type 0} (driver : Driver N) (allocator : Allocator A) where
  -- What a search finds after a chunk is put into a file, or is not.
  abbrev pub Puts :
      Store N A → File → (w g c k c' : ℕ) → ExtendedTags → Bool × File × Store N A → Type 0
  Puts s file w g c k c' tags r = find_chunk_in_file driver r.2 r.1 c' tags ≡ (
      if r.0 && (c' == c)
      then find_chunk_in_group driver s.chunk_group_size s.device (u32 (((k >>> g) % 2 ^ w) <<< g))
          tags file.object_id c'
      else find_chunk_in_file driver s file c' tags)

  -- Where no tnode is given, there was none.
  never :
      (s : Store N A) (file : File) (c c' : ℕ) (f1 : FileStructure) (t1 : Tnodes A)
      → AddsAt allocator file.structure c s.tnodes c' (none, f1, t1)
      → find_level0_tnode file.structure c ≡ none
  never s file c c' f1 t1 adds = elim adds.given [
    | inl same ↦ sym same
    | inr (missing, new) ↦ missing
  ]

  -- Then the tree finds what it found before.
  no_tnode :
      (s : Store N A) (file : File) (c c' : ℕ) (f1 : FileStructure) (t1 : Tnodes A)
      → AddsAt allocator file.structure c s.tnodes c' (none, f1, t1)
      → find_level0_tnode f1 c' ≡ find_level0_tnode file.structure c'
  no_tnode s file c c' f1 t1 adds =
      let absent = never s file c c' f1 t1 adds in
      let before = find_level0_tnode file.structure c' in
      elim (Bool-cases (c' / 16 == c / 16)) [
        | inl same ↦
            adds.found
            ∙ ap (λ (b : Bool). if b then none else before) same
            ∙ sym absent
            ∙ find_same file.structure c c' same
        | inr differs ↦ adds.found ∙ ap (λ (b : Bool). if b then none else before) differs
      ]

  not_put :
      (s : Store N A) (file : File) (w g c k c' : ℕ) (tags : ExtendedTags) (f1 : FileStructure)
      (t1 : Tnodes A)
      → AddsAt allocator file.structure c s.tnodes c' (none, f1, t1)
      → Puts s file w g c k c' tags
          (false, record file { structure = f1 }, record s { tnodes = t1 })
  not_put s file w g c k c' tags f1 t1 adds =
      let file1 = record file { structure = f1 } in
      let s1 = record s { tnodes = t1 } in
      let same = no_tnode s file c c' f1 t1 adds in
      find_chunk_in_file_lem driver s1 file1 c' tags
      ∙ ap
          (λ (t : Tnode 0).
            find_chunk_in_group driver s.chunk_group_size s.device (base s.packing t c') tags
              file.object_id c')
          same
      ∙ sym (find_chunk_in_file_lem driver s file c' tags)

  -- With a tnode.
  put :
      (s : Store N A) (file : File) (w g c k c' : ℕ) (tags : ExtendedTags) (words : List ℕ)
      (f1 : FileStructure) (t1 : Tnodes A)
      → s.packing ≡ packing w g
      → 0 < w
      → w ≤ 32
      → HasRoom w words
      → AddsAt allocator file.structure c s.tnodes c (some words, f1, t1)
      → AddsAt allocator file.structure c s.tnodes c' (some words, f1, t1)
      → Puts s file w g c k c' tags (
          set_entry
            (record s { tnodes = t1 })
            (record file { structure = f1 })
            words
            c
            k
            (some (get_chunk_group_base s.packing words c)))
  unfolding set_entry
  put s file w g c k c' tags words f1 t1 packed positive narrow room here there =
      let r =
        set_entry (record s { tnodes = t1 }) (record file { structure = f1 }) words c k
          (some (get_chunk_group_base s.packing words c)) in
      let search : ℕ → Option (Found N) =
        λ b. find_chunk_in_group driver s.chunk_group_size s.device b tags file.object_id c' in
      let cut = u32 (((k >>> g) % 2 ^ w) <<< g) in
      let before = base s.packing (find_level0_tnode file.structure c') c' in
      let same : (c / 16 == c / 16) ≡ true = ground arith in
      let own : find_level0_tnode f1 c ≡ some words =
        here.found
        ∙ ap (λ (b : Bool). if b then some words else find_level0_tnode file.structure c) same in
      let entry : base s.packing (find_level0_tnode (load_entry s.packing f1 words c k) c') c'
          ≡ (if c' == c then cut else before) =
        rw packed (
          base-load_entry w g file.structure f1 s.tnodes.n_words c k c' words positive narrow
            here.low room here.given own there.found) in
      find_chunk_in_file_lem driver r.2 r.1 c' tags
      ∙ ap search entry
      ∙ elim (Bool-cases (c' == c)) [
        | inl e ↦ rw e refl
        | inr e ↦ rw e (sym (find_chunk_in_file_lem driver s file c' tags))
      ]

  -- A chunk is counted where there was no entry.
  counted :
      (s : Store N A) (file : File) (w g c k : ℕ) (words : List ℕ) (f1 : FileStructure)
      (t1 : Tnodes A)
      → s.packing ≡ packing w g
      → Given file.structure s.tnodes.n_words c (some words)
      → (set_entry
          (record s { tnodes = t1 })
          (record file { structure = f1 })
          words
          c
          k
          (some (get_chunk_group_base s.packing words c))).1.n_data_chunks
        ≡ (if base s.packing (find_level0_tnode file.structure c) c == 0
            then u32 (file.n_data_chunks + 1)
            else file.n_data_chunks)
  unfolding set_entry base
  counted s file w g c k words f1 t1 packed given =
      let same : (c / 16 == c / 16) ≡ true = ground arith in
      let entry : get_chunk_group_base s.packing words c
          ≡ base s.packing (find_level0_tnode file.structure c) c =
        rw packed (Given-base w g file.structure s.tnodes.n_words c words c given same) in
      ap (λ (x : ℕ). if x == 0 then u32 (file.n_data_chunks + 1) else file.n_data_chunks) entry

  -- What `yaffs_PutChunkIntoFile` gives, and what a search finds then.
  unfoldable pub Stores : Store N A → File → (w g c k c' : ℕ) → (tags left : ExtendedTags) → Type 0
  Stores s file w g c k c' tags left =
      (r : Bool × File × Store N A) × (put_chunk_into_file driver allocator s file c k not_scanning
          left
        ≡ some r)
      × ((r.0 ≡ true) ⊎ (find_level0_tnode file.structure c ≡ none))
      × (r.1.n_data_chunks ≡ (
          if r.0 && (base s.packing (find_level0_tnode file.structure c) c == 0)
          then u32 (file.n_data_chunks + 1)
          else file.n_data_chunks))
      × Puts s file w g c k c' tags r

  put_found :
      (s : Store N A) (file : File) (w g c k c' : ℕ) (tags left : ExtendedTags) (t : Tnode 0)
      (f1 : FileStructure) (t1 : Tnodes A)
      → s.packing ≡ packing w g
      → 0 < w
      → w ≤ 32
      → file.is_file ≡ true
      → (k == 0) ≡ false
      → w ≤ 2 * s.tnodes.n_words
      → ((old : List ℕ) → find_level0_tnode file.structure c ≡ some old → HasRoom w old)
      → add_or_find_level0_tnode allocator file.structure c none s.tnodes ≡ some (t, f1, t1)
      → AddsAt allocator file.structure c s.tnodes c (t, f1, t1)
      → AddsAt allocator file.structure c s.tnodes c' (t, f1, t1)
      → Stores s file w g c k c' tags left
  unfolding Stores put_entry put_chunk_into_file set_entry
  put_found s file w g c k c' tags left none f1 t1 packed positive narrow is_file some_chunk room
        old returned here there =
      (
        (false, record file { structure = f1 }, record s { tnodes = t1 }),
        simp (is_file, returned, put_chunk_into_file) refl,
        inr (never s file c c f1 t1 here),
        refl,
        not_put s file w g c k c' tags f1 t1 there,
      )
  put_found s file w g c k c' tags left (some words) f1 t1 packed positive narrow is_file some_chunk
        room old returned here there =
      (
        set_entry (record s { tnodes = t1 }) (record file { structure = f1 }) words c k
            (some (get_chunk_group_base s.packing words c)),
        simp (is_file, returned, some_chunk, put_chunk_into_file) refl,
        inl refl,
        counted s file w g c k words f1 t1 packed here.given,
        put s file w g c k c' tags words f1 t1 packed positive narrow
            (Given-HasRoom w g file.structure s.tnodes.n_words c words here.given old room) here
            there,
      )

  -- `yaffs_PutChunkIntoFile` for a chunk of the flash above zero, outside a scan, always returns. It fails
  -- only where the chunk of the file had no tnode before. Where it succeeds, a search by
  -- `yaffs_FindChunkInFile` for that chunk then looks through the group that begins at the number put,
  -- without its group bits and cut to the width of an entry, and a chunk that had no entry before is
  -- counted. A search for another chunk of the file, or for any chunk where it fails, finds what it found
  -- before. This is for a file with a tree of at most six levels, a number in the file that is not too
  -- big, entries of 1 to 32 digits, and tnodes that have the words for 16 entries.
  pub find_chunk_in_file-put_chunk_into_file :
      (s : Store N A) (file : File) (w g c k c' : ℕ) (tags left : ExtendedTags)
      → s.packing ≡ packing w g
      → 0 < w
      → w ≤ 32
      → file.is_file ≡ true
      → 0 < k
      → c ≤ max_chunk_id
      → file.structure.top_level ≤ tnodes_max_level
      → w ≤ 2 * s.tnodes.n_words
      → ((old : List ℕ) → find_level0_tnode file.structure c ≡ some old → HasRoom w old)
      → Stores s file w g c k c' tags left
  find_chunk_in_file-put_chunk_into_file s file w g c k c' tags left packed positive narrow is_file
        some_chunk small low room old =
      let (r, returned, here) =
        add_or_find-AddsAt allocator file.structure c s.tnodes c low small in
      let (r', returned', there) =
        add_or_find-AddsAt allocator file.structure c s.tnodes c' low small in
      let same : r' ≡ r = some-injective (sym returned' ∙ returned) in
      put_found s file w g c k c' tags left r.0 r.1 r.2 packed positive narrow is_file
        (ground (arith, some_chunk)) room old returned here
        (subst
          (λ (q : Tnode 0 × FileStructure × Tnodes A).
            AddsAt allocator file.structure c s.tnodes c' q)
          same there)
