-- ===== src/Nameval/Tests.antt =====
-- The store on a buffer of 16 bytes that holds the value 9 under the name `a`.
use whisper_yaffs.Prelude.{
  ℕ, arith, ◌+◌, ◌*◌, ◌/◌, ◌%◌, ◌≡◌, refl, List, [], ◌∷◌, replicate, some, true, false,
}
use whisper_yaffs.Nameval.{
  IntLayout, nval_find, nval_set, nval_get, nval_list, skip_name, list_loop, find_loop,
  strncmp_equal, nval_used, used_loop, put_record, ok, int_at, record_here, next_size, write,
  strnlen, strncpy,
}
use whisper_yaffs.Nameval.Find.{Finds, nval_find-Finds}

abbrev little_endian_int : IntLayout
little_endian_int = record {
  of_bytes = λ b0 b1 b2 b3. b0 + b1 * 256 + b2 * 65536 + b3 * 16777216;
  to_bytes = λ n. n % 256 ∷ n / 256 % 256 ∷ n / 65536 % 256 ∷ n / 16777216 % 256 ∷ [];
}

abbrev one_value : List ℕ
one_value = 7 ∷ 0 ∷ 0 ∷ 0 ∷ 97 ∷ 0 ∷ 9 ∷ replicate 9 0

set_one :
    nval_set little_endian_int (replicate 16 0) (97 ∷ []) (9 ∷ []) true false ≡ (one_value, ok tt)
unfolding nval_set nval_find nval_used find_loop used_loop put_record int_at record_here next_size
    write strnlen strncpy strncmp_equal
set_one = refl

find_one : nval_find little_endian_int one_value (97 ∷ []) ≡ some (0, 7)
unfolding nval_find find_loop int_at record_here next_size strncmp_equal
find_one = refl

nval_find-Finds_example :
    Finds little_endian_int one_value (97 ∷ []) (nval_find little_endian_int one_value (97 ∷ []))
nval_find-Finds_example =
    nval_find-Finds little_endian_int one_value (97 ∷ []) (λ e. omega (arith, e), tt)

get_one : nval_get little_endian_int one_value (97 ∷ []) 4 ≡ ok (9 ∷ [])
unfolding nval_get nval_find find_loop int_at record_here next_size strncmp_equal skip_name
get_one = refl

list_one : nval_list little_endian_int one_value 16 ≡ 97 ∷ 0 ∷ []
unfolding nval_list list_loop int_at next_size strnlen
list_one = refl
