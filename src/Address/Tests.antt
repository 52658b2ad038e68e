-- ===== src/Address/Tests.antt =====
-- Chunks of 1024 and of 1016 bytes, and the shifts of some numbers.
use whisper_yaffs.Prelude.{◌*◌, ◌^◌, ◌≤◌, ◌<◌, ◌≡◌, ◌/◌, ◌%◌, refl, arith}
use whisper_yaffs.Address.{
  shifts_ge, shifts_ge_loop, shifts, shifts_loop, chunk_sizes, addr_to_chunk,
}
use whisper_yaffs.Address.Power.{shifts_ge_lem}
use whisper_yaffs.Address.Split.{addr_to_chunk_lem}

shifts_ge_test : shifts_ge 1000 ≡ 10
unfolding shifts_ge shifts_ge_loop
shifts_ge_test = refl

shifts_ge_power : shifts_ge 1024 ≡ 10
unfolding shifts_ge shifts_ge_loop
shifts_ge_power = refl

shifts_test : shifts 1016 ≡ 3
unfolding shifts shifts_loop
shifts_test = refl

power_test : addr_to_chunk (chunk_sizes 1024) 5000 ≡ (4, 904)
unfolding addr_to_chunk chunk_sizes shifts shifts_loop
power_test = refl

addr_to_chunk_lem_example : addr_to_chunk (chunk_sizes 1016) 5000 ≡ (5000 / 1016, 5000 % 1016)
unfolding shifts shifts_loop
addr_to_chunk_lem_example = addr_to_chunk_lem 1016 5000 (omega arith) (omega arith) (omega arith)

shifts_ge_lem_example : (1000 ≤ 2 ^ shifts_ge 1000) × (2 ^ shifts_ge 1000 < 2 * 1000)
shifts_ge_lem_example = shifts_ge_lem 1000 (omega arith) (omega arith)
