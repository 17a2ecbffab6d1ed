-- ===== src/Syscall/Tests.antt =====
-- A process of 4096 bytes whose memory holds 8 in every byte but the last.
use sofinal_project.Prelude.{
  ℕ, ◌+◌, ◌≡◌, ◌≢◌, ◌≤◌, ◌<◌, refl, none, some, arith, ltb, ◌==◌, if◌then◌else◌,
}
use sofinal_project.Syscall.{Bytes, int_at, fetchstr, fetchstr_loop, argptr}
use sofinal_project.Syscall.Bounds.{slot, argptr-inside, fetchstr-inside}

abbrev memory : Bytes
memory a = if a == 4095 then 0 else if a == 101 then 1 else if ltb 103 a then 8 else 0

-- The argument at 100 is 256, a pointer to a block of 3840 bytes.
argptr_passes : argptr 4096 memory 96 0 3840 ≡ some 256
unfolding argptr
argptr_passes = refl

argptr-inside_example :
    (256 + 3840 ≤ 4096) × (256 < 4096) × (slot 96 0 + 4 ≤ 4096) × (256 ≡ int_at memory (slot 96 0))
argptr-inside_example = argptr-inside 4096 memory 96 0 3840 256 (omega arith) argptr_passes

one_byte_more : argptr 4096 memory 96 0 3841 ≡ none
unfolding argptr
one_byte_more = refl

abbrev string_start : ℕ
string_start = 4093

string_passes : fetchstr 4096 memory 4093 ≡ some (4093, 2)
unfolding fetchstr fetchstr_loop
string_passes = refl

fetchstr-inside_example :
    (string_start ≡ 4093)
    × (4093 + 2 < 4096)
    × (memory (4093 + 2) ≡ 0)
    × ((k : ℕ) → k < 2 → memory (4093 + k) ≢ 0)
fetchstr-inside_example = fetchstr-inside 4096 memory 4093 4093 2 string_passes
