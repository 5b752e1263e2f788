-- ===== src/Memory/Tests.antt =====
-- Runs on small blocks.
use monitors_and_ipc.Prelude.{
  ℕ, ◌==◌, ◌≤◌, ◌⊎◌, inr, false, arith, some, if◌then◌else◌, ◌≡◌, refl, pos, negsuc,
}
use monitors_and_ipc.Memory.{
  Memory, memmove, memcmp, strncmp, safestrcpy, safe_loop, strlen, strlen_from,
}
use monitors_and_ipc.Memory.Blocks.{memmove_lem}
use monitors_and_ipc.Memory.Terminated.{safestrcpy-CutString, CutString, strlen-safestrcpy}
use monitors_and_ipc.Memory.Blocks.{within}

-- Byte `k` holds `k`.
abbrev ramp : Memory
ramp k = k

memmove_lem_example : memmove 4 2 5 ramp 7 ≡ 5
memmove_lem_example = memmove_lem 4 2 5 ramp 7

memcmp_result : memcmp 2 4 3 ramp ≡ negsuc 1
unfolding memcmp
memcmp_result = refl

-- The string of three bytes 7 at 10, among bytes 7 and 0.
abbrev sevens : Memory
sevens k = if k == 13 then 0 else 7

safestrcpy-CutString_example :
    CutString 20 10 2 sevens (safestrcpy 20 10 3 sevens)
    × ((k : ℕ) → within 20 3 k ≡ false → safestrcpy 20 10 3 sevens k ≡ sevens k)
safestrcpy-CutString_example = safestrcpy-CutString 20 10 2 sevens (inr (omega arith))

strlen-safestrcpy_example :
    (j : ℕ) × (j ≤ 5)
    × (strlen 6 20 (safestrcpy 20 10 6 sevens) ≡ some j)
    × ((j ≡ 5) ⊎ (strlen 6 10 sevens ≡ some j))
strlen-safestrcpy_example = strlen-safestrcpy 20 10 5 sevens (inr (omega arith))

strlen_result : strlen 6 20 (safestrcpy 20 10 6 sevens) ≡ some 3
unfolding strlen strlen_from safestrcpy safe_loop
strlen_result = refl

strncmp_result : strncmp 10 11 5 sevens ≡ pos 7
unfolding strncmp
strncmp_result = refl
