-- ===== src/Memory.antt =====
-- The block operations of a2-phase2/xv6-A2/kernel/string.c on a memory of bytes: an address is a number,
-- a block does not wrap around the end of the address space, and memset is called with less than 2 ^ 31
-- bytes, where its counter does not overflow.
pub mod Blocks
pub mod Compare
pub mod Copies
pub mod Terminated
mod Tests
use monitors_and_ipc.Prelude.{
  ℕ, zero, suc, ◌+◌, ◌-◌, ◌%◌, Bool, true, false, not, Option, none, some, ◌&&◌, ◌==◌, ltb,
  if◌then◌else◌, update, ℤ, pos, negsuc,
}

abbrev pub Memory : Type 0
Memory = ℕ → ℕ

-- `cdst[i] = c`, for the `rounds` bytes from `i` on.
unfoldable pub set_from : (rounds i dst c : ℕ) → Memory → Memory
set_from zero i dst c m = m
set_from (suc rounds) i dst c m = set_from rounds (suc i) dst c (update m (dst + i) (c % 256))

unfoldable pub memset : (dst c n : ℕ) → Memory → Memory
memset dst c n m = set_from n 0 dst c m

-- `*--d = *--s`, from the ends `s + n` and `d + n` down.
unfoldable pub copy_down : (n s d : ℕ) → Memory → Memory
copy_down zero s d m = m
copy_down (suc n) s d m = copy_down n s d (update m (d + n) (m (s + n)))

-- `*d++ = *s++`.
unfoldable pub copy_up : (n s d : ℕ) → Memory → Memory
copy_up zero s d m = m
copy_up (suc n) s d m = copy_up n (suc s) (suc d) (update m d (m s))

unfoldable pub memmove : (dst src n : ℕ) → Memory → Memory
memmove dst src zero m = m
memmove dst src (suc n) m =
    if ltb src dst && ltb dst (src + suc n)
    then copy_down (suc n) src dst m
    else copy_up (suc n) src dst m

unfoldable pub memcpy : (dst src n : ℕ) → Memory → Memory
memcpy dst src n m = memmove dst src n m

-- `a - b` of two bytes, as an `int`.
abbrev pub difference : ℕ → ℕ → ℤ
difference a b = if ltb a b then negsuc (b - a - 1) else pos (a - b)

unfoldable pub memcmp : (v1 v2 n : ℕ) → Memory → ℤ
memcmp v1 v2 zero m = pos 0
memcmp v1 v2 (suc n) m =
    let rest = memcmp (suc v1) (suc v2) n m in
    if m v1 == m v2 then rest else difference (m v1) (m v2)

-- strncmp of `n` bytes at most.
unfoldable pub strncmp : (p q n : ℕ) → Memory → ℤ
strncmp p q zero m = pos 0
strncmp p q (suc n) m =
    let rest = strncmp (suc p) (suc q) n m in
    if not (m p == 0) && (m p == m q) then rest else difference (m p) (m q)

-- `*s++ = 0`, the second loop of strncpy.
unfoldable pub zero_fill : (n s : ℕ) → Memory → Memory
zero_fill zero s m = m
zero_fill (suc n) s m = zero_fill n (suc s) (update m s 0)

-- The loops of strncpy; a length below 0 does what 0 does.
unfoldable pub strncpy : (s t n : ℕ) → Memory → Memory
strncpy s t zero m = m
strncpy s t (suc n) m =
    let filled = zero_fill n (suc s) (update m s (m t)) in
    let rest = strncpy (suc s) (suc t) n (update m s (m t)) in if m t == 0 then filled else rest

-- safestrcpy from its loop on, with `n` the length less 1, and then `*s = 0`.
unfoldable pub safe_loop : (s t n : ℕ) → Memory → Memory
safe_loop s t zero m = update m s 0
safe_loop s t (suc n) m =
    let rest = safe_loop (suc s) (suc t) n (update m s (m t)) in
    if m t == 0 then update (update m s (m t)) (suc s) 0 else rest

unfoldable pub safestrcpy : (s t n : ℕ) → Memory → Memory
safestrcpy s t zero m = m
safestrcpy s t (suc n) m = safe_loop s t n m

-- strlen, `none` if there is no NUL in the `rounds` bytes from `s + n` on.
unfoldable pub strlen_from : (rounds s n : ℕ) → Memory → Option ℕ
strlen_from zero s n m = none
strlen_from (suc rounds) s n m =
    let rest = strlen_from rounds s (suc n) m in if m (s + n) == 0 then some n else rest

unfoldable pub strlen : (rounds s : ℕ) → Memory → Option ℕ
strlen rounds s m = strlen_from rounds s 0 m
