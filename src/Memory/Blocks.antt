-- ===== src/Memory/Blocks.antt =====
-- What the block operations do to each byte.
use monitors_and_ipc.Prelude.{
  ℕ, zero, suc, ◌+◌, ◌-◌, ◌%◌, ◌<◌, ◌≤◌, ◌≡◌, ◌∙◌, ◌⊎◌, inl, inr, Bool, ◌&&◌, ltb, leb,
  if◌then◌else◌, update, arith, Bool-cases,
}
use monitors_and_ipc.Memory.{Memory, set_from, memset, copy_down, copy_up, memmove}

-- `k` is one of the `n` addresses from `a` on.
abbrev pub within : (a n k : ℕ) → Bool
within a n k = leb a k && ltb k (a + n)

-- The memory `m` with the `n` bytes from `s` on at `d` as well.
abbrev pub moved : (d s n : ℕ) → Memory → Memory
moved d s n m k = if within d n k then m (s + (k - d)) else m k

copy_down_lem : (n s d : ℕ) (m : Memory) (k : ℕ) → s < d → copy_down n s d m k ≡ moved d s n m k
unfolding copy_down
copy_down_lem zero s d m k lt = ground arith
copy_down_lem (suc n) s d m k lt =
    copy_down_lem n s d (update m (d + n) (m (s + n))) k lt ∙ ground (arith, lt)

copy_up_lem :
    (n s d : ℕ) (m : Memory) (k : ℕ) → (d ≤ s) ⊎ (s + n ≤ d) → copy_up n s d m k ≡ moved d s n m k
unfolding copy_up
copy_up_lem zero s d m k apart = ground arith
copy_up_lem (suc n) s d m k apart =
    copy_up_lem n (suc s) (suc d) (update m d (m s)) k (ground (arith, apart))
    ∙ ground (arith, apart)

-- memmove of any two blocks, overlapping or not, puts the bytes that stood at the source at the
-- destination, and changes no other byte.
pub memmove_lem : (dst src n : ℕ) (m : Memory) (k : ℕ) → memmove dst src n m k ≡ moved dst src n m k
unfolding memmove
memmove_lem dst src zero m k = ground arith
memmove_lem dst src (suc n) m k = elim (Bool-cases (ltb src dst && ltb dst (src + suc n))) [
  | inl e ↦ rw e (copy_down_lem (suc n) src dst m k (ground (arith, e)))
  | inr e ↦ rw e (copy_up_lem (suc n) src dst m k (ground (arith, e)))
]

set_lem :
    (n i dst c : ℕ) (m : Memory) (k : ℕ)
    → set_from n i dst c m k ≡ (if within (dst + i) n k then c % 256 else m k)
unfolding set_from
set_lem zero i dst c m k = ground arith
set_lem (suc n) i dst c m k =
    set_lem n (suc i) dst c (update m (dst + i) (c % 256)) k ∙ ground arith

-- memset sets the bytes of the block to the low byte of its argument, and changes no other byte.
pub memset_lem :
    (dst c n : ℕ) (m : Memory) (k : ℕ)
    → memset dst c n m k ≡ (if within dst n k then c % 256 else m k)
unfolding memset
memset_lem dst c n m k = set_lem n 0 dst c m k ∙ ground arith
