-- ===== src/Memory/Copies.antt =====
-- What strncpy and safestrcpy leave at the destination.
use monitors_and_ipc.Prelude.{
  ℕ, zero, suc, ◌+◌, ◌<◌, ◌≤◌, ◌≡◌, ◌∙◌, ◌⊎◌, inl, inr, refl, false, ◌==◌, if◌then◌else◌, update,
  arith, Bool-cases,
}
use monitors_and_ipc.Memory.{Memory, strncpy, zero_fill}
use monitors_and_ipc.Memory.Blocks.{within}

-- The two blocks of `n` bytes have no byte in common.
abbrev pub Apart : (s t n : ℕ) → Type 0
Apart s t n = (s + n ≤ t) ⊎ (t + n ≤ s)

-- The byte for address `k` of the `n` bytes from `s` on: the string at `t`, and zeros from its NUL on.
abbrev pub padded : (n s t : ℕ) → Memory → ℕ → ℕ
padded zero s t m k = m k
padded (suc n) s t m k =
    if k == s then m t else if m t == 0 then 0 else padded n (suc s) (suc t) m k

zero_fill_lem :
    (n s : ℕ) (m : Memory) (k : ℕ) → zero_fill n s m k ≡ (if within s n k then 0 else m k)
unfolding zero_fill
zero_fill_lem zero s m k = ground arith
zero_fill_lem (suc n) s m k = zero_fill_lem n (suc s) (update m s 0) k ∙ ground arith

padded_same :
    (n s t a b : ℕ) (m : Memory) (k : ℕ)
    → (a < t) ⊎ (t + n ≤ a)
    → (a == k) ≡ false
    → padded n s t (update m a b) k ≡ padded n s t m k
padded_same zero s t a b m k out apart = rw apart refl
padded_same (suc n) s t a b m k out apart =
    let e : (a == t) ≡ false = ground (arith, out) in
    rw (e, padded_same n (suc s) (suc t) a b m k (ground (arith, out)) apart) refl

shifted :
    (n s t : ℕ) (m : Memory) (k : ℕ)
    → Apart s t (suc n)
    → (m t == 0) ≡ false
    → (if within (suc s) n k
        then padded n (suc s) (suc t) (update m s (m t)) k
        else update m s (m t) k)
      ≡ (if within s (suc n) k then padded (suc n) s t m k else m k)
shifted n s t m k apart e = elim (Bool-cases (s == k)) [
  | inl at ↦ ground (arith, at)
  | inr off ↦
      rw (e, padded_same n (suc s) (suc t) s (m t) m k (ground (arith, apart)) off)
        (ground (arith, off))
]

-- strncpy between two blocks of `n` bytes that have none in common puts the string at the source, cut
-- after `n` bytes, at the destination, fills the rest with zeros, and changes no other byte.
pub strncpy_lem :
    (n s t : ℕ) (m : Memory) (k : ℕ)
    → Apart s t n
    → strncpy s t n m k ≡ (if within s n k then padded n s t m k else m k)
unfolding strncpy
strncpy_lem zero s t m k apart = ground arith
strncpy_lem (suc n) s t m k apart = elim (Bool-cases (m t == 0)) [
  | inl e ↦ rw e (zero_fill_lem n (suc s) (update m s (m t)) k ∙ ground (arith, e))
  | inr e ↦
      (let step : strncpy s t (suc n) m k ≡ strncpy (suc s) (suc t) n (update m s (m t)) k =
          rw e refl in
        step
        ∙ strncpy_lem n (suc s) (suc t) (update m s (m t)) k (ground (arith, apart))
        ∙ shifted n s t m k apart e)
]
