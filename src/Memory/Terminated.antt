-- ===== src/Memory/Terminated.antt =====
-- What safestrcpy leaves at the destination, and what strlen finds there.
use monitors_and_ipc.Prelude.{
  ℕ, zero, suc, ◌+◌, ◌<◌, ◌≤◌, ◌≡◌, ◌∙◌, ◌⊎◌, inl, inr, refl, sym, ap, true, false, ◌==◌, some,
  update, arith, Bool-cases,
}
use monitors_and_ipc.Memory.{Memory, safestrcpy, safe_loop, strlen, strlen_from}
use monitors_and_ipc.Memory.Blocks.{within}
use monitors_and_ipc.Memory.Copies.{Apart}

safe_loop_out :
    (n s t : ℕ) (m : Memory) (k : ℕ) → within s (suc n) k ≡ false → safe_loop s t n m k ≡ m k
unfolding safe_loop
safe_loop_out zero s t m k off = ground (arith, off)
safe_loop_out (suc n) s t m k off = elim (Bool-cases (m t == 0)) [
  | inl e ↦ rw e (ground (arith, off))
  | inr e ↦ rw e (
      safe_loop_out n (suc s) (suc t) (update m s (m t)) k (ground (arith, off))
      ∙ ground (arith, off))
]

-- From `s` on, at most `n` bytes of the string at `t` in `m`, and then a NUL, in `m'`; fewer only if the
-- string ends there.
abbrev pub CutString : (s t n : ℕ) → Memory → Memory → Type 0
CutString s t n m m' =
    (j : ℕ) × (j ≤ n)
    × (m' (s + j) ≡ 0)
    × ((i : ℕ) → i < j → (m' (s + i) ≡ m (t + i)) × ((m (t + i) == 0) ≡ false))
    × ((j ≡ n) ⊎ (m (t + j) ≡ 0))

at_zero : (s : ℕ) (m : Memory) → m (s + 0) ≡ m s
at_zero s m = ap m (omega arith)

at_suc : (s i : ℕ) (m : Memory) → m (s + suc i) ≡ m (suc s + i)
at_suc s i m = ap m (omega arith)

first_byte :
    (s t j : ℕ) (m m' : Memory)
    → m' s ≡ m t
    → (m t == 0) ≡ false
    → ((i : ℕ) → i < j → (m' (suc s + i) ≡ m (suc t + i)) × ((m (suc t + i) == 0) ≡ false))
    → (i : ℕ) → i < suc j
    → (m' (s + i) ≡ m (t + i)) × ((m (t + i) == 0) ≡ false)
first_byte s t j m m' e off later zero lt = rw (at_zero s m', at_zero t m) (e, off)
first_byte s t j m m' e off later (suc i) lt =
    rw (at_suc s i m', at_suc t i m) (later i (omega arith))

one_longer :
    (s t n : ℕ) (m m' : Memory)
    → m' s ≡ m t
    → (m t == 0) ≡ false
    → CutString (suc s) (suc t) n m m'
    → CutString s t (suc n) m m'
one_longer s t n m m' e off (j, le, nul, same, end) = (
  suc j,
  omega arith,
  at_suc s j m' ∙ nul,
  first_byte s t j m m' e off same,
  elim end [ inl all ↦ inl (omega arith) | inr short ↦ inr (at_suc t j m ∙ short) ],
)

cut_elsewhere :
    (s t n a b : ℕ) (m m' : Memory)
    → (a < t) ⊎ (t + n < a)
    → CutString s t n (update m a b) m'
    → CutString s t n m m'
cut_elsewhere s t n a b m m' out (j, le, nul, same, end) =
    let off : (i : ℕ) → i ≤ n → update m a b (t + i) ≡ m (t + i) = λ i lt. ground (arith, out) in
    (j, le, nul, λ i lt. rw (sym (off i (omega arith))) (same i lt), rw (sym (off j le)) end)

safe_loop-CutString :
    (n s t : ℕ) (m : Memory) → Apart s t (suc n) → CutString s t n m (safe_loop s t n m)
unfolding safe_loop
safe_loop-CutString zero s t m apart =
    (0, omega arith, ground arith, λ i lt. absurd (omega arith), inl refl)
safe_loop-CutString (suc n) s t m apart = elim (Bool-cases (m t == 0)) [
  | inl e ↦
      rw e
        (0, omega arith, ground (arith, e), λ i lt. absurd (omega arith), inr (ground (arith, e)))
  | inr e ↦ rw e (
      one_longer s t n m (safe_loop (suc s) (suc t) n (update m s (m t)))
        (safe_loop_out n (suc s) (suc t) (update m s (m t)) s (ground arith) ∙ ground arith) e
        (cut_elsewhere (suc s) (suc t) n s (m t) m (safe_loop (suc s) (suc t) n (update m s (m t)))
          (ground (arith, apart))
          (safe_loop-CutString n (suc s) (suc t) (update m s (m t)) (ground (arith, apart)))))
]

-- safestrcpy of `n` > 0 bytes, between two blocks of `n` bytes that have none in common, leaves a
-- string with its NUL at the destination: the source's, or its first n - 1 bytes if it is longer. No
-- byte outside the `n` ones changes.
pub safestrcpy-CutString :
    (s t n : ℕ) (m : Memory)
    → Apart s t (suc n)
    → CutString s t n m (safestrcpy s t (suc n) m)
      × ((k : ℕ) → within s (suc n) k ≡ false → safestrcpy s t (suc n) m k ≡ m k)
unfolding safestrcpy
safestrcpy-CutString s t n m apart =
    (safe_loop-CutString n s t m apart, λ k off. safe_loop_out n s t m k off)

strlen_from_lem :
    (rounds s n k : ℕ) (m : Memory)
    → k < rounds
    → (m (s + (n + k)) == 0) ≡ true
    → ((i : ℕ) → i < k → (m (s + (n + i)) == 0) ≡ false)
    → strlen_from rounds s n m ≡ some (n + k)
unfolding strlen_from
strlen_from_lem zero s n k m lt nul before = absurd (omega arith)
strlen_from_lem (suc rounds) s n zero m lt nul before =
    let e : n + 0 ≡ n = omega arith in
    let nul' : (m (s + n) == 0) ≡ true = ap (λ i. m (s + i) == 0) (sym e) ∙ nul in
    rw nul' (ap some (sym e))
strlen_from_lem (suc rounds) s n (suc k) m lt nul before =
    let e : n + 0 ≡ n = omega arith in
    let later : (i : ℕ) → suc n + i ≡ n + suc i = λ i. omega arith in
    let off : (m (s + n) == 0) ≡ false =
      ap (λ i. m (s + i) == 0) (sym e) ∙ before 0 (omega arith) in
    rw off (
      strlen_from_lem rounds s (suc n) k m (omega arith) (ap (λ i. m (s + i) == 0) (later k) ∙ nul)
        (λ i lt'. ap (λ i. m (s + i) == 0) (later i) ∙ before (suc i) (omega arith))
      ∙ ap some (later k))

strlen_lem :
    (rounds s k : ℕ) (m : Memory)
    → k < rounds
    → m (s + k) ≡ 0
    → ((i : ℕ) → i < k → (m (s + i) == 0) ≡ false)
    → strlen rounds s m ≡ some k
unfolding strlen
strlen_lem rounds s k m lt nul before =
    let e : (i : ℕ) → s + (0 + i) ≡ s + i = λ i. omega arith in
    strlen_from_lem rounds s 0 k m lt (ap (λ i. m i == 0) (e k) ∙ ap (λ b. b == 0) nul)
      (λ i lt'. ap (λ a. m a == 0) (e i) ∙ before i lt')
    ∙ ap some (omega arith)

-- After a safestrcpy of `n` + 1 bytes between blocks that have none in common, strlen finds a length of
-- at most `n`, and of less only if it is the source's.
pub strlen-safestrcpy :
    (s t n : ℕ) (m : Memory)
    → Apart s t (suc n)
    → (j : ℕ) × (j ≤ n)
      × (strlen (suc n) s (safestrcpy s t (suc n) m) ≡ some j)
      × ((j ≡ n) ⊎ (strlen (suc n) t m ≡ some j))
strlen-safestrcpy s t n m apart =
    let ((j, le, nul, same, end), _) = safestrcpy-CutString s t n m apart in
    (
      j,
      le,
      strlen_lem (suc n) s j (safestrcpy s t (suc n) m) (omega arith) nul
          (λ i lt. ap (λ b. b == 0) (same i lt).0 ∙ (same i lt).1),
      elim end [
        | inl all ↦ inl all
        | inr short ↦ inr (strlen_lem (suc n) t j m (omega arith) short (λ i lt. (same i lt).1))
      ],
    )
