-- ===== src/Journal/Replay.antt =====
-- What install_trans does to the disk and to the cache, if the machine stops on the way.
use monitors_and_ipc.Prelude.{
  ℕ, zero, suc, ◌+◌, ◌-◌, ◌≡◌, ◌∙◌, ◌≤◌, ◌<◌, ◌⊎◌, inl, inr, refl, sym, ap, false, ◌==◌,
  if◌then◌else◌, arith, Bool-cases,
}
use monitors_and_ipc.Journal.{Block, log_blocks}

-- A block that is not of the log.
abbrev pub IsData : ℕ → ℕ → Type 0
IsData start b = (b < start) ⊎ (start + log_blocks < b)

-- What is in block `b` after `rounds` rounds from `tail`, of which `power` are written: `x` was there before.
unfoldable pub replay : (block : ℕ → ℕ) (slot : ℕ → Block) (b power rounds tail : ℕ) → Block → Block
replay block slot b zero rounds tail x = x
replay block slot b (suc power) zero tail x = x
replay block slot b (suc power) (suc rounds) tail x =
    replay block slot b power rounds (suc tail) (if block tail == b then slot tail else x)

pub replay_done :
    (block : ℕ → ℕ) (slot : ℕ → Block) (b p tail : ℕ) (x : Block)
    → replay block slot b p zero tail x ≡ x
unfolding replay
replay_done block slot b zero tail x = refl
replay_done block slot b (suc p) tail x = refl

replay_more :
    (block : ℕ → ℕ) (slot : ℕ → Block) (b p rounds tail : ℕ) (x : Block)
    → suc rounds ≤ p
    → replay block slot b p (suc rounds) tail x
      ≡ replay block slot b (p - 1) rounds (suc tail) (if block tail == b then slot tail else x)
unfolding replay
replay_more block slot b zero rounds tail x le = absurd (omega (arith, le))
replay_more block slot b (suc p) rounds tail x le =
    (let e : suc p - 1 ≡ p = omega arith in rw e refl)

-- Enough power is all that matters of it.
abbrev Overwritten : (ℕ → ℕ) → (ℕ → Block) → (b rounds tail : ℕ) → Type 0
Overwritten block slot b rounds tail =
    (p q : ℕ) (x y : Block)
    → rounds ≤ p
    → rounds ≤ q
    → replay block slot b p rounds tail x ≡ replay block slot b q rounds tail y

abbrev Kept : (ℕ → ℕ) → (ℕ → Block) → (b rounds tail : ℕ) → Type 0
Kept block slot b rounds tail = (p : ℕ) (x : Block) → replay block slot b p rounds tail x ≡ x

missed-Kept :
    (block : ℕ → ℕ) (slot : ℕ → Block) (b rounds tail : ℕ)
    → (block tail == b) ≡ false
    → Kept block slot b rounds (suc tail)
    → Kept block slot b (suc rounds) tail
unfolding replay
missed-Kept block slot b rounds tail miss off zero x = refl
missed-Kept block slot b rounds tail miss off (suc p) x = rw miss (off p x)

-- Either the block is written in these rounds, and what was there does not matter, or it is never written.
written_or_not :
    (block : ℕ → ℕ) (slot : ℕ → Block) (b rounds tail : ℕ)
    → Overwritten block slot b rounds tail ⊎ Kept block slot b rounds tail
written_or_not block slot b zero tail = inr (λ p x. replay_done block slot b p tail x)
written_or_not block slot b (suc rounds) tail =
    elim (written_or_not block slot b rounds (suc tail)) [
      | inl same ↦ inl (λ p q x y le le'.
          replay_more block slot b p rounds tail x le
          ∙ same (p - 1) (q - 1) _ _ (omega (arith, le)) (omega (arith, le'))
          ∙ sym (replay_more block slot b q rounds tail y le'))
      | inr off ↦ elim (Bool-cases (block tail == b)) [
        | inl hit ↦ inl (λ p q x y le le'.
            replay_more block slot b p rounds tail x le
            ∙ off (p - 1) _
            ∙ (rw hit refl)
            ∙ sym (replay_more block slot b q rounds tail y le' ∙ off (q - 1) _))
        | inr miss ↦ inr (missed-Kept block slot b rounds tail miss off)
      ]
    ]

-- What is written again from the start is as if the machine had not stopped before.
pub replay_again :
    (block : ℕ → ℕ) (slot : ℕ → Block) (b rounds tail p q : ℕ) (x : Block)
    → rounds ≤ q
    → replay block slot b q rounds tail (replay block slot b p rounds tail x)
      ≡ replay block slot b q rounds tail x
replay_again block slot b rounds tail p q x le = elim (written_or_not block slot b rounds tail) [
  | inl same ↦ same q q _ x le le
  | inr off ↦ ap (replay block slot b q rounds tail) (off p x)
]

pub replay_enough :
    (block : ℕ → ℕ) (slot : ℕ → Block) (b rounds tail p q : ℕ) (x : Block)
    → rounds ≤ p
    → rounds ≤ q
    → replay block slot b p rounds tail x ≡ replay block slot b q rounds tail x
replay_enough block slot b rounds tail p q x le le' =
    elim (written_or_not block slot b rounds tail) [
      | inl same ↦ same p q x x le le'
      | inr off ↦ off p x ∙ sym (off q x)
    ]

later :
    (tail : ℕ) (x y : Block) (b rounds : ℕ) (block : ℕ → ℕ) (z : Block)
    → (block tail == b) ≡ false
    → (x ≡ y) ⊎ ((i : ℕ) × (tail ≤ i) × (i < tail + suc rounds) × (block i ≡ b))
    → ((if block tail == b then z else x) ≡ y)
      ⊎ ((i : ℕ) × (suc tail ≤ i) × (i < suc tail + rounds) × (block i ≡ b))
later tail x y b rounds block z miss (inl e) = inl (rw miss e)
later tail x y b rounds block z miss (inr (i, low, high, e)) = elim (Bool-cases (i == tail)) [
  | inl same ↦
      absurd (ground (arith, miss, e, ap block (let h : i ≡ tail = ground (arith, same) in h)))
  | inr off ↦ inr (i, ground (arith, low, off), omega (arith, high), e)
]

pub replay_cong :
    (block block' : ℕ → ℕ) (slot slot' : ℕ → Block) (b p rounds tail : ℕ) (x : Block)
    → ((i : ℕ) → tail ≤ i → i < tail + rounds → block i ≡ block' i)
    → ((i : ℕ) → tail ≤ i → i < tail + rounds → slot i ≡ slot' i)
    → replay block slot b p rounds tail x ≡ replay block' slot' b p rounds tail x
unfolding replay
replay_cong block block' slot slot' b zero rounds tail x at same = refl
replay_cong block block' slot slot' b (suc p) zero tail x at same = refl
replay_cong block block' slot slot' b (suc p) (suc rounds) tail x at same =
    rw (at tail (omega arith) (omega arith), same tail (omega arith) (omega arith))
      (replay_cong block block' slot slot' b p rounds (suc tail) _
        (λ i low high. at i (omega (arith, low)) (omega (arith, high)))
        (λ i low high. same i (omega (arith, low)) (omega (arith, high))))

-- A block of which the log holds the value `y`, or which is `y` and not in the log, becomes `y`.
pub replay_value :
    (block : ℕ → ℕ) (slot : ℕ → Block) (b p rounds tail : ℕ) (x y : Block)
    → rounds ≤ p
    → ((i : ℕ) → tail ≤ i → i < tail + rounds → block i ≡ b → slot i ≡ y)
    → (x ≡ y) ⊎ ((i : ℕ) × (tail ≤ i) × (i < tail + rounds) × (block i ≡ b))
    → replay block slot b p rounds tail x ≡ y
replay_value block slot b p zero tail x y le held (inl e) = replay_done block slot b p tail x ∙ e
replay_value block slot b p zero tail x y le held (inr (i, low, high, e)) =
    absurd (omega (arith, low, high))
replay_value block slot b p (suc rounds) tail x y le held there =
    replay_more block slot b p rounds tail x le ∙ elim (Bool-cases (block tail == b)) [
      | inl hit ↦
          replay_value block slot b (p - 1) rounds (suc tail) _ y (omega (arith, le))
            (λ i low high e. held i (omega (arith, low)) (omega (arith, high)) e)
            (inl (rw hit (held tail (omega arith) (omega arith) (ground (arith, hit)))))
      | inr miss ↦
          replay_value block slot b (p - 1) rounds (suc tail) _ y (omega (arith, le))
            (λ i low high e. held i (omega (arith, low)) (omega (arith, high)) e)
            (later tail x y b rounds block _ miss there)
    ]
