-- ===== src/Locks/Nesting.antt =====
-- push_off and pop_off in pairs.
use monitors_and_ipc.Prelude.{
  ℕ, zero, suc, ◌-◌, ◌<◌, ◌≡◌, ◌∙◌, refl, sym, ap, Bool, false, ◌&&◌, Option, none, some,
  if◌then◌else◌, is_zero, arith,
}
use monitors_and_ipc.Locks.{Cpu, push_off, pop_off}

-- Calls in matched pairs, one inside or after the other.
pub data Nest : Type 0 where
  idle : Nest
  pair : Nest → Nest → Nest

abbrev pub then_run : Option Cpu → (Cpu → Option Cpu) → Option Cpu
then_run none f = none
then_run (some c) f = f c

-- `none` is a panic.
unfoldable pub calls : Nest → Cpu → Option Cpu
calls idle c = some c
calls (pair inner later) c =
    then_run (calls inner (push_off c)) λ c'. then_run (pop_off c') (calls later)

-- Interrupts are off while a push_off is open.
abbrev pub IsCpu : Cpu → Type 0
IsCpu c = 0 < c.noff → c.intr ≡ false

-- The processor is as before, but for `intena` where it does not count.
abbrev pub Restored : Cpu → Cpu → Type 0
Restored c c' = (c'.noff ≡ c.noff) × (c'.intr ≡ c.intr) × (0 < c.noff → c'.intena ≡ c.intena)

is_zero-suc : (n : ℕ) → is_zero (suc n - 1) ≡ is_zero n
is_zero-suc n = ap is_zero (omega arith)

kept_on :
    (n : ℕ) (intr intena : Bool)
    → (0 < n → intr ≡ false)
    → (is_zero n && (if is_zero n then intr else intena)) ≡ intr
kept_on zero intr intena h = refl
kept_on (suc n) intr intena h = sym (h (omega arith))

kept_intena : (n : ℕ) (intr intena : Bool) → 0 < n → (if is_zero n then intr else intena) ≡ intena
kept_intena zero intr intena lt = absurd (omega arith)
kept_intena (suc n) intr intena lt = refl

popped :
    (c c₁ : Cpu)
    → IsCpu c
    → Restored (push_off c) c₁
    → (c₂ : Cpu) × (pop_off c₁ ≡ some c₂) × Restored c c₂
unfolding push_off pop_off
popped c c₁ h (depth, off, kept) =
    let k : c₁.intena ≡ (if is_zero c.noff then c.intr else c.intena) = kept (omega arith) in
    (
      record c₁ { noff = c₁.noff - 1; intr = is_zero (c₁.noff - 1) && c₁.intena },
      rw (off, depth) refl,
      (
        omega (arith, depth),
        rw (depth, k, is_zero-suc c.noff) (kept_on c.noff c.intr c.intena h),
        λ lt. k ∙ kept_intena c.noff c.intr c.intena lt,
      ),
    )

Restored-IsCpu : (c c' : Cpu) → IsCpu c → Restored c c' → IsCpu c'
Restored-IsCpu c c' h (depth, on, kept) lt = on ∙ h (omega (arith, depth))

same_twice : (c c' c'' : Cpu) → Restored c c' → Restored c' c'' → Restored c c''
same_twice c c' c'' (depth, on, kept) (depth', on', kept') =
    (depth' ∙ depth, on' ∙ on, λ lt. kept' (omega (arith, depth)) ∙ kept lt)

pushed-IsCpu : (c : Cpu) → IsCpu (push_off c)
unfolding push_off
pushed-IsCpu c lt = refl

-- push_off and pop_off in matched pairs, on a processor whose interrupts are off if one is open, do not
-- panic, and leave the depth and the interrupts as they were.
pub calls-Restored :
    (n : Nest) (c : Cpu) → IsCpu c → (c' : Cpu) × (calls n c ≡ some c') × Restored c c'
unfolding calls
calls-Restored idle c h = (c, refl, (refl, refl, λ lt. refl))
calls-Restored (pair inner later) c h =
    let (c₁, e₁, inside) = calls-Restored inner (push_off c) (pushed-IsCpu c) in
    let (c₂, e₂, after) = popped c c₁ h inside in
    let (c₃, e₃, rest) = calls-Restored later c₂ (Restored-IsCpu c c₂ h after) in
    (c₃, rw (e₁, e₂) e₃, same_twice c c₂ c₃ after rest)
