-- ===== src/Locks/Machine.antt =====
-- Any number of processors that acquire and release one spinlock, in any order of their steps: the steps,
-- the invariant, and what a move of one processor leaves true.
use monitors_and_ipc.Prelude.{
  ℕ, suc, ◌-◌, ◌≡◌, ◌∙◌, ◌⊎◌, inl, inr, refl, sym, ap, Bool, true, false, ◌&&◌, some, ◌==◌, is_zero,
  update, arith, Bool-cases,
}
use monitors_and_ipc.Locks.{
  Cpu, Spinlock, push_off, pop_off, initlock, is_cpu, holding, begin_acquire, test_and_set,
  end_acquire, begin_release, lock_release,
}

-- Where a processor is: not in acquire or release; in acquire's loop; behind it; with the lock; in
-- release behind `lk->cpu = 0`; and behind the release of `locked`.
pub data Stage : Type 0 where
  away spinning taken inside leaving freed : Stage

pub record Machine : Type 0 where
  pub lock : Spinlock
  pub cpus : ℕ → Cpu
  pub at : ℕ → Stage

abbrev pub moved : ℕ → Stage → Spinlock → Cpu → Machine → Machine
moved me x lk c s = record { lock = lk; cpus = update s.cpus me c; at = update s.at me x }

pub data Step (me : ℕ) (s : Machine) : Machine → Type 0 where
  starts :
      (c : Cpu)
      → s.at me ≡ away
      → begin_acquire me s.lock (s.cpus me) ≡ some c
      → Step me s (moved me spinning s.lock c s)
  spins :
      s.at me ≡ spinning
      → (test_and_set s.lock).0 ≡ true
      → Step me s (moved me spinning (test_and_set s.lock).1 (s.cpus me) s)
  takes :
      s.at me ≡ spinning
      → (test_and_set s.lock).0 ≡ false
      → Step me s (moved me taken (test_and_set s.lock).1 (s.cpus me) s)
  records : s.at me ≡ taken → Step me s (moved me inside (end_acquire me s.lock) (s.cpus me) s)
  releases :
      (lk : Spinlock)
      → s.at me ≡ inside
      → begin_release me s.lock ≡ some lk
      → Step me s (moved me leaving lk (s.cpus me) s)
  frees : s.at me ≡ leaving → Step me s (moved me freed (lock_release s.lock) (s.cpus me) s)
  pops :
      (c : Cpu)
      → s.at me ≡ freed
      → pop_off (s.cpus me) ≡ some c
      → Step me s (moved me away s.lock c s)

-- No push_off is open, and all processors are away.
pub data Trace : Machine → Type 0 where
  booted :
      (cpus : ℕ → Cpu)
      → ((c : ℕ) → (cpus c).noff ≡ 0)
      → Trace (record { lock = initlock; cpus = cpus; at = λ c. away })
  then_steps : (me : ℕ) (s s' : Machine) → Trace s → Step me s s' → Trace s'

abbrev pub in_section : Stage → Bool
in_section away = false
in_section spinning = false
in_section taken = true
in_section inside = true
in_section leaving = true
in_section freed = false

abbrev pub is_inside : Stage → Bool
is_inside inside = true
is_inside away = false
is_inside spinning = false
is_inside taken = false
is_inside leaving = false
is_inside freed = false

abbrev pub depth : Stage → ℕ
depth away = 0
depth spinning = 1
depth taken = 1
depth inside = 1
depth leaving = 1
depth freed = 1

-- Nobody is between the taking and the freeing of the lock; or one processor is.
abbrev pub AtMostOne : (ℕ → Stage) → Bool → Type 0
AtMostOne at locked =
    (locked ≡ false) × ((c : ℕ) → in_section (at c) ≡ false)
    ⊎ (locked ≡ true) × ((m : ℕ) × ((c : ℕ) → in_section (at c) ≡ (m == c)))

-- Interrupts are off, and one push_off is open, from the start of acquire to the end of release.
abbrev pub Quiet : Cpu → Stage → Type 0
Quiet c x = (c.noff ≡ depth x) × ((is_zero (depth x) ≡ false) → c.intr ≡ false)

pub record IsMachine (s : Machine) : Type 0 where
  pub one : AtMostOne s.at s.lock.locked
  pub owner : (c : ℕ) → is_cpu s.lock.cpu c ≡ is_inside (s.at c)
  pub quiet : (c : ℕ) → Quiet (s.cpus c) (s.at c)

module _ (s : Machine) (me : ℕ) where
  pub quiet_later :
      (c : Cpu) (x : Stage)
      → ((k : ℕ) → Quiet (s.cpus k) (s.at k))
      → Quiet c x
      → (k : ℕ) → Quiet (update s.cpus me c k) (update s.at me x k)
  quiet_later c x before now k = elim (Bool-cases (me == k)) [
    | inl e ↦ rw e now
    | inr e ↦ rw e (before k)
  ]

  -- A test of the stages that does not see the move.
  pub unseen :
      (f : Stage → Bool) (x : Stage)
      → f (s.at me) ≡ f x
      → (k : ℕ) → f (update s.at me x k) ≡ f (s.at k)
  unseen f x e k = elim (Bool-cases (me == k)) [
    | inl same ↦
        (let at : me ≡ k = ground (arith, same) in rw same (sym e ∙ ap (λ i. f (s.at i)) at))
    | inr off ↦ rw off refl
  ]

  pub one_later :
      (x : Stage)
      → in_section (s.at me) ≡ in_section x
      → AtMostOne s.at s.lock.locked
      → AtMostOne (update s.at me x) s.lock.locked
  one_later x e (inl (f, out)) = inl (f, λ k. unseen in_section x e k ∙ out k)
  one_later x e (inr (f, (m, only))) = inr (f, (m, λ k. unseen in_section x e k ∙ only k))

pub outside : (x : Stage) → in_section x ≡ false → is_inside x ≡ false
outside away e = refl
outside spinning e = refl
outside taken e = refl
outside inside e = e
outside leaving e = refl
outside freed e = refl

pub holding_lem :
    (s : Machine) (c : ℕ)
    → AtMostOne s.at s.lock.locked
    → is_cpu s.lock.cpu c ≡ is_inside (s.at c)
    → holding c s.lock ≡ is_inside (s.at c)
unfolding holding
holding_lem s c (inl (f, out)) owner = rw f (sym (outside (s.at c) (out c)))
holding_lem s c (inr (f, only)) owner = rw f owner

pub pushed : (c : Cpu) → Quiet c away → Quiet (push_off c) spinning
unfolding push_off
pushed c (noff, off) = (ap suc noff, λ e. refl)

pub pop-Quiet : (c : Cpu) → Quiet c freed → (c' : Cpu) × (pop_off c ≡ some c') × Quiet c' away
unfolding pop_off
pop-Quiet c (noff, off) = (
  record c { noff = c.noff - 1; intr = is_zero (c.noff - 1) && c.intena },
  rw (off refl, noff) refl,
  (omega (arith, noff), λ e. ground (arith, e)),
)

-- A test that only the processor that moves can pass.
pub alone_in :
    (s : Machine) (me : ℕ) (f : Stage → Bool) (x : Stage)
    → f x ≡ true
    → ((k : ℕ) → (me == k) ≡ false → f (s.at k) ≡ false)
    → (k : ℕ) → f (update s.at me x k) ≡ (me == k)
alone_in s me f x e out k = elim (Bool-cases (me == k)) [
  | inl same ↦ rw same e
  | inr off ↦ rw off (out k off)
]

pub gone_from :
    (s : Machine) (me : ℕ) (f : Stage → Bool) (x : Stage)
    → f x ≡ false
    → ((k : ℕ) → (me == k) ≡ false → f (s.at k) ≡ false)
    → (k : ℕ) → f (update s.at me x k) ≡ false
gone_from s me f x e out k = elim (Bool-cases (me == k)) [
  | inl same ↦ rw same e
  | inr off ↦ rw off (out k off)
]

pub nobody_in :
    (s : Machine)
    → s.lock.locked ≡ false
    → AtMostOne s.at s.lock.locked
    → (k : ℕ) → in_section (s.at k) ≡ false
nobody_in s f (inl (_, out)) = out
nobody_in s f (inr (g, only)) = grind (arith, f, g)

pub others :
    (s : Machine) (me : ℕ)
    → in_section (s.at me) ≡ true
    → AtMostOne s.at s.lock.locked
    → (k : ℕ) → (me == k) ≡ false
    → in_section (s.at k) ≡ false
others s me e (inl (f, out)) k off = out k
others s me e (inr (f, (m, only))) k off = only k ∙ ground (arith, only me, e, off)
