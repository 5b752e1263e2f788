-- ===== src/Locks/Tests.antt =====
-- Two processors and a spinlock.
use monitors_and_ipc.Prelude.{ℕ, ◌≡◌, refl, true, false, some, arith, not, is_zero}
use monitors_and_ipc.Locks.{
  Cpu, push_off, initlock, begin_acquire, begin_release, pop_off, holding, test_and_set,
}
use monitors_and_ipc.Locks.Nesting.{idle, pair, calls, Restored, calls-Restored}
use monitors_and_ipc.Locks.Machine.{
  Machine, moved, away, spinning, taken, starts, takes, Trace, booted, then_steps, in_section,
  is_inside, depth,
}
use monitors_and_ipc.Locks.Exclusion.{lock_excludes, panics_exactly, is_panic}

abbrev ready : Cpu
ready = record { noff = 0; intena = false; intr = true }

calls-Restored_example :
    (c' : Cpu) × (calls (pair (pair idle idle) idle) ready ≡ some c') × Restored ready c'
calls-Restored_example =
    calls-Restored (pair (pair idle idle) idle) ready (λ lt. absurd (omega arith))

abbrev idle_machine : Machine
idle_machine = record { lock = initlock; cpus = λ c. ready; at = λ c. away }

abbrev one_spins : Machine
one_spins = moved 1 spinning initlock (push_off ready) idle_machine

one_starts : Trace one_spins
unfolding begin_acquire holding initlock
one_starts =
    then_steps 1 idle_machine one_spins (booted (λ c. ready) (λ c. refl))
      (starts (push_off ready) refl refl)

abbrev one_takes : Machine
one_takes = moved 1 taken (test_and_set initlock).1 (push_off ready) one_spins

one_has : Trace one_takes
unfolding test_and_set initlock
one_has = then_steps 1 one_spins one_takes one_starts (takes refl refl)

lock_excludes_example :
    (holding 1 one_takes.lock ≡ false)
    × (in_section (one_takes.at 1) ≡ true → in_section (one_takes.at 0) ≡ true → ◌≡◌ {A = ℕ} 1 0)
lock_excludes_example = lock_excludes one_takes 1 0 one_has

panics_exactly_example :
    (is_panic (begin_acquire 1 one_takes.lock (one_takes.cpus 1)) ≡ is_inside (one_takes.at 1))
    × (is_panic (begin_release 1 one_takes.lock) ≡ not (is_inside (one_takes.at 1)))
    × (is_panic (pop_off (one_takes.cpus 1)) ≡ is_zero (depth (one_takes.at 1)))
panics_exactly_example = panics_exactly one_takes 1 one_has
