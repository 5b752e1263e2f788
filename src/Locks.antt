-- ===== src/Locks.antt =====
-- a2-phase2/xv6-A2/kernel/spinlock.c: push_off and pop_off, and a spinlock, on several processors. Each part
-- of acquire and release that other processors see at once is a function; the fences are left out.
pub mod Nesting
pub mod Exclusion
pub mod Machine
pub mod Steps
mod Tests
use monitors_and_ipc.Prelude.{
  ℕ, zero, suc, ◌+◌, ◌-◌, Bool, true, false, ◌&&◌, Option, none, some, ◌==◌, if◌then◌else◌, is_zero,
}

-- `struct cpu` and its interrupt enable bit, which intr_get, intr_on and intr_off read and write.
pub record Cpu : Type 0 where
  pub noff : ℕ
  pub intena : Bool
  pub intr : Bool

unfoldable pub push_off : Cpu → Cpu
push_off c = record {
  noff = suc c.noff;
  intena = if is_zero c.noff then c.intr else c.intena;
  intr = false;
}

-- `none` is the panic.
unfoldable pub pop_off : Cpu → Option Cpu
pop_off c =
    if c.intr
    then none
    else if is_zero c.noff
    then none
    else some (record c { noff = c.noff - 1; intr = is_zero (c.noff - 1) && c.intena })

-- `struct spinlock`, with the number of the processor for the pointer to it.
pub record Spinlock : Type 0 where
  pub locked : Bool
  pub cpu : Option ℕ

unfoldable pub initlock : Spinlock
initlock = record { locked = false; cpu = none }

abbrev pub is_cpu : Option ℕ → ℕ → Bool
is_cpu none me = false
is_cpu (some other) me = other == me

unfoldable pub holding : ℕ → Spinlock → Bool
holding me lk = lk.locked && is_cpu lk.cpu me

-- acquire, before its loop.
unfoldable pub begin_acquire : ℕ → Spinlock → Cpu → Option Cpu
begin_acquire me lk c = if holding me lk then none else some (push_off c)

-- `__sync_lock_test_and_set(&lk->locked, 1)`: the old value, and the lock.
unfoldable pub test_and_set : Spinlock → Bool × Spinlock
test_and_set lk = (lk.locked, record lk { locked = true })

-- acquire, after its loop.
unfoldable pub end_acquire : ℕ → Spinlock → Spinlock
end_acquire me lk = record lk { cpu = some me }

-- release, to `lk->cpu = 0`.
unfoldable pub begin_release : ℕ → Spinlock → Option Spinlock
begin_release me lk = if holding me lk then some (record lk { cpu = none }) else none

-- `__sync_lock_release(&lk->locked)`.
unfoldable pub lock_release : Spinlock → Spinlock
lock_release lk = record lk { locked = false }
