-- ===== src/Mutexes.antt =====
-- The mutexes of a2-phase2/xv6-A2/kernel/proc.c: the table, and the three system calls. The parts of
-- sys_mtx_lock and sys_mtx_unlock that run under the spinlock of a mutex are one function each.
-- sys_mtx_create holds the lock of the table only, which keeps off other creations and the test of
-- sys_mtx_lock, but not sys_mtx_unlock: it is one function up to its write of `used`, and one for each
-- of the two writes that follow. A process that waits in sys_mtx_lock is `sleeping`, and one that is
-- about to test the mutex under its spinlock is `testing`.
pub mod Create
pub mod Invariant
pub mod Exclusion
mod Tests
use monitors_and_ipc.Prelude.{
  ℕ, zero, suc, ◌<◌, ◌≡◌, Bool, true, false, ◌&&◌, Option, none, some, List, [], ◌∷◌, ◌==◌, ltb,
  if◌then◌else◌, update, ℤ, pos, negsuc, minus_one,
}

abbrev pub nmutex : ℕ
nmutex = 64

-- `struct mutex` without its spinlock. An owner is a PID, `none` a null pointer.
pub record Mutex : Type 0 where
  pub locked : Bool
  pub used : Bool
  pub owner : Option ℕ

-- Where a process is with respect to the calls.
pub data Status : Type 0 where
  outside creating : Status
  testing sleeping : ℕ → Status

-- The lock of the table: free, or held in sys_mtx_create by a process that writes `locked` of a mutex next,
-- or its `owner`, with the argument of the call.
pub data TableLock : Type 0 where
  open_table : TableLock
  sets_locked sets_owner : (pid k : ℕ) → ℤ → TableLock

pub record System : Type 0 where
  pub table : TableLock
  pub mutexes : ℕ → Mutex
  pub status : ℕ → Status

-- What procinit writes.
pub boot : System
boot = record {
  table = open_table;
  mutexes = λ k. record { locked = false; used = false; owner = none };
  status = λ p. outside;
}

-- An `int` as a condition.
abbrev pub is_set : ℤ → Bool
is_set (pos zero) = false
is_set (pos (suc n)) = true
is_set (negsuc n) = true

-- The first of the `rounds` slots from `i` on that is not in use.
unfoldable pub find_unused : ℕ → ℕ → (ℕ → Mutex) → Option ℕ
find_unused zero i table = none
find_unused (suc rounds) i table =
    let rest = find_unused rounds (suc i) table in if (table i).used then rest else some i

-- sys_mtx_create up to its write of `used`; it returns -1 if no slot is left.
abbrev pub create_at : Option ℕ → ℕ → ℤ → System → System × Option ℤ
create_at none pid locked s = (s, some minus_one)
create_at (some i) pid locked s = (
  record s {
    table = sets_locked pid i locked;
    mutexes = update s.mutexes i (record (s.mutexes i) { used = true });
    status = update s.status pid creating;
  },
  none,
)

unfoldable pub begin_create : ℕ → ℤ → System → System × Option ℤ
begin_create pid locked s = create_at (find_unused nmutex 0 s.mutexes) pid locked s

-- The next write of sys_mtx_create; after the last one it gives back the lock of the table, and returns.
abbrev pub write_at : TableLock → System → System × Option ℤ
write_at open_table s = (s, none)
write_at (sets_locked pid k locked) s = (
  record s {
    table = sets_owner pid k locked;
    mutexes = update s.mutexes k (record (s.mutexes k) { locked = is_set locked });
  },
  none,
)
write_at (sets_owner pid k locked) s = (
  record {
    table = open_table;
    mutexes =
        update s.mutexes k
          (record (s.mutexes k) { owner = if is_set locked then some pid else none });
    status = update s.status pid outside;
  },
  some (pos k),
)

unfoldable pub write_create : System → System × Option ℤ
write_create s = write_at s.table s

-- `!(lock_id < 0 || lock_id >= NMUTEX)`.
abbrev pub in_table : ℤ → Bool
in_table (pos k) = ltb k nmutex
in_table (negsuc k) = false

abbrev pub slot : ℤ → ℕ
slot (pos k) = k
slot (negsuc k) = 0

-- sys_mtx_lock up to the loop: it returns -1, or goes on to take the spinlock of the mutex.
unfoldable pub begin_lock : ℕ → ℤ → System → System × Option ℤ
begin_lock pid id s =
    if in_table id && (s.mutexes (slot id)).used
    then (record s { status = update s.status pid (testing (slot id)) }, none)
    else (s, some minus_one)

-- The test of the loop, under the spinlock of the mutex: the process sleeps, or the call returns 0.
unfoldable pub continue_lock : ℕ → ℕ → System → System × Option ℤ
continue_lock pid k s =
    if (s.mutexes k).locked
    then (record s { status = update s.status pid (sleeping k) }, none)
    else (
      record s {
        mutexes = update s.mutexes k (record (s.mutexes k) { locked = true; owner = some pid });
        status = update s.status pid outside;
      },
      some (pos 0),
    )

abbrev pub woken : ℕ → Status → Status
woken k outside = outside
woken k creating = creating
woken k (testing j) = testing j
woken k (sleeping j) = if j == k then testing j else sleeping j

-- `wakeup(&mutexes[k])`.
abbrev pub wakeup : ℕ → (ℕ → Status) → ℕ → Status
wakeup k status p = woken k (status p)

unfoldable pub sys_mtx_unlock : ℤ → System → System × ℤ
sys_mtx_unlock id s =
    if in_table id && (s.mutexes (slot id)).used && (s.mutexes (slot id)).locked
    then (
      record s {
        mutexes =
            update s.mutexes (slot id)
              (record (s.mutexes (slot id)) { locked = false; owner = none });
        status = wakeup (slot id) s.status;
      },
      pos 0,
    )
    else (s, minus_one)

-- What a process does next. `stirs` is kkill, which makes a sleeping process run again.
pub data Event : Type 0 where
  creates asks unlocks : ℕ → ℤ → Event
  tests stirs : ℕ → ℕ → Event
  writes : Event

unfoldable pub after : Event → System → System
after (creates pid locked) s = (begin_create pid locked s).0
after writes s = (write_create s).0
after (asks pid id) s = (begin_lock pid id s).0
after (tests pid k) s = (continue_lock pid k s).0
after (unlocks pid id) s = (sys_mtx_unlock id s).0
after (stirs pid k) s = record s { status = update s.status pid (testing k) }

-- A process calls when it is in no call, and goes on where it is; sys_mtx_create, and the test of the
-- argument in sys_mtx_lock, take the lock of the table.
abbrev pub Enabled : Event → System → Type 0
Enabled (creates pid locked) s = (s.status pid ≡ outside) × (s.table ≡ open_table)
Enabled writes s = Unit
Enabled (asks pid id) s = (s.status pid ≡ outside) × (s.table ≡ open_table)
Enabled (tests pid k) s = s.status pid ≡ testing k
Enabled (unlocks pid id) s = s.status pid ≡ outside
Enabled (stirs pid k) s = s.status pid ≡ sleeping k

-- The events in any order that leads from one state to another, the last one first.
pub data Trace (s : System) : List Event → System → Type 0 where
  start : Trace s [] s
  later :
      {es : List Event} {t : System}
      → Trace s es t
      → (e : Event) → Enabled e t
      → Trace s (e ∷ es) (after e t)
