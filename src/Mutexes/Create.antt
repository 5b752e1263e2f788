-- ===== src/Mutexes/Create.antt =====
-- sys_mtx_create: which slot it takes.
use monitors_and_ipc.Prelude.{
  ℕ, zero, suc, ◌+◌, ◌<◌, ◌≤◌, ◌≡◌, refl, true, false, Option, none, some, ◌==◌, arith, Bool-cases,
  inl, inr, pos, minus_one, ℤ, ==_refl, if◌then◌else◌,
}
use monitors_and_ipc.Mutexes.{
  Mutex, System, open_table, find_unused, begin_create, write_create, is_set, nmutex,
}

-- The first slot from `i` on and below `i + n` that is not in use, if there is one.
abbrev pub IsFirst : (n i : ℕ) → (ℕ → Mutex) → Option ℕ → Type 0
IsFirst n i table none = (j : ℕ) → i ≤ j → j < i + n → (table j).used ≡ true
IsFirst n i table (some k) =
    (i ≤ k)
    × (k < i + n)
    × ((table k).used ≡ false)
    × ((j : ℕ) → i ≤ j → j < k → (table j).used ≡ true)

use_next :
    (n i : ℕ) (table : ℕ → Mutex) (o : Option ℕ)
    → (table i).used ≡ true
    → IsFirst n (suc i) table o
    → IsFirst (suc n) i table o
use_next n i table none taken rest = λ j le lt. elim (Bool-cases (j == i)) [
  | inl e ↦ ground (arith, e, taken)
  | inr e ↦ rest j (ground (arith, e)) (omega arith)
]
use_next n i table (some k) taken rest = (
  omega arith,
  omega arith,
  rest.2,
  λ j le lt. elim (Bool-cases (j == i)) [
    | inl e ↦ ground (arith, e, taken)
    | inr e ↦ rest.3 j (ground (arith, e)) lt
  ],
)

pub find_unused-IsFirst : (n i : ℕ) (table : ℕ → Mutex) → IsFirst n i table (find_unused n i table)
unfolding find_unused
find_unused-IsFirst zero i table = λ j le lt. absurd (omega arith)
find_unused-IsFirst (suc n) i table = elim (Bool-cases (table i).used) [
  | inl e ↦
      rw e
        (use_next n i table (find_unused n (suc i) table) e (find_unused-IsFirst n (suc i) table))
  | inr e ↦ rw e (omega arith, omega arith, e, λ j le lt. absurd (omega arith))
]

abbrev pub claimed : ℕ → ℤ → Mutex
claimed pid locked = record {
  locked = is_set locked;
  used = true;
  owner = if is_set locked then some pid else none;
}

-- The whole call, if nothing comes between its writes.
abbrev pub alone : ℕ → ℤ → System → System × Option ℤ
alone pid locked s = write_create (write_create (begin_create pid locked s).0).0

-- The answer of a call that finds `o`, and the state that it leaves.
abbrev pub Created : ℕ → ℤ → System → Option ℕ → Type 0
Created pid locked s none = begin_create pid locked s ≡ (s, some minus_one)
Created pid locked s (some k) =
    ((alone pid locked s).1 ≡ some (pos k))
    × ((alone pid locked s).0.mutexes k ≡ claimed pid locked)
    × ((alone pid locked s).0.table ≡ open_table)
    × ((j : ℕ) → (j == k) ≡ false → (alone pid locked s).0.mutexes j ≡ s.mutexes j)

found-Created :
    (pid : ℕ) (locked : ℤ) (s : System) (o : Option ℕ)
    → find_unused nmutex 0 s.mutexes ≡ o
    → Created pid locked s o
unfolding begin_create write_create
found-Created pid locked s none e = rw e refl
found-Created pid locked s (some k) e = rw e (
  refl,
  rw (==_refl k) refl,
  refl,
  λ j off. (let far : (k == j) ≡ false = ground (arith, off) in rw far refl),
)

-- With the lock of the table free, sys_mtx_create takes the first of the 64 slots that is not in use: if no
-- unlock comes between its writes, it returns its number, sets it as locked by the caller if the
-- argument is not 0 and as free else, and changes no other; with all slots in use it returns -1 and
-- changes nothing.
pub takes_unused :
    (pid : ℕ) (locked : ℤ) (s : System)
    → (o : Option ℕ) × IsFirst nmutex 0 s.mutexes o × Created pid locked s o
takes_unused pid locked s = (
  find_unused nmutex 0 s.mutexes,
  find_unused-IsFirst nmutex 0 s.mutexes,
  found-Created pid locked s _ refl,
)
