-- ===== src/Mutexes/Exclusion.antt =====
-- One owner at a time, and how a mutex passes on.
use monitors_and_ipc.Prelude.{
  ℕ, ◌<◌, ◌≡◌, ◌∙◌, refl, Bool, true, false, ◌&&◌, Option, none, some, List, ◌==◌, arith,
  Bool-cases, inl, inr, pos, ℤ, All, lt→ltb, ==_refl,
}
use monitors_and_ipc.Mutexes.{
  System, testing, sleeping, TableLock, open_table, sets_locked, sets_owner, Event, creates, writes,
  asks, unlocks, tests, stirs, Trace, start, later, after, find_unused, begin_create, create_at,
  write_create, write_at, begin_lock, continue_lock, sys_mtx_unlock, in_table, slot, nmutex,
}
use monitors_and_ipc.Mutexes.Create.{IsFirst, find_unused-IsFirst}
use monitors_and_ipc.Mutexes.Invariant.{Sound, after_Sound, is_made, has_owner}

-- The event is a call of sys_mtx_unlock for the mutex `k`.
abbrev pub frees : ℕ → Event → Bool
frees k (unlocks pid id) = in_table id && slot id == k
frees k (creates pid locked) = false
frees k writes = false
frees k (asks pid id) = false
frees k (tests pid j) = false
frees k (stirs pid j) = false

abbrev pub NoneFrees : ℕ → List Event → Type 0
NoneFrees k = All λ e. frees k e ≡ false

-- The mutex `k` is as in `s`, and its creation is not under way.
abbrev pub Kept : ℕ → System → System → Type 0
Kept k s t = (is_made k t.table ≡ false) × (t.mutexes k ≡ s.mutexes k)

create_keeps :
    (k pid : ℕ) (locked : ℤ) (s : System)
    → (s.mutexes k).used ≡ true
    → is_made k s.table ≡ false
    → Kept k s (begin_create pid locked s).0
unfolding begin_create
create_keeps k pid locked s taken off = go (find_unused nmutex 0 s.mutexes) refl
  where
    go : (o : Option ℕ) → find_unused nmutex 0 s.mutexes ≡ o → Kept k s (create_at o pid locked s).0
    go none e = (off, refl)
    go (some i) e =
        let first : IsFirst nmutex 0 s.mutexes (some i) =
          (rw e at (find_unused-IsFirst nmutex 0 s.mutexes)) in
        let other : (i == k) ≡ false = ground (arith, first.2, taken) in (other, rw other refl)

write_keeps :
    (k : ℕ) (l : TableLock) (s : System)
    → s.table ≡ l
    → is_made k l ≡ false
    → Kept k s (write_at l s).0
write_keeps k open_table s e off = (rw e refl, refl)
write_keeps k (sets_locked pid i arg) s e off = (off, rw off refl)
write_keeps k (sets_owner pid i arg) s e off = (refl, rw off refl)

begin_keeps : (k pid : ℕ) (id : ℤ) (s : System) → (begin_lock pid id s).0.mutexes k ≡ s.mutexes k
unfolding begin_lock
begin_keeps k pid id s = elim (Bool-cases (in_table id && (s.mutexes (slot id)).used)) [
  | inl e ↦ rw e refl
  | inr e ↦ rw e refl
]

continue_keeps :
    (k pid j : ℕ) (s : System)
    → (s.mutexes k).locked ≡ true
    → (continue_lock pid j s).0.mutexes k ≡ s.mutexes k
unfolding continue_lock
continue_keeps k pid j s on = elim (Bool-cases (s.mutexes j).locked) [
  | inl e ↦ rw e refl
  | inr e ↦ (let other : (j == k) ≡ false = ground (arith, on, e) in rw (e, other) refl)
]

unlock_keeps :
    (k : ℕ) (id : ℤ) (s : System)
    → (in_table id && slot id == k) ≡ false
    → (sys_mtx_unlock id s).0.mutexes k ≡ s.mutexes k
unfolding sys_mtx_unlock
unlock_keeps k id s f =
    elim (Bool-cases (in_table id && (s.mutexes (slot id)).used && (s.mutexes (slot id)).locked)) [
      | inl e ↦ (let other : (slot id == k) ≡ false = ground (arith, e, f) in rw (e, other) refl)
      | inr e ↦ rw e refl
    ]

create_writes_keeps : (k : ℕ) (s : System) → is_made k s.table ≡ false → Kept k s (write_create s).0
unfolding write_create
create_writes_keeps k s off = write_keeps k s.table s refl off

begin_table : (pid : ℕ) (id : ℤ) (s : System) → (begin_lock pid id s).0.table ≡ s.table
unfolding begin_lock
begin_table pid id s = ground arith

continue_table : (pid k : ℕ) (s : System) → (continue_lock pid k s).0.table ≡ s.table
unfolding continue_lock
continue_table pid k s = ground arith

unlock_table : (id : ℤ) (s : System) → (sys_mtx_unlock id s).0.table ≡ s.table
unfolding sys_mtx_unlock
unlock_table id s = ground arith

after_keeps :
    (k : ℕ) (e : Event) (s : System)
    → Sound s
    → (s.mutexes k).locked ≡ true
    → is_made k s.table ≡ false
    → frees k e ≡ false
    → Kept k s (after e s)
unfolding after
after_keeps k (creates pid locked) s h on off f = create_keeps k pid locked s (h.held k on) off
after_keeps k writes s h on off f = create_writes_keeps k s off
after_keeps k (asks pid id) s h on off f = (rw (begin_table pid id s) off, begin_keeps k pid id s)
after_keeps k (tests pid j) s h on off f =
    (rw (continue_table pid j s) off, continue_keeps k pid j s on)
after_keeps k (unlocks pid id) s h on off f = (rw (unlock_table id s) off, unlock_keeps k id s f)
after_keeps k (stirs pid j) s h on off f = (off, refl)

Trace-keeps :
    (k : ℕ) (s : System) (es : List Event) (t : System)
    → Trace s es t
    → Sound s
    → (s.mutexes k).locked ≡ true
    → is_made k s.table ≡ false
    → NoneFrees k es
    → Sound t × Kept k s t
Trace-keeps k s es t start h on off quiet = (h, (off, refl))
Trace-keeps k s es t (later tr e enabled) h on off quiet =
    let before = Trace-keeps k s _ _ tr h on off quiet.1 in
    let step = after_keeps k e _ before.0 (rw before.1.1 on) before.1.0 quiet.0 in
    (after_Sound e _ enabled before.0, (step.0, step.1 ∙ before.1.1))

-- From a sound state on, while nobody calls sys_mtx_unlock for it, a locked mutex of which sys_mtx_create
-- has done its last write stays as it is, with its owner, through any events, and any process that
-- tests it sleeps again; and it does have an owner.
pub locked_stays :
    (k : ℕ) (es : List Event) (s t : System)
    → Trace s es t
    → Sound s
    → (s.mutexes k).locked ≡ true
    → is_made k s.table ≡ false
    → NoneFrees k es
    → (t.mutexes k ≡ s.mutexes k)
      × (has_owner (t.mutexes k).owner ≡ true)
      × ((p : ℕ) → (continue_lock p k t).1 ≡ none)
unfolding continue_lock
locked_stays k es s t tr h on off quiet =
    let same : t.mutexes k ≡ s.mutexes k = (Trace-keeps k s es t tr h on off quiet).1.1 in
    (same, rw same (h.owned k on off), λ p. rw same (rw on refl))

-- In a sound state, when a process sleeps for a mutex of the table, sys_mtx_unlock of it returns 0,
-- whoever calls it, and the process then tests the mutex; if it is the first to do so, its
-- sys_mtx_lock returns 0 with the mutex locked and the process its owner.
pub unlock_hands :
    (s : System) (p k : ℕ)
    → Sound s
    → k < nmutex
    → s.status p ≡ sleeping k
    → ((sys_mtx_unlock (pos k) s).1 ≡ pos 0)
      × ((sys_mtx_unlock (pos k) s).0.status p ≡ testing k)
      × ((continue_lock p k (sys_mtx_unlock (pos k) s).0).1 ≡ some (pos 0))
      × (((continue_lock p k (sys_mtx_unlock (pos k) s).0).0.mutexes k)
          ≡ record { locked = true; used = true; owner = some p })
unfolding sys_mtx_unlock continue_lock
unlock_hands s p k h small on =
    let locked : (s.mutexes k).locked ≡ true = h.waits p k on in
    let used : (s.mutexes k).used ≡ true = h.held k locked in
    simp (lt→ltb k nmutex small, locked, used, on, ==_refl k) (refl, refl, refl, refl)
