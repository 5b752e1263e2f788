-- ===== src/Mutexes/Invariant.antt =====
-- What holds of the mutexes after any sequence of events.
use monitors_and_ipc.Prelude.{
  ℕ, ◌≡◌, ◌⊎◌, refl, Bool, true, false, ◌&&◌, Option, none, some, List, ◌==◌, arith, Bool-cases,
  inl, inr, ℤ, ==_refl,
}
use monitors_and_ipc.Mutexes.{
  Mutex, System, Status, outside, creating, testing, sleeping, TableLock, open_table, sets_locked,
  sets_owner, Event, creates, writes, asks, unlocks, tests, stirs, Trace, start, later, after,
  Enabled, boot, find_unused, begin_create, create_at, write_create, write_at, begin_lock,
  continue_lock, sys_mtx_unlock, in_table, slot, woken, is_set, nmutex,
}
use monitors_and_ipc.Mutexes.Create.{IsFirst, find_unused-IsFirst}

-- The mutex `k` is in use, and its creation is under way.
abbrev pub is_made : ℕ → TableLock → Bool
is_made k open_table = false
is_made k (sets_locked pid i locked) = i == k
is_made k (sets_owner pid i locked) = i == k

abbrev pub has_owner : Option ℕ → Bool
has_owner none = false
has_owner (some pid) = true

-- What is written so far of the mutex that is being created: until sys_mtx_create writes `locked` it is
-- free, and after that it may be free again.
abbrev pub HalfMade : TableLock → (ℕ → Mutex) → Type 0
HalfMade open_table table = Unit
HalfMade (sets_locked pid i locked) table = ((table i).used ≡ true) × ((table i).locked ≡ false)
HalfMade (sets_owner pid i locked) table =
    ((table i).used ≡ true) × ((table i).locked ≡ true → is_set locked ≡ true)

-- A process that sleeps waits for a locked mutex, one in sys_mtx_lock for a mutex in use, and neither
-- for one whose creation is under way; a locked mutex is in use, and has an owner unless its
-- creation is under way.
pub record Sound (s : System) : Type 0 where
  pub waits : (p k : ℕ) → s.status p ≡ sleeping k → (s.mutexes k).locked ≡ true
  pub asked : (p k : ℕ) → s.status p ≡ testing k → (s.mutexes k).used ≡ true
  pub held : (k : ℕ) → (s.mutexes k).locked ≡ true → (s.mutexes k).used ≡ true
  pub owned :
      (k : ℕ)
      → (s.mutexes k).locked ≡ true
      → is_made k s.table ≡ false
      → has_owner (s.mutexes k).owner ≡ true
  pub asleep_made : (p k : ℕ) → s.status p ≡ sleeping k → is_made k s.table ≡ false
  pub awake_made : (p k : ℕ) → s.status p ≡ testing k → is_made k s.table ≡ false
  pub made : HalfMade s.table s.mutexes

half_kept :
    (l : TableLock) (a b : ℕ → Mutex)
    → ((i : ℕ) → is_made i l ≡ true → (a i).used ≡ true → (b i).used ≡ true)
    → ((i : ℕ) → is_made i l ≡ true → (b i).locked ≡ true → (a i).locked ≡ true)
    → HalfMade l a
    → HalfMade l b
half_kept open_table a b used locked h = tt
half_kept (sets_locked pid i arg) a b used locked h =
    (used i (==_refl i) h.0, ground (arith, locked i (==_refl i), h.1))
half_kept (sets_owner pid i arg) a b used locked h =
    (used i (==_refl i) h.0, λ on. h.1 (locked i (==_refl i) on))

create_Sound :
    (pid : ℕ) (locked : ℤ) (s : System)
    → s.table ≡ open_table
    → Sound s
    → Sound (begin_create pid locked s).0
unfolding begin_create
create_Sound pid locked s free h = go (find_unused nmutex 0 s.mutexes) refl
  where
    quiet : (k : ℕ) → is_made k s.table ≡ false
    quiet k = rw free refl

    go : (o : Option ℕ) → find_unused nmutex 0 s.mutexes ≡ o → Sound (create_at o pid locked s).0
    go none e = h
    go (some i) e =
        let first : IsFirst nmutex 0 s.mutexes (some i) =
          (rw e at (find_unused-IsFirst nmutex 0 s.mutexes)) in
        record {
          waits = λ p k at. ground (arith, h.waits p k, h.held k, first.2);
          asked = λ p k at. ground (arith, h.asked p k);
          held = λ k at. ground (arith, h.held k);
          owned = λ k at off. ground (arith, h.owned k, quiet k);
          asleep_made = λ p k at. ground (arith, h.waits p k, h.held k, first.2);
          awake_made = λ p k at. ground (arith, h.asked p k, first.2);
          made = (rw (==_refl i) refl, rw (==_refl i) (ground (arith, h.held i, first.2)));
        }

write_Sound :
    (table : TableLock) (s : System) → s.table ≡ table → Sound s → Sound (write_at table s).0
write_Sound open_table s e h = h
write_Sound (sets_locked pid i locked) s e h =
    let half : HalfMade (sets_locked pid i locked) s.mutexes = (rw e at h.made) in
    let asleep : (p k : ℕ) → s.status p ≡ sleeping k → (i == k) ≡ false = (rw e at h.asleep_made) in
    let awake : (p k : ℕ) → s.status p ≡ testing k → (i == k) ≡ false = (rw e at h.awake_made) in
    let owned : (k : ℕ)
        → (s.mutexes k).locked ≡ true
        → (i == k) ≡ false
        → has_owner (s.mutexes k).owner ≡ true =
      (rw e at h.owned) in
    record {
      waits = λ p k at. ground (arith, h.waits p k at, asleep p k at);
      asked = λ p k at. ground (arith, h.asked p k at);
      held = λ k at. ground (arith, h.held k, half.0);
      owned = λ k at off. ground (arith, owned k);
      asleep_made = asleep;
      awake_made = awake;
      made = (rw (==_refl i) half.0, rw (==_refl i) (λ on. on));
    }
write_Sound (sets_owner pid i locked) s e h =
    let half : HalfMade (sets_owner pid i locked) s.mutexes = (rw e at h.made) in
    let owned : (k : ℕ)
        → (s.mutexes k).locked ≡ true
        → (i == k) ≡ false
        → has_owner (s.mutexes k).owner ≡ true =
      (rw e at h.owned) in
    record {
      waits = λ p k at. ground (arith, h.waits p k);
      asked = λ p k at. ground (arith, h.asked p k);
      held = λ k at. ground (arith, h.held k);
      owned = λ k at off. ground (arith, owned k, half.1);
      asleep_made = λ p k at. refl;
      awake_made = λ p k at. refl;
      made = tt;
    }

begin_Sound :
    (pid : ℕ) (id : ℤ) (s : System) → s.table ≡ open_table → Sound s → Sound (begin_lock pid id s).0
unfolding begin_lock
begin_Sound pid id s free h = elim (Bool-cases (in_table id && (s.mutexes (slot id)).used)) [
  | inl e ↦ rw e (record {
    waits = λ p k at. ground (arith, h.waits p k);
    asked = λ p k at. ground (arith, h.asked p k, e);
    held = h.held;
    owned = h.owned;
    asleep_made = λ p k at. ground (arith, h.asleep_made p k);
    awake_made = λ p k at. rw free refl;
    made = h.made;
  })
  | inr e ↦ rw e h
]

is_made_apart :
    (i k : ℕ) (l : TableLock) → is_made i l ≡ true → is_made k l ≡ false → (k == i) ≡ false
is_made_apart i k open_table m off = absurd (cc)
is_made_apart i k (sets_locked pid j arg) m off = ground arith
is_made_apart i k (sets_owner pid j arg) m off = ground arith

continue_Sound :
    (pid k : ℕ) (s : System) → s.status pid ≡ testing k → Sound s → Sound (continue_lock pid k s).0
unfolding continue_lock
continue_Sound pid k s on h = elim (Bool-cases (s.mutexes k).locked) [
  | inl e ↦ rw e (record {
    waits = λ p j at. ground (arith, h.waits p j, e);
    asked = λ p j at. ground (arith, h.asked p j);
    held = h.held;
    owned = h.owned;
    asleep_made = λ p j at. ground (arith, h.asleep_made p j, h.awake_made pid k on);
    awake_made = λ p j at. ground (arith, h.awake_made p j);
    made = h.made;
  })
  | inr e ↦ rw e (record {
    waits = λ p j at. ground (arith, h.waits p j);
    asked = λ p j at. ground (arith, h.asked p j);
    held = λ j at. ground (arith, h.held j, h.asked pid k on);
    owned = λ j at off. ground (arith, h.owned j);
    asleep_made = λ p j at. ground (arith, h.asleep_made p j);
    awake_made = λ p j at. ground (arith, h.awake_made p j);
    made =
        half_kept s.table s.mutexes _ (λ i m was. ground (arith, was))
          (λ i m now.
            (let other : (k == i) ≡ false = is_made_apart i k s.table m (h.awake_made pid k on) in
              rw other at now))
          h.made;
  })
]

woken_sleeps :
    (k j : ℕ) (a : Status) → woken k a ≡ sleeping j → (a ≡ sleeping j) × ((j == k) ≡ false)
woken_sleeps k j outside e = absurd (cc)
woken_sleeps k j creating e = absurd (cc)
woken_sleeps k j (testing i) e = absurd (cc)
woken_sleeps k j (sleeping i) e = ground arith

woken_tests :
    (k j : ℕ) (a : Status)
    → woken k a ≡ testing j
    → (a ≡ testing j) ⊎ ((a ≡ sleeping j) × ((j == k) ≡ true))
woken_tests k j outside e = absurd (cc)
woken_tests k j creating e = absurd (cc)
woken_tests k j (testing i) e = inl e
woken_tests k j (sleeping i) e = ground arith

unlock_Sound : (id : ℤ) (s : System) → Sound s → Sound (sys_mtx_unlock id s).0
unfolding sys_mtx_unlock
unlock_Sound id s h =
    elim (Bool-cases (in_table id && (s.mutexes (slot id)).used && (s.mutexes (slot id)).locked)) [
      | inl e ↦ rw e (record {
        waits = λ p j at. ground (arith, woken_sleeps (slot id) j (s.status p) at, h.waits p j);
        asked = λ p j at. elim (woken_tests (slot id) j (s.status p) at) [
          | inl o ↦ ground (arith, h.asked p j o)
          | inr o ↦ ground (arith, h.waits p j o.0, h.held j)
        ];
        held = λ j at. ground (arith, h.held j);
        owned = λ j at off. ground (arith, h.owned j);
        asleep_made = λ p j at. h.asleep_made p j (woken_sleeps (slot id) j (s.status p) at).0;
        awake_made = λ p j at. elim (woken_tests (slot id) j (s.status p) at) [
          | inl o ↦ h.awake_made p j o
          | inr o ↦ h.asleep_made p j o.0
        ];
        made =
            half_kept s.table s.mutexes _ (λ i m was. ground (arith, was))
              (λ i m now. ground (arith, now)) h.made;
      })
      | inr e ↦ rw e h
    ]

create_writes_Sound : (s : System) → Sound s → Sound (write_create s).0
unfolding write_create
create_writes_Sound s h = write_Sound s.table s refl h

pub after_Sound : (e : Event) (s : System) → Enabled e s → Sound s → Sound (after e s)
unfolding after
after_Sound (creates pid locked) s on h = create_Sound pid locked s on.1 h
after_Sound writes s on h = create_writes_Sound s h
after_Sound (asks pid id) s on h = begin_Sound pid id s on.1 h
after_Sound (tests pid k) s on h = continue_Sound pid k s on h
after_Sound (unlocks pid id) s on h = unlock_Sound id s h
after_Sound (stirs pid k) s on h = record {
  waits = λ p j at. ground (arith, h.waits p j);
  asked = λ p j at. ground (arith, h.asked p j, h.waits pid k on, h.held k);
  held = h.held;
  owned = h.owned;
  asleep_made = λ p j at. ground (arith, h.asleep_made p j);
  awake_made = λ p j at. ground (arith, h.awake_made p j, h.asleep_made pid k on);
  made = h.made;
}

-- After any sequence of events from boot on, no wakeup is lost: a process that sleeps in sys_mtx_lock
-- waits for a mutex that is locked. A process that tests a mutex tests one in use, as every locked
-- one is; no process tests, or waits for, a mutex of which sys_mtx_create has not done its last
-- write; and a locked mutex has an owner, unless sys_mtx_create has not done its last write of it.
pub Trace-Sound : (es : List Event) (t : System) → Trace boot es t → Sound t
unfolding boot
Trace-Sound es t start = record {
  waits = λ p k at. absurd (cc);
  asked = λ p k at. absurd (cc);
  held = λ k at. absurd (cc);
  owned = λ k at off. absurd (cc);
  asleep_made = λ p k at. refl;
  awake_made = λ p k at. refl;
  made = tt;
}
Trace-Sound es t (later tr e on) = after_Sound e _ on (Trace-Sound _ _ tr)
