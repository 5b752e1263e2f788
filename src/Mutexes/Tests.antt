-- ===== src/Mutexes/Tests.antt =====
-- Runs of the calls on small tables.
use monitors_and_ipc.Prelude.{ℕ, ◌≡◌, refl, true, false, none, some, List, [], ◌∷◌, pos, arith}
use monitors_and_ipc.Mutexes.{
  System, testing, sleeping, open_table, Event, creates, writes, asks, unlocks, tests, Trace, start,
  later, after, boot, find_unused, begin_create, write_create, begin_lock, continue_lock,
  sys_mtx_unlock,
}
use monitors_and_ipc.Mutexes.Invariant.{Sound, Trace-Sound, is_made, has_owner}
use monitors_and_ipc.Mutexes.Exclusion.{locked_stays, unlock_hands}

-- Process 1 creates a mutex and locks it.
abbrev owned_events : List Event
owned_events = tests 1 0 ∷ asks 1 (pos 0) ∷ writes ∷ writes ∷ creates 1 (pos 0) ∷ []

abbrev made : System
made = after writes (after writes (after (creates 1 (pos 0)) boot))

abbrev owned : System
owned = after (tests 1 0) (after (asks 1 (pos 0)) made)

owned-Trace : Trace boot owned_events owned
unfolding after boot begin_create write_create begin_lock continue_lock find_unused
owned-Trace =
    later
      (later (later (later (later start (creates 1 (pos 0)) (refl, refl)) writes tt) writes tt)
        (asks 1 (pos 0)) (refl, refl))
      (tests 1 0) refl

-- Process 2 asks for it, and sleeps.
abbrev queued_events : List Event
queued_events = tests 2 0 ∷ asks 2 (pos 0) ∷ []

abbrev queued : System
queued = after (tests 2 0) (after (asks 2 (pos 0)) owned)

queued-Trace : Trace owned queued_events queued
unfolding after boot begin_create write_create begin_lock continue_lock find_unused
queued-Trace = later (later start (asks 2 (pos 0)) (refl, refl)) (tests 2 0) refl

Trace-Sound_example : Sound owned
Trace-Sound_example = Trace-Sound owned_events owned owned-Trace

owned_locked : (owned.mutexes 0).locked ≡ true
unfolding after boot begin_create write_create begin_lock continue_lock find_unused
owned_locked = refl

owned_made : is_made 0 owned.table ≡ false
unfolding after boot begin_create write_create begin_lock continue_lock find_unused
owned_made = refl

locked_stays_example :
    (queued.mutexes 0 ≡ owned.mutexes 0)
    × (has_owner (queued.mutexes 0).owner ≡ true)
    × ((p : ℕ) → (continue_lock p 0 queued).1 ≡ none)
locked_stays_example =
    locked_stays 0 queued_events owned queued queued-Trace
      (Trace-Sound owned_events owned owned-Trace) owned_locked owned_made (refl, (refl, tt))

-- Process 1 holds mutex 0, and process 2 sleeps for it.
abbrev waiting : System
waiting = record {
  table = open_table;
  mutexes = λ k. record { locked = true; used = true; owner = some 1 };
  status = λ p. sleeping 0;
}

waiting-Sound : Sound waiting
waiting-Sound = record {
  waits = λ p k at. refl;
  asked = λ p k at. refl;
  held = λ k at. refl;
  owned = λ k at off. refl;
  asleep_made = λ p k at. refl;
  awake_made = λ p k at. refl;
  made = tt;
}

unlock_hands_example :
    ((sys_mtx_unlock (pos 0) waiting).1 ≡ pos 0)
    × ((sys_mtx_unlock (pos 0) waiting).0.status 2 ≡ testing 0)
    × ((continue_lock 2 0 (sys_mtx_unlock (pos 0) waiting).0).1 ≡ some (pos 0))
    × (((continue_lock 2 0 (sys_mtx_unlock (pos 0) waiting).0).0.mutexes 0)
        ≡ record { locked = true; used = true; owner = some 2 })
unlock_hands_example = unlock_hands waiting 2 0 waiting-Sound (omega arith) refl

-- Process 2 unlocks the mutex that process 1 holds.
unlock_other_result : (sys_mtx_unlock (pos 0) owned).1 ≡ pos 0
unfolding after boot begin_create write_create begin_lock continue_lock find_unused sys_mtx_unlock
unlock_other_result = refl

-- Process 1 creates a locked mutex, and process 2 unlocks it before sys_mtx_create writes its owner.
abbrev raced : System
raced = after writes (after (unlocks 2 (pos 0)) (after writes (after (creates 1 (pos 1)) boot)))

raced_mutex : raced.mutexes 0 ≡ record { locked = false; used = true; owner = some 1 }
unfolding after boot begin_create write_create find_unused sys_mtx_unlock
raced_mutex = refl
