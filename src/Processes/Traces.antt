-- ===== src/Processes/Traces.antt =====
-- What holds of the processes, in every order of their steps.
use monitors_and_ipc.Prelude.{
  ℕ, ◌≡◌, ◌≤◌, ◌<◌, inl, inr, refl, ap, Bool, true, false, ◌==◌, none, some, arith, Bool-cases,
  Option-cases,
}
use monitors_and_ipc.Processes.{
  nproc, sleeping, runnable, running, Proc, Table, is_unused, is_zombie,
}
use monitors_and_ipc.Processes.{find_slot, System, fork_at, kfork}
use monitors_and_ipc.Processes.Loops.{wakeup-Roused}
use monitors_and_ipc.Processes.Family.{
  IsLive, IsFamily, updated-IsLive, update-IsFamily, Roused-IsFamily,
}
use monitors_and_ipc.Processes.{at_other, Proc}
use monitors_and_ipc.Processes.Kept.{live_change, freed-IsFamily, slot_found}
use monitors_and_ipc.Processes.Exits.{kexit-IsFamily}
use monitors_and_ipc.Processes.Runs.{
  Step, forks, exits, reaps, waits, sleeps_on, yields, switches_to, wakes, kills,
}
use monitors_and_ipc.Processes.Waits.{kill_loop-Roused, reaps-IsFamily, waits-IsFamily}

slot_live : (t : Table) (k p : ℕ) → is_unused (t k).state ≡ true → IsLive (t p) → (k == p) ≡ false
slot_live t k p off live = elim (Bool-cases (k == p)) [
  | inr far ↦ far
  | inl same ↦
      let e : k ≡ p = ground (arith, same) in
      absurd (ground (arith, live.0, ap (λ j. is_unused (t j).state) e, off))
]

-- The invariant of the system.
abbrev pub IsSound : System → Type 0
IsSound s = IsFamily 0 s.proc × (1 ≤ s.nextpid)

forked-IsSound :
    (s : System) (p np : ℕ) (fails : Bool)
    → p < nproc
    → IsLive (s.proc p)
    → np < nproc
    → is_unused (s.proc np).state ≡ true
    → IsSound s
    → IsSound (fork_at p fails (some np) s).1
forked-IsSound s p np true lt live small off (h, next) =
    (freed-IsFamily 0 np s.proc small (inl off) h, omega arith)
forked-IsSound s p np false lt live small off (h, next) =
    let x = record (s.proc np) {
      pid = s.nextpid;
      trace_mask = (s.proc p).trace_mask;
      parent = some p;
      state = runnable;
    } in
    (
      update-IsFamily 0 np s.proc x small
          (record {
            pid_fits = ground (arith, next);
            gone = λ un. absurd (ground (arith, un));
            counted = inl (refl, refl);
            has_parent = λ on far. (p, lt, refl, updated-IsLive s.proc np x p (refl, refl) live);
            hears = λ f. absurd (ground (arith, f));
            is_heard = inl refl;
          })
          h,
      omega arith,
    )

kfork-IsSound :
    (s : System) (p : ℕ) (fails : Bool)
    → p < nproc
    → IsLive (s.proc p)
    → IsSound s
    → IsSound (kfork p fails s).1
unfolding kfork
kfork-IsSound s p fails lt live h = elim (Option-cases (find_slot nproc 0 s.proc)) [
  | inl full ↦ rw full h
  | inr (np, found) ↦
      let (small, off) = slot_found nproc 0 s.proc np found in
      rw found (forked-IsSound s p np fails lt live (omega (arith, small)) off h)
]

running-IsLive : (x : Proc) → x.state ≡ running → IsLive x
running-IsLive x e = (ap is_unused e, ap is_zombie e)

runnable-IsLive : (x : Proc) → x.state ≡ runnable → IsLive x
runnable-IsLive x e = (ap is_unused e, ap is_zombie e)

pub Step-IsSound : (s s' : System) → Step 0 s s' → IsSound s → IsSound s'
Step-IsSound s s' (forks s0 p fails lt on) h =
    kfork-IsSound s0 p fails lt (running-IsLive (s0.proc p) on) h
Step-IsSound s s' (exits s0 p status t lt on e) (h, next) =
    (kexit-IsFamily 0 p status s0.proc t lt (running-IsLive (s0.proc p) on) e h, next)
Step-IsSound s s' (reaps s0 p pid xstate wk t lt on e) (h, next) =
    (reaps-IsFamily 0 p pid xstate wk s0.proc t e h, next)
Step-IsSound s s' (waits s0 p cf wk t lt on e) (h, next) =
    (waits-IsFamily 0 p cf wk s0.proc t lt (running-IsLive (s0.proc p) on) e h, next)
Step-IsSound s s' (sleeps_on s0 p n lt on) (h, next) = (
  live_change 0 p s0.proc sleeping (some (at_other n)) lt (running-IsLive (s0.proc p) on) refl refl
      (λ f. absurd (ground (arith, f))) h,
  next,
)
Step-IsSound s s' (yields s0 p lt on) (h, next) = (
  live_change 0 p s0.proc runnable (s0.proc p).chan lt (running-IsLive (s0.proc p) on) refl refl
      (λ f. absurd (ground (arith, f))) h,
  next,
)
Step-IsSound s s' (switches_to s0 p lt on) (h, next) = (
  live_change 0 p s0.proc running none lt (runnable-IsLive (s0.proc p) on) refl refl
      (λ f. absurd (ground (arith, f))) h,
  next,
)
Step-IsSound s s' (wakes s0 me c) (h, next) =
    (Roused-IsFamily 0 s0.proc _ (wakeup-Roused me c s0.proc) h, next)
Step-IsSound s s' (kills s0 pid t e) (h, next) =
    (Roused-IsFamily 0 s0.proc t (kill_loop-Roused nproc 0 pid s0.proc t e) h, next)
