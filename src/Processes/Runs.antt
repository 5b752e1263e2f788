-- ===== src/Processes/Runs.antt =====
-- The steps of the processes, in every order.
use monitors_and_ipc.Prelude.{ℕ, ◌≡◌, ◌<◌, Bool, false, Option, none, some, update}
use monitors_and_ipc.Processes.{
  nproc, ProcState, unused, runnable, running, Channel, Proc, Table, wakeup,
}
use monitors_and_ipc.Processes.{kexit, reaped, sleeps, asleep, kwait, kkill, System, kfork}
use monitors_and_ipc.Processes.{at_other}

-- The state of a process after a switch.
abbrev pub put_state : ProcState → Option Channel → Proc → Proc
put_state state chan x = record x { state = state; chan = chan }

-- The steps: those of a running process `p`, and those that may come from anyone.
pub data Step (initproc : ℕ) : System → System → Type 0 where
  forks :
      (s : System) (p : ℕ) (fails : Bool)
      → p < nproc
      → (s.proc p).state ≡ running
      → Step initproc s (kfork p fails s).1
  exits :
      (s : System) (p status : ℕ) (t : Table)
      → p < nproc
      → (s.proc p).state ≡ running
      → kexit initproc p status s.proc ≡ some t
      → Step initproc s (record s { proc = t })
  reaps :
      (s : System) (p pid xstate : ℕ) (was_killed : Bool) (t : Table)
      → p < nproc
      → (s.proc p).state ≡ running
      → kwait p false was_killed s.proc ≡ reaped pid xstate t
      → Step initproc s (record s { proc = t })
  waits :
      (s : System) (p : ℕ) (copy_fails was_killed : Bool) (t : Table)
      → p < nproc
      → (s.proc p).state ≡ running
      → kwait p copy_fails was_killed s.proc ≡ sleeps t
      → Step initproc s (record s { proc = t })
  sleeps_on :
      (s : System) (p n : ℕ)
      → p < nproc
      → (s.proc p).state ≡ running
      → Step initproc s (record s { proc = asleep p (at_other n) s.proc })
  yields :
      (s : System) (p : ℕ)
      → p < nproc
      → (s.proc p).state ≡ running
      → Step initproc s
          (record s { proc = update s.proc p (put_state runnable (s.proc p).chan (s.proc p)) })
  switches_to :
      (s : System) (p : ℕ)
      → p < nproc
      → (s.proc p).state ≡ runnable
      → Step initproc s (record s { proc = update s.proc p (put_state running none (s.proc p)) })
  wakes :
      (s : System) (me : ℕ) (c : Channel) → Step initproc s (record s { proc = wakeup me c s.proc })
  kills :
      (s : System) (pid : ℕ) (t : Table)
      → kkill pid s.proc ≡ some t
      → Step initproc s (record s { proc = t })

-- After userinit: the first process is in the table, and nothing else.
abbrev pub empty_proc : Proc
empty_proc = record {
  state = unused;
  chan = none;
  killed = false;
  xstate = 0;
  pid = 0;
  parent = none;
  trace_mask = 0;
}

abbrev pub first_system : System
first_system = record {
  proc = update (λ q. empty_proc) 0 (record empty_proc { state = runnable; pid = 1 });
  nextpid = 2;
}

pub data Trace : System → Type 0 where
  starts : Trace first_system
  then_steps : (s s' : System) → Trace s → Step 0 s s' → Trace s'
