-- ===== src/Processes/Tests.antt =====
-- The first process forks, and the child exits.
use monitors_and_ipc.Prelude.{
  ℕ, ◌≡◌, ◌<◌, ◌&&◌, refl, arith, true, false, Option, none, some, update,
}
use monitors_and_ipc.Processes.{
  nproc, Table, System, running, is_unused, is_zombie, is_sleeping, is_chan, at_proc, reaped, kexit,
  kfork, kwait, kkill, freeproc, find_slot, wakeup_loop, reparent_loop,
}
use monitors_and_ipc.Processes.Runs.{
  Trace, starts, then_steps, forks, exits, switches_to, first_system, put_state,
}
use monitors_and_ipc.Processes.Tree.{no_orphans, zombie_heard, kill_zero}

abbrev dispatched : ℕ → System → System
dispatched p s = record s { proc = update s.proc p (put_state running none (s.proc p)) }

abbrev up : System
up = dispatched 0 first_system

abbrev forked : System
forked = (kfork 0 false up).1

abbrev child_runs : System
child_runs = dispatched 1 forked

abbrev or_same : Table → Option Table → Table
or_same t none = t
or_same t (some t') = t'

abbrev child_gone : System
child_gone = record child_runs { proc = or_same child_runs.proc (kexit 0 1 7 child_runs.proc) }

up-Trace : Trace up
up-Trace = then_steps first_system up starts (switches_to first_system 0 (omega arith) refl)

forked-Trace : Trace forked
forked-Trace = then_steps up forked up-Trace (forks up 0 false (omega arith) refl)

child_runs-Trace : Trace child_runs
unfolding kfork find_slot
child_runs-Trace =
    then_steps forked child_runs forked-Trace (switches_to forked 1 (omega arith) refl)

child_gone-Trace : Trace child_gone
unfolding kfork find_slot kexit
child_gone-Trace =
    then_steps child_runs child_gone child_runs-Trace
      (exits child_runs 1 7 child_gone.proc (omega arith) refl refl)

child_status : (child_gone.proc 1).xstate ≡ 7
unfolding kfork find_slot kexit wakeup_loop reparent_loop
child_status = refl

is_there : is_unused (forked.proc 1).state ≡ false
unfolding kfork find_slot
is_there = refl

is_child : (child_gone.proc 1).parent ≡ some 0
unfolding kfork find_slot kexit wakeup_loop reparent_loop
is_child = refl

is_dead : is_zombie (child_gone.proc 1).state ≡ true
unfolding kfork find_slot kexit wakeup_loop reparent_loop
is_dead = refl

second_free : find_slot nproc 0 up.proc ≡ some 1
unfolding find_slot
second_free = refl

no_orphans_example :
    (r : ℕ) × (r < nproc)
    × ((forked.proc 1).parent ≡ some r)
    × (is_unused (forked.proc r).state ≡ false)
    × (is_zombie (forked.proc r).state ≡ false)
no_orphans_example = no_orphans forked 1 forked-Trace (omega arith) is_there refl

zombie_heard_example :
    ((is_sleeping (child_gone.proc 0).state && is_chan (at_proc 0) (child_gone.proc 0).chan)
      ≡ false)
    × ((d : ℕ) × (d < nproc)
        × ((child_gone.proc d).parent ≡ some 0)
        × (is_zombie (child_gone.proc d).state ≡ true)
        × (kwait 0 false false child_gone.proc
            ≡ reaped
                (child_gone.proc d).pid
                (child_gone.proc d).xstate
                (freeproc d child_gone.proc)))
zombie_heard_example =
    zombie_heard child_gone 0 1 false child_gone-Trace (omega arith) (omega arith) is_child is_dead

kill_zero_example :
    (t : Table) × (kkill 0 up.proc ≡ some t)
    × ((kfork 0 false (record up { proc = t })).0 ≡ some 1)
    × ((((kfork 0 false (record up { proc = t })).1).proc 1).killed ≡ true)
kill_zero_example = kill_zero up 0 1 up-Trace second_free
