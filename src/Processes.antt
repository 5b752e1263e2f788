-- ===== src/Processes.antt =====
-- a2-phase2/xv6-A2/kernel/proc.c: the process table with fork, exit, wait, kill, sleep and wakeup. A step is what a
-- process does under wait_lock, or under the lock of a process. The pages, files and registers of a
-- process are left out; whether kalloc, uvmcopy and copyout fail is an argument. A channel is the
-- address of a process, as kwait sleeps on, or another one.
pub mod Family
pub mod Kept
pub mod Exits
pub mod Loops
pub mod Runs
pub mod Traces
pub mod Tree
pub mod Waits
pub mod Orphans
mod Tests
use monitors_and_ipc.Prelude.{
  ℕ, zero, suc, ◌+◌, Bool, true, false, ◌==◌, ◌&&◌, ◌||◌, not, Option, none, some, update,
  if◌then◌else◌,
}

abbrev pub nproc : ℕ
nproc = 64

pub data ProcState : Type 0 where
  unused used sleeping runnable running zombie : ProcState

pub data Channel : Type 0 where
  at_proc at_other : ℕ → Channel

-- `parent` and `chan` are `none` for 0.
pub record Proc : Type 0 where
  pub state : ProcState
  pub chan : Option Channel
  pub killed : Bool
  pub xstate : ℕ
  pub pid : ℕ
  pub parent : Option ℕ
  pub trace_mask : ℕ

abbrev pub Table : Type 0
Table = ℕ → Proc

abbrev pub is_unused : ProcState → Bool
is_unused unused = true
is_unused used = false
is_unused sleeping = false
is_unused runnable = false
is_unused running = false
is_unused zombie = false

abbrev pub is_sleeping : ProcState → Bool
is_sleeping unused = false
is_sleeping used = false
is_sleeping sleeping = true
is_sleeping runnable = false
is_sleeping running = false
is_sleeping zombie = false

abbrev pub is_zombie : ProcState → Bool
is_zombie unused = false
is_zombie used = false
is_zombie sleeping = false
is_zombie runnable = false
is_zombie running = false
is_zombie zombie = true

abbrev pub is_chan : Channel → Option Channel → Bool
is_chan c none = false
is_chan (at_proc p) (some (at_proc q)) = p == q
is_chan (at_proc p) (some (at_other q)) = false
is_chan (at_other p) (some (at_proc q)) = false
is_chan (at_other p) (some (at_other q)) = p == q

abbrev pub is_parent : ℕ → Option ℕ → Bool
is_parent p none = false
is_parent p (some q) = p == q

-- The body of the loop of wakeup.
abbrev pub wake : Channel → Proc → Proc
wake c x = if is_sleeping x.state && is_chan c x.chan then record x { state = runnable } else x

unfoldable pub wakeup_loop : (rounds i : ℕ) (me : ℕ) → Channel → Table → Table
wakeup_loop zero i me c t = t
wakeup_loop (suc rounds) i me c t =
    wakeup_loop rounds (suc i) me c (if i == me then t else update t i (wake c (t i)))

abbrev pub wakeup : (me : ℕ) → Channel → Table → Table
wakeup me c t = wakeup_loop nproc 0 me c t

unfoldable pub reparent_loop : (initproc : ℕ) (rounds i : ℕ) (p : ℕ) → Table → Table
reparent_loop initproc zero i p t = t
reparent_loop initproc (suc rounds) i p t = reparent_loop initproc rounds (suc i) p (
    if is_parent p (t i).parent
    then wakeup p (at_proc initproc) (update t i (record (t i) { parent = some initproc }))
    else t)

abbrev pub reparent : (initproc p : ℕ) → Table → Table
reparent initproc p t = reparent_loop initproc nproc 0 p t

-- kexit: its test of initproc, where `none` is a panic, and what it does from its acquire of wait_lock on. The
-- files that it closes between are left out.
abbrev pub wake_parent : (p : ℕ) → Option ℕ → Table → Table
wake_parent p none t = t
wake_parent p (some q) t = wakeup p (at_proc q) t

unfoldable pub kexit : (initproc p status : ℕ) → Table → Option Table
kexit initproc p status t =
    if p == initproc
    then none
    else (let moved = reparent initproc p t in
        let woken = wake_parent p (moved p).parent moved in
        some (update woken p (record (woken p) { xstate = status; state = zombie })))

abbrev pub freeproc : ℕ → Table → Table
freeproc p t = update t p (record (t p) {
  pid = 0;
  parent = none;
  chan = none;
  killed = false;
  xstate = 0;
  state = unused;
})

-- The loop of kwait: the first zombie among the children, and whether there is a child.
unfoldable pub find_zombie : (rounds i p : ℕ) → Table → Option ℕ
find_zombie zero i p t = none
find_zombie (suc rounds) i p t =
    let rest = find_zombie rounds (suc i) p t in
    if is_parent p (t i).parent && is_zombie (t i).state then some i else rest

unfoldable pub have_kids : (rounds i p : ℕ) → Table → Bool
have_kids zero i p t = false
have_kids (suc rounds) i p t =
    let rest = have_kids rounds (suc i) p t in is_parent p (t i).parent || rest

pub data Waited : Type 0 where
  reaped : (pid xstate : ℕ) → Table → Waited
  failed : Waited
  sleeps : Table → Waited

abbrev pub asleep : ℕ → Channel → Table → Table
asleep p c t = update t p (record (t p) { chan = some c; state = sleeping })

-- One pass of the loop of kwait. `was_killed` is what killed(p) gives.
abbrev pub pass : (p : ℕ) (copy_fails was_killed : Bool) → Option ℕ → Table → Waited
pass p copy_fails was_killed (some c) t =
    if copy_fails then failed else reaped (t c).pid (t c).xstate (freeproc c t)
pass p copy_fails was_killed none t =
    if not (have_kids nproc 0 p t) || was_killed then failed else sleeps (asleep p (at_proc p) t)

unfoldable pub kwait : (p : ℕ) (copy_fails was_killed : Bool) → Table → Waited
kwait p copy_fails was_killed t = pass p copy_fails was_killed (find_zombie nproc 0 p t) t

-- The loop of kkill; `none` for -1.
unfoldable pub kill_loop : (rounds i pid : ℕ) → Table → Option Table
kill_loop zero i pid t = none
kill_loop (suc rounds) i pid t =
    let rest = kill_loop rounds (suc i) pid t in
    if (t i).pid == pid
    then some (
        update t i (record (t i) {
          killed = true;
          state = if is_sleeping (t i).state then runnable else (t i).state;
        }))
    else rest

abbrev pub kkill : (pid : ℕ) → Table → Option Table
kkill pid t = kill_loop nproc 0 pid t

-- The loop of allocproc.
unfoldable pub find_slot : (rounds i : ℕ) → Table → Option ℕ
find_slot zero i t = none
find_slot (suc rounds) i t =
    let rest = find_slot rounds (suc i) t in if is_unused (t i).state then some i else rest

pub record System : Type 0 where
  pub proc : Table
  pub nextpid : ℕ

-- kfork by process `p`: what allocproc finds, with the pid that allocpid gives. The result is the child.
abbrev pub fork_at : (p : ℕ) (fails : Bool) → Option ℕ → System → Option ℕ × System
fork_at p fails none s = (none, s)
fork_at p fails (some np) s =
    if fails then (none, record { proc = freeproc np s.proc; nextpid = s.nextpid + 1 }) else (
      some np,
      record {
        proc = update s.proc np (record (s.proc np) {
          pid = s.nextpid;
          trace_mask = (s.proc p).trace_mask;
          parent = some p;
          state = runnable;
        });
        nextpid = s.nextpid + 1;
      },
    )

unfoldable pub kfork : (p : ℕ) (fails : Bool) → System → Option ℕ × System
kfork p fails s = fork_at p fails (find_slot nproc 0 s.proc) s
