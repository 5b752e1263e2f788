-- ===== src/Threads.antt =====
-- a2-phase2/xv6-A2/user/uthread.c: the table of user threads and their scheduler, with the registers of
-- the processor that thread_switch (uthread_switch.S) saves and loads. The contents of the stacks are
-- left out; `all_thread` is the address of the table, and a thread takes 8312 bytes, the stack first.
pub mod Main
pub mod Robin
pub mod Switching
mod Tests
use monitors_and_ipc.Prelude.{
  ℕ, zero, suc, ◌+◌, ◌*◌, ◌-◌, Bool, true, false, Option, none, some, ◌==◌, leb, if◌then◌else◌,
  update,
}

abbrev pub stack_size : ℕ
stack_size = 8192

abbrev pub max_thread : ℕ
max_thread = 4

-- `struct regi`, s0 to s11 by their number.
pub record Regi : Type 0 where
  pub ra : ℕ
  pub sp : ℕ
  pub s : ℕ → ℕ

pub data Phase : Type 0 where
  free running runnable : Phase

pub record Thread : Type 0 where
  pub state : Phase
  pub registers : Regi

-- The globals of uthread.c, and the registers of the processor.
pub record Threads : Type 0 where
  pub all_thread : ℕ → Thread
  pub current_thread : ℕ
  pub cpu : Regi

abbrev pub is_runnable : Phase → Bool
is_runnable runnable = true
is_runnable free = false
is_runnable running = false

abbrev pub is_free : Phase → Bool
is_free free = true
is_free running = false
is_free runnable = false

-- Thread `t` with the state `x`.
abbrev pub mark : ℕ → Phase → Threads → Threads
mark t x g = record g { all_thread = update g.all_thread t (record (g.all_thread t) { state = x }) }

abbrev pub zeroed : Regi
zeroed = record { ra = 0; sp = 0; s = λ k. 0 }

unfoldable pub thread_init : Threads → Threads
thread_init g = record g {
  all_thread = update g.all_thread 0 (record { state = running; registers = zeroed });
  current_thread = 0;
}

-- The first loop of thread_schedule, with the rounds that are left.
unfoldable pub find_runnable : (rounds t : ℕ) → (ℕ → Thread) → Option ℕ
find_runnable zero t threads = none
find_runnable (suc rounds) t threads =
    let u = if leb max_thread t then 0 else t in
    let rest = find_runnable rounds (u + 1) threads in
    if is_runnable (threads u).state then some u else rest

-- thread_switch saves the registers in thread `from`, and loads those of thread `to`.
abbrev pub thread_switch : (from to : ℕ) → Threads → Threads
thread_switch from to g =
    let saved = update g.all_thread from (record (g.all_thread from) { registers = g.cpu }) in
    record g { all_thread = saved; cpu = (saved to).registers }

abbrev pub switch_to : Option ℕ → Threads → Option Threads
switch_to none g = none
switch_to (some next) g =
    if g.current_thread == next
    then some g
    else some (
        thread_switch g.current_thread next
          (record (mark next running g) { current_thread = next }))

-- `none` is the exit for want of a runnable thread.
unfoldable pub thread_schedule : Threads → Option Threads
thread_schedule g = switch_to (find_runnable max_thread (g.current_thread + 1) g.all_thread) g

unfoldable pub thread_yield : Threads → Option Threads
thread_yield g = thread_schedule (mark g.current_thread runnable g)

unfoldable pub thread_exit : Threads → Option Threads
thread_exit g = thread_schedule (mark g.current_thread free g)

-- The loop of thread_create from `t` on: the first free thread, or MAX_THREAD.
unfoldable pub find_free : (rounds t : ℕ) → (ℕ → Thread) → ℕ
find_free zero t threads = t
find_free (suc rounds) t threads =
    let rest = find_free rounds (t + 1) threads in if is_free (threads t).state then t else rest

-- The thread is made at the place that the loop stops at, whether this is in the table or behind it.
unfoldable pub thread_create : (table func : ℕ) → Threads → Threads
thread_create table func g =
    let t = find_free max_thread 0 g.all_thread in
    let r = record (g.all_thread t).registers {
      sp = table + 8312 * t + (stack_size - 1);
      ra = func;
    } in
    record g { all_thread = update g.all_thread t (record { state = runnable; registers = r }) }
