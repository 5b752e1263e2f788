-- ===== src/Monitor/Tests.antt =====
-- The server on small inputs.
use monitors_and_ipc.Prelude.{
  ℕ, ◌+◌, ◌≡◌, refl, inl, inr, true, Option, none, some, List, [], ◌∷◌, arith, pos,
}
use monitors_and_ipc.NodePool.{Run, done, fault}
use monitors_and_ipc.NodePool.Shape.{Ends}
use monitors_and_ipc.NodePool.Alloc.{initial_pool, list_create, node_allocator}
use monitors_and_ipc.NodePool.Add.{list_append, append_node}
use monitors_and_ipc.NodePool.Move.{list_count, list_first}
use monitors_and_ipc.NodePool.Remove.{list_remove, unlink_node}
use monitors_and_ipc.NodePool.Tests.Samples.{
  sample, sample-Shape, places, nodes, crowd, pool, holds,
}
use monitors_and_ipc.Monitor.{
  Monitor, initial_monitor, on_init, on_enter, on_leave, on_wait, on_signal, mon_server, mon_init,
  mon_enter, mon_leave, mon_wait, Replies, serve, hand_on, grant_next, next_waiting,
  create_conditions,
}
use monitors_and_ipc.Monitor.Hoare.{Hoare, IsSparse, signal}
use monitors_and_ipc.Monitor.Agree.{Agrees, Answers}
use monitors_and_ipc.Monitor.Signal.{signal_refines}
use monitors_and_ipc.Monitor.Run.{
  Request, enters, leaves, waits, signals, run, run_refines, messages, StaysSparse,
}
use monitors_and_ipc.Monitor.Init.{fresh}
use monitors_and_ipc.Monitor.Idle.{never_idle, NeverIdle}
use monitors_and_ipc.Monitor.Server.{server_refines}
use monitors_and_ipc.Monitor.Crowded.{leave_twice}

-- Two processes, one that waits on a condition and one that signals it.
abbrev session : List (ℕ × Request)
session = (1, enters) ∷ (2, enters) ∷ (1, waits 0) ∷ (2, signals 0) ∷ (1, leaves) ∷ (2, leaves) ∷ []

session_sparse : StaysSparse session (fresh 1)
session_sparse = (
  λ q lt. ground arith,
  (
    λ q lt. ground arith,
    (
      λ q lt. ground arith,
      (λ q lt. ground arith, (λ q lt. ground arith, (λ q lt. ground arith, tt))),
    ),
  ),
)

never_idle_example :
    Ends NeverIdle
      (mon_server initial_monitor ((9, some (mon_init (pos 1))) ∷ messages session) initial_pool)
never_idle_example = never_idle 1 9 session (omega arith) session_sparse (omega arith)

server_refines_example :
    Ends
      (λ (m, out) q.
        out
        ≡ (9, pos 0)
          ∷ (1, pos 0)
          ∷ (2, pos 0)
          ∷ (1, pos 0)
          ∷ (1, pos 0)
          ∷ (2, pos 0)
          ∷ (2, pos 0)
          ∷ [])
      (mon_server initial_monitor ((9, some (mon_init (pos 1))) ∷ messages session) initial_pool)
unfolding run
server_refines_example = server_refines 1 9 session (omega arith) session_sparse (omega arith)

abbrev state : ℕ → Hoare
state busy = record { owner = some 7; waiting = crowd busy; num = 1 }

abbrev variables : ℕ → Monitor
variables busy = record {
  monitor_locked = true;
  current_owner = some 7;
  entry_queue = some (places busy 0);
  urgent_queue = some (places busy 1);
  condition_queues = λ c. some (places busy (c + 2));
  num_conditions = pos 1;
}

agrees :
    (busy : ℕ) → Agrees (places busy) (nodes busy) (8 ∷ 9 ∷ []) pool (variables busy) (state busy)
agrees busy = record {
  queues = holds busy;
  locked = refl;
  owner = refl;
  entry = refl;
  urgent = refl;
  conditions = λ c lt. refl;
  num = refl;
}

sparse : (busy : ℕ) → IsSparse (state busy)
sparse busy q lt = ground arith

signal_refines_example :
    Ends (Answers (places 2) 1 (signal 7 0 (state 2))) (on_signal (variables 2) 7 (pos 0) pool)
signal_refines_example =
    signal_refines (places 2) (nodes 2) 8 (9 ∷ []) pool (variables 2) (state 2) (agrees 2) 7 0
      (sparse 2)

run_refines_example :
    Ends
      (Answers (places 2) 0 (run ((7, signals 0) ∷ (60, leaves) ∷ []) (state 2)))
      (mon_server (variables 2) (messages ((7, signals 0) ∷ (60, leaves) ∷ [])) pool)
run_refines_example =
    run_refines (places 2) ((7, signals 0) ∷ (60, leaves) ∷ []) (nodes 2) (8 ∷ 9 ∷ []) pool
      (variables 2) (state 2) (agrees 2) (sparse 2, (λ q lt. ground arith, tt)) (omega arith)

-- Three processes wait in list 0.
abbrev packed : Monitor
packed = record (variables 2) { entry_queue = some 0; urgent_queue = some 2 }

leave_twice_example :
    mon_server packed ((7, some mon_leave) ∷ (10, some mon_leave) ∷ []) (sample (some 5) none none)
    ≡ fault
leave_twice_example =
    leave_twice (sample (some 5) none none) 0 2 5 6 10 (7 ∷ [])
      (sample-Shape (some 5) none none (inr refl) (inl refl)) refl refl refl refl packed 7 refl refl
      refl

abbrev is_fault : {A : Type 0} → Run A → Option ℕ
is_fault fault = some 1
is_fault _ = none

-- From the start: three processes enter, and two leave.
crash_result :
    is_fault (
      mon_server initial_monitor
        ((9, some (mon_init (pos 0)))
          ∷ (1, some mon_enter)
          ∷ (2, some mon_enter)
          ∷ (3, some mon_enter)
          ∷ (1, some mon_leave)
          ∷ (2, some mon_leave)
          ∷ [])
        initial_pool)
    ≡ some 1
unfolding mon_server initial_monitor initial_pool serve on_init on_enter on_leave hand_on grant_next
    next_waiting create_conditions list_create list_append append_node node_allocator list_count
    list_first list_remove unlink_node
crash_result = refl

abbrev replies_of : Run (Monitor × Replies) → Option Replies
replies_of (done (m, out) q) = some out
replies_of _ = none

-- Three processes enter, the first one leaves, and the second one, which then owns the monitor, waits on
-- condition 1: the reply for its wait comes at once, though nobody has signalled.
unsignalled_result :
    replies_of (
      mon_server initial_monitor
        ((9, some (mon_init (pos 2)))
          ∷ (1, some mon_enter)
          ∷ (2, some mon_enter)
          ∷ (3, some mon_enter)
          ∷ (1, some mon_leave)
          ∷ (2, some (mon_wait (pos 1)))
          ∷ [])
        initial_pool)
    ≡ some ((9, pos 0) ∷ (1, pos 0) ∷ (1, pos 0) ∷ (2, pos 0) ∷ (2, pos 0) ∷ [])
unfolding mon_server initial_monitor initial_pool serve on_init on_enter on_leave on_wait hand_on
    grant_next next_waiting create_conditions list_create list_append append_node node_allocator
    list_count list_first list_remove unlink_node
unsignalled_result = refl
