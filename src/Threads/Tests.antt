-- ===== src/Threads/Tests.antt =====
-- Runs of a table of threads.
use monitors_and_ipc.Prelude.{◌≡◌, refl, some, if◌then◌else◌, arith, ◌==◌, [], ◌∷◌, none, List}
use monitors_and_ipc.Threads.{
  Threads, Thread, free, running, runnable, zeroed, thread_init, thread_schedule, thread_yield,
  thread_create, find_runnable, find_free,
}
use monitors_and_ipc.Threads.Main.{main_left_out, LeftOutIfAny, make_all, yields, exits, Call}
use monitors_and_ipc.Threads.{Regi, thread_exit}
use monitors_and_ipc.Threads.Robin.{round_robin, Reaches, switched}
use monitors_and_ipc.Threads.Switching.{
  thread_schedule-Scheduled, Scheduled, registers_back, thread_create-Created, Created,
}

abbrev unused : Thread
unused = record { state = free; registers = zeroed }

-- main runs, with two more threads that start at 100 and 200.
abbrev three : Threads
three = record {
  all_thread = λ t.
      if t == 0
      then record { state = running; registers = zeroed }
      else if t == 1
      then record { state = runnable; registers = record { ra = 100; sp = 16503; s = λ k. 0 } }
      else if t == 2
      then record { state = runnable; registers = record { ra = 200; sp = 24815; s = λ k. 0 } }
      else unused;
  current_thread = 0;
  cpu = record { ra = 7; sp = 8; s = λ k. 9 };
}

-- The first of them alone.
abbrev two : Threads
two = record three { all_thread = λ t. if t == 2 then unused else three.all_thread t }

round_robin_example : Reaches 2 2 three
round_robin_example = round_robin 2 three 2 (omega arith) (omega arith) refl refl

thread_schedule-Scheduled_example : Scheduled three (thread_schedule three)
thread_schedule-Scheduled_example = thread_schedule-Scheduled three (omega arith)

abbrev back_again : Threads
back_again = switched 0 (record (switched 1 two) { cpu = zeroed })

once : thread_yield two ≡ some (switched 1 two)
unfolding thread_yield thread_schedule find_runnable
once = refl

twice : thread_yield (record (switched 1 two) { cpu = zeroed }) ≡ some back_again
unfolding thread_yield thread_schedule find_runnable
twice = refl

registers_back_example : back_again.cpu ≡ record { ra = 7; sp = 8; s = λ k. 9 }
registers_back_example =
    registers_back two (switched 1 two) back_again zeroed (omega arith) once refl twice refl

thread_create-Created_example : Created 300 three (thread_create 0 300 three)
thread_create-Created_example = thread_create-Created 0 300 three

created_result : ((thread_create 0 300 three).all_thread 3).registers.sp ≡ 33127
unfolding thread_create find_free
created_result = refl

init_result : ((thread_init three).all_thread 0).state ≡ running
unfolding thread_init
init_result = refl

-- The first thread yields, the second one exits, and the first one.
abbrev two_exit : List (Regi × Call)
two_exit = (zeroed, yields) ∷ (zeroed, exits) ∷ (zeroed, exits) ∷ []

main_left_out_example : LeftOutIfAny (make_all two_exit (thread_schedule three))
main_left_out_example = main_left_out three two_exit refl

program_ends : make_all two_exit (thread_schedule three) ≡ none
unfolding make_all thread_schedule find_runnable thread_yield thread_exit
program_ends = refl
