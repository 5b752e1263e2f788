-- ===== src/Sieve.antt =====
-- a2-phase2/xv6-A2/user/primes.c: the sieve as a chain of processes with a pipe between each two. A step is
-- what one process does up to its next call that may block. Numbers are 4 bytes and PIPESIZE is a multiple
-- of 4, so that a pipe holds up to 128 whole numbers; read gives one that is there, gives 0 once the pipe
-- is empty and its writing end closed, and blocks else. fork and pipe succeed, as they do up to
-- `last` = 36: a process keeps the reading ends of all pipes before its own open, and may have 16 files.
pub mod Ends
pub mod Output
pub mod Primes
pub mod Progress
pub mod Runs
mod Tests
use monitors_and_ipc.Prelude.{
  ℕ, zero, suc, ◌+◌, ◌%◌, Bool, true, false, Option, none, some, List, [], ◌∷◌, ◌++◌, ◌==◌, leb,
  length, if◌then◌else◌,
}

abbrev pub capacity : ℕ
capacity = 128

-- A process of the sieve with a prime: before a read, with a number that it has read, or in wait(0).
pub data Phase : Type 0 where
  reading : Phase
  holding : ℕ → Phase
  waiting : Phase

-- The processes behind a pipe: one in its first read; one that has ended; or one with a prime and the pipe
-- to its child, and the processes behind that pipe.
pub data Chain : Type 0 where
  starting ended : Chain
  stage : Phase → ℕ → List ℕ → Chain → Chain

-- The writing end of its pipe is open until it has read everything.
abbrev pub is_writing : Phase → Bool
is_writing reading = true
is_writing (holding num) = true
is_writing waiting = false

abbrev pub is_ended : Chain → Bool
is_ended ended = true
is_ended starting = false
is_ended (stage phase prime pipe child) = false

-- What a step leaves: the numbers in the pipe that the chain reads, the chain, and what is printed.
pub record Moved : Type 0 where
  pub input : List ℕ
  pub chain : Chain
  pub prints : List ℕ

abbrev pub moved : List ℕ → Chain → List ℕ → Option Moved
moved input chain prints = some (record { input = input; chain = chain; prints = prints })

-- The step of the first process, `none` if it is blocked or has ended. `is_open` says whether the writing
-- end of the pipe that it reads is open.
unfoldable pub first_step : (is_open : Bool) → List ℕ → Chain → Option Moved
first_step is_open (num ∷ input) starting = moved input (stage reading num [] starting) (num ∷ [])
first_step is_open [] starting = if is_open then none else moved [] ended []
first_step is_open (num ∷ input) (stage reading prime pipe child) =
    moved input (stage (holding num) prime pipe child) []
first_step is_open [] (stage reading prime pipe child) =
    if is_open then none else moved [] (stage waiting prime pipe child) []
first_step is_open input (stage (holding num) prime pipe child) =
    if num % prime == 0
    then moved input (stage reading prime pipe child) []
    else if leb capacity (length pipe)
    then none
    else moved input (stage reading prime (pipe ++ num ∷ []) child) []
first_step is_open input (stage waiting prime pipe child) =
    if is_ended child then moved input ended [] else none
first_step is_open input ended = none

-- The step of a process behind the pipe of a stage.
abbrev pub behind : List ℕ → Phase → ℕ → Option Moved → Option Moved
behind input phase prime none = none
behind input phase prime (some m) = moved input (stage phase prime m.input m.chain) m.prints

-- The step of process `k` of the chain.
unfoldable pub chain_step : (is_open : Bool) → ℕ → List ℕ → Chain → Option Moved
chain_step is_open zero input chain = first_step is_open input chain
chain_step is_open (suc k) input starting = none
chain_step is_open (suc k) input ended = none
chain_step is_open (suc k) input (stage phase prime pipe child) =
    behind input phase prime (chain_step (is_writing phase) k pipe child)

-- The first process: before it writes `i`, in wait(0), or at its end.
pub data Main : Type 0 where
  writes : ℕ → Main
  waits exited : Main

pub record System : Type 0 where
  pub main : Main
  pub pipe : List ℕ
  pub chain : Chain
  pub printed : List ℕ

abbrev pub is_open : Main → Bool
is_open (writes i) = true
is_open waits = false
is_open exited = false

abbrev pub booted : System
booted = record { main = writes 2; pipe = []; chain = starting; printed = [] }

abbrev pub main_step : (last : ℕ) → Main → System → Option System
main_step last (writes i) s =
    if leb i last
    then (if leb capacity (length s.pipe)
        then none
        else some (record s { main = writes (suc i); pipe = s.pipe ++ i ∷ [] }))
    else some (record s { main = waits })
main_step last waits s = if is_ended s.chain then some (record s { main = exited }) else none
main_step last exited s = none

abbrev pub after_move : System → Option Moved → Option System
after_move s none = none
after_move s (some m) =
    some (record s { pipe = m.input; chain = m.chain; printed = s.printed ++ m.prints })

-- The step of process 0, main, with `last` for its 35, or of another one.
unfoldable pub step : (last : ℕ) → ℕ → System → Option System
step last zero s = main_step last s.main s
step last (suc k) s = after_move s (chain_step (is_open s.main) k s.pipe s.chain)

-- The steps of the processes in the order of a schedule; one that is blocked does nothing.
abbrev pub or_stay : System → Option System → System
or_stay s none = s
or_stay s (some s') = s'

unfoldable pub run : (last : ℕ) → List ℕ → System → System
run last [] s = s
run last (k ∷ ks) s = run last ks (or_stay s (step last k s))
