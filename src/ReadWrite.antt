-- ===== src/ReadWrite.antt =====
-- a2-phase2/reader_writer_monitor.c: StartRead, StopRead, StartWrite and StopWrite over MonServer, for any
-- number of processes. A process runs from the reply to one message to the next message that it sends,
-- and goes on when the server (Monitor.antt), run on all messages so far, has replied to it.
-- ReadWrite/Ideal has the same procedures over the Hoare monitor, for the proofs.
pub mod Ideal
pub mod Places
pub mod Queued
pub mod Owner
pub mod Exclusion
pub mod Replies
pub mod Served
pub mod Steps
pub mod Tally
mod Tests
use monitors_and_ipc.Prelude.{
  ℕ, zero, suc, ◌+◌, ◌-◌, ◌≡◌, Bool, true, false, ◌||◌, ◌==◌, Option, none, some, if◌then◌else◌,
  update, List, [], is_zero, not, ◌++◌, ◌∷◌, pos,
}
use monitors_and_ipc.NodePool.Shape.{Ends}
use monitors_and_ipc.NodePool.Alloc.{initial_pool}
use monitors_and_ipc.Monitor.{MonMsg, mon_server, initial_monitor, mon_init}
use monitors_and_ipc.Monitor.Run.{Request, enters, leaves, waits, signals, messages}

abbrev pub ok_to_read : ℕ
ok_to_read = 0

abbrev pub ok_to_write : ℕ
ok_to_write = 1

-- Where a process is: outside, with what it may do there; or behind the message in a procedure that it
-- has sent last.
pub data Place : Type 0 where
  resting reading writing : Place
  enters_start_read waits_start_read signals_start_read : Place
  enters_stop_read signals_stop_read : Place
  enters_start_write waits_start_write : Place
  enters_stop_write signals_stop_write : Place

-- The static variables, the messages that MonServer has been sent after Initialize, the first one first,
-- and the processes.
pub record Room : Type 0 where
  pub num_readers : ℕ
  pub busy_writing : Bool
  pub sent : List (ℕ × Request)
  pub at : ℕ → Place

-- What a process does with the variables when it goes on, the request that it sends then, and its place.
pub record Chunk : Type 0 where
  pub readers : ℕ
  pub busy : Bool
  pub request : Request
  pub place : Place

abbrev pub chunk : ℕ → Bool → Request → Place → Chunk
chunk n b r p = record { readers = n; busy = b; request = r; place = p }

abbrev pub start_read : ℕ → Bool → Chunk
start_read n b = chunk (n + 1) b (signals ok_to_read) signals_start_read

abbrev pub start_write : ℕ → Chunk
start_write n = chunk n true leaves writing

-- The code of the four procedures, from each message on. Outside, nothing is left to do. StopRead is not
-- called with no reader, which the steps below see to, so numReaders-- does not go below 0.
unfoldable pub go_on : Place → ℕ → Bool → Option Chunk
go_on resting n b = none
go_on reading n b = none
go_on writing n b = none
go_on enters_start_read n b =
    some (if b then chunk n b (waits ok_to_read) waits_start_read else start_read n b)
go_on waits_start_read n b = some (start_read n b)
go_on signals_start_read n b = some (chunk n b leaves reading)
go_on enters_stop_read n b = some (
    if is_zero (n - 1)
    then chunk (n - 1) b (signals ok_to_write) signals_stop_read
    else chunk (n - 1) b leaves resting)
go_on signals_stop_read n b = some (chunk n b leaves resting)
go_on enters_start_write n b = some (
    if not (is_zero n) || b then chunk n b (waits ok_to_write) waits_start_write else start_write n)
go_on waits_start_write n b = some (start_write n)
go_on enters_stop_write n b = some (chunk n false (signals ok_to_read) signals_stop_write)
go_on signals_stop_write n b = some (chunk n b leaves resting)

-- The message of the process is the next one.
abbrev pub sends : ℕ → Request → Room → List (ℕ × Request)
sends pid r s = s.sent ++ (pid, r) ∷ []

abbrev pub calls_in : ℕ → Place → Room → Room
calls_in pid x s = record s { sent = sends pid enters s; at = update s.at pid x }

abbrev pub after_chunk : ℕ → Chunk → Room → Room
after_chunk pid c s = record {
  num_readers = c.readers;
  busy_writing = c.busy;
  sent = sends pid c.request s;
  at = update s.at pid c.place;
}

-- How many of the messages, or of the replies, are of the process `pid`.
abbrev pub count_of : {A : Type 0} → ℕ → List (ℕ × A) → ℕ
count_of pid [] = 0
count_of pid (m ∷ ms) = (if pid == m.0 then 1 else 0) + count_of pid ms

-- The messages to MonServer, the first one that of Initialize.
abbrev pub to_server : ℕ → List (ℕ × Request) → List (ℕ × Option MonMsg)
to_server sender rs = (sender, some (mon_init (pos 2))) ∷ messages rs

-- MonServer has replied as often to the process as the process has sent a message.
abbrev pub HasReply : (sender pid : ℕ) → List (ℕ × Request) → Type 0
HasReply sender pid rs =
    Ends (λ (m, out) q. count_of pid out ≡ count_of pid (to_server sender rs))
      (mon_server initial_monitor (to_server sender rs) initial_pool)

-- A process calls a procedure, a reader StopRead and a writer StopWrite only after its start; or it goes
-- on in a procedure, when MonServer has replied to its last message.
pub data Step (sender pid : ℕ) (s : Room) : Room → Type 0 where
  calls_start_read : s.at pid ≡ resting → Step sender pid s (calls_in pid enters_start_read s)
  calls_stop_read : s.at pid ≡ reading → Step sender pid s (calls_in pid enters_stop_read s)
  calls_start_write : s.at pid ≡ resting → Step sender pid s (calls_in pid enters_start_write s)
  calls_stop_write : s.at pid ≡ writing → Step sender pid s (calls_in pid enters_stop_write s)
  goes_on :
      (c : Chunk)
      → HasReply sender pid s.sent
      → go_on (s.at pid) s.num_readers s.busy_writing ≡ some c
      → Step sender pid s (after_chunk pid c s)

-- Behind Initialize, which `sender` has called.
abbrev pub initial_room : Room
initial_room = record { num_readers = 0; busy_writing = false; sent = []; at = λ pid. resting }

pub data Trace (sender : ℕ) : Room → Type 0 where
  starts : Trace sender initial_room
  then_steps : (pid : ℕ) (s s' : Room) → Trace sender s → Step sender pid s s' → Trace sender s'
