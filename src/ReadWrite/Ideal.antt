-- ===== src/ReadWrite/Ideal.antt =====
-- The procedures of a2-phase2/reader_writer_monitor.c over the Hoare monitor: the room with the monitor's
-- state in place of the messages that it was sent.
use monitors_and_ipc.Prelude.{ℕ, Bool, update}
use monitors_and_ipc.Monitor.Hoare.{Hoare, enter}
use monitors_and_ipc.Monitor.Init.{fresh}
use monitors_and_ipc.Monitor.Run.{run, step}
use monitors_and_ipc.ReadWrite.{Place, Chunk, Room}

pub record Ideal : Type 0 where
  pub num_readers : ℕ
  pub busy_writing : Bool
  pub monitor : Hoare
  pub at : ℕ → Place

abbrev pub ideal_calls : ℕ → Place → Ideal → Ideal
ideal_calls pid x s = record s { monitor = (enter pid s.monitor).0; at = update s.at pid x }

abbrev pub ideal_chunk : ℕ → Chunk → Ideal → Ideal
ideal_chunk pid c s = record {
  num_readers = c.readers;
  busy_writing = c.busy;
  monitor = (step (pid, c.request) s.monitor).0;
  at = update s.at pid c.place;
}

-- The room with the monitor as the messages leave it.
abbrev pub ideal : Room → Ideal
ideal s = record {
  num_readers = s.num_readers;
  busy_writing = s.busy_writing;
  monitor = (run s.sent (fresh 2)).0;
  at = s.at;
}
