-- ===== src/ReadWrite/Tests.antt =====
-- A process that starts to read, and another one that asks to write.
use monitors_and_ipc.Prelude.{ℕ, ℤ, ◌≡◌, refl, ap, true, false, arith}
use monitors_and_ipc.NodePool.Shape.{Ends-mono}
use monitors_and_ipc.Monitor.Init.{fresh}
use monitors_and_ipc.Monitor.Run.{run, StaysSparse}
use monitors_and_ipc.Monitor.Server.{server_refines, Serves}
use monitors_and_ipc.ReadWrite.{
  Room, start_read, go_on, calls_in, after_chunk, enters_start_read, enters_start_write,
  calls_start_read, calls_start_write, goes_on, initial_room, HasReply, count_of, to_server, Trace,
  starts, then_steps,
}
use monitors_and_ipc.ReadWrite.Tally.{is_reader, is_writer, Readers}
use monitors_and_ipc.ReadWrite.Exclusion.{room_excludes}

abbrev one_enters : Room
one_enters = calls_in 7 enters_start_read initial_room

abbrev two_enter : Room
two_enter = calls_in 8 enters_start_write one_enters

abbrev one_reads : Room
one_reads = after_chunk 7 (start_read 0 false) two_enter

two_sparse : StaysSparse two_enter.sent (fresh 2)
two_sparse = (λ q lt. omega arith, (λ q lt. omega arith, tt))

-- MonServer has replied to process 7.
seven_heard : HasReply 1 7 two_enter.sent
unfolding run
seven_heard =
    Ends-mono (Serves 2 1 two_enter.sent)
      (λ (m, out) q. count_of 7 out ≡ count_of 7 (to_server 1 two_enter.sent)) _
      (server_refines 2 1 two_enter.sent (omega arith) two_sparse (omega arith))
      λ (m, out) q same. ap (count_of {A = ℤ} 7) same

one_reads-Trace : Trace 1 one_reads
unfolding go_on
one_reads-Trace =
    then_steps 7 two_enter one_reads
      (then_steps 8 one_enters two_enter
        (then_steps 7 initial_room one_enters starts (calls_start_read refl))
        (calls_start_write refl))
      (goes_on (start_read 0 false) seven_heard refl)

one_reads_sparse : StaysSparse one_reads.sent (fresh 2)
one_reads_sparse = (λ q lt. omega arith, (λ q lt. omega arith, (λ q lt. ground arith, tt)))

room_excludes_example :
    (is_writer (one_reads.at 8) ≡ true → is_writer (one_reads.at 7) ≡ true → ◌≡◌ {A = ℕ} 8 7)
    × (is_writer (one_reads.at 8) ≡ true → is_reader (one_reads.at 7) ≡ false)
    × Readers one_reads.num_readers one_reads.at
room_excludes_example = room_excludes 1 one_reads 8 7 one_reads-Trace one_reads_sparse (omega arith)
