-- ===== src/Journal/Tests.antt =====
-- An operation that writes a block, and its commit, cut off after one written block or after five.
use monitors_and_ipc.Prelude.{
  ℕ, ◌≡◌, ◌==◌, refl, inr, arith, false, Option, none, some, List, [], ◌∷◌, ◌++◌, length, leb,
  if◌then◌else◌,
}
use monitors_and_ipc.Journal.{
  Log, Block, set_data, begin_op, end_op, log_write, initlog, recover_from_log, install_loop,
  load_loop, store_loop, absorb, commit, log_loop,
}
use monitors_and_ipc.Journal.Recover.{cut_off}
use monitors_and_ipc.Journal.Runs.{Trace, boots, begins, writes, ends, stopped, is_in}
use monitors_and_ipc.Journal.Atomic.{recovery_atomic, log_never_full}

abbrev new_log : Log
new_log = record {
  start = 2;
  outstanding = 0;
  committing = false;
  n = 0;
  block = λ i. 0;
  disk = λ b w. 0;
  cache = λ b w. 0;
  power = 0;
}

abbrev or_new : Option Log → Log
or_new none = new_log
or_new (some s) = s

abbrev sevens : Block
sevens w = 7

abbrev up : Log
up = initlog 40 new_log

abbrev one_begun : Log
one_begun = or_new (begin_op up)

abbrev one_written : Log
one_written = or_new (log_write 50 (set_data 50 sevens one_begun))

abbrev one_ended : Log
one_ended = or_new (end_op one_written)

begun-Trace : Trace 2 one_begun ([] ∷ [])
unfolding begin_op initlog recover_from_log install_loop load_loop store_loop
begun-Trace =
    begins up one_begun []
      (boots new_log 40 refl (omega arith, λ i small. absurd (omega (arith, small))) (omega arith))
      refl

written-Trace : Trace 2 one_written ((50 ∷ []) ∷ [])
unfolding begin_op initlog recover_from_log install_loop load_loop store_loop log_write absorb is_in
written-Trace =
    writes one_begun one_written [] [] [] 50 sevens begun-Trace (inr (omega arith)) (omega arith)
      refl

ended-Trace : Trace 2 one_ended []
unfolding begin_op initlog recover_from_log install_loop load_loop store_loop log_write absorb
    end_op
ended-Trace = ends one_written one_ended [] [] (50 ∷ []) written-Trace refl

recovery_atomic_example :
    ((initlog 31 (cut_off (1 ∷ 0 ∷ []) one_ended)).disk 50 ≡ one_ended.disk 50)
    × ((initlog 31 (cut_off (1 ∷ 0 ∷ []) (stopped 5 one_ended))).disk 50
        ≡ (if leb 5 one_ended.n then one_ended.disk 50 else one_ended.cache 50))
recovery_atomic_example =
    recovery_atomic 2 one_ended [] (1 ∷ 0 ∷ []) 31 5 50 ended-Trace (omega arith)
      (inr (omega arith))

log_never_full_example :
    ((s' : Log) × (log_write 51 (set_data 51 sevens one_written) ≡ some s'))
    × ((s' : Log) × (end_op one_written ≡ some s')
        × (s'.committing ≡ (length {A = List ℕ} ([] ++ []) == 0)))
log_never_full_example =
    log_never_full 2 one_written [] [] (50 ∷ []) 51 sevens written-Trace (omega arith)

cut_early : (initlog 31 (cut_off (0 ∷ []) (stopped 1 one_ended))).disk 50 4 ≡ 0
unfolding begin_op initlog recover_from_log install_loop load_loop store_loop log_write absorb
    end_op commit log_loop cut_off
cut_early = refl

cut_late : (initlog 31 (cut_off (0 ∷ 1 ∷ []) (stopped 2 one_ended))).disk 50 4 ≡ 7
unfolding begin_op initlog recover_from_log install_loop load_loop store_loop log_write absorb
    end_op commit log_loop cut_off
cut_late = refl
