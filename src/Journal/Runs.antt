-- ===== src/Journal/Runs.antt =====
-- File system operations over the log, and the machine that may stop at every written block.
use monitors_and_ipc.Prelude.{
  ℕ, ◌+◌, ◌≡◌, ◌≤◌, ◌<◌, Bool, true, false, ◌==◌, if◌then◌else◌, List, [], ◌∷◌, ◌++◌, length, some,
  ◌||◌,
}
use monitors_and_ipc.Journal.{
  Log, Block, log_blocks, max_op_blocks, set_data, begin_op, end_op, finish, commit, log_write,
  initlog,
}
use monitors_and_ipc.Journal.Replay.{IsData}
use monitors_and_ipc.Journal.Clear.{IsHeader}
use monitors_and_ipc.Journal.Recover.{cut_off}

unfoldable pub is_in : ℕ → List ℕ → Bool
is_in b [] = false
is_in b (x ∷ xs) = x == b || is_in b xs

-- The blocks that an operation has written, with one more.
abbrev pub wrote : ℕ → List ℕ → List ℕ
wrote b bs = if is_in b bs then bs else b ∷ bs

-- The machine stops during the commit, after `k` written blocks.
abbrev pub stopped : (k : ℕ) → Log → Log
stopped k s = commit (record s { power = k })

-- The states of the log, and for each operation under way the blocks that it has written: at most
-- ten. The machine may stop at any time, during starts as well.
pub data Trace (start : ℕ) : Log → List (List ℕ) → Type 0 where
  boots :
      (s : Log) (power : ℕ)
      → s.start ≡ start
      → IsHeader start (s.disk start)
      → log_blocks < power
      → Trace start (initlog power s) []
  begins :
      (s s' : Log) (ops : List (List ℕ))
      → Trace start s ops
      → begin_op s ≡ some s'
      → Trace start s' ([] ∷ ops)
  writes :
      (s s' : Log) (before after : List (List ℕ)) (bs : List ℕ) (b : ℕ) (words : Block)
      → Trace start s (before ++ bs ∷ after)
      → IsData start b
      → length (wrote b bs) ≤ max_op_blocks
      → log_write b (set_data b words s) ≡ some s'
      → Trace start s' (before ++ wrote b bs ∷ after)
  ends :
      (s s' : Log) (before after : List (List ℕ)) (bs : List ℕ)
      → Trace start s (before ++ bs ∷ after)
      → end_op s ≡ some s'
      → Trace start s' (before ++ after)
  commits :
      (s : Log) (ops : List (List ℕ)) (k : ℕ)
      → Trace start s ops
      → s.committing ≡ true
      → log_blocks + log_blocks + 1 < k
      → Trace start (finish (record s { power = k })) ops
  stops :
      (s : Log) (ops : List (List ℕ)) (powers : List ℕ) (power : ℕ)
      → Trace start s ops
      → log_blocks < power
      → Trace start (initlog power (cut_off powers s)) []
  stops_in_commit :
      (s : Log) (ops : List (List ℕ)) (k : ℕ) (powers : List ℕ) (power : ℕ)
      → Trace start s ops
      → s.committing ≡ true
      → log_blocks < power
      → Trace start (initlog power (cut_off powers (stopped k s))) []
