-- ===== src/Journal.antt =====
-- a2-phase2/xv6-A2/kernel/log.c: the log of the file system. A block is its 256 words. `cache` is what bread
-- gives for each block: the buffer that a change has pinned, or else what is on the disk. The disk writes
-- a block whole or not at all, and `power` is how many blocks it still writes before the machine stops.
pub mod Active
pub mod Atomic
pub mod Calls
pub mod Clear
pub mod Commit
pub mod Good
pub mod Header
pub mod Install
pub mod Recover
pub mod Replay
pub mod Room
pub mod Runs
pub mod WriteLog
mod Tests
use monitors_and_ipc.Prelude.{
  ℕ, zero, suc, ◌+◌, ◌-◌, ◌*◌, Bool, true, false, ◌==◌, ltb, leb, Option, none, some, List, [], ◌∷◌,
  update, if◌then◌else◌,
}

abbrev pub Block : Type 0
Block = ℕ → ℕ

abbrev pub max_op_blocks : ℕ
max_op_blocks = 10

abbrev pub log_blocks : ℕ
log_blocks = max_op_blocks * 3

pub record Log : Type 0 where
  pub start : ℕ
  pub outstanding : ℕ
  pub committing : Bool
  pub n : ℕ
  pub block : ℕ → ℕ
  pub disk : ℕ → Block
  pub cache : ℕ → Block
  pub power : ℕ

-- memmove to the buffer of block `b`.
abbrev pub set_data : ℕ → Block → Log → Log
set_data b words s = record s { cache = update s.cache b words }

-- The buffers are locked, as bread gives them.
abbrev pub write_through : (power : ℕ) → ℕ → Log → Log
write_through zero b s = s
write_through (suc power) b s = record s { disk = update s.disk b (s.cache b); power = power }

abbrev pub bwrite : ℕ → Log → Log
bwrite b s = write_through s.power b s

abbrev pub install_round : ℕ → Log → Log
install_round tail s =
    bwrite (s.block tail) (set_data (s.block tail) (s.cache (s.start + tail + 1)) s)

unfoldable pub install_loop : (rounds tail : ℕ) → Log → Log
install_loop zero tail s = s
install_loop (suc rounds) tail s = install_loop rounds (suc tail) (install_round tail s)

abbrev pub install_trans : Log → Log
install_trans s = install_loop s.n 0 s

unfoldable pub load_loop : (rounds i : ℕ) → Block → (ℕ → ℕ) → ℕ → ℕ
load_loop zero i lh block = block
load_loop (suc rounds) i lh block = load_loop rounds (suc i) lh (update block i (lh (suc i)))

abbrev pub read_head : Log → Log
read_head s =
    let lh = s.cache s.start in record s { n = lh 0; block = load_loop (lh 0) 0 lh s.block }

unfoldable pub store_loop : (rounds i : ℕ) → (ℕ → ℕ) → Block → Block
store_loop zero i block hb = hb
store_loop (suc rounds) i block hb = store_loop rounds (suc i) block (update hb (suc i) (block i))

abbrev pub write_head : Log → Log
write_head s =
    bwrite s.start (set_data s.start (store_loop s.n 0 s.block (update (s.cache s.start) 0 s.n)) s)

unfoldable pub recover_from_log : Log → Log
recover_from_log s = write_head (record (install_trans (read_head s)) { n = 0 })

abbrev pub log_round : ℕ → Log → Log
log_round tail s = let to = s.start + tail + 1 in bwrite to (set_data to (s.cache (s.block tail)) s)

unfoldable pub log_loop : (rounds tail : ℕ) → Log → Log
log_loop zero tail s = s
log_loop (suc rounds) tail s = log_loop rounds (suc tail) (log_round tail s)

abbrev pub write_log : Log → Log
write_log s = log_loop s.n 0 s

unfoldable pub commit : Log → Log
commit s =
    if ltb 0 s.n
    then write_head (record (install_trans (write_head (write_log s))) { n = 0 })
    else s

-- One test of the loop of begin_op; `none` is a sleep.
unfoldable pub begin_op : Log → Option Log
begin_op s =
    if s.committing
    then none
    else if ltb log_blocks (s.n + (s.outstanding + 1) * max_op_blocks)
    then none
    else some (record s { outstanding = s.outstanding + 1 })

-- end_op up to its release, by an operation that is under way: `none` is a panic. With `committing` set,
-- `finish` follows.
unfoldable pub end_op : Log → Option Log
end_op s =
    if s.committing
    then none
    else some (record s { outstanding = s.outstanding - 1; committing = s.outstanding == 1 })

-- The rest of end_op.
abbrev pub finish : Log → Log
finish s = record (commit s) { committing = false }

-- The place of a block in the log, or the next free one.
unfoldable pub absorb : (rounds i : ℕ) → (ℕ → ℕ) → ℕ → ℕ
absorb zero i block b = i
absorb (suc rounds) i block b =
    let rest = absorb rounds (suc i) block b in if block i == b then i else rest

-- `none` is a panic.
unfoldable pub log_write : ℕ → Log → Option Log
log_write b s =
    let i = absorb s.n 0 s.block b in
    if leb log_blocks s.n
    then none
    else if ltb s.outstanding 1
    then none
    else some (record s { block = update s.block i b; n = if i == s.n then s.n + 1 else s.n })

-- The machine starts again, with the disk as it is, to write `power` blocks; initlog, with the same start of
-- the log. The header of 31 words fits into a block.
unfoldable pub initlog : (power : ℕ) → Log → Log
initlog power s = recover_from_log (record s {
  outstanding = 0;
  committing = false;
  n = 0;
  block = λ i. 0;
  cache = s.disk;
  power = power;
})
