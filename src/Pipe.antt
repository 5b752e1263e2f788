-- ===== src/Pipe.antt =====
-- a2-phase2/xv6-A2/kernel/pipe.c: the pipe, and what pipewrite, piperead and pipeclose do under its lock,
-- up to the next sleep. `uint` counters wrap around at 2 ^ 32. What copyin, copyout and killed give is
-- an argument: copyin's bytes (`none` for a failure), whether copyout succeeds for each byte read, and
-- what killed gives in pipewrite with so many bytes written.
pub mod Closing
pub mod Contents
pub mod Fifo
mod Tests
use monitors_and_ipc.Prelude.{
  ℕ, zero, suc, ◌+◌, ◌-◌, ◌%◌, ◌^◌, ◌<◌, ◌≤◌, Bool, true, false, not, ◌&&◌, ◌||◌, Option, none,
  some, List, [], ◌∷◌, ◌++◌, ◌==◌, if◌then◌else◌, update,
}

abbrev pub pipesize : ℕ
pipesize = 512

abbrev pub uint : ℕ → ℕ
uint n = n % 2 ^ 32

-- `struct pipe` without its lock.
pub record Pipe : Type 0 where
  pub bytes : ℕ → ℕ
  pub nread : ℕ
  pub nwrite : ℕ
  pub readopen : Bool
  pub writeopen : Bool

-- What pipealloc writes to a new page, of which `bytes` may be anything.
abbrev pub opened : (ℕ → ℕ) → Pipe
opened bytes = record { bytes = bytes; nread = 0; nwrite = 0; readopen = true; writeopen = true }

-- `pi->data[pi->nwrite++ % PIPESIZE] = ch`.
abbrev pub put : ℕ → Pipe → Pipe
put ch p = record p {
  bytes = update p.bytes (p.nwrite % pipesize) ch;
  nwrite = uint (p.nwrite + 1);
}

-- `ch = pi->data[pi->nread++ % PIPESIZE]`: the byte, and the pipe.
abbrev pub front : Pipe → ℕ
front p = p.bytes (p.nread % pipesize)

abbrev pub advance : Pipe → Pipe
advance p = record p { nread = uint (p.nread + 1) }

abbrev pub is_full : Pipe → Bool
is_full p = p.nwrite == uint (p.nread + pipesize)

abbrev pub is_empty : Pipe → Bool
is_empty p = p.nread == p.nwrite

-- pipewrite returns -1, or returns the number of bytes written, or sleeps with the bytes that are left.
-- In the last two cases it wakes the readers.
pub data WriteEnd : Type 0 where
  refused : WriteEnd
  finished : ℕ → WriteEnd
  asleep : ℕ → List (Option ℕ) → WriteEnd

-- The loop from its test on, with `i` bytes written; killed is asked again before each byte.
unfoldable pub pipewrite : (ℕ → Bool) → List (Option ℕ) → ℕ → Pipe → Pipe × WriteEnd
pipewrite killed [] i p = (p, finished i)
pipewrite killed (none ∷ cs) i p =
    if not p.readopen || killed i
    then (p, refused)
    else if is_full p
    then (p, asleep i (none ∷ cs))
    else (p, finished i)
pipewrite killed (some ch ∷ cs) i p =
    if not p.readopen || killed i
    then (p, refused)
    else if is_full p
    then (p, asleep i (some ch ∷ cs))
    else pipewrite killed cs (suc i) (put ch p)

-- piperead returns -1, or sleeps, or returns with the bytes that it has copied, and wakes the writers.
pub data ReadEnd : Type 0 where
  refused asleep : ReadEnd
  finished : List ℕ → ReadEnd

-- The loop that copies; a byte that copyout fails on is taken off the pipe all the same.
unfoldable pub copy_loop : List Bool → Pipe → Pipe × List ℕ
copy_loop [] p = (p, [])
copy_loop (false ∷ outs) p = if is_empty p then (p, []) else (advance p, [])
copy_loop (true ∷ outs) p =
    let (q, got) = copy_loop outs (advance p) in if is_empty p then (p, []) else (q, front p ∷ got)

-- From the test of the first loop on.
unfoldable pub piperead : Bool → List Bool → Pipe → Pipe × ReadEnd
piperead killed outs p =
    if is_empty p && p.writeopen
    then (p, if killed then ReadEnd.refused else ReadEnd.asleep)
    else (let (q, got) = copy_loop outs p in (q, ReadEnd.finished got))

-- The pipe, `none` when its page is freed.
unfoldable pub pipeclose : Bool → Pipe → Option Pipe
pipeclose writable p =
    let q = if writable then record p { writeopen = false } else record p { readopen = false } in
    if not q.readopen && not q.writeopen then none else some q
