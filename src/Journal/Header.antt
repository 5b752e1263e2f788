-- ===== src/Journal/Header.antt =====
-- read_head, write_head and write_log.
use monitors_and_ipc.Prelude.{
  ℕ, zero, suc, ◌+◌, ◌-◌, ◌≡◌, ◌∙◌, ◌≤◌, ◌<◌, inl, inr, refl, ap, subst, true, false, ◌==◌, ==_refl,
  update, arith, Bool-cases,
}
use monitors_and_ipc.Journal.{Block, Log, load_loop, store_loop, write_head}

load_loop_before :
    (rounds i : ℕ) (lh : Block) (block : ℕ → ℕ) (j : ℕ)
    → j < i
    → load_loop rounds i lh block j ≡ block j
unfolding load_loop
load_loop_before zero i lh block j lt = refl
load_loop_before (suc rounds) i lh block j lt =
    load_loop_before rounds (suc i) lh (update block i (lh (suc i))) j (omega (arith, lt))
    ∙ (let e : (i == j) ≡ false = ground (arith, lt) in rw e refl)

pub load_loop_lem :
    (rounds i : ℕ) (lh : Block) (block : ℕ → ℕ) (j : ℕ)
    → i ≤ j
    → j < i + rounds
    → load_loop rounds i lh block j ≡ lh (suc j)
unfolding load_loop
load_loop_lem zero i lh block j le lt = absurd (omega (arith, le, lt))
load_loop_lem (suc rounds) i lh block j le lt = elim (Bool-cases (i == j)) [
  | inl same ↦
      let e : i ≡ j = ground (arith, same) in
      load_loop_before rounds (suc i) lh (update block i (lh (suc i))) j (omega (arith, e))
      ∙ rw same (ap (λ k. lh (suc k)) e)
  | inr off ↦
      load_loop_lem rounds (suc i) lh (update block i (lh (suc i))) j (ground (arith, off, le))
        (omega (arith, lt))
]

store_loop_before :
    (rounds i : ℕ) (block : ℕ → ℕ) (hb : Block) (j : ℕ)
    → j ≤ i
    → store_loop rounds i block hb j ≡ hb j
unfolding store_loop
store_loop_before zero i block hb j le = refl
store_loop_before (suc rounds) i block hb j le =
    store_loop_before rounds (suc i) block (update hb (suc i) (block i)) j (omega (arith, le))
    ∙ (let e : (suc i == j) ≡ false = ground (arith, le) in rw e refl)

store_loop_lem :
    (rounds i : ℕ) (block : ℕ → ℕ) (hb : Block) (j : ℕ)
    → i ≤ j
    → j < i + rounds
    → store_loop rounds i block hb (suc j) ≡ block j
unfolding store_loop
store_loop_lem zero i block hb j le lt = absurd (omega (arith, le, lt))
store_loop_lem (suc rounds) i block hb j le lt = elim (Bool-cases (i == j)) [
  | inl same ↦
      let e : i ≡ j = ground (arith, same) in
      let f : (suc i == suc j) ≡ true = ground (arith, e) in
      store_loop_before rounds (suc i) block (update hb (suc i) (block i)) (suc j)
        (omega (arith, e))
      ∙ rw f (ap block e)
  | inr off ↦
      store_loop_lem rounds (suc i) block (update hb (suc i) (block i)) j (ground (arith, off, le))
        (omega (arith, lt))
]

-- The header that write_head writes.
abbrev pub header : Log → Block
header s = store_loop s.n 0 s.block (update (s.cache s.start) 0 s.n)

pub header_n : (s : Log) → header s 0 ≡ s.n
header_n s = store_loop_before s.n 0 s.block (update (s.cache s.start) 0 s.n) 0 (omega arith)

pub header_block : (s : Log) (j : ℕ) → j < s.n → header s (suc j) ≡ s.block j
header_block s j lt =
    store_loop_lem s.n 0 s.block (update (s.cache s.start) 0 s.n) j (omega arith)
      (omega (arith, lt))

pub record HeadWritten (start : ℕ) (s s' : Log) : Type 0 where
  pub same_start : s'.start ≡ start
  pub same_n : s'.n ≡ s.n
  pub same_block : s'.block ≡ s.block
  pub less_power : s'.power ≡ s.power - 1
  pub cache_head : s'.cache start ≡ header s
  pub cache_else : (x : ℕ) → (start == x) ≡ false → s'.cache x ≡ s.cache x
  pub disk_else : (x : ℕ) → (start == x) ≡ false → s'.disk x ≡ s.disk x
  pub disk_head : 0 < s.power → s'.disk start ≡ header s
  pub disk_stopped : s.power ≡ 0 → s'.disk start ≡ s.disk start

write_head_at :
    (power : ℕ) (s : Log)
    → HeadWritten s.start (record s { power = power }) (write_head (record s { power = power }))
write_head_at zero s = record {
  same_start = refl;
  same_n = refl;
  same_block = refl;
  less_power = omega arith;
  cache_head = rw (==_refl s.start) refl;
  cache_else = λ x off. rw off refl;
  disk_else = λ x off. refl;
  disk_head = λ lt. absurd (omega (arith, lt));
  disk_stopped = λ e. refl;
}
write_head_at (suc power) s = record {
  same_start = refl;
  same_n = refl;
  same_block = refl;
  less_power = omega arith;
  cache_head = rw (==_refl s.start) refl;
  cache_else = λ x off. rw off refl;
  disk_else = λ x off. rw off refl;
  disk_head = λ lt. rw (==_refl s.start) refl;
  disk_stopped = λ e. absurd (omega (arith, e));
}

pub write_head_lem : (start : ℕ) (s : Log) → s.start ≡ start → HeadWritten start s (write_head s)
write_head_lem start s e = subst (λ t. HeadWritten t s (write_head s)) e (write_head_at s.power s)
