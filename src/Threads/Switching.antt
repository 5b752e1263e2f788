-- ===== src/Threads/Switching.antt =====
-- What a switch of threads does to the registers, and what a new thread starts with.
use monitors_and_ipc.Prelude.{
  ℕ, zero, suc, ◌+◌, ◌-◌, ◌%◌, ◌<◌, ◌≤◌, ◌≡◌, ◌∙◌, ◌⊎◌, inl, inr, refl, sym, ap, true, false,
  Option, none, some, ◌==◌, ==_refl, subst, arith, Bool-cases,
}
use monitors_and_ipc.Threads.{
  Threads, Thread, Regi, Phase, running, runnable, is_free, find_free, mark, switch_to,
  thread_schedule, thread_yield, thread_switch, thread_create,
}
use monitors_and_ipc.Threads.Robin.{Picked, ready_at, find_runnable_lem}

-- Nothing changes; or the thread that ran before keeps its registers in the table, and the one that runs
-- has them in the processor, and no other thread changes.
abbrev pub Switched : Threads → Threads → Type 0
Switched g g' =
    (g' ≡ g)
    ⊎ (g'.cpu ≡ (g.all_thread g'.current_thread).registers)
      × ((g'.all_thread g.current_thread).registers ≡ g.cpu)
      × ((g'.all_thread g'.current_thread).state ≡ running)
      × ((t : ℕ)
          → (g.current_thread == t) ≡ false
          → (g'.current_thread == t) ≡ false
          → g'.all_thread t ≡ g.all_thread t)

abbrev pub Scheduled : Threads → Option Threads → Type 0
Scheduled g none = (k : ℕ) → k < 4 → ready_at g.all_thread k ≡ false
Scheduled g (some g') =
    Picked 4 (g.current_thread + 1) g.all_thread (some g'.current_thread) × Switched g g'

abbrev switched_to : Threads → ℕ → Threads
switched_to g i =
    thread_switch g.current_thread i (record (mark i running g) { current_thread = i })

switch_lem :
    (g : Threads) (i : ℕ)
    → (g.current_thread == i) ≡ false
    → switch_to (some i) g ≡ some (switched_to g i)
switch_lem g i e = rw e refl

loaded :
    (g : Threads) (i : ℕ)
    → (g.current_thread == i) ≡ false
    → (switched_to g i).cpu ≡ (g.all_thread i).registers
loaded g i e = rw (e, ==_refl i) refl

saved : (g : Threads) (i : ℕ) → (((switched_to g i).all_thread g.current_thread).registers) ≡ g.cpu
saved g i = rw (==_refl g.current_thread) refl

marked :
    (g : Threads) (i : ℕ)
    → (g.current_thread == i) ≡ false
    → ((switched_to g i).all_thread i).state ≡ running
marked g i e = rw (e, ==_refl i) refl

untouched :
    (g : Threads) (i t : ℕ)
    → (g.current_thread == t) ≡ false
    → (i == t) ≡ false
    → (switched_to g i).all_thread t ≡ g.all_thread t
untouched g i t a b = rw (a, b) refl

after_search :
    (g : Threads) (r : Option ℕ)
    → Picked 4 (g.current_thread + 1) g.all_thread r
    → Scheduled g (switch_to r g)
after_search g none picked = λ k lt.
    (let m = (k + 7 - g.current_thread % 4) % 4 in
      let e : (g.current_thread + 1 + m) % 4 ≡ k % 4 = omega arith in
      rw (sym e) (picked m (omega arith)))
after_search g (some i) picked = elim (Bool-cases (g.current_thread == i)) [
  | inl e ↦
      let same : i ≡ g.current_thread = ground (arith, e) in
      rw e
        (subst (λ x. Picked 4 (g.current_thread + 1) g.all_thread (some x)) same picked, inl refl)
  | inr e ↦
      subst (Scheduled g) (sym (switch_lem g i e))
        (picked, inr (loaded g i e, saved g i, marked g i e, λ t a b. untouched g i t a b))
]

-- thread_schedule exits only if no thread of the table is runnable. Otherwise it goes to the first
-- runnable thread after the current one, around the table. If that is the current one again, nothing
-- changes; else the registers of the processor are saved in the thread that ran, those of the next one
-- are loaded, the next one is marked as running, and no other thread changes.
pub thread_schedule-Scheduled :
    (g : Threads) → g.current_thread < 4 → Scheduled g (thread_schedule g)
unfolding thread_schedule
thread_schedule-Scheduled g lt =
    after_search g _ (find_runnable_lem 4 (g.current_thread + 1) g.all_thread (omega arith))

mark-registers :
    (t : ℕ) (x : Phase) (g : Threads) (i : ℕ)
    → ((mark t x g).all_thread i).registers ≡ (g.all_thread i).registers
mark-registers t x g i = elim (Bool-cases (t == i)) [
  | inl e ↦ (let same : t ≡ i = ground (arith, e) in rw (e, same) refl)
  | inr e ↦ rw e refl
]

kept_cpu :
    (g g₁ g₂ : Threads) (c : Regi)
    → (g.current_thread == g₁.current_thread) ≡ false
    → g₂.current_thread ≡ g.current_thread
    → Switched (mark g.current_thread runnable g) g₁
    → Switched (mark g₁.current_thread runnable (record g₁ { cpu = c })) g₂
    → g₂.cpu ≡ g.cpu
kept_cpu g g₁ g₂ c moved back (inl stays) second =
    (let same : g₁.current_thread ≡ g.current_thread = ap (λ x. x.current_thread) stays in
      ground (arith, moved, same))
kept_cpu g g₁ g₂ c moved back (inr first) (inl stays) =
    (let same : g₂.current_thread ≡ g₁.current_thread = ap (λ x. x.current_thread) stays in
      ground (arith, moved, same, back))
kept_cpu g g₁ g₂ c moved back (inr (_, saved_cpu, _, _)) (inr (loads, _, _, _)) =
    loads
    ∙ ap (λ t. ((mark g₁.current_thread runnable (record g₁ { cpu = c })).all_thread t).registers)
        back
    ∙ mark-registers g₁.current_thread runnable (record g₁ { cpu = c }) g.current_thread
    ∙ saved_cpu

-- A thread that yields to another finds its registers in the processor when it is switched to again,
-- here by the next yield, whatever the other thread has done to them.
pub registers_back :
    (g g₁ g₂ : Threads) (c : Regi)
    → g.current_thread < 4
    → thread_yield g ≡ some g₁
    → (g.current_thread == g₁.current_thread) ≡ false
    → thread_yield (record g₁ { cpu = c }) ≡ some g₂
    → g₂.current_thread ≡ g.current_thread
    → g₂.cpu ≡ g.cpu
unfolding thread_yield
registers_back g g₁ g₂ c lt e moved f back =
    let ((k, lt', at, is_so, before), first) =
      subst (λ r. Scheduled (mark g.current_thread runnable g) r) e
        (thread_schedule-Scheduled (mark g.current_thread runnable g) lt) in
    let g₁' = mark g₁.current_thread runnable (record g₁ { cpu = c }) in
    let (picked, second) =
      subst (λ r. Scheduled g₁' r) f (thread_schedule-Scheduled g₁' (omega (arith, at))) in
    kept_cpu g g₁ g₂ c moved back first second

-- Where thread_create makes a thread: the place of the first free one, or the one behind the table.
abbrev pub Created : (func : ℕ) → Threads → Threads → Type 0
Created func g g' =
    (j : ℕ) × ((i : ℕ) → i < j → is_free (g.all_thread i).state ≡ false)
    × ((j ≡ 4) ⊎ (j < 4) × (is_free (g.all_thread j).state ≡ true))
    × ((g'.all_thread j).state ≡ runnable)
    × ((g'.all_thread j).registers.ra ≡ func)
    × ((t : ℕ) → (j == t) ≡ false → g'.all_thread t ≡ g.all_thread t)

abbrev Found : (rounds t : ℕ) → (ℕ → Thread) → ℕ → Type 0
Found rounds t threads j =
    ((i : ℕ) → t ≤ i → i < j → is_free (threads i).state ≡ false)
    × ((j ≡ t + rounds) ⊎ (j < t + rounds) × (is_free (threads j).state ≡ true))

find_free_lem :
    (rounds t : ℕ) (threads : ℕ → Thread) → Found rounds t threads (find_free rounds t threads)
unfolding find_free
find_free_lem zero t threads = (λ i le lt. absurd (omega arith), inl (omega arith))
find_free_lem (suc rounds) t threads = elim (Bool-cases (is_free (threads t).state)) [
  | inl e ↦ rw e (λ i le lt. absurd (omega arith), inr (omega arith, e))
  | inr e ↦
      let (before, end) = find_free_lem rounds (t + 1) threads in
      rw e (
        λ i le lt. elim (Bool-cases (t == i)) [
          | inl same ↦ (let at : i ≡ t = ground (arith, same) in rw at e)
          | inr apart ↦ before i (ground (arith, apart)) lt
        ],
        elim end [ inl all ↦ inl (omega arith) | inr (lt, is_so) ↦ inr (omega arith, is_so) ],
      )
]

-- thread_create makes the first free thread runnable, so that it starts at `func` when it is switched
-- to, and changes no other. If none of the four is free, it writes these to the place behind the table.
pub thread_create-Created :
    (table func : ℕ) (g : Threads) → Created func g (thread_create table func g)
unfolding thread_create
thread_create-Created table func g =
    let (before, end) = find_free_lem 4 0 g.all_thread in
    (
      find_free 4 0 g.all_thread,
      λ i lt. before i (omega arith) lt,
      end,
      rw (==_refl (find_free 4 0 g.all_thread)) refl,
      rw (==_refl (find_free 4 0 g.all_thread)) refl,
      λ t e. rw e refl,
    )
