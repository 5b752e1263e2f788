-- ===== src/Threads/Robin.antt =====
-- Which thread thread_schedule runs next.
use monitors_and_ipc.Prelude.{
  ℕ, zero, suc, ◌+◌, ◌-◌, ◌%◌, ◌<◌, ◌≤◌, ◌≡◌, ◌∙◌, inl, inr, refl, sym, ap, Bool, true, false,
  Option, none, some, ◌==◌, leb, if◌then◌else◌, arith, Bool-cases,
}
use monitors_and_ipc.Threads.{
  Threads, Thread, running, runnable, is_runnable, find_runnable, mark, thread_schedule,
  thread_yield, thread_switch,
}

abbrev pub ready_at : (ℕ → Thread) → ℕ → Bool
ready_at threads k = is_runnable (threads (k % 4)).state

-- The answer is the first runnable thread of the `rounds` ones from `t` on, around the table.
abbrev pub Picked : (rounds t : ℕ) → (ℕ → Thread) → Option ℕ → Type 0
Picked rounds t threads none = (k : ℕ) → k < rounds → ready_at threads (t + k) ≡ false
Picked rounds t threads (some j) =
    (k : ℕ) × (k < rounds)
    × (j ≡ (t + k) % 4)
    × (ready_at threads (t + k) ≡ true)
    × ((i : ℕ) → i < k → ready_at threads (t + i) ≡ false)

wrapped : (t : ℕ) → t ≤ 4 → (if leb 4 t then 0 else t) ≡ t % 4
wrapped t le = ground arith

same_slot :
    (threads : ℕ → Thread) (a b : ℕ) → a % 4 ≡ b % 4 → ready_at threads a ≡ ready_at threads b
same_slot threads a b e = ap (λ i. is_runnable (threads i).state) e

further : (t k : ℕ) → (t % 4 + 1 + k) % 4 ≡ (t + suc k) % 4
further t k = omega arith

-- The thread at `t` is not runnable, nor are those of the rest up to some point.
none_up_to :
    (rounds t : ℕ) (threads : ℕ → Thread)
    → ready_at threads t ≡ false
    → ((k : ℕ) → k < rounds → ready_at threads (t % 4 + 1 + k) ≡ false)
    → (k : ℕ) → k < suc rounds
    → ready_at threads (t + k) ≡ false
none_up_to rounds t threads idle later zero lt = same_slot threads (t + 0) t (omega arith) ∙ idle
none_up_to rounds t threads idle later (suc k) lt =
    same_slot threads (t + suc k) (t % 4 + 1 + k) (sym (further t k)) ∙ later k (omega arith)

passed :
    (rounds t : ℕ) (threads : ℕ → Thread) (r : Option ℕ)
    → ready_at threads t ≡ false
    → Picked rounds (t % 4 + 1) threads r
    → Picked (suc rounds) t threads r
passed rounds t threads none idle later = none_up_to rounds t threads idle later
passed rounds t threads (some j) idle (k, lt, at, is_so, before) = (
  suc k,
  omega arith,
  at ∙ further t k,
  same_slot threads (t + suc k) (t % 4 + 1 + k) (sym (further t k)) ∙ is_so,
  none_up_to k t threads idle before,
)

pub find_runnable_lem :
    (rounds t : ℕ) (threads : ℕ → Thread)
    → t ≤ 4
    → Picked rounds t threads (find_runnable rounds t threads)
unfolding find_runnable
find_runnable_lem zero t threads le = λ k lt. absurd (omega arith)
find_runnable_lem (suc rounds) t threads le =
    let rest = find_runnable_lem rounds (t % 4 + 1) threads (omega arith) in
    elim (Bool-cases (ready_at threads t)) [
      | inl e ↦
          rw (wrapped t le, e)
            (
              0,
              omega arith,
              omega arith,
              same_slot threads (t + 0) t (omega arith) ∙ e,
              λ i lt. absurd (omega arith),
            )
      | inr e ↦ rw (wrapped t le, e) (passed rounds t threads _ e rest)
    ]

-- The state after `k` calls of thread_yield, each by the thread that runs.
unfoldable pub yields : ℕ → Threads → Option Threads
yields zero g = some g
yields (suc k) g = elim (thread_yield g) [ none ↦ none | some g' ↦ yields k g' ]

abbrev pub Reaches : ℕ → ℕ → Threads → Type 0
Reaches d j g =
    (k : ℕ) × (k ≤ d) × (g' : Threads) × (yields k g ≡ some g') × (g'.current_thread ≡ j)

abbrev pub switched : ℕ → Threads → Threads
switched i g =
    let marked = mark g.current_thread runnable g in
    thread_switch g.current_thread i (record (mark i running marked) { current_thread = i })

yield_lem :
    (g : Threads) (i : ℕ)
    → find_runnable 4 (g.current_thread + 1) (mark g.current_thread runnable g).all_thread ≡ some i
    → (g.current_thread == i) ≡ false
    → thread_yield g ≡ some (switched i g)
unfolding thread_yield thread_schedule
yield_lem g i found moved = rw (found, moved) refl

still_runnable :
    (g : Threads) (i j : ℕ)
    → (g.current_thread == j) ≡ false
    → (i == j) ≡ false
    → is_runnable (g.all_thread j).state ≡ true
    → is_runnable ((switched i g).all_thread j).state ≡ true
still_runnable g i j e f h = rw (e, f) h

-- The scheduler's answer is not behind the runnable thread that is `e` places on.
not_beyond :
    (threads : ℕ → Thread) (t e : ℕ) (r : Option ℕ)
    → e < 3
    → ready_at threads (t + e) ≡ true
    → Picked 4 t threads r
    → (i : ℕ) × (r ≡ some i) × ((k : ℕ) × (k ≤ e) × (i ≡ (t + k) % 4))
not_beyond threads t e none lt there picked = grind (arith, picked e (omega arith), there)
not_beyond threads t e (some i) lt there (k, lt', at, is_so, before) = (
  i,
  refl,
  (
    k,
    elim (Bool-cases (leb k e)) [
      | inl f ↦ ground (arith, f)
      | inr f ↦ grind (arith, before e (ground (arith, f)), there)
    ],
    at,
  ),
)

-- After a yield to `i`, `k + 1` places on, `j` is reached from there.
reached_later :
    (d k : ℕ) (g : Threads) (i j : ℕ)
    → thread_yield g ≡ some (switched i g)
    → Reaches k j (switched i g)
    → k < d
    → Reaches d j g
unfolding yields
reached_later d k g i j e (n, le, g', f, at) lt = (suc n, omega arith, g', rw (yields, e) f, at)

-- The thread that a yield switches to, when `j`, `e + 1` places on, is runnable.
next_pick :
    (e : ℕ) (g : Threads) (j : ℕ)
    → suc e < 4
    → g.current_thread < 4
    → j ≡ (g.current_thread + suc e) % 4
    → is_runnable (g.all_thread j).state ≡ true
    → (i : ℕ) × (thread_yield g ≡ some (switched i g))
      × ((k : ℕ) × (k ≤ e) × (i ≡ (g.current_thread + 1 + k) % 4))
next_pick e g j lt c at h =
    let t = g.current_thread in
    let threads = (mark t runnable g).all_thread in
    let apart : (t == j) ≡ false = ground (arith, at) in
    let there : ready_at threads (t + 1 + e) ≡ true =
      (let same : (t + 1 + e) % 4 ≡ j = omega (arith, at) in rw (same, apart) h) in
    let (i, found, (k, le', at')) =
      not_beyond threads (t + 1) e _ (omega arith) there
        (find_runnable_lem 4 (t + 1) threads (omega arith)) in
    let moved : (t == i) ≡ false = ground (arith, at') in
    (i, yield_lem g i found moved, (k, le', at'))

robin :
    (fuel d : ℕ) (g : Threads) (j : ℕ)
    → d ≤ fuel
    → d < 4
    → g.current_thread < 4
    → j ≡ (g.current_thread + d) % 4
    → is_runnable (g.all_thread j).state ≡ true
    → Reaches d j g
unfolding yields
robin fuel zero g j le lt c at h = (0, omega arith, g, refl, omega (arith, at))
robin zero (suc e) g j le lt c at h = absurd (omega arith)
robin (suc fuel) (suc e) g j le lt c at h =
    let (i, step, (k, le', at')) = next_pick e g j lt c at h in
    elim (Bool-cases (i == j)) [
      | inl same ↦
          reached_later (suc e) 0 g i j step
            (0, omega arith, switched i g, refl, ground (arith, same)) (omega arith)
      | inr apart ↦
          reached_later (suc e) (e - k) g i j step
            (robin fuel (e - k) (switched i g) j (omega arith) (omega arith) (omega (arith, at'))
              (omega (arith, at, at')) (still_runnable g i j (ground (arith, at)) apart h))
            (omega arith)
    ]

-- thread_yield by the thread that runs, and then by those that follow, comes to a runnable thread `j` that
-- stands `d` places behind it around the table, 0 ≤ d < 4, after at most `d` calls.
pub round_robin :
    (d : ℕ) (g : Threads) (j : ℕ)
    → d < 4
    → g.current_thread < 4
    → j ≡ (g.current_thread + d) % 4
    → is_runnable (g.all_thread j).state ≡ true
    → Reaches d j g
round_robin d g j lt c at h = robin d d g j (omega arith) lt c at h
