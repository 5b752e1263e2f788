-- ===== src/Threads/Main.antt =====
-- What becomes of main once it has called thread_schedule, as mtxtest.c and uthread_demo.c do.
use monitors_and_ipc.Prelude.{
  ℕ, zero, suc, ◌+◌, ◌≡◌, ◌∙◌, refl, ap, subst, true, false, inl, inr, Option, none, some, List, [],
  ◌∷◌, ◌==◌, ◌≤◌, leb, if◌then◌else◌, update, arith, Bool-cases, Option-cases,
}
use mathlib.Core.Option.{some-injective}
use monitors_and_ipc.Threads.{
  Threads, Thread, Regi, Phase, running, runnable, free, is_runnable, is_free, find_runnable,
  find_free, mark, switch_to, thread_schedule, thread_yield, thread_exit, thread_create, max_thread,
}

-- The calls of the thread that runs.
pub data Call : Type 0 where
  yields exits : Call
  creates : (table func : ℕ) → Call

abbrev pub make : Call → Threads → Option Threads
make yields g = thread_yield g
make exits g = thread_exit g
make (creates table func) g = some (thread_create table func g)

-- The calls one after the other, each with the registers that the thread has by then; `none` is the end of
-- the program.
unfoldable pub make_all : List (Regi × Call) → Option Threads → Option Threads
make_all cs none = none
make_all [] (some g) = some g
make_all ((cpu, c) ∷ cs) (some g) = make_all cs (make c (record g { cpu = cpu }))

-- main, thread 0, does not run, though it is marked as running.
abbrev pub LeftOut : Threads → Type 0
LeftOut g = ((g.current_thread == 0) ≡ false) × ((g.all_thread 0).state ≡ running)

abbrev pub LeftOutIfAny : Option Threads → Type 0
LeftOutIfAny none = Unit {0}
LeftOutIfAny (some g) = LeftOut g

nothing : (u : ℕ) → ◌≡◌ {A = Option ℕ} none (some u) → ⊥
nothing u e = cc

found_runnable :
    (rounds t : ℕ) (threads : ℕ → Thread) (u : ℕ)
    → find_runnable rounds t threads ≡ some u
    → is_runnable (threads u).state ≡ true
unfolding find_runnable
found_runnable zero t threads u e = absurd (nothing u e)
found_runnable (suc rounds) t threads u e =
    let v = if leb max_thread t then 0 else t in
    elim (Bool-cases (is_runnable (threads v).state)) [
      | inl hit ↦
          subst (λ k. is_runnable (threads k).state ≡ true) (some-injective v u (rw hit at e)) hit
      | inr miss ↦ found_runnable rounds (v + 1) threads u (rw miss at e)
    ]

-- A thread that is picked is not main.
not_main :
    (g : Threads) (u : ℕ)
    → (g.all_thread 0).state ≡ running
    → is_runnable (g.all_thread u).state ≡ true
    → (u == 0) ≡ false
not_main g u main e = elim (Bool-cases (u == 0)) [
  | inr far ↦ far
  | inl same ↦
      let f : u ≡ 0 = ground (arith, same) in
      absurd
        (ground (arith, e, ap (λ k. is_runnable (g.all_thread k).state) f, ap is_runnable main))
]

-- To save the registers of a thread changes no state.
saved_state :
    (f : ℕ → Thread) (k : ℕ) (r : Regi)
    → (update f k (record (f k) { registers = r }) 0).state ≡ (f 0).state
saved_state f k r = elim (Bool-cases (k == 0)) [
  | inr far ↦ rw far refl
  | inl here ↦ (let e : k ≡ 0 = ground (arith, here) in rw here (ap (λ j. (f j).state) e))
]

switched-LeftOut :
    (g : Threads) (u : ℕ)
    → (g.all_thread 0).state ≡ running
    → (u == 0) ≡ false
    → LeftOutIfAny (switch_to (some u) g)
switched-LeftOut g u main off = elim (Bool-cases (g.current_thread == u)) [
  | inl same ↦
      let f : g.current_thread ≡ u = ground (arith, same) in rw same (ground (arith, off, f), main)
  | inr far ↦
      rw far (off, saved_state (mark u running g).all_thread g.current_thread g.cpu ∙ rw off main)
]

schedule-LeftOut :
    (g : Threads) → (g.all_thread 0).state ≡ running → LeftOutIfAny (thread_schedule g)
unfolding thread_schedule
schedule-LeftOut g main =
    elim (Option-cases (find_runnable max_thread (g.current_thread + 1) g.all_thread)) [
      | inl idle ↦ rw idle tt
      | inr (u, e) ↦ rw e (
          switched-LeftOut g u main
            (not_main g u main (found_runnable max_thread (g.current_thread + 1) g.all_thread u e)))
    ]

mark_main :
    (g : Threads) (x : Phase)
    → LeftOut g
    → ((mark g.current_thread x g).all_thread 0).state ≡ running
mark_main g x (off, main) = rw off main

find_free_not :
    (rounds t : ℕ) (threads : ℕ → Thread)
    → is_free (threads 0).state ≡ false
    → (rounds ≡ 0 → 1 ≤ t)
    → (find_free rounds t threads == 0) ≡ false
unfolding find_free
find_free_not zero t threads taken some_t = ground (arith, some_t refl)
find_free_not (suc rounds) t threads taken some_t = elim (Bool-cases (is_free (threads t).state)) [
  | inr other ↦ rw other (find_free_not rounds (t + 1) threads taken (λ e. omega arith))
  | inl free_it ↦ rw free_it (elim (Bool-cases (t == 0)) [
    | inr far ↦ far
    | inl here ↦
        let e : t ≡ 0 = ground (arith, here) in
        absurd (ground (arith, taken, free_it, ap (λ k. is_free (threads k).state) e))
  ])
]

create-LeftOut : (table func : ℕ) (g : Threads) → LeftOut g → LeftOut (thread_create table func g)
unfolding thread_create
create-LeftOut table func g (off, main) =
    let far =
      find_free_not max_thread 0 g.all_thread (ap is_free main) (λ e. absurd (omega (arith, e))) in
    (off, rw far main)

make-LeftOut : (c : Call) (g : Threads) → LeftOut g → LeftOutIfAny (make c g)
unfolding thread_yield thread_exit
make-LeftOut yields g h =
    schedule-LeftOut (mark g.current_thread runnable g) (mark_main g runnable h)
make-LeftOut exits g h = schedule-LeftOut (mark g.current_thread free g) (mark_main g free h)
make-LeftOut (creates table func) g h = create-LeftOut table func g h

make_all-LeftOut :
    (cs : List (Regi × Call)) (o : Option Threads) → LeftOutIfAny o → LeftOutIfAny (make_all cs o)
unfolding make_all
make_all-LeftOut [] none h = tt
make_all-LeftOut (c ∷ cs) none h = tt
make_all-LeftOut [] (some g) h = h
make_all-LeftOut ((cpu, c) ∷ cs) (some g) h =
    make_all-LeftOut cs (make c (record g { cpu = cpu }))
      (make-LeftOut c (record g { cpu = cpu }) h)

-- Once main, marked as running, has called thread_schedule, it does not run again: whatever the threads
-- call from then on, either the program has ended, for want of a runnable thread, or a thread other than
-- main runs.
pub main_left_out :
    (g : Threads) (cs : List (Regi × Call))
    → (g.all_thread 0).state ≡ running
    → LeftOutIfAny (make_all cs (thread_schedule g))
main_left_out g cs main = make_all-LeftOut cs (thread_schedule g) (schedule-LeftOut g main)
