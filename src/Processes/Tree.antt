-- ===== src/Processes/Tree.antt =====
-- Parents, zombies, and what a kill of process 0 does.
use monitors_and_ipc.Prelude.{
  ℕ, zero, suc, ◌+◌, ◌≡◌, ◌∙◌, ◌<◌, inl, inr, refl, sym, ap, Bool, true, false, ◌==◌, ==_refl, ◌&&◌,
  none, some, update, if◌then◌else◌, arith, Bool-cases, Option-cases,
}
use monitors_and_ipc.Processes.{
  nproc, runnable, at_proc, Proc, Table, is_unused, is_sleeping, is_zombie, is_chan, is_parent,
}
use mathlib.Core.Option.{some-injective}
use monitors_and_ipc.Processes.{
  freeproc, find_zombie, reaped, kwait, kill_loop, kkill, find_slot, System, kfork,
}
use monitors_and_ipc.Processes.{is_chan, Proc}
use monitors_and_ipc.Processes.Kept.{not_some, zombie_found, zombie_missed}
use monitors_and_ipc.Processes.Runs.{first_system, Trace, starts, then_steps}
use monitors_and_ipc.Processes.Runs.{empty_proc}
use monitors_and_ipc.Processes.Traces.{IsSound, Step-IsSound}
use monitors_and_ipc.Processes.Waits.{struck, struck_at, child_is}

first_at :
    (P : Proc → Type 0) (q : ℕ)
    → P empty_proc
    → P (record empty_proc { state = runnable; pid = 1 })
    → P (first_system.proc q)
first_at P q e f = elim (Bool-cases (0 == q)) [ inl here ↦ rw here f | inr far ↦ rw far e ]

first-IsSound : IsSound first_system
first-IsSound = (
  record {
    small = omega arith;
    init = (refl, refl);
    cared = λ q lt on far. absurd (
        let zero_far : (0 == q) ≡ false = ground (arith, far) in
        let empty_it : first_system.proc q ≡ empty_proc = rw zero_far refl in
        ground (arith, on, ap (λ x. is_unused x.state) empty_it));
    alone = λ q lt off. first_at (λ x. x.parent ≡ none) q refl refl;
    free_pid = λ q lt. first_at (λ x. (x.pid == 0) ≡ is_unused x.state) q refl refl;
    heard = λ q c lt lt' on e.
        absurd (not_some q (sym (first_at (λ x. x.parent ≡ none) c refl refl) ∙ e));
  },
  omega arith,
)

Trace-IsSound : (s : System) → Trace s → IsSound s
Trace-IsSound s starts = first-IsSound
Trace-IsSound s (then_steps s0 s' t step) = Step-IsSound s0 s' step (Trace-IsSound s0 t)

-- In every order of the steps, a process in the table other than the first one has a parent that is in the
-- table and has not exited.
pub no_orphans :
    (s : System) (q : ℕ)
    → Trace s
    → q < nproc
    → is_unused (s.proc q).state ≡ false
    → (q == 0) ≡ false
    → (r : ℕ) × (r < nproc)
      × ((s.proc q).parent ≡ some r)
      × (is_unused (s.proc r).state ≡ false)
      × (is_zombie (s.proc r).state ≡ false)
no_orphans s q t lt on far =
    let (r, small, e, live) = (Trace-IsSound s t).0.cared q lt on far in
    (r, small, e, live.0, live.1)

found_there :
    (t : Table) (p c : ℕ)
    → (is_parent p (t c).parent && is_zombie (t c).state) ≡ true
    → c < nproc
    → (d : ℕ) × (find_zombie nproc 0 p t ≡ some d)
found_there t p c hit lt = elim (Option-cases (find_zombie nproc 0 p t)) [
  | inr found ↦ found
  | inl nobody ↦
      absurd
        (ground (arith, hit, zombie_missed nproc 0 p t c nobody (omega arith) (omega (arith, lt))))
]

-- In every order of the steps, a process that has a zombie for a child does not sleep in kwait, and its
-- kwait, if the status can be copied, returns with a child that is a zombie, which it frees.
pub zombie_heard :
    (s : System) (q c : ℕ) (was_killed : Bool)
    → Trace s
    → q < nproc
    → c < nproc
    → (s.proc c).parent ≡ some q
    → is_zombie (s.proc c).state ≡ true
    → ((is_sleeping (s.proc q).state && is_chan (at_proc q) (s.proc q).chan) ≡ false)
      × ((d : ℕ) × (d < nproc)
          × ((s.proc d).parent ≡ some q)
          × (is_zombie (s.proc d).state ≡ true)
          × (kwait q false was_killed s.proc
              ≡ reaped (s.proc d).pid (s.proc d).xstate (freeproc d s.proc)))
unfolding kwait
zombie_heard s q c was_killed t lt lt' e dead =
    let h = (Trace-IsSound s t).0 in
    let child : is_parent q (s.proc c).parent ≡ true = ap (is_parent q) e ∙ ==_refl q in
    let (d, found) = found_there s.proc q c (ground (arith, child, dead)) lt' in
    let (small, here) = zombie_found nproc 0 q s.proc d found in
    let (is_child, zombie_it) = child_is s.proc q d here in
    (
      elim (Bool-cases (is_sleeping (s.proc q).state && is_chan (at_proc q) (s.proc q).chan)) [
        | inr awake ↦ awake
        | inl on ↦ absurd (ground (arith, h.heard q c lt lt' on e, dead))
      ],
      (d, omega (arith, small), is_child, zombie_it, rw found refl),
    )

kill_slot :
    (rounds i : ℕ) (t : Table) (np : ℕ)
    → ((q : ℕ) → q < i + rounds → ((t q).pid == 0) ≡ is_unused (t q).state)
    → find_slot rounds i t ≡ some np
    → kill_loop rounds i 0 t ≡ some (update t np (struck (t np)))
unfolding kill_loop find_slot
kill_slot zero i t np pids e = absurd (not_some np e)
kill_slot (suc rounds) i t np pids e = elim (Bool-cases (is_unused (t i).state)) [
  | inl hit ↦
      let f : i ≡ np = some-injective i np (rw hit at e) in
      rw (pids i (omega arith), hit) (ap (λ j. some (update t j (struck (t j)))) f)
  | inr miss ↦
      rw (pids i (omega arith), miss)
        (kill_slot rounds (suc i) t np (λ q lt. pids q (omega (arith, lt))) (rw miss at e))
]

find_slot_cong :
    (rounds i : ℕ) (t t' : Table)
    → ((q : ℕ) → is_unused (t' q).state ≡ is_unused (t q).state)
    → find_slot rounds i t' ≡ find_slot rounds i t
unfolding find_slot
find_slot_cong zero i t t' same = refl
find_slot_cong (suc rounds) i t t' same = rw (same i) (
    ap (λ rest. if is_unused (t i).state then some i else rest)
      (find_slot_cong rounds (suc i) t t' same))

-- A kill of process 0 succeeds whenever there is a free slot in the table: the slot counts as killed, and the
-- next process that forks, if nothing fails, gets a child in it that is killed already.
pub kill_zero :
    (s : System) (p np : ℕ)
    → Trace s
    → find_slot nproc 0 s.proc ≡ some np
    → (t : Table) × (kkill 0 s.proc ≡ some t)
      × ((kfork p false (record s { proc = t })).0 ≡ some np)
      × ((((kfork p false (record s { proc = t })).1).proc np).killed ≡ true)
unfolding kfork
kill_zero s p np tr e =
    let h = (Trace-IsSound s tr).0 in
    let t = update s.proc np (struck (s.proc np)) in
    let again : find_slot nproc 0 t ≡ some np =
      find_slot_cong nproc 0 s.proc t (λ q. (struck_at np s.proc q).0.same_unused) ∙ e in
    (
      t,
      kill_slot nproc 0 s.proc np (λ q lt. h.free_pid q (omega (arith, lt))) e,
      rw again refl,
      rw again (rw (==_refl np) refl),
    )
