-- ===== src/Processes/Waits.antt =====
-- kkill and kwait keep the table in order.
use monitors_and_ipc.Prelude.{
  ℕ, zero, suc, ◌≡◌, ◌∙◌, ◌<◌, inl, inr, refl, sym, ap, subst, Bool, true, false, ◌==◌, ==_refl,
  ◌&&◌, not, Option, none, some, update, if◌then◌else◌, arith, Bool-cases, Option-cases, ◌||◌,
}
use monitors_and_ipc.Processes.{
  nproc, sleeping, runnable, at_proc, Proc, Table, is_sleeping, is_zombie, is_parent,
}
use mathlib.Core.Option.{some-injective}
use monitors_and_ipc.Processes.{
  find_zombie, have_kids, Waited, reaped, failed, sleeps, kwait, kill_loop,
}
use monitors_and_ipc.Processes.Loops.{Roused, Roused-refl}
use monitors_and_ipc.Processes.Family.{IsLive, IsFamily}
use monitors_and_ipc.Processes.{Proc}
use monitors_and_ipc.Processes.Kept.{live_change, freed-IsFamily, zombie_found, zombie_missed}
use monitors_and_ipc.Processes.Loops.{sleeping_lives}

abbrev pub struck : Proc → Proc
struck x = record x { killed = true; state = if is_sleeping x.state then runnable else x.state }

struck-Roused : (x : Proc) → Roused x (struck x)
struck-Roused x = elim (Bool-cases (is_sleeping x.state)) [
  | inr off ↦ rw off (record {
    same_chan = refl;
    same_pid = refl;
    same_unused = refl;
    same_zombie = refl;
    was_sleeping = λ e. e;
  })
  | inl on ↦
      let (live, whole) = sleeping_lives x.state on in
      rw on (record {
        same_chan = refl;
        same_pid = refl;
        same_unused = sym live;
        same_zombie = sym whole;
        was_sleeping = λ e. on;
      })
]

pub struck_at :
    (i : ℕ) (t : Table) (q : ℕ)
    → Roused (t q) (update t i (struck (t i)) q)
      × ((update t i (struck (t i)) q).parent ≡ (t q).parent)
struck_at i t q = elim (Bool-cases (i == q)) [
  | inr far ↦ rw far (Roused-refl (t q), refl)
  | inl here ↦
      let e : i ≡ q = ground (arith, here) in
      rw here (
        subst (λ k. Roused (t k) (struck (t i)) × ((struck (t i)).parent ≡ (t k).parent)) e
          (struck-Roused (t i), refl))
]

none_table : {t : Table} → ◌≡◌ {A = Option Table} none (some t) → ⊥
none_table e = cc

pub kill_loop-Roused :
    (rounds i pid : ℕ) (t t' : Table)
    → kill_loop rounds i pid t ≡ some t'
    → (q : ℕ) → Roused (t q) (t' q) × ((t' q).parent ≡ (t q).parent)
unfolding kill_loop
kill_loop-Roused zero i pid t t' e q = absurd (none_table e)
kill_loop-Roused (suc rounds) i pid t t' e q = elim (Bool-cases ((t i).pid == pid)) [
  | inl hit ↦
      subst (λ u. Roused (t q) (u q) × ((u q).parent ≡ (t q).parent))
        (some-injective _ t' (rw hit at e)) (struck_at i t q)
  | inr miss ↦ kill_loop-Roused rounds (suc i) pid t t' (rw miss at e) q
]

abbrev left_table : Waited → Table → Table
left_table (reaped pid xstate t) u = t
left_table failed u = u
left_table (sleeps t) u = t

not_reaped :
    (b : Bool) (t u : Table) (pid xstate : ℕ)
    → ◌≡◌ {A = Waited} (if b then failed else sleeps u) (reaped pid xstate t)
    → ⊥
not_reaped true t u pid xstate e = cc
not_reaped false t u pid xstate e = cc

not_asleep :
    (b : Bool) (t u : Table) (pid xstate : ℕ)
    → ◌≡◌ {A = Waited} (if b then failed else reaped pid xstate u) (sleeps t)
    → ⊥
not_asleep true t u pid xstate e = cc
not_asleep false t u pid xstate e = cc

failed_not : (t : Table) → ◌≡◌ {A = Waited} failed (sleeps t) → ⊥
failed_not t e = cc

parent_is : (p : ℕ) (x : Option ℕ) → is_parent p x ≡ true → x ≡ some p
parent_is p none e = absurd (ground (arith, e))
parent_is p (some q) e = ap some (let f : q ≡ p = ground (arith, e) in f)

pub child_is :
    (t : Table) (p c : ℕ)
    → (is_parent p (t c).parent && is_zombie (t c).state) ≡ true
    → ((t c).parent ≡ some p) × (is_zombie (t c).state ≡ true)
child_is t p c e = (parent_is p (t c).parent (ground (arith, e)), ground (arith, e))

pub reaps-IsFamily :
    (initproc p pid xstate : ℕ) (was_killed : Bool) (t t' : Table)
    → kwait p false was_killed t ≡ reaped pid xstate t'
    → IsFamily initproc t
    → IsFamily initproc t'
unfolding kwait
reaps-IsFamily initproc p pid xstate was_killed t t' e h =
    elim (Option-cases (find_zombie nproc 0 p t)) [
      | inl nobody ↦ absurd (not_reaped _ t' _ pid xstate (rw nobody at e))
      | inr (c, found) ↦
          let (lt, here) = zombie_found nproc 0 p t c found in
          subst (IsFamily initproc) (ap (λ w. left_table w t) (rw found at e))
            (freed-IsFamily initproc c t (omega (arith, lt)) (inr (child_is t p c here).1) h)
    ]

pub waits-IsFamily :
    (initproc p : ℕ) (copy_fails was_killed : Bool) (t t' : Table)
    → p < nproc
    → IsLive (t p)
    → kwait p copy_fails was_killed t ≡ sleeps t'
    → IsFamily initproc t
    → IsFamily initproc t'
unfolding kwait
waits-IsFamily initproc p copy_fails was_killed t t' lt live e h =
    elim (Option-cases (find_zombie nproc 0 p t)) [
      | inr (c, found) ↦ absurd (not_asleep copy_fails t' _ _ _ (rw found at e))
      | inl nobody ↦ elim (Bool-cases (not (have_kids nproc 0 p t) || was_killed)) [
        | inl leave ↦ absurd (failed_not t' (rw (nobody, leave) at e))
        | inr stay ↦ subst (IsFamily initproc) (ap (λ w. left_table w t) (rw (nobody, stay) at e)) (
            live_change initproc p t sleeping (some (at_proc p)) lt live refl refl
              (λ on c small f.
                let none_there =
                  zombie_missed nproc 0 p t c nobody (omega arith) (omega (arith, small)) in
                let is_child : is_parent p (t c).parent ≡ true = ap (is_parent p) f ∙ ==_refl p in
                ground (arith, none_there, is_child))
              h)
      ]
    ]
