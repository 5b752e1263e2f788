-- ===== src/Processes/Orphans.antt =====
-- reparent: the children of a process go to init.
use monitors_and_ipc.Prelude.{
  ℕ, zero, suc, ◌+◌, ◌≡◌, ◌∙◌, ◌≤◌, ◌<◌, inl, inr, refl, sym, ap, subst, true, false, ◌==◌, ==_refl,
  Option, some, update, if◌then◌else◌, arith, Bool-cases,
}
use monitors_and_ipc.Processes.{nproc, at_proc, Table, is_parent, wakeup, reparent_loop, reparent}
use monitors_and_ipc.Processes.Loops.{
  Roused, Roused-refl, Roused-trans, IsAwake, Roused-IsAwake, wakeup-Roused, wakeup-IsAwake,
}

abbrev adopted : (initproc i : ℕ) → Table → Table
adopted initproc i t = update t i (record (t i) { parent = some initproc })

-- One round of the loop of reparent.
abbrev one : (initproc i p : ℕ) → Table → Table
one initproc i p t =
    if is_parent p (t i).parent then wakeup p (at_proc initproc) (adopted initproc i t) else t

adopted-Roused : (initproc i : ℕ) (t : Table) (q : ℕ) → Roused (t q) (adopted initproc i t q)
adopted-Roused initproc i t q = elim (Bool-cases (i == q)) [
  | inr far ↦ rw far (Roused-refl (t q))
  | inl here ↦
      let e : i ≡ q = ground (arith, here) in
      rw here (
        subst (λ k. Roused (t k) (record (t i) { parent = some initproc })) e
          (record {
            same_chan = refl;
            same_pid = refl;
            same_unused = refl;
            same_zombie = refl;
            was_sleeping = λ f. f;
          }))
]

one-Roused : (initproc i p : ℕ) (t : Table) (q : ℕ) → Roused (t q) (one initproc i p t q)
one-Roused initproc i p t q = elim (Bool-cases (is_parent p (t i).parent)) [
  | inr other ↦ rw other (Roused-refl (t q))
  | inl child ↦ rw child (
      Roused-trans _ _ _ (adopted-Roused initproc i t q)
        (wakeup-Roused p (at_proc initproc) (adopted initproc i t) q).0)
]

-- The parent of process `q` after reparent.
abbrev pub parent_after : (initproc p : ℕ) → Option ℕ → Option ℕ
parent_after initproc p x = if is_parent p x then some initproc else x

one_far :
    (initproc i p : ℕ) (t : Table) (q : ℕ)
    → (i == q) ≡ false
    → (one initproc i p t q).parent ≡ (t q).parent
one_far initproc i p t q far = elim (Bool-cases (is_parent p (t i).parent)) [
  | inr other ↦ rw other refl
  | inl child ↦
      rw child ((wakeup-Roused p (at_proc initproc) (adopted initproc i t) q).1 ∙ (rw far refl))
]

one_here :
    (initproc p : ℕ) (t : Table) (q : ℕ)
    → (one initproc q p t q).parent ≡ parent_after initproc p (t q).parent
one_here initproc p t q = elim (Bool-cases (is_parent p (t q).parent)) [
  | inr other ↦ rw other refl
  | inl child ↦
      rw child
        ((wakeup-Roused p (at_proc initproc) (adopted initproc q t) q).1 ∙ (rw (==_refl q) refl))
]

one-IsAwake :
    (initproc i p : ℕ) (t : Table)
    → initproc < nproc
    → (initproc == p) ≡ false
    → is_parent p (t i).parent ≡ true
    → IsAwake (at_proc initproc) (one initproc i p t initproc)
one-IsAwake initproc i p t lt other child =
    rw child (wakeup-IsAwake p (at_proc initproc) (adopted initproc i t) initproc lt other)

reparent_loop-Roused :
    (initproc rounds i p : ℕ) (t : Table) (q : ℕ)
    → Roused (t q) (reparent_loop initproc rounds i p t q)
unfolding reparent_loop
reparent_loop-Roused initproc zero i p t q = Roused-refl (t q)
reparent_loop-Roused initproc (suc rounds) i p t q =
    Roused-trans _ _ _ (one-Roused initproc i p t q)
      (reparent_loop-Roused initproc rounds (suc i) p (one initproc i p t) q)

reparent_loop_before :
    (initproc rounds i p : ℕ) (t : Table) (q : ℕ)
    → q < i
    → (reparent_loop initproc rounds i p t q).parent ≡ (t q).parent
unfolding reparent_loop
reparent_loop_before initproc zero i p t q lt = refl
reparent_loop_before initproc (suc rounds) i p t q lt =
    reparent_loop_before initproc rounds (suc i) p (one initproc i p t) q (omega (arith, lt))
    ∙ one_far initproc i p t q (ground (arith, lt))

reparent_loop_parent :
    (initproc rounds i p : ℕ) (t : Table) (q : ℕ)
    → i ≤ q
    → q < i + rounds
    → (reparent_loop initproc rounds i p t q).parent ≡ parent_after initproc p (t q).parent
unfolding reparent_loop
reparent_loop_parent initproc zero i p t q low high = absurd (omega (arith, low, high))
reparent_loop_parent initproc (suc rounds) i p t q low high = elim (Bool-cases (i == q)) [
  | inl here ↦
      let e : i ≡ q = ground (arith, here) in
      reparent_loop_before initproc rounds (suc i) p (one initproc i p t) q (omega (arith, e))
      ∙ subst (λ k. (one initproc k p t q).parent ≡ parent_after initproc p (t q).parent) (sym e)
          (one_here initproc p t q)
  | inr far ↦
      reparent_loop_parent initproc rounds (suc i) p (one initproc i p t) q
        (ground (arith, low, far)) (omega (arith, high))
      ∙ ap (parent_after initproc p) (one_far initproc i p t q far)
]

reparent_loop-IsAwake :
    (initproc rounds i p : ℕ) (t : Table) (q : ℕ)
    → initproc < nproc
    → (initproc == p) ≡ false
    → i ≤ q
    → q < i + rounds
    → is_parent p (t q).parent ≡ true
    → IsAwake (at_proc initproc) (reparent_loop initproc rounds i p t initproc)
unfolding reparent_loop
reparent_loop-IsAwake initproc zero i p t q lt other low high child =
    absurd (omega (arith, low, high))
reparent_loop-IsAwake initproc (suc rounds) i p t q lt other low high child =
    elim (Bool-cases (i == q)) [
      | inl here ↦
          let e : i ≡ q = ground (arith, here) in
          Roused-IsAwake (at_proc initproc) _ _
            (reparent_loop-Roused initproc rounds (suc i) p (one initproc i p t) initproc)
            (one-IsAwake initproc i p t lt other
              (subst (λ k. is_parent p (t k).parent ≡ true) (sym e) child))
      | inr far ↦
          reparent_loop-IsAwake initproc rounds (suc i) p (one initproc i p t) q lt other
            (ground (arith, low, far)) (omega (arith, high))
            (ap (is_parent p) (one_far initproc i p t q far) ∙ child)
    ]

pub reparent-Roused : (initproc p : ℕ) (t : Table) (q : ℕ) → Roused (t q) (reparent initproc p t q)
reparent-Roused initproc p t q = reparent_loop-Roused initproc nproc 0 p t q

pub reparent-parent :
    (initproc p : ℕ) (t : Table) (q : ℕ)
    → q < nproc
    → (reparent initproc p t q).parent ≡ parent_after initproc p (t q).parent
reparent-parent initproc p t q lt =
    reparent_loop_parent initproc nproc 0 p t q (omega arith) (omega (arith, lt))

-- If it had a child to take over, init does not sleep in kwait.
pub reparent-IsAwake :
    (initproc p : ℕ) (t : Table) (q : ℕ)
    → initproc < nproc
    → (initproc == p) ≡ false
    → q < nproc
    → is_parent p (t q).parent ≡ true
    → IsAwake (at_proc initproc) (reparent initproc p t initproc)
reparent-IsAwake initproc p t q lt other small child =
    reparent_loop-IsAwake initproc nproc 0 p t q lt other (omega arith) (omega (arith, small)) child
