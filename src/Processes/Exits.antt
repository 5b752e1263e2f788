-- ===== src/Processes/Exits.antt =====
-- kexit and kkill keep the table in order.
use monitors_and_ipc.Prelude.{
  ℕ, ◌≡◌, ◌∙◌, ◌<◌, inl, inr, refl, sym, ap, subst, false, ◌==◌, Option, none, some, update, arith,
  Bool-cases,
}
use monitors_and_ipc.Processes.{
  nproc, zombie, at_proc, Table, is_unused, is_parent, wakeup, reparent,
}
use mathlib.Core.Option.{some-injective}
use monitors_and_ipc.Processes.{kexit, wake_parent}
use monitors_and_ipc.Processes.Loops.{Roused, Roused-refl, IsAwake, wakeup-Roused, wakeup-IsAwake}
use monitors_and_ipc.Processes.Orphans.{
  parent_after, reparent-Roused, reparent-parent, reparent-IsAwake,
}
use monitors_and_ipc.Processes.Family.{IsLive, IsFamily, update-IsFamily, Roused-IsFamily}
use monitors_and_ipc.Processes.Family.{Roused-slept, Roused-IsLive}
use monitors_and_ipc.Processes.Kept.{not_some}

reparent-IsFamily :
    (initproc p : ℕ) (t : Table)
    → (initproc == p) ≡ false
    → IsFamily initproc t
    → IsFamily initproc (reparent initproc p t)
reparent-IsFamily initproc p t other h =
    let same = λ (q : ℕ). reparent-Roused initproc p t q in
    record {
      small = h.small;
      init = Roused-IsLive (t initproc) _ (same initproc) h.init;
      cared = λ q lt on far. elim (Bool-cases (is_parent p (t q).parent)) [
        | inl child ↦ (
          initproc,
          h.small,
          reparent-parent initproc p t q lt ∙ rw child refl,
          Roused-IsLive (t initproc) _ (same initproc) h.init,
        )
        | inr own ↦
            let (r, lt', e, live) = h.cared q lt (sym (same q).same_unused ∙ on) far in
            (
              r,
              lt',
              reparent-parent initproc p t q lt ∙ rw own e,
              Roused-IsLive (t r) _ (same r) live,
            )
      ];
      alone = λ q lt off.
          reparent-parent initproc p t q lt
          ∙ ap (parent_after initproc p) (h.alone q lt (sym (same q).same_unused ∙ off));
      free_pid =
          λ q lt. ap (λ n. n == 0) (same q).same_pid ∙ h.free_pid q lt ∙ sym (same q).same_unused;
      heard = λ q c lt lt' asleep_in e. elim (Bool-cases (is_parent p (t c).parent)) [
        | inl child ↦
            let f : initproc ≡ q =
              some-injective initproc q
                (rw child at (sym (reparent-parent initproc p t c lt') ∙ e)) in
            let awake = reparent-IsAwake initproc p t c h.small other lt' child in
            absurd (
              ground (
                arith,
                asleep_in,
                subst (λ j. IsAwake (at_proc j) (reparent initproc p t j)) f awake,
              ))
        | inr own ↦
            (same c).same_zombie
            ∙ h.heard q c lt lt' (Roused-slept q (t q) _ (same q) asleep_in)
                (rw own at (sym (reparent-parent initproc p t c lt') ∙ e))
      ];
    }

wake_parent-Roused :
    (p : ℕ) (o : Option ℕ) (t : Table) (q : ℕ)
    → Roused (t q) (wake_parent p o t q) × ((wake_parent p o t q).parent ≡ (t q).parent)
wake_parent-Roused p none t q = (Roused-refl (t q), refl)
wake_parent-Roused p (some r) t q = wakeup-Roused p (at_proc r) t q

wake_parent-IsAwake :
    (p : ℕ) (o : Option ℕ) (t : Table) (q : ℕ)
    → o ≡ some q
    → q < nproc
    → (q == p) ≡ false
    → IsAwake (at_proc q) (wake_parent p o t q)
wake_parent-IsAwake p none t q e lt other = absurd (not_some q e)
wake_parent-IsAwake p (some r) t q e lt other =
    subst (λ j. IsAwake (at_proc q) (wakeup p (at_proc j) t q)) (sym (some-injective r q e))
      (wakeup-IsAwake p (at_proc q) t q lt other)

-- The table before the process becomes a zombie.
abbrev left_by : (initproc p : ℕ) → Table → Table
left_by initproc p t = let moved = reparent initproc p t in wake_parent p (moved p).parent moved

left_by-parent :
    (initproc p : ℕ) (t : Table) (q : ℕ)
    → q < nproc
    → (left_by initproc p t q).parent ≡ parent_after initproc p (t q).parent
left_by-parent initproc p t q lt =
    (wake_parent-Roused p (reparent initproc p t p).parent (reparent initproc p t) q).1
    ∙ reparent-parent initproc p t q lt

left_by-IsFamily :
    (initproc p : ℕ) (t : Table)
    → (initproc == p) ≡ false
    → IsFamily initproc t
    → IsFamily initproc (left_by initproc p t)
left_by-IsFamily initproc p t other h =
    Roused-IsFamily initproc (reparent initproc p t) _
      (wake_parent-Roused p (reparent initproc p t p).parent (reparent initproc p t))
      (reparent-IsFamily initproc p t other h)

not_parent_after :
    (initproc p : ℕ) (x : Option ℕ)
    → (initproc == p) ≡ false
    → parent_after initproc p x ≡ some p
    → ⊥
not_parent_after initproc p none other e = cc
not_parent_after initproc p (some r) other e = elim (Bool-cases (p == r)) [
  | inl child ↦
      (let f : initproc ≡ p = some-injective initproc p (rw child at e) in ground (arith, other, f))
  | inr own ↦ (let f : r ≡ p = some-injective r p (rw own at e) in ground (arith, own, f))
]

left_by-NoParent :
    (initproc p : ℕ) (t : Table)
    → (initproc == p) ≡ false
    → (q : ℕ) → q < nproc
    → (left_by initproc p t q).parent ≡ some p
    → ⊥
left_by-NoParent initproc p t other q lt e =
    not_parent_after initproc p (t q).parent other (sym (left_by-parent initproc p t q lt) ∙ e)

exited-IsFamily :
    (initproc p status : ℕ) (t : Table)
    → (initproc == p) ≡ false
    → p < nproc
    → IsLive (t p)
    → IsFamily initproc t
    → IsFamily initproc (
        update
          (left_by initproc p t)
          p
          (record (left_by initproc p t p) { xstate = status; state = zombie }))
exited-IsFamily initproc p status t other lt live h =
    let t2 = left_by initproc p t in
    let x = record (t2 p) { xstate = status; state = zombie } in
    let h2 = left_by-IsFamily initproc p t other h in
    let off : (p == initproc) ≡ false = ground (arith, other) in
    let nobody = left_by-NoParent initproc p t other in
    let on : is_unused (t2 p).state ≡ false =
      (wake_parent-Roused p (reparent initproc p t p).parent (reparent initproc p t)
        p).0.same_unused
      ∙ (reparent-Roused initproc p t p).same_unused
      ∙ live.0 in
    let (r, small, e, live') = h2.cared p lt on off in
    let apart : (q : ℕ) → (t2 p).parent ≡ some q → (q == p) ≡ false = λ q f.
      elim (Bool-cases (q == p)) [
        | inr far ↦ far
        | inl same ↦ absurd (nobody p lt (f ∙ ap some (let g : q ≡ p = ground (arith, same) in g)))
      ] in
    update-IsFamily initproc p t2 x lt
      (record {
        pid_fits = h2.free_pid p lt ∙ on;
        gone = λ un. absurd (ground (arith, un));
        counted = inr (λ q small' far. nobody q small', off);
        has_parent = λ on' far. (
          r,
          small,
          e,
          (let away : (p == r) ≡ false = ground (arith, apart r e) in rw away live'),
        );
        hears = λ f. absurd (ground (arith, f));
        is_heard = inr (λ q f. (
          wake_parent-IsAwake p (reparent initproc p t p).parent (reparent initproc p t) q
              (sym
                  (wake_parent-Roused p (reparent initproc p t p).parent (reparent initproc p t)
                    p).1
                ∙ f)
              (subst (λ j. j < nproc) (some-injective r q (sym e ∙ f)) small) (apart q f),
          refl,
        ));
      })
      h2

none_table : {t : Table} → ◌≡◌ {A = Option Table} none (some t) → ⊥
none_table e = cc

pub kexit-IsFamily :
    (initproc p status : ℕ) (t t' : Table)
    → p < nproc
    → IsLive (t p)
    → kexit initproc p status t ≡ some t'
    → IsFamily initproc t
    → IsFamily initproc t'
unfolding kexit
kexit-IsFamily initproc p status t t' lt live e h = elim (Bool-cases (p == initproc)) [
  | inl init_it ↦ absurd (none_table (rw init_it at e))
  | inr other ↦
      subst (IsFamily initproc) (some-injective _ t' (rw other at e))
        (exited-IsFamily initproc p status t (ground (arith, other)) lt live h)
]
