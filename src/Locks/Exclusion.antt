-- ===== src/Locks/Exclusion.antt =====
-- What holds in every state that the processors reach.
use monitors_and_ipc.Prelude.{
  ℕ, ◌≡◌, inl, inr, refl, true, none, some, ◌==◌, arith, Bool-cases, Bool, false, not, is_zero,
  Option, ap, ◌∙◌,
}
use monitors_and_ipc.Locks.{Cpu, pop_off, initlock, holding, begin_acquire, begin_release}
use monitors_and_ipc.Locks.Machine.{
  Stage, depth, Machine, Trace, booted, then_steps, in_section, is_inside, Quiet, IsMachine,
  holding_lem, others,
}
use monitors_and_ipc.Locks.Steps.{Step-IsMachine}

Trace-IsMachine : (s : Machine) → Trace s → IsMachine s
unfolding initlock
Trace-IsMachine _ (booted cpus quiet) = record {
  one = inl (refl, λ c. refl);
  owner = λ c. refl;
  quiet = λ c. (quiet c, λ e. absurd (ground (arith, e)));
}
Trace-IsMachine s' (then_steps me s _ before step) =
    Step-IsMachine me s s' (Trace-IsMachine s before) step

-- However the processors' steps are ordered, no two of them are in the section between the taking and
-- the freeing of the spinlock, and `holding` answers 1 exactly to the one that has recorded itself.
pub lock_excludes :
    (s : Machine) (a b : ℕ)
    → Trace s
    → (holding a s.lock ≡ is_inside (s.at a))
      × (in_section (s.at a) ≡ true → in_section (s.at b) ≡ true → a ≡ b)
lock_excludes s a b t =
    let h = Trace-IsMachine s t in
    (
      holding_lem s a h.one (h.owner a),
      λ e f. elim (Bool-cases (a == b)) [
        | inl same ↦ ground (arith, same)
        | inr off ↦ absurd (ground (arith, others s a e h.one b off, f))
      ],
    )

abbrev pub is_panic {ℓ} : {A : Type ℓ} → Option A → Bool
is_panic none = true
is_panic (some x) = false

pops_or_panics : (c : Cpu) (x : Stage) → Quiet c x → is_panic (pop_off c) ≡ is_zero (depth x)
unfolding pop_off
pops_or_panics c x (noff, off) = elim (Bool-cases (is_zero (depth x))) [
  | inl none_open ↦
      let empty : c.noff ≡ 0 = ground (arith, noff, none_open) in
      elim (Bool-cases c.intr) [
        | inl on ↦ rw (on, none_open) refl
        | inr quiet ↦ rw (quiet, empty, none_open) refl
      ]
  | inr open_one ↦
      let some_open : is_zero c.noff ≡ false = ap is_zero noff ∙ open_one in
      rw (off open_one, some_open, open_one) refl
]

-- While the processors take and free one spinlock, each of them only when it is not in acquire or release of
-- it already and none of them with another lock, in any order of their steps: acquire panics
-- exactly on a processor that has recorded itself in the lock, release exactly on one that has not,
-- and pop_off exactly on one that is neither in the section nor in acquire or release.
pub panics_exactly :
    (s : Machine) (me : ℕ)
    → Trace s
    → (is_panic (begin_acquire me s.lock (s.cpus me)) ≡ is_inside (s.at me))
      × (is_panic (begin_release me s.lock) ≡ not (is_inside (s.at me)))
      × (is_panic (pop_off (s.cpus me)) ≡ is_zero (depth (s.at me)))
unfolding begin_acquire begin_release
panics_exactly s me t =
    let h = Trace-IsMachine s t in
    let held = holding_lem s me h.one (h.owner me) in
    elim (Bool-cases (is_inside (s.at me))) [
      | inl here ↦ rw (held, here) (refl, refl, pops_or_panics (s.cpus me) (s.at me) (h.quiet me))
      | inr not_here ↦
          rw (held, not_here) (refl, refl, pops_or_panics (s.cpus me) (s.at me) (h.quiet me))
    ]
