-- ===== src/Processes/Kept.antt =====
-- Every step keeps the table in order.
use monitors_and_ipc.Prelude.{
  ℕ, zero, suc, ◌+◌, ◌≡◌, ◌∙◌, ◌≤◌, ◌<◌, ◌⊎◌, inl, inr, refl, sym, subst, true, false, ◌==◌, ◌&&◌,
  Option, none, some, update, arith, Bool-cases,
}
use monitors_and_ipc.Processes.{
  nproc, ProcState, Channel, at_proc, Proc, Table, is_unused, is_sleeping, is_zombie, is_chan,
  is_parent,
}
use mathlib.Core.Option.{some-injective}
use monitors_and_ipc.Processes.{freeproc, find_zombie, find_slot}
use monitors_and_ipc.Processes.Family.{IsLive, IsFamily, NoParent, updated-IsLive, update-IsFamily}
use monitors_and_ipc.Processes.{is_chan, Proc}

-- A live process changes its state and its channel, and stays live.
pub live_change :
    (initproc k : ℕ) (t : Table) (state : ProcState) (chan : Option Channel)
    → k < nproc
    → IsLive (t k)
    → is_unused state ≡ false
    → is_zombie state ≡ false
    → (is_sleeping state && is_chan (at_proc k) chan ≡ true
        → (c : ℕ) → c < nproc
        → (t c).parent ≡ some k
        → is_zombie (t c).state ≡ false)
    → IsFamily initproc t
    → IsFamily initproc (update t k (record (t k) { state = state; chan = chan }))
live_change initproc k t state chan lt live on whole hears h =
    let x = record (t k) { state = state; chan = chan } in
    update-IsFamily initproc k t x lt
      (record {
        pid_fits = h.free_pid k lt ∙ live.0 ∙ sym on;
        gone = λ off. absurd (ground (arith, off, on));
        counted = inl (on, whole);
        has_parent = λ on' far.
            let (r, small, e, live') = h.cared k lt live.0 far in
            (r, small, e, updated-IsLive t k x r (on, whole) live');
        hears = hears;
        is_heard = inl whole;
      })
      h

pub not_some : (k : ℕ) → ◌≡◌ {A = Option ℕ} none (some k) → ⊥
not_some k e = cc

pub dead_live : (x : Proc) → (is_unused x.state ≡ true) ⊎ (is_zombie x.state ≡ true) → IsLive x → ⊥
dead_live x (inl off) (on, whole) = ground (arith, off, on)
dead_live x (inr off) (on, whole) = ground (arith, off, whole)

-- Nobody but init has a process for a parent that is not live.
none-NoParent :
    (initproc k : ℕ) (t : Table)
    → IsFamily initproc t
    → (is_unused (t k).state ≡ true) ⊎ (is_zombie (t k).state ≡ true)
    → NoParent initproc k t
none-NoParent initproc k t h dead q lt far e = elim (Bool-cases (is_unused (t q).state)) [
  | inl off ↦ not_some k (sym (h.alone q lt off) ∙ e)
  | inr on ↦
      let (r, small, f, live) = h.cared q lt on far in
      let g : r ≡ k = some-injective r k (sym f ∙ e) in
      dead_live (t k) dead (subst (λ j. IsLive (t j)) g live)
]

-- The slot of a process that is not live is freed.
pub freed-IsFamily :
    (initproc k : ℕ) (t : Table)
    → k < nproc
    → (is_unused (t k).state ≡ true) ⊎ (is_zombie (t k).state ≡ true)
    → IsFamily initproc t
    → IsFamily initproc (freeproc k t)
freed-IsFamily initproc k t lt dead h =
    update-IsFamily initproc k t _ lt
      (record {
        pid_fits = refl;
        gone = λ off. refl;
        counted = inr (
          none-NoParent initproc k t h dead,
          elim (Bool-cases (k == initproc)) [
            | inr far ↦ far
            | inl same ↦ absurd (
                dead_live (t k) dead (
                  subst (λ j. IsLive (t j)) (let e : initproc ≡ k = ground (arith, same) in e)
                    h.init))
          ],
        );
        has_parent = λ on far. absurd (ground (arith, on));
        hears = λ e. absurd (ground (arith, e));
        is_heard = inl refl;
      })
      h

pub zombie_found :
    (rounds i p : ℕ) (t : Table) (c : ℕ)
    → find_zombie rounds i p t ≡ some c
    → (c < i + rounds) × ((is_parent p (t c).parent && is_zombie (t c).state) ≡ true)
unfolding find_zombie
zombie_found zero i p t c e = absurd (not_some c e)
zombie_found (suc rounds) i p t c e =
    elim (Bool-cases (is_parent p (t i).parent && is_zombie (t i).state)) [
      | inl hit ↦
          let f : i ≡ c = some-injective i c (rw hit at e) in
          (
            omega (arith, f),
            subst (λ j. (is_parent p (t j).parent && is_zombie (t j).state) ≡ true) f hit,
          )
      | inr miss ↦
          let (lt, h) = zombie_found rounds (suc i) p t c (rw miss at e) in (omega (arith, lt), h)
    ]

pub zombie_missed :
    (rounds i p : ℕ) (t : Table) (c : ℕ)
    → find_zombie rounds i p t ≡ none
    → i ≤ c
    → c < i + rounds
    → (is_parent p (t c).parent && is_zombie (t c).state) ≡ false
unfolding find_zombie
zombie_missed zero i p t c e low high = absurd (omega (arith, low, high))
zombie_missed (suc rounds) i p t c e low high =
    elim (Bool-cases (is_parent p (t i).parent && is_zombie (t i).state)) [
      | inl hit ↦ absurd (not_some i (sym (rw hit at e)))
      | inr miss ↦ elim (Bool-cases (i == c)) [
        | inl here ↦
            subst (λ j. (is_parent p (t j).parent && is_zombie (t j).state) ≡ false)
              (let f : i ≡ c = ground (arith, here) in f) miss
        | inr far ↦
            zombie_missed rounds (suc i) p t c (rw miss at e) (ground (arith, low, far))
              (omega (arith, high))
      ]
    ]

pub slot_found :
    (rounds i : ℕ) (t : Table) (c : ℕ)
    → find_slot rounds i t ≡ some c
    → (c < i + rounds) × (is_unused (t c).state ≡ true)
unfolding find_slot
slot_found zero i t c e = absurd (not_some c e)
slot_found (suc rounds) i t c e = elim (Bool-cases (is_unused (t i).state)) [
  | inl hit ↦
      let f : i ≡ c = some-injective i c (rw hit at e) in
      (omega (arith, f), subst (λ j. is_unused (t j).state ≡ true) f hit)
  | inr miss ↦ let (lt, h) = slot_found rounds (suc i) t c (rw miss at e) in (omega (arith, lt), h)
]
