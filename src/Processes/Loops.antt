-- ===== src/Processes/Loops.antt =====
-- The loops of wakeup and reparent.
use monitors_and_ipc.Prelude.{
  ℕ, zero, suc, ◌+◌, ◌≡◌, ◌∙◌, ◌≤◌, ◌<◌, inl, inr, refl, sym, ap, subst, true, false, ◌==◌, ◌&&◌,
  update, if◌then◌else◌, arith, Bool-cases,
}
use monitors_and_ipc.Processes.{
  nproc, ProcState, unused, used, sleeping, runnable, running, zombie, Channel, Proc, Table,
  is_unused, is_sleeping, is_zombie, is_chan, wake, wakeup_loop, wakeup,
}

-- `y` is `x`, perhaps woken.
pub record Roused (x y : Proc) : Type 0 where
  pub same_chan : y.chan ≡ x.chan
  pub same_pid : y.pid ≡ x.pid
  pub same_unused : is_unused y.state ≡ is_unused x.state
  pub same_zombie : is_zombie y.state ≡ is_zombie x.state
  pub was_sleeping : is_sleeping y.state ≡ true → is_sleeping x.state ≡ true

pub Roused-refl : (x : Proc) → Roused x x
Roused-refl x = record {
  same_chan = refl;
  same_pid = refl;
  same_unused = refl;
  same_zombie = refl;
  was_sleeping = λ e. e;
}

pub Roused-trans : (x y z : Proc) → Roused x y → Roused y z → Roused x z
Roused-trans x y z g h = record {
  same_chan = h.same_chan ∙ g.same_chan;
  same_pid = h.same_pid ∙ g.same_pid;
  same_unused = h.same_unused ∙ g.same_unused;
  same_zombie = h.same_zombie ∙ g.same_zombie;
  was_sleeping = λ e. g.was_sleeping (h.was_sleeping e);
}

pub sleeping_lives :
    (s : ProcState) → is_sleeping s ≡ true → (is_unused s ≡ false) × (is_zombie s ≡ false)
sleeping_lives unused e = absurd (ground (arith, e))
sleeping_lives used e = (refl, refl)
sleeping_lives sleeping e = (refl, refl)
sleeping_lives runnable e = (refl, refl)
sleeping_lives running e = (refl, refl)
sleeping_lives zombie e = absurd (ground (arith, e))

wake-Roused : (c : Channel) (x : Proc) → Roused x (wake c x)
wake-Roused c x = elim (Bool-cases (is_sleeping x.state && is_chan c x.chan)) [
  | inr off ↦ rw off (Roused-refl x)
  | inl on ↦
      let (live, whole) = sleeping_lives x.state (ground (arith, on)) in
      rw on (record {
        same_chan = refl;
        same_pid = refl;
        same_unused = sym live;
        same_zombie = sym whole;
        was_sleeping = λ e. absurd (ground (arith, e));
      })
]

wake-parent : (c : Channel) (x : Proc) → (wake c x).parent ≡ x.parent
wake-parent c x = elim (Bool-cases (is_sleeping x.state && is_chan c x.chan)) [
  | inr off ↦ rw off refl
  | inl on ↦ rw on refl
]

-- It does not sleep on this channel.
abbrev pub IsAwake : Channel → Proc → Type 0
IsAwake c x = (is_sleeping x.state && is_chan c x.chan) ≡ false

wake-IsAwake : (c : Channel) (x : Proc) → IsAwake c (wake c x)
wake-IsAwake c x = elim (Bool-cases (is_sleeping x.state && is_chan c x.chan)) [
  | inr off ↦ rw off off
  | inl on ↦ rw on refl
]

pub Roused-IsAwake : (c : Channel) (x y : Proc) → Roused x y → IsAwake c x → IsAwake c y
Roused-IsAwake c x y r h = elim (Bool-cases (is_sleeping y.state)) [
  | inr off ↦ ground (arith, off)
  | inl on ↦
      let e : is_chan c y.chan ≡ is_chan c x.chan = ap (is_chan c) r.same_chan in
      ground (arith, on, r.was_sleeping on, h, e)
]

-- One round of the loop of wakeup.
abbrev one : ℕ → ℕ → Channel → Table → Table
one i me c t = if i == me then t else update t i (wake c (t i))

one-Roused :
    (i me : ℕ) (c : Channel) (t : Table) (q : ℕ)
    → Roused (t q) (one i me c t q) × ((one i me c t q).parent ≡ (t q).parent)
one-Roused i me c t q = elim (Bool-cases (i == me)) [
  | inl mine ↦ rw mine (Roused-refl (t q), refl)
  | inr other ↦ rw other (elim (Bool-cases (i == q)) [
    | inr far ↦ rw far (Roused-refl (t q), refl)
    | inl here ↦
        let e : i ≡ q = ground (arith, here) in
        rw here (
          subst (λ k. Roused (t k) (wake c (t i)) × ((wake c (t i)).parent ≡ (t k).parent)) e
            (wake-Roused c (t i), wake-parent c (t i)))
  ])
]

wakeup_loop-Roused :
    (rounds i me : ℕ) (c : Channel) (t : Table) (q : ℕ)
    → Roused (t q) (wakeup_loop rounds i me c t q)
      × ((wakeup_loop rounds i me c t q).parent ≡ (t q).parent)
unfolding wakeup_loop
wakeup_loop-Roused zero i me c t q = (Roused-refl (t q), refl)
wakeup_loop-Roused (suc rounds) i me c t q =
    let (r, e) = wakeup_loop-Roused rounds (suc i) me c (one i me c t) q in
    let (r', e') = one-Roused i me c t q in (Roused-trans _ _ _ r' r, e ∙ e')

wakeup_loop-IsAwake :
    (rounds i me : ℕ) (c : Channel) (t : Table) (q : ℕ)
    → i ≤ q
    → q < i + rounds
    → (q == me) ≡ false
    → IsAwake c (wakeup_loop rounds i me c t q)
unfolding wakeup_loop
wakeup_loop-IsAwake zero i me c t q low high other = absurd (omega (arith, low, high))
wakeup_loop-IsAwake (suc rounds) i me c t q low high other = elim (Bool-cases (i == q)) [
  | inr far ↦
      wakeup_loop-IsAwake rounds (suc i) me c (one i me c t) q (ground (arith, low, far))
        (omega (arith, high)) other
  | inl here ↦
      let e : i ≡ q = ground (arith, here) in
      let not_me : (i == me) ≡ false = ground (arith, other, e) in
      Roused-IsAwake c (one i me c t q) _
        (wakeup_loop-Roused rounds (suc i) me c (one i me c t) q).0
        (rw (not_me, here) (wake-IsAwake c (t i)))
]

pub wakeup-Roused :
    (me : ℕ) (c : Channel) (t : Table) (q : ℕ)
    → Roused (t q) (wakeup me c t q) × ((wakeup me c t q).parent ≡ (t q).parent)
wakeup-Roused me c t q = wakeup_loop-Roused nproc 0 me c t q

pub wakeup-IsAwake :
    (me : ℕ) (c : Channel) (t : Table) (q : ℕ)
    → q < nproc
    → (q == me) ≡ false
    → IsAwake c (wakeup me c t q)
wakeup-IsAwake me c t q lt other =
    wakeup_loop-IsAwake nproc 0 me c t q (omega arith) (omega (arith, lt)) other
