-- ===== src/Processes/Family.antt =====
-- Who waits for whom, in every order of the steps of the processes.
use monitors_and_ipc.Prelude.{
  ℕ, ◌≡◌, ◌∙◌, ◌<◌, ◌⊎◌, inl, inr, refl, sym, ap, subst, true, false, ◌==◌, ◌&&◌, none, some,
  update, arith, Bool-cases,
}
use monitors_and_ipc.Processes.{
  nproc, at_proc, Proc, Table, is_unused, is_sleeping, is_zombie, is_chan,
}
use monitors_and_ipc.Processes.Loops.{Roused, IsAwake, Roused-IsAwake}

-- A process that is in the table, and has not exited.
abbrev pub IsLive : Proc → Type 0
IsLive x = (is_unused x.state ≡ false) × (is_zombie x.state ≡ false)

-- What holds of the table: `initproc` is live, every other process in use has a live parent, and no process
-- sleeps in kwait that has a zombie for a child.
pub record IsFamily (initproc : ℕ) (t : Table) : Type 0 where
  pub small : initproc < nproc
  pub init : IsLive (t initproc)
  pub cared :
      (q : ℕ)
      → q < nproc
      → is_unused (t q).state ≡ false
      → (q == initproc) ≡ false
      → (r : ℕ) × (r < nproc) × ((t q).parent ≡ some r) × IsLive (t r)
  pub alone : (q : ℕ) → q < nproc → is_unused (t q).state ≡ true → (t q).parent ≡ none
  pub free_pid : (q : ℕ) → q < nproc → ((t q).pid == 0) ≡ is_unused (t q).state
  pub heard :
      (q c : ℕ)
      → q < nproc
      → c < nproc
      → is_sleeping (t q).state && is_chan (at_proc q) (t q).chan ≡ true
      → (t c).parent ≡ some q
      → is_zombie (t c).state ≡ false

pub Roused-IsLive : (x y : Proc) → Roused x y → IsLive x → IsLive y
Roused-IsLive x y r (on, whole) = (r.same_unused ∙ on, r.same_zombie ∙ whole)

pub Roused-slept :
    (q : ℕ) (x y : Proc)
    → Roused x y
    → is_sleeping y.state && is_chan (at_proc q) y.chan ≡ true
    → is_sleeping x.state && is_chan (at_proc q) x.chan ≡ true
Roused-slept q x y r e = elim (Bool-cases (is_sleeping x.state && is_chan (at_proc q) x.chan)) [
  | inl on ↦ on
  | inr off ↦ absurd (ground (arith, e, Roused-IsAwake (at_proc q) x y r off))
]

-- Changes that may only wake processes.
pub Roused-IsFamily :
    (initproc : ℕ) (t t' : Table)
    → ((q : ℕ) → Roused (t q) (t' q) × ((t' q).parent ≡ (t q).parent))
    → IsFamily initproc t
    → IsFamily initproc t'
Roused-IsFamily initproc t t' same h = record {
  small = h.small;
  init = Roused-IsLive (t initproc) (t' initproc) (same initproc).0 h.init;
  cared = λ q lt on far.
      let (r, lt', e, live) = h.cared q lt (sym (same q).0.same_unused ∙ on) far in
      (r, lt', (same q).1 ∙ e, Roused-IsLive (t r) (t' r) (same r).0 live);
  alone = λ q lt off. (same q).1 ∙ h.alone q lt (sym (same q).0.same_unused ∙ off);
  free_pid =
      λ q lt. ap (λ n. n == 0) (same q).0.same_pid ∙ h.free_pid q lt ∙ sym (same q).0.same_unused;
  heard = λ q c lt lt' asleep_in e.
      (same c).0.same_zombie
      ∙ h.heard q c lt lt' (Roused-slept q (t q) (t' q) (same q).0 asleep_in) (sym (same c).1 ∙ e);
}

-- Nobody but init may have process `k` for a parent.
abbrev pub NoParent : (initproc k : ℕ) → Table → Type 0
NoParent initproc k t = (q : ℕ) → q < nproc → (q == initproc) ≡ false → (t q).parent ≡ some k → ⊥

pub updated-IsLive :
    (t : Table) (k : ℕ) (x : Proc) (r : ℕ) → IsLive x → IsLive (t r) → IsLive (update t k x r)
updated-IsLive t k x r on old = elim (Bool-cases (k == r)) [
  | inl here ↦ rw here on
  | inr far ↦ rw far old
]

-- What a new record `x` of process `k` must be like.
pub record FitsIn (initproc k : ℕ) (t : Table) (x : Proc) : Type 0 where
  pub pid_fits : (x.pid == 0) ≡ is_unused x.state
  pub gone : is_unused x.state ≡ true → x.parent ≡ none
  pub counted : IsLive x ⊎ (NoParent initproc k t × ((k == initproc) ≡ false))
  pub has_parent :
      is_unused x.state ≡ false
      → (k == initproc) ≡ false
      → (r : ℕ) × (r < nproc) × (x.parent ≡ some r) × IsLive (update t k x r)
  pub hears :
      is_sleeping x.state && is_chan (at_proc k) x.chan ≡ true
      → (c : ℕ) → c < nproc
      → (t c).parent ≡ some k
      → is_zombie (t c).state ≡ false
  pub is_heard :
      (is_zombie x.state ≡ false)
      ⊎ ((q : ℕ) → x.parent ≡ some q → IsAwake (at_proc q) (t q) × IsAwake (at_proc q) x)

module _ (initproc k : ℕ) (t : Table) (x : Proc) (lt : k < nproc) (f : FitsIn initproc k t x)
    (h : IsFamily initproc t) where
  at_k : (q : ℕ) → (k == q) ≡ true → update t k x q ≡ x
  at_k q here = rw here refl

  far_k : (q : ℕ) → (k == q) ≡ false → update t k x q ≡ t q
  far_k q far = rw far refl

  after-IsLive :
      (r q : ℕ)
      → q < nproc
      → (q == initproc) ≡ false
      → (t q).parent ≡ some r
      → IsLive (t r)
      → IsLive (update t k x r)
  after-IsLive r q small far e live = elim (Bool-cases (k == r)) [
    | inr away ↦ subst IsLive (sym (far_k r away)) live
    | inl here ↦ elim f.counted [
      | inl on ↦ subst IsLive (sym (at_k r here)) on
      | inr (nobody, off) ↦
          absurd (nobody q small far (e ∙ ap some (let g : r ≡ k = ground (arith, here) in g)))
    ]
  ]

  init_after : IsLive (update t k x initproc)
  init_after = elim (Bool-cases (k == initproc)) [
    | inr away ↦ subst IsLive (sym (far_k initproc away)) h.init
    | inl here ↦ elim f.counted [
      | inl on ↦ subst IsLive (sym (at_k initproc here)) on
      | inr (nobody, off) ↦ absurd (ground (arith, here, off))
    ]
  ]

  cared_after :
      (q : ℕ)
      → q < nproc
      → is_unused (update t k x q).state ≡ false
      → (q == initproc) ≡ false
      → (r : ℕ) × (r < nproc) × ((update t k x q).parent ≡ some r) × IsLive (update t k x r)
  cared_after q small on far = elim (Bool-cases (k == q)) [
    | inr away ↦
        let g = far_k q away in
        let (r, small', e, live) = h.cared q small (ap (λ y. is_unused y.state) (sym g) ∙ on) far in
        (r, small', ap (λ y. y.parent) g ∙ e, after-IsLive r q small far e live)
    | inl here ↦
        let g = at_k q here in
        let off : (k == initproc) ≡ false = ground (arith, here, far) in
        let (r, small', e, live) = f.has_parent (ap (λ y. is_unused y.state) (sym g) ∙ on) off in
        (r, small', ap (λ y. y.parent) g ∙ e, live)
  ]

  -- A process that is awake in the old table and as it would be in the new one.
  both-IsAwake :
      (q : ℕ)
      → IsAwake (at_proc q) (t q)
      → IsAwake (at_proc q) x
      → IsAwake (at_proc q) (update t k x q)
  both-IsAwake q old new = elim (Bool-cases (k == q)) [
    | inl here ↦ subst (IsAwake (at_proc q)) (sym (at_k q here)) new
    | inr away ↦ subst (IsAwake (at_proc q)) (sym (far_k q away)) old
  ]

  other_heard :
      (q c : ℕ)
      → q < nproc
      → c < nproc
      → is_sleeping (update t k x q).state && is_chan (at_proc q) (update t k x q).chan ≡ true
      → (t c).parent ≡ some q
      → is_zombie (t c).state ≡ false
  other_heard q c small small' asleep_in e = elim (Bool-cases (k == q)) [
    | inr away ↦
        h.heard q c small small'
          (ap (λ y. is_sleeping y.state && is_chan (at_proc q) y.chan) (sym (far_k q away))
            ∙ asleep_in)
          e
    | inl here ↦
        let g : q ≡ k = ground (arith, here) in
        f.hears
          (ap (λ j. is_sleeping x.state && is_chan (at_proc j) x.chan) (sym g)
            ∙ ap (λ y. is_sleeping y.state && is_chan (at_proc q) y.chan) (sym (at_k q here))
            ∙ asleep_in)
          c small' (e ∙ ap some g)
  ]

  heard_after :
      (q c : ℕ)
      → q < nproc
      → c < nproc
      → is_sleeping (update t k x q).state && is_chan (at_proc q) (update t k x q).chan ≡ true
      → (update t k x c).parent ≡ some q
      → is_zombie (update t k x c).state ≡ false
  heard_after q c small small' asleep_in e = elim (Bool-cases (k == c)) [
    | inr away ↦
        ap (λ y. is_zombie y.state) (far_k c away)
        ∙ other_heard q c small small' asleep_in (ap (λ y. y.parent) (sym (far_k c away)) ∙ e)
    | inl here ↦ ap (λ y. is_zombie y.state) (at_k c here) ∙ elim f.is_heard [
      | inl whole ↦ whole
      | inr awake ↦
          let (old, new) = awake q (ap (λ y. y.parent) (sym (at_k c here)) ∙ e) in
          absurd (ground (arith, both-IsAwake q old new, asleep_in))
    ]
  ]

  alone_after :
      (q : ℕ) → q < nproc → is_unused (update t k x q).state ≡ true → (update t k x q).parent ≡ none
  alone_after q small off = elim (Bool-cases (k == q)) [
    | inr away ↦
        ap (λ y. y.parent) (far_k q away)
        ∙ h.alone q small (ap (λ y. is_unused y.state) (sym (far_k q away)) ∙ off)
    | inl here ↦
        ap (λ y. y.parent) (at_k q here)
        ∙ f.gone (ap (λ y. is_unused y.state) (sym (at_k q here)) ∙ off)
  ]

  pid_after : (q : ℕ) → q < nproc → ((update t k x q).pid == 0) ≡ is_unused (update t k x q).state
  pid_after q small = elim (Bool-cases (k == q)) [
    | inr away ↦
        subst (λ y. (y.pid == 0) ≡ is_unused y.state) (sym (far_k q away)) (h.free_pid q small)
    | inl here ↦ subst (λ y. (y.pid == 0) ≡ is_unused y.state) (sym (at_k q here)) f.pid_fits
  ]

  pub update-IsFamily : IsFamily initproc (update t k x)
  update-IsFamily = record {
    small = h.small;
    init = init_after;
    cared = cared_after;
    alone = alone_after;
    free_pid = pid_after;
    heard = heard_after;
  }
