-- ===== src/Locks/Steps.antt =====
-- Each step of a processor keeps the invariant.
use monitors_and_ipc.Prelude.{
  ℕ, ◌≡◌, ◌∙◌, inl, inr, refl, sym, ap, true, false, none, some, ◌==◌, is_zero, subst,
}
use mathlib.Core.Option.{some-injective}
use monitors_and_ipc.Locks.{
  Cpu, Spinlock, push_off, pop_off, holding, begin_acquire, test_and_set, end_acquire,
  begin_release, lock_release,
}
use monitors_and_ipc.Locks.Machine.{
  Stage, away, spinning, taken, inside, leaving, freed, Machine, moved, Step, starts, spins, takes,
  records, releases, frees, pops, in_section, is_inside, depth, Quiet, IsMachine, quiet_later,
  unseen, one_later, outside, holding_lem, pushed, pop-Quiet, alone_in, gone_from, nobody_in,
  others,
}

module _ (s : Machine) (h : IsMachine s) (me : ℕ) where
  pub sees : (x : Stage) → s.at me ≡ x → holding me s.lock ≡ is_inside x
  sees x e = holding_lem s me h.one (h.owner me) ∙ ap is_inside e

  -- A step that leaves the lock as it is, and is neither the taking nor the freeing of it.
  same_lock :
      (c : Cpu) (x : Stage)
      → in_section (s.at me) ≡ in_section x
      → is_inside (s.at me) ≡ is_inside x
      → Quiet c x
      → IsMachine (moved me x s.lock c s)
  same_lock c x e f now = record {
    one = one_later s me x e h.one;
    owner = λ k. h.owner k ∙ sym (unseen s me is_inside x f k);
    quiet = quiet_later s me c x h.quiet now;
  }

  still_quiet : (x y : Stage) → s.at me ≡ x → depth x ≡ depth y → Quiet (s.cpus me) y
  still_quiet x y e d =
      let q = subst (Quiet (s.cpus me)) e (h.quiet me) in (q.0 ∙ d, λ f. q.1 (ap is_zero d ∙ f))

  -- The others are not in their sections.
  alone :
      (x : Stage)
      → s.at me ≡ x
      → in_section x ≡ true
      → (k : ℕ) → (me == k) ≡ false
      → in_section (s.at k) ≡ false
  alone x e f = others s me (ap in_section e ∙ f) h.one

  starts-IsMachine :
      (c : Cpu)
      → s.at me ≡ away
      → begin_acquire me s.lock (s.cpus me) ≡ some c
      → IsMachine (moved me spinning s.lock c s)
  unfolding begin_acquire
  starts-IsMachine c e f =
      let g : begin_acquire me s.lock (s.cpus me) ≡ some (push_off (s.cpus me)) =
        rw (sees away e) refl in
      let same : push_off (s.cpus me) ≡ c = some-injective (push_off (s.cpus me)) c (sym g ∙ f) in
      same_lock c spinning (ap in_section e) (ap is_inside e) (
        subst (λ k. Quiet k spinning) same
          (pushed (s.cpus me) (subst (Quiet (s.cpus me)) e (h.quiet me))))

  spins-IsMachine :
      s.at me ≡ spinning
      → (test_and_set s.lock).0 ≡ true
      → IsMachine (moved me spinning (test_and_set s.lock).1 (s.cpus me) s)
  unfolding test_and_set
  spins-IsMachine e f =
      let same : s.lock ≡ (test_and_set s.lock).1 = ap (λ b. record s.lock { locked = b }) f in
      subst (λ l. IsMachine (moved me spinning l (s.cpus me) s)) same
        (same_lock (s.cpus me) spinning (ap in_section e) (ap is_inside e)
          (still_quiet spinning spinning e refl))

  pops-IsMachine :
      (c : Cpu)
      → s.at me ≡ freed
      → pop_off (s.cpus me) ≡ some c
      → IsMachine (moved me away s.lock c s)
  pops-IsMachine c e f =
      let (c', g, q) = pop-Quiet (s.cpus me) (subst (Quiet (s.cpus me)) e (h.quiet me)) in
      let same : c' ≡ c = some-injective c' c (sym g ∙ f) in
      same_lock c away (ap in_section e) (ap is_inside e) (subst (λ k. Quiet k away) same q)

  takes-IsMachine :
      s.at me ≡ spinning
      → (test_and_set s.lock).0 ≡ false
      → IsMachine (moved me taken (test_and_set s.lock).1 (s.cpus me) s)
  unfolding test_and_set
  takes-IsMachine e f = record {
    one = inr (refl, (me, alone_in s me in_section taken refl (λ k off. nobody_in s f h.one k)));
    owner = λ k. h.owner k ∙ sym (unseen s me is_inside taken (ap is_inside e) k);
    quiet = quiet_later s me (s.cpus me) taken h.quiet (still_quiet spinning taken e refl);
  }

  records-IsMachine :
      s.at me ≡ taken → IsMachine (moved me inside (end_acquire me s.lock) (s.cpus me) s)
  unfolding end_acquire
  records-IsMachine e = record {
    one = one_later s me inside (ap in_section e) h.one;
    owner = λ k. sym (
        alone_in s me is_inside inside refl (λ i off. outside (s.at i) (alone taken e refl i off))
          k);
    quiet = quiet_later s me (s.cpus me) inside h.quiet (still_quiet taken inside e refl);
  }

  releases-IsMachine :
      (lk : Spinlock)
      → s.at me ≡ inside
      → begin_release me s.lock ≡ some lk
      → IsMachine (moved me leaving lk (s.cpus me) s)
  unfolding begin_release
  releases-IsMachine lk e f =
      let g : begin_release me s.lock ≡ some (record s.lock { cpu = none }) =
        rw (sees inside e) refl in
      let same : record s.lock { cpu = none } ≡ lk = some-injective _ lk (sym g ∙ f) in
      subst (λ l. IsMachine (moved me leaving l (s.cpus me) s)) same
        (record {
          one = one_later s me leaving (ap in_section e) h.one;
          owner = λ k. sym (
              gone_from s me is_inside leaving refl
                (λ i off. outside (s.at i) (alone inside e refl i off)) k);
          quiet = quiet_later s me (s.cpus me) leaving h.quiet (still_quiet inside leaving e refl);
        })

  frees-IsMachine :
      s.at me ≡ leaving → IsMachine (moved me freed (lock_release s.lock) (s.cpus me) s)
  unfolding lock_release
  frees-IsMachine e = record {
    one = inl (refl, gone_from s me in_section freed refl (alone leaving e refl));
    owner = λ k. h.owner k ∙ sym (unseen s me is_inside freed (ap is_inside e) k);
    quiet = quiet_later s me (s.cpus me) freed h.quiet (still_quiet leaving freed e refl);
  }

pub Step-IsMachine : (me : ℕ) (s s' : Machine) → IsMachine s → Step me s s' → IsMachine s'
Step-IsMachine me s _ h (starts c e f) = starts-IsMachine s h me c e f
Step-IsMachine me s _ h (spins e f) = spins-IsMachine s h me e f
Step-IsMachine me s _ h (takes e f) = takes-IsMachine s h me e f
Step-IsMachine me s _ h (records e) = records-IsMachine s h me e
Step-IsMachine me s _ h (releases lk e f) = releases-IsMachine s h me lk e f
Step-IsMachine me s _ h (frees e) = frees-IsMachine s h me e
Step-IsMachine me s _ h (pops c e f) = pops-IsMachine s h me c e f
