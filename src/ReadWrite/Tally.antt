-- ===== src/ReadWrite/Tally.antt =====
-- numReaders and busyWriting count the processes that read and write.
use monitors_and_ipc.Prelude.{
  ℕ, suc, ◌+◌, ◌-◌, ◌≤◌, ◌≡◌, ◌∙◌, ◌⊎◌, inl, inr, refl, sym, ap, subst, Bool, true, false, ◌==◌,
  ==_refl, List, [], ◌∷◌, if◌then◌else◌, update, arith, Bool-cases, length,
}
use monitors_and_ipc.Pages.FreeList.{occ}
use monitors_and_ipc.ReadWrite.{
  Place, resting, reading, writing, enters_start_read, waits_start_read, signals_start_read,
  enters_stop_read, signals_stop_read, enters_start_write, waits_start_write, enters_stop_write,
  signals_stop_write,
}

-- The process is counted in numReaders.
abbrev pub is_reader : Place → Bool
is_reader reading = true
is_reader signals_start_read = true
is_reader enters_stop_read = true
is_reader resting = false
is_reader writing = false
is_reader enters_start_read = false
is_reader waits_start_read = false
is_reader signals_stop_read = false
is_reader enters_start_write = false
is_reader waits_start_write = false
is_reader enters_stop_write = false
is_reader signals_stop_write = false

abbrev pub is_writer : Place → Bool
is_writer writing = true
is_writer enters_stop_write = true
is_writer resting = false
is_writer reading = false
is_writer signals_start_read = false
is_writer enters_stop_read = false
is_writer enters_start_read = false
is_writer waits_start_read = false
is_writer signals_stop_read = false
is_writer enters_start_write = false
is_writer waits_start_write = false
is_writer signals_stop_write = false

-- `rs` are the readers, each once.
abbrev pub Readers : ℕ → (ℕ → Place) → Type 0
Readers n at =
    (rs : List ℕ) × (n ≡ length rs) × ((k : ℕ) → occ k rs ≡ (if is_reader (at k) then 1 else 0))

-- Nobody writes; or one process does, and nobody reads.
abbrev pub Writers : ℕ → Bool → (ℕ → Place) → Type 0
Writers n b at =
    (b ≡ false) × ((k : ℕ) → is_writer (at k) ≡ false)
    ⊎ (b ≡ true) × (n ≡ 0) × ((m : ℕ) × ((k : ℕ) → is_writer (at k) ≡ (m == k)))

pub record Tally (n : ℕ) (b : Bool) (at : ℕ → Place) : Type 0 where
  pub readers : Readers n at
  pub writers : Writers n b at

-- `rs` without one `y`.
without :
    (y : ℕ) (rs : List ℕ)
    → 1 ≤ occ y rs
    → (rs' : List ℕ) × (length rs ≡ suc (length rs'))
      × ((k : ℕ) → occ k rs ≡ (if k == y then 1 else 0) + occ k rs')
without y [] some_one = absurd (omega arith)
without y (r ∷ rs) some_one = elim (Bool-cases (y == r)) [
  | inl same ↦ (rs, refl, λ k. ground (arith, same))
  | inr off ↦
      let (rs', len, each) = without y rs (ground (arith, some_one, off)) in
      (r ∷ rs', ap suc len, λ k. omega (arith, each k))
]

occ-length : (y : ℕ) (rs : List ℕ) → occ y rs ≤ length rs
occ-length y [] = omega arith
occ-length y (r ∷ rs) = ground (arith, occ-length y rs)

module _ (n : ℕ) (b : Bool) (at : ℕ → Place) (t : Tally n b at) (pid : ℕ) where
  unseen :
      (f : Place → Bool) (x : Place) → f (at pid) ≡ f x → (k : ℕ) → f (update at pid x k) ≡ f (at k)
  unseen f x e k = elim (Bool-cases (pid == k)) [
    | inl same ↦ (let i : pid ≡ k = ground (arith, same) in rw same (sym e ∙ ap (λ j. f (at j)) i))
    | inr off ↦ rw off refl
  ]

  -- What holds of the process that moves, and of the others.
  split_at :
      (P : ℕ → Place → Type 0) (x : Place) (k : ℕ)
      → P pid x
      → ((pid == k) ≡ false → P k (at k))
      → P k (update at pid x k)
  split_at P x k here others = elim (Bool-cases (pid == k)) [
    | inl same ↦ (let i : pid ≡ k = ground (arith, same) in rw same (subst (λ j. P j x) i here))
    | inr off ↦ rw off (others off)
  ]

  kept_count : (x : Place) → is_reader (at pid) ≡ is_reader x → Readers n (update at pid x)
  kept_count x e =
      let (rs, len, each) = t.readers in (rs, len, λ k. rw (unseen is_reader x e k) (each k))

  kept_busy :
      (m : ℕ) (x : Place)
      → (b ≡ true → m ≡ n)
      → is_writer (at pid) ≡ is_writer x
      → Writers m b (update at pid x)
  kept_busy m x keep e = elim t.writers [
    | inl (f, nobody) ↦ inl (f, λ k. unseen is_writer x e k ∙ nobody k)
    | inr (f, empty, (w, only)) ↦ inr (f, keep f ∙ empty, (w, λ k. unseen is_writer x e k ∙ only k))
  ]

  pub same-Tally :
      (x : Place)
      → is_reader (at pid) ≡ is_reader x
      → is_writer (at pid) ≡ is_writer x
      → Tally n b (update at pid x)
  same-Tally x e f = record { readers = kept_count x e; writers = kept_busy n x (λ g. refl) f }

  -- A process that reads: there is a reader, and nobody writes.
  pub some_reader : is_reader (at pid) ≡ true → (1 ≤ n) × (b ≡ false)
  some_reader e =
      let (rs, len, each) = t.readers in
      let there : 1 ≤ occ pid rs = ground (arith, each pid, e) in
      let one : 1 ≤ n = omega (arith, len, occ-length pid rs) in
      (one, elim t.writers [ inl (f, _) ↦ f | inr (f, empty, _) ↦ absurd (omega arith) ])

  pub add-Tally :
      (x : Place)
      → b ≡ false
      → is_reader (at pid) ≡ false
      → is_writer (at pid) ≡ false
      → is_reader x ≡ true
      → is_writer x ≡ false
      → Tally (n + 1) b (update at pid x)
  add-Tally x idle e f e' f' =
      let (rs, len, each) = t.readers in
      record {
        readers = (
          pid ∷ rs,
          omega (arith, len),
          λ k.
              split_at (λ i y. occ i (pid ∷ rs) ≡ (if is_reader y then 1 else 0)) x k
                (rw e' (ground (arith, each pid, e, ==_refl pid)))
                (λ off. ground (arith, off, each k)),
        );
        writers = kept_busy (n + 1) x (λ g. absurd (ground (arith, g, idle))) (f ∙ sym f');
      }

  pub drop-Tally :
      (x : Place)
      → is_reader (at pid) ≡ true
      → is_writer (at pid) ≡ false
      → is_reader x ≡ false
      → is_writer x ≡ false
      → Tally (n - 1) b (update at pid x)
  drop-Tally x e f e' f' =
      let (rs, len, each) = t.readers in
      let (rs', len', each') = without pid rs (ground (arith, each pid, e)) in
      record {
        readers = (
          rs',
          omega (arith, len, len'),
          λ k.
              split_at (λ i y. occ i rs' ≡ (if is_reader y then 1 else 0)) x k
                (rw e' (ground (arith, each pid, each' pid, e, ==_refl pid)))
                (λ off. ground (arith, off, each k, each' k)),
        );
        writers =
            kept_busy (n - 1) x (λ g. absurd (ground (arith, g, (some_reader e).1))) (f ∙ sym f');
      }

  pub nobody_writes : b ≡ false → (k : ℕ) → is_writer (at k) ≡ false
  nobody_writes idle k = elim t.writers [
    | inl (f, nobody) ↦ nobody k
    | inr (f, _, _) ↦ absurd (ground (arith, f, idle))
  ]

  pub only_writer :
      is_writer (at pid) ≡ true → (k : ℕ) → (pid == k) ≡ false → is_writer (at k) ≡ false
  only_writer e k off = elim t.writers [
    | inl (f, nobody) ↦ nobody k
    | inr (f, empty, (m, only)) ↦ only k ∙ ground (arith, only pid, e, off)
  ]

  pub write-Tally :
      (x : Place)
      → b ≡ false
      → n ≡ 0
      → is_reader (at pid) ≡ false
      → is_reader x ≡ false
      → is_writer x ≡ true
      → Tally n true (update at pid x)
  write-Tally x idle empty e e' f' = record {
    readers = kept_count x (e ∙ sym e');
    writers = inr (
      refl,
      empty,
      (
        pid,
        λ k.
            split_at (λ i y. is_writer y ≡ (pid == i)) x k (f' ∙ sym (==_refl pid))
              (λ off. nobody_writes idle k ∙ sym off),
      ),
    );
  }

  pub unwrite-Tally :
      (x : Place)
      → is_writer (at pid) ≡ true
      → is_reader (at pid) ≡ false
      → is_reader x ≡ false
      → is_writer x ≡ false
      → Tally n false (update at pid x)
  unwrite-Tally x f e e' f' = record {
    readers = kept_count x (e ∙ sym e');
    writers =
        inl (refl, λ k. split_at (λ i y. is_writer y ≡ false) x k f' (λ off. only_writer f k off));
  }
