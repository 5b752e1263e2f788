-- ===== src/Journal/Room.antt =====
-- log_write, and the room that the operations still have in the log.
use monitors_and_ipc.Prelude.{
  ℕ, zero, suc, ◌+◌, ◌≡◌, ◌∙◌, ◌≤◌, ◌<◌, ◌⊎◌, inl, inr, refl, sym, ap, subst, false, ◌==◌, ==_refl,
  ltb, leb, update, if◌then◌else◌, arith, Bool-cases, some,
}
use monitors_and_ipc.Journal.{Log, Block, log_blocks, absorb, set_data, log_write}
use monitors_and_ipc.Journal.Replay.{IsData}

-- The block has a place in the log.
abbrev pub InLog : Log → ℕ → Type 0
InLog s b = (i : ℕ) × (i < s.n) × (s.block i ≡ b)

-- Either the block has its place, or the place is the next free one.
absorb_lem :
    (rounds i : ℕ) (block : ℕ → ℕ) (b : ℕ)
    → ((absorb rounds i block b < i + rounds) × (block (absorb rounds i block b) ≡ b))
      ⊎ ((absorb rounds i block b ≡ i + rounds)
          × ((j : ℕ) → i ≤ j → j < i + rounds → (block j == b) ≡ false))
unfolding absorb
absorb_lem zero i block b = inr (omega arith, λ j low high. absurd (omega (arith, low, high)))
absorb_lem (suc rounds) i block b = elim (Bool-cases (block i == b)) [
  | inl hit ↦ rw hit (inl (omega arith, ground (arith, hit)))
  | inr miss ↦ rw miss (elim (absorb_lem rounds (suc i) block b) [
    | inl (lt, e) ↦ inl (omega (arith, lt), e)
    | inr (e, off) ↦ inr (
      omega (arith, e),
      λ j low high. elim (Bool-cases (i == j)) [
        | inl same ↦
            (let f : i ≡ j = ground (arith, same) in subst (λ k. (block k == b) ≡ false) f miss)
        | inr other ↦ off j (ground (arith, low, other)) (omega (arith, high))
      ],
    )
  ])
]

-- `s'` is `s` after log_write of block `b`, whose contents are changed before.
pub record Written (b : ℕ) (words : Block) (s s' : Log) : Type 0 where
  pub same_start : s'.start ≡ s.start
  pub same_outstanding : s'.outstanding ≡ s.outstanding
  pub same_committing : s'.committing ≡ s.committing
  pub same_disk : s'.disk ≡ s.disk
  pub new_cache : s'.cache ≡ update s.cache b words
  pub one_more : s'.n ≤ s.n + 1
  pub absorbed : InLog s b → s'.n ≡ s.n
  pub stays : (x : ℕ) → InLog s x → InLog s' x
  pub is_there : InLog s' b
  pub outside :
      IsData s.start b
      → ((i : ℕ) → i < s.n → IsData s.start (s.block i))
      → (i : ℕ) → i < s'.n
      → IsData s.start (s'.block i)

abbrev put_at : (i b : ℕ) (words : Block) → Log → Log
put_at i b words s = record s {
  cache = update s.cache b words;
  block = update s.block i b;
  n = if i == s.n then s.n + 1 else s.n;
}

put_old :
    (i b : ℕ) (words : Block) (s : Log)
    → i < s.n
    → s.block i ≡ b
    → Written b words s (put_at i b words s)
put_old i b words s lt e =
    let off : (i == s.n) ≡ false = ground (arith, lt) in
    let n : (put_at i b words s).n ≡ s.n = rw off refl in
    let same : (j : ℕ) → update s.block i b j ≡ s.block j = λ j. elim (Bool-cases (i == j)) [
      | inl at ↦ rw at (sym e ∙ ap s.block (let f : i ≡ j = ground (arith, at) in f))
      | inr far ↦ rw far refl
    ] in
    record {
      same_start = refl;
      same_outstanding = refl;
      same_committing = refl;
      same_disk = refl;
      new_cache = refl;
      one_more = omega (arith, n);
      absorbed = λ there. n;
      stays = λ x (j, small, f). (j, omega (arith, n, small), same j ∙ f);
      is_there = (i, omega (arith, n, lt), same i ∙ e);
      outside =
          λ d h j small. subst (IsData s.start) (sym (same j)) (h j (omega (arith, small, n)));
    }

put_new :
    (b : ℕ) (words : Block) (s : Log)
    → ((j : ℕ) → j < s.n → (s.block j == b) ≡ false)
    → Written b words s (put_at s.n b words s)
put_new b words s off =
    let n : (put_at s.n b words s).n ≡ s.n + 1 = rw (==_refl s.n) refl in
    let old : (j : ℕ) → j < s.n → update s.block s.n b j ≡ s.block j =
      λ j small. (let far : (s.n == j) ≡ false = ground (arith, small) in rw far refl) in
    let new : update s.block s.n b s.n ≡ b = rw (==_refl s.n) refl in
    record {
      same_start = refl;
      same_outstanding = refl;
      same_committing = refl;
      same_disk = refl;
      new_cache = refl;
      one_more = omega (arith, n);
      absorbed = λ (j, small, e). absurd (ground (arith, off j small, e));
      stays = λ x (j, small, f). (j, omega (arith, n, small), old j small ∙ f);
      is_there = (s.n, omega (arith, n), new);
      outside = λ d h j small. elim (Bool-cases (j == s.n)) [
        | inl last ↦
            let f : j ≡ s.n = ground (arith, last) in
            subst (IsData s.start) (sym (ap (update s.block s.n b) f ∙ new)) d
        | inr before ↦
            let lt : j < s.n = ground (arith, before, small, n) in
            subst (IsData s.start) (sym (old j lt)) (h j lt)
      ];
    }

-- With room in the log and an operation under way, log_write does not panic.
pub log_write_lem :
    (b : ℕ) (words : Block) (s : Log)
    → s.n < log_blocks
    → 1 ≤ s.outstanding
    → (s' : Log) × (log_write b (set_data b words s) ≡ some s') × Written b words s s'
unfolding log_write
log_write_lem b words s small busy =
    let off : leb log_blocks s.n ≡ false = ground (arith, small) in
    let on : ltb s.outstanding 1 ≡ false = ground (arith, busy) in
    let i = absorb s.n 0 s.block b in
    (
      put_at i b words s,
      rw (off, on) refl,
      elim (absorb_lem s.n 0 s.block b) [
        | inl (lt, e) ↦ put_old i b words s (omega (arith, lt)) e
        | inr (e, miss) ↦
            subst (λ k. Written b words s (put_at k b words s))
              (let f : s.n ≡ i = omega (arith, e) in f)
              (put_new b words s (λ j lt. miss j (omega arith) (omega (arith, lt))))
      ],
    )
