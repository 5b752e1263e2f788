-- ===== src/Journal/Good.antt =====
-- What holds of the log whenever it is used.
use monitors_and_ipc.Prelude.{
  ℕ, ◌+◌, ◌*◌, ◌≡◌, ◌∙◌, ◌≤◌, ◌<◌, ◌⊎◌, inl, inr, refl, sym, ap, subst, true, ◌==◌, ltb, arith,
  Bool-cases, List, [], ◌∷◌, ◌++◌, length, length-append, Option, none, some, All,
}
use mathlib.Core.Option.{some-injective}
use monitors_and_ipc.Journal.{Log, Block, log_blocks, max_op_blocks, begin_op, initlog}
use monitors_and_ipc.Journal.Replay.{IsData}
use monitors_and_ipc.Journal.Clear.{IsHeader, view_empty}
use monitors_and_ipc.Journal.Recover.{initlog_at}
use monitors_and_ipc.Journal.Commit.{IsPending}
use monitors_and_ipc.Journal.Calls.{initlog-calls}
use monitors_and_ipc.Journal.Room.{InLog, Written}
use monitors_and_ipc.Journal.Runs.{is_in, wrote}
use monitors_and_ipc.Journal.Active.{room, room_le, room_at, All-at, All-put}

abbrev pub Covers : Log → List ℕ → Type 0
Covers s bs = (b : ℕ) → is_in b bs ≡ true → InLog s b

pub record IsGood (start : ℕ) (s : Log) (ops : List (List ℕ)) : Type 0 where
  pub same_start : s.start ≡ start
  pub pending : IsPending s
  pub active : s.outstanding ≡ length ops
  pub idle : s.committing ≡ true → s.outstanding ≡ 0
  pub fits : s.n + room ops ≤ log_blocks
  pub covered : All (Covers s) ops

pub start-IsPending :
    (s : Log) (start : ℕ)
    → s.start ≡ start
    → s.n ≤ log_blocks
    → ((i : ℕ) → i < s.n → IsData start (s.block i))
    → s.disk start 0 ≡ 0
    → ((b : ℕ) → IsData start b → (s.disk b ≡ s.cache b) ⊎ InLog s b)
    → IsPending s
start-IsPending s start e small =
    subst
      (λ t.
        ((i : ℕ) → i < s.n → IsData t (s.block i))
        → s.disk t 0 ≡ 0
        → ((b : ℕ) → IsData t b → (s.disk b ≡ s.cache b) ⊎ InLog s b)
        → IsPending s)
      e (λ o z p. record { small = small; outside = o; empty = z; pinned = p })

pub at_start : (s : Log) (start b : ℕ) → s.start ≡ start → IsData start b → IsData s.start b
at_start s start b e d = subst (λ t. IsData t b) (sym e) d

-- After a start with enough power, the log is empty, and the cache is the disk.
pub booted-IsGood :
    (start power : ℕ) (s : Log)
    → s.start ≡ start
    → IsHeader start (s.disk start)
    → log_blocks < power
    → IsGood start (initlog power s) []
booted-IsGood start power s e h enough =
    let r = initlog_at power s start e h in
    let zero_n = r.empty (omega (arith, h.0, enough)) in
    let calls = initlog-calls power s in
    record {
      same_start = r.same_start;
      pending =
          start-IsPending (initlog power s) start r.same_start (omega (arith, r.no_n))
            (λ i small. absurd (omega (arith, small, r.no_n))) zero_n
            (λ b d. inl (
              sym (view_empty start (initlog power s).disk b zero_n)
              ∙ r.same_view b d
              ∙ sym (r.data_cache b d)));
      active = ap (λ c. c.0) calls;
      idle = λ on. ap (λ c. c.0) calls;
      fits = omega (arith, r.no_n);
      covered = tt;
    }

pub never : {s : Log} → ◌≡◌ {A = Option Log} none (some s) → ⊥
never e = cc

never_in : (b : ℕ) → is_in b [] ≡ true → ⊥
unfolding is_in
never_in b e = cc

pub begun-IsGood :
    (start : ℕ) (s s' : Log) (ops : List (List ℕ))
    → IsGood start s ops
    → begin_op s ≡ some s'
    → IsGood start s' ([] ∷ ops)
unfolding begin_op
begun-IsGood start s s' ops h e = elim (Bool-cases s.committing) [
  | inl busy ↦ absurd (never (rw busy at e))
  | inr free ↦ elim (Bool-cases (ltb log_blocks (s.n + (s.outstanding + 1) * max_op_blocks))) [
    | inl full ↦ absurd (never (rw (free, full) at e))
    | inr fit ↦
        subst (λ t. IsGood start t ([] ∷ ops)) (some-injective _ s' (rw (free, fit) at e))
          (record {
            same_start = h.same_start;
            pending = record {
              small = h.pending.small;
              outside = h.pending.outside;
              empty = h.pending.empty;
              pinned = h.pending.pinned;
            };
            active = omega (arith, h.active);
            idle = λ busy. absurd (ground (arith, busy, free));
            fits =
                (let lt : s.n + (s.outstanding + 1) * 10 ≤ 30 = ground (arith, fit) in
                  omega (arith, lt, room_le ops, h.active));
            covered = (λ b there. absurd (never_in b there), h.covered);
          })
  ]
]

wrote_pinned :
    (s s' : Log) (b x : ℕ) (words : Block)
    → Written b words s s'
    → (s.disk x ≡ s.cache x) ⊎ InLog s x
    → (s'.disk x ≡ s'.cache x) ⊎ InLog s' x
wrote_pinned s s' b x words w before = elim (Bool-cases (b == x)) [
  | inl same ↦ inr (subst (InLog s') (let e : b ≡ x = ground (arith, same) in e) w.is_there)
  | inr far ↦ elim before [
    | inl e ↦ inl (
        ap (λ disk. disk x) w.same_disk ∙ e ∙ sym (ap (λ cache. cache x) w.new_cache ∙ rw far refl))
    | inr there ↦ inr (w.stays x there)
  ]
]

wrote_covered :
    (s s' : Log) (b : ℕ) (words : Block) (bs : List ℕ)
    → Written b words s s'
    → Covers s bs
    → Covers s' (wrote b bs)
unfolding is_in
wrote_covered s s' b words bs w cov = elim (Bool-cases (is_in b bs)) [
  | inl old ↦ rw old (λ x there. w.stays x (cov x there))
  | inr new ↦ rw new (λ x there. elim (Bool-cases (b == x)) [
    | inl same ↦ subst (InLog s') (let e : b ≡ x = ground (arith, same) in e) w.is_there
    | inr far ↦ w.stays x (cov x (rw far at there))
  ])
]

wrote_fits :
    (start : ℕ) (s s' : Log) (before after : List (List ℕ)) (bs : List ℕ) (b : ℕ) (words : Block)
    → IsGood start s (before ++ bs ∷ after)
    → length (wrote b bs) ≤ max_op_blocks
    → Written b words s s'
    → s'.n + room (before ++ wrote b bs ∷ after) ≤ log_blocks
wrote_fits start s s' before after bs b words h small w = elim (Bool-cases (is_in b bs)) [
  | inl old ↦
      rw old (omega (arith, h.fits, w.absorbed (All-at (Covers s) before after bs h.covered b old)))
  | inr new ↦
      let le : length (b ∷ bs) ≤ 10 = rw new at small in
      rw new (
        omega
          (arith, le, h.fits, w.one_more, room_at before after bs, room_at before after (b ∷ bs)))
]

pub wrote-IsGood :
    (start : ℕ) (s s' : Log) (before after : List (List ℕ)) (bs : List ℕ) (b : ℕ) (words : Block)
    → IsGood start s (before ++ bs ∷ after)
    → IsData start b
    → length (wrote b bs) ≤ max_op_blocks
    → Written b words s s'
    → IsGood start s' (before ++ wrote b bs ∷ after)
wrote-IsGood start s s' before after bs b words h d small w =
    let fits' : s'.n + room (before ++ wrote b bs ∷ after) ≤ log_blocks =
      wrote_fits start s s' before after bs b words h small w in
    record {
      same_start = w.same_start ∙ h.same_start;
      pending =
          start-IsPending s' start (w.same_start ∙ h.same_start) (omega (arith, fits'))
            (λ i lt.
              subst (λ t. IsData t (s'.block i)) h.same_start
                (w.outside (at_start s start b h.same_start d) h.pending.outside i lt))
            (ap (λ disk. disk start 0) w.same_disk
              ∙ subst (λ t. s.disk t 0 ≡ 0) h.same_start h.pending.empty)
            (λ x dx.
              wrote_pinned s s' b x words w
                (h.pending.pinned x (at_start s start x h.same_start dx)));
      active = omega (
        arith,
        w.same_outstanding,
        h.active,
        length-append before (bs ∷ after),
        length-append before (wrote b bs ∷ after),
      );
      idle = λ on. w.same_outstanding ∙ h.idle (sym w.same_committing ∙ on);
      fits = fits';
      covered =
          All-put before after bs (wrote b bs) (λ xs cov x there. w.stays x (cov x there)) h.covered
            (wrote_covered s s' b words bs w (All-at (Covers s) before after bs h.covered));
    }
