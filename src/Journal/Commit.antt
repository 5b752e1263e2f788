-- ===== src/Journal/Commit.antt =====
-- commit, whenever the machine stops.
use monitors_and_ipc.Prelude.{
  ℕ, suc, ◌+◌, ◌≡◌, ◌∙◌, ◌≤◌, ◌<◌, ◌⊎◌, inl, inr, refl, sym, ap, subst, ltb, arith, Bool-cases,
}
use monitors_and_ipc.Journal.{log_blocks, Log, write_head}
use monitors_and_ipc.Journal.Replay.{IsData}
use monitors_and_ipc.Journal.Header.{header, header_n, HeadWritten, write_head_lem}
use monitors_and_ipc.Journal.{commit, write_log}
use monitors_and_ipc.Journal.Replay.{replay_value}
use monitors_and_ipc.Journal.WriteLog.{Logged, log_lem}
use monitors_and_ipc.Journal.Header.{header_block}
use monitors_and_ipc.Journal.Clear.{
  IsHeader, view, view_empty, off_start, IsLoaded, install_and_clear, cleared_lem, stopped_lem,
}

-- Before a commit: the log on the disk is empty, and a block that differs in the cache is in the log.
pub record IsPending (s : Log) : Type 0 where
  pub small : s.n ≤ log_blocks
  pub outside : (i : ℕ) → i < s.n → IsData s.start (s.block i)
  pub empty : s.disk s.start 0 ≡ 0
  pub pinned :
      (b : ℕ) → IsData s.start b → (s.disk b ≡ s.cache b) ⊎ ((i : ℕ) × (i < s.n) × (s.block i ≡ b))

-- `s'` is `s` after a commit.
pub record Committed (s s' : Log) : Type 0 where
  pub same_start : s'.start ≡ s.start
  pub sound : IsHeader s.start (s'.disk s.start)
  pub lost : s.power ≤ s.n → (b : ℕ) → IsData s.start b → view s.start s'.disk b ≡ s.disk b
  pub kept : s.n < s.power → (b : ℕ) → IsData s.start b → view s.start s'.disk b ≡ s.cache b
  pub no_n : s'.n ≡ 0
  pub empty : s.n + s.n + 1 < s.power → s'.disk s.start 0 ≡ 0
  pub same_cache : s.n < s.power → (b : ℕ) → IsData s.start b → s'.cache b ≡ s.cache b

-- The log is written, and then the header.
abbrev logged : Log → Log
logged s = write_head (write_log s)

module _ (s s1 : Log) (h : IsPending s) (l : Logged s.n 0 s s1)
    (w : HeadWritten s.start s1 (write_head s1)) where
  logged_empty : s.power ≤ s.n → (write_head s1).disk s.start ≡ s.disk s.start
  logged_empty le =
      w.disk_stopped (omega (arith, l.less_power, le))
      ∙ l.before_disk s.start (omega arith) (omega arith)

  logged_n : (write_head s1).n ≡ s.n
  logged_n = w.same_n ∙ l.same_n

  logged_block : (i : ℕ) → (write_head s1).block i ≡ s.block i
  logged_block i = ap (λ block. block i) (w.same_block ∙ l.same_block)

  logged_head : s.n < s.power → (write_head s1).disk s.start ≡ header s1
  logged_head lt = w.disk_head (omega (arith, l.less_power, lt))

  logged_slot :
      s.n < s.power
      → (i : ℕ) → i < s.n
      → (write_head s1).disk (s.start + i + 1) ≡ s.cache (s.block i)
  logged_slot lt i small =
      w.disk_else (s.start + i + 1) (ground arith)
      ∙ l.log_disk i (omega arith) (omega (arith, small)) (omega (arith, lt))

  logged_cache : (i : ℕ) → i < s.n → (write_head s1).cache (s.start + i + 1) ≡ s.cache (s.block i)
  logged_cache i small =
      w.cache_else (s.start + i + 1) (ground arith)
      ∙ l.log_cache i (omega arith) (omega (arith, small))

  logged_small : (write_head s1).n ≤ log_blocks
  logged_small = omega (arith, logged_n, h.small)

  logged_outside : (i : ℕ) → i < (write_head s1).n → IsData s.start ((write_head s1).block i)
  logged_outside i small =
      subst (IsData s.start) (sym (logged_block i)) (h.outside i (omega (arith, small, logged_n)))

  logged-IsLoaded : s.n < s.power → IsLoaded s.start (write_head s1)
  logged-IsLoaded lt = record {
    small = logged_small;
    outside = logged_outside;
    head_n = ap (λ words. words 0) (logged_head lt) ∙ header_n s1 ∙ sym w.same_n;
    head_block = λ i small.
        ap (λ words. words (suc i)) (logged_head lt)
        ∙ header_block s1 i (omega (arith, small, w.same_n))
        ∙ sym (ap (λ block. block i) w.same_block);
    slots = λ i small.
        logged_cache i (omega (arith, small, logged_n))
        ∙ sym (logged_slot lt i (omega (arith, small, logged_n)));
  }

  logged_view :
      s.n < s.power → (b : ℕ) → IsData s.start b → view s.start (write_head s1).disk b ≡ s.cache b
  logged_view lt b d =
      let n : (write_head s1).disk s.start 0 ≡ s.n =
        ap (λ words. words 0) (logged_head lt) ∙ header_n s1 ∙ l.same_n in
      let block : (i : ℕ) → i < s.n → (write_head s1).disk s.start (suc i) ≡ s.block i = λ i small.
        (logged-IsLoaded lt).head_block i (omega (arith, small, logged_n)) ∙ logged_block i in
      replay_value _ _ b _ _ 0 _ (s.cache b) (omega arith)
        (λ i low high e.
          logged_slot lt i (omega (arith, high, n))
          ∙ ap s.cache (sym (block i (omega (arith, high, n))) ∙ e))
        (elim (h.pinned b d) [
          | inl same ↦ inl (w.disk_else b (off_start s.start b d) ∙ l.data_disk b d ∙ same)
          | inr (i, small, e) ↦ inr (i, omega arith, omega (arith, small, n), block i small ∙ e)
        ])

  cache_after :
      s.n < s.power
      → (b : ℕ) → IsData s.start b
      → (install_and_clear (write_head s1)).cache b ≡ s.cache b
  cache_after lt b d =
      (cleared_lem s.start (write_head s1) w.same_start (logged-IsLoaded lt)).data_cache b d
      ∙ replay_value _ _ b _ _ 0 _ (s.cache b) (omega arith)
          (λ i low high e.
            logged_cache i (omega (arith, high, logged_n)) ∙ ap s.cache (sym (logged_block i) ∙ e))
          (inl (w.cache_else b (off_start s.start b d) ∙ l.data_cache b d))

  enough-Committed : s.n < s.power → Committed s (install_and_clear (write_head s1))
  enough-Committed lt =
      let c = cleared_lem s.start (write_head s1) w.same_start (logged-IsLoaded lt) in
      record {
        same_start = c.same_start;
        sound = c.sound;
        lost = λ le. absurd (omega (arith, le, lt));
        kept = λ lt' b d. c.same_view b d ∙ logged_view lt b d;
        no_n = c.no_n;
        empty = λ all. c.empty (omega (arith, all, logged_n, w.less_power, l.less_power));
        same_cache = λ lt' b d. cache_after lt b d;
      }

  short-Committed : s.power ≤ s.n → Committed s (install_and_clear (write_head s1))
  short-Committed le =
      let (same, no_n, head, rest) =
        stopped_lem s.start (write_head s1) w.same_start logged_small logged_outside
          (omega (arith, w.less_power, l.less_power, le)) in
      let e = head ∙ logged_empty le in
      let zero_n = ap (λ words. words 0) e ∙ h.empty in
      record {
        same_start = same;
        sound = (omega (arith, zero_n), λ i small. absurd (omega (arith, small, zero_n)));
        lost = λ le' b d.
            view_empty s.start (install_and_clear (write_head s1)).disk b zero_n
            ∙ rest b d
            ∙ w.disk_else b (off_start s.start b d)
            ∙ l.data_disk b d;
        kept = λ lt. absurd (omega (arith, le, lt));
        no_n = no_n;
        empty = λ all. zero_n;
        same_cache = λ lt. absurd (omega (arith, le, lt));
      }

pinned_none : (s : Log) (b : ℕ) → IsPending s → IsData s.start b → s.n ≡ 0 → s.disk b ≡ s.cache b
pinned_none s b h d e = elim (h.pinned b d) [
  | inl same ↦ same
  | inr (i, small, f) ↦ absurd (omega (arith, small, e))
]

empty-Committed : (s : Log) → IsPending s → s.n ≡ 0 → Committed s s
empty-Committed s h e = record {
  same_start = refl;
  sound = (omega (arith, h.empty), λ i small. absurd (omega (arith, small, h.empty)));
  lost = λ le b d. view_empty s.start s.disk b h.empty;
  kept = λ lt b d. view_empty s.start s.disk b h.empty ∙ pinned_none s b h d e;
  no_n = e;
  empty = λ all. h.empty;
  same_cache = λ lt b d. refl;
}

pub commit_lem : (s : Log) → IsPending s → Committed s (commit s)
unfolding commit
commit_lem s h =
    let s1 = write_log s in
    let l : Logged s.n 0 s s1 =
      log_lem s.n 0 s.power s (λ i low high. h.outside i (omega (arith, high)))
        (omega (arith, h.small)) in
    let w = write_head_lem s.start s1 l.same_start in
    elim (Bool-cases (ltb 0 s.n)) [
      | inr none_there ↦ rw none_there (empty-Committed s h (ground (arith, none_there)))
      | inl some_n ↦ rw some_n (elim (Bool-cases (ltb s.n s.power)) [
        | inl lt ↦ enough-Committed s s1 h l w (ground (arith, lt))
        | inr le ↦ short-Committed s s1 h l w (ground (arith, le))
      ])
    ]
