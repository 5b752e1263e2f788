-- ===== src/Journal/Clear.antt =====
-- install_trans and the erasing of the header, whenever the machine stops.
use monitors_and_ipc.Prelude.{
  ℕ, suc, ◌+◌, ◌≡◌, ◌∙◌, ◌≤◌, ◌<◌, inl, inr, refl, sym, ap, subst, false, ◌==◌, leb, arith,
  Bool-cases,
}
use monitors_and_ipc.Journal.{Block, log_blocks, Log, install_trans, write_head}
use monitors_and_ipc.Journal.Replay.{
  IsData, replay, replay_done, replay_cong, replay_again, replay_enough,
}
use monitors_and_ipc.Journal.Install.{slot, Installed, install_lem}
use monitors_and_ipc.Journal.Header.{header, header_n, HeadWritten, write_head_lem}

-- The log on the disk names at most 30 blocks, none of its own.
abbrev pub IsHeader : ℕ → Block → Type 0
IsHeader start words =
    (words 0 ≤ log_blocks) × ((i : ℕ) → i < words 0 → IsData start (words (suc i)))

-- What recovery makes of block `b`.
abbrev pub view : ℕ → (ℕ → Block) → ℕ → Block
view start disk b =
    replay (λ i. disk start (suc i)) (λ i. disk (start + i + 1)) b (disk start 0) (disk start 0) 0
      (disk b)

pub view_empty :
    (start : ℕ) (disk : ℕ → Block) (b : ℕ) → disk start 0 ≡ 0 → view start disk b ≡ disk b
view_empty start disk b e = rw e (replay_done _ _ b 0 0 (disk b))

pub off_start : (start b : ℕ) → IsData start b → (start == b) ≡ false
off_start start b (inl lt) = ground arith
off_start start b (inr lt) = ground arith

-- Blocks of the log that are installed already make no difference.
pub view_installed :
    (start : ℕ) (disk disk' : ℕ → Block) (b p : ℕ)
    → disk start 0 ≤ log_blocks
    → disk' start ≡ disk start
    → ((i : ℕ) → i < log_blocks → disk' (start + i + 1) ≡ disk (start + i + 1))
    → disk' b
      ≡ replay (λ i. disk start (suc i)) (λ i. disk (start + i + 1)) b p (disk start 0) 0 (disk b)
    → view start disk' b ≡ view start disk b
view_installed start disk disk' b p small same slots e =
    let n = disk start 0 in
    ap (λ h. replay (λ i. h (suc i)) (λ i. disk' (start + i + 1)) b (h 0) (h 0) 0 (disk' b)) same
    ∙ replay_cong _ _ _ _ b n n 0 (disk' b) (λ i low high. refl)
        (λ i low high. slots i (omega (arith, high, small)))
    ∙ ap (replay (λ i. disk start (suc i)) (λ i. disk (start + i + 1)) b n n 0) e
    ∙ replay_again _ _ b n 0 p n (disk b) (omega arith)

-- The header in memory is the one on the disk, and so are the blocks of the log.
pub record IsLoaded (start : ℕ) (s : Log) : Type 0 where
  pub small : s.n ≤ log_blocks
  pub outside : (i : ℕ) → i < s.n → IsData start (s.block i)
  pub head_n : s.disk start 0 ≡ s.n
  pub head_block : (i : ℕ) → i < s.n → s.disk start (suc i) ≡ s.block i
  pub slots : (i : ℕ) → i < s.n → s.cache (start + i + 1) ≡ s.disk (start + i + 1)

-- `s'` is `s` after install_trans and the erasing of the header.
pub record Cleared (start : ℕ) (s s' : Log) : Type 0 where
  pub same_start : s'.start ≡ start
  pub no_n : s'.n ≡ 0
  pub sound : IsHeader start (s'.disk start)
  pub same_view : (b : ℕ) → IsData start b → view start s'.disk b ≡ view start s.disk b
  pub empty : s.n < s.power → s'.disk start 0 ≡ 0
  pub data_cache :
      (b : ℕ)
      → IsData start b
      → s'.cache b ≡ replay s.block (λ i. s.cache (start + i + 1)) b s.n s.n 0 (s.cache b)

module _ (s s2 s' : Log) (h : IsLoaded s.start s) (ins : Installed s.n 0 s s2)
    (w : HeadWritten s.start (record s2 { n = 0 }) s')
    (head_zero : header (record s2 { n = 0 }) 0 ≡ 0) where
  -- What the log in memory holds is what it holds on the disk.
  as_on_disk :
      (b p : ℕ) (x : Block)
      → replay s.block (slot s) b p s.n 0 x
        ≡ replay
            (λ i. s.disk s.start (suc i))
            (λ i. s.disk (s.start + i + 1))
            b
            p
            (s.disk s.start 0)
            0
            x
  as_on_disk b p x =
      replay_cong _ _ _ _ b p s.n 0 x (λ i low high. sym (h.head_block i (omega (arith, high))))
        (λ i low high. h.slots i (omega (arith, high)))
      ∙ ap (λ n. replay (λ i. s.disk s.start (suc i)) (λ i. s.disk (s.start + i + 1)) b p n 0 x)
          (sym h.head_n)

  data_after :
      (b : ℕ)
      → IsData s.start b
      → s'.disk b
        ≡ replay
            (λ i. s.disk s.start (suc i))
            (λ i. s.disk (s.start + i + 1))
            b
            s.power
            (s.disk s.start 0)
            0
            (s.disk b)
  data_after b d =
      w.disk_else b (off_start s.start b d) ∙ ins.data_disk b d ∙ as_on_disk b s.power (s.disk b)

  head_stopped : s.power ≤ s.n → s'.disk s.start ≡ s.disk s.start
  head_stopped le =
      w.disk_stopped (ins.less_power ∙ (omega (arith, le)))
      ∙ ins.log_disk s.start (omega arith) (omega arith)

  head_empty : s.n < s.power → s'.disk s.start 0 ≡ 0
  head_empty lt =
      ap (λ words. words 0) (w.disk_head (omega (arith, lt, ins.less_power))) ∙ head_zero

  view_after : (b : ℕ) → IsData s.start b → view s.start s'.disk b ≡ view s.start s.disk b
  view_after b d = elim (Bool-cases (leb s.power s.n)) [
    | inl stopped ↦
        view_installed s.start s.disk s'.disk b s.power (omega (arith, h.small, h.head_n))
          (head_stopped (ground (arith, stopped)))
          (λ i lt.
            w.disk_else (s.start + i + 1) (ground arith)
            ∙ ins.log_disk (s.start + i + 1) (omega arith) (omega (arith, lt)))
          (data_after b d)
    | inr done ↦
        view_empty s.start s'.disk b (head_empty (ground (arith, done)))
        ∙ data_after b d
        ∙ replay_enough _ _ b _ 0 s.power _ (s.disk b) (ground (arith, done, h.head_n))
            (omega arith)
  ]

  sound_after : IsHeader s.start (s'.disk s.start)
  sound_after = elim (Bool-cases (leb s.power s.n)) [
    | inl stopped ↦ subst (IsHeader s.start) (sym (head_stopped (ground (arith, stopped)))) (
      omega (arith, h.small, h.head_n),
      λ i lt.
          subst (IsData s.start) (sym (h.head_block i (omega (arith, lt, h.head_n))))
            (h.outside i (omega (arith, lt, h.head_n))),
    )
    | inr done ↦ (
      omega (arith, head_empty (ground (arith, done))),
      λ i lt. absurd (omega (arith, lt, head_empty (ground (arith, done)))),
    )
  ]

  done-Cleared : Cleared s.start s s'
  done-Cleared = record {
    same_start = w.same_start;
    no_n = w.same_n;
    sound = sound_after;
    same_view = view_after;
    empty = head_empty;
    data_cache = λ b d. w.cache_else b (off_start s.start b d) ∙ ins.data_cache b d;
  }

-- What commit and recovery end with.
abbrev pub install_and_clear : Log → Log
install_and_clear s = write_head (record (install_trans s) { n = 0 })

pub install_and_clear_lem : (s : Log) → IsLoaded s.start s → Cleared s.start s (install_and_clear s)
install_and_clear_lem s h =
    let s2 = install_trans s in
    let ins : Installed s.n 0 s s2 =
      install_lem s.n 0 s.power s (λ i low high. h.outside i (omega (arith, high)))
        (omega (arith, h.small)) in
    let w = write_head_lem s.start (record s2 { n = 0 }) ins.same_start in
    done-Cleared s s2 (install_and_clear s) h ins w (header_n (record s2 { n = 0 }))

pub cleared_lem :
    (start : ℕ) (s : Log)
    → s.start ≡ start
    → IsLoaded start s
    → Cleared start s (install_and_clear s)
cleared_lem start s e =
    subst (λ t. IsLoaded t s → Cleared t s (install_and_clear s)) e (install_and_clear_lem s)

-- With no power left, nothing is written.
stopped_at :
    (s : Log)
    → s.n ≤ log_blocks
    → ((i : ℕ) → i < s.n → IsData s.start (s.block i))
    → s.power ≡ 0
    → ((install_and_clear s).start ≡ s.start)
      × ((install_and_clear s).n ≡ 0)
      × ((install_and_clear s).disk s.start ≡ s.disk s.start)
      × ((b : ℕ) → IsData s.start b → (install_and_clear s).disk b ≡ s.disk b)
unfolding replay
stopped_at s small outside e =
    let s2 = install_trans s in
    let ins : Installed s.n 0 s s2 =
      install_lem s.n 0 s.power s (λ i low high. outside i (omega (arith, high)))
        (omega (arith, small)) in
    let w = write_head_lem s.start (record s2 { n = 0 }) ins.same_start in
    (
      w.same_start,
      w.same_n,
      w.disk_stopped (omega (arith, ins.less_power, e))
          ∙ ins.log_disk s.start (omega arith) (omega arith),
      λ b d.
          w.disk_else b (off_start s.start b d)
          ∙ ins.data_disk b d
          ∙ ap (λ p. replay s.block (slot s) b p s.n 0 (s.disk b)) e,
    )

pub stopped_lem :
    (start : ℕ) (s : Log)
    → s.start ≡ start
    → s.n ≤ log_blocks
    → ((i : ℕ) → i < s.n → IsData start (s.block i))
    → s.power ≡ 0
    → ((install_and_clear s).start ≡ start)
      × ((install_and_clear s).n ≡ 0)
      × ((install_and_clear s).disk start ≡ s.disk start)
      × ((b : ℕ) → IsData start b → (install_and_clear s).disk b ≡ s.disk b)
stopped_lem start s e small =
    subst
      (λ t.
        ((i : ℕ) → i < s.n → IsData t (s.block i))
        → s.power ≡ 0
        → ((install_and_clear s).start ≡ t)
          × ((install_and_clear s).n ≡ 0)
          × ((install_and_clear s).disk t ≡ s.disk t)
          × ((b : ℕ) → IsData t b → (install_and_clear s).disk b ≡ s.disk b))
      e (stopped_at s small)
