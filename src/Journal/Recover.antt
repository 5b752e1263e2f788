-- ===== src/Journal/Recover.antt =====
-- Recovery, whenever the machine stops again.
use monitors_and_ipc.Prelude.{ℕ, suc, ◌≡◌, ◌∙◌, ◌<◌, refl, sym, subst, false, arith, List, [], ◌∷◌}
use monitors_and_ipc.Journal.{Log, read_head, recover_from_log, initlog}
use monitors_and_ipc.Journal.Replay.{IsData, replay_cong}
use monitors_and_ipc.Journal.Header.{load_loop_lem}
use monitors_and_ipc.Journal.Clear.{IsHeader, view, cleared_lem}

-- `s'` is `s` after a start with so much power.
pub record Recovered (power start : ℕ) (s s' : Log) : Type 0 where
  pub same_start : s'.start ≡ start
  pub no_n : s'.n ≡ 0
  pub sound : IsHeader start (s'.disk start)
  pub same_view : (b : ℕ) → IsData start b → view start s'.disk b ≡ view start s.disk b
  pub empty : s.disk start 0 < power → s'.disk start 0 ≡ 0
  pub data_cache : (b : ℕ) → IsData start b → s'.cache b ≡ view start s.disk b

pub initlog_lem :
    (power : ℕ) (s : Log)
    → IsHeader s.start (s.disk s.start)
    → Recovered power s.start s (initlog power s)
unfolding initlog recover_from_log
initlog_lem power s (small, outside) =
    let start = s.start in
    let n = s.disk start 0 in
    let r = read_head (record s {
      outstanding = 0;
      committing = false;
      n = 0;
      block = λ i. 0;
      cache = s.disk;
      power = power;
    }) in
    let loaded : (i : ℕ) → i < n → r.block i ≡ s.disk start (suc i) =
      λ i lt. load_loop_lem n 0 (s.disk start) (λ i. 0) i (omega arith) (omega (arith, lt)) in
    let c = cleared_lem start r refl (record {
      small = small;
      outside = λ i lt. subst (IsData start) (sym (loaded i lt)) (outside i lt);
      head_n = refl;
      head_block = λ i lt. sym (loaded i lt);
      slots = λ i lt. refl;
    }) in
    record {
      same_start = c.same_start;
      no_n = c.no_n;
      sound = c.sound;
      same_view = c.same_view;
      empty = c.empty;
      data_cache = λ b d.
          c.data_cache b d
          ∙ replay_cong _ _ _ _ b n n 0 (s.disk b) (λ i low high. loaded i (omega (arith, high)))
              (λ i low high. refl);
    }

pub initlog_at :
    (power : ℕ) (s : Log) (start : ℕ)
    → s.start ≡ start
    → IsHeader start (s.disk start)
    → Recovered power start s (initlog power s)
initlog_at power s start e =
    subst (λ t. IsHeader t (s.disk t) → Recovered power t s (initlog power s)) e
      (initlog_lem power s)

-- Starts that are cut off after so many written blocks, the first of them last in the list.
unfoldable pub cut_off : List ℕ → Log → Log
cut_off [] s = s
cut_off (power ∷ powers) s = initlog power (cut_off powers s)

pub cut_off_lem :
    (powers : List ℕ) (s : Log)
    → IsHeader s.start (s.disk s.start)
    → ((cut_off powers s).start ≡ s.start)
      × IsHeader s.start ((cut_off powers s).disk s.start)
      × ((b : ℕ)
          → IsData s.start b
          → view s.start (cut_off powers s).disk b ≡ view s.start s.disk b)
unfolding cut_off
cut_off_lem [] s h = (refl, h, λ b d. refl)
cut_off_lem (power ∷ powers) s h =
    let (same, sound, views) = cut_off_lem powers s h in
    let t = cut_off powers s in
    let r = initlog_at power t s.start same sound in
    (r.same_start, r.sound, λ b d. r.same_view b d ∙ views b d)
