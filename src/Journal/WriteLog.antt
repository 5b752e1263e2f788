-- ===== src/Journal/WriteLog.antt =====
-- The loop of write_log, whenever the machine stops.
use monitors_and_ipc.Prelude.{
  ℕ, zero, suc, ◌+◌, ◌-◌, ◌≡◌, ◌∙◌, ◌≤◌, ◌<◌, inl, inr, refl, false, ◌==◌, ==_refl, update, arith,
  Bool-cases,
}
use monitors_and_ipc.Journal.{Block, log_blocks, Log, set_data, log_loop}
use monitors_and_ipc.Journal.Replay.{IsData}

-- `s'` is `s` after `rounds` rounds of write_log from `tail`.
pub record Logged (rounds tail : ℕ) (s s' : Log) : Type 0 where
  pub same_start : s'.start ≡ s.start
  pub same_n : s'.n ≡ s.n
  pub same_block : s'.block ≡ s.block
  pub less_power : s'.power ≡ s.power - rounds
  pub data_disk : (b : ℕ) → IsData s.start b → s'.disk b ≡ s.disk b
  pub data_cache : (b : ℕ) → IsData s.start b → s'.cache b ≡ s.cache b
  pub before_disk : (x : ℕ) → s.start ≤ x → x ≤ s.start + tail → s'.disk x ≡ s.disk x
  pub before_cache : (x : ℕ) → s.start ≤ x → x ≤ s.start + tail → s'.cache x ≡ s.cache x
  pub log_disk :
      (i : ℕ)
      → tail ≤ i
      → i < tail + rounds
      → rounds ≤ s.power
      → s'.disk (s.start + i + 1) ≡ s.cache (s.block i)
  pub log_cache :
      (i : ℕ) → tail ≤ i → i < tail + rounds → s'.cache (s.start + i + 1) ≡ s.cache (s.block i)

not_data : (start b i : ℕ) → IsData start b → i < log_blocks → ((start + i + 1) == b) ≡ false
not_data start b i (inl lt) le = ground arith
not_data start b i (inr lt) le = ground arith

not_before : (start x tail : ℕ) → x ≤ start + tail → ((start + tail + 1) == x) ≡ false
not_before start x tail le = ground arith

first_or_later :
    (f value : ℕ → Block) (start tail rounds i : ℕ)
    → f (start + tail + 1) ≡ value tail
    → ((j : ℕ) → suc tail ≤ j → j < suc tail + rounds → f (start + j + 1) ≡ value j)
    → tail ≤ i
    → i < tail + suc rounds
    → f (start + i + 1) ≡ value i
first_or_later f value start tail rounds i first later low high = elim (Bool-cases (i == tail)) [
  | inl same ↦ (let e : i ≡ tail = ground (arith, same) in rw e first)
  | inr off ↦ later i (ground (arith, off, low)) (omega (arith, high))
]

pub log_lem :
    (rounds tail power : ℕ) (s : Log)
    → ((i : ℕ) → tail ≤ i → i < tail + rounds → IsData s.start (s.block i))
    → tail + rounds ≤ log_blocks
    → Logged rounds tail
        (record s { power = power })
        (log_loop rounds tail (record s { power = power }))
unfolding log_loop
log_lem zero tail power s outside le = record {
  same_start = refl;
  same_n = refl;
  same_block = refl;
  less_power = omega arith;
  data_disk = λ b d. refl;
  data_cache = λ b d. refl;
  before_disk = λ x low high. refl;
  before_cache = λ x low high. refl;
  log_disk = λ i low high enough. absurd (omega (arith, low, high));
  log_cache = λ i low high. absurd (omega (arith, low, high));
}
log_lem (suc rounds) tail zero s outside le =
    let d = outside tail (omega arith) (omega arith) in
    let to = s.start + tail + 1 in
    let shown = set_data to (s.cache (s.block tail)) s in
    let s' = log_loop rounds (suc tail) (record shown { power = 0 }) in
    let ih =
      log_lem rounds (suc tail) zero shown
        (λ i low high. outside i (omega (arith, low)) (omega (arith, high))) (omega (arith, le)) in
    record {
      same_start = ih.same_start;
      same_n = ih.same_n;
      same_block = ih.same_block;
      less_power = omega (arith, ih.less_power);
      data_disk = ih.data_disk;
      data_cache =
          λ b h. ih.data_cache b h ∙ (rw (not_data s.start b tail h (omega (arith, le))) refl);
      before_disk = λ x low high. ih.before_disk x low (omega (arith, high));
      before_cache = λ x low high.
          ih.before_cache x low (omega (arith, high)) ∙ (rw (not_before s.start x tail high) refl);
      log_disk = λ i low high enough. absurd (omega (arith, enough));
      log_cache = λ i low high.
          first_or_later s'.cache (λ j. s.cache (s.block j)) s.start tail rounds i
            (ih.before_cache to (omega arith) (omega arith) ∙ (rw (==_refl to) refl))
            (λ j low' high'.
              ih.log_cache j low' high'
              ∙ (rw
                  (not_data s.start (s.block j) tail
                    (outside j (omega (arith, low')) (omega (arith, high'))) (omega (arith, le)))
                  refl))
            low high;
    }
log_lem (suc rounds) tail (suc power) s outside le =
    let d = outside tail (omega arith) (omega arith) in
    let to = s.start + tail + 1 in
    let shown = set_data to (s.cache (s.block tail)) s in
    let s' =
      log_loop rounds (suc tail)
        (record shown { disk = update s.disk to (shown.cache to); power = power }) in
    let ih =
      log_lem rounds (suc tail) power (record shown { disk = update s.disk to (shown.cache to) })
        (λ i low high. outside i (omega (arith, low)) (omega (arith, high))) (omega (arith, le)) in
    record {
      same_start = ih.same_start;
      same_n = ih.same_n;
      same_block = ih.same_block;
      less_power = omega (arith, ih.less_power);
      data_disk =
          λ b h. ih.data_disk b h ∙ (rw (not_data s.start b tail h (omega (arith, le))) refl);
      data_cache =
          λ b h. ih.data_cache b h ∙ (rw (not_data s.start b tail h (omega (arith, le))) refl);
      before_disk = λ x low high.
          ih.before_disk x low (omega (arith, high)) ∙ (rw (not_before s.start x tail high) refl);
      before_cache = λ x low high.
          ih.before_cache x low (omega (arith, high)) ∙ (rw (not_before s.start x tail high) refl);
      log_disk = λ i low high enough.
          first_or_later s'.disk (λ j. s.cache (s.block j)) s.start tail rounds i
            (ih.before_disk to (omega arith) (omega arith) ∙ (rw (==_refl to) refl))
            (λ j low' high'.
              ih.log_disk j low' high' (omega (arith, enough))
              ∙ (rw
                  (not_data s.start (s.block j) tail
                    (outside j (omega (arith, low')) (omega (arith, high'))) (omega (arith, le)))
                  refl))
            low high;
      log_cache = λ i low high.
          first_or_later s'.cache (λ j. s.cache (s.block j)) s.start tail rounds i
            (ih.before_cache to (omega arith) (omega arith) ∙ (rw (==_refl to) refl))
            (λ j low' high'.
              ih.log_cache j low' high'
              ∙ (rw
                  (not_data s.start (s.block j) tail
                    (outside j (omega (arith, low')) (omega (arith, high'))) (omega (arith, le)))
                  refl))
            low high;
    }
