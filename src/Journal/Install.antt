-- ===== src/Journal/Install.antt =====
-- The loop of install_trans, whenever the machine stops.
use monitors_and_ipc.Prelude.{
  ℕ, zero, suc, ◌+◌, ◌-◌, ◌≡◌, ◌∙◌, ◌≤◌, ◌<◌, inl, inr, refl, sym, ap, false, ◌==◌, ==_refl, update,
  if◌then◌else◌, arith,
}
use monitors_and_ipc.Journal.{Block, log_blocks, Log, set_data, install_loop}
use monitors_and_ipc.Journal.Replay.{IsData, replay, replay_done, replay_cong}

abbrev pub slot : Log → ℕ → Block
slot s i = s.cache (s.start + i + 1)

-- `s'` is `s` after `rounds` rounds from `tail`.
pub record Installed (rounds tail : ℕ) (s s' : Log) : Type 0 where
  pub same_start : s'.start ≡ s.start
  pub same_n : s'.n ≡ s.n
  pub same_block : s'.block ≡ s.block
  pub less_power : s'.power ≡ s.power - rounds
  pub data_disk :
      (b : ℕ)
      → IsData s.start b
      → s'.disk b ≡ replay s.block (slot s) b s.power rounds tail (s.disk b)
  pub data_cache :
      (b : ℕ)
      → IsData s.start b
      → s'.cache b ≡ replay s.block (slot s) b rounds rounds tail (s.cache b)
  pub log_disk : (x : ℕ) → s.start ≤ x → x ≤ s.start + log_blocks → s'.disk x ≡ s.disk x
  pub log_cache : (x : ℕ) → s.start ≤ x → x ≤ s.start + log_blocks → s'.cache x ≡ s.cache x

pub apart : (start b x : ℕ) → IsData start b → start ≤ x → x ≤ start + log_blocks → (b == x) ≡ false
apart start b x (inl lt) le le' = ground arith
apart start b x (inr lt) le le' = ground arith

pub kept_update :
    (start b : ℕ) (m : ℕ → Block) (v : Block) (x : ℕ)
    → IsData start b
    → start ≤ x
    → x ≤ start + log_blocks
    → update m b v x ≡ m x
kept_update start b m v x d le le' = rw (apart start b x d le le') refl

-- The first round of a loop, on the cache.
abbrev shown : ℕ → Log → Log
shown tail s = set_data (s.block tail) (s.cache (s.start + tail + 1)) s

shown-slot :
    (tail rounds : ℕ) (s : Log)
    → IsData s.start (s.block tail)
    → tail + suc rounds ≤ log_blocks
    → (i : ℕ) → suc tail ≤ i
    → i < suc tail + rounds
    → slot (shown tail s) i ≡ slot s i
shown-slot tail rounds s d le i low high =
    kept_update s.start (s.block tail) s.cache (slot s tail) (s.start + i + 1) d (omega arith)
      (omega (arith, low, high, le))

pub install_lem :
    (rounds tail power : ℕ) (s : Log)
    → ((i : ℕ) → tail ≤ i → i < tail + rounds → IsData s.start (s.block i))
    → tail + rounds ≤ log_blocks
    → Installed rounds tail
        (record s { power = power })
        (install_loop rounds tail (record s { power = power }))
unfolding install_loop replay
install_lem zero tail power s outside le = record {
  same_start = refl;
  same_n = refl;
  same_block = refl;
  less_power = omega arith;
  data_disk = λ b d. sym (replay_done s.block (slot s) b power tail (s.disk b));
  data_cache = λ b d. refl;
  log_disk = λ x low high. refl;
  log_cache = λ x low high. refl;
}
install_lem (suc rounds) tail zero s outside le =
    let d = outside tail (omega arith) (omega arith) in
    let ih =
      install_lem rounds (suc tail) zero (shown tail s)
        (λ i low high. outside i (omega (arith, low)) (omega (arith, high))) (omega (arith, le)) in
    record {
      same_start = ih.same_start;
      same_n = ih.same_n;
      same_block = ih.same_block;
      less_power = omega (arith, ih.less_power);
      data_disk = ih.data_disk;
      data_cache = λ b h.
          ih.data_cache b h
          ∙ replay_cong s.block s.block _ _ b rounds rounds (suc tail) _ (λ i low high. refl)
              (shown-slot tail rounds s d le);
      log_disk = ih.log_disk;
      log_cache = λ x low high.
          ih.log_cache x low high
          ∙ kept_update s.start (s.block tail) s.cache (slot s tail) x d low high;
    }
install_lem (suc rounds) tail (suc power) s outside le =
    let d = outside tail (omega arith) (omega arith) in
    let ih =
      install_lem rounds (suc tail) power
        (record (shown tail s) {
          disk = update s.disk (s.block tail) ((shown tail s).cache (s.block tail));
        })
        (λ i low high. outside i (omega (arith, low)) (omega (arith, high))) (omega (arith, le)) in
    record {
      same_start = ih.same_start;
      same_n = ih.same_n;
      same_block = ih.same_block;
      less_power = omega (arith, ih.less_power);
      data_disk = λ b h.
          ih.data_disk b h
          ∙ replay_cong s.block s.block _ _ b power rounds (suc tail) _ (λ i low high. refl)
              (shown-slot tail rounds s d le)
          ∙ ap
              (λ v.
                replay s.block (slot s) b power rounds (suc tail)
                  (if s.block tail == b then v else s.disk b))
              (rw (==_refl (s.block tail)) refl);
      data_cache = λ b h.
          ih.data_cache b h
          ∙ replay_cong s.block s.block _ _ b rounds rounds (suc tail) _ (λ i low high. refl)
              (shown-slot tail rounds s d le);
      log_disk = λ x low high.
          ih.log_disk x low high ∙ kept_update s.start (s.block tail) s.disk _ x d low high;
      log_cache = λ x low high.
          ih.log_cache x low high
          ∙ kept_update s.start (s.block tail) s.cache (slot s tail) x d low high;
    }
