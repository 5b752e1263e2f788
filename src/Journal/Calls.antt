-- ===== src/Journal/Calls.antt =====
-- The loops leave the count of the operations, and the flag of the commit, alone.
use monitors_and_ipc.Prelude.{ℕ, zero, suc, ◌≡◌, ◌∙◌, refl, Bool, false, ltb, Bool-cases, inl, inr}
use monitors_and_ipc.Journal.{
  Log, write_through, install_round, install_loop, install_trans, log_round, log_loop, write_log,
  write_head, read_head, recover_from_log, commit, initlog,
}

abbrev calls : Log → ℕ × Bool
calls s = (s.outstanding, s.committing)

write_through-calls : (power b : ℕ) (s : Log) → calls (write_through power b s) ≡ calls s
write_through-calls zero b s = refl
write_through-calls (suc power) b s = refl

install_loop-calls : (rounds tail : ℕ) (s : Log) → calls (install_loop rounds tail s) ≡ calls s
unfolding install_loop
install_loop-calls zero tail s = refl
install_loop-calls (suc rounds) tail s =
    install_loop-calls rounds (suc tail) (install_round tail s)
    ∙ write_through-calls s.power (s.block tail) _

log_loop-calls : (rounds tail : ℕ) (s : Log) → calls (log_loop rounds tail s) ≡ calls s
unfolding log_loop
log_loop-calls zero tail s = refl
log_loop-calls (suc rounds) tail s =
    log_loop-calls rounds (suc tail) (log_round tail s) ∙ write_through-calls s.power _ _

write_head-calls : (s : Log) → calls (write_head s) ≡ calls s
write_head-calls s = write_through-calls s.power s.start _

pub initlog-calls :
    (power : ℕ) (s : Log)
    → ◌≡◌ {A = ℕ × Bool} ((initlog power s).outstanding, (initlog power s).committing) (0, false)
unfolding initlog recover_from_log
initlog-calls power s =
    let booted : Log = record s {
      outstanding = 0;
      committing = false;
      n = 0;
      block = λ i. 0;
      cache = s.disk;
      power = power;
    } in
    let r = read_head booted in
    write_head-calls (record (install_trans r) { n = 0 }) ∙ install_loop-calls r.n 0 r

pub commit-calls :
    (s : Log)
    → ◌≡◌ {A = ℕ × Bool}
        ((commit s).outstanding, (commit s).committing)
        (s.outstanding, s.committing)
unfolding commit
commit-calls s = elim (Bool-cases (ltb 0 s.n)) [
  | inl more ↦
      let s1 = write_log s in
      let s2 = write_head s1 in
      rw more (
        write_head-calls (record (install_trans s2) { n = 0 })
        ∙ install_loop-calls s2.n 0 s2
        ∙ write_head-calls s1
        ∙ log_loop-calls s.n 0 s)
  | inr done ↦ rw done refl
]
