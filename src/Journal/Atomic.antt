-- ===== src/Journal/Atomic.antt =====
-- The operations of a commit are on the disk all, or none of them.
use monitors_and_ipc.Prelude.{
  ℕ, ◌+◌, ◌-◌, ◌≡◌, ◌∙◌, ◌≤◌, ◌<◌, inl, inr, refl, sym, ap, subst, true, false, ◌==◌, ltb, leb,
  if◌then◌else◌, arith, Bool-cases, List, [], ◌∷◌, ◌++◌, length, length-append, some,
}
use mathlib.Core.Option.{some-injective}
use monitors_and_ipc.Journal.{
  Log, Block, log_blocks, max_op_blocks, set_data, end_op, finish, log_write, initlog,
}
use monitors_and_ipc.Journal.Replay.{IsData}
use monitors_and_ipc.Journal.Clear.{IsHeader, view, view_empty}
use monitors_and_ipc.Journal.Recover.{initlog_at, cut_off, cut_off_lem}
use monitors_and_ipc.Journal.Commit.{IsPending, commit_lem}
use monitors_and_ipc.Journal.Calls.{commit-calls}
use monitors_and_ipc.Journal.Room.{Written, log_write_lem}
use monitors_and_ipc.Journal.Runs.{
  wrote, stopped, Trace, boots, begins, writes, ends, commits, stops, stops_in_commit,
}
use monitors_and_ipc.Journal.Active.{room_at, room-append, All-drop}
use monitors_and_ipc.Journal.Good.{
  Covers, IsGood, start-IsPending, at_start, booted-IsGood, begun-IsGood, wrote-IsGood, never,
}

write_some :
    (s s' : Log) (b : ℕ) (words : Block)
    → log_write b (set_data b words s) ≡ some s'
    → (s.n < log_blocks) × (1 ≤ s.outstanding)
unfolding log_write
write_some s s' b words e = elim (Bool-cases (leb log_blocks s.n)) [
  | inl full ↦ absurd (never (rw full at e))
  | inr room_left ↦ elim (Bool-cases (ltb s.outstanding 1)) [
    | inl outside ↦ absurd (never (rw (room_left, outside) at e))
    | inr inside ↦ (ground (arith, room_left), ground (arith, inside))
  ]
]

written-IsGood :
    (start : ℕ) (s s' : Log) (before after : List (List ℕ)) (bs : List ℕ) (b : ℕ) (words : Block)
    → IsGood start s (before ++ bs ∷ after)
    → IsData start b
    → length (wrote b bs) ≤ max_op_blocks
    → log_write b (set_data b words s) ≡ some s'
    → IsGood start s' (before ++ wrote b bs ∷ after)
written-IsGood start s s' before after bs b words h d small e =
    let (fits, busy) = write_some s s' b words e in
    let (t, f, w) = log_write_lem b words s fits busy in
    wrote-IsGood start s s' before after bs b words h d small
      (subst (Written b words s) (some-injective t s' (sym f ∙ e)) w)

ended-IsGood :
    (start : ℕ) (s s' : Log) (before after : List (List ℕ)) (bs : List ℕ)
    → IsGood start s (before ++ bs ∷ after)
    → end_op s ≡ some s'
    → IsGood start s' (before ++ after)
unfolding end_op
ended-IsGood start s s' before after bs h e = elim (Bool-cases s.committing) [
  | inl busy ↦ absurd (never (rw busy at e))
  | inr free ↦
      subst (λ t. IsGood start t (before ++ after)) (some-injective _ s' (rw free at e))
        (record {
          same_start = h.same_start;
          pending = record {
            small = h.pending.small;
            outside = h.pending.outside;
            empty = h.pending.empty;
            pinned = h.pending.pinned;
          };
          active =
              omega
                (arith, h.active, length-append before (bs ∷ after), length-append before after);
          idle = λ on. ground (arith, on);
          fits = omega (arith, h.fits, room_at before after bs, room-append before after);
          covered = All-drop (Covers s) before after bs h.covered;
        })
]

-- No operation is under way during a commit.
none_active :
    (start : ℕ) (s : Log) (ops : List (List ℕ))
    → IsGood start s ops
    → s.committing ≡ true
    → ops ≡ []
none_active start s [] h on = refl
none_active start s (bs ∷ ops) h on = absurd (omega (arith, h.idle on, h.active))

with_power : (s : Log) (k : ℕ) → IsPending s → IsPending (record s { power = k })
with_power s k h = record {
  small = h.small;
  outside = h.outside;
  empty = h.empty;
  pinned = h.pinned;
}

finish-IsGood :
    (start : ℕ) (s : Log) (k : ℕ)
    → IsGood start s []
    → s.committing ≡ true
    → log_blocks + log_blocks + 1 < k
    → IsGood start (finish (record s { power = k })) []
finish-IsGood start s k h on enough =
    let c = commit_lem (record s { power = k }) (with_power s k h.pending) in
    let small = h.pending.small in
    let zero_n = c.empty (omega (arith, small, enough)) in
    let lt : s.n < k = omega (arith, small, enough) in
    record {
      same_start = c.same_start ∙ h.same_start;
      pending =
          start-IsPending (finish (record s { power = k })) start (c.same_start ∙ h.same_start)
            (omega (arith, c.no_n)) (λ i few. absurd (omega (arith, few, c.no_n)))
            (subst (λ t. (stopped k s).disk t 0 ≡ 0) h.same_start zero_n)
            (λ b d.
              let d' = at_start s start b h.same_start d in
              inl (
                sym (view_empty s.start (stopped k s).disk b zero_n)
                ∙ c.kept lt b d'
                ∙ sym (c.same_cache lt b d')));
      active = ap (λ x. x.0) (commit-calls (record s { power = k })) ∙ h.active;
      idle = λ off. absurd (ground (arith, off));
      fits = omega (arith, c.no_n);
      covered = tt;
    }

-- What is on the disk when the machine has started again, once and for all.
restarted :
    (start power : ℕ) (powers : List ℕ) (s : Log)
    → s.start ≡ start
    → IsHeader start (s.disk start)
    → log_blocks < power
    → IsGood start (initlog power (cut_off powers s)) []
      × ((b : ℕ) → IsData start b → (initlog power (cut_off powers s)).disk b ≡ view start s.disk b)
restarted start power powers s e h enough =
    let (same, sound, views) =
      subst
        (λ t.
          IsHeader t (s.disk t)
          → ((cut_off powers s).start ≡ t)
            × IsHeader t ((cut_off powers s).disk t)
            × ((b : ℕ) → IsData t b → view t (cut_off powers s).disk b ≡ view t s.disk b))
        e (cut_off_lem powers s) h in
    let r = initlog_at power (cut_off powers s) start same sound in
    (
      booted-IsGood start power (cut_off powers s) same sound enough,
      λ b d.
          sym (
            view_empty start (initlog power (cut_off powers s)).disk b
              (r.empty (omega (arith, sound.0, enough))))
          ∙ r.same_view b d
          ∙ views b d,
    )

empty-IsHeader :
    (start : ℕ) (s : Log) (ops : List (List ℕ)) → IsGood start s ops → IsHeader start (s.disk start)
empty-IsHeader start s ops h =
    let z = subst (λ t. s.disk t 0 ≡ 0) h.same_start h.pending.empty in
    (omega (arith, z), λ i small. absurd (omega (arith, small, z)))

restarted_in_commit :
    (start k power : ℕ) (powers : List ℕ) (s : Log) (ops : List (List ℕ))
    → IsGood start s ops
    → log_blocks < power
    → IsGood start (initlog power (cut_off powers (stopped k s))) []
      × ((b : ℕ)
          → IsData start b
          → (initlog power (cut_off powers (stopped k s))).disk b ≡ view start (stopped k s).disk b)
restarted_in_commit start k power powers s ops h enough =
    let c = commit_lem (record s { power = k }) (with_power s k h.pending) in
    restarted start power powers (stopped k s) (c.same_start ∙ h.same_start)
      (subst (λ t. IsHeader t ((stopped k s).disk t)) h.same_start c.sound) enough

Trace-IsGood : (start : ℕ) (s : Log) (ops : List (List ℕ)) → Trace start s ops → IsGood start s ops
Trace-IsGood start s ops (boots s0 power e h enough) = booted-IsGood start power s0 e h enough
Trace-IsGood start s ops (begins s0 s' ops' t e) =
    begun-IsGood start s0 s' ops' (Trace-IsGood start s0 ops' t) e
Trace-IsGood start s ops (writes s0 s' before after bs b words t d small e) =
    written-IsGood start s0 s' before after bs b words
      (Trace-IsGood start s0 (before ++ bs ∷ after) t) d small e
Trace-IsGood start s ops (ends s0 s' before after bs t e) =
    ended-IsGood start s0 s' before after bs (Trace-IsGood start s0 (before ++ bs ∷ after) t) e
Trace-IsGood start s ops (commits s0 ops' k t on enough) =
    let h = Trace-IsGood start s0 ops' t in
    let none_left = none_active start s0 ops' h on in
    subst (IsGood start (finish (record s0 { power = k }))) (sym none_left)
      (finish-IsGood start s0 k (subst (IsGood start s0) none_left h) on enough)
Trace-IsGood start s ops (stops s0 ops' powers power t enough) =
    let h = Trace-IsGood start s0 ops' t in
    (restarted start power powers s0 h.same_start (empty-IsHeader start s0 ops' h) enough).0
Trace-IsGood start s ops (stops_in_commit s0 ops' k powers power t on enough) =
    (restarted_in_commit start k power powers s0 ops' (Trace-IsGood start s0 ops' t) enough).0

-- Whenever the machine stops, and however often it stops again while it starts, each block of the file
-- system is, after the start that is not cut off, as on the disk before, if it stopped outside a
-- commit. If it stopped in a commit after `k` written blocks, all blocks are as on the disk before the
-- commit, when k is at most the number of blocks in the log, and all are as in the cache else.
pub recovery_atomic :
    (start : ℕ) (s : Log) (ops : List (List ℕ)) (powers : List ℕ) (power k b : ℕ)
    → Trace start s ops
    → log_blocks < power
    → IsData start b
    → ((initlog power (cut_off powers s)).disk b ≡ s.disk b)
      × ((initlog power (cut_off powers (stopped k s))).disk b
          ≡ (if leb k s.n then s.disk b else s.cache b))
recovery_atomic start s ops powers power k b t enough d =
    let h = Trace-IsGood start s ops t in
    let c = commit_lem (record s { power = k }) (with_power s k h.pending) in
    let d' = at_start s start b h.same_start d in
    (
      (restarted start power powers s h.same_start (empty-IsHeader start s ops h) enough).1 b d
          ∙ view_empty start s.disk b (subst (λ t. s.disk t 0 ≡ 0) h.same_start h.pending.empty),
      (restarted_in_commit start k power powers s ops h enough).1 b d
          ∙ subst (λ t. view t (stopped k s).disk b ≡ (if leb k s.n then s.disk b else s.cache b))
              h.same_start
              (elim (Bool-cases (leb k s.n)) [
                | inl early ↦ rw early (c.lost (ground (arith, early)) b d')
                | inr late ↦ rw late (c.kept (ground (arith, late)) b d')
              ]),
    )

-- In every state of the log, an operation that has written fewer than ten blocks can write any block, and
-- can end: neither log_write nor end_op panics. end_op starts a commit exactly when no other
-- operation is under way.
pub log_never_full :
    (start : ℕ) (s : Log) (before after : List (List ℕ)) (bs : List ℕ) (b : ℕ) (words : Block)
    → Trace start s (before ++ bs ∷ after)
    → length bs < max_op_blocks
    → ((s' : Log) × (log_write b (set_data b words s) ≡ some s'))
      × ((s' : Log) × (end_op s ≡ some s') × (s'.committing ≡ (length (before ++ after) == 0)))
unfolding end_op
log_never_full start s before after bs b words t small =
    let h = Trace-IsGood start s (before ++ bs ∷ after) t in
    let busy = length-append before (bs ∷ after) in
    let free : s.committing ≡ false = elim (Bool-cases s.committing) [
      | inl on ↦ absurd (omega (arith, h.idle on, h.active, busy))
      | inr off ↦ off
    ] in
    let (s', e, w) =
      log_write_lem b words s (omega (arith, small, h.fits, room_at before after bs))
        (omega (arith, h.active, busy)) in
    let rest : s.outstanding ≡ length (before ++ after) + 1 =
      omega (arith, h.active, busy, length-append before after) in
    (
      (s', e),
      (
        record s { outstanding = s.outstanding - 1; committing = s.outstanding == 1 },
        rw free refl,
        ground (arith, rest),
      ),
    )
