-- ===== src/ReadWrite/Replies.antt =====
-- The messages to the Hoare monitor, its replies, and the processes in its queues, one by one.
use monitors_and_ipc.Prelude.{
  ℕ, zero, suc, ◌+◌, ◌≡◌, ◌∙◌, refl, ap, true, ◌&&◌, ◌==◌, Option, none, some, List, [], ◌∷◌, ◌++◌,
  if◌then◌else◌, arith, Bool-cases, inl, inr, ltb,
}
use monitors_and_ipc.Pages.FreeList.{occ}
use monitors_and_ipc.Monitor.{owns}
use monitors_and_ipc.Monitor.Hoare.{Hoare, pick, hand, free, join, admit, wake}
use monitors_and_ipc.Monitor.Run.{
  Request, enters, leaves, waits, signals, step, run, messages, StaysSparse,
}
use monitors_and_ipc.ReadWrite.{count_of}
use monitors_and_ipc.ReadWrite.Queued.{occ-append}
use monitors_and_ipc.ReadWrite.Steps.{pick-num, admit-num, wake-num}

-- How often the process stands in the four queues.
abbrev pub queued : ℕ → Hoare → ℕ
queued x a = occ x (a.waiting 0) + occ x (a.waiting 1) + occ x (a.waiting 2) + occ x (a.waiting 3)

abbrev one_if : ℕ → ℕ → ℕ
one_if x pid = if x == pid then 1 else 0

module _ (x : ℕ) where
  pick-queued :
      (us es : List ℕ) (a : Hoare)
      → a.waiting 1 ≡ us
      → a.waiting 0 ≡ es
      → queued x (pick us es a).0 + count_of x (pick us es a).1 ≡ queued x a
  pick-queued (u ∷ us) es a e f = omega (arith, ap (occ x) e)
  pick-queued [] (u ∷ es) a e f = omega (arith, ap (occ x) f)
  pick-queued [] [] a e f = omega arith

  hand-queued : (a : Hoare) → queued x (hand a).0 + count_of x (hand a).1 ≡ queued x a
  hand-queued a = pick-queued (a.waiting 1) (a.waiting 0) a refl refl

  join_condition :
      (c pid : ℕ) (a : Hoare)
      → ltb c 2 ≡ true
      → queued x (join (c + 2) pid a) ≡ queued x a + one_if x pid
  join_condition zero pid a e = omega (arith, occ-append x pid (a.waiting 2))
  join_condition (suc zero) pid a e = omega (arith, occ-append x pid (a.waiting 3))
  join_condition (suc (suc c)) pid a e = absurd (ground (arith, e))

  admit-queued :
      (o : Option ℕ) (pid : ℕ) (a : Hoare)
      → queued x (admit o pid a).0 + count_of x (admit o pid a).1 ≡ queued x a + one_if x pid
  admit-queued none pid a = omega arith
  admit-queued (some o) pid a = omega (arith, occ-append x pid (a.waiting 0))

  wake-queued :
      (ws : List ℕ) (pid c : ℕ) (a : Hoare)
      → a.waiting (c + 2) ≡ ws
      → ltb c 2 ≡ true
      → queued x (wake ws pid c a).0 + count_of x (wake ws pid c a).1 ≡ queued x a + one_if x pid
  wake-queued [] pid c a e lt = omega arith
  wake-queued (w ∷ ws) pid zero a e lt = omega (arith, occ-append x pid (a.waiting 1), ap (occ x) e)
  wake-queued (w ∷ ws) pid (suc zero) a e lt =
      omega (arith, occ-append x pid (a.waiting 1), ap (occ x) e)
  wake-queued (w ∷ ws) pid (suc (suc c)) a e lt = absurd (ground (arith, lt))

  -- Each message adds one process, which waits in a queue or has a reply.
  step-queued :
      (pid : ℕ) (r : Request) (a : Hoare)
      → a.num ≡ 2
      → queued x (step (pid, r) a).0 + count_of x (step (pid, r) a).1 ≡ queued x a + one_if x pid
  step-queued pid enters a two = admit-queued a.owner pid a
  step-queued pid leaves a two = elim (Bool-cases (owns a.owner pid)) [
    | inl e ↦ rw e (omega (arith, hand-queued (free a)))
    | inr e ↦ rw e (omega arith)
  ]
  step-queued pid (waits c) a two = elim (Bool-cases (owns a.owner pid && ltb c a.num)) [
    | inl e ↦
        let lt : ltb c 2 ≡ true = ground (arith, e, two) in
        rw e (hand-queued (free (join (c + 2) pid a)) ∙ join_condition c pid a lt)
    | inr e ↦ rw e (omega arith)
  ]
  step-queued pid (signals c) a two = elim (Bool-cases (owns a.owner pid && ltb c a.num)) [
    | inl e ↦
        let lt : ltb c 2 ≡ true = ground (arith, e, two) in
        rw e (wake-queued (a.waiting (c + 2)) pid c a refl lt)
    | inr e ↦ rw e (omega arith)
  ]

step-num : (pid : ℕ) (r : Request) (a : Hoare) → (step (pid, r) a).0.num ≡ a.num
step-num pid enters a = admit-num a.owner pid a
step-num pid leaves a = elim (Bool-cases (owns a.owner pid)) [
  | inl e ↦ rw e (pick-num (a.waiting 1) (a.waiting 0) (free a))
  | inr e ↦ rw e refl
]
step-num pid (waits c) a = elim (Bool-cases (owns a.owner pid && ltb c a.num)) [
  | inl e ↦ rw e (pick-num _ _ (free (join (c + 2) pid a)))
  | inr e ↦ rw e refl
]
step-num pid (signals c) a = elim (Bool-cases (owns a.owner pid && ltb c a.num)) [
  | inl e ↦ rw e (wake-num (a.waiting (c + 2)) pid c a)
  | inr e ↦ rw e refl
]

pub count_of-append :
    {A : Type 0} (x : ℕ) (ms ns : List (ℕ × A))
    → count_of x (ms ++ ns) ≡ count_of x ms + count_of x ns
count_of-append x [] ns = omega arith
count_of-append x (m ∷ ms) ns = omega (arith, count_of-append x ms ns)

pub count_of-messages : (x : ℕ) (rs : List (ℕ × Request)) → count_of x (messages rs) ≡ count_of x rs
count_of-messages x [] = refl
count_of-messages x (r ∷ rs) = omega (arith, count_of-messages x rs)

-- With two conditions, a process that has sent a message has a reply, or stands in a queue, for each one.
pub run-queued :
    (x : ℕ) (rs : List (ℕ × Request)) (a : Hoare)
    → a.num ≡ 2
    → queued x (run rs a).0 + count_of x (run rs a).1 ≡ queued x a + count_of x rs
unfolding run
run-queued x [] a two = refl
run-queued x ((pid, r) ∷ rs) a two =
    let b = (step (pid, r) a).0 in
    omega (
      arith,
      step-queued x pid r a two,
      run-queued x rs b (step-num pid r a ∙ two),
      count_of-append x (step (pid, r) a).1 (run rs b).1,
    )

-- The last message of a run.
pub run-append :
    (rs : List (ℕ × Request)) (r : ℕ × Request) (a : Hoare)
    → (run (rs ++ r ∷ []) a).0 ≡ (step r (run rs a).0).0
unfolding run
run-append [] r a = refl
run-append (s ∷ rs) r a = run-append rs r (step s a).0

pub StaysSparse-append :
    (rs : List (ℕ × Request)) (r : ℕ × Request) (a : Hoare)
    → StaysSparse (rs ++ r ∷ []) a
    → StaysSparse rs a
StaysSparse-append [] r a h = tt
StaysSparse-append (s ∷ rs) r a h = (h.0, StaysSparse-append rs r (step s a).0 h.1)
