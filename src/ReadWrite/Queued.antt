-- ===== src/ReadWrite/Queued.antt =====
-- The queues of the monitor hold the processes that wait, each of them once.
use monitors_and_ipc.Prelude.{
  ℕ, ◌+◌, ◌≡◌, ◌∙◌, inl, inr, refl, sym, ap, subst, Bool, true, false, ◌&&◌, ◌==◌, ==_refl, Option,
  none, some, List, [], ◌∷◌, ◌++◌, if◌then◌else◌, update, fun_ext, arith, Bool-cases,
}
use monitors_and_ipc.Pages.FreeList.{occ}
use monitors_and_ipc.Monitor.Hoare.{Hoare, pick, hand, free, join, admit, wake}
use monitors_and_ipc.ReadWrite.{Place}
use monitors_and_ipc.ReadWrite.Places.{
  sits, is_outside, outside_sits, inside_of, not_there, Ready, ready_of, sits_at,
}

pub occ-append :
    (x y : ℕ) (xs : List ℕ) → occ x (xs ++ y ∷ []) ≡ occ x xs + (if x == y then 1 else 0)
occ-append x y [] = omega arith
occ-append x y (z ∷ zs) = omega (arith, occ-append x y zs)

-- What a process that joins queue `q` adds to the counts.
occ-join :
    (q pid : ℕ) (a : Hoare) (x r : ℕ)
    → occ x ((join q pid a).waiting r)
      ≡ occ x (a.waiting r) + (if (q == r) && (x == pid) then 1 else 0)
occ-join q pid a x r = elim (Bool-cases (q == r)) [
  | inl e ↦ (let same : q ≡ r = ground (arith, e) in rw (e, same) (occ-append x pid (a.waiting r)))
  | inr e ↦ rw e (omega arith)
]

-- The counts are right when nobody owns the monitor.
abbrev pub Unowned : (ℕ → List ℕ) → (ℕ → Place) → Type 0
Unowned waiting at = (pid q : ℕ) → occ pid (waiting q) ≡ (if sits (at pid) q then 1 else 0)

-- The process `pid` may own the monitor, the others are counted.
abbrev pub Owned : ℕ → (ℕ → List ℕ) → (ℕ → Place) → Type 0
Owned owner waiting at =
    ((pid q : ℕ)
      → (owner == pid) ≡ false
      → occ pid (waiting q) ≡ (if sits (at pid) q then 1 else 0))
    × ((q : ℕ) → occ owner (waiting q) ≡ 0)
    × (is_outside (at owner) ≡ false)

abbrev pub Sound : Option ℕ → (ℕ → List ℕ) → (ℕ → Place) → Type 0
Sound none waiting at = Unowned waiting at
Sound (some owner) waiting at = Owned owner waiting at

-- The first of a queue becomes the owner.
served :
    (w : ℕ) (ws : List ℕ) (r : ℕ) (waiting : ℕ → List ℕ) (at : ℕ → Place)
    → waiting r ≡ w ∷ ws
    → Unowned waiting at
    → Owned w (update waiting r ws) at
served w ws r waiting at e h =
    let here : (x : ℕ) → (if x == w then 1 else 0) + occ x ws ≡ (if sits (at x) r then 1 else 0) =
      λ x. ap (occ x) (sym e) ∙ h x r in
    let sat : sits (at w) r ≡ true = ground (arith, here w, ==_refl w) in
    (
      λ x q off. elim (Bool-cases (r == q)) [
        | inl same ↦
            (let k : r ≡ q = ground (arith, same) in
              rw same (
                subst (λ i. occ x ws ≡ (if sits (at x) i then 1 else 0)) k
                  (ground (arith, here x, off))))
        | inr apart ↦ rw apart (h x q)
      ],
      λ q. elim (Bool-cases (r == q)) [
        | inl same ↦ rw same (ground (arith, here w, ==_refl w))
        | inr apart ↦ rw apart (h w q ∙ not_there (at w) r q apart sat)
      ],
      inside_of (at w) r sat,
    )

abbrev pub SoundIn : Hoare → (ℕ → Place) → Type 0
SoundIn a at = Sound a.owner a.waiting at

abbrev pub OwnerReady : Option ℕ → (ℕ → Place) → ℕ → Bool → Type 0
OwnerReady none at n b = Unit
OwnerReady (some u) at n b = Ready (at u) n b

first_sits :
    (w : ℕ) (ws : List ℕ) (r : ℕ) (waiting : ℕ → List ℕ) (at : ℕ → Place)
    → waiting r ≡ w ∷ ws
    → Unowned waiting at
    → sits (at w) r ≡ true
first_sits w ws r waiting at e h =
    let here : (if w == w then 1 else 0) + occ w ws ≡ (if sits (at w) r then 1 else 0) =
      ap (occ w) (sym e) ∙ h w r in
    ground (arith, here, ==_refl w)

picked :
    (us es : List ℕ) (a : Hoare) (at : ℕ → Place) (n : ℕ) (b : Bool)
    → a.waiting 1 ≡ us
    → a.waiting 0 ≡ es
    → a.owner ≡ none
    → Unowned a.waiting at
    → SoundIn (pick us es a).0 at × OwnerReady (pick us es a).0.owner at n b
picked (u ∷ us) es a at n b e f o h = (
  served u us 1 a.waiting at e h,
  ready_of (at u) 1 n b (omega arith) (first_sits u us 1 a.waiting at e h),
)
picked [] (u ∷ es) a at n b e f o h = (
  served u es 0 a.waiting at f h,
  ready_of (at u) 0 n b (omega arith) (first_sits u es 0 a.waiting at f h),
)
picked [] [] a at n b e f o h = rw o (h, tt)

-- `pid` joins queue `r`, and its place is there.
joined :
    (a : Hoare) (at : ℕ → Place) (pid r : ℕ) (x : Place)
    → sits x r ≡ true
    → ((q : ℕ) → occ pid (a.waiting q) ≡ 0)
    → (k q : ℕ) → ((pid == k) ≡ false → occ k (a.waiting q) ≡ (if sits (at k) q then 1 else 0))
    → occ k ((join r pid a).waiting q) ≡ (if sits (update at pid x k) q then 1 else 0)
joined a at pid r x e out k q old = occ-join r pid a k q ∙ elim (Bool-cases (pid == k)) [
  | inl same ↦
      (let i : pid ≡ k = ground (arith, same) in
        let z : occ k (a.waiting q) ≡ 0 = ap (λ j. occ j (a.waiting q)) (sym i) ∙ out q in
        rw (same, z, sits_at x r q e) (ground (arith, same)))
  | inr off ↦ rw (off, old off) (ground (arith, off))
]

-- A move of `pid` that changes no queue.
moved_away :
    (waiting : ℕ → List ℕ) (at : ℕ → Place) (pid : ℕ) (x : Place)
    → ((k q : ℕ) → (pid == k) ≡ false → occ k (waiting q) ≡ (if sits (at k) q then 1 else 0))
    → (k q : ℕ) → (pid == k) ≡ false
    → occ k (waiting q) ≡ (if sits (update at pid x k) q then 1 else 0)
moved_away waiting at pid x old k q off = rw off (old k q off)

not_same :
    (at : ℕ → Place) (pid o : ℕ)
    → is_outside (at pid) ≡ true
    → is_outside (at o) ≡ false
    → (pid == o) ≡ false
not_same at pid o out into = elim (Bool-cases (pid == o)) [
  | inl same ↦
      (let k : pid ≡ o = ground (arith, same) in
        absurd (ground (arith, sym out ∙ ap (λ i. is_outside (at i)) k ∙ into)))
  | inr off ↦ off
]

-- A process that is outside asks to enter.
pub enter-SoundIn :
    (o : Option ℕ) (a : Hoare) (at : ℕ → Place) (pid : ℕ) (x : Place) (n : ℕ) (b : Bool)
    → a.owner ≡ o
    → Sound o a.waiting at
    → OwnerReady o at n b
    → is_outside (at pid) ≡ true
    → sits x 0 ≡ true
    → SoundIn (admit o pid a).0 (update at pid x)
      × OwnerReady (admit o pid a).0.owner (update at pid x) n b
enter-SoundIn none a at pid x n b e h ready out into = (
  (
    moved_away a.waiting at pid x (λ k q off. h k q),
    λ q. h pid q ∙ rw (outside_sits (at pid) q out) refl,
    rw (==_refl pid) (inside_of x 0 into),
  ),
  rw (==_refl pid) (ready_of x 0 n b (omega arith) into),
)
enter-SoundIn (some o) a at pid x n b e (others, mine, is_in) ready out into =
    let apart : (pid == o) ≡ false = not_same at pid o out is_in in
    let apart' : (o == pid) ≡ false = ground (arith, apart) in
    rw e (
      (
        λ k q off.
            joined a at pid 0 x into
              (λ r. others pid r apart' ∙ rw (outside_sits (at pid) r out) refl) k q
              (λ i. others k q off),
        λ q. occ-join 0 pid a o q ∙ ground (arith, mine q, apart),
        rw apart is_in,
      ),
      rw apart ready,
    )

-- The owner leaves for a place outside, and the next process owns the monitor.
pub leave-SoundIn :
    (a : Hoare) (at : ℕ → Place) (pid : ℕ) (x : Place) (n : ℕ) (b : Bool)
    → Owned pid a.waiting at
    → is_outside x ≡ true
    → SoundIn (hand (free a)).0 (update at pid x)
      × OwnerReady (hand (free a)).0.owner (update at pid x) n b
leave-SoundIn a at pid x n b (others, mine, is_in) out =
    picked (a.waiting 1) (a.waiting 0) (free a) (update at pid x) n b refl refl refl λ k q.
      elim (Bool-cases (pid == k)) [
        | inl same ↦
            (let i : pid ≡ k = ground (arith, same) in
              rw (same, outside_sits x q out) (ap (λ j. occ j (a.waiting q)) (sym i) ∙ mine q))
        | inr off ↦ rw off (others k q off)
      ]

-- The owner waits on a condition, and the next process owns the monitor.
pub wait-SoundIn :
    (a : Hoare) (at : ℕ → Place) (pid c : ℕ) (x : Place) (n : ℕ) (b : Bool)
    → Owned pid a.waiting at
    → sits x (c + 2) ≡ true
    → SoundIn (hand (free (join (c + 2) pid a))).0 (update at pid x)
      × OwnerReady (hand (free (join (c + 2) pid a))).0.owner (update at pid x) n b
wait-SoundIn a at pid c x n b (others, mine, is_in) into =
    picked ((join (c + 2) pid a).waiting 1) ((join (c + 2) pid a).waiting 0)
      (free (join (c + 2) pid a)) (update at pid x) n b refl refl refl
      λ k q. joined a at pid (c + 2) x into mine k q (λ off. others k q off)

same_queues :
    (c pid : ℕ) (ws : List ℕ) (f : ℕ → List ℕ) (q : ℕ)
    → update (update f 1 (f 1 ++ pid ∷ [])) (c + 2) ws q
      ≡ update (update f (c + 2) ws) 1 (update f (c + 2) ws 1 ++ pid ∷ []) q
same_queues c pid ws f q =
    let e : (c + 2 == 1) ≡ false = ground arith in
    elim (Bool-cases (1 == q)) [
      | inl i ↦ (let off : (c + 2 == q) ≡ false = ground (arith, i) in rw (off, i, e) refl)
      | inr i ↦ elim (Bool-cases (c + 2 == q)) [ inl j ↦ rw (i, j) refl | inr j ↦ rw (i, j) refl ]
    ]

-- The owner signals a condition: the first process that waits on it owns the monitor, if there is one.
pub signal-SoundIn :
    (ws : List ℕ) (a : Hoare) (at : ℕ → Place) (pid c : ℕ) (x : Place) (n : ℕ) (b : Bool)
    → a.waiting (c + 2) ≡ ws
    → a.owner ≡ some pid
    → Owned pid a.waiting at
    → sits x 1 ≡ true
    → ((y : Place) → sits y (c + 2) ≡ true → Ready y n b)
    → SoundIn (wake ws pid c a).0 (update at pid x)
      × OwnerReady (wake ws pid c a).0.owner (update at pid x) n b
signal-SoundIn [] a at pid c x n b e o (others, mine, is_in) into good = rw o (
  (moved_away a.waiting at pid x others, mine, rw (==_refl pid) (inside_of x 1 into)),
  rw (==_refl pid) (ready_of x 1 n b (omega arith) into),
)
signal-SoundIn (w ∷ ws) a at pid c x n b e o (others, mine, is_in) into good =
    let later = join 1 pid a in
    let h : Unowned later.waiting (update at pid x) =
      λ k q. joined a at pid 1 x into mine k q (λ off. others k q off) in
    let f : later.waiting (c + 2) ≡ w ∷ ws =
      (let g : (1 == c + 2) ≡ false = ground arith in rw g e) in
    (
      subst (λ g. Owned w g (update at pid x)) (fun_ext (same_queues c pid ws a.waiting))
          (served w ws (c + 2) later.waiting (update at pid x) f h),
      good (update at pid x w) (first_sits w ws (c + 2) later.waiting (update at pid x) f h),
    )
