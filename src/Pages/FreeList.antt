-- ===== src/Pages/FreeList.antt =====
-- The free list as the sequence of its pages, and what the operations do to it.
use monitors_and_ipc.Prelude.{
  ℕ, ◌+◌, ◌<◌, ◌≡◌, refl, true, false, some, List, [], ◌∷◌, ◌==◌, ==_refl, if◌then◌else◌, update,
  arith,
}
use monitors_and_ipc.Pages.{Kmem, kfree, kalloc, is_page, junk}

-- How often `x` stands in the list.
abbrev pub occ : ℕ → List ℕ → ℕ
occ x [] = 0
occ x (y ∷ ys) = (if x == y then 1 else 0) + occ x ys

-- The pages of the list, from the address `p` on.
abbrev pub Chain : ℕ → (ℕ → ℕ) → List ℕ → Type 0
Chain p w [] = p ≡ 0
Chain p w (x ∷ xs) = (p ≡ x) × ((x == 0) ≡ false) × Chain (w x) w xs

kept_outside :
    (p a b : ℕ) (w : ℕ → ℕ) (xs : List ℕ) → occ a xs ≡ 0 → Chain p w xs → Chain p (update w a b) xs
kept_outside p a b w [] out c = c
kept_outside p a b w (x ∷ xs) out (e, some_page, c) =
    let apart : (a == x) ≡ false = ground (arith, out) in
    (e, some_page, rw apart (kept_outside (w x) a b w xs (ground (arith, out)) c))

pub kfree-Chain :
    (kernel_end pa : ℕ) (k : Kmem) (ps : List ℕ)
    → is_page kernel_end pa ≡ true
    → 0 < kernel_end
    → occ pa ps ≡ 0
    → Chain k.freelist k.next ps
    → (k' : Kmem) × (kfree kernel_end pa k ≡ some k') × Chain k'.freelist k'.next (pa ∷ ps)
unfolding kfree
kfree-Chain kernel_end pa k ps is_one above out c = (
  record k { freelist = pa; next = update (update k.next pa (junk 1)) pa k.freelist },
  rw is_one refl,
  (
    refl,
    ground (arith, is_one),
    rw (==_refl pa) (
        kept_outside k.freelist pa k.freelist (update k.next pa (junk 1)) ps out
          (kept_outside k.freelist pa (junk 1) k.next ps out c)),
  ),
)

pub kalloc-Chain :
    (k : Kmem) (x : ℕ) (ps : List ℕ)
    → occ x ps ≡ 0
    → Chain k.freelist k.next (x ∷ ps)
    → ((kalloc k).0 ≡ x) × Chain (kalloc k).1.freelist (kalloc k).1.next ps
unfolding kalloc
kalloc-Chain k x ps out (e, some_page, c) =
    let there : (k.freelist == 0) ≡ false = rw e some_page in
    rw there (e, rw e (kept_outside (k.next x) x (junk 5) k.next ps out c))

pub kalloc_empty : (k : Kmem) → Chain k.freelist k.next [] → kalloc k ≡ (0, k)
unfolding kalloc
kalloc_empty k e = rw e refl
