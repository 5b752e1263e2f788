-- ===== src/Pages/Unshared.antt =====
-- No page is handed out twice.
use monitors_and_ipc.Prelude.{
  ℕ, zero, suc, ◌+◌, ◌-◌, ◌%◌, ◌<◌, ◌≤◌, ◌≡◌, ◌∙◌, inl, inr, sym, subst, refl, true, ◌&&◌, some,
  List, [], ◌∷◌, ◌==◌, ==_refl, leb, ltb, if◌then◌else◌, arith, Bool-cases,
}
use mathlib.Core.Option.{some-injective}
use monitors_and_ipc.Pages.{
  Kmem, kfree, kalloc, free_from, freerange, kinit, is_page, phystop, pgroundup,
}
use monitors_and_ipc.Pages.FreeList.{occ, Chain, kfree-Chain, kalloc-Chain, kalloc_empty}

-- The free list has the pages below `p`, each of them once.
abbrev pub FreedBelow : (kernel_end p : ℕ) → Kmem → Type 0
FreedBelow kernel_end p k =
    (ps : List ℕ) × Chain k.freelist k.next ps
    × ((x : ℕ) → occ x ps ≡ (if is_page kernel_end x && ltb x p then 1 else 0))

one_freed :
    (kernel_end p : ℕ) (k : Kmem)
    → 0 < kernel_end
    → p % 4096 ≡ 0
    → kernel_end ≤ p
    → p < phystop
    → FreedBelow kernel_end p k
    → (k' : Kmem) × (kfree kernel_end p k ≡ some k') × FreedBelow kernel_end (p + 4096) k'
one_freed kernel_end p k above aligned le lt (ps, c, each) =
    let is_one : is_page kernel_end p ≡ true = ground (arith, aligned) in
    let (k', e, c') = kfree-Chain kernel_end p k ps is_one above (ground (arith, each p)) c in
    (k', e, (p ∷ ps, c', λ x. ground (arith, each x, aligned)))

free_from_lem :
    (rounds kernel_end p : ℕ) (k : Kmem)
    → 0 < kernel_end
    → p % 4096 ≡ 0
    → kernel_end ≤ p
    → p ≤ phystop
    → phystop ≤ p + rounds
    → FreedBelow kernel_end p k
    → (k' : Kmem) × (free_from rounds kernel_end p phystop k ≡ some k')
      × FreedBelow kernel_end phystop k'
unfolding free_from
free_from_lem zero kernel_end p k above aligned le lt enough below =
    (k, refl, (let e : p ≡ phystop = omega arith in subst (λ q. FreedBelow kernel_end q k) e below))
free_from_lem (suc rounds) kernel_end p k above aligned le lt enough below =
    elim (Bool-cases (leb (p + 4096) phystop)) [
      | inl more ↦
          let (k₁, e, below₁) =
            one_freed kernel_end p k above aligned le (ground (arith, more)) below in
          let (k', f, rest) =
            free_from_lem rounds kernel_end (p + 4096) k₁ above (omega (arith, aligned))
              (omega arith) (ground (arith, more)) (omega arith) below₁ in
          (k', rw (more, e) f, rest)
      | inr last ↦
          let e : p ≡ phystop = ground (arith, last, aligned) in
          (k, rw last refl, subst (λ q. FreedBelow kernel_end q k) e below)
    ]

-- kinit, from an empty free list and with `end` a non-null address of the memory, does not panic, and
-- leaves every page from `end` to PHYSTOP in the free list, exactly once, and nothing else.
pub kinit_frees :
    (kernel_end : ℕ) (k : Kmem)
    → 0 < kernel_end
    → kernel_end ≤ phystop
    → k.freelist ≡ 0
    → (k' : Kmem) × (kinit kernel_end k ≡ some k')
      × ((ps : List ℕ) × Chain k'.freelist k'.next ps
          × ((x : ℕ) → occ x ps ≡ (if is_page kernel_end x then 1 else 0)))
unfolding kinit freerange
kinit_frees kernel_end k above le empty =
    let (k', e, (ps, c, each)) =
      free_from_lem (phystop - kernel_end) kernel_end (pgroundup kernel_end) k above (omega arith)
        (omega arith) (omega arith) (omega arith) ([], empty, λ x. ground arith) in
    (k', e, (ps, c, λ x. each x ∙ ground arith))

-- The free pages and the pages `held` are pages, and no page is there twice.
abbrev pub Shares : (kernel_end : ℕ) → List ℕ → Kmem → Type 0
Shares kernel_end held k =
    (ps : List ℕ) × Chain k.freelist k.next ps
    × ((x : ℕ) → occ x ps + occ x held ≤ 1)
    × ((x : ℕ) → 1 ≤ occ x ps + occ x held → is_page kernel_end x ≡ true)

-- The pages held after kalloc has returned `r`.
abbrev pub with_new : ℕ → List ℕ → List ℕ
with_new r held = if r == 0 then held else r ∷ held

-- The kernel's calls from kinit on, with the pages that it holds; it frees only pages that it holds.
pub data Trace (kernel_end : ℕ) : List ℕ → Kmem → Type 0 where
  booted :
      (k : Kmem) {k' : Kmem}
      → k.freelist ≡ 0
      → kinit kernel_end k ≡ some k'
      → Trace kernel_end [] k'
  allocates :
      {held : List ℕ} {k : Kmem}
      → Trace kernel_end held k
      → Trace kernel_end (with_new (kalloc k).0 held) (kalloc k).1
  frees :
      (held : List ℕ) {held' : List ℕ} (k : Kmem) {k' : Kmem} (pa : ℕ)
      → Trace kernel_end held k
      → ((x : ℕ) → occ x held ≡ occ x (pa ∷ held'))
      → kfree kernel_end pa k ≡ some k'
      → Trace kernel_end held' k'

kalloc-Shares :
    (kernel_end : ℕ) (held : List ℕ) (k : Kmem)
    → Shares kernel_end held k
    → Shares kernel_end (with_new (kalloc k).0 held) (kalloc k).1
kalloc-Shares kernel_end held k ([], c, once, pages) = rw (kalloc_empty k c) ([], c, once, pages)
kalloc-Shares kernel_end held k (x ∷ ps, c, once, pages) =
    let (e, c') = kalloc-Chain k x ps (ground (arith, once x, ==_refl x)) c in
    let grown : with_new (kalloc k).0 held ≡ x ∷ held = rw (e, c.1) refl in
    subst (λ h. Shares kernel_end h (kalloc k).1) (sym grown)
      (ps, c', λ y. omega (arith, once y), λ y some_one. pages y (omega (arith, some_one)))

kfree-Shares :
    (kernel_end pa : ℕ) (held held' : List ℕ) (k k' : Kmem)
    → 0 < kernel_end
    → Shares kernel_end held k
    → ((x : ℕ) → occ x held ≡ occ x (pa ∷ held'))
    → kfree kernel_end pa k ≡ some k'
    → Shares kernel_end held' k'
kfree-Shares kernel_end pa held held' k k' above (ps, c, once, pages) gone e =
    let there : 1 ≤ occ pa held = ground (arith, gone pa, ==_refl pa) in
    let (k₁, f, c') =
      kfree-Chain kernel_end pa k ps (pages pa (omega arith)) above (omega (arith, once pa)) c in
    let same : k₁ ≡ k' = some-injective k₁ k' (sym f ∙ e) in
    subst (Shares kernel_end held') same (
      pa ∷ ps,
      c',
      λ y. omega (arith, once y, gone y),
      λ y some_one. pages y (omega (arith, some_one, gone y)),
    )

-- Whatever the kernel does with its pages after kinit, where `end` is a non-null address of the memory
-- and only held pages are freed: the free list and the pages held have no page in common, neither holds
-- a page twice, and all of them lie between `end` and PHYSTOP at multiples of the page size.
pub Trace-Shares :
    (kernel_end : ℕ) {held : List ℕ} {k : Kmem}
    → 0 < kernel_end
    → kernel_end ≤ phystop
    → Trace kernel_end held k
    → Shares kernel_end held k
Trace-Shares kernel_end above le (booted k {k'} empty e) =
    let (k₁, f, (ps, c, each)) = kinit_frees kernel_end k above le empty in
    let same : k₁ ≡ k' = some-injective k₁ k' (sym f ∙ e) in
    subst (Shares kernel_end []) same
      (ps, c, λ x. ground (arith, each x), λ x some_one. ground (arith, each x, some_one))
Trace-Shares kernel_end above le (allocates {held} {k} before) =
    kalloc-Shares kernel_end held k (Trace-Shares kernel_end above le before)
Trace-Shares kernel_end above le (frees held {held'} k {k'} pa before gone e) =
    kfree-Shares kernel_end pa held held' k k' above (Trace-Shares kernel_end above le before) gone
      e
