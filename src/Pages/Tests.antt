-- ===== src/Pages/Tests.antt =====
-- Runs of the page allocator, with the kernel's end two pages below PHYSTOP.
use monitors_and_ipc.Prelude.{ℕ, ◌≡◌, refl, some, List, [], if◌then◌else◌, arith}
use monitors_and_ipc.Pages.{Kmem, kalloc, kinit, is_page}
use monitors_and_ipc.Pages.FreeList.{occ, Chain}
use monitors_and_ipc.Pages.Unshared.{
  kinit_frees, Trace, Trace-Shares, Shares, with_new, booted, allocates,
}

abbrev unused : Kmem
unused = record { freelist = 0; next = λ k. 0 }

abbrev started : Kmem
started = (kinit_frees 2281693100 unused (omega arith) (omega arith) refl).0

-- The pages 2281693184 and 2281697280 are free.
kinit_frees_example :
    (k' : Kmem) × (kinit 2281693100 unused ≡ some k')
    × ((ps : List ℕ) × Chain k'.freelist k'.next ps
        × ((x : ℕ) → occ x ps ≡ (if is_page 2281693100 x then 1 else 0)))
kinit_frees_example = kinit_frees 2281693100 unused (omega arith) (omega arith) refl

one_held : Trace 2281693100 (with_new (kalloc started).0 []) (kalloc started).1
one_held =
    allocates
      (booted unused refl (kinit_frees 2281693100 unused (omega arith) (omega arith) refl).1)

Trace-Shares_example : Shares 2281693100 (with_new (kalloc started).0 []) (kalloc started).1
Trace-Shares_example = Trace-Shares 2281693100 (omega arith) (omega arith) one_held
