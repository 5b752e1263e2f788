-- ===== src/Pages.antt =====
-- a2-phase2/xv6-A2/kernel/kalloc.c: the free list of pages. Of a page's contents its first word is modelled,
-- in which a free page holds the address of the next one. `kernel_end` is the address `end`, which the
-- linker sets. Each call runs under one spinlock.
pub mod FreeList
pub mod Unshared
mod Tests
use monitors_and_ipc.Prelude.{
  ℕ, zero, suc, ◌+◌, ◌*◌, ◌-◌, ◌%◌, Bool, true, false, not, ◌&&◌, ◌||◌, Option, none, some, ◌==◌,
  ltb, leb, if◌then◌else◌, update,
}

abbrev pub pgsize : ℕ
pgsize = 4096

-- KERNBASE and 128 MB.
abbrev pub phystop : ℕ
phystop = 2281701376

abbrev pub pgroundup : ℕ → ℕ
pgroundup sz = sz + (pgsize - 1) - (sz + (pgsize - 1)) % pgsize

-- The list head of `kmem`, and the first word of each page; 0 is the null pointer.
pub record Kmem : Type 0 where
  pub freelist : ℕ
  pub next : ℕ → ℕ

-- The first word of a page that memset fills with the byte `b`.
abbrev pub junk : ℕ → ℕ
junk b = 72340172838076673 * b

abbrev pub is_page : (kernel_end pa : ℕ) → Bool
is_page kernel_end pa = pa % pgsize == 0 && not (ltb pa kernel_end) && ltb pa phystop

-- `none` is the panic.
unfoldable pub kfree : (kernel_end pa : ℕ) → Kmem → Option Kmem
kfree kernel_end pa k =
    if is_page kernel_end pa
    then some (record k { freelist = pa; next = update (update k.next pa (junk 1)) pa k.freelist })
    else none

-- The page, or 0.
unfoldable pub kalloc : Kmem → ℕ × Kmem
kalloc k = if k.freelist == 0 then (0, k) else (
  k.freelist,
  record k { freelist = k.next k.freelist; next = update k.next k.freelist (junk 5) },
)

-- What comes after a kfree, if it does not panic.
abbrev pub with_page : Option Kmem → (Kmem → Option Kmem) → Option Kmem
with_page none rest = none
with_page (some k) rest = rest k

-- The loop of freerange from `p` on; a panic of kfree stops it.
unfoldable pub free_from : (rounds kernel_end p pa_end : ℕ) → Kmem → Option Kmem
free_from zero kernel_end p pa_end k = some k
free_from (suc rounds) kernel_end p pa_end k =
    if leb (p + pgsize) pa_end
    then with_page (kfree kernel_end p k) (free_from rounds kernel_end (p + pgsize) pa_end)
    else some k

-- The loop has fewer rounds than the last page has a number.
unfoldable pub freerange : (kernel_end pa_start pa_end : ℕ) → Kmem → Option Kmem
freerange kernel_end pa_start pa_end k =
    free_from (pa_end - pa_start) kernel_end (pgroundup pa_start) pa_end k

unfoldable pub kinit : (kernel_end : ℕ) → Kmem → Option Kmem
kinit kernel_end k = freerange kernel_end kernel_end phystop k
