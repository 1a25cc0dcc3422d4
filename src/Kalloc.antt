-- ===== src/Kalloc.antt =====
-- kernel/kalloc.c: the physical page allocator, over memory as 64-bit words at their addresses.
pub mod Chain
pub mod Init
mod Tests
use os_assignments.Prelude.{
  ℕ, zero, suc, ◌+◌, ◌-◌, ◌*◌, ◌/◌, ◌%◌, Bool, true, false, Option, none, some, not, ◌&&◌, ◌||◌,
  ltb, leb, ◌==◌, if◌then◌else◌, update,
}

abbrev pub page_size : ℕ
page_size = 4096

-- PHYSTOP of kernel/memlayout.h, KERNBASE + 128 MB.
abbrev pub phys_top : ℕ
phys_top = 0x8800_0000

-- `kmem`, and the memory whose free pages hold the list's links.
pub record Kmem : Type 0 where
  pub freelist : ℕ
  pub memory : ℕ → ℕ

-- The words that `memset` with the bytes 1 and 5 leaves.
abbrev pub freed_word : ℕ
freed_word = 0x0101_0101_0101_0101

abbrev pub fresh_word : ℕ
fresh_word = 0x0505_0505_0505_0505

-- `memset(pa, c, PGSIZE)`
pub fill_page : ℕ → ℕ → (ℕ → ℕ) → ℕ → ℕ
fill_page pa w memory a = if leb pa a && ltb a (pa + page_size) then w else memory a

-- `end` is the first address after the kernel, which the linker sets. `none` is a panic.
pub kfree : (end pa : ℕ) → Kmem → Option Kmem
kfree end pa k =
    if not (pa % page_size == 0) || (ltb pa end || leb phys_top pa)
    then none
    else some
        (record { freelist = pa; memory = update (fill_page pa freed_word k.memory) pa k.freelist })

pub kalloc : Kmem → ℕ × Kmem
kalloc k =
    let r = k.freelist in
    if r == 0
    then (0, k)
    else (r, record { freelist = k.memory r; memory = fill_page r fresh_word k.memory })

-- PGROUNDUP of kernel/riscv.h.
abbrev pub round_up : ℕ → ℕ
round_up a = (a + (page_size - 1)) / page_size * page_size

-- The loop of `freerange`, with the number of rounds that it is given; `none` is a panic.
pub free_loop : (end : ℕ) → ℕ → (p top : ℕ) → Kmem → Option Kmem
free_loop end zero p top k = some k
free_loop end (suc fuel) p top k =
    let rest = λ (k' : Kmem). free_loop end fuel (p + page_size) top k' in
    if leb (p + page_size) top
    then elim (kfree end p k) [ none ↦ none | some k' ↦ rest k' ]
    else some k

-- A round advances by a page, so `top / PGSIZE + 1` rounds are enough.
pub freerange : (end start top : ℕ) → Kmem → Option Kmem
unfolding free_loop
freerange end start top k = free_loop end (top / page_size + 1) (round_up start) top k

pub kinit : (end : ℕ) → (memory : ℕ → ℕ) → Option Kmem
kinit end memory = freerange end end phys_top (record { freelist = 0; memory = memory })
