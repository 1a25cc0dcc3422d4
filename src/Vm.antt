-- ===== src/Vm.antt =====
-- kernel/vm.c: the page tables of RISC-V's Sv39 scheme, and copying between the kernel and a process.
pub mod Copy
pub mod Part
pub mod Text
mod Tests
use os_assignments.Prelude.{
  ℕ, zero, suc, ◌+◌, ◌-◌, ◌*◌, ◌/◌, ◌%◌, ◌^◌, Bool, true, false, Option, none, some, not, leb, ◌==◌,
  if◌then◌else◌, update, min,
}
use os_assignments.Strings.{Memory, memmove}

abbrev pub page_size : ℕ
page_size = 4096

-- `MAXVA`
abbrev pub max_va : ℕ
max_va = 2 ^ 38

-- `PX`, the index of a virtual address at a level.
abbrev pub px : (level va : ℕ) → ℕ
px level va = va / (page_size * 512 ^ level) % 512

-- `PTE2PA`, and the bits PTE_V and PTE_U.
abbrev pub pte_pa : ℕ → ℕ
pte_pa pte = pte / 1024 * 4096 % 2 ^ 64

abbrev pub pte_v : ℕ → Bool
pte_v pte = pte % 2 == 1

abbrev pub pte_u : ℕ → Bool
pte_u pte = pte / 16 % 2 == 1

-- The entries of the page tables, 64-bit words at their addresses.
abbrev pub Ptes : Type 0
Ptes = ℕ → ℕ

-- The loop of `walk` without `alloc`, from a level down: the address of the entry, `none` for 0.
pub walk_down : (level : ℕ) → (pagetable va : ℕ) → Ptes → Option ℕ
walk_down zero pagetable va t = some (pagetable + px 0 va * 8)
walk_down (suc level) pagetable va t =
    let pte = t (pagetable + px (suc level) va * 8) in
    let rest = walk_down level (pte_pa pte) va t in if pte_v pte then rest else none

-- `walkaddr` behind `walk`.
pub leaf_addr : Option ℕ → Ptes → ℕ
leaf_addr none t = 0
leaf_addr (some a) t =
    if not (pte_v (t a)) then 0 else if not (pte_u (t a)) then 0 else pte_pa (t a)

pub walkaddr : (pagetable va : ℕ) → Ptes → ℕ
unfolding walk_down leaf_addr
walkaddr pagetable va t = if leb max_va va then 0 else leaf_addr (walk_down 2 pagetable va t) t

-- `PGROUNDDOWN`
abbrev pub page_of : ℕ → ℕ
page_of va = va / page_size * page_size

-- The loop of `copyin`, with a round for each byte: whether it ended well.
pub copyin_loop : ℕ → (pagetable : ℕ) → Ptes → (dst srcva len : ℕ) → Memory → Bool × Memory
copyin_loop zero pagetable t dst srcva len m = (true, m)
copyin_loop (suc k) pagetable t dst srcva len m =
    let va0 = page_of srcva in
    let pa0 = walkaddr pagetable va0 t in
    let n = min (page_size - (srcva - va0)) len in
    let rest =
      copyin_loop k pagetable t (dst + n) (va0 + page_size) (len - n)
        (memmove dst (pa0 + (srcva - va0)) n m) in
    if len == 0 then (true, m) else if pa0 == 0 then (false, m) else rest

pub copyin : (pagetable : ℕ) → Ptes → (dst srcva len : ℕ) → Memory → Bool × Memory
unfolding copyin_loop
copyin pagetable t dst srcva len m = copyin_loop len pagetable t dst srcva len m

pub copyout_loop : ℕ → (pagetable : ℕ) → Ptes → (dstva src len : ℕ) → Memory → Bool × Memory
copyout_loop zero pagetable t dstva src len m = (true, m)
copyout_loop (suc k) pagetable t dstva src len m =
    let va0 = page_of dstva in
    let pa0 = walkaddr pagetable va0 t in
    let n = min (page_size - (dstva - va0)) len in
    let rest =
      copyout_loop k pagetable t (va0 + page_size) (src + n) (len - n)
        (memmove (pa0 + (dstva - va0)) src n m) in
    if len == 0 then (true, m) else if pa0 == 0 then (false, m) else rest

pub copyout : (pagetable : ℕ) → Ptes → (dstva src len : ℕ) → Memory → Bool × Memory
unfolding copyout_loop
copyout pagetable t dstva src len m = copyout_loop len pagetable t dstva src len m

-- The inner loop of `copyinstr`: whether it met the zero.
pub copy_text : (n p dst : ℕ) → Memory → Bool × Memory
copy_text zero p dst m = (false, m)
copy_text (suc n) p dst m =
    let rest = copy_text n (p + 1) (dst + 1) (update m dst (m p)) in
    if m p == 0 then (true, update m dst 0) else rest

pub copyinstr_loop : ℕ → (pagetable : ℕ) → Ptes → (dst srcva room : ℕ) → Memory → Bool × Memory
unfolding copy_text
copyinstr_loop zero pagetable t dst srcva room m = (false, m)
copyinstr_loop (suc k) pagetable t dst srcva room m =
    let va0 = page_of srcva in
    let pa0 = walkaddr pagetable va0 t in
    let n = min (page_size - (srcva - va0)) room in
    let part = copy_text n (pa0 + (srcva - va0)) dst m in
    let rest = copyinstr_loop k pagetable t (dst + n) (va0 + page_size) (room - n) part.1 in
    if room == 0 then (false, m) else if pa0 == 0 then (false, m) else if part.0 then part else rest

-- `copyinstr`; `room` is its `max`.
pub copyinstr : (pagetable : ℕ) → Ptes → (dst srcva room : ℕ) → Memory → Bool × Memory
unfolding copyinstr_loop
copyinstr pagetable t dst srcva room m = copyinstr_loop room pagetable t dst srcva room m
