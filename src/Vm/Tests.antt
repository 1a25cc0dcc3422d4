-- ===== src/Vm/Tests.antt =====
-- Runs of kernel/vm.c on a page table with one page, and its theorems at them.
use os_assignments.Prelude.{ℕ, zero, suc, ◌+◌, ◌<◌, ◌≡◌, refl, arith, false, if◌then◌else◌, ◌==◌}
use os_assignments.Strings.{Memory}
use os_assignments.Strings.Bytes.{inside}
use os_assignments.Vm.{Ptes, walkaddr, copyin, copyinstr}
use os_assignments.Vm.Copy.{physical, HasCopied, copyin-HasCopied}
use os_assignments.Vm.Text.{GotText, copyinstr-GotText}

-- Three tables, from 4096 on, that map the first page to 20480.
abbrev ptes : Ptes
ptes a = if a == 4096 then 2049 else if a == 8192 then 3073 else if a == 12288 then 5137 else 0

-- The bytes `hi`, and zeros.
abbrev memory : Memory
memory a = if a == 24574 then 104 else if a == 24575 then 105 else 0

mapped_page : walkaddr 4096 0 ptes ≡ 20480
unfolding walkaddr
mapped_page = refl

no_page : walkaddr 4096 4096 ptes ≡ 0
unfolding walkaddr
no_page = refl

apart : (i : ℕ) → i < 3 → inside 100000 3 (physical 4096 ptes (4094 + i)) ≡ false
unfolding walkaddr
apart zero lt = refl
apart (suc zero) lt = refl
apart (suc (suc zero)) lt = refl
apart (suc (suc (suc i))) lt = absurd (omega arith)

copyin-HasCopied_example :
    HasCopied 4096 ptes 100000 4094 3 memory apart (copyin 4096 ptes 100000 4094 3 memory)
copyin-HasCopied_example = copyin-HasCopied 4096 ptes 100000 4094 3 memory apart

copyinstr-GotText_example :
    GotText 4096 ptes 100000 4094 3 memory apart (copyinstr 4096 ptes 100000 4094 3 memory)
copyinstr-GotText_example = copyinstr-GotText 4096 ptes 100000 4094 3 memory apart
