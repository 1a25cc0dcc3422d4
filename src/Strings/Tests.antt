-- ===== src/Strings/Tests.antt =====
-- Runs of kernel/string.c on a memory that holds "ab" and "ac", and its theorems at them.
use os_assignments.Prelude.{ℕ, ◌+◌, ◌-◌, ◌≡◌, refl, some, inr, arith, if◌then◌else◌, ◌==◌, word}
use os_assignments.Strings.{Memory, memmove, strncmp, safestrcpy, strlen_loop}
use os_assignments.Strings.Bytes.{inside, memmove-byte}
use os_assignments.Strings.Text.{Terminated, safestrcpy-strlen}

-- "ab" at 100 and "ac" at 200, zeros elsewhere.
abbrev text : Memory
text a =
    if a == 100
    then 97
    else if a == 101
    then 98
    else if a == 200
    then 97
    else if a == 201
    then 99
    else 0

order : strncmp 100 200 3 text ≡ word - 1
unfolding strncmp
order = refl

count : strlen_loop 10 100 0 text ≡ some 2
unfolding strlen_loop
count = refl

-- The target lies one byte behind the source.
memmove-byte_example :
    memmove 101 100 3 text 102 ≡ (if inside 101 3 102 then text (100 + (102 - 101)) else text 102)
memmove-byte_example = memmove-byte 101 100 3 text 102

safestrcpy-strlen_example :
    (k : ℕ) × Terminated 300 100 (2 - 1) k text (safestrcpy 300 100 2 text)
    × (strlen_loop 4 300 0 (safestrcpy 300 100 2 text) ≡ some k)
safestrcpy-strlen_example =
    safestrcpy-strlen 300 100 2 4 text (omega arith) (omega arith) (inr (omega arith)) (omega arith)
