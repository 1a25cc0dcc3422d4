-- ===== src/Fs/Inode/RoundTrip.antt =====
-- Reading back with `readi` what `writei` of kernel/fs.c has written.
use os_assignments.Prelude.{ℕ, ◌+◌, ◌<◌, ◌≡◌, Option, none, some}
use os_assignments.Fs.{SuperBlock, Disk}
use os_assignments.Fs.Inode.{Inode, Source, WasRead}
use os_assignments.Fs.Inode.Content.{byte}
use os_assignments.Fs.Inode.Wrote.{Wrote}
use os_assignments.Fs.Inode.ReadUpTo.{ReadCrowded}

-- A read gave the `n` bytes of the source to the caller, or there was no block for a hole of the file.
abbrev pub ReadsBack :
    SuperBlock → Source → Inode → Disk → (src dst n : ℕ) → Option WasRead → Type 0
ReadsBack sb mem ip d src dst n none = ReadCrowded sb ip d n
ReadsBack sb mem ip d src dst n (some r) =
    (r.ret ≡ n) × ((j : ℕ) → j < n → r.target.bytes (dst + j) ≡ byte (mem (src + j)))
