-- ===== src/Fs/Itable/Tests.antt =====
-- A run of the table of inodes of kernel/fs.c, and its theorems at it.
use os_assignments.Prelude.{
  ◌≡◌, refl, inl, arith, none, some, true, false, [], ◌∷◌, update, if◌then◌else◌, ◌==◌, ◌&&◌,
}
use mathlib.Core.Option.{none-ne-some}
use os_assignments.Fs.{SuperBlock, Disk}
use os_assignments.Fs.Inode.{get_inode, get16}
use os_assignments.Fs.Itable.{Entry, Itable, iget, is_last, ilock, iunlock, iput_lock, goes}
use os_assignments.Fs.Itable.Refs.{count}
use os_assignments.Fs.Itable.Steps.{
  Reach, boot-Reach, step-Reach, get-Step, lock-Step, unlock-Step, IsTable,
}
use os_assignments.Fs.Itable.Valid.{Reach-IsTable, Reach-goes}

abbrev zeroed : Entry
zeroed = record {
  dev = 0;
  ref = 0;
  lock = none;
  valid = false;
  inode = record { inum = 0; type = 0; major = 0; minor = 0; nlink = 0; size = 0; addrs = λ i. 0 };
}

abbrev empty : Itable
empty i = zeroed

-- The root directory in the first entry.
abbrev root : Entry
root = record zeroed { dev = 1; ref = 1; inode = record zeroed.inode { inum = 1 } }

abbrev one_entry : Itable
one_entry = update empty 0 root

got_root : iget 1 1 empty ≡ some (0, one_entry)
unfolding iget
got_root = refl

reached : Reach (record { table = one_entry; held = (7, 0) ∷ [] })
unfolding count
reached = step-Reach (boot-Reach (λ i. (refl, refl))) (get-Step 7 1 1 0 got_root (omega arith))

Reach-IsTable_example : IsTable (record { table = one_entry; held = (7, 0) ∷ [] })
Reach-IsTable_example = Reach-IsTable reached

-- A file without links in the place of inode 1.
abbrev one_inode : Disk
one_inode = record { block = λ b i. if b == 2 && i == 64 then 2 else 0; logged = [] }

abbrev tiny_sb : SuperBlock
tiny_sb = record { size = 8; ninodes = 16; inodestart = 2; bmapstart = 3 }

abbrev locked : Itable
locked =
    update one_entry 0
      (record root { lock = some 7; valid = true; inode = get_inode 1 (one_inode.block 2) })

abbrev unlocked : Itable
unlocked = update locked 0 (record (locked 0) { lock = none })

has_locked : ilock tiny_sb 7 0 one_inode one_entry ≡ goes locked
unfolding ilock get_inode get16
has_locked = refl

has_unlocked : iunlock 7 0 locked ≡ some unlocked
unfolding iunlock
has_unlocked = refl

read_in : Reach (record { table = unlocked; held = (7, 0) ∷ [] })
read_in =
    step-Reach (step-Reach reached (lock-Step tiny_sb one_inode 7 0 (inl (refl, refl)) has_locked))
      (unlock-Step 7 0 has_unlocked)

last_one : is_last (unlocked 0) ≡ true
unfolding is_last get_inode get16
last_one = refl

Reach-goes_example :
    iput_lock 7 0 unlocked ≡ goes (update unlocked 0 (record (unlocked 0) { lock = some 7 }))
Reach-goes_example = Reach-goes read_in 7 0 (inl (refl, refl)) (none-ne-some 7) last_one
