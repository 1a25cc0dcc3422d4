-- ===== src/Fs/Itable/Steps.antt =====
-- The operations on the table of inodes of kernel/fs.c in any order, by any processes.
use os_assignments.Prelude.{ℕ, ◌+◌, ◌^◌, ◌<◌, ◌≡◌, ◌≢◌, true, update, none, some, [], ◌∷◌}
use os_assignments.Fs.{SuperBlock, Disk}
use os_assignments.Fs.Inode.{Inode}
use os_assignments.Fs.Itable.{
  ninode, Itable, iget, idup, goes, ilock, iunlock, is_last, iput_lock, iput_free, iput_drop,
}
use os_assignments.Fs.Itable.Refs.{Holding, Holds, count, without}

pub record State : Type 0 where
  pub table : Itable
  pub held : Holding

-- Process `p` acts, on whatever the disk holds. It gives back its reference without the lock, and a
-- count stays an `int`.
pub data Step : State → State → Type 0 where
  get-Step :
      {t t' : Itable} {held : Holding} (p dev inum i : ℕ)
      → iget dev inum t ≡ some (i, t')
      → count i held + 1 < 2 ^ 31
      → Step (record { table = t; held = held }) (record { table = t'; held = (p, i) ∷ held })
  dup-Step :
      {t : Itable} {held : Holding} (p q i : ℕ)
      → Holds p i held
      → count i held + 1 < 2 ^ 31
      → Step (record { table = t; held = held }) (record { table = idup i t; held = (q, i) ∷ held })
  lock-Step :
      {t t' : Itable} {held : Holding} (sb : SuperBlock) (d : Disk) (p i : ℕ)
      → Holds p i held
      → ilock sb p i d t ≡ goes t'
      → Step (record { table = t; held = held }) (record { table = t'; held = held })
  unlock-Step :
      {t t' : Itable} {held : Holding} (p i : ℕ)
      → iunlock p i t ≡ some t'
      → Step (record { table = t; held = held }) (record { table = t'; held = held })
  set-Step :
      {t : Itable} {held : Holding} (p i : ℕ) (ip : Inode)
      → (t i).lock ≡ some p
      → ip.inum ≡ (t i).inode.inum
      → Step
          (record { table = t; held = held })
          (record { table = update t i (record (t i) { inode = ip }); held = held })
  last-Step :
      {t t' : Itable} {held : Holding} (p i : ℕ)
      → Holds p i held
      → is_last (t i) ≡ true
      → iput_lock p i t ≡ goes t'
      → Step (record { table = t; held = held }) (record { table = t'; held = held })
  free-Step :
      {t t' : Itable} {held : Holding} (sb : SuperBlock) (d d' : Disk) (p i : ℕ)
      → (t i).lock ≡ some p
      → iput_free sb i t d ≡ some (t', d')
      → Step (record { table = t; held = held }) (record { table = t'; held = held })
  drop-Step :
      {t : Itable} {held : Holding} (p i : ℕ)
      → Holds p i held
      → (t i).lock ≢ some p
      → Step
          (record { table = t; held = held })
          (record { table = iput_drop i t; held = without p i held })

pub data Reach : State → Type 0 where
  boot-Reach :
      {t : Itable}
      → ((i : ℕ) → ((t i).ref ≡ 0) × ((t i).lock ≡ none))
      → Reach (record { table = t; held = [] })
  step-Reach : {s s' : State} → Reach s → Step s s' → Reach s'

-- Each count is the number of references, no inode has two entries, and who has locked an entry has a
-- reference to it.
pub record IsTable (s : State) : Type 0 where
  pub counts : (i : ℕ) → ((s.table i).ref ≡ count i s.held) × (count i s.held < 2 ^ 31)
  pub unique :
      (i j : ℕ)
      → i < ninode
      → j < ninode
      → (s.table i).ref ≢ 0
      → (s.table j).ref ≢ 0
      → (s.table i).dev ≡ (s.table j).dev
      → (s.table i).inode.inum ≡ (s.table j).inode.inum
      → i ≡ j
  pub owners : (p i : ℕ) → (s.table i).lock ≡ some p → Holds p i s.held
