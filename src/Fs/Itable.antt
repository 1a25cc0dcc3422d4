-- ===== src/Fs/Itable.antt =====
-- The table of inodes in memory of kernel/fs.c: references, locks, and what is freed with the last
-- reference.
pub mod Scan
pub mod Refs
pub mod Steps
pub mod Changes
pub mod Valid
pub mod Alloc
mod Tests
use os_assignments.Prelude.{
  ℕ, zero, suc, ◌+◌, ◌-◌, ◌%◌, Bool, true, false, Option, none, some, not, ◌&&◌, ◌||◌, ◌==◌,
  if◌then◌else◌, update, word, int_lt, ◌>>=◌,
}
use os_assignments.Fs.{SuperBlock, Disk}
use os_assignments.Fs.Inode.{Inode, get_inode, iblock, iupdate, itrunc}

abbrev pub ninode : ℕ
ninode = 50

-- An entry: `struct inode` whole. `lock` is the process that holds the sleep lock.
pub record Entry : Type 0 where
  pub dev : ℕ
  pub ref : ℕ
  pub lock : Option ℕ
  pub valid : Bool
  pub inode : Inode

abbrev pub Itable : Type 0
Itable = ℕ → Entry

-- Where the loop of `iget` has come out: at the inode's entry, or at the end, with the first empty
-- entry.
pub data ScanResult : Type 0 where
  found : (i : ℕ) → ScanResult
  missing : (empty : Option ℕ) → ScanResult

pub is_entry_of : (dev inum : ℕ) → Entry → Bool
is_entry_of dev inum ip = int_lt 0 ip.ref && ip.dev == dev && ip.inode.inum == inum

-- `if(empty == 0 && ip->ref == 0) empty = ip`
pub remember : Option ℕ → (i : ℕ) → Entry → Option ℕ
remember none i ip = if ip.ref == 0 then some i else none
remember (some e) i ip = some e

pub iget_scan : ℕ → (i dev inum : ℕ) → Option ℕ → Itable → ScanResult
unfolding is_entry_of remember
iget_scan zero i dev inum empty t = missing empty
iget_scan (suc k) i dev inum empty t =
    let rest = iget_scan k (i + 1) dev inum (remember empty i (t i)) t in
    if is_entry_of dev inum (t i) then found i else rest

pub iget_end : ScanResult → (dev inum : ℕ) → Itable → Option (ℕ × Itable)
iget_end (found i) dev inum t = some (i, update t i (record (t i) { ref = ((t i).ref + 1) % word }))
iget_end (missing none) dev inum t = none
iget_end (missing (some i)) dev inum t = some (
  i,
  update t i (record (t i) {
    dev = dev;
    inode = record (t i).inode { inum = inum };
    ref = 1;
    valid = false;
  }),
)

-- `iget`; `none` is its panic.
pub iget : (dev inum : ℕ) → Itable → Option (ℕ × Itable)
unfolding iget_scan iget_end
iget dev inum t = iget_end (iget_scan ninode 0 dev inum none t) dev inum t

pub idup : (i : ℕ) → Itable → Itable
idup i t = update t i (record (t i) { ref = ((t i).ref + 1) % word })

-- How a call ends that takes a sleep lock: it may have to wait for it.
pub data Outcome : Type 0 where
  panics : Outcome
  waits : Outcome
  goes : Itable → Outcome

-- `ilock` behind `acquiresleep`, which has given the lock to process `p`.
pub ilock_load : SuperBlock → (p i : ℕ) → Disk → Itable → Outcome
ilock_load sb p i d t =
    let ip = get_inode (t i).inode.inum (d.block (iblock (t i).inode.inum sb)) in
    if (t i).valid
    then goes (update t i (record (t i) { lock = some p }))
    else if ip.type == 0
    then panics
    else goes (update t i (record (t i) { lock = some p; valid = true; inode = ip }))

pub ilock_at : Option ℕ → SuperBlock → (p i : ℕ) → Disk → Itable → Outcome
unfolding ilock_load
ilock_at (some q) sb p i d t = waits
ilock_at none sb p i d t = ilock_load sb p i d t

pub ilock : SuperBlock → (p i : ℕ) → Disk → Itable → Outcome
unfolding ilock_at
ilock sb p i d t = if int_lt (t i).ref 1 then panics else ilock_at (t i).lock sb p i d t

-- `holdingsleep`
pub holds : Option ℕ → (p : ℕ) → Bool
holds none p = false
holds (some q) p = q == p

-- `iunlock`; `none` is its panic.
pub iunlock : (p i : ℕ) → Itable → Option Itable
unfolding holds
iunlock p i t =
    if not (holds (t i).lock p) || int_lt (t i).ref 1
    then none
    else some (update t i (record (t i) { lock = none }))

-- Whether `iput` drops the last reference to an inode without links.
pub is_last : Entry → Bool
is_last ip = ip.ref == 1 && ip.valid && ip.inode.nlink == 0

-- The `acquiresleep` of `iput`.
pub iput_lock_at : Option ℕ → (p i : ℕ) → Itable → Outcome
iput_lock_at (some q) p i t = waits
iput_lock_at none p i t = goes (update t i (record (t i) { lock = some p }))

pub iput_lock : (p i : ℕ) → Itable → Outcome
unfolding iput_lock_at
iput_lock p i t = iput_lock_at (t i).lock p i t

-- From `itrunc` to `releasesleep`; `none` is a panic of `bfree`.
pub iput_free : SuperBlock → (i : ℕ) → Itable → Disk → Option (Itable × Disk)
iput_free sb i t d = do
  (ip, d1) ← itrunc sb (t i).inode d
  let ip1 = record ip { type = 0 }
  some (update t i (record (t i) { inode = ip1; valid = false; lock = none }), iupdate sb ip1 d1)

pub iput_drop : (i : ℕ) → Itable → Itable
iput_drop i t = update t i (record (t i) { ref = ((t i).ref + (word - 1)) % word })

pub iput_end : (i : ℕ) → Option (Itable × Disk) → Disk → Outcome × Disk
unfolding iput_drop
iput_end i none d = (panics, d)
iput_end i (some (t, d1)) d = (goes (iput_drop i t), d1)

pub iput_last : SuperBlock → (i : ℕ) → Outcome → Disk → Outcome × Disk
unfolding iput_end
iput_last sb i panics d = (panics, d)
iput_last sb i waits d = (waits, d)
iput_last sb i (goes t) d = iput_end i (iput_free sb i t d) d

-- `iput` with nobody in between where it releases the lock of the table.
pub iput : SuperBlock → (p i : ℕ) → Itable → Disk → Outcome × Disk
unfolding is_last iput_lock iput_last iput_drop
iput sb p i t d =
    if is_last (t i) then iput_last sb i (iput_lock p i t) d else (goes (iput_drop i t), d)

pub iput_behind : SuperBlock → (p i : ℕ) → Option Itable → Disk → Outcome × Disk
unfolding iput
iput_behind sb p i none d = (panics, d)
iput_behind sb p i (some t) d = iput sb p i t d

pub iunlockput : SuperBlock → (p i : ℕ) → Itable → Disk → Outcome × Disk
unfolding iunlock iput_behind
iunlockput sb p i t d = iput_behind sb p i (iunlock p i t) d
