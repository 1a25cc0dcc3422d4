-- ===== src/Fs/Inode/Wrote.antt =====
-- `writei` of kernel/fs.c as a whole: the checks in front of the loop, and the inode behind it.
use os_assignments.Prelude.{
  ℕ, ◌+◌, ◌-◌, ◌*◌, ◌≤◌, ◌<◌, ◌≡◌, ◌≢◌, ◌⊎◌, inl, arith, Bool, true, false, if◌then◌else◌, ◌&&◌,
  leb, ltb, word, Option, none, some, On, max,
}
use mathlib.Core.Path.{subst}
use os_assignments.Fs.{SuperBlock, Disk, bsize}
use os_assignments.Fs.Logged.{Logs, change-Logs}
use os_assignments.Fs.Inode.{Inode, maxfile, Source, iblock, iupdate, put_inode}
use os_assignments.Fs.Inode.Slots.{IsSound, content}
use os_assignments.Fs.Inode.Grow.{Foreign}
use os_assignments.Fs.Inode.Content.{byte}
use os_assignments.Fs.Inode.Progress.{Progress}
use os_assignments.Fs.Inode.Write.{LogsPart, Crowded}

-- What a write has done when it returns `tot`: `w` bytes of the source, all of them or those in front
-- of a fault, stand in the file from `off` on; the size is that of `tot` bytes; the inode is in
-- its block, which is logged; every block that has changed is logged, but for the one in which a
-- fault has stopped the copy; and no block of anybody else has changed.
pub record Wrote (sb : SuperBlock) (mem : Source) (ip0 : Inode) (d0 : Disk) (off src n : ℕ)
    (tot w : ℕ) (ip : Inode) (d : Disk) : Type 0 where
  pub ended :
      ((tot ≡ n) × (w ≡ n)) ⊎ ((tot ≤ w) × (w < tot + bsize) × (w < n) × (mem (src + w) ≡ none))
  pub sound : IsSound sb ip d
  pub bytes :
      (i : ℕ)
      → i < maxfile * bsize
      → content ip d i
        ≡ (if leb off i && ltb i (off + w) then byte (mem (src + (i - off))) else content ip0 d0 i)
  pub size : ip.size ≡ max ip0.size (off + tot)
  pub in_block : d.block (iblock ip0.inum sb) ≡ put_inode ip (d0.block (iblock ip0.inum sb))
  pub logged : On (iblock ip0.inum sb) d.logged
  pub logs : LogsPart ip0 d0 off n tot w ip d
  pub foreign : (x : ℕ) → Foreign sb ip0 d0 x → x ≢ iblock ip0.inum sb → d.block x ≡ d0.block x

-- How `writei` ends: in time, or by a panic of `balloc` with one free block at most.
abbrev pub Writes :
    SuperBlock → Source → Inode → Disk → (off src n : ℕ) → Option (ℕ × Inode × Disk) → Type 0
Writes sb mem ip0 d0 off src n none = Crowded sb mem ip0 d0 off src n
Writes sb mem ip0 d0 off src n (some (tot, ip, d)) =
    (w : ℕ) × Wrote sb mem ip0 d0 off src n tot w ip d

pub iupdate-block :
    (sb : SuperBlock) (ip : Inode) (d : Disk) (b : ℕ)
    → iblock ip.inum sb ≡ b
    → (iupdate sb ip d).block b ≡ put_inode ip (d.block b)
unfolding iupdate
iupdate-block sb ip d b here =
    subst (λ x. (iupdate sb ip d).block x ≡ put_inode ip (d.block x)) here (ground arith)

pub iupdate-Logs : (sb : SuperBlock) (ip : Inode) (d : Disk) → Logs none d (iupdate sb ip d)
unfolding iupdate
iupdate-Logs sb ip d = let b = iblock ip.inum sb in change-Logs b (put_inode ip (d.block b)) d

pub iupdate-logged :
    (sb : SuperBlock) (ip : Inode) (d : Disk) (b : ℕ)
    → iblock ip.inum sb ≡ b
    → On b (iupdate sb ip d).logged
unfolding iupdate
iupdate-logged sb ip d b here = inl here

pub iupdate-other :
    (sb : SuperBlock) (ip : Inode) (d : Disk) (x : ℕ)
    → x ≢ iblock ip.inum sb
    → (iupdate sb ip d).block x ≡ d.block x
unfolding iupdate
iupdate-other sb ip d x other = ground arith

-- What the checks in front of the loop let through, on numbers without wrap-around.
abbrev pub accepts : Inode → (off n : ℕ) → Bool
accepts ip off n = leb off ip.size && leb (off + n) (maxfile * bsize)

abbrev pub AfterChecks :
    SuperBlock → Source → Inode → Disk → (off src n : ℕ) → Bool → Option (ℕ × Inode × Disk) → Type 0
AfterChecks sb mem ip0 d0 off src n false o = o ≡ some (word - 1, ip0, d0)
AfterChecks sb mem ip0 d0 off src n true o = Writes sb mem ip0 d0 off src n o
