-- ===== src/Fs.antt =====
-- kernel/fs.c: the blocks of the disk, seen through the buffer cache and the log, and the bitmap
-- of free blocks.
pub mod Bits
pub mod Blocks
pub mod Logged
pub mod Inode
pub mod Itable
pub mod Path
pub mod Dir
use os_assignments.Prelude.{
  ℕ, zero, suc, ◌+◌, ◌-◌, ◌*◌, ◌/◌, ◌%◌, Bool, Option, none, some, not, ltb, ◌==◌, if◌then◌else◌,
  update, min, List, ◌∷◌, find_from,
}

abbrev pub bsize : ℕ
bsize = 1024

-- The bits of a bitmap block.
abbrev pub bpb : ℕ
bpb = bsize * 8

-- The bytes of a block.
abbrev pub Block : Type 0
Block = ℕ → ℕ

-- The fields of `struct superblock` that the kernel reads after the boot.
pub record SuperBlock : Type 0 where
  pub size : ℕ
  pub ninodes : ℕ
  pub inodestart : ℕ
  pub bmapstart : ℕ

-- `block b` is the data that `bread` of block `b` returns, and `logged` has the blocks of the
-- `log_write` calls, the last first.
pub record Disk : Type 0 where
  pub block : ℕ → Block
  pub logged : List ℕ

abbrev pub set_block : ℕ → Block → Disk → Disk
set_block b v d = record d { block = update d.block b v }

abbrev pub log_write : ℕ → Disk → Disk
log_write b d = record d { logged = b ∷ d.logged }

-- `x & (1 << k)`, `x | (1 << k)` and `x & ~(1 << k)`.
pub test_bit : (k x : ℕ) → Bool
test_bit zero x = x % 2 == 1
test_bit (suc k) x = test_bit k (x / 2)

pub set_bit : (k x : ℕ) → ℕ
set_bit zero x = x / 2 * 2 + 1
set_bit (suc k) x = set_bit k (x / 2) * 2 + x % 2

pub clear_bit : (k x : ℕ) → ℕ
clear_bit zero x = x / 2 * 2
clear_bit (suc k) x = clear_bit k (x / 2) * 2 + x % 2

-- `bp->data[bi/8] & m`, `bp->data[bi/8] |= m` and `bp->data[bi/8] &= ~m`.
pub bit_at : (bi : ℕ) → Block → Bool
unfolding test_bit
bit_at bi v = test_bit (bi % 8) (v (bi / 8))

pub mark : (bi : ℕ) → Block → Block
unfolding set_bit
mark bi v = update v (bi / 8) (set_bit (bi % 8) (v (bi / 8)))

pub unmark : (bi : ℕ) → Block → Block
unfolding clear_bit
unmark bi v = update v (bi / 8) (clear_bit (bi % 8) (v (bi / 8)))

-- `BBLOCK`
abbrev pub bblock : ℕ → SuperBlock → ℕ
bblock b sb = b / bpb + sb.bmapstart

pub bzero : (bno : ℕ) → Disk → Disk
bzero bno d = log_write bno (set_block bno (λ i. 0) d)

-- The inner loop of `balloc` on the bitmap block of the blocks from `b` on.
pub free_bit : SuperBlock → (b : ℕ) → Block → Option ℕ
unfolding find_from bit_at
free_bit sb b v = find_from (min bpb (sb.size - b)) 0 (λ bi. not (bit_at bi v))

-- The block that is taken.
pub take_block : SuperBlock → (b bi : ℕ) → Disk → ℕ × Disk
unfolding mark bzero
take_block sb b bi d =
    let bm = bblock b sb in
    (b + bi, bzero (b + bi) (log_write bm (set_block bm (mark bi (d.block bm)) d)))

pub balloc_at : SuperBlock → (b : ℕ) → Option ℕ → Option (ℕ × Disk) → Disk → Option (ℕ × Disk)
unfolding take_block
balloc_at sb b none rest d = rest
balloc_at sb b (some bi) rest d = some (take_block sb b bi d)

-- The outer loop, with a round for each bitmap block; `none` is the panic.
pub balloc_loop : ℕ → SuperBlock → (b : ℕ) → Disk → Option (ℕ × Disk)
unfolding balloc_at free_bit
balloc_loop zero sb b d = none
balloc_loop (suc k) sb b d =
    let rest = balloc_loop k sb (b + bpb) d in
    let found = free_bit sb b (d.block (bblock b sb)) in
    if ltb b sb.size then balloc_at sb b found rest d else none

pub balloc : SuperBlock → Disk → Option (ℕ × Disk)
unfolding balloc_loop
balloc sb d = balloc_loop (sb.size / bpb + 1) sb 0 d

-- `bfree`; `none` is its panic.
pub bfree : SuperBlock → (b : ℕ) → Disk → Option Disk
unfolding bit_at unmark
bfree sb b d =
    let bm = bblock b sb in
    if not (bit_at (b % bpb) (d.block bm))
    then none
    else some (log_write bm (set_block bm (unmark (b % bpb) (d.block bm)) d))
