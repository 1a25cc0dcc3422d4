-- ===== src/Fs/Itable/Alloc.antt =====
-- `ialloc` of kernel/fs.c: the first inode on the disk without a type is taken.
use os_assignments.Prelude.{
  ℕ, zero, suc, ◌+◌, ◌-◌, ◌≤◌, ◌<◌, ◌≡◌, ◌≢◌, sym, ap, ◌∙◌, inl, inr, arith, if◌then◌else◌, ◌==◌,
  ◌&&◌, leb, ltb, Bool-cases, ==→eq, ==_false→ne, Option, none, some, ◌>>=◌,
}
use mathlib.Core.Path.{subst}
use os_assignments.Fs.{Block, SuperBlock, Disk, set_block, log_write}
use os_assignments.Fs.Inode.{get16, put16, get32, get_inode, iblock, ioffset}
use os_assignments.Fs.Itable.{Itable, iget}

-- `memset(dip, 0, sizeof(*dip))` of the inode at byte `p`.
pub clear_inode : (p : ℕ) → Block → Block
clear_inode p v a = if leb p a && ltb a (p + 64) then 0 else v a

-- The inode is free: it gets its type.
pub take_inode : SuperBlock → (inum type : ℕ) → Disk → Disk
unfolding clear_inode put16
take_inode sb inum type d =
    let b = iblock inum sb in
    log_write b (set_block b (put16 (ioffset inum) type (clear_inode (ioffset inum) (d.block b))) d)

-- The loop, from `inum` on; `none` is the panic.
pub ialloc_loop : ℕ → SuperBlock → (inum type : ℕ) → Disk → Option (ℕ × Disk)
unfolding get16 take_inode
ialloc_loop zero sb inum type d = none
ialloc_loop (suc k) sb inum type d =
    let rest = ialloc_loop k sb (inum + 1) type d in
    if get16 (ioffset inum) (d.block (iblock inum sb)) == 0
    then some (inum, take_inode sb inum type d)
    else rest

pub ialloc : SuperBlock → (dev type : ℕ) → Itable → Disk → Option (ℕ × Itable × Disk)
unfolding ialloc_loop
ialloc sb dev type t d = do
  (inum, d1) ← ialloc_loop (sb.ninodes - 1) sb 1 type d
  (i, t1) ← iget dev inum t
  some (i, t1, d1)

-- The type of an inode on the disk.
abbrev pub type_at : SuperBlock → Disk → (i : ℕ) → ℕ
type_at sb d i = get16 (ioffset i) (d.block (iblock i sb))

type_at-take_inode :
    (sb : SuperBlock) (inum type i : ℕ) (d : Disk)
    → type < 65536
    → type_at sb (take_inode sb inum type d) i ≡ (if i == inum then type else type_at sb d i)
unfolding get16 put16 take_inode clear_inode
type_at-take_inode sb inum type i d small = elim (Bool-cases (iblock i sb == iblock inum sb)) [
  | inl e ↦ rw e (ground arith)
  | inr e ↦ rw e (ground arith)
]

-- The inode that is taken is empty.
fresh-inode :
    (sb : SuperBlock) (inum type : ℕ) (d : Disk)
    → (let ip = get_inode inum ((take_inode sb inum type d).block (iblock inum sb)) in
        (ip.nlink ≡ 0) × (ip.size ≡ 0) × ((k : ℕ) → k ≤ 12 → ip.addrs k ≡ 0))
unfolding get_inode get16 get32 put16 take_inode clear_inode
fresh-inode sb inum type d = (ground arith, ground arith, λ k le. ground arith)

-- How `ialloc` chooses: the first inode from `from` on without a type has the new type, no links, no
-- size and no blocks, and every other one has the type it had; or it panics, none being free.
abbrev pub TakesFirst : SuperBlock → (type from n : ℕ) → Disk → Option (ℕ × Disk) → Type 0
TakesFirst sb type from n d none = (i : ℕ) → from ≤ i → i < n → type_at sb d i ≢ 0
TakesFirst sb type from n d (some (inum, d')) =
    (from ≤ inum)
    × (inum < n)
    × (type_at sb d inum ≡ 0)
    × ((i : ℕ) → from ≤ i → i < inum → type_at sb d i ≢ 0)
    × ((i : ℕ) → type_at sb d' i ≡ (if i == inum then type else type_at sb d i))
    × (let ip = get_inode inum (d'.block (iblock inum sb)) in
        (ip.nlink ≡ 0) × (ip.size ≡ 0) × ((k : ℕ) → k ≤ 12 → ip.addrs k ≡ 0))

one_more :
    (sb : SuperBlock) (type from n : ℕ) (d : Disk) (o : Option (ℕ × Disk))
    → type_at sb d from ≢ 0
    → TakesFirst sb type (from + 1) n d o
    → TakesFirst sb type from n d o
one_more sb type from n d none used h = λ i le lt. elim (Bool-cases (i == from)) [
  | inl e ↦ λ z. used (ap (type_at sb d) (sym (==→eq i from e)) ∙ z)
  | inr e ↦ h i (ground (arith, e)) lt
]
one_more sb type from n d (some (inum, d')) used (le, lt, free, before, types, empty) = (
  omega arith,
  lt,
  free,
  λ i li ll. elim (Bool-cases (i == from)) [
    | inl e ↦ λ z. used (ap (type_at sb d) (sym (==→eq i from e)) ∙ z)
    | inr e ↦ before i (ground (arith, e)) ll
  ],
  types,
  empty,
)

pub ialloc_loop-TakesFirst :
    (k : ℕ) (sb : SuperBlock) (inum type : ℕ) (d : Disk)
    → type < 65536
    → TakesFirst sb type inum (inum + k) d (ialloc_loop k sb inum type d)
unfolding ialloc_loop
ialloc_loop-TakesFirst zero sb inum type d small = λ i le lt. absurd (omega arith)
ialloc_loop-TakesFirst (suc k) sb inum type d small = elim (Bool-cases (type_at sb d inum == 0)) [
  | inl z ↦ rw z (
    omega arith,
    omega arith,
    ==→eq (type_at sb d inum) 0 z,
    λ i le lt. absurd (omega arith),
    λ i. type_at-take_inode sb inum type i d small,
    fresh-inode sb inum type d,
  )
  | inr s ↦
      let n : inum + 1 + k ≡ inum + suc k = omega arith in
      rw s (
        one_more sb type inum (inum + suc k) d (ialloc_loop k sb (inum + 1) type d)
          (==_false→ne (type_at sb d inum) 0 s)
          (subst (λ n. TakesFirst sb type (inum + 1) n d (ialloc_loop k sb (inum + 1) type d)) n
            (ialloc_loop-TakesFirst k sb (inum + 1) type d small)))
]
