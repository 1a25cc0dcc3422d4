-- ===== src/Fs/Inode/Tests.antt =====
-- Runs of kernel/fs.c on a disk of eight blocks, and its theorems at them.
use os_assignments.Prelude.{
  ℕ, ◌+◌, ◌≡◌, ◌≢◌, refl, sym, ◌∙◌, arith, Option, none, some, true, if◌then◌else◌, ◌==◌, [],
}
use os_assignments.Fs.{SuperBlock, Disk, bblock, test_bit, bit_at, balloc}
use os_assignments.Fs.Blocks.{HasBitmap, with_block}
use os_assignments.Fs.Inode.{
  Inode, Source, Target, iblock, get_inode, put_inode, bmap, writei, itrunc,
}
use os_assignments.Fs.Inode.Codec.{Apart, SameInode, get_inode-put_inode}
use os_assignments.Fs.Inode.Slots.{slot, slot_of, IsSound}
use os_assignments.Fs.Inode.Grow.{Foreign}
use os_assignments.Fs.Inode.Bmap.{Maps, bmap-Maps}
use os_assignments.Fs.Inode.Trunc.{Truncated, itrunc-Truncated}

-- The boot block, the super block, a block of inodes and the bitmap.
abbrev small_sb : SuperBlock
small_sb = record { size = 8; ninodes = 16; inodestart = 2; bmapstart = 3 }

-- The four first blocks are in use.
abbrev fresh_disk : Disk
fresh_disk = record { block = λ b i. if b == 3 then (if i == 0 then 15 else 0) else 0; logged = [] }

abbrev empty_file : Inode
empty_file = record {
  inum = 1;
  type = 2;
  major = 0;
  minor = 0;
  nlink = 1;
  size = 0;
  addrs = λ i. 0;
}

fresh-HasBitmap : HasBitmap small_sb fresh_disk
unfolding bit_at test_bit
fresh-HasBitmap c lt = let e : bblock c small_sb ≡ 3 = omega arith in rw e (omega arith, refl)

no_slot : (k : ℕ) → slot empty_file fresh_disk k ≡ 0
unfolding slot
no_slot k = ground arith

fresh-IsSound : IsSound small_sb empty_file fresh_disk
unfolding bit_at test_bit
fresh-IsSound = record {
  laid = fresh-HasBitmap;
  small = omega arith;
  some_disk = omega arith;
  boot = refl;
  used = λ k lt s. absurd (s (no_slot k));
  no_bitmap = λ k c lt s. absurd (s (no_slot k));
  apart = λ k j lk lj s. absurd (s (no_slot k));
}

abbrev hello : Source
hello a = some (104 + a)

first_free : balloc small_sb fresh_disk ≡ some (4, with_block small_sb 4 fresh_disk)
unfolding balloc
first_free = refl

get_inode-put_inode_example :
    SameInode empty_file (get_inode 1 (put_inode empty_file (λ i. 7)))
    × ((a : ℕ) → Apart 64 64 a → put_inode empty_file (λ i. 7) a ≡ 7)
get_inode-put_inode_example =
    get_inode-put_inode empty_file (λ i. 7)
      (omega arith, omega arith, omega arith, omega arith, omega arith, λ i le. omega arith)

bmap-Maps_example :
    Maps small_sb empty_file (slot_of 20) fresh_disk (bmap small_sb empty_file 20 fresh_disk)
bmap-Maps_example = bmap-Maps small_sb empty_file fresh_disk fresh-IsSound 20 (omega arith)

abbrev inode_behind : Option (ℕ × Inode × Disk) → Inode
inode_behind none = empty_file
inode_behind (some (n, ip, d)) = ip

abbrev disk_behind : Option (ℕ × Inode × Disk) → Disk
disk_behind none = fresh_disk
disk_behind (some (n, ip, d)) = d

abbrev written : Option (ℕ × Inode × Disk)
written = writei small_sb hello empty_file 0 0 3 fresh_disk

abbrev buffer : Target
buffer = record { writable = λ a. true; bytes = λ a. 0 }

-- A file with the block 4.
abbrev one_block : Inode
one_block = record empty_file { size = 3; addrs = λ i. if i == 0 then 4 else 0 }

abbrev used_disk : Disk
used_disk = record { block = λ b i. if b == 3 then (if i == 0 then 31 else 0) else 0; logged = [] }

one_slot : (k : ℕ) → slot one_block used_disk k ≡ (if k == 0 then 4 else 0)
unfolding slot
one_slot k = ground arith

first_slot : (k : ℕ) → slot one_block used_disk k ≢ 0 → k ≡ 0
first_slot k s = ground (arith, one_slot k)

used-IsSound : IsSound small_sb one_block used_disk
unfolding bit_at test_bit
used-IsSound = record {
  laid = λ c lt. let e : bblock c small_sb ≡ 3 = omega arith in rw e (omega arith, refl);
  small = omega arith;
  some_disk = omega arith;
  boot = refl;
  used = λ k lt s.
      let e : slot one_block used_disk k ≡ 4 = ground (arith, one_slot k, first_slot k s) in
      rw e (omega arith, refl);
  no_bitmap = λ k c lt s lc e. ground (arith, one_slot k, first_slot k s);
  apart = λ k j lk lj s e. first_slot k s ∙ sym (first_slot j (λ z. s (e ∙ z)));
}

used-Foreign : Foreign small_sb one_block used_disk (iblock 1 small_sb)
unfolding bit_at test_bit
used-Foreign = (omega arith, refl, λ c lt e. omega arith, λ k lt e. ground (arith, one_slot k))

itrunc-Truncated_example :
    (ip : Inode) × (d : Disk) × (itrunc small_sb one_block used_disk ≡ some (ip, d))
    × Truncated small_sb one_block used_disk ip d
itrunc-Truncated_example = itrunc-Truncated small_sb one_block used_disk used-IsSound used-Foreign
