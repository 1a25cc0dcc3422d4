-- ===== src/Fs/Bits.antt =====
-- The bits of a byte of the bitmap of kernel/fs.c, and of a bitmap block.
use os_assignments.Prelude.{ℕ, zero, suc, ◌/◌, ◌%◌, ◌≡◌, true, false, ◌==◌, if◌then◌else◌, arith}
use os_assignments.Fs.{Block, test_bit, set_bit, clear_bit, bit_at, mark, unmark}

test_bit-set_bit : (k j x : ℕ) → test_bit j (set_bit k x) ≡ (if j == k then true else test_bit j x)
unfolding test_bit set_bit
test_bit-set_bit zero zero x = ground arith
test_bit-set_bit zero (suc j) x = ground arith
test_bit-set_bit (suc k) zero x = ground arith
test_bit-set_bit (suc k) (suc j) x = ground (arith, test_bit-set_bit k j (x / 2))

test_bit-clear_bit :
    (k j x : ℕ) → test_bit j (clear_bit k x) ≡ (if j == k then false else test_bit j x)
unfolding test_bit clear_bit
test_bit-clear_bit zero zero x = ground arith
test_bit-clear_bit zero (suc j) x = ground arith
test_bit-clear_bit (suc k) zero x = ground arith
test_bit-clear_bit (suc k) (suc j) x = ground (arith, test_bit-clear_bit k j (x / 2))

-- Setting a clear bit and clearing it again gives the byte back.
clear_bit-set_bit : (k x : ℕ) → test_bit k x ≡ false → clear_bit k (set_bit k x) ≡ x
unfolding test_bit set_bit clear_bit
clear_bit-set_bit zero x free = ground arith
clear_bit-set_bit (suc k) x free = ground (arith, clear_bit-set_bit k (x / 2))

pub bit_at-mark :
    (i j : ℕ) (v : Block) → bit_at j (mark i v) ≡ (if j == i then true else bit_at j v)
unfolding bit_at mark
bit_at-mark i j v = ground (arith, test_bit-set_bit (i % 8) (j % 8) (v (i / 8)))

pub bit_at-unmark :
    (i j : ℕ) (v : Block) → bit_at j (unmark i v) ≡ (if j == i then false else bit_at j v)
unfolding bit_at unmark
bit_at-unmark i j v = ground (arith, test_bit-clear_bit (i % 8) (j % 8) (v (i / 8)))

pub unmark-mark : (i : ℕ) (v : Block) (a : ℕ) → bit_at i v ≡ false → unmark i (mark i v) a ≡ v a
unfolding bit_at mark unmark
unmark-mark i v a free = ground (arith, clear_bit-set_bit (i % 8) (v (i / 8)))
