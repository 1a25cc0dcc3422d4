-- ===== src/Strings/Bytes.antt =====
-- memset, memcmp and memmove of kernel/string.c byte by byte.
use os_assignments.Prelude.{
  ℕ, zero, suc, ◌+◌, ◌-◌, ◌%◌, ◌≤◌, ◌<◌, ◌≡◌, refl, Bool, ◌&&◌, ◌≢◌, ◌⊎◌, inl, inr, ltb, leb, ◌==◌,
  ==→eq, Bool-cases, if◌then◌else◌, arith, update,
}
use os_assignments.Strings.{
  Memory, memset_loop, memset, memcmp, int_diff, copy_down, copy_up, memmove,
}

-- Byte `a` lies among the `n` from `p` on.
abbrev pub inside : (p n a : ℕ) → Bool
inside p n a = leb p a && ltb a (p + n)

memset_loop-byte :
    (k i dst c : ℕ) (m : Memory) (a : ℕ)
    → memset_loop k i dst c m a ≡ (if inside (dst + i) k a then c % 256 else m a)
unfolding memset_loop
memset_loop-byte zero i dst c m a = ground arith
memset_loop-byte (suc k) i dst c m a =
    ground (arith, memset_loop-byte k (i + 1) dst c (update m (dst + i) (c % 256)) a)

copy_up-byte :
    (n d s : ℕ) (m : Memory) (a : ℕ)
    → (d ≤ s) ⊎ (s + n ≤ d)
    → copy_up n d s m a ≡ (if inside d n a then m (s + (a - d)) else m a)
unfolding copy_up
copy_up-byte zero d s m a apart = ground arith
copy_up-byte (suc n) d s m a apart =
    ground (arith, copy_up-byte n (d + 1) (s + 1) (update m d (m s)) a)

copy_down-byte :
    (n d s : ℕ) (m : Memory) (a : ℕ)
    → n ≤ s
    → s ≤ d
    → copy_down n d s m a ≡ (if inside (d - n) n a then m (s - n + (a - (d - n))) else m a)
unfolding copy_down
copy_down-byte zero d s m a room behind = ground arith
copy_down-byte (suc n) d s m a room behind =
    ground (arith, copy_down-byte n (d - 1) (s - 1) (update m (d - 1) (m (s - 1))) a)

-- memmove leaves at its target what its source held before, also where the two overlap, and
-- changes no other byte.
pub memmove-byte :
    (dst src n : ℕ) (m : Memory) (a : ℕ)
    → memmove dst src n m a ≡ (if inside dst n a then m (src + (a - dst)) else m a)
unfolding memmove
memmove-byte dst src n m a =
    ground (arith, copy_down-byte n (dst + n) (src + n) m a, copy_up-byte n dst src m a)

-- memset stores the low byte of its argument at each of the `n` places and changes no other byte.
pub memset-byte :
    (dst c n : ℕ) (m : Memory) (a : ℕ)
    → memset dst c n m a ≡ (if inside dst n a then c % 256 else m a)
unfolding memset
memset-byte dst c n m a = ground (arith, memset_loop-byte n 0 dst c m a)

-- What memcmp returns: 0 with the two blocks equal, or the difference, as an `int`, of the first
-- two bytes that differ.
abbrev pub Compared : (v1 v2 n : ℕ) → Memory → ℕ → Type 0
Compared v1 v2 n m r =
    ((r ≡ 0) × ((i : ℕ) → i < n → m (v1 + i) ≡ m (v2 + i)))
    ⊎ ((k : ℕ) × (k < n)
        × ((i : ℕ) → i < k → m (v1 + i) ≡ m (v2 + i))
        × (m (v1 + k) ≢ m (v2 + k))
        × (r ≡ int_diff (m (v1 + k)) (m (v2 + k))))

-- Places that agree from the second on, and at the first.
agree_shift :
    (v1 v2 n : ℕ) (m : Memory)
    → m v1 ≡ m v2
    → ((i : ℕ) → i < n → m (v1 + 1 + i) ≡ m (v2 + 1 + i))
    → (i : ℕ) → i < suc n
    → m (v1 + i) ≡ m (v2 + i)
agree_shift v1 v2 n m same rest zero h = ground arith
agree_shift v1 v2 n m same rest (suc i) h = ground (arith, rest i)

Compared-shift :
    (v1 v2 n : ℕ) (m : Memory) (r : ℕ)
    → m v1 ≡ m v2
    → Compared (v1 + 1) (v2 + 1) n m r
    → Compared v1 v2 (suc n) m r
Compared-shift v1 v2 n m r same (inl (none, rest)) = inl (none, agree_shift v1 v2 n m same rest)
Compared-shift v1 v2 n m r same (inr (k, lt, before, differ, e)) = inr (
  k + 1,
  omega arith,
  λ i h. agree_shift v1 v2 k m same before i (omega arith),
  ground arith,
  ground arith,
)

pub memcmp-Compared : (v1 v2 n : ℕ) (m : Memory) → Compared v1 v2 n m (memcmp v1 v2 n m)
unfolding memcmp
memcmp-Compared v1 v2 zero m = inl (refl, λ i h. absurd (omega arith))
memcmp-Compared v1 v2 (suc n) m = elim (Bool-cases (m v1 == m v2)) [
  | inl same ↦ rw same (
      Compared-shift v1 v2 n m (memcmp (v1 + 1) (v2 + 1) n m) (==→eq (m v1) (m v2) same)
        (memcmp-Compared (v1 + 1) (v2 + 1) n m))
  | inr differ ↦
      rw differ
        (inr (0, omega arith, λ i h. absurd (omega arith), ground (arith, differ), ground arith))
]
