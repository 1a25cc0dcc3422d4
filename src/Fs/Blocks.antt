-- ===== src/Fs/Blocks.antt =====
-- balloc and bfree of kernel/fs.c against the set of blocks in use.
use os_assignments.Prelude.{
  ℕ, zero, suc, ◌+◌, ◌-◌, ◌*◌, ◌/◌, ◌%◌, ◌<◌, ◌≡◌, ◌≢◌, refl, ap, Bool, true, false, Option, none,
  some, not, ltb, ◌==◌, if◌then◌else◌, update, min, ◌∷◌, arith, Bool-cases, inl, inr, find_from,
  FindResult, find_from-FindResult, ltb→lt,
}
use os_assignments.Fs.{
  Block, SuperBlock, Disk, bpb, bblock, bit_at, mark, bzero, free_bit, take_block, balloc_at,
  balloc_loop, balloc, bfree,
}
use os_assignments.Fs.Bits.{bit_at-mark, bit_at-unmark, unmark-mark}

-- The bitmap says that block `c` is in use.
abbrev pub in_use : SuperBlock → Disk → (c : ℕ) → Bool
in_use sb d c = bit_at (c % bpb) (d.block (bblock c sb))

-- The bitmap lies on the disk and is in use itself.
abbrev pub HasBitmap : SuperBlock → Disk → Type 0
HasBitmap sb d =
    (c : ℕ) → c < sb.size → (bblock c sb < sb.size) × (in_use sb d (bblock c sb) ≡ true)

abbrev pub zeros : Block
zeros i = 0

-- The disk with block `a` taken.
abbrev pub with_block : SuperBlock → (a : ℕ) → Disk → Disk
with_block sb a d = record {
  block = update (update d.block (bblock a sb) (mark (a % bpb) (d.block (bblock a sb)))) a zeros;
  logged = a ∷ bblock a sb ∷ d.logged;
}

-- How `balloc` ends: with the first free block, or by its panic on a full disk.
abbrev pub Allocates : SuperBlock → Disk → Option (ℕ × Disk) → Type 0
Allocates sb d none = (c : ℕ) → c < sb.size → in_use sb d c ≡ true
Allocates sb d (some (a, d')) =
    (a < sb.size)
    × (in_use sb d a ≡ false)
    × ((c : ℕ) → c < a → in_use sb d c ≡ true)
    × (d' ≡ with_block sb a d)

-- In a group of `bpb` blocks from `b` on.
in_use_at :
    (sb : SuperBlock) (d : Disk) (b bi : ℕ)
    → b % bpb ≡ 0
    → bi < bpb
    → in_use sb d (b + bi) ≡ bit_at bi (d.block (bblock b sb))
in_use_at sb d b bi al lt =
    let place : (b + bi) % bpb ≡ bi = omega arith in
    let same : (b + bi) / bpb ≡ b / bpb = omega arith in rw (place, same) refl

take_block_at :
    (sb : SuperBlock) (d : Disk) (b bi : ℕ)
    → b % bpb ≡ 0
    → bi < bpb
    → take_block sb b bi d ≡ (b + bi, with_block sb (b + bi) d)
unfolding take_block bzero
take_block_at sb d b bi al lt =
    let place : (b + bi) % bpb ≡ bi = omega arith in
    let same : (b + bi) / bpb ≡ b / bpb = omega arith in rw (place, same) refl

module _ (sb : SuperBlock) (d : Disk) where
  abbrev FullBelow : ℕ → Type 0
  FullBelow b = (c : ℕ) → c < b → in_use sb d c ≡ true

  found-Allocates :
      (b : ℕ) (o : Option ℕ) (rest : Option (ℕ × Disk))
      → b % bpb ≡ 0
      → b < sb.size
      → FullBelow b
      → FindResult (min bpb (sb.size - b)) 0 (λ bi. not (bit_at bi (d.block (bblock b sb)))) o
      → (FullBelow (min (b + bpb) sb.size) → Allocates sb d rest)
      → Allocates sb d (balloc_at sb b o rest d)
  unfolding balloc_at
  found-Allocates b none rest al lt full miss later = later (λ c h. elim (Bool-cases (ltb c b)) [
    | inl low ↦ full c (ltb→lt c b low)
    | inr high ↦
        let place : b + (c - b) ≡ c = ground arith in
        let used = miss (c - b) (omega arith) (ground arith) in
        rw (← place) (ground (arith, in_use_at sb d b (c - b), used))
  ])
  found-Allocates b (some bi) rest al lt full (lo, hi, hit, before) later = (
    ground arith,
    ground (arith, in_use_at sb d b bi al (omega arith), hit),
    λ c h. elim (Bool-cases (ltb c b)) [
      | inl low ↦ full c (ltb→lt c b low)
      | inr high ↦
          let place : b + (c - b) ≡ c = ground arith in
          let used = before (c - b) (omega arith) (ground arith) in
          rw (← place) (ground (arith, in_use_at sb d b (c - b), used))
    ],
    ap (λ p. p.1) (take_block_at sb d b bi al (omega arith)),
  )

  balloc_loop-Allocates :
      (k b : ℕ)
      → b % bpb ≡ 0
      → sb.size < b + k * bpb
      → FullBelow (min b sb.size)
      → Allocates sb d (balloc_loop k sb b d)
  unfolding balloc_loop free_bit
  balloc_loop-Allocates zero b al fuel full = λ c h. full c (omega arith)
  balloc_loop-Allocates (suc k) b al fuel full = elim (Bool-cases (ltb b sb.size)) [
    | inr past ↦ rw past (λ c h. full c (ground arith))
    | inl more ↦
        let lt : b < sb.size = ltb→lt b sb.size more in
        let test = λ (bi : ℕ). not (bit_at bi (d.block (bblock b sb))) in
        rw more (
          found-Allocates b (find_from (min bpb (sb.size - b)) 0 test)
            (balloc_loop k sb (b + bpb) d) al lt (λ c h. full c (omega arith))
            (find_from-FindResult test (min bpb (sb.size - b)) 0)
            (λ full'. balloc_loop-Allocates k (b + bpb) (omega arith) (omega arith) full'))
  ]

  -- balloc panics exactly on a full disk, and else takes the first free block, marks it in the
  -- bitmap, zeroes it, and logs both.
  pub balloc-Allocates : Allocates sb d (balloc sb d)
  unfolding balloc
  balloc-Allocates =
      balloc_loop-Allocates (sb.size / bpb + 1) 0 (omega arith) (omega arith)
        (λ c h. absurd (omega arith))

module _ (sb : SuperBlock) (d : Disk) (a : ℕ) (laid : HasBitmap sb d) (lt : a < sb.size)
    (free : in_use sb d a ≡ false) where
  -- The block that is taken is none of the bitmap.
  bitmap-ne : (c : ℕ) → c < sb.size → bblock c sb ≢ a
  bitmap-ne c h e = ground (arith, ap (in_use sb d) e, laid c h)

  -- The blocks in use behind `balloc`.
  pub in_use-with_block :
      (c : ℕ)
      → c < sb.size
      → in_use sb (with_block sb a d) c ≡ (if c == a then true else in_use sb d c)
  in_use-with_block c h =
      ground (arith, bitmap-ne c h, bit_at-mark (a % bpb) (c % bpb) (d.block (bblock a sb)))

  -- A block that balloc has taken, and bfree: it does not panic, and every block but the zeroed one, the bitmap
  -- included, has its bytes again.
  pub bfree-with_block :
      (d' : Disk) × (bfree sb a (with_block sb a d) ≡ some d')
      × ((x y : ℕ) → x ≢ a → d'.block x y ≡ d.block x y)
  unfolding bfree
  bfree-with_block =
      let v = d.block (bblock a sb) in
      let ne = bitmap-ne a lt in
      let marked : bit_at (a % bpb) ((with_block sb a d).block (bblock a sb)) ≡ true =
        ground (arith, ne, bit_at-mark (a % bpb) (a % bpb) v) in
      rw marked (_, refl, λ x y other. ground (arith, ne, unmark-mark (a % bpb) v y free))

-- bfree panics exactly for a block that is not in use; else the block is in use no more, every
-- other one is as before, and only the bitmap block has changed, which is logged.
abbrev pub Frees : SuperBlock → (a : ℕ) → Disk → Option Disk → Type 0
Frees sb a d none = in_use sb d a ≡ false
Frees sb a d (some d') =
    (in_use sb d a ≡ true)
    × ((c : ℕ) → in_use sb d' c ≡ (if c == a then false else in_use sb d c))
    × ((x : ℕ) → x ≢ bblock a sb → d'.block x ≡ d.block x)
    × (d'.logged ≡ bblock a sb ∷ d.logged)

pub bfree-Frees : (sb : SuperBlock) (a : ℕ) (d : Disk) → Frees sb a d (bfree sb a d)
unfolding bfree
bfree-Frees sb a d = elim (Bool-cases (in_use sb d a)) [
  | inr free ↦ rw free free
  | inl used ↦ rw used (
    used,
    λ c. ground (arith, bit_at-unmark (a % bpb) (c % bpb) (d.block (bblock a sb))),
    λ x other. ground arith,
    refl,
  )
]
