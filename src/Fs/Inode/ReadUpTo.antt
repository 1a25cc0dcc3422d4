-- ===== src/Fs/Inode/ReadUpTo.antt =====
-- How far the loop of `readi` of kernel/fs.c has come: the bytes of the file that its caller has.
use os_assignments.Prelude.{
  ℕ, zero, suc, ◌+◌, ◌-◌, ◌*◌, ◌/◌, ◌%◌, ◌≤◌, ◌<◌, ◌≡◌, ◌≢◌, refl, sym, ap, ◌∙◌, ◌⊎◌, inl, inr,
  arith, Bool, true, false, if◌then◌else◌, ◌&&◌, leb, ltb, update, word, Bool-cases, Option, none,
  some,
}
use os_assignments.Fs.{Block, SuperBlock, Disk, bsize}
use os_assignments.Fs.Blocks.{in_use}
use os_assignments.Fs.Inode.{Inode, maxfile, Target, copy_out, WasRead}
use os_assignments.Fs.Inode.Slots.{slot, slot_of, content}
use os_assignments.Fs.Inode.Grow.{Keeps}
use os_assignments.Fs.Inode.Content.{content-here}

-- What a copy of up to `m` bytes to the caller has done: `j` of them, all or those in front of a fault.
abbrev pub CopiedOut : (m p dst : ℕ) → Block → Target → Bool × Target → Type 0
CopiedOut m p dst v t (done, t') =
    (j : ℕ) × (j ≤ m)
    × (((done ≡ true) × (j ≡ m)) ⊎ ((done ≡ false) × (j < m) × (t.writable (dst + j) ≡ false)))
    × ((x : ℕ)
        → t'.bytes x ≡ (if leb dst x && ltb x (dst + j) then v (p + (x - dst)) else t.bytes x))
    × (t'.writable ≡ t.writable)

pub copy_out-CopiedOut :
    (m p dst : ℕ) (v : Block) (t : Target) → CopiedOut m p dst v t (copy_out m p dst v t)
unfolding copy_out
copy_out-CopiedOut zero p dst v t = (0, omega arith, inl (refl, refl), λ x. ground arith, refl)
copy_out-CopiedOut (suc m) p dst v t = elim (Bool-cases (t.writable dst)) [
  | inl ok ↦
      let (j, le, why, bytes, same) =
        copy_out-CopiedOut m (p + 1) (dst + 1) v (record t { bytes = update t.bytes dst (v p) }) in
      rw ok (j + 1, omega arith, ground (arith, why), λ x. ground (arith, bytes x), same)
  | inr fault ↦
      rw fault
        (0, omega arith, inr (refl, omega arith, ground (arith, fault)), λ x. ground arith, refl)
]

-- A read of `n` bytes found no block for a hole of the file: one block is free at most.
abbrev pub ReadCrowded : SuperBlock → Inode → Disk → (n : ℕ) → Type 0
ReadCrowded sb ip0 d0 n =
    (w : ℕ) × (ip : Inode) × (d : Disk) × (w < n)
    × Keeps sb ip0 d0 ip d
    × ((c e : ℕ)
        → c < sb.size
        → e < sb.size
        → in_use sb d c ≡ false
        → in_use sb d e ≡ false
        → c ≡ e)

module _ (sb : SuperBlock) (ip0 : Inode) (d0 : Disk) (t0 : Target) (off dst : ℕ) where
  -- The first `w` bytes of the file from `off` on are at `dst`.
  pub record ReadUpTo (w : ℕ) (ip : Inode) (d : Disk) (t : Target) : Type 0 where
    pub keeps : Keeps sb ip0 d0 ip d
    pub bytes :
        (x : ℕ)
        → t.bytes x
          ≡ (if leb dst x && ltb x (dst + w) then content ip0 d0 (off + (x - dst)) else t0.bytes x)
    pub writable : t.writable ≡ t0.writable

  -- How a read ends. A fault, also one behind some bytes, makes it return -1.
  abbrev pub HasRead : (n : ℕ) → WasRead → Type 0
  HasRead n r =
      (w : ℕ) × ReadUpTo w r.inode r.disk r.target
      × (((r.ret ≡ n) × (w ≡ n)) ⊎ ((r.ret ≡ word - 1) × (w < n) × (t0.writable (dst + w) ≡ false)))

  abbrev pub Reads : (n : ℕ) → Option WasRead → Type 0
  Reads n none = ReadCrowded sb ip0 d0 n
  Reads n (some r) = HasRead n r

  module _ (w j a : ℕ) (ip : Inode) (d : Disk) (t t' : Target) (p : ReadUpTo w ip d t)
      (range : off + (w + j) ≤ maxfile * bsize) (pos : a ≢ 0)
      (at : slot ip d (slot_of ((off + w) / bsize)) ≡ a) (le : j ≤ bsize - (off + w) % bsize)
      (copied : (x : ℕ)
        → t'.bytes x ≡ (
            if leb (dst + w) x && ltb x (dst + w + j)
            then d.block a ((off + w) % bsize + (x - (dst + w)))
            else t.bytes x)) where
    step-bytes :
        (x : ℕ)
        → t'.bytes x ≡ (
            if leb dst x && ltb x (dst + (w + j))
            then content ip0 d0 (off + (x - dst))
            else t0.bytes x)
    step-bytes x = elim (Bool-cases (leb (dst + w) x && ltb x (dst + w + j))) [
      | inl inside ↦
          let i = off + (x - dst) in
          let goal : (leb dst x && ltb x (dst + (w + j))) ≡ true = ground arith in
          let same : i / bsize ≡ (off + w) / bsize = ground arith in
          let place : (off + w) % bsize + (x - (dst + w)) ≡ i % bsize = ground arith in
          let here = content-here ip d i a (ap (λ b. slot ip d (slot_of b)) same ∙ at) pos in
          rw goal (copied x ∙ (rw (inside, place) (sym here) ∙ p.keeps.bytes i (ground arith)))
      | inr outside ↦
          let goal : (leb dst x && ltb x (dst + (w + j))) ≡ (leb dst x && ltb x (dst + w)) =
            ground arith in
          rw goal (copied x ∙ (rw outside (p.bytes x)))
    ]

  pub step-ReadUpTo :
      (w j a : ℕ) (ip : Inode) (d : Disk) (t t' : Target)
      → ReadUpTo w ip d t
      → off + (w + j) ≤ maxfile * bsize
      → a ≢ 0
      → slot ip d (slot_of ((off + w) / bsize)) ≡ a
      → j ≤ bsize - (off + w) % bsize
      → ((x : ℕ)
          → t'.bytes x ≡ (
              if leb (dst + w) x && ltb x (dst + w + j)
              then d.block a ((off + w) % bsize + (x - (dst + w)))
              else t.bytes x))
      → t'.writable ≡ t.writable
      → ReadUpTo (w + j) ip d t'
  step-ReadUpTo w j a ip d t t' p range pos at le copied same = record {
    keeps = p.keeps;
    bytes = step-bytes w j a ip d t t' p range pos at le copied;
    writable = same ∙ p.writable;
  }
