-- ===== src/Fs/Inode/Content.antt =====
-- What a change of the bytes of one block does to the file of kernel/fs.c, and how `either_copyin`
-- changes them.
use os_assignments.Prelude.{
  ℕ, zero, suc, ◌+◌, ◌-◌, ◌/◌, ◌%◌, ◌≤◌, ◌<◌, ◌≡◌, ◌≢◌, refl, sym, ◌∙◌, ◌⊎◌, inl, inr, arith, Bool,
  true, false, if◌then◌else◌, ◌==◌, ◌&&◌, leb, ltb, update, Bool-cases, ==→eq, Option, none, some,
  Option-cases,
}
use os_assignments.Fs.{Block, SuperBlock, Disk, bsize, bblock, set_block}
use os_assignments.Fs.Blocks.{in_use}
use os_assignments.Fs.Inode.{Inode, ndirect, Source, copy_in}
use os_assignments.Fs.Inode.Slots.{slot, slot_of, IsSound, content}
use os_assignments.Fs.Inode.Grow.{Foreign}

-- A block that is neither of the bitmap nor the indirect block is written: no slot changes.
module _ (sb : SuperBlock) (ip : Inode) (d : Disk) (x : ℕ) (v : Block)
    (not_ind : x ≢ slot ip d ndirect) where
  pub slot-set_block : (k : ℕ) → slot ip (set_block x v d) k ≡ slot ip d k
  unfolding slot
  slot-set_block k = elim (Bool-cases (ip.addrs ndirect == x)) [
    | inl e ↦ absurd (not_ind (ground (arith, ==→eq (ip.addrs ndirect) x e)))
    | inr e ↦ rw e refl
  ]

  module _ (sound : IsSound sb ip d) (no_bitmap : (c : ℕ) → c < sb.size → bblock c sb ≢ x) where
    in_use-set_block : (c : ℕ) → c < sb.size → in_use sb (set_block x v d) c ≡ in_use sb d c
    in_use-set_block c lt =
        let other : (bblock c sb == x) ≡ false = ground (arith, no_bitmap c lt) in rw other refl

    pub set_block-IsSound : IsSound sb ip (set_block x v d)
    set_block-IsSound = record {
      laid = λ c lt.
          let (low, used) = sound.laid c lt in (low, in_use-set_block (bblock c sb) low ∙ used);
      small = sound.small;
      boot = in_use-set_block 0 sound.some_disk ∙ sound.boot;
      some_disk = sound.some_disk;
      used = λ k lt s.
          let e = slot-set_block k in
          let (low, used) = sound.used k lt (λ z. s (e ∙ z)) in
          rw e (low, in_use-set_block (slot ip d k) low ∙ used);
      no_bitmap = λ k c lt s h.
          let e = slot-set_block k in λ z. sound.no_bitmap k c lt (λ z'. s (e ∙ z')) h (z ∙ e);
      apart = λ k j lk lj s e.
          sound.apart k j lk lj (λ z. s (slot-set_block k ∙ z))
            (sym (slot-set_block k) ∙ (e ∙ slot-set_block j));
    }

    pub set_block-Foreign :
        (y : ℕ)
        → y ≢ x
        → Foreign sb ip d y
        → Foreign sb ip (set_block x v d) y × ((set_block x v d).block y ≡ d.block y)
    set_block-Foreign y other (low, used, free, mine) = (
      (low, in_use-set_block y low ∙ used, free, λ k lt e. mine k lt (e ∙ slot-set_block k)),
      ground arith,
    )

  -- The file's bytes behind the write, in the block that was written and elsewhere.
  pub content-set_here :
      (i : ℕ)
      → slot ip d (slot_of (i / bsize)) ≡ x
      → x ≢ 0
      → content ip (set_block x v d) i ≡ v (i % bsize)
  unfolding content
  content-set_here i here pos =
      let there : (x == 0) ≡ false = ground arith in
      let self : (x == x) ≡ true = ground arith in
      rw (slot-set_block (slot_of (i / bsize)), here, there, self) refl

  pub content-set_other :
      (i : ℕ)
      → slot ip d (slot_of (i / bsize)) ≢ x
      → content ip (set_block x v d) i ≡ content ip d i
  unfolding content
  content-set_other i other =
      let apart : (slot ip d (slot_of (i / bsize)) == x) ≡ false = ground arith in
      rw (slot-set_block (slot_of (i / bsize)), apart) refl

pub content-here :
    (ip : Inode) (d : Disk) (i a : ℕ)
    → slot ip d (slot_of (i / bsize)) ≡ a
    → a ≢ 0
    → content ip d i ≡ d.block a (i % bsize)
unfolding content
content-here ip d i a here pos =
    let there : (a == 0) ≡ false = ground arith in rw (here, there) refl

abbrev pub byte : Option ℕ → ℕ
byte none = 0
byte (some x) = x

-- What a copy of up to `m` bytes has done: `j` of them, all if it succeeds, and up to a fault if not.
abbrev pub Copied : (m p src : ℕ) → Source → Block → Bool × Block → Type 0
Copied m p src mem v (done, v') =
    (j : ℕ) × (j ≤ m)
    × (((done ≡ true) × (j ≡ m)) ⊎ ((done ≡ false) × (j < m) × (mem (src + j) ≡ none)))
    × ((x : ℕ) → v' x ≡ (if leb p x && ltb x (p + j) then byte (mem (src + (x - p))) else v x))

pub copy_in-Copied :
    (m p src : ℕ) (mem : Source) (v : Block) → Copied m p src mem v (copy_in m p src mem v)
unfolding copy_in
copy_in-Copied zero p src mem v = (0, omega arith, inl (refl, refl), λ x. ground arith)
copy_in-Copied (suc m) p src mem v = elim (Option-cases (mem src)) [
  | inl fault ↦
      rw (fault, copy_in)
        (0, omega arith, inr (refl, omega arith, ground (arith, fault)), λ x. ground arith)
  | inr (b, e) ↦
      let (j, le, why, bytes) = copy_in-Copied m (p + 1) (src + 1) mem (update v p b) in
      rw (e, copy_in) (j + 1, omega arith, ground (arith, why), λ x. ground (arith, bytes x, e))
]
