-- ===== src/Fs/Inode/Slots.antt =====
-- The blocks that an inode of kernel/fs.c names, as one table of slots: its direct blocks, the
-- indirect block, and the entries of that block.
use os_assignments.Prelude.{
  ℕ, ◌+◌, ◌-◌, ◌*◌, ◌/◌, ◌%◌, ◌^◌, ◌<◌, ◌≡◌, ◌≢◌, refl, sym, ap, ◌∙◌, ◌⊎◌, inl, inr, arith, none,
  true, false, if◌then◌else◌, ◌==◌, leb, ltb, Bool-cases, ==→eq, ==_false→ne,
}
use os_assignments.Fs.{SuperBlock, Disk, bsize, bblock}
use os_assignments.Fs.Blocks.{in_use, HasBitmap}
use os_assignments.Fs.Logged.{Logs}
use os_assignments.Fs.Inode.{Inode, ndirect, maxfile, get32}

abbrev pub nslots : ℕ
nslots = maxfile + 1

-- The block in a slot, 0 for none.
unfoldable pub slot : Inode → Disk → ℕ → ℕ
slot ip d k =
    if leb k ndirect
    then ip.addrs k
    else if ip.addrs ndirect == 0
    then 0
    else get32 ((k - (ndirect + 1)) * 4) (d.block (ip.addrs ndirect))

-- The slot of the file's block `bn`.
abbrev pub slot_of : ℕ → ℕ
slot_of bn = if ltb bn ndirect then bn else bn + 1

-- The inode's blocks are its own: each in use, none of the bitmap, and no two the same.
pub record IsSound (sb : SuperBlock) (ip : Inode) (d : Disk) : Type 0 where
  pub laid : HasBitmap sb d
  pub small : sb.size < 2 ^ 31
  pub some_disk : 0 < sb.size
  pub boot : in_use sb d 0 ≡ true
  pub used :
      (k : ℕ)
      → k < nslots
      → slot ip d k ≢ 0
      → (slot ip d k < sb.size) × (in_use sb d (slot ip d k) ≡ true)
  pub no_bitmap : (k c : ℕ) → k < nslots → slot ip d k ≢ 0 → c < sb.size → bblock c sb ≢ slot ip d k
  pub apart :
      (k j : ℕ) → k < nslots → j < nslots → slot ip d k ≢ 0 → slot ip d k ≡ slot ip d j → k ≡ j

-- Byte `i` of the file, 0 where it has no block.
unfoldable pub content : Inode → Disk → (i : ℕ) → ℕ
content ip d i =
    let a = slot ip d (slot_of (i / bsize)) in if a == 0 then 0 else d.block a (i % bsize)

-- Slot `k` was empty and now has the fresh block `a`, full of zeros; the rest is as it was.
pub record Grown (sb : SuperBlock) (k a : ℕ) (ip : Inode) (d : Disk) (ip' : Inode) (d' : Disk)
    : Type 0 where
  pub range : k < nslots
  pub on_disk : a < sb.size
  pub fresh : in_use sb d a ≡ false
  pub empty : slot ip d k ≡ 0
  pub filled : slot ip' d' k ≡ a
  pub others : (j : ℕ) → j < nslots → j ≢ k → slot ip' d' j ≡ slot ip d j
  pub zeroed : (i : ℕ) → d'.block a i ≡ 0
  pub marked : (c : ℕ) → c < sb.size → in_use sb d' c ≡ (if c == a then true else in_use sb d c)
  pub kept :
      (x : ℕ)
      → in_use sb d x ≡ true
      → ((c : ℕ) → c < sb.size → bblock c sb ≢ x)
      → x ≢ slot ip d ndirect
      → d'.block x ≡ d.block x
  pub inum : ip'.inum ≡ ip.inum
  pub size : ip'.size ≡ ip.size
  pub logs : Logs none d d'

module _ (sb : SuperBlock) (k a : ℕ) (ip : Inode) (d : Disk) (ip' : Inode) (d' : Disk)
    (sound : IsSound sb ip d) (g : Grown sb k a ip d ip' d') where
  fresh-ne : (j : ℕ) → j < nslots → slot ip d j ≢ 0 → slot ip d j ≢ a
  fresh-ne j lt some_block e =
      ground (arith, ap (in_use sb d) e, sound.used j lt some_block, g.fresh)

  pub fresh-pos : a ≢ 0
  fresh-pos e = ground (arith, ap (in_use sb d) e, sound.boot, g.fresh)

  fresh-no_bitmap : (c : ℕ) → c < sb.size → bblock c sb ≢ a
  fresh-no_bitmap c lt e = ground (arith, ap (in_use sb d) e, sound.laid c lt, g.fresh)

  still_used : (c : ℕ) → c < sb.size → in_use sb d c ≡ true → in_use sb d' c ≡ true
  still_used c lt h = ground (arith, g.marked c lt, h)

  now_used : in_use sb d' a ≡ true
  now_used = ground (arith, g.marked a g.on_disk)

  -- A slot behind the change.
  pub slot_cases :
      (j : ℕ)
      → j < nslots
      → ((j ≡ k) × (slot ip' d' j ≡ a)) ⊎ ((j ≢ k) × (slot ip' d' j ≡ slot ip d j))
  slot_cases j lt = elim (Bool-cases (j == k)) [
    | inl e ↦ inl (==→eq j k e, ap (slot ip' d') (==→eq j k e) ∙ g.filled)
    | inr e ↦ inr (==_false→ne j k e, g.others j lt (==_false→ne j k e))
  ]

  Grown-used :
      (j : ℕ)
      → j < nslots
      → slot ip' d' j ≢ 0
      → (slot ip' d' j < sb.size)
        × (in_use sb d' (slot ip' d' j) ≡ true)
        × ((c : ℕ) → c < sb.size → bblock c sb ≢ slot ip' d' j)
  Grown-used j lt some_block = elim (slot_cases j lt) [
    | inl (same, e) ↦ rw e (g.on_disk, now_used, λ c h. fresh-no_bitmap c h)
    | inr (other, e) ↦
        let some_before : slot ip d j ≢ 0 = λ z. some_block (e ∙ z) in
        let (low, used) = sound.used j lt some_before in
        rw e (low, still_used (slot ip d j) low used, λ c h. sound.no_bitmap j c lt some_before h)
  ]

  Grown-apart :
      (i j : ℕ)
      → i < nslots
      → j < nslots
      → slot ip' d' i ≢ 0
      → slot ip' d' i ≡ slot ip' d' j
      → i ≡ j
  Grown-apart i j li lj some_block same = elim (slot_cases i li) [
    | inl (ik, ei) ↦ elim (slot_cases j lj) [
      | inl (jk, ej) ↦ ik ∙ sym jk
      | inr (jk, ej) ↦
          absurd (fresh-ne j lj (λ z. some_block (same ∙ (ej ∙ z))) (sym ej ∙ (sym same ∙ ei)))
    ]
    | inr (ik, ei) ↦ elim (slot_cases j lj) [
      | inl (jk, ej) ↦ absurd (fresh-ne i li (λ z. some_block (ei ∙ z)) (sym ei ∙ (same ∙ ej)))
      | inr (jk, ej) ↦ sound.apart i j li lj (λ z. some_block (ei ∙ z)) (sym ei ∙ (same ∙ ej))
    ]
  ]

  pub Grown-IsSound : IsSound sb ip' d'
  Grown-IsSound = record {
    laid = λ c lt.
        ((sound.laid c lt).0, still_used (bblock c sb) (sound.laid c lt).0 (sound.laid c lt).1);
    small = sound.small;
    some_disk = sound.some_disk;
    boot = still_used 0 sound.some_disk sound.boot;
    used = λ j lt some_block. let u = Grown-used j lt some_block in (u.0, u.1);
    no_bitmap = λ j c lt some_block h. (Grown-used j lt some_block).2 c h;
    apart = Grown-apart;
  }

  -- The bytes of the file are what they were.
  pub Grown-content : (i : ℕ) → i < maxfile * bsize → content ip' d' i ≡ content ip d i
  unfolding content
  Grown-content i lt =
      let j = slot_of (i / bsize) in
      let range : j < nslots = ground arith in
      let not_indirect : j ≢ ndirect = ground arith in
      elim (slot_cases j range) [
        | inl (same, e) ↦
            let before : slot ip d j ≡ 0 = ap (slot ip d) same ∙ g.empty in
            ground (arith, e, before, g.zeroed (i % bsize))
        | inr (other, e) ↦ elim (Bool-cases (slot ip d j == 0)) [
          | inl z ↦ ground (arith, e, z)
          | inr s ↦
              let some_block = ==_false→ne (slot ip d j) 0 s in
              let bytes =
                g.kept (slot ip d j) (sound.used j range some_block).1
                  (λ c h. sound.no_bitmap j c range some_block h)
                  (λ e'. not_indirect (sound.apart j ndirect range (omega arith) some_block e')) in
              rw (e, bytes) refl
        ]
      ]
