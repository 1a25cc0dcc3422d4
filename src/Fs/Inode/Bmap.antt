-- ===== src/Fs/Inode/Bmap.antt =====
-- `bmap` of kernel/fs.c: it finds the block of a part of the file or gives it a fresh one.
use os_assignments.Prelude.{
  ℕ, ◌+◌, ◌-◌, ◌*◌, ◌≤◌, ◌<◌, ◌≡◌, ◌≢◌, refl, sym, ap, ◌⊎◌, inl, inr, fun_ext, ◌∙◌, arith, true,
  false, ◌==◌, leb, ltb, Bool-cases, ==→eq, ==_false→ne, Option, none, some, ◌>>=◌,
}
use mathlib.Core.Path.{subst}
use os_assignments.Fs.{SuperBlock, Disk, set_block, log_write, balloc}
use os_assignments.Fs.Blocks.{in_use, with_block, in_use-with_block, Allocates, balloc-Allocates}
use os_assignments.Fs.Inode.{
  Inode, ndirect, nindirect, maxfile, get32, put32, set_addr, ensure, bmap_entry, bmap,
}
use os_assignments.Fs.Inode.Slots.{slot, slot_of, IsSound, Grown-IsSound, fresh-pos}
use os_assignments.Fs.Inode.Grow.{
  Keeps, Keeps-refl, Keeps-trans, Grown-Keeps, direct-Grown, entry-Grown, filled_in,
}

-- An entry of the inode that is there already.
set_addr_self : (k : ℕ) (ip : Inode) → set_addr k (ip.addrs k) ip ≡ ip
set_addr_self k ip = ap (λ f. record ip { addrs = f }) (fun_ext (λ i. ground arith))

pub slot-direct : (ip : Inode) (d : Disk) (k : ℕ) → k ≤ ndirect → slot ip d k ≡ ip.addrs k
unfolding slot
slot-direct ip d k le = ground arith

pub slot-entry :
    (ip : Inode) (d : Disk) (j : ℕ)
    → ip.addrs ndirect ≢ 0
    → slot ip d (j + (ndirect + 1)) ≡ get32 (j * 4) (d.block (ip.addrs ndirect))
unfolding slot
slot-entry ip d j some_ind =
    let high : leb (j + (ndirect + 1)) ndirect ≡ false = ground arith in
    let there : (ip.addrs ndirect == 0) ≡ false = ground arith in
    let place : j + (ndirect + 1) - (ndirect + 1) ≡ j = omega arith in rw (high, there, place) refl

pub slot-none :
    (ip : Inode) (d : Disk) (k : ℕ) → ip.addrs ndirect ≡ 0 → ndirect < k → slot ip d k ≡ 0
unfolding slot
slot-none ip d k none_yet lt = ground arith

-- The block `a` for slot `k`: the one that is there, or else a fresh one.
abbrev pub Gets : SuperBlock → Inode → (k : ℕ) → Disk → ℕ × Inode × Disk → Type 0
Gets sb ip k d (a, ip', d') =
    (a ≢ 0)
    × (slot ip' d' k ≡ a)
    × Keeps sb ip d ip' d'
    × ((slot ip d k ≡ 0) ⊎ ((a ≡ slot ip d k) × (d' ≡ d)))

abbrev pub Full : SuperBlock → Disk → Type 0
Full sb d = (c : ℕ) → c < sb.size → in_use sb d c ≡ true

abbrev GetsOrFull : SuperBlock → Inode → (k : ℕ) → Disk → Option (ℕ × Inode × Disk) → Type 0
GetsOrFull sb ip k d none = Full sb d
GetsOrFull sb ip k d (some r) = Gets sb ip k d r

-- How `bmap` ends: with the block, or by a panic on a disk with one free block at most.
abbrev pub Maps : SuperBlock → Inode → (k : ℕ) → Disk → Option (ℕ × Inode × Disk) → Type 0
Maps sb ip k d none =
    (c e : ℕ) → c < sb.size → e < sb.size → in_use sb d c ≡ false → in_use sb d e ≡ false → c ≡ e
Maps sb ip k d (some r) = Gets sb ip k d r

GetsOrFull-Maps :
    (sb : SuperBlock) (ip : Inode) (k : ℕ) (d : Disk) (o : Option (ℕ × Inode × Disk))
    → GetsOrFull sb ip k d o
    → Maps sb ip k d o
GetsOrFull-Maps sb ip k d none full = λ c e lc le fc fe. absurd (ground (arith, full c lc))
GetsOrFull-Maps sb ip k d (some r) gets = gets

module _ (sb : SuperBlock) (ip : Inode) (d : Disk) (sound : IsSound sb ip d) where
  there-Gets : (k : ℕ) → slot ip d k ≢ 0 → Gets sb ip k d (slot ip d k, ip, d)
  there-Gets k s = (s, refl, Keeps-refl sb ip d sound, inr (refl, refl))

  direct-GetsOrFull :
      (k : ℕ) (o : Option (ℕ × Disk))
      → k ≤ ndirect
      → ip.addrs k ≡ 0
      → Allocates sb d o
      → GetsOrFull sb ip k d (o >>= λ (a, d1). some (a, set_addr k a ip, d1))
  direct-GetsOrFull k none le none_yet all = all
  direct-GetsOrFull k (some (a, d1)) le none_yet (on_disk, fresh, before, e) =
      let g = direct-Grown sb ip d sound a on_disk fresh k le none_yet in
      let ip1 = set_addr k a ip in
      let d2 = with_block sb a d in
      rw e (
        fresh-pos sb k a ip d ip1 d2 sound g,
        g.filled,
        Grown-Keeps sb k a ip d ip1 d2 sound g,
        inl g.empty,
      )

  ensure-GetsOrFull :
      (k : ℕ)
      → k ≤ ndirect
      → GetsOrFull sb ip k d (ensure sb (ip.addrs k) d >>= λ (a, d1). some (a, set_addr k a ip, d1))
  ensure-GetsOrFull k le = elim (Bool-cases (ip.addrs k == 0)) [
    | inl z ↦
        rw z (direct-GetsOrFull k (balloc sb d) le (==→eq (ip.addrs k) 0 z) (balloc-Allocates sb d))
    | inr s ↦
        let here = slot-direct ip d k le in
        let some_block : slot ip d k ≢ 0 = λ e. ==_false→ne (ip.addrs k) 0 s (sym here ∙ e) in
        rw (s, set_addr_self k ip)
          (subst (λ a. Gets sb ip k d (a, ip, d)) here (there-Gets k some_block))
  ]

  module _ (j : ℕ) (some_ind : ip.addrs ndirect ≢ 0) (lj : j < nindirect) where
    fill-GetsOrFull :
        (o : Option (ℕ × Disk))
        → get32 (j * 4) (d.block (ip.addrs ndirect)) ≡ 0
        → Allocates sb d o
        → GetsOrFull sb ip (j + (ndirect + 1)) d (
            o >>= λ (a, d1). some (
              a,
              ip,
              log_write
                  (ip.addrs ndirect)
                  (set_block (ip.addrs ndirect) (put32 (j * 4) a (d1.block (ip.addrs ndirect))) d1),
            ))
    fill-GetsOrFull none none_yet all = all
    fill-GetsOrFull (some (a, d1)) none_yet (on_disk, fresh, before, e) =
        let k = j + (ndirect + 1) in
        let g = entry-Grown sb ip d sound a on_disk fresh some_ind j lj none_yet in
        let d2 = filled_in sb ip d sound a on_disk fresh some_ind j in
        rw e (
          fresh-pos sb k a ip d ip d2 sound g,
          g.filled,
          Grown-Keeps sb k a ip d ip d2 sound g,
          inl g.empty,
        )

    entry-GetsOrFull :
        GetsOrFull sb ip (j + (ndirect + 1)) d (bmap_entry sb (ip.addrs ndirect) j ip d)
    unfolding bmap_entry
    entry-GetsOrFull =
        let here = slot-entry ip d j some_ind in
        let entry = get32 (j * 4) (d.block (ip.addrs ndirect)) in
        elim (Bool-cases (entry == 0)) [
          | inl z ↦ rw z (fill-GetsOrFull (balloc sb d) (==→eq entry 0 z) (balloc-Allocates sb d))
          | inr s ↦
              let some_block : slot ip d (j + (ndirect + 1)) ≢ 0 =
                λ e. ==_false→ne entry 0 s (sym here ∙ e) in
              rw s (
                subst (λ a. Gets sb ip (j + (ndirect + 1)) d (a, ip, d)) here
                  (there-Gets (j + (ndirect + 1)) some_block))
        ]

module _ (sb : SuperBlock) (ip : Inode) (d : Disk) (sound : IsSound sb ip d) (j : ℕ)
    (lj : j < nindirect) where
  abbrev k : ℕ
  k = j + (ndirect + 1)

  abbrev through_indirect : ℕ × Disk → Option (ℕ × Inode × Disk)
  through_indirect (ind, d1) = bmap_entry sb ind j (set_addr ndirect ind ip) d1

  -- Behind a fresh indirect block.
  behind_fresh :
      (ind : ℕ) (o : Option (ℕ × Inode × Disk))
      → ip.addrs ndirect ≡ 0
      → ind < sb.size
      → in_use sb d ind ≡ false
      → GetsOrFull sb (set_addr ndirect ind ip) k (with_block sb ind d) o
      → Maps sb ip k d o
  behind_fresh ind none none_yet on_disk fresh full =
      let used = in_use-with_block sb d ind sound.laid on_disk fresh in
      λ c e lc le fc fe. ground (arith, used c lc, used e le, full c lc, full e le)
  behind_fresh ind (some (a, ip2, d2)) none_yet on_disk fresh (pos, at, keeps, same) =
      let g = direct-Grown sb ip d sound ind on_disk fresh ndirect (omega arith) none_yet in
      let ip1 = set_addr ndirect ind ip in
      let d1 = with_block sb ind d in
      (
        pos,
        at,
        Keeps-trans sb ip d ip1 d1 ip2 d2 (Grown-Keeps sb ndirect ind ip d ip1 d1 sound g) keeps,
        inl (slot-none ip d k none_yet (omega arith)),
      )

  indirect-Maps :
      (o : Option (ℕ × Disk))
      → ip.addrs ndirect ≡ 0
      → Allocates sb d o
      → Maps sb ip k d (o >>= through_indirect)
  indirect-Maps none none_yet all = λ c e lc le fc fe. absurd (ground (arith, all c lc))
  indirect-Maps (some (ind, d1)) none_yet (on_disk, fresh, before, e) =
      let ip1 = set_addr ndirect ind ip in
      let d2 = with_block sb ind d in
      let g = direct-Grown sb ip d sound ind on_disk fresh ndirect (omega arith) none_yet in
      let pos = fresh-pos sb ndirect ind ip d ip1 d2 sound g in
      let sound1 = Grown-IsSound sb ndirect ind ip d ip1 d2 sound g in
      rw e (
        behind_fresh ind (bmap_entry sb ind j ip1 d2) none_yet on_disk fresh
          (entry-GetsOrFull sb ip1 d2 sound1 j pos lj))

  through-Maps : Maps sb ip k d (ensure sb (ip.addrs ndirect) d >>= through_indirect)
  through-Maps = elim (Bool-cases (ip.addrs ndirect == 0)) [
    | inl z ↦
        rw z (indirect-Maps (balloc sb d) (==→eq (ip.addrs ndirect) 0 z) (balloc-Allocates sb d))
    | inr s ↦
        rw (s, set_addr_self ndirect ip)
          (GetsOrFull-Maps sb ip k d (bmap_entry sb (ip.addrs ndirect) j ip d)
            (entry-GetsOrFull sb ip d sound j (==_false→ne (ip.addrs ndirect) 0 s) lj))
  ]

-- bmap of a block in range of a sound inode returns the block in its slot, and if there is none a
-- fresh one, which it stores there; then the inode is sound, its bytes and size are what they
-- were, and the blocks that belong to others are unchanged. It panics only if at most one block of
-- the disk is free.
-- `bmap` of a block below MAXFILE on a sound inode gives the block that is there with nothing changed,
-- or a fresh one, keeps the inode sound, its bytes and size, and everybody else's blocks, and
-- panics only with one free block at most.
pub bmap-Maps :
    (sb : SuperBlock) (ip : Inode) (d : Disk)
    → IsSound sb ip d
    → (bn : ℕ) → bn < maxfile
    → Maps sb ip (slot_of bn) d (bmap sb ip bn d)
unfolding bmap
bmap-Maps sb ip d sound bn lt = elim (Bool-cases (ltb bn ndirect)) [
  | inl low ↦ rw low (
      GetsOrFull-Maps sb ip bn d
        (ensure sb (ip.addrs bn) d >>= λ (a, d1). some (a, set_addr bn a ip, d1))
        (ensure-GetsOrFull sb ip d sound bn (ground arith)))
  | inr high ↦
      let in_range : ltb (bn - ndirect) nindirect ≡ true = ground arith in
      let place : bn - ndirect + (ndirect + 1) ≡ bn + 1 = ground arith in
      rw (high, in_range)
        (subst
          (λ k. Maps sb ip k d (
            ensure sb (ip.addrs ndirect) d >>= λ (ind, d1).
            bmap_entry sb ind (bn - ndirect) (set_addr ndirect ind ip) d1))
          place (through-Maps sb ip d sound (bn - ndirect) (ground arith)))
]
