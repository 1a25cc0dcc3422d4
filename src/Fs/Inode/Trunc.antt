-- ===== src/Fs/Inode/Trunc.antt =====
-- `itrunc` of kernel/fs.c: it frees every block of an inode and nothing else.
use os_assignments.Prelude.{
  ℕ, zero, suc, ◌+◌, ◌%◌, ◌≤◌, ◌<◌, ◌≡◌, ◌≢◌, refl, sym, ap, ◌∙◌, inl, inr, arith, true, false,
  ◌==◌, ltb, Bool-cases, ==→eq, ==_false→ne, Option, none, some, Option-cases, On, ◌>>=◌,
}
use mathlib.Core.Path.{subst}
use os_assignments.Fs.{SuperBlock, Disk, bblock, bit_at, bfree, bpb}
use os_assignments.Fs.Blocks.{in_use, bfree-Frees}
use os_assignments.Fs.Logged.{Logs, Logs-refl, Logs-trans}
use os_assignments.Fs.Inode.{
  Inode, ndirect, nindirect, put_inode, iblock, iupdate, set_addr, free_addr, trunc_direct,
  trunc_entries, trunc_indirect, itrunc,
}
use os_assignments.Fs.Inode.Slots.{nslots, slot, IsSound}
use os_assignments.Fs.Inode.Grow.{Foreign}
use os_assignments.Fs.Inode.Bmap.{slot-direct, slot-none}
use os_assignments.Fs.Inode.Wrote.{iupdate-block, iupdate-other, iupdate-Logs, iupdate-logged}
use os_assignments.Fs.Inode.Free.{
  Freed, with_slot, done_entries, WithoutDirect, Freed-same, all-Freed, after_bfree,
  trunc_direct-Freed, trunc_entries-Freed,
}

-- The inode has no blocks, its blocks are free, the others are as they were, the inode is in its
-- block, and every block that has changed is logged, as is the inode's.
pub record Truncated (sb : SuperBlock) (ip : Inode) (d : Disk) (ip' : Inode) (d' : Disk)
    : Type 0 where
  pub size : ip'.size ≡ 0
  pub no_blocks : (k : ℕ) → k ≤ ndirect → ip'.addrs k ≡ 0
  pub same : (ip'.inum ≡ ip.inum) × (ip'.type ≡ ip.type) × (ip'.nlink ≡ ip.nlink)
  pub free : (k : ℕ) → k < nslots → slot ip d k ≢ 0 → in_use sb d' (slot ip d k) ≡ false
  pub others :
      (c : ℕ)
      → c < sb.size
      → ((k : ℕ) → k < nslots → slot ip d k ≢ c)
      → in_use sb d' c ≡ in_use sb d c
  pub bytes :
      (x : ℕ)
      → x ≢ iblock ip.inum sb
      → ((c : ℕ) → c < sb.size → bblock c sb ≢ x)
      → d'.block x ≡ d.block x
  pub in_block : d'.block (iblock ip.inum sb) ≡ put_inode ip' (d.block (iblock ip.inum sb))
  pub logged : On (iblock ip.inum sb) d'.logged
  pub logs : Logs none d d'

module _ (sb : SuperBlock) (ip : Inode) (d : Disk) (sound : IsSound sb ip d) where
  -- The inode without any block.
  abbrev Bare : Inode → Type 0
  Bare ip' =
      ((j : ℕ) → j ≤ ndirect → ip'.addrs j ≡ 0)
      × (ip'.inum ≡ ip.inum)
      × (ip'.type ≡ ip.type)
      × (ip'.nlink ≡ ip.nlink)

  trunc_indirect-Freed :
      (ip1 : Inode) (d1 : Disk)
      → WithoutDirect sb ip d sound ndirect ip1
      → Freed sb ip d sound (λ x. ltb x ndirect) d1
      → (ip2 : Inode) × (d2 : Disk) × (trunc_indirect sb ip1 d1 ≡ some (ip2, d2))
        × Bare ip2
        × Freed sb ip d sound (λ k. true) d2
  unfolding trunc_indirect
  trunc_indirect-Freed ip1 d1 w f =
      let here : ip1.addrs ndirect ≡ ip.addrs ndirect = w.0 ndirect in
      elim (Bool-cases (ip.addrs ndirect == 0)) [
        | inl e ↦
            let z : ip.addrs ndirect ≡ 0 = ==→eq (ip.addrs ndirect) 0 e in
            rw (here, e)
              (
                ip1,
                d1,
                refl,
                ((λ j le. ground (arith, w.0 j, z)), w.1, w.2, w.3),
                all-Freed sb ip d sound (λ x. ltb x ndirect) d1
                    (λ k lt some_block. ground (arith, slot-direct ip d k, slot-none ip d k z, z))
                    f,
              )
        | inr e ↦
            let some_ind = ==_false→ne (ip.addrs ndirect) 0 e in
            let f0 =
              Freed-same sb ip d sound (λ x. ltb x ndirect) (done_entries sb ip d sound 0) d1
                (λ k lt. ground arith) f in
            let (d2, entries, f2) =
              trunc_entries-Freed sb ip d sound some_ind nindirect 0 d1 refl f0 in
            let slot_ind = slot-direct ip d ndirect (omega arith) in
            let (d3, last, f3) =
              after_bfree sb ip d sound (done_entries sb ip d sound nindirect) d2 ndirect
                (bfree sb (slot ip d ndirect) d2) (omega arith) (ground arith)
                (λ z. some_ind (sym slot_ind ∙ z)) f2 (bfree-Frees sb (slot ip d ndirect) d2) in
            let freed : bfree sb (ip.addrs ndirect) d2 ≡ some d3 =
              ap (λ a. bfree sb a d2) (sym slot_ind) ∙ last in
            rw (here, e, entries, freed)
              (
                set_addr ndirect 0 ip1,
                d3,
                refl,
                ((λ j le. ground (arith, w.0 j)), w.1, w.2, w.3),
                all-Freed sb ip d sound
                    (with_slot sb ip d sound (done_entries sb ip d sound nindirect) ndirect) d3
                    (λ k lt some_block. ground arith) f3,
              )
      ]

  none-Freed : Freed sb ip d sound (λ x. ltb x 0) d
  none-Freed = record {
    gone = λ k lt e. absurd (ground (arith, e));
    still = λ c h. refl;
    kept = λ x h. refl;
    logs = Logs-refl d;
  }

  updated-Truncated :
      (ip2 : Inode) (d2 : Disk)
      → Foreign sb ip d (iblock ip.inum sb)
      → Bare ip2
      → Freed sb ip d sound (λ k. true) d2
      → Truncated sb ip d (record ip2 { size = 0 }) (iupdate sb (record ip2 { size = 0 }) d2)
  updated-Truncated ip2 d2 own (zeros, inum, type, nlink) f =
      let ip3 = record ip2 { size = 0 } in
      let b = iblock ip.inum sb in
      let here : iblock ip3.inum sb ≡ b = ap (λ x. iblock x sb) inum in
      let other = λ (x : ℕ) (ne : x ≢ b). iupdate-other sb ip3 d2 x (λ e. ne (e ∙ here)) in
      let same = λ (c : ℕ) (lt : c < sb.size).
        ap (λ v. bit_at (c % bpb) v) (other (bblock c sb) (own.2 c lt)) in
      record {
        size = refl;
        no_blocks = zeros;
        same = (inum, type, nlink);
        free = λ k lt some_block.
            same (slot ip d k) (sound.used k lt some_block).0 ∙ f.gone k lt refl some_block;
        others = λ c lt h. same c lt ∙ f.still c (λ k lk e. h k lk);
        bytes = λ x ne h. other x ne ∙ f.kept x h;
        in_block = iupdate-block sb ip3 d2 b here ∙ ap (put_inode ip3) (f.kept b own.2);
        logged = iupdate-logged sb ip3 d2 b here;
        logs = Logs-trans none d d2 (iupdate sb ip3 d2) f.logs (iupdate-Logs sb ip3 d2);
      }

  -- `itrunc` of a sound inode, whose own block on the disk is not one of the file's, does not panic: every
  -- block of the inode is free, every other block is as it was in the bitmap and in its bytes, and the
  -- inode without blocks and with size 0 is in its block. Every block that has changed is logged.
  pub itrunc-Truncated :
      Foreign sb ip d (iblock ip.inum sb)
      → (ip' : Inode) × (d' : Disk) × (itrunc sb ip d ≡ some (ip', d')) × Truncated sb ip d ip' d'
  unfolding itrunc
  itrunc-Truncated own =
      let (ip1, d1, direct, w, f1) =
        trunc_direct-Freed sb ip d sound ndirect 0 ip d refl ((λ j. ground arith), refl, refl, refl)
          none-Freed in
      let (ip2, d2, indirect, b, f2) = trunc_indirect-Freed ip1 d1 w f1 in
      rw (direct, indirect) (record ip2 { size = 0 }, _, refl, updated-Truncated ip2 d2 own b f2)

-- Whatever the blocks are, the inode keeps its number.
abbrev Names : (inum : ℕ) → Option (Inode × Disk) → Type 0
Names inum none = inum ≡ inum
Names inum (some (ip, d)) = ip.inum ≡ inum

trunc_direct-Names :
    (k : ℕ) (sb : SuperBlock) (i : ℕ) (ip : Inode) (d : Disk)
    → Names ip.inum (trunc_direct k sb i ip d)
unfolding trunc_direct
trunc_direct-Names zero sb i ip d = refl
trunc_direct-Names (suc k) sb i ip d = elim (Option-cases (free_addr sb (ip.addrs i) d)) [
  | inl e ↦ rw e refl
  | inr (d1, e) ↦ rw e (trunc_direct-Names k sb (i + 1) (set_addr i 0 ip) d1)
]

trunc_indirect-Names :
    (sb : SuperBlock) (ip : Inode) (d : Disk) → Names ip.inum (trunc_indirect sb ip d)
unfolding trunc_indirect
trunc_indirect-Names sb ip d = elim (Bool-cases (ip.addrs ndirect == 0)) [
  | inl z ↦ rw z refl
  | inr s ↦ elim (Option-cases (trunc_entries nindirect sb (ip.addrs ndirect) 0 d)) [
    | inl e ↦ rw (s, e) refl
    | inr (d1, e) ↦ elim (Option-cases (bfree sb (ip.addrs ndirect) d1)) [
      | inl e' ↦ rw (s, e, e') refl
      | inr (d2, e') ↦ rw (s, e, e') refl
    ]
  ]
]

after_indirect-Names :
    (sb : SuperBlock) (inum : ℕ) (o : Option (Inode × Disk))
    → Names inum o
    → Names inum
        (o >>= λ (ip2, d2). some (record ip2 { size = 0 }, iupdate sb (record ip2 { size = 0 }) d2))
after_indirect-Names sb inum none h = refl
after_indirect-Names sb inum (some (ip2, d2)) h = h

after_direct-Names :
    (sb : SuperBlock) (inum : ℕ) (o : Option (Inode × Disk))
    → Names inum o
    → Names inum (
        o >>= λ (ip1, d1). trunc_indirect sb ip1 d1 >>= λ (ip2, d2).
        some (record ip2 { size = 0 }, iupdate sb (record ip2 { size = 0 }) d2))
after_direct-Names sb inum none h = refl
after_direct-Names sb inum (some (ip1, d1)) h =
    after_indirect-Names sb inum (trunc_indirect sb ip1 d1)
      (subst (λ n. Names n (trunc_indirect sb ip1 d1)) h (trunc_indirect-Names sb ip1 d1))

pub itrunc-inum :
    (sb : SuperBlock) (ip : Inode) (d : Disk) (ip' : Inode) (d' : Disk)
    → itrunc sb ip d ≡ some (ip', d')
    → ip'.inum ≡ ip.inum
unfolding itrunc
itrunc-inum sb ip d ip' d' e = subst (Names ip.inum) e (
    after_direct-Names sb ip.inum (trunc_direct ndirect sb 0 ip d)
      (trunc_direct-Names ndirect sb 0 ip d))
