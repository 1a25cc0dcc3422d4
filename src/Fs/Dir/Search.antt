-- ===== src/Fs/Dir/Search.antt =====
-- What `dirlookup` of kernel/fs.c finds, on the bytes of the directory.
use os_assignments.Prelude.{
  ℕ, zero, suc, ◌+◌, ◌-◌, ◌*◌, ◌%◌, ◌≤◌, ◌<◌, ◌≡◌, refl, ap, ◌∙◌, inl, inr, arith, true, false,
  if◌then◌else◌, ◌==◌, ◌&&◌, not, leb, ltb, Bool-cases, ==→eq, ==_false→ne, Option, none, some,
}
use mathlib.Core.Path.{subst}
use os_assignments.Fs.{SuperBlock, Disk, bsize}
use os_assignments.Fs.Inode.{Inode, maxfile, Target, WasRead, readi}
use os_assignments.Fs.Inode.Slots.{IsSound, content}
use os_assignments.Fs.Inode.Grow.{Keeps, Keeps-refl, Keeps-trans}
use os_assignments.Fs.Inode.ReadUpTo.{ReadCrowded, Reads}
use os_assignments.Fs.Inode.Read.{readable, readi-Reads}
use os_assignments.Fs.Dir.{
  entry_inum, same_name, is_entry, Lookup, entry_at, absent, Searched, dirlookup_loop, dirlookup,
}

-- Only the 16 bytes of an entry count.
same_name_same :
    (n i p q : ℕ) (name bytes bytes' : ℕ → ℕ)
    → ((j : ℕ) → j < i + n → bytes' (q + j) ≡ bytes (p + j))
    → same_name n i name bytes' q ≡ same_name n i name bytes p
unfolding same_name
same_name_same zero i p q name bytes bytes' same = refl
same_name_same (suc n) i p q name bytes bytes' same =
    rw
      (
        same i (omega arith),
        same_name_same n (i + 1) p q name bytes bytes' (λ j lt. same j (omega arith)),
      )
      refl

behind_inum :
    (p q : ℕ) (bytes bytes' : ℕ → ℕ)
    → ((j : ℕ) → j < 16 → bytes' (q + j) ≡ bytes (p + j))
    → (j : ℕ) → j < 14
    → bytes' (q + 2 + j) ≡ bytes (p + 2 + j)
behind_inum p q bytes bytes' same j lt =
    let a : p + 2 + j ≡ p + (j + 2) = omega arith in
    let b : q + 2 + j ≡ q + (j + 2) = omega arith in rw (a, b) (same (j + 2) (omega arith))

entry_inum_same :
    (p : ℕ) (bytes bytes' : ℕ → ℕ)
    → ((j : ℕ) → j < 16 → bytes' (0 + j) ≡ bytes (p + j))
    → entry_inum bytes' 0 ≡ entry_inum bytes p
entry_inum_same p bytes bytes' same =
    let z : p + 0 ≡ p = omega arith in
    ground (arith, same 0 (omega arith) ∙ ap bytes z, same 1 (omega arith))

is_entry_same :
    (p q : ℕ) (name bytes bytes' : ℕ → ℕ)
    → ((j : ℕ) → j < 16 → bytes' (q + j) ≡ bytes (p + j))
    → is_entry name bytes' q ≡ is_entry name bytes p
unfolding is_entry
is_entry_same p q name bytes bytes' same =
    let a : bytes' q ≡ bytes p = ground (arith, same 0 (omega arith)) in
    let b = same 1 (omega arith) in
    rw
      (
        a,
        b,
        same_name_same 14 0 (p + 2) (q + 2) name bytes bytes'
            (λ j lt. behind_inum p q bytes bytes' same j lt),
      )
      refl

module _ (sb : SuperBlock) (name : ℕ → ℕ) (ip0 : Inode) (d0 : Disk) where
  -- No entry in front of `off` has the name.
  abbrev pub NoneBefore : (off : ℕ) → Type 0
  NoneBefore off = (i : ℕ) → i * 16 < off → is_entry name (content ip0 d0) (i * 16) ≡ false

  abbrev pub At : Lookup → Type 0
  At (entry_at off inum) =
      (i : ℕ) × (off ≡ i * 16)
      × (off < ip0.size)
      × (is_entry name (content ip0 d0) off ≡ true)
      × (inum ≡ entry_inum (content ip0 d0) off)
      × NoneBefore off
  At absent = NoneBefore ip0.size

  -- How the search ends: with the first entry that has the name, or with none in the whole directory,
  -- which is the same as before; or by the panic of `balloc`.
  abbrev pub Finds : Option Searched → Type 0
  Finds none = (ip : Inode) × (d : Disk) × Keeps sb ip0 d0 ip d × ReadCrowded sb ip d 16
  Finds (some s) = Keeps sb ip0 d0 s.inode s.disk × At s.lookup

  module _ (size : ip0.size ≤ maxfile * bsize) (whole : ip0.size % 16 ≡ 0) where
    NoneBefore-more :
        (i : ℕ)
        → is_entry name (content ip0 d0) (i * 16) ≡ false
        → NoneBefore (i * 16)
        → NoneBefore (i * 16 + 16)
    NoneBefore-more i other before j lt = elim (Bool-cases (j == i)) [
      | inl e ↦ ap (λ j. is_entry name (content ip0 d0) (j * 16)) (==→eq j i e) ∙ other
      | inr e ↦ before j (ground (arith, ==_false→ne j i e))
    ]

    module _ (k i : ℕ) (ip : Inode) (d : Disk) (keeps : Keeps sb ip0 d0 ip d)
        (lt : i * 16 < ip0.size) (before : NoneBefore (i * 16))
        (loop : (ip1 : Inode) (d1 : Disk) (t : Target)
          → ((a : ℕ) → t.writable a ≡ true)
          → Keeps sb ip0 d0 ip1 d1
          → NoneBefore (i * 16 + 16)
          → Finds (dirlookup_loop k sb name (i * 16 + 16) ip1 d1 t)) where
      after_readi :
          (de : Target) (o : Option WasRead)
          → ((a : ℕ) → de.writable a ≡ true)
          → Reads sb ip d de (i * 16) 0 16 o
          → Finds (elim o [
            | none ↦ none
            | some r ↦
                if not (r.ret == 16)
                then none
                else if is_entry name r.target.bytes 0
                then some (record {
                  lookup = entry_at (i * 16) (entry_inum r.target.bytes 0);
                  inode = r.inode;
                  disk = r.disk;
                })
                else dirlookup_loop k sb name (i * 16 + 16) r.inode r.disk r.target
          ])
      after_readi de none writable crowded = (ip, d, keeps, crowded)
      after_readi de (some r) writable (w, p, inr (ret, less, fault)) =
          absurd (ground (arith, writable (0 + w), fault))
      after_readi de (some r) writable (w, p, inl (ret, all)) =
          let full : (r.ret == 16) ≡ true = ground (arith, ret) in
          let keeps1 = Keeps-trans sb ip0 d0 ip d r.inode r.disk keeps p.keeps in
          let same : (j : ℕ) → j < 16 → r.target.bytes (0 + j) ≡ content ip0 d0 (i * 16 + j) =
            λ j lj.
              let z : 0 + j ≡ j = omega arith in
              let within : (leb 0 j && ltb j (0 + w)) ≡ true = ground arith in
              let place : i * 16 + (j - 0) ≡ i * 16 + j = omega arith in
              ap r.target.bytes z
              ∙ (p.bytes j
                  ∙ (rw (within, place) (keeps.bytes (i * 16 + j) (ground (arith, whole))))) in
          let inum : entry_inum r.target.bytes 0 ≡ entry_inum (content ip0 d0) (i * 16) =
            entry_inum_same (i * 16) (content ip0 d0) r.target.bytes same in
          let entry = is_entry_same (i * 16) 0 name (content ip0 d0) r.target.bytes same in
          elim (Bool-cases (is_entry name (content ip0 d0) (i * 16))) [
            | inl here ↦ rw (full, entry, here) (keeps1, (i, refl, lt, here, inum, before))
            | inr other ↦
                rw (full, entry, other)
                  (loop r.inode r.disk r.target (λ a. ap (λ f. f a) p.writable ∙ writable a) keeps1
                    (NoneBefore-more i other before))
          ]

    dirlookup_loop-Finds :
        (k i : ℕ) (ip : Inode) (d : Disk) (de : Target)
        → Keeps sb ip0 d0 ip d
        → ip0.size ≤ i * 16 + k
        → ((a : ℕ) → de.writable a ≡ true)
        → NoneBefore (i * 16)
        → Finds (dirlookup_loop k sb name (i * 16) ip d de)
    unfolding dirlookup_loop
    dirlookup_loop-Finds zero i ip d de keeps fuel writable before =
        (keeps, λ j lt. before j (omega arith))
    dirlookup_loop-Finds (suc k) i ip d de keeps fuel writable before =
        elim (Bool-cases (ltb (i * 16) ip.size)) [
          | inr past ↦ rw past (keeps, λ j lt. before j (ground (arith, keeps.size)))
          | inl more ↦
              let lt : i * 16 < ip0.size = ground (arith, keeps.size) in
              let all : readable ip (i * 16) 16 ≡ 16 = ground (arith, keeps.size, whole) in
              let next : i * 16 + 16 ≡ (i + 1) * 16 = omega arith in
              let loop : (ip1 : Inode) (d1 : Disk) (t : Target)
                  → ((a : ℕ) → t.writable a ≡ true)
                  → Keeps sb ip0 d0 ip1 d1
                  → NoneBefore (i * 16 + 16)
                  → Finds (dirlookup_loop k sb name (i * 16 + 16) ip1 d1 t) =
                λ ip1 d1 t wr ks b. rw next (
                  dirlookup_loop-Finds k (i + 1) ip1 d1 t ks (omega arith) wr
                    (subst NoneBefore next b)) in
              rw more (
                after_readi k i ip d keeps lt before loop de (readi sb ip 0 (i * 16) 16 d de)
                  writable
                  (subst (λ n. Reads sb ip d de (i * 16) 0 n (readi sb ip 0 (i * 16) 16 d de)) all
                    (readi-Reads sb ip d de (i * 16) 0 16 keeps.sound (ground (arith, keeps.size))
                      (ground (arith, size)) (omega arith))))
        ]

-- dirlookup of a sound directory of whole entries, with its kernel buffer: it finds the first entry in use
-- that has the name, as strncmp compares it, with its place and inode number, or none in the whole
-- directory; the directory keeps its bytes, and the only panic is that of balloc for a hole of the
-- directory, with one free block at most.
pub dirlookup-Finds :
    (sb : SuperBlock) (name : ℕ → ℕ) (ip : Inode) (d : Disk) (de : Target)
    → IsSound sb ip d
    → ip.type ≡ 1
    → ip.size ≤ maxfile * bsize
    → ip.size % 16 ≡ 0
    → ((a : ℕ) → de.writable a ≡ true)
    → Finds sb name ip d (dirlookup sb name ip d de)
unfolding dirlookup
dirlookup-Finds sb name ip d de sound dir size whole writable =
    let is_dir : (ip.type == 1) ≡ true = ground (arith, dir) in
    rw is_dir (
      dirlookup_loop-Finds sb name ip d size whole ip.size 0 ip d de (Keeps-refl sb ip d sound)
        (omega arith) writable (λ i lt. absurd (omega arith)))
